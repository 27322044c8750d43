-- ===== src/Services/Supervisor/Alive.antt =====
-- A supervisor that is started and not stopped always has exactly one thing going on.
use podokit.Base.{
  ℕ, ◌+◌, ◌≤◌, ◌≡◌, refl, sym, inl, inr, true, false, none, some, List, [], ◌∷◌, arith, ◌==◌,
  ==_iff, Bool-cases, keep_if, Text, nat_eq, text_eq,
}
use mathlib.Core.Path.{subst}
use podokit.Services.Supervisor.{
  Policy, Timer, Supervisor, create, delay_of, retry, attempt, start, stop, lost, connects, cancel,
  without, rejects, fires, Step, starts, stops, drops, connected, rejected, fired, Reaches, here,
  step,
}

pub data Phase (s : Supervisor) : Type 0 where
  idle :
      s.first_attempt ≡ false
      → s.up ≡ false
      → s.attempts ≡ []
      → s.timers ≡ []
      → s.cancel_retry ≡ none
      → Phase s
  is_up :
      s.first_attempt ≡ true
      → s.stopped ≡ false
      → s.up ≡ true
      → s.attempts ≡ []
      → s.timers ≡ []
      → s.cancel_retry ≡ none
      → Phase s
  connecting :
      (seen : ℕ)
      → s.first_attempt ≡ true
      → s.stopped ≡ false
      → s.up ≡ false
      → s.attempts ≡ seen ∷ []
      → s.timers ≡ []
      → s.cancel_retry ≡ none
      → Phase s
  waiting :
      (t : Timer)
      → s.first_attempt ≡ true
      → s.stopped ≡ false
      → s.up ≡ false
      → s.attempts ≡ []
      → s.timers ≡ t ∷ []
      → s.cancel_retry ≡ some t.id
      → t.delay_ms ≤ s.policy.max_delay_ms
      → Phase s
  ended :
      s.first_attempt ≡ true
      → s.stopped ≡ true
      → s.up ≡ false
      → s.timers ≡ []
      → s.cancel_retry ≡ none
      → Phase s

-- The outcome of an operation, field by field.
start-Phase : (s : Supervisor) → Phase s → Phase (start s)
unfolding start attempt
start-Phase s (Phase.idle f u a t c) = elim (Bool-cases s.stopped) [
  | inl e ↦ Phase.ended (ground arith) (ground arith) (ground arith) (ground arith) (ground arith)
  | inr e ↦
      Phase.connecting s.drops (ground arith) (ground arith) (ground arith) (ground arith)
        (ground arith) (ground arith)
]
start-Phase s (Phase.is_up f o u a t c) =
    Phase.is_up (ground arith) (ground arith) (ground arith) (ground arith) (ground arith)
      (ground arith)
start-Phase s (Phase.connecting n f o u a t c) =
    Phase.connecting n (ground arith) (ground arith) (ground arith) (ground arith) (ground arith)
      (ground arith)
start-Phase s (Phase.waiting n f o u a t c d) =
    Phase.waiting n (ground arith) (ground arith) (ground arith) (ground arith) (ground arith)
      (ground arith) (ground arith)
start-Phase s (Phase.ended f o u t c) =
    Phase.ended (ground arith) (ground arith) (ground arith) (ground arith) (ground arith)

cancel-last : (t : Timer) → cancel (some t.id) (t ∷ []) ≡ []
unfolding keep_if
cancel-last t = ground (arith, ==_iff t.id t.id)

stop-Phase : (s : Supervisor) → Phase s → Phase (stop s)
unfolding stop
stop-Phase s (Phase.idle f u a t c) = Phase.idle f refl a (rw (c, t) refl) refl
stop-Phase s (Phase.is_up f o u a t c) = Phase.ended f refl refl (rw (c, t) refl) refl
stop-Phase s (Phase.connecting n f o u a t c) = Phase.ended f refl refl (rw (c, t) refl) refl
stop-Phase s (Phase.waiting n f o u a t c d) =
    Phase.ended f refl refl (rw (c, t) (cancel-last n)) refl
stop-Phase s (Phase.ended f o u t c) = Phase.ended f refl refl (rw (c, t) refl) refl

-- A retry sets the one timer.
retry-Phase :
    (s : Supervisor) (reason : Text) (now : ℕ)
    → s.first_attempt ≡ true
    → s.stopped ≡ false
    → s.up ≡ false
    → s.attempts ≡ []
    → s.timers ≡ []
    → Phase (retry s reason now)
unfolding retry
retry-Phase s reason now f o u a t =
    Phase.waiting (record { id = s.next_timer; delay_ms = delay_of s.policy s.failures })
      (ground arith) (ground arith) (ground arith) (ground arith) (ground arith) (ground arith)
      (ground arith)

dropped : Supervisor → Text → Supervisor
dropped s reason = record s { drops = s.drops + 1; last_drop = reason; up = false }

lost-up :
    (s : Supervisor) (reason : Text) (now : ℕ)
    → s.stopped ≡ false
    → s.up ≡ true
    → lost s reason now ≡ retry (dropped s reason) reason now
unfolding lost dropped
lost-up s reason now o u = ground arith

lost-Phase : (s : Supervisor) (reason : Text) (now : ℕ) → Phase s → Phase (lost s reason now)
unfolding lost dropped
lost-Phase s reason now (Phase.idle f u a t c) =
    Phase.idle (ground arith) (ground arith) (ground arith) (ground arith) (ground arith)
lost-Phase s reason now (Phase.is_up f o u a t c) =
    subst Phase (sym (lost-up s reason now o u))
      (retry-Phase (dropped s reason) reason now f o refl a t)
lost-Phase s reason now (Phase.connecting n f o u a t c) =
    Phase.connecting n (ground arith) (ground arith) (ground arith) (ground arith) (ground arith)
      (ground arith)
lost-Phase s reason now (Phase.waiting n f o u a t c d) =
    Phase.waiting n (ground arith) (ground arith) (ground arith) (ground arith) (ground arith)
      (ground arith) (ground arith)
lost-Phase s reason now (Phase.ended f o u t c) =
    Phase.ended (ground arith) (ground arith) (ground arith) (ground arith) (ground arith)

settled : Supervisor → ℕ → Supervisor
settled s seen = record s { attempts = without seen s.attempts }

without-one :
    (s : Supervisor) (seen : ℕ) (more : List ℕ) (n : ℕ)
    → s.attempts ≡ seen ∷ more
    → s.attempts ≡ n ∷ []
    → without seen s.attempts ≡ []
without-one s seen more n e a = ground (arith, ==_iff n seen)

connects-dropped :
    (s : Supervisor) (seen now : ℕ)
    → s.stopped ≡ false
    → (seen == s.drops) ≡ false
    → connects s seen now ≡ retry (settled s seen) s.last_drop now
unfolding connects settled
connects-dropped s seen now o q = ground arith

rejects-retry :
    (s : Supervisor) (seen : ℕ) (reason : Text) (now : ℕ)
    → s.stopped ≡ false
    → rejects s seen reason now ≡ retry (settled s seen) reason now
unfolding rejects settled
rejects-retry s seen reason now o = ground arith

fired-last :
    (s : Supervisor) (timer : Timer) (more : List Timer) (n : Timer)
    → s.timers ≡ timer ∷ more
    → s.timers ≡ n ∷ []
    → (fires s timer.id).timers ≡ []
unfolding fires attempt keep_if
fired-last s timer more n e a = ground (arith, ==_iff n.id timer.id)

create-Phase : (policy : Policy) → Phase (create policy)
unfolding create
create-Phase policy = Phase.idle refl refl refl refl refl

-- A pending attempt is the only one, and no timer is set.
connects-Phase :
    (s : Supervisor) (seen now : ℕ) (more : List ℕ)
    → s.attempts ≡ seen ∷ more
    → Phase s
    → Phase (connects s seen now)
unfolding connects settled
connects-Phase s seen now more e (Phase.idle f u a t c) = absurd (ground arith)
connects-Phase s seen now more e (Phase.is_up f o u a t c) = absurd (ground arith)
connects-Phase s seen now more e (Phase.waiting n f o u a t c d) = absurd (ground arith)
connects-Phase s seen now more e (Phase.ended f o u t c) =
    Phase.ended (ground arith) (ground arith) (ground arith) (ground arith) (ground arith)
connects-Phase s seen now more e (Phase.connecting n f o u a t c) =
    let gone = without-one s seen more n e a in
    elim (Bool-cases (seen == s.drops)) [
      | inl q ↦
          Phase.is_up (ground arith) (ground arith) (ground arith) (ground arith) (ground arith)
            (ground arith)
      | inr q ↦
          subst Phase (sym (connects-dropped s seen now o q))
            (retry-Phase (settled s seen) s.last_drop now f o u gone t)
    ]

rejects-Phase :
    (s : Supervisor) (seen : ℕ) (reason : Text) (now : ℕ) (more : List ℕ)
    → s.attempts ≡ seen ∷ more
    → Phase s
    → Phase (rejects s seen reason now)
unfolding rejects settled
rejects-Phase s seen reason now more e (Phase.idle f u a t c) = absurd (ground arith)
rejects-Phase s seen reason now more e (Phase.is_up f o u a t c) = absurd (ground arith)
rejects-Phase s seen reason now more e (Phase.waiting n f o u a t c d) = absurd (ground arith)
rejects-Phase s seen reason now more e (Phase.ended f o u t c) =
    Phase.ended (ground arith) (ground arith) (ground arith) (ground arith) (ground arith)
rejects-Phase s seen reason now more e (Phase.connecting n f o u a t c) =
    subst Phase (sym (rejects-retry s seen reason now o))
      (retry-Phase (settled s seen) reason now f o u (without-one s seen more n e a) t)

fires-Phase :
    (s : Supervisor) (timer : Timer) (more : List Timer)
    → s.timers ≡ timer ∷ more
    → Phase s
    → Phase (fires s timer.id)
unfolding fires attempt
fires-Phase s timer more e (Phase.idle f u a t c) = absurd (ground arith)
fires-Phase s timer more e (Phase.is_up f o u a t c) = absurd (ground arith)
fires-Phase s timer more e (Phase.connecting n f o u a t c) = absurd (ground arith)
fires-Phase s timer more e (Phase.ended f o u t c) = absurd (ground arith)
fires-Phase s timer more e (Phase.waiting n f o u a t c d) =
    Phase.connecting s.drops (ground arith) (ground arith) (ground arith) (ground arith)
      (fired-last s timer more n e t) (ground arith)

Step-Phase : (s t : Supervisor) → Step s t → Phase s → Phase t
Step-Phase s t starts p = start-Phase s p
Step-Phase s t stops p = stop-Phase s p
Step-Phase s t (drops reason now) p = lost-Phase s reason now p
Step-Phase s t (connected seen now more e) p = connects-Phase s seen now more e p
Step-Phase s t (rejected seen reason now more e) p = rejects-Phase s seen reason now more e p
Step-Phase s t (fired timer more e) p = fires-Phase s timer more e p

Phase-all : (s t : Supervisor) → Phase s → Reaches s t → Phase t
Phase-all s t p here = p
Phase-all s t p (step {s = a} {t = b} r last) = Step-Phase b t last (Phase-all s b p r)

-- Whatever happens to a new supervisor, it is idle until it is started, and after that, until it is
-- stopped, exactly one of three holds: it is connected, one attempt to connect is pending, or one timer
-- is set that will begin the next attempt, after the maximum delay at most. Once it is stopped no timer
-- is left.
pub Reaches-Phase : (policy : Policy) (t : Supervisor) → Reaches (create policy) t → Phase t
Reaches-Phase policy t r = Phase-all (create policy) t (create-Phase policy) r
