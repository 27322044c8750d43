-- ===== src/Services/Supervisor.antt =====
-- ConnectionSupervisor. What its connection does is an argument: an attempt that is pending ends by
-- `connects` or `rejects`, with the count of drops it saw when it began. Timers that are set and events
-- that are reported are part of the state, the latest event first.
pub mod Alive
use podokit.Base.{
  ℕ, zero, suc, ◌+◌, ◌-◌, ◌*◌, ◌/◌, ◌%◌, ◌^◌, ◌≤◌, ◌<◌, min, max, ◌≡◌, refl, sym, ap, ◌∙◌, ◌≡⟨◌⟩◌,
  ◌∎, ◌≢◌, ◌↔◌, ◌⊎◌, inl, inr, Bool, true, false, not, ◌&&◌, ◌||◌, Option, none, some, List, [],
  ◌∷◌, ◌++◌, map, append-nil, append_assoc, arith, ltb, leb, ◌==◌, if◌then◌else◌, ltb→lt, lt→ltb,
  leb→le, le→leb, ==_iff, tests, Bool-cases, Option-cases, codes, length, get_elem?, take, drop,
  keep_if, any, all, length-append, take-append-drop, length-drop, length-take, All, All-append,
  All-map, All-keep_if, Result, ok, err, Result-cases, Ensures, Ensures-bind, Ensures-after,
  Ensures-ok, Ensures-of, All-get_elem?, ◌>>=◌, ◌>>◌, reject_if, Eq, list_beq, list_beq_iff, Text,
  same, same_iff, same_refl, nat_eq, text_eq,
}

pub record Policy : Type 0 where
  pub initial_delay_ms : ℕ
  pub max_delay_ms : ℕ

pub data Event : Type 0 where
  unavailable : (reason : Text) → Event
  restored : (downtime_ms : ℕ) → Event

pub record Timer : Type 0 where
  pub id : ℕ
  pub delay_ms : ℕ

pub record Supervisor : Type 0 where
  pub policy : Policy
  pub up : Bool
  pub stopped : Bool
  pub failures : ℕ
  pub drops : ℕ
  pub last_drop : Text
  pub down_since : Option ℕ
  pub cancel_retry : Option ℕ
  pub first_attempt : Bool
  pub attempts : List ℕ
  pub timers : List Timer
  pub next_timer : ℕ
  pub events : List Event

unfoldable pub create : Policy → Supervisor
create policy = record {
  policy = policy;
  up = false;
  stopped = false;
  failures = 0;
  drops = 0;
  last_drop = [];
  down_since = none;
  cancel_retry = none;
  first_attempt = false;
  attempts = [];
  timers = [];
  next_timer = 0;
  events = [];
}

abbrev pub delay_of : Policy → ℕ → ℕ
delay_of policy failures = min policy.max_delay_ms (policy.initial_delay_ms * 2 ^ min failures 30)

abbrev pub report_down : Supervisor → Text → ℕ → Supervisor
report_down s reason now = elim s.down_since [
  | some since ↦ s
  | none ↦ record s { down_since = some now; events = Event.unavailable reason ∷ s.events }
]

unfoldable pub retry : Supervisor → Text → ℕ → Supervisor
retry s reason now =
    let s' = report_down s reason now in
    record s' {
      failures = s'.failures + 1;
      cancel_retry = some s'.next_timer;
      timers = record { id = s'.next_timer; delay_ms = delay_of s'.policy s'.failures } ∷ s'.timers;
      next_timer = s'.next_timer + 1;
    }

-- The start of `attempt`, up to its call of `connect`.
unfoldable pub attempt : Supervisor → Supervisor
attempt s =
    if s.stopped
    then record s { cancel_retry = none }
    else record s { cancel_retry = none; attempts = s.drops ∷ s.attempts }

unfoldable pub start : Supervisor → Supervisor
unfolding attempt
start s = if s.first_attempt then s else attempt (record s { first_attempt = true })

abbrev pub cancel : Option ℕ → List Timer → List Timer
cancel none timers = timers
cancel (some id) timers = keep_if (λ t. not (t.id == id)) timers

unfoldable pub stop : Supervisor → Supervisor
stop s = record s {
  stopped = true;
  up = false;
  cancel_retry = none;
  timers = cancel s.cancel_retry s.timers;
}

unfoldable pub lost : Supervisor → Text → ℕ → Supervisor
unfolding retry
lost s reason now =
    let s' : Supervisor = record s { drops = s.drops + 1; last_drop = reason } in
    if s.stopped then s else if not s.up then s' else retry (record s' { up = false }) reason now

abbrev pub report_up : Supervisor → ℕ → Supervisor
report_up s now = elim s.down_since [
  | none ↦ s
  | some since ↦ record s { down_since = none; events = Event.restored (now - since) ∷ s.events }
]

abbrev pub without : ℕ → List ℕ → List ℕ
without drops [] = []
without drops (d ∷ ds) = if d == drops then ds else d ∷ without drops ds

-- The rest of `attempt`, once `connect` has returned.
unfoldable pub connects : Supervisor → (drops : ℕ) → ℕ → Supervisor
unfolding retry
connects s drops now =
    let s' : Supervisor = record s { attempts = without drops s.attempts } in
    if s.stopped
    then s'
    else if not (drops == s.drops)
    then retry s' s.last_drop now
    else report_up (record s' { up = true; failures = 0 }) now

-- And once it has failed.
unfoldable pub rejects : Supervisor → (drops : ℕ) → Text → ℕ → Supervisor
unfolding retry
rejects s drops reason now =
    let s' : Supervisor = record s { attempts = without drops s.attempts } in
    if s.stopped then s' else retry s' reason now

unfoldable pub fires : Supervisor → ℕ → Supervisor
unfolding attempt
fires s id = attempt (record s { timers = keep_if (λ t. not (t.id == id)) s.timers })

-- What happens to a supervisor: calls of it and callbacks. An attempt ends only if it is pending, and a
-- timer fires only if it is set.
pub data Step : Supervisor → Supervisor → Type 0 where
  starts : {s : Supervisor} → Step s (start s)
  stops : {s : Supervisor} → Step s (stop s)
  drops : {s : Supervisor} (reason : Text) (now : ℕ) → Step s (lost s reason now)
  connected :
      {s : Supervisor} (drops now : ℕ) (more : List ℕ)
      → s.attempts ≡ drops ∷ more
      → Step s (connects s drops now)
  rejected :
      {s : Supervisor} (drops : ℕ) (reason : Text) (now : ℕ) (more : List ℕ)
      → s.attempts ≡ drops ∷ more
      → Step s (rejects s drops reason now)
  fired :
      {s : Supervisor} (t : Timer) (more : List Timer) → s.timers ≡ t ∷ more → Step s (fires s t.id)

pub data Reaches : Supervisor → Supervisor → Type 0 where
  here : {s : Supervisor} → Reaches s s
  step : {s t u : Supervisor} → Reaches s t → Step t u → Reaches s u
