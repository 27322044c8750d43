-- ===== src/Jobs/Runs/Grows.antt =====
-- A call leaves the rows as they are, or inserts one that waits.
use podokit.Base.{
  ℕ, ◌≤◌, ◌≡◌, refl, ◌⊎◌, inl, inr, true, Option, none, some, List, [], ◌∷◌, arith, Bool-cases,
  Option-cases, Result, ok, err, Ensures, Ensures-bind, Ensures-after, Text, nat_eq, text_eq,
}
use podokit.Numbers.{Number, whole_from, whole_from-bounds}
use podokit.Jobs.Rules.{Cron, Error}
use podokit.Jobs.Table.{Row, insert_row}
use podokit.Jobs.Table.Claims.{IsCounted}
use podokit.Jobs.Queue.{
  Schedule, Timer, Queue, EnqueueOptions, enqueue, arm, arm_all, schedule, add_schedule, unschedule,
  start, close, process, unsubscribe, checked,
}
use podokit.Jobs.Runs.{kept, fire, is_stale, unset}
use podokit.Jobs.Runs.System.{Call, call}

abbrev pub Grows : List Row → List Row → Type 0
Grows rows rows' = (rows' ≡ rows) ⊎ ((row : Row) × IsCounted row × (rows' ≡ insert_row row rows))

checked-least :
    (v : Option Number) (default least : ℕ) (e : Error)
    → least ≤ default
    → Ensures (λ n. least ≤ n) (checked v default least e)
checked-least none default least e h = h
checked-least (some v) default least e h = elim (Option-cases (whole_from least v)) [
  | inl q ↦ rw (q, Ensures, checked) tt
  | inr (n, q) ↦ rw (q, Ensures, checked) ((whole_from-bounds least v q).0)
]

enqueue-Grows :
    (q : Queue) (name : Text) (payload : Option Text) (options : EnqueueOptions) (now : ℕ)
    (random : Text)
    → Ensures (λ r. Grows q.rows r.0.rows) (enqueue q name payload options now random)
unfolding enqueue
enqueue-Grows q name none options now random = tt
enqueue-Grows q name (some encoded) options now random =
    Ensures-bind (λ n. 1 ≤ n) (λ r. Grows q.rows r.0.rows) (checked options.attempts 1 1 _) _
      (checked-least options.attempts 1 1 _ (omega arith))
      λ attempts positive.
        Ensures-after (λ r. Grows q.rows r.0.rows) (checked options.delay_ms 0 0 _) _
          λ delay. inr (
            _,
            record {
              at_most = omega arith;
              some_left = λ _. positive;
              begun = λ e. absurd (ground arith);
            },
            refl,
          )

kept-Grows :
    (q : Queue) (r : Result Error (Queue × Text))
    → Ensures (λ r. Grows q.rows r.0.rows) r
    → Grows q.rows (kept q r).rows
kept-Grows q (ok r) h = h
kept-Grows q (err e) h = inl refl

arm-rows :
    (cron : Cron) (q : Queue) (s : Schedule) (after : ℕ) → (arm cron q s after).0.rows ≡ q.rows
unfolding arm
arm-rows cron q s after = ground arith

arm_all-rows :
    (cron : Cron) (q : Queue) (schedules : List (Text × Schedule)) (now : ℕ)
    → (arm_all cron q schedules now).0.rows ≡ q.rows
unfolding arm_all
arm_all-rows cron q [] now = refl
arm_all-rows cron q ((id, s) ∷ more) now =
    ground (arith, arm-rows cron q s now, arm_all-rows cron (arm cron q s now).0 more now)

add_schedule-rows :
    (cron : Cron) (q : Queue) (s : Schedule) (later : ℕ)
    → (add_schedule cron q s later).0.rows ≡ q.rows
unfolding add_schedule
add_schedule-rows cron q s later = elim (Bool-cases q.started) [
  | inl e ↦ rw e (arm-rows cron _ s later)
  | inr e ↦ rw e refl
]

fire-Grows :
    (cron : Cron) (q : Queue) (timer : Timer) (now : ℕ)
    → Grows q.rows (fire cron q timer now).0.rows
unfolding fire
fire-Grows cron q timer now = elim (Bool-cases (is_stale q timer.schedule)) [
  | inl e ↦ rw e (inl refl)
  | inr e ↦
      rw (e, arm-rows)
        (kept-Grows (record q { timers = unset timer q.timers }) _
          (enqueue-Grows _ timer.schedule.name timer.schedule.payload _ now []))
]

pub call-Grows :
    (cron : Cron) (now : ℕ) (q : Queue) (c : Call) → Grows q.rows (call cron now q c).rows
unfolding call
call-Grows cron now q (Call.enqueues name payload options random) =
    kept-Grows q _ (enqueue-Grows q name payload options now random)
call-Grows cron now q (Call.schedules id name payload repeat options later) =
    inl (unfold schedule in ground (arith, add_schedule-rows cron q))
call-Grows cron now q (Call.unschedules id) = inl (unfold unschedule in refl)
call-Grows cron now q (Call.processes name) = inl (unfold process in ground arith)
call-Grows cron now q (Call.unsubscribes name) = inl (unfold unsubscribe in refl)
call-Grows cron now q Call.starts = inl (
    unfold start in ground (arith, arm_all-rows cron (record q { started = true }) q.schedules now))
call-Grows cron now q Call.closes = inl (unfold close in refl)
call-Grows cron now q (Call.fires timer) = fire-Grows cron q timer now
