-- ===== src/Jobs/Queue.antt =====
-- The methods of LocalJobQueue. A payload is what `JSON.stringify` makes of it, `none` where that is
-- undefined. The clock, random ids and what a handler does are arguments. A schedule carries a number
-- that stands for the identity of the object, and the timers that are set are part of the state.
-- Statements are taken to reach the database; printing to stderr is left out.

use podokit.Base.{
  ℕ, ◌+◌, Bool, true, false, not, Option, none, some, List, [], ◌∷◌, ◌++◌, ◌==◌, if◌then◌else◌,
  codes, keep_if, any, Result, ok, err, ◌>>=◌, ◌>>◌, reject_if, Text, same, nat_eq, text_eq,
}
use podokit.Map
use podokit.Numbers.{Number, whole_from}
use podokit.Jobs.Rules.{
  Status, waiting, Repeat, Error, bad_poll_interval, not_serializable, bad_attempts, bad_delay,
  handler_exists, Retention, ScheduleOptions, Cron, assert_repeat_options, schedule_retention,
  next_scheduled_time,
}
use podokit.Jobs.Table.{Row, find_row, insert_row}

pub record Schedule : Type 0 where
  pub id : Text
  pub name : Text
  pub payload : Option Text
  pub repeat : Repeat
  pub retention : Retention
  pub object : ℕ

-- A wait of `waitUntil` for the next time of a schedule.
pub record Timer : Type 0 where
  pub schedule : Schedule
  pub at : ℕ

pub record Queue : Type 0 where
  pub rows : List Row
  pub handlers : List Text
  pub schedules : List (Text × Schedule)
  pub timers : List Timer
  pub poll_interval_ms : ℕ
  pub started : Bool
  pub next_object : ℕ

unfoldable pub create : Option Number → Result Error Queue
create poll_interval_ms = do
  interval ← elim poll_interval_ms [
    | none ↦ ok 250
    | some v ↦ elim (whole_from 10 v) [ none ↦ err bad_poll_interval | some n ↦ ok n ]
  ]
  ok (record {
    rows = [];
    handlers = [];
    schedules = [];
    timers = [];
    poll_interval_ms = interval;
    started = false;
    next_object = 0;
  })

pub record EnqueueOptions : Type 0 where
  pub delay_ms : Option Number
  pub attempts : Option Number
  pub deduplication_key : Option Text

abbrev pub checked : Option Number → ℕ → ℕ → Error → Result Error ℕ
checked none default least e = ok default
checked (some v) default least e = elim (whole_from least v) [ none ↦ err e | some n ↦ ok n ]

-- An empty key is no key.
job_id : Text → Option Text → Text → Text
job_id name none random = random
job_id name (some []) random = random
job_id name (some (c ∷ key)) random = name ++ (codes ":" ++ c ∷ key)

unfoldable pub enqueue :
    Queue
    → Text
    → Option Text
    → EnqueueOptions
    → (now : ℕ) → (random : Text) → Result Error (Queue × Text)
unfolding job_id insert_row
enqueue q name none options now random = err not_serializable
enqueue q name (some encoded) options now random = do
  let id = job_id name options.deduplication_key random
  attempts ← checked options.attempts 1 1 bad_attempts
  delay ← checked options.delay_ms 0 0 bad_delay
  let row : Row = record {
    id = id;
    name = name;
    payload = encoded;
    status = waiting;
    attempts = 0;
    max_attempts = attempts;
    available_at = now + delay;
    created_at = now;
    updated_at = now;
    error = none;
  }
  ok (record q { rows = insert_row row q.rows }, id)

pub record Snapshot : Type 0 where
  pub id : Text
  pub name : Text
  pub status : Status
  pub attempts : ℕ
  pub created_at : ℕ
  pub updated_at : ℕ
  pub error : Option Text

-- An empty message is left out.
shown_error : Option Text → Option Text
shown_error none = none
shown_error (some []) = none
shown_error (some (c ∷ cs)) = some (c ∷ cs)

snapshot : Row → Snapshot
unfolding shown_error
snapshot row = record {
  id = row.id;
  name = row.name;
  status = row.status;
  attempts = row.attempts;
  created_at = row.created_at;
  updated_at = row.updated_at;
  error = shown_error row.error;
}

unfoldable pub get : Queue → Text → Option Snapshot
unfolding snapshot
get q id = elim (find_row id q.rows) [ none ↦ none | some row ↦ some (snapshot row) ]

has_handler : Text → List Text → Bool
has_handler name handlers = any (same name) handlers

unfoldable pub process : Queue → Text → Result Error Queue
unfolding has_handler
process q name =
    if has_handler name q.handlers
    then err handler_exists
    else ok (record q { handlers = name ∷ q.handlers })

-- What the function returned by `process` does.
unfoldable pub unsubscribe : Queue → Text → Queue
unsubscribe q name = record q { handlers = keep_if (λ n. not (same name n)) q.handlers }

-- `schedule.cancel?.()`
abbrev pub cancel : ℕ → List Timer → List Timer
cancel object timers = keep_if (λ t. not (t.schedule.object == object)) timers

abbrev cancel_found : Option Schedule → List Timer → List Timer
cancel_found none timers = timers
cancel_found (some s) timers = cancel s.object timers

-- The state, and the error thrown if there is one.
abbrev pub Outcome : Type 0
Outcome = Queue × Option Error

unfoldable pub arm : Cron → Queue → Schedule → ℕ → Outcome
arm cron q s after = elim (next_scheduled_time cron s.repeat after) [
  | err e ↦ (q, some e)
  | ok at ↦ (record q { timers = q.timers ++ record { schedule = s; at = at } ∷ [] }, none)
]

-- The checks of `schedule`, before it changes anything.
check_schedule : Cron → Option Text → Repeat → ScheduleOptions → ℕ → Result Error Retention
check_schedule cron payload repeat options now = do
  assert_repeat_options repeat
  retention ← schedule_retention options
  next ← next_scheduled_time cron repeat now
  reject_if (elim payload [ none ↦ true | some _ ↦ false ]) not_serializable
  ok retention

unfoldable pub add_schedule : Cron → Queue → Schedule → ℕ → Outcome
unfolding arm
add_schedule cron q s later =
    let timers = cancel_found (Map.get s.id q.schedules) q.timers in
    let q' : Queue = record q {
      schedules = Map.put s.id s q.schedules;
      timers = timers;
      next_object = q.next_object + 1;
    } in
    if q.started then arm cron q' s later else (q', none)

unfoldable pub schedule :
    Cron → Queue → Text → Text → Option Text → Repeat → ScheduleOptions → ℕ → ℕ → Outcome
unfolding check_schedule add_schedule
schedule cron q id name payload repeat options now later =
    elim (check_schedule cron payload repeat options now) [
      | err e ↦ (q, some e)
      | ok retention ↦
          add_schedule cron q
            (record {
              id = id;
              name = name;
              payload = payload;
              repeat = repeat;
              retention = retention;
              object = q.next_object;
            })
            later
    ]

unfoldable pub unschedule : Queue → Text → Queue
unschedule q id = record q {
  schedules = Map.remove id q.schedules;
  timers = cancel_found (Map.get id q.schedules) q.timers;
}

-- The loop of `start`, which a schedule that throws ends.
unfoldable pub arm_all : Cron → Queue → List (Text × Schedule) → ℕ → Outcome
unfolding arm
arm_all cron q [] now = (q, none)
arm_all cron q ((id, s) ∷ more) now =
    let (q', thrown) = arm cron q s now in
    let rest = arm_all cron q' more now in elim thrown [ none ↦ rest | some e ↦ (q', some e) ]

unfoldable pub start : Cron → Queue → ℕ → Outcome
unfolding arm_all
start cron q now =
    if q.started then (q, none) else arm_all cron (record q { started = true }) q.schedules now

unfoldable pub close : Queue → Queue
close q = record q {
  started = false;
  handlers = [];
  timers = keep_if (λ t. not (any (λ p. p.1.object == t.schedule.object) q.schedules)) q.timers;
}
