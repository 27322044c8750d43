-- ===== src/Jobs/Tests.antt =====
-- The job queue on a concrete schedule and two overlapping runs.
use podokit.Base.{
  arith, ℕ, ◌≡◌, refl, true, none, some, List, [], ◌∷◌, map, codes, keep_if, ok, list_beq, Text,
  same, nat_eq, text_eq,
}
use podokit.Map
use podokit.Numbers.{Number, whole_from}
use podokit.Texts.{starts_with}
use podokit.Jobs.Rules.{
  Repeat, Cron, assert_repeat_options, schedule_retention, next_scheduled_time, waiting, active,
  completed, Status,
}
use podokit.Jobs.Rules.Times.{next_scheduled_time-IsNext, IsNext}
use podokit.Jobs.Table.{Row, find_row, insert_row, update_row, oldest_due, claim, started_at}
use podokit.Jobs.Table.Claims.{IsKeyed, claim-Claimed, Claimed}
use podokit.Jobs.Queue.{
  create, enqueue, schedule, start, arm, arm_all, add_schedule, get, EnqueueOptions, process,
}
use podokit.Jobs.Runs.{
  fire, is_run_of, schedule_of, remove_finished, fail, complete, claim_next, returns, throws,
  settle,
}
use podokit.Jobs.Runs.System.{
  System, Call, calls, claims, settles, finishes, Action, call, act, act_all,
}
use podokit.Jobs.Runs.Overlaps.{LeaveRuns, act_all-IsValid}
use podokit.Jobs.Runs.Once.{IsValid}

jobs : Unit {0}
unfolding create enqueue schedule start arm arm_all add_schedule fire is_run_of schedule_of
    remove_finished fail complete claim_next settle call act act_all find_row insert_row update_row
    oldest_due claim assert_repeat_options schedule_retention next_scheduled_time whole_from
    starts_with same list_beq Map.get Map.has Map.put Map.remove keep_if get process
jobs = tt

abbrev no_cron : Cron
no_cron expression timezone after = none

abbrev every_minute : Repeat
every_minute = record { cron = none; every_ms = some (Number.whole 60000); timezone = none }

abbrev empty : System
empty = record {
  queue = record {
    rows = [];
    handlers = codes "mail" ∷ codes "sweep" ∷ [];
    schedules = [];
    timers = [];
    poll_interval_ms = 250;
    started = true;
    next_object = 0;
  };
  running = [];
}

empty-IsValid : IsValid empty
unfolding jobs
empty-IsValid = record {
  table = record { keyed = tt; counted = tt };
  held = λ n run e. absurd (ground arith);
  once = λ n m run other e. absurd (ground arith);
}

abbrev twice : EnqueueOptions
twice = record { delay_ms = none; attempts = some (Number.whole 2); deduplication_key = none }

-- Two mails that overlap; the first one throws and is tried again.
abbrev two_mails : List (ℕ × Action)
two_mails =
    (1000, calls (Call.enqueues (codes "mail") (some (codes "1")) twice (codes "a")))
    ∷ (1001, calls (Call.enqueues (codes "mail") (some (codes "2")) twice (codes "b")))
    ∷ (1002, claims 1)
    ∷ (1003, claims 2)
    ∷ (1004, settles 1 (throws (codes "busy")))
    ∷ (1005, settles 2 returns)
    ∷ (1006, claims 1)
    ∷ (1007, finishes 2)
    ∷ (1254, claims 3)
    ∷ []

abbrev brief : List Row → List (Status × (ℕ × ℕ))
brief [] = []
brief (row ∷ rows) = (row.status, (row.attempts, row.available_at)) ∷ brief rows

two_mails_run :
    brief (act_all no_cron empty two_mails).queue.rows
    ≡ (active, (2, 1254)) ∷ (completed, (1, 1001)) ∷ []
unfolding jobs
two_mails_run = refl

two_mails-LeaveRuns : LeaveRuns no_cron empty two_mails
unfolding jobs
two_mails-LeaveRuns = (
  λ n run status e. absurd (ground arith),
  (λ n run status e. absurd (ground arith), (tt, (tt, (tt, (tt, (tt, (tt, (tt, tt)))))))),
)

act_all-IsValid_example : IsValid (act_all no_cron empty two_mails)
act_all-IsValid_example = act_all-IsValid no_cron empty two_mails two_mails-LeaveRuns empty-IsValid

every_minute_passed : assert_repeat_options every_minute ≡ ok tt
unfolding jobs
every_minute_passed = refl

next_scheduled_time-IsNext_example :
    (every at : ℕ) × (Number.whole 60000 ≡ Number.whole every)
    × (next_scheduled_time no_cron every_minute 90000 ≡ ok at)
    × IsNext every 90000 at
next_scheduled_time-IsNext_example =
    next_scheduled_time-IsNext no_cron every_minute (Number.whole 60000) 90000 every_minute_passed
      refl

next_minute : next_scheduled_time no_cron every_minute 90000 ≡ ok 120000
unfolding jobs
next_minute = refl

abbrev mail : Text → ℕ → Row
mail id created_at = record {
  id = id;
  name = codes "mail";
  payload = codes "1";
  status = waiting;
  attempts = 0;
  max_attempts = 1;
  available_at = created_at;
  created_at = created_at;
  updated_at = created_at;
  error = none;
}

abbrev three_mails : List Row
three_mails = mail (codes "a") 30 ∷ mail (codes "b") 20 ∷ mail (codes "c") 40 ∷ []

three_mails-IsKeyed : IsKeyed three_mails
unfolding jobs
three_mails-IsKeyed = (refl, (refl, (refl, tt)))

claim-Claimed_example : Claimed 35 three_mails (claim 35 three_mails)
claim-Claimed_example = claim-Claimed 35 three_mails three_mails-IsKeyed

first_claimed : (claim 35 three_mails).1 ≡ some (started_at 35 (mail (codes "b") 20))
unfolding jobs
first_claimed = refl

-- A timer of the schedule adds the job that is named after its time, and waits for the next one.
abbrev swept : List (ℕ × Action)
swept =
    (
      90000,
      calls (
          Call.schedules (codes "s") (codes "sweep") (some (codes "null")) every_minute
            (record { keep_completed = some (Number.whole 0); keep_failed = none }) 90000),
    )
    ∷ []

swept_timers : map (λ t. t.at) (act_all no_cron empty swept).queue.timers ≡ 120000 ∷ []
unfolding jobs
swept_timers = refl
