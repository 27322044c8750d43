-- ===== src/Jobs/Runs/System.antt =====
-- A queue with the runs of `runOnce` on it: calls, timers, and the statements of the runs, in any order.
-- Several runs may overlap, also ones of the same job. Each run is known by a number of its own.
use podokit.Base.{
  if◌then◌else◌, ℕ, Bool, Option, none, some, List, [], ◌∷◌, any, Result, ok, err, Text, same,
  nat_eq, text_eq,
}
use podokit.Map
use podokit.Jobs.Rules.{Status, Repeat, ScheduleOptions, Cron, Error}
use podokit.Jobs.Table.{Row}
use podokit.Jobs.Queue.{
  Timer, Queue, EnqueueOptions, enqueue, schedule, unschedule, start, close, process, unsubscribe,
}
use podokit.Jobs.Runs.{Settled, remove_finished, kept, fire, claim_next, Handled, settle}

-- Where a run stands: its handler has not ended, or finished rows of this status are deleted next.
pub data Stage : Type 0 where
  handling : Stage
  finishing : Status → Stage

-- The row that a run claimed, and whether a handler was found.
pub record Run : Type 0 where
  pub row : Row
  pub handler : Bool
  pub stage : Stage

pub record System : Type 0 where
  pub queue : Queue
  pub running : List (ℕ × Run)

pub data Call : Type 0 where
  enqueues : Text → Option Text → EnqueueOptions → (random : Text) → Call
  schedules : (id name : Text) → Option Text → Repeat → ScheduleOptions → (later : ℕ) → Call
  unschedules : Text → Call
  processes : Text → Call
  unsubscribes : Text → Call
  starts : Call
  closes : Call
  fires : Timer → Call

or_same : Queue → Result Error Queue → Queue
or_same q (ok q') = q'
or_same q (err e) = q

unfoldable pub call : Cron → ℕ → Queue → Call → Queue
unfolding or_same
call cron now q (enqueues name payload options random) =
    kept q (enqueue q name payload options now random)
call cron now q (schedules id name payload repeat options later) =
    (schedule cron q id name payload repeat options now later).0
call cron now q (unschedules id) = unschedule q id
call cron now q (processes name) = or_same q (process q name)
call cron now q (unsubscribes name) = unsubscribe q name
call cron now q starts = (start cron q now).0
call cron now q closes = close q
call cron now q (fires timer) = (fire cron q timer now).0

pub data Action : Type 0 where
  calls : Call → Action
  -- A run of this number begins.
  claims : ℕ → Action
  -- The handler of the run ends.
  settles : ℕ → Handled → Action
  -- The run deletes finished rows, and ends.
  finishes : ℕ → Action

abbrev pub begun : ℕ → System → Queue × Option Row → System
begun n s (q, none) = record s { queue = q }
begun n s (q, some row) =
    let run : Run = record {
      row = row;
      handler = any (same row.name) q.handlers;
      stage = handling;
    } in
    record { queue = q; running = Map.put n run s.running }

abbrev pub settled : ℕ → System → Run → Settled → System
settled n s run (q, none) = record { queue = q; running = Map.remove n s.running }
settled n s run (q, some status) = record {
  queue = q;
  running = Map.put n (record run { stage = finishing status }) s.running;
}

abbrev pub settle_run : ℕ → ℕ → Handled → System → Run → Stage → System
settle_run now n handled s run handling =
    settled n s run (settle s.queue run.row run.handler handled now)
settle_run now n handled s run (finishing status) = s

abbrev pub finish_run : ℕ → System → Run → Stage → System
finish_run n s run handling = s
finish_run n s run (finishing status) = record {
  queue = remove_finished s.queue run.row status;
  running = Map.remove n s.running;
}

-- A step of the run of a number, if there is one.
abbrev pub of_run : System → Option Run → (Run → System) → System
of_run s none step = s
of_run s (some run) step = step run

unfoldable pub act : Cron → System → ℕ × Action → System
unfolding call claim_next settle remove_finished
act cron s (now, calls c) = record s { queue = call cron now s.queue c }
act cron s (now, claims n) = if Map.has n s.running then s else begun n s (claim_next s.queue now)
act cron s (now, settles n handled) =
    of_run s (Map.get n s.running) (λ run. settle_run now n handled s run run.stage)
act cron s (now, finishes n) = of_run s (Map.get n s.running) (λ run. finish_run n s run run.stage)

unfoldable pub act_all : Cron → System → List (ℕ × Action) → System
unfolding act
act_all cron s [] = s
act_all cron s (a ∷ actions) = act_all cron (act cron s a) actions
