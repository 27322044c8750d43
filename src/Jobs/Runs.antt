-- ===== src/Jobs/Runs.antt =====
-- Timers that fire and jobs that run, of LocalJobQueue. `runOnce` is cut where it waits: it claims a job
-- (`claim_next`), waits for its handler, writes what came of it to the row (`settle`), and then deletes
-- finished rows (`remove_finished`), where the schedule is looked up with the DELETE. What happens to the queue in between stands between these three.
pub mod System
pub mod Grows
pub mod Invariant
pub mod Once
pub mod Overlaps
use podokit.Base.{
  ℕ, zero, suc, ◌+◌, ◌-◌, ◌*◌, ◌/◌, ◌%◌, ◌^◌, ◌≤◌, ◌<◌, min, max, ◌≡◌, refl, sym, ap, ◌∙◌, ◌≡⟨◌⟩◌,
  ◌∎, ◌≢◌, ◌↔◌, ◌⊎◌, inl, inr, Bool, true, false, not, ◌&&◌, ◌||◌, Option, none, some, List, [],
  ◌∷◌, ◌++◌, map, append-nil, append_assoc, arith, ltb, leb, ◌==◌, if◌then◌else◌, ltb→lt, lt→ltb,
  leb→le, le→leb, ==_iff, tests, Bool-cases, Option-cases, codes, length, get_elem?, take, drop,
  keep_if, any, all, length-append, take-append-drop, length-drop, length-take, All, All-append,
  All-map, All-keep_if, Result, ok, err, Result-cases, Ensures, Ensures-bind, Ensures-after,
  Ensures-ok, Ensures-of, All-get_elem?, ◌>>=◌, ◌>>◌, reject_if, Eq, list_beq, list_beq_iff, Text,
  same, same_iff, same_refl, nat_eq, text_eq,
}
use podokit.Map
use podokit.Texts.{starts_with, is_digit, decimal}
use podokit.Jobs.Rules.{Status, waiting, active, completed, failed, Retention, Cron, Error}
use podokit.Jobs.Table.{Row, update_row, claim, retain, delete_row}
use podokit.Jobs.Queue.{Schedule, Timer, Queue, EnqueueOptions, enqueue, arm}

-- `schedule:${id}:${at}`
abbrev pub schedule_key : Text → Text → Text
schedule_key id suffix = codes "schedule:" ++ (id ++ (codes ":" ++ suffix))

abbrev kept {ℓ} : {A : Type ℓ} → Queue → Result Error (Queue × A) → Queue
kept q (err e) = q
kept q (ok (q', a)) = q'

-- `!this.started || this.schedules.get(schedule.id) !== schedule`
is_stale : Queue → Schedule → Bool
is_stale q s = elim (Map.get s.id q.schedules) [
  | none ↦ true
  | some current ↦ not q.started || not (current.object == s.object)
]

unset : Timer → List Timer → List Timer
unset timer timers =
    keep_if (λ t. not (t.schedule.object == timer.schedule.object && t.at == timer.at)) timers

-- The wait of a timer ends: its task runs. An error of `enqueue` is only printed.
unfoldable pub fire : Cron → Queue → Timer → ℕ → Queue × Option Error
unfolding is_stale unset
fire cron q timer now =
    let s = timer.schedule in
    let waiting_on : Queue = record q { timers = unset timer q.timers } in
    let options : EnqueueOptions = record {
      delay_ms = none;
      attempts = none;
      deduplication_key = some (schedule_key s.id (decimal timer.at));
    } in
    if is_stale q s
    then (waiting_on, none)
    else arm cron (kept waiting_on (enqueue waiting_on s.name s.payload options now [])) s
        (max now timer.at)

-- `/^\d+$/`
abbrev pub is_number : Text → Bool
is_number text = not (same text []) && all is_digit text

-- `${schedule.name}:${SCHEDULE_KEY}${schedule.id}:`
abbrev pub run_prefix : Schedule → Text
run_prefix s = s.name ++ (codes ":" ++ (codes "schedule:" ++ (s.id ++ codes ":")))

unfoldable pub is_run_of : Schedule → Row → Bool
is_run_of s row =
    same s.name row.name
    && starts_with row.id (run_prefix s)
    && is_number (drop (length (run_prefix s)) row.id)

unfoldable pub schedule_of : List (Text × Schedule) → Row → Option Schedule
unfolding is_run_of
schedule_of [] row = none
schedule_of ((id, s) ∷ schedules) row =
    if is_run_of s row then some s else schedule_of schedules row

abbrev keep_of : Status → Retention → ℕ
keep_of completed retention = retention.keep_completed
keep_of _ retention = retention.keep_failed

unfoldable pub remove_finished : Queue → Row → Status → Queue
unfolding schedule_of
remove_finished q row status = elim (schedule_of q.schedules row) [
  | none ↦ q
  | some s ↦
      let keep = keep_of status s.retention in
      if keep == 0
      then record q { rows = delete_row row.id q.rows }
      else record q { rows = retain row.name status keep q.rows }
]

abbrev pub failed_row : Row → ℕ → ℕ → Text → Row → Row
failed_row claimed failed_at poll_interval_ms message row =
    let retry = ltb claimed.attempts claimed.max_attempts in
    record row {
      status = if retry then waiting else failed;
      available_at = if retry then failed_at + poll_interval_ms else failed_at;
      updated_at = failed_at;
      error = some (take 2000 message);
    }

-- The queue after the UPDATE, and the status of the finished rows that are deleted next, if any are.
abbrev pub Settled : Type 0
Settled = Queue × Option Status

unfoldable pub fail : Queue → Row → Text → ℕ → Settled
fail q row message failed_at = (
  record q {
    rows = update_row row.id (failed_row row failed_at q.poll_interval_ms message) q.rows;
  },
  if ltb row.attempts row.max_attempts then none else some failed,
)

abbrev pub completed_row : ℕ → Row → Row
completed_row completed_at row = record row {
  status = completed;
  updated_at = completed_at;
  error = none;
}

unfoldable pub complete : Queue → Row → ℕ → Settled
complete q row completed_at =
    (record q { rows = update_row row.id (completed_row completed_at) q.rows }, some completed)

-- The first statement of `runOnce`.
unfoldable pub claim_next : Queue → ℕ → Queue × Option Row
claim_next q now = let (rows, row) = claim now q.rows in (record q { rows = rows }, row)

-- What the handler does: it returns, or throws with a message.
pub data Handled : Type 0 where
  returns : Handled
  throws : Text → Handled

-- The second statement, for the row claimed. Whether there is a handler is seen when the row is claimed.
unfoldable pub settle : Queue → Row → (handler : Bool) → Handled → ℕ → Settled
unfolding fail complete
settle q row false handled at =
    fail q row (codes "No handler is registered for job " ++ row.name) at
settle q row true returns at = complete q row at
settle q row true (throws message) at = fail q row message at

-- The third statement.
abbrev pub finish : Row → Settled → Queue
finish row (q, none) = q
finish row (q, some status) = remove_finished q row status

-- A whole `runOnce`, during which nothing else happens: `false` where no job is due.
unfoldable pub run_once : Queue → ℕ → Handled → ℕ → Queue × Bool
unfolding claim_next settle remove_finished
run_once q now handled at =
    let (q', row) = claim_next q now in
    elim row [
      | none ↦ (q', false)
      | some r ↦ (finish r (settle q' r (any (same r.name) q'.handlers) handled at), true)
    ]
