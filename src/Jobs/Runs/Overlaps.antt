-- ===== src/Jobs/Runs/Overlaps.antt =====
-- Runs that overlap with each other and with calls.
use podokit.Base.{
  ℕ, ◌≡◌, refl, sym, ◌≢◌, inl, inr, Bool, true, Option, none, some, List, [], ◌∷◌, arith,
  Bool-cases, Option-cases, any, same, same_refl, nat_eq, text_eq,
}
use mathlib.Core.Path.{subst}
use podokit.Map
use podokit.Jobs.Rules.{Status, Cron}
use podokit.Jobs.Table.{Row, is_due, find_row, update_row, oldest_due, started_at, claim}
use podokit.Jobs.Table.Claims.{
  oldest_due-found, IsCounted, find_row-update_row, find_row-All, find_row-insert_row,
}
use podokit.Jobs.Runs.{claim_next, Handled, Settled, settle, remove_finished}
use podokit.Jobs.Runs.System.{
  System, Run, Stage, handling, finishing, calls, claims, settles, finishes, Action, act, act_all,
  call, settled, settle_run, finish_run, begun, of_run,
}
use podokit.Jobs.Runs.Grows.{call-Grows, Grows}
use podokit.Jobs.Runs.Invariant.{
  IsOver, Stands, Holds, Keeps, Keeps-Holds, Ends, Grows-IsTable, update_row-IsTable,
  update_row-Keeps, settle-Ends, remove_finished-IsTable, remove_finished-Keeps,
}
use podokit.Jobs.Runs.Once.{IsValid, put-IsOnce, put-AreHeld, remove-IsOnce, remove-AreHeld, idle}

-- While a run waits to delete finished rows, the call inserts no row of the id of its own row.
abbrev pub LeavesRuns : Cron → System → ℕ × Action → Type 0
LeavesRuns cron s (now, calls c) =
    (n : ℕ) (run : Run) (status : Status)
    → Map.get n s.running ≡ some run
    → run.stage ≡ finishing status
    → find_row run.row.id (call cron now s.queue c).rows ≡ find_row run.row.id s.queue.rows
LeavesRuns cron s (now, claims n) = Unit
LeavesRuns cron s (now, settles n handled) = Unit
LeavesRuns cron s (now, finishes n) = Unit

abbrev pub LeaveRuns : Cron → System → List (ℕ × Action) → Type 0
LeaveRuns cron s [] = Unit
LeaveRuns cron s (a ∷ actions) = LeavesRuns cron s a × LeaveRuns cron (act cron s a) actions

started-IsValid :
    (s : System) (n : ℕ) (r : Row) (now : ℕ) (handler : Bool)
    → IsValid s
    → find_row r.id s.queue.rows ≡ some r
    → is_due now r ≡ true
    → IsValid (record {
      queue = record s.queue { rows = update_row r.id (started_at now) s.queue.rows };
      running =
          Map.put n
            (record { row = started_at now r; handler = handler; stage = handling })
            s.running;
    })
started-IsValid s n r now handler h found due =
    let rows = update_row r.id (started_at now) s.queue.rows in
    let run : Run = record { row = started_at now r; handler = handler; stage = handling } in
    let counted = (find_row-All IsCounted r.id s.queue.rows h.table.counted found).0 in
    let left = counted.some_left (ground arith) in
    let apart = idle s h r now found due in
    record {
      table =
          update_row-IsTable s.queue r (started_at now) (λ t. refl)
            (record {
              at_most = omega arith;
              some_left = λ x. absurd (ground arith);
              begun = λ x. omega arith;
            })
            found h.table;
      held =
          put-AreHeld n run s.running rows
            (
              ground (
                arith,
                found,
                find_row-update_row r.id (started_at now) (λ t. refl) r.id s.queue.rows,
                same_refl r.id,
              ),
              refl,
            )
            (λ m other e nm.
              Keeps-Holds r.id s.queue.rows rows other
                (update_row-Keeps s.queue r (started_at now) (λ t. refl)) (apart m other e)
                (h.held m other e));
      once = put-IsOnce n run s.running (λ m other e nm. apart m other e) h.once;
    }

claims-IsValid : (s : System) (n now : ℕ) → IsValid s → IsValid (begun n s (claim_next s.queue now))
unfolding claim_next claim
claims-IsValid s n now h = elim (Option-cases (oldest_due now s.queue.rows)) [
  | inl e ↦ rw (e, claim_next, claim) (record { table = h.table; held = h.held; once = h.once })
  | inr (r, e) ↦
      let (due, found) = oldest_due-found now s.queue.rows h.table.keyed e in
      let t = started-IsValid s n r now (any (same r.name) s.queue.handlers) h found due in
      rw (e, claim_next, claim) (record { table = t.table; held = t.held; once = t.once })
]

-- The rows change as a statement of a run does, which leaves what the other runs hold.
others_held :
    (s : System) (n : ℕ) (run : Run) (rows : List Row)
    → IsValid s
    → Map.get n s.running ≡ some run
    → Keeps run.row.id s.queue.rows rows
    → (m : ℕ) (other : Run) → Map.get m s.running ≡ some other
    → n ≢ m
    → Holds rows other
others_held s n run rows h here keeps m other e nm =
    Keeps-Holds run.row.id s.queue.rows rows other keeps
      (λ same_id. nm (sym (h.once m n other run e here same_id))) (h.held m other e)

settled-IsValid :
    (s : System) (n : ℕ) (run : Run) (result : Settled)
    → IsValid s
    → Map.get n s.running ≡ some run
    → Ends s.queue run.row result
    → IsValid (settled n s run result)
settled-IsValid s n run (q, none) h here (table, keeps, final) = record {
  table = table;
  held = remove-AreHeld n s.running q.rows (others_held s n run q.rows h here keeps);
  once = remove-IsOnce n s.running h.once;
}
settled-IsValid s n run (q, some status) h here (table, keeps, final) = record {
  table = table;
  held =
      put-AreHeld n (record run { stage = finishing status }) s.running q.rows final
        (others_held s n run q.rows h here keeps);
  once =
      put-IsOnce n (record run { stage = finishing status }) s.running
        (λ m other e nm same_id. nm (sym (h.once m n other run e here same_id))) h.once;
}

settle_run-IsValid :
    (s : System) (now n : ℕ) (handled : Handled) (run : Run) (stage : Stage)
    → IsValid s
    → Map.get n s.running ≡ some run
    → Stands stage run.row (find_row run.row.id s.queue.rows)
    → IsValid (settle_run now n handled s run stage)
settle_run-IsValid s now n handled run handling h here stands =
    settled-IsValid s n run (settle s.queue run.row run.handler handled now) h here
      (settle-Ends s.queue run.row h.table stands.0 stands.1 now run.handler handled)
settle_run-IsValid s now n handled run (finishing status) h here stands = h

finish_run-IsValid :
    (s : System) (n : ℕ) (run : Run) (stage : Stage)
    → IsValid s
    → Map.get n s.running ≡ some run
    → Stands stage run.row (find_row run.row.id s.queue.rows)
    → IsValid (finish_run n s run stage)
finish_run-IsValid s n run handling h here stands = h
finish_run-IsValid s n run (finishing status) h here stands =
    let q = remove_finished s.queue run.row status in
    record {
      table = remove_finished-IsTable s.queue run.row status stands.0 h.table;
      held = remove-AreHeld n s.running q.rows (
          others_held s n run q.rows h here
            (remove_finished-Keeps s.queue run.row status stands.0 h.table));
      once = remove-IsOnce n s.running h.once;
    }

of_run-IsValid :
    (s : System) (n : ℕ) (found : Option Run) (step : Run → System)
    → IsValid s
    → Map.get n s.running ≡ found
    → ((run : Run) → Map.get n s.running ≡ some run → IsValid (step run))
    → IsValid (of_run s found step)
of_run-IsValid s n none step h e each = h
of_run-IsValid s n (some run) step h e each = each run e

Stands-Grows :
    (rows rows' : List Row) (stage : Stage) (row : Row)
    → Grows rows rows'
    → ((status : Status) → stage ≡ finishing status → find_row row.id rows' ≡ find_row row.id rows)
    → Stands stage row (find_row row.id rows)
    → Stands stage row (find_row row.id rows')
Stands-Grows rows rows' stage row (inl e) leaves h = rw e h
Stands-Grows rows rows' handling row (inr (new, counted, e)) leaves h =
    rw e (find_row-insert_row row.id new row rows h.0, h.1)
Stands-Grows rows rows' (finishing status) row (inr (new, counted, e)) leaves h =
    (h.0, subst IsOver (sym (leaves status refl)) h.1)

act-IsValid :
    (cron : Cron) (s : System) (a : ℕ × Action)
    → LeavesRuns cron s a
    → IsValid s
    → IsValid (act cron s a)
unfolding act
act-IsValid cron s (now, calls c) leaves h =
    let grows = call-Grows cron now s.queue c in
    record {
      table = Grows-IsTable s.queue.rows (call cron now s.queue c).rows grows h.table;
      held = λ n run e.
          Stands-Grows s.queue.rows (call cron now s.queue c).rows run.stage run.row grows
            (λ status. leaves n run status e) (h.held n run e);
      once = h.once;
    }
act-IsValid cron s (now, claims n) leaves h = elim (Bool-cases (Map.has n s.running)) [
  | inl e ↦ rw e h
  | inr e ↦ rw e (claims-IsValid s n now h)
]
act-IsValid cron s (now, settles n handled) leaves h =
    of_run-IsValid s n (Map.get n s.running) _ h refl
      (λ run e. settle_run-IsValid s now n handled run run.stage h e (h.held n run e))
act-IsValid cron s (now, finishes n) leaves h =
    of_run-IsValid s n (Map.get n s.running) _ h refl
      (λ run e. finish_run-IsValid s n run run.stage h e (h.held n run e))

-- From a valid state, whatever is called, whichever timers fire and however the statements of the runs
-- interleave, if no row is inserted with the id of the job of a run that waits to delete finished rows:
-- no two rows have one id, the attempts of every row are at most the maximum and below it while it waits,
-- no two runs that have not ended have claimed the same job, and the row of each job whose handler runs
-- stands in the table as it was claimed.
pub act_all-IsValid :
    (cron : Cron) (s : System) (actions : List (ℕ × Action))
    → LeaveRuns cron s actions
    → IsValid s
    → IsValid (act_all cron s actions)
unfolding act_all
act_all-IsValid cron s [] leave h = h
act_all-IsValid cron s (a ∷ actions) leave h =
    act_all-IsValid cron (act cron s a) actions leave.1 (act-IsValid cron s a leave.0 h)
