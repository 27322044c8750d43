-- ===== src/Jobs/Runs/Invariant.antt =====
-- What calls and the two ends of a run do to the table, and to the rows that other runs hold.
use podokit.Jobs.Runs.System.{handling, finishing, Run, Stage}
use mathlib.Core.Path.{subst}
use podokit.Base.{
  ◌≤◌, same_refl, none, ◌⊎◌, Option, ℕ, ◌≡◌, refl, sym, ◌∙◌, ◌≢◌, inl, inr, Bool, true, false, not,
  ◌||◌, some, List, [], ◌∷◌, ◌++◌, arith, ltb, ◌==◌, Bool-cases, Option-cases, codes, keep_if, All,
  All-keep_if, Text, same, same_iff, nat_eq, text_eq,
}
use podokit.Base.{inl}
use podokit.Jobs.Rules.{Status, active, waiting, completed, failed}
use podokit.Jobs.Table.{
  Row, is_status, find_row, update_row, delete_row, retain, in_group, count_newer,
}
use podokit.Jobs.Table.Claims.{
  find_row-dropped, find_row-keep_if-none, IsKeyed, IsCounted, insert_row-IsKeyed, insert_row-All,
  find_row-update_row, update_row-IsKeyed, update_row-All, keep_if-IsKeyed, find_row-keep_if,
  find_row-All,
}
use podokit.Jobs.Queue.{Queue}
use podokit.Jobs.Runs.{
  Settled, schedule_of, remove_finished, keep_of, failed_row, fail, completed_row, complete,
  Handled, returns, throws, settle,
}
use podokit.Jobs.Runs.Grows.{Grows}

pub record IsTable (rows : List Row) : Type 0 where
  pub keyed : IsKeyed rows
  pub counted : All IsCounted rows

-- A row that no run can hold or claim.
abbrev pub IsOver : Option Row → Type 0
IsOver none = Unit
IsOver (some r) = (is_status r.status active ≡ false) × (is_status r.status waiting ≡ false)

-- What a run that stands at a stage says of the row of its id: while its handler runs, the row is as it was
-- claimed; and then, until the run ends, it is finished, or deleted.
abbrev pub Stands : Stage → Row → Option Row → Type 0
Stands handling row found = (found ≡ some row) × (is_status row.status active ≡ true)
Stands (finishing status) row found = (is_status status active ≡ false) × IsOver found

abbrev pub Holds : List Row → Run → Type 0
Holds rows run = Stands run.stage run.row (find_row run.row.id rows)

pub Grows-IsTable : (rows rows' : List Row) → Grows rows rows' → IsTable rows → IsTable rows'
Grows-IsTable rows rows' (inl e) h = rw e h
Grows-IsTable rows rows' (inr (row, c, e)) h = rw e (record {
  keyed = insert_row-IsKeyed row rows h.keyed;
  counted = insert_row-All IsCounted row rows c h.counted;
})

keep_if-every : (rows : List Row) → rows ≡ keep_if (λ _. true) rows
unfolding keep_if
keep_if-every [] = refl
keep_if-every (row ∷ rows) = ground (arith, keep_if-every rows)

pub active_only :
    (t u : Status) → is_status t active ≡ true → is_status u active ≡ false → is_status t u ≡ false
active_only active waiting a b = refl
active_only active active a b = absurd (ground arith)
active_only active completed a b = refl
active_only active failed a b = refl
active_only waiting u a b = absurd (ground arith)
active_only completed u a b = absurd (ground arith)
active_only failed u a b = absurd (ground arith)

-- The rows of other ids are the same, but for rows that are deleted and not active.
abbrev pub Keeps : Text → List Row → List Row → Type 0
Keeps id rows rows' =
    (j : Text)
    → j ≢ id
    → (find_row j rows' ≡ find_row j rows)
      ⊎ ((find_row j rows' ≡ none)
          × ((r : Row) → find_row j rows ≡ some r → is_status r.status active ≡ false))

kept_or_dropped :
    (p : Row → Bool) (rows : List Row) (j : Text)
    → IsTable rows
    → ((r : Row) → find_row j rows ≡ some r → is_status r.status active ≡ true → p r ≡ true)
    → (find_row j (keep_if p rows) ≡ find_row j rows)
      ⊎ ((find_row j (keep_if p rows) ≡ none)
          × ((r : Row) → find_row j rows ≡ some r → is_status r.status active ≡ false))
kept_or_dropped p rows j h spares = elim (Option-cases (find_row j rows)) [
  | inl e ↦ inl (find_row-keep_if-none p j rows e ∙ sym e)
  | inr (r, e) ↦ elim (Bool-cases (p r)) [
    | inl stays ↦ inl (find_row-keep_if p j r rows e stays ∙ sym e)
    | inr goes ↦ inr (
      find_row-dropped p j r rows h.keyed e goes,
      λ t there.
          let one : some r ≡ some t = sym e ∙ there in
          let same_row : r ≡ t = ground (arith, one) in
          elim (Bool-cases (is_status t.status active)) [
            | inl running ↦ absurd (ground (arith, spares r e (rw same_row running), goes))
            | inr idle ↦ idle
          ],
    )
  ]
]

Stands-dropped :
    (stage : Stage) (row : Row) (found : Option Row)
    → Stands stage row found
    → ((r : Row) → found ≡ some r → is_status r.status active ≡ false)
    → Stands stage row none
Stands-dropped handling row found h dropped = absurd (ground (arith, h.1, dropped row h.0))
Stands-dropped (finishing status) row found h dropped = (h.0, tt)

-- What a run holds stays if the rows of other ids do.
pub Keeps-Holds :
    (id : Text) (rows rows' : List Row) (run : Run)
    → Keeps id rows rows'
    → run.row.id ≢ id
    → Holds rows run
    → Holds rows' run
Keeps-Holds id rows rows' run keeps other h = elim (keeps run.row.id other) [
  | inl e ↦ subst (Stands run.stage run.row) (sym e) h
  | inr (gone, idle) ↦
      subst (Stands run.stage run.row) (sym gone) (Stands-dropped run.stage run.row _ h idle)
]

-- Rows are deleted once they are finished, and only those.
module _ (q : Queue) (row : Row) (status : Status) (final : is_status status active ≡ false) where
  abbrev Spares : (Row → Bool) → Type 0
  Spares p = (r : Row) → is_status r.status active ≡ true → r.id ≢ row.id → p r ≡ true

  remove_finished-keeps :
      (p : Row → Bool) × ((remove_finished q row status).rows ≡ keep_if p q.rows) × Spares p
  unfolding remove_finished delete_row retain
  remove_finished-keeps = elim (Option-cases (schedule_of q.schedules row)) [
    | inl e ↦ (λ _. true, rw (e, remove_finished) (keep_if-every q.rows), λ r a o. refl)
    | inr (s, e) ↦ elim (Bool-cases (keep_of status s.retention == 0)) [
      | inl z ↦ (
        λ r. not (same r.id row.id),
        rw (e, z, remove_finished) refl,
        λ r a o. ground (arith, same_iff r.id row.id),
      )
      | inr z ↦ (
        λ r.
            not (in_group row.name status r)
            || ltb (count_newer (in_group row.name status) r q.rows) (keep_of status s.retention),
        rw (e, z, remove_finished) refl,
        λ r a o. ground (arith, other_status r.status a),
      )
    ]
  ]
    where
      other_status : (t : Status) → is_status t active ≡ true → is_status t status ≡ false
      other_status t a = active_only t status a final

  pub remove_finished-IsTable : IsTable q.rows → IsTable (remove_finished q row status).rows
  remove_finished-IsTable h =
      let (p, e, spares) = remove_finished-keeps in
      rw e (record {
        keyed = keep_if-IsKeyed p q.rows h.keyed;
        counted = All-keep_if IsCounted p q.rows h.counted;
      })

  pub remove_finished-Keeps :
      IsTable q.rows → Keeps row.id q.rows (remove_finished q row status).rows
  remove_finished-Keeps h j other =
      let (p, e, spares) = remove_finished-keeps in
      rw e (
        kept_or_dropped p q.rows j h (λ r there. λ a.
          spares r a (λ x. other (sym (find_row-All IsCounted j q.rows h.counted there).1 ∙ x))))

module _ (q : Queue) (row : Row) (change : Row → Row)
    (keeps : (r : Row) → (change r).id ≡ r.id) where
  pub update_row-IsTable :
      IsCounted (change row)
      → find_row row.id q.rows ≡ some row
      → IsTable q.rows
      → IsTable (update_row row.id change q.rows)
  update_row-IsTable c found h = record {
    keyed = update_row-IsKeyed row.id change keeps q.rows h.keyed;
    counted = update_row-All row.id change keeps IsCounted row q.rows h.keyed found c h.counted;
  }

  pub update_row-Keeps : Keeps row.id q.rows (update_row row.id change q.rows)
  update_row-Keeps j other =
      inl
        (ground (arith, find_row-update_row row.id change keeps j q.rows, same_iff row.id j, other))

-- The finished rows that are deleted next, given the row of the run.
abbrev pub IsFinal : Option Row → Option Status → Type 0
IsFinal found none = Unit
IsFinal found (some status) = (is_status status active ≡ false) × IsOver found

-- What the statement at the end of a handler does.
abbrev pub Ends : Queue → Row → Settled → Type 0
Ends q row (q', final) =
    IsTable q'.rows × Keeps row.id q.rows q'.rows × IsFinal (find_row row.id q'.rows) final

module _ (q : Queue) (row : Row) (h : IsTable q.rows) (found : find_row row.id q.rows ≡ some row)
    (running : is_status row.status active ≡ true) (at : ℕ) where
  changed :
      (change : Row → Row)
      → ((r : Row) → (change r).id ≡ r.id)
      → find_row row.id (update_row row.id change q.rows) ≡ some (change row)
  changed change keeps =
      ground (arith, find_row-update_row row.id change keeps row.id q.rows, same_refl row.id, found)

  begun_row : 1 ≤ row.attempts
  begun_row =
      (find_row-All IsCounted row.id q.rows h.counted found).0.begun
        (ground (arith, active_only row.status waiting, running))

  complete-Ends : Ends q row (complete q row at)
  unfolding complete
  complete-Ends =
      let change = completed_row at in
      let c = find_row-All IsCounted row.id q.rows h.counted found in
      (
        update_row-IsTable q row change (λ r. refl)
            (record {
              at_most = c.0.at_most;
              some_left = λ e. absurd (ground arith);
              begun = λ e. begun_row;
            })
            found h,
        update_row-Keeps q row change (λ r. refl),
        (refl, rw (changed change (λ r. refl)) (refl, refl)),
      )

  fail-Ends : (message : Text) → Ends q row (fail q row message at)
  unfolding fail
  fail-Ends message =
      let change = failed_row row at q.poll_interval_ms message in
      let c = find_row-All IsCounted row.id q.rows h.counted found in
      let table : IsTable (update_row row.id change q.rows) =
        update_row-IsTable q row change (λ r. refl)
          (record { at_most = c.0.at_most; some_left = λ e. ground arith; begun = λ e. begun_row })
          found h in
      elim (Bool-cases (ltb row.attempts row.max_attempts)) [
        | inl e ↦ rw e (table, update_row-Keeps q row change (λ r. refl), tt)
        | inr e ↦
            let over : IsOver (find_row row.id (update_row row.id change q.rows)) =
              subst IsOver (sym (changed change (λ r. refl))) (rw e (refl, refl)) in
            rw e (table, update_row-Keeps q row change (λ r. refl), (refl, over))
      ]

  pub settle-Ends :
      (handler : Bool) (handled : Handled) → Ends q row (settle q row handler handled at)
  unfolding settle
  settle-Ends false handled = fail-Ends (codes "No handler is registered for job " ++ row.name)
  settle-Ends true returns = complete-Ends
  settle-Ends true (throws message) = fail-Ends message
