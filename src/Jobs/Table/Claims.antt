-- ===== src/Jobs/Table/Claims.antt =====
-- What the statements of the queue do to the rows.
use podokit.Base.{
  keep_if, Bool, ℕ, ◌≤◌, ◌<◌, ◌≡◌, refl, sym, inl, inr, true, false, Option, none, some, List, [],
  ◌∷◌, ◌++◌, arith, if◌then◌else◌, Bool-cases, Option-cases, All, All-append, All-map, Text, same,
  same_iff, same_refl, nat_eq, text_eq,
}
use mathlib.Core.Path.{subst}
use mathlib.Core.Option
use podokit.Jobs.Rules.{waiting}
use podokit.Jobs.Table.{
  Row, is_status, find_row, insert_row, update_row, is_due, oldest_due, started_at, claim,
}

-- No two rows have one id.
abbrev pub IsKeyed : List Row → Type 0
IsKeyed [] = Unit
IsKeyed (row ∷ rows) = (find_row row.id rows ≡ none) × IsKeyed rows

-- What the attempts of a row are, by its status.
pub record IsCounted (row : Row) : Type 0 where
  pub at_most : row.attempts ≤ row.max_attempts
  pub some_left : is_status row.status waiting ≡ true → row.attempts < row.max_attempts
  pub begun : is_status row.status waiting ≡ false → 1 ≤ row.attempts

pub find_row-append :
    (id : Text) (rows : List Row) (row : Row)
    → find_row id (rows ++ row ∷ []) ≡ elim (find_row id rows) [
      | some old ↦ some old
      | none ↦ (if same row.id id then some row else none)
    ]
unfolding find_row
find_row-append id [] row = refl
find_row-append id (r ∷ rows) row = ground (arith, find_row-append id rows row)

pub append-IsKeyed :
    (rows : List Row) (row : Row)
    → IsKeyed rows
    → find_row row.id rows ≡ none
    → IsKeyed (rows ++ row ∷ [])
unfolding find_row
append-IsKeyed [] row h e = (refl, tt)
append-IsKeyed (r ∷ rows) row h e = ground (
  arith,
  append-IsKeyed rows row h.1,
  find_row-append r.id rows row,
  same_iff r.id row.id,
  same_iff row.id r.id,
)

pub insert_row-IsKeyed :
    (row : Row) (rows : List Row) → IsKeyed rows → IsKeyed (insert_row row rows)
unfolding insert_row
insert_row-IsKeyed row rows h = elim (Option-cases (find_row row.id rows)) [
  | inl e ↦ rw (e, insert_row) (append-IsKeyed rows row h e)
  | inr (old, e) ↦ rw (e, insert_row) h
]

pub insert_row-All :
    (P : Row → Type 0) (row : Row) (rows : List Row)
    → P row
    → All P rows
    → All P (insert_row row rows)
unfolding insert_row
insert_row-All P row rows p h = elim (Option-cases (find_row row.id rows)) [
  | inl e ↦ rw (e, insert_row) (All-append P rows (row ∷ []) h (p, tt))
  | inr (old, e) ↦ rw (e, insert_row) h
]

pub find_row-All :
    (P : Row → Type 0) (id : Text) (rows : List Row) {r : Row}
    → All P rows
    → find_row id rows ≡ some r
    → P r × (r.id ≡ id)
unfolding find_row
find_row-All P id [] h e = absurd (ground arith)
find_row-All P id (row ∷ rows) {r} h e = elim (Bool-cases (same row.id id)) [
  | inl q ↦
      let here : row ≡ r = ground arith in
      subst (λ t. P t × (t.id ≡ id)) here (h.0, (same_iff row.id id).0 q)
  | inr q ↦ find_row-All P id rows h.1 (rw (q, find_row) at e)
]

-- An inserted row hides no other.
pub find_row-insert_row :
    (id : Text) (row r : Row) (rows : List Row)
    → find_row id rows ≡ some r
    → find_row id (insert_row row rows) ≡ some r
unfolding insert_row
find_row-insert_row id row r rows h = ground (arith, find_row-append id rows row)

-- A change of one row that keeps its id.
module _ (id : Text) (change : Row → Row) (keeps : (row : Row) → (change row).id ≡ row.id) where
  pub find_row-update_row :
      (j : Text) (rows : List Row)
      → find_row j (update_row id change rows)
        ≡ (if same id j then Option.map change (find_row j rows) else find_row j rows)
  unfolding find_row update_row
  find_row-update_row j [] = ground arith
  find_row-update_row j (row ∷ rows) = ground (
    arith,
    keeps row,
    find_row-update_row j rows,
    same_iff row.id id,
    same_iff row.id j,
    same_iff id j,
  )

  pub update_row-IsKeyed : (rows : List Row) → IsKeyed rows → IsKeyed (update_row id change rows)
  unfolding update_row
  update_row-IsKeyed [] h = tt
  update_row-IsKeyed (row ∷ rows) h =
      ground (arith, keeps row, find_row-update_row row.id rows, update_row-IsKeyed rows h.1)

  update_row_absent : (rows : List Row) → find_row id rows ≡ none → update_row id change rows ≡ rows
  unfolding update_row find_row
  update_row_absent [] h = refl
  update_row_absent (row ∷ rows) h = ground (arith, update_row_absent rows)

  -- Of rows with different ids the one with `id` is changed.
  pub update_row-All :
      (P : Row → Type 0) (r : Row) (rows : List Row)
      → IsKeyed rows
      → find_row id rows ≡ some r
      → P (change r)
      → All P rows
      → All P (update_row id change rows)
  unfolding update_row find_row
  update_row-All P r [] keyed found p h = tt
  update_row-All P r (row ∷ rows) keyed found p h = elim (Bool-cases (same row.id id)) [
    | inl e ↦
        let absent : find_row id rows ≡ none =
          subst (λ t. find_row t rows ≡ none) ((same_iff row.id id).0 e) keyed.0 in
        let here : row ≡ r = ground arith in
        rw (e, update_row_absent rows absent) (subst (λ t. P (change t)) (sym here) p, h.1)
    | inr e ↦ rw e (h.0, update_row-All P r rows keyed.1 (rw (e, find_row) at found) p h.1)
  ]

-- The row claimed is one that is due, and there is none only if no row is due.
pub oldest_due-found :
    (now : ℕ) (rows : List Row) {r : Row}
    → IsKeyed rows
    → oldest_due now rows ≡ some r
    → (is_due now r ≡ true) × (find_row r.id rows ≡ some r)
unfolding oldest_due find_row
oldest_due-found now [] keyed h = absurd (ground arith)
oldest_due-found now (row ∷ rows) {r} keyed h = elim (Option-cases (oldest_due now rows)) [
  | inl e ↦ ground (arith, same_refl row.id)
  | inr (next, e) ↦
      let ih = oldest_due-found now rows keyed.1 e in
      ground (arith, ih.0, ih.1, same_iff row.id next.id, same_refl row.id)
]

oldest_due-none :
    (now : ℕ) (rows : List Row) → oldest_due now rows ≡ none → All (λ s. is_due now s ≡ false) rows
unfolding oldest_due
oldest_due-none now [] h = tt
oldest_due-none now (row ∷ rows) h = (ground arith, oldest_due-none now rows (ground arith))

oldest_due-oldest :
    (now : ℕ) (rows : List Row) {r : Row}
    → oldest_due now rows ≡ some r
    → All (λ s. is_due now s ≡ true → r.created_at ≤ s.created_at) rows
unfolding oldest_due
oldest_due-oldest now [] h = tt
oldest_due-oldest now (row ∷ rows) {r} h = elim (Option-cases (oldest_due now rows)) [
  | inl e ↦
      (ground arith, All-map rows (λ s g d. absurd (ground arith)) (oldest_due-none now rows e))
  | inr (next, e) ↦
      (ground arith, All-map rows (λ s g d. ground (arith, g d)) (oldest_due-oldest now rows e))
]

-- The row claimed and what is left of the table, or that there is none to claim.
abbrev pub Claimed : ℕ → List Row → List Row × Option Row → Type 0
Claimed now rows (rows', none) = (rows' ≡ rows) × All (λ s. is_due now s ≡ false) rows
Claimed now rows (rows', some row) =
    (r : Row) × (find_row r.id rows ≡ some r)
    × (is_due now r ≡ true)
    × All (λ s. is_due now s ≡ true → r.created_at ≤ s.created_at) rows
    × (row ≡ started_at now r)
    × (rows' ≡ update_row r.id (started_at now) rows)

-- If no two rows have one id, a claim takes the row that was created first of those that are due,
-- and only marks it: it is active, with one attempt more. Nothing is claimed, or changed, only if no
-- row is due.
pub claim-Claimed : (now : ℕ) (rows : List Row) → IsKeyed rows → Claimed now rows (claim now rows)
unfolding claim
claim-Claimed now rows keyed = elim (Option-cases (oldest_due now rows)) [
  | inl e ↦ rw (e, claim) (refl, oldest_due-none now rows e)
  | inr (r, e) ↦
      let (due, found) = oldest_due-found now rows keyed e in
      rw (e, claim) (r, found, due, oldest_due-oldest now rows e, refl, refl)
]

-- What is left after rows are deleted.
module _ (p : Row → Bool) where
  pub find_row-keep_if-none :
      (id : Text) (rows : List Row) → find_row id rows ≡ none → find_row id (keep_if p rows) ≡ none
  unfolding find_row keep_if
  find_row-keep_if-none id [] h = refl
  find_row-keep_if-none id (row ∷ rows) h = ground (arith, find_row-keep_if-none id rows)

  pub keep_if-IsKeyed : (rows : List Row) → IsKeyed rows → IsKeyed (keep_if p rows)
  unfolding keep_if
  keep_if-IsKeyed [] h = tt
  keep_if-IsKeyed (row ∷ rows) h =
      ground (arith, find_row-keep_if-none row.id rows, keep_if-IsKeyed rows h.1)

  pub find_row-keep_if :
      (id : Text) (r : Row) (rows : List Row)
      → find_row id rows ≡ some r
      → p r ≡ true
      → find_row id (keep_if p rows) ≡ some r
  unfolding find_row keep_if
  find_row-keep_if id r [] h e = absurd (ground arith)
  find_row-keep_if id r (row ∷ rows) h e = ground (arith, find_row-keep_if id r rows)

  pub find_row-dropped :
      (id : Text) (r : Row) (rows : List Row)
      → IsKeyed rows
      → find_row id rows ≡ some r
      → p r ≡ false
      → find_row id (keep_if p rows) ≡ none
  unfolding find_row keep_if
  find_row-dropped id r [] keyed h e = absurd (ground arith)
  find_row-dropped id r (row ∷ rows) keyed h e = elim (Bool-cases (same row.id id)) [
    | inl q ↦
        let here : row ≡ r = ground arith in
        let gone : p row ≡ false = rw here e in
        let absent : find_row id rows ≡ none =
          subst (λ t. find_row t rows ≡ none) ((same_iff row.id id).0 q) keyed.0 in
        rw gone (find_row-keep_if-none id rows absent)
    | inr q ↦ ground (arith, q, find_row-dropped id r rows keyed.1)
  ]
