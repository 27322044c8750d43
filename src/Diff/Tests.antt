-- ===== src/Diff/Tests.antt =====
-- The diff of two short texts.
use podokit.Base.{nat_eq, ℕ, ◌≤◌, ◌≡◌, refl, List, [], ◌∷◌, arith, length, text_eq}
use podokit.Diff.{
  cell, Kind, context, removed, added, Op, table, walk, table_row, zeros, common, middle,
  operations,
}
use podokit.Base.{All}
use podokit.Diff.Hunks.{changed, hunks_from, hunks}
use podokit.Diff.Hunks.Apart.{AreApart, Shows, hunks-AreApart}
use podokit.Diff.Table.{cell-table}
use podokit.Diff.Lcs.{lcs}
use podokit.Diff.Operations.{operations-apply, selected, in_old, in_new, in_both}
use podokit.Diff.Operations.Minimal.{operations_minimal}

abbrev op : Kind → ℕ → Op ℕ
op kind line = record { kind = kind; line = line }

-- The line 2 becomes 5, and 9 is added at the end.
edit :
    operations (1 ∷ 2 ∷ 3 ∷ []) (1 ∷ 5 ∷ 3 ∷ 9 ∷ [])
    ≡ op context 1 ∷ op removed 2 ∷ op added 5 ∷ op context 3 ∷ op added 9 ∷ []
unfolding operations middle walk table table_row zeros common
edit = refl

abbrev old : List ℕ
old = 1 ∷ 2 ∷ []

abbrev new : List ℕ
new = 2 ∷ 1 ∷ []

operations_minimal_example : 1 ≤ length (selected in_both (operations old new))
unfolding selected
operations_minimal_example =
    operations_minimal old new (op removed 1 ∷ op context 2 ∷ op added 1 ∷ []) (omega arith) refl
      refl

operations-apply_example :
    (selected in_old (operations old new) ≡ old) × (selected in_new (operations old new) ≡ new)
operations-apply_example = operations-apply old new

cell-table_example : cell (table old new) 0 1 ≡ lcs old (1 ∷ [])
cell-table_example = cell-table old new 0 1

-- Two changes together, and one further down.
abbrev edits : List (Op ℕ)
edits =
    op context 0
    ∷ op removed 1
    ∷ op added 2
    ∷ op context 3
    ∷ op context 4
    ∷ op context 5
    ∷ op context 6
    ∷ op added 7
    ∷ []

hunks-AreApart_example :
    AreApart 1 0 (hunks 1 (changed 0 edits))
    × All (Shows (hunks 1 (changed 0 edits))) (changed 0 edits)
hunks-AreApart_example = hunks-AreApart 1 edits

two_hunks : hunks 1 (changed 0 edits) ≡ (1, 2) ∷ (7, 7) ∷ []
unfolding hunks hunks_from changed
two_hunks = refl
