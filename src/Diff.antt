-- ===== src/Diff.antt =====
-- packages/cli/src/text-diff.ts: the line operations of `podo diff`, and their hunks.
pub mod Lcs
pub mod Table
pub mod Trimming
pub mod Hunks
pub mod Operations
mod Tests
use podokit.Base.{
  ℕ, zero, suc, ◌+◌, ◌-◌, ◌*◌, ◌/◌, ◌%◌, ◌^◌, ◌≤◌, ◌<◌, min, max, ◌≡◌, refl, sym, ap, ◌∙◌, ◌≡⟨◌⟩◌,
  ◌∎, ◌≢◌, ◌↔◌, ◌⊎◌, inl, inr, Bool, true, false, not, ◌&&◌, ◌||◌, Option, none, some, List, [],
  ◌∷◌, ◌++◌, map, append-nil, append_assoc, arith, ltb, leb, ◌==◌, if◌then◌else◌, ltb→lt, lt→ltb,
  leb→le, le→leb, ==_iff, tests, Bool-cases, Option-cases, codes, length, get_elem?, take, drop,
  keep_if, any, all, length-append, take-append-drop, length-drop, length-take, All, All-append,
  Result, ok, err, Result-cases, ◌>>=◌, ◌>>◌, reject_if, Eq, list_beq, list_beq_iff, Text, same,
  same_iff, same_refl, text_eq,
}
use mathlib.Core.List.{reverse}

pub data Kind : Type 0 where
  context removed added : Kind

pub record Op {ℓ} (A : Type ℓ) : Type ℓ where
  pub kind : Kind
  pub line : A

-- MAX_CELLS
abbrev pub max_cells : ℕ
max_cells = 25000000

abbrev pub mark {ℓ} : {A : Type ℓ} → Kind → List A → List (Op A)
mark kind [] = []
mark kind (line ∷ lines) = record { kind = kind; line = line } ∷ mark kind lines

-- An element read as 0 out of range, and the row after the first cell.
abbrev pub first : List ℕ → ℕ
first [] = 0
first (n ∷ row) = n

abbrev pub rest : List ℕ → List ℕ
rest [] = []
rest (n ∷ row) = row

abbrev pub row_at : List (List ℕ) → ℕ → List ℕ
row_at [] i = []
row_at (row ∷ rows) zero = row
row_at (row ∷ rows) (suc i) = row_at rows i

abbrev pub nth : List ℕ → ℕ → ℕ
nth [] j = 0
nth (n ∷ row) zero = n
nth (n ∷ row) (suc j) = nth row j

abbrev pub cell : List (List ℕ) → ℕ → ℕ → ℕ
cell table i j = nth (row_at table i) j

module _ {ℓ} {A : Type ℓ} ⦃e : Eq A⦄ where
  -- The loop over `start`: how many lines the two begin with in common.
  pub common : List A → List A → ℕ
  common [] b = 0
  common (x ∷ a) [] = 0
  common (x ∷ a) (y ∷ b) = if e.beq x y then suc (common a b) else 0

  -- One row of the table, from its last cell to its first, over the row below it.
  unfoldable pub table_row : A → List A → List ℕ → List ℕ
  table_row x [] below = 0 ∷ []
  table_row x (y ∷ b) below =
      let right = table_row x b (rest below) in
      (if e.beq x y then first (rest below) + 1 else max (first below) (first right)) ∷ right

  unfoldable pub zeros : List A → List ℕ
  zeros [] = 0 ∷ []
  zeros (y ∷ b) = 0 ∷ zeros b

  -- The rows of the table, row 0 first.
  unfoldable pub table : List A → List A → List (List ℕ)
  table [] b = zeros b ∷ []
  table (x ∷ a) b = let below = table a b in table_row x b (row_at below 0) ∷ below

  -- The walk from (i, j), where `a` and `b` are what is left of `midA` and `midB`.
  pub walk : List (List ℕ) → ℕ → ℕ → List A → List A → List (Op A)
  walk cells i j [] b = mark added b
  walk cells i j (x ∷ a) [] = record { kind = removed; line = x } ∷ walk cells (suc i) j a []
  walk cells i j (x ∷ a) (y ∷ b) = elim (e.beq x y) [
    | true ↦ record { kind = context; line = x } ∷ walk cells (suc i) (suc j) a b
    | false ↦ elim (leb (cell cells i (suc j)) (cell cells (suc i) j)) [
      | true ↦ record { kind = removed; line = x } ∷ walk cells (suc i) j a (y ∷ b)
      | false ↦ record { kind = added; line = y } ∷ walk cells i (suc j) (x ∷ a) b
    ]
  ]

  -- The middle part, after what the two begin and end with in common is cut off.
  pub middle : List A → List A → List (Op A)
  middle a b =
      if ltb max_cells ((length a + 1) * (length b + 1))
      then mark removed a ++ mark added b
      else walk (table a b) 0 0 a b

  pub operations : List A → List A → List (Op A)
  operations a b =
      let start = common a b in
      let a' = drop start a in
      let b' = drop start b in
      let end = common (reverse a') (reverse b') in
      mark context (take start a)
      ++ (middle (take (length a' - end) a') (take (length b' - end) b')
          ++ mark context (drop (length a' - end) a'))
