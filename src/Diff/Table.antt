-- ===== src/Diff/Table.antt =====
-- The table holds the lengths of the longest common subsequences of what is left of the two texts.
use podokit.Base.{ℕ, zero, suc, ◌≡◌, refl, List, [], ◌∷◌, arith, drop, Eq, text_eq}
use podokit.Diff.{first, rest, row_at, nth, cell, table_row, zeros, table}
use podokit.Diff.Lcs.{lcs}

first-nth : (row : List ℕ) → first row ≡ nth row 0
first-nth [] = refl
first-nth (n ∷ row) = refl

module _ {ℓ} {A : Type ℓ} ⦃e : Eq A⦄ where
  -- The row that belongs to what is left of the first text.
  Holds : List ℕ → List A → List A → Type 0
  Holds row a b = (j : ℕ) → nth row j ≡ lcs a (drop j b)

  zeros-Holds : (b : List A) → Holds (zeros b) [] b
  unfolding Holds zeros lcs
  zeros-Holds [] zero = refl
  zeros-Holds [] (suc j) = refl
  zeros-Holds (y ∷ b) zero = refl
  zeros-Holds (y ∷ b) (suc j) = zeros-Holds b j

  rest-Holds :
      (row : List ℕ) (a : List A) (y : A) (b : List A) → Holds row a (y ∷ b) → Holds (rest row) a b
  unfolding Holds
  rest-Holds [] a y b h j = h (suc j)
  rest-Holds (n ∷ row) a y b h j = h (suc j)

  table_row-Holds :
      (x : A) (a b : List A) (below : List ℕ)
      → Holds below a b
      → Holds (table_row x b below) (x ∷ a) b
  unfolding Holds table_row lcs
  table_row-Holds x a [] below h zero = refl
  table_row-Holds x a [] below h (suc j) = refl
  table_row-Holds x a (y ∷ b) below h zero = ground (
    arith,
    h 0,
    rest-Holds below a y b h 0,
    first-nth below,
    first-nth (rest below),
    table_row-Holds x a b (rest below) (rest-Holds below a y b h) 0,
    first-nth (table_row x b (rest below)),
  )
  table_row-Holds x a (y ∷ b) below h (suc j) =
      table_row-Holds x a b (rest below) (rest-Holds below a y b h) j

  top-Holds : (a b : List A) → Holds (row_at (table a b) 0) a b
  unfolding table
  top-Holds [] b = zeros-Holds b
  top-Holds (x ∷ a) b = table_row-Holds x a b (row_at (table a b) 0) (top-Holds a b)

  -- Each cell of the table holds the length of a longest common subsequence of the lines from
  -- there on, also beyond the last row and column, where it is read as 0.
  pub cell-table : (a b : List A) (i j : ℕ) → cell (table a b) i j ≡ lcs (drop i a) (drop j b)
  unfolding table lcs Holds
  cell-table a b zero j = top-Holds a b j
  cell-table [] b (suc i) j = refl
  cell-table (x ∷ a) b (suc i) j = cell-table a b i j
