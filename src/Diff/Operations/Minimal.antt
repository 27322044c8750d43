-- ===== src/Diff/Operations/Minimal.antt =====
-- While the table is built, the operations leave as many lines alone as any that do the same.
use podokit.Base.{
  ℕ, zero, suc, ◌+◌, ◌*◌, ◌≤◌, ◌≡◌, refl, sym, ap, ◌∙◌, List, [], ◌∷◌, ◌++◌, arith, if◌then◌else◌,
  length, drop, length-append, Eq, text_eq,
}
use podokit.Diff.{
  Kind, context, removed, added, Op, max_cells, cell, table, walk, middle, operations,
}
use podokit.Diff.Lcs.{lcs, lcs-nil, lcs_mono_left, lcs_mono_right, lcs-append, lcs-prepend}
use podokit.Diff.Table.{cell-table}
use podokit.Diff.Operations.{
  selected, in_old, in_new, in_both, selected-mark, operations-selected, head_of, old_middle,
  new_middle, tail_of, old_parts, new_parts,
}

cells_mono : (m n k l : ℕ) → m ≤ k → n ≤ l → (m + 1) * (n + 1) ≤ (k + 1) * (l + 1)
cells_mono m n k l p q = grind arith

drop-suc {ℓ} :
    {A : Type ℓ} (i : ℕ) (x : A) (a xs : List A) → drop i xs ≡ x ∷ a → drop (suc i) xs ≡ a
drop-suc zero x a [] h = ground arith
drop-suc zero x a (y ∷ xs) h = ground arith
drop-suc (suc i) x a [] h = absurd (ground arith)
drop-suc (suc i) x a (y ∷ xs) h = drop-suc i x a xs h

module _ {ℓ} {A : Type ℓ} ⦃e : Eq A⦄ where
  -- No operations leave more lines alone than a longest common subsequence has.
  kept-le-lcs :
      (ops : List (Op A))
      → length (selected in_both ops) ≤ lcs (selected in_old ops) (selected in_new ops)
  unfolding selected
  kept-le-lcs [] = omega arith
  kept-le-lcs (op ∷ ops) = go op.kind (kept-le-lcs ops)
    where
      go :
          (k : Kind)
          → length (selected in_both ops) ≤ lcs (selected in_old ops) (selected in_new ops)
          → length (if in_both k then op.line ∷ selected in_both ops else selected in_both ops)
            ≤ lcs
                (if in_old k then op.line ∷ selected in_old ops else selected in_old ops)
                (if in_new k then op.line ∷ selected in_new ops else selected in_new ops)
      go context ih =
          omega (arith, ih, lcs-prepend (op.line ∷ []) (selected in_old ops) (selected in_new ops))
      go removed ih =
          omega (arith, ih, lcs_mono_left op.line (selected in_old ops) (selected in_new ops))
      go added ih =
          omega (arith, ih, lcs_mono_right op.line (selected in_old ops) (selected in_new ops))

  module _ (a0 b0 : List A) where
    kept-walk :
        (i j : ℕ) (a b : List A)
        → drop i a0 ≡ a
        → drop j b0 ≡ b
        → length (selected in_both (walk (table a0 b0) i j a b)) ≡ lcs a b
    unfolding walk selected lcs
    kept-walk i j [] b p q = rw (selected-mark in_both added b)
    kept-walk i j (x ∷ a) [] p q = kept-walk (suc i) j a [] (drop-suc i x a a0 p) q ∙ lcs-nil a
    kept-walk i j (x ∷ a) (y ∷ b) p q =
        let p' = drop-suc i x a a0 p in
        let q' = drop-suc j y b b0 q in
        let below : cell (table a0 b0) (suc i) j ≡ lcs a (y ∷ b) =
          rw (cell-table a0 b0 (suc i) j, p', q) in
        let right : cell (table a0 b0) i (suc j) ≡ lcs (x ∷ a) b =
          rw (cell-table a0 b0 i (suc j), p, q') in
        ground (
          arith,
          kept-walk (suc i) (suc j) a b p' q',
          kept-walk (suc i) j a (y ∷ b) p' q,
          kept-walk i (suc j) (x ∷ a) b p q',
          below,
          right,
        )

  kept-middle :
      (a b : List A)
      → (length a + 1) * (length b + 1) ≤ max_cells
      → length (selected in_both (middle a b)) ≡ lcs a b
  unfolding middle
  kept-middle a b h = ground (arith, kept-walk a b 0 0 a b refl refl)

  -- The middle parts are no longer than the texts.
  middles-le :
      (a b : List A) → (length (old_middle a b) ≤ length a) × (length (new_middle a b) ≤ length b)
  middles-le a b = (
    omega (
      arith,
      ap length (old_parts a b),
      length-append (head_of a b) (old_middle a b ++ tail_of a b),
      length-append (old_middle a b) (tail_of a b),
    ),
    omega (
      arith,
      ap length (new_parts a b),
      length-append (head_of a b) (new_middle a b ++ tail_of a b),
      length-append (new_middle a b) (tail_of a b),
    ),
  )

  kept-operations :
      (a b : List A)
      → (length a + 1) * (length b + 1) ≤ max_cells
      → length (selected in_both (operations a b)) ≡ lcs a b
  kept-operations a b h =
      let m = old_middle a b in
      let n = new_middle a b in
      let small = middles-le a b in
      let mid : length (selected in_both (middle m n)) ≡ lcs m n = kept-middle m n (
        omega (arith, h, cells_mono (length m) (length n) (length a) (length b) small.0 small.1)) in
      let whole : lcs a b ≡ length (head_of a b) + (lcs m n + length (tail_of a b)) =
        ap (λ t. lcs t b) (sym (old_parts a b))
        ∙ ap (λ t. lcs (head_of a b ++ (m ++ tail_of a b)) t) (sym (new_parts a b))
        ∙ lcs-prepend (head_of a b) (m ++ tail_of a b) (n ++ tail_of a b)
        ∙ ap (λ t. length (head_of a b) + t) (lcs-append m n (tail_of a b)) in
      ap length (operations-selected in_both a b refl)
      ∙ omega (
        arith,
        mid,
        whole,
        length-append (head_of a b) (selected in_both (middle m n) ++ tail_of a b),
        length-append (selected in_both (middle m n)) (tail_of a b),
      )

  -- For texts whose table is within the limit on its cells: whatever operations read the old lines
  -- and write the new ones, they leave no more lines alone than those that are computed.
  pub operations_minimal :
      (a b : List A) (ops : List (Op A))
      → (length a + 1) * (length b + 1) ≤ max_cells
      → selected in_old ops ≡ a
      → selected in_new ops ≡ b
      → length (selected in_both ops) ≤ length (selected in_both (operations a b))
  operations_minimal a b ops h p q = rw (kept-operations a b h) (rw (← p, ← q) (kept-le-lcs ops))
