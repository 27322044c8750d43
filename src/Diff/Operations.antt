-- ===== src/Diff/Operations.antt =====
-- The operations turn the one text into the other, and keep as many lines as any that do.
pub mod Minimal
use mathlib.Core.List.{reverse}
use podokit.Base.{
  ℕ, suc, ◌-◌, ◌≡◌, refl, ap, ◌∙◌, Bool, true, false, List, [], ◌∷◌, ◌++◌, append-nil, arith,
  if◌then◌else◌, length, take, drop, take-append-drop, Eq, text_eq,
}
use podokit.Diff.{Kind, context, removed, added, Op, mark, table, walk, common, middle, operations}
use podokit.Diff.Trimming.{take-common, drop-common}

-- The lines that operations of some kinds hold.
unfoldable pub selected {ℓ} : {A : Type ℓ} → (Kind → Bool) → List (Op A) → List A
selected p [] = []
selected p (op ∷ ops) = let rest = selected p ops in if p op.kind then op.line ∷ rest else rest

-- `op.kind !== "+"`: what the operations read.
abbrev pub in_old : Kind → Bool
in_old added = false
in_old _ = true

-- `op.kind !== "-"`: what they write.
abbrev pub in_new : Kind → Bool
in_new removed = false
in_new _ = true

-- What they leave alone.
abbrev pub in_both : Kind → Bool
in_both context = true
in_both _ = false

module _ {ℓ} {A : Type ℓ} (p : Kind → Bool) where
  selected-append :
      (ops ops' : List (Op A)) → selected p (ops ++ ops') ≡ selected p ops ++ selected p ops'
  unfolding selected
  selected-append [] ops' = refl
  selected-append (op ∷ ops) ops' = ground (arith, selected-append ops ops')

  selected-mark :
      (k : Kind) (lines : List A) → selected p (mark k lines) ≡ (if p k then lines else [])
  unfolding selected
  selected-mark k [] = ground arith
  selected-mark k (x ∷ lines) = ground (arith, selected-mark k lines)

module _ {ℓ} {A : Type ℓ} ⦃e : Eq A⦄ where
  walk-old :
      (cells : List (List ℕ)) (i j : ℕ) (a b : List A) → selected in_old (walk cells i j a b) ≡ a
  unfolding walk selected
  walk-old cells i j [] b = selected-mark in_old added b
  walk-old cells i j (x ∷ a) [] = rw (walk-old cells (suc i) j a [])
  walk-old cells i j (x ∷ a) (y ∷ b) = ground (
    arith,
    e.beq_iff x y,
    walk-old cells (suc i) (suc j) a b,
    walk-old cells (suc i) j a (y ∷ b),
    walk-old cells i (suc j) (x ∷ a) b,
  )

  walk-new :
      (cells : List (List ℕ)) (i j : ℕ) (a b : List A) → selected in_new (walk cells i j a b) ≡ b
  unfolding walk selected
  walk-new cells i j [] b = selected-mark in_new added b
  walk-new cells i j (x ∷ a) [] = walk-new cells (suc i) j a []
  walk-new cells i j (x ∷ a) (y ∷ b) = ground (
    arith,
    e.beq_iff x y,
    walk-new cells (suc i) (suc j) a b,
    walk-new cells (suc i) j a (y ∷ b),
    walk-new cells i (suc j) (x ∷ a) b,
  )

  middle-old : (a b : List A) → selected in_old (middle a b) ≡ a
  unfolding middle
  middle-old a b = ground (
    arith,
    walk-old (table a b) 0 0 a b,
    selected-append in_old (mark removed a) (mark added b),
    selected-mark in_old removed a,
    selected-mark in_old added b,
    append-nil a,
  )

  middle-new : (a b : List A) → selected in_new (middle a b) ≡ b
  unfolding middle
  middle-new a b = ground (
    arith,
    walk-new (table a b) 0 0 a b,
    selected-append in_new (mark removed a) (mark added b),
    selected-mark in_new removed a,
    selected-mark in_new added b,
  )

  -- The parts that `operations` cuts the two texts into.
  abbrev cut : List A → List A → ℕ
  cut a b = common (reverse (drop (common a b) a)) (reverse (drop (common a b) b))

  abbrev head_of : List A → List A → List A
  head_of a b = take (common a b) a

  abbrev old_middle : List A → List A → List A
  old_middle a b = let a' = drop (common a b) a in take (length a' - cut a b) a'

  abbrev new_middle : List A → List A → List A
  new_middle a b = let b' = drop (common a b) b in take (length b' - cut a b) b'

  abbrev tail_of : List A → List A → List A
  tail_of a b = let a' = drop (common a b) a in drop (length a' - cut a b) a'

  -- Each text is the head, its own middle, and the tail.
  old_parts : (a b : List A) → head_of a b ++ (old_middle a b ++ tail_of a b) ≡ a
  old_parts a b =
      ap (λ t. head_of a b ++ t)
        (take-append-drop (length (drop (common a b) a) - cut a b) (drop (common a b) a))
      ∙ take-append-drop (common a b) a

  new_parts : (a b : List A) → head_of a b ++ (new_middle a b ++ tail_of a b) ≡ b
  new_parts a b =
      let b' = drop (common a b) b in
      ap (λ t. head_of a b ++ (new_middle a b ++ t)) (drop-common (drop (common a b) a) b')
      ∙ ap (λ t. head_of a b ++ t) (take-append-drop (length b' - cut a b) b')
      ∙ ap (λ t. t ++ b') (take-common a b)
      ∙ take-append-drop (common a b) b

  operations-selected :
      (p : Kind → Bool) (a b : List A)
      → p context ≡ true
      → selected p (operations a b)
        ≡ head_of a b ++ (selected p (middle (old_middle a b) (new_middle a b)) ++ tail_of a b)
  unfolding operations
  operations-selected p a b h =
      let mid = middle (old_middle a b) (new_middle a b) in
      ground (
        arith,
        selected-append p (mark context (head_of a b)) (mid ++ mark context (tail_of a b)),
        selected-append p mid (mark context (tail_of a b)),
        selected-mark p context (head_of a b),
        selected-mark p context (tail_of a b),
      )

  -- The operations read exactly the old lines and write exactly the new ones, whether or not the
  -- table is built.
  pub operations-apply :
      (a b : List A)
      → (selected in_old (operations a b) ≡ a) × (selected in_new (operations a b) ≡ b)
  operations-apply a b = (
    operations-selected in_old a b refl
        ∙ ap (λ t. head_of a b ++ (t ++ tail_of a b)) (middle-old (old_middle a b) (new_middle a b))
        ∙ old_parts a b,
    operations-selected in_new a b refl
        ∙ ap (λ t. head_of a b ++ (t ++ tail_of a b)) (middle-new (old_middle a b) (new_middle a b))
        ∙ new_parts a b,
  )
