-- ===== src/Diff/Trimming.antt =====
-- Cutting off what two texts begin and end with in common.
use podokit.Base.{
  ℕ, ◌+◌, ◌-◌, ◌≤◌, ◌≡◌, refl, sym, ap, ◌∙◌, List, [], ◌∷◌, ◌++◌, arith, length, take, drop,
  take-append-drop, length-drop, Eq, text_eq,
}
use mathlib.Core.List.{reverse, reverse-append, reverse-reverse, reverse_aux}
use podokit.Diff.{common}

module _ {ℓ} {A : Type ℓ} where
  length-reverse_aux : (a b : List A) → length (reverse_aux a b) ≡ length a + length b
  length-reverse_aux [] b = omega arith
  length-reverse_aux (x ∷ a) b = omega (arith, length-reverse_aux a (x ∷ b))

  length-reverse : (a : List A) → length (reverse a) ≡ length a
  length-reverse a = length-reverse_aux a [] ∙ (omega arith)

  drop-append : (a b : List A) → drop (length a) (a ++ b) ≡ b
  drop-append [] b = refl
  drop-append (x ∷ a) b = drop-append a b

  take-append : (a b : List A) → take (length a) (a ++ b) ≡ a
  take-append [] b = refl
  take-append (x ∷ a) b = ap (λ t. x ∷ t) (take-append a b)

  -- The last `k` elements, from behind.
  drop-reverse :
      (a : List A) (k : ℕ) → k ≤ length a → drop (length a - k) a ≡ reverse (take k (reverse a))
  drop-reverse a k h =
      let r = reverse a in
      let u = reverse (drop k r) in
      let v = reverse (take k r) in
      let whole : a ≡ u ++ v =
        sym (reverse-reverse a)
        ∙ ap reverse (sym (take-append-drop k r))
        ∙ reverse-append (take k r) (drop k r) in
      let len : length u ≡ length a - k =
        omega (arith, length-reverse (drop k r), length-drop k r, length-reverse a) in
      ap (λ n. drop n a) (sym len) ∙ ap (drop (length u)) whole ∙ drop-append u v

module _ {ℓ} {A : Type ℓ} ⦃e : Eq A⦄ where
  pub take-common : (a b : List A) → take (common a b) a ≡ take (common a b) b
  unfolding common
  take-common [] b = refl
  take-common (x ∷ a) [] = refl
  take-common (x ∷ a) (y ∷ b) = ground (arith, e.beq_iff x y, take-common a b)

  common-le : (a b : List A) → (common a b ≤ length a) × (common a b ≤ length b)
  unfolding common
  common-le [] b = omega arith
  common-le (x ∷ a) [] = omega arith
  common-le (x ∷ a) (y ∷ b) = ground (arith, common-le a b)

  -- What is cut off at the end is the same in both.
  pub drop-common :
      (a b : List A)
      → drop (length a - common (reverse a) (reverse b)) a
        ≡ drop (length b - common (reverse a) (reverse b)) b
  drop-common a b =
      let k = common (reverse a) (reverse b) in
      let short = common-le (reverse a) (reverse b) in
      drop-reverse a k (omega (arith, short, length-reverse a))
      ∙ ap reverse (take-common (reverse a) (reverse b))
      ∙ sym (drop-reverse b k (omega (arith, short, length-reverse b)))
