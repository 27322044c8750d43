-- ===== src/Diff/Lcs.antt =====
-- The length of a longest common subsequence, by recursion: what the table of the diff is to hold.
use podokit.Base.{
  ℕ, ◌+◌, ◌≤◌, max, ◌≡◌, refl, sym, List, [], ◌∷◌, ◌++◌, append-nil, append_assoc, arith,
  if◌then◌else◌, length, Eq, text_eq,
}

module _ {ℓ} {A : Type ℓ} ⦃e : Eq A⦄ where
  unfoldable pub lcs : List A → List A → ℕ
  lcs [] b = 0
  lcs (x ∷ a) [] = 0
  lcs (x ∷ a) (y ∷ b) =
      let both = lcs a b in
      let left = lcs a (y ∷ b) in
      let right = lcs (x ∷ a) b in if e.beq x y then both + 1 else max left right

  pub lcs-nil : (a : List A) → lcs a [] ≡ 0
  unfolding lcs
  lcs-nil [] = refl
  lcs-nil (x ∷ a) = refl

  pub lcs_comm : (a b : List A) → lcs a b ≡ lcs b a
  unfolding lcs
  lcs_comm [] [] = refl
  lcs_comm [] (y ∷ b) = refl
  lcs_comm (x ∷ a) [] = refl
  lcs_comm (x ∷ a) (y ∷ b) =
      ground
        (arith, e.beq_iff x y, e.beq_iff y x, lcs_comm a b, lcs_comm a (y ∷ b), lcs_comm (x ∷ a) b)

  -- A line more on the left adds nothing or one.
  record Grows (a b : List A) : Type ℓ where
    left_le : (x : A) → lcs a b ≤ lcs (x ∷ a) b
    left_suc : (x : A) → lcs (x ∷ a) b ≤ lcs a b + 1
    right_le : (y : A) → lcs a b ≤ lcs a (y ∷ b)
    right_suc : (y : A) → lcs a (y ∷ b) ≤ lcs a b + 1

  lcs-Grows : (a b : List A) → Grows a b
  unfolding lcs
  lcs-Grows [] [] = record {
    left_le = λ x. omega arith;
    left_suc = λ x. omega arith;
    right_le = λ x. omega arith;
    right_suc = λ x. omega arith;
  }
  lcs-Grows [] (y ∷ b) = record {
    left_le = λ x. omega arith;
    left_suc = λ x. let ih = lcs-Grows [] b in ground (arith, ih.left_suc x);
    right_le = λ x. omega arith;
    right_suc = λ x. omega arith;
  }
  lcs-Grows (z ∷ a) [] = record {
    left_le = λ x. omega arith;
    left_suc = λ x. omega arith;
    right_le = λ x. omega arith;
    right_suc = λ y. let ih = lcs-Grows a [] in ground (arith, ih.right_suc y, lcs-nil a);
  }
  lcs-Grows (z ∷ a) (y ∷ b) =
      let one = lcs-Grows (z ∷ a) b in
      let two = lcs-Grows a (y ∷ b) in
      record {
        left_le = λ x. ground (arith, one.right_suc y);
        left_suc = λ x. ground (arith, one.left_suc x, one.right_le y);
        right_le = λ w. ground (arith, two.left_suc z);
        right_suc = λ w. ground (arith, two.right_suc w, two.left_le z);
      }

  pub lcs_mono_left : (x : A) (a b : List A) → lcs a b ≤ lcs (x ∷ a) b
  lcs_mono_left x a b = (lcs-Grows a b).left_le x

  pub lcs_mono_right : (y : A) (a b : List A) → lcs a b ≤ lcs a (y ∷ b)
  lcs_mono_right y a b = (lcs-Grows a b).right_le y

  -- A line that both end with is in a longest common subsequence.
  lcs-append_one : (a b : List A) (x : A) → lcs (a ++ x ∷ []) (b ++ x ∷ []) ≡ lcs a b + 1
  unfolding lcs
  lcs-append_one [] [] x = ground (arith, e.beq_iff x x)
  lcs-append_one [] (y ∷ b) x = ground (arith, lcs-append_one [] b x)
  lcs-append_one (z ∷ a) [] x =
      ground (arith, lcs-append_one a [] x, lcs-nil a, lcs-nil (a ++ x ∷ []))
  lcs-append_one (z ∷ a) (y ∷ b) x =
      ground (arith, lcs-append_one a b x, lcs-append_one a (y ∷ b) x, lcs-append_one (z ∷ a) b x)

  regroup : (a c : List A) (x : A) → a ++ x ∷ c ≡ (a ++ x ∷ []) ++ c
  regroup a c x = sym (append_assoc a (x ∷ []) c)

  pub lcs-append : (a b c : List A) → lcs (a ++ c) (b ++ c) ≡ lcs a b + length c
  lcs-append a b [] = rw (append-nil a, append-nil b) (omega arith)
  lcs-append a b (x ∷ c) =
      rw (regroup a c x, regroup b c x)
        (omega (arith, lcs-append (a ++ x ∷ []) (b ++ x ∷ []) c, lcs-append_one a b x))

  pub lcs-prepend : (c a b : List A) → lcs (c ++ a) (c ++ b) ≡ length c + lcs a b
  unfolding lcs
  lcs-prepend [] a b = omega arith
  lcs-prepend (x ∷ c) a b = ground (arith, e.beq_iff x x, lcs-prepend c a b)
