-- ===== src/RateLimit/Routes/Order.antt =====
-- Taking the place of the best entry is a total preorder on the entries.
use podokit.Base.{
  ℕ, ◌+◌, ◌<◌, ◌≡◌, refl, ◌⊎◌, inl, inr, true, false, List, [], ◌∷◌, arith, ltb, leb, ◌==◌,
  if◌then◌else◌, ==_iff, Bool-cases, length, nat_eq, text_eq,
}
use Prim.Native.Nat.{compare}
use podokit.RateLimit.Routes.{
  Segment, Entry, is_literal, has_method, compare_literals, compare_specificity, wins,
}

-- A literal counts more than all that follows it.
weight : List Segment → ℕ
weight [] = 1
weight (x ∷ a) = weight a + weight a

literals : List Segment → ℕ
literals [] = 0
literals (x ∷ a) = (if is_literal x then weight a else 0) + literals a

literals-lt-weight : (a : List Segment) → literals a < weight a
unfolding literals weight
literals-lt-weight [] = omega arith
literals-lt-weight (x ∷ a) = ground (arith, literals-lt-weight a)

weight-eq : (a b : List Segment) → length a ≡ length b → weight a ≡ weight b
unfolding weight
weight-eq [] [] h = refl
weight-eq [] (y ∷ b) h = absurd (omega arith)
weight-eq (x ∷ a) [] h = absurd (omega arith)
weight-eq (x ∷ a) (y ∷ b) h = let e = weight-eq a b (omega arith) in omega arith

compare_literals_lem :
    (a b : List Segment)
    → length a ≡ length b
    → compare_literals a b ≡ compare (literals b) (literals a)
unfolding compare_literals literals
compare_literals_lem [] [] h = refl
compare_literals_lem [] (y ∷ b) h = absurd (omega arith)
compare_literals_lem (x ∷ a) [] h = absurd (omega arith)
compare_literals_lem (x ∷ a) (y ∷ b) h =
    let same_length : length a ≡ length b = omega arith in
    ground (
      arith,
      compare_literals_lem a b same_length,
      weight-eq a b same_length,
      literals-lt-weight a,
      literals-lt-weight b,
    )

method_rank : Entry → ℕ
method_rank entry = if has_method entry then 1 else 0

-- `wins` compares the number of segments, then the literals, then whether there is a method.
wins_lem :
    (x y : Entry)
    → wins x y ≡ (
        if ltb (length y.segments) (length x.segments)
        then true
        else if ltb (length x.segments) (length y.segments)
        then false
        else if ltb (literals y.segments) (literals x.segments)
        then true
        else if ltb (literals x.segments) (literals y.segments)
        then false
        else leb (method_rank y) (method_rank x))
unfolding wins compare_specificity method_rank
wins_lem x y = elim (Bool-cases (length x.segments == length y.segments)) [
  | inl e ↦ ground (arith, compare_literals_lem x.segments y.segments ((==_iff _ _).0 e))
  | inr e ↦ ground arith
]

pub wins-total : (x y : Entry) → (wins x y ≡ true) ⊎ (wins y x ≡ true)
wins-total x y = ground (arith, wins_lem x y, wins_lem y x)

pub wins_trans : (x y z : Entry) → wins x y ≡ true → wins y z ≡ true → wins x z ≡ true
wins_trans x y z p q = ground (arith, wins_lem x y, wins_lem y z, wins_lem x z)
