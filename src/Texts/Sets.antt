-- ===== src/Texts/Sets.antt =====
-- `Set`s of strings, which keep the order in which their elements were first added, and `sort` of an
-- array of strings.
use podokit.Base.{
  ◌<◌, ◌≤◌, All, length, true, keep_if, ◌≡◌, refl, ◌∙◌, inl, inr, Bool, false, not, ◌&&◌, ◌||◌,
  List, [], ◌∷◌, ◌++◌, arith, if◌then◌else◌, Bool-cases, Text, same, same_iff, same_refl, nat_eq,
  text_eq,
}
use podokit.Texts.{text_lt}

unfoldable pub contains : Text → List Text → Bool
contains t [] = false
contains t (x ∷ xs) = same x t || contains t xs

-- `[...new Set(xs)]`, where `seen` holds what was added before.
unfoldable pub unique_from : List Text → List Text → List Text
unique_from seen [] = []
unique_from seen (x ∷ xs) =
    let rest = unique_from seen xs in
    let more = unique_from (x ∷ seen) xs in if contains x seen then rest else x ∷ more

unfoldable pub unique : List Text → List Text
unfolding unique_from
unique xs = unique_from [] xs

-- `xs.sort()`, a stable sort by code units.
unfoldable pub insert_sorted : Text → List Text → List Text
insert_sorted t [] = t ∷ []
insert_sorted t (x ∷ xs) =
    let rest = insert_sorted t xs in if text_lt x t then x ∷ rest else t ∷ (x ∷ xs)

unfoldable pub sort : List Text → List Text
unfolding insert_sorted
sort [] = []
sort (x ∷ xs) = insert_sorted x (sort xs)

-- No string occurs twice.
abbrev pub IsDistinct : List Text → Type 0
IsDistinct [] = Unit
IsDistinct (x ∷ xs) = (contains x xs ≡ false) × IsDistinct xs

contains-insert_sorted :
    (t u : Text) (xs : List Text) → contains t (insert_sorted u xs) ≡ (same u t || contains t xs)
unfolding contains insert_sorted
contains-insert_sorted t u [] = refl
contains-insert_sorted t u (x ∷ xs) = ground (arith, contains-insert_sorted t u xs)

pub contains-sort : (t : Text) (xs : List Text) → contains t (sort xs) ≡ contains t xs
unfolding sort contains
contains-sort t [] = refl
contains-sort t (x ∷ xs) = ground (arith, contains-insert_sorted t x (sort xs), contains-sort t xs)

insert_sorted-IsDistinct :
    (t : Text) (xs : List Text)
    → contains t xs ≡ false
    → IsDistinct xs
    → IsDistinct (insert_sorted t xs)
unfolding insert_sorted contains
insert_sorted-IsDistinct t [] h s = (refl, tt)
insert_sorted-IsDistinct t (x ∷ xs) h s = ground (
  arith,
  insert_sorted-IsDistinct t xs,
  contains-insert_sorted x t xs,
  same_iff x t,
  same_iff t x,
  s.0,
  s.1,
)

pub sort-IsDistinct : (xs : List Text) → IsDistinct xs → IsDistinct (sort xs)
unfolding sort
sort-IsDistinct [] s = tt
sort-IsDistinct (x ∷ xs) s =
    insert_sorted-IsDistinct x (sort xs) (contains-sort x xs ∙ s.0) (sort-IsDistinct xs s.1)

contains-unique_from :
    (t : Text) (seen xs : List Text)
    → contains t (unique_from seen xs) ≡ (contains t xs && not (contains t seen))
unfolding contains unique_from
contains-unique_from t seen [] = refl
contains-unique_from t seen (x ∷ xs) = elim (Bool-cases (same x t)) [
  | inl e ↦
      let equal : x ≡ t = (same_iff x t).0 e in
      rw equal (
        ground (
          arith,
          same_iff t t,
          contains-unique_from t seen xs,
          contains-unique_from t (t ∷ seen) xs,
        ))
  | inr e ↦ ground (arith, contains-unique_from t seen xs, contains-unique_from t (x ∷ seen) xs)
]

pub contains-unique : (t : Text) (xs : List Text) → contains t (unique xs) ≡ contains t xs
unfolding unique
contains-unique t xs = contains-unique_from t [] xs ∙ unfold contains in ground arith

unique_from-IsDistinct : (seen xs : List Text) → IsDistinct (unique_from seen xs)
unfolding unique_from
unique_from-IsDistinct seen [] = tt
unique_from-IsDistinct seen (x ∷ xs) = elim (Bool-cases (contains x seen)) [
  | inl e ↦ rw e (unique_from-IsDistinct seen xs)
  | inr e ↦ rw e (
    contains-unique_from x (x ∷ seen) xs ∙ unfold contains in ground (arith, same_refl x),
    unique_from-IsDistinct (x ∷ seen) xs,
  )
]

pub unique-IsDistinct : (xs : List Text) → IsDistinct (unique xs)
unfolding unique
unique-IsDistinct xs = unique_from-IsDistinct [] xs

pub contains-append :
    (t : Text) (xs ys : List Text) → contains t (xs ++ ys) ≡ (contains t xs || contains t ys)
unfolding contains
contains-append t [] ys = refl
contains-append t (x ∷ xs) ys = ground (arith, contains-append t xs ys)

pub append-IsDistinct :
    (t : Text) (xs : List Text)
    → IsDistinct xs
    → contains t xs ≡ false
    → IsDistinct (xs ++ (t ∷ []))
unfolding contains
append-IsDistinct t [] s h = (refl, tt)
append-IsDistinct t (x ∷ xs) s h = (
  contains-append x xs (t ∷ []) ∙ ground (arith, s.0, same_iff x t, same_iff t x),
  append-IsDistinct t xs s.1 (ground arith),
)

-- `set.delete(t)`
abbrev pub without : Text → List Text → List Text
without t xs = keep_if (λ x. not (same x t)) xs

pub without-absent : (t : Text) (xs : List Text) → contains t xs ≡ false → without t xs ≡ xs
unfolding keep_if contains
without-absent t [] h = refl
without-absent t (x ∷ xs) h = ground (arith, without-absent t xs)

pub without-added : (t : Text) (xs : List Text) → contains t xs ≡ false → without t (t ∷ xs) ≡ xs
unfolding keep_if
without-added t xs h = ground (arith, same_refl t, without-absent t xs h)

contains-without :
    (t u : Text) (xs : List Text) → contains u (without t xs) ≡ (contains u xs && not (same u t))
unfolding keep_if contains
contains-without t u [] = refl
contains-without t u (x ∷ xs) =
    ground (arith, contains-without t u xs, same_iff x t, same_iff x u, same_iff u t, same_refl t)

length-without_le : (t : Text) (xs : List Text) → length (without t xs) ≤ length xs
unfolding keep_if
length-without_le t [] = omega arith
length-without_le t (x ∷ xs) = ground (arith, length-without_le t xs)

length-without_lt :
    (t : Text) (xs : List Text) → contains t xs ≡ true → length (without t xs) < length xs
unfolding keep_if contains
length-without_lt t [] h = absurd (ground arith)
length-without_lt t (x ∷ xs) h = ground (arith, length-without_lt t xs, length-without_le t xs)

others-without :
    (t : Text) (xs ys : List Text)
    → contains t xs ≡ false
    → All (λ x. contains x ys ≡ true) xs
    → All (λ x. contains x (without t ys) ≡ true) xs
unfolding contains
others-without t [] ys e h = tt
others-without t (x ∷ xs) ys e h = (
  contains-without t x ys ∙ ground (arith, h.0, same_iff x t),
  others-without t xs ys (ground arith) h.1,
)

-- A set has at most as many elements as a list that has them all.
pub length-IsDistinct :
    (xs ys : List Text) → IsDistinct xs → All (λ x. contains x ys ≡ true) xs → length xs ≤ length ys
length-IsDistinct [] ys s h = omega arith
length-IsDistinct (x ∷ xs) ys s h =
    let fewer = length-without_lt x ys h.0 in
    let rest = length-IsDistinct xs (without x ys) s.1 (others-without x xs ys s.0 h.1) in
    omega arith
