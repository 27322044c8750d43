-- ===== src/Texts/Unions.antt =====
-- Sets of strings that are put together.
use podokit.Base.{
  ◌≡◌, refl, ap, ◌∙◌, true, false, ◌||◌, List, [], ◌∷◌, ◌++◌, map, arith, Text, same_iff, same_refl,
  nat_eq, text_eq,
}
use podokit.Texts.Sets.{contains, IsDistinct, contains-append}

-- No string is in both.
abbrev pub AreDisjoint : List Text → List Text → Type 0
AreDisjoint xs ys = (t : Text) → contains t xs ≡ true → contains t ys ≡ false

pub union-IsDistinct :
    (xs ys : List Text) → IsDistinct xs → IsDistinct ys → AreDisjoint xs ys → IsDistinct (xs ++ ys)
unfolding contains
union-IsDistinct [] ys s t d = t
union-IsDistinct (x ∷ xs) ys s t d = (
  contains-append x xs ys ∙ ground (arith, s.0, d x (ground (arith, same_refl x))),
  union-IsDistinct xs ys s.1 t (λ u h. d u (ground (arith, h))),
)

pub IsDistinct-parts :
    (xs ys : List Text) → IsDistinct (xs ++ ys) → IsDistinct xs × IsDistinct ys × AreDisjoint xs ys
unfolding contains
IsDistinct-parts [] ys s = (tt, s, λ t h. absurd (ground arith))
IsDistinct-parts (x ∷ xs) ys s =
    let rest = IsDistinct-parts xs ys s.1 in
    (
      (ground (arith, contains-append x xs ys, s.0), rest.0),
      rest.1,
      λ t h. ground (arith, same_iff x t, contains-append x xs ys, s.0, rest.2 t, h),
    )

pub map-append {ℓ κ} :
    {A : Type ℓ} {B : Type κ} (f : A → B) (xs ys : List A) → map f (xs ++ ys) ≡ map f xs ++ map f ys
map-append f [] ys = refl
map-append f (x ∷ xs) ys = ap (λ rest. f x ∷ rest) (map-append f xs ys)

-- What stands behind a set can be put into its midst.
pub insert-IsDistinct :
    (xs ys zs : List Text) → IsDistinct ((xs ++ ys) ++ zs) → IsDistinct (xs ++ (zs ++ ys))
insert-IsDistinct xs ys zs s =
    let outer = IsDistinct-parts (xs ++ ys) zs s in
    let inner = IsDistinct-parts xs ys outer.0 in
    let apart : AreDisjoint zs ys = λ t h. ground (arith, contains-append t xs ys, outer.2 t, h) in
    union-IsDistinct xs (zs ++ ys) inner.0 (union-IsDistinct zs ys outer.1 inner.1 apart) (λ t h.
      contains-append t zs ys ∙ ground (arith, contains-append t xs ys, outer.2 t, inner.2 t h, h))

pub contains-again :
    (t u : Text) (xs : List Text)
    → contains u xs ≡ true
    → contains t xs ≡ (contains t xs || contains t (u ∷ []))
unfolding contains
contains-again t u xs h = ground (arith, same_iff u t)
