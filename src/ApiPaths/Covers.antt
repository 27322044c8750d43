-- ===== src/ApiPaths/Covers.antt =====
-- api-paths.ts: a path below two others puts one of them below the other.
use podokit.Base.{
  ℕ, ◌≡◌, true, false, ◌&&◌, ◌||◌, [], ◌∷◌, arith, ◌==◌, ==_iff, list_beq, Text, same, same_refl,
  nat_eq, text_eq,
}
use podokit.Texts.{starts_with}
use podokit.ApiPaths.{covers, slash}

covers-empty : (p : ℕ) (path : Text) → covers [] (p ∷ path) ≡ (p == slash)
unfolding covers starts_with same list_beq
covers-empty p path = ground arith

covers_self : covers [] [] ≡ true
unfolding covers
covers_self = ground (arith, same_refl [])

covers-step :
    (b p : ℕ) (base path : Text) → covers (b ∷ base) (p ∷ path) ≡ ((b == p) && covers base path)
unfolding covers starts_with same list_beq
covers-step b p base path = ground (arith, ==_iff b p, ==_iff p b)

covers-none : (b : ℕ) (base : Text) → covers (b ∷ base) [] ≡ false
unfolding covers starts_with same list_beq
covers-none b base = ground arith

pub covers-either :
    (a b path : Text)
    → covers a path ≡ true
    → covers b path ≡ true
    → (covers a b || covers b a) ≡ true
covers-either [] [] path h k = ground (arith, covers_self)
covers-either [] (y ∷ b) [] h k = absurd (ground (arith, covers-none y b))
covers-either [] (y ∷ b) (z ∷ path) h k = ground (
  arith,
  covers-empty z path,
  covers-empty y b,
  covers-step y z b path,
  ==_iff y z,
  ==_iff z slash,
  ==_iff y slash,
)
covers-either (x ∷ a) b [] h k = absurd (ground (arith, covers-none x a))
covers-either (x ∷ a) [] (z ∷ path) h k = ground (
  arith,
  covers-empty z path,
  covers-empty x a,
  covers-step x z a path,
  ==_iff x z,
  ==_iff z slash,
  ==_iff x slash,
)
covers-either (x ∷ a) (y ∷ b) (z ∷ path) h k = ground (
  arith,
  covers-step x z a path,
  covers-step y z b path,
  covers-step x y a b,
  covers-step y x b a,
  ==_iff x z,
  ==_iff y z,
  ==_iff x y,
  ==_iff y x,
  covers-either a b path,
)
