-- ===== src/Base/Lists.antt =====
-- Lists measured and indexed by native numbers, and predicates on all of their elements.
use Prim.Native.Nat.{ℕ, zero, suc, ◌+◌, ◌-◌, ◌≤◌, min}
use Prim.Native.Char.{code}
use Prim.Native.String.{String}
use mathlib.Core.Path.{subst, ◌≡◌, refl, ap}
use mathlib.Core.Bool.{Bool, true, false, ◌&&◌, ◌||◌}
use mathlib.Core.List.{List, [], ◌∷◌, ◌++◌}
use mathlib.Core.Option.{Option, none, some}
use native.Mathlib.Omega.{arith}
use podokit.Base.Tests.{if◌then◌else◌}

-- A literal of the source, which is ASCII.
abbrev pub codes : String → List ℕ
codes String.[] = []
codes (String.◌∷◌ c s) = code c ∷ codes s

module _ {ℓ} {A : Type ℓ} where
  abbrev pub length : List A → ℕ
  length [] = 0
  length (x ∷ xs) = suc (length xs)

  abbrev pub get_elem? : List A → ℕ → Option A
  get_elem? [] i = none
  get_elem? (x ∷ xs) zero = some x
  get_elem? (x ∷ xs) (suc i) = get_elem? xs i

  abbrev pub take : ℕ → List A → List A
  take zero xs = []
  take (suc n) [] = []
  take (suc n) (x ∷ xs) = x ∷ take n xs

  abbrev pub drop : ℕ → List A → List A
  drop zero xs = xs
  drop (suc n) [] = []
  drop (suc n) (x ∷ xs) = drop n xs

  -- `xs.filter(keep)`
  unfoldable pub keep_if : (A → Bool) → List A → List A
  keep_if p [] = []
  keep_if p (x ∷ xs) = let rest = keep_if p xs in if p x then x ∷ rest else rest

  -- `xs.some(test)`, `xs.every(test)`
  abbrev pub any : (A → Bool) → List A → Bool
  any p [] = false
  any p (x ∷ xs) = p x || any p xs

  abbrev pub all : (A → Bool) → List A → Bool
  all p [] = true
  all p (x ∷ xs) = p x && all p xs

  pub length-append : (xs ys : List A) → length (xs ++ ys) ≡ length xs + length ys
  length-append [] ys = omega arith
  length-append (x ∷ xs) ys = omega (arith, length-append xs ys)

  pub take-append-drop : (n : ℕ) (xs : List A) → take n xs ++ drop n xs ≡ xs
  take-append-drop zero xs = refl
  take-append-drop (suc n) [] = refl
  take-append-drop (suc n) (x ∷ xs) = rw (take-append-drop n xs)

  pub length-drop : (n : ℕ) (xs : List A) → length (drop n xs) ≡ length xs - n
  length-drop zero xs = omega arith
  length-drop (suc n) [] = omega arith
  length-drop (suc n) (x ∷ xs) = omega (arith, length-drop n xs)

  pub get_elem?-of_drop :
      (n : ℕ) (xs : List A) {x : A} {ys : List A} → drop n xs ≡ x ∷ ys → get_elem? xs n ≡ some x
  get_elem?-of_drop zero [] h = absurd (ground arith)
  get_elem?-of_drop zero (y ∷ xs) h = ground arith
  get_elem?-of_drop (suc n) [] h = absurd (ground arith)
  get_elem?-of_drop (suc n) (y ∷ xs) h = get_elem?-of_drop n xs h

  pub drop-of_drop :
      (n : ℕ) (xs : List A) {x : A} {ys : List A} → drop n xs ≡ x ∷ ys → drop (suc n) xs ≡ ys
  drop-of_drop zero [] h = absurd (ground arith)
  drop-of_drop zero (y ∷ xs) h = ground arith
  drop-of_drop (suc n) [] h = absurd (ground arith)
  drop-of_drop (suc n) (y ∷ xs) h = drop-of_drop n xs h

  -- What is left from an element on.
  pub drop-split :
      (n m : ℕ) (xs : List A) {x : A}
      → n ≤ m
      → get_elem? xs m ≡ some x
      → take (m - n) (drop n xs) ++ x ∷ drop (suc m) xs ≡ drop n xs
  drop-split n m [] h e = absurd (ground arith)
  drop-split zero zero (y ∷ xs) h e = ground arith
  drop-split zero (suc m) (y ∷ xs) {x} h e =
      let one_more : suc m - 0 ≡ suc (m - 0) = omega arith in
      rw one_more (ap (λ t. y ∷ t) (drop-split zero m xs (omega arith) e))
  drop-split (suc n) zero (y ∷ xs) h e = absurd (omega arith)
  drop-split (suc n) (suc m) (y ∷ xs) h e =
      let same_rest : suc m - suc n ≡ m - n = omega arith in
      rw same_rest (drop-split n m xs (omega arith) e)

  pub take-length : (n : ℕ) (xs : List A) → take (length xs - n) (drop n xs) ≡ drop n xs
  take-length zero [] = refl
  take-length zero (x ∷ xs) =
      let one_more : suc (length xs) - 0 ≡ suc (length xs - 0) = omega arith in
      rw one_more (ap (λ t. x ∷ t) (take-length zero xs))
  take-length (suc n) [] = ground arith
  take-length (suc n) (x ∷ xs) =
      let same_rest : suc (length xs) - suc n ≡ length xs - n = omega arith in
      rw same_rest (take-length n xs)

  pub length-take : (n : ℕ) (xs : List A) → length (take n xs) ≡ min n (length xs)
  length-take zero xs = omega arith
  length-take (suc n) [] = omega arith
  length-take (suc n) (x ∷ xs) = omega (arith, length-take n xs)

module _ {ℓ κ} {A : Type ℓ} (P : A → Type κ) where
  abbrev pub All : List A → Type κ
  All [] = Unit
  All (x ∷ xs) = P x × All xs

  pub All-append : (xs ys : List A) → All xs → All ys → All (xs ++ ys)
  All-append [] ys h k = k
  All-append (x ∷ xs) ys h k = (h.0, All-append xs ys h.1 k)

  pub All-keep_if : (p : A → Bool) (xs : List A) → All xs → All (keep_if p xs)
  unfolding keep_if
  All-keep_if p [] h = tt
  All-keep_if p (x ∷ xs) h = ground (arith, All-keep_if p xs h.1)

module _ {ℓ} {A : Type ℓ} (p : A → Bool) where
  pub length-keep_if : (xs : List A) → length (keep_if p xs) ≤ length xs
  unfolding keep_if
  length-keep_if [] = omega arith
  length-keep_if (x ∷ xs) = ground (arith, length-keep_if xs)

  pub keep_if-append : (xs ys : List A) → keep_if p (xs ++ ys) ≡ keep_if p xs ++ keep_if p ys
  unfolding keep_if
  keep_if-append [] ys = refl
  keep_if-append (x ∷ xs) ys = ground (arith, keep_if-append xs ys)

  -- Every element that is kept passes the test.
  pub all-keep_if : (xs : List A) → all p (keep_if p xs) ≡ true
  unfolding keep_if
  all-keep_if [] = refl
  all-keep_if (x ∷ xs) = ground (arith, all-keep_if xs)

pub All-map {ℓ κ μ} :
    {A : Type ℓ} {P : A → Type κ} {Q : A → Type μ} (xs : List A)
    → ((x : A) → P x → Q x)
    → All P xs
    → All Q xs
All-map [] f h = tt
All-map (x ∷ xs) f h = (f x h.0, All-map xs f h.1)

pub All-both {ℓ κ μ} :
    {A : Type ℓ} (P : A → Type κ) (Q : A → Type μ) (xs : List A)
    → All P xs
    → All Q xs
    → All (λ x. P x × Q x) xs
All-both P Q [] h k = tt
All-both P Q (x ∷ xs) h k = ((h.0, k.0), All-both P Q xs h.1 k.1)

pub All-get_elem? {ℓ κ} :
    {A : Type ℓ} (P : A → Type κ) (xs : List A) (i : ℕ) {x : A}
    → All P xs
    → get_elem? xs i ≡ some x
    → P x
All-get_elem? P [] i h e = absurd (ground arith)
All-get_elem? {A} P (y ∷ xs) zero {x} h e = let same : y ≡ x = cc in subst P same h.0
All-get_elem? P (y ∷ xs) (suc i) h e = All-get_elem? P xs i h.1 e

pub All-every {ℓ κ} : {A : Type ℓ} {P : A → Type κ} (xs : List A) → ((x : A) → P x) → All P xs
All-every [] f = tt
All-every (x ∷ xs) f = (f x, All-every xs f)
