-- ===== src/Map.antt =====
-- The source's `Map`, which iterates in the order in which its keys were first set.
use mathlib.Core.Path.{subst}
use podokit.Base.{
  ◌⊎◌, ◌∙◌, ap, All, keep_if, Bool-cases, inl, inr, ◌+◌, ◌≤◌, ◌≡◌, ◌≢◌, refl, Bool, true, false,
  Option, none, some, List, [], ◌∷◌, ◌++◌, arith, if◌then◌else◌, length, Eq,
}

module _ {ℓ κ} {K : Type ℓ} {V : Type κ} ⦃e : Eq K⦄ where
  unfoldable pub get : K → List (K × V) → Option V
  get k [] = none
  get k ((j, v) ∷ m) = if e.beq j k then some v else get k m

  unfoldable pub has : K → List (K × V) → Bool
  has k [] = false
  has k ((j, v) ∷ m) = if e.beq j k then true else has k m

  -- `set` on a key that is present keeps its place.
  unfoldable pub put : K → V → List (K × V) → List (K × V)
  put k v [] = (k, v) ∷ []
  put k v ((j, w) ∷ m) = let rest = put k v m in if e.beq j k then (k, v) ∷ m else (j, w) ∷ rest

  unfoldable pub remove : K → List (K × V) → List (K × V)
  remove k [] = []
  remove k ((j, w) ∷ m) = let rest = remove k m in if e.beq j k then rest else (j, w) ∷ rest

  -- The keys are pairwise different.
  abbrev pub IsMap : List (K × V) → Type 0
  IsMap [] = Unit
  IsMap ((k, v) ∷ m) = (has k m ≡ false) × IsMap m

  pub get-put :
      (k j : K) (v : V) (m : List (K × V))
      → get j (put k v m) ≡ (if e.beq k j then some v else get j m)
  unfolding get put
  get-put k j v [] = refl
  get-put k j v ((i, w) ∷ m) =
      ground (arith, e.beq_iff k j, e.beq_iff i k, e.beq_iff i j, get-put k j v m)

  pub get-remove :
      (k j : K) (m : List (K × V)) → get j (remove k m) ≡ (if e.beq k j then none else get j m)
  unfolding get remove
  get-remove k j [] = ground arith
  get-remove k j ((i, w) ∷ m) =
      ground (arith, e.beq_iff k j, e.beq_iff i k, e.beq_iff i j, get-remove k j m)

  pub has-put :
      (k j : K) (v : V) (m : List (K × V))
      → has j (put k v m) ≡ (if e.beq k j then true else has j m)
  unfolding has put
  has-put k j v [] = refl
  has-put k j v ((i, w) ∷ m) =
      ground (arith, e.beq_iff k j, e.beq_iff i k, e.beq_iff i j, has-put k j v m)

  pub has-remove :
      (k j : K) (m : List (K × V)) → has j (remove k m) ≡ (if e.beq k j then false else has j m)
  unfolding has remove
  has-remove k j [] = ground arith
  has-remove k j ((i, w) ∷ m) =
      ground (arith, e.beq_iff k j, e.beq_iff i k, e.beq_iff i j, has-remove k j m)

  -- What is found after a `set` or a `delete`.
  pub get-put-cases :
      (k j : K) (v x : V) (m : List (K × V))
      → get j (put k v m) ≡ some x
      → ((k ≡ j) × (v ≡ x)) ⊎ ((k ≢ j) × (get j m ≡ some x))
  get-put-cases k j v x m h = elim (Bool-cases (e.beq k j)) [
    | inl q ↦ inl ((e.beq_iff k j).0 q, ground (arith, h, get-put k j v m, q))
    | inr q ↦ inr (
      λ p. absurd (ground (arith, (e.beq_iff k j).1 p, q)),
      ground (arith, h, get-put k j v m, q),
    )
  ]

  pub get-remove-cases :
      (k j : K) (x : V) (m : List (K × V))
      → get j (remove k m) ≡ some x
      → (k ≢ j) × (get j m ≡ some x)
  get-remove-cases k j x m h = elim (Bool-cases (e.beq k j)) [
    | inl q ↦ absurd (ground (arith, h, get-remove k j m, q))
    | inr q ↦ (
      λ p. absurd (ground (arith, (e.beq_iff k j).1 p, q)),
      ground (arith, h, get-remove k j m, q),
    )
  ]

  pub put-IsMap : (k : K) (v : V) (m : List (K × V)) → IsMap m → IsMap (put k v m)
  unfolding put has
  put-IsMap k v [] h = (refl, tt)
  put-IsMap k v ((i, w) ∷ m) h =
      ground (arith, e.beq_iff i k, e.beq_iff k i, has-put k i v m, put-IsMap k v m h.1)

  pub remove-IsMap : (k : K) (m : List (K × V)) → IsMap m → IsMap (remove k m)
  unfolding remove has
  remove-IsMap k [] h = tt
  remove-IsMap k ((i, w) ∷ m) h =
      ground (arith, e.beq_iff i k, e.beq_iff k i, has-remove k i m, remove-IsMap k m h.1)

  pub get-none_of_not_has : (k : K) (m : List (K × V)) → has k m ≡ false → get k m ≡ none
  unfolding get has
  get-none_of_not_has k [] h = refl
  get-none_of_not_has k ((i, w) ∷ m) h = ground (arith, get-none_of_not_has k m)

  pub not_has_of_get : (k : K) (m : List (K × V)) → get k m ≡ none → has k m ≡ false
  unfolding get has
  not_has_of_get k [] h = refl
  not_has_of_get k ((i, w) ∷ m) h = ground (arith, not_has_of_get k m)

  pub has_of_get : (k : K) (v : V) (m : List (K × V)) → get k m ≡ some v → has k m ≡ true
  unfolding get has
  has_of_get k v [] h = cc
  has_of_get k v ((i, w) ∷ m) h = ground (arith, has_of_get k v m)

  pub remove-other : (k : K) (m : List (K × V)) → All (λ entry. entry.0 ≢ k) (remove k m)
  unfolding remove
  remove-other k [] = tt
  remove-other k ((j, w) ∷ m) = ground (arith, e.beq_iff j k, remove-other k m)

  pub length-remove_le : (k : K) (m : List (K × V)) → length (remove k m) ≤ length m
  unfolding remove
  length-remove_le k [] = omega arith
  length-remove_le k ((i, w) ∷ m) = ground (arith, length-remove_le k m)

  pub remove_of_not_has : (k : K) (m : List (K × V)) → has k m ≡ false → remove k m ≡ m
  unfolding remove has
  remove_of_not_has k [] h = refl
  remove_of_not_has k ((i, w) ∷ m) h = ground (arith, remove_of_not_has k m)

  -- On a map, removing a key that is present shortens it by one.
  pub length-remove :
      (k : K) (m : List (K × V)) → IsMap m → has k m ≡ true → length (remove k m) + 1 ≡ length m
  unfolding remove has
  length-remove k [] d h = cc
  length-remove k ((i, w) ∷ m) d h =
      ground (arith, e.beq_iff i k, length-remove k m d.1, remove_of_not_has k m)

  pub length-put_of_has :
      (k : K) (v : V) (m : List (K × V)) → has k m ≡ true → length (put k v m) ≡ length m
  unfolding put has
  length-put_of_has k v [] h = cc
  length-put_of_has k v ((i, w) ∷ m) h = ground (arith, length-put_of_has k v m)

  pub put_of_not_has :
      (k : K) (v : V) (m : List (K × V)) → has k m ≡ false → put k v m ≡ m ++ (k, v) ∷ []
  unfolding put has
  put_of_not_has k v [] h = refl
  put_of_not_has k v ((i, w) ∷ m) h = ground (arith, put_of_not_has k v m)

  -- Setting a key that was just removed moves it to the end.
  pub put-remove :
      (k : K) (v : V) (m : List (K × V)) → put k v (remove k m) ≡ remove k m ++ (k, v) ∷ []
  put-remove k v m =
      put_of_not_has k v (remove k m)
        (has-remove k k m ∙ ap (λ b. if b then false else has k m) ((e.beq_iff k k).1 refl))

  pub get-append_last :
      (k : K) (v : V) (m : List (K × V)) → has k m ≡ false → get k (m ++ (k, v) ∷ []) ≡ some v
  unfolding get has
  get-append_last k v [] h = ground (arith, e.beq_iff k k)
  get-append_last k v ((j, w) ∷ m) h = ground (arith, get-append_last k v m)

-- What filtering the entries does to the keys.
module _ {ℓ κ} {K : Type ℓ} {V : Type κ} ⦃e : Eq K⦄ (p : K × V → Bool) where
  pub has-keep_if : (k : K) (m : List (K × V)) → has k m ≡ false → has k (keep_if p m) ≡ false
  unfolding keep_if has
  has-keep_if k [] h = refl
  has-keep_if k ((j, v) ∷ m) h = ground (arith, has-keep_if k m)

  pub keep_if-IsMap : (m : List (K × V)) → IsMap m → IsMap (keep_if p m)
  unfolding keep_if
  keep_if-IsMap [] h = tt
  keep_if-IsMap ((j, v) ∷ m) h = ground (arith, has-keep_if j m, keep_if-IsMap m h.1)

  -- An entry of a map is found in what is kept exactly if it passes the test.
  pub get-keep_if :
      (k : K) (m : List (K × V)) (v : V)
      → IsMap m
      → get k m ≡ some v
      → get k (keep_if p m) ≡ (if p (k, v) then some v else none)
  unfolding keep_if get
  get-keep_if k [] v d h = cc
  get-keep_if k ((j, w) ∷ m) v d h = ground (
    arith,
    e.beq_iff j k,
    get-keep_if k m v d.1,
    has-keep_if j m,
    get-none_of_not_has j (keep_if p m),
  )

-- Predicates on the entries.
module _ {ℓ κ μ} {K : Type ℓ} {V : Type κ} ⦃e : Eq K⦄ (P : K × V → Type μ) where
  pub All-remove : (k : K) (m : List (K × V)) → All P m → All P (remove k m)
  unfolding remove
  All-remove k [] h = tt
  All-remove k ((j, w) ∷ m) h = ground (arith, All-remove k m h.1)

  pub All-put : (k : K) (v : V) (m : List (K × V)) → P (k, v) → All P m → All P (put k v m)
  unfolding put
  All-put k v [] q h = (q, tt)
  All-put k v ((j, w) ∷ m) q h = ground (arith, All-put k v m q h.1)

  pub All-get : (k : K) (v : V) (m : List (K × V)) → All P m → get k m ≡ some v → P (k, v)
  unfolding get
  All-get k v [] h g = cc
  All-get k v ((j, w) ∷ m) h g = elim (Bool-cases (e.beq j k)) [
    | inl q ↦
        let here : ◌≡◌ {A = K × V} (j, w) (k, v) = ground (arith, e.beq_iff j k) in subst P here h.0
    | inr q ↦ All-get k v m h.1 (rw q at g)
  ]
