-- ===== src/Merge/ThreeWay/Longest.antt =====
-- `lcsMatches` finds as many matches as there are, and `anchors` holds the lines matched twice.
use mathlib.Core.Path.{subst}
use podokit.Base.{drop-of_drop}
use podokit.Base.{
  ℕ, zero, suc, ◌+◌, ◌≤◌, ◌<◌, ◌≡◌, refl, ◌∙◌, ◌↔◌, inl, inr, false, Option, none, some, List, [],
  ◌∷◌, arith, ltb, ◌==◌, ltb→lt, ==_iff, Bool-cases, Option-cases, length, get_elem?, drop, Text,
  nat_eq, text_eq,
}
use podokit.Map
use podokit.Diff.{cell, table}
use podokit.Diff.Lcs.{lcs, lcs_mono_left, lcs_comm, lcs-prepend}
use podokit.Diff.Table.{cell-table}
use podokit.Merge.ThreeWay.{matches_from, lcs_matches, anchors}
use podokit.Merge.ThreeWay.Matches.{get-Meets, AreMatches, lcs_matches-AreMatches}

-- Matches between two texts, and no other matches are more.
pub record AreLongest (a b : List Text) (ms : List (ℕ × ℕ)) : Type 0 where
  pub matches : AreMatches a b 0 0 ms
  pub most : (other : List (ℕ × ℕ)) → AreMatches a b 0 0 other → length other ≤ length ms

drop-get_elem? :
    {A : Type 0} (i : ℕ) (a : List A) (x : A)
    → get_elem? a i ≡ some x
    → drop i a ≡ x ∷ drop (suc i) a
drop-get_elem? i [] x h = absurd (ground arith)
drop-get_elem? zero (y ∷ a) x h = ground arith
drop-get_elem? (suc i) (y ∷ a) x h = drop-get_elem? i a x h

lcs-drop : (i o : ℕ) (a b : List Text) → i ≤ o → lcs (drop o a) b ≤ lcs (drop i a) b
lcs-drop i zero a b h = ground arith
lcs-drop zero (suc o) [] b h = omega arith
lcs-drop (suc i) (suc o) [] b h = omega arith
lcs-drop zero (suc o) (x ∷ a) b h =
    omega (arith, lcs-drop zero o a b (omega arith), lcs_mono_left x a b)
lcs-drop (suc i) (suc o) (x ∷ a) b h = lcs-drop i o a b (omega arith)

matches-le-lcs :
    (a b : List Text) (i j : ℕ) (ms : List (ℕ × ℕ))
    → AreMatches a b i j ms
    → length ms ≤ lcs (drop i a) (drop j b)
matches-le-lcs a b i j [] h = omega arith
matches-le-lcs a b i j ((o, k) ∷ ms) (io, jk, (line, ea, eb), more) =
    let left = lcs-drop i o a (drop j b) io in
    let right = lcs-drop j k b (drop o a) jk in
    let here : lcs (drop o a) (drop k b) ≡ 1 + lcs (drop (suc o) a) (drop (suc k) b) =
      rw (drop-get_elem? o a line ea, drop-get_elem? k b line eb)
        (lcs-prepend (line ∷ []) (drop (suc o) a) (drop (suc k) b)) in
    omega (
      arith,
      matches-le-lcs a b (suc o) (suc k) ms more,
      here,
      left,
      right,
      lcs_comm (drop o a) (drop j b),
      lcs_comm (drop o a) (drop k b),
    )

module _ (a0 b0 : List Text) where
  length-matches_from :
      (i j : ℕ) (a b : List Text)
      → drop i a0 ≡ a
      → drop j b0 ≡ b
      → length (matches_from (table a0 b0) i j a b) ≡ lcs a b
  unfolding matches_from lcs
  length-matches_from i j [] b p q = refl
  length-matches_from i j (x ∷ a) [] p q = refl
  length-matches_from i j (x ∷ a) (y ∷ b) p q =
      let p' = drop-of_drop i a0 p in
      let q' = drop-of_drop j b0 q in
      let below : cell (table a0 b0) (suc i) j ≡ lcs a (y ∷ b) =
        rw (cell-table a0 b0 (suc i) j, p', q) in
      let right : cell (table a0 b0) i (suc j) ≡ lcs (x ∷ a) b =
        rw (cell-table a0 b0 i (suc j), p, q') in
      ground (
        arith,
        length-matches_from (suc i) (suc j) a b p' q',
        length-matches_from (suc i) j a (y ∷ b) p' q,
        length-matches_from i (suc j) (x ∷ a) b p q',
        below,
        right,
      )

pub lcs_matches-AreLongest : (a b : List Text) → AreLongest a b (lcs_matches a b)
unfolding lcs_matches
lcs_matches-AreLongest a b = record {
  matches = lcs_matches-AreMatches a b;
  most = λ other h.
      omega (arith, matches-le-lcs a b 0 0 other h, length-matches_from a b 0 0 a b refl refl);
}

-- The line matched in both texts, if it is.
abbrev pub both : Option ℕ → Option ℕ → Option (ℕ × ℕ)
both none d = none
both (some c) none = none
both (some c) (some d) = some (c, d)

get-before :
    (o s : ℕ) (lines : List Text) (ma mb : List (ℕ × ℕ))
    → o < s
    → Map.get o (anchors s lines ma mb) ≡ none
unfolding Map.get anchors
get-before o s [] ma mb h = refl
get-before o s (line ∷ lines) ma mb h = ground (arith, get-before o (suc s) lines ma mb _)

get-here :
    (s : ℕ) (line : Text) (lines : List Text) (ma mb : List (ℕ × ℕ))
    → Map.get s (anchors s (line ∷ lines) ma mb) ≡ both (Map.get s ma) (Map.get s mb)
unfolding Map.get anchors
get-here s line lines ma mb =
    let rest = get-before s (suc s) lines ma mb (omega arith) in
    elim (Option-cases (Map.get s ma)) [
      | inl e ↦ rw (e, anchors) rest
      | inr (c, e) ↦ elim (Option-cases (Map.get s mb)) [
        | inl f ↦ rw (e, f, anchors) rest
        | inr (d, f) ↦ rw (e, f, anchors) (ground (arith, ==_iff s s))
      ]
    ]

get-later :
    (o s : ℕ) (line : Text) (lines : List Text) (ma mb : List (ℕ × ℕ))
    → (s == o) ≡ false
    → Map.get o (anchors s (line ∷ lines) ma mb) ≡ Map.get o (anchors (suc s) lines ma mb)
unfolding Map.get anchors
get-later o s line lines ma mb h = elim (Option-cases (Map.get s ma)) [
  | inl e ↦ rw (e, anchors) refl
  | inr (c, e) ↦ elim (Option-cases (Map.get s mb)) [
    | inl f ↦ rw (e, f, anchors) refl
    | inr (d, f) ↦ rw (e, f, anchors) (ground (arith, h))
  ]
]

get-anchors :
    (o s : ℕ) (lines : List Text) (ma mb : List (ℕ × ℕ))
    → s ≤ o
    → o < s + length lines
    → Map.get o (anchors s lines ma mb) ≡ both (Map.get o ma) (Map.get o mb)
get-anchors o s [] ma mb h k = absurd (omega arith)
get-anchors o s (line ∷ lines) ma mb h k = elim (Bool-cases (s == o)) [
  | inl e ↦
      subst (λ t. Map.get t (anchors s (line ∷ lines) ma mb) ≡ both (Map.get t ma) (Map.get t mb))
        ((==_iff s o).0 e) (get-here s line lines ma mb)
  | inr e ↦
      get-later o s line lines ma mb e
      ∙ get-anchors o (suc s) lines ma mb (ground (arith, e, h)) (omega (arith, k))
]

get-past :
    (o s : ℕ) (lines : List Text) (ma mb : List (ℕ × ℕ))
    → s + length lines ≤ o
    → Map.get o (anchors s lines ma mb) ≡ none
unfolding anchors Map.get
get-past o s [] ma mb h = refl
get-past o s (line ∷ lines) ma mb h =
    get-later o s line lines ma mb (ground (arith, h))
    ∙ get-past o (suc s) lines ma mb (omega (arith, h))

pub get_elem?-lt : (i : ℕ) (a : List Text) (x : Text) → get_elem? a i ≡ some x → i < length a
get_elem?-lt i [] x h = absurd (ground arith)
get_elem?-lt zero (y ∷ a) x h = omega arith
get_elem?-lt (suc i) (y ∷ a) x h = omega (arith, get_elem?-lt i a x h)

both_iff : (p q : Option ℕ) (c d : ℕ) → (both p q ≡ some (c, d)) ↔ ((p ≡ some c) × (q ≡ some d))
both_iff none q c d = (λ h. absurd (ground arith), λ h. absurd (ground (arith, h.0)))
both_iff (some x) none c d = (λ h. absurd (ground arith), λ h. absurd (ground (arith, h.1)))
both_iff (some x) (some y) c d =
    (λ h. (ground (arith, h), ground (arith, h)), λ h. ground (arith, h.0, h.1))

-- A line of the base is an anchor exactly if it is matched on both sides, at the places of its matches.
pub anchors_iff :
    (O A : List Text) (ma mb : List (ℕ × ℕ)) (o a b : ℕ)
    → AreMatches O A 0 0 ma
    → (Map.get o (anchors 0 O ma mb) ≡ some (a, b))
      ↔ ((Map.get o ma ≡ some a) × (Map.get o mb ≡ some b))
anchors_iff O A ma mb o a b h = elim (Bool-cases (ltb o (length O))) [
  | inl e ↦
      rw (get-anchors o 0 O ma mb (omega arith) (omega (arith, ltb→lt o (length O) e)))
        (both_iff (Map.get o ma) (Map.get o mb) a b)
  | inr e ↦
      let past = get-past o 0 O ma mb (ground (arith, e)) in
      (
        λ f. absurd (ground (arith, f, past)),
        λ f.
            let (line, found, there) = (get-Meets O A 0 0 o a ma h f.0).2 in
            absurd (ground (arith, get_elem?-lt o O line found, e)),
      )
]
