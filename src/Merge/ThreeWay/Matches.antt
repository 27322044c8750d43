-- ===== src/Merge/ThreeWay/Matches.antt =====
-- The matches of two texts go up on both sides, and so do the lines that are matched in all three.
use mathlib.Core.Path.{subst}
use podokit.Base.{
  inl, drop-of_drop, get_elem?-of_drop, ℕ, suc, ◌≤◌, ◌<◌, ◌≡◌, refl, sym, ◌∙◌, inl, inr, false,
  some, List, [], ◌∷◌, arith, leb, ◌==◌, ==_iff, Bool-cases, Option-cases, get_elem?, drop, Text,
  same, same_iff, nat_eq, text_eq,
}
use podokit.Map
use podokit.Merge.ThreeWay.{table, cell, matches_from, lcs_matches, anchors}

-- The line stands at these places of the two texts.
abbrev pub Meets : List Text → List Text → ℕ → ℕ → Type 0
Meets a b o j = (line : Text) × (get_elem? a o ≡ some line) × (get_elem? b j ≡ some line)

abbrev pub AreMatches : List Text → List Text → ℕ → ℕ → List (ℕ × ℕ) → Type 0
AreMatches a b i j [] = Unit
AreMatches a b i j ((o, k) ∷ ms) =
    (i ≤ o) × (j ≤ k) × Meets a b o k × AreMatches a b (suc o) (suc k) ms

module _ (a b : List Text) where
  weaken :
      (i j i' j' : ℕ) (ms : List (ℕ × ℕ))
      → i' ≤ i
      → j' ≤ j
      → AreMatches a b i j ms
      → AreMatches a b i' j' ms
  weaken i j i' j' [] h k m = tt
  weaken i j i' j' ((o, l) ∷ ms) h k m = (omega arith, omega arith, m.2, m.3)

  pub get-Meets :
      (i j o k : ℕ) (ms : List (ℕ × ℕ))
      → AreMatches a b i j ms
      → Map.get o ms ≡ some k
      → (i ≤ o) × (j ≤ k) × Meets a b o k
  unfolding Map.get
  get-Meets i j o k [] m e = absurd (ground arith)
  get-Meets i j o k ((p, l) ∷ ms) m e = elim (Bool-cases (p == o)) [
    | inl q ↦
        let here : p ≡ o = (==_iff p o).0 q in
        let there : l ≡ k = ground (arith, rw (q, Map.get) at e) in
        (
          rw (sym here) m.0,
          rw (sym there) m.1,
          subst (λ t. Meets a b t k) here (subst (λ t. Meets a b p t) there m.2),
        )
    | inr q ↦
        let (x, y, z) = get-Meets (suc p) (suc l) o k ms m.3 (rw (q, Map.get) at e) in
        (omega arith, omega arith, z)
  ]

  get_mono :
      (i j o k o' k' : ℕ) (ms : List (ℕ × ℕ))
      → AreMatches a b i j ms
      → Map.get o ms ≡ some k
      → Map.get o' ms ≡ some k'
      → o < o'
      → k < k'
  unfolding Map.get
  get_mono i j o k o' k' [] m e f lt = absurd (ground arith)
  get_mono i j o k o' k' ((p, l) ∷ ms) m e f lt = elim (Bool-cases (p == o)) [
    | inl q ↦
        let there : l ≡ k = ground (arith, rw (q, Map.get) at e) in
        let apart : (p == o') ≡ false = ground (arith, lt, q) in
        let later = get-Meets (suc p) (suc l) o' k' ms m.3 (rw (apart, Map.get) at f) in
        omega (arith, there, later.1)
    | inr q ↦
        let e' = rw (q, Map.get) at e in
        let first = get-Meets (suc p) (suc l) o k ms m.3 e' in
        let apart : (p == o') ≡ false = ground (arith, lt, first.0) in
        get_mono (suc p) (suc l) o k o' k' ms m.3 e' (rw (apart, Map.get) at f) lt
  ]

matches_from-AreMatches :
    (a b : List Text) (dp : List (List ℕ)) (i j : ℕ) (c d : List Text)
    → c ≡ drop i a
    → d ≡ drop j b
    → AreMatches a b i j (matches_from dp i j c d)
unfolding matches_from
matches_from-AreMatches a b dp i j [] d e f = tt
matches_from-AreMatches a b dp i j (x ∷ c) [] e f = tt
matches_from-AreMatches a b dp i j (x ∷ c) (y ∷ d) e f = elim (Bool-cases (same x y)) [
  | inl q ↦
      rw (q, matches_from)
        (
          omega arith,
          omega arith,
          (
            x,
            get_elem?-of_drop i a (sym e),
            rw ((same_iff x y).0 q) (get_elem?-of_drop j b (sym f)),
          ),
          matches_from-AreMatches a b dp (suc i) (suc j) c d (sym (drop-of_drop i a (sym e)))
              (sym (drop-of_drop j b (sym f))),
        )
  | inr q ↦ elim (Bool-cases (leb (cell dp i (suc j)) (cell dp (suc i) j))) [
    | inl r ↦
        rw (q, r, matches_from)
          (weaken a b (suc i) j i j _ (omega arith) (omega arith)
            (matches_from-AreMatches a b dp (suc i) j c (y ∷ d) (sym (drop-of_drop i a (sym e))) f))
    | inr r ↦
        rw (q, r, matches_from)
          (weaken a b i (suc j) i j _ (omega arith) (omega arith)
            (matches_from-AreMatches a b dp i (suc j) (x ∷ c) d e (sym (drop-of_drop j b (sym f)))))
  ]
]

pub lcs_matches-AreMatches : (a b : List Text) → AreMatches a b 0 0 (lcs_matches a b)
unfolding lcs_matches
lcs_matches-AreMatches a b = matches_from-AreMatches a b (table a b) 0 0 a b refl refl

-- An anchor is one line of all three texts, and the anchors go up in each.
abbrev pub AreAnchors : List Text → List Text → List Text → ℕ → ℕ → ℕ → List (ℕ × (ℕ × ℕ)) → Type 0
AreAnchors O A B o a b [] = Unit
AreAnchors O A B o a b ((p, (c, d)) ∷ seq) =
    (o ≤ p)
    × (a ≤ c)
    × (b ≤ d)
    × ((line : Text) × (get_elem? O p ≡ some line)
        × (get_elem? A c ≡ some line)
        × (get_elem? B d ≡ some line))
    × AreAnchors O A B (suc p) (suc c) (suc d) seq

-- The matches of the lines from `o` on start at `a`.
abbrev Beyond : List (ℕ × ℕ) → ℕ → ℕ → Type 0
Beyond ms o a = (p c : ℕ) → o ≤ p → Map.get p ms ≡ some c → a ≤ c

module _ (O A B : List Text) (ma mb : List (ℕ × ℕ)) (ha : AreMatches O A 0 0 ma)
    (hb : AreMatches O B 0 0 mb) where
  pub anchors-AreAnchors :
      (o po a b : ℕ) (lines : List Text)
      → po ≤ o
      → Beyond ma o a
      → Beyond mb o b
      → AreAnchors O A B po a b (anchors o lines ma mb)
  unfolding anchors
  anchors-AreAnchors o po a b [] h ka kb = tt
  anchors-AreAnchors o po a b (line ∷ lines) h ka kb =
      let skip =
        anchors-AreAnchors (suc o) po a b lines (omega arith) (λ p c g e. ka p c (omega arith) e)
          (λ p c g e. kb p c (omega arith) e) in
      elim (Option-cases (Map.get o ma)) [
        | inl e ↦ rw (e, anchors) skip
        | inr (c, e) ↦ elim (Option-cases (Map.get o mb)) [
          | inl f ↦ rw (e, f, anchors) skip
          | inr (d, f) ↦
              let meets = (get-Meets O A 0 0 o c ma ha e).2 in
              let meets' = (get-Meets O B 0 0 o d mb hb f).2 in
              rw (e, f, anchors)
                (
                  h,
                  ka o c (omega arith) e,
                  kb o d (omega arith) f,
                  (meets.0, meets.1, meets.2, meets'.2 ∙ (sym meets'.1 ∙ meets.1)),
                  anchors-AreAnchors (suc o) (suc o) (suc c) (suc d) lines (omega arith)
                      (λ p q g k. get_mono O A 0 0 o c p q ma ha e k g)
                      (λ p q g k. get_mono O B 0 0 o d p q mb hb f k g),
                )
        ]
      ]
