-- ===== src/Merge/ThreeWay/Merged.antt =====
-- The hunks of a three-way merge, what each merges to, and that `merge_hunk` does this.
use podokit.Base.{
  ℕ, suc, ◌+◌, ◌≡◌, ap, ◌≢◌, ◌⊎◌, inl, inr, false, List, [], ◌∷◌, ◌++◌, arith, Bool-cases, codes,
  length, Text, same_iff, nat_eq, text_eq,
}
use podokit.Texts.{join, newline}
use podokit.Merge.ThreeWay.{Labels, same_lines, merge_hunk}

-- The lines of a hunk in the base, the current and the next text, those that it merges to, and the
-- number of conflicts.
pub record Hunk : Type 0 where
  pub base : List Text
  pub current : List Text
  pub next : List Text
  pub lines : List Text
  pub conflicts : ℕ

-- The hunks of a merge, with a line that all three texts share between each two.
pub data Hunks : Type 0 where
  last : Hunk → Hunks
  before : Hunk → (anchor : Text) → Hunks → Hunks

abbrev pub flatten : (Hunk → List Text) → Hunks → List Text
flatten side (last h) = side h
flatten side (before h line hunks) = side h ++ line ∷ flatten side hunks

abbrev pub conflicts : Hunks → ℕ
conflicts (last h) = h.conflicts
conflicts (before h line hunks) = h.conflicts + conflicts hunks

-- The places of the shared lines in the three texts, where the hunks start at the places given.
abbrev pub places : ℕ → ℕ → ℕ → Hunks → List (ℕ × (ℕ × ℕ))
places o a b (last h) = []
places o a b (before h line hunks) =
    let p = o + length h.base in
    let c = a + length h.current in
    let d = b + length h.next in (p, (c, d)) ∷ places (suc p) (suc c) (suc d) hunks

abbrev pub joined : List Text → Text
joined lines = join (newline ∷ []) lines

-- Both sides, between the markers of a conflict.
abbrev marked : Labels → Hunk → List Text
marked labels h =
    (codes "<<<<<<< " ++ labels.current)
    ∷ (h.current ++ (codes "=======" ∷ (h.next ++ (codes ">>>>>>> " ++ labels.next) ∷ [])))

abbrev KeepsCurrent : Hunk → Type 0
KeepsCurrent h = (h.lines ≡ h.current) × (h.conflicts ≡ 0)

abbrev KeepsNext : Hunk → Type 0
KeepsNext h = (h.lines ≡ h.next) × (h.conflicts ≡ 0)

-- How the joined texts of a hunk decide what it merges to.
abbrev pub IsMerged : Labels → Hunk → Type 0
IsMerged labels h =
    ((joined h.current ≡ joined h.base) × KeepsNext h)
    ⊎ ((joined h.current ≢ joined h.base)
        × (((joined h.next ≡ joined h.base) × KeepsCurrent h)
            ⊎ ((joined h.next ≢ joined h.base)
                × (((joined h.current ≡ joined h.next) × KeepsCurrent h)
                    ⊎ ((joined h.current ≢ joined h.next)
                        × (h.lines ≡ marked labels h)
                        × (h.conflicts ≡ 1))))))

abbrev pub AreMerged : Labels → Hunks → Type 0
AreMerged labels (last h) = IsMerged labels h
AreMerged labels (before h line hunks) = IsMerged labels h × AreMerged labels hunks

unlike : (a b : List Text) → same_lines a b ≡ false → joined a ≢ joined b
unlike a b h same_text = ground (arith, same_iff (joined a) (joined b), h, same_text)

both_parts : {p q : List Text × ℕ} → p ≡ q → (p.0 ≡ q.0) × (p.1 ≡ q.1)
both_parts e = (ap (λ (r : List Text × ℕ). r.0) e, ap (λ (r : List Text × ℕ). r.1) e)

pub merge_hunk-IsMerged :
    (labels : Labels) (h : Hunk)
    → (h.lines, h.conflicts) ≡ merge_hunk labels h.base h.current h.next
    → IsMerged labels h
unfolding merge_hunk
merge_hunk-IsMerged labels h out = elim (Bool-cases (same_lines h.current h.base)) [
  | inl e ↦
      inl
        ((same_iff (joined h.current) (joined h.base)).0 e, both_parts (rw (e, merge_hunk) at out))
  | inr e ↦ elim (Bool-cases (same_lines h.next h.base)) [
    | inl f ↦ inr (
      unlike h.current h.base e,
      inl (
        (same_iff (joined h.next) (joined h.base)).0 f,
        both_parts (rw (e, f, merge_hunk) at out),
      ),
    )
    | inr f ↦ elim (Bool-cases (same_lines h.current h.next)) [
      | inl g ↦ inr (
        unlike h.current h.base e,
        inr (
          unlike h.next h.base f,
          inl (
            (same_iff (joined h.current) (joined h.next)).0 g,
            both_parts (rw (e, f, g, merge_hunk) at out),
          ),
        ),
      )
      | inr g ↦ inr (
        unlike h.current h.base e,
        inr (
          unlike h.next h.base f,
          let parts = both_parts (rw (e, f, g, merge_hunk) at out) in
              inr (unlike h.current h.next g, parts.0, parts.1),
        ),
      )
    ]
  ]
]
