-- ===== src/Diff/Hunks/Apart.antt =====
-- The hunks show every change, and no line twice.
use podokit.Base.{
  ℕ, suc, ◌+◌, ◌-◌, ◌*◌, ◌≤◌, ◌≡◌, ◌⊎◌, inl, inr, List, [], ◌∷◌, arith, leb, Bool-cases, All,
  All-map, nat_eq, text_eq,
}
use mathlib.Core.Path.{subst}
use podokit.Base.{sym, All-map, true, false, Bool}
use podokit.Base.{refl}
use podokit.Diff.{Op}
use podokit.Diff.Hunks.{changed, hunks_from, hunks, is_context}

-- The indices go up, from `least` on.
abbrev pub GoUp : ℕ → List ℕ → Type 0
GoUp least [] = Unit
GoUp least (i ∷ is) = (least ≤ i) × GoUp (suc i) is

changed-GoUp {ℓ} :
    {A : Type ℓ} (least index : ℕ) (ops : List (Op A))
    → least ≤ index
    → GoUp least (changed index ops)
unfolding changed
changed-GoUp least index [] h = tt
changed-GoUp least index (op ∷ ops) h = elim (Bool-cases (is_context op)) [
  | inl e ↦ rw e (changed-GoUp least (suc index) ops (omega arith))
  | inr e ↦ rw e (h, changed-GoUp (suc index) (suc index) ops (omega arith))
]

-- After the context of a hunk at least one operation is left out before the context of the next one.
abbrev pub AreApart : ℕ → ℕ → List (ℕ × ℕ) → Type 0
AreApart around least [] = Unit
AreApart around least ((start, end) ∷ more) =
    (least ≤ start) × (start ≤ end) × AreApart around (end + around + 1 + around + 1) more

-- The change is in one of the hunks.
abbrev pub Shows : List (ℕ × ℕ) → ℕ → Type 0
Shows [] i = ◌≡◌ {A = Bool} true false
Shows ((start, end) ∷ more) i = ((start ≤ i) × (i ≤ end)) ⊎ Shows more i

hunks_from-AreApart :
    (around least start end : ℕ) (is : List ℕ)
    → least ≤ start
    → start ≤ end
    → GoUp (suc end) is
    → AreApart around least (hunks_from around start end is)
unfolding hunks_from
hunks_from-AreApart around least start end [] h k g = (h, k, tt)
hunks_from-AreApart around least start end (next ∷ more) h k g =
    elim (Bool-cases (leb (next - end) (around * 2 + 1))) [
      | inl e ↦ rw e (hunks_from-AreApart around least start next more h (omega (arith, g.0)) g.1)
      | inr e ↦
          let far : end + around + 1 + around + 1 ≤ next = ground (arith, e, g.0) in
          rw e (
            h,
            k,
            hunks_from-AreApart around (end + around + 1 + around + 1) next next more far
                (omega arith) g.1,
          )
    ]

Shows-range :
    (around start end : ℕ) (is : List ℕ) (i : ℕ)
    → start ≤ i
    → i ≤ end
    → GoUp (suc end) is
    → Shows (hunks_from around start end is) i
unfolding hunks_from
Shows-range around start end [] i h k g = inl (h, k)
Shows-range around start end (next ∷ more) i h k g =
    elim (Bool-cases (leb (next - end) (around * 2 + 1))) [
      | inl e ↦ rw e (Shows-range around start next more i h (omega (arith, k, g.0)) g.1)
      | inr e ↦ rw e (inl (h, k))
    ]

Shows-later :
    (around start end : ℕ) (is : List ℕ)
    → start ≤ end
    → GoUp (suc end) is
    → All (Shows (hunks_from around start end is)) is
unfolding hunks_from
Shows-later around start end [] h g = tt
Shows-later around start end (next ∷ more) h g =
    elim (Bool-cases (leb (next - end) (around * 2 + 1))) [
      | inl e ↦
          let joined : hunks_from around start end (next ∷ more)
              ≡ hunks_from around start next more =
            rw e refl in
          subst (λ hs. All (Shows hs) (next ∷ more)) (sym joined)
            (
              Shows-range around start next more next (omega (arith, h, g.0)) (omega arith) g.1,
              Shows-later around start next more (omega (arith, h, g.0)) g.1,
            )
      | inr e ↦
          let apart : hunks_from around start end (next ∷ more)
              ≡ (start, end) ∷ hunks_from around next next more =
            rw e refl in
          subst (λ hs. All (Shows hs) (next ∷ more)) (sym apart)
            (
              inr (Shows-range around next next more next (omega arith) (omega arith) g.1),
              All-map more (λ i x. inr x) (Shows-later around next next more (omega arith) g.1),
            )
    ]

all_shown :
    (around : ℕ) (is : List ℕ)
    → GoUp 0 is
    → AreApart around 0 (hunks around is) × All (Shows (hunks around is)) is
unfolding hunks
all_shown around [] g = (tt, tt)
all_shown around (i ∷ is) g = (
  hunks_from-AreApart around 0 i i is (omega arith) (omega arith) g.1,
  (
    Shows-range around i i is i (omega arith) (omega arith) g.1,
    Shows-later around i i is (omega arith) g.1,
  ),
)

-- Of any operations, the hunks show every change, and between the contexts of two hunks that follow
-- each other at least one operation is left out, so that no line is shown twice.
pub hunks-AreApart {ℓ} :
    {A : Type ℓ} (around : ℕ) (ops : List (Op A))
    → AreApart around 0 (hunks around (changed 0 ops))
      × All (Shows (hunks around (changed 0 ops))) (changed 0 ops)
hunks-AreApart around ops = all_shown around (changed 0 ops) (changed-GoUp 0 0 ops (omega arith))
