-- ===== src/Project/Visited.antt =====
-- update.ts, `targetModules`: what a visit keeps of what was visited before.
use podokit.Providers.{Selections}
use podokit.Project.Visits.{leave, enter, visit_each}
use podokit.Base.{
  same_iff, arith, [], Ensures-weaken, Ensures-bind, ◌∷◌, All, List, Ensures, Result, ◌≡◌, refl, ap,
  ◌∙◌, true, false, Text, nat_eq, text_eq,
}
use podokit.Texts.Sets.{contains-append, without-added, without, contains}
use podokit.Project.Modules.{Resolved, Cause, ManifestModule, Registry, GraphError, Visits}

-- The modules whose visit has not ended are the same, the modules visited are visited still, and none whose
-- visit has not ended is among those visited since.
abbrev pub Grown : Visits → Visits → Type 0
Grown s after =
    (after.visiting ≡ s.visiting)
    × ((t : Text) → contains t s.visited ≡ true → contains t after.visited ≡ true)
    × ((t : Text)
        → contains t s.visiting ≡ true
        → contains t s.visited ≡ false
        → contains t after.visited ≡ false)

pub Grown-refl : (s : Visits) → Grown s s
Grown-refl s = (refl, λ t h. h, λ t v h. h)

pub Grown-trans : (s mid after : Visits) → Grown s mid → Grown mid after → Grown s after
Grown-trans s mid after g h = (
  h.0 ∙ g.0,
  λ t seen. h.1 t (g.1 t seen),
  λ t v unseen. h.2 t (ap (contains t) g.0 ∙ v) (g.2 t v unseen),
)

module _ {ℓ κ} {A : Type ℓ} (Good : Visits → Type κ) (Done : A → Visits → Type 0)
    (visit_one : A → Visits → Result GraphError Visits)
    (keeps : (a : A) (s after : Visits) → Grown s after → Done a s → Done a after)
    (each : (a : A) (s : Visits)
      → Good s
      → Ensures (λ after. Good after × Grown s after × Done a after) (visit_one a s)) where
  -- What each visit keeps and brings about, all of them do.
  pub visit_each-Grown :
      (as' : List A) (s : Visits)
      → Good s
      → Ensures
          (λ after. Good after × Grown s after × All (λ a. Done a after) as')
          (visit_each visit_one as' s)
  unfolding visit_each
  visit_each-Grown [] s good = (good, Grown-refl s, tt)
  visit_each-Grown (a ∷ as') s good =
      Ensures-bind _ _ (visit_one a s) (visit_each visit_one as') (each a s good) (λ mid now.
        Ensures-weaken _ _ (visit_each visit_one as' mid)
          (λ after then'. (
            then'.0,
            Grown-trans s mid after now.1 then'.1,
            (keeps a mid after then'.1 now.2, then'.2),
          ))
          (visit_each-Grown as' mid now.0))

-- A visit from its start to its end.
pub leave-Grown :
    (registry : Registry) (providers : Selections) (recorded : List (Text × ManifestModule))
    (name : Text) (cause : Cause) (r : Resolved) (s after : Visits)
    → contains name s.visiting ≡ false
    → Grown (enter registry providers recorded name r s) after
    → Grown s (leave registry providers recorded name cause r after)
leave-Grown registry providers recorded name cause r s after idle g = (
  ap (without name) g.0 ∙ without-added name s.visiting idle,
  λ t seen. contains-append t after.visited (name ∷ []) ∙ ground (arith, g.1 t seen),
  λ t v unseen.
      contains-append t after.visited (name ∷ [])
      ∙ unfold contains in
        ground (arith, same_iff name t, g.2 t (unfold contains in ground (arith, v)) unseen),
)
