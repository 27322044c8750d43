-- ===== src/Project/Requirements.antt =====
-- update.ts, `targetModules`: the modules that it gives.
use podokit.Project.Ending.{Fits, visit-Ends, visit_each-Ends, Ends, IsKnown, AreKnown}
use podokit.Project.Ordered.{leave-IsWell, visit_required-Visited, HasRequired, Visited, IsWell}
use mathlib.Core.Path.{subst}
use podokit.Base.{
  refl, sym, All-map, err, ◌≢◌, ◌<◌, length, Ensures-ok, true, ltb, All, ℕ, zero, suc, ◌≡◌, ◌∙◌,
  inl, inr, false, some, List, [], ◌∷◌, arith, Bool-cases, Option-cases, ok, Ensures, Ensures-bind,
  ◌>>=◌, Text, same_refl, nat_eq, text_eq,
}
use podokit.Texts.Sets.{contains, contains-append}
use podokit.Providers.{Selections}
use podokit.Project.Modules.{
  out_of_fuel, by_name, sort_by_order, insert_by_order, ManifestModule, Resolved, Registry, Visits,
  Cause,
}
use podokit.Project.Visits.{
  unvisited, asked, target_modules, resolved_as, visit_required, visit, enter, leave,
}
use podokit.Project.Visited.{visit_each-Grown, Grown-refl, leave-Grown, Grown}

module _ (registry : Registry) (providers : Selections)
    (recorded : List (Text × ManifestModule)) where
  entered-Visited :
      (fuel : ℕ)
      → ((t : Text) (cause : Cause) (s : Visits)
          → IsWell registry providers recorded s
          → Ensures
              (Visited registry providers recorded t s)
              (visit registry providers recorded fuel t cause s))
      → (name : Text) (cause : Cause) (r : Resolved) (s : Visits)
      → resolved_as registry providers recorded name ≡ some r
      → contains name s.visited ≡ false
      → contains name s.visiting ≡ false
      → IsWell registry providers recorded s
      → Ensures (Visited registry providers recorded name s) (
          visit_required registry providers recorded
            (visit registry providers recorded fuel)
            name
            r
            (enter registry providers recorded name r s)
          >>= λ s. ok (leave registry providers recorded name cause r s))
  entered-Visited fuel each name cause r s resolves unseen idle well =
      let start = enter registry providers recorded name r s in
      Ensures-bind
        (λ after.
          IsWell registry providers recorded after
          × Grown start after
          × HasRequired registry providers recorded r after.visited)
        _ _ _ (visit_required-Visited registry providers recorded _ each name r start well)
        (λ after h. (
          leave-IsWell registry providers recorded name cause r after resolves
              (h.1.2 name (unfold contains in ground (arith, same_refl name)) unseen) h.2 h.0,
          leave-Grown registry providers recorded name cause r s after idle h.1,
          contains-append name after.visited (name ∷ [])
              ∙ unfold contains in ground (arith, same_refl name),
        ))

  pub visit-Visited :
      (fuel : ℕ) (name : Text) (cause : Cause) (s : Visits)
      → IsWell registry providers recorded s
      → Ensures
          (Visited registry providers recorded name s)
          (visit registry providers recorded fuel name cause s)
  unfolding visit
  visit-Visited zero name cause s well = tt
  visit-Visited (suc fuel) name cause s well = elim (Bool-cases (contains name s.visited)) [
    | inl seen ↦ rw seen (well, Grown-refl s, seen)
    | inr unseen ↦ elim (Bool-cases (contains name s.visiting)) [
      | inl now ↦ rw (unseen, now) tt
      | inr idle ↦ elim (Option-cases (resolved_as registry providers recorded name)) [
        | inl missing ↦ rw (unseen, idle, missing) tt
        | inr (r, resolves) ↦
            rw (unseen, idle, resolves)
              (entered-Visited fuel (visit-Visited fuel) name cause r s resolves unseen idle well)
      ]
    ]
  ]

All-insert_by_order :
    (P : ManifestModule → Type 0) (m : ManifestModule) (modules : List ManifestModule)
    → All P (insert_by_order m modules)
    → P m × All P modules
unfolding insert_by_order
All-insert_by_order P m [] h = h
All-insert_by_order P m (n ∷ modules) h = elim (Bool-cases (ltb n.order m.order)) [
  | inl e ↦
      let placed : All P (n ∷ insert_by_order m modules) = rw e at h in
      let rest = All-insert_by_order P m modules placed.1 in (rest.0, (placed.0, rest.1))
  | inr e ↦ rw e at h
]

pub All-sort_by_order :
    (P : ManifestModule → Type 0) (modules : List ManifestModule)
    → All P (sort_by_order modules)
    → All P modules
unfolding sort_by_order
All-sort_by_order P [] h = tt
All-sort_by_order P (m ∷ modules) h =
    let placed = All-insert_by_order P m (sort_by_order modules) h in
    (placed.0, All-sort_by_order P modules placed.1)

-- If the modules of an update are found, then each of them comes after those that it requires, by name or
-- by a capability, once, numbered in this order, with what was recorded of it or what is installed; and
-- all the modules recorded are among them.
pub target_modules-IsWell :
    (registry : Registry) (providers : Selections) (fuel : ℕ) (modules : List ManifestModule)
    (targets : Visits)
    → target_modules registry providers fuel modules ≡ ok targets
    → IsWell registry providers (by_name modules []) targets
      × All (λ (m : ManifestModule). contains m.name targets.visited ≡ true) modules
unfolding target_modules
target_modules-IsWell registry providers fuel modules targets found =
    let recorded = by_name modules [] in
    let Reached : ManifestModule → Visits → Type 0 = λ m s. contains m.name s.visited ≡ true in
    let reached =
      Ensures-ok _ _
        (visit_each-Grown (IsWell registry providers recorded) Reached _
          (λ m s after g h. g.1 m.name h)
          (λ m s well. visit-Visited registry providers recorded fuel m.name asked s well)
          (sort_by_order modules) unvisited (tt, tt, tt))
        found in
    (reached.0, All-sort_by_order (λ m. Reached m targets) modules reached.2)

insert_by_order-All {ℓ} :
    (P : ManifestModule → Type ℓ) (m : ManifestModule) (modules : List ManifestModule)
    → P m
    → All P modules
    → All P (insert_by_order m modules)
unfolding insert_by_order
insert_by_order-All P m [] p h = (p, tt)
insert_by_order-All P m (n ∷ modules) p h = elim (Bool-cases (ltb n.order m.order)) [
  | inl e ↦ rw e (h.0, insert_by_order-All P m modules p h.1)
  | inr e ↦ rw e (p, h)
]

sort_by_order-All {ℓ} :
    (P : ManifestModule → Type ℓ) (modules : List ManifestModule)
    → All P modules
    → All P (sort_by_order modules)
unfolding sort_by_order
sort_by_order-All P [] h = tt
sort_by_order-All P (m ∷ modules) h =
    insert_by_order-All P m (sort_by_order modules) h.0 (sort_by_order-All P modules h.1)

-- Of modules whose requirements are among finitely many names, an update finds the modules or says what is
-- wrong, which may be that modules require each other: a visit goes no deeper than there are names.
pub target_modules-ends :
    (registry : Registry) (providers : Selections) (known : List Text) (fuel : ℕ)
    (modules : List ManifestModule)
    → AreKnown registry known
    → All (λ (m : ManifestModule). IsKnown known m.name) modules
    → length known < fuel
    → target_modules registry providers fuel modules ≢ err out_of_fuel
unfolding target_modules
target_modules-ends registry providers known fuel modules closed are_known enough ran_out =
    let recorded = by_name modules [] in
    subst (Ends []) ran_out (
      visit_each-Ends [] _ (sort_by_order modules) unvisited
        (sort_by_order-All _ modules (
          All-map modules
            (λ m is_known s e.
              subst (λ v. Ends v (visit registry providers recorded fuel m.name asked s)) e
                (visit-Ends registry providers known closed recorded fuel m.name asked s is_known
                  (subst (Fits known fuel) (sym e) (tt, tt, omega arith))))
            are_known))
        refl)
