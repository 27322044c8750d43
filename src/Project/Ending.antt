-- ===== src/Project/Ending.antt =====
-- update.ts, `targetModules`: it ends, also where modules require each other in a cycle.
use mathlib.Core.Path.{subst}
use podokit.Base.{
  All-every, ℕ, zero, suc, ◌+◌, ◌<◌, ◌≡◌, refl, sym, ap, ◌∙◌, ◌⊎◌, inl, inr, true, false, Option,
  none, some, List, [], ◌∷◌, arith, Bool-cases, Option-cases, length, All, All-map, Result, ok, err,
  ◌>>=◌, Text, nat_eq, text_eq,
}
use podokit.Map
use podokit.Texts.Sets.{without, contains, IsDistinct, length-IsDistinct, without-added}
use podokit.Providers.{Capability, Selections}
use podokit.Project.Modules.{
  unknown_module, unresolved, cycle, no_provider, provides_selected, first_provider, ManifestModule,
  Resolved, Registry, GraphError, Visits, Cause, selected_provider_module, out_of_fuel,
}
use podokit.Project.Visits.{
  unresolved_error, resolved_as, visit_each, visit_required, visit_capability, visit, enter, leave,
}

-- The fuel did not run out, and the modules whose visit has not ended are those.
abbrev pub Ends : List Text → Result GraphError Visits → Type 0
Ends visiting (ok after) = after.visiting ≡ visiting
Ends visiting (err out_of_fuel) = ⊥
Ends visiting (err _) = Unit

Ends-err :
    (visiting later : List Text) (e : GraphError) → Ends visiting (err e) → Ends later (err e)
Ends-err visiting later (cycle name) h = tt
Ends-err visiting later (unresolved m) h = tt
Ends-err visiting later (unknown_module name) h = tt
Ends-err visiting later (no_provider c) h = tt
Ends-err visiting later out_of_fuel h = h

Ends-bind :
    (visiting later : List Text) (m : Result GraphError Visits)
    (f : Visits → Result GraphError Visits)
    → Ends visiting m
    → ((s : Visits) → s.visiting ≡ visiting → Ends later (f s))
    → Ends later (m >>= f)
Ends-bind visiting later (ok s) f h k = k s h
Ends-bind visiting later (err e) f h k = Ends-err visiting later e h

pub visit_each-Ends {ℓ} :
    {A : Type ℓ} (visiting : List Text) (visit_one : A → Visits → Result GraphError Visits)
    (as' : List A) (s : Visits)
    → All (λ a. (s : Visits) → s.visiting ≡ visiting → Ends visiting (visit_one a s)) as'
    → s.visiting ≡ visiting
    → Ends visiting (visit_each visit_one as' s)
unfolding visit_each
visit_each-Ends visiting visit_one [] s each e = e
visit_each-Ends visiting visit_one (a ∷ as') s each e =
    Ends-bind visiting visiting (visit_one a s) (visit_each visit_one as') (each.0 s e)
      (λ mid now. visit_each-Ends visiting visit_one as' mid each.1 now)

abbrev pub IsKnown : List Text → Text → Type 0
IsKnown known name = contains name known ≡ true

module _ (registry : Registry) (providers : Selections) (known : List Text) where
  first_provider-IsKnown :
      (c : Capability) (names : List Text)
      → All (IsKnown known) names
      → ((provider : Text) × (first_provider registry providers c names ≡ ok provider)
          × IsKnown known provider)
        ⊎ (first_provider registry providers c names ≡ err (no_provider c))
  unfolding first_provider
  first_provider-IsKnown c [] h = inr refl
  first_provider-IsKnown c (name ∷ names) h =
      elim (Bool-cases (provides_selected registry providers c (registry.resolve name))) [
        | inl selected ↦ rw selected (inl (name, refl, h.0))
        | inr other ↦ rw other (first_provider-IsKnown c names h.1)
      ]

-- What is required of the modules is known: their names are finitely many.
abbrev pub AreKnown : Registry → List Text → Type 0
AreKnown registry known =
    All (IsKnown known) registry.available
    × ((name : Text) (r : Resolved)
        → registry.resolve name ≡ some r
        → All (IsKnown known) r.requires)

-- The fuel is more than the visits that can still begin within this one.
abbrev pub Fits : List Text → ℕ → List Text → Type 0
Fits known fuel visiting =
    IsDistinct visiting × All (IsKnown known) visiting × (length known < fuel + length visiting)

module _ (registry : Registry) (providers : Selections) (known : List Text)
    (closed : AreKnown registry known) (recorded : List (Text × ManifestModule)) where
  visit_capability-Ends :
      (visiting : List Text) (visit_one : Text → Cause → Visits → Result GraphError Visits)
      → ((t : Text) (cause : Cause) (s : Visits)
          → IsKnown known t
          → s.visiting ≡ visiting
          → Ends visiting (visit_one t cause s))
      → (name : Text) (c : Capability) (s : Visits) → s.visiting ≡ visiting
      → Ends visiting (visit_capability registry providers recorded visit_one name c s)
  unfolding selected_provider_module
  visit_capability-Ends visiting visit_one each name c s e =
      elim (first_provider-IsKnown registry providers known c registry.available closed.0) [
        | inl (provider, chosen, known_provider) ↦ rw chosen (each provider _ s known_provider e)
        | inr missing ↦ rw missing tt
      ]

  visit_required-Ends :
      (visiting : List Text) (visit_one : Text → Cause → Visits → Result GraphError Visits)
      → ((t : Text) (cause : Cause) (s : Visits)
          → IsKnown known t
          → s.visiting ≡ visiting
          → Ends visiting (visit_one t cause s))
      → (name : Text) (r : Resolved) (s : Visits) → All (IsKnown known) r.requires
      → s.visiting ≡ visiting
      → Ends visiting (visit_required registry providers recorded visit_one name r s)
  unfolding visit_required
  visit_required-Ends visiting visit_one each name r s required here =
      Ends-bind visiting visiting _
        (visit_each (visit_capability registry providers recorded visit_one name)
          r.requires_capabilities)
        (visit_each-Ends visiting _ r.requires s
          (All-map r.requires (λ t is_known s e. each t _ s is_known e) required) here)
        (λ mid e.
          visit_each-Ends visiting _ r.requires_capabilities mid
            (All-every r.requires_capabilities
              (λ c s e. visit_capability-Ends visiting visit_one each name c s e))
            e)

  unresolved-Ends :
      (visiting : List Text) (existing : Option ManifestModule) (name : Text)
      → Ends visiting (err (unresolved_error registry providers recorded existing name))
  unresolved-Ends visiting none name = tt
  unresolved-Ends visiting (some m) name = tt

  entered-Ends :
      (fuel : ℕ)
      → ((t : Text) (cause : Cause) (s : Visits)
          → IsKnown known t
          → Fits known fuel s.visiting
          → Ends s.visiting (visit registry providers recorded fuel t cause s))
      → (name : Text) (cause : Cause) (r : Resolved) (s : Visits)
      → resolved_as registry providers recorded name ≡ some r
      → contains name s.visiting ≡ false
      → IsKnown known name
      → Fits known (suc fuel) s.visiting
      → Ends s.visiting (
          visit_required registry providers recorded
            (visit registry providers recorded fuel)
            name
            r
            (enter registry providers recorded name r s)
          >>= λ s. ok (leave registry providers recorded name cause r s))
  entered-Ends fuel each name cause r s resolves idle is_known fits =
      let within = name ∷ s.visiting in
      let inner : Fits known fuel within =
        ((idle, fits.0), (is_known, fits.1), let more = fits.2 in omega arith) in
      Ends-bind within s.visiting _ _
        (visit_required-Ends within (visit registry providers recorded fuel)
          (λ t cause mid is_known e.
            subst (λ v. Ends v (visit registry providers recorded fuel t cause mid)) e
              (each t cause mid is_known (subst (Fits known fuel) (sym e) inner)))
          name r (enter registry providers recorded name r s) (closed.1 _ r resolves) refl)
        (λ after e. ap (without name) e ∙ without-added name s.visiting idle)

  pub visit-Ends :
      (fuel : ℕ) (name : Text) (cause : Cause) (s : Visits)
      → IsKnown known name
      → Fits known fuel s.visiting
      → Ends s.visiting (visit registry providers recorded fuel name cause s)
  unfolding visit
  visit-Ends zero name cause s is_known fits = absurd (
      let most = length-IsDistinct s.visiting known fits.0 fits.1 in
      let more = fits.2 in omega arith)
  visit-Ends (suc fuel) name cause s is_known fits = elim (Bool-cases (contains name s.visited)) [
    | inl seen ↦ rw seen refl
    | inr unseen ↦ elim (Bool-cases (contains name s.visiting)) [
      | inl now ↦ rw (unseen, now) tt
      | inr idle ↦ elim (Option-cases (resolved_as registry providers recorded name)) [
        | inl missing ↦
            rw (unseen, idle, missing) (unresolved-Ends s.visiting (Map.get name recorded) name)
        | inr (r, resolves) ↦
            rw (unseen, idle, resolves)
              (entered-Ends fuel (visit-Ends fuel) name cause r s resolves idle is_known fits)
      ]
    ]
  ]
