-- ===== src/Project/Ordered.antt =====
-- update.ts, `targetModules`: each module comes after those it requires, and once.
use podokit.Project.Visited.{Grown-trans, visit_each-Grown, Grown}
use mathlib.Core.Path.{subst}
use podokit.Base.{
  Ensures-of, All-map, Ensures-weaken, Ensures-bind, Ensures, Result, ℕ, suc, ◌+◌, ◌≡◌, refl, sym,
  true, false, some, List, [], ◌∷◌, ◌++◌, append-nil, append_assoc, arith, length, All, ok, Text,
  nat_eq, text_eq,
}
use podokit.Map
use podokit.Texts.Sets.{append-IsDistinct, contains, IsDistinct}
use podokit.Providers.{Capability, Selections}
use podokit.Project.Modules.{
  GraphError, recorded_or_fresh, entry_at, ManifestModule, Resolved, Registry, Visits, Cause,
  selected_provider_module,
}
use podokit.Project.Visits.{
  by_capability, visit_each, visit_capability, visit_required, resolved_as, leave,
}

module _ (registry : Registry) (providers : Selections)
    (recorded : List (Text × ManifestModule)) where
  -- The module that provides what is selected is one of those.
  abbrev pub HasProvider : Capability → List Text → Type 0
  HasProvider c before =
      (provider : Text) × (selected_provider_module registry providers c ≡ ok provider)
      × (contains provider before ≡ true)

  -- What a module requires is among those before it.
  abbrev pub HasRequired : Resolved → List Text → Type 0
  HasRequired r before =
      All (λ required. contains required before ≡ true) r.requires
      × All (λ c. HasProvider c before) r.requires_capabilities

  abbrev pub IsReady : List Text → Text → Type 0
  IsReady before name =
      (r : Resolved) × (resolved_as registry providers recorded name ≡ some r)
      × HasRequired r before

  -- Each module of a list comes after what it requires.
  abbrev pub IsOrdered : List Text → List Text → Type 0
  IsOrdered before [] = Unit
  IsOrdered before (name ∷ names) = IsReady before name × IsOrdered (before ++ (name ∷ [])) names

  IsOrdered-append :
      (before names : List Text) (name : Text)
      → IsOrdered before names
      → IsReady (before ++ names) name
      → IsOrdered before (names ++ (name ∷ []))
  IsOrdered-append before [] name h ready =
      (subst (λ b. IsReady b name) (append-nil before) ready, tt)
  IsOrdered-append before (first ∷ names) name h ready = (
    h.0,
    IsOrdered-append (before ++ (first ∷ [])) names name h.1
        (subst (λ b. IsReady b name) (sym (append_assoc before (first ∷ []) names)) ready),
  )

  -- The entry that a module gets, from what was recorded and what is resolved.
  abbrev pub IsEntry : Text → ℕ → ManifestModule → Type 0
  IsEntry name order m =
      (r : Resolved) × (resolved_as registry providers recorded name ≡ some r)
      × (m ≡ entry_at (recorded_or_fresh registry providers (Map.get name recorded) r) r order)

  -- The modules are those of the names, numbered from `order` on.
  abbrev pub AreEntries : ℕ → List Text → List ManifestModule → Type 0
  AreEntries order [] [] = Unit
  AreEntries order (name ∷ names) (m ∷ modules) =
      IsEntry name order m × AreEntries (suc order) names modules
  AreEntries order _ _ = ⊥

  AreEntries-append :
      (order : ℕ) (names : List Text) (modules : List ManifestModule) (name : Text) (at : ℕ)
      (m : ManifestModule)
      → AreEntries order names modules
      → at ≡ order + length modules
      → IsEntry name at m
      → AreEntries order (names ++ (name ∷ [])) (modules ++ (m ∷ []))
  AreEntries-append order [] [] name at m h same_at e =
      (subst (λ n. IsEntry name n m) (omega arith) e, tt)
  AreEntries-append order [] (n ∷ modules) name at m h same_at e = elim h [ ]
  AreEntries-append order (first ∷ names) [] name at m h same_at e = elim h [ ]
  AreEntries-append order (first ∷ names) (n ∷ modules) name at m h same_at e =
      (h.0, AreEntries-append (suc order) names modules name at m h.1 (omega arith) e)

  abbrev pub IsWell : Visits → Type 0
  IsWell s = IsDistinct s.visited × IsOrdered [] s.visited × AreEntries 0 s.visited s.ordered

  pub leave-IsWell :
      (name : Text) (cause : Cause) (r : Resolved) (s : Visits)
      → resolved_as registry providers recorded name ≡ some r
      → contains name s.visited ≡ false
      → HasRequired r s.visited
      → IsWell s
      → IsWell (leave registry providers recorded name cause r s)
  leave-IsWell name cause r s resolves fresh required well = (
    append-IsDistinct name s.visited well.0 fresh,
    IsOrdered-append [] s.visited name well.1 (r, resolves, required),
    AreEntries-append 0 s.visited s.ordered name (length s.ordered) _ well.2 (omega arith)
        (r, resolves, refl),
  )

  -- What a visit keeps and brings about.
  abbrev pub Visited : Text → Visits → Visits → Type 0
  Visited name s after = IsWell after × Grown s after × (contains name after.visited ≡ true)

  HasProvider-of :
      (c : Capability) (s after : Visits)
      → Grown s after
      → HasProvider c s.visited
      → HasProvider c after.visited
  HasProvider-of c s after g h = (h.0, h.1, g.1 h.0 h.2)

  -- Where each visit does what it should:
  module _ (visit_one : Text → Cause → Visits → Result GraphError Visits)
      (each : (t : Text) (cause : Cause) (s : Visits)
        → IsWell s
        → Ensures (Visited t s) (visit_one t cause s)) where
    visit_capability-Visited :
        (name : Text) (c : Capability) (s : Visits)
        → IsWell s
        → Ensures
            (λ after. IsWell after × Grown s after × HasProvider c after.visited)
            (visit_capability registry providers recorded visit_one name c s)
    visit_capability-Visited name c s well =
        let chosen = selected_provider_module registry providers c in
        Ensures-bind (λ provider. chosen ≡ ok provider) _ chosen _
          (Ensures-of _ chosen (λ provider e. e))
          (λ provider e.
            Ensures-weaken (Visited provider s) _ _ (λ after h. (h.0, h.1, (provider, e, h.2)))
              (each provider (by_capability registry providers recorded name c) s well))

    pub visit_required-Visited :
        (name : Text) (r : Resolved) (s : Visits)
        → IsWell s
        → Ensures
            (λ after. IsWell after × Grown s after × HasRequired r after.visited)
            (visit_required registry providers recorded visit_one name r s)
    unfolding visit_required
    visit_required-Visited name r s well =
        let Required : Text → Visits → Type 0 = λ t after. contains t after.visited ≡ true in
        let Provided : Capability → Visits → Type 0 = λ c after. HasProvider c after.visited in
        Ensures-bind (λ mid. IsWell mid × Grown s mid × All (λ t. Required t mid) r.requires) _ _
          (visit_each (visit_capability registry providers recorded visit_one name)
            r.requires_capabilities)
          (visit_each-Grown IsWell Required _ (λ t s after g h. g.1 t h)
            (λ t s well. each t _ s well) r.requires s well)
          (λ mid first.
            Ensures-weaken
              (λ after.
                IsWell after
                × Grown mid after
                × All (λ c. Provided c after) r.requires_capabilities)
              _ _
              (λ after second. (
                second.0,
                Grown-trans s mid after first.1 second.1,
                (All-map r.requires (λ t h. second.1.1 t h) first.2, second.2),
              ))
              (visit_each-Grown IsWell Provided _ HasProvider-of (visit_capability-Visited name)
                r.requires_capabilities mid first.0))
