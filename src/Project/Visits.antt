-- ===== src/Project/Visits.antt =====
-- update.ts, `targetModules`: the recorded modules and those they require by now, each after what it
-- requires. A visit is recursion on fuel.
use podokit.Base.{
  ℕ, zero, suc, Option, none, some, List, [], ◌∷◌, ◌++◌, if◌then◌else◌, length, Result, ok, err,
  ◌>>=◌, Text, nat_eq, text_eq,
}
use podokit.Map
use podokit.Texts.Sets.{contains, without}
use podokit.Providers.{Capability, Selections}
use podokit.Project.Modules.{
  ManifestModule, Resolved, Registry, GraphError, cycle, unknown_module, unresolved, out_of_fuel,
  Visits, Cause, by_name, sort_by_order, package_or, downgrade_of, added_of, entry_at,
  recorded_or_fresh, selected_provider_module,
}

-- `for (const required of requirements) visit(…)`
unfoldable pub visit_each {ℓ} :
    {A : Type ℓ}
    → (A → Visits → Result GraphError Visits)
    → List A
    → Visits
    → Result GraphError Visits
visit_each visit_one [] s = ok s
visit_each visit_one (a ∷ requirements) s = visit_one a s >>= visit_each visit_one requirements

module _ (registry : Registry) (providers : Selections)
    (recorded : List (Text × ManifestModule)) where
  abbrev pub resolved_as : Text → Option Resolved
  resolved_as name = registry.resolve (package_or (Map.get name recorded) name)

  -- What is thrown for a module that does not resolve.
  abbrev pub unresolved_error : Option ManifestModule → Text → GraphError
  unresolved_error none name = unknown_module name
  unresolved_error (some existing) name = unresolved existing

  -- What a visit does before the modules that are required, and after them.
  abbrev pub enter : Text → Resolved → Visits → Visits
  enter name r s = record s {
    downgrades = s.downgrades ++ downgrade_of registry providers (Map.get name recorded) r;
    visiting = name ∷ s.visiting;
  }

  abbrev pub leave : Text → Cause → Resolved → Visits → Visits
  leave name cause r s =
      let existing = Map.get name recorded in
      record {
        visiting = without name s.visiting;
        visited = s.visited ++ (name ∷ []);
        added = s.added ++ added_of registry providers existing r cause;
        downgrades = s.downgrades;
        ordered =
            s.ordered
            ++ (entry_at (recorded_or_fresh registry providers existing r) r (length s.ordered)
                ∷ []);
      }

  abbrev pub by_requirement : Text → Cause
  by_requirement name = record { required_by = some name; capability = none }

  abbrev pub by_capability : Text → Capability → Cause
  by_capability name c = record { required_by = some name; capability = some c }

  abbrev pub visit_capability :
      (Text → Cause → Visits → Result GraphError Visits)
      → Text
      → Capability
      → Visits
      → Result GraphError Visits
  visit_capability visit_one name c s =
      selected_provider_module registry providers c >>= λ provider.
      visit_one provider (by_capability name c) s

  -- The visits of what a module requires, by a function that visits one module.
  unfoldable pub visit_required :
      (Text → Cause → Visits → Result GraphError Visits)
      → Text
      → Resolved
      → Visits
      → Result GraphError Visits
  visit_required visit_one name r s =
      visit_each (λ required. visit_one required (by_requirement name)) r.requires s
      >>= visit_each (visit_capability visit_one name) r.requires_capabilities

  unfoldable pub visit : ℕ → Text → Cause → Visits → Result GraphError Visits
  unfolding visit_required
  visit zero name cause s = err out_of_fuel
  visit (suc fuel) name cause s =
      let existing = Map.get name recorded in
      if contains name s.visited
      then ok s
      else if contains name s.visiting
      then err (cycle name)
      else elim (resolved_as name) [
        | none ↦ err (unresolved_error existing name)
        | some r ↦
            visit_required (visit fuel) name r (enter name r s) >>= λ s. ok (leave name cause r s)
      ]

abbrev pub unvisited : Visits
unvisited = record { visiting = []; visited = []; ordered = []; added = []; downgrades = [] }

abbrev pub asked : Cause
asked = record { required_by = none; capability = none }

unfoldable pub target_modules :
    Registry → Selections → ℕ → List ManifestModule → Result GraphError Visits
unfolding by_name sort_by_order visit_each visit
target_modules registry providers fuel modules =
    visit_each
      (λ (m : ManifestModule). visit registry providers (by_name modules []) fuel m.name asked)
      (sort_by_order modules) unvisited
