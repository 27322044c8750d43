-- ===== src/Project/ModuleTests.antt =====
-- The modules of a project whose one module requires another by now, and a provider of jobs.
use podokit.Project.Requirements.{target_modules-IsWell, target_modules-ends}
use podokit.Project.Ordered.{IsWell}
use mathlib.Core.Path.{subst}
use podokit.Base.{
  keep_if, ◌≡◌, refl, ◌≢◌, true, Option, none, some, List, [], ◌∷◌, map, arith, codes, keep_if, All,
  Result, ok, err, Text, same, nat_eq, text_eq,
}
use podokit.Map
use podokit.Texts.Sets.{contains}
use podokit.Project.Ending.{IsKnown}
use podokit.Providers.{Capability, jobs, Selections}
use podokit.Project.Versions.{equal}
use podokit.Project.Modules.{
  insert_by_order, package_or, selected_provider_module, GraphError, ManifestModule, Resolved,
  Registry, by_name, cycle, out_of_fuel, Visits,
}
use podokit.Project.Visits.{unvisited, target_modules}
use podokit.Project.Ending.{AreKnown}

abbrev local_jobs : Capability → Option Text
local_jobs jobs = some (codes "local")
local_jobs _ = none

abbrev installed : Text → List Text → List Capability → (Capability → Option Text) → Resolved
installed name requires capabilities provides = record {
  name = name;
  package_name = none;
  module_version = none;
  requires = requires;
  requires_capabilities = capabilities;
  provides = provides;
  migrations = [];
}

abbrev installed_modules : List (Text × Resolved)
installed_modules =
    (codes "admin", installed (codes "admin") (codes "auth" ∷ []) (jobs ∷ []) (λ c. none))
    ∷ (codes "auth", installed (codes "auth") [] [] (λ c. none))
    ∷ (codes "queue", installed (codes "queue") [] [] local_jobs)
    ∷ []

abbrev installed_registry : Registry
installed_registry = record {
  resolve = λ name. Map.get name installed_modules;
  available = codes "admin" ∷ codes "auth" ∷ codes "queue" ∷ [];
  podokit_version = codes "1.0.0";
  locale_compare = λ a b. equal;
}

abbrev chosen : Selections
chosen = record {
  of_database = codes "sqlite";
  of_cache = codes "memory";
  of_object_storage = codes "local";
  of_events = codes "memory";
  of_jobs = codes "local";
}

abbrev admin : ManifestModule
admin = record {
  name = codes "admin";
  order = 0;
  added_with = codes "0.9.0";
  package_name = none;
  module_version = none;
  applied_migrations = none;
  applied_api_paths = none;
}

abbrev result_or : Result GraphError Visits → Visits
result_or (ok s) = s
result_or (err e) = unvisited

abbrev found_modules : Visits
found_modules = result_or (target_modules installed_registry chosen 4 (admin ∷ []))

found : target_modules installed_registry chosen 4 (admin ∷ []) ≡ ok found_modules
unfolding target_modules insert_by_order contains Map.get same package_or Map.put
    selected_provider_module keep_if
found = refl

required_first :
    map (λ (m : ManifestModule). m.name) found_modules.ordered
    ≡ codes "auth" ∷ codes "queue" ∷ codes "admin" ∷ []
unfolding target_modules insert_by_order contains Map.get same package_or Map.put
    selected_provider_module keep_if
required_first = refl

abbrev in_cycle : Registry
in_cycle = record installed_registry {
  resolve = λ name. some (installed name (codes "admin" ∷ []) [] (λ c. none));
}

cycle_found : target_modules in_cycle chosen 4 (admin ∷ []) ≡ err (cycle (codes "admin"))
unfolding target_modules insert_by_order contains same
cycle_found = refl

target_modules-IsWell_example :
    IsWell installed_registry chosen (by_name (admin ∷ []) []) found_modules
    × All (λ (m : ManifestModule). contains m.name found_modules.visited ≡ true) (admin ∷ [])
target_modules-IsWell_example =
    target_modules-IsWell installed_registry chosen 4 (admin ∷ []) found_modules found

in_cycle-AreKnown : AreKnown in_cycle installed_registry.available
unfolding contains same
in_cycle-AreKnown = (
  (refl, (refl, (refl, tt))),
  λ name r e.
      let required : List Text = codes "admin" ∷ [] in
      let resolved : installed name required [] (λ c. none) ≡ r = cc in
      subst (λ (r : Resolved). All (IsKnown installed_registry.available) r.requires) resolved
        (refl, tt),
)

target_modules-ends_example : target_modules in_cycle chosen 4 (admin ∷ []) ≢ err out_of_fuel
unfolding contains same
target_modules-ends_example =
    target_modules-ends in_cycle chosen in_cycle.available 4 (admin ∷ []) in_cycle-AreKnown
      (refl, tt) (omega arith)
