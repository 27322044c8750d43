-- ===== src/Project/Modules.antt =====
-- update.ts, what `targetModules` keeps of a module, and add.ts, `selectedProviderModule`. `resolve` is what
-- `resolveModule` and `readModuleManifest` read of the installed modules, and `available` is what
-- `listModules` finds.
use podokit.Base.{
  ℕ, Bool, true, false, Option, none, some, List, [], ◌∷◌, ltb, if◌then◌else◌, Result, ok, err,
  Text, same, nat_eq, text_eq,
}
use podokit.Map
use podokit.Providers.{Capability, Selections, selected}
use podokit.Project.Versions.{Comparison, compare_versions, older}

pub record ManifestModule : Type 0 where
  pub name : Text
  pub order : ℕ
  pub added_with : Text
  pub package_name : Option Text
  pub module_version : Option Text
  pub applied_migrations : Option (List Text)
  pub applied_api_paths : Option (List Text)

-- A module as it is resolved, with what its own manifest requires and provides.
pub record Resolved : Type 0 where
  pub name : Text
  pub package_name : Option Text
  pub module_version : Option Text
  pub requires : List Text
  pub requires_capabilities : List Capability
  pub provides : Capability → Option Text
  pub migrations : List Text

pub record Registry : Type 0 where
  pub resolve : Text → Option Resolved
  pub available : List Text
  pub podokit_version : Text
  pub locale_compare : Text → Text → Comparison

pub data GraphError : Type 0 where
  cycle : Text → GraphError
  unresolved : ManifestModule → GraphError
  unknown_module : Text → GraphError
  no_provider : Capability → GraphError
  out_of_fuel : GraphError

pub record ModuleDowngrade : Type 0 where
  pub name : Text
  pub package_name : Text
  pub recorded : Text
  pub installed : Text

pub record AddedModule : Type 0 where
  pub name : Text
  pub required_by : Text
  pub capability : Option (Capability × Text)

pub record Visits : Type 0 where
  pub visiting : List Text
  pub visited : List Text
  pub ordered : List ManifestModule
  pub added : List AddedModule
  pub downgrades : List ModuleDowngrade

-- What requires a module: another one, by its name or by a capability.
pub record Cause : Type 0 where
  pub required_by : Option Text
  pub capability : Option Capability

abbrev pub truthy : Option Text → Option Text
truthy none = none
truthy (some []) = none
truthy (some (c ∷ cs)) = some (c ∷ cs)

abbrev pub text_or : Option Text → Text → Text
text_or none t = t
text_or (some u) t = u

abbrev pub is_text : Option Text → Text → Bool
is_text none t = false
is_text (some u) t = same u t

-- `new Map(modules.map((module) => [module.name, module]))`
unfoldable pub by_name :
    List ManifestModule → List (Text × ManifestModule) → List (Text × ManifestModule)
by_name [] recorded = recorded
by_name (m ∷ modules) recorded = by_name modules (Map.put m.name m recorded)

-- The stable sort by `order`.
unfoldable pub insert_by_order : ManifestModule → List ManifestModule → List ManifestModule
insert_by_order m [] = m ∷ []
insert_by_order m (n ∷ modules) =
    let rest = insert_by_order m modules in
    if ltb n.order m.order then n ∷ rest else m ∷ (n ∷ modules)

unfoldable pub sort_by_order : List ManifestModule → List ManifestModule
sort_by_order [] = []
sort_by_order (m ∷ modules) = insert_by_order m (sort_by_order modules)

unfoldable pub package_or : Option ManifestModule → Text → Text
package_or none name = name
package_or (some existing) name = text_or existing.package_name name

abbrev pub entry_at : ManifestModule → Resolved → ℕ → ManifestModule
entry_at m r order = elim (truthy r.package_name) [
  | none ↦ record m { order = order }
  | some origin ↦ record m {
    order = order;
    package_name = some origin;
    module_version = r.module_version;
  }
]

abbrev is_older : Comparison → Bool
is_older older = true
is_older _ = false

module _ (registry : Registry) (providers : Selections) where
  abbrev pub provides_selected : Capability → Option Resolved → Bool
  provides_selected capability none = false
  provides_selected capability (some r) =
      is_text (r.provides capability) (selected providers capability)

  -- The first module available that provides what is selected.
  unfoldable pub first_provider : Capability → List Text → Result GraphError Text
  first_provider capability [] = err (no_provider capability)
  first_provider capability (name ∷ names) =
      let rest = first_provider capability names in
      if provides_selected capability (registry.resolve name) then ok name else rest

  unfoldable pub selected_provider_module : Capability → Result GraphError Text
  unfolding first_provider
  selected_provider_module capability = first_provider capability registry.available

  abbrev pub downgrade_between :
      Resolved → Option Text → Option Text → Option Text → List ModuleDowngrade
  downgrade_between r (some before) (some origin) (some version) =
      if is_older (compare_versions registry.locale_compare version before)
      then record { name = r.name; package_name = origin; recorded = before; installed = version }
        ∷ []
      else []
  downgrade_between r _ _ _ = []

  abbrev pub downgrade_of : Option ManifestModule → Resolved → List ModuleDowngrade
  downgrade_of none r = []
  downgrade_of (some existing) r =
      downgrade_between r (truthy existing.module_version) (truthy r.package_name)
        (truthy r.module_version)

  abbrev provider_of : Option Capability → Option (Capability × Text)
  provider_of none = none
  provider_of (some c) = some (c, selected providers c)

  abbrev pub added_of : Option ManifestModule → Resolved → Cause → List AddedModule
  added_of (some existing) r cause = []
  added_of none r cause = elim (truthy cause.required_by) [
    | none ↦ []
    | some by ↦
        record { name = r.name; required_by = by; capability = provider_of cause.capability } ∷ []
  ]

  abbrev fresh : Resolved → ManifestModule
  fresh r = record {
    name = r.name;
    order = 0;
    added_with = registry.podokit_version;
    package_name = none;
    module_version = none;
    applied_migrations = some r.migrations;
    applied_api_paths = none;
  }

  abbrev pub recorded_or_fresh : Option ManifestModule → Resolved → ManifestModule
  recorded_or_fresh none r = fresh r
  recorded_or_fresh (some existing) r = existing
