-- ===== src/Project/Recording.antt =====
-- lockfile.ts, `recordModules`: the modules of the manifest, and the lock after a module was added.
use podokit.Base.{
  false, ℕ, suc, ◌+◌, Bool, ◌||◌, Option, none, some, List, [], ◌∷◌, ◌++◌, if◌then◌else◌, length,
  any, Text, same, nat_eq, text_eq,
}
use podokit.Map
use podokit.Texts.Sets.{contains, unique}
use podokit.Project.Lock.{Bytes, Codec, Disk, Files, FileEntry, is_owned}
use podokit.Project.Files.{compute_files_lock, keep_template_hashes, merge_owned_globs, or_else}
use podokit.Project.Modules.{truthy, ManifestModule, sort_by_order}

pub record ModuleInput : Type 0 where
  pub name : Text
  pub package_name : Option Text
  pub module_version : Option Text
  pub applied_migrations : Option (List Text)
  pub applied_api_paths : Option (List Text)

-- What `recordModules` reads and writes of the project manifest.
pub record Manifest : Type 0 where
  pub modules : List ManifestModule
  pub owned_globs : List Text
  pub managed_overrides : Option (List Text)

pub record LockSnapshot : Type 0 where
  pub previous : Files
  pub clean_paths : List Text
  pub module_paths : List Text
  pub adopted_paths : List Text

abbrev pub list_or : Option (List Text) → List Text
list_or none = []
list_or (some xs) = xs

-- `list?.length ? list : undefined`
abbrev pub nonempty : List Text → Option (List Text)
nonempty [] = none
nonempty (x ∷ xs) = some (x ∷ xs)

-- A module that is recorded already.
abbrev pub again : ModuleInput → ManifestModule → ManifestModule
again input m = record m {
  package_name = or_else input.package_name m.package_name;
  module_version = or_else input.module_version m.module_version;
  applied_api_paths =
      or_else (nonempty (unique (list_or m.applied_api_paths ++ list_or input.applied_api_paths)))
        m.applied_api_paths;
}

abbrev pub named : Text → List ManifestModule → Bool
named name modules = any (λ (m : ManifestModule). same m.name name) modules

-- The first module of the name is changed in place.
unfoldable pub record_again : ModuleInput → List ManifestModule → List ManifestModule
record_again input [] = []
record_again input (m ∷ modules) =
    let rest = record_again input modules in
    if same m.name input.name then again input m ∷ modules else m ∷ rest

abbrev pub new_module : Text → ℕ → ModuleInput → ManifestModule
new_module stamped_with order input = record {
  name = input.name;
  order = order;
  added_with = stamped_with;
  package_name = input.package_name;
  module_version = input.module_version;
  applied_migrations = input.applied_migrations;
  applied_api_paths = nonempty (list_or input.applied_api_paths);
}

-- `manifest.modules` and `fresh`.
abbrev pub Modules : Type 0
Modules = List ManifestModule × List ManifestModule

unfoldable pub record_input : Text → ModuleInput → Modules → Modules
unfolding record_again
record_input stamped_with input (modules, fresh) =
    let order = length modules + length fresh in
    if named input.name modules
    then (record_again input modules, fresh)
    else if named input.name fresh
    then (modules, record_again input fresh)
    else (modules, fresh ++ (new_module stamped_with order input ∷ []))

unfoldable pub record_inputs : Text → List ModuleInput → Modules → Modules
unfolding record_input
record_inputs stamped_with [] modules = modules
record_inputs stamped_with (input ∷ inputs) modules =
    record_inputs stamped_with inputs (record_input stamped_with input modules)

unfoldable pub numbered : ℕ → List ManifestModule → List ManifestModule
numbered order [] = []
numbered order (m ∷ modules) = record m { order = order } ∷ numbered (suc order) modules

-- `ordered.splice(position, 0, ...fresh)`, at the first module of the name.
unfoldable pub insert_at_name :
    Text → List ManifestModule → List ManifestModule → List ManifestModule
insert_at_name before fresh [] = []
insert_at_name before fresh (m ∷ modules) =
    let rest = insert_at_name before fresh modules in
    if same m.name before then fresh ++ (m ∷ modules) else m ∷ rest

unfoldable pub place : Option Text → List ManifestModule → List ManifestModule → List ManifestModule
place none modules fresh = modules ++ fresh
place (some before) modules fresh =
    if named before modules
    then numbered 0 (insert_at_name before fresh (sort_by_order modules))
    else modules ++ fresh

-- `if (globs?.length) … = mergeOwnedGlobs(…)`
abbrev pub with_globs : List Text → List Text → List Text
with_globs existing globs = merge_owned_globs existing globs

abbrev pub with_overrides : Option (List Text) → List Text → Option (List Text)
with_overrides existing [] = existing
with_overrides existing (glob ∷ globs) = some (merge_owned_globs (list_or existing) (glob ∷ globs))

unfoldable pub recorded_manifest :
    Text → List ModuleInput → List Text → List Text → Option Text → Manifest → Manifest
unfolding record_inputs place
recorded_manifest stamped_with inputs owned_globs managed_overrides insert_before manifest =
    let modules = record_inputs stamped_with inputs (manifest.modules, []) in
    record {
      modules = place (truthy insert_before) modules.0 modules.1;
      owned_globs = with_globs manifest.owned_globs owned_globs;
      managed_overrides = with_overrides manifest.managed_overrides managed_overrides;
    }

-- The entry of a path that was in the lock, given the one that its file has now.
abbrev pub kept_or : LockSnapshot → Text → FileEntry → Option FileEntry → FileEntry
kept_or snapshot path previous none = previous
kept_or snapshot path previous (some current) =
    if is_owned current.tier
      || contains path snapshot.adopted_paths
      || contains path snapshot.clean_paths
    then current
    else previous

unfoldable pub kept_entries : LockSnapshot → Files → Files → Files
kept_entries snapshot computed [] = []
kept_entries snapshot computed ((path, previous) ∷ files) =
    (path, kept_or snapshot path previous (Map.get path computed))
    ∷ kept_entries snapshot computed files

abbrev pub add_entry : Text → Option FileEntry → Files → Files
add_entry path none files = files
add_entry path (some current) files =
    if Map.has path files then files else Map.put path current files

unfoldable pub add_entries : Files → List Text → Files → Files
add_entries computed [] files = files
add_entries computed (path ∷ paths) files =
    add_entries computed paths (add_entry path (Map.get path computed) files)

unfoldable pub snapshot_lock : Files → LockSnapshot → Files
unfolding kept_entries add_entries
snapshot_lock computed snapshot =
    keep_template_hashes
      (add_entries computed snapshot.module_paths
        (kept_entries snapshot computed snapshot.previous))
      (some snapshot.previous) snapshot.module_paths

unfoldable pub recorded_lock : Codec → Disk → Option LockSnapshot → Manifest → Files
unfolding snapshot_lock
recorded_lock codec disk none manifest =
    compute_files_lock codec manifest.owned_globs (list_or manifest.managed_overrides) disk
recorded_lock codec disk (some snapshot) manifest =
    snapshot_lock
      (compute_files_lock codec manifest.owned_globs (list_or manifest.managed_overrides) disk)
      snapshot

abbrev pub is_clean_at : Codec → Option Bytes → FileEntry → Bool
is_clean_at codec none entry = false
is_clean_at codec (some content) entry = same (codec.hash content) entry.out_hash

-- `addModule`: the paths of the lock whose files are as they were generated.
unfoldable pub clean_paths : Codec → Disk → Files → List Text
clean_paths codec disk [] = []
clean_paths codec disk ((path, entry) ∷ files) =
    let rest = clean_paths codec disk files in
    if is_clean_at codec (Map.get path disk) entry then path ∷ rest else rest
