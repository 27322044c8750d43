-- ===== src/Project/RecordTests.antt =====
-- A module is recorded in front of another; one file of the project was edited before.
use mathlib.Core.Path.{subst}
use podokit.Base.{
  sym, ◌∙◌, ℕ, ◌≡◌, refl, false, ◌||◌, none, some, List, [], ◌∷◌, codes, Text, same, nat_eq,
  text_eq,
}
use podokit.Map
use podokit.Texts.Sets.{sort, contains, IsDistinct}
use podokit.Project.Lock.{
  walk_files, classify_tier, is_owned, Codec, Disk, Files, FileEntry, managed,
}
use podokit.Project.Files.{entries_of, compute_files_lock}
use podokit.Project.Modules.{ManifestModule, truthy, sort_by_order, insert_by_order}
use podokit.Project.Recording.{
  ModuleInput, Manifest, recorded_manifest, recorded_lock, clean_paths, numbered, insert_at_name,
}
use podokit.Project.Recorded.{IsNumbered, input_names}
use podokit.Project.Placed.{ArePlaced, names_in, recorded_manifest-IsRecorded}
use podokit.Project.Baselines.{recorded_lock-IsKept}

abbrev recorded_module : Text → ℕ → ManifestModule
recorded_module name order = record {
  name = name;
  order = order;
  added_with = codes "1.0.0";
  package_name = none;
  module_version = none;
  applied_migrations = none;
  applied_api_paths = none;
}

abbrev app : Manifest
app = record {
  modules = recorded_module (codes "auth") 0 ∷ recorded_module (codes "admin") 1 ∷ [];
  owned_globs = [];
  managed_overrides = none;
}

abbrev redis : ModuleInput
redis = record {
  name = codes "redis";
  package_name = none;
  module_version = none;
  applied_migrations = none;
  applied_api_paths = none;
}

abbrev with_redis : Manifest
with_redis = recorded_manifest (codes "1.1.0") (redis ∷ []) [] [] (some (codes "admin")) app

redis_before_admin : names_in with_redis ≡ codes "auth" ∷ codes "redis" ∷ codes "admin" ∷ []
unfolding recorded_manifest same numbered insert_at_name sort_by_order insert_by_order
redis_before_admin = refl

recorded_manifest-IsRecorded_example :
    IsNumbered 0 with_redis.modules
    × IsDistinct (names_in with_redis)
    × ((t : Text)
        → contains t (names_in with_redis)
          ≡ (contains t (names_in app) || contains t (input_names (redis ∷ []))))
    × ((fresh : List Text) × ArePlaced
          (truthy (some (codes "admin")))
          (names_in app)
          fresh
          (names_in with_redis))
unfolding contains same
recorded_manifest-IsRecorded_example =
    recorded_manifest-IsRecorded (codes "1.1.0") (redis ∷ []) [] [] (some (codes "admin")) app
      (refl, (refl, tt)) (refl, (refl, tt))

abbrev identity : Codec
identity = record { hash = λ bytes. bytes; encode = λ text. text; decode = λ bytes. bytes }

abbrev generated : FileEntry
generated = record { tier = managed; out_hash = codes "old"; template_hash = none }

abbrev lock_before : Files
lock_before = (codes "a.ts", generated) ∷ []

abbrev edited_disk : Disk
edited_disk = (codes "a.ts", codes "mine") ∷ []

abbrev edited_now : FileEntry
edited_now = record { tier = managed; out_hash = codes "mine"; template_hash = none }

now : Map.get (codes "a.ts") (compute_files_lock identity [] [] edited_disk) ≡ some edited_now
unfolding compute_files_lock Map.get entries_of sort walk_files classify_tier
now = refl

recorded_lock-IsKept_example :
    Map.get (codes "a.ts") (
      recorded_lock identity edited_disk
        (some (record {
          previous = lock_before;
          clean_paths = clean_paths identity edited_disk lock_before;
          module_paths = codes "a.ts" ∷ [];
          adopted_paths = [];
        }))
        app)
    ≡ some generated
unfolding contains same Map.get Map.has
recorded_lock-IsKept_example =
    recorded_lock-IsKept identity edited_disk edited_disk lock_before (codes "a.ts" ∷ []) [] app
      (codes "a.ts") generated (refl, tt) refl refl refl
      (λ current e.
        let joined : some edited_now ≡ some current = sym now ∙ e in
        let current_is : edited_now ≡ current = cc in
        subst (λ (c : FileEntry). is_owned c.tier ≡ false) current_is refl)
