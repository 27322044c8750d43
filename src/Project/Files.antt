-- ===== src/Project/Files.antt =====
-- lockfile.ts: the lock of a project computed from its files, the hashes of templates that it keeps, and
-- the drift of the files from it.
use podokit.Base.{
  refl, arith, ◌≡◌, Bool, true, false, not, ◌||◌, Option, none, some, List, [], ◌∷◌, ◌++◌,
  if◌then◌else◌, keep_if, Text, same, nat_eq, text_eq,
}
use podokit.Map
use podokit.Texts.Sets.{contains, sort}
use podokit.Project.Lock.{
  keys, Bytes, Codec, Disk, Files, FileEntry, is_owned, classify_tier, is_local_env_file,
  walk_files,
}

module _ (codec : Codec) where
  abbrev pub entry_of : List Text → List Text → Text → Bytes → FileEntry
  entry_of owned_globs managed_overrides path content = record {
    tier = classify_tier path (codec.decode content) owned_globs managed_overrides;
    out_hash = codec.hash content;
    template_hash = none;
  }

  unfoldable pub entries_of : List Text → List Text → Disk → List Text → Files
  entries_of owned_globs managed_overrides disk [] = []
  entries_of owned_globs managed_overrides disk (path ∷ paths) =
      let rest = entries_of owned_globs managed_overrides disk paths in
      elim (Map.get path disk) [
        | none ↦ rest
        | some content ↦ (path, entry_of owned_globs managed_overrides path content) ∷ rest
      ]

  unfoldable pub compute_files_lock : List Text → List Text → Disk → Files
  compute_files_lock owned_globs managed_overrides disk =
      entries_of owned_globs managed_overrides disk (sort (walk_files disk))

  -- `computeDrift`: the files that were edited, and those that are missing.
  unfoldable pub drift : Disk → Files → List Text × List Text
  drift disk [] = ([], [])
  drift disk ((path, entry) ∷ files) =
      let (drifted, missing) = drift disk files in
      if is_owned entry.tier then (drifted, missing) else elim (Map.get path disk) [
        | none ↦ (drifted, path ∷ missing)
        | some content ↦
            if same (codec.hash content) entry.out_hash
            then (drifted, missing)
            else (path ∷ drifted, missing)
      ]

  unfoldable pub compute_drift : Disk → Option Files → List Text × List Text
  compute_drift disk none = ([], [])
  compute_drift disk (some files) =
      let (drifted, missing) = drift disk files in (sort drifted, sort missing)

-- What was generated for a path, as far as its entry tells.
unfoldable pub recorded_template_hash : Option FileEntry → Option Text
recorded_template_hash none = none
recorded_template_hash (some entry) =
    if is_owned entry.tier then entry.template_hash else some entry.out_hash

abbrev pub is_some {ℓ} : {A : Type ℓ} → Option A → Bool
is_some none = false
is_some (some a) = true

-- `??` on two values that may be missing.
abbrev pub or_else {ℓ} : {A : Type ℓ} → Option A → Option A → Option A
or_else none other = other
or_else (some a) other = some a

abbrev pub kept_entry : Files → List Text → Text → FileEntry → FileEntry
kept_entry previous skip path entry =
    if not (is_owned entry.tier) || is_some entry.template_hash || contains path skip
    then entry
    else record entry { template_hash = recorded_template_hash (Map.get path previous) }

unfoldable pub keep_hashes : Files → List Text → Files → Files
unfolding contains
keep_hashes previous skip [] = []
keep_hashes previous skip ((path, entry) ∷ files) =
    (path, kept_entry previous skip path entry) ∷ keep_hashes previous skip files

unfoldable pub keep_template_hashes : Files → Option Files → List Text → Files
keep_template_hashes next none changed = next
keep_template_hashes next (some previous) changed = keep_hashes previous changed next

-- The entries that `readFilesLock` gives.
unfoldable pub read_files_lock : Option Files → Option Files
unfolding keep_if
read_files_lock none = none
read_files_lock (some files) = some (keep_if (λ entry. not (is_local_env_file entry.0)) files)

-- `initLockfile`: every file comes from the template.
unfoldable pub stamp_templates : Files → Files
stamp_templates [] = []
stamp_templates ((path, entry) ∷ files) =
    let stamped : FileEntry =
      if is_owned entry.tier then record entry { template_hash = some entry.out_hash } else entry in
    (path, stamped) ∷ stamp_templates files

-- The loop of `mergeOwnedGlobs`, where `seen` is `existing` with what was pushed.
unfoldable pub merge_owned_globs : List Text → List Text → List Text
merge_owned_globs existing [] = existing
merge_owned_globs existing (glob ∷ more) =
    merge_owned_globs (if contains glob existing then existing else existing ++ glob ∷ []) more

pub contains-keys {ℓ} :
    {V : Type ℓ} (path : Text) (m : List (Text × V)) → contains path (keys m) ≡ Map.has path m
unfolding contains Map.has
contains-keys path [] = refl
contains-keys path ((j, v) ∷ m) = ground (arith, contains-keys path m)
