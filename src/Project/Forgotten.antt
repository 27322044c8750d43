-- ===== src/Project/Forgotten.antt =====
-- remove.ts and update.ts: an edited file that removing a module kept.
use podokit.Project.Loop.{effect}
use podokit.Project.Guarantees.{apply_update-effect}
use podokit.Project.Safety.{contains-target_paths, no_migrations}
use podokit.Project.Settled.{no_options}
use podokit.Project.Baselines.{get-keep_hashes}
use podokit.Project.Apply.{apply_update, Applied}
use podokit.Project.Changes.{Planned, remove, change, tree_text, Tree, Target}
use podokit.Project.Recording.{list_or, Manifest}
use podokit.Project.Removing.{removed_lock}
use podokit.Project.Plan.{plan_file, plan_path, plan_managed, tier_of, plan_at}
use mathlib.Core.Path.{subst}
use podokit.Base.{
  if◌then◌else◌, ◌||◌, Bool, refl, ap, ok, codes, ◌++◌, none, Option, sym, false, ◌≡◌, ◌∙◌, inl,
  inr, true, some, List, [], ◌∷◌, arith, Bool-cases, Option-cases, Text, same, same_iff, same_refl,
  nat_eq, text_eq,
}
use podokit.Map
use podokit.Texts.Sets.{contains, contains-sort, sort}
use podokit.Project.Lock.{
  matches_any, FileEntry, managed, classify_tier, Files, keys, is_walked, walk_files, Bytes, Codec,
  Disk,
}
use podokit.Project.Files.{
  keep_template_hashes, compute_files_lock, entries_of, entry_of, contains-keys,
}
use podokit.Project.Entries.{contains-keep_if}

get-entries_of-first :
    (codec : Codec) (owned_globs overrides : List Text) (disk : Disk) (path : Text)
    (content : Bytes) (paths : List Text)
    → Map.get path disk ≡ some content
    → Map.get path (entries_of codec owned_globs overrides disk (path ∷ paths))
      ≡ some (entry_of codec owned_globs overrides path content)
unfolding entries_of Map.get
get-entries_of-first codec owned_globs overrides disk path content paths h =
    ground (arith, h, same_refl path)

get-entries_of-later :
    (codec : Codec) (owned_globs overrides : List Text) (disk : Disk) (path q : Text)
    (paths : List Text)
    → same q path ≡ false
    → Map.get path (entries_of codec owned_globs overrides disk (q ∷ paths))
      ≡ Map.get path (entries_of codec owned_globs overrides disk paths)
unfolding entries_of Map.get
get-entries_of-later codec owned_globs overrides disk path q paths other =
    elim (Option-cases (Map.get q disk)) [
      | inl absent ↦ ground (arith, absent)
      | inr (content, there) ↦ ground (arith, there, other)
    ]

get-entries_of :
    (codec : Codec) (owned_globs overrides : List Text) (disk : Disk) (path : Text)
    (content : Bytes) (paths : List Text)
    → Map.get path disk ≡ some content
    → contains path paths ≡ true
    → Map.get path (entries_of codec owned_globs overrides disk paths)
      ≡ some (entry_of codec owned_globs overrides path content)
unfolding contains
get-entries_of codec owned_globs overrides disk path content [] h c = absurd (ground arith)
get-entries_of codec owned_globs overrides disk path content (q ∷ paths) h c =
    elim (Bool-cases (same q path)) [
      | inl e ↦
          subst
            (λ p.
              Map.get path (entries_of codec owned_globs overrides disk (p ∷ paths))
              ≡ some (entry_of codec owned_globs overrides path content))
            (sym ((same_iff q path).0 e))
            (get-entries_of-first codec owned_globs overrides disk path content paths h)
      | inr e ↦
          get-entries_of-later codec owned_globs overrides disk path q paths e
          ∙ get-entries_of codec owned_globs overrides disk path content paths h (rw e at c)
    ]

get-compute_files_lock :
    (codec : Codec) (owned_globs overrides : List Text) (disk : Disk) (path : Text)
    (content : Bytes)
    → Map.get path disk ≡ some content
    → is_walked path ≡ true
    → Map.get path (compute_files_lock codec owned_globs overrides disk)
      ≡ some (entry_of codec owned_globs overrides path content)
unfolding compute_files_lock walk_files
get-compute_files_lock codec owned_globs overrides disk path content h walked =
    get-entries_of codec owned_globs overrides disk path content (sort (walk_files disk)) h (
      contains-sort path (walk_files disk)
      ∙ contains-keep_if is_walked path (keys disk)
      ∙ ground (arith, walked, contains-keys path disk, Map.has_of_get path content disk h))

-- The lock that a removal leaves has an edited file as it is now.
get-removed_lock :
    (codec : Codec) (disk : Disk) (lock : Option Files) (unwired : List Text) (manifest : Manifest)
    (path : Text) (content : Bytes)
    → Map.get path disk ≡ some content
    → is_walked path ≡ true
    → classify_tier path
        (codec.decode content)
        manifest.owned_globs
        (list_or manifest.managed_overrides)
      ≡ managed
    → Map.get path (removed_lock codec disk lock unwired manifest)
      ≡ some (record { tier = managed; out_hash = codec.hash content; template_hash = none })
unfolding removed_lock keep_template_hashes
get-removed_lock codec disk none unwired manifest path content h walked tier =
    get-compute_files_lock codec manifest.owned_globs (list_or manifest.managed_overrides) disk path
      content h walked
    ∙ rw tier refl
get-removed_lock codec disk (some previous) unwired manifest path content h walked tier =
    get-keep_hashes previous (unwired ++ (codes ".env.example" ∷ []))
      (compute_files_lock codec manifest.owned_globs (list_or manifest.managed_overrides) disk) path
      _
      (get-compute_files_lock codec manifest.owned_globs (list_or manifest.managed_overrides) disk
        path content h walked)
    ∙ rw tier refl

tier_of-managed :
    (codec : Codec) (target : Target) (path : Text) (locked : FileEntry) (content : Bytes)
    → locked.tier ≡ managed
    → classify_tier path (codec.decode content) target.owned_globs target.managed_overrides
      ≡ managed
    → tier_of codec no_options target path (some locked) none (some content) ≡ managed
unfolding tier_of
tier_of-managed codec target path locked content locked_tier tier =
    elim (Bool-cases
      (matches_any target.managed_overrides path || matches_any target.owned_globs path)) [
        | inl e ↦ rw e tier
        | inr e ↦ rw e locked_tier
      ]

plan_at-removed :
    (codec : Codec) (target : Target) (path : Text) (content : Bytes)
    → Map.get path target.lock
      ≡ some (record { tier = managed; out_hash = codec.hash content; template_hash = none })
    → classify_tier path (codec.decode content) target.owned_globs target.managed_overrides
      ≡ managed
    → tree_text codec target.tree path ≡ none
    → (plan_at codec no_options target path (some content)).changed
      ≡ some (change path managed remove (codes "removed upstream"))
unfolding plan_at plan_managed
plan_at-removed codec target path content locked tier gone =
    let entry : FileEntry = record {
      tier = managed;
      out_hash = codec.hash content;
      template_hash = none;
    } in
    rw
      (
        locked,
        gone,
        tier_of-managed codec target path entry content refl tier,
        same_refl (codec.hash content),
      )
      refl

plan_path-at :
    (codec : Codec) (target : Target) (disk : Disk) (path : Text)
    → plan_path codec no_options target [] disk path
      ≡ plan_at codec no_options target path (Map.get path disk)
unfolding plan_path plan_file
plan_path-at codec target disk path = refl

effect-removed :
    (codec : Codec) (tree : Tree) (old : Option Tree) (planned_at : Planned) (path : Text)
    (listed : Bool) (content : Option Bytes)
    → listed ≡ true
    → planned_at.changed ≡ some (change path managed remove (codes "removed upstream"))
    → (if listed then effect codec tree old planned_at.changed content else content) ≡ none
effect-removed codec tree old planned_at path listed content there planned_remove =
    rw (there, planned_remove) refl

-- Whatever content a managed file of a removed module has when the lock of the removal is written, so also
-- one that was edited and kept for that: if no template generates the file, then the next update, with no
-- options, no migrations and the previous templates at hand, runs to its end and deletes it.
pub kept_edited-lost :
    (codec : Codec) (disk : Disk) (lock : Option Files) (unwired : List Text) (manifest : Manifest)
    (tree old : Tree) (path : Text) (content : Bytes)
    → Map.get path disk ≡ some content
    → is_walked path ≡ true
    → classify_tier path
        (codec.decode content)
        manifest.owned_globs
        (list_or manifest.managed_overrides)
      ≡ managed
    → tree_text codec tree path ≡ none
    → let target : Target = record {
      tree = tree;
      lock = removed_lock codec disk lock unwired manifest;
      owned_globs = manifest.owned_globs;
      managed_overrides = list_or manifest.managed_overrides;
    } in
      (a : Applied) × (apply_update codec no_options false false target no_migrations (ok old) disk
        ≡ ok a)
      × (Map.get path a.disk ≡ none)
kept_edited-lost codec disk lock unwired manifest tree old path content h walked tier gone =
    let target : Target = record {
      tree = tree;
      lock = removed_lock codec disk lock unwired manifest;
      owned_globs = manifest.owned_globs;
      managed_overrides = list_or manifest.managed_overrides;
    } in
    let locked = get-removed_lock codec disk lock unwired manifest path content h walked tier in
    let (a, old_tree, runs, found, becomes) =
      apply_update-effect codec no_options target disk old in
    (
      a,
      runs,
      becomes path
          ∙ effect-removed codec tree old_tree (plan_path codec no_options target [] disk path) path
              _ _
              (contains-target_paths target path
                ∙ ground (arith, Map.has_of_get path _ target.lock locked))
              (ap (λ (p : Planned). p.changed) (plan_path-at codec target disk path)
                ∙ rw h (plan_at-removed codec target path content locked tier gone)),
    )
