-- ===== src/Project/Relock.antt =====
-- `updatedFilesLock` of update.ts: the lock that an update leaves.
use podokit.Base.{
  Bool, not, Option, none, some, List, [], ◌∷◌, if◌then◌else◌, Text, nat_eq, text_eq,
}
use podokit.Map
use podokit.Project.Lock.{
  Codec, Disk, Files, FileEntry, Tier, owned, is_owned, classify_tier, matches_any,
}
use podokit.Project.Files.{compute_files_lock}
use podokit.Project.Changes.{Tree, tree_text, is_selected}
use podokit.Project.Plan.{text_hash}

module _ (codec : Codec) where
  abbrev pub tier_before : List Text → Text → Option FileEntry → Tier → Tier
  tier_before overrides path none tier = tier
  tier_before overrides path (some before) tier =
      if matches_any overrides path then tier else before.tier

  abbrev pub with_baseline : Tier → Text → FileEntry → FileEntry
  with_baseline tier hash entry =
      if is_owned entry.tier then entry else record entry { tier = tier; out_hash = hash }

  abbrev pub with_template : Text → FileEntry → FileEntry
  with_template hash entry =
      if is_owned entry.tier then record entry { template_hash = some hash } else entry

  abbrev pub kept_baseline : Option FileEntry → FileEntry → Option FileEntry
  kept_baseline none entry = none
  kept_baseline (some before) entry =
      if is_owned before.tier
      then none
      else some (record entry { tier = before.tier; out_hash = before.out_hash })

  -- The entry of a file that was computed from the disk, or none where it leaves the lock.
  unfoldable pub refresh_entry :
      List Text
      → Option (List Text)
      → Text
      → Option FileEntry
      → Option Text
      → FileEntry
      → Option FileEntry
  refresh_entry overrides only path before new entry =
      if not (is_selected only path) then before else elim new [
        | none ↦ if is_owned entry.tier then some entry else kept_baseline before entry
        | some text ↦
            let tier = tier_before overrides path before entry.tier in
            some (
              with_template (text_hash codec text)
                (with_baseline tier (text_hash codec text) entry))
      ]

  unfoldable pub refresh_all : List Text → Option (List Text) → Tree → Files → Files → Files
  unfolding refresh_entry
  refresh_all overrides only tree previous [] = []
  refresh_all overrides only tree previous ((path, entry) ∷ files) =
      let rest = refresh_all overrides only tree previous files in
      elim (refresh_entry overrides only path (Map.get path previous) (tree_text codec tree path)
        entry) [ none ↦ rest | some next ↦ (path, next) ∷ rest ]

  abbrev pub tombstone : FileEntry → Text → FileEntry
  tombstone entry hash =
      if is_owned entry.tier
      then entry
      else record { tier = owned; out_hash = entry.out_hash; template_hash = some hash }

  abbrev pub needs_tombstone : List Text → List Text → Text → Text → Bool
  needs_tombstone owned_globs overrides path text =
      is_owned (classify_tier path text owned_globs overrides)

  -- An owned seed that is gone stays in the lock.
  unfoldable pub with_tombstone : List Text → List Text → Tree → Text → FileEntry → Files → Files
  with_tombstone owned_globs overrides tree path entry next =
      if Map.has path next then next else elim (tree_text codec tree path) [
        | none ↦ next
        | some text ↦
            if needs_tombstone owned_globs overrides path text
            then Map.put path (tombstone entry (text_hash codec text)) next
            else next
      ]

  unfoldable pub add_tombstones : List Text → List Text → Tree → Files → Files → Files
  add_tombstones owned_globs overrides tree [] next = next
  add_tombstones owned_globs overrides tree ((path, entry) ∷ previous) next =
      add_tombstones owned_globs overrides tree previous
        (with_tombstone owned_globs overrides tree path entry next)

  unfoldable pub updated_files_lock :
      Disk → Tree → Files → List Text → List Text → Option (List Text) → Files
  unfolding compute_files_lock refresh_all add_tombstones
  updated_files_lock disk tree previous owned_globs overrides only =
      add_tombstones owned_globs overrides tree previous (
        refresh_all overrides only tree previous
          (compute_files_lock codec owned_globs overrides disk))
