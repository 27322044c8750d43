-- ===== src/Project/Plan.antt =====
-- update.ts: what `planUpdate` decides for each path, given the tree that the installed templates
-- generate and the path migrations.
use podokit.Base.{
  Bool, true, false, not, ◌||◌, Option, none, some, List, [], ◌++◌, map, if◌then◌else◌, codes,
  keep_if, Text, same, nat_eq, text_eq,
}
use podokit.Map
use podokit.Project.Lock.{
  Bytes, Codec, Disk, FileEntry, Tier, managed, owned, is_owned, classify_tier, matches_any,
}
use podokit.Project.Files.{recorded_template_hash, is_some}
use podokit.Project.Changes.{
  FileChange, PlannedPathMove, PlanOptions, Target, tree_text, change, Planned, nothing, planned,
  explicit_without, skip_note, Upstream, against_recorded, is_new_seed, baseline, is_hash, tier_or,
  is_moved, is_selected, plan_move, plan_conflict, target_paths, changes_of, review, update, merge,
  keep, add, remove, skip, up_to_date, unchanged, changed_template, unrecorded,
}

module _ (codec : Codec) where
  abbrev pub text_hash : Text → Text
  text_hash text = codec.hash (codec.encode text)

  unfoldable pub upstream : Option FileEntry → Option Text → Option Bytes → Upstream
  unfolding against_recorded
  upstream locked (some text) (some disk) =
      if same (codec.hash disk) (text_hash text)
      then unchanged
      else against_recorded (text_hash text) locked
  upstream locked _ _ = unchanged

  unfoldable pub plan_owned :
      List Text → Text → Option FileEntry → Option Text → Option Bytes → Planned
  unfolding upstream is_new_seed
  plan_owned owned_globs path locked new disk =
      if is_new_seed locked new disk
      then planned (change path owned add (codes "new owned seed in this version"))
      else let skipped : FileChange =
          change path owned skip (skip_note (explicit_without owned_globs path new disk)) in
        elim (upstream locked new disk) [
          | unchanged ↦ planned skipped
          | changed_template ↦ planned (
              change path owned review
                (codes "owned; the template changed, see podo diff " ++ path))
          | unrecorded ↦ record { changed = some skipped; without_template = true }
        ]

  abbrev pub is_edited : Option FileEntry → Bytes → Bool
  is_edited none disk = false
  is_edited (some entry) disk = not (same (codec.hash disk) entry.out_hash)

  unfoldable pub plan_managed :
      Text → Tier → Option FileEntry → Option Text → Option Bytes → Planned
  unfolding recorded_template_hash
  plan_managed path tier locked none none = nothing
  plan_managed path tier locked none (some disk) =
      if is_edited locked disk
      then planned (
          change path tier keep (
            codes
              "removed upstream but edited locally; kept, delete it when you no longer need it"))
      else planned (change path tier remove (codes "removed upstream"))
  plan_managed path tier locked (some text) none =
      planned (change path tier add (codes "new in this version"))
  plan_managed path tier locked (some text) (some disk) =
      if same (codec.hash disk) (text_hash text)
      then planned (change path tier up_to_date (codes "already current"))
      else if is_hash (codec.hash disk) (baseline locked)
      then planned (change path tier update (codes "clean update"))
      else if is_hash (text_hash text) (baseline locked)
      then planned (
          change path tier keep
            (codes "edited locally; the template did not change, so your version stays"))
      else planned (
          change path tier merge (
            if is_some locked
            then codes "edited locally and the template changed; --apply 3-way merges it"
            else codes "not in the lock; --apply 3-way merges it"))

  abbrev pub content_text : Option Text → Option Bytes → Text
  content_text (some text) disk = text
  content_text none (some disk) = codec.decode disk
  content_text none none = []

  unfoldable pub tier_of :
      PlanOptions → Target → Text → Option FileEntry → Option Text → Option Bytes → Tier
  tier_of options target path locked new disk =
      let classified =
        classify_tier path (content_text new disk) target.owned_globs target.managed_overrides in
      if matches_any options.force_managed_paths path
      then managed
      else if matches_any target.managed_overrides path || matches_any target.owned_globs path
      then classified
      else tier_or locked classified

  -- The change for a path at which the project has this content.
  unfoldable pub plan_at : PlanOptions → Target → Text → Option Bytes → Planned
  plan_at options target path content =
      let locked = Map.get path target.lock in
      let new = tree_text codec target.tree path in
      let tier = tier_of options target path locked new content in
      if is_owned tier
      then plan_owned target.owned_globs path locked new content
      else plan_managed path tier locked new content

  unfoldable pub plan_file : PlanOptions → Target → Disk → Text → Planned
  plan_file options target disk path = plan_at options target path (Map.get path disk)

  unfoldable pub plan_path : PlanOptions → Target → List PlannedPathMove → Disk → Text → Planned
  unfolding plan_file
  plan_path options target moves disk path =
      if is_moved moves path
      then nothing
      else if is_selected options.only_paths path
      then plan_file options target disk path
      else nothing

  unfoldable pub plan_files : PlanOptions → Target → List PlannedPathMove → Disk → List FileChange
  unfolding plan_path target_paths
  plan_files options target moves disk =
      changes_of (map (plan_path options target moves disk) (target_paths target))

  unfoldable pub plan_update :
      PlanOptions → Target → List PlannedPathMove → List Text → Disk → List FileChange
  plan_update options target moves conflicts disk =
      map plan_move moves ++ (map plan_conflict conflicts ++ plan_files options target moves disk)

  unfoldable pub owned_without_template :
      PlanOptions → Target → List PlannedPathMove → Disk → List Text
  unfolding plan_path target_paths keep_if
  owned_without_template options target moves disk =
      keep_if (λ path. (plan_path options target moves disk path).without_template)
        (target_paths target)
