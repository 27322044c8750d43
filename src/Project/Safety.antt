-- ===== src/Project/Safety.antt =====
-- `applyUpdate` as a whole, where no module has a migration that is pending.
use podokit.Base.{
  ◌≡◌, refl, ◌∙◌, ◌≢◌, inl, inr, Bool, true, false, ◌||◌, Option, none, some, [], ◌++◌, map, arith,
  Bool-cases, Option-cases, Result, ok, returns_through, Text, nat_eq, text_eq,
}
use podokit.Map
use podokit.Texts.Sets.{
  contains, IsDistinct, contains-sort, contains-unique, contains-append, sort-IsDistinct, unique,
  unique-IsDistinct,
}
use podokit.Project.Files.{contains-keys}
use podokit.Project.Lock.{Bytes, Codec, Disk, is_owned, keys}
use podokit.Project.Changes.{
  Tree, Planned, tree_text, changes_of, PlanOptions, Target, target_paths, is_selected,
}
use podokit.Project.Plan.{plan_file, plan_at, plan_path, plan_files, plan_update, tier_of}
use podokit.Project.Moves.{MigrationPlan}
use podokit.Project.Moving.{
  apply_module_migrations, moved_disk, planned_contents, add_pending, move_files, write_rest,
}
use podokit.Project.Apply.{
  abort_check, merge_paths, previous_tree, finish_update, ApplyError, Applied, apply_changes,
  apply_update,
}
use podokit.Project.Loop.{effect}
use podokit.Project.Preserves.{IsKept, plan_owned-Keeps, plan_managed-Keeps}

abbrev pub no_migrations : MigrationPlan
no_migrations = record { pending = []; moves = []; conflicts = [] }

abbrev pub start : Disk → Applied
start disk = record {
  disk = disk;
  written = [];
  removed = [];
  merged = [];
  conflicts = [];
  kept = [];
}

pub contains-target_paths :
    (target : Target) (path : Text)
    → contains path (target_paths target) ≡ (Map.has path target.tree || Map.has path target.lock)
unfolding target_paths
contains-target_paths target path =
    contains-sort path (unique (keys target.tree ++ keys target.lock))
    ∙ contains-unique path (keys target.tree ++ keys target.lock)
    ∙ contains-append path (keys target.tree) (keys target.lock)
    ∙ rw (contains-keys path target.tree, contains-keys path target.lock) refl

pub target_paths-IsDistinct : (target : Target) → IsDistinct (target_paths target)
unfolding target_paths
target_paths-IsDistinct target =
    sort-IsDistinct (unique (keys target.tree ++ keys target.lock))
      (unique-IsDistinct (keys target.tree ++ keys target.lock))

module _ (codec : Codec) where
  -- A file that the new tree does not have is one that the lock has.
  pub locked_of_path :
      (target : Target) (path : Text)
      → contains path (target_paths target) ≡ true
      → tree_text codec target.tree path ≡ none
      → Map.get path target.lock ≢ none
  unfolding tree_text
  locked_of_path target path known gone missing = elim (Option-cases (Map.get path target.tree)) [
    | inl e ↦ ground (
      arith,
      known,
      contains-target_paths target path,
      Map.not_has_of_get path target.tree e,
      Map.not_has_of_get path target.lock missing,
    )
    | inr (content, e) ↦ ground (arith, gone, e)
  ]

  module _ (options : PlanOptions) (target : Target) (disk : Disk) where
    abbrev plan : Text → Planned
    plan = plan_path codec options target [] disk

    plan_at-Keeps :
        (old : Option Tree) (path : Text) (content : Bytes)
        → contains path (target_paths target) ≡ true
        → IsKept codec target.tree old (Map.get path target.lock) path content (
            effect codec target.tree old
              (plan_at codec options target path (some content)).changed
              (some content))
    unfolding plan_at
    plan_at-Keeps old path content known =
        let locked = Map.get path target.lock in
        let new = tree_text codec target.tree path in
        let tier = tier_of codec options target path locked new (some content) in
        elim (Bool-cases (is_owned tier)) [
          | inl e ↦
              rw e (
                inl (plan_owned-Keeps codec target.tree old target.owned_globs path locked content))
          | inr e ↦ rw e (
              plan_managed-Keeps codec target.tree old path tier locked new content refl
                (locked_of_path target path known))
        ]

    pub plan_path-Keeps :
        (old : Option Tree) (path : Text) (content : Bytes)
        → contains path (target_paths target) ≡ true
        → Map.get path disk ≡ some content
        → IsKept codec target.tree old
            (Map.get path target.lock)
            path
            content
            (effect codec target.tree old (plan path).changed (some content))
    unfolding plan_path plan_file
    plan_path-Keeps old path content known here =
        elim (Bool-cases (is_selected options.only_paths path)) [
          | inl e ↦ rw (e, here) (plan_at-Keeps old path content known)
          | inr e ↦ inl (rw e)
        ]

    -- The loop starts from the files themselves, with a plan of the files.
    pub apply_update-loop :
        (abort has_downgrades : Bool) (old : Result ApplyError Tree) (a : Applied)
        → apply_update codec options abort has_downgrades target no_migrations old disk ≡ ok a
        → (old_tree : Option Tree) × (previous_tree
              (merge_paths codec target.tree (plan_files codec options target [] disk))
              old
            ≡ ok old_tree)
          × (apply_changes codec target.tree old_tree
                (changes_of (map plan (target_paths target)))
                (start disk)
              ≡ ok a)
    unfolding apply_update plan_update finish_update plan_files apply_module_migrations moved_disk
        planned_contents add_pending move_files write_rest
    apply_update-loop abort true old a h = absurd (ground (arith, h))
    apply_update-loop abort false old a h =
        let changes = plan_files codec options target [] disk in
        let (old_tree, found, rest) =
          returns_through (previous_tree (merge_paths codec target.tree changes) old)
            (finish_update codec abort target no_migrations disk changes) h in
        let (_, checked, last) =
          returns_through (abort_check codec abort disk target.tree old_tree changes)
            (λ _. apply_changes codec target.tree old_tree changes (start disk)) rest in
        (old_tree, found, last)

    pub apply_update-of_loop :
        (old : Result ApplyError Tree) (old_tree : Option Tree) (a : Applied)
        → previous_tree
            (merge_paths codec target.tree (plan_files codec options target [] disk))
            old
          ≡ ok old_tree
        → apply_changes codec target.tree old_tree
            (changes_of (map plan (target_paths target)))
            (start disk)
          ≡ ok a
        → apply_update codec options false false target no_migrations old disk ≡ ok a
    unfolding apply_update plan_update finish_update plan_files apply_module_migrations moved_disk
        planned_contents add_pending move_files write_rest
    apply_update-of_loop old old_tree a found run = rw found run
