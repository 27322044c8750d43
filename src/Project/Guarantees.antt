-- ===== src/Project/Guarantees.antt =====
-- What `applyUpdate` guarantees for each file of a project.
use podokit.Base.{
  ◌≡◌, refl, sym, ◌≢◌, ◌⊎◌, inl, inr, Bool, false, Option, none, some, List, [], ◌∷◌, arith,
  if◌then◌else◌, Bool-cases, Option-cases, All, Result, ok, err, Text, nat_eq, text_eq,
}
use mathlib.Core.Path.{subst}
use podokit.Map
use podokit.Merge.ThreeWay.{three_way_merge}
use podokit.Texts.Sets.{contains}
use podokit.Project.Lock.{Bytes, Codec, Disk, FileEntry}
use podokit.Project.Changes.{
  Tree, FileChange, Planned, tree_text, PlanOptions, Target, target_paths, is_selected, merge,
  is_new_seed,
}
use podokit.Project.Plan.{
  upstream, plan_owned, plan_managed, plan_file, plan_at, plan_path, plan_files,
}
use podokit.Project.Apply.{ApplyError, Applied, apply_update, previous_tree, merge_paths, labels}
use podokit.Project.Loop.{effect, loop, loop-returns}
use podokit.Project.Preserves.{plan_path-path, IsKept, IsRecorded}
use podokit.Project.Safety.{
  apply_update-of_loop, no_migrations, start, target_paths-IsDistinct, plan_path-Keeps,
  apply_update-loop,
}

-- The file is the merge of what was there with the two templates.
abbrev pub IsMerged : Codec → Tree → Result ApplyError Tree → Text → Bytes → Option Bytes → Type 0
IsMerged codec tree old path content after =
    (previous : Tree) × (base next : Text) × (old ≡ ok previous)
    × (tree_text codec previous path ≡ some base)
    × (tree_text codec tree path ≡ some next)
    × (after ≡ some (codec.encode (three_way_merge labels base (codec.decode content) next).merged))

previous_tree-some :
    (paths : List Text) (old : Result ApplyError Tree) (t : Tree)
    → previous_tree paths old ≡ ok (some t)
    → old ≡ ok t
previous_tree-some [] old t h = absurd (ground (arith, h))
previous_tree-some (p ∷ paths) (ok previous) t h = ground (arith, h)
previous_tree-some (p ∷ paths) (err e) t h = absurd (ground (arith, h))

previous_tree-returns :
    (paths : List Text) (old : Tree) → (t : Option Tree) × (previous_tree paths (ok old) ≡ ok t)
previous_tree-returns [] old = (none, refl)
previous_tree-returns (p ∷ paths) old = (some old, refl)

with_previous :
    (codec : Codec) (tree : Tree) (paths : List Text) (old : Result ApplyError Tree)
    (old_tree : Option Tree) (locked : Option FileEntry) (path : Text) (content : Bytes)
    (after : Option Bytes)
    → previous_tree paths old ≡ ok old_tree
    → IsKept codec tree old_tree locked path content after
    → (after ≡ some content)
      ⊎ (IsRecorded codec locked content ⊎ IsMerged codec tree old path content after)
with_previous codec tree paths old old_tree locked path content after found (inl e) = inl e
with_previous codec tree paths old old_tree locked path content after found (inr (inl r)) =
    inr (inl r)
with_previous codec tree paths old none locked path content after found (inr (inr m)) =
    absurd (ground (arith, m.2))
with_previous codec tree paths old (some t) locked path content after found (inr (inr m)) =
    inr (inr (t, m.0, m.1, previous_tree-some paths old t found, m.2, m.3, m.4))

module _ (codec : Codec) (options : PlanOptions) (target : Target) (disk : Disk) where
  abbrev plan : Text → Planned
  plan = plan_path codec options target [] disk

  -- A merge is planned only for a file that is there.
  merge-of_file :
      (path : Text) (c : FileChange)
      → (plan_at codec options target path none).changed ≡ some c
      → c.action ≢ merge
  unfolding plan_at plan_owned plan_managed upstream is_new_seed
  merge-of_file path c h m = elim (Option-cases (tree_text codec target.tree path)) [
    | inl e ↦ ground (arith, h, m, e)
    | inr (text, e) ↦ ground (arith, h, m, e)
  ]

  all_readable :
      (paths : List Text)
      → All
          (λ q.
            (c : FileChange) → (plan q).changed ≡ some c → c.action ≡ merge → Map.get q disk ≢ none)
          paths
  unfolding plan_path plan_file
  all_readable [] = tt
  all_readable (q ∷ paths) = (
    λ c e m gone. elim (Bool-cases (is_selected options.only_paths q)) [
      | inl s ↦ merge-of_file q c (rw (s, gone) at e) m
      | inr s ↦ ground (arith, e, s)
    ],
    all_readable paths,
  )

  -- Where an update with no path migrations is applied, a file that was there is as it was, or is one whose
  -- hash the lock has, or is the three-way merge of the previous template, the file and the new template.
  pub apply_update-IsKept :
      (abort has_downgrades : Bool) (old : Result ApplyError Tree) (a : Applied) (path : Text)
      (content : Bytes)
      → apply_update codec options abort has_downgrades target no_migrations old disk ≡ ok a
      → Map.get path disk ≡ some content
      → (Map.get path a.disk ≡ some content)
        ⊎ (IsRecorded codec (Map.get path target.lock) content
            ⊎ IsMerged codec target.tree old path content (Map.get path a.disk))
  apply_update-IsKept abort has_downgrades old a path content h here =
      let (old_tree, found, run) =
        apply_update-loop codec options target disk abort has_downgrades old a h in
      let now =
        loop codec target.tree old_tree plan (λ q. plan_path-path codec options target disk q [])
          (target_paths target) (start disk) a (target_paths-IsDistinct target) run path in
      elim (Bool-cases (contains path (target_paths target))) [
        | inl e ↦
            let becomes : Map.get path a.disk ≡ _ = rw (e, here) at now in
            let kept = plan_path-Keeps codec options target disk old_tree path content e here in
            with_previous codec target.tree _ old old_tree _ path content _ found (
              subst
                (λ after.
                  IsKept codec target.tree old_tree (Map.get path target.lock) path content after)
                (sym becomes) kept)
        | inr e ↦ inl (ground (arith, now, e, here))
      ]

  -- Nothing stops an update of a project with no downgrade and no migration whose previous templates are
  -- at hand, and then each path of the plan has the effect of its change and the others are as they were.
  pub apply_update-effect :
      (old : Tree)
      → (a : Applied) × (old_tree : Option Tree) × (apply_update codec options false false target
            no_migrations
            (ok old)
            disk
          ≡ ok a)
        × (previous_tree
              (merge_paths codec target.tree (plan_files codec options target [] disk))
              (ok old)
            ≡ ok old_tree)
        × ((path : Text)
            → Map.get path a.disk ≡ (
                if contains path (target_paths target)
                then effect codec target.tree old_tree
                    (plan_path codec options target [] disk path).changed
                    (Map.get path disk)
                else Map.get path disk))
  apply_update-effect old =
      let changes = plan_files codec options target [] disk in
      let (old_tree, found) = previous_tree-returns (merge_paths codec target.tree changes) old in
      let named : (q : Text) (c : FileChange) → (plan q).changed ≡ some c → c.path ≡ q =
        λ q. plan_path-path codec options target disk q [] in
      let (a, run) =
        loop-returns codec target.tree old_tree plan named (target_paths target) (start disk)
          (target_paths-IsDistinct target) (all_readable (target_paths target)) in
      (
        a,
        old_tree,
        apply_update-of_loop codec options target disk (ok old) old_tree a found run,
        found,
        loop codec target.tree old_tree plan named (target_paths target) (start disk) a
            (target_paths-IsDistinct target) run,
      )
