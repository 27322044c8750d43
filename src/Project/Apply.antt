-- ===== src/Project/Apply.antt =====
-- `applyUpdate` of update.ts. The trees are those that the templates of the two versions generate, and
-- `old` is what getting the previous one gives: the tree, or why it cannot be had. API paths and the
-- manifest, which are written after the files, are not part of it.
use podokit.Base.{
  Bool, true, false, not, ◌&&◌, Option, none, some, List, [], ◌∷◌, ◌++◌, ltb, if◌then◌else◌, codes,
  Result, ok, err, ◌>>=◌, ◌>>◌, reject_if, Text, nat_eq, text_eq,
}
use podokit.Map
use podokit.Merge.ThreeWay.{MergeResult, Labels, three_way_merge}
use podokit.Project.Lock.{Codec, Disk}
use podokit.Project.Files.{is_some}
use podokit.Project.Changes.{
  Tree, Action, review, update, merge, conflict, keep, add, move, remove, skip, up_to_date,
  FileChange, PlanOptions, Target, tree_text, no_merge_base,
}
use podokit.Project.Migrations.{is_nil}
use podokit.Project.Moves.{MigrationPlan}
use podokit.Project.Moving.{apply_module_migrations}
use podokit.Project.Plan.{plan_update}

pub data ApplyError : Type 0 where
  downgrades : ApplyError
  migration_conflicts : List Text → ApplyError
  no_previous_templates : ApplyError
  unresolved : List Text → ApplyError
  unreadable : Text → ApplyError

-- The files, and the parts of `ApplyResult` that the loop over the changes fills.
pub record Applied : Type 0 where
  pub disk : Disk
  pub written : List Text
  pub removed : List Text
  pub merged : List Text
  pub conflicts : List Text
  pub kept : List (Text × Text)

abbrev pub labels : Labels
labels = record { current = codes "current"; next = codes "podokit" }

abbrev pub base_text : Codec → Option Tree → Text → Option Text
base_text codec none path = none
base_text codec (some tree) path = tree_text codec tree path

unfoldable pub merge_edited :
    Codec → Disk → Text → Text → Option Tree → Result ApplyError (Option MergeResult)
unfolding tree_text
merge_edited codec disk path next old = elim (base_text codec old path) [
  | none ↦ ok none
  | some base ↦ elim (Map.get path disk) [
    | none ↦ err (unreadable path)
    | some current ↦ ok (some (three_way_merge labels base (codec.decode current) next))
  ]
]

abbrev pub text_or_empty : Option Text → Text
text_or_empty none = []
text_or_empty (some text) = text

unfoldable pub write_text : Codec → Text → Text → Applied → Applied
write_text codec path text s = record s { disk = Map.put path (codec.encode text) s.disk }

abbrev pub write_merge : Codec → Text → Option MergeResult → Applied → Applied
write_merge codec path none s = record s { kept = s.kept ++ (path, no_merge_base path) ∷ [] }
write_merge codec path (some m) s =
    let written = write_text codec path m.merged s in
    if ltb 0 m.conflicts
    then record written { conflicts = written.conflicts ++ path ∷ [] }
    else record written { merged = written.merged ++ path ∷ [] }

unfoldable pub apply_merge :
    Codec → Option Tree → FileChange → Option Text → Applied → Result ApplyError Applied
unfolding write_text merge_edited
apply_merge codec old c none s = ok s
apply_merge codec old c (some next) s = do
  result ← merge_edited codec s.disk c.path next old
  ok (write_merge codec c.path result s)

unfoldable pub write_new : Codec → FileChange → Option Text → Applied → Applied
unfolding write_text
write_new codec c new s =
    let after = write_text codec c.path (text_or_empty new) s in
    record after { written = after.written ++ c.path ∷ [] }

-- The body of the loop, for the text that the target tree has at the path.
unfoldable pub apply_action :
    Codec → Option Tree → FileChange → Option Text → Applied → Action → Result ApplyError Applied
unfolding write_new apply_merge
apply_action codec old c new s update = ok (write_new codec c new s)
apply_action codec old c new s add = ok (write_new codec c new s)
apply_action codec old c new s remove =
    ok (record s { disk = Map.remove c.path s.disk; removed = s.removed ++ c.path ∷ [] })
apply_action codec old c new s keep = ok (record s { kept = s.kept ++ (c.path, c.note) ∷ [] })
apply_action codec old c new s merge = apply_merge codec old c new s
apply_action codec old c new s review = ok s
apply_action codec old c new s conflict = ok s
apply_action codec old c new s move = ok s
apply_action codec old c new s skip = ok s
apply_action codec old c new s up_to_date = ok s

unfoldable pub apply_change :
    Codec → Tree → Option Tree → FileChange → Applied → Result ApplyError Applied
unfolding apply_action tree_text
apply_change codec tree old c s = apply_action codec old c (tree_text codec tree c.path) s c.action

unfoldable pub apply_changes :
    Codec → Tree → Option Tree → List FileChange → Applied → Result ApplyError Applied
unfolding apply_change
apply_changes codec tree old [] s = ok s
apply_changes codec tree old (c ∷ cs) s = do
  next ← apply_change codec tree old c s
  apply_changes codec tree old cs next

abbrev is_merge : Action → Bool
is_merge merge = true
is_merge _ = false

unfoldable pub merge_paths : Codec → Tree → List FileChange → List Text
unfolding tree_text
merge_paths codec tree [] = []
merge_paths codec tree (c ∷ cs) =
    let rest = merge_paths codec tree cs in
    if is_merge c.action && is_some (tree_text codec tree c.path) then c.path ∷ rest else rest

abbrev is_clean_merge : Option MergeResult → Bool
is_clean_merge none = false
is_clean_merge (some m) = not (ltb 0 m.conflicts)

abbrev predicted : Codec → Disk → Tree → Option Tree → Text → Result ApplyError (Option MergeResult)
predicted codec disk tree old path = elim (tree_text codec tree path) [
  | none ↦ ok none
  | some next ↦ merge_edited codec disk path next old
]

-- The merges that would leave conflicts.
unfoldable pub unresolved_merges :
    Codec → Disk → Tree → Option Tree → List FileChange → Result ApplyError (List Text)
unfolding merge_edited tree_text
unresolved_merges codec disk tree old [] = ok []
unresolved_merges codec disk tree old (c ∷ cs) =
    let rest = unresolved_merges codec disk tree old cs in
    let with_merge : Result ApplyError (List Text) = predicted codec disk tree old c.path >>= λ m.
    rest >>= λ paths. ok (if is_clean_merge m then paths else c.path ∷ paths) in
    if is_merge c.action then with_merge else rest

abbrev pub abort_check :
    Codec → Bool → Disk → Tree → Option Tree → List FileChange → Result ApplyError (Unit {0})
abort_check codec false disk tree old changes = ok tt
abort_check codec true disk tree old changes = do
  paths ← unresolved_merges codec disk tree old changes
  reject_if (not (is_nil paths)) (unresolved paths)

abbrev pub previous_tree : List Text → Result ApplyError Tree → Result ApplyError (Option Tree)
previous_tree [] old = ok none
previous_tree (path ∷ paths) old = old >>= λ tree. ok (some tree)

-- The end of `applyUpdate`, where the previous tree is at hand if it is needed.
unfoldable pub finish_update :
    Codec
    → Bool
    → Target
    → MigrationPlan
    → Disk
    → List FileChange
    → Option Tree
    → Result ApplyError Applied
unfolding unresolved_merges apply_changes apply_module_migrations
finish_update codec abort_on_conflict target plan disk changes old_tree =
    abort_check codec abort_on_conflict disk target.tree old_tree changes
    >> apply_changes codec target.tree old_tree changes (record {
      disk = (apply_module_migrations codec plan disk).0;
      written = [];
      removed = [];
      merged = [];
      conflicts = [];
      kept = [];
    })

-- What `applyUpdate` does up to the lock: nothing is written before the end.
unfoldable pub apply_update :
    Codec
    → PlanOptions
    → Bool
    → Bool
    → Target
    → MigrationPlan
    → Result ApplyError Tree
    → Disk
    → Result ApplyError Applied
unfolding plan_update merge_paths finish_update
apply_update codec options abort_on_conflict has_downgrades target plan old disk =
    let changes = plan_update codec options target plan.moves plan.conflicts disk in
    do
      reject_if has_downgrades downgrades
      reject_if (not (is_nil plan.conflicts)) (migration_conflicts plan.conflicts)
      old_tree ← previous_tree (merge_paths codec target.tree changes) old
      finish_update codec abort_on_conflict target plan disk changes old_tree
