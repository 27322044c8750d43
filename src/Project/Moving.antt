-- ===== src/Project/Moving.antt =====
-- `applyModuleMigrations` of module-migrations.ts.
use podokit.Base.{none, some, List, [], ◌∷◌, map, if◌then◌else◌, Text, nat_eq, text_eq}
use podokit.Map
use podokit.Project.Lock.{Bytes, Codec, Disk}
use podokit.Project.Changes.{PlannedPathMove}
use podokit.Project.Migrations.{Pending, Replacement, transformed_content}
use podokit.Project.Moves.{MigrationPlan, is_target}

-- The content that each moved or rewritten file gets.
unfoldable pub planned_contents : List PlannedPathMove → Disk → Disk
planned_contents [] by_path = by_path
planned_contents (m ∷ moves) by_path = planned_contents moves (Map.put m.to m.content by_path)

unfoldable pub with_replaced : Codec → Disk → Pending → Replacement → Disk → Disk
unfolding transformed_content
with_replaced codec disk p r by_path =
    if Map.has r.path by_path then by_path else elim (Map.get r.path disk) [
      | none ↦ by_path
      | some content ↦ Map.put r.path (transformed_content codec r.path content (p ∷ [])).0 by_path
    ]

unfoldable pub add_replaced : Codec → Disk → Pending → List Replacement → Disk → Disk
unfolding with_replaced
add_replaced codec disk p [] by_path = by_path
add_replaced codec disk p (r ∷ rs) by_path =
    add_replaced codec disk p rs (with_replaced codec disk p r by_path)

unfoldable pub add_pending : Codec → Disk → List Pending → Disk → Disk
unfolding add_replaced
add_pending codec disk [] by_path = by_path
add_pending codec disk (p ∷ ps) by_path =
    add_pending codec disk ps (add_replaced codec disk p p.migration.replacements by_path)

-- `replacementByPath.get(move.to) ?? move.content`
abbrev pub content_of : Disk → PlannedPathMove → Bytes
content_of by_path m = elim (Map.get m.to by_path) [ none ↦ m.content | some content ↦ content ]

-- Each file is written, and then the one it came from removed.
unfoldable pub move_files : Disk → List PlannedPathMove → Disk → Disk
move_files by_path [] disk = disk
move_files by_path (m ∷ moves) disk =
    move_files by_path moves (Map.remove m.from (Map.put m.to (content_of by_path m) disk))

unfoldable pub write_rest : List PlannedPathMove → Disk → Disk → Disk
write_rest moves [] disk = disk
write_rest moves ((path, content) ∷ rest) disk =
    write_rest moves rest (if is_target moves path then disk else Map.put path content disk)

-- The files once they are moved and written.
unfoldable pub moved_disk : Codec → MigrationPlan → Disk → Disk
moved_disk codec plan disk =
    let by_path = add_pending codec disk plan.pending (planned_contents plan.moves []) in
    write_rest plan.moves by_path (move_files by_path plan.moves disk)

unfoldable pub unless_conflicts :
    Codec → MigrationPlan → Disk → List Text → Disk × List (Text × Text)
unless_conflicts codec plan disk (wrong ∷ more) = (disk, [])
unless_conflicts codec plan disk [] =
    (moved_disk codec plan disk, map (λ (m : PlannedPathMove). (m.from, m.to)) plan.moves)

-- The files, and the moves made.
unfoldable pub apply_module_migrations : Codec → MigrationPlan → Disk → Disk × List (Text × Text)
unfolding unless_conflicts
apply_module_migrations codec plan disk = unless_conflicts codec plan disk plan.conflicts
