-- ===== src/Project/Moves.antt =====
-- module-migrations.ts: the migrations that are pending, the plan of their moves with its conflicts, and
-- what applying it does to the files. Directories that become empty are not part of the files.
use podokit.Texts.{starts_with}
use podokit.Base.{
  Bool, false, not, ◌&&◌, ◌||◌, Option, none, some, List, [], ◌∷◌, ◌++◌, map, ltb, if◌then◌else◌,
  codes, any, Result, ok, err, ◌>>=◌, ◌>>◌, reject_if, Text, same, nat_eq, text_eq,
}
use podokit.Map
use podokit.Globs.{matches_path_or_child}
use podokit.Texts.Sets.{contains, unique}
use podokit.Project.Lock.{Bytes, Codec, Disk, Files, FileEntry, Tier, owned, keys}
use podokit.Project.Changes.{Content, string, buffer, Tree, PlannedPathMove}
use podokit.Project.Migrations.{
  PathMove, Replacement, ModuleMigration, Pending, is_nil, is_project_path, files_under,
  destination_for, transformed_content, label,
}

pub data MigrationError : Type 0 where
  invalid_migration : Text → MigrationError
  invalid_path : Text → MigrationError
  onto_itself : Text → MigrationError
  invalid_replacement : Text → MigrationError

check_moves : Text → List PathMove → Result MigrationError (Unit {0})
check_moves name [] = ok tt
check_moves name (m ∷ moves) =
    let rest = check_moves name moves in
    do
      reject_if (not (is_project_path m.from)) (invalid_path m.from)
      reject_if (not (is_project_path m.to)) (invalid_path m.to)
      reject_if (same m.from m.to) (onto_itself name)
      rest

check_replacements : Text → List Replacement → Result MigrationError (Unit {0})
check_replacements name [] = ok tt
check_replacements name (r ∷ rs) =
    let rest = check_replacements name rs in
    do
      reject_if (not (is_project_path r.path)) (invalid_path r.path)
      reject_if (is_nil r.from || ltb r.expected 1) (invalid_replacement name)
      rest

-- The migrations of a module that are not applied yet.
unfoldable pub collect_module :
    Text → List Text → List ModuleMigration → Result MigrationError (List Pending)
unfolding check_moves check_replacements contains
collect_module name applied [] = ok []
collect_module name applied (m ∷ migrations) =
    let rest = collect_module name applied migrations in
    let p : Pending = record { module_name = name; migration = m } in
    let checked = check_moves (label p) m.moves >> check_replacements (label p) m.replacements in
    if contains m.id applied
    then rest
    else if is_nil m.id || is_nil m.moves
    then err (invalid_migration name)
    else checked >> (rest >>= λ others. ok (p ∷ others))

-- A move that is planned, before its content is known.
pub record Candidate : Type 0 where
  pub from : Text
  pub to : Text
  pub tier : Tier

-- `candidates` and `conflicts`. The sources and targets of the candidates are the two sets.
pub record Draft : Type 0 where
  pub candidates : List Candidate
  pub conflicts : List Text

abbrev pub sources : List Candidate → List Text
sources cs = map (λ (c : Candidate). c.from) cs

abbrev pub targets : List Candidate → List Text
targets cs = map (λ (c : Candidate). c.to) cs

abbrev tier_in : Files → Text → Tier
tier_in lock path = elim (Map.get path lock) [ none ↦ owned | some entry ↦ entry.tier ]

unfoldable pub add_source : Files → Text → PathMove → Text → Draft → Draft
unfolding contains destination_for
add_source lock name m source d =
    let target = destination_for source m.from m.to in
    if contains source (sources d.candidates)
    then record d {
      conflicts =
          d.conflicts ++ (name ++ (codes " moves " ++ (source ++ codes " more than once"))) ∷ [];
    }
    else if contains target (targets d.candidates)
    then record d {
      conflicts = d.conflicts ++ (name ++ (codes " has duplicate destination " ++ target)) ∷ [];
    }
    else let c : Candidate = record { from = source; to = target; tier = tier_in lock source } in
      record d { candidates = d.candidates ++ c ∷ [] }

unfoldable pub add_sources : Files → Text → PathMove → List Text → Draft → Draft
unfolding add_source
add_sources lock name m [] d = d
add_sources lock name m (s ∷ ss) d = add_sources lock name m ss (add_source lock name m s d)

unfoldable pub add_move : Disk → Tree → Files → Text → PathMove → Draft → Draft
unfolding add_sources matches_path_or_child files_under
add_move disk tree lock name m d =
    if any (λ path. matches_path_or_child path m.from) (keys tree)
    then record d {
      conflicts =
          d.conflicts
          ++ (name
              ++ (codes " target modules still provide legacy path "
                  ++ (m.from ++ codes "; upgrade external modules before updating")))
            ∷ [];
    }
    else add_sources lock name m (files_under disk m.from) d

unfoldable pub add_moves : Disk → Tree → Files → Text → List PathMove → Draft → Draft
unfolding add_move
add_moves disk tree lock name [] d = d
add_moves disk tree lock name (m ∷ ms) d =
    add_moves disk tree lock name ms (add_move disk tree lock name m d)

unfoldable pub draft : Disk → Tree → Files → List Pending → Draft → Draft
unfolding add_moves
draft disk tree lock [] d = d
draft disk tree lock (p ∷ ps) d =
    draft disk tree lock ps (add_moves disk tree lock (label p) p.migration.moves d)

-- `existsSync`, of a file or of a directory, which is there for the files under it.
unfoldable pub exists_at : Text → Disk → Bool
unfolding starts_with
exists_at path [] = false
exists_at path ((other, content) ∷ disk) =
    same other path || (starts_with other (path ++ codes "/") || exists_at path disk)

-- The destinations that exist and are not moved away.
unfoldable pub occupied : Disk → List Text → List Candidate → List Text
unfolding contains exists_at
occupied disk moved [] = []
occupied disk moved (c ∷ cs) =
    let rest = occupied disk moved cs in
    if exists_at c.to disk && not (contains c.to moved)
    then (codes "cannot move " ++ (c.from ++ (codes ": destination already exists at " ++ c.to)))
      ∷ rest
    else rest

abbrev bytes_of : Codec → Content → Bytes
bytes_of codec (string text) = codec.encode text
bytes_of codec (buffer bytes) = bytes

abbrev is_clean : Codec → Option FileEntry → Bytes → Bool
is_clean codec none content = false
is_clean codec (some entry) content = same entry.out_hash (codec.hash content)

-- An unchanged file takes the content that the target tree has at its new place.
unfoldable pub moved_content :
    Codec → Tree → Files → List Pending → Candidate → Bytes → Bytes × List Text
unfolding transformed_content
moved_content codec tree lock pending c content =
    let transformed = transformed_content codec c.to content pending in
    elim (Map.get c.to tree) [
      | none ↦ transformed
      | some target ↦
          if is_clean codec (Map.get c.from lock) content
          then (bytes_of codec target, [])
          else transformed
    ]

-- The sources are files of the project.
abbrev content_at : Disk → Text → Bytes
content_at disk path = elim (Map.get path disk) [ none ↦ [] | some content ↦ content ]

unfoldable pub plan_contents :
    Codec → Disk → Tree → Files → List Pending → List Candidate → List PlannedPathMove × List Text
unfolding moved_content
plan_contents codec disk tree lock pending [] = ([], [])
plan_contents codec disk tree lock pending (c ∷ cs) =
    let (content, wrong) = moved_content codec tree lock pending c (content_at disk c.from) in
    let (moves, more) = plan_contents codec disk tree lock pending cs in
    (record { from = c.from; to = c.to; tier = c.tier; content = content } ∷ moves, wrong ++ more)

abbrev pub is_target : List PlannedPathMove → Text → Bool
is_target [] path = false
is_target (m ∷ moves) path = same m.to path || is_target moves path

-- A replacement in a file that stays, on its own.
unfoldable pub check_replaced :
    Codec → Disk → List PlannedPathMove → Pending → List Replacement → List Text
unfolding transformed_content
check_replaced codec disk moves p [] = []
check_replaced codec disk moves p (r ∷ rs) =
    let rest = check_replaced codec disk moves p rs in
    let wrong : List Text = elim (Map.get r.path disk) [
      | none ↦ []
      | some content ↦ (transformed_content codec r.path content (p ∷ [])).1
    ] in
    if is_target moves r.path then rest else wrong ++ rest

unfoldable pub check_pending : Codec → Disk → List PlannedPathMove → List Pending → List Text
unfolding check_replaced
check_pending codec disk moves [] = []
check_pending codec disk moves (p ∷ ps) =
    check_replaced codec disk moves p p.migration.replacements ++ check_pending codec disk moves ps

pub record MigrationPlan : Type 0 where
  pub pending : List Pending
  pub moves : List PlannedPathMove
  pub conflicts : List Text

unfoldable pub plan_module_migrations : Codec → Disk → Tree → Files → List Pending → MigrationPlan
unfolding draft occupied plan_contents check_pending unique
plan_module_migrations codec disk tree lock pending =
    let d = draft disk tree lock pending (record { candidates = []; conflicts = [] }) in
    let (moves, wrong) = plan_contents codec disk tree lock pending d.candidates in
    record {
      pending = pending;
      moves = moves;
      conflicts = unique (
          d.conflicts
          ++ (occupied disk (sources d.candidates) d.candidates
              ++ (wrong ++ check_pending codec disk moves pending)));
    }
