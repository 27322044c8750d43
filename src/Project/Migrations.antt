-- ===== src/Project/Migrations.antt =====
-- module-migrations.ts: the moves of files and the replacements of text that a module asks for, planned
-- against the project's files. `posix.normalize` leaves a path alone if no segment of it is empty, `.`
-- or `..`, and the path `.` as well.
use podokit.Base.{
  ℕ, zero, suc, ◌+◌, ◌-◌, Bool, true, false, not, ◌&&◌, ◌||◌, List, [], ◌∷◌, ◌++◌, ◌==◌,
  if◌then◌else◌, codes, length, drop, keep_if, any, list_beq, Text, same, nat_eq, text_eq,
}
use podokit.Map
use podokit.Globs.{matches_path_or_child, slash}
use podokit.Texts.{starts_with, split}
use podokit.Texts.{decimal}
use podokit.Texts.Sets.{sort}
use podokit.Project.Lock.{Bytes, Codec, Disk, keys}

pub record PathMove : Type 0 where
  pub from : Text
  pub to : Text

pub record Replacement : Type 0 where
  pub path : Text
  pub from : Text
  pub to : Text
  pub expected : ℕ

pub record ModuleMigration : Type 0 where
  pub id : Text
  pub moves : List PathMove
  pub replacements : List Replacement

pub record Pending : Type 0 where
  pub module_name : Text
  pub migration : ModuleMigration

abbrev pub is_nil {ℓ} : {A : Type ℓ} → List A → Bool
is_nil [] = true
is_nil (x ∷ xs) = false

unfoldable pub is_project_path : Text → Bool
unfolding split same list_beq
is_project_path path =
    let segments = split slash path in
    not (any is_nil segments)
    && not (any (same (codes "..")) segments)
    && (same path (codes ".") || not (any (same (codes ".")) segments))

-- The files under a path, in order.
unfoldable pub files_under : Disk → Text → List Text
unfolding keep_if starts_with sort
files_under disk path =
    if Map.has path disk
    then path ∷ []
    else sort (keep_if (λ file. starts_with file (path ++ slash ∷ [])) (keys disk))

unfoldable pub destination_for : Text → Text → Text → Text
destination_for path from to = if same path from then to else to ++ drop (length from) path

-- The occurrences that `indexOf` finds, each after the end of the one before, where `past` is what is
-- left to skip of the last one.
unfoldable pub occurrences_from : Text → ℕ → Text → ℕ
unfolding starts_with
occurrences_from needle past [] = 0
occurrences_from needle zero (c ∷ cs) =
    let found = occurrences_from needle (length needle - 1) cs in
    let rest = occurrences_from needle 0 cs in
    if starts_with (c ∷ cs) needle then 1 + found else rest
occurrences_from needle (suc past) (c ∷ cs) = occurrences_from needle past cs

unfoldable pub occurrences : Text → Text → ℕ
unfolding occurrences_from
occurrences content needle = if is_nil needle then 0 else occurrences_from needle 0 content

-- `content.split(from).join(to)`, for a `from` that is not empty.
unfoldable pub replaced_from : Text → Text → ℕ → Text → Text
unfolding starts_with
replaced_from from to past [] = []
replaced_from from to zero (c ∷ cs) =
    let found = replaced_from from to (length from - 1) cs in
    let rest = replaced_from from to 0 cs in
    if starts_with (c ∷ cs) from then to ++ found else c ∷ rest
replaced_from from to (suc past) (c ∷ cs) = replaced_from from to past cs

unfoldable pub replace_all : Text → Text → Text → Text
unfolding replaced_from
replace_all content from to = replaced_from from to 0 content

abbrev pub label : Pending → Text
label p = p.module_name ++ (codes ":" ++ p.migration.id)

abbrev expected_conflict : Text → Replacement → ℕ → Text
expected_conflict name r found =
    name
    ++ (codes " expected "
        ++ (decimal r.expected
            ++ (codes " occurrence(s) in " ++ (r.path ++ (codes ", found " ++ decimal found)))))

-- The text, and what was found wrong.
unfoldable pub replace_one : Text → Replacement → Text → Text × List Text
unfolding occurrences replace_all
replace_one name r text =
    let current = occurrences text r.from in
    if current == r.expected
    then (replace_all text r.from r.to, [])
    else if current == 0 && occurrences text r.to == r.expected
    then (text, [])
    else (text, expected_conflict name r current ∷ [])

unfoldable pub replace_texts : Text → Text → List Replacement → Text → Text × List Text
unfolding replace_one
replace_texts name path [] text = (text, [])
replace_texts name path (r ∷ rs) text =
    let here : Text × List Text =
      if same r.path path then replace_one name r text else (text, []) in
    let (last, more) = replace_texts name path rs here.0 in (last, here.1 ++ more)

unfoldable pub replace_pending : Text → List Pending → Text → Text × List Text
unfolding replace_texts
replace_pending path [] text = (text, [])
replace_pending path (p ∷ ps) text =
    let (next, wrong) = replace_texts (label p) path p.migration.replacements text in
    let (last, more) = replace_pending path ps next in (last, wrong ++ more)

abbrev pub has_replacement : Text → List Pending → Bool
has_replacement path pending =
    any (λ p. any (λ r. same r.path path) p.migration.replacements) pending

-- The bytes stay where no replacement names the path.
unfoldable pub transformed_content : Codec → Text → Bytes → List Pending → Bytes × List Text
unfolding replace_pending
transformed_content codec path content pending =
    let (text, wrong) = replace_pending path pending (codec.decode content) in
    if has_replacement path pending then (codec.encode text, wrong) else (content, [])

unfoldable pub migrate_move : Text → List PathMove → Text
unfolding matches_path_or_child destination_for
migrate_move path [] = path
migrate_move path (m ∷ moves) =
    migrate_move
      (if matches_path_or_child path m.from then destination_for path m.from m.to else path) moves

unfoldable pub migrate_configured_path : Text → List Pending → Text
unfolding migrate_move
migrate_configured_path path [] = path
migrate_configured_path path (p ∷ pending) =
    migrate_configured_path (migrate_move path p.migration.moves) pending
