-- ===== src/Project/Tests.antt =====
-- A project of three files that is updated: one is edited, one is as it was generated, one is owned.
use podokit.Project.Moved.{is_source}
use podokit.Base.{
  ◌≡◌, refl, ◌⊎◌, true, false, Option, none, some, [], ◌∷◌, ◌++◌, arith, if◌then◌else◌, codes, All,
  ok, list_beq, Text, same, nat_eq, text_eq,
}
use podokit.Map
use podokit.Texts.Sets.{contains}
use podokit.Globs.{match_glob, matches_path_or_child, match_glob-tree}
use podokit.Project.Lock.{matches_any, is_owned, Codec, Disk, FileEntry, managed, owned, is_walked}
use podokit.Project.Changes.{string, Tree, PlannedPathMove, Target, target_paths}
use podokit.Project.Plan.{plan_path, plan_files}
use podokit.Project.Moves.{MigrationPlan, is_target, plan_module_migrations}
use podokit.Project.Migrations.{has_replacement, Pending}
use podokit.Project.Apply.{Applied, apply_update, previous_tree, merge_paths}
use podokit.Project.Loop.{effect}
use podokit.Project.Preserves.{IsRecorded}
use podokit.Project.Safety.{no_migrations, contains-target_paths}
use podokit.Project.Guarantees.{IsMerged, apply_update-IsKept, apply_update-effect}
use podokit.Project.Settled.{no_options, is_settled, relocked}
use podokit.Project.Settles.{apply_update-IsSettled}
use podokit.Project.Relocates.{after, apply_module_migrations-Moves, apply_module_migrations-lost}

abbrev plain : Codec
plain = record { hash = λ bytes. bytes; encode = λ text. text; decode = λ bytes. bytes }

abbrev entry : Text → FileEntry
entry hash = record { tier = managed; out_hash = hash; template_hash = none }

abbrev before_update : Target
before_update = record {
  tree = (codes "a.ts", string (codes "new")) ∷ (codes "b.ts", string (codes "next")) ∷ [];
  lock = (codes "a.ts", entry (codes "old")) ∷ (codes "b.ts", entry (codes "was")) ∷ [];
  owned_globs = codes "docs/**" ∷ [];
  managed_overrides = [];
}

abbrev files : Disk
files =
    (codes "a.ts", codes "mine")
    ∷ (codes "b.ts", codes "was")
    ∷ (codes "docs/x.md", codes "text")
    ∷ []

abbrev old_templates : Tree
old_templates = (codes "a.ts", string (codes "old")) ∷ []

match_glob-tree_example :
    match_glob (codes "docs/x.md") (codes "docs" ++ codes "/**")
    ≡ matches_path_or_child (codes "docs/x.md") (codes "docs")
match_glob-tree_example = match_glob-tree (codes "docs/x.md") (codes "docs") refl refl

docs_match : match_glob (codes "docs/x.md") (codes "docs/**") ≡ true
unfolding match_glob
docs_match = refl

-- A `?` makes the unit before it optional.
optional_match : match_glob (codes "doc/x.md") (codes "docs?/**") ≡ true
unfolding match_glob
optional_match = refl

apply_update-effect_example :
    (a : Applied) × (old_tree : Option Tree) × (apply_update plain no_options false false
        before_update no_migrations
        (ok old_templates)
        files
      ≡ ok a)
    × (previous_tree
          (merge_paths plain before_update.tree
            (plan_files plain no_options before_update [] files))
          (ok old_templates)
        ≡ ok old_tree)
    × ((path : Text)
        → Map.get path a.disk ≡ (
            if contains path (target_paths before_update)
            then effect plain before_update.tree old_tree
                (plan_path plain no_options before_update [] files path).changed
                (Map.get path files)
            else Map.get path files))
apply_update-effect_example = apply_update-effect plain no_options before_update files old_templates

abbrev updated : Applied
updated = (apply_update-effect plain no_options before_update files old_templates).0

a_content : Map.get (codes "a.ts") files ≡ some (codes "mine")
unfolding Map.get same
a_content = refl

apply_update-IsKept_example :
    (Map.get (codes "a.ts") updated.disk ≡ some (codes "mine"))
    ⊎ (IsRecorded plain (Map.get (codes "a.ts") before_update.lock) (codes "mine")
        ⊎ IsMerged plain before_update.tree
            (ok old_templates)
            (codes "a.ts")
            (codes "mine")
            (Map.get (codes "a.ts") updated.disk))
apply_update-IsKept_example =
    apply_update-IsKept plain no_options before_update files false false (ok old_templates) updated
      (codes "a.ts") (codes "mine")
      (apply_update-effect plain no_options before_update files old_templates).2 a_content

a_walked : is_walked (codes "a.ts") ≡ true
unfolding is_walked
a_walked = refl

a_managed :
    (b : FileEntry)
    → Map.get (codes "a.ts") before_update.lock ≡ some b
    → is_owned b.tier ≡ true
    → matches_any before_update.owned_globs (codes "a.ts") ≡ true
unfolding Map.get
a_managed b e o = ground (arith, e, o)

a_known : contains (codes "a.ts") (target_paths (relocked plain before_update updated.disk)) ≡ true
unfolding Map.has same
a_known = contains-target_paths (relocked plain before_update updated.disk) (codes "a.ts")

apply_update-IsSettled_example :
    is_settled (
      plan_path plain no_options
        (relocked plain before_update updated.disk)
        []
        updated.disk
        (codes "a.ts"))
    ≡ true
apply_update-IsSettled_example =
    apply_update-IsSettled plain before_update files false false (ok old_templates) updated
      (codes "a.ts") (apply_update-effect plain no_options before_update files old_templates).2
      a_walked a_managed a_known

abbrev moving : Text → Text → Text → PlannedPathMove
moving from to content = record { from = from; to = to; tier = owned; content = content }

abbrev one_move : MigrationPlan
one_move = record {
  pending = [];
  moves = moving (codes "a.ts") (codes "c.ts") (codes "mine") ∷ [];
  conflicts = [];
}

apply_module_migrations-Moves_example :
    All
      (λ (m : PlannedPathMove). Map.get m.to (after plain files one_move) ≡ some m.content)
      one_move.moves
    × ((path : Text)
        → is_target one_move.moves path ≡ false
        → has_replacement path one_move.pending ≡ false
        → Map.get path (after plain files one_move)
          ≡ (if is_source one_move.moves path then none else Map.get path files))
unfolding same list_beq
apply_module_migrations-Moves_example =
    apply_module_migrations-Moves plain files one_move refl (refl, tt) (refl, tt)

abbrev moves_of : Text → Text → Text → Pending
moves_of id from to = record {
  module_name = codes "m";
  migration = record { id = id; moves = record { from = from; to = to } ∷ []; replacements = [] };
}

-- The moves a.ts to b.ts and b.ts to c.ts are planned without a conflict.
abbrev chain : MigrationPlan
chain = record {
  pending =
      moves_of (codes "1") (codes "a.ts") (codes "b.ts")
      ∷ moves_of (codes "2") (codes "b.ts") (codes "c.ts")
      ∷ [];
  moves =
      moving (codes "a.ts") (codes "b.ts") (codes "mine")
      ∷ moving (codes "b.ts") (codes "c.ts") (codes "was")
      ∷ [];
  conflicts = [];
}

chain_planned : plan_module_migrations plain files [] [] chain.pending ≡ chain
unfolding plan_module_migrations Map.get Map.has same contains
chain_planned = refl

apply_module_migrations-lost_example : Map.get (codes "b.ts") (after plain files chain) ≡ none
apply_module_migrations-lost_example =
    apply_module_migrations-lost plain files chain
      (moving (codes "a.ts") (codes "b.ts") (codes "mine"))
      (moving (codes "b.ts") (codes "c.ts") (codes "was")) refl refl refl
