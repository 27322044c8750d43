-- ===== src/Project/RemoveTests.antt =====
-- A module with three files is removed: one is as it was, one is edited, and one is another module's too.
use podokit.Base.{
  ◌≡◌, refl, false, ◌&&◌, none, some, List, [], ◌∷◌, codes, ok, Text, same, nat_eq, text_eq,
}
use podokit.Map
use podokit.Texts.Sets.{contains}
use podokit.Project.Lock.{Codec, Disk, Files, FileEntry, managed, is_walked, classify_tier}
use podokit.Project.Changes.{Target, tree_text}
use podokit.Project.Apply.{Applied, apply_update}
use podokit.Project.Safety.{no_migrations}
use podokit.Project.Settled.{no_options}
use podokit.Project.Recording.{Manifest}
use podokit.Project.Removing.{Removed, remove_files, removed_lock}
use podokit.Project.Removals.{after_removal, is_deleted, remove_files-deletes}
use podokit.Project.Forgotten.{kept_edited-lost}

abbrev as_is : Codec
as_is = record { hash = λ bytes. bytes; encode = λ text. text; decode = λ bytes. bytes }

abbrev locked_as : Text → FileEntry
locked_as hash = record { tier = managed; out_hash = hash; template_hash = none }

abbrev lock_then : Files
lock_then =
    (codes "a.ts", locked_as (codes "one"))
    ∷ (codes "b.ts", locked_as (codes "two"))
    ∷ (codes "c.ts", locked_as (codes "three"))
    ∷ []

abbrev module_files : List Text
module_files = codes "a.ts" ∷ codes "b.ts" ∷ codes "c.ts" ∷ []

abbrev start_removal : Removed
start_removal = record {
  disk =
      (codes "a.ts", codes "one")
      ∷ (codes "b.ts", codes "mine")
      ∷ (codes "c.ts", codes "three")
      ∷ [];
  removed = [];
  kept_edited = [];
  kept_shared = [];
}

removed_one :
    (remove_files as_is lock_then (codes "c.ts" ∷ []) module_files start_removal).removed
    ≡ codes "a.ts" ∷ []
unfolding remove_files Map.get same contains Map.remove
removed_one = refl

remove_files-deletes_example :
    Map.get
      (codes "b.ts")
      (remove_files as_is lock_then (codes "c.ts" ∷ []) module_files start_removal).disk
    ≡ after_removal as_is
        (contains (codes "b.ts") module_files
          && is_deleted as_is
              (Map.get (codes "b.ts") lock_then)
              (contains (codes "b.ts") (codes "c.ts" ∷ []))
              (Map.get (codes "b.ts") start_removal.disk))
        (Map.get (codes "b.ts") start_removal.disk)
remove_files-deletes_example =
    remove_files-deletes as_is lock_then (codes "c.ts" ∷ []) module_files start_removal
      (codes "b.ts")

abbrev bare : Manifest
bare = record { modules = []; owned_globs = []; managed_overrides = none }

abbrev edited_file : Disk
edited_file = (codes "b.ts", codes "mine") ∷ []

kept_edited-lost_example :
    let target : Target = record {
      tree = [];
      lock = removed_lock as_is edited_file (some lock_then) [] bare;
      owned_globs = [];
      managed_overrides = [];
    } in
    (a : Applied) × (apply_update as_is no_options false false target no_migrations
        (ok [])
        edited_file
      ≡ ok a)
    × (Map.get (codes "b.ts") a.disk ≡ none)
unfolding Map.get same is_walked classify_tier tree_text
kept_edited-lost_example =
    kept_edited-lost as_is edited_file (some lock_then) [] bare [] [] (codes "b.ts") (codes "mine")
      refl refl refl refl
