-- ===== src/Project/Relocates.antt =====
-- `applyModuleMigrations` as a whole.

use podokit.Base.{
  ◌≡◌, refl, ap, ◌∙◌, inl, inr, Bool, true, false, none, some, List, [], ◌∷◌, arith, if◌then◌else◌,
  Option-cases, any, all, All, Text, same, same_iff, same_refl, nat_eq, text_eq,
}
use podokit.Map
use podokit.Project.Files.{or_else}
use podokit.Project.Lock.{Bytes, Codec, Disk}
use podokit.Project.Changes.{PlannedPathMove}
use podokit.Project.Migrations.{Pending, Replacement, transformed_content, has_replacement}
use podokit.Project.Moves.{MigrationPlan, is_target}
use podokit.Project.Moving.{
  content_of, unless_conflicts, moved_disk, planned_contents, with_replaced, add_replaced,
  add_pending, move_files, write_rest, apply_module_migrations,
}
use podokit.Project.Moved.{
  is_source, IsApart, HasDistinctTargets, IsPlanned, get-move_files, get-write_rest,
  add_pending-keeps, add_pending-IsMap, planned_contents-IsMap, planned_contents-other,
  planned_contents-targets,
}

abbrev is_replaced : Text → List Replacement → Bool
is_replaced path rs = any (λ r. same r.path path) rs

module _ (codec : Codec) (disk : Disk) where
  with_replaced-other :
      (p : Pending) (r : Replacement) (by_path : Disk) (path : Text)
      → same r.path path ≡ false
      → Map.get path (with_replaced codec disk p r by_path) ≡ Map.get path by_path
  unfolding with_replaced
  with_replaced-other p r by_path path h = elim (Option-cases (Map.get r.path disk)) [
    | inl q ↦ ground (arith, q, h)
    | inr (c, q) ↦ ground (
      arith,
      q,
      h,
      Map.get-put r.path path (transformed_content codec r.path c (p ∷ [])).0 by_path,
    )
  ]

  add_replaced-other :
      (p : Pending) (rs : List Replacement) (by_path : Disk) (path : Text)
      → is_replaced path rs ≡ false
      → Map.get path (add_replaced codec disk p rs by_path) ≡ Map.get path by_path
  unfolding add_replaced
  add_replaced-other p [] by_path path h = refl
  add_replaced-other p (r ∷ rs) by_path path h =
      add_replaced-other p rs (with_replaced codec disk p r by_path) path (ground (arith, h))
      ∙ with_replaced-other p r by_path path (ground (arith, h))

  add_pending-other :
      (ps : List Pending) (by_path : Disk) (path : Text)
      → has_replacement path ps ≡ false
      → Map.get path (add_pending codec disk ps by_path) ≡ Map.get path by_path
  unfolding add_pending
  add_pending-other [] by_path path h = refl
  add_pending-other (p ∷ ps) by_path path h =
      add_pending-other ps (add_replaced codec disk p p.migration.replacements by_path) path
        (ground (arith, h))
      ∙ add_replaced-other p p.migration.replacements by_path path (ground (arith, h))

  abbrev contents : MigrationPlan → Disk
  contents plan = add_pending codec disk plan.pending (planned_contents plan.moves [])

  contents-targets :
      (ps : List Pending) (by_path : Disk) (moves : List PlannedPathMove)
      → All (λ (m : PlannedPathMove). Map.get m.to by_path ≡ some m.content) moves
      → All
          (λ (m : PlannedPathMove).
            Map.get m.to (add_pending codec disk ps by_path) ≡ some m.content)
          moves
  contents-targets ps by_path [] h = tt
  contents-targets ps by_path (m ∷ moves) h = (
    add_pending-keeps codec disk ps by_path m.to m.content h.0,
    contents-targets ps by_path moves h.1,
  )

  IsPlanned-of :
      (by_path : Disk) (moves : List PlannedPathMove)
      → All (λ (m : PlannedPathMove). Map.get m.to by_path ≡ some m.content) moves
      → IsPlanned by_path moves
  IsPlanned-of by_path [] h = tt
  IsPlanned-of by_path (m ∷ moves) h = (λ e. ground (arith, e, h.0), IsPlanned-of by_path moves h.1)

  abbrev pub after : MigrationPlan → Disk
  after plan = (apply_module_migrations codec plan disk).0

  get-after :
      (plan : MigrationPlan) (path : Text)
      → plan.conflicts ≡ []
      → IsApart plan.moves plan.moves
      → HasDistinctTargets plan.moves
      → Map.get path (after plan) ≡ (
          if is_target plan.moves path
          then Map.get path (contents plan)
          else or_else
              (Map.get path (contents plan))
              (if is_source plan.moves path then none else Map.get path disk))
  unfolding apply_module_migrations moved_disk
  get-after plan path clean apart distinct =
      let by_path = contents plan in
      let planned = IsPlanned-of by_path plan.moves (
        contents-targets plan.pending (planned_contents plan.moves []) plan.moves
          (planned_contents-targets plan.moves [] distinct)) in
      let entries =
        add_pending-IsMap codec disk plan.pending (planned_contents plan.moves [])
          (planned_contents-IsMap plan.moves [] tt) in
      let moved = get-move_files by_path plan.moves disk path apart planned in
      let written =
        get-write_rest by_path plan.moves by_path (move_files by_path plan.moves disk) path
          entries in
      ap (λ c. Map.get path (unless_conflicts codec plan disk c).0) clean
      ∙ ground (arith, moved, written)

  targets_written :
      (plan : MigrationPlan) (moves : List PlannedPathMove)
      → plan.conflicts ≡ []
      → IsApart plan.moves plan.moves
      → HasDistinctTargets plan.moves
      → All (λ (m : PlannedPathMove). is_target plan.moves m.to ≡ true) moves
      → All (λ (m : PlannedPathMove). Map.get m.to (contents plan) ≡ some m.content) moves
      → All (λ (m : PlannedPathMove). Map.get m.to (after plan) ≡ some m.content) moves
  targets_written plan [] clean apart distinct t h = tt
  targets_written plan (m ∷ moves) clean apart distinct t h = (
    get-after plan m.to clean apart distinct ∙ ground (arith, t.0, h.0),
    targets_written plan moves clean apart distinct t.1 h.1,
  )

  self_targets :
      (all moves : List PlannedPathMove)
      → ((path : Text) → is_target moves path ≡ true → is_target all path ≡ true)
      → All (λ (m : PlannedPathMove). is_target all m.to ≡ true) moves
  self_targets all [] sub = tt
  self_targets all (m ∷ moves) sub = (
    sub m.to (ground (arith, same_refl m.to)),
    self_targets all moves (λ path h. sub path (ground (arith, h))),
  )

  get_empty : (path : Text) → Map.get {V = Bytes} path [] ≡ none
  unfolding Map.get
  get_empty path = refl

  -- The second move removes what the first one wrote.
  lost_in :
      (by_path : Disk) (moves : List PlannedPathMove) (m n : PlannedPathMove)
      → Map.IsMap by_path
      → moves ≡ m ∷ n ∷ []
      → m.to ≡ n.from
      → Map.get m.to (write_rest moves by_path (move_files by_path moves disk)) ≡ none
  unfolding move_files
  lost_in by_path moves m n entries two onto =
      let both : List PlannedPathMove = m ∷ n ∷ [] in
      let moved = Map.remove m.from (Map.put m.to (content_of by_path m) disk) in
      let written = Map.put n.to (content_of by_path n) moved in
      let gone : Map.get m.to (move_files by_path both disk) ≡ none =
        Map.get-remove n.from m.to written ∙ ground (arith, onto, same_iff n.from m.to) in
      let rest = get-write_rest by_path both by_path (move_files by_path both disk) m.to entries in
      rw two (rest ∙ ground (arith, gone, same_refl m.to))

  -- Where no target of a move is a source or the target of another, every moved file has its planned
  -- content at its target, and any other path that no replacement names is gone if it was moved and as it
  -- was if not.
  pub apply_module_migrations-Moves :
      (plan : MigrationPlan)
      → plan.conflicts ≡ []
      → IsApart plan.moves plan.moves
      → HasDistinctTargets plan.moves
      → All (λ (m : PlannedPathMove). Map.get m.to (after plan) ≡ some m.content) plan.moves
        × ((path : Text)
            → is_target plan.moves path ≡ false
            → has_replacement path plan.pending ≡ false
            → Map.get path (after plan)
              ≡ (if is_source plan.moves path then none else Map.get path disk))
  apply_module_migrations-Moves plan clean apart distinct = (
    targets_written plan plan.moves clean apart distinct
        (self_targets plan.moves plan.moves (λ path h. h))
        (contents-targets plan.pending (planned_contents plan.moves []) plan.moves
          (planned_contents-targets plan.moves [] distinct)),
    λ path t r.
        let unplanned : Map.get path (contents plan) ≡ none =
          add_pending-other plan.pending (planned_contents plan.moves []) path r
          ∙ planned_contents-other plan.moves [] path t
          ∙ get_empty path in
        get-after plan path clean apart distinct ∙ ground (arith, t, unplanned),
  )

  -- If a plan without conflicts has two moves, the first of them to the place from which the second one takes
  -- its file, then nothing stands at that place afterwards: the file that was moved first is lost.
  pub apply_module_migrations-lost :
      (plan : MigrationPlan) (m n : PlannedPathMove)
      → plan.conflicts ≡ []
      → plan.moves ≡ m ∷ n ∷ []
      → m.to ≡ n.from
      → Map.get m.to (after plan) ≡ none
  unfolding apply_module_migrations moved_disk
  apply_module_migrations-lost plan m n clean two onto =
      let by_path = contents plan in
      let entries =
        add_pending-IsMap codec disk plan.pending (planned_contents plan.moves [])
          (planned_contents-IsMap plan.moves [] tt) in
      ap (λ c. Map.get m.to (unless_conflicts codec plan disk c).0) clean
      ∙ lost_in by_path plan.moves m n entries two onto
