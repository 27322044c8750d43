-- ===== src/Project/Moved.antt =====
-- What `applyModuleMigrations` makes of the files, for moves whose targets are not sources of others, and
-- what it does to a file that is moved onto the source of a later move.
use podokit.Base.{
  ◌≡◌, refl, ap, ◌∙◌, ◌≢◌, inl, inr, Bool, true, false, ◌||◌, Option, none, some, List, [], ◌∷◌,
  arith, if◌then◌else◌, Bool-cases, Option-cases, all, All, Text, same, same_iff, same_refl, nat_eq,
  text_eq,
}
use mathlib.Core.Path.{subst}
use podokit.Map
use podokit.Project.Lock.{Bytes, Codec, Disk}
use podokit.Project.Files.{or_else}
use podokit.Project.Changes.{PlannedPathMove}
use podokit.Project.Migrations.{Pending, Replacement, transformed_content}
use podokit.Project.Moves.{is_target}
use podokit.Project.Moving.{
  planned_contents, add_replaced, add_pending, with_replaced, content_of, move_files, write_rest,
}

abbrev pub is_source : List PlannedPathMove → Text → Bool
is_source [] path = false
is_source (m ∷ moves) path = same m.from path || is_source moves path

-- The target of a move is neither its source nor one of another.
abbrev pub IsApart : List PlannedPathMove → List PlannedPathMove → Type 0
IsApart all moves = All (λ (m : PlannedPathMove). is_source all m.to ≡ false) moves

-- No two moves have the same target.
abbrev pub HasDistinctTargets : List PlannedPathMove → Type 0
HasDistinctTargets [] = Unit
HasDistinctTargets (m ∷ moves) = (is_target moves m.to ≡ false) × HasDistinctTargets moves

abbrev pub IsPlanned : Disk → List PlannedPathMove → Type 0
IsPlanned by_path moves = All (λ (m : PlannedPathMove). Map.get m.to by_path ≢ none) moves

IsApart-later :
    (m : PlannedPathMove) (all moves : List PlannedPathMove)
    → IsApart (m ∷ all) moves
    → IsApart all moves
IsApart-later m all [] h = tt
IsApart-later m all (n ∷ moves) h = (ground (arith, h.0), IsApart-later m all moves h.1)

module _ (by_path : Disk) where
  abbrev pub moved_file : List PlannedPathMove → Text → Option Bytes → Option Bytes
  moved_file moves path content =
      if is_target moves path
      then Map.get path by_path
      else if is_source moves path
      then none
      else content

  content_there :
      (m : PlannedPathMove)
      → Map.get m.to by_path ≢ none
      → Map.get m.to by_path ≡ some (content_of by_path m)
  content_there m h = elim (Option-cases (Map.get m.to by_path)) [
    | inl e ↦ absurd (h e)
    | inr (content, e) ↦ ground (arith, e)
  ]

  pub get-move_files :
      (moves : List PlannedPathMove) (disk : Disk) (path : Text)
      → IsApart moves moves
      → IsPlanned by_path moves
      → Map.get path (move_files by_path moves disk) ≡ moved_file moves path (Map.get path disk)
  unfolding move_files
  get-move_files [] disk path apart planned = refl
  get-move_files (m ∷ moves) disk path apart planned =
      let content = content_of by_path m in
      let written = Map.put m.to content disk in
      let ih =
        get-move_files moves (Map.remove m.from written) path (IsApart-later m moves moves apart.1)
          planned.1 in
      let after = Map.get-remove m.from path written in
      let here = Map.get-put m.to path content disk in
      elim (Bool-cases (same m.to path)) [
        | inl e ↦
            let at : m.to ≡ path = (same_iff m.to path).0 e in
            let clear : is_source (m ∷ moves) path ≡ false = rw at at apart.0 in
            let there : Map.get path by_path ≡ some content =
              subst (λ p. Map.get p by_path ≡ some content) at (content_there m planned.0) in
            ground (arith, ih, after, here, e, clear, there)
        | inr e ↦ ground (arith, ih, after, here, e)
      ]

  pub get-write_rest :
      (moves : List PlannedPathMove) (entries disk : Disk) (path : Text)
      → Map.IsMap entries
      → Map.get path (write_rest moves entries disk) ≡ (
          if is_target moves path
          then Map.get path disk
          else or_else (Map.get path entries) (Map.get path disk))
  unfolding write_rest Map.get
  get-write_rest moves [] disk path d = ground arith
  get-write_rest moves ((q, content) ∷ entries) disk path d =
      let next = if is_target moves q then disk else Map.put q content disk in
      let ih = get-write_rest moves entries next path d.1 in
      let written = Map.get-put q path content disk in
      elim (Bool-cases (same q path)) [
        | inl e ↦
            let at : q ≡ path = (same_iff q path).0 e in
            let once : Map.get path entries ≡ none =
              Map.get-none_of_not_has path entries (rw at at d.0) in
            let same_test : is_target moves q ≡ is_target moves path = ap (is_target moves) at in
            ground (arith, ih, written, e, once, same_test)
        | inr e ↦ ground (arith, ih, written, e)
      ]

-- A path that has a content keeps it.
with_replaced-keeps :
    (codec : Codec) (disk : Disk) (p : Pending) (r : Replacement) (by_path : Disk) (path : Text)
    (content : Bytes)
    → Map.get path by_path ≡ some content
    → Map.get path (with_replaced codec disk p r by_path) ≡ some content
unfolding with_replaced
with_replaced-keeps codec disk p r by_path path content h =
    let same_has : same r.path path ≡ true → Map.has r.path by_path ≡ Map.has path by_path =
      λ e. ap (λ t. Map.has t by_path) ((same_iff r.path path).0 e) in
    elim (Bool-cases (Map.has r.path by_path)) [
      | inl e ↦ rw e h
      | inr e ↦ elim (Option-cases (Map.get r.path disk)) [
        | inl q ↦ ground (arith, e, q, h)
        | inr (c, q) ↦ ground (
          arith,
          e,
          q,
          h,
          Map.get-put r.path path (transformed_content codec r.path c (p ∷ [])).0 by_path,
          Map.has_of_get path content by_path h,
          same_has,
        )
      ]
    ]

with_replaced-IsMap :
    (codec : Codec) (disk : Disk) (p : Pending) (r : Replacement) (by_path : Disk)
    → Map.IsMap by_path
    → Map.IsMap (with_replaced codec disk p r by_path)
unfolding with_replaced
with_replaced-IsMap codec disk p r by_path h = elim (Option-cases (Map.get r.path disk)) [
  | inl q ↦ ground (arith, q, h)
  | inr (c, q) ↦
      ground (
        arith,
        q,
        h,
        Map.put-IsMap r.path (transformed_content codec r.path c (p ∷ [])).0 by_path h,
      )
]

add_replaced-keeps :
    (codec : Codec) (disk : Disk) (p : Pending) (rs : List Replacement) (by_path : Disk)
    (path : Text) (content : Bytes)
    → Map.get path by_path ≡ some content
    → Map.get path (add_replaced codec disk p rs by_path) ≡ some content
unfolding add_replaced
add_replaced-keeps codec disk p [] by_path path content h = h
add_replaced-keeps codec disk p (r ∷ rs) by_path path content h =
    add_replaced-keeps codec disk p rs (with_replaced codec disk p r by_path) path content
      (with_replaced-keeps codec disk p r by_path path content h)

pub add_pending-keeps :
    (codec : Codec) (disk : Disk) (ps : List Pending) (by_path : Disk) (path : Text)
    (content : Bytes)
    → Map.get path by_path ≡ some content
    → Map.get path (add_pending codec disk ps by_path) ≡ some content
unfolding add_pending
add_pending-keeps codec disk [] by_path path content h = h
add_pending-keeps codec disk (p ∷ ps) by_path path content h =
    add_pending-keeps codec disk ps (add_replaced codec disk p p.migration.replacements by_path)
      path content (add_replaced-keeps codec disk p p.migration.replacements by_path path content h)

add_replaced-IsMap :
    (codec : Codec) (disk : Disk) (p : Pending) (rs : List Replacement) (by_path : Disk)
    → Map.IsMap by_path
    → Map.IsMap (add_replaced codec disk p rs by_path)
unfolding add_replaced
add_replaced-IsMap codec disk p [] by_path h = h
add_replaced-IsMap codec disk p (r ∷ rs) by_path h =
    add_replaced-IsMap codec disk p rs (with_replaced codec disk p r by_path)
      (with_replaced-IsMap codec disk p r by_path h)

pub add_pending-IsMap :
    (codec : Codec) (disk : Disk) (ps : List Pending) (by_path : Disk)
    → Map.IsMap by_path
    → Map.IsMap (add_pending codec disk ps by_path)
unfolding add_pending
add_pending-IsMap codec disk [] by_path h = h
add_pending-IsMap codec disk (p ∷ ps) by_path h =
    add_pending-IsMap codec disk ps (add_replaced codec disk p p.migration.replacements by_path)
      (add_replaced-IsMap codec disk p p.migration.replacements by_path h)

pub planned_contents-IsMap :
    (moves : List PlannedPathMove) (by_path : Disk)
    → Map.IsMap by_path
    → Map.IsMap (planned_contents moves by_path)
unfolding planned_contents
planned_contents-IsMap [] by_path h = h
planned_contents-IsMap (m ∷ moves) by_path h =
    planned_contents-IsMap moves (Map.put m.to m.content by_path)
      (Map.put-IsMap m.to m.content by_path h)

-- Without a later move to the same path, a content stays planned.
pub planned_contents-other :
    (moves : List PlannedPathMove) (by_path : Disk) (path : Text)
    → is_target moves path ≡ false
    → Map.get path (planned_contents moves by_path) ≡ Map.get path by_path
unfolding planned_contents
planned_contents-other [] by_path path h = refl
planned_contents-other (m ∷ moves) by_path path h = ground (
  arith,
  h,
  planned_contents-other moves (Map.put m.to m.content by_path) path,
  Map.get-put m.to path m.content by_path,
)

pub planned_contents-targets :
    (moves : List PlannedPathMove) (by_path : Disk)
    → HasDistinctTargets moves
    → All
        (λ (m : PlannedPathMove). Map.get m.to (planned_contents moves by_path) ≡ some m.content)
        moves
unfolding planned_contents
planned_contents-targets [] by_path d = tt
planned_contents-targets (m ∷ moves) by_path d = (
  planned_contents-other moves (Map.put m.to m.content by_path) m.to d.0
      ∙ Map.get-put m.to m.to m.content by_path
      ∙ ground (arith, same_refl m.to),
  planned_contents-targets moves (Map.put m.to m.content by_path) d.1,
)
