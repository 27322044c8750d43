-- ===== src/Project/Loop.antt =====
-- The loop of `applyUpdate` over the changes of the plan, file by file, and that it comes to its end.
use podokit.Base.{
  ◌≡◌, refl, ap, ◌∙◌, ◌≢◌, inl, inr, false, Option, none, some, List, [], ◌∷◌, map, arith,
  if◌then◌else◌, Bool-cases, Option-cases, All, ok, Result-cases, Text, same, same_iff, nat_eq,
  text_eq,
}
use podokit.Map
use podokit.Merge.ThreeWay.{three_way_merge}
use podokit.Texts.Sets.{contains, IsDistinct}
use podokit.Project.Lock.{Bytes, Codec, Disk}
use podokit.Project.Changes.{
  Tree, Action, review, update, merge, conflict, keep, add, move, remove, skip, up_to_date,
  FileChange, Planned, tree_text, changes_of,
}
use podokit.Project.Apply.{
  labels, write_merge, Applied, base_text, merge_edited, apply_merge, apply_action, apply_change,
  apply_changes,
}
use podokit.Project.Outcome.{file_after, Sets, apply_action-Sets}

-- What the change that is planned for a file makes of its content.
abbrev pub effect : Codec → Tree → Option Tree → Option FileChange → Option Bytes → Option Bytes
effect codec tree old none content = content
effect codec tree old (some c) content =
    file_after codec c.action (base_text codec old c.path) (tree_text codec tree c.path) content

apply_action-returns :
    (codec : Codec) (old : Option Tree) (c : FileChange) (new : Option Text) (s : Applied)
    (action : Action)
    → (action ≡ merge → Map.get c.path s.disk ≢ none)
    → (m : Applied) × (apply_action codec old c new s action ≡ ok m)
unfolding apply_action apply_merge merge_edited
apply_action-returns codec old c new s update h = (_, refl)
apply_action-returns codec old c new s add h = (_, refl)
apply_action-returns codec old c new s remove h = (_, refl)
apply_action-returns codec old c new s keep h = (_, refl)
apply_action-returns codec old c new s review h = (_, refl)
apply_action-returns codec old c new s conflict h = (_, refl)
apply_action-returns codec old c new s move h = (_, refl)
apply_action-returns codec old c new s skip h = (_, refl)
apply_action-returns codec old c new s up_to_date h = (_, refl)
apply_action-returns codec old c none s merge h = (_, refl)
apply_action-returns codec old c (some next) s merge h =
    elim (Option-cases (base_text codec old c.path)) [
      | inl e ↦ (write_merge codec c.path none s, ground (arith, e))
      | inr (base, e) ↦ elim (Option-cases (Map.get c.path s.disk)) [
        | inl q ↦ absurd (h refl q)
        | inr (content, q) ↦ (
          write_merge codec c.path (some (three_way_merge labels base (codec.decode content) next))
              s,
          ground (arith, e, q),
        )
      ]
    ]

module _ (codec : Codec) (tree : Tree) (old : Option Tree) (plan : Text → Planned)
    (named : (q : Text) (c : FileChange) → (plan q).changed ≡ some c → c.path ≡ q) where
  abbrev Loops : List Text → Disk → Disk → Type 0
  Loops paths before after =
      (path : Text)
      → Map.get path after ≡ (
          if contains path paths
          then effect codec tree old (plan path).changed (Map.get path before)
          else Map.get path before)

  skip_file :
      (q : Text) (paths : List Text) (before after : Disk)
      → (plan q).changed ≡ none
      → contains q paths ≡ false
      → Loops paths before after
      → Loops (q ∷ paths) before after
  unfolding contains
  skip_file q paths before after e fresh rest path = elim (Bool-cases (same q path)) [
    | inl p ↦
        let equal : q ≡ path = (same_iff q path).0 p in
        let e' : (plan path).changed ≡ none = rw equal at e in
        let fresh' : contains path paths ≡ false = rw equal at fresh in
        rw (p, e') (rw fresh' at (rest path))
    | inr p ↦ rw p (rest path)
  ]

  change_file :
      (q : Text) (paths : List Text) (c : FileChange) (before middle after : Disk)
      → (plan q).changed ≡ some c
      → contains q paths ≡ false
      → Sets c.path
          (file_after codec c.action
            (base_text codec old c.path)
            (tree_text codec tree c.path)
            (Map.get c.path before))
          before
          middle
      → Loops paths middle after
      → Loops (q ∷ paths) before after
  unfolding contains
  change_file q paths c before middle after e fresh now rest path =
      let at : c.path ≡ q = named q c e in
      elim (Bool-cases (same q path)) [
        | inl p ↦
            let equal : q ≡ path = (same_iff q path).0 p in
            let fresh' : contains path paths ≡ false = rw equal at fresh in
            let same_path : c.path ≡ path = at ∙ equal in
            ground (
              arith,
              rest path,
              now path,
              fresh',
              p,
              ap plan equal,
              e,
              same_path,
              same_iff c.path path,
            )
        | inr p ↦ ground (arith, rest path, now path, p, same_iff c.path path, same_iff q path, at)
      ]

  pub loop :
      (paths : List Text) (s a : Applied)
      → IsDistinct paths
      → apply_changes codec tree old (changes_of (map plan paths)) s ≡ ok a
      → Loops paths s.disk a.disk
  unfolding apply_changes contains
  loop [] s a d h = λ path. ground (arith, h)
  loop (q ∷ paths) s a d h = elim (Option-cases (plan q).changed) [
    | inl e ↦ skip_file q paths s.disk a.disk e d.0 (loop paths s a d.1 (rw e at h))
    | inr (c, e) ↦ elim (Result-cases (apply_change codec tree old c s)) [
      | inl (m, r) ↦
          change_file q paths c s.disk m.disk a.disk e d.0
            (unfold apply_change in
              apply_action-Sets codec old c (tree_text codec tree c.path) s m c.action r)
            (loop paths m a d.1 (rw (e, r) at h))
      | inr (wrong, r) ↦ absurd (ground (arith, h, e, r))
    ]
  ]

  -- The file that a change reads is there if the change is a merge.
  abbrev IsReadable : Disk → Text → Type 0
  IsReadable disk q =
      (c : FileChange) → (plan q).changed ≡ some c → c.action ≡ merge → Map.get q disk ≢ none

  still-IsReadable :
      (q : Text) (paths : List Text) (content : Option Bytes) (before after : Disk)
      → contains q paths ≡ false
      → Sets q content before after
      → All (IsReadable before) paths
      → All (IsReadable after) paths
  unfolding contains
  still-IsReadable q [] content before after fresh now h = tt
  still-IsReadable q (p ∷ paths) content before after fresh now h =
      let other : same p q ≡ false = ground (arith, fresh) in
      let kept : Map.get p after ≡ Map.get p before =
        ground (arith, now p, other, same_iff q p, same_iff p q) in
      (
        λ c e m. rw kept (h.0 c e m),
        still-IsReadable q paths content before after (ground (arith, fresh)) now h.1,
      )

  pub loop-returns :
      (paths : List Text) (s : Applied)
      → IsDistinct paths
      → All (IsReadable s.disk) paths
      → (a : Applied) × (apply_changes codec tree old (changes_of (map plan paths)) s ≡ ok a)
  unfolding apply_changes
  loop-returns [] s d h = (s, refl)
  loop-returns (q ∷ paths) s d h = elim (Option-cases (plan q).changed) [
    | inl e ↦ rw e (loop-returns paths s d.1 h.1)
    | inr (c, e) ↦
        let read : c.action ≡ merge → Map.get c.path s.disk ≢ none = rw (named q c e) (h.0 c e) in
        let (m, r) =
          apply_action-returns codec old c (tree_text codec tree c.path) s c.action read in
        let step : apply_change codec tree old c s ≡ ok m = unfold apply_change in r in
        let now = apply_action-Sets codec old c (tree_text codec tree c.path) s m c.action r in
        let fresh : contains c.path paths ≡ false = rw (named q c e) d.0 in
        let after = still-IsReadable c.path paths _ s.disk m.disk fresh now h.1 in
        rw (e, step) (loop-returns paths m d.1 after)
  ]
