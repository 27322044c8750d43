-- ===== src/Project/Outcome.antt =====
-- What the loop of `applyUpdate` does to one file, whatever it does to the others.
use podokit.Base.{
  ◌≡◌, sym, ap, inl, inr, Option, none, some, arith, if◌then◌else◌, Bool-cases, Option-cases, ok,
  Text, same, same_iff, nat_eq, text_eq,
}
use podokit.Map
use podokit.Merge.ThreeWay.{three_way_merge}
use podokit.Project.Lock.{Bytes, Codec, Disk}
use podokit.Project.Changes.{
  Tree, Action, review, update, merge, conflict, keep, add, move, remove, skip, up_to_date,
  FileChange,
}
use podokit.Project.Apply.{
  Applied, labels, base_text, merge_edited, text_or_empty, write_text, write_merge, apply_merge,
  write_new, apply_action,
}

-- The content after a merge: the merged text, or the content itself if there is no base.
abbrev pub merged_with : Codec → Option Text → Text → Bytes → Bytes
merged_with codec none next content = content
merged_with codec (some base) next content =
    codec.encode (three_way_merge labels base (codec.decode content) next).merged

abbrev pub merged_file : Codec → Option Text → Option Text → Option Bytes → Option Bytes
merged_file codec base none content = content
merged_file codec base (some next) none = none
merged_file codec base (some next) (some content) = some (merged_with codec base next content)

-- The content of a file after its change, from the one before, the text of the new tree and the base.
abbrev pub file_after : Codec → Action → Option Text → Option Text → Option Bytes → Option Bytes
file_after codec update base new content = some (codec.encode (text_or_empty new))
file_after codec add base new content = some (codec.encode (text_or_empty new))
file_after codec remove base new content = none
file_after codec merge base new content = merged_file codec base new content
file_after codec keep base new content = content
file_after codec review base new content = content
file_after codec conflict base new content = content
file_after codec move base new content = content
file_after codec skip base new content = content
file_after codec up_to_date base new content = content

-- The file at `at` becomes `content`, and the others stay.
abbrev pub Sets : Text → Option Bytes → Disk → Disk → Type 0
Sets at content before after =
    (path : Text) → Map.get path after ≡ (if same at path then content else Map.get path before)

put-Sets :
    (at : Text) (content : Bytes) (disk : Disk)
    → Sets at (some content) disk (Map.put at content disk)
put-Sets at content disk path = Map.get-put at path content disk

remove-Sets : (at : Text) (disk : Disk) → Sets at none disk (Map.remove at disk)
remove-Sets at disk path = Map.get-remove at path disk

none-Sets : (at : Text) (disk : Disk) → Sets at (Map.get at disk) disk disk
none-Sets at disk path = elim (Bool-cases (same at path)) [
  | inl e ↦ rw e (ap (λ p. Map.get p disk) (sym ((same_iff at path).0 e)))
  | inr e ↦ rw e
]

module _ (codec : Codec) (old : Option Tree) where
  write_merge-Sets :
      (at : Text) (base : Text) (next : Text) (content : Bytes) (s : Applied)
      → Sets at
          (some (merged_with codec (some base) next content))
          s.disk
          (write_merge codec at
            (some (three_way_merge labels base (codec.decode content) next))
            s).disk
  unfolding write_text
  write_merge-Sets at base next content s path =
      ground (arith, Map.get-put at path (merged_with codec (some base) next content) s.disk)

  pub apply_merge-Sets :
      (c : FileChange) (next : Text) (s s' : Applied)
      → apply_merge codec old c (some next) s ≡ ok s'
      → Sets c.path
          (merged_file codec (base_text codec old c.path) (some next) (Map.get c.path s.disk))
          s.disk
          s'.disk
  unfolding apply_merge merge_edited
  apply_merge-Sets c next s s' h = elim (Option-cases (base_text codec old c.path)) [
    | inl e ↦ λ path. ground (arith, h, e, none-Sets c.path s.disk path)
    | inr (base, e) ↦ elim (Option-cases (Map.get c.path s.disk)) [
      | inl q ↦ λ path. ground (arith, h, e, q)
      | inr (content, q) ↦
          λ path. ground (arith, h, e, q, write_merge-Sets c.path base next content s path)
    ]
  ]

  pub apply_action-Sets :
      (c : FileChange) (new : Option Text) (s s' : Applied) (action : Action)
      → apply_action codec old c new s action ≡ ok s'
      → Sets c.path
          (file_after codec action (base_text codec old c.path) new (Map.get c.path s.disk))
          s.disk
          s'.disk
  unfolding apply_action write_new write_text apply_merge
  apply_action-Sets c new s s' update h path =
      ground (arith, h, put-Sets c.path (codec.encode (text_or_empty new)) s.disk path)
  apply_action-Sets c new s s' add h path =
      ground (arith, h, put-Sets c.path (codec.encode (text_or_empty new)) s.disk path)
  apply_action-Sets c new s s' remove h path = ground (arith, h, remove-Sets c.path s.disk path)
  apply_action-Sets c (some next) s s' merge h path = apply_merge-Sets c next s s' h path
  apply_action-Sets c none s s' merge h path = ground (arith, h, none-Sets c.path s.disk path)
  apply_action-Sets c new s s' keep h path = ground (arith, h, none-Sets c.path s.disk path)
  apply_action-Sets c new s s' review h path = ground (arith, h, none-Sets c.path s.disk path)
  apply_action-Sets c new s s' conflict h path = ground (arith, h, none-Sets c.path s.disk path)
  apply_action-Sets c new s s' move h path = ground (arith, h, none-Sets c.path s.disk path)
  apply_action-Sets c new s s' skip h path = ground (arith, h, none-Sets c.path s.disk path)
  apply_action-Sets c new s s' up_to_date h path = ground (arith, h, none-Sets c.path s.disk path)
