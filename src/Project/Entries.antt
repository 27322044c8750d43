-- ===== src/Project/Entries.antt =====
-- The entries that `updatedFilesLock` leaves.
use podokit.Base.{
  true, ◌∙◌, ◌≡◌, refl, sym, ap, inl, inr, Bool, false, ◌&&◌, Option, none, some, List, [], ◌∷◌,
  arith, if◌then◌else◌, Bool-cases, Option-cases, keep_if, Text, same, same_iff, same_refl, nat_eq,
  text_eq,
}
use mathlib.Core.Path.{subst}
use podokit.Map
use podokit.Texts.Sets.{contains, contains-sort, sort}
use podokit.Project.Files.{compute_files_lock, contains-keys}
use podokit.Project.Lock.{keys, is_walked, walk_files, Bytes, Codec, Disk, Files, FileEntry}
use podokit.Project.Files.{entries_of, entry_of}
use podokit.Project.Changes.{Tree, tree_text}
use podokit.Project.Plan.{text_hash}
use podokit.Project.Relock.{
  refresh_entry, refresh_all, add_tombstones, with_tombstone, updated_files_lock, tombstone,
  needs_tombstone,
}

pub contains-keep_if :
    (p : Text → Bool) (path : Text) (paths : List Text)
    → contains path (keep_if p paths) ≡ (p path && contains path paths)
unfolding contains keep_if
contains-keep_if p path [] = ground arith
contains-keep_if p path (q ∷ paths) = elim (Bool-cases (same q path)) [
  | inl e ↦
      let equal : q ≡ path = (same_iff q path).0 e in
      ground (arith, contains-keep_if p path paths, ap p equal, e)
  | inr e ↦ ground (arith, contains-keep_if p path paths, e)
]

module _ (codec : Codec) (owned_globs overrides : List Text) (only : Option (List Text))
    (tree : Tree) (previous : Files) (disk : Disk) where
  -- The entry of a file before the tombstones are added.
  abbrev pub refreshed : Text → Option Bytes → Option FileEntry
  refreshed path none = none
  refreshed path (some content) =
      refresh_entry codec overrides only path (Map.get path previous) (tree_text codec tree path)
        (entry_of codec owned_globs overrides path content)

  abbrev Found : Text → List Text → Type 0
  Found path paths =
      Map.get path (
        refresh_all codec overrides only tree previous
          (entries_of codec owned_globs overrides disk paths))
      ≡ (if contains path paths then refreshed path (Map.get path disk) else none)

  Found-first : (path : Text) (paths : List Text) → Found path paths → Found path (path ∷ paths)
  unfolding entries_of refresh_all contains Map.get
  Found-first path paths ih = elim (Option-cases (Map.get path disk)) [
    | inl e ↦ ground (arith, ih, e, same_refl path)
    | inr (content, e) ↦ elim (Option-cases (refreshed path (some content))) [
      | inl r ↦ ground (arith, ih, e, r, same_refl path)
      | inr (entry, r) ↦ ground (arith, ih, e, r, same_refl path)
    ]
  ]

  Found-later :
      (path q : Text) (paths : List Text)
      → same q path ≡ false
      → Found path paths
      → Found path (q ∷ paths)
  unfolding entries_of refresh_all contains Map.get
  Found-later path q paths other ih = elim (Option-cases (Map.get q disk)) [
    | inl e ↦ ground (arith, ih, e, other)
    | inr (content, e) ↦ elim (Option-cases (refreshed q (some content))) [
      | inl r ↦ ground (arith, ih, e, r, other)
      | inr (entry, r) ↦ ground (arith, ih, e, r, other)
    ]
  ]

  get-refresh_all : (path : Text) (paths : List Text) → Found path paths
  unfolding entries_of refresh_all contains Map.get
  get-refresh_all path [] = refl
  get-refresh_all path (q ∷ paths) = elim (Bool-cases (same q path)) [
    | inl e ↦
        subst (λ p. Found path (p ∷ paths)) (sym ((same_iff q path).0 e))
          (Found-first path paths (get-refresh_all path paths))
    | inr e ↦ Found-later path q paths e (get-refresh_all path paths)
  ]

  contains-walk_files :
      (path : Text) → contains path (walk_files disk) ≡ (is_walked path && Map.has path disk)
  unfolding walk_files
  contains-walk_files path =
      contains-keep_if is_walked path (keys disk)
      ∙ ap (λ b. is_walked path && b) (contains-keys path disk)

  -- A walked file has the entry that is computed from it, refreshed.
  get-refreshed :
      (path : Text)
      → Map.get path (
          refresh_all codec overrides only tree previous
            (compute_files_lock codec owned_globs overrides disk))
        ≡ (if is_walked path then refreshed path (Map.get path disk) else none)
  unfolding compute_files_lock
  get-refreshed path =
      get-refresh_all path (sort (walk_files disk)) ∙ elim (Option-cases (Map.get path disk)) [
        | inl e ↦ ground (arith, e, contains-sort path (walk_files disk), contains-walk_files path)
        | inr (content, e) ↦ ground (
          arith,
          e,
          contains-sort path (walk_files disk),
          contains-walk_files path,
          Map.has_of_get path content disk e,
        )
      ]

  -- What is added for a path that has no entry.
  abbrev pub added : Text → Option Text → Option FileEntry → Option FileEntry
  added path none before = none
  added path (some text) none = none
  added path (some text) (some entry) =
      if needs_tombstone codec owned_globs overrides path text
      then some (tombstone codec entry (text_hash codec text))
      else none

  abbrev pub or_added : Text → Option FileEntry → Option FileEntry → Option FileEntry
  or_added path (some entry) before = some entry
  or_added path none before = added path (tree_text codec tree path) before

  abbrev Added : Text → Files → Files → Type 0
  Added path before next =
      Map.get path (add_tombstones codec owned_globs overrides tree before next)
      ≡ or_added path (Map.get path next) (Map.get path before)

  get-with_tombstone :
      (q path : Text) (entry : FileEntry) (next : Files)
      → Map.get path (with_tombstone codec owned_globs overrides tree q entry next)
        ≡ (if same q path then or_added q (Map.get q next) (some entry) else Map.get path next)
  unfolding with_tombstone
  get-with_tombstone q path entry next =
      let here : same q path ≡ true → Map.get path next ≡ Map.get q next =
        λ e. ap (λ p. Map.get p next) (sym ((same_iff q path).0 e)) in
      elim (Option-cases (Map.get q next)) [
        | inr (other, e) ↦ ground (arith, e, here, Map.has_of_get q other next e)
        | inl e ↦ elim (Option-cases (tree_text codec tree q)) [
          | inl t ↦ ground (arith, e, t, here, Map.not_has_of_get q next e)
          | inr (text, t) ↦ ground (
            arith,
            e,
            t,
            here,
            Map.not_has_of_get q next e,
            Map.get-put q path (tombstone codec entry (text_hash codec text)) next,
          )
        ]
      ]

  get_empty : (path : Text) → Map.get {V = FileEntry} path [] ≡ none
  unfolding Map.get
  get_empty path = refl

  get_first :
      (path : Text) (entry : FileEntry) (before : Files)
      → Map.get path ((path, entry) ∷ before) ≡ some entry
  unfolding Map.get
  get_first path entry before = ground (arith, same_refl path)

  get_later :
      (path q : Text) (entry : FileEntry) (before : Files)
      → same q path ≡ false
      → Map.get path ((q, entry) ∷ before) ≡ Map.get path before
  unfolding Map.get
  get_later path q entry before other = ground (arith, other)

  Added-first :
      (path : Text) (entry : FileEntry) (before : Files)
      → ((next : Files) → Added path before next)
      → (next : Files) → Added path ((path, entry) ∷ before) next
  unfolding add_tombstones
  Added-first path entry before ih next = ground (
    arith,
    ih (with_tombstone codec owned_globs overrides tree path entry next),
    get-with_tombstone path path entry next,
    get_first path entry before,
    same_refl path,
  )

  Added-later :
      (path q : Text) (entry : FileEntry) (before : Files)
      → same q path ≡ false
      → ((next : Files) → Added path before next)
      → (next : Files) → Added path ((q, entry) ∷ before) next
  unfolding add_tombstones
  Added-later path q entry before other ih next = ground (
    arith,
    ih (with_tombstone codec owned_globs overrides tree q entry next),
    get-with_tombstone q path entry next,
    get_later path q entry before other,
    other,
  )

  get-add_tombstones : (path : Text) (before next : Files) → Added path before next
  unfolding add_tombstones
  get-add_tombstones path [] next = ground (arith, get_empty path)
  get-add_tombstones path ((q, entry) ∷ before) next = elim (Bool-cases (same q path)) [
    | inl e ↦
        subst (λ p. Added path ((p, entry) ∷ before) next) (sym ((same_iff q path).0 e))
          (Added-first path entry before (get-add_tombstones path before) next)
    | inr e ↦ Added-later path q entry before e (get-add_tombstones path before) next
  ]

  -- The lock that an update leaves.
  pub get-updated_files_lock :
      (path : Text)
      → Map.get path (updated_files_lock codec disk tree previous owned_globs overrides only)
        ≡ or_added path
            (if is_walked path then refreshed path (Map.get path disk) else none)
            (Map.get path previous)
  unfolding updated_files_lock
  get-updated_files_lock path =
      get-add_tombstones path previous (
        refresh_all codec overrides only tree previous
          (compute_files_lock codec owned_globs overrides disk))
      ∙ ap (λ entry. or_added path entry (Map.get path previous)) (get-refreshed path)
