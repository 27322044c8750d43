-- ===== src/Project/Removals.antt =====
-- remove.ts: which files removing a module deletes.
use mathlib.Core.Path.{subst}
use podokit.Base.{
  ◌≡◌, refl, ap, ◌∙◌, inl, inr, Bool, true, false, not, ◌&&◌, Option, none, some, List, [], ◌∷◌,
  arith, Bool-cases, Option-cases, Text, same, same_iff, nat_eq, text_eq,
}
use podokit.Map
use podokit.Texts.Sets.{contains}
use podokit.Project.Lock.{Bytes, Codec, Files, FileEntry}
use podokit.Project.Plan.{is_edited}
use podokit.Project.Removing.{Removed, remove_at, remove_file, remove_files}

module _ (codec : Codec) where
  -- Whether a file of the module goes: it is there, no other module ships it, and it is as it was generated
  -- or is in no lock.
  abbrev pub is_deleted : Option FileEntry → Bool → Option Bytes → Bool
  is_deleted locked is_shared none = false
  is_deleted locked is_shared (some content) = not is_shared && not (is_edited codec locked content)

  abbrev pub after_removal : Bool → Option Bytes → Option Bytes
  after_removal true content = none
  after_removal false content = content

  get-remove_at :
      (locked : Option FileEntry) (is_shared : Bool) (q path : Text) (s : Removed)
      → Map.get path (remove_at codec locked is_shared q (Map.get q s.disk) s).disk
        ≡ after_removal
            (same q path && is_deleted locked is_shared (Map.get q s.disk))
            (Map.get path s.disk)
  get-remove_at locked is_shared q path s = elim (Option-cases (Map.get q s.disk)) [
    | inl e ↦ rw e ground (arith)
    | inr (content, e) ↦ rw e ground (arith, Map.get-remove q path s.disk)
  ]

  abbrev removed_at : Option FileEntry → Bool → Option Bytes → Option Bytes
  removed_at locked is_shared content = after_removal (is_deleted locked is_shared content) content

  removed_at-again :
      (locked : Option FileEntry) (is_shared again : Bool) (content : Option Bytes)
      → after_removal
          (again && is_deleted locked is_shared (removed_at locked is_shared content))
          (removed_at locked is_shared content)
        ≡ removed_at locked is_shared content
  removed_at-again locked is_shared again none = ground arith
  removed_at-again locked is_shared again (some content) =
      elim (Bool-cases (is_deleted locked is_shared (some content))) [
        | inl e ↦ rw e (ground arith)
        | inr e ↦ rw e (ground (arith))
      ]

  -- The step of a removal that deletes files deletes, of those that the module ships, exactly the ones that
  -- are there, that no other module ships, and whose content is the one that the lock has, if it has any.
  -- This step leaves every other file as it was; the steps for the wiring, .env.example, package.json and
  -- the API paths are others.
  pub remove_files-deletes :
      (lock : Files) (shared paths : List Text) (s : Removed) (path : Text)
      → Map.get path (remove_files codec lock shared paths s).disk
        ≡ after_removal
            (contains path paths
              && is_deleted (Map.get path lock) (contains path shared) (Map.get path s.disk))
            (Map.get path s.disk)
  unfolding remove_files remove_file contains
  remove_files-deletes lock shared [] s path = refl
  remove_files-deletes lock shared (q ∷ paths) s path =
      let next = remove_file codec lock shared q s in
      let rest = remove_files-deletes lock shared paths next path in
      let first = get-remove_at (Map.get q lock) (contains q shared) q path s in
      elim (Bool-cases (same q path)) [
        | inl e ↦
            let equal : q ≡ path = (same_iff q path).0 e in
            let at_q : Map.get path next.disk ≡ _ = rw e at first in
            let now : Map.get path next.disk
                ≡ removed_at (Map.get path lock) (contains path shared) (Map.get path s.disk) =
              subst
                (λ p.
                  Map.get path next.disk
                  ≡ after_removal
                      (is_deleted (Map.get p lock) (contains p shared) (Map.get p s.disk))
                      (Map.get path s.disk))
                equal at_q in
            rest
            ∙ ap
                (λ c.
                  after_removal
                    (contains path paths && is_deleted (Map.get path lock) (contains path shared) c)
                    c)
                now
            ∙ removed_at-again (Map.get path lock) (contains path shared) (contains path paths)
                (Map.get path s.disk)
            ∙ rw e refl
        | inr e ↦
            let same_content : Map.get path next.disk ≡ Map.get path s.disk = rw e at first in
            rest
            ∙ ap
                (λ c.
                  after_removal
                    (contains path paths && is_deleted (Map.get path lock) (contains path shared) c)
                    c)
                same_content
            ∙ rw e refl
      ]
