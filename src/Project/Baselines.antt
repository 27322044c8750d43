-- ===== src/Project/Baselines.antt =====
-- lockfile.ts, `recordModules`: what the lock keeps of the files that were edited before a module was added.
use podokit.Base.{
  ◌≡◌, refl, ap, ◌∙◌, inl, inr, Bool, false, ◌||◌, Option, none, some, List, [], ◌∷◌, arith,
  if◌then◌else◌, Bool-cases, Text, same, same_iff, nat_eq, text_eq,
}
use podokit.Map
use mathlib.Core.Path.{subst}
use podokit.Texts.Sets.{contains}
use podokit.Project.Lock.{Codec, Disk, Files, FileEntry, is_owned}
use podokit.Project.Files.{
  is_some, compute_files_lock, kept_entry, keep_hashes, keep_template_hashes,
  recorded_template_hash,
}
use podokit.Project.Recording.{
  is_clean_at, LockSnapshot, Manifest, list_or, kept_or, kept_entries, add_entry, add_entries,
  snapshot_lock, recorded_lock, clean_paths,
}

get-kept_entries :
    (snapshot : LockSnapshot) (computed files : Files) (path : Text) (p : FileEntry)
    → Map.get path files ≡ some p
    → Map.get path (kept_entries snapshot computed files)
      ≡ some (kept_or snapshot path p (Map.get path computed))
unfolding kept_entries Map.get
get-kept_entries snapshot computed [] path p h = absurd (ground arith)
get-kept_entries snapshot computed ((j, entry) ∷ files) path p h = elim (Bool-cases (same j path)) [
  | inl e ↦
      let here : j ≡ path = (same_iff j path).0 e in
      let found : some entry ≡ some p = rw e at h in
      let entry_p : entry ≡ p = cc in rw (e, here, entry_p) refl
  | inr e ↦ rw e (get-kept_entries snapshot computed files path p (rw e at h))
]

get-add_entry :
    (path j : Text) (current : Option FileEntry) (files : Files) (p : FileEntry)
    → Map.get path files ≡ some p
    → Map.get path (add_entry j current files) ≡ some p
get-add_entry path j none files p h = h
get-add_entry path j (some current) files p h =
    ground
      (arith, same_iff j path, Map.get-put j path current files, Map.has_of_get path p files h, h)

get-add_entries :
    (computed : Files) (paths : List Text) (files : Files) (path : Text) (p : FileEntry)
    → Map.get path files ≡ some p
    → Map.get path (add_entries computed paths files) ≡ some p
unfolding add_entries
get-add_entries computed [] files path p h = h
get-add_entries computed (j ∷ paths) files path p h =
    get-add_entries computed paths (add_entry j (Map.get j computed) files) path p
      (get-add_entry path j (Map.get j computed) files p h)

pub get-keep_hashes :
    (previous : Files) (skip : List Text) (files : Files) (path : Text) (p : FileEntry)
    → Map.get path files ≡ some p
    → Map.get path (keep_hashes previous skip files) ≡ some (kept_entry previous skip path p)
unfolding keep_hashes Map.get
get-keep_hashes previous skip [] path p h = absurd (ground arith)
get-keep_hashes previous skip ((j, entry) ∷ files) path p h = elim (Bool-cases (same j path)) [
  | inl e ↦
      let here : j ≡ path = (same_iff j path).0 e in
      let found : some entry ≡ some p = rw e at h in
      let entry_p : entry ≡ p = cc in rw (e, here, entry_p) refl
  | inr e ↦ rw e (get-keep_hashes previous skip files path p (rw e at h))
]

if-same {ℓ} : {A : Type ℓ} (b : Bool) (a : A) → (if b then a else a) ≡ a
if-same b a = ground arith

-- An entry that was in the lock gets no other template hash.
kept_entry-of_previous :
    (previous : Files) (skip : List Text) (path : Text) (p : FileEntry)
    → Map.get path previous ≡ some p
    → kept_entry previous skip path p ≡ p
unfolding recorded_template_hash
kept_entry-of_previous previous skip path p h = elim (Bool-cases (is_owned p.tier)) [
  | inl e ↦ rw (h, e) (if-same (is_some p.template_hash || contains path skip) p)
  | inr e ↦ rw e refl
]

contains-clean_paths-absent :
    (codec : Codec) (disk : Disk) (path : Text) (files : Files)
    → Map.has path files ≡ false
    → contains path (clean_paths codec disk files) ≡ false
unfolding clean_paths contains Map.has
contains-clean_paths-absent codec disk path [] h = refl
contains-clean_paths-absent codec disk path ((j, entry) ∷ files) h =
    ground (arith, contains-clean_paths-absent codec disk path files)

contains-clean_paths :
    (codec : Codec) (disk : Disk) (path : Text) (p : FileEntry) (files : Files)
    → Map.IsMap files
    → Map.get path files ≡ some p
    → is_clean_at codec (Map.get path disk) p ≡ false
    → contains path (clean_paths codec disk files) ≡ false
unfolding clean_paths contains Map.get
contains-clean_paths codec disk path p [] m h e = refl
contains-clean_paths codec disk path p ((j, entry) ∷ files) m h e =
    elim (Bool-cases (same j path)) [
      | inl here ↦
          let at_path : j ≡ path = (same_iff j path).0 here in
          let found : some entry ≡ some p = rw here at h in
          let entry_p : entry ≡ p = cc in
          let edited : is_clean_at codec (Map.get j disk) entry ≡ false = rw (at_path, entry_p) e in
          rw edited (
            contains-clean_paths-absent codec disk path files
              (subst (λ k. Map.has k files ≡ false) at_path m.0))
      | inr other ↦
          ground (arith, other, contains-clean_paths codec disk path p files m.1 (rw other at h) e)
    ]

kept_or-previous :
    (snapshot : LockSnapshot) (path : Text) (p : FileEntry) (current : Option FileEntry)
    → contains path snapshot.adopted_paths ≡ false
    → contains path snapshot.clean_paths ≡ false
    → ((c : FileEntry) → current ≡ some c → is_owned c.tier ≡ false)
    → kept_or snapshot path p current ≡ p
kept_or-previous snapshot path p none adopted clean generated = refl
kept_or-previous snapshot path p (some c) adopted clean generated =
    ground (arith, adopted, clean, generated c refl)

-- When a module is added to a project whose lock has one entry for a path, the lock keeps the entry of
-- each file that was edited before, or was missing, if the file is not handed back and is not the
-- user's own now. What was edited is never taken for generated.
pub recorded_lock-IsKept :
    (codec : Codec) (before after : Disk) (previous : Files)
    (module_paths adopted_paths : List Text) (manifest : Manifest) (path : Text) (p : FileEntry)
    → Map.IsMap previous
    → Map.get path previous ≡ some p
    → is_clean_at codec (Map.get path before) p ≡ false
    → contains path adopted_paths ≡ false
    → ((current : FileEntry)
        → Map.get path (
            compute_files_lock codec manifest.owned_globs
              (list_or manifest.managed_overrides)
              after)
          ≡ some current
        → is_owned current.tier ≡ false)
    → Map.get path (
        recorded_lock codec after
          (some (record {
            previous = previous;
            clean_paths = clean_paths codec before previous;
            module_paths = module_paths;
            adopted_paths = adopted_paths;
          }))
          manifest)
      ≡ some p
unfolding recorded_lock snapshot_lock keep_template_hashes
recorded_lock-IsKept codec before after previous module_paths adopted_paths manifest path p m h
      edited adopted generated =
    let snapshot : LockSnapshot = record {
      previous = previous;
      clean_paths = clean_paths codec before previous;
      module_paths = module_paths;
      adopted_paths = adopted_paths;
    } in
    let computed =
      compute_files_lock codec manifest.owned_globs (list_or manifest.managed_overrides) after in
    let stays =
      kept_or-previous snapshot path p (Map.get path computed) adopted
        (contains-clean_paths codec before path p previous m h edited) generated in
    let kept = get-kept_entries snapshot computed previous path p h ∙ ap some stays in
    let entries = kept_entries snapshot computed previous in
    get-keep_hashes previous module_paths (add_entries computed module_paths entries) path p
      (get-add_entries computed module_paths entries path p kept)
    ∙ ap some (kept_entry-of_previous previous module_paths path p h)
