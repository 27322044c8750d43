-- ===== src/Project/Settled.antt =====
-- What a second update plans for a file, given the lock that the first one left.
use podokit.Base.{
  ◌≡◌, refl, ap, ◌∙◌, inl, inr, Bool, true, false, ◌||◌, Option, none, some, List, [], arith,
  if◌then◌else◌, Bool-cases, Text, same_refl, nat_eq, text_eq,
}
use podokit.Map
use podokit.Project.Lock.{
  Bytes, Codec, Disk, FileEntry, Tier, is_owned, classify_tier, matches_any, is_walked,
}
use podokit.Project.Files.{recorded_template_hash, entry_of}
use podokit.Project.Changes.{
  Action, keep, skip, up_to_date, Planned, tree_text, PlanOptions, Target, is_new_seed,
  against_recorded, tier_or,
}
use podokit.Project.Plan.{
  plan_owned, plan_managed, plan_at, text_hash, upstream, tier_of, content_text,
}
use podokit.Project.Relock.{refresh_entry, updated_files_lock, tombstone}
use podokit.Project.Entries.{get-updated_files_lock}

abbrev pub no_options : PlanOptions
no_options = record { force_managed_paths = []; only_paths = none }

-- The actions that leave a file alone.
abbrev pub leaves_alone : Action → Bool
leaves_alone keep = true
leaves_alone skip = true
leaves_alone up_to_date = true
leaves_alone _ = false

abbrev pub is_settled : Planned → Bool
is_settled p = elim p.changed [ none ↦ true | some c ↦ leaves_alone c.action ]

-- Whether a file is owned does not depend on its content.
pub classify_tier_owned :
    (path text other : Text) (owned_globs overrides : List Text)
    → is_owned (classify_tier path text owned_globs overrides)
      ≡ is_owned (classify_tier path other owned_globs overrides)
unfolding classify_tier
classify_tier_owned path text other owned_globs overrides = ground arith

module _ (codec : Codec) where
  -- A file that the new tree has is recorded with its text there.
  refresh_entry-recorded :
      (overrides : List Text) (path text : Text) (before : Option FileEntry) (entry : FileEntry)
      → (e : FileEntry) × (refresh_entry codec overrides none path before (some text) entry
          ≡ some e)
        × (recorded_template_hash (some e) ≡ some (text_hash codec text))
  unfolding refresh_entry recorded_template_hash
  refresh_entry-recorded overrides path text before entry = (_, refl, ground arith)

  plan_owned-recorded :
      (globs : List Text) (path text : Text) (e : FileEntry) (content : Option Bytes)
      → recorded_template_hash (some e) ≡ some (text_hash codec text)
      → is_settled (plan_owned codec globs path (some e) (some text) content) ≡ true
  unfolding plan_owned upstream is_new_seed against_recorded
  plan_owned-recorded globs path text e none h = ground (arith, h)
  plan_owned-recorded globs path text e (some content) h =
      ground (arith, h, same_refl (text_hash codec text))

  plan_managed-recorded :
      (path text : Text) (tier : Tier) (e : FileEntry) (content : Bytes)
      → recorded_template_hash (some e) ≡ some (text_hash codec text)
      → is_settled (plan_managed codec path tier (some e) (some text) (some content)) ≡ true
  unfolding plan_managed
  plan_managed-recorded path text tier e content h =
      ground (arith, h, same_refl (text_hash codec text))

  -- The target of a second update, with the lock that the first one left beside these files.
  abbrev pub relocked : Target → Disk → Target
  relocked target disk = record target {
    lock =
        updated_files_lock codec disk target.tree target.lock target.owned_globs
          target.managed_overrides none;
  }

  pub plan_at-owned_or_managed :
      (target : Target) (path : Text) (content : Option Bytes)
      → ((tier : Tier)
          → is_owned tier ≡ true
          → tier
            ≡ tier_of codec no_options target path
                (Map.get path target.lock)
                (tree_text codec target.tree path)
                content
          → is_settled (
              plan_owned codec target.owned_globs path
                (Map.get path target.lock)
                (tree_text codec target.tree path)
                content)
            ≡ true)
      → ((tier : Tier)
          → is_owned tier ≡ false
          → tier
            ≡ tier_of codec no_options target path
                (Map.get path target.lock)
                (tree_text codec target.tree path)
                content
          → is_settled (
              plan_managed codec path tier
                (Map.get path target.lock)
                (tree_text codec target.tree path)
                content)
            ≡ true)
      → is_settled (plan_at codec no_options target path content) ≡ true
  unfolding plan_at
  plan_at-owned_or_managed target path content if_owned if_managed =
      let tier =
        tier_of codec no_options target path (Map.get path target.lock)
          (tree_text codec target.tree path) content in
      elim (Bool-cases (is_owned tier)) [
        | inl e ↦ rw e (if_owned tier e refl)
        | inr e ↦ rw e (if_managed tier e refl)
      ]

  -- A file that the new tree has and that is there.
  pub settled_present :
      (target : Target) (disk : Disk) (path text : Text) (content : Bytes)
      → is_walked path ≡ true
      → tree_text codec target.tree path ≡ some text
      → Map.get path disk ≡ some content
      → is_settled (plan_at codec no_options (relocked target disk) path (some content)) ≡ true
  settled_present target disk path text content walked new here =
      let (e, found, recorded) =
        refresh_entry-recorded target.managed_overrides path text (Map.get path target.lock)
          (entry_of codec target.owned_globs target.managed_overrides path content) in
      let entry : Map.get path (relocked target disk).lock ≡ some e =
        get-updated_files_lock codec target.owned_globs target.managed_overrides none target.tree
          target.lock disk path
        ∙ rw (walked, here, new, found) refl in
      plan_at-owned_or_managed (relocked target disk) path (some content)
        (λ tier o same_tier.
          rw (entry, new)
            (plan_owned-recorded target.owned_globs path text e (some content) recorded))
        (λ tier m same_tier.
          rw (entry, new) (plan_managed-recorded path text tier e content recorded))

  pub tier_of_owned :
      (target : Target) (path : Text) (locked : Option FileEntry) (new : Option Text)
      (content : Option Bytes)
      → is_owned (tier_of codec no_options target path locked new content) ≡ (
          if matches_any target.managed_overrides path || matches_any target.owned_globs path
          then is_owned (
              classify_tier path
                (content_text codec new content)
                target.owned_globs
                target.managed_overrides)
          else is_owned (
              tier_or locked (
                classify_tier path
                  (content_text codec new content)
                  target.owned_globs
                  target.managed_overrides)))
  unfolding tier_of
  tier_of_owned target path locked new content = ground arith

  plan_owned-absent :
      (globs : List Text) (path : Text) (e : FileEntry) (new : Option Text)
      → is_settled (plan_owned codec globs path (some e) new none) ≡ true
  unfolding plan_owned upstream is_new_seed
  plan_owned-absent globs path e none = refl
  plan_owned-absent globs path e (some text) = refl

  -- An owned file of the new tree that the lock has and that is gone.
  pub settled_absent :
      (target : Target) (disk : Disk) (path text : Text) (before : FileEntry)
      → tree_text codec target.tree path ≡ some text
      → Map.get path disk ≡ none
      → Map.get path target.lock ≡ some before
      → is_owned (classify_tier path text target.owned_globs target.managed_overrides) ≡ true
      → is_settled (plan_at codec no_options (relocked target disk) path none) ≡ true
  settled_absent target disk path text before new gone locked is_own =
      let stone = tombstone codec before (text_hash codec text) in
      let entry : Map.get path (relocked target disk).lock ≡ some stone =
        get-updated_files_lock codec target.owned_globs target.managed_overrides none target.tree
          target.lock disk path
        ∙ ground (arith, gone, new, locked, is_own) in
      plan_at-owned_or_managed (relocked target disk) path none
        (λ tier o same_tier.
          rw (entry, new) (plan_owned-absent target.owned_globs path stone (some text)))
        (λ tier m same_tier.
          let same' : tier
              ≡ tier_of codec no_options (relocked target disk) path (some stone) (some text) none =
            rw (entry, new) at same_tier in
          absurd (
            ground (
              arith,
              m,
              ap is_owned same',
              tier_of_owned (relocked target disk) path (some stone) (some text) none,
              is_own,
            )))
