-- ===== src/Project/Settles.antt =====
-- After an update there is nothing left for another one to do.
use podokit.Base.{
  [], ok, Result, Bool, ◌≡◌, refl, ◌≢◌, inl, inr, true, false, Option, none, some, arith,
  if◌then◌else◌, Bool-cases, Option-cases, Text, same, nat_eq, text_eq,
}
use podokit.Map
use podokit.Project.Gone.{plan_managed-nothing, plan_owned-gone, settled_gone}
use podokit.Project.Preserves.{plan_path-path}
use podokit.Texts.Sets.{contains}
use podokit.Project.Lock.{
  matches_any, is_walked, Bytes, Codec, Disk, FileEntry, Tier, is_owned, classify_tier,
}
use podokit.Project.Changes.{Tree, tree_text, Target, target_paths, is_new_seed}
use podokit.Project.Plan.{
  plan_file, plan_path, plan_owned, plan_managed, plan_at, tier_of, content_text,
}
use podokit.Project.Apply.{apply_update, ApplyError, Applied}
use podokit.Project.Loop.{loop, effect}
use podokit.Project.Safety.{
  target_paths-IsDistinct, start, locked_of_path, apply_update-loop, no_migrations,
  contains-target_paths,
}
use podokit.Project.Settled.{
  plan_at-owned_or_managed, settled_absent, settled_present, is_settled, relocked, no_options,
  tier_of_owned, classify_tier_owned,
}

module _ (codec : Codec) (target : Target) (path : Text) where
  abbrev before : Option FileEntry
  before = Map.get path target.lock

  owned_gone :
      (old : Option Tree) (text : Text) (locked : Option FileEntry) (content : Option Bytes)
      → effect codec target.tree old
          (plan_owned codec target.owned_globs path locked (some text) content).changed
          content
        ≡ none
      → (content ≡ none) × (locked ≢ none)
  unfolding plan_owned is_new_seed
  owned_gone old text none none h = absurd (ground (arith, h))
  owned_gone old text (some b) none h = (refl, ground arith)
  owned_gone old text locked (some d) h = absurd (ground (arith, h))

  managed_stays :
      (old : Option Tree) (text : Text) (tier : Tier) (locked : Option FileEntry)
      (content : Option Bytes)
      → tree_text codec target.tree path ≡ some text
      → effect codec target.tree old
          (plan_managed codec path tier locked (some text) content).changed
          content
        ≢ none
  unfolding plan_managed
  managed_stays old text tier locked none new h = ground (arith, h)
  managed_stays old text tier locked (some d) new h = ground (arith, h, new)

  -- A managed file that the new tree does not have and that stays was edited.
  managed_edited :
      (old : Option Tree) (tier : Tier) (b : FileEntry) (content : Option Bytes) (after : Bytes)
      → effect codec target.tree old
          (plan_managed codec path tier (some b) none content).changed
          content
        ≡ some after
      → same (codec.hash after) b.out_hash ≡ false
  unfolding plan_managed
  managed_edited old tier b none after h = absurd (ground (arith, h))
  managed_edited old tier b (some c) after h = ground (arith, h)

  in_tree :
      (text : Text)
      → tree_text codec target.tree path ≡ some text
      → contains path (target_paths target) ≡ true
  unfolding tree_text
  in_tree text new = elim (Option-cases (Map.get path target.tree)) [
    | inl e ↦ absurd (ground (arith, new, e))
    | inr (c, e) ↦
        ground (arith, contains-target_paths target path, Map.has_of_get path c target.tree e)
  ]

  module _ (disk : Disk) (a : Applied) (old : Option Tree)
      (now : Map.get path a.disk ≡ (
        if contains path (target_paths target)
        then effect codec target.tree old
            (plan_at codec no_options target path (Map.get path disk)).changed
            (Map.get path disk)
        else Map.get path disk)) where
    abbrev tier : Option Text → Tier
    tier new = tier_of codec no_options target path before new (Map.get path disk)

    absent_case :
        (text : Text)
        → tree_text codec target.tree path ≡ some text
        → Map.get path a.disk ≡ none
        → (b : FileEntry) × (before ≡ some b) × (is_owned (tier (some text)) ≡ true)
    unfolding plan_at
    absent_case text new gone =
        let selected : contains path (target_paths target) ≡ true = in_tree text new in
        elim (Bool-cases (is_owned (tier (some text)))) [
          | inl o ↦
              let lost =
                owned_gone old text before (Map.get path disk)
                  (ground (arith, now, gone, selected, o, new)) in
              elim (Option-cases before) [ inl q ↦ absurd (lost.1 q) | inr (b, q) ↦ (b, q, o) ]
          | inr o ↦ absurd (
              managed_stays old text (tier (some text)) before (Map.get path disk) new
                (ground (arith, now, gone, selected, o, new)))
        ]

    edited_case :
        (d : Bytes) (b : FileEntry)
        → tree_text codec target.tree path ≡ none
        → Map.get path a.disk ≡ some d
        → before ≡ some b
        → is_owned b.tier ≡ false
        → is_owned (classify_tier path (codec.decode d) target.owned_globs target.managed_overrides)
          ≡ false
        → same (codec.hash d) b.out_hash ≡ false
    unfolding plan_at
    edited_case d b new here locked n o =
        let selected : contains path (target_paths target) ≡ true =
          ground
            (arith, contains-target_paths target path, Map.has_of_get path b target.lock locked) in
        let managed : is_owned (tier none) ≡ false = ground (
          arith,
          tier_of_owned codec target path before none (Map.get path disk),
          classify_tier_owned path (codec.decode d) (content_text codec none (Map.get path disk))
              target.owned_globs target.managed_overrides,
          locked,
          n,
          o,
        ) in
        managed_edited old (tier none) b (Map.get path disk) d
          (ground (arith, now, here, selected, managed, new, locked))

module _ (codec : Codec) (target : Target) (disk : Disk) where
  -- What a second update plans, where `now` says what the first one made of the file.
  settles_at :
      (path : Text) (a : Applied) (old : Option Tree)
      → Map.get path a.disk ≡ (
          if contains path (target_paths target)
          then effect codec target.tree old
              (plan_at codec no_options target path (Map.get path disk)).changed
              (Map.get path disk)
          else Map.get path disk)
      → is_walked path ≡ true
      → ((b : FileEntry)
          → Map.get path target.lock ≡ some b
          → is_owned b.tier ≡ true
          → matches_any target.owned_globs path ≡ true)
      → contains path (target_paths (relocked codec target a.disk)) ≡ true
      → is_settled
          (plan_at codec no_options (relocked codec target a.disk) path (Map.get path a.disk))
        ≡ true
  settles_at path a old now walked by_glob known =
      let after = relocked codec target a.disk in
      elim (Option-cases (tree_text codec target.tree path)) [
        | inr (text, new) ↦ elim (Option-cases (Map.get path a.disk)) [
          | inr (d, here) ↦
              rw here (settled_present codec target a.disk path text d walked new here)
          | inl gone ↦
              let (b, locked, o) = absent_case codec target path disk a old now text new gone in
              let is_own : is_owned
                    (classify_tier path text target.owned_globs target.managed_overrides)
                  ≡ true =
                ground (
                  arith,
                  o,
                  tier_of_owned codec target path (Map.get path target.lock) (some text)
                      (Map.get path disk),
                  locked,
                  by_glob b locked,
                ) in
              rw gone (settled_absent codec target a.disk path text b new gone locked is_own)
        ]
        | inl new ↦ elim (Option-cases (Map.get path a.disk)) [
          | inr (d, here) ↦ elim (Option-cases (Map.get path after.lock)) [
            | inl e ↦ absurd (locked_of_path codec after path known new e)
            | inr (e, entry) ↦ rw here (
                settled_gone codec target a.disk path d e new here entry
                  (λ b. edited_case codec target path disk a old now d b new here))
          ]
          | inl gone ↦ rw gone (
              plan_at-owned_or_managed codec after path none
                (λ tier o same_tier.
                  rw new
                    (plan_owned-gone codec target.owned_globs path (Map.get path after.lock) none))
                (λ tier m same_tier.
                  rw new (plan_managed-nothing codec path tier (Map.get path after.lock))))
        ]
      ]

  -- After an update of all paths, with no path forced and no path migrations, and with the lock that it
  -- leaves, a second one of this kind leaves a file alone that the lock can have, if the lock calls it owned
  -- only where a glob of owned files matches it.
  pub apply_update-IsSettled :
      (abort has_downgrades : Bool) (old : Result ApplyError Tree) (a : Applied) (path : Text)
      → apply_update codec no_options abort has_downgrades target no_migrations old disk ≡ ok a
      → is_walked path ≡ true
      → ((b : FileEntry)
          → Map.get path target.lock ≡ some b
          → is_owned b.tier ≡ true
          → matches_any target.owned_globs path ≡ true)
      → contains path (target_paths (relocked codec target a.disk)) ≡ true
      → is_settled (plan_path codec no_options (relocked codec target a.disk) [] a.disk path) ≡ true
  unfolding plan_path plan_file
  apply_update-IsSettled abort has_downgrades old a path h walked by_glob known =
      let (old_tree, found, run) =
        apply_update-loop codec no_options target disk abort has_downgrades old a h in
      settles_at path a old_tree
        (loop codec target.tree old_tree (plan_path codec no_options target [] disk)
          (λ q. plan_path-path codec no_options target disk q []) (target_paths target) (start disk)
          a (target_paths-IsDistinct target) run path)
        walked by_glob known
