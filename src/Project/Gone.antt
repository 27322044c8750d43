-- ===== src/Project/Gone.antt =====
-- What a second update plans for a file that the new tree does not have.
use podokit.Base.{
  ◌≡◌, refl, ap, ◌⊎◌, inl, inr, true, false, Option, none, some, List, arith, Bool-cases,
  Option-cases, Text, same, nat_eq, text_eq,
}
use podokit.Map
use podokit.Project.Lock.{Bytes, Codec, Disk, FileEntry, Tier, is_owned, classify_tier, is_walked}
use podokit.Project.Files.{entry_of}
use podokit.Project.Changes.{tree_text, Target, is_new_seed}
use podokit.Project.Plan.{plan_owned, plan_managed, plan_at, upstream, tier_of}
use podokit.Project.Relock.{refresh_entry}
use podokit.Project.Entries.{get-updated_files_lock}
use podokit.Project.Settled.{
  no_options, is_settled, relocked, plan_at-owned_or_managed, tier_of_owned,
}

module _ (codec : Codec) where
  pub plan_owned-gone :
      (globs : List Text) (path : Text) (locked : Option FileEntry) (content : Option Bytes)
      → is_settled (plan_owned codec globs path locked none content) ≡ true
  unfolding plan_owned upstream is_new_seed
  plan_owned-gone globs path none content = refl
  plan_owned-gone globs path (some e) content = refl

  pub plan_managed-nothing :
      (path : Text) (tier : Tier) (locked : Option FileEntry)
      → is_settled (plan_managed codec path tier locked none none) ≡ true
  unfolding plan_managed
  plan_managed-nothing path tier locked = refl

  pub plan_managed-gone :
      (path : Text) (tier : Tier) (e : FileEntry) (content : Bytes)
      → same (codec.hash content) e.out_hash ≡ false
      → is_settled (plan_managed codec path tier (some e) none (some content)) ≡ true
  unfolding plan_managed
  plan_managed-gone path tier e content h = ground (arith, h)

  -- The entry that is left of a file that the new tree does not have.
  refresh_entry-gone :
      (overrides : List Text) (path : Text) (before : Option FileEntry) (entry e : FileEntry)
      → refresh_entry codec overrides none path before none entry ≡ some e
      → ((is_owned entry.tier ≡ true) × (e ≡ entry))
        ⊎ ((is_owned entry.tier ≡ false)
            × ((b : FileEntry) × (before ≡ some b)
                × (is_owned b.tier ≡ false)
                × (e.tier ≡ b.tier)
                × (e.out_hash ≡ b.out_hash)))
  unfolding refresh_entry
  refresh_entry-gone overrides path none entry e h = elim (Bool-cases (is_owned entry.tier)) [
    | inl o ↦ inl (o, ground (arith, h, o))
    | inr o ↦ absurd (ground (arith, h, o))
  ]
  refresh_entry-gone overrides path (some b) entry e h = elim (Bool-cases (is_owned entry.tier)) [
    | inl o ↦ inl (o, ground (arith, h, o))
    | inr o ↦ elim (Bool-cases (is_owned b.tier)) [
      | inl q ↦ absurd (ground (arith, h, o, q))
      | inr q ↦ inr (o, (b, refl, q, ground (arith, h, o, q), ground (arith, h, o, q)))
    ]
  ]

  is_refreshed :
      (target : Target) (disk : Disk) (path : Text) (content : Bytes) (e : FileEntry)
      → tree_text codec target.tree path ≡ none
      → Map.get path disk ≡ some content
      → Map.get path (relocked codec target disk).lock ≡ some e
      → refresh_entry codec target.managed_overrides none path
          (Map.get path target.lock)
          none
          (entry_of codec target.owned_globs target.managed_overrides path content)
        ≡ some e
  is_refreshed target disk path content e gone here entry =
      let left =
        get-updated_files_lock codec target.owned_globs target.managed_overrides none target.tree
          target.lock disk path in
      elim (Bool-cases (is_walked path)) [
        | inl w ↦
            elim (Option-cases (
              refresh_entry codec target.managed_overrides none path (Map.get path target.lock) none
                (entry_of codec target.owned_globs target.managed_overrides path content))) [
                  | inl r ↦ absurd (ground (arith, left, entry, w, gone, here, r))
                  | inr (other, r) ↦ ground (arith, left, entry, w, gone, here, r)
                ]
        | inr w ↦ absurd (ground (arith, left, entry, w, gone))
      ]

  -- A file that the new tree does not have, and the entry that its lock has of it.
  pub settled_gone :
      (target : Target) (disk : Disk) (path : Text) (content : Bytes) (e : FileEntry)
      → tree_text codec target.tree path ≡ none
      → Map.get path disk ≡ some content
      → Map.get path (relocked codec target disk).lock ≡ some e
      → ((b : FileEntry)
          → Map.get path target.lock ≡ some b
          → is_owned b.tier ≡ false
          → is_owned (
              classify_tier path (codec.decode content) target.owned_globs target.managed_overrides)
            ≡ false
          → same (codec.hash content) b.out_hash ≡ false)
      → is_settled (plan_at codec no_options (relocked codec target disk) path (some content))
        ≡ true
  settled_gone target disk path content e gone here entry edited =
      let before = Map.get path target.lock in
      let computed = entry_of codec target.owned_globs target.managed_overrides path content in
      let same_entry = is_refreshed target disk path content e gone here entry in
      let after = relocked codec target disk in
      let owns = tier_of_owned codec after path (some e) none (some content) in
      plan_at-owned_or_managed codec after path (some content)
        (λ tier o same_tier.
          rw (entry, gone) (plan_owned-gone target.owned_globs path (some e) (some content)))
        (λ tier m same_tier.
          let same' : tier ≡ tier_of codec no_options after path (some e) none (some content) =
            rw (entry, gone) at same_tier in
          elim (refresh_entry-gone target.managed_overrides path before computed e same_entry) [
            | inl (o, q) ↦ absurd (ground (arith, m, ap is_owned same', owns, o, q))
            | inr (o, (b, locked, n, t, q)) ↦
                rw (entry, gone)
                  (plan_managed-gone path tier e content (rw q (edited b locked n o)))
          ])
