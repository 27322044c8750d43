-- ===== src/Project/Preserves.antt =====
-- An update keeps what the owner of a project wrote.
use podokit.Base.{
  ◌≡◌, refl, sym, ◌≢◌, ◌⊎◌, inl, inr, true, Option, none, some, List, arith, Bool-cases,
  Option-cases, Text, same, same_iff, nat_eq, text_eq,
}
use mathlib.Core.Path.{subst}
use podokit.Map
use podokit.Merge.ThreeWay.{three_way_merge}
use podokit.Project.Lock.{Bytes, Codec, Disk, FileEntry, Tier, is_owned}
use podokit.Project.Files.{recorded_template_hash}
use podokit.Project.Changes.{
  Tree, FileChange, tree_text, PlanOptions, Target, PlannedPathMove, is_new_seed, baseline, is_hash,
}
use podokit.Project.Plan.{
  plan_at, tier_of, plan_owned, plan_managed, plan_file, plan_path, text_hash,
}
use podokit.Project.Apply.{labels, base_text}
use podokit.Project.Outcome.{merged_with, merged_file}
use podokit.Project.Loop.{effect}

-- The lock has the hash of the content: PodoKit wrote it.
pub IsRecorded : Codec → Option FileEntry → Bytes → Type 0
IsRecorded codec locked content =
    (entry : FileEntry) × (locked ≡ some entry)
    × ((codec.hash content ≡ entry.out_hash) ⊎ (entry.template_hash ≡ some (codec.hash content)))

module _ (codec : Codec) where
  plan_owned-path :
      (globs : List Text) (path : Text) (locked : Option FileEntry) (new : Option Text)
      (disk : Option Bytes) (c : FileChange)
      → (plan_owned codec globs path locked new disk).changed ≡ some c
      → c.path ≡ path
  unfolding plan_owned
  plan_owned-path globs path locked new disk c h = ground (arith, h)

  plan_managed-path :
      (path : Text) (tier : Tier) (locked : Option FileEntry) (new : Option Text)
      (disk : Option Bytes) (c : FileChange)
      → (plan_managed codec path tier locked new disk).changed ≡ some c
      → c.path ≡ path
  unfolding plan_managed
  plan_managed-path path tier locked none none c h = ground (arith, h)
  plan_managed-path path tier locked none (some disk) c h = ground (arith, h)
  plan_managed-path path tier locked (some text) none c h = ground (arith, h)
  plan_managed-path path tier locked (some text) (some disk) c h = ground (arith, h)

  module _ (options : PlanOptions) (target : Target) (disk : Disk) (path : Text) where
    abbrev locked : Option FileEntry
    locked = Map.get path target.lock

    abbrev new : Option Text
    new = tree_text codec target.tree path

    abbrev content_of : Option Bytes
    content_of = Map.get path disk

    abbrev tier : Tier
    tier = tier_of codec options target path locked new content_of

    plan_file-path :
        (c : FileChange)
        → (plan_file codec options target disk path).changed ≡ some c
        → c.path ≡ path
    unfolding plan_file plan_at
    plan_file-path c h = elim (Bool-cases (is_owned tier)) [
      | inl e ↦ plan_owned-path target.owned_globs path locked new content_of c (rw e at h)
      | inr e ↦ plan_managed-path path tier locked new content_of c (rw e at h)
    ]

    pub plan_path-path :
        (moves : List PlannedPathMove) (c : FileChange)
        → (plan_path codec options target moves disk path).changed ≡ some c
        → c.path ≡ path
    unfolding plan_path
    plan_path-path moves c h = ground (arith, h, plan_file-path c)

  -- What becomes of the content of a file that is there.
  abbrev pub IsKept : Tree → Option Tree → Option FileEntry → Text → Bytes → Option Bytes → Type 0
  IsKept tree old locked path content after =
      (after ≡ some content)
      ⊎ (IsRecorded codec locked content
          ⊎ ((base next : Text) × (base_text codec old path ≡ some base)
              × (tree_text codec tree path ≡ some next)
              × (after
                  ≡ some (
                      codec.encode
                        (three_way_merge labels base (codec.decode content) next).merged))))

  pub plan_owned-Keeps :
      (tree : Tree) (old : Option Tree) (globs : List Text) (path : Text)
      (locked : Option FileEntry) (content : Bytes)
      → effect codec tree old
          (plan_owned codec globs path locked (tree_text codec tree path) (some content)).changed
          (some content)
        ≡ some content
  unfolding plan_owned is_new_seed
  plan_owned-Keeps tree old globs path locked content = ground arith

  merged_with-Keeps :
      (tree : Tree) (old : Option Tree) (locked : Option FileEntry) (path next : Text)
      (content : Bytes)
      → tree_text codec tree path ≡ some next
      → IsKept tree old locked path content
          (some (merged_with codec (base_text codec old path) next content))
  merged_with-Keeps tree old locked path next content h =
      elim (Option-cases (base_text codec old path)) [
        | inl e ↦ inl (rw e)
        | inr (base, e) ↦ inr (inr (base, next, e, h, rw e))
      ]

  merge-Keeps :
      (tree : Tree) (old : Option Tree) (locked : Option FileEntry) (path next : Text)
      (content : Bytes)
      → tree_text codec tree path ≡ some next
      → IsKept tree old locked path content
          (merged_file codec (base_text codec old path) (tree_text codec tree path) (some content))
  merge-Keeps tree old locked path next content h =
      subst
        (λ text.
          IsKept tree old locked path content
            (merged_file codec (base_text codec old path) text (some content)))
        (sym h) (merged_with-Keeps tree old locked path next content h)

  baseline-IsRecorded :
      (entry : FileEntry) (content : Bytes)
      → is_hash (codec.hash content) (baseline (some entry)) ≡ true
      → IsRecorded codec (some entry) content
  unfolding IsRecorded recorded_template_hash
  baseline-IsRecorded entry content h = elim (Bool-cases (is_owned entry.tier)) [
    | inl e ↦ elim (Option-cases entry.template_hash) [
      | inl q ↦
          (entry, refl, inl (ground (arith, h, e, q, same_iff (codec.hash content) entry.out_hash)))
      | inr (hash, q) ↦
          (entry, refl, inr (ground (arith, h, e, q, same_iff (codec.hash content) hash)))
    ]
    | inr e ↦
        (entry, refl, inl (ground (arith, h, e, same_iff (codec.hash content) entry.out_hash)))
  ]

  pub plan_managed-Keeps :
      (tree : Tree) (old : Option Tree) (path : Text) (tier : Tier) (locked : Option FileEntry)
      (new : Option Text) (content : Bytes)
      → tree_text codec tree path ≡ new
      → (new ≡ none → locked ≢ none)
      → IsKept tree old locked path content (
          effect codec tree old
            (plan_managed codec path tier locked new (some content)).changed
            (some content))
  unfolding plan_managed
  plan_managed-Keeps tree old path tier none none content h known = absurd (known refl refl)
  plan_managed-Keeps tree old path tier (some entry) none content h known =
      elim (Bool-cases (same (codec.hash content) entry.out_hash)) [
        | inl e ↦ inr (inl (unfold IsRecorded in (entry, refl, inl ((same_iff _ _).0 e))))
        | inr e ↦ inl (rw e)
      ]
  plan_managed-Keeps tree old path tier none (some next) content h known =
      elim (Bool-cases (same (codec.hash content) (text_hash codec next))) [
        | inl e ↦ inl (rw e)
        | inr e ↦ rw e (merge-Keeps tree old none path next content h)
      ]
  plan_managed-Keeps tree old path tier (some entry) (some next) content h known =
      elim (Bool-cases (same (codec.hash content) (text_hash codec next))) [
        | inl e ↦ inl (rw e)
        | inr e ↦ elim (Bool-cases (is_hash (codec.hash content) (baseline (some entry)))) [
          | inl q ↦ inr (inl (baseline-IsRecorded entry content q))
          | inr q ↦ elim (Bool-cases (is_hash (text_hash codec next) (baseline (some entry)))) [
            | inl r ↦ inl (rw (e, q, r))
            | inr r ↦ rw (e, q, r) (merge-Keeps tree old (some entry) path next content h)
          ]
        ]
      ]
