-- ===== src/Project/Changes.antt =====
-- update.ts: the changes that `planUpdate` lists, and the parts of its decisions that read no file.
use podokit.Base.{
  Bool, true, false, ◌||◌, Option, none, some, List, [], ◌∷◌, ◌++◌, if◌then◌else◌, codes, Text,
  same, nat_eq, text_eq,
}
use mathlib.Core.Option
use podokit.Map
use podokit.Texts.Sets.{unique, sort}
use podokit.Project.Lock.{
  Bytes, Codec, Files, FileEntry, Tier, managed, keys, explicitly_owned, matches_any,
}
use podokit.Project.Files.{recorded_template_hash, is_some, or_else}

-- The content of a file of a template, a string or a `Buffer`.
pub data Content : Type 0 where
  string : Text → Content
  buffer : Bytes → Content

abbrev pub Tree : Type 0
Tree = List (Text × Content)

pub data Action : Type 0 where
  review : Action
  update : Action
  merge : Action
  conflict : Action
  keep : Action
  add : Action
  move : Action
  remove : Action
  skip : Action
  up_to_date : Action

pub record FileChange : Type 0 where
  pub path : Text
  pub from_path : Option Text
  pub tier : Tier
  pub action : Action
  pub note : Text

pub record PlannedPathMove : Type 0 where
  pub from : Text
  pub to : Text
  pub tier : Tier
  pub content : Bytes

pub record PlanOptions : Type 0 where
  pub force_managed_paths : List Text
  pub only_paths : Option (List Text)

-- `TargetProject`, as far as the plan of the files reads it.
pub record Target : Type 0 where
  pub tree : Tree
  pub lock : Files
  pub owned_globs : List Text
  pub managed_overrides : List Text

abbrev pub as_text : Codec → Content → Text
as_text codec (string text) = text
as_text codec (buffer bytes) = codec.decode bytes

unfoldable pub tree_text : Codec → Tree → Text → Option Text
tree_text codec tree path = Option.map (as_text codec) (Map.get path tree)

abbrev pub no_merge_base : Text → Text
no_merge_base path =
    codes
      "the previous version's templates do not generate it, so there is no merge base; compare it with podo diff "
    ++ path

abbrev pub change : Text → Tier → Action → Text → FileChange
change path tier action note = record {
  path = path;
  from_path = none;
  tier = tier;
  action = action;
  note = note;
}

-- What the loop adds for a path: a change, or nothing, and whether the path is listed in
-- `ownedWithoutTemplate`.
pub record Planned : Type 0 where
  pub changed : Option FileChange
  pub without_template : Bool

abbrev pub nothing : Planned
nothing = record { changed = none; without_template = false }

abbrev pub planned : FileChange → Planned
planned c = record { changed = some c; without_template = false }

abbrev pub explicit_without : List Text → Text → Option Text → Option Bytes → Bool
explicit_without owned_globs path (some text) none = explicitly_owned owned_globs path
explicit_without owned_globs path _ _ = false

abbrev pub skip_note : Bool → Text
skip_note missing =
    if missing
    then codes "explicitly owned — missing or relocated; not restored"
    else codes "owned — never modified"

-- A file that its owner keeps: what the template did to it since it was recorded.
pub data Upstream : Type 0 where
  unchanged : Upstream
  changed_template : Upstream
  unrecorded : Upstream

unfoldable pub against_recorded : Text → Option FileEntry → Upstream
against_recorded new_hash locked = elim (recorded_template_hash locked) [
  | none ↦ if is_some locked then unrecorded else unchanged
  | some recorded ↦ if same recorded new_hash then unchanged else changed_template
]

unfoldable pub is_new_seed : Option FileEntry → Option Text → Option Bytes → Bool
is_new_seed none (some text) none = true
is_new_seed _ _ _ = false

-- What was generated last time.
abbrev pub baseline : Option FileEntry → Option Text
baseline none = none
baseline (some entry) = or_else (recorded_template_hash (some entry)) (some entry.out_hash)

abbrev pub is_hash : Text → Option Text → Bool
is_hash hash none = false
is_hash hash (some other) = same hash other

abbrev pub tier_or : Option FileEntry → Tier → Tier
tier_or none tier = tier
tier_or (some entry) tier = entry.tier

abbrev pub is_moved : List PlannedPathMove → Text → Bool
is_moved [] path = false
is_moved (m ∷ moves) path = same path m.from || same path m.to || is_moved moves path

abbrev pub is_selected : Option (List Text) → Text → Bool
is_selected none path = true
is_selected (some globs) path = matches_any globs path

abbrev pub plan_move : PlannedPathMove → FileChange
plan_move m = record {
  path = m.to;
  from_path = some m.from;
  tier = m.tier;
  action = move;
  note = codes "module path migration";
}

abbrev pub plan_conflict : Text → FileChange
plan_conflict note = change (codes "module migration") managed conflict note

unfoldable pub target_paths : Target → List Text
unfolding sort unique
target_paths target = sort (unique (keys target.tree ++ keys target.lock))

abbrev pub changes_of : List Planned → List FileChange
changes_of [] = []
changes_of (p ∷ ps) = elim p.changed [ none ↦ changes_of ps | some c ↦ c ∷ changes_of ps ]
