-- ===== src/Project/Removing.antt =====
-- remove.ts, `removeModule`: what it does to the files that the module ships, to the wiring and to
-- .env.example, and the manifest and the lock that it leaves. What the manifests of the modules say and
-- which files they ship is given.
use podokit.Base.{
  Bool, not, ◌||◌, Option, none, some, List, [], ◌∷◌, ◌++◌, if◌then◌else◌, codes, keep_if, any,
  Text, same, nat_eq, text_eq,
}
use podokit.Map
use podokit.Texts.Sets.{contains}
use podokit.Texts.{newline, join, split}
use podokit.Globs.{match_glob}
use podokit.Merge.Markers.{remove_at_marker}
use podokit.Project.Lock.{Bytes, Codec, Disk, Files, FileEntry}
use podokit.Project.Files.{compute_files_lock, keep_template_hashes}
use podokit.Project.Plan.{is_edited}
use podokit.Project.Modules.{ManifestModule}
use podokit.Project.Recording.{Manifest, list_or, numbered}

pub record Injection : Type 0 where
  pub file : Text
  pub text : Text

pub record Unwired : Type 0 where
  pub disk : Disk
  pub unwired : List Text

pub record Removed : Type 0 where
  pub disk : Disk
  pub removed : List Text
  pub kept_edited : List Text
  pub kept_shared : List Text

module _ (codec : Codec) where
  abbrev unwire_content : Injection → Bytes → Unwired → Unwired
  unwire_content injection content s =
      let text = codec.decode content in
      let next = remove_at_marker text injection.text in
      if same next text then s else record {
        disk = Map.put injection.file (codec.encode next) s.disk;
        unwired = s.unwired ++ (injection.file ∷ []);
      }

  abbrev unwire_at : Injection → Option Bytes → Unwired → Unwired
  unwire_at injection none s = s
  unwire_at injection (some content) s = unwire_content injection content s

  unfoldable pub unwire : List Injection → Unwired → Unwired
  unwire [] s = s
  unwire (injection ∷ injections) s =
      unwire injections (unwire_at injection (Map.get injection.file s.disk) s)

  abbrev pub remove_content : Option FileEntry → Bool → Text → Bytes → Removed → Removed
  remove_content locked is_shared path content s =
      if is_shared
      then record s { kept_shared = s.kept_shared ++ (path ∷ []) }
      else if is_edited codec locked content
      then record s { kept_edited = s.kept_edited ++ (path ∷ []) }
      else record s { disk = Map.remove path s.disk; removed = s.removed ++ (path ∷ []) }

  abbrev pub remove_at : Option FileEntry → Bool → Text → Option Bytes → Removed → Removed
  remove_at locked is_shared path none s = s
  remove_at locked is_shared path (some content) s = remove_content locked is_shared path content s

  unfoldable pub remove_file : Files → List Text → Text → Removed → Removed
  remove_file lock shared path s =
      remove_at (Map.get path lock) (contains path shared) path (Map.get path s.disk) s

  -- The files of a module that is removed, with the files of the other modules.
  unfoldable pub remove_files : Files → List Text → List Text → Removed → Removed
  unfolding remove_file
  remove_files lock shared [] s = s
  remove_files lock shared (path ∷ paths) s =
      remove_files lock shared paths (remove_file lock shared path s)

  abbrev prune_lines : List Text → Text → Text
  prune_lines drop text =
      join (newline ∷ []) (keep_if (λ line. not (contains line drop)) (split newline text))

  abbrev prune_at : List Text → Option Bytes → Disk → Disk
  prune_at drop none disk = disk
  prune_at [] (some content) disk = disk
  prune_at (line ∷ drop) (some content) disk =
      Map.put (codes ".env.example")
        (codec.encode (prune_lines (line ∷ drop) (codec.decode content))) disk

  -- `pruneEnvExample`, of the lines that the module has and those that other modules have.
  unfoldable pub prune_env_example : List Text → List Text → Disk → Disk
  unfolding keep_if contains join split
  prune_env_example env shared disk =
      prune_at (keep_if (λ line. not (contains line shared)) env)
        (Map.get (codes ".env.example") disk) disk

  -- `writeFilesLock(…)` at the end of `removeModule`.
  unfoldable pub removed_lock : Disk → Option Files → List Text → Manifest → Files
  removed_lock disk lock unwired manifest =
      keep_template_hashes
        (compute_files_lock codec manifest.owned_globs (list_or manifest.managed_overrides) disk)
        lock (unwired ++ (codes ".env.example" ∷ []))

-- The globs of a module that its removal takes from the manifest.
abbrev keeps_owned : List Text → List Text → List Text → List Text → Text → Bool
keeps_owned target defaults shared kept_edited glob =
    not (contains glob target)
    || contains glob defaults
    || contains glob shared
    || any (λ path. match_glob path glob) kept_edited

unfoldable pub removed_manifest :
    Text
    → List Text
    → List Text
    → List Text
    → List Text
    → List Text
    → List Text
    → Manifest
    → Manifest
unfolding keep_if numbered
removed_manifest name owned overrides default_owned shared_owned shared_overrides kept_edited
      manifest =
    record {
      modules =
          numbered 0 (keep_if (λ (m : ManifestModule). not (same m.name name)) manifest.modules);
      owned_globs =
          keep_if (keeps_owned owned default_owned shared_owned kept_edited) manifest.owned_globs;
      managed_overrides = some (
          keep_if (λ glob. not (contains glob overrides) || contains glob shared_overrides)
            (list_or manifest.managed_overrides));
    }
