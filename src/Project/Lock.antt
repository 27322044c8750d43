-- ===== src/Project/Lock.antt =====
-- lockfile.ts: who owns a file of a project, and the lock of what was last written to each. A project's
-- files are a Map from their paths. The file system and the codes of files, `hashContent` and UTF-8,
-- are parameters. A hash in a lock is not the empty text.
use podokit.Base.{
  ℕ, ◌+◌, Bool, true, false, not, ◌&&◌, ◌||◌, Option, List, [], ◌∷◌, map, ◌==◌, if◌then◌else◌,
  codes, keep_if, any, list_beq, Text, same, nat_eq, text_eq,
}
use podokit.Texts.{starts_with, includes, split, is_upper}
use podokit.Texts.Sets.{contains}
use podokit.Globs.{match_glob, star, slash}

abbrev pub Bytes : Type 0
Bytes = List ℕ

abbrev pub Disk : Type 0
Disk = List (Text × Bytes)

-- `hashContent` of bytes, `Buffer.from(text)` and `buffer.toString("utf8")`.
pub record Codec : Type 0 where
  pub hash : Bytes → Text
  pub encode : Text → Bytes
  pub decode : Bytes → Text

pub data Tier : Type 0 where
  managed : Tier
  assembled : Tier
  owned : Tier

abbrev pub is_owned : Tier → Bool
is_owned managed = false
is_owned assembled = false
is_owned owned = true

pub record FileEntry : Type 0 where
  pub tier : Tier
  pub out_hash : Text
  pub template_hash : Option Text

abbrev pub Files : Type 0
Files = List (Text × FileEntry)

abbrev pub injection_marker : Text
injection_marker = codes "// podokit:"

-- Whether `TEXT_EXT`, which ignores case, matches the path.
abbrev pub text_extensions : List Text
text_extensions =
    codes ".json"
    ∷ codes ".md"
    ∷ codes ".ts"
    ∷ codes ".tsx"
    ∷ codes ".js"
    ∷ codes ".mjs"
    ∷ codes ".cjs"
    ∷ codes ".css"
    ∷ codes ".html"
    ∷ codes ".yml"
    ∷ codes ".yaml"
    ∷ codes ".txt"
    ∷ codes ".env"
    ∷ codes ".svelte"
    ∷ codes ".gitignore"
    ∷ codes ".example"
    ∷ []

abbrev pub lower : ℕ → ℕ
lower c = if is_upper c then c + 32 else c

unfoldable pub ends_with_text : Text → Text → Bool
ends_with_text [] suffix = same [] suffix
ends_with_text (c ∷ cs) suffix = same (c ∷ cs) suffix || ends_with_text cs suffix

unfoldable pub is_text_path : Text → Bool
unfolding starts_with ends_with_text same list_beq
is_text_path path =
    starts_with path (codes "dot-") || any (ends_with_text (map lower path)) text_extensions

abbrev pub contains_star : Text → Bool
contains_star glob = any (λ c. c == star) glob

abbrev pub explicitly_owned : List Text → Text → Bool
explicitly_owned globs path = any (λ glob. not (contains_star glob) && match_glob path glob) globs

abbrev pub matches_any : List Text → Text → Bool
matches_any globs path = any (match_glob path) globs

-- `content` is the file as text.
unfoldable pub classify_tier : Text → Text → List Text → List Text → Tier
unfolding is_text_path includes
classify_tier path content owned_globs managed_overrides =
    if explicitly_owned owned_globs path
    then owned
    else if matches_any managed_overrides path
    then managed
    else if matches_any owned_globs path
    then owned
    else if is_text_path path && includes content injection_marker
    then assembled
    else managed

-- What follows the last slash.
unfoldable pub last_segment : Text → Text
last_segment [] = []
last_segment (c ∷ cs) =
    let rest = last_segment cs in if any (λ d. d == slash) (c ∷ cs) then rest else c ∷ cs

unfoldable pub is_local_env_file : Text → Bool
unfolding last_segment starts_with ends_with_text same list_beq
is_local_env_file path =
    let name = last_segment path in
    (same name (codes ".env") || starts_with name (codes ".env."))
    && not (ends_with_text name (codes ".example"))

-- The names at which `walkFiles` stops.
abbrev pub walk_ignore : List Text
walk_ignore =
    codes "node_modules"
    ∷ codes ".git"
    ∷ codes ".podokit"
    ∷ codes "dist"
    ∷ codes "build"
    ∷ codes ".svelte-kit"
    ∷ codes ".turbo"
    ∷ codes "coverage"
    ∷ []

unfoldable pub is_walked : Text → Bool
unfolding is_local_env_file split contains same list_beq
is_walked path =
    not (any (λ name. contains name walk_ignore) (split slash path)) && not (is_local_env_file path)

abbrev pub keys {ℓ} : {V : Type ℓ} → List (Text × V) → List Text
keys entries = map (λ entry. entry.0) entries

unfoldable pub walk_files : Disk → List Text
unfolding is_walked keep_if
walk_files disk = keep_if is_walked (keys disk)
