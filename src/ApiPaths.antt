-- ===== src/ApiPaths.antt =====
-- packages/cli/src/api-paths.ts: the paths that reach the API directly.
pub mod Covers
pub mod Parsed
pub mod Merged
mod Tests
use podokit.Base.{
  ℕ, zero, suc, ◌+◌, ◌-◌, ◌*◌, ◌/◌, ◌%◌, ◌^◌, ◌≤◌, ◌<◌, min, max, ◌≡◌, refl, sym, ap, ◌∙◌, ◌≡⟨◌⟩◌,
  ◌∎, ◌≢◌, ◌↔◌, ◌⊎◌, inl, inr, Bool, true, false, not, ◌&&◌, ◌||◌, Option, none, some, List, [],
  ◌∷◌, ◌++◌, map, append-nil, append_assoc, arith, ltb, leb, ◌==◌, if◌then◌else◌, ltb→lt, lt→ltb,
  leb→le, le→leb, ==_iff, tests, Bool-cases, Option-cases, codes, length, get_elem?, take, drop,
  keep_if, any, all, length-append, take-append-drop, length-drop, length-take, All, All-append,
  All-map, All-keep_if, Result, ok, err, Result-cases, returns_through, Ensures, Ensures-bind,
  Ensures-after, Ensures-ok, Ensures-of, All-get_elem?, ◌>>=◌, ◌>>◌, reject_if, Eq, list_beq,
  list_beq_iff, Text, same, same_iff, same_refl, nat_eq, text_eq,
}
use podokit.Texts.{split, starts_with, is_digit}

pub data ApiPathError : Type 0 where
  not_array : ApiPathError
  too_many : ApiPathError
  invalid_path : ApiPathError
  under_auth : Text → ApiPathError
  overlapping : Text → Text → ApiPathError
  covers_socket : Text → Text → ApiPathError

abbrev pub max_paths : ℕ
max_paths = 32

abbrev pub max_path_length : ℕ
max_path_length = 2048

abbrev pub slash : ℕ
slash = 47

unfoldable pub api_path_base : Text → Text
api_path_base [] = []
api_path_base (c ∷ []) = if c == slash then [] else c ∷ []
api_path_base (c ∷ (d ∷ cs)) = c ∷ api_path_base (d ∷ cs)

unfoldable pub covers : Text → Text → Bool
covers base path = same path base || starts_with path (base ++ (slash ∷ []))

-- `find`
unfoldable pub find {ℓ} : {A : Type ℓ} → (A → Bool) → List A → Option A
find p [] = none
find p (x ∷ xs) = let rest = find p xs in if p x then some x else rest

unfoldable pub covering_api_path : List Text → Text → Option Text
unfolding api_path_base covers find
covering_api_path paths path =
    let base = api_path_base path in find (λ entry. covers (api_path_base entry) base) paths

-- `[A-Za-z0-9._~-]`
abbrev is_path_char : ℕ → Bool
is_path_char c =
    (leb 65 c && leb c 90)
    || (leb 97 c && leb c 122)
    || is_digit c
    || c == 46
    || c == 95
    || c == 126
    || c == 45

abbrev is_segment : Text → Bool
is_segment [] = false
is_segment (c ∷ cs) = all is_path_char (c ∷ cs)

-- Further segments, and a slash at the end.
abbrev more_segments : List Text → Bool
more_segments [] = true
more_segments ([] ∷ []) = true
more_segments (segment ∷ segments) = is_segment segment && more_segments segments

abbrev has_segments : List Text → Bool
has_segments [] = false
has_segments (segment ∷ segments) = is_segment segment && more_segments segments

-- Whether the expression `API_PATH` matches.
unfoldable pub matches_api_path : Text → Bool
unfolding starts_with split
matches_api_path path = starts_with path (codes "/api/") && has_segments (split slash (drop 5 path))

abbrev is_traversal : Text → Bool
is_traversal segment = same segment (codes ".") || same segment (codes "..")

unfoldable pub is_valid_path : Text → Bool
unfolding matches_api_path
is_valid_path path =
    leb (length path) max_path_length
    && matches_api_path path
    && not (any is_traversal (split slash path))

abbrev pub overlap : Text → Text → Bool
overlap path other =
    covers (api_path_base other) (api_path_base path)
    || covers (api_path_base path) (api_path_base other)

abbrev no_match : Option Text → (Text → ApiPathError) → Result ApiPathError (Unit {0})
no_match none thrown = ok tt
no_match (some found) thrown = err (thrown found)

module _ (web_socket_paths : List Text) where
  unfoldable pub check_path : List Text → Text → Result ApiPathError (Unit {0})
  unfolding find is_valid_path covers
  check_path paths path = do
    reject_if (not (is_valid_path path)) invalid_path
    reject_if (covers (codes "/api/auth") (api_path_base path)) (under_auth path)
    no_match (find (overlap path) paths) (λ other. overlapping other path)
    no_match (find (covers (api_path_base path)) web_socket_paths) (covers_socket path)

  -- The elements that are no string are `none`.
  unfoldable pub parse_paths : List Text → List (Option Text) → Result ApiPathError (List Text)
  unfolding check_path
  parse_paths paths [] = ok paths
  parse_paths paths (none ∷ values) = err invalid_path
  parse_paths paths (some path ∷ values) =
      check_path paths path >> parse_paths (paths ++ (path ∷ [])) values

  -- A value that is no array is `none`.
  unfoldable pub parse_api_paths : Option (List (Option Text)) → Result ApiPathError (List Text)
  unfolding parse_paths
  parse_api_paths none = err not_array
  parse_api_paths (some values) =
      reject_if (ltb max_paths (length values)) too_many >> parse_paths [] values

pub record ApiPathMerge : Type 0 where
  pub paths : List Text
  pub added : List Text
  pub rejected : List (Text × ApiPathError)

abbrev merge_checked : Text → Result ApiPathError (List Text) → ApiPathMerge → ApiPathMerge
merge_checked path (ok validated) s = record s {
  paths = s.paths ++ (path ∷ []);
  added = s.added ++ (path ∷ []);
}
merge_checked path (err thrown) s = record s { rejected = s.rejected ++ ((path, thrown) ∷ []) }

abbrev pub merge_at :
    (List Text → Result ApiPathError (List Text)) → Text → ApiPathMerge → Option Text → ApiPathMerge
merge_at validate path s (some entry) = s
merge_at validate path s none = merge_checked path (validate (s.paths ++ (path ∷ []))) s

unfoldable pub merge_path :
    (List Text → Result ApiPathError (List Text)) → Text → ApiPathMerge → ApiPathMerge
merge_path validate path s = merge_at validate path s (covering_api_path s.paths path)

unfoldable pub merge_each :
    (List Text → Result ApiPathError (List Text)) → List Text → ApiPathMerge → ApiPathMerge
unfolding merge_path
merge_each validate [] s = s
merge_each validate (path ∷ paths) s = merge_each validate paths (merge_path validate path s)

unfoldable pub merge_api_paths :
    List Text → List Text → (List Text → Result ApiPathError (List Text)) → ApiPathMerge
unfolding merge_each
merge_api_paths current additions validate =
    merge_each validate additions (record { paths = current; added = []; rejected = [] })

unfoldable pub parse_list : List Text → Result ApiPathError (List Text)
unfolding parse_api_paths
parse_list paths = parse_api_paths [] (some (map some paths))

abbrev flat : List (List Text) → List Text
flat [] = []
flat (paths ∷ more) = paths ++ flat more

-- Of each module, its paths that were applied, if any.
unfoldable pub installed_api_paths : List (List Text) → List Text
unfolding merge_api_paths parse_list
installed_api_paths modules = (merge_api_paths [] (flat modules) parse_list).paths
