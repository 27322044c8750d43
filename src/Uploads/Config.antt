-- ===== src/Uploads/Config.antt =====
-- upload-config.ts: the settings of chunked uploads. `trim` is the method of a string, and `number` gives
-- what `Number` reads when that is a safe integer that is not negative, and none otherwise.
use podokit.Base.{
  ℕ, ◌≤◌, ◌*◌, ◌≡◌, inl, inr, arith, ltb, if◌then◌else◌, Bool-cases, nat_eq, text_eq, Result, ok,
  err, ◌>>=◌, Result-cases, Text, codes, Option, none, some, List, [], ◌∷◌,
}
use podokit.Map
use podokit.Uploads.Layout.{part_layout, mib}

pub record UploadConfig : Type 0 where
  pub max_bytes : ℕ
  pub part_bytes : ℕ
  pub session_ttl_seconds : ℕ
  pub sweep_interval_seconds : ℕ
  pub rate_limit_max : ℕ

abbrev pub default_upload_config : UploadConfig
default_upload_config = record {
  max_bytes = 1024 * mib;
  part_bytes = 8 * mib;
  session_ttl_seconds = 86400;
  sweep_interval_seconds = 300;
  rate_limit_max = 3000;
}

-- MIN_MULTIPART_PART_BYTES of packages/runtime.
abbrev pub min_multipart_part_bytes : ℕ
min_multipart_part_bytes = 5242880

pub data ConfigError : Type 0 where
  not_whole : Text → ℕ → ConfigError
  parts_too_large : ℕ → ℕ → ConfigError

-- A text that is set must be a whole number of at least the minimum.
unfoldable pub at_least : Text → ℕ → Option ℕ → Result ConfigError ℕ
at_least name minimum none = err (not_whole name minimum)
at_least name minimum (some value) =
    if ltb value minimum then err (not_whole name minimum) else ok value

unfoldable pub trimmed : (Text → Text) → Option Text → Text
trimmed trim none = []
trimmed trim (some text) = trim text

unfoldable pub read_text : (Text → Option ℕ) → Text → ℕ → ℕ → Text → Result ConfigError ℕ
read_text number name fallback minimum [] = ok fallback
read_text number name fallback minimum (c ∷ text) = at_least name minimum (number (c ∷ text))

unfoldable pub check_parts : ℕ → UploadConfig → Result ConfigError UploadConfig
check_parts max_request_body_size config =
    let largest_part = (part_layout config.max_bytes config.part_bytes).part_size in
    if ltb max_request_body_size largest_part
    then err (parts_too_large largest_part max_request_body_size)
    else ok config

module _ (trim : Text → Text) (number : Text → Option ℕ) where
  unfoldable pub whole_number : List (Text × Text) → Text → ℕ → ℕ → Result ConfigError ℕ
  whole_number source name fallback minimum =
      read_text number name fallback minimum (trimmed trim (Map.get name source))

  unfoldable pub read_settings : List (Text × Text) → Result ConfigError UploadConfig
  read_settings source = do
    most ← whole_number source (codes "FILE_UPLOAD_MAX_BYTES") default_upload_config.max_bytes 1
    part ←
        whole_number source (codes "FILE_UPLOAD_PART_BYTES") default_upload_config.part_bytes
          min_multipart_part_bytes
    ttl ←
        whole_number source (codes "FILE_UPLOAD_SESSION_TTL")
          default_upload_config.session_ttl_seconds 60
    sweep ←
        whole_number source (codes "FILE_UPLOAD_SWEEP_INTERVAL")
          default_upload_config.sweep_interval_seconds 0
    rate ←
        whole_number source (codes "FILE_UPLOAD_RATE_LIMIT_MAX")
          default_upload_config.rate_limit_max 1
    ok (record {
      max_bytes = most;
      part_bytes = part;
      session_ttl_seconds = ttl;
      sweep_interval_seconds = sweep;
      rate_limit_max = rate;
    })

  unfoldable pub upload_config : List (Text × Text) → ℕ → Result ConfigError UploadConfig
  upload_config source max_request_body_size = do
    config ← read_settings source
    check_parts max_request_body_size config

-- A smaller upload has no larger parts.
part_size_le :
    (size most part_bytes : ℕ)
    → size ≤ most
    → (part_layout size part_bytes).part_size ≤ (part_layout most part_bytes).part_size
unfolding part_layout
part_size_le size most part_bytes h = omega arith

module _ (body : ℕ) where
  check_parts_fits :
      (config c : UploadConfig)
      → check_parts body config ≡ ok c
      → (part_layout c.max_bytes c.part_bytes).part_size ≤ body
  unfolding check_parts
  check_parts_fits config c h =
      elim (Bool-cases (ltb body (part_layout config.max_bytes config.part_bytes).part_size)) [
        | inl e ↦ ground (arith, h, e)
        | inr e ↦ ground (arith, h, e)
      ]

  -- Settings that are accepted let every upload of at most `max_bytes` send its parts within the body
  -- limit of the API.
  pub upload_config-Fits :
      (trim : Text → Text) (number : Text → Option ℕ) (source : List (Text × Text))
      (c : UploadConfig) (size : ℕ)
      → upload_config trim number source body ≡ ok c
      → size ≤ c.max_bytes
      → (part_layout size c.part_bytes).part_size ≤ body
  unfolding upload_config
  upload_config-Fits trim number source c size h small =
      elim (Result-cases (read_settings trim number source)) [
        | inl (config, q) ↦
            let checked : check_parts body config ≡ ok c = rw q at h in
            let largest = check_parts_fits config c checked in
            let smaller = part_size_le size c.max_bytes c.part_bytes small in
            omega (arith, largest, smaller)
        | inr (e, q) ↦ let refused : err e ≡ ok c = rw q at h in ground (arith, refused)
      ]
