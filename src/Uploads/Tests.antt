-- ===== src/Uploads/Tests.antt =====
-- A small upload in two parts.
use podokit.Base.{
  ltb, ◌-◌, ◌+◌, ◌*◌, if◌then◌else◌, Option, Text, ℕ, ◌≤◌, List, ◌||◌, ◌≡◌, refl, none, some, [],
  ◌∷◌, arith, codes, ok, err, list_beq, same, nat_eq, text_eq,
}
use podokit.Map
use podokit.Numbers.{Number, whole_from}
use podokit.Uploads.Config.{
  UploadConfig, default_upload_config, upload_config, read_settings, whole_number, trimmed,
  read_text, at_least, check_parts, upload_config-Fits,
}
use podokit.Uploads.Layout.{part_layout, expected_part_size, Covers, part_layout-Covers}
use podokit.Uploads.Sessions.{open_for_parts, Session, Config, execute, record_part}
use podokit.Uploads.Requests.{
  create, load, writable, check_part, missing, assert_all_parts, check_complete, abort_result,
  incomplete,
}
use podokit.Uploads.Requests.Complete.{
  Uploading, accepts, records, Reaches, here, step, IsSound, fresh, reaches-IsSound,
}

uploads : Unit {0}
unfolding part_layout expected_part_size execute create load writable check_part missing
    assert_all_parts check_complete abort_result whole_from same list_beq Map.has Map.put
uploads = tt

abbrev config : Config
config = record {
  max_bytes = 100;
  part_bytes = 10;
  session_ttl_seconds = 60;
  sweep_interval_seconds = 60;
}

part_layout-Covers_example : Covers 25000000 (part_layout 25000000 8388608)
part_layout-Covers_example = part_layout-Covers 25000000 8388608 (omega arith) (omega arith)

three_parts : part_layout 25000000 8388608 ≡ record { part_size = 8388608; part_count = 3 }
unfolding uploads
three_parts = refl

-- A layout of two parts of at most four bytes.
abbrev small : Session
small = record {
  id = codes "u";
  owner_id = none;
  object_key = codes "k";
  multipart_upload_id = some (codes "m");
  filename = codes "a.txt";
  content_type = none;
  size = 6;
  layout = record { part_size = 4; part_count = 2 };
  status = open_for_parts;
  expires_at = 1000;
  updated_at = 0;
  parts = [];
}

abbrev after_first : Uploading
after_first =
    let u : Uploading = record (fresh small) { accepted = (2, 2) ∷ [] } in
    record u { session = (execute config 20 (record_part 2 (codes "e") 2) u.session).0 }

second_part_accepted : check_part small 10 (Number.whole 2) (some 2) ≡ ok (2, 2)
unfolding uploads
second_part_accepted = refl

second_part_recorded : Reaches config (fresh small) after_first
second_part_recorded =
    step (step here (accepts 10 (Number.whole 2) (some 2) (2, 2) second_part_accepted))
      (records 20 0 (codes "e") 2 2 refl)

reaches-IsSound_example : IsSound after_first
reaches-IsSound_example = reaches-IsSound config small after_first refl refl second_part_recorded

first_part_missing : check_complete after_first.session 30 ≡ err (incomplete (1 ∷ []))
unfolding uploads
first_part_missing = refl

abbrev digits : ℕ → Text → Option ℕ
digits n [] = some n
digits n (c ∷ text) =
    let rest = digits (10 * n + (c - 48)) text in if ltb c 48 || ltb 57 c then none else rest

abbrev settings : List (Text × Text)
settings =
    (codes "FILE_UPLOAD_PART_BYTES", codes "6000000")
    ∷ (codes "FILE_UPLOAD_SESSION_TTL", codes "90")
    ∷ []

abbrev accepted_settings : UploadConfig
accepted_settings = record default_upload_config { part_bytes = 6000000; session_ttl_seconds = 90 }

settings_accepted : upload_config (λ t. t) (digits 0) settings 8388608 ≡ ok accepted_settings
unfolding uploads upload_config read_settings whole_number trimmed read_text at_least check_parts
    Map.get
settings_accepted = refl

upload_config-Fits_example : (part_layout 20000000 6000000).part_size ≤ 8388608
upload_config-Fits_example =
    upload_config-Fits 8388608 (λ t. t) (digits 0) settings accepted_settings 20000000
      settings_accepted (omega arith)
