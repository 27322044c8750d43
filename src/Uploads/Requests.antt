-- ===== src/Uploads/Requests.antt =====
-- chunked-uploads.ts: what a request checks before its statements, and what it answers after them.
-- Storage calls stand between the two.
pub mod Complete
use podokit.Base.{
  ℕ, zero, suc, ◌+◌, ◌-◌, ◌*◌, ◌/◌, ◌%◌, ◌^◌, ◌≤◌, ◌<◌, min, max, ◌≡◌, refl, sym, ap, ◌∙◌, ◌≡⟨◌⟩◌,
  ◌∎, ◌≢◌, ◌↔◌, ◌⊎◌, inl, inr, Bool, true, false, not, ◌&&◌, ◌||◌, Option, none, some, List, [],
  ◌∷◌, ◌++◌, map, append-nil, append_assoc, arith, ltb, leb, ◌==◌, if◌then◌else◌, ltb→lt, lt→ltb,
  leb→le, le→leb, ==_iff, tests, Bool-cases, Option-cases, codes, length, get_elem?, take, drop,
  keep_if, any, all, length-append, take-append-drop, length-drop, length-take, All, All-append,
  All-map, All-keep_if, Result, ok, err, Result-cases, Ensures, Ensures-bind, Ensures-after,
  Ensures-ok, Ensures-of, All-get_elem?, ◌>>=◌, ◌>>◌, reject_if, Eq, list_beq, list_beq_iff, Text,
  same, same_iff, same_refl, nat_eq, text_eq,
}
use podokit.Map
use podokit.Numbers.{Number, whole_from}
use podokit.Uploads.Layout.{Layout, part_layout, expected_part_size}
use podokit.Uploads.Sessions.{
  Status, open_for_parts, completing, completed, aborted, Part, Session, Config, retain_until,
  is_status,
}

pub data Error : Type 0 where
  not_found size_invalid too_large : Error
  upload_completed upload_completing upload_aborted upload_expired : Error
  part_out_of_range length_required part_size_mismatch conflict : Error
  incomplete : List ℕ → Error

-- `create`, with the key and the id that storage gave.
unfoldable pub create :
    Config
    → Option Text
    → Text
    → Text
    → Number
    → Option Text
    → (key storage_id : Text) → (now : ℕ) → Result Error Session
create config owner id filename size content_type key storage_id now = elim (whole_from 1 size) [
  | none ↦ err size_invalid
  | some bytes ↦ do
    reject_if (ltb config.max_bytes bytes) too_large
    ok (record {
      id = id;
      owner_id = owner;
      object_key = key;
      multipart_upload_id = some storage_id;
      filename = filename;
      content_type = content_type;
      size = bytes;
      layout = part_layout bytes config.part_bytes;
      status = open_for_parts;
      expires_at = retain_until config now;
      updated_at = now;
      parts = [];
    })
]

same_owner : Option Text → Option Text → Bool
same_owner none none = true
same_owner (some a) (some b) = same a b
same_owner _ _ = false

-- What `load` gives, for an id of the right form.
unfoldable pub load : Option Text → Option Session → Result Error Session
unfolding same_owner
load owner none = err not_found
load owner (some s) = if same_owner s.owner_id owner then ok s else err not_found

unfoldable pub writable : Session → ℕ → Result Error Text
writable s now = do
  reject_if (is_status s.status completed) upload_completed
  reject_if (is_status s.status completing) upload_completing
  reject_if (is_status s.status aborted) upload_aborted
  elim s.multipart_upload_id [
    | none ↦ err upload_aborted
    | some storage_id ↦ if leb s.expires_at now then err upload_expired else ok storage_id
  ]

-- The checks of `putPart`, up to the call of storage; the size of the part that it expects.
unfoldable pub check_part : Session → ℕ → Number → Option ℕ → Result Error (ℕ × ℕ)
unfolding writable
check_part s now part_number content_length = do
  storage_id ← writable s now
  elim part_number [
    | Number.minus n ↦ err part_out_of_range
    | Number.other ↦ err part_out_of_range
    | Number.whole n ↦ do
      reject_if (ltb n 1 || ltb s.layout.part_count n) part_out_of_range
      let expected = expected_part_size s.size s.layout n
      elim content_length [
        | none ↦ err length_required
        | some length ↦ if length == expected then ok (n, expected) else err part_size_mismatch
      ]
  ]

-- The numbers up to `n` of the parts that are not stored.
unfoldable pub missing : ℕ → List (ℕ × Part) → List ℕ
missing zero parts = []
missing (suc n) parts = missing n parts ++ (if Map.has (suc n) parts then [] else suc n ∷ [])

unfoldable pub assert_all_parts : Session → Result Error (Unit {0})
unfolding missing
assert_all_parts s = elim (missing s.layout.part_count s.parts) [
  | [] ↦ ok tt
  | n ∷ more ↦ err (incomplete (n ∷ more))
]

-- The checks of `complete` before it claims the upload, where it is not completed yet.
unfoldable pub check_complete : Session → ℕ → Result Error (Unit {0})
unfolding writable assert_all_parts
check_complete s now = do storage_id ← writable s now; assert_all_parts s

-- What `abort` answers, once it has tried to claim the upload.
unfoldable pub abort_result : Session → Result Error (Unit {0})
abort_result s = do
  reject_if (is_status s.status completed) upload_completed
  reject_if (not (is_status s.status aborted)) upload_completing
