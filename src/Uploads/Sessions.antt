-- ===== src/Uploads/Sessions.antt =====
-- chunked-uploads.ts: the row of an upload in "file_upload_sessions" with its rows of
-- "file_upload_parts", and the statements that change it. A statement of a sweep changes a batch of
-- rows; here it is what it does to each of them. The result says whether the row was claimed.
use podokit.Base.{
  ℕ, ◌+◌, ◌-◌, ◌*◌, max, Bool, true, false, not, ◌&&◌, ◌||◌, Option, none, some, List, ltb, Text,
  nat_eq, text_eq,
}
use podokit.Map
use podokit.Uploads.Layout.{Layout}

pub data Status : Type 0 where
  open_for_parts completing completed aborted : Status

pub record Part : Type 0 where
  pub etag : Text
  pub size : ℕ

pub record Session : Type 0 where
  pub id : Text
  pub owner_id : Option Text
  pub object_key : Text
  pub multipart_upload_id : Option Text
  pub filename : Text
  pub content_type : Option Text
  pub size : ℕ
  pub layout : Layout
  pub status : Status
  pub expires_at : ℕ
  pub updated_at : ℕ
  pub parts : List (ℕ × Part)

pub record Config : Type 0 where
  pub max_bytes : ℕ
  pub part_bytes : ℕ
  pub session_ttl_seconds : ℕ
  pub sweep_interval_seconds : ℕ

-- COMPLETE_LEASE_MS
abbrev pub complete_lease_ms : ℕ
complete_lease_ms = 900000

abbrev pub is_status : Status → Status → Bool
is_status open_for_parts open_for_parts = true
is_status completing completing = true
is_status completed completed = true
is_status aborted aborted = true
is_status _ _ = false

abbrev pub retain_until : Config → ℕ → ℕ
retain_until config now = now + config.session_ttl_seconds * 1000

abbrev pub is_some {ℓ} : {A : Type ℓ} → Option A → Bool
is_some none = false
is_some (some a) = true

-- UPDATE ... WHERE ... RETURNING "id"
abbrev pub update_where : Bool → Session → Session → Session × Bool
update_where true s s' = (s', true)
update_where false s s' = (s, false)

pub data Statement : Type 0 where
  record_part : (part_number : ℕ) → (etag : Text) → (size : ℕ) → Statement
  claim_complete finish reopen : Statement
  claim_abort : Statement
  mark_aborted : (from : Status) → Statement
  forget_storage : Statement
  expire retry_release recover settle_completed settle_aborted : Statement

-- The statements, each with the time at which it runs.
module _ (config : Config) (now : ℕ) where
  -- In the transaction of `putPart`.
  abbrev pub store_part : ℕ → Text → ℕ → Session → Session × Bool
  store_part n etag size s =
      update_where (is_status s.status open_for_parts && ltb now s.expires_at) s (record s {
        expires_at = retain_until config now;
        updated_at = now;
        parts = Map.put n (record { etag = etag; size = size }) s.parts;
      })

  -- Open to completing, in `complete`.
  abbrev pub claim_to_complete : Session → Session × Bool
  claim_to_complete s =
      update_where (is_status s.status open_for_parts && ltb now s.expires_at) s
        (record s { status = completing; expires_at = now + complete_lease_ms; updated_at = now })

  -- Completing to completed, in `complete`.
  abbrev pub set_completed : Session → Session × Bool
  set_completed s = update_where (is_status s.status completing) s (record s {
    status = completed;
    multipart_upload_id = none;
    expires_at = retain_until config now;
    updated_at = now;
  })

  abbrev pub set_open : Session → Session × Bool
  set_open s =
      update_where (is_status s.status completing) s (record s {
        status = open_for_parts;
        expires_at = retain_until config now;
        updated_at = now;
      })

  -- Open to aborted, in `abort`.
  abbrev pub claim_to_abort : Session → Session × Bool
  claim_to_abort s =
      update_where (is_status s.status open_for_parts) s
        (record s { status = aborted; expires_at = retain_until config now; updated_at = now })

  abbrev pub set_aborted : Status → Session → Session × Bool
  set_aborted from s = update_where (is_status s.status from) s (record s {
    status = aborted;
    multipart_upload_id = none;
    expires_at = retain_until config now;
    updated_at = now;
  })

  -- Once storage has aborted the upload, in `release`.
  abbrev pub clear_storage : Session → Session × Bool
  clear_storage s =
      update_where (is_status s.status aborted) s (record s { multipart_upload_id = none })

  -- The sweep: uploads that expired, aborts of storage that are tried again, and uploads that a
  -- replica left completing.
  abbrev pub sweep_expired : Session → Session × Bool
  sweep_expired s =
      update_where (is_status s.status open_for_parts && ltb s.expires_at now) s
        (record s { status = aborted; expires_at = retain_until config now; updated_at = now })

  abbrev pub sweep_aborted : Session → Session × Bool
  sweep_aborted s =
      update_where
        (is_status s.status aborted
          && is_some s.multipart_upload_id
          && ltb s.updated_at (now - max config.sweep_interval_seconds 60 * 1000))
        s (record s { updated_at = now })

  abbrev pub sweep_completing : Session → Session × Bool
  sweep_completing s =
      update_where (is_status s.status completing && ltb s.expires_at now) s
        (record s { expires_at = now + complete_lease_ms; updated_at = now })

  -- `settle`, where the object is in place, and where it is not.
  abbrev pub settle_as_completed : Session → Session × Bool
  settle_as_completed s = update_where (is_status s.status completing) s (record s {
    status = completed;
    multipart_upload_id = none;
    expires_at = retain_until config now;
    updated_at = now;
  })

  abbrev pub settle_as_aborted : Session → Session × Bool
  settle_as_aborted s =
      update_where (is_status s.status completing) s
        (record s { status = aborted; expires_at = retain_until config now; updated_at = now })

  unfoldable pub execute : Statement → Session → Session × Bool
  execute (record_part n etag size) s = store_part n etag size s
  execute claim_complete s = claim_to_complete s
  execute finish s = set_completed s
  execute reopen s = set_open s
  execute claim_abort s = claim_to_abort s
  execute (mark_aborted from) s = set_aborted from s
  execute forget_storage s = clear_storage s
  execute expire s = sweep_expired s
  execute retry_release s = sweep_aborted s
  execute recover s = sweep_completing s
  execute settle_completed s = settle_as_completed s
  execute settle_aborted s = settle_as_aborted s

  -- The rows that a sweep deletes.
  unfoldable pub is_finished : Session → Bool
  is_finished s =
      (is_status s.status completed || is_status s.status aborted)
      && not (is_some s.multipart_upload_id)
      && ltb s.expires_at now
