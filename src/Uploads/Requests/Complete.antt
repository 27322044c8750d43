-- ===== src/Uploads/Requests/Complete.antt =====
-- Requests for one upload that run at the same time, and sweeps: an upload that is completed has all
-- of its parts.
use podokit.Base.{
  ℕ, zero, suc, ◌+◌, ◌≤◌, ◌≡◌, refl, inl, inr, Bool, true, false, ◌&&◌, ◌||◌, Option, none, some,
  List, [], ◌∷◌, ◌++◌, arith, ltb, ◌==◌, Bool-cases, length, get_elem?, All, ok, Ensures,
  Ensures-after, Ensures-ok, Ensures-of, All-get_elem?, reject_if, Text, nat_eq, text_eq,
}
use podokit.Map
use podokit.Numbers.{Number}
use podokit.Uploads.Layout.{expected_part_size}
use podokit.Uploads.Sessions.{
  Status, open_for_parts, completing, completed, Part, Session, Config, is_status, Statement,
  record_part, claim_complete, finish, reopen, claim_abort, mark_aborted, forget_storage, expire,
  retry_release, recover, settle_completed, settle_aborted, execute,
}
use podokit.Uploads.Requests.{
  part_out_of_range, writable, check_part, missing, assert_all_parts, check_complete,
}

-- The upload, the parts whose requests have passed their checks, and how many requests to complete it
-- have passed theirs.
pub record Uploading : Type 0 where
  pub session : Session
  pub accepted : List (ℕ × ℕ)
  pub ready : ℕ

abbrev pub is_free : Statement → Bool
is_free (record_part n etag size) = false
is_free claim_complete = false
is_free _ = true

-- A part is recorded, and the upload claimed, only by a request that has passed its checks. Storage has
-- stored as many bytes as were expected. Every other statement may run at any time.
pub data Step (config : Config) : Uploading → Uploading → Type 0 where
  accepts :
      {u : Uploading} (now : ℕ) (part_number : Number) (length : Option ℕ) (part : ℕ × ℕ)
      → check_part u.session now part_number length ≡ ok part
      → Step config u (record u { accepted = part ∷ u.accepted })
  records :
      {u : Uploading} (now i : ℕ) (etag : Text) (n size : ℕ)
      → get_elem? u.accepted i ≡ some (n, size)
      → Step config u
          (record u { session = (execute config now (record_part n etag size) u.session).0 })
  gets_ready :
      {u : Uploading} (now : ℕ)
      → check_complete u.session now ≡ ok tt
      → Step config u (record u { ready = u.ready + 1 })
  claims :
      {u : Uploading} (now : ℕ)
      → 1 ≤ u.ready
      → Step config u (record u { session = (execute config now claim_complete u.session).0 })
  runs :
      {u : Uploading} (now : ℕ) (statement : Statement)
      → is_free statement ≡ true
      → Step config u (record u { session = (execute config now statement u.session).0 })

pub data Reaches (config : Config) (u : Uploading) : Uploading → Type 0 where
  here : Reaches config u u
  step : {v w : Uploading} → Reaches config u v → Step config v w → Reaches config u w

-- The part has one of the numbers of the upload, and the size that is expected.
abbrev pub Fits : Session → ℕ × ℕ → Type 0
Fits s (n, size) =
    (1 ≤ n) × (n ≤ s.layout.part_count) × (size ≡ expected_part_size s.size s.layout n)

abbrev pub past_open : Status → Bool
past_open completing = true
past_open completed = true
past_open _ = false

pub record IsSound (u : Uploading) : Type 0 where
  pub stored : All (λ entry. Fits u.session (entry.0, entry.1.size)) u.session.parts
  pub waiting : All (Fits u.session) u.accepted
  pub ready_whole : 1 ≤ u.ready → missing u.session.layout.part_count u.session.parts ≡ []
  pub whole :
      past_open u.session.status ≡ true → missing u.session.layout.part_count u.session.parts ≡ []

append-empty : (xs ys : List ℕ) → xs ++ ys ≡ [] → (xs ≡ []) × (ys ≡ [])
append-empty [] ys h = (refl, h)
append-empty (x ∷ xs) ys h = absurd (ground arith)

missing-put :
    (n k : ℕ) (part : Part) (parts : List (ℕ × Part))
    → missing n parts ≡ []
    → missing n (Map.put k part parts) ≡ []
unfolding missing
missing-put zero k part parts h = refl
missing-put (suc n) k part parts h =
    let (before, last) = append-empty (missing n parts) _ h in
    rw (missing-put n k part parts before) (ground (arith, last, Map.has-put k (suc n) part parts))

check_part-Fits :
    (s : Session) (now : ℕ) (part_number : Number) (length : Option ℕ)
    → Ensures (Fits s) (check_part s now part_number length)
unfolding check_part
check_part-Fits s now (Number.minus n) length = Ensures-after (Fits s) (writable s now) _ λ id. tt
check_part-Fits s now Number.other length = Ensures-after (Fits s) (writable s now) _ λ id. tt
check_part-Fits s now (Number.whole n) none = Ensures-after (Fits s) (writable s now) _ λ id.
    Ensures-after (Fits s) (reject_if (ltb n 1 || ltb s.layout.part_count n) part_out_of_range) _
      λ x. tt
check_part-Fits s now (Number.whole n) (some l) = Ensures-after (Fits s) (writable s now) _ λ id.
    elim (Bool-cases (ltb n 1 || ltb s.layout.part_count n)) [
      | inl e ↦ rw e tt
      | inr e ↦ elim (Bool-cases (l == expected_part_size s.size s.layout n)) [
        | inl q ↦ rw (e, q) (ground (arith, e), ground (arith, e), refl)
        | inr q ↦ rw (e, q) tt
      ]
    ]

asserted :
    (s : Session) → Ensures (λ _. missing s.layout.part_count s.parts ≡ []) (assert_all_parts s)
unfolding assert_all_parts
asserted s =
    Ensures-of (λ _. missing s.layout.part_count s.parts ≡ []) (assert_all_parts s)
      λ a e. ground (arith, e)

check_complete-missing :
    (s : Session) (now : ℕ)
    → check_complete s now ≡ ok tt
    → missing s.layout.part_count s.parts ≡ []
unfolding check_complete assert_all_parts
check_complete-missing s now h =
    let whole : Ensures (λ _. missing s.layout.part_count s.parts ≡ []) (check_complete s now) =
      Ensures-after (λ _. missing s.layout.part_count s.parts ≡ []) (writable s now) _
        λ id. asserted s in
    Ensures-ok (λ _. missing s.layout.part_count s.parts ≡ []) (check_complete s now) whole h

-- Any statement but the recording of a part leaves the parts and the layout alone.
execute-free :
    (config : Config) (now : ℕ) (statement : Statement) (s : Session)
    → is_free statement ≡ true
    → let s' = (execute config now statement s).0 in
      (s'.parts ≡ s.parts)
      × (s'.layout ≡ s.layout)
      × (s'.size ≡ s.size)
      × (past_open s'.status ≡ true → past_open s.status ≡ true)
unfolding execute
execute-free config now (record_part n etag size) s h = absurd (ground arith)
execute-free config now claim_complete s h = absurd (ground arith)
execute-free config now finish s h = (ground arith, ground arith, ground arith, λ p. ground arith)
execute-free config now reopen s h = (ground arith, ground arith, ground arith, λ p. ground arith)
execute-free config now claim_abort s h =
    (ground arith, ground arith, ground arith, λ p. ground arith)
execute-free config now (mark_aborted from) s h =
    (ground arith, ground arith, ground arith, λ p. ground arith)
execute-free config now forget_storage s h =
    (ground arith, ground arith, ground arith, λ p. ground arith)
execute-free config now expire s h = (ground arith, ground arith, ground arith, λ p. ground arith)
execute-free config now retry_release s h =
    (ground arith, ground arith, ground arith, λ p. ground arith)
execute-free config now recover s h = (ground arith, ground arith, ground arith, λ p. ground arith)
execute-free config now settle_completed s h =
    (ground arith, ground arith, ground arith, λ p. ground arith)
execute-free config now settle_aborted s h =
    (ground arith, ground arith, ground arith, λ p. ground arith)

record_part-IsSound :
    (config : Config) (now : ℕ) (n size : ℕ) (etag : Text) (u : Uploading)
    → Fits u.session (n, size)
    → IsSound u
    → IsSound (record u { session = (execute config now (record_part n etag size) u.session).0 })
unfolding execute
record_part-IsSound config now n size etag u fits h =
    let s = u.session in
    elim (Bool-cases (is_status s.status open_for_parts && ltb now s.expires_at)) [
      | inl e ↦ rw e (record {
        stored = Map.All-put (λ entry. Fits s (entry.0, entry.1.size)) n _ s.parts fits h.stored;
        waiting = h.waiting;
        ready_whole = λ r. missing-put s.layout.part_count n _ s.parts (h.ready_whole r);
        whole = λ p. missing-put s.layout.part_count n _ s.parts (h.whole p);
      })
      | inr e ↦ rw e h
    ]

claim-IsSound :
    (config : Config) (now : ℕ) (u : Uploading)
    → 1 ≤ u.ready
    → IsSound u
    → IsSound (record u { session = (execute config now claim_complete u.session).0 })
unfolding execute
claim-IsSound config now u r h =
    let s = u.session in
    elim (Bool-cases (is_status s.status open_for_parts && ltb now s.expires_at)) [
      | inl e ↦ rw e (record {
        stored = h.stored;
        waiting = h.waiting;
        ready_whole = h.ready_whole;
        whole = λ p. h.ready_whole r;
      })
      | inr e ↦ rw e h
    ]

free-IsSound :
    (config : Config) (now : ℕ) (statement : Statement) (u : Uploading)
    → is_free statement ≡ true
    → IsSound u
    → IsSound (record u { session = (execute config now statement u.session).0 })
free-IsSound config now statement u free h =
    let (parts, layout, size, past) = execute-free config now statement u.session free in
    record {
      stored = rw (parts, layout, size, Fits) h.stored;
      waiting = rw (layout, size, Fits) h.waiting;
      ready_whole = λ r. rw (parts, layout) (h.ready_whole r);
      whole = λ p. rw (parts, layout) (h.whole (past p));
    }

Step-IsSound : (config : Config) (u v : Uploading) → Step config u v → IsSound u → IsSound v
Step-IsSound config u v (accepts now part_number length part e) h = record {
  stored = h.stored;
  waiting = (
    Ensures-ok (Fits u.session) _ (check_part-Fits u.session now part_number length) e,
    h.waiting,
  );
  ready_whole = h.ready_whole;
  whole = h.whole;
}
Step-IsSound config u v (records now i etag n size e) h =
    record_part-IsSound config now n size etag u
      (All-get_elem? (Fits u.session) u.accepted i h.waiting e) h
Step-IsSound config u v (gets_ready now e) h = record {
  stored = h.stored;
  waiting = h.waiting;
  ready_whole = λ r. check_complete-missing u.session now e;
  whole = h.whole;
}
Step-IsSound config u v (claims now r) h = claim-IsSound config now u r h
Step-IsSound config u v (runs now statement free) h = free-IsSound config now statement u free h

reaches-all : (config : Config) (u v : Uploading) → IsSound u → Reaches config u v → IsSound v
reaches-all config u v h here = h
reaches-all config u v h (step {v = a} {w = b} r last) =
    Step-IsSound config a b last (reaches-all config u a h r)

-- An upload that has just been created, with no request under way.
abbrev pub fresh : Session → Uploading
fresh s = record { session = s; accepted = []; ready = 0 }

fresh-IsSound :
    (s : Session) → s.parts ≡ [] → is_status s.status open_for_parts ≡ true → IsSound (fresh s)
fresh-IsSound s e o = record {
  stored = rw e tt;
  waiting = tt;
  ready_whole = λ r. absurd (omega (arith, r));
  whole = λ p. absurd (ground (arith, p, o));
}

-- From an upload without parts that is open on, however requests and sweeps interleave: every part
-- stored has a number of the upload and the size expected of it, and once the upload is being completed
-- or is completed, none of its parts is missing.
pub reaches-IsSound :
    (config : Config) (s : Session) (u : Uploading)
    → s.parts ≡ []
    → is_status s.status open_for_parts ≡ true
    → Reaches config (fresh s) u
    → IsSound u
reaches-IsSound config s u e o r = reaches-all config (fresh s) u (fresh-IsSound s e o) r
