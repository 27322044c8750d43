-- ===== src/Cache/Bounds.antt =====
-- MemoryCacheStore: the bounds that hold after any calls, errors included.
use podokit.Base.{
  Result-cases, All-keep_if, length-keep_if, ℕ, ◌+◌, ◌≤◌, ◌≡◌, refl, inl, inr, false, Option, none,
  some, List, [], ◌∷◌, arith, Bool-cases, length, keep_if, length-append, All, Result, ok, err,
  Text, text_eq,
}
use podokit.Map
use podokit.Map.{IsMap}
use podokit.Numbers.{Number}
use podokit.Cache.{
  bad_limit, bad_window, expired_at, Cache, Entry, Counter, Error, byte_length, fresh,
  remove_expired, evict_for_insert, read, get, checked_ttl, expiry, make_room, set, delete, size,
  running, positive_integer, increment_fixed_window, close,
}

-- A call on the cache, with the clock readings that it takes.
pub data Call : Type 0 where
  gets : Text → ℕ → Call
  sets : Text → Text → Option Number → ℕ → ℕ → Call
  deletes : Text → Call
  sizes : ℕ → Call
  increments : Text → Number → Number → ℕ → Call
  closes : Call

abbrev after_set : Cache → Result Error Cache → Cache
after_set c (ok c') = c'
after_set c (err e) = c

abbrev after_increment {ℓ} : {A : Type ℓ} → Cache → Result Error (Cache × A) → Cache
after_increment c (ok (c', w)) = c'
after_increment c (err e) = c

unfoldable pub step : Cache → Call → Cache
step c (gets key now) = (get c key now).0
step c (sets key value ttl now later) = after_set c (set c key value ttl now later)
step c (deletes key) = (delete c key).0
step c (sizes now) = (size c now).0
step c (increments key window limit now) =
    after_increment c (increment_fixed_window c key window limit now)
step c closes = close c

unfoldable pub run : Cache → List Call → Cache
run c [] = c
run c (call ∷ calls) = run (step c call) calls

abbrev pub Fits : ℕ → Text × Entry → Type 0
Fits most (k, entry) = byte_length entry.value ≤ most

pub record IsValid (c : Cache) : Type 0 where
  pub room : 1 ≤ c.max_entries
  pub bounded : length c.entries ≤ c.max_entries
  pub keyed : IsMap c.entries
  pub counted : IsMap c.counters
  pub fitting : All (Fits c.max_value_bytes) c.entries

remove_expired-length :
    (now : ℕ) (m : List (Text × Entry)) → length (remove_expired now m) ≤ length m
unfolding remove_expired
remove_expired-length now m = length-keep_if (fresh now) m

evict-IsMap : (most : ℕ) (m : List (Text × Entry)) → IsMap m → IsMap (evict_for_insert most m)
unfolding evict_for_insert
evict-IsMap most [] h = tt
evict-IsMap most ((k, v) ∷ m) h = ground (arith, evict-IsMap most m h.1)

evict-length :
    (most : ℕ) (m : List (Text × Entry)) → 1 ≤ most → length (evict_for_insert most m) + 1 ≤ most
unfolding evict_for_insert
evict-length most [] h = omega arith
evict-length most (x ∷ m) h = ground (arith, evict-length most m)

evict-All :
    (P : Text × Entry → Type 0) (most : ℕ) (m : List (Text × Entry))
    → All P m
    → All P (evict_for_insert most m)
unfolding evict_for_insert
evict-All P most [] h = tt
evict-All P most (x ∷ m) h = ground (arith, evict-All P most m h.1)

pub has-evict :
    (most : ℕ) (k : Text) (m : List (Text × Entry))
    → Map.has k m ≡ false
    → Map.has k (evict_for_insert most m) ≡ false
unfolding evict_for_insert Map.has
has-evict most k [] h = refl
has-evict most k ((j, v) ∷ m) h = ground (arith, has-evict most k m)

module _ (c : Cache) (valid : IsValid c) (key : Text) (now : ℕ) where
  remove_expired-IsMap : IsMap (remove_expired now c.entries)
  unfolding remove_expired
  remove_expired-IsMap = Map.keep_if-IsMap (fresh now) c.entries valid.keyed

  make_room-IsMap : IsMap (make_room c key now)
  unfolding make_room remove_expired
  make_room-IsMap = ground (
    arith,
    Map.keep_if-IsMap (fresh now) c.entries valid.keyed,
    evict-IsMap c.max_entries (keep_if (fresh now) c.entries),
  )

  make_room-All : All (Fits c.max_value_bytes) (make_room c key now)
  unfolding make_room remove_expired
  make_room-All = ground (
    arith,
    All-keep_if (Fits c.max_value_bytes) (fresh now) c.entries valid.fitting,
    evict-All (Fits c.max_value_bytes) c.max_entries (keep_if (fresh now) c.entries),
  )

  -- There is room for `key`, whether it takes a new place or its old one.
  make_room-length : length (Map.remove key (make_room c key now)) + 1 ≤ c.max_entries
  unfolding make_room
  make_room-length = elim (Bool-cases (Map.has key (remove_expired now c.entries))) [
    | inl old ↦
        rw (old, make_room)
          (omega (
            arith,
            Map.length-remove key (remove_expired now c.entries) remove_expired-IsMap old,
            remove_expired-length now c.entries,
            valid.bounded,
          ))
    | inr new ↦
        rw (new, make_room)
          (omega (
            arith,
            Map.length-remove_le key
                (evict_for_insert c.max_entries (remove_expired now c.entries)),
            evict-length c.max_entries (remove_expired now c.entries) valid.room,
          ))
  ]

module _ (c : Cache) (valid : IsValid c) where
  with_entries-IsValid :
      (m : List (Text × Entry))
      → length m ≤ c.max_entries
      → IsMap m
      → All (Fits c.max_value_bytes) m
      → IsValid (record c { entries = m })
  with_entries-IsValid m short keyed fitting = record {
    room = valid.room;
    bounded = short;
    keyed = keyed;
    counted = valid.counted;
    fitting = fitting;
  }

  with_counters-IsValid :
      (m : List (Text × Counter)) → IsMap m → IsValid (record c { counters = m })
  with_counters-IsValid m counted = record {
    room = valid.room;
    bounded = valid.bounded;
    keyed = valid.keyed;
    counted = counted;
    fitting = valid.fitting;
  }

  -- An entry moved to the end, where there is room for it.
  renewed-IsValid :
      (key : Text) (entry : Entry) (m : List (Text × Entry))
      → byte_length entry.value ≤ c.max_value_bytes
      → length (Map.remove key m) + 1 ≤ c.max_entries
      → IsMap m
      → All (Fits c.max_value_bytes) m
      → IsValid (record c { entries = Map.put key entry (Map.remove key m) })
  renewed-IsValid key entry m small room keyed fitting =
      with_entries-IsValid (Map.put key entry (Map.remove key m))
        (rw (Map.put-remove key entry m)
          (omega (arith, length-append (Map.remove key m) ((key, entry) ∷ []))))
        (Map.put-IsMap key entry (Map.remove key m) (Map.remove-IsMap key m keyed))
        (Map.All-put (Fits c.max_value_bytes) key entry (Map.remove key m) small
          (Map.All-remove (Fits c.max_value_bytes) key m fitting))

-- What a `set` that returns has done.
pub set_ok :
    (c : Cache) (key value : Text) (ttl : Option Number) (now later : ℕ) {c' : Cache}
    → set c key value ttl now later ≡ ok c'
    → (ms : Option ℕ) × (checked_ttl ttl ≡ ok ms)
      × (byte_length value ≤ c.max_value_bytes)
      × (c' ≡ record c {
        entries =
            Map.put key
              (record { value = value; expires_at = expiry ms later })
              (Map.remove key (make_room c key now));
      })
unfolding set
set_ok c key value ttl now later done = elim (Result-cases (checked_ttl ttl)) [
  | inl (ms, e) ↦ (ms, e, ground arith, ground arith)
  | inr (x, e) ↦ absurd (ground arith)
]

set-IsValid :
    (c : Cache) (key value : Text) (ttl : Option Number) (now later : ℕ) {c' : Cache}
    → IsValid c
    → set c key value ttl now later ≡ ok c'
    → IsValid c'
set-IsValid c key value ttl now later valid done =
    let (ms, given, small, shape) = set_ok c key value ttl now later done in
    rw shape (
      renewed-IsValid c valid key (record { value = value; expires_at = expiry ms later })
        (make_room c key now) small (make_room-length c valid key now)
        (make_room-IsMap c valid key now) (make_room-All c valid key now))

read-IsValid :
    (c : Cache) (key : Text) (now : ℕ)
    → IsValid c
    → (found : Option Entry) → Map.get key c.entries ≡ found
    → IsValid (read c key now found).0
unfolding read
read-IsValid c key now valid none found = valid
read-IsValid c key now valid (some entry) found =
    let shorter =
      Map.length-remove key c.entries valid.keyed (Map.has_of_get key entry c.entries found) in
    let dropped =
      with_entries-IsValid c valid (Map.remove key c.entries)
        (omega (arith, shorter, valid.bounded)) (Map.remove-IsMap key c.entries valid.keyed)
        (Map.All-remove (Fits c.max_value_bytes) key c.entries valid.fitting) in
    let moved =
      renewed-IsValid c valid key entry c.entries
        (Map.All-get (Fits c.max_value_bytes) key entry c.entries valid.fitting found)
        (omega (arith, shorter, valid.bounded)) valid.keyed valid.fitting in
    elim (Bool-cases (expired_at entry.expires_at now)) [
      | inl e ↦ rw (e, read) dropped
      | inr e ↦ rw (e, read) moved
    ]

get-IsValid : (c : Cache) (key : Text) (now : ℕ) → IsValid c → IsValid (get c key now).0
unfolding get
get-IsValid c key now valid = read-IsValid c key now valid (Map.get key c.entries) refl

increment-IsValid :
    (c : Cache) (key : Text) (window limit : Number) (now : ℕ)
    → IsValid c
    → IsValid (after_increment c (increment_fixed_window c key window limit now))
unfolding increment_fixed_window
increment-IsValid c key window limit now valid =
    elim (Result-cases (positive_integer window bad_window)) [
      | inl (w, e) ↦ elim (Result-cases (positive_integer limit bad_limit)) [
        | inl (l, e') ↦
            rw (e, e')
              (with_counters-IsValid c valid _
                (Map.keep_if-IsMap (running now) _ (Map.put-IsMap key _ c.counters valid.counted)))
        | inr (x, e') ↦ rw (e, e') valid
      ]
      | inr (x, e) ↦ rw e valid
    ]

-- Whatever call is made, a valid cache stays valid.
step-IsValid : (c : Cache) (call : Call) → IsValid c → IsValid (step c call)
unfolding step delete size close remove_expired
step-IsValid c (gets key now) valid = get-IsValid c key now valid
step-IsValid c (sets key value ttl now later) valid =
    elim (Result-cases (set c key value ttl now later)) [
      | inl (c', e) ↦ rw e (set-IsValid c key value ttl now later valid e)
      | inr (x, e) ↦ rw e valid
    ]
step-IsValid c (deletes key) valid =
    with_entries-IsValid c valid (Map.remove key c.entries)
      (omega (arith, Map.length-remove_le key c.entries, valid.bounded))
      (Map.remove-IsMap key c.entries valid.keyed)
      (Map.All-remove (Fits c.max_value_bytes) key c.entries valid.fitting)
step-IsValid c (sizes now) valid =
    with_entries-IsValid c valid (keep_if (fresh now) c.entries)
      (omega (arith, length-keep_if (fresh now) c.entries, valid.bounded))
      (Map.keep_if-IsMap (fresh now) c.entries valid.keyed)
      (All-keep_if (Fits c.max_value_bytes) (fresh now) c.entries valid.fitting)
step-IsValid c (increments key window limit now) valid =
    increment-IsValid c key window limit now valid
step-IsValid c closes valid =
    with_counters-IsValid (record c { entries = [] })
      (with_entries-IsValid c valid [] (omega arith) tt tt) [] tt

-- After any calls on a valid cache, errors included, it holds at most `maxEntries` entries with
-- pairwise different keys, none larger than `maxValueBytes`, and counters of different keys.
pub run-IsValid : (c : Cache) (calls : List Call) → IsValid c → IsValid (run c calls)
unfolding run
run-IsValid c [] valid = valid
run-IsValid c (call ∷ calls) valid = run-IsValid (step c call) calls (step-IsValid c call valid)
