-- ===== src/Cache/Reads.antt =====
-- MemoryCacheStore: what a read returns after a write, and which entry a write evicts.
use podokit.Base.{
  keep_if-append, ℕ, ◌≤◌, ◌<◌, ◌≡◌, refl, ap, ◌∙◌, ◌≢◌, ◌⊎◌, inl, inr, true, false, Option, none,
  some, List, [], ◌∷◌, ◌++◌, append-nil, arith, leb, if◌then◌else◌, Bool-cases, Option-cases,
  length, keep_if, ok, Text, same, same_iff, same_refl, text_eq,
}
use podokit.Map
use podokit.Map.{IsMap}
use podokit.Numbers.{Number}
use podokit.Cache.{
  Cache, Entry, fresh, expired_at, remove_expired, evict_for_insert, read, get, checked_ttl, expiry,
  make_room, set,
}
use podokit.Cache.Bounds.{has-evict, IsValid, set_ok}

-- What a read at `now` returns of the entry found.
abbrev pub value_at : ℕ → Option Entry → Option Text
value_at now none = none
value_at now (some entry) = if expired_at entry.expires_at now then none else some entry.value

get-value_at :
    (c : Cache) (key : Text) (now : ℕ) → (get c key now).1 ≡ value_at now (Map.get key c.entries)
unfolding get
get-value_at c key now = go (Map.get key c.entries)
  where
    go : (found : Option Entry) → (read c key now found).1 ≡ value_at now found
    go none = refl
    go (some entry) = ground arith

-- Time only expires entries.
value_at_later :
    (entry : Entry) (now later : ℕ)
    → now ≤ later
    → expired_at entry.expires_at now ≡ true
    → value_at later (some entry) ≡ none
value_at_later entry now later h e = ground arith

-- Dropping what has expired by `now` changes no read from then on.
value_at-remove_expired :
    (j : Text) (m : List (Text × Entry)) (now later : ℕ)
    → IsMap m
    → now ≤ later
    → value_at later (Map.get j (remove_expired now m)) ≡ value_at later (Map.get j m)
unfolding remove_expired
value_at-remove_expired j m now later keyed h = elim (Option-cases (Map.get j m)) [
  | inl e ↦ rw (
    e,
    Map.get-none_of_not_has j (keep_if (fresh now) m)
        (Map.has-keep_if (fresh now) j m (Map.not_has_of_get j m e)),
  )
  | inr (entry, e) ↦
      rw (e, Map.get-keep_if (fresh now) j m entry keyed e)
        (ground (arith, value_at_later entry now later h))
]

evict_of_room : (most : ℕ) (m : List (Text × Entry)) → length m < most → evict_for_insert most m ≡ m
unfolding evict_for_insert
evict_of_room most [] h = refl
evict_of_room most (x ∷ m) h = ground arith

-- `set` evicts nothing: the key is there already, or there is a free place.
abbrev pub HasRoom : Cache → Text → ℕ → Type 0
HasRoom c key now =
    (Map.has key (remove_expired now c.entries) ≡ true)
    ⊎ (length (remove_expired now c.entries) < c.max_entries)

make_room_of_HasRoom :
    (c : Cache) (key : Text) (now : ℕ)
    → HasRoom c key now
    → make_room c key now ≡ remove_expired now c.entries
unfolding make_room
make_room_of_HasRoom c key now (inl old) = ground arith
make_room_of_HasRoom c key now (inr free) =
    ground (arith, evict_of_room c.max_entries (remove_expired now c.entries) free)

get-written :
    (c c' : Cache) (key : Text) (entry : Entry) (now : ℕ)
    → IsValid c
    → c'.entries ≡ Map.put key entry (Map.remove key (remove_expired now c.entries))
    → (j : Text) (time : ℕ) → now ≤ time
    → (get c' j time).1 ≡ (if same key j then value_at time (some entry) else (get c j time).1)
get-written c c' key entry now valid shape j time h =
    let kept = remove_expired now c.entries in
    let found : Map.get j c'.entries ≡ (if same key j then some entry else Map.get j kept) =
      rw shape (
        ground (arith, Map.get-put key j entry (Map.remove key kept), Map.get-remove key j kept)) in
    ground (
      arith,
      get-value_at c' j time,
      get-value_at c j time,
      found,
      value_at-remove_expired j c.entries now time valid.keyed h,
    )

-- After a `set` that needs no eviction the store reads as a map with expiry: the key written has
-- its value until its time to live has passed since the clock was read, and every other key
-- reads as it did before, at any time from the `set` on.
pub get-set :
    (c : Cache) (key value : Text) (ttl : Option Number) (now later : ℕ) {c' : Cache}
    {ms : Option ℕ}
    → IsValid c
    → HasRoom c key now
    → set c key value ttl now later ≡ ok c'
    → checked_ttl ttl ≡ ok ms
    → (j : Text) (time : ℕ) → now ≤ time
    → (get c' j time).1 ≡ (
        if same key j
        then (if expired_at (expiry ms later) time then none else some value)
        else (get c j time).1)
get-set c key value ttl now later {c'} {ms} valid room done given j time h =
    let (ms', given', small, shape) = set_ok c key value ttl now later done in
    let same_ms : ms' ≡ ms = cc in
    let entry : Entry = record { value = value; expires_at = expiry ms' later } in
    rw
      (get-written c c' key entry now valid
        (ap (λ (x : Cache). x.entries) shape
          ∙ ap (λ m. Map.put key entry (Map.remove key m)) (make_room_of_HasRoom c key now room))
        j time h)
      (rw same_ms)

-- With a place to spare beside it, the entry at the end is not evicted.
evict_keeps_last :
    (most : ℕ) (k : Text) (m : List (Text × Entry)) (x : Text × Entry)
    → 2 ≤ most
    → Map.has k m ≡ false
    → (m' : List (Text × Entry)) × (evict_for_insert most (m ++ x ∷ []) ≡ m' ++ x ∷ [])
      × (Map.has k m' ≡ false)
unfolding evict_for_insert Map.has
evict_keeps_last most k [] x h e = ([], ground arith, refl)
evict_keeps_last most k ((j, w) ∷ m) x h e =
    elim (Bool-cases (leb most (length ((j, w) ∷ m ++ x ∷ [])))) [
      | inl full ↦
          let (m', kept, absent) = evict_keeps_last most k m x h (ground arith) in
          (m', rw full kept, absent)
      | inr free ↦ ((j, w) ∷ m, rw free, e)
    ]

-- A read that returns a value puts its entry last.
get_moves_to_end :
    (c : Cache) (k : Text) (now : ℕ) {v : Text}
    → (get c k now).1 ≡ some v
    → (entry : Entry) × ((get c k now).0.entries ≡ Map.remove k c.entries ++ (k, entry) ∷ [])
unfolding get
get_moves_to_end c k now h = go (Map.get k c.entries) h
  where
    go :
        (found : Option Entry) {v : Text}
        → (read c k now found).1 ≡ some v
        → (entry : Entry) × ((read c k now found).0.entries
            ≡ Map.remove k c.entries ++ (k, entry) ∷ [])
    go none e = absurd (ground arith)
    go (some entry) e = (entry, ground (arith, Map.put-remove k entry c.entries))

abbrev room_in : ℕ → Text → List (Text × Entry) → List (Text × Entry)
room_in most j kept = if Map.has j kept then kept else evict_for_insert most kept

get-room_in_last :
    (most : ℕ) (j k : Text) (e : Entry) (m : List (Text × Entry))
    → 2 ≤ most
    → Map.has k m ≡ false
    → Map.get k (room_in most j (m ++ (k, e) ∷ [])) ≡ some e
get-room_in_last most j k e m h absent = elim (Bool-cases (Map.has j (m ++ (k, e) ∷ []))) [
  | inl old ↦ rw old (Map.get-append_last k e m absent)
  | inr new ↦
      let (m', kept, gone) = evict_keeps_last most k m (k, e) h absent in
      rw (new, kept) (Map.get-append_last k e m' gone)
]

get-room_in_absent :
    (most : ℕ) (j k : Text) (m : List (Text × Entry))
    → Map.has k m ≡ false
    → Map.get k (room_in most j m) ≡ none
get-room_in_absent most j k m absent = elim (Bool-cases (Map.has j m)) [
  | inl old ↦ rw old (Map.get-none_of_not_has k m absent)
  | inr new ↦ rw new (Map.get-none_of_not_has k _ (has-evict most k m absent))
]

-- What a `set` that evicts keeps of an entry that stands last.
make_room_keeps_last :
    (c : Cache) (j k : Text) (now : ℕ) (e : Entry) (m : List (Text × Entry))
    → 2 ≤ c.max_entries
    → Map.has k m ≡ false
    → c.entries ≡ m ++ (k, e) ∷ []
    → Map.get k (make_room c j now) ≡ (if expired_at e.expires_at now then none else some e)
unfolding make_room remove_expired keep_if
make_room_keeps_last c j k now e m h absent shape =
    let m1 = keep_if (fresh now) m in
    let gone : Map.has k m1 ≡ false = Map.has-keep_if (fresh now) k m absent in
    rw (shape, keep_if-append (fresh now) m ((k, e) ∷ []))
      (elim (Bool-cases (expired_at e.expires_at now)) [
        | inl old ↦ rw (old, append-nil m1) (get-room_in_absent c.max_entries j k m1 gone)
        | inr new ↦ rw new (get-room_in_last c.max_entries j k e m1 h gone)
      ])

get-survives :
    (c c' : Cache) (j k : Text) (e entry : Entry) (m : List (Text × Entry)) (now : ℕ)
    → 2 ≤ c.max_entries
    → Map.has k m ≡ false
    → c.entries ≡ m ++ (k, e) ∷ []
    → c'.entries ≡ Map.put j entry (Map.remove j (make_room c j now))
    → j ≢ k
    → (time : ℕ) → now ≤ time
    → (get c' k time).1 ≡ (get c k time).1
get-survives c c' j k e entry m now two absent shape written ne time h =
    let room = make_room c j now in
    let found : Map.get k c'.entries ≡ Map.get k room = rw written (
      ground (
        arith,
        Map.get-put j k entry (Map.remove j room),
        Map.get-remove j k room,
        same_iff j k,
      )) in
    let before : Map.get k c.entries ≡ some e = rw shape (Map.get-append_last k e m absent) in
    ground (
      arith,
      get-value_at c' k time,
      get-value_at c k time,
      found,
      before,
      make_room_keeps_last c j k now e m two absent shape,
      value_at_later e now time h,
    )

max_entries-get : (c : Cache) (k : Text) (now : ℕ) → (get c k now).0.max_entries ≡ c.max_entries
unfolding get read
max_entries-get c k now = ground arith

-- The entry read last survives the next `set` of another key, evicting or not, if the store holds
-- at least two: from then on it reads as it would have without the `set`.
pub get-survives-set :
    (c : Cache) (k j value : Text) (ttl : Option Number) (at now later : ℕ) {v : Text} {c' : Cache}
    → IsValid c
    → 2 ≤ c.max_entries
    → (get c k at).1 ≡ some v
    → set (get c k at).0 j value ttl now later ≡ ok c'
    → j ≢ k
    → (time : ℕ) → now ≤ time
    → (get c' k time).1 ≡ (get (get c k at).0 k time).1
get-survives-set c k j value ttl at now later {v} {c'} valid two found done ne time h =
    let c1 = (get c k at).0 in
    let (e, shape) = get_moves_to_end c k at found in
    let (ms, given, small, written) = set_ok c1 j value ttl now later done in
    let absent : Map.has k (Map.remove k c.entries) ≡ false =
      ground (arith, Map.has-remove k k c.entries, same_refl k) in
    get-survives c1 c' j k e _ (Map.remove k c.entries) now (rw (max_entries-get c k at) two) absent
      shape (ap (λ (x : Cache). x.entries) written) ne time h
