-- ===== src/Cache.antt =====
-- packages/runtime/src/memory-cache.ts: MemoryCacheStore. A call of `this.now()` is an argument,
-- one for each reading; times are exact. A method that throws leaves the store as it was.
pub mod Bounds
pub mod Reads
pub mod Windows
mod Tests
use podokit.Base.{
  ℕ, zero, suc, ◌+◌, ◌-◌, ◌*◌, ◌/◌, ◌%◌, ◌^◌, ◌≤◌, ◌<◌, min, max, ◌≡◌, refl, sym, ap, ◌∙◌, ◌≡⟨◌⟩◌,
  ◌∎, ◌≢◌, ◌↔◌, ◌⊎◌, inl, inr, Bool, true, false, not, ◌&&◌, ◌||◌, Option, none, some, List, [],
  ◌∷◌, ◌++◌, map, append-nil, append_assoc, arith, ltb, leb, ◌==◌, if◌then◌else◌, ltb→lt, lt→ltb,
  leb→le, le→leb, ==_iff, tests, Bool-cases, Option-cases, codes, length, get_elem?, take, drop,
  keep_if, any, all, length-append, take-append-drop, length-drop, length-take, All, All-append,
  Result, ok, err, ◌>>=◌, ◌>>◌, reject_if, Eq, list_beq, list_beq_iff, Text, same, same_iff,
  same_refl, text_eq,
}
use podokit.Map
use podokit.Numbers.{Number, whole_from}

pub record Entry : Type 0 where
  pub value : Text
  pub expires_at : Option ℕ

pub record Counter : Type 0 where
  pub count : ℕ
  pub reset_at : ℕ

pub record Cache : Type 0 where
  pub entries : List (Text × Entry)
  pub counters : List (Text × Counter)
  pub max_entries : ℕ
  pub max_value_bytes : ℕ

pub data Error : Type 0 where
  bad_max_entries bad_max_value_bytes value_too_large bad_ttl bad_window bad_limit : Error

-- `positiveInteger`
pub positive_integer : Number → Error → Result Error ℕ
positive_integer value name = elim (whole_from 1 value) [ none ↦ err name | some n ↦ ok n ]

abbrev pub or_default : Option Number → ℕ → Number
or_default none n = Number.whole n
or_default (some v) n = v

pub create : Option Number → Option Number → Result Error Cache
unfolding positive_integer
create max_entries max_value_bytes = do
  entries ← positive_integer (or_default max_entries 10000) bad_max_entries
  bytes ← positive_integer (or_default max_value_bytes 1048576) bad_max_value_bytes
  ok (record { entries = []; counters = []; max_entries = entries; max_value_bytes = bytes })

-- `Buffer.byteLength(value, "utf8")` over UTF-16 code units: a surrogate pair takes four bytes, a
-- surrogate on its own is replaced by a character of three.
abbrev is_high : ℕ → Bool
is_high c = leb 0xd800 c && ltb c 0xdc00

abbrev is_low : ℕ → Bool
is_low c = leb 0xdc00 c && ltb c 0xe000

unit_bytes : ℕ → ℕ
unit_bytes c = if ltb c 0x80 then 1 else if ltb c 0x800 then 2 else 3

-- `pending` says that the unit before is a high surrogate, counted as three bytes.
bytes_from : Bool → Text → ℕ
unfolding unit_bytes
bytes_from pending [] = 0
bytes_from pending (c ∷ cs) =
    (if pending && is_low c then 1 else unit_bytes c) + bytes_from (is_high c) cs

pub byte_length : Text → ℕ
unfolding bytes_from
byte_length value = bytes_from false value

-- `entry.expiresAt !== undefined && entry.expiresAt <= now`
abbrev pub expired_at : Option ℕ → ℕ → Bool
expired_at none now = false
expired_at (some t) now = leb t now

abbrev pub fresh : ℕ → Text × Entry → Bool
fresh now (k, entry) = not (expired_at entry.expires_at now)

pub remove_expired : ℕ → List (Text × Entry) → List (Text × Entry)
remove_expired now m = keep_if (fresh now) m

-- The keys of a `Map` differ, so deleting the first one leaves the rest.
pub evict_for_insert : ℕ → List (Text × Entry) → List (Text × Entry)
evict_for_insert most [] = []
evict_for_insert most (oldest ∷ m) =
    let rest = evict_for_insert most m in
    if leb most (length (oldest ∷ m)) then rest else oldest ∷ m

pub size : Cache → ℕ → Cache × ℕ
unfolding remove_expired
size c now = let kept = remove_expired now c.entries in (record c { entries = kept }, length kept)

read : Cache → Text → ℕ → Option Entry → Cache × Option Text
read c key now none = (c, none)
read c key now (some entry) =
    if expired_at entry.expires_at now
    then (record c { entries = Map.remove key c.entries }, none)
    else (record c { entries = Map.put key entry (Map.remove key c.entries) }, some entry.value)

pub get : Cache → Text → ℕ → Cache × Option Text
unfolding read
get c key now = read c key now (Map.get key c.entries)

-- `ttlMs`, checked when it is given.
pub checked_ttl : Option Number → Result Error (Option ℕ)
unfolding positive_integer
checked_ttl none = ok none
checked_ttl (some ttl) = do ms ← positive_integer ttl bad_ttl; ok (some ms)

abbrev pub expiry : Option ℕ → ℕ → Option ℕ
expiry none now = none
expiry (some ms) now = some (now + ms)

-- The room that `set` makes: what is still fresh, less the oldest entries if `key` is new.
pub make_room : Cache → Text → ℕ → List (Text × Entry)
unfolding remove_expired
make_room c key now =
    let kept = remove_expired now c.entries in
    if Map.has key kept then kept else evict_for_insert c.max_entries kept

-- `now` is read by `removeExpired`, `later` by the expiry.
pub set : Cache → Text → Text → Option Number → ℕ → ℕ → Result Error Cache
unfolding checked_ttl make_room
set c key value ttl now later = do
  reject_if (ltb c.max_value_bytes (byte_length value)) value_too_large
  ms ← checked_ttl ttl
  let entry : Entry = record { value = value; expires_at = expiry ms later }
  ok (record c { entries = Map.put key entry (Map.remove key (make_room c key now)) })

pub delete : Cache → Text → Cache × Bool
delete c key = (record c { entries = Map.remove key c.entries }, Map.has key c.entries)

pub record Window : Type 0 where
  pub allowed : Bool
  pub count : ℕ
  pub remaining : ℕ
  pub reset_at : ℕ

-- The counter that the call adds one to.
unfoldable pub current_counter : Option Counter → ℕ → ℕ → Counter
current_counter none now window = record { count = 0; reset_at = now + window }
current_counter (some counter) now window =
    if leb counter.reset_at now then record { count = 0; reset_at = now + window } else counter

abbrev pub running : ℕ → Text × Counter → Bool
running now (k, counter) = ltb now counter.reset_at

unfoldable pub increment_fixed_window :
    Cache → Text → Number → Number → ℕ → Result Error (Cache × Window)
unfolding positive_integer current_counter
increment_fixed_window c key window_ms most now = do
  window ← positive_integer window_ms bad_window
  limit ← positive_integer most bad_limit
  let entry = current_counter (Map.get key c.counters) now window
  let counted : Counter = record entry { count = entry.count + 1 }
  let counters = keep_if (running now) (Map.put key counted c.counters)
  ok (
    record c { counters = counters },
    record {
      allowed = leb counted.count limit;
      count = counted.count;
      remaining = limit - counted.count;
      reset_at = counted.reset_at;
    },
  )

pub close : Cache → Cache
close c = record c { entries = []; counters = [] }
