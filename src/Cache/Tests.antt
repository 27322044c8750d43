-- ===== src/Cache/Tests.antt =====
-- MemoryCacheStore on concrete inputs.
use podokit.Base.{
  ℕ, ◌≡◌, refl, inl, Option, none, some, [], ◌∷◌, arith, codes, keep_if, err, Text, same, text_eq,
}
use podokit.Map
use podokit.Numbers.{whole, whole_from}
use podokit.Cache.{
  Cache, Entry, bad_ttl, value_too_large, create, byte_length, set, get, delete, size,
  increment_fixed_window, evict_for_insert, checked_ttl, make_room, read, remove_expired,
}
use podokit.Cache.Bounds.{gets, sets, step, run, IsValid, run-IsValid}
use podokit.Cache.Reads.{get-set, get-survives-set}
use podokit.Cache.Windows.{admitted, admitted-eq-min}

cache : Unit {0}
unfolding set get delete size create checked_ttl make_room read remove_expired Map.get Map.has
    Map.put Map.remove keep_if evict_for_insert byte_length whole_from increment_fixed_window same
    run step
cache = tt

abbrev entry : Text → Option ℕ → Entry
entry value expires_at = record { value = value; expires_at = expires_at }

-- A store of two entries, "a" without an expiry and "b" until 100.
abbrev two : Cache
two = record {
  entries = (codes "a", entry (codes "1") none) ∷ (codes "b", entry (codes "2") (some 100)) ∷ [];
  counters = [];
  max_entries = 2;
  max_value_bytes = 4;
}

two-IsValid : IsValid two
unfolding byte_length cache
two-IsValid = record {
  room = omega arith;
  bounded = omega arith;
  keyed = (refl, (refl, tt));
  counted = tt;
  fitting = omega arith;
}

-- The entry read last stays, and the other one is evicted.
eviction :
    Map.get
      (codes "a")
      (run two (gets (codes "a") 5 ∷ sets (codes "c") (codes "3") none 6 6 ∷ [])).entries
    ≡ some (entry (codes "1") none)
unfolding cache
eviction = refl

too_large : set two (codes "c") (codes "12345") none 6 6 ≡ err value_too_large
unfolding cache
too_large = refl

no_ttl : set two (codes "c") (codes "1") (some (whole 0)) 6 6 ≡ err bad_ttl
unfolding cache
no_ttl = refl

-- "€" takes three bytes, a surrogate pair four.
bytes : byte_length (0x20ac ∷ 0xd83d ∷ 0xde00 ∷ b'a' ∷ []) ≡ 8
unfolding byte_length
bytes = refl

run-IsValid_example :
    IsValid (run two (gets (codes "a") 5 ∷ sets (codes "c") (codes "3") none 6 6 ∷ []))
run-IsValid_example =
    run-IsValid two (gets (codes "a") 5 ∷ sets (codes "c") (codes "3") none 6 6 ∷ []) two-IsValid

get-set_example :
    (get
      (record two {
        entries =
            (codes "b", entry (codes "2") (some 100))
            ∷ (codes "a", entry (codes "9") (some 16))
            ∷ [];
      })
      (codes "a")
      12).1
    ≡ some (codes "9")
unfolding cache
get-set_example =
    get-set two (codes "a") (codes "9") (some (whole 10)) 6 6 two-IsValid (inl refl) refl refl
      (codes "a") 12 (omega arith)

get-survives-set_example :
    (get
      (run two (gets (codes "a") 5 ∷ sets (codes "c") (codes "3") none 6 6 ∷ []))
      (codes "a")
      12).1
    ≡ (get (get two (codes "a") 5).0 (codes "a") 12).1
unfolding cache
get-survives-set_example =
    get-survives-set two (codes "a") (codes "c") (codes "3") none 5 6 6 two-IsValid (omega arith)
      refl refl (ground arith) 12 (omega arith)

-- Three requests in a window of 60 with a limit of two.
admitted-eq-min_example : admitted two (codes "ip") (whole 60) (whole 2) (5 ∷ 6 ∷ 64 ∷ []) ≡ 2
unfolding cache
admitted-eq-min_example =
    admitted-eq-min (codes "ip") (whole 60) (whole 2) refl refl two 5 (6 ∷ 64 ∷ []) tt (inl refl)
      (omega arith)
