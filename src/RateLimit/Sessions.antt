-- ===== src/RateLimit/Sessions.antt =====
-- rate-limit.identity.ts: SessionUsers. `digest` stands for `stableDigest("session", token)`, a hash
-- of node:crypto; the clock readings are arguments.
pub mod Lookup
use podokit.Base.{
  ℕ, zero, suc, ◌+◌, ◌-◌, ◌*◌, ◌/◌, ◌%◌, ◌^◌, ◌≤◌, ◌<◌, min, max, ◌≡◌, refl, sym, ap, ◌∙◌, ◌≡⟨◌⟩◌,
  ◌∎, ◌≢◌, ◌↔◌, ◌⊎◌, inl, inr, Bool, true, false, not, ◌&&◌, ◌||◌, Option, none, some, List, [],
  ◌∷◌, ◌++◌, map, append-nil, append_assoc, arith, ltb, leb, ◌==◌, if◌then◌else◌, ltb→lt, lt→ltb,
  leb→le, le→leb, ==_iff, tests, Bool-cases, Option-cases, codes, length, get_elem?, take, drop,
  keep_if, any, all, length-append, take-append-drop, length-drop, length-take, All, All-append,
  All-map, All-keep_if, Result, ok, err, Result-cases, Ensures, Ensures-bind, Ensures-after,
  Ensures-ok, Ensures-of, All-get_elem?, ◌>>=◌, ◌>>◌, reject_if, Eq, list_beq, list_beq_iff, Text,
  same, same_iff, same_refl, nat_eq, text_eq,
}
use podokit.Map

pub record User : Type 0 where
  pub user_id : Text
  pub expires_at : ℕ

pub record SessionUsers : Type 0 where
  pub users : List (Text × User)
  pub max_entries : ℕ

-- `keys().next()` and its deletion: the keys of a `Map` differ.
abbrev without_oldest : List (Text × User) → List (Text × User)
without_oldest [] = []
without_oldest (oldest ∷ users) = users

trim : ℕ → List (Text × User) → List (Text × User)
trim most users = if ltb most (length users) then without_oldest users else users

unfoldable pub remember : (Text → Text) → SessionUsers → Text → Text → ℕ → ℕ → SessionUsers
unfolding trim
remember digest s token user_id expires_at now =
    let key = digest token in
    let users = Map.remove key s.users in
    if not (ltb now expires_at) then record s { users = users } else record s {
      users =
          trim s.max_entries
            (Map.put key (record { user_id = user_id; expires_at = expires_at }) users);
    }

found_user : SessionUsers → Text → ℕ → Option User → SessionUsers × Option Text
found_user s key now none = (s, none)
found_user s key now (some entry) =
    if leb entry.expires_at now
    then (record s { users = Map.remove key s.users }, none)
    else (s, some entry.user_id)

unfoldable pub user_of : (Text → Text) → SessionUsers → Text → ℕ → SessionUsers × Option Text
unfolding found_user
user_of digest s token now = found_user s (digest token) now (Map.get (digest token) s.users)
