-- ===== src/RateLimit/Sessions/Lookup.antt =====
-- What SessionUsers knows of a session, and how many it holds.
use podokit.Base.{
  ℕ, ◌+◌, ◌≤◌, ◌≡◌, refl, inl, inr, false, ◌&&◌, none, some, List, [], ◌∷◌, ◌++◌, arith, ltb,
  if◌then◌else◌, Bool-cases, length, length-append, Text, same_refl, nat_eq, text_eq,
}
use podokit.Map
use podokit.Map.{IsMap}
use podokit.RateLimit.Sessions.{User, SessionUsers, remember, user_of, trim}

pub record IsBounded (s : SessionUsers) : Type 0 where
  pub keyed : IsMap s.users
  pub few : length s.users ≤ s.max_entries

trim-IsMap : (most : ℕ) (users : List (Text × User)) → IsMap users → IsMap (trim most users)
unfolding trim
trim-IsMap most [] h = ground arith
trim-IsMap most ((k, u) ∷ users) h = ground arith

length-trim :
    (most : ℕ) (users : List (Text × User))
    → length users ≤ most + 1
    → length (trim most users) ≤ most
unfolding trim
length-trim most [] h = ground arith
length-trim most (u ∷ users) h = ground arith

length-renew :
    (key : Text) (user : User) (users : List (Text × User))
    → length (Map.put key user (Map.remove key users)) ≤ length users + 1
length-renew key user users = rw (Map.put-remove key user users) (
    omega (
      arith,
      length-append (Map.remove key users) ((key, user) ∷ []),
      Map.length-remove_le key users,
    ))

-- However sessions are remembered, at most `maxEntries` are held, each once.
pub remember-IsBounded :
    (digest : Text → Text) (s : SessionUsers) (token user_id : Text) (expires_at now : ℕ)
    → IsBounded s
    → IsBounded (remember digest s token user_id expires_at now)
unfolding remember
remember-IsBounded digest s token user_id expires_at now h =
    let key = digest token in
    let entry : User = record { user_id = user_id; expires_at = expires_at } in
    elim (Bool-cases (ltb now expires_at)) [
      | inl e ↦ rw e (record {
        keyed =
            trim-IsMap s.max_entries _
              (Map.put-IsMap key entry _ (Map.remove-IsMap key s.users h.keyed));
        few = length-trim s.max_entries _ (omega (arith, length-renew key entry s.users, h.few));
      })
      | inr e ↦ rw e (record {
        keyed = Map.remove-IsMap key s.users h.keyed;
        few = omega (arith, Map.length-remove_le key s.users, h.few);
      })
    ]

-- The entry written last is not the one that is trimmed.
get-trim :
    (most : ℕ) (key : Text) (user : User) (users : List (Text × User))
    → 1 ≤ most
    → Map.has key users ≡ false
    → Map.get key (trim most (users ++ (key, user) ∷ [])) ≡ some user
unfolding trim Map.has
get-trim most key user [] h absent = ground (arith, Map.get-append_last key user [] refl)
get-trim most key user ((k, u) ∷ users) h absent = ground (
  arith,
  Map.get-append_last key user users,
  Map.get-append_last key user ((k, u) ∷ users) absent,
)

-- Right after a session is remembered, with no other one remembered since, it is found for its user at
-- every time before it expires and at none after, if at least one session can be held.
pub user_of-remember :
    (digest : Text → Text) (s : SessionUsers) (token user_id : Text) (expires_at now time : ℕ)
    → 1 ≤ s.max_entries
    → (user_of digest (remember digest s token user_id expires_at now) token time).1
      ≡ (if ltb now expires_at && ltb time expires_at then some user_id else none)
unfolding user_of remember
user_of-remember digest s token user_id expires_at now time h =
    let key = digest token in
    let entry : User = record { user_id = user_id; expires_at = expires_at } in
    let gone : Map.has key (Map.remove key s.users) ≡ false =
      ground (arith, Map.has-remove key key s.users, same_refl key) in
    elim (Bool-cases (ltb now expires_at)) [
      | inl e ↦
          let found : Map.get key (trim s.max_entries (Map.put key entry (Map.remove key s.users)))
              ≡ some entry =
            rw (Map.put-remove key entry s.users)
              (get-trim s.max_entries key entry (Map.remove key s.users) h gone) in
          rw (e, found) (ground arith)
      | inr e ↦ rw (e, Map.get-none_of_not_has key (Map.remove key s.users) gone) refl
    ]
