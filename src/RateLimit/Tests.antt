-- ===== src/RateLimit/Tests.antt =====
-- The rate limiter on concrete routes, callers and sessions.
use Prim.Native.String.{String}
use podokit.Base.{
  inl, arith, ℕ, ◌≡◌, refl, Option, none, some, List, [], ◌∷◌, codes, keep_if, Result, ok, err,
  Text, same, nat_eq, text_eq,
}
use podokit.Map
use podokit.Cache.{Cache}
use podokit.RateLimit.Limiter.Budget.{passes, passes-eq-min}
use podokit.RateLimit.Sessions.{SessionUsers, remember, user_of}
use podokit.RateLimit.Sessions.Lookup.{IsBounded, remember-IsBounded, user_of-remember}
use podokit.Numbers.{whole, whole_from}
use podokit.Texts.{split, starts_with, includes, ends_with, drop_last}
use podokit.RateLimit.Routes.{
  Budget, Error, not_absolute, Profile, ProfileRequest, Route, Routes, Config, register, resolve,
  default_routes, create, matches, covers, parse_prefix, add_budget, wins, compare_specificity,
  compare_literals,
}
use podokit.RateLimit.Routes.Best.{Found, resolve-Found}
use podokit.RateLimit.Routes.Budgets.{register_all_shared, register_all}

rate_limit : Unit {0}
unfolding register resolve default_routes create matches covers parse_prefix add_budget wins
    compare_specificity compare_literals split starts_with includes ends_with drop_last whole_from
    same Map.get Map.put Map.remove Map.has keep_if
rate_limit = tt

abbrev identity : Text → Text
identity text = text

abbrev config : Config
config = record {
  key_prefix = codes "rl";
  ttl_seconds = 60;
  limit = 300;
  auth_ttl_seconds = 60;
  auth_limit = 20;
  runtime_limit = 1000;
  unavailable_retry_after_seconds = 1;
}

abbrev budget_of : Result Error Routes → String → String → Option ℕ
budget_of (err e) method path = none
budget_of (ok routes) method path = elim (resolve routes (codes method) (codes path)) [
  | none ↦ none
  | some Profile.exempt ↦ none
  | some (Profile.budget b) ↦ some b.limit
]

-- Signing in has the strict budget, the session the higher one, and other pages the general one.
sign_in : budget_of (default_routes identity config) "POST" "/api/auth/sign-in" ≡ some 20
unfolding rate_limit
sign_in = refl

get_session : budget_of (default_routes identity config) "GET" "/api/auth/get-session" ≡ some 1000
unfolding rate_limit
get_session = refl

admin_read : budget_of (default_routes identity config) "GET" "/api/auth/admin/users" ≡ some 300
unfolding rate_limit
admin_read = refl

page : budget_of (default_routes identity config) "GET" "/uploads" ≡ some 300
unfolding rate_limit
page = refl

relative : parse_prefix (codes "uploads") ≡ err not_absolute
unfolding rate_limit
relative = refl

abbrev upload : String → ℕ → Route
upload path most = record {
  method = none;
  path_prefix = codes path;
  profile =
      ProfileRequest.budget
        (record { name = codes "uploads"; limit = whole most; ttl_seconds = none });
}

abbrev uploads : List Route
uploads = upload "/uploads" 5 ∷ upload "/files/:id/" 6 ∷ upload "/files/:id/" 5 ∷ []

abbrev registered : Routes
registered = register_all identity (create 60) uploads

resolve-Found_example :
    Found
      (codes "GET")
      (codes "files" ∷ codes "7" ∷ [])
      registered.entries
      (resolve registered (codes "GET") (codes "/files/7"))
unfolding split same
resolve-Found_example = resolve-Found registered (codes "GET") (codes "/files/7")

abbrev shared : Budget
shared = record { name = codes "uploads"; limit = 5; ttl_seconds = 60 }

-- The second route conflicts and is refused; the first and the third share a budget.
register_all_shared_example : ◌≡◌ {A = Budget} shared shared
unfolding rate_limit register_all
register_all_shared_example = register_all_shared identity 60 uploads 0 1 refl refl refl refl refl

abbrev empty_cache : Cache
empty_cache = record { entries = []; counters = []; max_entries = 10; max_value_bytes = 100 }

-- Three requests within a minute on a budget of two.
passes-eq-min_example :
    passes config empty_cache
      (codes "uploads")
      (codes "ip:1")
      60
      2
      ((5, 5) ∷ (6, 6) ∷ (60000, 60000) ∷ [])
    ≡ 2
unfolding rate_limit
passes-eq-min_example =
    passes-eq-min config (codes "uploads") (codes "ip:1") 60 2 (omega arith) (omega arith)
      empty_cache 5 5 ((6, 6) ∷ (60000, 60000) ∷ []) tt (inl refl) (omega arith)

abbrev sessions : SessionUsers
sessions = record { users = []; max_entries = 1 }

remember-IsBounded_example : IsBounded (remember identity sessions (codes "t") (codes "ann") 100 5)
remember-IsBounded_example =
    remember-IsBounded identity sessions (codes "t") (codes "ann") 100 5
      (record { keyed = tt; few = omega arith })

user_of-remember_example :
    (user_of identity (remember identity sessions (codes "t") (codes "ann") 100 5) (codes "t") 99).1
    ≡ some (codes "ann")
user_of-remember_example =
    user_of-remember identity sessions (codes "t") (codes "ann") 100 5 99 (omega arith)
