-- ===== src/RateLimit/Limiter.antt =====
-- rate-limit.module.ts: CacheRateLimitStorage and RateLimiter over the in-memory cache. The path of
-- the URL, the tracker of the caller and whether the storage answers in time are arguments.
pub mod Budget
use podokit.Base.{
  ℕ, zero, suc, ◌+◌, ◌-◌, ◌*◌, ◌/◌, ◌%◌, ◌^◌, ◌≤◌, ◌<◌, min, max, ◌≡◌, refl, sym, ap, ◌∙◌, ◌≡⟨◌⟩◌,
  ◌∎, ◌≢◌, ◌↔◌, ◌⊎◌, inl, inr, Bool, true, false, not, ◌&&◌, ◌||◌, Option, none, some, List, [],
  ◌∷◌, ◌++◌, map, append-nil, append_assoc, arith, ltb, leb, ◌==◌, if◌then◌else◌, ltb→lt, lt→ltb,
  leb→le, le→leb, ==_iff, tests, Bool-cases, Option-cases, codes, length, get_elem?, take, drop,
  keep_if, any, all, length-append, take-append-drop, length-drop, length-take, All, All-append,
  All-map, All-keep_if, Result, ok, err, Result-cases, Ensures, Ensures-bind, Ensures-after,
  Ensures-ok, Ensures-of, All-get_elem?, ◌>>=◌, ◌>>◌, reject_if, Eq, list_beq, list_beq_iff, Text,
  same, same_iff, same_refl, nat_eq, text_eq,
}
use podokit.Numbers.{Number, max_safe_integer}
use podokit.Cache.{Cache, increment_fixed_window, Error as CacheError, Window}
use podokit.RateLimit.Routes.{Routes, Profile, Config, general_profile, resolve}

pub record Increment : Type 0 where
  pub count : ℕ
  pub retry_after_seconds : ℕ

-- `Math.max(1, Math.ceil(ms / 1_000))`, where a negative `ms` counts as 0.
abbrev seconds_up : ℕ → ℕ
seconds_up ms = max 1 ((ms + 999) / 1000)

abbrev counted : Cache → ℕ → Result CacheError (Cache × Window) → Cache × Option Increment
counted cache later (err e) = (cache, none)
counted cache later (ok (cache', w)) = (
  cache',
  some (record { count = w.count; retry_after_seconds = seconds_up (w.reset_at - later) }),
)

-- `none` where the cache throws.
unfoldable pub increment : Cache → Text → ℕ → ℕ → ℕ → Cache × Option Increment
increment cache key ttl_seconds now later = counted cache later (
    increment_fixed_window cache key (Number.whole (ttl_seconds * 1000))
      (Number.whole max_safe_integer) now)

pub data Header : Type 0 where
  limit remaining retry_after : ℕ → Header

pub data Verdict : Type 0 where
  passed exceeded unavailable : Verdict

-- The headers set, in order, and how the guard ends: it returns, or throws with 429 or 503.
pub record Outcome : Type 0 where
  pub headers : List Header
  pub verdict : Verdict

unavailable_after : Config → Outcome
unavailable_after config = record {
  headers = retry_after config.unavailable_retry_after_seconds ∷ [];
  verdict = unavailable;
}

judge : Config → ℕ → Option Increment → Outcome
unfolding unavailable_after
judge config most none = unavailable_after config
judge config most (some result) =
    let shown = limit most ∷ remaining (most - result.count) ∷ [] in
    if ltb most result.count
    then record {
      headers = shown ++ retry_after result.retry_after_seconds ∷ [];
      verdict = exceeded;
    }
    else record { headers = shown; verdict = passed }

-- The storage answers in time, or `withTimeout` rejects while the count is made all the same.
abbrev in_time : Bool → Option Increment → Option Increment
in_time true result = result
in_time false result = none

unfoldable pub enforce_custom :
    Config → Cache → Text → Text → ℕ → ℕ → Bool → ℕ → ℕ → Cache × Outcome
unfolding judge increment
enforce_custom config cache name tracker ttl_seconds most timely now later =
    let (cache', result) =
      increment cache (config.key_prefix ++ (codes ":" ++ (name ++ (codes ":" ++ tracker))))
        ttl_seconds now later in
    (cache', judge config most (in_time timely result))

-- The paths that GET requests reach without a count.
is_uncounted : Text → Text → Bool
is_uncounted method path =
    same method (codes "GET")
    && (same path (codes "/health")
        || same path (codes "/health/ready")
        || same path (codes "/api-docs")
        || same path (codes "/api-docs-json")
        || same path (codes "/api-docs-elysia-json"))

abbrev or_general : Config → Option Profile → Profile
or_general config none = Profile.budget (general_profile config)
or_general config (some profile) = profile

abbrev let_through : Outcome
let_through = record { headers = []; verdict = passed }

enforce_profile : Config → Cache → Option Text → Bool → ℕ → ℕ → Profile → Cache × Outcome
unfolding enforce_custom unavailable_after
enforce_profile config cache tracker timely now later Profile.exempt = (cache, let_through)
enforce_profile config cache none timely now later (Profile.budget b) =
    (cache, unavailable_after config)
enforce_profile config cache (some t) timely now later (Profile.budget b) =
    enforce_custom config cache b.name t b.ttl_seconds b.limit timely now later

-- `tracker` is `none` where the identity rejects.
unfoldable pub enforce :
    Config → Routes → Cache → Text → Text → Option Text → Bool → ℕ → ℕ → Cache × Outcome
unfolding is_uncounted enforce_profile
enforce config routes cache method path tracker timely now later =
    if is_uncounted method path
    then (cache, let_through)
    else enforce_profile config cache tracker timely now later
        (or_general config (resolve routes method path))
