-- ===== src/RateLimit/Limiter/Budget.antt =====
-- How many requests of one caller the limiter lets through in one window.
use podokit.Base.{
  ℕ, suc, ◌+◌, ◌*◌, ◌≤◌, ◌<◌, min, ◌≡◌, refl, Bool, true, false, some, List, [], ◌∷◌, ◌++◌, arith,
  leb, if◌then◌else◌, codes, length, All, Text, nat_eq, text_eq,
}
use podokit.Map
use podokit.Map.{IsMap}
use podokit.Numbers.{Number, whole_from, max_safe_integer}
use podokit.Cache.{current_counter, Cache}
use podokit.Cache.Windows.{
  Idle, Idle-counter, counter_of, bump, get-bump, bump-IsMap, increment_lem,
}
use podokit.RateLimit.Routes.{Config}
use podokit.RateLimit.Limiter.{Verdict, passed, enforce_custom}

abbrev is_passed : Verdict → Bool
is_passed passed = true
is_passed _ = false

-- How many of the requests are let through, each with the times at which the storage counts it
-- and then reads the clock; all are answered in time.
unfoldable pub passes : Config → Cache → Text → Text → ℕ → ℕ → List (ℕ × ℕ) → ℕ
passes config cache name tracker ttl most [] = 0
passes config cache name tracker ttl most ((now, later) ∷ times) =
    let (cache', outcome) = enforce_custom config cache name tracker ttl most true now later in
    (if is_passed outcome.verdict then 1 else 0) + passes config cache' name tracker ttl most times

-- The key that a caller of a budget is counted under.
abbrev pub key_of : Config → Text → Text → Text
key_of config name tracker = config.key_prefix ++ (codes ":" ++ (name ++ (codes ":" ++ tracker)))

module _ (config : Config) (name tracker : Text) (ttl most : ℕ) (set : 1 ≤ ttl)
    (safe : ttl * 1000 ≤ max_safe_integer) where
  abbrev key : Text
  key = key_of config name tracker

  has_window : whole_from 1 (Number.whole (ttl * 1000)) ≡ some (ttl * 1000)
  unfolding whole_from
  has_window = ground arith

  has_limit : whole_from 1 (Number.whole max_safe_integer) ≡ some max_safe_integer
  unfolding whole_from
  has_limit = refl

  passes_step :
      (cache : Cache) (now later : ℕ) (times : List (ℕ × ℕ))
      → passes config cache name tracker ttl most ((now, later) ∷ times)
        ≡ (if leb ((counter_of cache key now (ttl * 1000)).count + 1) most then 1 else 0)
          + passes config (bump cache key now (ttl * 1000)) name tracker ttl most times
  unfolding passes enforce_custom
  passes_step cache now later times =
      rw (increment_lem (key_of config name tracker) _ _ has_window has_limit cache now)
        (ground arith)

  passes_running :
      (cache : Cache) (times : List (ℕ × ℕ)) (n reset : ℕ)
      → IsMap cache.counters
      → Map.get key cache.counters ≡ some (record { count = n; reset_at = reset })
      → All (λ t. t.0 < reset) times
      → passes config cache name tracker ttl most times + min most n ≡ min most (n + length times)
  unfolding passes current_counter
  passes_running cache [] n reset keyed found h = omega arith
  passes_running cache ((now, later) ∷ times) n reset keyed found (soon, rest) =
      let same : counter_of cache key now (ttl * 1000) ≡ record { count = n; reset_at = reset } =
        ground arith in
      let ih =
        passes_running (bump cache key now (ttl * 1000)) times (n + 1) reset
          (bump-IsMap cache key now (ttl * 1000) keyed)
          (rw (get-bump cache key now (ttl * 1000) keyed (rw same soon)) (rw same)) rest in
      rw (passes_step cache now later times, same) (ground (arith, ih))

  -- A caller whose requests all fall in the window that the first one opens, and are all counted in
  -- time, is let through as often as the budget allows, or each time if that is less often.
  pub passes-eq-min :
      (cache : Cache) (now later : ℕ) (times : List (ℕ × ℕ))
      → IsMap cache.counters
      → Idle cache (key_of config name tracker) now
      → All (λ t. t.0 < now + ttl * 1000) times
      → passes config cache name tracker ttl most ((now, later) ∷ times)
        ≡ min most (suc (length times))
  passes-eq-min cache now later times keyed idle h =
      let w = ttl * 1000 in
      let same : counter_of cache key now w ≡ record { count = 0; reset_at = now + w } =
        Idle-counter cache key now w idle in
      let opened : now < now + w = omega arith in
      let rest =
        passes_running (bump cache key now w) times 1 (now + w) (bump-IsMap cache key now w keyed)
          (rw (get-bump cache key now w keyed (rw same opened)) (rw same)) h in
      rw (passes_step cache now later times, same) (ground (arith, rest))
