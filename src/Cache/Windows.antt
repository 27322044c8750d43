-- ===== src/Cache/Windows.antt =====
-- MemoryCacheStore: counting requests in fixed windows.
use podokit.Base.{
  ◌-◌, inr, ◌≤◌, ◌⊎◌, inl, ℕ, suc, ◌+◌, ◌<◌, min, ◌≡◌, none, some, List, [], ◌∷◌, arith, leb,
  if◌then◌else◌, lt→ltb, length, keep_if, All, ok, err, Text, same_refl, text_eq,
}
use podokit.Map
use podokit.Map.{IsMap}
use podokit.Numbers.{Number, whole_from, whole_from-bounds}
use podokit.Cache.{
  bad_limit, bad_window, Cache, Counter, positive_integer, current_counter, running,
  increment_fixed_window,
}

-- How many of the calls at `times` are allowed, one after the other.
pub admitted : Cache → Text → Number → Number → List ℕ → ℕ
admitted c key window limit [] = 0
admitted c key window limit (now ∷ times) = elim (increment_fixed_window c key window limit now) [
  | err e ↦ 0
  | ok (c', w) ↦ (if w.allowed then 1 else 0) + admitted c' key window limit times
]

-- No window of `key` is open: there is no counter, or it has run out.
abbrev pub Idle : Cache → Text → ℕ → Type 0
Idle c key now =
    (Map.get key c.counters ≡ none)
    ⊎ ((old : Counter) × (Map.get key c.counters ≡ some old) × (old.reset_at ≤ now))

-- The cache after a call that counts, and the counter that it leaves.
abbrev pub counter_of : Cache → Text → ℕ → ℕ → Counter
counter_of c key now w = current_counter (Map.get key c.counters) now w

abbrev pub bump : Cache → Text → ℕ → ℕ → Cache
bump c key now w =
    let entry = counter_of c key now w in
    record c {
      counters =
          keep_if (running now) (Map.put key (record entry { count = entry.count + 1 }) c.counters);
    }

pub Idle-counter :
    (c : Cache) (key : Text) (now w : ℕ)
    → Idle c key now
    → counter_of c key now w ≡ record { count = 0; reset_at = now + w }
unfolding current_counter
Idle-counter c key now w (inl none_yet) = ground arith
Idle-counter c key now w (inr (old, found, over)) = ground arith

pub get-bump :
    (c : Cache) (key : Text) (now w : ℕ)
    → IsMap c.counters
    → now < (counter_of c key now w).reset_at
    → Map.get key (bump c key now w).counters
      ≡ some (record {
        count = (counter_of c key now w).count + 1;
        reset_at = (counter_of c key now w).reset_at;
      })
get-bump c key now w counted h =
    let entry = counter_of c key now w in
    let next : Counter = record entry { count = entry.count + 1 } in
    let put : Map.get key (Map.put key next c.counters) ≡ some next =
      ground (arith, Map.get-put key key next c.counters, same_refl key) in
    rw
      (Map.get-keep_if (running now) key (Map.put key next c.counters) next
        (Map.put-IsMap key next c.counters counted) put)
      (rw (lt→ltb _ _ h))

pub bump-IsMap :
    (c : Cache) (key : Text) (now w : ℕ) → IsMap c.counters → IsMap (bump c key now w).counters
bump-IsMap c key now w counted =
    Map.keep_if-IsMap (running now) _ (Map.put-IsMap key _ c.counters counted)

module _ (key : Text) (window limit : Number) {w l : ℕ} (has_window : whole_from 1 window ≡ some w)
    (has_limit : whole_from 1 limit ≡ some l) where
  -- What a call that counts returns.
  pub increment_lem :
      (c : Cache) (now : ℕ)
      → let counter = counter_of c key now w in
        increment_fixed_window c key window limit now
        ≡ ok (
          bump c key now w,
          record {
            allowed = leb (counter.count + 1) l;
            count = counter.count + 1;
            remaining = l - (counter.count + 1);
            reset_at = counter.reset_at;
          },
        )
  unfolding increment_fixed_window positive_integer
  increment_lem c now =
      let first : positive_integer window bad_window ≡ ok w = rw (has_window, positive_integer) in
      let second : positive_integer limit bad_limit ≡ ok l = rw (has_limit, positive_integer) in
      rw (first, increment_fixed_window) (rw (second, increment_fixed_window))

  admitted_step :
      (c : Cache) (now : ℕ) (times : List ℕ)
      → admitted c key window limit (now ∷ times)
        ≡ (if leb ((counter_of c key now w).count + 1) l then 1 else 0)
          + admitted (bump c key now w) key window limit times
  unfolding admitted
  admitted_step c now times = rw (increment_lem c now, admitted)

  -- Within a window that has counted `n` calls, the budget that is left is spent in order.
  admitted_running :
      (c : Cache) (times : List ℕ) (n reset : ℕ)
      → IsMap c.counters
      → Map.get key c.counters ≡ some (record { count = n; reset_at = reset })
      → All (λ t. t < reset) times
      → admitted c key window limit times + min l n ≡ min l (n + length times)
  unfolding admitted current_counter
  admitted_running c [] n reset counted found h = omega arith
  admitted_running c (now ∷ times) n reset counted found (soon, later) =
      let same : counter_of c key now w ≡ record { count = n; reset_at = reset } = ground arith in
      let rest =
        admitted_running (bump c key now w) times (n + 1) reset (bump-IsMap c key now w counted)
          (rw (get-bump c key now w counted (rw same soon)) (rw same)) later in
      rw (admitted_step c now times, same) (ground (arith, rest))

  -- Of the calls on a key within one window, which opens with the first of them, as many are
  -- allowed as the limit says, or all of them if they are fewer.
  pub admitted-eq-min :
      (c : Cache) (now : ℕ) (times : List ℕ)
      → IsMap c.counters
      → Idle c key now
      → All (λ t. t < now + w) times
      → admitted c key window limit (now ∷ times) ≡ min l (suc (length times))
  unfolding current_counter
  admitted-eq-min c now times counted idle h =
      let same : counter_of c key now w ≡ record { count = 0; reset_at = now + w } =
        Idle-counter c key now w idle in
      let opened : now < now + w = omega (arith, whole_from-bounds 1 window has_window) in
      let rest =
        admitted_running (bump c key now w) times 1 (now + w) (bump-IsMap c key now w counted)
          (rw (get-bump c key now w counted (rw same opened)) (rw same)) h in
      rw (admitted_step c now times, same)
        (ground (arith, rest, whole_from-bounds 1 limit has_limit))
