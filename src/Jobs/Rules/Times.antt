-- ===== src/Jobs/Rules/Times.antt =====
-- The times of a schedule with an interval.
use podokit.Base.{ℕ, ◌+◌, ◌*◌, ◌/◌, ◌≤◌, ◌<◌, ◌≡◌, refl, some, arith, ok, nat_eq, text_eq}
use podokit.Numbers.{Number, whole_from}
use podokit.Jobs.Rules.{Repeat, Cron, assert_repeat_options, next_scheduled_time}

-- The first multiple of the interval that is later.
abbrev pub IsNext : ℕ → ℕ → ℕ → Type 0
IsNext every after at = (after < at) × (at ≤ after + every) × ((k : ℕ) × (at ≡ k * every))

multiple-IsNext : (every after : ℕ) → 1 ≤ every → IsNext every after ((after / every + 1) * every)
multiple-IsNext every after h = (omega arith, omega arith, (after / every + 1, refl))

whole_of_passed :
    (repeat : Repeat) (v : Number)
    → repeat.every_ms ≡ some v
    → assert_repeat_options repeat ≡ ok tt
    → (every : ℕ) × (v ≡ Number.whole every) × (1 ≤ every)
unfolding assert_repeat_options whole_from
whole_of_passed repeat (Number.whole n) given passed = (n, refl, ground arith)
whole_of_passed repeat (Number.minus n) given passed = absurd (ground arith)
whole_of_passed repeat Number.other given passed = absurd (ground arith)

-- A schedule that passes the checks and has an interval runs next at the first multiple of the
-- interval, counted from the epoch, that is later than the time given.
pub next_scheduled_time-IsNext :
    (cron : Cron) (repeat : Repeat) (v : Number) (after : ℕ)
    → assert_repeat_options repeat ≡ ok tt
    → repeat.every_ms ≡ some v
    → (every at : ℕ) × (v ≡ Number.whole every)
      × (next_scheduled_time cron repeat after ≡ ok at)
      × IsNext every after at
unfolding next_scheduled_time
next_scheduled_time-IsNext cron repeat v after passed given =
    let (every, is_whole, positive) = whole_of_passed repeat v given passed in
    (
      every,
      (after / every + 1) * every,
      is_whole,
      rw (given, next_scheduled_time, is_whole) refl,
      multiple-IsNext every after positive,
    )
