-- ===== src/Jobs/Rules.antt =====
-- packages/runtime/src/contracts.ts: assertRepeatOptions, scheduleRetention and their types, and
-- `nextScheduledTime` of the local queue. What cron-parser does is the parameter `cron`: the next
-- time of an expression in a time zone after a given one, `none` where it throws.
pub mod Times
use podokit.Base.{
  ℕ, ◌+◌, ◌*◌, ◌/◌, Bool, true, false, not, ◌&&◌, Option, none, some, codes, all, Result, ok, err,
  ◌>>=◌, ◌>>◌, reject_if, Text, nat_eq, text_eq,
}
use podokit.Numbers.{Number, whole_from}
use podokit.Texts.{is_space}

pub data Status : Type 0 where
  waiting active completed failed : Status

pub record Repeat : Type 0 where
  pub cron : Option Text
  pub every_ms : Option Number
  pub timezone : Option Text

pub data Error : Type 0 where
  needs_one empty_cron bad_every_ms timezone_without_cron bad_cron : Error
  bad_keep_completed bad_keep_failed : Error
  bad_poll_interval not_serializable bad_attempts bad_delay handler_exists : Error

-- MIN_REPEAT_INTERVAL_MS
abbrev pub min_repeat_interval_ms : ℕ
min_repeat_interval_ms = 1000

-- `value.trim() === ""`
abbrev is_blank : Text → Bool
is_blank text = all is_space text

abbrev given {ℓ} : {A : Type ℓ} → Option A → Bool
given none = false
given (some a) = true

abbrev holds {ℓ} : {A : Type ℓ} → (A → Bool) → Option A → Bool
holds p none = false
holds p (some a) = p a

-- A whole number of at least `MIN_REPEAT_INTERVAL_MS`.
abbrev is_bad_interval : Number → Bool
is_bad_interval v = not (given (whole_from min_repeat_interval_ms v))

abbrev eqb : Bool → Bool → Bool
eqb true b = b
eqb false b = not b

unfoldable pub assert_repeat_options : Repeat → Result Error (Unit {0})
assert_repeat_options repeat = do
  reject_if (eqb (given repeat.cron) (given repeat.every_ms)) needs_one
  reject_if (holds is_blank repeat.cron) empty_cron
  reject_if (holds is_bad_interval repeat.every_ms) bad_every_ms
  reject_if (given repeat.timezone && not (given repeat.cron)) timezone_without_cron

pub record Retention : Type 0 where
  pub keep_completed : ℕ
  pub keep_failed : ℕ

pub record ScheduleOptions : Type 0 where
  pub keep_completed : Option Number
  pub keep_failed : Option Number

limit_or : Option Number → ℕ → Error → Result Error ℕ
limit_or none default e = ok default
limit_or (some v) default e = elim (whole_from 0 v) [ none ↦ err e | some n ↦ ok n ]

-- DEFAULT_SCHEDULE_KEEP_COMPLETED and DEFAULT_SCHEDULE_KEEP_FAILED are 100 and 1,000.
unfoldable pub schedule_retention : ScheduleOptions → Result Error Retention
unfolding limit_or
schedule_retention options = do
  keep_done ← limit_or options.keep_completed 100 bad_keep_completed
  keep_lost ← limit_or options.keep_failed 1000 bad_keep_failed
  ok (record { keep_completed = keep_done; keep_failed = keep_lost })

abbrev pub Cron : Type 0
Cron = Text → Text → ℕ → Option ℕ

abbrev text_or : Option Text → Text → Text
text_or none default = default
text_or (some text) default = text

abbrev or_bad_cron : Option ℕ → Result Error ℕ
or_bad_cron none = err bad_cron
or_bad_cron (some time) = ok time

-- An interval is a whole number once `assertRepeatOptions` has passed.
unfoldable pub next_scheduled_time : Cron → Repeat → ℕ → Result Error ℕ
next_scheduled_time cron repeat after = elim repeat.every_ms [
  | none ↦
      or_bad_cron
        (cron (text_or repeat.cron (codes "")) (text_or repeat.timezone (codes "UTC")) after)
  | some (Number.whole every) ↦ ok ((after / every + 1) * every)
  | some (Number.minus n) ↦ err bad_every_ms
  | some Number.other ↦ err bad_every_ms
]
