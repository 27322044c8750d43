-- ===== src/Numbers.antt =====
-- A `number` that reaches the code as an argument, before it is validated. After the validation
-- it is a whole number, and the models go on with ℕ.
use podokit.Base.{ℕ, ◌≤◌, ◌≡◌, ◌&&◌, Option, none, some, arith, leb, if◌then◌else◌, text_eq}

pub data Number : Type 0 where
  whole : ℕ → Number  -- n
  minus : ℕ → Number  -- -(n + 1)
  other : Number  -- a fraction, NaN or an infinity

-- Number.MAX_SAFE_INTEGER
abbrev pub max_safe_integer : ℕ
max_safe_integer = 9007199254740991

-- The value, unless `!Number.isSafeInteger(value) || value < least`, for a `least` from 0.
unfoldable pub whole_from : ℕ → Number → Option ℕ
whole_from least (whole n) = if leb n max_safe_integer && leb least n then some n else none
whole_from least (minus n) = none
whole_from least other = none

pub whole_from-bounds :
    (least : ℕ) (v : Number) {n : ℕ}
    → whole_from least v ≡ some n
    → (least ≤ n) × (n ≤ max_safe_integer)
unfolding whole_from
whole_from-bounds least (whole m) h = ground arith
whole_from-bounds least (minus m) h = ground arith
whole_from-bounds least other h = ground arith
