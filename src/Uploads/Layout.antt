-- ===== src/Uploads/Layout.antt =====
-- upload-config.ts: how an upload is split into parts. A quotient of two safe integers that is rounded
-- up by `Math.ceil` is exact, since it is not nearer to a whole number than a division rounds.
use podokit.Base.{
  ℕ, zero, suc, ◌+◌, ◌-◌, ◌*◌, ◌/◌, ◌≤◌, ◌<◌, max, ◌≡◌, refl, sym, ap, inl, inr, arith, ltb,
  if◌then◌else◌, ltb→lt, Bool-cases, nat_eq, text_eq,
}
use mathlib.Core.Path.{subst}
use podokit.Base.{ap, sym}

pub record Layout : Type 0 where
  pub part_size : ℕ
  pub part_count : ℕ

-- MAX_MULTIPART_PARTS of packages/runtime.
abbrev pub max_multipart_parts : ℕ
max_multipart_parts = 10000

abbrev pub mib : ℕ
mib = 1048576

-- `Math.ceil(n / d)`
abbrev pub ceil_div : ℕ → ℕ → ℕ
ceil_div n d = (n + (d - 1)) / d

unfoldable pub part_layout : ℕ → ℕ → Layout
part_layout size part_bytes =
    let needed = ceil_div size max_multipart_parts in
    let part_size = max part_bytes (ceil_div needed mib * mib) in
    record { part_size = part_size; part_count = max 1 (ceil_div size part_size) }

unfoldable pub expected_part_size : ℕ → Layout → ℕ → ℕ
expected_part_size size layout part_number =
    if ltb part_number layout.part_count
    then layout.part_size
    else size - layout.part_size * (layout.part_count - 1)

-- What the parts from the first one to the n-th hold together.
unfoldable pub total : ℕ → Layout → ℕ → ℕ
total size layout zero = 0
total size layout (suc n) = total size layout n + expected_part_size size layout (suc n)

ceil_div_ge : (n d : ℕ) → 1 ≤ d → n ≤ d * ceil_div n d
ceil_div_ge n d h = omega arith

ceil_div_lt : (n d : ℕ) → 1 ≤ d → d * ceil_div n d < n + d
ceil_div_lt n d h = omega arith

part_count_positive :
    (size part_bytes : ℕ) → 1 ≤ size → 1 ≤ (part_layout size part_bytes).part_count
unfolding part_layout
part_count_positive size part_bytes h = omega arith

-- A factor is bounded if the product is.
factor_lt : (d c m : ℕ) → d * c < d * m → c < m
factor_lt d c m h = elim (Bool-cases (ltb c m)) [
  | inl e ↦ ltb→lt c m e
  | inr e ↦
      let more : c ≡ m + (c - m) = ground (arith, e) in
      let product : d * c ≡ d * (m + (c - m)) = ap (λ x. d * x) more in
      absurd (omega (arith, h, product))
]

total_before :
    (size : ℕ) (layout : Layout) (n : ℕ)
    → n < layout.part_count
    → total size layout n ≡ layout.part_size * n
unfolding total expected_part_size
total_before size layout zero h = omega arith
total_before size layout (suc n) h = ground (arith, total_before size layout n (omega arith))

-- The size of the parts is at least what keeps their number within the limit.
part_size_enough :
    (size part_bytes : ℕ) → size ≤ max_multipart_parts * (part_layout size part_bytes).part_size
unfolding part_layout
part_size_enough size part_bytes =
    let needed = ceil_div size max_multipart_parts in
    let a = ceil_div_ge size max_multipart_parts (omega arith) in
    let b = ceil_div_ge needed mib (omega arith) in omega (arith, a, b)

abbrev pub Covers : ℕ → Layout → Type 0
Covers size layout =
    (total size layout layout.part_count ≡ size)
    × (layout.part_count ≤ max_multipart_parts)
    × ((n : ℕ)
        → 1 ≤ n
        → n ≤ layout.part_count
        → (1 ≤ expected_part_size size layout n)
          × (expected_part_size size layout n ≤ layout.part_size))

-- The last part is what the others leave.
module _ (size : ℕ) (layout : Layout) (positive : 1 ≤ layout.part_count)
    (short : layout.part_size * (layout.part_count - 1) < size)
    (enough : size ≤ layout.part_size * layout.part_count) where
  total_last : (n : ℕ) → layout.part_count ≡ suc n → total size layout (suc n) ≡ size
  unfolding total expected_part_size
  total_last n e =
      let before = total_before size layout n (omega (arith, e)) in
      let last : n ≡ layout.part_count - 1 = omega (arith, e) in
      let same_part : layout.part_size * n ≡ layout.part_size * (layout.part_count - 1) =
        ap (λ x. layout.part_size * x) last in
      let less : layout.part_size * n < size = omega (arith, short, same_part) in
      ground (arith, less, before, e, same_part)

  total_all : total size layout layout.part_count ≡ size
  total_all =
      let shape : layout.part_count ≡ suc (layout.part_count - 1) = omega (arith, positive) in
      subst (λ c. total size layout c ≡ size) (sym shape) (total_last (layout.part_count - 1) shape)

  expected-bounds :
      (n : ℕ)
      → 1 ≤ n
      → n ≤ layout.part_count
      → (1 ≤ expected_part_size size layout n)
        × (expected_part_size size layout n ≤ layout.part_size)
  unfolding expected_part_size
  expected-bounds n h k =
      let shape : layout.part_count ≡ (layout.part_count - 1) + 1 = omega (arith, positive) in
      let product : layout.part_size * layout.part_count
          ≡ layout.part_size * ((layout.part_count - 1) + 1) =
        ap (λ c. layout.part_size * c) shape in
      let one : 1 ≤ layout.part_size = omega (arith, short, enough, product) in
      let low : 1 ≤ size - layout.part_size * (layout.part_count - 1) = omega (arith, short) in
      let high : size - layout.part_size * (layout.part_count - 1) ≤ layout.part_size =
        omega (arith, short, enough, product) in
      ground (arith, one, low, high)

-- Any size from one byte on, with parts of at least one byte, is covered by its layout: the parts hold
-- the size exactly, each at least one byte and at most the size of a part, and they are at most as many
-- as storage takes.
pub part_layout-Covers :
    (size part_bytes : ℕ) → 1 ≤ size → 1 ≤ part_bytes → Covers size (part_layout size part_bytes)
part_layout-Covers size part_bytes h k =
    let layout = part_layout size part_bytes in
    let p = layout.part_size in
    let one : 1 ≤ p = unfold part_layout in omega arith in
    let count : layout.part_count ≡ max 1 (ceil_div size p) = unfold part_layout in refl in
    let a = ceil_div_ge size p one in
    let b = ceil_div_lt size p one in
    let some_part : 1 ≤ ceil_div size p = factor_lt p 0 (ceil_div size p) (omega (arith, a, h)) in
    let exactly : layout.part_count ≡ ceil_div size p = omega (arith, count, some_part) in
    let few =
      factor_lt p (ceil_div size p) 10001 (omega (arith, b, part_size_enough size part_bytes)) in
    let positive : 1 ≤ layout.part_count = omega (arith, exactly, some_part) in
    let product : p * layout.part_count ≡ p * ceil_div size p = ap (λ c. p * c) exactly in
    let shape : layout.part_count ≡ (layout.part_count - 1) + 1 = omega (arith, positive) in
    let parted : p * layout.part_count ≡ p * ((layout.part_count - 1) + 1) =
      ap (λ c. p * c) shape in
    let short : p * (layout.part_count - 1) < size = omega (arith, b, product, parted) in
    let enough : size ≤ p * layout.part_count = omega (arith, a, product) in
    (
      total_all size layout positive short enough,
      omega (arith, exactly, few),
      expected-bounds size layout positive short enough,
    )
