-- ===== src/Texts/Decimal.antt =====
-- Decimal numbers are non-empty runs of digits.
use podokit.Base.{
  ℕ, zero, suc, ◌+◌, ◌-◌, ◌*◌, ◌/◌, ◌%◌, ◌≤◌, ◌<◌, ◌≡◌, refl, ap, ◌∙◌, ◌≢◌, ◌⊎◌, inl, inr, Bool,
  true, ◌&&◌, List, [], ◌∷◌, ◌++◌, arith, ltb, Bool-cases, all, Text, nat_eq, text_eq,
}
use podokit.Texts.{is_digit, digits, decimal}

all-append {ℓ} :
    {A : Type ℓ} (p : A → Bool) (xs ys : List A) → all p (xs ++ ys) ≡ (all p xs && all p ys)
all-append p [] ys = refl
all-append p (x ∷ xs) ys = ground (arith, all-append p xs ys)

digits-all :
    (fuel n : ℕ) (acc : Text) → all is_digit acc ≡ true → all is_digit (digits fuel n acc) ≡ true
unfolding digits
digits-all zero n acc h = h
digits-all (suc fuel) n acc h = ground (arith, digits-all fuel (n / 10) ((b'0' + n % 10) ∷ acc))

digits_ne : (fuel n : ℕ) (acc : Text) → (acc ≢ []) ⊎ (1 ≤ fuel) → digits fuel n acc ≢ []
unfolding digits
digits_ne zero n acc h = ground arith
digits_ne (suc fuel) n acc h =
    ground (arith, digits_ne fuel (n / 10) ((b'0' + n % 10) ∷ acc) (inl (ground arith)))

pub decimal_digits : (n : ℕ) → (all is_digit (decimal n) ≡ true) × (decimal n ≢ [])
unfolding decimal
decimal_digits n = (digits-all (n + 1) n [] refl, digits_ne (n + 1) n [] (inr (omega arith)))

-- The number that a run of digits stands for, after `acc`.
unfoldable pub value_from : ℕ → Text → ℕ
value_from acc [] = acc
value_from acc (d ∷ ds) = value_from (acc * 10 + (d - b'0')) ds

value_from-digits :
    (fuel n start : ℕ) (acc : Text) → n < fuel → value_from 0 (digits fuel n acc) ≡ value_from n acc
unfolding digits value_from
value_from-digits zero n start acc h = absurd (omega arith)
value_from-digits (suc fuel) n start acc h = elim (Bool-cases (ltb n 10)) [
  | inl e ↦ rw e (ap (λ t. value_from t acc) (omega arith))
  | inr e ↦
      let smaller : n / 10 < fuel = ground arith in
      let last : n / 10 * 10 + (b'0' + n % 10 - b'0') ≡ n = omega arith in
      rw e (
        value_from-digits fuel (n / 10) start ((b'0' + n % 10) ∷ acc) smaller
        ∙ ap (λ t. value_from t acc) last)
]

pub value-decimal : (n : ℕ) → value_from 0 (decimal n) ≡ n
unfolding decimal value_from
value-decimal n = value_from-digits (n + 1) n 0 [] (omega arith)
