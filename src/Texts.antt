-- ===== src/Texts.antt =====
-- What the code uses of JavaScript strings, over their UTF-16 code units.
pub mod Decimal
pub mod Lines
pub mod Sets
pub mod Unions
use podokit.Base.{
  zero, ◌%◌, ◌/◌, ◌+◌, suc, ltb, leb, ℕ, ◌≡◌, refl, ap, ◌∙◌, inl, inr, Bool, true, false, ◌&&◌,
  ◌||◌, List, [], ◌∷◌, ◌++◌, ◌==◌, if◌then◌else◌, ==_iff, Bool-cases, Text, text_eq,
}

-- `text.split(sep)`, for a separator of one unit.
abbrev pub extend : ℕ → List Text → List Text
extend c [] = (c ∷ []) ∷ []
extend c (part ∷ parts) = (c ∷ part) ∷ parts

unfoldable pub split : ℕ → Text → List Text
split sep [] = [] ∷ []
split sep (c ∷ cs) = let rest = split sep cs in if c == sep then [] ∷ rest else extend c rest

-- `parts.join(sep)`
unfoldable pub join : Text → List Text → Text
join sep [] = []
join sep (part ∷ []) = part
join sep (part ∷ (next ∷ parts)) = part ++ (sep ++ join sep (next ∷ parts))

-- `text.startsWith(prefix)`
unfoldable pub starts_with : Text → Text → Bool
starts_with text [] = true
starts_with [] (p ∷ ps) = false
starts_with (c ∷ cs) (p ∷ ps) = c == p && starts_with cs ps

-- `text.includes(needle)`
unfoldable pub includes : Text → Text → Bool
unfolding starts_with
includes [] needle = starts_with [] needle
includes (c ∷ cs) needle = starts_with (c ∷ cs) needle || includes cs needle

abbrev pub newline : ℕ
newline = 10

join-extend :
    (c : ℕ) (sep : Text) (part : Text) (parts : List Text)
    → join sep ((c ∷ part) ∷ parts) ≡ c ∷ join sep (part ∷ parts)
unfolding join
join-extend c sep part [] = refl
join-extend c sep part (next ∷ parts) = refl

join-cons :
    (sep part : Text) (parts : List Text)
    → join sep ([] ∷ part ∷ parts) ≡ sep ++ join sep (part ∷ parts)
unfolding join
join-cons sep part parts = refl

-- There is at least one part.
split_cons :
    (sep : ℕ) (text : Text) → (part : Text) × (parts : List Text) × (split sep text ≡ part ∷ parts)
unfolding split
split_cons sep [] = ([], [], refl)
split_cons sep (c ∷ cs) =
    let (part, parts, shape) = split_cons sep cs in
    elim (Bool-cases (c == sep)) [
      | inl e ↦ ([], split sep cs, rw e)
      | inr e ↦ (c ∷ part, parts, rw (e, shape))
    ]

-- Joining what a text was split into gives the text.
pub join-split : (sep : ℕ) (text : Text) → join (sep ∷ []) (split sep text) ≡ text
unfolding split
join-split sep [] = unfold join in refl
join-split sep (c ∷ cs) =
    let (part, parts, shape) = split_cons sep cs in
    let ih = join-split sep cs in
    elim (Bool-cases (c == sep)) [
      | inl e ↦
          rw (e, shape)
            (join-cons (sep ∷ []) part parts
              ∙ rw ((==_iff c sep).0 e) (ap (λ t. sep ∷ t) (rw shape at ih)))
      | inr e ↦
          rw (e, shape) (join-extend c (sep ∷ []) part parts ∙ ap (λ t. c ∷ t) (rw shape at ih))
    ]

-- `text.endsWith(unit)` and `text.slice(0, -1)`, for one unit.
unfoldable pub ends_with : ℕ → Text → Bool
ends_with unit [] = false
ends_with unit (c ∷ []) = c == unit
ends_with unit (c ∷ (d ∷ cs)) = ends_with unit (d ∷ cs)

unfoldable pub drop_last : Text → Text
drop_last [] = []
drop_last (c ∷ []) = []
drop_last (c ∷ (d ∷ cs)) = c ∷ drop_last (d ∷ cs)

-- The regular expression classes `\s`, `[A-Za-z]`, `[0-9]`.
abbrev pub is_space : ℕ → Bool
is_space c =
    (leb 9 c && leb c 13)
    || c == 32
    || c == 0xa0
    || c == 0x1680
    || (leb 0x2000 c && leb c 0x200a)
    || c == 0x2028
    || c == 0x2029
    || c == 0x202f
    || c == 0x205f
    || c == 0x3000
    || c == 0xfeff

abbrev pub is_upper : ℕ → Bool
is_upper c = leb b'A' c && leb c b'Z'

abbrev pub is_letter : ℕ → Bool
is_letter c = is_upper c || (leb b'a' c && leb c b'z')

abbrev pub is_digit : ℕ → Bool
is_digit c = leb b'0' c && leb c b'9'

-- `String(n)`, its digits from the last.
digits : ℕ → ℕ → Text → Text
digits zero n acc = acc
digits (suc fuel) n acc =
    let more = digits fuel (n / 10) ((b'0' + n % 10) ∷ acc) in
    if ltb n 10 then (b'0' + n) ∷ acc else more

unfoldable pub decimal : ℕ → Text
unfolding digits
decimal n = digits (n + 1) n []

-- `s < t`, by code units.
unfoldable pub text_lt : Text → Text → Bool
text_lt s [] = false
text_lt [] (d ∷ t) = true
text_lt (c ∷ s) (d ∷ t) = let later = text_lt s t in if c == d then later else ltb c d
