-- ===== src/Project/Versions.antt =====
-- `compareVersions` of update.ts. `localeCompare`, by which two prereleases are compared, is a parameter.
use podokit.Base.{
  ℕ, ◌+◌, ◌-◌, ◌*◌, ◌≡◌, refl, ap, ◌∙◌, Option, none, some, List, [], ◌∷◌, map, arith, ltb, ◌==◌,
  if◌then◌else◌, Text, same, same_iff, nat_eq, text_eq,
}
use podokit.Texts.{split, is_space, is_digit}

pub data Comparison : Type 0 where
  older : Comparison
  equal : Comparison
  newer : Comparison

abbrev pub flip : Comparison → Comparison
flip older = newer
flip equal = equal
flip newer = older

abbrev dash : ℕ
dash = 45

abbrev dot : ℕ
dot = 46

abbrev plus : ℕ
plus = 43

-- `Number.parseInt(part, 10) || 0`, of a part with no sign.
unfoldable pub digits_value : ℕ → Text → ℕ
digits_value n [] = n
digits_value n (c ∷ cs) =
    let rest = digits_value (10 * n + (c - b'0')) cs in if is_digit c then rest else n

unfoldable pub parse_int : Text → ℕ
unfolding digits_value
parse_int [] = 0
parse_int (c ∷ cs) = let rest = parse_int cs in if is_space c then rest else digits_value 0 (c ∷ cs)

abbrev pub first_part : List Text → Text
first_part [] = []
first_part (part ∷ parts) = part

-- What stands before the first dash, and after it.
unfoldable pub at_dash : Text → Text × Option Text
at_dash [] = ([], none)
at_dash (c ∷ cs) =
    let (before, after) = at_dash cs in if c == dash then ([], some cs) else (c ∷ before, after)

pub record VersionParts : Type 0 where
  pub core : List ℕ
  pub prerelease : Option Text

unfoldable pub version_parts : Text → VersionParts
unfolding split at_dash parse_int
version_parts version =
    let (core, prerelease) = at_dash (first_part (split plus version)) in
    record { core = map parse_int (split dot core); prerelease = prerelease }

abbrev compare_numbers : ℕ → ℕ → Comparison
compare_numbers a b = if ltb a b then older else if ltb b a then newer else equal

abbrev or_next : Comparison → Comparison → Comparison
or_next equal next = next
or_next other next = other

-- The longer core is compared with zeros.
unfoldable pub compare_cores : List ℕ → List ℕ → Comparison
compare_cores [] [] = equal
compare_cores [] (b ∷ bs) = or_next (compare_numbers 0 b) (compare_cores [] bs)
compare_cores (a ∷ as') [] = or_next (compare_numbers a 0) (compare_cores as' [])
compare_cores (a ∷ as') (b ∷ bs) = or_next (compare_numbers a b) (compare_cores as' bs)

module _ (locale_compare : Text → Text → Comparison) where
  abbrev compare_prereleases : Option Text → Option Text → Comparison
  compare_prereleases none none = equal
  compare_prereleases none (some b) = newer
  compare_prereleases (some a) none = older
  compare_prereleases (some a) (some b) = if same a b then equal else locale_compare a b

  unfoldable pub compare_versions : Text → Text → Comparison
  compare_versions a b =
      let left = version_parts a in
      let right = version_parts b in
      or_next (compare_cores left.core right.core)
        (compare_prereleases left.prerelease right.prerelease)

compare_cores-flip : (a b : List ℕ) → compare_cores a b ≡ flip (compare_cores b a)
unfolding compare_cores
compare_cores-flip [] [] = refl
compare_cores-flip [] (b ∷ bs) = ground (arith, compare_cores-flip [] bs)
compare_cores-flip (a ∷ as') [] = ground (arith, compare_cores-flip as' [])
compare_cores-flip (a ∷ as') (b ∷ bs) = ground (arith, compare_cores-flip as' bs)

compare_prereleases-flip :
    (locale_compare : Text → Text → Comparison)
    → ((a b : Text) → locale_compare a b ≡ flip (locale_compare b a))
    → (a b : Option Text)
    → compare_prereleases locale_compare a b ≡ flip (compare_prereleases locale_compare b a)
compare_prereleases-flip locale_compare swap none none = refl
compare_prereleases-flip locale_compare swap none (some b) = refl
compare_prereleases-flip locale_compare swap (some a) none = refl
compare_prereleases-flip locale_compare swap (some a) (some b) =
    ground (arith, swap a b, same_iff a b, same_iff b a)

or_next-flip : (a b : Comparison) → or_next (flip a) (flip b) ≡ flip (or_next a b)
or_next-flip older b = refl
or_next-flip equal b = refl
or_next-flip newer b = refl

-- Of two versions the one is older exactly if the other is newer, if that holds of prereleases.
pub compare_versions-flip :
    (locale_compare : Text → Text → Comparison)
    → ((a b : Text) → locale_compare a b ≡ flip (locale_compare b a))
    → (a b : Text)
    → compare_versions locale_compare a b ≡ flip (compare_versions locale_compare b a)
unfolding compare_versions
compare_versions-flip locale_compare swap a b =
    let left = version_parts a in
    let right = version_parts b in
    ap (λ c. or_next c (compare_prereleases locale_compare left.prerelease right.prerelease))
      (compare_cores-flip left.core right.core)
    ∙ ap (or_next (flip (compare_cores right.core left.core)))
        (compare_prereleases-flip locale_compare swap left.prerelease right.prerelease)
    ∙ or_next-flip (compare_cores right.core left.core)
        (compare_prereleases locale_compare right.prerelease left.prerelease)
