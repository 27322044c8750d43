-- ===== src/Diff/Hunks.antt =====
-- The hunks of `unifiedDiff`: the changed operations that are near each other, with their context.
pub mod Apart
use podokit.Base.{
  ℕ, zero, suc, ◌+◌, ◌-◌, ◌*◌, ◌/◌, ◌%◌, ◌^◌, ◌≤◌, ◌<◌, min, max, ◌≡◌, refl, sym, ap, ◌∙◌, ◌≡⟨◌⟩◌,
  ◌∎, ◌≢◌, ◌↔◌, ◌⊎◌, inl, inr, Bool, true, false, not, ◌&&◌, ◌||◌, Option, none, some, List, [],
  ◌∷◌, ◌++◌, map, append-nil, append_assoc, arith, ltb, leb, ◌==◌, if◌then◌else◌, ltb→lt, lt→ltb,
  leb→le, le→leb, ==_iff, tests, Bool-cases, Option-cases, codes, length, get_elem?, take, drop,
  keep_if, any, all, length-append, take-append-drop, length-drop, length-take, All, All-append,
  All-map, All-keep_if, Result, ok, err, Result-cases, Ensures, Ensures-bind, Ensures-after,
  Ensures-ok, Ensures-of, All-get_elem?, ◌>>=◌, ◌>>◌, reject_if, Eq, list_beq, list_beq_iff, Text,
  same, same_iff, same_refl, nat_eq, text_eq,
}
use podokit.Texts.{split, join, newline, decimal, ends_with}
use podokit.Diff.{Kind, context, removed, added, Op, operations}

-- `if (lines[lines.length - 1] === "") lines.pop()`
unfoldable pub pop_empty : List Text → List Text
pop_empty [] = []
pop_empty ([] ∷ []) = []
pop_empty (line ∷ lines) = line ∷ pop_empty lines

unfoldable pub split_lines : Text → List Text
unfolding pop_empty
split_lines [] = []
split_lines (c ∷ text) = pop_empty (split newline (c ∷ text))

abbrev pub is_context {ℓ} : {A : Type ℓ} → Op A → Bool
is_context op = elim op.kind [ context ↦ true | removed ↦ false | added ↦ false ]

abbrev pub in_from {ℓ} : {A : Type ℓ} → Op A → Bool
in_from op = elim op.kind [ context ↦ true | removed ↦ true | added ↦ false ]

abbrev pub in_to {ℓ} : {A : Type ℓ} → Op A → Bool
in_to op = elim op.kind [ context ↦ true | removed ↦ false | added ↦ true ]

-- The indices of the operations that are no context, from `index` on.
unfoldable pub changed {ℓ} : {A : Type ℓ} → ℕ → List (Op A) → List ℕ
changed index [] = []
changed index (op ∷ ops) =
    let rest = changed (suc index) ops in if is_context op then rest else index ∷ rest

-- From the hunk that is built, which begins and ends with these changes.
unfoldable pub hunks_from : ℕ → ℕ → ℕ → List ℕ → List (ℕ × ℕ)
hunks_from around start end [] = (start, end) ∷ []
hunks_from around start end (next ∷ more) =
    let joined = hunks_from around start next more in
    let apart = hunks_from around next next more in
    if leb (next - end) (around * 2 + 1) then joined else (start, end) ∷ apart

unfoldable pub hunks : ℕ → List ℕ → List (ℕ × ℕ)
unfolding hunks_from
hunks around [] = []
hunks around (index ∷ more) = hunks_from around index index more

abbrev pub count_if {ℓ} : {A : Type ℓ} → (A → Bool) → List A → ℕ
count_if p xs = length (keep_if p xs)

unfoldable pub range : ℕ → ℕ → Text
range start zero = decimal start ++ codes ",0"
range start (suc zero) = decimal (start + 1)
range start (suc (suc n)) = decimal (start + 1) ++ (codes "," ++ decimal (suc (suc n)))

abbrev pub sign : Kind → Text
sign context = codes " "
sign removed = codes "-"
sign added = codes "+"

-- The header of a hunk and its lines.
unfoldable pub print_hunk : ℕ → List (Op Text) → ℕ × ℕ → List Text
unfolding range keep_if
print_hunk around ops (start, end) =
    let first = start - around in
    let last = min (length ops - 1) (end + around) in
    let before = take first ops in
    let body = take (suc last - first) (drop first ops) in
    (codes "@@ -"
      ++ (range (count_if in_from before) (count_if in_from body)
          ++ (codes " +" ++ (range (count_if in_to before) (count_if in_to body) ++ codes " @@"))))
    ∷ map (λ op. sign op.kind ++ op.line) body

unfoldable pub print_hunks : ℕ → List (Op Text) → List (ℕ × ℕ) → List Text
unfolding print_hunk
print_hunks around ops [] = []
print_hunks around ops (hunk ∷ more) = print_hunk around ops hunk ++ print_hunks around ops more

-- What is said where only the last line break differs.
abbrev pub last_break : Text → Text → List Text
last_break from to =
    (if ends_with newline from
      then codes "\\ the template ends with a newline"
      else codes "\\ the template has no newline at end of file")
    ∷ (if ends_with newline to
        then codes "\\ the file ends with a newline"
        else codes "\\ the file has no newline at end of file")
    ∷ []

abbrev pub or_three : Option ℕ → ℕ
or_three none = 3
or_three (some around) = around

unfoldable pub print_body : Text → Text → ℕ → List (Op Text) → List ℕ → List Text
unfolding hunks print_hunks
print_body from to around ops [] = last_break from to
print_body from to around ops (i ∷ is) = print_hunks around ops (hunks around (i ∷ is))

unfoldable pub unified_diff : Text → Text → (from_label to_label : Text) → Option ℕ → Text
unfolding split_lines changed print_body
unified_diff from to from_label to_label around =
    let ops = operations (split_lines from) (split_lines to) in
    let body = print_body from to (or_three around) ops (changed 0 ops) in
    if same from to
    then []
    else join (newline ∷ []) ((codes "--- " ++ from_label) ∷ (codes "+++ " ++ to_label) ∷ body)
      ++ newline ∷ []
