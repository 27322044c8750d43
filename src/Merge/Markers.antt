-- ===== src/Merge/Markers.antt =====
-- `insertAtMarker`, `removeAtMarker`, `extractRegion` and `replaceRegion`, on the lines of a file.
pub mod RoundTrip
use podokit.Base.{
  ℕ, zero, suc, ◌+◌, ◌-◌, ◌*◌, ◌/◌, ◌%◌, ◌^◌, ◌≤◌, ◌<◌, min, max, ◌≡◌, refl, sym, ap, ◌∙◌, ◌≡⟨◌⟩◌,
  ◌∎, ◌≢◌, ◌↔◌, ◌⊎◌, inl, inr, Bool, true, false, not, ◌&&◌, ◌||◌, Option, none, some, List, [],
  ◌∷◌, ◌++◌, map, append-nil, append_assoc, arith, ltb, leb, ◌==◌, if◌then◌else◌, ltb→lt, lt→ltb,
  leb→le, le→leb, ==_iff, tests, Bool-cases, Option-cases, codes, length, get_elem?, take, drop,
  keep_if, any, all, length-append, take-append-drop, length-drop, length-take, All, All-append,
  All-map, All-keep_if, Result, ok, err, Result-cases, Ensures, Ensures-bind, Ensures-after,
  Ensures-ok, Ensures-of, All-get_elem?, ◌>>=◌, ◌>>◌, reject_if, Eq, list_beq, list_beq_iff, Text,
  same, same_iff, same_refl, nat_eq, text_eq,
}
use mathlib.Core.List.{reverse}
use mathlib.Core.Option
use podokit.Texts.{split, join, newline, includes, is_space}

-- `text.match(/^\s*/)[0]` and what follows it.
unfoldable pub indent_of : Text → Text
indent_of [] = []
indent_of (c ∷ cs) = let rest = indent_of cs in if is_space c then c ∷ rest else []

unfoldable pub trim_start : Text → Text
trim_start [] = []
trim_start (c ∷ cs) = let rest = trim_start cs in if is_space c then rest else c ∷ cs

-- `text.trim()`
unfoldable pub trim : Text → Text
unfolding trim_start
trim text = reverse (trim_start (reverse (trim_start text)))

-- Before the first line that includes the marker, with its indentation.
unfoldable pub insert_line : Text → Text → List Text → Option (List Text)
unfolding indent_of
insert_line marker text [] = none
insert_line marker text (line ∷ lines) =
    let rest = insert_line marker text lines in
    if includes line marker
    then some ((indent_of line ++ text) ∷ line ∷ lines)
    else Option.map (λ ls. line ∷ ls) rest

pub data Error : Type 0 where
  marker_not_found region_not_found : Error

unfoldable pub insert_at_marker : Text → Text → Text → Result Error Text
unfolding insert_line
insert_at_marker content marker text =
    let inserted = insert_line marker text (split newline content) in
    if includes content text
    then ok content
    else elim inserted [ none ↦ err marker_not_found | some lines ↦ ok (join (newline ∷ []) lines) ]

-- `needle.every(...)` at the first of these lines.
unfoldable pub starts_block : List Text → List Text → Bool
unfolding trim
starts_block [] lines = true
starts_block (part ∷ needle) [] = false
starts_block (part ∷ needle) (line ∷ lines) = same (trim line) part && starts_block needle lines

unfoldable pub remove_block : List Text → List Text → Option (List Text)
unfolding starts_block
remove_block needle [] = none
remove_block needle (line ∷ lines) =
    let rest = remove_block needle lines in
    if starts_block needle (line ∷ lines)
    then some (drop (length needle) (line ∷ lines))
    else Option.map (λ ls. line ∷ ls) rest

abbrev pub joined_or : Text → Option (List Text) → Text
joined_or content none = content
joined_or content (some lines) = join (newline ∷ []) lines

unfoldable pub remove_at_marker : Text → Text → Text
unfolding remove_block
remove_at_marker content text =
    let needle = map trim (split newline (trim text)) in
    joined_or content (remove_block needle (split newline content))

-- A fenced region: the lines between the fences, and where they are.
pub record Region : Type 0 where
  pub lines : List Text
  pub begin_line : ℕ
  pub end_line : ℕ
  pub indent : Text

abbrev pub begin_fence : Text → Text
begin_fence name = codes "// podokit:begin:" ++ name

abbrev pub end_fence : Text → Text
end_fence name = codes "// podokit:end:" ++ name

-- The first line from `i` on that includes the text, with its index.
unfoldable pub find_line : Text → ℕ → List Text → Option (ℕ × Text)
find_line needle i [] = none
find_line needle i (line ∷ lines) =
    let rest = find_line needle (suc i) lines in
    if includes line needle then some (i, line) else rest

unfoldable pub extract_region : Text → Text → Option Region
unfolding find_line indent_of
extract_region content name =
    let lines = split newline content in
    elim (find_line (begin_fence name) 0 lines) [
      | none ↦ none
      | some (first, line) ↦
          elim (find_line (end_fence name) (suc first) (drop (suc first) lines)) [
            | none ↦ none
            | some (last, _) ↦ some (record {
              lines = take (last - suc first) (drop (suc first) lines);
              begin_line = first;
              end_line = last;
              indent = indent_of line;
            })
          ]
    ]

abbrev pub indented : Text → Text → Text
indented indent [] = []
indented indent (c ∷ cs) = indent ++ c ∷ cs

unfoldable pub replace_region : Text → Text → List Text → Result Error Text
unfolding extract_region
replace_region content name body = elim (extract_region content name) [
  | none ↦ err region_not_found
  | some region ↦
      let lines = split newline content in
      ok (
        join (newline ∷ []) (
          take (suc region.begin_line) lines
          ++ (map (indented region.indent) body ++ drop region.end_line lines)))
]
