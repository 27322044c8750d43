-- ===== src/Merge/ThreeWay.antt =====
-- `threeWayMerge` and `lcsMatches`. The table of `lcsMatches` is the one of the line operations. A
-- list of matches is a Map, since no line of the base is matched twice.
pub mod Matches
pub mod Longest
pub mod Merged
pub mod Hunks
use podokit.Base.{
  ℕ, zero, suc, ◌+◌, ◌-◌, ◌*◌, ◌/◌, ◌%◌, ◌^◌, ◌≤◌, ◌<◌, min, max, ◌≡◌, refl, sym, ap, ◌∙◌, ◌≡⟨◌⟩◌,
  ◌∎, ◌≢◌, ◌↔◌, ◌⊎◌, inl, inr, Bool, true, false, not, ◌&&◌, ◌||◌, Option, none, some, List, [],
  ◌∷◌, ◌++◌, map, append-nil, append_assoc, arith, ltb, leb, ◌==◌, if◌then◌else◌, ltb→lt, lt→ltb,
  leb→le, le→leb, ==_iff, tests, Bool-cases, Option-cases, codes, length, get_elem?, take, drop,
  keep_if, any, all, length-append, take-append-drop, length-drop, length-take, All, All-append,
  All-map, All-keep_if, Result, ok, err, Result-cases, Ensures, Ensures-bind, Ensures-after,
  Ensures-ok, Ensures-of, All-get_elem?, ◌>>=◌, ◌>>◌, reject_if, Eq, list_beq, list_beq_iff, Text,
  same, same_iff, same_refl, nat_eq, text_eq,
}
use podokit.Map
use podokit.Texts.{split, join, newline}
use podokit.Diff.{cell, table}

pub record MergeResult : Type 0 where
  pub merged : Text
  pub conflicts : ℕ

pub record Labels : Type 0 where
  pub current : Text
  pub next : Text

-- The walk from (i, j), where `a` and `b` are what is left of the lines.
unfoldable pub matches_from : List (List ℕ) → ℕ → ℕ → List Text → List Text → List (ℕ × ℕ)
matches_from dp i j [] b = []
matches_from dp i j (x ∷ a) [] = []
matches_from dp i j (x ∷ a) (y ∷ b) = elim (same x y) [
  | true ↦ (i, j) ∷ matches_from dp (suc i) (suc j) a b
  | false ↦ elim (leb (cell dp i (suc j)) (cell dp (suc i) j)) [
    | true ↦ matches_from dp (suc i) j a (y ∷ b)
    | false ↦ matches_from dp i (suc j) (x ∷ a) b
  ]
]

unfoldable pub lcs_matches : List Text → List Text → List (ℕ × ℕ)
unfolding matches_from
lcs_matches a b = matches_from (table a b) 0 0 a b

-- The lines of the base that are matched on both sides, from line `o` on.
unfoldable pub anchors : ℕ → List Text → List (ℕ × ℕ) → List (ℕ × ℕ) → List (ℕ × (ℕ × ℕ))
anchors o [] ma mb = []
anchors o (line ∷ lines) ma mb =
    let rest = anchors (suc o) lines ma mb in
    elim (Map.get o ma) [
      | none ↦ rest
      | some a ↦ elim (Map.get o mb) [ none ↦ rest | some b ↦ (o, (a, b)) ∷ rest ]
    ]

-- `lines.slice(from, to)`
abbrev pub slice : ℕ → ℕ → List Text → List Text
slice from to lines = take (to - from) (drop from lines)

-- `a.join("\n") === b.join("\n")`
abbrev pub same_lines : List Text → List Text → Bool
same_lines a b = same (join (newline ∷ []) a) (join (newline ∷ []) b)

abbrev pub conflict : Labels → List Text → List Text → List Text
conflict labels ah bh =
    (codes "<<<<<<< " ++ labels.current)
    ∷ (ah ++ (codes "=======" ∷ (bh ++ (codes ">>>>>>> " ++ labels.next) ∷ [])))

-- What is pushed for the lines between two anchors, and how many conflicts that makes.
unfoldable pub merge_hunk : Labels → List Text → List Text → List Text → List Text × ℕ
merge_hunk labels oh ah bh =
    if same_lines ah oh
    then (bh, 0)
    else if same_lines bh oh
    then (ah, 0)
    else if same_lines ah bh
    then (ah, 0)
    else (conflict labels ah bh, 1)

-- `if (o < O.length) out.push(O[o])`
abbrev pub line_at : List Text → ℕ → List Text
line_at lines o = elim (get_elem? lines o) [ none ↦ [] | some line ↦ line ∷ [] ]

module _ (labels : Labels) (O A B : List Text) where
  -- The loop over `seq`, from the lines after the last anchor.
  unfoldable pub merge_from : ℕ → ℕ → ℕ → List (ℕ × (ℕ × ℕ)) → List Text × ℕ
  unfolding merge_hunk
  merge_from po pa pb [] = ([], 0)
  merge_from po pa pb ((o, (a, b)) ∷ seq) =
      let (lines, n) = merge_hunk labels (slice po o O) (slice pa a A) (slice pb b B) in
      let (out, conflicts) = merge_from (suc o) (suc a) (suc b) seq in
      (lines ++ (line_at O o ++ out), n + conflicts)

  unfoldable pub merge_lines : List Text × ℕ
  unfolding lcs_matches anchors merge_from
  merge_lines =
      let ma = lcs_matches O A in
      let mb = lcs_matches O B in
      merge_from 0 0 0 (anchors 0 O ma mb ++ (length O, (length A, length B)) ∷ [])

unfoldable pub three_way_merge : Labels → Text → Text → Text → MergeResult
unfolding merge_lines
three_way_merge labels base current next =
    let (out, conflicts) =
      merge_lines labels (split newline base) (split newline current) (split newline next) in
    if same current next
    then record { merged = current; conflicts = 0 }
    else if same base current
    then record { merged = next; conflicts = 0 }
    else if same base next
    then record { merged = current; conflicts = 0 }
    else record { merged = join (newline ∷ []) out; conflicts = conflicts }
