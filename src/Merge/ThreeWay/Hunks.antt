-- ===== src/Merge/ThreeWay/Hunks.antt =====
-- What a three-way merge is: the three texts fall into hunks between the lines that longest common
-- subsequences of the base and each side match on both sides, and each hunk is merged by itself.
use podokit.Base.{length-take, length-drop, append-nil, drop-split, take-length}
use podokit.Base.{
  ℕ, suc, ◌+◌, ◌-◌, ◌≤◌, ◌≡◌, refl, ap, ◌∙◌, ◌≢◌, ◌↔◌, false, some, List, [], ◌∷◌, ◌++◌, append-nil,
  arith, length, get_elem?, drop, length-drop, length-take, Text, same, same_iff, nat_eq, text_eq,
}
use podokit.Map
use podokit.Texts.{split, newline}
use podokit.Merge.ThreeWay.{
  Labels, MergeResult, slice, line_at, lcs_matches, anchors, merge_hunk, merge_from, merge_lines,
  three_way_merge,
}
use podokit.Merge.ThreeWay.Merged.{
  IsMerged, Hunk, Hunks, last, before, flatten, conflicts, places, joined, AreMerged,
  merge_hunk-IsMerged,
}
use podokit.Merge.ThreeWay.Matches.{AreAnchors, anchors-AreAnchors}
use podokit.Merge.ThreeWay.Longest.{get_elem?-lt, AreLongest, lcs_matches-AreLongest, anchors_iff}

-- The hunks of three texts.
abbrev pub AreHunks : List Text → List Text → List Text → Hunks → Type 0
AreHunks O A B hunks =
    (flatten (λ h. h.base) hunks ≡ O)
    × (flatten (λ h. h.current) hunks ≡ A)
    × (flatten (λ h. h.next) hunks ≡ B)

-- A merge of the lines of three texts, and its result.
pub record IsMerge (labels : Labels) (O A B : List Text) (result : MergeResult) : Type 0 where
  pub current_matches : List (ℕ × ℕ)
  pub next_matches : List (ℕ × ℕ)
  pub current_longest : AreLongest O A current_matches
  pub next_longest : AreLongest O B next_matches
  pub hunks : Hunks
  pub sides : AreHunks O A B hunks
  -- The shared lines are those of the base that are matched on both sides.
  pub shared :
      (o a b : ℕ)
      → (Map.get o (places 0 0 0 hunks) ≡ some (a, b))
        ↔ ((Map.get o current_matches ≡ some a) × (Map.get o next_matches ≡ some b))
  pub merged : AreMerged labels hunks
  pub lines : result.merged ≡ joined (flatten (λ h. h.lines) hunks)
  pub counted : result.conflicts ≡ conflicts hunks

differ : (s t : Text) → s ≢ t → same s t ≡ false
differ s t h = ground (arith, same_iff s t, h)

length-slice :
    (from to : ℕ) (lines : List Text) {line : Text}
    → from ≤ to
    → get_elem? lines to ≡ some line
    → from + length (slice from to lines) ≡ to
length-slice from to lines {line} h e = omega (
  arith,
  get_elem?-lt to lines line e,
  length-take (to - from) (drop from lines),
  length-drop from lines,
)

module _ (labels : Labels) (O A B : List Text) where
  -- The hunk of these lines, as the code merges it.
  abbrev hunk_of : List Text → List Text → List Text → Hunk
  hunk_of oh ah bh = record {
    base = oh;
    current = ah;
    next = bh;
    lines = (merge_hunk labels oh ah bh).0;
    conflicts = (merge_hunk labels oh ah bh).1;
  }

  hunk_of-IsMerged : (oh ah bh : List Text) → IsMerged labels (hunk_of oh ah bh)
  hunk_of-IsMerged oh ah bh = merge_hunk-IsMerged labels (hunk_of oh ah bh) refl

  abbrev Merges : ℕ → ℕ → ℕ → List (ℕ × (ℕ × ℕ)) → List Text × ℕ → Type 0
  Merges o a b seq out =
      (hunks : Hunks) × AreHunks (drop o O) (drop a A) (drop b B) hunks
      × (places o a b hunks ≡ seq)
      × AreMerged labels hunks
      × (out ≡ (flatten (λ h. h.lines) hunks, conflicts hunks))

  line_at-some : (o : ℕ) {line : Text} → get_elem? O o ≡ some line → line_at O o ≡ line ∷ []
  line_at-some o e = rw (e, line_at) refl

  line_at-end : (lines : List Text) → line_at lines (length lines) ≡ []
  line_at-end [] = refl
  line_at-end (line ∷ lines) = line_at-end lines

  merge_from-Merges :
      (o a b : ℕ) (seq : List (ℕ × (ℕ × ℕ)))
      → AreAnchors O A B o a b seq
      → Merges o a b seq
          (merge_from labels O A B o a b (seq ++ (length O, (length A, length B)) ∷ []))
  unfolding merge_from
  merge_from-Merges o a b [] h =
      let oh = slice o (length O) O in
      let ah = slice a (length A) A in
      let bh = slice b (length B) B in
      let no_more : (merge_hunk labels oh ah bh).1 + 0 ≡ (merge_hunk labels oh ah bh).1 =
        omega arith in
      (
        last (hunk_of oh ah bh),
        (take-length o O, take-length a A, take-length b B),
        refl,
        hunk_of-IsMerged oh ah bh,
        rw (line_at-end O, append-nil (merge_hunk labels oh ah bh).0, no_more) refl,
      )
  merge_from-Merges o a b ((p, (c, d)) ∷ seq) (ho, ha, hb, (line, eo, ea, eb), more) =
      let (hunks, sides, at, merged, out) = merge_from-Merges (suc p) (suc c) (suc d) seq more in
      let oh = slice o p O in
      let ah = slice a c A in
      let bh = slice b d B in
      (
        before (hunk_of oh ah bh) line hunks,
        (
          rw sides.0 (drop-split o p O ho eo),
          rw sides.1 (drop-split a c A ha ea),
          rw sides.2 (drop-split b d B hb eb),
        ),
        rw (length-slice o p O ho eo, length-slice a c A ha ea, length-slice b d B hb eb, at) refl,
        (hunk_of-IsMerged oh ah bh, merged),
        rw (line_at-some p eo, out) refl,
      )

  merge_lines-IsMerge :
      (result : MergeResult)
      → result.merged ≡ joined (merge_lines labels O A B).0
      → result.conflicts ≡ (merge_lines labels O A B).1
      → IsMerge labels O A B result
  unfolding merge_lines
  merge_lines-IsMerge result lines n =
      let ma = lcs_matches O A in
      let mb = lcs_matches O B in
      let la = lcs_matches-AreLongest O A in
      let lb = lcs_matches-AreLongest O B in
      let (hunks, sides, at, merged, out) = merge_from-Merges 0 0 0 (anchors 0 O ma mb) (
        anchors-AreAnchors O A B ma mb la.matches lb.matches 0 0 0 0 O (omega arith)
          (λ p c h e. omega arith) (λ p c h e. omega arith)) in
      record {
        current_matches = ma;
        next_matches = mb;
        current_longest = la;
        next_longest = lb;
        hunks = hunks;
        sides = sides;
        shared = λ o a b. rw at (anchors_iff O A ma mb o a b la.matches);
        merged = merged;
        lines = lines ∙ ap (λ (r : List Text × ℕ). joined r.0) out;
        counted = n ∙ ap (λ (r : List Text × ℕ). r.1) out;
      }

-- If no two of the three texts are equal, they fall into the same number of hunks. The lines between the
-- hunks are the lines of the base that are matched on both sides, in a longest common subsequence of the
-- base with the current text and in one with the next text. The result is each hunk merged by itself,
-- with these lines between: compared as joined text, a hunk whose current side is the base becomes its
-- next side; otherwise, one whose next side is the base or equals the current side becomes its current
-- side; and in any other, both sides stand between conflict markers, which is counted.
pub three_way_merge-IsMerge :
    (labels : Labels) (base current next : Text)
    → current ≢ next
    → base ≢ current
    → base ≢ next
    → IsMerge labels
        (split newline base)
        (split newline current)
        (split newline next)
        (three_way_merge labels base current next)
unfolding three_way_merge
three_way_merge-IsMerge labels base current next cn bc bn =
    let O = split newline base in
    let A = split newline current in
    let B = split newline next in
    let result : MergeResult = record {
      merged = joined (merge_lines labels O A B).0;
      conflicts = (merge_lines labels O A B).1;
    } in
    let merge : IsMerge labels O A B result = merge_lines-IsMerge labels O A B result refl refl in
    rw (differ current next cn, differ base current bc, differ base next bn, three_way_merge) merge
