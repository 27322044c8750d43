-- ===== src/Merge/Markers/RoundTrip.antt =====
-- What `insertAtMarker` adds, `removeAtMarker` takes away.
use podokit.Base.{
  map, ℕ, ◌≡◌, refl, sym, ap, ◌∙◌, ◌⊎◌, inl, inr, true, false, some, List, [], ◌∷◌, ◌++◌, arith,
  Bool-cases, Option-cases, All, ok, Text, same, same_iff, same_refl, nat_eq, text_eq,
}
use mathlib.Core.List.{reverse, reverse-append, reverse-reverse}
use mathlib.Core.Path.{subst}
use podokit.Texts.{split, join, newline, includes, is_space, join-split}
use podokit.Texts.Lines.{
  lacks, split_of_lacks, split-lacks, split-join, includes-split, includes-append,
}
use podokit.Merge.Markers.{
  indent_of, trim_start, trim, insert_line, insert_at_marker, starts_block, remove_block, joined_or,
  remove_at_marker,
}

trim_start-suffix : (text : Text) → (before : Text) × (text ≡ before ++ trim_start text)
unfolding trim_start
trim_start-suffix [] = ([], refl)
trim_start-suffix (c ∷ cs) =
    let (before, e) = trim_start-suffix cs in
    elim (Bool-cases (is_space c)) [
      | inl q ↦ (c ∷ before, rw q (ap (λ t. c ∷ t) e))
      | inr q ↦ ([], rw q refl)
    ]

-- A trimmed text is a middle part of the text.
trim-middle : (text : Text) → (before after : Text) × (text ≡ before ++ (trim text ++ after))
unfolding trim
trim-middle text =
    let (before, e) = trim_start-suffix text in
    let (behind, f) = trim_start-suffix (reverse (trim_start text)) in
    (
      before,
      reverse behind,
      e
          ∙ ap (λ t. before ++ t)
              (sym (reverse-reverse (trim_start text))
                ∙ (ap reverse f ∙ reverse-append behind (trim_start (reverse (trim_start text))))),
    )

trim_start-indent : (line text : Text) → trim_start (indent_of line ++ text) ≡ trim_start text
unfolding trim_start indent_of
trim_start-indent [] text = refl
trim_start-indent (c ∷ cs) text = elim (Bool-cases (is_space c)) [
  | inl q ↦ rw (q, indent_of) (rw (q, trim_start) (trim_start-indent cs text))
  | inr q ↦ rw (q, indent_of) refl
]

trim-indent : (line text : Text) → trim (indent_of line ++ text) ≡ trim text
unfolding trim
trim-indent line text = rw (trim_start-indent line text) refl

indent_of-lacks :
    (sep : ℕ) (line : Text) → lacks sep line ≡ true → lacks sep (indent_of line) ≡ true
unfolding indent_of
indent_of-lacks sep [] h = refl
indent_of-lacks sep (c ∷ cs) h = ground (arith, h, indent_of-lacks sep cs)

lacks-append :
    (sep : ℕ) (s t : Text) → lacks sep s ≡ true → lacks sep t ≡ true → lacks sep (s ++ t) ≡ true
lacks-append sep [] t h k = k
lacks-append sep (c ∷ s) t h k = ground (arith, h, lacks-append sep s t)

-- A line that does not include the text is another one, also trimmed.
other_line : (line text : Text) → includes line text ≡ false → same (trim line) text ≡ false
other_line line text h = elim (Bool-cases (same (trim line) text)) [
  | inl e ↦
      let (before, after, shape) = trim-middle line in
      let there = includes-append before (trim line) after in
      let found : includes line text ≡ true =
        subst (λ t. includes line t ≡ true) ((same_iff (trim line) text).0 e)
          (subst (λ l. includes l (trim line) ≡ true) (sym shape) there) in
      absurd (ground (arith, h, found))
  | inr e ↦ e
]

-- The text goes before the first line, or further down.
insert_line-cases :
    (marker text line : Text) (lines lines' : List Text)
    → insert_line marker text (line ∷ lines) ≡ some lines'
    → (lines' ≡ (indent_of line ++ text) ∷ line ∷ lines)
      ⊎ ((rest : List Text) × (insert_line marker text lines ≡ some rest) × (lines' ≡ line ∷ rest))
unfolding insert_line
insert_line-cases marker text line lines lines' e = elim (Bool-cases (includes line marker)) [
  | inl q ↦ inl (ground (arith, rw q at e))
  | inr q ↦ elim (Option-cases (insert_line marker text lines)) [
    | inl f ↦ absurd (ground (arith, rw (q, f) at e))
    | inr (rest, f) ↦ inr (rest, f, ground (arith, rw (q, f) at e))
  ]
]

module _ (marker text : Text) (trimmed : trim text ≡ text) where
  insert_line-lacks :
      (sep : ℕ) (lines lines' : List Text)
      → lacks sep text ≡ true
      → All (λ line. lacks sep line ≡ true) lines
      → insert_line marker text lines ≡ some lines'
      → (first : Text) × (more : List Text) × (lines' ≡ first ∷ more)
        × All (λ line. lacks sep line ≡ true) (first ∷ more)
  insert_line-lacks sep [] lines' h k e = absurd (unfold insert_line in ground (arith, e))
  insert_line-lacks sep (line ∷ lines) lines' h k e =
      elim (insert_line-cases marker text line lines lines' e) [
        | inl shape ↦ (
          _,
          _,
          shape,
          (lacks-append sep (indent_of line) text (indent_of-lacks sep line k.0) h, k),
        )
        | inr (rest, f, shape) ↦
            let (first, more, s, below) = insert_line-lacks sep lines rest h k.1 f in
            (line, rest, shape, (k.0, subst (All (λ l. lacks sep l ≡ true)) (sym s) below))
      ]

  remove_block-insert_line :
      (lines lines' : List Text)
      → All (λ line. includes line text ≡ false) lines
      → insert_line marker text lines ≡ some lines'
      → remove_block (text ∷ []) lines' ≡ some lines
  unfolding remove_block starts_block
  remove_block-insert_line [] lines' h e = absurd (unfold insert_line in ground (arith, e))
  remove_block-insert_line (line ∷ lines) lines' h e =
      elim (insert_line-cases marker text line lines lines' e) [
        | inl shape ↦ rw (shape, remove_block, starts_block, trim-indent, trimmed, same_refl) refl
        | inr (rest, f, shape) ↦
            rw
              (
                shape,
                remove_block,
                starts_block,
                other_line line text h.0,
                remove_block-insert_line lines rest h.1 f,
              )
              refl
      ]

remove_at_marker-found :
    (content text : Text) {lines : List Text}
    → remove_block (map trim (split newline (trim text))) (split newline content) ≡ some lines
    → remove_at_marker content text ≡ join (newline ∷ []) lines
unfolding remove_at_marker
remove_at_marker-found content text e = ap (joined_or content) e

-- A trimmed text of one line that the file does not include is taken away again as it was added: the
-- file is what it was before.
pub remove_at_marker-insert_at_marker :
    (content marker text : Text) {content' : Text}
    → trim text ≡ text
    → lacks newline text ≡ true
    → includes content text ≡ false
    → insert_at_marker content marker text ≡ ok content'
    → remove_at_marker content' text ≡ content
unfolding insert_at_marker remove_at_marker
remove_at_marker-insert_at_marker content marker text {content'} trimmed one absent e =
    elim (Option-cases (insert_line marker text (split newline content))) [
      | inl f ↦ absurd (ground (arith, rw (absent, f) at e))
      | inr (lines', f) ↦
          let (first, more, shape, lack) =
            insert_line-lacks marker text trimmed newline (split newline content) lines' one
              (split-lacks newline content) f in
          let written : join (newline ∷ []) lines' ≡ content' =
            ground (arith, rw (absent, f) at e) in
          let back : split newline content' ≡ lines' =
            subst (λ t. split newline t ≡ lines') written
              (subst (λ ls. split newline (join (newline ∷ []) ls) ≡ ls) (sym shape)
                (split-join newline first more lack)) in
          let gone =
            remove_block-insert_line marker text trimmed (split newline content) lines'
              (includes-split newline content text absent) f in
          let needle : map trim (split newline (trim text)) ≡ text ∷ [] =
            ap (λ t. map trim (split newline t)) trimmed
            ∙ (ap (map trim) (split_of_lacks newline text one) ∙ ap (λ t. t ∷ []) trimmed) in
          remove_at_marker-found content' text (
            ap (λ n. remove_block n (split newline content')) needle
            ∙ (ap (remove_block (text ∷ [])) back ∙ gone))
          ∙ join-split newline content
    ]
