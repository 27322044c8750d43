-- ===== src/Texts/Lines.antt =====
-- The lines of a text, and the texts that it includes.
use podokit.Base.{
  ℕ, ◌≡◌, refl, ap, ◌∙◌, inl, inr, Bool, true, false, not, List, [], ◌∷◌, ◌++◌, arith, ◌==◌, ==_iff,
  Bool-cases, all, All, Text, nat_eq, text_eq,
}
use podokit.Texts.{split, join, starts_with, includes, split_cons}

-- The text has no such unit.
abbrev pub lacks : ℕ → Text → Bool
lacks sep text = all (λ c. not (c == sep)) text

pub split-lacks : (sep : ℕ) (text : Text) → All (λ part. lacks sep part ≡ true) (split sep text)
unfolding split
split-lacks sep [] = (refl, tt)
split-lacks sep (c ∷ cs) =
    let (part, parts, shape) = split_cons sep cs in
    let below = split-lacks sep cs in
    let ih = rw shape at below in
    elim (Bool-cases (c == sep)) [
      | inl e ↦ rw (e, shape) (refl, ih)
      | inr e ↦ rw (e, shape) (ground (arith, ih.0, e), ih.1)
    ]

pub split_of_lacks : (sep : ℕ) (text : Text) → lacks sep text ≡ true → split sep text ≡ text ∷ []
unfolding split
split_of_lacks sep [] h = refl
split_of_lacks sep (c ∷ cs) h = ground (arith, split_of_lacks sep cs, h)

split-append :
    (sep : ℕ) (part text : Text)
    → lacks sep part ≡ true
    → split sep (part ++ sep ∷ text) ≡ part ∷ split sep text
unfolding split
split-append sep [] text h = ground (arith, ==_iff sep sep)
split-append sep (c ∷ cs) text h = ground (arith, split-append sep cs text, h)

-- Parts without the separator are what their joined text is split into.
pub split-join :
    (sep : ℕ) (part : Text) (parts : List Text)
    → All (λ p. lacks sep p ≡ true) (part ∷ parts)
    → split sep (join (sep ∷ []) (part ∷ parts)) ≡ part ∷ parts
unfolding join
split-join sep part [] h = split_of_lacks sep part h.0
split-join sep part (next ∷ parts) h =
    split-append sep part (join (sep ∷ []) (next ∷ parts)) h.0
    ∙ ap (λ t. part ∷ t) (split-join sep next parts h.1)

-- What the first part begins with, the text begins with.
starts_with-split :
    (sep : ℕ) (text part t : Text) (parts : List Text)
    → split sep text ≡ part ∷ parts
    → starts_with part t ≡ true
    → starts_with text t ≡ true
unfolding split starts_with
starts_with-split sep text part [] parts e h = refl
starts_with-split sep [] part (p ∷ ps) parts e h = absurd (ground (arith, e, h))
starts_with-split sep (c ∷ cs) part (p ∷ ps) parts e h =
    let (first, more, shape) = split_cons sep cs in
    elim (Bool-cases (c == sep)) [
      | inl q ↦ absurd (ground (arith, rw q at e, h))
      | inr q ↦ ground (arith, rw (q, shape) at e, h, starts_with-split sep cs first ps more shape)
    ]

includes-nil : (text t : Text) → includes text t ≡ false → includes [] t ≡ false
unfolding includes starts_with
includes-nil [] [] h = h
includes-nil (c ∷ cs) [] h = absurd (ground arith)
includes-nil text (p ∷ ps) h = refl

-- What a text does not include, none of its parts does.
pub includes-split :
    (sep : ℕ) (text t : Text)
    → includes text t ≡ false
    → All (λ part. includes part t ≡ false) (split sep text)
unfolding split includes
includes-split sep [] t h = (h, tt)
includes-split sep (c ∷ cs) t h =
    let (first, more, shape) = split_cons sep cs in
    let below = includes-split sep cs t (ground (arith, h)) in
    let ih = rw shape at below in
    elim (Bool-cases (c == sep)) [
      | inl q ↦ rw (q, shape) (includes-nil (c ∷ cs) t h, ih)
      | inr q ↦
          rw (q, shape)
            (ground (arith, h, ih.0, starts_with-split sep (c ∷ cs) (c ∷ first) t more), ih.1)
    ]

pub starts_with-append : (t more : Text) → starts_with (t ++ more) t ≡ true
unfolding starts_with
starts_with-append [] more = refl
starts_with-append (c ∷ t) more = ground (arith, starts_with-append t more, ==_iff c c)

-- A text includes each of its middle parts.
pub includes-append : (before t after : Text) → includes (before ++ (t ++ after)) t ≡ true
unfolding includes
includes-append [] [] [] = refl
includes-append [] [] (c ∷ after) = refl
includes-append [] (c ∷ t) after = ground (arith, starts_with-append (c ∷ t) after)
includes-append (b ∷ before) t after = ground (arith, includes-append before t after)
