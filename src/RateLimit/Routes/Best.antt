-- ===== src/RateLimit/Routes/Best.antt =====
-- `resolve` finds the entry that the documentation of the registry describes.
use podokit.Base.{
  All-map, ◌<◌, ◌≡◌, refl, sym, ap, ◌∙◌, ◌⊎◌, inl, inr, true, false, not, ◌||◌, Option, none, some,
  List, [], ◌∷◌, ◌++◌, append-nil, append_assoc, arith, ltb, ltb→lt, Bool-cases, length, drop, All,
  All-append, Text, same, nat_eq, text_eq,
}
use Prim.Native.Nat.{Ordering}
use podokit.Texts.{split}
use podokit.RateLimit.Routes.{
  Segment, Entry, Routes, Profile, is_literal, has_method, compare_literals, compare_specificity,
  wins, matches, consider, best_from, resolve,
}
use podokit.RateLimit.Routes.Order.{wins-total, wins_trans}

-- From the left, the first place where one has a literal and the other a parameter has the
-- literal in the first.
pub data MoreLiteral : List Segment → List Segment → Type 0 where
  here :
      (x y : Segment) (a b : List Segment)
      → is_literal x ≡ true
      → is_literal y ≡ false
      → MoreLiteral (x ∷ a) (y ∷ b)
  later :
      (x y : Segment) (a b : List Segment)
      → is_literal x ≡ is_literal y
      → MoreLiteral a b
      → MoreLiteral (x ∷ a) (y ∷ b)

-- Literals and parameters stand at the same places.
abbrev pub Alike : List Segment → List Segment → Type 0
Alike [] [] = Unit
Alike (x ∷ a) (y ∷ b) = (is_literal x ≡ is_literal y) × Alike a b
Alike _ _ = ⊥

-- `x` is more specific than `y`: more segments, or as many and an earlier literal, or alike and
-- only `x` with a method.
abbrev pub Beats : Entry → Entry → Type 0
Beats x y =
    (length y.segments < length x.segments)
    ⊎ ((length x.segments ≡ length y.segments)
        × (MoreLiteral x.segments y.segments
            ⊎ (Alike x.segments y.segments × (has_method x ≡ true) × (has_method y ≡ false))))

compare_literals_lt : (a b : List Segment) → compare_literals a b ≡ Ordering.lt → MoreLiteral a b
unfolding compare_literals
compare_literals_lt [] b h = absurd (ground arith)
compare_literals_lt (x ∷ a) [] h = absurd (ground arith)
compare_literals_lt (none ∷ a) (none ∷ b) h = later none none a b refl (compare_literals_lt a b h)
compare_literals_lt (none ∷ a) (some t ∷ b) h = absurd (ground arith)
compare_literals_lt (some s ∷ a) (none ∷ b) h = here (some s) none a b refl refl
compare_literals_lt (some s ∷ a) (some t ∷ b) h =
    later (some s) (some t) a b refl (compare_literals_lt a b h)

compare_literals_gt : (a b : List Segment) → compare_literals a b ≡ Ordering.gt → MoreLiteral b a
unfolding compare_literals
compare_literals_gt [] b h = absurd (ground arith)
compare_literals_gt (x ∷ a) [] h = absurd (ground arith)
compare_literals_gt (none ∷ a) (none ∷ b) h = later none none b a refl (compare_literals_gt a b h)
compare_literals_gt (none ∷ a) (some t ∷ b) h = here (some t) none b a refl refl
compare_literals_gt (some s ∷ a) (none ∷ b) h = absurd (ground arith)
compare_literals_gt (some s ∷ a) (some t ∷ b) h =
    later (some t) (some s) b a refl (compare_literals_gt a b h)

compare_literals_eq :
    (a b : List Segment) → length a ≡ length b → compare_literals a b ≡ Ordering.eq → Alike b a
unfolding compare_literals
compare_literals_eq [] [] n h = tt
compare_literals_eq [] (y ∷ b) n h = absurd (omega arith)
compare_literals_eq (x ∷ a) [] n h = absurd (omega arith)
compare_literals_eq (none ∷ a) (none ∷ b) n h = (refl, compare_literals_eq a b (omega arith) h)
compare_literals_eq (none ∷ a) (some t ∷ b) n h = absurd (ground arith)
compare_literals_eq (some s ∷ a) (none ∷ b) n h = absurd (ground arith)
compare_literals_eq (some s ∷ a) (some t ∷ b) n h = (refl, compare_literals_eq a b (omega arith) h)

MoreLiteral-compare :
    {a b : List Segment}
    → MoreLiteral a b
    → (compare_literals a b ≡ Ordering.lt) × (compare_literals b a ≡ Ordering.gt)
unfolding compare_literals
MoreLiteral-compare (here x y a b p q) = ground arith
MoreLiteral-compare (later x y a b e m) = let ih = MoreLiteral-compare m in ground arith

Alike-compare : (a b : List Segment) → Alike a b → (compare_literals b a ≡ Ordering.eq)
unfolding compare_literals
Alike-compare [] [] h = refl
Alike-compare [] (y ∷ b) h = absurd h
Alike-compare (x ∷ a) [] h = absurd h
Alike-compare (x ∷ a) (y ∷ b) h = let ih = Alike-compare a b h.1 in ground arith

Ordering-cases : (o : Ordering) → (o ≡ Ordering.lt) ⊎ ((o ≡ Ordering.eq) ⊎ (o ≡ Ordering.gt))
Ordering-cases Ordering.lt = inl refl
Ordering-cases Ordering.eq = inr (inl refl)
Ordering-cases Ordering.gt = inr (inr refl)

-- `wins` by the three orders of its parts.
wins_shorter : (x y : Entry) → length x.segments < length y.segments → wins x y ≡ false
unfolding wins compare_specificity
wins_shorter x y h = ground arith

wins_longer : (x y : Entry) → length y.segments < length x.segments → wins x y ≡ true
unfolding wins compare_specificity
wins_longer x y h = ground arith

wins_level :
    (x y : Entry)
    → length x.segments ≡ length y.segments
    → wins x y ≡ elim (compare_literals x.segments y.segments) [
      | Ordering.lt ↦ true
      | Ordering.eq ↦ has_method x || not (has_method y)
      | Ordering.gt ↦ false
    ]
unfolding wins compare_specificity
wins_level x y h = ground arith

-- The entry that keeps its place against another one beats it.
wins_level_false :
    (x y : Entry) → length x.segments ≡ length y.segments → wins x y ≡ false → Beats y x
wins_level_false x y same h = elim (Ordering-cases (compare_literals x.segments y.segments)) [
  | inl e ↦ absurd (ground (arith, wins_level x y same))
  | inr (inl e) ↦ inr (
    sym same,
    inr (
      compare_literals_eq x.segments y.segments same e,
      ground (arith, wins_level x y same),
      ground (arith, wins_level x y same),
    ),
  )
  | inr (inr e) ↦ inr (sym same, inl (compare_literals_gt x.segments y.segments e))
]

wins-false : (x y : Entry) → wins x y ≡ false → Beats y x
wins-false x y h = elim (Bool-cases (ltb (length x.segments) (length y.segments))) [
  | inl shorter ↦ inl (ltb→lt _ _ shorter)
  | inr e ↦ elim (Bool-cases (ltb (length y.segments) (length x.segments))) [
    | inl longer ↦ absurd (ground (arith, wins_longer x y (ltb→lt _ _ longer)))
    | inr e' ↦ wins_level_false x y (ground arith) h
  ]
]

-- The entry that takes the place is not beaten.
wins-not-Beats : (x y : Entry) → wins x y ≡ true → ¬ Beats y x
wins-not-Beats x y h (inl longer) = ground (arith, wins_shorter x y longer)
wins-not-Beats x y h (inr (same, inl literal)) =
    ground (arith, wins_level x y (sym same), (MoreLiteral-compare literal).1)
wins-not-Beats x y h (inr (same, inr (alike, with_method, without))) =
    ground (arith, wins_level x y (sym same), Alike-compare y.segments x.segments alike)

-- Where the best entry stands: no matching entry before it beats it, and it beats every matching
-- entry after it, so of entries that are level it is the last.
pub record IsBest (method : Text) (path : List Text) (entries : List Entry) (best : Entry)
    : Type 0 where
  pub before : List Entry
  pub after : List Entry
  pub place : entries ≡ before ++ best ∷ after
  pub matching : matches method path best ≡ true
  pub unbeaten : All (λ x. matches method path x ≡ true → ¬ Beats x best) before
  pub beating : All (λ x. matches method path x ≡ true → Beats best x) after

module _ (method : Text) (path : List Text) where
  -- The same in terms of `wins`, with the entries read so far.
  record Leads (seen : List Entry) (best : Entry) : Type 0 where
    before : List Entry
    after : List Entry
    place : seen ≡ before ++ best ∷ after
    matching : matches method path best ≡ true
    upheld : All (λ x. matches method path x ≡ true → wins best x ≡ true) before
    refused : All (λ x. matches method path x ≡ true → wins x best ≡ false) after

  abbrev Tracks : List Entry → Option Entry → Type 0
  Tracks seen none = All (λ x. matches method path x ≡ false) seen
  Tracks seen (some best) = Leads seen best

  -- An entry that does not take the place.
  Leads-keep :
      (seen : List Entry) (best x : Entry)
      → Leads seen best
      → (matches method path x ≡ true → wins x best ≡ false)
      → Leads (seen ++ x ∷ []) best
  Leads-keep seen best x h worse = record {
    before = h.before;
    after = h.after ++ x ∷ [];
    place = ap (λ t. t ++ x ∷ []) h.place ∙ append_assoc h.before (best ∷ h.after) (x ∷ []);
    matching = h.matching;
    upheld = h.upheld;
    refused = All-append _ h.after (x ∷ []) h.refused (worse, tt);
  }

  Leads-take :
      (seen : List Entry) (x : Entry)
      → matches method path x ≡ true
      → All (λ y. matches method path y ≡ true → wins x y ≡ true) seen
      → Leads (seen ++ x ∷ []) x
  Leads-take seen x matching h = record {
    before = seen;
    after = [];
    place = refl;
    matching = matching;
    upheld = h;
    refused = tt;
  }

  -- The winner against the best so far wins against all that were read.
  wins-All :
      (seen : List Entry) (best x : Entry)
      → Leads seen best
      → wins x best ≡ true
      → All (λ y. matches method path y ≡ true → wins x y ≡ true) seen
  wins-All seen best x h w = rw h.place (
      All-append _ h.before (best ∷ h.after)
        (All-map h.before (λ y g m. wins_trans x best y w (g m)) h.upheld)
        (
          (λ m. w),
          All-map h.after (λ y g m. wins_trans x best y w (ground (arith, wins-total y best, g m)))
              h.refused,
        ))

  consider-Tracks :
      (seen : List Entry) (best : Option Entry) (x : Entry)
      → Tracks seen best
      → Tracks (seen ++ x ∷ []) (consider method path best x)
  unfolding consider
  consider-Tracks seen none x h = elim (Bool-cases (matches method path x)) [
    | inl m ↦ rw m (Leads-take seen x m (All-map seen (λ y e e'. absurd (ground arith)) h))
    | inr m ↦ rw m (All-append _ seen (x ∷ []) h (m, tt))
  ]
  consider-Tracks seen (some best) x h = elim (Bool-cases (matches method path x)) [
    | inl m ↦ elim (Bool-cases (wins x best)) [
      | inl w ↦ rw (m, w) (Leads-take seen x m (wins-All seen best x h w))
      | inr w ↦ rw (m, w) (Leads-keep seen best x h (λ _. w))
    ]
    | inr m ↦ rw m (Leads-keep seen best x h (λ e. absurd (ground arith)))
  ]

  best_from-Tracks :
      (seen entries : List Entry) (best : Option Entry)
      → Tracks seen best
      → Tracks (seen ++ entries) (best_from method path best entries)
  unfolding best_from
  best_from-Tracks seen [] best h = rw (append-nil seen) h
  best_from-Tracks seen (x ∷ entries) best h = rw (sym (append_assoc seen (x ∷ []) entries)) (
      best_from-Tracks (seen ++ x ∷ []) entries (consider method path best x)
        (consider-Tracks seen best x h))

  Leads-IsBest :
      (entries : List Entry) (best : Entry) → Leads entries best → IsBest method path entries best
  Leads-IsBest entries best h = record {
    before = h.before;
    after = h.after;
    place = h.place;
    matching = h.matching;
    unbeaten = All-map h.before (λ x g m. wins-not-Beats best x (g m)) h.upheld;
    beating = All-map h.after (λ x g m. wins-false x best (g m)) h.refused;
  }

-- What `resolve` finds: nothing if no entry matches, and else the profile of the best entry.
abbrev pub Found : Text → List Text → List Entry → Option Profile → Type 0
Found method path entries none = All (λ x. matches method path x ≡ false) entries
Found method path entries (some profile) =
    (best : Entry) × IsBest method path entries best × (best.profile ≡ profile)

-- Whatever is registered and requested, `resolve` returns no profile only if no entry matches, and
-- else that of the entry the documentation describes: no matching entry is more specific, and of
-- the matching entries that are as specific it is the one registered last.
pub resolve-Found :
    (routes : Routes) (method path : Text)
    → Found method (drop 1 (split b'/' path)) routes.entries (resolve routes method path)
unfolding resolve
resolve-Found routes method path =
    go (best_from method parts none routes.entries)
      (best_from-Tracks method parts [] routes.entries none tt)
  where
    parts : List Text
    parts = drop 1 (split b'/' path)

    go :
        (best : Option Entry)
        → Tracks method parts routes.entries best
        → Found method parts routes.entries (elim best [ none ↦ none | some e ↦ some e.profile ])
    go none h = h
    go (some best) h = (best, Leads-IsBest method parts routes.entries best h, refl)
