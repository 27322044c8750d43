-- ===== src/Services/Access.antt =====
-- AccessPolicy, RequestGuardRegistry, OpenApiRegistry and ResolvedSessions. What `toUpperCase` does to a method is the
-- parameter `upper`. The pathname of a URL has no line breaks, which the pattern's `.*` would not match.
use podokit.Base.{
  reject_if, ◌≡◌, refl, ap, ◌∙◌, inl, inr, Bool, true, false, not, ◌&&◌, ◌||◌, Option, none, some,
  List, [], ◌∷◌, ◌++◌, map, arith, if◌then◌else◌, Bool-cases, Option-cases, codes, All, Result, ok,
  ◌>>◌, Text, same, nat_eq, text_eq,
}
use mathlib.Core.Option
use podokit.Map
use podokit.Texts.{split, starts_with}
use mathlib.Core.List.{reverse, reverse-append}

pub data Level : Type 0 where
  everyone session api_key : Level

pub data Segment : Type 0 where
  parameter : Segment
  literal : Text → Segment

-- The regular expression of a pattern: segments between slashes, with anything below where it ends
-- in a wildcard.
pub record Matcher : Type 0 where
  pub segments : List Segment
  pub wildcard : Bool

pub record Rule : Type 0 where
  pub method : Text
  pub matcher : Matcher
  pub level : Level

-- The pattern without its final `/*`, if it has one.
unfoldable pub before_wildcard : Text → Option Text
before_wildcard [] = none
before_wildcard (c ∷ cs) =
    let rest = before_wildcard cs in
    if same (c ∷ cs) (codes "/*") then some [] else Option.map (λ t. c ∷ t) rest

abbrev pub segment_of : Text → Segment
segment_of segment = if starts_with segment (codes ":") then parameter else literal segment

unfoldable pub route_matcher : Text → Matcher
unfolding before_wildcard
route_matcher pattern = elim (before_wildcard pattern) [
  | none ↦ record { segments = map segment_of (split b'/' pattern); wildcard = false }
  | some route ↦ record { segments = map segment_of (split b'/' route); wildcard = true }
]

abbrev pub segment_matches : Segment → Text → Bool
segment_matches parameter part = not (same part [])
segment_matches (literal text) part = same text part

unfoldable pub segments_match : Bool → List Segment → List Text → Bool
segments_match wildcard [] [] = true
segments_match wildcard [] (part ∷ parts) = wildcard
segments_match wildcard (segment ∷ segments) [] = false
segments_match wildcard (segment ∷ segments) (part ∷ parts) =
    segment_matches segment part && segments_match wildcard segments parts

-- `matcher.test(path)`
unfoldable pub test : Matcher → Text → Bool
unfolding segments_match
test matcher path = segments_match matcher.wildcard matcher.segments (split b'/' path)

abbrev pub level_of : Option Rule → Level
level_of none = session
level_of (some rule) = rule.level

module _ (upper : Text → Text) where
  unfoldable pub register : List Rule → Text → Text → Level → List Rule
  unfolding route_matcher
  register rules method pattern level =
      rules ++ record { method = upper method; matcher = route_matcher pattern; level = level } ∷ []

  unfoldable pub applies : Text → Text → Rule → Bool
  unfolding test
  applies method path rule =
      (same rule.method (codes "*")
        || same rule.method (upper method)
        || (same (upper method) (codes "HEAD") && same rule.method (codes "GET")))
      && test rule.matcher path

  unfoldable pub find_rule : Text → Text → List Rule → Option Rule
  unfolding applies
  find_rule method path [] = none
  find_rule method path (rule ∷ rules) =
      let rest = find_rule method path rules in if applies method path rule then some rule else rest

  unfoldable pub resolve : List Rule → Text → Text → Level
  unfolding find_rule
  resolve rules method path = level_of (find_rule method path (reverse rules))

  -- The last rule that applies, or none where none does.
  abbrev pub Latest : List Rule → Text → Text → Option Rule → Type 0
  Latest rules method path none = All (λ rule. applies method path rule ≡ false) rules
  Latest rules method path (some rule) =
      (before after : List Rule) × (rules ≡ before ++ rule ∷ after)
      × (applies method path rule ≡ true)
      × All (λ r. applies method path r ≡ false) after

  find_rule-append :
      (method path : Text) (rules more : List Rule)
      → find_rule method path (rules ++ more) ≡ elim (find_rule method path rules) [
        | some rule ↦ some rule
        | none ↦ find_rule method path more
      ]
  unfolding find_rule
  find_rule-append method path [] more = refl
  find_rule-append method path (rule ∷ rules) more =
      ground (arith, find_rule-append method path rules more)

  find_rule-Latest :
      (method path : Text) (rules : List Rule)
      → Latest rules method path (find_rule method path (reverse rules))
  unfolding find_rule
  find_rule-Latest method path [] = unfold find_rule in tt
  find_rule-Latest method path (rule ∷ rules) =
      let ih = find_rule-Latest method path rules in
      let last : find_rule method path (reverse (rule ∷ rules)) ≡ _ =
        ap (find_rule method path) (reverse-append (rule ∷ []) rules)
        ∙ find_rule-append method path (reverse rules) (rule ∷ []) in
      elim (Option-cases (find_rule method path (reverse rules))) [
        | inl e ↦
            let none_later : All (λ r. applies method path r ≡ false) rules = rw e at ih in
            elim (Bool-cases (applies method path rule)) [
              | inl q ↦ rw (last, e, find_rule, q) ([], rules, refl, q, none_later)
              | inr q ↦ rw (last, e, find_rule, q) (q, none_later)
            ]
        | inr (r, e) ↦
            let found : Latest rules method path (some r) = rw e at ih in
            rw (last, e) (rule ∷ found.0, found.1, ap (λ t. rule ∷ t) found.2, found.3, found.4)
      ]

  -- A request has the level of the last rule registered that applies to it, and needs a session where
  -- no rule does.
  pub resolve-Latest :
      (rules : List Rule) (method path : Text)
      → (found : Option Rule) × Latest rules method path found
        × (resolve rules method path ≡ level_of found)
  unfolding resolve
  resolve-Latest rules method path =
      (find_rule method path (reverse rules), find_rule-Latest method path rules, refl)

-- What a request is let through by: every guard in the order of their registration, up to the first
-- one that throws.
module _ {E C : Type 0} where
  unfoldable pub run_guards : List (C → Result E (Unit {0})) → C → Result E (Unit {0})
  run_guards [] context = ok tt
  run_guards (guard ∷ guards) context =
      let rest = run_guards guards context in guard context >> rest

-- OpenApiRegistry: a contributor for each name, in the order of their registration.
module _ {C : Type 0} where
  unfoldable pub register_contributor : List (Text × C) → Text → C → Result Text (List (Text × C))
  register_contributor contributors name contributor = do
    reject_if (Map.has name contributors) name
    ok (Map.put name contributor contributors)

module _ {C D : Type 0} where
  unfoldable pub contributions : (C → D) → List (Text × C) → List D
  contributions contribute contributors = map (λ entry. contribute entry.1) contributors

-- ResolvedSessions, where `report` gives the session to each listener in turn.
module _ {S R : Type 0} where
  unfoldable pub listen : List (S → R) → (S → R) → List (S → R)
  listen listeners listener = listeners ++ listener ∷ []

  unfoldable pub report : List (S → R) → S → List R
  report listeners resolved = map (λ listener. listener resolved) listeners
