-- ===== src/RateLimit/Routes.antt =====
-- rate-limit.routes.ts. `toUpperCase` is a parameter of `register`: it is the identity on the
-- upper-case ASCII letters, and no theorem needs more of it. A compared number is its sign.
pub mod Order
pub mod Best
pub mod Budgets
use podokit.Base.{
  ℕ, zero, suc, ◌+◌, ◌-◌, ◌*◌, ◌/◌, ◌%◌, ◌^◌, ◌≤◌, ◌<◌, min, max, ◌≡◌, refl, sym, ap, ◌∙◌, ◌≡⟨◌⟩◌,
  ◌∎, ◌≢◌, ◌↔◌, ◌⊎◌, inl, inr, Bool, true, false, not, ◌&&◌, ◌||◌, Option, none, some, List, [],
  ◌∷◌, ◌++◌, map, append-nil, append_assoc, arith, ltb, leb, ◌==◌, if◌then◌else◌, ltb→lt, lt→ltb,
  leb→le, le→leb, ==_iff, tests, Bool-cases, Option-cases, codes, length, get_elem?, take, drop,
  keep_if, any, all, length-append, take-append-drop, length-drop, length-take, All, All-append,
  Result, ok, err, Result-cases, ◌>>=◌, ◌>>◌, reject_if, Eq, list_beq, list_beq_iff, Text, same,
  same_iff, same_refl, nat_eq, text_eq,
}
use Prim.Native.Nat.{compare, Ordering}
use podokit.Map
use podokit.Numbers.{Number, whole_from}
use podokit.Texts.{
  split, starts_with, includes, ends_with, drop_last, is_space, is_upper, is_letter, is_digit,
}

pub data Error : Type 0 where
  bad_method not_absolute wildcard dot_segment bad_parameter : Error
  bad_name bad_limit bad_ttl conflicting_budget : Error

-- `Required<RateLimitProfile>`
pub record Budget : Type 0 where
  pub name : Text
  pub limit : ℕ
  pub ttl_seconds : ℕ

pub data Profile : Type 0 where
  exempt : Profile
  budget : Budget → Profile

-- A profile as it is registered, before its check.
pub record BudgetRequest : Type 0 where
  pub name : Text
  pub limit : Number
  pub ttl_seconds : Option Number

pub data ProfileRequest : Type 0 where
  exempt : ProfileRequest
  budget : BudgetRequest → ProfileRequest

pub record Route : Type 0 where
  pub method : Option Text
  pub path_prefix : Text
  pub profile : ProfileRequest

-- A literal segment, or `none` for a parameter.
abbrev pub Segment : Type 0
Segment = Option Text

pub record Entry : Type 0 where
  pub method : Option Text
  pub segments : List Segment
  pub profile : Profile

pub record Routes : Type 0 where
  pub entries : List Entry
  pub budgets : List (Text × Budget)
  pub default_ttl_seconds : ℕ

-- `new RateLimitRoutes(defaultTtlSeconds)`
unfoldable pub create : ℕ → Routes
create default_ttl_seconds = record {
  entries = [];
  budgets = [];
  default_ttl_seconds = default_ttl_seconds;
}

-- METHOD
is_method : Text → Bool
is_method text = not (same text []) && all is_upper text

-- PROFILE_NAME
is_profile_name : Text → Bool
is_profile_name text =
    leb 1 (length text)
    && leb (length text) 64
    && all (λ c. is_letter c || is_digit c || c == b'_' || c == b'-') text

-- PARAMETER
is_parameter : Text → Bool
is_parameter (colon ∷ (c ∷ cs)) =
    colon == b':'
    && (is_letter c || c == b'_')
    && all (λ d. is_letter d || is_digit d || d == b'_') cs
is_parameter _ = false

parse_segment : Text → Result Error Segment
unfolding is_parameter
parse_segment segment =
    if same segment (codes ".") || same segment (codes "..")
    then err dot_segment
    else if not (starts_with segment (codes ":"))
    then ok (some segment)
    else if not (is_parameter segment)
    then err bad_parameter
    else ok none

parse_segments : List Text → Result Error (List Segment)
parse_segments [] = ok []
parse_segments (part ∷ parts) = do
  segment ← parse_segment part
  segments ← parse_segments parts
  ok (segment ∷ segments)

-- `/[?#\s]/`
abbrev is_outside_path : ℕ → Bool
is_outside_path c = c == b'?' || c == b'#' || is_space c

unfoldable pub parse_prefix : Text → Result Error (List Segment)
unfolding parse_segments parse_segment
parse_prefix prefix = do
  reject_if
      (not (starts_with prefix (codes "/"))
        || any is_outside_path prefix
        || includes prefix (codes "//"))
      not_absolute
  reject_if (includes prefix (codes "*")) wildcard
  let base = if ltb 1 (length prefix) && ends_with b'/' prefix then drop_last prefix else prefix
  if same base (codes "/") then ok [] else parse_segments (split b'/' (drop 1 base))

-- A parameter matches one non-empty segment.
abbrev segment_covers : Segment → Text → Bool
segment_covers none part = not (same part [])
segment_covers (some text) part = same text part

unfoldable pub covers : List Segment → List Text → Bool
covers [] path = true
covers (segment ∷ segments) [] = false
covers (segment ∷ segments) (part ∷ path) = segment_covers segment part && covers segments path

abbrev pub is_literal : Segment → Bool
is_literal none = false
is_literal (some text) = true

-- The loop of `compareSpecificity`, for prefixes of one length.
unfoldable pub compare_literals : List Segment → List Segment → Ordering
compare_literals [] b = Ordering.eq
compare_literals (x ∷ a) [] = Ordering.eq
compare_literals (x ∷ a) (y ∷ b) =
    let later = compare_literals a b in
    if is_literal x
    then (if is_literal y then later else Ordering.lt)
    else (if is_literal y then Ordering.gt else later)

-- `lt` where the first is more specific.
unfoldable pub compare_specificity : List Segment → List Segment → Ordering
compare_specificity a b = elim (compare (length b) (length a)) [
  | Ordering.lt ↦ Ordering.lt
  | Ordering.eq ↦ compare_literals a b
  | Ordering.gt ↦ Ordering.gt
]

abbrev pub has_method : Entry → Bool
has_method entry = elim entry.method [ none ↦ false | some method ↦ true ]

-- `entry` takes the place of the best entry so far.
unfoldable pub wins : Entry → Entry → Bool
wins entry best = elim (compare_specificity entry.segments best.segments) [
  | Ordering.lt ↦ true
  | Ordering.eq ↦ has_method entry || not (has_method best)
  | Ordering.gt ↦ false
]

-- Neither `continue` is taken.
unfoldable pub matches : Text → List Text → Entry → Bool
matches method path entry = elim entry.method [
  | none ↦ covers entry.segments path
  | some wanted ↦ same wanted method && covers entry.segments path
]

-- One round of the loop of `resolve`.
pub consider : Text → List Text → Option Entry → Entry → Option Entry
consider method path best entry =
    if matches method path entry
    then elim best [ none ↦ some entry | some b ↦ if wins entry b then some entry else some b ]
    else best

pub best_from : Text → List Text → Option Entry → List Entry → Option Entry
best_from method path best [] = best
best_from method path best (entry ∷ entries) =
    best_from method path (consider method path best entry) entries

unfoldable pub resolve : Routes → Text → Text → Option Profile
unfolding best_from consider
resolve routes method path =
    elim (best_from method (drop 1 (split b'/' path)) none routes.entries) [
      | none ↦ none
      | some entry ↦ some entry.profile
    ]

abbrev or_throw {ℓ} : {A : Type ℓ} → Option A → Error → Result Error A
or_throw none e = err e
or_throw (some a) e = ok a

checked_ttl : Option Number → ℕ → Result Error ℕ
checked_ttl none default_ttl = ok default_ttl
checked_ttl (some ttl) default_ttl = or_throw (whole_from 1 ttl) bad_ttl

-- The registered budget differs.
abbrev conflicts : Option Budget → Budget → Bool
conflicts none new = false
conflicts (some old) new = not (old.limit == new.limit) || not (old.ttl_seconds == new.ttl_seconds)

-- `RateLimitRoutes.budget`
unfoldable pub add_budget : Routes → BudgetRequest → Result Error (Routes × Budget)
unfolding checked_ttl is_profile_name
add_budget routes request = do
  reject_if (not (is_profile_name request.name)) bad_name
  limit ← or_throw (whole_from 1 request.limit) bad_limit
  ttl ← checked_ttl request.ttl_seconds routes.default_ttl_seconds
  let new : Budget = record { name = request.name; limit = limit; ttl_seconds = ttl }
  reject_if (conflicts (Map.get new.name routes.budgets) new) conflicting_budget
  ok (record routes { budgets = Map.put new.name new routes.budgets }, new)

add_profile : Routes → ProfileRequest → Result Error (Routes × Profile)
unfolding add_budget
add_profile routes ProfileRequest.exempt = ok (routes, Profile.exempt)
add_profile routes (ProfileRequest.budget request) = do
  (routes', b) ← add_budget routes request
  ok (routes', Profile.budget b)

check_method : (Text → Text) → Option Text → Result Error (Option Text)
unfolding is_method
check_method upper none = ok none
check_method upper (some method) = do
  reject_if (not (is_method (upper method))) bad_method
  ok (some (upper method))

unfoldable pub register : (Text → Text) → Routes → Route → Result Error Routes
unfolding check_method parse_prefix add_profile
register upper routes route = do
  method ← check_method upper route.method
  segments ← parse_prefix route.path_prefix
  (routes', profile) ← add_profile routes route.profile
  let entry : Entry = record { method = method; segments = segments; profile = profile }
  ok (record routes' { entries = routes'.entries ++ entry ∷ [] })

-- What `rateLimitConfig` reads, as far as the limiter uses it.
pub record Config : Type 0 where
  pub key_prefix : Text
  pub ttl_seconds : ℕ
  pub limit : ℕ
  pub auth_ttl_seconds : ℕ
  pub auth_limit : ℕ
  pub runtime_limit : ℕ
  pub unavailable_retry_after_seconds : ℕ

pub general_profile : Config → Budget
general_profile config = record {
  name = codes "general";
  limit = config.limit;
  ttl_seconds = config.ttl_seconds;
}

-- A budget given as a profile to register.
abbrev requested : Budget → ProfileRequest
requested b = ProfileRequest.budget (record {
  name = b.name;
  limit = Number.whole b.limit;
  ttl_seconds = some (Number.whole b.ttl_seconds);
})

abbrev route_for : Option Text → Text → Budget → Route
route_for method path_prefix b = record {
  method = method;
  path_prefix = path_prefix;
  profile = requested b;
}

register_each : (Text → Text) → Routes → List Route → Result Error Routes
register_each upper routes [] = ok routes
register_each upper routes (route ∷ more) = do
  routes' ← register upper routes route
  register_each upper routes' more

unfoldable pub default_routes : (Text → Text) → Config → Result Error Routes
unfolding register_each general_profile create
default_routes upper config =
    let general = general_profile config in
    let auth : Budget = record {
      name = codes "auth";
      limit = config.auth_limit;
      ttl_seconds = config.auth_ttl_seconds;
    } in
    let runtime : Budget = record {
      name = codes "runtime";
      limit = config.runtime_limit;
      ttl_seconds = config.ttl_seconds;
    } in
    register_each upper (create config.ttl_seconds) (
      route_for none (codes "/") general
      ∷ route_for none (codes "/api/auth") auth
      ∷ route_for (some (codes "GET")) (codes "/api/auth/admin") general
      ∷ route_for (some (codes "GET")) (codes "/api/auth/get-session") runtime
      ∷ route_for (some (codes "GET")) (codes "/site/settings") runtime
      ∷ route_for (some (codes "GET")) (codes "/account/capabilities") runtime
      ∷ [])
