-- ===== src/Providers.antt =====
-- packages/runtime/src/contracts.ts: the providers of each capability, and how a selection is resolved.
pub mod Resolved
mod Tests
use podokit.Base.{
  ℕ, zero, suc, ◌+◌, ◌-◌, ◌*◌, ◌/◌, ◌%◌, ◌^◌, ◌≤◌, ◌<◌, min, max, ◌≡◌, refl, sym, ap, ◌∙◌, ◌≡⟨◌⟩◌,
  ◌∎, ◌≢◌, ◌↔◌, ◌⊎◌, inl, inr, Bool, true, false, not, ◌&&◌, ◌||◌, Option, none, some, List, [],
  ◌∷◌, ◌++◌, map, append-nil, append_assoc, arith, ltb, leb, ◌==◌, if◌then◌else◌, ltb→lt, lt→ltb,
  leb→le, le→leb, ==_iff, tests, Bool-cases, Option-cases, codes, length, get_elem?, take, drop,
  keep_if, any, all, length-append, take-append-drop, length-drop, length-take, All, All-append,
  All-map, All-keep_if, Result, ok, err, Result-cases, Ensures, Ensures-bind, Ensures-after,
  Ensures-ok, Ensures-of, All-get_elem?, ◌>>=◌, ◌>>◌, reject_if, Eq, list_beq, list_beq_iff, Text,
  same, same_iff, same_refl, nat_eq, text_eq,
}

-- PROVIDER_CAPABILITIES
pub data Capability : Type 0 where
  database cache object_storage events jobs : Capability

unfoldable pub capability_name : Capability → Text
capability_name database = codes "database"
capability_name cache = codes "cache"
capability_name object_storage = codes "object-storage"
capability_name events = codes "events"
capability_name jobs = codes "jobs"

-- PROVIDER_NAMES
unfoldable pub provider_names : Capability → List Text
provider_names database = codes "postgres" ∷ codes "sqlite" ∷ []
provider_names cache = codes "redis" ∷ codes "memory" ∷ []
provider_names object_storage = codes "s3" ∷ codes "local" ∷ []
provider_names events = codes "redis" ∷ codes "memory" ∷ []
provider_names jobs = codes "bullmq" ∷ codes "local" ∷ []

-- SERVER_PROVIDER_SELECTIONS and LOCAL_PROVIDER_SELECTIONS
unfoldable pub server_selections : Capability → Text
server_selections database = codes "postgres"
server_selections cache = codes "redis"
server_selections object_storage = codes "s3"
server_selections events = codes "redis"
server_selections jobs = codes "bullmq"

unfoldable pub local_selections : Capability → Text
local_selections database = codes "sqlite"
local_selections cache = codes "memory"
local_selections object_storage = codes "local"
local_selections events = codes "memory"
local_selections jobs = codes "local"

abbrev pub capabilities : List Capability
capabilities = database ∷ cache ∷ object_storage ∷ events ∷ jobs ∷ []

unfoldable pub is_provider_capability : Text → Bool
unfolding capability_name
is_provider_capability value = any (λ c. same (capability_name c) value) capabilities

unfoldable pub is_provider_name : Capability → Text → Bool
unfolding provider_names
is_provider_name capability value = any (λ name. same name value) (provider_names capability)

pub record Selections : Type 0 where
  pub of_database : Text
  pub of_cache : Text
  pub of_object_storage : Text
  pub of_events : Text
  pub of_jobs : Text

abbrev pub selected : Selections → Capability → Text
selected s database = s.of_database
selected s cache = s.of_cache
selected s object_storage = s.of_object_storage
selected s events = s.of_events
selected s jobs = s.of_jobs

pub data Error : Type 0 where
  unknown_provider : Capability → Text → Error

-- What is selected, or the default of a server.
abbrev pub or_server : Option Text → Capability → Text
or_server none capability = server_selections capability
or_server (some value) capability = value

unfoldable pub resolve_one : (Capability → Option Text) → Capability → Result Error Text
unfolding is_provider_name
resolve_one selections capability =
    let value = or_server (selections capability) capability in
    if is_provider_name capability value then ok value else err (unknown_provider capability value)

unfoldable pub resolve_selections : (Capability → Option Text) → Result Error Selections
unfolding resolve_one
resolve_selections selections = do
  a ← resolve_one selections database
  b ← resolve_one selections cache
  c ← resolve_one selections object_storage
  d ← resolve_one selections events
  e ← resolve_one selections jobs
  ok (record { of_database = a; of_cache = b; of_object_storage = c; of_events = d; of_jobs = e })
