-- ===== src/Events.antt =====
-- packages/runtime/src/memory-events.ts: MemoryEventBus. A set of handlers is an object that
-- subscriptions share, so it has a number, and a handler is one too. An event is what
-- `JSON.stringify` makes of it, `none` where that is undefined; its size in bytes is the parameter
-- `bytes`.
pub mod Delivery
mod Tests
use podokit.Base.{
  ℕ, zero, suc, ◌+◌, ◌-◌, ◌*◌, ◌/◌, ◌%◌, ◌^◌, ◌≤◌, ◌<◌, min, max, ◌≡◌, refl, sym, ap, ◌∙◌, ◌≡⟨◌⟩◌,
  ◌∎, ◌≢◌, ◌↔◌, ◌⊎◌, inl, inr, Bool, true, false, not, ◌&&◌, ◌||◌, Option, none, some, List, [],
  ◌∷◌, ◌++◌, map, append-nil, append_assoc, arith, ltb, leb, ◌==◌, if◌then◌else◌, ltb→lt, lt→ltb,
  leb→le, le→leb, ==_iff, tests, Bool-cases, Option-cases, codes, length, get_elem?, take, drop,
  keep_if, any, all, length-append, take-append-drop, length-drop, length-take, All, All-append,
  All-map, All-keep_if, Result, ok, err, Result-cases, Ensures, Ensures-bind, Ensures-after,
  Ensures-ok, Ensures-of, All-get_elem?, ◌>>=◌, ◌>>◌, reject_if, Eq, list_beq, list_beq_iff, Text,
  same, same_iff, same_refl, nat_eq, text_eq,
}
use podokit.Map
use podokit.Numbers.{Number, whole_from}

pub record Bus : Type 0 where
  pub handlers : List (Text × ℕ)
  pub sets : List (ℕ × List ℕ)
  pub next_set : ℕ
  pub max_event_bytes : ℕ

pub data Error : Type 0 where
  bad_maximum not_serializable too_large : Error

pub record Subscription : Type 0 where
  pub topic : Text
  pub set : ℕ
  pub handler : ℕ

unfoldable pub create : Option Number → Result Error Bus
create maximum = do
  most ← elim maximum [
    | none ↦ ok 65536
    | some v ↦ elim (whole_from 1 v) [ none ↦ err bad_maximum | some n ↦ ok n ]
  ]
  ok (record { handlers = []; sets = []; next_set = 0; max_event_bytes = most })

abbrev pub or_empty : Option (List ℕ) → List ℕ
or_empty none = []
or_empty (some handlers) = handlers

abbrev pub members : Bus → ℕ → List ℕ
members bus set = or_empty (Map.get set bus.sets)

-- Whom an event on the topic is given to, in order.
unfoldable pub receivers : Bus → Text → List ℕ
receivers bus topic = elim (Map.get topic bus.handlers) [ none ↦ [] | some set ↦ members bus set ]

unfoldable pub clone_event : (Text → ℕ) → ℕ → Option Text → Result Error Text
clone_event bytes maximum none = err not_serializable
clone_event bytes maximum (some encoded) = do
  reject_if (ltb maximum (bytes encoded)) too_large
  ok encoded

-- The calls of handlers, each with the event.
unfoldable pub publish : (Text → ℕ) → Bus → Text → Option Text → Result Error (List (ℕ × Text))
unfolding receivers clone_event
publish bytes bus topic event = do
  cloned ← clone_event bytes bus.max_event_bytes event
  ok (map (λ handler. (handler, cloned)) (receivers bus topic))

-- `handlers.add(handler)`
abbrev pub add : ℕ → List ℕ → List ℕ
add handler handlers =
    if any (λ h. h == handler) handlers then handlers else handlers ++ handler ∷ []

unfoldable pub subscribe : Bus → Text → ℕ → Bus × Subscription
subscribe bus topic handler = elim (Map.get topic bus.handlers) [
  | some set ↦ (
    record bus { sets = Map.put set (add handler (members bus set)) bus.sets },
    record { topic = topic; set = set; handler = handler },
  )
  | none ↦ (
    record bus {
      handlers = Map.put topic bus.next_set bus.handlers;
      sets = Map.put bus.next_set (add handler []) bus.sets;
      next_set = bus.next_set + 1;
    },
    record { topic = topic; set = bus.next_set; handler = handler },
  )
]

abbrev pub is_empty : List ℕ → Bool
is_empty [] = true
is_empty (handler ∷ handlers) = false

-- What the function returned by `subscribe` does.
unfoldable pub unsubscribe : Bus → Subscription → Bus
unsubscribe bus s =
    let left = keep_if (λ h. not (h == s.handler)) (members bus s.set) in
    record bus {
      sets = Map.put s.set left bus.sets;
      handlers = if is_empty left then Map.remove s.topic bus.handlers else bus.handlers;
    }

unfoldable pub close : Bus → Bus
close bus = record bus { handlers = [] }
