-- ===== src/Events/Delivery.antt =====
-- Who receives the events of a topic.
use podokit.Base.{
  ℕ, ◌+◌, ◌<◌, ◌≡◌, refl, inl, inr, none, some, List, [], arith, ◌==◌, if◌then◌else◌, Bool-cases,
  Option-cases, Text, same, same_iff, nat_eq, text_eq,
}
use podokit.Map
use podokit.Events.{Bus, members, receivers, add, subscribe}

-- Two topics never share a set, and new sets are new.
pub record IsValid (bus : Bus) : Type 0 where
  pub own :
      (t u : Text) (set : ℕ)
      → Map.get t bus.handlers ≡ some set
      → Map.get u bus.handlers ≡ some set
      → t ≡ u
  pub old : (t : Text) (set : ℕ) → Map.get t bus.handlers ≡ some set → set < bus.next_set

subscribe-IsValid :
    (bus : Bus) (topic : Text) (handler : ℕ) → IsValid bus → IsValid (subscribe bus topic handler).0
unfolding subscribe
subscribe-IsValid bus topic handler h = elim (Option-cases (Map.get topic bus.handlers)) [
  | inr (set, e) ↦ rw (e, subscribe) (record { own = h.own; old = h.old })
  | inl e ↦
      rw (e, subscribe)
        (record {
          own = λ t u set a b. ground (
            arith,
            same_iff topic t,
            same_iff topic u,
            Map.get-put topic t bus.next_set bus.handlers,
            Map.get-put topic u bus.next_set bus.handlers,
            h.own t u set,
            h.old t set,
            h.old u set,
            a,
            b,
          );
          old = λ t set a.
              ground (arith, Map.get-put topic t bus.next_set bus.handlers, h.old t set, a);
        })
]

joined : Bus → ℕ → ℕ → Bus
joined bus set handler = record bus { sets = Map.put set (add handler (members bus set)) bus.sets }

begun : Bus → Text → ℕ → Bus
begun bus topic handler = record bus {
  handlers = Map.put topic bus.next_set bus.handlers;
  sets = Map.put bus.next_set (add handler []) bus.sets;
  next_set = bus.next_set + 1;
}

receivers-some :
    (bus : Bus) (t : Text) {set : ℕ}
    → Map.get t bus.handlers ≡ some set
    → receivers bus t ≡ members bus set
unfolding receivers
receivers-some bus t e = rw (e, receivers) refl

receivers-none : (bus : Bus) (t : Text) → Map.get t bus.handlers ≡ none → receivers bus t ≡ []
unfolding receivers
receivers-none bus t e = rw (e, receivers) refl

members-put :
    (bus : Bus) (set other : ℕ) (hs : List ℕ)
    → members (record bus { sets = Map.put set hs bus.sets }) other
      ≡ (if set == other then hs else members bus other)
members-put bus set other hs = ground (arith, Map.get-put set other hs bus.sets)

module _ (bus : Bus) (topic t : Text) (handler : ℕ) (h : IsValid bus) where
  abbrev Expected : Bus → Type 0
  Expected bus' =
      receivers bus' t
      ≡ (if same topic t then add handler (receivers bus topic) else receivers bus t)

  joined-Expected :
      (set : ℕ) → Map.get topic bus.handlers ≡ some set → Expected (joined bus set handler)
  unfolding joined
  joined-Expected set e = elim (Option-cases (Map.get t bus.handlers)) [
    | inl f ↦ ground (
      arith,
      e,
      f,
      same_iff topic t,
      receivers-none bus t f,
      receivers-none (joined bus set handler) t f,
    )
    | inr (other, f) ↦ ground (
      arith,
      e,
      f,
      same_iff topic t,
      h.own topic t set e,
      receivers-some bus t f,
      receivers-some bus topic e,
      receivers-some (joined bus set handler) t f,
      members-put bus set other (add handler (members bus set)),
    )
  ]

  begun-Expected : Map.get topic bus.handlers ≡ none → Expected (begun bus topic handler)
  unfolding begun
  begun-Expected e =
      let bus' = begun bus topic handler in
      let gets = Map.get-put topic t bus.next_set bus.handlers in
      let sets = members-put bus bus.next_set in
      elim (Bool-cases (same topic t)) [
        | inl q ↦
            let there : Map.get t bus'.handlers ≡ some bus.next_set = ground (arith, q, gets) in
            ground (
              arith,
              q,
              receivers-some bus' t there,
              receivers-none bus topic e,
              sets bus.next_set (add handler []),
            )
        | inr q ↦ elim (Option-cases (Map.get t bus.handlers)) [
          | inl f ↦
              let gone : Map.get t bus'.handlers ≡ none = ground (arith, q, gets, f) in
              ground (arith, q, receivers-none bus' t gone, receivers-none bus t f)
          | inr (other, f) ↦
              let there : Map.get t bus'.handlers ≡ some other = ground (arith, q, gets, f) in
              ground (
                arith,
                q,
                receivers-some bus' t there,
                receivers-some bus t f,
                h.old t other f,
                sets other (add handler []),
              )
        ]
      ]

receives :
    (bus : Bus) (topic t : Text) (handler : ℕ) (h : IsValid bus)
    → Expected bus topic t handler h (subscribe bus topic handler).0
unfolding subscribe joined begun
receives bus topic t handler h = elim (Option-cases (Map.get topic bus.handlers)) [
  | inr (set, e) ↦ rw (e, subscribe) (joined-Expected bus topic t handler h set e)
  | inl e ↦ rw (e, subscribe) (begun-Expected bus topic t handler h e)
]

-- In a bus where no two topics share a set, a handler that subscribes to a topic receives its events
-- after those that received them before, once if it was one of them; no other topic changes, and still
-- no two topics share a set.
pub receivers-subscribe :
    (bus : Bus) (topic : Text) (handler : ℕ)
    → IsValid bus
    → IsValid (subscribe bus topic handler).0
      × ((t : Text)
          → receivers (subscribe bus topic handler).0 t
            ≡ (if same topic t then add handler (receivers bus topic) else receivers bus t))
receivers-subscribe bus topic handler h =
    (subscribe-IsValid bus topic handler h, λ t. receives bus topic t handler h)
