-- ===== src/Events/Tests.antt =====
-- Subscriptions to one topic.
use podokit.Base.{
  Text, ◌≡◌, refl, [], ◌∷◌, arith, if◌then◌else◌, codes, keep_if, list_beq, same, nat_eq, text_eq,
}
use podokit.Map
use podokit.Numbers.{whole_from}
use podokit.Events.{Bus, create, receivers, add, subscribe, unsubscribe, close}
use podokit.Events.Delivery.{IsValid, receivers-subscribe}

events : Unit {0}
unfolding create receivers subscribe unsubscribe close whole_from same list_beq Map.get Map.put
    Map.remove keep_if
events = tt

abbrev empty : Bus
empty = record { handlers = []; sets = []; next_set = 0; max_event_bytes = 65536 }

empty-IsValid : IsValid empty
unfolding events
empty-IsValid = record {
  own = λ t u set a b. absurd (ground (arith, a));
  old = λ t set a. absurd (ground (arith, a));
}

receivers-subscribe_example :
    IsValid (subscribe empty (codes "t") 1).0
    × ((t : Text)
        → receivers (subscribe empty (codes "t") 1).0 t
          ≡ (if same (codes "t") t then add 1 (receivers empty (codes "t")) else receivers empty t))
receivers-subscribe_example = receivers-subscribe empty (codes "t") 1 empty-IsValid

two_handlers :
    receivers (subscribe (subscribe empty (codes "t") 1).0 (codes "t") 2).0 (codes "t") ≡ 1 ∷ 2 ∷ []
unfolding events
two_handlers = refl

-- A subscription that is undone after the bus was closed takes a later one to the topic with it.
lost_handler :
    (let (bus, first) = subscribe empty (codes "t") 1 in
      receivers (unsubscribe (subscribe (close bus) (codes "t") 2).0 first) (codes "t"))
    ≡ []
unfolding events
lost_handler = refl
