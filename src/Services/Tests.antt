-- ===== src/Services/Tests.antt =====
-- A connection that drops, the rules of two routes, and the order in which services are closed.
use podokit.Base.{
  ℕ, ◌≡◌, refl, false, Option, List, [], ◌∷◌, ◌++◌, map, codes, keep_if, ok, list_beq, Text, same,
  nat_eq, text_eq,
}
use podokit.Map
use podokit.Texts.{split, starts_with}
use podokit.Services.Supervisor.{
  Policy, Supervisor, create, retry, attempt, start, stop, lost, connects, rejects, fires, starts,
  rejected, Reaches, here, step,
}
use podokit.Services.Supervisor.Alive.{Phase, Reaches-Phase}
use podokit.Services.Access.{
  everyone, session, api_key, Rule, Latest, level_of, resolve, resolve-Latest, register, applies,
  find_rule, test, segments_match, route_matcher, before_wildcard,
}
use podokit.Services.Registry.{
  register as add_service, Registry, run_hooks, register_all, close, close-register_all,
  disconnects, runs,
}

services : Unit {0}
unfolding create retry attempt start stop lost connects rejects fires resolve register applies
    find_rule test segments_match route_matcher before_wildcard split starts_with same list_beq
    register_all add_service close run_hooks Map.put keep_if
services = tt

abbrev policy : Policy
policy = record { initial_delay_ms = 250; max_delay_ms = 5000 }

abbrev started : Supervisor
started = start (create policy)

started_attempts : started.attempts ≡ 0 ∷ []
unfolding services
started_attempts = refl

-- The first attempt fails.
two_steps : Reaches (create policy) (rejects started 0 (codes "refused") 1000)
two_steps = step (step here starts) (rejected 0 (codes "refused") 1000 [] started_attempts)

Reaches-Phase_example : Phase (rejects started 0 (codes "refused") 1000)
Reaches-Phase_example = Reaches-Phase policy (rejects started 0 (codes "refused") 1000) two_steps

first_delay : map (λ t. t.delay_ms) (rejects started 0 (codes "refused") 1000).timers ≡ 250 ∷ []
unfolding services
first_delay = refl

second_delay :
    map
      (λ t. t.delay_ms)
      (rejects (fires (rejects started 0 (codes "refused") 1000) 0) 0 (codes "refused") 1300).timers
    ≡ 500 ∷ []
unfolding services
second_delay = refl

abbrev same_text : Text → Text
same_text text = text

abbrev rules : List Rule
rules =
    register same_text (register same_text [] (codes "*") (codes "/health/*") everyone)
      (codes "GET") (codes "/files/:id") api_key

health : resolve same_text rules (codes "POST") (codes "/health/ready") ≡ everyone
unfolding services
health = refl

file_head : resolve same_text rules (codes "HEAD") (codes "/files/7") ≡ api_key
unfolding services
file_head = refl

other_path : resolve same_text rules (codes "GET") (codes "/files/7/8") ≡ session
unfolding services
other_path = refl

resolve-Latest_example :
    (found : Option Rule) × Latest same_text rules (codes "HEAD") (codes "/files/7") found
    × (resolve same_text rules (codes "HEAD") (codes "/files/7") ≡ level_of found)
resolve-Latest_example = resolve-Latest same_text rules (codes "HEAD") (codes "/files/7")

abbrev empty : Registry ℕ ℕ
empty = record {
  values = [];
  starters = [];
  supervisors = codes "database" ∷ [];
  closers = [];
  is_frozen = false;
  started = false;
  closed = false;
}

abbrev two_services : List (ℕ × (ℕ × ℕ))
two_services = (1, (10, 100)) ∷ (2, (20, 200)) ∷ []

abbrev registered : Registry ℕ ℕ
registered = record empty { values = (1, 10) ∷ (2, 20) ∷ []; closers = 100 ∷ 200 ∷ [] }

two_registered : register_all two_services empty ≡ ok registered
unfolding services
two_registered = refl

close-register_all_example :
    (close (λ h. false) registered).1
    ≡ map disconnects (codes "database" ∷ []) ++ map runs (200 ∷ 100 ∷ [])
close-register_all_example =
    close-register_all (λ h. false) two_services empty refl refl (refl, (refl, tt)) two_registered
