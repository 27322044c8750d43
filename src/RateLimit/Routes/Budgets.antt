-- ===== src/RateLimit/Routes/Budgets.antt =====
-- Routes registered with one profile name share one budget.
use podokit.Base.{
  Ensures-of, All-get_elem?, Ensures-after, Ensures-bind, Ensures-ok, Ensures, ℕ, ◌≡◌, sym, ap, ◌∙◌,
  inl, inr, false, some, List, [], ◌∷◌, arith, get_elem?, All, All-append, All-map, Result, ok, err,
  Result-cases, Text, same_iff, same_refl, nat_eq, text_eq,
}
use mathlib.Core.Path.{subst}
use podokit.Map
use podokit.RateLimit.Routes.{
  create, Error, Budget, Profile, BudgetRequest, ProfileRequest, Route, Entry, Routes, conflicts,
  add_budget, add_profile, check_method, parse_prefix, register,
}

-- The budget of a profile is the one registered under its name.
abbrev Known : List (Text × Budget) → Profile → Type 0
Known budgets Profile.exempt = Unit
Known budgets (Profile.budget b) = Map.get b.name budgets ≡ some b

abbrev IsConsistent : Routes → Type 0
IsConsistent routes = All (λ (entry : Entry). Known routes.budgets entry.profile) routes.entries

-- A budget that is accepted leaves the others as they were, and is the registered one.
put-Known :
    (budgets : List (Text × Budget)) (new : Budget) (profile : Profile)
    → conflicts (Map.get new.name budgets) new ≡ false
    → Known budgets profile
    → Known (Map.put new.name new budgets) profile
put-Known budgets new Profile.exempt h k = tt
put-Known budgets new (Profile.budget b) h k =
    ground (arith, Map.get-put new.name b.name new budgets, same_iff new.name b.name)

put-Known_self :
    (budgets : List (Text × Budget)) (new : Budget)
    → Known (Map.put new.name new budgets) (Profile.budget new)
put-Known_self budgets new =
    ground (arith, Map.get-put new.name new.name new budgets, same_refl new.name)

add_budget_ok :
    (routes : Routes) (request : BudgetRequest) {routes' : Routes} {b : Budget}
    → add_budget routes request ≡ ok (routes', b)
    → (conflicts (Map.get b.name routes.budgets) b ≡ false)
      × (routes' ≡ record routes { budgets = Map.put b.name b routes.budgets })
unfolding add_budget
add_budget_ok routes request done = ground arith

add_budget-IsConsistent :
    (routes : Routes) (request : BudgetRequest) {routes' : Routes} {b : Budget}
    → IsConsistent routes
    → add_budget routes request ≡ ok (routes', b)
    → IsConsistent routes' × Known routes'.budgets (Profile.budget b)
add_budget-IsConsistent routes request {routes'} {b} h done =
    let (fits, shape) = add_budget_ok routes request done in
    rw shape (
      All-map routes.entries (λ entry k. put-Known routes.budgets b entry.profile fits k) h,
      put-Known_self routes.budgets b,
    )

abbrev Added : Routes × Profile → Type 0
Added (routes, p) = IsConsistent routes × Known routes.budgets p

add_profile-IsConsistent :
    (routes : Routes) (request : ProfileRequest)
    → IsConsistent routes
    → Ensures Added (add_profile routes request)
unfolding add_profile
add_profile-IsConsistent routes ProfileRequest.exempt h = (h, tt)
add_profile-IsConsistent routes (ProfileRequest.budget request) h =
    Ensures-bind (λ r. Added (r.0, Profile.budget r.1)) Added (add_budget routes request) _
      (Ensures-of _ (add_budget routes request)
        λ r done. add_budget-IsConsistent routes request h done)
      (λ r k. k)

register-IsConsistent :
    (upper : Text → Text) (routes : Routes) (route : Route)
    → IsConsistent routes
    → Ensures IsConsistent (register upper routes route)
unfolding register
register-IsConsistent upper routes route h =
    Ensures-after IsConsistent (check_method upper route.method) _ λ method.
      Ensures-after IsConsistent (parse_prefix route.path_prefix) _ λ segments.
        Ensures-bind Added IsConsistent (add_profile routes route.profile) _
          (add_profile-IsConsistent routes route.profile h)
          λ r k. All-append _ r.0.entries _ k.0 (k.1, tt)

-- Routes registered one after the other; one that throws is not added, and the caller goes on.
abbrev kept : Routes → Result Error Routes → Routes
kept routes (ok routes') = routes'
kept routes (err e) = routes

unfoldable pub register_all : (Text → Text) → Routes → List Route → Routes
register_all upper routes [] = routes
register_all upper routes (route ∷ more) =
    register_all upper (kept routes (register upper routes route)) more

register_all-IsConsistent :
    (upper : Text → Text) (routes : Routes) (more : List Route)
    → IsConsistent routes
    → IsConsistent (register_all upper routes more)
unfolding register_all
register_all-IsConsistent upper routes [] h = h
register_all-IsConsistent upper routes (route ∷ more) h =
    register_all-IsConsistent upper (kept routes (register upper routes route)) more
      (elim (Result-cases (register upper routes route)) [
        | inl (routes', e) ↦
            rw e (Ensures-ok IsConsistent _ (register-IsConsistent upper routes route h) e)
        | inr (x, e) ↦ rw e h
      ])

-- However routes are registered, two entries whose profiles have one name have the same limit and
-- the same window.
pub register_all_shared :
    (upper : Text → Text) (ttl : ℕ) (more : List Route) (i j : ℕ) {x y : Entry} {b c : Budget}
    → get_elem? (register_all upper (create ttl) more).entries i ≡ some x
    → get_elem? (register_all upper (create ttl) more).entries j ≡ some y
    → x.profile ≡ Profile.budget b
    → y.profile ≡ Profile.budget c
    → b.name ≡ c.name
    → b ≡ c
unfolding create
register_all_shared upper ttl more i j {x} {y} {b} {c} at_i at_j p q names =
    let routes = register_all upper (create ttl) more in
    let h = register_all-IsConsistent upper (create ttl) more tt in
    let known_x =
      All-get_elem? (λ (entry : Entry). Known routes.budgets entry.profile) routes.entries i h
        at_i in
    let known_y =
      All-get_elem? (λ (entry : Entry). Known routes.budgets entry.profile) routes.entries j h
        at_j in
    let found_b : Map.get b.name routes.budgets ≡ some b = subst (Known routes.budgets) p known_x in
    let found_c : Map.get c.name routes.budgets ≡ some c = subst (Known routes.budgets) q known_y in
    let same : some b ≡ some c = sym found_b ∙ ap (λ n. Map.get n routes.budgets) names ∙ found_c in
    cc
