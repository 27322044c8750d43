-- ===== src/Services/Registry.antt =====
-- ServiceRegistry. A key is a number that stands for its symbol, and a hook is known by what `rejects`
-- says of it. What `start` and `close` do is the list of their calls, up to the first hook that rejects.
use podokit.Base.{
  ℕ, ◌≡◌, refl, sym, ap, ◌∙◌, inl, inr, Bool, true, false, not, Option, none, some, List, [], ◌∷◌,
  ◌++◌, map, append-nil, append_assoc, if◌then◌else◌, Bool-cases, All, All-append, Result, ok, err,
  Ensures, Ensures-ok, Ensures-of, ◌>>=◌, ◌>>◌, reject_if, Text, nat_eq, text_eq,
}
use mathlib.Core.List.{reverse, reverse-append}
use mathlib.Core.Path.{subst}
use podokit.Map

pub data Error : Type 0 where
  frozen unregistered not_registered : Error

pub record Registry {ℓ} (V H : Type ℓ) : Type ℓ where
  pub values : List (ℕ × V)
  pub starters : List H
  pub supervisors : List Text
  pub closers : List H
  pub is_frozen : Bool
  pub started : Bool
  pub closed : Bool

pub data Effect {ℓ} (H : Type ℓ) : Type ℓ where
  connects : Text → Effect H
  disconnects : Text → Effect H
  runs : H → Effect H

module _ {ℓ} {H : Type ℓ} where
  abbrev pub with_close : Option H → List H → List H
  with_close none closers = closers
  with_close (some close) closers = closers ++ close ∷ []

  -- Hooks in order, up to the first one that rejects.
  unfoldable pub run_hooks : (H → Bool) → List H → List (Effect H)
  run_hooks rejects [] = []
  run_hooks rejects (hook ∷ hooks) =
      let rest = run_hooks rejects hooks in runs hook ∷ (if rejects hook then [] else rest)

  run_hooks-none :
      (rejects : H → Bool) (hooks : List H)
      → All (λ h. rejects h ≡ false) hooks
      → run_hooks rejects hooks ≡ map runs hooks
  unfolding run_hooks
  run_hooks-none rejects [] h = refl
  run_hooks-none rejects (hook ∷ hooks) h =
      rw h.0 (ap (λ t. runs hook ∷ t) (run_hooks-none rejects hooks h.1))

  All-reverse : (P : H → Type 0) (hooks : List H) → All P hooks → All P (reverse hooks)
  All-reverse P [] h = tt
  All-reverse P (hook ∷ hooks) h =
      subst (All P) (sym (reverse-append (hook ∷ []) hooks))
        (All-append P (reverse hooks) (hook ∷ []) (All-reverse P hooks h.1) (h.0, tt))

module _ {ℓ} {V H : Type ℓ} where
  unfoldable pub register : Registry V H → ℕ → V → Option H → Result Error (Registry V H)
  register r key value close = do
    reject_if r.is_frozen frozen
    ok (record r { values = Map.put key value r.values; closers = with_close close r.closers })

  unfoldable pub override : Registry V H → ℕ → V → Option H → Result Error (Registry V H)
  override r key value close = do
    reject_if r.is_frozen frozen
    reject_if (not (Map.has key r.values)) unregistered
    ok (record r { values = Map.put key value r.values; closers = with_close close r.closers })

  unfoldable pub try_resolve : Registry V H → ℕ → Option V
  try_resolve r key = Map.get key r.values

  unfoldable pub resolve : Registry V H → ℕ → Result Error V
  resolve r key = elim (Map.get key r.values) [ none ↦ err not_registered | some value ↦ ok value ]

  unfoldable pub on_start : Registry V H → H → Result Error (Registry V H)
  on_start r hook = do
    reject_if r.is_frozen frozen
    ok (record r { starters = r.starters ++ hook ∷ [] })

  unfoldable pub supervise : Registry V H → Text → Result Error (Registry V H)
  supervise r name = do
    reject_if r.is_frozen frozen
    ok (record r { supervisors = r.supervisors ++ name ∷ [] })

  unfoldable pub freeze : Registry V H → Registry V H
  freeze r = record r { is_frozen = true }

  unfoldable pub start : (H → Bool) → Registry V H → Registry V H × List (Effect H)
  unfolding run_hooks
  start rejects r =
      if r.started
      then (r, [])
      else (record r { started = true }, map connects r.supervisors ++ run_hooks rejects r.starters)

  unfoldable pub close : (H → Bool) → Registry V H → Registry V H × List (Effect H)
  unfolding run_hooks
  close rejects r = if r.closed then (r, []) else (
    record r { closed = true },
    map disconnects r.supervisors ++ run_hooks rejects (reverse r.closers),
  )

  -- A module that is set up: it registers a service, with what closes it.
  unfoldable pub register_all : List (ℕ × (V × H)) → Registry V H → Result Error (Registry V H)
  register_all [] r = ok r
  register_all ((key, (value, hook)) ∷ services) r =
      register r key value (some hook) >>= register_all services

  abbrev pub hooks_of : List (ℕ × (V × H)) → List H
  hooks_of services = map (λ s. s.1.1) services

  abbrev Closes : List (ℕ × (V × H)) → Registry V H → Registry V H → Type ℓ
  Closes services r r' =
      (r'.closers ≡ r.closers ++ hooks_of services)
      × (r'.supervisors ≡ r.supervisors)
      × (r'.closed ≡ r.closed)

  register_all-closers :
      (services : List (ℕ × (V × H))) (r : Registry V H)
      → Ensures
          (λ r'.
            (r'.closers ≡ r.closers ++ hooks_of services)
            × (r'.supervisors ≡ r.supervisors)
            × (r'.closed ≡ r.closed))
          (register_all services r)
  unfolding register_all register
  register_all-closers [] r = (sym (append-nil r.closers), refl, refl)
  register_all-closers ((key, (value, hook)) ∷ services) r = elim (Bool-cases r.is_frozen) [
    | inl e ↦ rw e tt
    | inr e ↦
        let r1 : Registry V H = record r {
          values = Map.put key value r.values;
          closers = r.closers ++ hook ∷ [];
          is_frozen = false;
        } in
        let ih = register_all-closers services r1 in
        rw e (
          Ensures-of (Closes ((key, (value, hook)) ∷ services) r) (register_all services r1) (λ a q.
            let x = Ensures-ok (Closes services r1) (register_all services r1) ih q in
            (x.0 ∙ append_assoc r.closers (hook ∷ []) (hooks_of services), x.1, x.2)))
  ]

  -- If no hook rejects, closing a registry first stops its connections and then closes the services in
  -- the reverse of the order in which they were registered.
  pub close-register_all :
      (rejects : H → Bool) (services : List (ℕ × (V × H))) (r : Registry V H) {r' : Registry V H}
      → r.closed ≡ false
      → r.closers ≡ []
      → All (λ h. rejects h ≡ false) (hooks_of services)
      → register_all services r ≡ ok r'
      → (close rejects r').1
        ≡ map disconnects r.supervisors ++ map runs (reverse (hooks_of services))
  unfolding close
  close-register_all rejects services r {r'} open_yet empty quiet e =
      let (closers, supervisors, closed) =
        Ensures-ok (Closes services r) (register_all services r) (register_all-closers services r)
          e in
      let order : r'.closers ≡ hooks_of services =
        closers ∙ ap (λ t. t ++ hooks_of services) empty in
      rw
        (
          closed,
          open_yet,
          supervisors,
          order,
          run_hooks-none rejects (reverse (hooks_of services))
              (All-reverse (λ h. rejects h ≡ false) (hooks_of services) quiet),
          close,
        )
        refl
