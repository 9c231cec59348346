-- ===== src/Dispatcher/Offering.antt =====
-- ReplaceServices of internal/dispatcher/dispatcher.go: which instances are offered by the tables of a route.
use xbase.Prelude.{
  ℕ, zero, suc, ◌≡◌, inl, inr, refl, sym, ap, subst, ◌∙◌, Bool, true, Option, none, some, List, [],
  ◌∷◌, ◌++◌, arith, ◌==◌, if◌then◌else◌, length, get_elem?, Bool-cases,
}
use xbase.Dict.{lookup, lookup-insert}
use xbase.Registry.{ServiceInstance}
use xbase.Dispatcher.{ServiceEndpoint, Tables, add_service_endpoint, Slot, endpoints_of, GameRoute}
use xbase.Dispatcher.Placing.{slot_eq, serving, slot_eq_refl, add_service_endpoint_lem}
use xbase.Dispatcher.Balance.{Belongs}
use xbase.Dispatcher.Services.{
  Dispatcher, balance_of, endpoint_of, route_or_new, added_route, add_service, add_services,
  replace_services, new_dispatcher,
}

get_elem?-append :
    (es : List ServiceEndpoint) (i : ℕ) (se x : ServiceEndpoint)
    → get_elem? es i ≡ some se
    → get_elem? (es ++ (x ∷ [])) i ≡ some se
get_elem?-append [] i se x h = absurd (ground (arith, h))
get_elem?-append (e ∷ es) zero se x h = h
get_elem?-append (e ∷ es) (suc i) se x h = get_elem?-append es i se x h

get_elem?-last :
    (es : List ServiceEndpoint) (x : ServiceEndpoint)
    → get_elem? (es ++ (x ∷ [])) (length es) ≡ some x
get_elem?-last [] x = refl
get_elem?-last (e ∷ es) x = get_elem?-last es x

-- The endpoint is in the balanced table of its status and its state.
abbrev pub InTable : Tables → ServiceEndpoint → Type 0
InTable a se =
    (slot : Slot) × Belongs slot se × (i : ℕ) × (get_elem? (endpoints_of a slot) i ≡ some se)

-- Adding an endpoint takes none from the tables.
add_service_endpoint-keeps :
    (a : Tables) (se x : ServiceEndpoint) (balance : Bool)
    → InTable a se
    → InTable (add_service_endpoint a x balance) se
add_service_endpoint-keeps a se x balance (slot, b, i, e) =
    elim (add_service_endpoint_lem a x balance) [
      | inl (on, (home, hb, at)) ↦ elim (Bool-cases (slot_eq home slot)) [
        | inl q ↦ (
          slot,
          b,
          i,
          ap (λ es. get_elem? es i)
                (at slot
                  ∙ ap (λ t. if t then endpoints_of a slot ++ (x ∷ []) else endpoints_of a slot) q)
              ∙ get_elem?-append (endpoints_of a slot) i se x e,
        )
        | inr q ↦ (
          slot,
          b,
          i,
          ap (λ es. get_elem? es i)
                (at slot
                  ∙ ap (λ t. if t then endpoints_of a slot ++ (x ∷ []) else endpoints_of a slot) q)
              ∙ e,
        )
      ]
      | inr (off, left) ↦ (slot, b, i, ap (λ es. get_elem? es i) (left slot) ∙ e)
    ]

add_service_endpoint-InTable :
    (a : Tables) (se : ServiceEndpoint) (balance : Bool)
    → balance ≡ true
    → serving se.state ≡ true
    → InTable (add_service_endpoint a se balance) se
add_service_endpoint-InTable a se balance on works = elim (add_service_endpoint_lem a se balance) [
  | inl (_, (home, b, at)) ↦ (
    home,
    b,
    length (endpoints_of a home),
    ap (λ es. get_elem? es (length (endpoints_of a home)))
          (at home
            ∙ ap (λ t. if t then endpoints_of a home ++ (se ∷ []) else endpoints_of a home)
                (slot_eq_refl home))
        ∙ get_elem?-last (endpoints_of a home) se,
  )
  | inr (off, left) ↦ absurd (ground (arith, off, on, works))
]

-- The routes have one of the game, and its tables have the endpoint.
abbrev pub Offered : List (ℕ × GameRoute) → ℕ → ServiceEndpoint → Type 0
Offered routes game se = (r : GameRoute) × (lookup game routes ≡ some r) × InTable r.tables se

module _ (parse : ℕ → Option ℕ) (services : List ServiceInstance) where
  add_service-keeps :
      (d : Dispatcher) (x : ServiceInstance) (o : Option ℕ) (game : ℕ) (se : ServiceEndpoint)
      → Offered d.routes game se
      → Offered (add_service services d x o).routes game se
  add_service-keeps d x none game se h = h
  add_service-keeps d x (some ep) game se (r, e, h) = elim (Bool-cases (x.game_id == game)) [
    | inl q ↦
        let found : lookup x.game_id d.routes ≡ some r =
          ap (λ g. lookup g d.routes) (ground (arith, q)) ∙ e in
        let mine = λ (o : Option GameRoute).
          added_route (route_or_new o x) (endpoint_of x ep) (balance_of services x) in
        (
          mine (some r),
          lookup-insert x.game_id game (mine (lookup x.game_id d.routes)) d.routes
              ∙ ap
                  (λ t. if t then some (mine (lookup x.game_id d.routes)) else lookup game d.routes)
                  q
              ∙ ap (λ o. some (mine o)) found,
          add_service_endpoint-keeps r.tables se (endpoint_of x ep) (balance_of services x) h,
        )
    | inr q ↦
        let mine =
          added_route (route_or_new (lookup x.game_id d.routes) x) (endpoint_of x ep)
            (balance_of services x) in
        (
          r,
          lookup-insert x.game_id game mine d.routes
              ∙ ap (λ t. if t then some mine else lookup game d.routes) q
              ∙ e,
          h,
        )
  ]

  add_services-keeps :
      (d : Dispatcher) (rest : List ServiceInstance) (game : ℕ) (se : ServiceEndpoint)
      → Offered d.routes game se
      → Offered (add_services parse services d rest).routes game se
  unfolding add_services
  add_services-keeps d [] game se h = h
  add_services-keeps d (x ∷ rest) game se h =
      add_services-keeps (add_service services d x (parse x.endpoint)) rest game se
        (add_service-keeps d x (parse x.endpoint) game se h)

  module _ (service : ServiceInstance) (ep : ℕ) (parsed : parse service.endpoint ≡ some ep)
      (balanced : balance_of services service ≡ true) (works : serving service.state ≡ true) where
    add_service-Offered :
        (d : Dispatcher)
        → Offered
            (add_service services d service (parse service.endpoint)).routes
            service.game_id
            (endpoint_of service ep)
    add_service-Offered d =
        let r = route_or_new (lookup service.game_id d.routes) service in
        let mine = added_route r (endpoint_of service ep) (balance_of services service) in
        subst
          (λ o.
            Offered (add_service services d service o).routes service.game_id
              (endpoint_of service ep))
          (sym parsed)
          (
            mine,
            lookup-insert service.game_id service.game_id mine d.routes ∙ ground arith,
            add_service_endpoint-InTable r.tables (endpoint_of service ep)
                (balance_of services service) balanced works,
          )

    add_services-Offered :
        (d : Dispatcher) (rest : List ServiceInstance) (n : ℕ)
        → get_elem? rest n ≡ some service
        → Offered
            (add_services parse services d rest).routes
            service.game_id
            (endpoint_of service ep)
    unfolding add_services
    add_services-Offered d [] n e = absurd (ground (arith, e))
    add_services-Offered d (x ∷ rest) zero e =
        subst
          (λ y.
            Offered
              (add_services parse services (add_service services d y (parse y.endpoint))
                rest).routes
              service.game_id (endpoint_of service ep))
          (sym (ap (λ o. elim o [ none ↦ service | some y ↦ y ]) e))
          (add_services-keeps (add_service services d service (parse service.endpoint)) rest
            service.game_id (endpoint_of service ep) (add_service-Offered d))
    add_services-Offered d (x ∷ rest) (suc n) e =
        add_services-Offered (add_service services d x (parse x.endpoint)) rest n e

    -- After ReplaceServices, an instance of the list whose endpoint parses, that is balanced, and that
    -- works or is busy has its endpoint, with no current weight, in the table of its status and its
    -- state of the route of its game.
    pub replace_services-Offered :
        (d : Dispatcher) (n : ℕ)
        → get_elem? services n ≡ some service
        → Offered
            (replace_services parse d services).routes
            service.game_id
            (endpoint_of service ep)
    unfolding replace_services
    replace_services-Offered d n e = add_services-Offered (new_dispatcher d.dispatch) services n e
