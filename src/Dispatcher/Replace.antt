-- ===== src/Dispatcher/Replace.antt =====
-- ReplaceServices of internal/dispatcher/dispatcher.go: which instances the tables of a route stem from.
use xbase.Prelude.{
  ℕ, suc, ◌≡◌, inl, inr, refl, sym, ap, subst, ◌∙◌, Bool, true, Option, none, some, List, [], ◌∷◌,
  arith, ◌==◌, ◌&&◌, if◌then◌else◌, get_elem?, Bool-cases, All, All-append,
}
use xbase.Dict.{lookup, insert, lookup-insert}
use xbase.Registry.{
  ServiceStatus, normal, gray, on_test, node, is_node, status_eq, ServiceInstance,
  service_status_of, max_version_for_game, max_version_for_status, is_latest_version,
  version_or_empty,
}
use xbase.Registry.Versions.{is_at_least}
use xbase.Registry.Order.{is_at_least_trans}
use xbase.Registry.Newest.{max_version_by-Covers}
use xbase.Dispatcher.{
  ServiceEndpoint, new_abstract, Slot, normal_work, normal_busy, test_work, test_busy, gray_work,
  gray_busy, endpoints_of, GameRoute, new_route,
}
use xbase.Dispatcher.Placing.{slot_eq, add_service_endpoint_lem}
use xbase.Dispatcher.Balance.{IsFiled, new_abstract-IsFiled, add_service_endpoint-IsFiled}
use xbase.Dispatcher.Services.{
  Dispatcher, balance_of, balance_by_kind, node_balance, endpoint_of, route_or_new, added_route,
  add_service, add_services, replace_services, new_dispatcher,
}

status_eq_refl : (s : ServiceStatus) → status_eq s s ≡ true
status_eq_refl normal = refl
status_eq_refl gray = refl
status_eq_refl on_test = refl

-- A node that is balanced is not below another node of the list that has its game and its status.
pub balance_of-newest :
    (services : List ServiceInstance) (n : ℕ) (service other : ServiceInstance)
    → get_elem? services n ≡ some other
    → service.kind ≡ node
    → other.kind ≡ node
    → other.game_id ≡ service.game_id
    → service_status_of other ≡ service_status_of service
    → balance_of services service ≡ true
    → is_at_least service.version other.version ≡ true
unfolding balance_of max_version_for_game max_version_for_status is_latest_version
balance_of-newest services n service other there is_n other_n game status balanced =
    let s = service_status_of service in
    let (u, eu, hu) =
      max_version_by-Covers (λ ins. is_node ins.kind) (λ ins. ins.game_id) [] services n other there
        (ap is_node other_n) in
    let (w, ew, hw) =
      max_version_by-Covers (λ ins. is_node ins.kind && status_eq s (service_status_of ins))
        (λ ins. ins.game_id) [] services n other there
        (ap (λ k. is_node k && status_eq s (service_status_of other)) other_n
          ∙ ap (status_eq s) status
          ∙ status_eq_refl s) in
    let game_of = λ (g : ℕ). lookup g (max_version_for_game services) in
    let best_of = λ (g : ℕ). lookup g (max_version_for_status s services) in
    let latest : is_at_least service.version w ≡ true =
      ap (λ o. is_latest_version service (version_or_empty o)) (sym (ap best_of (sym game) ∙ ew))
      ∙ ap (node_balance services service) (sym (ap game_of (sym game) ∙ eu))
      ∙ ap (balance_by_kind services service) (sym is_n)
      ∙ balanced in
    is_at_least_trans service.version w other.version latest hw

-- The endpoint of an instance of the list that has the game, whose endpoint parses, and that is balanced.
abbrev pub Stems : (ℕ → Option ℕ) → List ServiceInstance → ℕ → ServiceEndpoint → Type 0
Stems parse services game se =
    (n : ℕ) × (service : ServiceInstance) × (ep : ℕ) × (get_elem? services n ≡ some service)
    × (parse service.endpoint ≡ some ep)
    × (service.game_id ≡ game)
    × (balance_of services service ≡ true)
    × (se ≡ endpoint_of service ep)

abbrev Every : (GameRoute → Type 0) → Option GameRoute → Type 0
Every P none = Unit
Every P (some r) = P r

abbrev Listed : List ServiceInstance → ServiceInstance → Type 0
Listed services service = (n : ℕ) × (get_elem? services n ≡ some service)

module _ (parse : ℕ → Option ℕ) (services : List ServiceInstance) where
  -- A route whose tables are filed by status and state, and stem from the instances of its game.
  abbrev Sound : ℕ → GameRoute → Type 0
  Sound game r =
      IsFiled r.tables
      × ((slot : Slot) → All (Stems parse services game) (endpoints_of r.tables slot))

  abbrev Routes : List (ℕ × GameRoute) → Type 0
  Routes routes = (game : ℕ) → Every (Sound game) (lookup game routes)

  new_route-Sound :
      (service : ServiceInstance) → Sound service.game_id (new_route service.alias service.game_id)
  new_route-Sound service = (new_abstract-IsFiled, nothing)
    where
      nothing :
          (slot : Slot)
          → All (Stems parse services service.game_id) (endpoints_of new_abstract slot)
      nothing normal_work = tt
      nothing normal_busy = tt
      nothing test_work = tt
      nothing test_busy = tt
      nothing gray_work = tt
      nothing gray_busy = tt

  added-Sound :
      (game : ℕ) (r : GameRoute) (se : ServiceEndpoint) (balance : Bool)
      → (balance ≡ true → Stems parse services game se)
      → Sound game r
      → Sound game (added_route r se balance)
  added-Sound game r se balance stems (filed, all) = (
    add_service_endpoint-IsFiled r.tables se balance filed,
    λ slot. elim (add_service_endpoint_lem r.tables se balance) [
      | inl (on, (home, b, at)) ↦ elim (Bool-cases (slot_eq home slot)) [
        | inl e ↦ subst (All (Stems parse services game)) (sym (at slot ∙ rw e refl)) (
            All-append (Stems parse services game) (endpoints_of r.tables slot) (se ∷ []) (all slot)
              (stems on, tt))
        | inr e ↦ subst (All (Stems parse services game)) (sym (at slot ∙ rw e refl)) (all slot)
      ]
      | inr (off, left) ↦ subst (All (Stems parse services game)) (sym (left slot)) (all slot)
    ],
  )

  route_or_new-Sound :
      (service : ServiceInstance) (o : Option GameRoute)
      → Every (Sound service.game_id) o
      → Sound service.game_id (route_or_new o service)
  route_or_new-Sound service none h = new_route-Sound service
  route_or_new-Sound service (some r) h = h

  insert-Routes :
      (routes : List (ℕ × GameRoute)) (game : ℕ) (r : GameRoute)
      → Sound game r
      → Routes routes
      → Routes (insert game r routes)
  insert-Routes routes game r h all g = elim (Bool-cases (game == g)) [
    | inl e ↦
        subst (Every (Sound g))
          (sym (lookup-insert game g r routes ∙ ap (λ b. if b then some r else lookup g routes) e))
          (subst (λ k. Sound k r) (ground (arith, e)) h)
    | inr e ↦
        subst (Every (Sound g))
          (sym (lookup-insert game g r routes ∙ ap (λ b. if b then some r else lookup g routes) e))
          (all g)
  ]

  add_service-Routes :
      (d : Dispatcher) (service : ServiceInstance) (o : Option ℕ)
      → parse service.endpoint ≡ o
      → Listed services service
      → Routes d.routes
      → Routes (add_service services d service o).routes
  add_service-Routes d service none e l all = all
  add_service-Routes d service (some ep) e (n, l) all =
      insert-Routes d.routes service.game_id
        (added_route (route_or_new (lookup service.game_id d.routes) service)
          (endpoint_of service ep) (balance_of services service))
        (added-Sound service.game_id (route_or_new (lookup service.game_id d.routes) service)
          (endpoint_of service ep) (balance_of services service)
          (λ on. (n, service, ep, l, e, refl, on, refl))
          (route_or_new-Sound service (lookup service.game_id d.routes) (all service.game_id)))
        all

  add_services-Routes :
      (d : Dispatcher) (rest : List ServiceInstance)
      → All (Listed services) rest
      → Routes d.routes
      → Routes (add_services parse services d rest).routes
  unfolding add_services
  add_services-Routes d [] l all = all
  add_services-Routes d (service ∷ rest) (l, ls) all =
      add_services-Routes (add_service services d service (parse service.endpoint)) rest ls
        (add_service-Routes d service (parse service.endpoint) refl l all)

-- Every entry of a list is listed in it.
listed :
    (services rest : List ServiceInstance) (f : ℕ → ℕ)
    → ((i : ℕ) → get_elem? services (f i) ≡ get_elem? rest i)
    → All (Listed services) rest
listed services [] f h = tt
listed services (service ∷ rest) f h =
    ((f 0, h 0), listed services rest (λ i. f (suc i)) (λ i. h (suc i)))

-- After ReplaceServices, whatever the dispatcher held before, every route has its tables filed by status
-- and state, and each endpoint in its balanced tables is that of a given instance: of the game of the
-- route, whose endpoint parses, and that is balanced.
pub replace_services_lem :
    (parse : ℕ → Option ℕ) (d : Dispatcher) (services : List ServiceInstance) (game : ℕ)
    (r : GameRoute)
    → lookup game (replace_services parse d services).routes ≡ some r
    → IsFiled r.tables
      × ((slot : Slot) → All (Stems parse services game) (endpoints_of r.tables slot))
unfolding replace_services lookup
replace_services_lem parse d services game r e = subst (Every (Sound parse services game)) e (
    add_services-Routes parse services (new_dispatcher d.dispatch) services
      (listed services services (λ i. i) (λ i. refl)) (λ g. tt) game)
