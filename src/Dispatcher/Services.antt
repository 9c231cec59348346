-- ===== src/Dispatcher/Services.antt =====
-- internal/dispatcher/dispatcher.go and event.go: the tables of a dispatcher, made anew from the
-- instances that a registry reports. `url.Parse` is the parameter `parse`, from the text of an endpoint.
use xbase.Prelude.{
  ℕ, Bool, true, false, Option, none, some, List, [], ◌∷◌, ◌++◌, Outcome, ok, err, bind_outcome,
  map_outcome, not_found_endpoint, not_found_route, not_found_event, if◌then◌else◌,
}
use xbase.Prelude.Int.{pos}
use xbase.Dict.{lookup, insert}
use xbase.Registry.{
  ServiceStatus, normal, on_test, Kind, gate, node, mesh, other_kind, ServiceInstance,
  service_status_of, max_version_for_game, max_version_for_status, max_version_by_gate_alias,
  version_or_empty, is_latest_version,
}
use xbase.Dispatcher.{
  ServiceEndpoint, Tables, new_abstract, add_service_endpoint, Dispatch, GameRoute, new_route,
  find_service_endpoint,
}

pub record Dispatcher : Type 0 where
  pub dispatch : Dispatch
  pub routes : List (ℕ × GameRoute)
  pub events : List (ℕ × Tables)
  pub endpoints : List (ℕ × ℕ)
  pub instances : List (ℕ × ServiceInstance)

abbrev pub new_dispatcher : Dispatch → Dispatcher
new_dispatcher dispatch = record {
  dispatch = dispatch;
  routes = [];
  events = [];
  endpoints = [];
  instances = [];
}

abbrev pub or_error {ℓ} : {A : Type ℓ} → xbase.Prelude.Error → Option A → Outcome A
or_error e none = err e
or_error e (some a) = ok a

unfoldable pub find_endpoint : Dispatcher → ℕ → Outcome ℕ
find_endpoint d ins_id = or_error not_found_endpoint (lookup ins_id d.endpoints)

unfoldable pub find_game_route : Dispatcher → ℕ → Outcome GameRoute
find_game_route d game_id = or_error not_found_route (lookup game_id d.routes)

unfoldable pub find_event : Dispatcher → ℕ → Outcome Tables
find_event d event = or_error not_found_event (lookup event d.events)

-- The lookups of an endpoint through a route, with the route as it is afterwards.
unfoldable pub find_endpoint_for_service_status :
    Dispatch → (ℕ → ℕ) → GameRoute → ServiceStatus → ℕ → Outcome (ℕ × GameRoute)
unfolding find_service_endpoint
find_endpoint_for_service_status dispatch draw r status ins_id =
    map_outcome (λ p. (p.0.endpoint, p.1)) (find_service_endpoint dispatch draw r status ins_id)

unfoldable pub find_endpoint_for_user :
    Dispatch → (ℕ → ℕ) → GameRoute → Bool → ℕ → Outcome (ℕ × GameRoute)
unfolding find_endpoint_for_service_status
find_endpoint_for_user dispatch draw r allow_test ins_id =
    if allow_test
    then find_endpoint_for_service_status dispatch draw r on_test ins_id
    else find_endpoint_for_service_status dispatch draw r normal ins_id

unfoldable pub find_route_endpoint : Dispatch → (ℕ → ℕ) → GameRoute → ℕ → Outcome (ℕ × GameRoute)
unfolding find_endpoint_for_service_status
find_route_endpoint dispatch draw r ins_id =
    find_endpoint_for_service_status dispatch draw r normal ins_id

-- SelectGameNode: the group and the instance, and the dispatcher with the route as it is afterwards.
unfoldable pub select_game_node :
    (ℕ → ℕ) → Dispatcher → ℕ → ServiceStatus → Outcome (ℕ × ℕ × Dispatcher)
unfolding find_game_route find_service_endpoint
select_game_node draw d game_id status = bind_outcome (find_game_route d game_id) (λ route.
    map_outcome (λ p. (route.group, p.0.ins_id, record d { routes = insert game_id p.1 d.routes }))
      (find_service_endpoint d.dispatch draw route status 0))

-- Whether a node is balanced: its version is the newest of its game in its status. The outer lookup of
-- `maxVersionByGameAndStatus` finds the games that have a node, as `maxVersionByGame` does.
abbrev pub node_balance : List ServiceInstance → ServiceInstance → Option (List ℕ) → Bool
node_balance services service (some _) = is_latest_version service (
    version_or_empty
      (lookup service.game_id (max_version_for_status (service_status_of service) services)))
node_balance services service none = is_latest_version service (version_or_empty none)

abbrev pub balance_by_kind : List ServiceInstance → ServiceInstance → Kind → Bool
balance_by_kind services service node =
    node_balance services service (lookup service.game_id (max_version_for_game services))
balance_by_kind services service gate =
    is_latest_version service
      (version_or_empty (lookup service.alias (max_version_by_gate_alias services)))
balance_by_kind services service mesh = true
balance_by_kind services service other_kind = true

unfoldable pub balance_of : List ServiceInstance → ServiceInstance → Bool
balance_of services service = balance_by_kind services service service.kind

abbrev pub endpoint_of : ServiceInstance → ℕ → ServiceEndpoint
endpoint_of service ep = record {
  ins_id = service.id;
  state = service.state;
  status = service_status_of service;
  endpoint = ep;
  weight = service.weight;
  curr_weight = pos 0;
}

abbrev pub route_or_new : Option GameRoute → ServiceInstance → GameRoute
route_or_new (some route) service = route
route_or_new none service = new_route service.alias service.game_id

abbrev pub event_or_new : Option Tables → Tables
event_or_new (some event) = event
event_or_new none = new_abstract

unfoldable pub add_to_events :
    List (ℕ × Tables) → List ℕ → ServiceEndpoint → Bool → List (ℕ × Tables)
unfolding add_service_endpoint
add_to_events events [] se balance = events
add_to_events events (evt ∷ evts) se balance =
    add_to_events
      (insert evt (add_service_endpoint (event_or_new (lookup evt events)) se balance) events) evts
      se balance

abbrev pub added_route : GameRoute → ServiceEndpoint → Bool → GameRoute
added_route route se balance = record route {
  tables = add_service_endpoint route.tables se balance;
}

-- One round of the loop of ReplaceServices: an instance whose endpoint does not parse is skipped.
abbrev pub add_service : List ServiceInstance → Dispatcher → ServiceInstance → Option ℕ → Dispatcher
add_service services d service none = d
add_service services d service (some ep) = record d {
  endpoints = insert service.id ep d.endpoints;
  instances = insert service.id service d.instances;
  routes =
      insert service.game_id
        (added_route (route_or_new (lookup service.game_id d.routes) service)
          (endpoint_of service ep) (balance_of services service))
        d.routes;
  events =
      add_to_events d.events service.events (endpoint_of service ep) (balance_of services service);
}

unfoldable pub add_services :
    (ℕ → Option ℕ) → List ServiceInstance → Dispatcher → List ServiceInstance → Dispatcher
unfolding add_to_events add_service_endpoint
add_services parse services d [] = d
add_services parse services d (service ∷ rest) =
    add_services parse services (add_service services d service (parse service.endpoint)) rest

unfoldable pub replace_services : (ℕ → Option ℕ) → Dispatcher → List ServiceInstance → Dispatcher
unfolding add_services
replace_services parse d services = add_services parse services (new_dispatcher d.dispatch) services
