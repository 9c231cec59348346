-- ===== src/Dispatcher/Tests.antt =====
-- The dispatcher on two nodes of one game, of which the first has the weight 3 and the second 1, and on
-- the instances of two versions.
use xbase.Prelude.{
  ℕ, ◌≡◌, ◌<◌, refl, Bool, true, false, Option, none, some, List, [], ◌∷◌, arith, length, get_elem?,
  ◌*◌, ◌^◌, zero, suc, ap, subst, All, ok,
}
use xbase.Prelude.Int.{ℤ, pos, ◌≤ℤ◌}
use xbase.Dict.{lookup, has}
use xbase.Registry.{
  ServiceStatus, normal, gray, State, work, busy, node, ServiceInstance, normal_text, gray_text,
  service_status_of, preferred_service_statuses,
}
use xbase.Registry.Versions.{is_at_least}
use xbase.Dispatcher.{
  ServiceEndpoint, new_abstract, Slot, normal_work, endpoints_of, balance_endpoints,
  weight_round_robin, GameRoute, weigh, dispatch_by, put_endpoints,
}
use xbase.Dispatcher.Weights.{curr_at, AtMost}
use xbase.Dispatcher.Exact.{added, lowered}
use xbase.Dispatcher.Bounds.{Balanced}
use xbase.Dispatcher.Rounds.{weigh-Balanced}
use xbase.Dispatcher.Fairness.{rounds, rounds-fair}
use xbase.Dispatcher.Balance.{IsFiled, lists, put_endpoints-IsFiled, new_abstract-IsFiled}
use xbase.Dispatcher.Serving.{dispatch_by_lem}
use xbase.Dispatcher.Services.{new_dispatcher, balance_of, endpoint_of, replace_services}
use xbase.Dispatcher.Replace.{Stems, balance_of-newest, replace_services_lem}
use xbase.Dispatcher.Offering.{Offered, replace_services-Offered}

abbrev heavy : ServiceEndpoint
heavy = record {
  ins_id = 1;
  state = work;
  status = normal;
  endpoint = 9;
  weight = pos 3;
  curr_weight = pos 0;
}

abbrev light : ServiceEndpoint
light = record {
  ins_id = 2;
  state = work;
  status = normal;
  endpoint = 8;
  weight = pos 1;
  curr_weight = pos 0;
}

abbrev pair : List ServiceEndpoint
pair = heavy ∷ light ∷ []

pair-Balanced : Balanced 4 pair
unfolding xbase.Prelude.Int.◌+ℤ◌
pair-Balanced = record {
  settled = refl;
  weights = refl;
  bounded = ((omega arith, omega arith), ((omega arith, omega arith), tt));
  small = omega arith;
}

-- Three turns of the first endpoint to one of the second, and the weights are as before.
rounds_test : rounds 4 pair ≡ 0 ∷ 0 ∷ 1 ∷ 0 ∷ []
unfolding rounds weigh xbase.Prelude.Int.add_int xbase.Prelude.Int.sub_int xbase.Prelude.Int.◌+ℤ◌
    xbase.Prelude.Int.◌-ℤ◌
rounds_test = refl

-- Weights of 2 ^ 62 are outside of the bound: the sums wrap around, and both calls select the first
-- endpoint.
abbrev huge : ServiceEndpoint
huge = record heavy { weight = pos (2 ^ 62) }

huge_test : rounds 2 (huge ∷ huge ∷ huge ∷ []) ≡ 0 ∷ 0 ∷ []
unfolding rounds weigh xbase.Prelude.Int.add_int xbase.Prelude.Int.sub_int xbase.Prelude.Int.◌+ℤ◌
    xbase.Prelude.Int.◌-ℤ◌
huge_test = refl

rounds-fair_example : has 1 (rounds (suc (4 * 2)) pair) ≡ true
rounds-fair_example = rounds-fair 4 1 pair pair-Balanced (omega arith) (omega arith)

weigh-Balanced_example :
    (k : ℕ) × (es' : List ServiceEndpoint) × (weigh pair ≡ some (k, es'))
    × Balanced 4 es'
    × (length es' ≡ 2)
    × (k < 2)
    × AtMost (curr_at (added pair) k) (added pair)
    × (es' ≡ lowered (added pair) k (pos 4))
weigh-Balanced_example = weigh-Balanced 4 heavy (light ∷ []) pair-Balanced

abbrev route : GameRoute
route = record {
  tables = put_endpoints new_abstract normal_work pair;
  group = 5;
  counter = 0;
  game_id = 3;
}

abbrev draw_first : ℕ → ℕ
draw_first n = 0

-- A gray caller is served by a node of normal status.
gray_served : balance_endpoints route.tables gray ≡ some normal_work
unfolding balance_endpoints
gray_served = refl

dispatch_by_lem_example :
    (lists normal (preferred_service_statuses gray) ≡ true)
    × ((se : ServiceEndpoint) × (r' : GameRoute) × (dispatch_by weight_round_robin draw_first route
            gray
          ≡ ok (se, r'))
        × (se.status ≡ normal)
        × (se.state ≡ work)
        × IsFiled r'.tables)
dispatch_by_lem_example =
    dispatch_by_lem weight_round_robin draw_first route gray normal_work (λ n h. h)
      (put_endpoints-IsFiled new_abstract normal_work pair new_abstract-IsFiled
        ((refl, refl), ((refl, refl), tt)))
      gray_served

-- Versions "1" and "2" of one game.
abbrev older_node : ServiceInstance
older_node = record {
  id = 1;
  kind = node;
  alias = 5;
  state = work;
  events = 6 ∷ [];
  endpoint = 9;
  weight = pos 3;
  game_id = 3;
  version = 49 ∷ [];
  status_text = normal_text;
}

abbrev newer_node : ServiceInstance
newer_node = record {
  id = 2;
  kind = node;
  alias = 5;
  state = busy;
  events = 6 ∷ [];
  endpoint = 8;
  weight = pos 1;
  game_id = 3;
  version = 50 ∷ [];
  status_text = normal_text;
}

abbrev nodes : List ServiceInstance
nodes = older_node ∷ newer_node ∷ []

abbrev parse_any : ℕ → Option ℕ
parse_any text = some text

newer_balanced : balance_of nodes newer_node ≡ true
unfolding balance_of lookup xbase.Registry.max_version_for_game xbase.Dict.insert
    xbase.Registry.Versions.is_newer xbase.Registry.Versions.parse_version_part
    xbase.Registry.is_latest_version is_at_least xbase.Registry.max_version_for_status
newer_balanced = refl

older_unbalanced : balance_of nodes older_node ≡ false
unfolding balance_of lookup xbase.Registry.max_version_for_game xbase.Dict.insert
    xbase.Registry.Versions.is_newer xbase.Registry.Versions.parse_version_part
    xbase.Registry.is_latest_version is_at_least xbase.Registry.max_version_for_status
older_unbalanced = refl

status_same : service_status_of older_node ≡ service_status_of newer_node
unfolding service_status_of
status_same = refl

balance_of-newest_example : is_at_least (50 ∷ []) (49 ∷ []) ≡ true
balance_of-newest_example =
    balance_of-newest nodes 0 newer_node older_node refl refl refl refl status_same newer_balanced

abbrev made : GameRoute
made = record {
  tables = record new_abstract {
    endpoints2 = endpoint_of newer_node 8 ∷ [];
    endpoints5 = (1, endpoint_of older_node 9) ∷ (2, endpoint_of newer_node 8) ∷ [];
  };
  group = 5;
  counter = 0;
  game_id = 3;
}

made_there :
    lookup 3 (replace_services parse_any (new_dispatcher weight_round_robin) nodes).routes
    ≡ some made
unfolding replace_services balance_of service_status_of lookup xbase.Registry.max_version_for_game
    xbase.Dict.insert xbase.Registry.Versions.is_newer xbase.Registry.Versions.parse_version_part
    xbase.Registry.is_latest_version is_at_least xbase.Registry.max_version_for_status
made_there = refl

replace_services_lem_example :
    IsFiled made.tables
    × ((slot : Slot) → All (Stems parse_any nodes 3) (endpoints_of made.tables slot))
replace_services_lem_example =
    replace_services_lem parse_any (new_dispatcher weight_round_robin) nodes 3 made made_there

replace_services-Offered_example :
    Offered
      (replace_services parse_any (new_dispatcher weight_round_robin) nodes).routes
      3
      (endpoint_of newer_node 8)
replace_services-Offered_example =
    replace_services-Offered parse_any nodes newer_node 8 refl newer_balanced refl
      (new_dispatcher weight_round_robin) 1 refl
