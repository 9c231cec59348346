-- ===== src/Dispatcher.antt =====
-- internal/dispatcher: abstract.go, gameRoute.go, event.go and dispatcher.go. The tables hold the
-- endpoints themselves: the code holds pointers, but an endpoint stands in at most one of the balanced
-- tables of a route, and nothing else reads its current weight. The parsed endpoint is opaque. A call
-- runs under the lock of the route and is one step.
pub mod Rounds
pub mod Weights
pub mod Exact
pub mod Bounds
pub mod Fairness
pub mod Balance
pub mod Serving
pub mod Services
pub mod Placing
pub mod Replace
pub mod Offering
pub mod Fresh
mod Tests
use xbase.Prelude.{
  ℕ, zero, suc, ◌+◌, ◌%◌, ◌^◌, Bool, true, false, Option, none, some, List, [], ◌∷◌, ◌++◌, Outcome,
  ok, err, panic, bind_outcome, not_found_endpoint, ltb, ◌==◌, if◌then◌else◌, length, get_elem?,
}
use xbase.Prelude.Int.{ℤ, pos, add_int, sub_int, ltb_ℤ}
use xbase.Dict.{lookup, insert}
use xbase.Registry.{
  ServiceStatus, normal, gray, on_test, State, work, busy, hang, shut, other_state,
  preferred_service_statuses,
}

-- The weights are of type int.
pub record ServiceEndpoint : Type 0 where
  pub ins_id : ℕ
  pub state : State
  pub status : ServiceStatus
  pub endpoint : ℕ
  pub weight : ℤ
  pub curr_weight : ℤ

-- The struct `abstract`: endpoints1 to endpoints9.
pub record Tables : Type 0 where
  pub endpoints1 : List ServiceEndpoint
  pub endpoints2 : List ServiceEndpoint
  pub endpoints3 : List ServiceEndpoint
  pub endpoints4 : List ServiceEndpoint
  pub endpoints5 : List (ℕ × ServiceEndpoint)
  pub endpoints6 : List ServiceEndpoint
  pub endpoints7 : List ServiceEndpoint
  pub endpoints8 : List ServiceEndpoint
  pub endpoints9 : List ServiceEndpoint

abbrev pub new_abstract : Tables
new_abstract = record {
  endpoints1 = [];
  endpoints2 = [];
  endpoints3 = [];
  endpoints4 = [];
  endpoints5 = [];
  endpoints6 = [];
  endpoints7 = [];
  endpoints8 = [];
  endpoints9 = [];
}

-- The two inner switches that are alike in every status.
abbrev pub file_by_state : Tables → ServiceStatus → State → ServiceEndpoint → Tables
file_by_state a status hang se = record a { endpoints3 = a.endpoints3 ++ (se ∷ []) }
file_by_state a status shut se = record a { endpoints4 = a.endpoints4 ++ (se ∷ []) }
file_by_state a status other_state se = a
file_by_state a on_test work se = record a { endpoints6 = a.endpoints6 ++ (se ∷ []) }
file_by_state a on_test busy se = record a { endpoints7 = a.endpoints7 ++ (se ∷ []) }
file_by_state a gray work se = record a { endpoints8 = a.endpoints8 ++ (se ∷ []) }
file_by_state a gray busy se = record a { endpoints9 = a.endpoints9 ++ (se ∷ []) }
file_by_state a normal work se = record a { endpoints1 = a.endpoints1 ++ (se ∷ []) }
file_by_state a normal busy se = record a { endpoints2 = a.endpoints2 ++ (se ∷ []) }

unfoldable pub add_service_endpoint : Tables → ServiceEndpoint → Bool → Tables
add_service_endpoint a se balance =
    let a₁ = record a { endpoints5 = insert se.ins_id se a.endpoints5 } in
    if balance then file_by_state a₁ se.status se.state se else a₁

-- The slice that balanceEndpoints returns is one of these fields of the route.
pub data Slot : Type 0 where
  normal_work normal_busy test_work test_busy gray_work gray_busy : Slot

abbrev pub endpoints_of : Tables → Slot → List ServiceEndpoint
endpoints_of a normal_work = a.endpoints1
endpoints_of a normal_busy = a.endpoints2
endpoints_of a test_work = a.endpoints6
endpoints_of a test_busy = a.endpoints7
endpoints_of a gray_work = a.endpoints8
endpoints_of a gray_busy = a.endpoints9

-- The writes to the endpoints of such a slice.
abbrev pub put_endpoints : Tables → Slot → List ServiceEndpoint → Tables
put_endpoints a normal_work es = record a { endpoints1 = es }
put_endpoints a normal_busy es = record a { endpoints2 = es }
put_endpoints a test_work es = record a { endpoints6 = es }
put_endpoints a test_busy es = record a { endpoints7 = es }
put_endpoints a gray_work es = record a { endpoints8 = es }
put_endpoints a gray_busy es = record a { endpoints9 = es }

abbrev pub work_slot : ServiceStatus → Slot
work_slot normal = normal_work
work_slot gray = gray_work
work_slot on_test = test_work

abbrev pub busy_slot : ServiceStatus → Slot
busy_slot normal = normal_busy
busy_slot gray = gray_busy
busy_slot on_test = test_busy

abbrev pub is_empty : List ServiceEndpoint → Bool
is_empty [] = true
is_empty (se ∷ es) = false

-- The loop of balanceEndpoints over the preferred statuses; `none` is `nil`.
unfoldable pub first_slot : Tables → List ServiceStatus → Option Slot
first_slot a [] = none
first_slot a (preferred ∷ statuses) =
    let rest = first_slot a statuses in
    if is_empty (endpoints_of a (work_slot preferred))
    then if is_empty (endpoints_of a (busy_slot preferred))
      then rest
      else some (busy_slot preferred)
    else some (work_slot preferred)

unfoldable pub balance_endpoints : Tables → ServiceStatus → Option Slot
unfolding first_slot preferred_service_statuses
balance_endpoints a status = first_slot a (preferred_service_statuses status)

pub data Dispatch : Type 0 where
  random round_robin weight_round_robin : Dispatch

pub record GameRoute : Type 0 where
  pub tables : Tables
  pub group : ℕ
  pub counter : ℕ
  pub game_id : ℕ

abbrev pub new_route : ℕ → ℕ → GameRoute
new_route group game_id = record {
  tables = new_abstract;
  group = group;
  counter = 0;
  game_id = game_id;
}

-- `endpoints[index]`.
abbrev pub at_index : Option ServiceEndpoint → Outcome ServiceEndpoint
at_index none = panic
at_index (some se) = ok se

abbrev pub found_endpoint : Option ServiceEndpoint → Outcome ServiceEndpoint
found_endpoint none = err not_found_endpoint
found_endpoint (some se) = ok se

unfoldable pub direct_dispatch : GameRoute → ℕ → Outcome ServiceEndpoint
direct_dispatch r ins_id = found_endpoint (lookup ins_id r.tables.endpoints5)

-- `rand.IntN(n)` is `draw n`.
abbrev pub random_of : (ℕ → ℕ) → Tables → Option Slot → Outcome ServiceEndpoint
random_of draw a none = err not_found_endpoint
random_of draw a (some slot) =
    at_index (get_elem? (endpoints_of a slot) (draw (length (endpoints_of a slot))))

unfoldable pub random_dispatch : (ℕ → ℕ) → GameRoute → ServiceStatus → Outcome ServiceEndpoint
unfolding balance_endpoints
random_dispatch draw r status = random_of draw r.tables (balance_endpoints r.tables status)

-- The counter is a uint64.
abbrev pub round_robin_of : GameRoute → Option Slot → Outcome (ServiceEndpoint × GameRoute)
round_robin_of r none = err not_found_endpoint
round_robin_of r (some slot) =
    let n = (r.counter + 1) % 2 ^ 64 in
    bind_outcome
      (at_index (get_elem? (endpoints_of r.tables slot) (n % length (endpoints_of r.tables slot))))
      (λ se. ok (se, record r { counter = n }))

unfoldable pub round_robin_dispatch :
    GameRoute → ServiceStatus → Outcome (ServiceEndpoint × GameRoute)
unfolding balance_endpoints
round_robin_dispatch r status = round_robin_of r (balance_endpoints r.tables status)

-- The loop of weightRoundRobinDispatch from the index `i` on: the endpoints with their weights added,
-- the index and the current weight of the selected one, and the total weight.
abbrev pub better : Option (ℕ × ℤ) → ℕ → ℤ → Option (ℕ × ℤ)
better none i curr = some (i, curr)
better (some (j, best)) i curr = if ltb_ℤ best curr then some (i, curr) else some (j, best)

unfoldable pub select :
    ℕ → List ServiceEndpoint → Option (ℕ × ℤ) → ℤ → List ServiceEndpoint × Option (ℕ × ℤ) × ℤ
select i [] selected total = ([], selected, total)
select i (se ∷ es) selected total =
    let curr = add_int se.curr_weight se.weight in
    let (added, chosen, sum) =
      select (suc i) es (better selected i curr) (add_int total se.weight) in
    (record se { curr_weight = curr } ∷ added, chosen, sum)

-- `selected.currWeight -= totalWeight`.
unfoldable pub charge : List ServiceEndpoint → ℕ → ℤ → List ServiceEndpoint
charge [] i total = []
charge (se ∷ es) zero total = record se { curr_weight = sub_int se.curr_weight total } ∷ es
charge (se ∷ es) (suc i) total = se ∷ charge es i total

-- What the loop and the write after it do to a slice: the index selected and the slice.
abbrev pub charged : List ServiceEndpoint × Option (ℕ × ℤ) × ℤ → Option (ℕ × List ServiceEndpoint)
charged (added, none, total) = none
charged (added, some (i, best), total) = some (i, charge added i total)

unfoldable pub weigh : List ServiceEndpoint → Option (ℕ × List ServiceEndpoint)
unfolding select charge
weigh es = charged (select 0 es none (pos 0))

abbrev pub weighed :
    GameRoute → Slot → Option (ℕ × List ServiceEndpoint) → Outcome (ServiceEndpoint × GameRoute)
weighed r slot none = err not_found_endpoint
weighed r slot (some (i, es)) =
    bind_outcome (at_index (get_elem? es i))
      (λ se. ok (se, record r { tables = put_endpoints r.tables slot es }))

abbrev pub weight_of : GameRoute → Option Slot → Outcome (ServiceEndpoint × GameRoute)
weight_of r none = err not_found_endpoint
weight_of r (some slot) = weighed r slot (weigh (endpoints_of r.tables slot))

unfoldable pub weight_round_robin_dispatch :
    GameRoute → ServiceStatus → Outcome (ServiceEndpoint × GameRoute)
unfolding balance_endpoints weigh
weight_round_robin_dispatch r status = weight_of r (balance_endpoints r.tables status)

-- findServiceEndpointForServiceStatus; the empty id is 0, which is also an id that is left out.
abbrev pub unchanged : GameRoute → Outcome ServiceEndpoint → Outcome (ServiceEndpoint × GameRoute)
unchanged r (ok se) = ok (se, r)
unchanged r (err e) = err e
unchanged r panic = panic

unfoldable pub dispatch_by :
    Dispatch → (ℕ → ℕ) → GameRoute → ServiceStatus → Outcome (ServiceEndpoint × GameRoute)
unfolding random_dispatch round_robin_dispatch weight_round_robin_dispatch
dispatch_by random draw r status = unchanged r (random_dispatch draw r status)
dispatch_by round_robin draw r status = round_robin_dispatch r status
dispatch_by weight_round_robin draw r status = weight_round_robin_dispatch r status

unfoldable pub find_service_endpoint :
    Dispatch → (ℕ → ℕ) → GameRoute → ServiceStatus → ℕ → Outcome (ServiceEndpoint × GameRoute)
unfolding dispatch_by direct_dispatch
find_service_endpoint dispatch draw r status ins_id =
    if ins_id == 0
    then dispatch_by dispatch draw r status
    else unchanged r (direct_dispatch r ins_id)
