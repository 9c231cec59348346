-- ===== src/Dispatcher/Serving.antt =====
-- findServiceEndpointForServiceStatus of internal/dispatcher/gameRoute.go under each dispatch policy.
use xbase.Prelude.{
  ℕ, ◌+◌, ◌%◌, ◌^◌, ◌<◌, ◌≡◌, sym, ap, subst, ◌∙◌, true, false, some, List, [], ◌∷◌, arith, length,
  get_elem?, All, Outcome, ok, bind_outcome,
}
use xbase.Prelude.Int.{pos}
use xbase.Registry.{ServiceStatus, preferred_service_statuses}
use xbase.Dispatcher.{
  ServiceEndpoint, Slot, endpoints_of, put_endpoints, is_empty, balance_endpoints, Dispatch, random,
  round_robin, weight_round_robin, GameRoute, at_index, random_of, round_robin_of, weight_of,
  weighed, unchanged, weigh, charge, dispatch_by,
}
use xbase.Dispatcher.Weights.{stepped, total_from, length-charge, length-stepped}
use xbase.Dispatcher.Rounds.{weigh_lem}
use xbase.Dispatcher.Balance.{
  slot_status, slot_state, Belongs, IsFiled, lists, Offers, put_endpoints-IsFiled,
  first_slot-Offers, get_elem?-Belongs, stepped-Belongs, charge-Belongs, is_empty-length, mod_below,
}

weigh-Belongs :
    (slot : Slot) (es : List ServiceEndpoint)
    → is_empty es ≡ false
    → All (Belongs slot) es
    → (i : ℕ) × (es' : List ServiceEndpoint) × (se : ServiceEndpoint) × (weigh es ≡ some (i, es'))
      × All (Belongs slot) es'
      × (get_elem? es' i ≡ some se)
      × Belongs slot se
weigh-Belongs slot [] n h = absurd (ground (arith, n))
weigh-Belongs slot (first ∷ es) n h =
    let (i, run, below, most) = weigh_lem first es in
    let total = total_from (pos 0) (first ∷ es) in
    let es' = charge (stepped (first ∷ es)) i total in
    let good =
      charge-Belongs slot (stepped (first ∷ es)) i total (stepped-Belongs slot (first ∷ es) h) in
    let (se, e, b) =
      get_elem?-Belongs slot es' i good (
        omega (arith, length-charge (stepped (first ∷ es)) i total, length-stepped (first ∷ es))) in
    (i, es', se, run, good, e, b)

-- The result of a dispatch from a table.
abbrev Serves : Slot → Outcome (ServiceEndpoint × GameRoute) → Type 0
Serves slot o =
    (se : ServiceEndpoint) × (r' : GameRoute) × (o ≡ ok (se, r'))
    × Belongs slot se
    × IsFiled r'.tables

module _ (draw : ℕ → ℕ) (drawn : (n : ℕ) → 0 < n → draw n < n) (r : GameRoute) (slot : Slot)
    (filed : IsFiled r.tables) (some_there : is_empty (endpoints_of r.tables slot) ≡ false) where
  random-Serves : Serves slot (unchanged r (random_of draw r.tables (some slot)))
  random-Serves =
      let es = endpoints_of r.tables slot in
      let (se, e, b) =
        get_elem?-Belongs slot es (draw (length es)) (filed slot)
          (drawn (length es) (is_empty-length es some_there)) in
      (se, r, ap (λ o. unchanged r (at_index o)) e, b, filed)

  round_robin-Serves : Serves slot (round_robin_of r (some slot))
  round_robin-Serves =
      let es = endpoints_of r.tables slot in
      let n = (r.counter + 1) % 2 ^ 64 in
      let (se, e, b) =
        get_elem?-Belongs slot es (n % length es) (filed slot)
          (mod_below n (length es) (is_empty-length es some_there)) in
      (
        se,
        record r { counter = n },
        ap (λ o. bind_outcome (at_index o) (λ se. ok (se, record r { counter = n }))) e,
        b,
        filed,
      )

  weight-Serves : Serves slot (weight_of r (some slot))
  weight-Serves =
      let (i, es', se, run, good, e, b) =
        weigh-Belongs slot (endpoints_of r.tables slot) some_there (filed slot) in
      (
        se,
        record r { tables = put_endpoints r.tables slot es' },
        ap (weighed r slot) run
            ∙ ap
                (λ o.
                  bind_outcome (at_index o)
                    (λ se. ok (se, record r { tables = put_endpoints r.tables slot es' })))
                e,
        b,
        put_endpoints-IsFiled r.tables slot es' filed good,
      )

-- Where the tables are filed by status and state, and the random draw is below its bound: if
-- balanceEndpoints has a table for the status, that table is not empty and of a preferred status, and
-- every policy serves an endpoint that has the status of the table and works or is busy as the table
-- says, and keeps the tables filed; no policy runs out of range.
pub dispatch_by_lem :
    (dispatch : Dispatch) (draw : ℕ → ℕ) (r : GameRoute) (status : ServiceStatus) (slot : Slot)
    → ((n : ℕ) → 0 < n → draw n < n)
    → IsFiled r.tables
    → balance_endpoints r.tables status ≡ some slot
    → (lists (slot_status slot) (preferred_service_statuses status) ≡ true)
      × ((se : ServiceEndpoint) × (r' : GameRoute) × (dispatch_by dispatch draw r status
            ≡ ok (se, r'))
          × (se.status ≡ slot_status slot)
          × (se.state ≡ slot_state slot)
          × IsFiled r'.tables)
unfolding dispatch_by balance_endpoints
dispatch_by_lem dispatch draw r status slot drawn filed e =
    let offers : Offers r.tables (preferred_service_statuses status) (some slot) =
      subst (Offers r.tables (preferred_service_statuses status)) e
        (first_slot-Offers r.tables (preferred_service_statuses status)) in
    (offers.1, flat (by_policy dispatch offers.0))
  where
    flat :
        {o : Outcome (ServiceEndpoint × GameRoute)}
        → Serves slot o
        → (se : ServiceEndpoint) × (r' : GameRoute) × (o ≡ ok (se, r'))
          × (se.status ≡ slot_status slot)
          × (se.state ≡ slot_state slot)
          × IsFiled r'.tables
    flat (se, r', e, b, f) = (se, r', e, b.0, b.1, f)

    by_policy :
        (dispatch : Dispatch)
        → is_empty (endpoints_of r.tables slot) ≡ false
        → Serves slot (dispatch_by dispatch draw r status)
    by_policy random there =
        subst (λ o. Serves slot (unchanged r (random_of draw r.tables o))) (sym e)
          (random-Serves draw drawn r slot filed there)
    by_policy round_robin there =
        subst (λ o. Serves slot (round_robin_of r o)) (sym e)
          (round_robin-Serves draw drawn r slot filed there)
    by_policy weight_round_robin there =
        subst (λ o. Serves slot (weight_of r o)) (sym e)
          (weight-Serves draw drawn r slot filed there)
