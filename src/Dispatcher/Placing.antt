-- ===== src/Dispatcher/Placing.antt =====
-- addServiceEndpoint of internal/dispatcher/abstract.go: which balanced table an endpoint goes to.
use xbase.Prelude.{
  ℕ, ◌≡◌, ◌⊎◌, inl, inr, refl, ap, ◌∙◌, Bool, true, false, List, [], ◌∷◌, ◌++◌, arith, ◌&&◌,
  if◌then◌else◌, Bool-cases,
}
use xbase.Dict.{insert}
use xbase.Registry.{
  ServiceStatus, normal, gray, on_test, State, work, busy, hang, shut, other_state,
}
use xbase.Dispatcher.{
  ServiceEndpoint, Tables, file_by_state, add_service_endpoint, Slot, normal_work, normal_busy,
  test_work, test_busy, gray_work, gray_busy, endpoints_of, put_endpoints,
}
use xbase.Dispatcher.Balance.{Belongs}

abbrev pub serving : State → Bool
serving work = true
serving busy = true
serving _ = false

abbrev pub slot_eq : Slot → Slot → Bool
slot_eq normal_work normal_work = true
slot_eq normal_busy normal_busy = true
slot_eq test_work test_work = true
slot_eq test_busy test_busy = true
slot_eq gray_work gray_work = true
slot_eq gray_busy gray_busy = true
slot_eq _ _ = false

-- What adding an endpoint does to the balanced tables: it goes to the end of the one of its status and
-- its state, or to none where it is not balanced or its state is not one of the two.
abbrev pub Placed : Tables → ServiceEndpoint → Tables → Type 0
Placed a se a' =
    (slot : Slot) × Belongs slot se
    × ((other : Slot)
        → endpoints_of a' other ≡ (
            if slot_eq slot other then endpoints_of a other ++ (se ∷ []) else endpoints_of a other))

abbrev pub Left : Tables → Tables → Type 0
Left a a' = (other : Slot) → endpoints_of a' other ≡ endpoints_of a other

pub slot_eq_refl : (s : Slot) → slot_eq s s ≡ true
slot_eq_refl normal_work = refl
slot_eq_refl normal_busy = refl
slot_eq_refl test_work = refl
slot_eq_refl test_busy = refl
slot_eq_refl gray_work = refl
slot_eq_refl gray_busy = refl

slot_eq-eq : (s t : Slot) → slot_eq s t ≡ true → s ≡ t
slot_eq-eq normal_work normal_work h = refl
slot_eq-eq normal_busy normal_busy h = refl
slot_eq-eq test_work test_work h = refl
slot_eq-eq test_busy test_busy h = refl
slot_eq-eq gray_work gray_work h = refl
slot_eq-eq gray_busy gray_busy h = refl
slot_eq-eq s t h = absurd (ground (arith, h))

endpoints_of-put :
    (a : Tables) (slot other : Slot) (es : List ServiceEndpoint)
    → endpoints_of (put_endpoints a slot es) other
      ≡ (if slot_eq slot other then es else endpoints_of a other)
endpoints_of-put a normal_work normal_work es = refl
endpoints_of-put a normal_busy normal_busy es = refl
endpoints_of-put a test_work test_work es = refl
endpoints_of-put a test_busy test_busy es = refl
endpoints_of-put a gray_work gray_work es = refl
endpoints_of-put a gray_busy gray_busy es = refl
endpoints_of-put a slot other es = refl

same_balanced :
    (a : Tables) (hung shut_down : List ServiceEndpoint) (all : List (ℕ × ServiceEndpoint))
    → Left a (record a { endpoints3 = hung; endpoints4 = shut_down; endpoints5 = all })
same_balanced a hung shut_down all normal_work = refl
same_balanced a hung shut_down all slot = refl

put-Placed :
    (a : Tables) (slot : Slot) (se : ServiceEndpoint)
    → Belongs slot se
    → Placed a se (put_endpoints a slot (endpoints_of a slot ++ (se ∷ [])))
put-Placed a slot se b = (slot, b, λ other. placed_at other)
  where
    placed_at :
        (other : Slot)
        → endpoints_of (put_endpoints a slot (endpoints_of a slot ++ (se ∷ []))) other
          ≡ (if slot_eq slot other then endpoints_of a other ++ (se ∷ []) else endpoints_of a other)
    placed_at other = elim (Bool-cases (slot_eq slot other)) [
      | inl e ↦
          endpoints_of-put a slot other (endpoints_of a slot ++ (se ∷ []))
          ∙ rw e (ap (λ s. endpoints_of a s ++ (se ∷ [])) (slot_eq-eq slot other e))
      | inr e ↦ endpoints_of-put a slot other (endpoints_of a slot ++ (se ∷ [])) ∙ rw e refl
    ]

file_by_state_lem :
    (a : Tables) (status : ServiceStatus) (state : State) (se : ServiceEndpoint)
    → se.status ≡ status
    → se.state ≡ state
    → Placed a se (file_by_state a status state se)
      ⊎ ((serving state ≡ false) × Left a (file_by_state a status state se))
file_by_state_lem a status hang se h k =
    inr (refl, same_balanced a (a.endpoints3 ++ (se ∷ [])) a.endpoints4 a.endpoints5)
file_by_state_lem a status shut se h k =
    inr (refl, same_balanced a a.endpoints3 (a.endpoints4 ++ (se ∷ [])) a.endpoints5)
file_by_state_lem a status other_state se h k = inr (refl, λ slot. refl)
file_by_state_lem a normal work se h k = inl (put-Placed a normal_work se (h, k))
file_by_state_lem a normal busy se h k = inl (put-Placed a normal_busy se (h, k))
file_by_state_lem a gray work se h k = inl (put-Placed a gray_work se (h, k))
file_by_state_lem a gray busy se h k = inl (put-Placed a gray_busy se (h, k))
file_by_state_lem a on_test work se h k = inl (put-Placed a test_work se (h, k))
file_by_state_lem a on_test busy se h k = inl (put-Placed a test_busy se (h, k))

-- An endpoint that is balanced and works or is busy is placed; any other leaves the balanced tables.
pub add_service_endpoint_lem :
    (a : Tables) (se : ServiceEndpoint) (balance : Bool)
    → ((balance ≡ true) × Placed a se (add_service_endpoint a se balance))
      ⊎ ((balance && serving se.state ≡ false) × Left a (add_service_endpoint a se balance))
unfolding add_service_endpoint
add_service_endpoint_lem a se false =
    inr (refl, same_balanced a a.endpoints3 a.endpoints4 (insert se.ins_id se a.endpoints5))
add_service_endpoint_lem a se true =
    let a₁ = record a { endpoints5 = insert se.ins_id se a.endpoints5 } in
    let kept = same_balanced a a.endpoints3 a.endpoints4 (insert se.ins_id se a.endpoints5) in
    elim (file_by_state_lem a₁ se.status se.state se refl refl) [
      | inl (slot, b, at) ↦ inl (
        refl,
        (
          slot,
          b,
          λ other.
              at other ∙ ap (λ es. if slot_eq slot other then es ++ (se ∷ []) else es) (kept other),
        ),
      )
      | inr (idle, left) ↦ inr (idle, λ other. left other ∙ kept other)
    ]
