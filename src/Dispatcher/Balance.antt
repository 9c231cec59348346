-- ===== src/Dispatcher/Balance.antt =====
-- The tables that a route of internal/dispatcher hands endpoints out of: their status and their state.
use xbase.Prelude.{
  ℕ, zero, suc, ◌%◌, ◌<◌, ◌≡◌, refl, sym, Bool, true, false, Option, none, some, List, [], ◌∷◌,
  ◌++◌, arith, ◌||◌, if◌then◌else◌, length, get_elem?, All, All-append,
}
use xbase.Prelude.Int.{ℤ}
use xbase.Registry.{
  ServiceStatus, normal, gray, on_test, State, work, busy, hang, shut, other_state, status_eq,
}
use xbase.Dispatcher.{
  ServiceEndpoint, Tables, new_abstract, file_by_state, add_service_endpoint, Slot, normal_work,
  normal_busy, test_work, test_busy, gray_work, gray_busy, endpoints_of, put_endpoints, work_slot,
  busy_slot, is_empty, first_slot, charge,
}
use xbase.Dict.{insert}
use xbase.Dispatcher.Weights.{stepped}

abbrev pub slot_status : Slot → ServiceStatus
slot_status normal_work = normal
slot_status normal_busy = normal
slot_status test_work = on_test
slot_status test_busy = on_test
slot_status gray_work = gray
slot_status gray_busy = gray

abbrev pub slot_state : Slot → State
slot_state normal_work = work
slot_state normal_busy = busy
slot_state test_work = work
slot_state test_busy = busy
slot_state gray_work = work
slot_state gray_busy = busy

abbrev pub Belongs : Slot → ServiceEndpoint → Type 0
Belongs slot se = (se.status ≡ slot_status slot) × (se.state ≡ slot_state slot)

-- Every endpoint of a balanced table has the status and the state of the table.
abbrev pub IsFiled : Tables → Type 0
IsFiled a = (slot : Slot) → All (Belongs slot) (endpoints_of a slot)

pub new_abstract-IsFiled : IsFiled new_abstract
new_abstract-IsFiled normal_work = tt
new_abstract-IsFiled normal_busy = tt
new_abstract-IsFiled test_work = tt
new_abstract-IsFiled test_busy = tt
new_abstract-IsFiled gray_work = tt
new_abstract-IsFiled gray_busy = tt

pub put_endpoints-IsFiled :
    (a : Tables) (slot : Slot) (es : List ServiceEndpoint)
    → IsFiled a
    → All (Belongs slot) es
    → IsFiled (put_endpoints a slot es)
put_endpoints-IsFiled a normal_work es f h normal_work = h
put_endpoints-IsFiled a normal_busy es f h normal_busy = h
put_endpoints-IsFiled a test_work es f h test_work = h
put_endpoints-IsFiled a test_busy es f h test_busy = h
put_endpoints-IsFiled a gray_work es f h gray_work = h
put_endpoints-IsFiled a gray_busy es f h gray_busy = h
put_endpoints-IsFiled a put es f h other = f other

-- The other tables do not count.
others-IsFiled :
    (a : Tables) (hung shut_down : List ServiceEndpoint) (all : List (ℕ × ServiceEndpoint))
    → IsFiled a
    → IsFiled (record a { endpoints3 = hung; endpoints4 = shut_down; endpoints5 = all })
others-IsFiled a hung shut_down all f normal_work = f normal_work
others-IsFiled a hung shut_down all f slot = f slot

appended :
    (a : Tables) (slot : Slot) (se : ServiceEndpoint)
    → IsFiled a
    → Belongs slot se
    → IsFiled (put_endpoints a slot (endpoints_of a slot ++ (se ∷ [])))
appended a slot se f h =
    put_endpoints-IsFiled a slot (endpoints_of a slot ++ (se ∷ [])) f
      (All-append (Belongs slot) (endpoints_of a slot) (se ∷ []) (f slot) (h, tt))

file_by_state-IsFiled :
    (a : Tables) (status : ServiceStatus) (state : State) (se : ServiceEndpoint)
    → IsFiled a
    → se.status ≡ status
    → se.state ≡ state
    → IsFiled (file_by_state a status state se)
file_by_state-IsFiled a status hang se f h k =
    others-IsFiled a (a.endpoints3 ++ (se ∷ [])) a.endpoints4 a.endpoints5 f
file_by_state-IsFiled a status shut se f h k =
    others-IsFiled a a.endpoints3 (a.endpoints4 ++ (se ∷ [])) a.endpoints5 f
file_by_state-IsFiled a status other_state se f h k = f
file_by_state-IsFiled a normal work se f h k = appended a normal_work se f (h, k)
file_by_state-IsFiled a normal busy se f h k = appended a normal_busy se f (h, k)
file_by_state-IsFiled a gray work se f h k = appended a gray_work se f (h, k)
file_by_state-IsFiled a gray busy se f h k = appended a gray_busy se f (h, k)
file_by_state-IsFiled a on_test work se f h k = appended a test_work se f (h, k)
file_by_state-IsFiled a on_test busy se f h k = appended a test_busy se f (h, k)

-- Adding an endpoint keeps the tables filed by status and state.
pub add_service_endpoint-IsFiled :
    (a : Tables) (se : ServiceEndpoint) (balance : Bool)
    → IsFiled a
    → IsFiled (add_service_endpoint a se balance)
unfolding add_service_endpoint
add_service_endpoint-IsFiled a se true f =
    let all = insert se.ins_id se a.endpoints5 in
    file_by_state-IsFiled (record a { endpoints5 = all }) se.status se.state se
      (others-IsFiled a a.endpoints3 a.endpoints4 all f) refl refl
add_service_endpoint-IsFiled a se false f =
    others-IsFiled a a.endpoints3 a.endpoints4 (insert se.ins_id se a.endpoints5) f

-- A status that is listed.
abbrev pub lists : ServiceStatus → List ServiceStatus → Bool
lists status [] = false
lists status (p ∷ ps) = status_eq status p || lists status ps

slot_status-work : (p : ServiceStatus) → status_eq (slot_status (work_slot p)) p ≡ true
slot_status-work normal = refl
slot_status-work gray = refl
slot_status-work on_test = refl

slot_status-busy : (p : ServiceStatus) → status_eq (slot_status (busy_slot p)) p ≡ true
slot_status-busy normal = refl
slot_status-busy gray = refl
slot_status-busy on_test = refl

abbrev pub Offers : Tables → List ServiceStatus → Option Slot → Type 0
Offers a ps none = Unit
Offers a ps (some slot) =
    (is_empty (endpoints_of a slot) ≡ false) × (lists (slot_status slot) ps ≡ true)

Offers-more :
    (a : Tables) (p : ServiceStatus) (ps : List ServiceStatus) (o : Option Slot)
    → Offers a ps o
    → Offers a (p ∷ ps) o
Offers-more a p ps none h = tt
Offers-more a p ps (some slot) h = (h.0, ground (arith, h.1))

pub first_slot-Offers : (a : Tables) (ps : List ServiceStatus) → Offers a ps (first_slot a ps)
unfolding first_slot
first_slot-Offers a [] = tt
first_slot-Offers a (p ∷ ps) =
    by_tests (is_empty (endpoints_of a (work_slot p))) (is_empty (endpoints_of a (busy_slot p)))
      (first_slot a ps) refl refl (first_slot-Offers a ps)
  where
    by_tests :
        (b c : Bool) (o : Option Slot)
        → b ≡ is_empty (endpoints_of a (work_slot p))
        → c ≡ is_empty (endpoints_of a (busy_slot p))
        → Offers a ps o
        → Offers a (p ∷ ps) (if b then if c then o else some (busy_slot p) else some (work_slot p))
    by_tests true true o e f h = Offers-more a p ps o h
    by_tests true false o e f h = (sym f, ground (arith, slot_status-busy p))
    by_tests false c o e f h = (sym e, ground (arith, slot_status-work p))

-- The endpoint at an index inside a table that is not empty.
pub get_elem?-Belongs :
    (slot : Slot) (es : List ServiceEndpoint) (i : ℕ)
    → All (Belongs slot) es
    → i < length es
    → (se : ServiceEndpoint) × (get_elem? es i ≡ some se) × Belongs slot se
get_elem?-Belongs slot [] i h k = absurd (omega arith)
get_elem?-Belongs slot (se ∷ es) zero h k = (se, refl, h.0)
get_elem?-Belongs slot (se ∷ es) (suc i) h k = get_elem?-Belongs slot es i h.1 (omega arith)

pub stepped-Belongs :
    (slot : Slot) (es : List ServiceEndpoint)
    → All (Belongs slot) es
    → All (Belongs slot) (stepped es)
stepped-Belongs slot [] h = tt
stepped-Belongs slot (se ∷ es) h = (h.0, stepped-Belongs slot es h.1)

pub charge-Belongs :
    (slot : Slot) (es : List ServiceEndpoint) (i : ℕ) (t : ℤ)
    → All (Belongs slot) es
    → All (Belongs slot) (charge es i t)
unfolding charge
charge-Belongs slot [] i t h = tt
charge-Belongs slot (se ∷ es) zero t h = h
charge-Belongs slot (se ∷ es) (suc i) t h = (h.0, charge-Belongs slot es i t h.1)

pub is_empty-length : (es : List ServiceEndpoint) → is_empty es ≡ false → 0 < length es
is_empty-length [] h = absurd (ground (arith, h))
is_empty-length (se ∷ es) h = omega arith

pub mod_below : (n m : ℕ) → 0 < m → n % m < m
mod_below n m h = grind arith
