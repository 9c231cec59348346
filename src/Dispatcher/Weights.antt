-- ===== src/Dispatcher/Weights.antt =====
-- The loop of weightRoundRobinDispatch in internal/dispatcher/gameRoute.go: it adds the weights, selects
-- an endpoint of the greatest current weight, and charges it the total.
use xbase.Prelude.{
  ℕ, zero, suc, ◌+◌, ◌<◌, ◌≡◌, ◌⊎◌, inl, inr, refl, ap, subst, Bool, true, false, Option, none,
  some, List, [], ◌∷◌, arith, if◌then◌else◌, length, Bool-cases, All,
}
use xbase.Prelude.Int.{ℤ, pos, ◌+ℤ◌, ◌≤ℤ◌, ltb_ℤ, add_int}
use xbase.Dispatcher.{ServiceEndpoint, select, charge, better}

abbrev pub sum_curr : List ServiceEndpoint → ℤ
sum_curr [] = pos 0
sum_curr (se ∷ es) = se.curr_weight +ℤ sum_curr es

abbrev pub sum_weight : List ServiceEndpoint → ℤ
sum_weight [] = pos 0
sum_weight (se ∷ es) = se.weight +ℤ sum_weight es

abbrev pub curr_at : List ServiceEndpoint → ℕ → ℤ
curr_at [] k = pos 0
curr_at (se ∷ es) zero = se.curr_weight
curr_at (se ∷ es) (suc k) = curr_at es k

abbrev pub weight_at : List ServiceEndpoint → ℕ → ℤ
weight_at [] k = pos 0
weight_at (se ∷ es) zero = se.weight
weight_at (se ∷ es) (suc k) = weight_at es k

-- Every endpoint with its weight added, as the loop adds it.
abbrev pub stepped : List ServiceEndpoint → List ServiceEndpoint
stepped [] = []
stepped (se ∷ es) = record se { curr_weight = add_int se.curr_weight se.weight } ∷ stepped es

pub select-stepped :
    (i : ℕ) (es : List ServiceEndpoint) (o : Option (ℕ × ℤ)) (t : ℤ)
    → (select i es o t).0 ≡ stepped es
unfolding select
select-stepped i [] o t = refl
select-stepped i (se ∷ es) o t =
    ap (λ l. record se { curr_weight = add_int se.curr_weight se.weight } ∷ l)
      (select-stepped (suc i) es (better o i (add_int se.curr_weight se.weight))
        (add_int t se.weight))

-- The total that the loop comes to from a total on.
abbrev pub total_from : ℤ → List ServiceEndpoint → ℤ
total_from t [] = t
total_from t (se ∷ es) = total_from (add_int t se.weight) es

pub select-total :
    (i : ℕ) (es : List ServiceEndpoint) (o : Option (ℕ × ℤ)) (t : ℤ)
    → (select i es o t).2 ≡ total_from t es
unfolding select
select-total i [] o t = refl
select-total i (se ∷ es) o t =
    select-total (suc i) es (better o i (add_int se.curr_weight se.weight)) (add_int t se.weight)

-- The endpoint at the index has the current weight, and no endpoint has a greater one.
abbrev pub AtMost : ℤ → List ServiceEndpoint → Type 0
AtMost v = All (λ se. se.curr_weight ≤ℤ v)

abbrev pub Chosen : ℕ → List ServiceEndpoint → Option (ℕ × ℤ) → ℕ → ℤ → Type 0
Chosen i es o j v =
    (o ≡ some (j, v)) ⊎ ((k : ℕ) × (j ≡ i + k) × (k < length es) × (curr_at es k ≡ v))

abbrev pub NotBelow : Option (ℕ × ℤ) → ℤ → Type 0
NotBelow none v = Unit
NotBelow (some (j, best)) v = best ≤ℤ v

-- What the loop selects among the endpoints with their weights added, and what was selected before.
abbrev pub Selects : ℕ → List ServiceEndpoint → Option (ℕ × ℤ) → Option (ℕ × ℤ) → Type 0
Selects i es o chosen =
    (j : ℕ) × (v : ℤ) × (chosen ≡ some (j, v)) × NotBelow o v × AtMost v es × Chosen i es o j v

better_low :
    (i j : ℕ) (best curr v : ℤ)
    → NotBelow (better (some (j, best)) i curr) v
    → (best ≤ℤ v) × (curr ≤ℤ v)
better_low i j best curr v h = elim (Bool-cases (ltb_ℤ best curr)) [
  | inl t ↦
      let k : curr ≤ℤ v =
        subst (λ b. NotBelow (if b then some (i, curr) else some (j, best)) v) t h in
      ground (arith, t, k)
  | inr t ↦
      let k : best ≤ℤ v =
        subst (λ b. NotBelow (if b then some (i, curr) else some (j, best)) v) t h in
      ground (arith, t, k)
]

better_picked :
    (i j n : ℕ) (best curr v : ℤ)
    → better (some (j, best)) i curr ≡ some (n, v)
    → (◌≡◌ {A = Option (ℕ × ℤ)} (some (j, best)) (some (n, v))) ⊎ ((n ≡ i) × (curr ≡ v))
better_picked i j n best curr v h = elim (Bool-cases (ltb_ℤ best curr)) [
  | inl t ↦ inr (ground (arith, t, h), ground (arith, t, h))
  | inr t ↦ inl (ground (arith, t, h))
]

picked-Chosen :
    (i : ℕ) (se : ServiceEndpoint) (es : List ServiceEndpoint) (o : Option (ℕ × ℤ)) (j : ℕ) (v : ℤ)
    → (o ≡ some (j, v)) ⊎ ((j ≡ i) × (se.curr_weight ≡ v))
    → Chosen i (se ∷ es) o j v
picked-Chosen i se es o j v (inl e) = inl e
picked-Chosen i se es o j v (inr (e, c)) = inr (0, omega arith, omega arith, c)

select-step :
    (i : ℕ) (se : ServiceEndpoint) (es : List ServiceEndpoint) (o chosen : Option (ℕ × ℤ))
    → Selects (suc i) es (better o i se.curr_weight) chosen
    → Selects i (se ∷ es) o chosen
select-step i se es none chosen (j, v, e, low, most, inl q) =
    (j, v, e, tt, (low, most), inr (0, ground (arith, q), omega arith, ground (arith, q)))
select-step i se es none chosen (j, v, e, low, most, inr (k, a, b, c)) =
    (j, v, e, tt, (low, most), inr (suc k, omega arith, omega arith, c))
select-step i se es (some (j₀, best)) chosen (j, v, e, low, most, inr (k, a, b, c)) =
    let both = better_low i j₀ best se.curr_weight v low in
    (j, v, e, both.0, (both.1, most), inr (suc k, omega arith, omega arith, c))
select-step i se es (some (j₀, best)) chosen (j, v, e, low, most, inl q) =
    let both = better_low i j₀ best se.curr_weight v low in
    (
      j,
      v,
      e,
      both.0,
      (both.1, most),
      picked-Chosen i se es (some (j₀, best)) j v (better_picked i j₀ j best se.curr_weight v q),
    )

better-Selects :
    (o : Option (ℕ × ℤ)) (i : ℕ) (curr : ℤ) → Selects (suc i) [] (better o i curr) (better o i curr)
better-Selects none i curr = (i, curr, refl, omega arith, tt, inl refl)
better-Selects (some (j, best)) i curr = by_test (ltb_ℤ best curr)
  where
    by_test :
        (b : Bool)
        → Selects
            (suc i)
            []
            (if b then some (i, curr) else some (j, best))
            (if b then some (i, curr) else some (j, best))
    by_test true = (i, curr, refl, omega arith, tt, inl refl)
    by_test false = (j, best, refl, omega arith, tt, inl refl)

-- The loop over at least one endpoint.
pub select-Selects :
    (i : ℕ) (se : ServiceEndpoint) (es : List ServiceEndpoint) (o : Option (ℕ × ℤ)) (t : ℤ)
    → Selects i (stepped (se ∷ es)) o (select i (se ∷ es) o t).1
unfolding select
select-Selects i se [] o t =
    let se' : ServiceEndpoint = record se { curr_weight = add_int se.curr_weight se.weight } in
    select-step i se' [] o (better o i se'.curr_weight) (better-Selects o i se'.curr_weight)
select-Selects i se (next ∷ es) o t =
    let se' : ServiceEndpoint = record se { curr_weight = add_int se.curr_weight se.weight } in
    select-step i se' (stepped (next ∷ es)) o _
      (select-Selects (suc i) next es (better o i se'.curr_weight) (add_int t se.weight))

pub length-charge : (es : List ServiceEndpoint) (k : ℕ) (t : ℤ) → length (charge es k t) ≡ length es
unfolding charge
length-charge [] k t = refl
length-charge (se ∷ es) zero t = refl
length-charge (se ∷ es) (suc k) t = ap suc (length-charge es k t)

pub length-stepped : (es : List ServiceEndpoint) → length (stepped es) ≡ length es
length-stepped [] = refl
length-stepped (se ∷ es) = ap suc (length-stepped es)
