-- ===== src/Dispatcher/Rounds.antt =====
-- One call of weightRoundRobinDispatch in internal/dispatcher/gameRoute.go on a slice of endpoints: what
-- it selects, and the balance of the current weights.
use xbase.Prelude.{
  ℕ, zero, suc, ◌<◌, ◌≡◌, ◌*◌, ◌^◌, ◌-◌, inl, inr, refl, sym, ap, ap₂, subst, ◌∙◌, Option, none,
  some, List, [], ◌∷◌, arith, length,
}
use xbase.Prelude.Int.{ℤ, pos, ◌+ℤ◌, ◌-ℤ◌, ◌≤ℤ◌, int_laws}
use xbase.Dispatcher.{ServiceEndpoint, select, charge, charged, weigh}
use xbase.Dispatcher.Weights.{
  sum_curr, sum_weight, curr_at, stepped, select-stepped, total_from, select-total, AtMost,
  select-Selects, length-stepped,
}
use xbase.Dispatcher.Exact.{
  added, lowered, sum_curr-added, sum_curr-lowered, sum_weight-lowered, length-lowered,
  length-added, stepped-added, total_from-sum, charge-lowered,
}
use xbase.Dispatcher.Bounds.{
  Bounded, Balanced, greatest_natural, Bounded-weights, Balanced-Fits, total_fits, lowered-IsInt,
}

charged-eq :
    (r : List ServiceEndpoint × Option (ℕ × ℤ) × ℤ) (es : List ServiceEndpoint) (k : ℕ) (v t : ℤ)
    → r.0 ≡ es
    → r.1 ≡ some (k, v)
    → r.2 ≡ t
    → charged r ≡ some (k, charge es k t)
charged-eq (stepped, chosen, total) es k v t a c s =
    ap (λ o. charged (stepped, o, total)) c
    ∙ ap (λ l. some (k, charge l k total)) a
    ∙ ap (λ n. some (k, charge es k n)) s

zero_plus : (a : ℤ) → pos 0 +ℤ a ≡ a
zero_plus a = omega int_laws

-- A call on at least one endpoint selects one whose current weight, with the weights added, is the
-- greatest, and charges it the total, with the sums that wrap around.
pub weigh_lem :
    (se : ServiceEndpoint) (es : List ServiceEndpoint)
    → (k : ℕ) × (weigh (se ∷ es)
        ≡ some (k, charge (stepped (se ∷ es)) k (total_from (pos 0) (se ∷ es))))
      × (k < length (se ∷ es))
      × AtMost (curr_at (stepped (se ∷ es)) k) (stepped (se ∷ es))
unfolding weigh
weigh_lem se es =
    let (j, v, e, low, most, found) = select-Selects 0 se es none (pos 0) in
    elim found [
      | inl q ↦ absurd (ground (arith, q))
      | inr (k, a, b, c) ↦ (
        k,
        charged-eq (select 0 (se ∷ es) none (pos 0)) (stepped (se ∷ es)) k v
            (total_from (pos 0) (se ∷ es)) (select-stepped 0 (se ∷ es) none (pos 0))
            (e ∙ ap (λ i. some (i, v)) (omega arith)) (select-total 0 (se ∷ es) none (pos 0)),
        omega (arith, length-stepped es),
        subst (λ u. AtMost u (stepped (se ∷ es))) (sym c) most,
      )
    ]

lowered-Bounded :
    (total : ℕ) (es : List ServiceEndpoint) (k : ℕ)
    → k < length es
    → Bounded total es
    → pos 0 ≤ℤ curr_at (added es) k
    → Bounded total (lowered (added es) k (pos total))
unfolding lowered
lowered-Bounded total [] k h b c = tt
lowered-Bounded total (se ∷ es) zero h b c = ((b.0.0, omega int_laws), added-bounded es b.1)
  where
    added-bounded : (es : List ServiceEndpoint) → Bounded total es → Bounded total (added es)
    added-bounded [] b = tt
    added-bounded (se ∷ es) b = ((b.0.0, omega int_laws), added-bounded es b.1)
lowered-Bounded total (se ∷ es) (suc k) h b c =
    ((b.0.0, omega int_laws), lowered-Bounded total es k (omega arith) b.1 c)

sum-added :
    (total : ℕ) (es : List ServiceEndpoint) → Balanced total es → sum_curr (added es) ≡ pos total
sum-added total es bal =
    sum_curr-added es
    ∙ ap (λ n. n +ℤ sum_weight es) bal.settled
    ∙ zero_plus (sum_weight es)
    ∙ bal.weights

-- Lowering a greatest endpoint by the total keeps the balance.
lowered-Balanced :
    (total : ℕ) (es : List ServiceEndpoint) (k : ℕ)
    → Balanced total es
    → k < length es
    → pos 0 ≤ℤ curr_at (added es) k
    → Balanced total (lowered (added es) k (pos total))
lowered-Balanced total es k bal below c = record {
  settled =
      sum_curr-lowered (added es) k (pos total) (omega (arith, length-added es))
      ∙ ap (λ n. n -ℤ pos total) (sum-added total es bal)
      ∙ minus_self (pos total);
  weights = sum_weight-lowered es k (pos total) ∙ bal.weights;
  bounded = lowered-Bounded total es k below bal.bounded c;
  small =
      subst (λ n. total * n < 2 ^ 63)
        (sym (length-lowered (added es) k (pos total) ∙ length-added es)) bal.small;
}
  where
    minus_self : (a : ℤ) → a -ℤ a ≡ pos 0
    minus_self a = omega int_laws

total_from-Balanced :
    (total : ℕ) (se : ServiceEndpoint) (es : List ServiceEndpoint)
    → Balanced total (se ∷ es)
    → total_from (pos 0) (se ∷ es) ≡ pos total
total_from-Balanced total se es bal =
    let e : pos 0 +ℤ sum_weight (se ∷ es) ≡ pos total =
      zero_plus (sum_weight (se ∷ es)) ∙ bal.weights in
    total_from-sum (pos 0) (se ∷ es) (omega arith) (Bounded-weights total (se ∷ es) bal.bounded)
      (subst (λ z. z ≤ℤ pos (2 ^ 63 - 1)) (sym e) (total_fits total (length es) bal.small))
    ∙ e

-- A call on a balanced slice with at least one endpoint leaves it balanced, of the same length: it
-- selects an endpoint with the greatest current weight, the weights added, and charges it the total.
-- Balanced is a slice whose current weights add up to 0 and its weights to the total, with no negative
-- weight and no current weight below minus the total, where the total times the number of endpoints is
-- below 2 ^ 63; no sum of the call wraps around.
pub weigh-Balanced :
    (total : ℕ) (se : ServiceEndpoint) (es : List ServiceEndpoint)
    → Balanced total (se ∷ es)
    → (k : ℕ) × (es' : List ServiceEndpoint) × (weigh (se ∷ es) ≡ some (k, es'))
      × Balanced total es'
      × (length es' ≡ length (se ∷ es))
      × (k < length (se ∷ es))
      × AtMost (curr_at (added (se ∷ es)) k) (added (se ∷ es))
      × (es' ≡ lowered (added (se ∷ es)) k (pos total))
weigh-Balanced total se es bal =
    let (k, run, below, top) = weigh_lem se es in
    let exact : stepped (se ∷ es) ≡ added (se ∷ es) =
      stepped-added (se ∷ es) (Balanced-Fits total se es bal) in
    let most : AtMost (curr_at (added (se ∷ es)) k) (added (se ∷ es)) =
      subst (λ l. AtMost (curr_at l k) l) exact top in
    let inside : k < length (added (se ∷ es)) = omega (arith, length-added (se ∷ es)) in
    let high : pos 0 ≤ℤ curr_at (added (se ∷ es)) k =
      greatest_natural (curr_at (added (se ∷ es)) k)
        (record se { curr_weight = se.curr_weight +ℤ se.weight }) (added es) most
        (subst (λ n. pos 0 ≤ℤ n) (sym (sum-added total (se ∷ es) bal)) (omega arith)) in
    (
      k,
      lowered (added (se ∷ es)) k (pos total),
      run
          ∙ ap₂ (λ l t. some (k, charge l k t)) exact (total_from-Balanced total se es bal)
          ∙ ap (λ l. some (k, l))
              (charge-lowered (added (se ∷ es)) k (pos total) inside
                (lowered-IsInt total (length es) (se ∷ es) k bal refl below high)),
      lowered-Balanced total (se ∷ es) k bal below high,
      length-lowered (added (se ∷ es)) k (pos total) ∙ length-added (se ∷ es),
      below,
      most,
      refl,
    )
