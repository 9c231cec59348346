-- ===== src/Dispatcher/Bounds.antt =====
-- The current weights of internal/dispatcher/gameRoute.go: the bounds between which weighted round robin
-- keeps them, so that no sum of a call wraps around.
use xbase.Prelude.{
  ℕ, zero, suc, ◌+◌, ◌*◌, ◌^◌, ◌-◌, ◌<◌, ◌≡◌, inl, inr, refl, sym, subst, List, [], ◌∷◌, arith,
  length, All,
}
use xbase.Prelude.Int.{ℤ, pos, ◌+ℤ◌, ◌-ℤ◌, ◌≤ℤ◌, IsInt, IsInt-between, int_laws, ≤ℤ_total}
use xbase.Dispatcher.{ServiceEndpoint}
use xbase.Dispatcher.Weights.{sum_curr, sum_weight, curr_at, weight_at, AtMost}
use xbase.Dispatcher.Exact.{added, Fits}

pub times_suc : (a n : ℕ) → a * suc n ≡ a + a * n
times_suc a n = grind arith

abbrev pub Bounded : ℕ → List ServiceEndpoint → Type 0
Bounded total = All (λ se. (pos 0 ≤ℤ se.weight) × (pos 0 ≤ℤ se.curr_weight +ℤ pos total))

pub sum_low :
    (total : ℕ) (es : List ServiceEndpoint)
    → Bounded total es
    → pos 0 ≤ℤ sum_curr es +ℤ pos (total * length es)
sum_low total [] b = omega int_laws
sum_low total (se ∷ es) b = omega (int_laws, sum_low total es b.1, times_suc total (length es))

-- One current weight is bounded by the others.
pub top :
    (total n : ℕ) (es : List ServiceEndpoint) (k : ℕ)
    → Bounded total es
    → k < length es
    → length es ≡ suc n
    → curr_at es k ≤ℤ sum_curr es +ℤ pos (total * n)
top total n [] k b h l = absurd (omega arith)
top total n (se ∷ es) zero b h l =
    let e : length es ≡ n = omega arith in rw (← e) (omega (int_laws, sum_low total es b.1))
top total zero (se ∷ es) (suc k) b h l = absurd (omega arith)
top total (suc n) (se ∷ es) (suc k) b h l =
    omega (int_laws, top total n es k b.1 (omega arith) (omega arith), times_suc total n)

-- The current weights add up to 0, the weights to the total; no weight is negative, and no current
-- weight is below minus the total. The total times the number of endpoints fits an int.
pub record Balanced (total : ℕ) (es : List ServiceEndpoint) : Type 0 where
  pub settled : sum_curr es ≡ pos 0
  pub weights : sum_weight es ≡ pos total
  pub bounded : Bounded total es
  pub small : total * length es < 2 ^ 63

pub curr_at-added :
    (es : List ServiceEndpoint) (k : ℕ)
    → k < length es
    → curr_at (added es) k ≡ curr_at es k +ℤ weight_at es k
curr_at-added [] k h = absurd (omega arith)
curr_at-added (se ∷ es) zero h = refl
curr_at-added (se ∷ es) (suc k) h = curr_at-added es k (omega arith)

pub curr_at_low :
    (total : ℕ) (es : List ServiceEndpoint) (k : ℕ)
    → Bounded total es
    → pos 0 ≤ℤ curr_at es k +ℤ pos total
curr_at_low total [] k b = omega int_laws
curr_at_low total (se ∷ es) zero b = b.0.1
curr_at_low total (se ∷ es) (suc k) b = curr_at_low total es k b.1

pub at_most-sum :
    (v : ℤ) (es : List ServiceEndpoint) → AtMost v es → v ≤ℤ pos 0 → sum_curr es ≤ℤ pos 0
at_most-sum v [] h k = omega arith
at_most-sum v (se ∷ es) h k = omega (int_laws, at_most-sum v es h.1 k)

-- So the greatest of them is not negative where the sum is not.
pub greatest_natural :
    (v : ℤ) (se : ServiceEndpoint) (es : List ServiceEndpoint)
    → AtMost v (se ∷ es)
    → pos 0 ≤ℤ sum_curr (se ∷ es)
    → pos 0 ≤ℤ v
greatest_natural v se es h k = elim (≤ℤ_total v (pos 0)) [
  | inl low ↦ omega (int_laws, at_most-sum v es h.1 low, h.0)
  | inr high ↦ high
]

weight_natural :
    (total : ℕ) (es : List ServiceEndpoint) (k : ℕ) → Bounded total es → pos 0 ≤ℤ weight_at es k
weight_natural total [] k b = omega arith
weight_natural total (se ∷ es) zero b = b.0.0
weight_natural total (se ∷ es) (suc k) b = weight_natural total es k b.1

pub Bounded-weights :
    (total : ℕ) (es : List ServiceEndpoint) → Bounded total es → All (λ se. pos 0 ≤ℤ se.weight) es
Bounded-weights total [] b = tt
Bounded-weights total (se ∷ es) b = (b.0.0, Bounded-weights total es b.1)

weight_top :
    (total : ℕ) (es : List ServiceEndpoint) (k : ℕ)
    → Bounded total es
    → weight_at es k ≤ℤ sum_weight es
weight_top total [] k b = omega arith
weight_top total (se ∷ es) zero b = first se.weight (sum_weight es) (sum_natural es b.1)
  where
    first : (w s : ℤ) → pos 0 ≤ℤ s → w ≤ℤ w +ℤ s
    first w s h = omega (int_laws, h)

    sum_natural : (es : List ServiceEndpoint) → Bounded total es → pos 0 ≤ℤ sum_weight es
    sum_natural [] b = omega arith
    sum_natural (se ∷ es) b = omega (int_laws, b.0.0, sum_natural es b.1)
weight_top total (se ∷ es) (suc k) b = omega (int_laws, b.0.0, weight_top total es k b.1)

-- What lies between minus the total and the total times the number of endpoints fits an int.
pub between-IsInt :
    (total m : ℕ) (z : ℤ)
    → total * suc m < 2 ^ 63
    → pos 0 ≤ℤ z +ℤ pos total
    → z ≤ℤ pos (total * suc m)
    → IsInt z
between-IsInt total m z s low high =
    let e = times_suc total m in
    IsInt-between z (omega (int_laws, low, s, e)) (omega (int_laws, high, s))

-- A current weight with its weight added, of a slice in balance.
pub sum_at-between :
    (total m : ℕ) (es : List ServiceEndpoint) (k : ℕ)
    → Balanced total es
    → length es ≡ suc m
    → k < length es
    → (pos 0 ≤ℤ curr_at es k +ℤ weight_at es k +ℤ pos total)
      × (curr_at es k +ℤ weight_at es k ≤ℤ pos (total * suc m))
sum_at-between total m es k bal l h =
    let cap : curr_at es k ≤ℤ pos 0 +ℤ pos (total * m) =
      subst (λ n. curr_at es k ≤ℤ n +ℤ pos (total * m)) bal.settled
        (top total m es k bal.bounded h l) in
    let heavy : weight_at es k ≤ℤ pos total =
      subst (λ n. weight_at es k ≤ℤ n) bal.weights (weight_top total es k bal.bounded) in
    (
      low_sum (curr_at es k) (weight_at es k) (pos total) (curr_at_low total es k bal.bounded)
          (weight_natural total es k bal.bounded),
      high_sum (curr_at es k) (weight_at es k) total (total * m) (total * suc m) (times_suc total m)
          cap heavy,
    )
  where
    low_sum : (c w t : ℤ) → pos 0 ≤ℤ c +ℤ t → pos 0 ≤ℤ w → pos 0 ≤ℤ c +ℤ w +ℤ t
    low_sum c w t h k = omega (int_laws, h, k)

    high_sum :
        (c w : ℤ) (t p q : ℕ) → q ≡ t + p → c ≤ℤ pos 0 +ℤ pos p → w ≤ℤ pos t → c +ℤ w ≤ℤ pos q
    high_sum c w t p q e h k = omega (int_laws, e, h, k)

Fits-at :
    (es : List ServiceEndpoint)
    → ((k : ℕ) → k < length es → IsInt (curr_at es k +ℤ weight_at es k))
    → Fits es
Fits-at [] f = tt
Fits-at (se ∷ es) f = (f zero (omega arith), Fits-at es (λ k h. f (suc k) (omega arith)))

pub Balanced-Fits :
    (total : ℕ) (se : ServiceEndpoint) (es : List ServiceEndpoint)
    → Balanced total (se ∷ es)
    → Fits (se ∷ es)
Balanced-Fits total se es bal = Fits-at (se ∷ es) (λ k h.
    let both = sum_at-between total (length es) (se ∷ es) k bal refl h in
    between-IsInt total (length es) (curr_at (se ∷ es) k +ℤ weight_at (se ∷ es) k) bal.small both.0
      both.1)

-- The total itself, and so every sum of the first weights.
pub total_fits : (total m : ℕ) → total * suc m < 2 ^ 63 → pos total ≤ℤ pos (2 ^ 63 - 1)
total_fits total m s = let e = times_suc total m in omega (arith, e, s)

-- The greatest current weight, lowered by the total.
pub lowered-IsInt :
    (total m : ℕ) (es : List ServiceEndpoint) (k : ℕ)
    → Balanced total es
    → length es ≡ suc m
    → k < length es
    → pos 0 ≤ℤ curr_at (added es) k
    → IsInt (curr_at (added es) k -ℤ pos total)
lowered-IsInt total m es k bal l h c =
    let both = sum_at-between total m es k bal l h in
    let s = subst (λ n. total * n < 2 ^ 63) l bal.small in
    between-IsInt total m (curr_at (added es) k -ℤ pos total) s
      (not_low (curr_at (added es) k) total c)
      (not_high (curr_at (added es) k) total (total * suc m)
        (subst (λ z. z ≤ℤ pos (total * suc m)) (sym (curr_at-added es k h)) both.1))
  where
    not_low : (c : ℤ) (t : ℕ) → pos 0 ≤ℤ c → pos 0 ≤ℤ c -ℤ pos t +ℤ pos t
    not_low c t h = omega (int_laws, h)

    not_high : (c : ℤ) (t q : ℕ) → c ≤ℤ pos q → c -ℤ pos t ≤ℤ pos q
    not_high c t q h = omega (int_laws, h)
