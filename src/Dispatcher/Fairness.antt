-- ===== src/Dispatcher/Fairness.antt =====
-- Weighted round robin of internal/dispatcher/gameRoute.go over many calls.
use xbase.Prelude.{
  ℕ, zero, suc, ◌*◌, ◌<◌, ◌≡◌, ◌≢◌, inl, inr, refl, sym, ap, subst, ◌∙◌, true, none, some, List, [],
  ◌∷◌, arith, ◌==◌, length, Bool-cases,
}
use xbase.Prelude.Int.{ℤ, pos, ◌+ℤ◌, ◌≤ℤ◌, int_laws}
use xbase.Dict.{has}
use xbase.Dispatcher.{ServiceEndpoint, weigh}
use xbase.Dispatcher.Weights.{curr_at, weight_at}
use xbase.Dispatcher.Exact.{added, lowered}
use xbase.Dispatcher.Bounds.{Balanced, top, times_suc, curr_at_low, curr_at-added}
use xbase.Dispatcher.Rounds.{weigh-Balanced}

-- The indices that consecutive calls on a slice select.
unfoldable pub rounds : ℕ → List ServiceEndpoint → List ℕ
rounds zero es = []
rounds (suc n) es = elim (weigh es) [ none ↦ [] | some (k, es') ↦ k ∷ rounds n es' ]

curr_at-lowered :
    (es : List ServiceEndpoint) (i k : ℕ) (t : ℤ)
    → i ≢ k
    → curr_at (lowered es i t) k ≡ curr_at es k
unfolding lowered
curr_at-lowered [] i k t n = refl
curr_at-lowered (se ∷ es) zero zero t n = absurd (n refl)
curr_at-lowered (se ∷ es) zero (suc k) t n = refl
curr_at-lowered (se ∷ es) (suc i) zero t n = refl
curr_at-lowered (se ∷ es) (suc i) (suc k) t n = curr_at-lowered es i k t (λ e. n (ap suc e))

weight_at-lowered :
    (es : List ServiceEndpoint) (i k : ℕ) (t : ℤ)
    → weight_at (lowered (added es) i t) k ≡ weight_at es k
unfolding lowered
weight_at-lowered [] i k t = refl
weight_at-lowered (se ∷ es) zero zero t = refl
weight_at-lowered (se ∷ es) zero (suc k) t = weight_at-added es k
  where
    weight_at-added : (es : List ServiceEndpoint) (k : ℕ) → weight_at (added es) k ≡ weight_at es k
    weight_at-added [] k = refl
    weight_at-added (se ∷ es) zero = refl
    weight_at-added (se ∷ es) (suc k) = weight_at-added es k
weight_at-lowered (se ∷ es) (suc i) zero t = refl
weight_at-lowered (se ∷ es) (suc i) (suc k) t = weight_at-lowered es i k t

module _ (total k : ℕ) where
  -- An endpoint whose current weight and rounds to come are above the bound is selected in time.
  due :
      (m n : ℕ) (es : List ServiceEndpoint)
      → Balanced total es
      → length es ≡ suc m
      → k < length es
      → pos 1 ≤ℤ weight_at es k
      → pos (total * m) +ℤ pos 1 ≤ℤ curr_at es k +ℤ pos n
      → has k (rounds n es) ≡ true
  unfolding rounds has
  due m zero es bal l h w p =
      let cap_at : curr_at es k ≤ℤ pos 0 +ℤ pos (total * m) =
        subst (λ n. curr_at es k ≤ℤ n +ℤ pos (total * m)) bal.settled
          (top total m es k bal.bounded h l) in
      absurd (omega (int_laws, cap_at))
  due m (suc n) [] bal l h w p = absurd (omega arith)
  due m (suc n) (se ∷ es) bal l h w p =
      let (i, es', run, bal', l', below, most, e) = weigh-Balanced total se es bal in
      ap (λ o. has k (elim o [ none ↦ [] | some (j, fs) ↦ j ∷ rounds n fs ])) run
      ∙ elim (Bool-cases (i == k)) [
        | inl q ↦ ground (arith, q)
        | inr q ↦
            let same : curr_at es' k ≡ curr_at (se ∷ es) k +ℤ weight_at (se ∷ es) k =
              ap (λ l. curr_at l k) e
              ∙ curr_at-lowered (added (se ∷ es)) i k (pos total) (ground (arith, q))
              ∙ curr_at-added (se ∷ es) k h in
            let kept : weight_at es' k ≡ weight_at (se ∷ es) k =
              ap (λ l. weight_at l k) e ∙ weight_at-lowered (se ∷ es) i k (pos total) in
            let later : has k (rounds n es') ≡ true =
              due m n es' bal' (l' ∙ l) (omega (arith, l', h))
                (subst (λ z. pos 1 ≤ℤ z) (sym kept) w)
                (subst (λ z. pos (total * m) +ℤ pos 1 ≤ℤ z +ℤ pos n) (sym same)
                  (grown (total * m) n (curr_at (se ∷ es) k) (weight_at (se ∷ es) k) w p)) in
            ground (arith, q, later)
      ]
    where
      grown :
          (t n : ℕ) (c w : ℤ)
          → pos 1 ≤ℤ w
          → pos t +ℤ pos 1 ≤ℤ c +ℤ pos (suc n)
          → pos t +ℤ pos 1 ≤ℤ c +ℤ w +ℤ pos n
      grown t n c w h p = omega (int_laws, h, p)

-- On a slice where the current weights add up to 0, the weights to `total`, no weight is negative, no
-- current weight is below minus the total, and the total times the number of endpoints is below 2 ^ 63,
-- an endpoint with a weight of at least 1 is selected within `total` times the number of endpoints, plus
-- one, calls.
pub rounds-fair :
    (total k : ℕ) (es : List ServiceEndpoint)
    → Balanced total es
    → k < length es
    → pos 1 ≤ℤ weight_at es k
    → has k (rounds (suc (total * length es)) es) ≡ true
rounds-fair total k [] bal h w = absurd (omega arith)
rounds-fair total k (se ∷ es) bal h w =
    due total k (length es) (suc (total * length (se ∷ es))) (se ∷ es) bal refl h w
      (omega (int_laws, curr_at_low total (se ∷ es) k bal.bounded, times_suc total (length es)))
