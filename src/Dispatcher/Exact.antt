-- ===== src/Dispatcher/Exact.antt =====
-- The weights of internal/dispatcher/gameRoute.go in sums without a wrap-around, and the slices on which
-- weightRoundRobinDispatch computes the same.
use xbase.Prelude.{
  ℕ, zero, suc, ◌<◌, ◌^◌, ◌-◌, ◌≡◌, refl, sym, ap, ap₂, subst, ◌∙◌, List, [], ◌∷◌, arith, length,
  All,
}
use xbase.Prelude.Int.{
  ℤ, pos, ◌+ℤ◌, ◌-ℤ◌, ◌≤ℤ◌, IsInt, add_int, sub_int, wrap_int-IsInt, IsInt-between, negsuc,
  int_laws,
}
use xbase.Dispatcher.{ServiceEndpoint, charge}
use xbase.Dispatcher.Weights.{sum_curr, sum_weight, curr_at, stepped, total_from}

abbrev pub added : List ServiceEndpoint → List ServiceEndpoint
added [] = []
added (se ∷ es) = record se { curr_weight = se.curr_weight +ℤ se.weight } ∷ added es

-- The endpoint at an index, with its current weight lowered.
unfoldable pub lowered : List ServiceEndpoint → ℕ → ℤ → List ServiceEndpoint
lowered [] i total = []
lowered (se ∷ es) zero total = record se { curr_weight = se.curr_weight -ℤ total } ∷ es
lowered (se ∷ es) (suc i) total = se ∷ lowered es i total

pub length-lowered :
    (es : List ServiceEndpoint) (k : ℕ) (t : ℤ) → length (lowered es k t) ≡ length es
unfolding lowered
length-lowered [] k t = refl
length-lowered (se ∷ es) zero t = refl
length-lowered (se ∷ es) (suc k) t = ap suc (length-lowered es k t)

pub length-added : (es : List ServiceEndpoint) → length (added es) ≡ length es
length-added [] = refl
length-added (se ∷ es) = ap suc (length-added es)

pub sum_curr-added :
    (es : List ServiceEndpoint) → sum_curr (added es) ≡ sum_curr es +ℤ sum_weight es
sum_curr-added [] = omega int_laws
sum_curr-added (se ∷ es) =
    ap (λ n. se.curr_weight +ℤ se.weight +ℤ n) (sum_curr-added es)
    ∙ regroup_sums se.curr_weight se.weight (sum_curr es) (sum_weight es)
  where
    regroup_sums : (a b c d : ℤ) → a +ℤ b +ℤ (c +ℤ d) ≡ a +ℤ c +ℤ (b +ℤ d)
    regroup_sums a b c d = omega int_laws

pub sum_curr-lowered :
    (es : List ServiceEndpoint) (k : ℕ) (t : ℤ)
    → k < length es
    → sum_curr (lowered es k t) ≡ sum_curr es -ℤ t
unfolding lowered
sum_curr-lowered [] k t h = absurd (omega arith)
sum_curr-lowered (se ∷ es) zero t h = moved se.curr_weight t (sum_curr es)
  where
    moved : (a b c : ℤ) → a -ℤ b +ℤ c ≡ a +ℤ c -ℤ b
    moved a b c = omega int_laws
sum_curr-lowered (se ∷ es) (suc k) t h =
    ap (λ n. se.curr_weight +ℤ n) (sum_curr-lowered es k t (omega arith))
    ∙ kept se.curr_weight (sum_curr es) t
  where
    kept : (a b c : ℤ) → a +ℤ (b -ℤ c) ≡ a +ℤ b -ℤ c
    kept a b c = omega int_laws

pub sum_weight-lowered :
    (es : List ServiceEndpoint) (k : ℕ) (t : ℤ)
    → sum_weight (lowered (added es) k t) ≡ sum_weight es
unfolding lowered
sum_weight-lowered [] k t = refl
sum_weight-lowered (se ∷ es) zero t = ap (λ n. se.weight +ℤ n) (sum_weight-added es)
  where
    sum_weight-added : (es : List ServiceEndpoint) → sum_weight (added es) ≡ sum_weight es
    sum_weight-added [] = refl
    sum_weight-added (se ∷ es) = ap (λ n. se.weight +ℤ n) (sum_weight-added es)
sum_weight-lowered (se ∷ es) (suc k) t = ap (λ n. se.weight +ℤ n) (sum_weight-lowered es k t)

-- All sums that one call comes to fit an int.
abbrev pub Fits : List ServiceEndpoint → Type 0
Fits = All (λ se. IsInt (se.curr_weight +ℤ se.weight))

pub stepped-added : (es : List ServiceEndpoint) → Fits es → stepped es ≡ added es
unfolding add_int
stepped-added [] h = refl
stepped-added (se ∷ es) (f, h) =
    ap₂ (λ c l. record se { curr_weight = c } ∷ l) (wrap_int-IsInt (se.curr_weight +ℤ se.weight) f)
      (stepped-added es h)

add_natural : (a b : ℤ) → pos 0 ≤ℤ a → pos 0 ≤ℤ b → pos 0 ≤ℤ a +ℤ b
add_natural a b h k = omega (int_laws, h, k)

pub sum_weight_natural :
    (es : List ServiceEndpoint) → All (λ se. pos 0 ≤ℤ se.weight) es → pos 0 ≤ℤ sum_weight es
sum_weight_natural [] h = omega arith
sum_weight_natural (se ∷ es) (w, h) =
    add_natural se.weight (sum_weight es) w (sum_weight_natural es h)

within : (a b c d : ℤ) → pos 0 ≤ℤ a → pos 0 ≤ℤ b → pos 0 ≤ℤ c → a +ℤ (b +ℤ c) ≤ℤ d → a +ℤ b ≤ℤ d
within a b c d h k l m = omega (int_laws, h, k, l, m)

below : (a b : ℤ) → pos 0 ≤ℤ a → pos 0 ≤ℤ b → negsuc (2 ^ 63 - 1) ≤ℤ a +ℤ b
below a b h k = omega (int_laws, h, k)

plus_assoc : (a b c : ℤ) → a +ℤ b +ℤ c ≡ a +ℤ (b +ℤ c)
plus_assoc a b c = omega int_laws

pub total_from-sum :
    (t : ℤ) (es : List ServiceEndpoint)
    → pos 0 ≤ℤ t
    → All (λ se. pos 0 ≤ℤ se.weight) es
    → t +ℤ sum_weight es ≤ℤ pos (2 ^ 63 - 1)
    → total_from t es ≡ t +ℤ sum_weight es
unfolding add_int
total_from-sum t [] n w b = sym (plus_zero t)
  where
    plus_zero : (t : ℤ) → t +ℤ pos 0 ≡ t
    plus_zero t = omega int_laws
total_from-sum t (se ∷ es) n (w, ws) b =
    let rest = sum_weight_natural es ws in
    let fits : add_int t se.weight ≡ t +ℤ se.weight = wrap_int-IsInt (t +ℤ se.weight) (
      IsInt-between (t +ℤ se.weight) (below t se.weight n w)
        (within t se.weight (sum_weight es) (pos (2 ^ 63 - 1)) n w rest b)) in
    ap (λ u. total_from u es) fits
    ∙ total_from-sum (t +ℤ se.weight) es (add_natural t se.weight n w) ws
        (subst (λ z. z ≤ℤ pos (2 ^ 63 - 1)) (sym (plus_assoc t se.weight (sum_weight es))) b)
    ∙ plus_assoc t se.weight (sum_weight es)

pub charge-lowered :
    (es : List ServiceEndpoint) (k : ℕ) (t : ℤ)
    → k < length es
    → IsInt (curr_at es k -ℤ t)
    → charge es k t ≡ lowered es k t
unfolding charge lowered sub_int
charge-lowered [] k t b h = refl
charge-lowered (se ∷ es) zero t b h =
    ap (λ c. record se { curr_weight = c } ∷ es) (wrap_int-IsInt (se.curr_weight -ℤ t) h)
charge-lowered (se ∷ es) (suc k) t b h = ap (λ l. se ∷ l) (charge-lowered es k t (omega arith) h)
