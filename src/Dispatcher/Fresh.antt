-- ===== src/Dispatcher/Fresh.antt =====
-- ReplaceServices of internal/dispatcher/dispatcher.go: the current weights of the slices that it makes.
use xbase.Prelude.{
  ℕ, ◌≡◌, ◌*◌, ◌^◌, ◌<◌, length, refl, sym, ap₂, subst, ◌∙◌, Option, some, List, [], ◌∷◌, arith,
  get_elem?, All,
}
use xbase.Prelude.Int.{ℤ, pos, ◌+ℤ◌, ◌≤ℤ◌, int_laws}
use xbase.Dict.{lookup}
use xbase.Registry.{ServiceInstance}
use xbase.Dispatcher.{ServiceEndpoint, Slot, endpoints_of, GameRoute}
use xbase.Dispatcher.Weights.{sum_curr, sum_weight}
use xbase.Dispatcher.Bounds.{Balanced}
use xbase.Dispatcher.Services.{Dispatcher, replace_services}
use xbase.Dispatcher.Replace.{Stems, replace_services_lem}

-- An endpoint with no current weight, and a weight that is not negative.
abbrev Fresh : ServiceEndpoint → Type 0
Fresh se = (se.curr_weight ≡ pos 0) × (pos 0 ≤ℤ se.weight)

add_fresh : (c s : ℤ) → c ≡ pos 0 → s ≡ pos 0 → c +ℤ s ≡ pos 0
add_fresh c s h k = ap₂ ◌+ℤ◌ h k ∙ no_more
  where
    no_more : pos 0 +ℤ pos 0 ≡ pos 0
    no_more = omega int_laws

Fresh-settled : (es : List ServiceEndpoint) → All Fresh es → sum_curr es ≡ pos 0
Fresh-settled [] h = refl
Fresh-settled (se ∷ es) (f, h) = add_fresh se.curr_weight (sum_curr es) f.0 (Fresh-settled es h)

add_natural : (a b : ℤ) → pos 0 ≤ℤ a → pos 0 ≤ℤ b → pos 0 ≤ℤ a +ℤ b
add_natural a b h k = omega (int_laws, h, k)

Fresh-bounded :
    (total : ℕ) (es : List ServiceEndpoint)
    → All Fresh es
    → All (λ se. (pos 0 ≤ℤ se.weight) × (pos 0 ≤ℤ se.curr_weight +ℤ pos total)) es
Fresh-bounded total [] h = tt
Fresh-bounded total (se ∷ es) ((c, w), h) = (
  (
    w,
    subst (λ z. pos 0 ≤ℤ z +ℤ pos total) (sym c)
        (add_natural (pos 0) (pos total) (omega arith) (omega arith)),
  ),
  Fresh-bounded total es h,
)

module _ (parse : ℕ → Option ℕ) (services : List ServiceInstance)
    (weights : (n : ℕ) (service : ServiceInstance)
      → get_elem? services n ≡ some service
      → pos 0 ≤ℤ service.weight) where
  Stems-Fresh :
      (game : ℕ) (es : List ServiceEndpoint) → All (Stems parse services game) es → All Fresh es
  Stems-Fresh game [] h = tt
  Stems-Fresh game (se ∷ es) ((n, service, ep, there, _, _, _, e), h) =
      (subst Fresh (sym e) (refl, weights n service there), Stems-Fresh game es h)

  -- Where no instance has a negative weight, every balanced table of a route that ReplaceServices makes
  -- starts out balanced, where the sum of its weights times their number fits an int.
  pub replace_services-Balanced :
      (d : Dispatcher) (game total : ℕ) (r : GameRoute) (slot : Slot)
      → lookup game (replace_services parse d services).routes ≡ some r
      → sum_weight (endpoints_of r.tables slot) ≡ pos total
      → total * length (endpoints_of r.tables slot) < 2 ^ 63
      → Balanced total (endpoints_of r.tables slot)
  replace_services-Balanced d game total r slot e sum small =
      let (filed, all) = replace_services_lem parse d services game r e in
      let fresh = Stems-Fresh game (endpoints_of r.tables slot) (all slot) in
      record {
        settled = Fresh-settled (endpoints_of r.tables slot) fresh;
        weights = sum;
        bounded = Fresh-bounded total (endpoints_of r.tables slot) fresh;
        small = small;
      }
