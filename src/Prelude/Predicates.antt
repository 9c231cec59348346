-- ===== src/Prelude/Predicates.antt =====
-- Predicates on lists by recursion, which the tactics read and build.
use Prim.Native.Nat.{ℕ, ◌<◌}
use mathlib.Core.List.{List, [], ◌∷◌, ◌++◌}

abbrev pub All {ℓ κ} : {A : Type ℓ} → (A → Type κ) → List A → Type κ
All Holds [] = Unit
All Holds (first ∷ rest) = Holds first × All Holds rest

pub All-append {ℓ κ} :
    {A : Type ℓ} (Holds : A → Type κ) (front back : List A)
    → All Holds front
    → All Holds back
    → All Holds (front ++ back)
All-append Holds [] back h k = k
All-append Holds (first ∷ rest) back h k = (h.0, All-append Holds rest back h.1 k)

-- Every number of the list is below the bound: the values of an unsigned machine type.
abbrev pub AllBelow : ℕ → List ℕ → Type 0
AllBelow n = All (λ x. x < n)
