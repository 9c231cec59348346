-- ===== src/Link/Sources/Keys.antt =====
-- Association lists with each key once, as the maps of internal/link/node.go have it, and sums over them.
use xbase.Prelude.{
  ℕ, ◌+◌, ◌≡◌, inl, inr, refl, sym, ap, ◌∙◌, Option, none, some, List, [], ◌∷◌, arith, ◌==◌,
  Bool-cases,
}
use xbase.Dict.{lookup, insert, delete, lookup-insert, lookup-delete}

module _ {V : Type 0} where
  -- Each key stands once.
  abbrev pub Once : List (ℕ × V) → Type 0
  Once [] = Unit
  Once ((k, v) ∷ m) = (lookup k m ≡ none) × Once m

  pub insert-Once : (k : ℕ) (v : V) (m : List (ℕ × V)) → Once m → Once (insert k v m)
  unfolding insert lookup
  insert-Once k v [] o = (refl, tt)
  insert-Once k v ((j, w) ∷ m) (n, o) = elim (Bool-cases (j == k)) [
    | inl e ↦ rw e (ap (λ i. lookup i m) (sym (ground (arith, e))) ∙ n, o)
    | inr e ↦ rw e (ground (arith, e, n, lookup-insert k j v m), insert-Once k v m o)
  ]

  pub delete-absent : (k : ℕ) (m : List (ℕ × V)) → lookup k m ≡ none → delete k m ≡ m
  unfolding delete lookup
  delete-absent k [] h = refl
  delete-absent k ((j, w) ∷ m) h = elim (Bool-cases (j == k)) [
    | inl e ↦ absurd (ground (arith, e, h))
    | inr e ↦ rw e (ap (λ l. (j, w) ∷ l) (delete-absent k m (ground (arith, e, h))))
  ]

  pub delete-Once : (k : ℕ) (m : List (ℕ × V)) → Once m → Once (delete k m)
  unfolding delete
  delete-Once k [] o = tt
  delete-Once k ((j, w) ∷ m) (n, o) = elim (Bool-cases (j == k)) [
    | inl e ↦ rw e (delete-Once k m o)
    | inr e ↦ rw e (ground (arith, e, n, lookup-delete k j m), delete-Once k m o)
  ]

  module _ (size : V → ℕ) where
    abbrev pub sum_of : List (ℕ × V) → ℕ
    sum_of [] = 0
    sum_of ((k, v) ∷ m) = size v + sum_of m

    abbrev pub size_at : Option V → ℕ
    size_at none = 0
    size_at (some v) = size v

    -- What a write and a removal do to the sum.
    pub sum_of-insert :
        (k : ℕ) (v : V) (m : List (ℕ × V))
        → sum_of (insert k v m) + size_at (lookup k m) ≡ sum_of m + size v
    unfolding insert lookup
    sum_of-insert k v [] = omega arith
    sum_of-insert k v ((j, w) ∷ m) = elim (Bool-cases (j == k)) [
      | inl e ↦ rw e (omega arith)
      | inr e ↦ rw e (omega (arith, sum_of-insert k v m))
    ]

    pub sum_of-delete :
        (k : ℕ) (m : List (ℕ × V)) → Once m → sum_of (delete k m) + size_at (lookup k m) ≡ sum_of m
    unfolding delete lookup
    sum_of-delete k [] o = omega arith
    sum_of-delete k ((j, w) ∷ m) (n, o) = elim (Bool-cases (j == k)) [
      | inl e ↦
          let gone : delete k m ≡ m =
            delete-absent k m (ap (λ i. lookup i m) (sym (ground (arith, e))) ∙ n) in
          rw (e, gone) (omega arith)
      | inr e ↦ rw e (omega (arith, sum_of-delete k m o))
    ]
