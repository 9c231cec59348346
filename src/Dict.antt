-- ===== src/Dict.antt =====
-- Go maps with integer keys, as association lists that hold each key once. A text key is coded by a
-- number, the empty text by 0: the program only compares texts and tests them for emptiness.
use xbase.Prelude.{
  ℕ, ◌≡◌, refl, Bool, true, false, Option, some, none, List, [], ◌∷◌, arith, ◌==◌, if◌then◌else◌,
}

module _ {ℓ} {V : Type ℓ} where
  unfoldable pub lookup : (key : ℕ) (entries : List (ℕ × V)) → Option V
  lookup key [] = none
  lookup key ((first, v) ∷ rest) = if first == key then some v else lookup key rest

  -- `m[key] = v`: in place of the old value, or a new entry.
  unfoldable pub insert : (key : ℕ) (v : V) (entries : List (ℕ × V)) → List (ℕ × V)
  insert key v [] = (key, v) ∷ []
  insert key v ((first, old) ∷ rest) =
      if first == key then (key, v) ∷ rest else (first, old) ∷ insert key v rest

  unfoldable pub delete : (key : ℕ) (entries : List (ℕ × V)) → List (ℕ × V)
  delete key [] = []
  delete key ((first, old) ∷ rest) =
      if first == key then delete key rest else (first, old) ∷ delete key rest

  abbrev pub values : List (ℕ × V) → List V
  values [] = []
  values ((key, v) ∷ rest) = v ∷ values rest

  pub lookup-insert :
      (key at : ℕ) (v : V) (entries : List (ℕ × V))
      → lookup at (insert key v entries) ≡ (if key == at then some v else lookup at entries)
  unfolding lookup insert
  lookup-insert key at v [] = refl
  lookup-insert key at v ((first, old) ∷ rest) = ground (arith, lookup-insert key at v rest)

  pub lookup-delete :
      (key at : ℕ) (entries : List (ℕ × V))
      → lookup at (delete key entries) ≡ (if key == at then none else lookup at entries)
  unfolding lookup delete
  lookup-delete key at [] = ground arith
  lookup-delete key at ((first, old) ∷ rest) = ground (arith, lookup-delete key at rest)

-- Sets of numbers: the keys of a `map[T]struct{}`.
unfoldable pub has : ℕ → List ℕ → Bool
has a [] = false
has a (x ∷ xs) = if x == a then true else has a xs

unfoldable pub add : ℕ → List ℕ → List ℕ
add a [] = a ∷ []
add a (x ∷ xs) = if x == a then x ∷ xs else x ∷ add a xs

unfoldable pub remove : ℕ → List ℕ → List ℕ
remove a [] = []
remove a (x ∷ xs) = if x == a then remove a xs else x ∷ remove a xs

pub has-add : (a b : ℕ) (xs : List ℕ) → has b (add a xs) ≡ (if a == b then true else has b xs)
unfolding has add
has-add a b [] = refl
has-add a b (x ∷ xs) = ground (arith, has-add a b xs)

pub has-remove :
    (a b : ℕ) (xs : List ℕ) → has b (remove a xs) ≡ (if a == b then false else has b xs)
unfolding has remove
has-remove a b [] = ground arith
has-remove a b (x ∷ xs) = ground (arith, has-remove a b xs)

-- A set that is empty has nothing.
pub has-nil : (a : ℕ) → has a [] ≡ false
unfolding has
has-nil a = refl
