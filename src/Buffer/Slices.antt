-- ===== src/Buffer/Slices.antt =====
-- Go byte slices as lists: `copy` into a slice at an index, and the slice expression `s[i:j]`.
use xbase.Prelude.{
  ℕ, zero, suc, ◌+◌, ◌≤◌, ◌≡◌, refl, ap, List, [], ◌∷◌, ◌++◌, arith, length, take, drop,
}

module _ {ℓ} {A : Type ℓ} where
  -- `copy(s[i:], bs)`: what does not fit is not copied.
  abbrev pub overwrite : List A → ℕ → List A → List A
  overwrite [] i bs = []
  overwrite (x ∷ xs) zero [] = x ∷ xs
  overwrite (x ∷ xs) zero (b ∷ bs) = b ∷ overwrite xs zero bs
  overwrite (x ∷ xs) (suc i) bs = x ∷ overwrite xs i bs

  -- `s[i:i+n]`
  abbrev pub slice_of : List A → ℕ → ℕ → List A
  slice_of xs i n = take n (drop i xs)

module _ {ℓ} {A : Type ℓ} where
  pub length-overwrite :
      (xs : List A) (i : ℕ) (bs : List A) → length (overwrite xs i bs) ≡ length xs
  length-overwrite [] i bs = refl
  length-overwrite (x ∷ xs) zero [] = refl
  length-overwrite (x ∷ xs) zero (b ∷ bs) = ap suc (length-overwrite xs zero bs)
  length-overwrite (x ∷ xs) (suc i) bs = ap suc (length-overwrite xs i bs)

  -- Bytes that fit follow what stands before the index.
  pub take-overwrite :
      (xs : List A) (i : ℕ) (bs : List A) (j : ℕ)
      → j ≡ i + length bs
      → j ≤ length xs
      → take j (overwrite xs i bs) ≡ take i xs ++ bs
  take-overwrite [] zero [] zero e h = refl
  take-overwrite [] zero [] (suc j) e h = absurd (omega arith)
  take-overwrite [] zero (b ∷ bs) j e h = absurd (omega arith)
  take-overwrite [] (suc i) bs j e h = absurd (omega arith)
  take-overwrite (x ∷ xs) zero [] zero e h = refl
  take-overwrite (x ∷ xs) zero [] (suc j) e h = absurd (omega arith)
  take-overwrite (x ∷ xs) zero (b ∷ bs) zero e h = absurd (omega arith)
  take-overwrite (x ∷ xs) zero (b ∷ bs) (suc j) e h =
      ap (◌∷◌ b) (take-overwrite xs zero bs j (omega arith) (omega arith))
  take-overwrite (x ∷ xs) (suc i) bs zero e h = absurd (omega arith)
  take-overwrite (x ∷ xs) (suc i) bs (suc j) e h =
      ap (◌∷◌ x) (take-overwrite xs i bs j (omega arith) (omega arith))

  pub take-append : (n : ℕ) (bs s : List A) → length bs ≡ n → take n (bs ++ s) ≡ bs
  take-append zero [] s e = refl
  take-append zero (b ∷ bs) s e = absurd (omega arith)
  take-append (suc n) [] s e = absurd (omega arith)
  take-append (suc n) (b ∷ bs) s e = ap (◌∷◌ b) (take-append n bs s (omega arith))

  pub drop-append : (n : ℕ) (bs s : List A) → length bs ≡ n → drop n (bs ++ s) ≡ s
  drop-append zero [] s e = refl
  drop-append zero (b ∷ bs) s e = absurd (omega arith)
  drop-append (suc n) [] s e = absurd (omega arith)
  drop-append (suc n) (b ∷ bs) s e = drop-append n bs s (omega arith)

  pub drop-add : (xs : List A) (i n j : ℕ) → j ≡ i + n → drop j xs ≡ drop n (drop i xs)
  drop-add [] zero zero zero e = refl
  drop-add [] zero zero (suc j) e = absurd (omega arith)
  drop-add [] zero (suc n) zero e = absurd (omega arith)
  drop-add [] zero (suc n) (suc j) e = refl
  drop-add [] (suc i) zero zero e = absurd (omega arith)
  drop-add [] (suc i) zero (suc j) e = refl
  drop-add [] (suc i) (suc n) zero e = absurd (omega arith)
  drop-add [] (suc i) (suc n) (suc j) e = refl
  drop-add (x ∷ xs) zero n j e = let e' : j ≡ n = omega arith in ap (λ k. drop k (x ∷ xs)) e'
  drop-add (x ∷ xs) (suc i) n zero e = absurd (omega arith)
  drop-add (x ∷ xs) (suc i) n (suc j) e = drop-add xs i n j (omega arith)
