-- ===== src/Registry/Order.antt =====
-- The order that CompareVersion of registry/version.go gives to versions.
use xbase.Prelude.{
  ℕ, zero, suc, ◌+◌, ◌≤◌, ◌≡◌, inl, inr, refl, sym, ap, ap₂, subst, ◌∙◌, true, false, List, [], ◌∷◌,
  arith, max, length, Bool-cases,
}
use xbase.Registry.Versions.{
  Order, older, same, newer, rest_of, compare_parts, text_eq, or_zero, split_dots, compare_version,
  positive_order, natural_order, is_newer, is_at_least, max_from,
}

abbrev pub flip : Order → Order
flip older = newer
flip same = same
flip newer = older

compare_parts-flip :
    (n : ℕ) (a b : List (List ℕ)) → compare_parts n b a ≡ flip (compare_parts n a b)
unfolding compare_parts
compare_parts-flip zero a b = refl
compare_parts-flip (suc n) a b = ground (arith, compare_parts-flip n (rest_of a) (rest_of b))

compare_parts_refl : (n : ℕ) (a : List (List ℕ)) → compare_parts n a a ≡ same
unfolding compare_parts
compare_parts_refl zero a = refl
compare_parts_refl (suc n) a = ground (arith, compare_parts_refl n (rest_of a))

compare_parts-nil : (n : ℕ) → compare_parts n [] [] ≡ same
compare_parts-nil n = compare_parts_refl n []

length-rest_of : (a : List (List ℕ)) (n : ℕ) → length a ≤ suc n → length (rest_of a) ≤ n
length-rest_of [] n h = omega arith
length-rest_of (part ∷ a) n h = omega arith

-- Parts that both lack decide nothing.
compare_parts-long :
    (m n : ℕ) (a b : List (List ℕ))
    → n ≤ m
    → length a ≤ n
    → length b ≤ n
    → compare_parts m a b ≡ compare_parts n a b
unfolding compare_parts
compare_parts-long m zero [] [] h ha hb = compare_parts-nil m
compare_parts-long m zero (p ∷ a) b h ha hb = absurd (omega arith)
compare_parts-long m zero [] (p ∷ b) h ha hb = absurd (omega arith)
compare_parts-long zero (suc n) a b h ha hb = absurd (omega arith)
compare_parts-long (suc m) (suc n) a b h ha hb = ground (
  arith,
  compare_parts-long m n (rest_of a) (rest_of b) (omega arith) (length-rest_of a n ha)
      (length-rest_of b n hb),
)

text_eq-eq : (a b : List ℕ) → text_eq a b ≡ true → a ≡ b
unfolding text_eq
text_eq-eq [] [] h = refl
text_eq-eq [] (d ∷ t) h = absurd (ground (arith, h))
text_eq-eq (c ∷ s) [] h = absurd (ground (arith, h))
text_eq-eq (c ∷ s) (d ∷ t) h = ap₂ ◌∷◌ (ground (arith, h)) (text_eq-eq s t (ground (arith, h)))

abbrev parts : List ℕ → List (List ℕ)
parts v = split_dots (or_zero v)

-- At any number of parts that both versions fit in, the loop gives what CompareVersion does.
compare_version-eq :
    (n : ℕ) (a b : List ℕ)
    → length (parts a) ≤ n
    → length (parts b) ≤ n
    → compare_version a b ≡ compare_parts n (parts a) (parts b)
unfolding compare_version
compare_version-eq n a b ha hb = elim (Bool-cases (text_eq a b)) [
  | inl e ↦ rw e (
      sym (
        subst (λ v. compare_parts n (parts a) (parts v) ≡ same) (text_eq-eq a b e)
          (compare_parts_refl n (parts a))))
  | inr e ↦ rw e (
      sym (
        compare_parts-long n (max (length (parts b)) (length (parts a))) (parts a) (parts b)
          (omega arith) (omega arith) (omega arith)))
]

-- Comparing in the other order gives the other result.
pub compare_version-flip : (a b : List ℕ) → compare_version b a ≡ flip (compare_version a b)
compare_version-flip a b =
    let n = length (parts a) + length (parts b) in
    compare_version-eq n b a (omega arith) (omega arith)
    ∙ compare_parts-flip n (parts a) (parts b)
    ∙ ap flip (sym (compare_version-eq n a b (omega arith) (omega arith)))

compare_parts_trans :
    (n : ℕ) (a b c : List (List ℕ))
    → natural_order (compare_parts n a b) ≡ true
    → natural_order (compare_parts n b c) ≡ true
    → natural_order (compare_parts n a c) ≡ true
unfolding compare_parts
compare_parts_trans zero a b c h k = refl
compare_parts_trans (suc n) a b c h k =
    ground (arith, h, k, compare_parts_trans n (rest_of a) (rest_of b) (rest_of c))

-- A version that is at least a second, which is at least a third, is at least the third.
pub is_at_least_trans :
    (a b c : List ℕ) → is_at_least a b ≡ true → is_at_least b c ≡ true → is_at_least a c ≡ true
unfolding is_at_least
is_at_least_trans a b c h k =
    let n = length (parts a) + length (parts b) + length (parts c) in
    ap natural_order (compare_version-eq n a c (omega arith) (omega arith))
    ∙ compare_parts_trans n (parts a) (parts b) (parts c)
        (ap natural_order (sym (compare_version-eq n a b (omega arith) (omega arith))) ∙ h)
        (ap natural_order (sym (compare_version-eq n b c (omega arith) (omega arith))) ∙ k)

pub is_at_least_refl : (a : List ℕ) → is_at_least a a ≡ true
unfolding is_at_least
is_at_least_refl a = ap natural_order (
    compare_version-eq (length (parts a)) a a (omega arith) (omega arith)
    ∙ compare_parts_refl (length (parts a)) (parts a))

-- Of two versions the one that is not newer is not above the other.
pub is_newer-false : (a b : List ℕ) → is_newer a b ≡ false → is_at_least b a ≡ true
unfolding is_newer is_at_least
is_newer-false a b h =
    ap natural_order (compare_version-flip a b) ∙ by_order (compare_version a b) h
  where
    by_order : (o : Order) → positive_order o ≡ false → natural_order (flip o) ≡ true
    by_order older h = refl
    by_order same h = refl
    by_order newer h = h'
      where
        h' : natural_order (flip newer) ≡ true
        h' = sym h

pub is_newer-true : (a b : List ℕ) → is_newer a b ≡ true → is_at_least a b ≡ true
unfolding is_newer is_at_least
is_newer-true a b h = by_order (compare_version a b) h
  where
    by_order : (o : Order) → positive_order o ≡ true → natural_order o ≡ true
    by_order older h = h
    by_order same h = refl
    by_order newer h = refl

abbrev pub NotAbove : List ℕ → List ℕ → Type 0
NotAbove best v = is_at_least best v ≡ true

pub max_from-NotAbove : (best : List ℕ) (vs : List (List ℕ)) → NotAbove (max_from best vs) best
unfolding max_from
max_from-NotAbove best [] = is_at_least_refl best
max_from-NotAbove best (v ∷ vs) = elim (Bool-cases (is_newer v best)) [
  | inl h ↦
      rw h
        (is_at_least_trans (max_from v vs) v best (max_from-NotAbove v vs) (is_newer-true v best h))
  | inr h ↦ rw h (max_from-NotAbove best vs)
]
