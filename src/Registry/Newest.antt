-- ===== src/Registry/Newest.antt =====
-- The newest versions of registry/version.go and registry/service_status.go: over a list, and for each
-- key over the instances that count.
use xbase.Prelude.{
  ℕ, zero, suc, ◌≡◌, inl, inr, refl, sym, ap, subst, ◌∙◌, Bool, true, Option, none, some, List, [],
  ◌∷◌, arith, ◌==◌, ◌&&◌, if◌then◌else◌, get_elem?, Bool-cases, Option-cases, All,
}
use xbase.Dict.{lookup, insert, lookup-insert}
use xbase.Registry.Versions.{is_newer, is_at_least, max_from, max_version}
use xbase.Registry.Order.{
  NotAbove, is_at_least_refl, is_at_least_trans, is_newer-true, is_newer-false, max_from-NotAbove,
}
use xbase.Registry.{ServiceInstance, newer, max_version_by}

max_from-All : (best : List ℕ) (vs : List (List ℕ)) → All (NotAbove (max_from best vs)) vs
unfolding max_from
max_from-All best [] = tt
max_from-All best (v ∷ vs) = elim (Bool-cases (is_newer v best)) [
  | inl h ↦
      subst (λ m. All (NotAbove m) (v ∷ vs)) (ap (λ b. max_from (if b then v else best) vs) (sym h))
        (max_from-NotAbove v vs, max_from-All v vs)
  | inr h ↦
      subst (λ m. All (NotAbove m) (v ∷ vs)) (ap (λ b. max_from (if b then v else best) vs) (sym h))
        (
          is_at_least_trans (max_from best vs) best v (max_from-NotAbove best vs)
              (is_newer-false v best h),
          max_from-All best vs,
        )
]

abbrev Among : List ℕ → List (List ℕ) → Type 0
Among best vs = (i : ℕ) × (get_elem? vs i ≡ some best)

max_from-Among : (best : List ℕ) (vs : List (List ℕ)) → Among (max_from best vs) (best ∷ vs)
unfolding max_from
max_from-Among best [] = (0, refl)
max_from-Among best (v ∷ vs) = elim (Bool-cases (is_newer v best)) [
  | inl h ↦ let (i, e) = max_from-Among v vs in rw h (suc i, e)
  | inr h ↦ rw h (skipped (max_from-Among best vs))
]
  where
    skipped : Among (max_from best vs) (best ∷ vs) → Among (max_from best vs) (best ∷ v ∷ vs)
    skipped (zero, e) = (zero, e)
    skipped (suc i, e) = (suc (suc i), e)

-- MaxVersion of at least one version is one of them, and CompareVersion puts none of them above it.
pub max_version_lem :
    (v : List ℕ) (vs : List (List ℕ))
    → All (λ w. is_at_least (max_version (v ∷ vs)) w ≡ true) (v ∷ vs)
      × ((i : ℕ) × (get_elem? (v ∷ vs) i ≡ some (max_version (v ∷ vs))))
unfolding max_version
max_version_lem v vs = ((max_from-NotAbove v vs, max_from-All v vs), max_from-Among v vs)

abbrev from_option : ServiceInstance → Option ServiceInstance → ServiceInstance
from_option d none = d
from_option d (some a) = a

-- The key has an entry, and it is not below a version.
abbrev pub Covers : List (ℕ × List ℕ) → ℕ → List ℕ → Type 0
Covers versions k v = (w : List ℕ) × (lookup k versions ≡ some w) × (is_at_least w v ≡ true)

some_injective : {a b : ServiceInstance} → some a ≡ some b → a ≡ b
some_injective {a} e = ap (from_option a) e

-- One round of the loop, for a version under a key.
abbrev advanced : List (ℕ × List ℕ) → ℕ → List ℕ → List (ℕ × List ℕ)
advanced versions k v = if newer (lookup k versions) v then insert k v versions else versions

advanced-Covers :
    (versions : List (ℕ × List ℕ)) (k : ℕ) (v : List ℕ) → Covers (advanced versions k v) k v
advanced-Covers versions k v = elim (Option-cases (lookup k versions)) [
  | inl e ↦ rw e (v, ground (arith, lookup-insert k k v versions), is_at_least_refl v)
  | inr (w, e) ↦ elim (Bool-cases (is_newer v w)) [
    | inl h ↦ rw (e, h) (v, ground (arith, lookup-insert k k v versions), is_at_least_refl v)
    | inr h ↦ rw (e, h) (w, e, is_newer-false v w h)
  ]
]

-- A round keeps what is covered.
advanced-keeps :
    (versions : List (ℕ × List ℕ)) (k : ℕ) (v : List ℕ) (j : ℕ) (u : List ℕ)
    → Covers versions j u
    → Covers (advanced versions k v) j u
advanced-keeps versions k v j u (w, e, h) = elim (Bool-cases (newer (lookup k versions) v)) [
  | inr old ↦ rw old (w, e, h)
  | inl new ↦ elim (Bool-cases (k == j)) [
    | inr ne ↦ rw new (w, ground (arith, e, ne, lookup-insert k j v versions), h)
    | inl eq ↦ rw new (
      v,
      ground (arith, eq, lookup-insert k j v versions),
      is_at_least_trans v w u
          (is_newer-true v w (ground (arith, new, eq, e, ap (λ i. lookup i versions)))) h,
    )
  ]
]

module _ (counts : ServiceInstance → Bool) (key : ServiceInstance → ℕ) where
  max_version_by-keeps :
      (versions : List (ℕ × List ℕ)) (services : List ServiceInstance) (j : ℕ) (u : List ℕ)
      → Covers versions j u
      → Covers (max_version_by counts key versions services) j u
  unfolding max_version_by
  max_version_by-keeps versions [] j u h = h
  max_version_by-keeps versions (ins ∷ services) j u h = elim (Bool-cases (counts ins)) [
    | inl c ↦ rw c (
        max_version_by-keeps (advanced versions (key ins) ins.version) services j u
          (advanced-keeps versions (key ins) ins.version j u h))
    | inr c ↦ rw c (max_version_by-keeps versions services j u h)
  ]

  -- Every instance that counts is covered at the end.
  pub max_version_by-Covers :
      (versions : List (ℕ × List ℕ)) (services : List ServiceInstance) (n : ℕ)
      (ins : ServiceInstance)
      → get_elem? services n ≡ some ins
      → counts ins ≡ true
      → Covers (max_version_by counts key versions services) (key ins) ins.version
  unfolding max_version_by
  max_version_by-Covers versions [] n ins e c = absurd (ground (arith, e))
  max_version_by-Covers versions (first ∷ services) zero ins e c =
      let q : first ≡ ins = some_injective e in
      subst (λ i. Covers (max_version_by counts key versions (first ∷ services)) (key i) i.version)
        q
        (rw (ap counts q ∙ c) (
          max_version_by-keeps (advanced versions (key first) first.version) services (key first)
            first.version (advanced-Covers versions (key first) first.version)))
  max_version_by-Covers versions (first ∷ services) (suc n) ins e c =
      max_version_by-Covers
        (if counts first && newer (lookup (key first) versions) first.version
          then insert (key first) first.version versions
          else versions)
        services n ins e c
