-- ===== src/Transporter/Loading.antt =====
-- `Client.load` of internal/transporter/internal/client/client.go: which connection a call goes over.
use xbase.Prelude.{
  ℕ, zero, suc, ◌+◌, ◌%◌, ◌^◌, ◌<◌, ◌≡◌, ◌≢◌, ◌⊎◌, inl, inr, refl, ap, Option, none, some, List, [],
  ◌∷◌, arith, ◌==◌, if◌then◌else◌, length, get_elem?, Bool-cases, Outcome, ok, panic, bind_outcome,
}
use xbase.Prelude.Int.{ℤ, pos, negsuc}

-- `c.conns[i]`.
abbrev pub conn_at : Option ℕ → Outcome (Option ℕ)
conn_at none = panic
conn_at (some conn) = ok (some conn)

-- `idx[0]%int64(n)` has the sign of `idx[0]`; a negative index is out of range.
abbrev pub conn_by : List ℕ → ℤ → Outcome (Option ℕ)
conn_by conns (pos k) = conn_at (get_elem? conns (k % length conns))
conn_by conns (negsuc k) =
    if (k + 1) % length conns == 0 then conn_at (get_elem? conns 0) else panic

abbrev pub load_some : List ℕ → ℕ → Option ℤ → Outcome (Option ℕ × ℕ)
load_some conns idx (some i) = bind_outcome (conn_by conns i) (λ conn. ok (conn, idx))
load_some conns idx none =
    let next = (idx + 1) % 2 ^ 64 in
    bind_outcome (conn_at (get_elem? conns (next % length conns))) (λ conn. ok (conn, next))

-- The connection, none where the client has none, and the counter `idx` of the client, a uint64.
unfoldable pub load : List ℕ → ℕ → Option ℤ → Outcome (Option ℕ × ℕ)
load [] idx i = ok (none, idx)
load (conn ∷ conns) idx i = load_some (conn ∷ conns) idx i

mod_below : (n m : ℕ) → 0 < m → n % m < m
mod_below n m h = grind arith

inside : (conns : List ℕ) (i : ℕ) → i < length conns → (conn : ℕ) × (get_elem? conns i ≡ some conn)
inside [] i h = absurd (omega arith)
inside (conn ∷ conns) zero h = (conn, refl)
inside (conn ∷ conns) (suc i) h = inside conns i (omega arith)

-- What the load of a client with that many connections picks, and the counter after it: without an
-- index the counter is moved on and picks; an index picks by its remainder, and leaves the counter.
abbrev pub Picks : ℕ → ℕ → Option ℤ → ℕ → ℕ → Type 0
Picks n idx none at next = (next ≡ (idx + 1) % 2 ^ 64) × (at ≡ next % n)
Picks n idx (some (pos k)) at next = (next ≡ idx) × (at ≡ k % n)
Picks n idx (some (negsuc k)) at next = (next ≡ idx) × (at ≡ 0) × ((k + 1) % n ≡ 0)

-- The load of a client with at least one connection gives one of them: without an index the counter,
-- moved on and wrapped around, picks it by its remainder; an index that is not negative picks it by its
-- remainder and leaves the counter; a negative index that is a multiple of their number picks the first.
-- Where the index is negative and no multiple of their number, it runs out of range and panics.
pub load_lem :
    (first : ℕ) (rest : List ℕ) (idx : ℕ) (i : Option ℤ)
    → ((at : ℕ) × (conn : ℕ) × (next : ℕ) × (load (first ∷ rest) idx i ≡ ok (some conn, next))
        × (get_elem? (first ∷ rest) at ≡ some conn)
        × Picks (length (first ∷ rest)) idx i at next)
      ⊎ ((k : ℕ) × (i ≡ some (negsuc k))
          × ((k + 1) % length (first ∷ rest) ≢ 0)
          × (load (first ∷ rest) idx i ≡ panic))
unfolding load
load_lem first rest idx none =
    let next = (idx + 1) % 2 ^ 64 in
    let at = next % length (first ∷ rest) in
    let (conn, e) =
      inside (first ∷ rest) at (mod_below next (length (first ∷ rest)) (omega arith)) in
    inl (
      at,
      conn,
      next,
      ap (λ o. bind_outcome (conn_at o) (λ conn. ok (conn, next))) e,
      e,
      (refl, refl),
    )
load_lem first rest idx (some (pos k)) =
    let at = k % length (first ∷ rest) in
    let (conn, e) = inside (first ∷ rest) at (mod_below k (length (first ∷ rest)) (omega arith)) in
    inl (
      at,
      conn,
      idx,
      ap (λ o. bind_outcome (conn_at o) (λ conn. ok (conn, idx))) e,
      e,
      (refl, refl),
    )
load_lem first rest idx (some (negsuc k)) =
    elim (Bool-cases ((k + 1) % length (first ∷ rest) == 0)) [
      | inl e ↦ inl (0, first, idx, rw e refl, refl, (refl, refl, ground (arith, e)))
      | inr e ↦ inr (k, refl, ground (arith, e), rw e refl)
    ]
