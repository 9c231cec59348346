-- ===== src/Buffer/Pool.antt =====
-- core/buffer/writer_pool.go. The graded pools hand out a released writer or a new one; which one is
-- the choice of sync.Pool, here the function `pooled` from a grade to a writer that waits in it.
use xbase.Prelude.{
  ℕ, zero, suc, ◌+◌, ◌^◌, min, ◌≡◌, refl, Option, none, some, Option-cases, inl, inr, leb,
  if◌then◌else◌, arith, length-replicate, sym,
}
use xbase.Buffer.Writer.{Writer, new_writer_with_capacity, release}
use xbase.Buffer.Writer.Laws.{IsValid}

-- `int(math.Ceil(math.Log2(float64(cap))))` for a capacity of at least 1, searched up to `n` from
-- the grade `i` on: the first power of two that is not below the capacity.
unfoldable pub ceil_log2_from : ℕ → ℕ → ℕ → ℕ
ceil_log2_from zero i cap = i
ceil_log2_from (suc n) i cap =
    let next = ceil_log2_from n (i + 1) cap in if leb cap (2 ^ i) then i else next

-- getPool of the default pool, which has the grades 0 to 32.
unfoldable pub grade : ℕ → ℕ
unfolding ceil_log2_from
grade cap = min (ceil_log2_from 32 0 cap) 32

-- A waiting writer, or `pool.New()`.
abbrev pub or_new : Option Writer → ℕ → Writer
or_new (some w) i = w
or_new none i = new_writer_with_capacity (2 ^ i)

unfoldable pub malloc_writer : (ℕ → Option Writer) → ℕ → Writer
malloc_writer pooled cap = or_new (pooled (grade cap)) (grade cap)

-- Every writer that waits was released: it is in good order and starts at 0. Its bytes are whatever
-- its last user left.
abbrev pub IsPool : (ℕ → Option Writer) → Type 0
IsPool pooled = (i : ℕ) (w : Writer) → pooled i ≡ some w → IsValid w × (w.off ≡ 0)

-- So is every writer that the pool hands out.
pub malloc_writer-IsValid :
    (pooled : ℕ → Option Writer) (cap : ℕ)
    → IsPool pooled
    → IsValid (malloc_writer pooled cap) × ((malloc_writer pooled cap).off ≡ 0)
unfolding malloc_writer new_writer_with_capacity
malloc_writer-IsValid pooled cap p = elim (Option-cases (pooled (grade cap))) [
  | inl e ↦ rw e (
    record { full = sym (length-replicate {A = ℕ} (2 ^ grade cap) 0); within = omega arith },
    refl,
  )
  | inr (w, e) ↦ rw e (p (grade cap) w e)
]

-- A writer in good order can be given back.
pub release-IsValid : (w : Writer) → IsValid w → IsValid (release w) × ((release w).off ≡ 0)
unfolding release
release-IsValid w v = (record { full = v.full; within = omega arith }, refl)
