-- ===== src/Bytes/Laws.antt =====
-- Words and their bytes.
use native.Mathlib.Nat.{pow-suc}
use mathlib.Core.List.{reverse-cons, reverse-reverse}
use xbase.Prelude.{
  ℕ, zero, suc, ◌/◌, ◌^◌, ◌<◌, ◌≡◌, refl, ap, ◌∙◌, List, [], ◌∷◌, reverse, arith, length,
  length-append,
}
use xbase.Bytes.{ByteOrder, big_endian, little_endian, le_bytes, le_value, put_uint, get_uint}

length-le_bytes : (k v : ℕ) → length (le_bytes k v) ≡ k
unfolding le_bytes
length-le_bytes zero v = refl
length-le_bytes (suc k) v = ap suc (length-le_bytes k (v / 256))

le_value-le_bytes : (k v : ℕ) → v < 256 ^ k → le_value (le_bytes k v) ≡ v
unfolding le_bytes le_value
le_value-le_bytes zero v h = omega arith
le_value-le_bytes (suc k) v h =
    omega (arith, le_value-le_bytes k (v / 256) (omega (arith, pow-suc 256 k)))

pub length-reverse {ℓ} : {A : Type ℓ} (bs : List A) → length (reverse bs) ≡ length bs
length-reverse [] = refl
length-reverse (b ∷ bs) =
    let back = reverse bs in
    omega (arith, length-reverse bs, length-append back (b ∷ []), ap length (reverse-cons b bs))

-- A word takes its width.
pub length-put_uint : (o : ByteOrder) (k v : ℕ) → length (put_uint o k v) ≡ k
unfolding put_uint
length-put_uint big_endian k v = length-reverse (le_bytes k v) ∙ length-le_bytes k v
length-put_uint little_endian k v = length-le_bytes k v

-- A word that fits its width is read back.
pub get_uint-put_uint : (o : ByteOrder) (k v : ℕ) → v < 256 ^ k → get_uint o (put_uint o k v) ≡ v
unfolding put_uint get_uint
get_uint-put_uint big_endian k v h = rw reverse-reverse (le_value-le_bytes k v h)
get_uint-put_uint little_endian k v h = le_value-le_bytes k v h
