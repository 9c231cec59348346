-- ===== src/Bytes.antt =====
-- encoding/binary as core/buffer and packet use it: unsigned words of a width in bytes, in the two
-- byte orders. A byte is a number below 256; a signed word is its two's complement bit pattern.
pub mod Laws
use xbase.Prelude.{ℕ, zero, suc, ◌+◌, ◌*◌, ◌/◌, ◌%◌, List, [], ◌∷◌, reverse}

pub data ByteOrder : Type 0 where
  big_endian little_endian : ByteOrder

-- The lowest byte first.
unfoldable pub le_bytes : ℕ → ℕ → List ℕ
le_bytes zero v = []
le_bytes (suc k) v = v % 256 ∷ le_bytes k (v / 256)

unfoldable pub le_value : List ℕ → ℕ
le_value [] = 0
le_value (b ∷ bs) = b + 256 * le_value bs

-- PutUint16, PutUint32 and PutUint64: the bytes of a word of `k` bytes.
unfoldable pub put_uint : ByteOrder → ℕ → ℕ → List ℕ
put_uint big_endian k v = reverse (le_bytes k v)
put_uint little_endian k v = le_bytes k v

-- Uint16, Uint32 and Uint64.
unfoldable pub get_uint : ByteOrder → List ℕ → ℕ
get_uint big_endian bs = le_value (reverse bs)
get_uint little_endian bs = le_value bs
