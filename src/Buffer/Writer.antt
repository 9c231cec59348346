-- ===== src/Buffer/Writer.antt =====
-- core/buffer/writer.go. `arr` is the array behind the slice `w.buf`, so its length is `cap(w.buf)`;
-- `len` is `len(w.buf)`. An index beyond `len`, or a slice bound beyond the capacity, panics.
pub mod Laws
pub mod Appends
use xbase.Prelude.{
  ℕ, zero, suc, ◌+◌, ◌*◌, ◌-◌, max, Bool, true, false, List, [], ◌∷◌, Outcome, ok, panic,
  bind_outcome, ltb, leb, if◌then◌else◌, length, take, replicate,
}
use xbase.Bytes.{ByteOrder, put_uint}
use xbase.Buffer.Slices.{overwrite}

pub record Writer : Type 0 where
  pub arr : List ℕ
  pub len : ℕ
  pub off : ℕ

-- A method of the writer that returns nothing.
abbrev pub Write : Type 0
Write = Writer → Outcome Writer

infixl 5 ◌>>◌
abbrev pub ◌>>◌ : Write → Write → Write
◌>>◌ m k w = bind_outcome (m w) k

-- NewWriterWithCapacity, with a capacity.
unfoldable pub new_writer_with_capacity : ℕ → Writer
new_writer_with_capacity cap = record { arr = replicate cap 0; len = cap; off = 0 }

-- NewWriter: a slice with `len` of the bytes of its array.
unfoldable pub new_writer : List ℕ → ℕ → Writer
new_writer arr len = record { arr = arr; len = len; off = 0 }

-- Bytes: `w.buf[:w.off]`.
unfoldable pub bytes : Writer → List ℕ
bytes w = take w.off w.arr

unfoldable pub available : Writer → ℕ
available w = length w.arr - w.off

-- Release, but for the hand-over to the pool.
unfoldable pub release : Writer → Writer
release w = record w { off = 0 }

unfoldable pub grow_slice : ℕ → Write
grow_slice n w =
    let c = max (w.len + n) (2 * length w.arr) in
    if leb w.off (length w.arr)
    then ok (record { arr = overwrite (replicate c 0) 0 (take w.off w.arr); len = c; off = w.off })
    else panic

unfoldable pub grow : ℕ → Write
grow n w = if ltb (w.off + n) (length w.arr) then ok w else grow_slice n w

-- `w.buf[w.off] = v; w.off++`
unfoldable pub put_byte : ℕ → Write
put_byte v w =
    if ltb w.off w.len
    then ok (record w { arr = overwrite w.arr w.off (v ∷ []); off = w.off + 1 })
    else panic

-- `order.PutUint(w.buf[w.off:w.off+k], v); w.off += k`
unfoldable pub put_word : ByteOrder → ℕ → ℕ → Write
put_word o k v w =
    if leb (w.off + k) (length w.arr)
    then ok (record w { arr = overwrite w.arr w.off (put_uint o k v); off = w.off + k })
    else panic

-- `for _, v := range values`
unfoldable pub for_each {ℓ} : {A : Type ℓ} → (A → Write) → List A → Write
for_each put [] w = ok w
for_each put (v ∷ vs) w = bind_outcome (put v w) (for_each put vs)

abbrev pub bool_byte : Bool → ℕ
bool_byte true = 1
bool_byte false = 0

unfoldable pub write_bools : List Bool → Write
write_bools vs = grow (length vs) >> for_each (λ v. put_byte (bool_byte v)) vs

unfoldable pub write_uint8s : List ℕ → Write
write_uint8s vs = grow (length vs) >> for_each put_byte vs

unfoldable pub write_uint16s : ByteOrder → List ℕ → Write
write_uint16s o vs = grow (2 * length vs) >> for_each (put_word o 2) vs

unfoldable pub write_uint32s : ByteOrder → List ℕ → Write
write_uint32s o vs = grow (4 * length vs) >> for_each (put_word o 4) vs

-- A signed word is its bit pattern, so that `uint32(v)` changes nothing.
unfoldable pub write_int32s : ByteOrder → List ℕ → Write
write_int32s o vs = grow (4 * length vs) >> for_each (put_word o 4) vs

unfoldable pub write_uint64s : ByteOrder → List ℕ → Write
write_uint64s o vs = grow (8 * length vs) >> for_each (put_word o 8) vs

unfoldable pub write_int64s : ByteOrder → List ℕ → Write
write_int64s o vs = grow (8 * length vs) >> for_each (put_word o 8) vs

-- `copy(w.buf[w.off:], values); w.off += len(values)`
unfoldable pub copy_bytes : List ℕ → Write
copy_bytes vs w =
    if leb w.off w.len
    then ok (record w {
      arr = overwrite w.arr w.off (take (w.len - w.off) vs);
      off = w.off + length vs;
    })
    else panic

unfoldable pub write_bytes : List ℕ → Write
write_bytes vs = grow (length vs) >> copy_bytes vs

unfoldable pub write_string : List ℕ → Write
write_string str = write_bytes str
