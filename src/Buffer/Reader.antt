-- ===== src/Buffer/Reader.antt =====
-- core/buffer/reader.go. A method that reads takes the reader and returns the value and the reader
-- as it moved on. A length that the source takes as an `int` is a number here: no caller that is
-- modelled passes a negative one.
pub mod Reads
use xbase.Prelude.{
  ℕ, zero, suc, ◌+◌, ◌*◌, Bool, true, false, List, [], ◌∷◌, Outcome, ok, err, unexpected_eof,
  negative_position, bind_outcome, leb, ◌==◌, if◌then◌else◌, length, take, drop, map,
}
use xbase.Prelude.Int.{ℤ, pos, negsuc, ◌+ℤ◌}
use xbase.Bytes.{ByteOrder, big_endian, little_endian, get_uint}
use xbase.Buffer.Slices.{slice_of}

pub record Reader : Type 0 where
  pub buf : List ℕ
  pub off : ℕ

abbrev pub Read : Type 0 → Type 0
Read A = Reader → Outcome (A × Reader)

infixl 5 ◌>>=◌ ◌>>◌
abbrev pub ◌>>=◌ : {A B : Type 0} → Read A → (A → Read B) → Read B
◌>>=◌ m f r = bind_outcome (m r) (λ p. f p.0 p.1)

abbrev pub ◌>>◌ : {A B : Type 0} → Read A → Read B → Read B
◌>>◌ m k = m >>= (λ _. k)

abbrev pub return : {A : Type 0} → A → Read A
return a r = ok (a, r)

unfoldable pub new_reader : List ℕ → Reader
new_reader buf = record { buf = buf; off = 0 }

-- A reader made, used and dropped, as the decoders do.
abbrev pub read_from : {A : Type 0} → List ℕ → Read A → Outcome A
read_from data₀ m = bind_outcome (m (new_reader data₀)) (λ p. ok p.0)

unfoldable pub reset : Reader → Reader
reset r = record r { off = 0 }

-- The values of `whence` that `io` names; any other is an error in the source.
pub data Whence : Type 0 where
  seek_start seek_current seek_end : Whence

abbrev pub seek_base : Whence → Reader → ℕ
seek_base seek_start r = 0
seek_base seek_current r = r.off
seek_base seek_end r = length r.buf

abbrev pub seek_to : ℤ → Read ℕ
seek_to (pos n) r = ok (n, record r { off = n })
seek_to (negsuc n) r = err negative_position

unfoldable pub seek : ℤ → Whence → Read ℕ
seek offset whence r = seek_to (pos (seek_base whence r) +ℤ offset) r

unfoldable pub slices : ℕ → ℕ → Read (List ℕ)
slices b n r =
    if leb (suc (length r.buf)) (r.off + b * n)
    then err unexpected_eof
    else ok (slice_of r.buf r.off (b * n), record r { off = r.off + b * n })

unfoldable pub slice : ℕ → Read (List ℕ)
slice b = slices b 1

abbrev pub head_or_zero : List ℕ → ℕ
head_or_zero [] = 0
head_or_zero (b ∷ bs) = b

unfoldable pub read_bool : Read Bool
read_bool = do buf ← slice 1; return (head_or_zero buf == 1)

unfoldable pub read_uint8 : Read ℕ
read_uint8 = do buf ← slice 1; return (head_or_zero buf)

unfoldable pub read_uint16 : ByteOrder → Read ℕ
read_uint16 o = do buf ← slice 2; return (get_uint o buf)

unfoldable pub read_uint32 : ByteOrder → Read ℕ
read_uint32 o = do buf ← slice 4; return (get_uint o buf)

unfoldable pub read_int32 : ByteOrder → Read ℕ
read_int32 o = do buf ← slice 4; return (get_uint o buf)

unfoldable pub read_uint64 : ByteOrder → Read ℕ
read_uint64 o = do buf ← slice 8; return (get_uint o buf)

unfoldable pub read_int64 : ByteOrder → Read ℕ
read_int64 o = do buf ← slice 8; return (get_uint o buf)

-- `for i := 0; i < len(buf); i += b`, over the `n` words of `b` bytes in `buf`.
unfoldable pub words_of : ByteOrder → ℕ → ℕ → List ℕ → List ℕ
words_of o b zero buf = []
words_of o b (suc n) buf = get_uint o (take b buf) ∷ words_of o b n (drop b buf)

unfoldable pub read_bools : ℕ → Read (List Bool)
read_bools zero = return []
read_bools (suc n) = do buf ← slices 1 (suc n); return (map (λ b. b == 1) buf)

unfoldable pub read_uint8s : ℕ → Read (List ℕ)
read_uint8s zero = return []
read_uint8s (suc n) = slices 1 (suc n)

unfoldable pub read_uint16s : ByteOrder → ℕ → Read (List ℕ)
read_uint16s o zero = return []
read_uint16s o (suc n) = do buf ← slices 2 (suc n); return (words_of o 2 (suc n) buf)

-- The 32-bit words have no test for a count of zero in the source.
unfoldable pub read_int32s : ByteOrder → ℕ → Read (List ℕ)
read_int32s o n = do buf ← slices 4 n; return (words_of o 4 n buf)

unfoldable pub read_uint32s : ByteOrder → ℕ → Read (List ℕ)
read_uint32s o n = do buf ← slices 4 n; return (words_of o 4 n buf)

unfoldable pub read_int64s : ByteOrder → ℕ → Read (List ℕ)
read_int64s o zero = return []
read_int64s o (suc n) = do buf ← slices 8 (suc n); return (words_of o 8 (suc n) buf)

unfoldable pub read_uint64s : ByteOrder → ℕ → Read (List ℕ)
read_uint64s o zero = return []
read_uint64s o (suc n) = do buf ← slices 8 (suc n); return (words_of o 8 (suc n) buf)

unfoldable pub read_bytes : ℕ → Read (List ℕ)
read_bytes zero = return []
read_bytes (suc n) = slices 1 (suc n)

unfoldable pub read_string : ℕ → Read (List ℕ)
read_string n = slice n
