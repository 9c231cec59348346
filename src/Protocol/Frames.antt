-- ===== src/Protocol/Frames.antt =====
-- The bytes of a frame: what the encoders write is read back from a stream as it was.
use native.Mathlib.Nat.{mod-eq_of_lt}
use xbase.Prelude.{
  ℕ, zero, suc, ◌+◌, ◌-◌, ◌%◌, ◌^◌, ◌<◌, ◌≡◌, refl, sym, ap, subst, ◌∙◌, true, false, Option, List,
  [], ◌∷◌, ◌++◌, Outcome, ok, err, io_eof, arith, ltb, ◌==◌, length, take, length-append,
  append_assoc, append-nil, flat_map,
}
use xbase.Bytes.{ByteOrder, big_endian, put_uint}
use xbase.Bytes.Laws.{length-put_uint, get_uint-put_uint}
use xbase.Buffer.Slices.{take-append, drop-append}
use xbase.Buffer.Writer.{
  Writer, Write, bytes, write_uint8s, write_uint32s, write_uint64s, write_uint16s, write_int64s,
  write_int32s,
}
use xbase.Buffer.Writer.Appends.{
  Appends, >>-Appends, write_uint8s-Appends, write_uint16s-Appends, write_uint32s-Appends,
  write_uint64s-Appends, write_int64s-Appends, write_int32s-Appends,
}
use xbase.Buffer.Nocopy.{NocopyBuffer, Node, buffer_bytes, node_bytes}
use xbase.Buffer.Nocopy.Laws as NocopyLaws
use xbase.Buffer.Nocopy.Laws.{NodeOk}
use xbase.Buffer.Nocopy.Contents.{framed_lem, single_lem}
use xbase.Buffer.Pool.{malloc_writer, IsPool, malloc_writer-IsValid}
use xbase.Protocol.{
  Route, route_id, data_bit, with_head, no_body, framed, parse_buffer, read_full, read_rest,
  reader_buffer, read_message, byte_at,
}

-- The layout: size, header, route, sequence number, body.
abbrev pub head_of : ℕ → Route → List ℕ
head_of size r = put_uint big_endian 4 size ++ (data_bit ∷ route_id r ∷ [])

abbrev pub frame : ℕ → Route → ℕ → List ℕ → List ℕ
frame size r seq body = head_of size r ++ (put_uint big_endian 8 seq ++ body)

pub length-head_of : (size : ℕ) (r : Route) → length (head_of size r) ≡ 6
length-head_of size r = omega (
  arith,
  length-append (put_uint big_endian 4 size) (data_bit ∷ route_id r ∷ []),
  length-put_uint big_endian 4 size,
)

pub length-frame :
    (size : ℕ) (r : Route) (seq : ℕ) (body : List ℕ)
    → length (frame size r seq body) ≡ 14 + length body
length-frame size r seq body = omega (
  arith,
  length-append (head_of size r) (put_uint big_endian 8 seq ++ body),
  length-append (put_uint big_endian 8 seq) body,
  length-put_uint big_endian 8 seq,
  length-head_of size r,
)

one_word {ℓ} :
    {A : Type ℓ} (f : A → List ℕ) (m : Write) (v : A)
    → Appends m (flat_map f (v ∷ []))
    → Appends m (f v)
one_word f m v p = subst (Appends m) (append-nil (f v)) p

pub write_uint16-Appends :
    (o : ByteOrder) (v : ℕ) → Appends (write_uint16s o (v ∷ [])) (put_uint o 2 v)
write_uint16-Appends o v =
    one_word (put_uint o 2) (write_uint16s o (v ∷ [])) v (write_uint16s-Appends o (v ∷ []))

pub write_uint32-Appends :
    (o : ByteOrder) (v : ℕ) → Appends (write_uint32s o (v ∷ [])) (put_uint o 4 v)
write_uint32-Appends o v =
    one_word (put_uint o 4) (write_uint32s o (v ∷ [])) v (write_uint32s-Appends o (v ∷ []))

pub write_uint64-Appends :
    (o : ByteOrder) (v : ℕ) → Appends (write_uint64s o (v ∷ [])) (put_uint o 8 v)
write_uint64-Appends o v =
    one_word (put_uint o 8) (write_uint64s o (v ∷ [])) v (write_uint64s-Appends o (v ∷ []))

pub write_int64-Appends :
    (o : ByteOrder) (v : ℕ) → Appends (write_int64s o (v ∷ [])) (put_uint o 8 v)
write_int64-Appends o v =
    one_word (put_uint o 8) (write_int64s o (v ∷ [])) v (write_int64s-Appends o (v ∷ []))

pub write_int32-Appends :
    (o : ByteOrder) (v : ℕ) → Appends (write_int32s o (v ∷ [])) (put_uint o 4 v)
write_int32-Appends o v =
    one_word (put_uint o 4) (write_int32s o (v ∷ [])) v (write_int32s-Appends o (v ∷ []))

pub no_body-Appends : Appends no_body []
no_body-Appends w v = (w, refl, v, sym (append-nil (bytes w)))

pub with_head-Appends :
    (size : ℕ) (r : Route) (seq : ℕ) (m : Write) (body : List ℕ)
    → size < 2 ^ 32
    → Appends m body
    → Appends (with_head size r seq m) (frame size r seq body)
with_head-Appends size r seq m body h p =
    subst (Appends (with_head size r seq m))
      (ap
          (λ k.
            put_uint big_endian 4 k
            ++ (data_bit ∷ route_id r ∷ (put_uint big_endian 8 seq ++ body)))
          (mod-eq_of_lt h)
        ∙ sym (
            append_assoc (put_uint big_endian 4 size) (data_bit ∷ route_id r ∷ [])
              (put_uint big_endian 8 seq ++ body)))
      (>>-Appends (write_uint32s big_endian (size % 2 ^ 32 ∷ [])) _
        (put_uint big_endian 4 (size % 2 ^ 32)) _ (write_uint32-Appends big_endian (size % 2 ^ 32))
        (>>-Appends (write_uint8s (data_bit ∷ [])) _ (data_bit ∷ []) _
          (write_uint8s-Appends (data_bit ∷ []))
          (>>-Appends (write_uint8s (route_id r ∷ [])) _ (route_id r ∷ []) _
            (write_uint8s-Appends (route_id r ∷ []))
            (>>-Appends (write_uint64s big_endian (seq ∷ [])) m (put_uint big_endian 8 seq) body
              (write_uint64-Appends big_endian seq) p))))

-- The encoder succeeds, with a valid buffer that holds the bytes `bs`.
abbrev pub Encodes : Outcome NocopyBuffer → List ℕ → Type 0
Encodes o bs = (b : NocopyBuffer) × (o ≡ ok b) × NocopyLaws.IsValid b × (buffer_bytes b ≡ bs)

fresh_bytes :
    (pooled : ℕ → Option Writer) (cap : ℕ) (m : Write) (bs : List ℕ)
    → IsPool pooled
    → Appends m bs
    → (w : Writer) × (m (malloc_writer pooled cap) ≡ ok w) × (bytes w ≡ bs)
unfolding bytes
fresh_bytes pooled cap m bs fresh p =
    let (v, z) = malloc_writer-IsValid pooled cap fresh in
    let (w, e, _, b) = p (malloc_writer pooled cap) v in
    (w, e, b ∙ ap (λ k. take k (malloc_writer pooled cap).arr ++ bs) z)

pub framed-Encodes :
    (pooled : ℕ → Option Writer) (cap : ℕ) (m : Write) (bs : List ℕ)
    → IsPool pooled
    → Appends m bs
    → Encodes (framed pooled cap m []) bs
unfolding framed
framed-Encodes pooled cap m bs fresh p =
    let (w, e, b) = fresh_bytes pooled cap m bs fresh p in
    let (v, k) = single_lem (bytes w) in (_, rw (e, framed), v, k ∙ b)

pub framed-node-Encodes :
    (pooled : ℕ → Option Writer) (cap : ℕ) (m : Write) (n : Node) (bs : List ℕ)
    → IsPool pooled
    → NodeOk n
    → Appends m bs
    → Encodes (framed pooled cap m (n ∷ [])) (bs ++ node_bytes n)
unfolding framed
framed-node-Encodes pooled cap m n bs fresh h p =
    let (w, e, b) = fresh_bytes pooled cap m bs fresh p in
    let (v, k) = framed_lem (bytes w) n h in
    (_, rw (e, framed), v, k ∙ ap (λ l. l ++ node_bytes n) b)

pub byte_at-append :
    (bs s : List ℕ) (i j : ℕ) → j ≡ length bs + i → byte_at (bs ++ s) j ≡ byte_at s i
byte_at-append [] s i j e = ap (byte_at s) (omega arith)
byte_at-append (b ∷ bs) s i zero e = absurd (omega arith)
byte_at-append (b ∷ bs) s i (suc j) e = byte_at-append bs s i j (omega arith)

byte_at-append_left : (bs s : List ℕ) (j : ℕ) → j < length bs → byte_at (bs ++ s) j ≡ byte_at bs j
byte_at-append_left [] s j h = absurd (omega arith)
byte_at-append_left (b ∷ bs) s zero h = refl
byte_at-append_left (b ∷ bs) s (suc j) h = byte_at-append_left bs s j (omega arith)

byte_at-head :
    (size : ℕ) (r : Route) (s : List ℕ) (i j : ℕ)
    → j ≡ 4 + i
    → i < 2
    → byte_at (head_of size r ++ s) j ≡ byte_at (data_bit ∷ route_id r ∷ []) i
byte_at-head size r s i j e h =
    byte_at-append_left (head_of size r) s j (omega (arith, length-head_of size r))
    ∙ byte_at-append (put_uint big_endian 4 size) (data_bit ∷ route_id r ∷ []) i j
        (omega (arith, length-put_uint big_endian 4 size))

-- A frame is parsed as it was built.
parse_buffer-frame :
    (size : ℕ) (r : Route) (seq : ℕ) (body : List ℕ)
    → seq < 2 ^ 64
    → parse_buffer (frame size r seq body) ≡ ok (false, route_id r, seq)
unfolding parse_buffer
parse_buffer-frame size r seq body h =
    let s = put_uint big_endian 8 seq ++ body in
    let l = length-frame size r seq body in
    let l₅ : ltb (length (head_of size r ++ s)) 5 ≡ false = ground (arith, l) in
    let l₁₄ : ltb (length (head_of size r ++ s)) 14 ≡ false = ground (arith, l) in
    rw (
      l₅,
      byte_at-head size r s 0 4 refl (omega arith),
      l₁₄,
      byte_at-head size r s 1 5 refl (omega arith),
      drop-append 6 (head_of size r) s (length-head_of size r),
      take-append 8 (put_uint big_endian 8 seq) body (length-put_uint big_endian 8 seq),
      get_uint-put_uint big_endian 8 seq h,
    )

pub read_full_lem :
    (n : ℕ) (bs rest : List ℕ) → length bs ≡ n → read_full n (bs ++ rest) ≡ ok (bs, rest)
unfolding read_full
read_full_lem n bs rest e =
    let low : ltb (length (bs ++ rest)) n ≡ false = ground (arith, length-append bs rest) in
    rw (low, take-append n bs rest e, drop-append n bs rest e)

pub read_full_short :
    (n : ℕ) (stream : List ℕ) → length stream < n → read_full n stream ≡ err io_eof
unfolding read_full
read_full_short n stream h = let low : ltb (length stream) n ≡ true = ground arith in rw low

pub reader_buffer_lem :
    (size : ℕ) (bs rest : List ℕ)
    → length bs ≡ size
    → 0 < size
    → size < 2 ^ 32 - 4
    → reader_buffer (put_uint big_endian 4 size ++ (bs ++ rest))
      ≡ ok (put_uint big_endian 4 size ++ bs, rest)
unfolding reader_buffer read_rest
reader_buffer_lem size bs rest e pos h =
    let total : (4 + size) % 2 ^ 32 ≡ 4 + size = omega arith in
    let some_bytes : (size == 0) ≡ false = ground arith in
    let enough : ltb (4 + size) 4 ≡ false = ground arith in
    let back : 4 + size - 4 ≡ size = omega arith in
    rw (
      read_full_lem 4 (put_uint big_endian 4 size) (bs ++ rest) (length-put_uint big_endian 4 size),
      get_uint-put_uint big_endian 4 size (omega arith),
      some_bytes,
      total,
      enough,
      back,
      read_full_lem size bs rest e,
    )

-- A frame whose size field counts what follows it comes out of the stream as it was, parsed,
-- whatever follows it.
pub read_message-frame :
    (size : ℕ) (r : Route) (seq : ℕ) (body rest : List ℕ)
    → size ≡ 10 + length body
    → size < 2 ^ 32 - 4
    → seq < 2 ^ 64
    → read_message (frame size r seq body ++ rest)
      ≡ ok ((false, route_id r, seq, frame size r seq body), rest)
unfolding read_message
read_message-frame size r seq body rest e h k =
    let after = data_bit ∷ route_id r ∷ (put_uint big_endian 8 seq ++ body) in
    let shape : frame size r seq body ≡ put_uint big_endian 4 size ++ after =
      append_assoc (put_uint big_endian 4 size) (data_bit ∷ route_id r ∷ [])
        (put_uint big_endian 8 seq ++ body) in
    let counted : length after ≡ size =
      omega
        (arith, length-append (put_uint big_endian 8 seq) body, length-put_uint big_endian 8 seq) in
    let got : reader_buffer (frame size r seq body ++ rest) ≡ ok (frame size r seq body, rest) =
      subst (λ f. reader_buffer (f ++ rest) ≡ ok (f, rest)) (sym shape)
        (ap reader_buffer (append_assoc (put_uint big_endian 4 size) after rest)
          ∙ reader_buffer_lem size after rest counted (omega arith) h) in
    rw (got, parse_buffer-frame size r seq body k)
