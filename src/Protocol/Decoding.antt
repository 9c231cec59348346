-- ===== src/Protocol/Decoding.antt =====
-- Reading the fields of a frame behind its head.
use native.Mathlib.Nat.{mod-eq_of_lt}
use xbase.Prelude.{
  Option, ◌%◌, ◌≤◌, append-nil, ltb, if◌then◌else◌, panic, drop, ℕ, ◌+◌, ◌-◌, ◌^◌, ◌<◌, ◌≡◌, refl,
  sym, ap, subst, ◌∙◌, Bool, false, List, [], ◌∷◌, ◌++◌, Outcome, ok, arith, length, length-append,
  append_assoc,
}
use xbase.Prelude.Int.{pos, negsuc}
use xbase.Bytes.{big_endian, put_uint}
use xbase.Bytes.Laws.{length-put_uint}
use xbase.Buffer.Reader.{
  Read, ◌>>◌, ◌>>=◌, return, read_from, seek, seek_start, seek_end, read_uint8, read_bool,
  read_uint16, read_uint64, read_int64,
}
use xbase.Buffer.Reader.Reads.{
  Reads, read_from-seek_start, read_from-seek_end, bind-Reads, read_uint8-Reads, read_bool-Reads,
  read_uint16-Reads, read_uint64-Reads, read_int64-Reads,
}
use xbase.Buffer.Nocopy.{NocopyBuffer, Node, buffer_bytes, node_bytes}
use xbase.Buffer.Nocopy.Laws.{NodeOk}
use xbase.Buffer.Slices.{drop-append, drop-add}
use xbase.Buffer.Writer.{Writer, Write, write_uint8s, bool_byte}
use xbase.Buffer.Writer.Appends.{Appends, write_uint8s-Appends}
use xbase.Buffer.Pool.{IsPool}
use xbase.Protocol.{Route, route_id, read_message, framed, with_head}
use xbase.Protocol.Frames.{
  head_of, frame, length-head_of, length-frame, Encodes, read_message-frame, framed-Encodes,
  framed-node-Encodes, with_head-Appends,
}

-- The encoder succeeds; its bytes come out of a stream as one frame with the route and the sequence
-- number, whatever follows them, and the decoder gives the value.
abbrev pub Delivers :
    {A : Type 0} → Outcome NocopyBuffer → Route → ℕ → List ℕ → (List ℕ → Outcome A) → A → Type 0
Delivers encoded r seq rest decode a =
    (b : NocopyBuffer) × (encoded ≡ ok b)
    × (read_message (buffer_bytes b ++ rest) ≡ ok ((false, route_id r, seq, buffer_bytes b), rest))
    × (decode (buffer_bytes b) ≡ ok a)

pub frame-Delivers :
    {A : Type 0} (encoded : Outcome NocopyBuffer) (size : ℕ) (r : Route) (seq : ℕ)
    (body rest : List ℕ) (decode : List ℕ → Outcome A) (a : A)
    → Encodes encoded (frame size r seq body)
    → size ≡ 10 + length body
    → size < 2 ^ 32 - 4
    → seq < 2 ^ 64
    → decode (frame size r seq body) ≡ ok a
    → Delivers encoded r seq rest decode a
frame-Delivers encoded size r seq body rest decode a (b, e, _, k) counted h s d = (
  b,
  e,
  subst (λ f. read_message (f ++ rest) ≡ ok ((false, route_id r, seq, f), rest)) (sym k)
      (read_message-frame size r seq body rest counted h s),
  ap decode k ∙ d,
)

-- From the sequence number on.
pub read_from-seq :
    {A : Type 0} (m : Read A) (size : ℕ) (r : Route) (seq : ℕ) (body s : List ℕ) (a : A)
    → Reads m (put_uint big_endian 8 seq ++ body) a
    → read_from (frame size r seq (body ++ s)) (seek (pos 6) seek_start >> m) ≡ ok a
read_from-seq m size r seq body s a p =
    ap (λ l. read_from (head_of size r ++ l) (seek (pos 6) seek_start >> m))
      (sym (append_assoc (put_uint big_endian 8 seq) body s))
    ∙ read_from-seek_start m 6 (head_of size r) (put_uint big_endian 8 seq ++ body) s a
        (length-head_of size r) p

length-front :
    (size : ℕ) (r : Route) (seq : ℕ) → length (head_of size r ++ put_uint big_endian 8 seq) ≡ 14
length-front size r seq = omega (
  arith,
  length-append (head_of size r) (put_uint big_endian 8 seq),
  length-head_of size r,
  length-put_uint big_endian 8 seq,
)

-- From the body on.
pub read_from-body :
    {A : Type 0} (m : Read A) (size : ℕ) (r : Route) (seq : ℕ) (body s : List ℕ) (a : A)
    → Reads m body a
    → read_from (frame size r seq (body ++ s)) (seek (pos 14) seek_start >> m) ≡ ok a
read_from-body m size r seq body s a p =
    ap (λ l. read_from l (seek (pos 14) seek_start >> m))
      (sym (append_assoc (head_of size r) (put_uint big_endian 8 seq) (body ++ s)))
    ∙ read_from-seek_start m 14 (head_of size r ++ put_uint big_endian 8 seq) body s a
        (length-front size r seq) p

-- The last two bytes.
pub read_from-end :
    {A : Type 0} (m : Read A) (size : ℕ) (r : Route) (seq : ℕ) (body : List ℕ) (a : A)
    → length body ≡ 2
    → Reads m body a
    → read_from (frame size r seq body) (seek (negsuc 1) seek_end >> m) ≡ ok a
read_from-end m size r seq body a e p =
    ap (λ l. read_from l (seek (negsuc 1) seek_end >> m))
      (sym (append_assoc (head_of size r) (put_uint big_endian 8 seq) body))
    ∙ read_from-seek_end m 1 (head_of size r ++ put_uint big_endian 8 seq) body a e p

-- A frame of the length that its decoder demands, with nothing but fields behind the head.
pub fields-Delivers :
    {A : Type 0} (pooled : ℕ → Option Writer) (cap size : ℕ) (r : Route) (seq : ℕ) (m : Write)
    (body rest : List ℕ) (decode : List ℕ → Outcome A) (fields : Read A) (a : A)
    → IsPool pooled
    → seq < 2 ^ 64
    → Appends m body
    → size ≡ 10 + length body
    → size < 2 ^ 32 - 4
    → Reads fields (put_uint big_endian 8 seq ++ body) a
    → ((f : List ℕ)
        → length f ≡ size + 4
        → decode f ≡ read_from f (seek (pos 6) seek_start >> fields))
    → Delivers (framed pooled cap (with_head size r seq m) []) r seq rest decode a
fields-Delivers pooled cap size r seq m body rest decode fields a fresh s p counted h q d =
    frame-Delivers (framed pooled cap (with_head size r seq m) []) size r seq body rest decode a
      (framed-Encodes pooled cap (with_head size r seq m) (frame size r seq body) fresh
        (with_head-Appends size r seq m body (omega arith) p))
      counted h s
      (d (frame size r seq body) (omega (arith, length-frame size r seq body))
        ∙ ap (λ l. read_from (frame size r seq l) (seek (pos 6) seek_start >> fields))
            (sym (append-nil body))
        ∙ read_from-seq fields size r seq body [] a q)

-- A kind, an event or a state that fits a byte is written as it is.
pub byte-Appends : (v : ℕ) → v < 2 ^ 8 → Appends (write_uint8s (v % 2 ^ 8 ∷ [])) (v ∷ [])
byte-Appends v h =
    subst (λ k. Appends (write_uint8s (v % 2 ^ 8 ∷ [])) (k ∷ [])) (mod-eq_of_lt h)
      (write_uint8s-Appends (v % 2 ^ 8 ∷ []))

-- Fields in a row: each takes its bytes, and the rest of the decoder reads what follows.
pub then_uint64 :
    {A : Type 0} (k : ℕ → Read A) (ys : List ℕ) (a : A) (v : ℕ)
    → v < 2 ^ 64
    → Reads (k v) ys a
    → Reads (read_uint64 big_endian >>= k) (put_uint big_endian 8 v ++ ys) a
then_uint64 k ys a v h p =
    bind-Reads (read_uint64 big_endian) k (put_uint big_endian 8 v) ys v a
      (read_uint64-Reads big_endian v h) p

pub then_int64 :
    {A : Type 0} (k : ℕ → Read A) (ys : List ℕ) (a : A) (v : ℕ)
    → v < 2 ^ 64
    → Reads (k v) ys a
    → Reads (read_int64 big_endian >>= k) (put_uint big_endian 8 v ++ ys) a
then_int64 k ys a v h p =
    bind-Reads (read_int64 big_endian) k (put_uint big_endian 8 v) ys v a
      (read_int64-Reads big_endian v h) p

pub then_uint16 :
    {A : Type 0} (k : ℕ → Read A) (ys : List ℕ) (a : A) (v : ℕ)
    → v < 2 ^ 16
    → Reads (k v) ys a
    → Reads (read_uint16 big_endian >>= k) (put_uint big_endian 2 v ++ ys) a
then_uint16 k ys a v h p =
    bind-Reads (read_uint16 big_endian) k (put_uint big_endian 2 v) ys v a
      (read_uint16-Reads big_endian v h) p

pub then_uint8 :
    {A : Type 0} (k : ℕ → Read A) (ys : List ℕ) (a : A) (v : ℕ)
    → Reads (k v) ys a
    → Reads (read_uint8 >>= k) (v ∷ ys) a
then_uint8 k ys a v p = bind-Reads read_uint8 k (v ∷ []) ys v a (read_uint8-Reads v) p

pub then_bool :
    {A : Type 0} (k : Bool → Read A) (ys : List ℕ) (a : A) (v : Bool)
    → Reads (k v) ys a
    → Reads (read_bool >>= k) (bool_byte v ∷ ys) a
then_bool k ys a v p = bind-Reads read_bool k (bool_byte v ∷ []) ys v a (read_bool-Reads v) p

pub return-Reads : {A : Type 0} (a : A) → Reads (return a) [] a
return-Reads a r s h = (r, refl, h)

-- `data[off:]`, which panics beyond the end.
unfoldable pub slice_from : List ℕ → ℕ → Outcome (List ℕ)
slice_from f off = if ltb (length f) off then panic else ok (drop off f)

pub slice_from-drop : (f : List ℕ) (off : ℕ) → off ≤ length f → slice_from f off ≡ ok (drop off f)
unfolding slice_from
slice_from-drop f off h = let low : ltb (length f) off ≡ false = ground arith in rw low

-- What stands behind the first bytes of a body.
pub slice_from-body :
    (size : ℕ) (r : Route) (seq : ℕ) (body s : List ℕ) (off : ℕ)
    → off ≡ 14 + length body
    → slice_from (frame size r seq (body ++ s)) off ≡ ok s
slice_from-body size r seq body s off e =
    slice_from-drop (frame size r seq (body ++ s)) off
      (omega (arith, length-frame size r seq (body ++ s), length-append body s))
    ∙ ap ok (
        drop-add (frame size r seq (body ++ s)) 14 (length body) off e
        ∙ ap (λ l. drop (length body) (drop 14 l))
            (sym (append_assoc (head_of size r) (put_uint big_endian 8 seq) (body ++ s)))
        ∙ ap (drop (length body)) (
            drop-append 14 (head_of size r ++ put_uint big_endian 8 seq) (body ++ s)
              (length-front size r seq))
        ∙ drop-append (length body) body s refl)

frame-append :
    (size : ℕ) (r : Route) (seq : ℕ) (body s : List ℕ)
    → frame size r seq body ++ s ≡ frame size r seq (body ++ s)
frame-append size r seq body s =
    append_assoc (head_of size r) (put_uint big_endian 8 seq ++ body) s
    ∙ ap (◌++◌ (head_of size r)) (append_assoc (put_uint big_endian 8 seq) body s)

-- A frame whose body is followed by a message.
pub carrier-Delivers :
    {A : Type 0} (pooled : ℕ → Option Writer) (cap size : ℕ) (r : Route) (seq : ℕ) (m : Write)
    (body rest : List ℕ) (message : Node) (decode : List ℕ → Outcome A) (a : A)
    → IsPool pooled
    → NodeOk message
    → seq < 2 ^ 64
    → Appends m body
    → size ≡ 10 + length body + length (node_bytes message)
    → size < 2 ^ 32 - 4
    → decode (frame size r seq (body ++ node_bytes message)) ≡ ok a
    → Delivers (framed pooled cap (with_head size r seq m) (message ∷ [])) r seq rest decode a
carrier-Delivers pooled cap size r seq m body rest message decode a fresh ok_message s p counted h
      d =
    let (b, e, v, k) =
      framed-node-Encodes pooled cap (with_head size r seq m) message (frame size r seq body) fresh
        ok_message (with_head-Appends size r seq m body (omega arith) p) in
    frame-Delivers (framed pooled cap (with_head size r seq m) (message ∷ [])) size r seq
      (body ++ node_bytes message) rest decode a
      (b, e, v, k ∙ frame-append size r seq body (node_bytes message))
      (omega (arith, length-append body (node_bytes message))) h s d

-- A reply: its decoder reads from the body on.
pub reply-Delivers :
    {A : Type 0} (pooled : ℕ → Option Writer) (cap size : ℕ) (r : Route) (seq : ℕ) (m : Write)
    (body rest : List ℕ) (decode : List ℕ → Outcome A) (a : A)
    → IsPool pooled
    → seq < 2 ^ 64
    → Appends m body
    → size ≡ 10 + length body
    → size < 2 ^ 32 - 4
    → decode (frame size r seq body) ≡ ok a
    → Delivers (framed pooled cap (with_head size r seq m) []) r seq rest decode a
reply-Delivers pooled cap size r seq m body rest decode a fresh s p counted h d =
    frame-Delivers (framed pooled cap (with_head size r seq m) []) size r seq body rest decode a
      (framed-Encodes pooled cap (with_head size r seq m) (frame size r seq body) fresh
        (with_head-Appends size r seq m body (omega arith) p))
      counted h s d
