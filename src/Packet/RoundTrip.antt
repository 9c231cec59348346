-- ===== src/Packet/RoundTrip.antt =====
-- What PackMessage makes is read from a stream as one frame and unpacked to the message.
use xbase.Prelude.{
  ℕ, ◌+◌, ◌-◌, ◌%◌, ◌^◌, ◌<◌, ◌≤◌, ◌≡◌, refl, ap, ◌∙◌, true, false, some, List, ◌++◌, ok, err,
  arith, ltb, ◌==◌, length, replicate, length-append, append_assoc, invalid_message,
}
use xbase.Bytes.Laws.{length-put_uint, get_uint-put_uint}
use xbase.Buffer.Slices.{take-append}
use xbase.Protocol.Frames.{read_full_lem}
use xbase.Packet.{Options, Message, pack_message, unpack_message, read_message, data_bit, max_int32}
use xbase.Packet.Fields.{word, packed, length-packed, fill-packed, packed-Fields}

-- The fields of a message fit their words.
pub record IsWord32 (m : Message) : Type 0 where
  pub game_id : m.game_id < 2 ^ 32
  pub message_id : m.message_id < 2 ^ 32
  pub seq : m.seq < 2 ^ 32

-- PackMessage and PackBuffer put four zero bytes, or none, behind the body.
pub unpack_message-packed :
    (o : Options) (m : Message) (rest : List ℕ)
    → IsWord32 m
    → 20 + length m.buffer ≤ o.buffer_bytes
    → 20 + length m.buffer < 2 ^ 32
    → unpack_message o (packed o m (20 + length m.buffer) (m.buffer ++ rest))
      ≡ ok (some (m, 20 + length m.buffer))
unfolding unpack_message
unpack_message-packed o m rest w fits small =
    let total = 20 + length m.buffer in
    let f = packed-Fields o m total (m.buffer ++ rest) small w.game_id w.message_id w.seq in
    let l = length-packed o m total (m.buffer ++ rest) in
    let k = length-append m.buffer rest in
    let t₁ : ltb (length (packed o m total (m.buffer ++ rest))) 4 ≡ false = ground (arith, l) in
    let t₂ : ltb total 20 ≡ false = ground arith in
    let t₃ : ltb o.buffer_bytes total ≡ false = ground arith in
    let t₄ : ltb (length (packed o m total (m.buffer ++ rest))) total ≡ false =
      ground (arith, l, k) in
    let n : total - 20 ≡ length m.buffer = omega arith in
    rw (
      t₁,
      f.size_field,
      t₂,
      t₃,
      t₄,
      n,
      f.game_field,
      f.message_field,
      f.seq_field,
      f.body_field,
      take-append (length m.buffer) m.buffer rest refl,
    )

-- A frame whose size is more than the buffer allows is refused.
pub unpack_message-refused :
    (o : Options) (m : Message) (rest : List ℕ)
    → IsWord32 m
    → o.buffer_bytes < 20 + length m.buffer
    → 20 + length m.buffer < 2 ^ 32
    → unpack_message o (packed o m (20 + length m.buffer) (m.buffer ++ rest)) ≡ err invalid_message
unfolding unpack_message
unpack_message-refused o m rest w over small =
    let total = 20 + length m.buffer in
    let f = packed-Fields o m total (m.buffer ++ rest) small w.game_id w.message_id w.seq in
    let l = length-packed o m total (m.buffer ++ rest) in
    let t₁ : ltb (length (packed o m total (m.buffer ++ rest))) 4 ≡ false = ground (arith, l) in
    let t₂ : ltb total 20 ≡ false = ground arith in
    let t₃ : ltb o.buffer_bytes total ≡ true = ground arith in rw (t₁, f.size_field, t₂, t₃)

pub pack_message-packed :
    (o : Options) (m : Message)
    → length m.buffer ≤ o.buffer_bytes
    → 20 + length m.buffer ≤ max_int32
    → pack_message o m ≡ ok (packed o m (20 + length m.buffer) (m.buffer ++ replicate 4 0))
unfolding pack_message
pack_message-packed o m fits small =
    let t₁ : ltb o.buffer_bytes (length m.buffer) ≡ false = ground arith in
    let t₂ : ltb max_int32 (20 + length m.buffer) ≡ false = ground arith in
    rw (t₁, t₂, fill-packed o m (20 + length m.buffer) (length m.buffer) refl)

-- A frame that is as long as its size field says, and four bytes more, comes out of a stream.
pub read_message-frame :
    (o : Options) (size : ℕ) (bs rest : List ℕ)
    → length bs ≡ size
    → 0 < size
    → size < 2 ^ 32 - 4
    → read_message o (word o size ++ (bs ++ rest)) ≡ ok (some (word o size ++ bs), rest)
unfolding read_message
read_message-frame o size bs rest e pos h =
    let total : (4 + size) % 2 ^ 32 ≡ 4 + size = omega arith in
    let some_bytes : (size == 0) ≡ false = ground arith in
    let enough : ltb (4 + size) 4 ≡ false = ground arith in
    let back : 4 + size - 4 ≡ size = omega arith in
    rw (
      read_full_lem 4 (word o size) (bs ++ rest) (length-put_uint o.byte_order 4 size),
      get_uint-put_uint o.byte_order 4 size (omega arith),
      some_bytes,
      total,
      enough,
      back,
      read_full_lem size bs rest e,
    )

-- A message whose packet fits the buffer and whose fields fit their words is packed; the packet comes
-- out of a stream as one frame, whatever follows it, and is unpacked to the message and the size
-- without the four bytes that PackMessage leaves behind the body.
pub message_round_trip :
    (o : Options) (m : Message) (rest : List ℕ)
    → IsWord32 m
    → 20 + length m.buffer ≤ o.buffer_bytes
    → 20 + length m.buffer ≤ max_int32
    → (frame : List ℕ) × (pack_message o m ≡ ok frame)
      × (read_message o (frame ++ rest) ≡ ok (some frame, rest))
      × (unpack_message o frame ≡ ok (some (m, 20 + length m.buffer)))
      × (length frame ≡ 24 + length m.buffer)
message_round_trip o m rest w fits small =
    let total = 20 + length m.buffer in
    let behind = m.buffer ++ replicate 4 0 in
    let after =
      word o data_bit ++ (word o m.game_id ++ (word o m.message_id ++ (word o m.seq ++ behind))) in
    let k = length-append m.buffer (replicate {A = ℕ} 4 0) in
    let l = length-packed o m total behind in
    let n = length-append (word o total) after in
    (
      packed o m total behind,
      pack_message-packed o m (omega arith) small,
      ap (read_message o) (append_assoc (word o total) after rest)
          ∙ read_message-frame o total after rest
              (omega (arith, k, l, n, length-put_uint o.byte_order 4 total)) (omega arith)
              (omega arith),
      unpack_message-packed o m (replicate 4 0) w fits (omega arith),
      omega (arith, k, l),
    )

-- A message of which the body fits the buffer, but not the body and the header, is packed, and its
-- packet is refused by UnpackMessage under the same options.
pub packed_but_refused :
    (o : Options) (m : Message)
    → IsWord32 m
    → length m.buffer ≤ o.buffer_bytes
    → o.buffer_bytes < 20 + length m.buffer
    → 20 + length m.buffer ≤ max_int32
    → (frame : List ℕ) × (pack_message o m ≡ ok frame)
      × (unpack_message o frame ≡ err invalid_message)
packed_but_refused o m w fits over small = (
  _,
  pack_message-packed o m fits small,
  unpack_message-refused o m (replicate 4 0) w over (omega arith),
)
