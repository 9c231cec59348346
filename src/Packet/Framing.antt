-- ===== src/Packet/Framing.antt =====
-- PackBuffer makes frames whose size field counts the field itself, while ReadMessage reads as many
-- bytes behind the field as it says.
use xbase.Prelude.{
  ℕ, ◌+◌, ◌-◌, ◌%◌, ◌^◌, ◌<◌, ◌≤◌, ◌≡◌, sym, ap, ◌∙◌, false, Option, some, List, [], ◌++◌, ok, err,
  arith, ltb, ◌==◌, length, take, drop, length-append, append_assoc, append-nil, length-take,
  take-append-drop, io_eof, leb, leb→le, if◌then◌else◌, Bool-cases, inl, inr,
}
use xbase.Bytes.Laws.{length-put_uint, get_uint-put_uint}
use xbase.Buffer.Writer.{Writer}
use xbase.Buffer.Writer.Appends.{>>-Appends}
use xbase.Buffer.Pool.{IsPool}
use xbase.Buffer.Nocopy.{NocopyBuffer, block, node_bytes, buffer_bytes}
use xbase.Protocol.Frames.{
  Encodes, framed-node-Encodes, write_int32-Appends, read_full_lem, read_full_short,
}
use xbase.Packet.{Options, Message, pack_buffer, unpack_message, read_message, data_bit, max_int32}
use xbase.Packet.Fields.{word, packed, length-packed}
use xbase.Packet.RoundTrip.{IsWord32, unpack_message-packed, read_message-frame}

pack_buffer-Encodes :
    (pooled : ℕ → Option Writer) (o : Options) (m : Message)
    → IsPool pooled
    → 20 + length m.buffer ≤ o.buffer_bytes
    → 20 + length m.buffer ≤ max_int32
    → Encodes (pack_buffer pooled o m) (packed o m (20 + length m.buffer) m.buffer)
unfolding pack_buffer node_bytes
pack_buffer-Encodes pooled o m fresh fits small =
    let total = 20 + length m.buffer in
    let t₁ : ltb o.buffer_bytes (length m.buffer) ≡ false = ground arith in
    let t₂ : ltb o.buffer_bytes total ≡ false = ground arith in
    let t₃ : ltb max_int32 total ≡ false = ground arith in
    let (b, e, v, k) =
      framed-node-Encodes pooled 20 _ (block m.buffer)
        (word o total
          ++ (word o data_bit ++ (word o m.game_id ++ (word o m.message_id ++ word o m.seq))))
        fresh tt
        (>>-Appends _ _ (word o total) _ (write_int32-Appends o.byte_order total) (
          >>-Appends _ _ (word o data_bit) _ (write_int32-Appends o.byte_order data_bit) (
            >>-Appends _ _ (word o m.game_id) _ (write_int32-Appends o.byte_order m.game_id) (
              >>-Appends _ _ (word o m.message_id) (word o m.seq)
                (write_int32-Appends o.byte_order m.message_id)
                (write_int32-Appends o.byte_order m.seq))))) in
    (b, rw (t₁, t₂, t₃) e, v, k ∙ simp append_assoc)

-- A message whose packet fits the buffer and whose fields fit their words is packed by PackBuffer into
-- as many bytes as its size field says, which UnpackMessage unpacks to the message.
pub buffer_round_trip :
    (pooled : ℕ → Option Writer) (o : Options) (m : Message)
    → IsPool pooled
    → IsWord32 m
    → 20 + length m.buffer ≤ o.buffer_bytes
    → 20 + length m.buffer ≤ max_int32
    → (b : NocopyBuffer) × (pack_buffer pooled o m ≡ ok b)
      × (unpack_message o (buffer_bytes b) ≡ ok (some (m, 20 + length m.buffer)))
      × (length (buffer_bytes b) ≡ 20 + length m.buffer)
buffer_round_trip pooled o m fresh w fits small =
    let total = 20 + length m.buffer in
    let (b, e, _, k) = pack_buffer-Encodes pooled o m fresh fits small in
    (
      b,
      e,
      ap (unpack_message o) (k ∙ ap (packed o m total) (sym (append-nil m.buffer)))
          ∙ unpack_message-packed o m [] w fits (omega arith),
      ap length k ∙ length-packed o m total m.buffer,
    )

module _ (o : Options) (m : Message) (rest : List ℕ) where
  short_frame :
      (size : ℕ) (bs : List ℕ)
      → length bs < size
      → size < 2 ^ 32 - 4
      → read_message o (word o size ++ bs) ≡ err io_eof
  unfolding read_message
  short_frame size bs e h =
      let total : (4 + size) % 2 ^ 32 ≡ 4 + size = omega arith in
      let some_bytes : (size == 0) ≡ false = ground arith in
      let enough : ltb (4 + size) 4 ≡ false = ground arith in
      let back : 4 + size - 4 ≡ size = omega arith in
      rw (
        read_full_lem 4 (word o size) bs (length-put_uint o.byte_order 4 size),
        get_uint-put_uint o.byte_order 4 size (omega arith),
        some_bytes,
        total,
        enough,
        back,
        read_full_short size bs e,
      )

  after : List ℕ
  after =
      word o data_bit ++ (word o m.game_id ++ (word o m.message_id ++ (word o m.seq ++ m.buffer)))

  length-after : length after ≡ 16 + length m.buffer
  unfolding after
  length-after =
      let t = 20 + length m.buffer in
      omega (
        arith,
        length-packed o m t m.buffer,
        length-append (word o t) after,
        length-put_uint o.byte_order 4 t,
      )

  takes_four :
      20 + length m.buffer ≤ max_int32
      → 4 ≤ length rest
      → read_message o (packed o m (20 + length m.buffer) m.buffer ++ rest)
        ≡ ok (some (packed o m (20 + length m.buffer) m.buffer ++ take 4 rest), drop 4 rest)
  unfolding after
  takes_four small enough =
      let total = 20 + length m.buffer in
      let front = after ++ take 4 rest in
      let split : (word o total ++ after) ++ rest ≡ word o total ++ (front ++ drop 4 rest) =
        append_assoc (word o total) after rest
        ∙ ap (λ r. word o total ++ (after ++ r)) (sym (take-append-drop 4 rest))
        ∙ ap (◌++◌ (word o total)) (sym (append_assoc after (take 4 rest) (drop 4 rest))) in
      ap (read_message o) split
      ∙ read_message-frame o total front (drop 4 rest)
          (omega (arith, length-append after (take 4 rest), length-after, length-take 4 rest))
          (omega arith) (omega arith)
      ∙ ap (λ l. ok (some l, drop 4 rest)) (sym (append_assoc (word o total) after (take 4 rest)))

  too_few :
      20 + length m.buffer ≤ max_int32
      → length rest < 4
      → read_message o (packed o m (20 + length m.buffer) m.buffer ++ rest) ≡ err io_eof
  unfolding after
  too_few small short =
      let total = 20 + length m.buffer in
      ap (read_message o) (append_assoc (word o total) after rest)
      ∙ short_frame total (after ++ rest) (omega (arith, length-append after rest, length-after))
          (omega arith)

-- The bytes that PackBuffer makes, followed by at least four others in a stream, are read by
-- ReadMessage together with the first four of those; followed by fewer, they are not read at all.
pub misframed :
    (pooled : ℕ → Option Writer) (o : Options) (m : Message) (rest : List ℕ)
    → IsPool pooled
    → 20 + length m.buffer ≤ o.buffer_bytes
    → 20 + length m.buffer ≤ max_int32
    → (b : NocopyBuffer) × (pack_buffer pooled o m ≡ ok b)
      × (read_message o (buffer_bytes b ++ rest) ≡ (
          if leb 4 (length rest)
          then ok (some (buffer_bytes b ++ take 4 rest), drop 4 rest)
          else err io_eof))
misframed pooled o m rest fresh fits small =
    let (b, e, _, k) = pack_buffer-Encodes pooled o m fresh fits small in
    (
      b,
      e,
      elim (Bool-cases (leb 4 (length rest))) [
        | inl t ↦ rw (t, k) (takes_four o m rest small (leb→le 4 (length rest) t))
        | inr t ↦ rw (t, k) (too_few o m rest small (ground arith))
      ],
    )
