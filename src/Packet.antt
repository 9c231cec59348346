-- ===== src/Packet.antt =====
-- packet/packer.go, packet/message.go and packet/options.go: the messages between a client and a gate.
-- Signed words are their bit patterns; an `io.Reader` is the bytes that it will give until its end.
pub mod Fields
pub mod RoundTrip
pub mod Framing
mod Tests
use xbase.Prelude.{
  ℕ, ◌+◌, ◌-◌, ◌%◌, ◌^◌, Bool, true, false, Option, none, some, List, [], ◌∷◌, ◌++◌, Outcome, ok,
  err, panic, bind_outcome, message_too_large, invalid_message, ltb, ◌==◌, ◌||◌, not, if◌then◌else◌,
  length, take, drop, replicate,
}
use xbase.Bytes.{ByteOrder, put_uint, get_uint}
use xbase.Buffer.Slices.{overwrite, slice_of}
use xbase.Buffer.Writer.{Writer, Write, ◌>>◌, bytes, write_int32s}
use xbase.Buffer.Nocopy.{NocopyBuffer, block, new_nocopy_buffer}
use xbase.Buffer.Pool.{malloc_writer}
use xbase.Protocol.{framed, read_full}

abbrev pub default_size_bytes : ℕ
default_size_bytes = 4

abbrev pub default_header_size : ℕ
default_header_size = 20

abbrev pub data_bit : ℕ
data_bit = 0

abbrev pub max_int32 : ℕ
max_int32 = 2 ^ 31 - 1

-- NewPacker ends the process on a negative size, so it is a number here.
pub record Options : Type 0 where
  pub byte_order : ByteOrder
  pub buffer_bytes : ℕ

pub record Message : Type 0 where
  pub seq : ℕ
  pub game_id : ℕ
  pub message_id : ℕ
  pub buffer : List ℕ

-- The five words that PackMessage puts at the offsets 0 to 16, and the copy of the body behind them.
abbrev pub fill : Options → Message → ℕ → List ℕ → List ℕ
fill o m total buf₀ =
    let buf₁ = overwrite buf₀ 0 (put_uint o.byte_order 4 total) in
    let buf₂ = overwrite buf₁ 4 (put_uint o.byte_order 4 data_bit) in
    let buf₃ = overwrite buf₂ 8 (put_uint o.byte_order 4 m.game_id) in
    let buf₄ = overwrite buf₃ 12 (put_uint o.byte_order 4 m.message_id) in
    let buf₅ = overwrite buf₄ 16 (put_uint o.byte_order 4 m.seq) in overwrite buf₅ 20 m.buffer

unfoldable pub pack_message : Options → Message → Outcome (List ℕ)
pack_message o m =
    let total = default_header_size + length m.buffer in
    if ltb o.buffer_bytes (length m.buffer)
    then err message_too_large
    else if ltb max_int32 total
    then err message_too_large
    else ok (fill o m total (replicate (4 + total) 0))

unfoldable pub pack_buffer : (ℕ → Option Writer) → Options → Message → Outcome NocopyBuffer
pack_buffer pooled o m =
    let total = default_header_size + length m.buffer in
    if ltb o.buffer_bytes (length m.buffer)
    then err message_too_large
    else if ltb o.buffer_bytes total || ltb max_int32 total
    then err message_too_large
    else framed pooled default_header_size
        (do
          write_int32s o.byte_order (total ∷ [])
          write_int32s o.byte_order (data_bit ∷ [])
          write_int32s o.byte_order (m.game_id ∷ [])
          write_int32s o.byte_order (m.message_id ∷ [])
          write_int32s o.byte_order (m.seq ∷ []))
        (block m.buffer ∷ [])

-- `v & dataBit`, with the data bit 0.
abbrev pub and_data_bit : ℕ → ℕ
and_data_bit v = 0

abbrev pub word_at : Options → List ℕ → ℕ → ℕ
word_at o frame off = get_uint o.byte_order (slice_of frame off 4)

-- `none` is the half packet, `nil, 0, nil` in the source.
unfoldable pub unpack_message : Options → List ℕ → Outcome (Option (Message × ℕ))
unpack_message o frame =
    let size = word_at o frame 0 in
    if ltb (length frame) default_size_bytes
    then ok none
    else if ltb size default_header_size || ltb o.buffer_bytes size
    then err invalid_message
    else if ltb (length frame) size
    then ok none
    else if not (and_data_bit (word_at o frame 4) == data_bit)
    then err invalid_message
    else ok (
        some (
          record {
            seq = word_at o frame 16;
            game_id = word_at o frame 8;
            message_id = word_at o frame 12;
            buffer = slice_of frame 20 (size - 20);
          },
          size,
        ))

-- The rest of a frame behind its size field: `make([]byte, defaultSizeBytes+size)` in uint32, then the
-- copy of the field, which panics below four bytes.
abbrev pub read_body : Options → List ℕ → List ℕ → Outcome (Option (List ℕ) × List ℕ)
read_body o head stream =
    let total = (default_size_bytes + get_uint o.byte_order head) % 2 ^ 32 in
    if ltb total default_size_bytes
    then panic
    else bind_outcome (read_full (total - default_size_bytes) stream)
        (λ p. ok (some (head ++ p.0), p.1))

-- ReadMessage: `none` is the empty frame, `nil, nil` in the source.
unfoldable pub read_message : Options → List ℕ → Outcome (Option (List ℕ) × List ℕ)
read_message o stream =
    bind_outcome (read_full default_size_bytes stream)
      (λ p. if get_uint o.byte_order p.0 == 0 then ok (none, p.1) else read_body o p.0 p.1)

-- ReadBuffer: the same frame in a pooled buffer.
unfoldable pub read_buffer : Options → List ℕ → Outcome (Option (List ℕ) × List ℕ)
read_buffer o stream =
    bind_outcome (read_full default_size_bytes stream)
      (λ p. if get_uint o.byte_order p.0 == 0 then ok (none, p.1) else read_body o p.0 p.1)
