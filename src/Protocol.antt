-- ===== src/Protocol.antt =====
-- internal/transporter/internal/protocol: the frames that gates and nodes exchange. This file has the
-- sizes and routes (def.go, route/route.go), the head that every encoder writes, and the reading of a
-- frame from a stream (reader.go); the children have the messages.
--
-- An `io.Reader` is the bytes that it will give until its end. A signed word is its bit pattern.
pub mod Frames
pub mod Decoding
pub mod Fixed
pub mod Targets
pub mod Carriers
pub mod Replies
pub mod Streams
pub mod Requests
mod Tests
use xbase.Prelude.{
  ℕ, zero, suc, ◌+◌, ◌-◌, ◌*◌, ◌/◌, ◌%◌, ◌^◌, Bool, true, false, Option, List, [], ◌∷◌, ◌++◌,
  Outcome, ok, err, panic, bind_outcome, io_eof, invalid_message, ltb, ◌==◌, if◌then◌else◌, length,
  take, drop,
}
use xbase.Bytes.{big_endian, get_uint}
use xbase.Buffer.Writer.{
  Writer, Write, ◌>>◌, bytes, write_uint8s, write_uint32s, write_uint64s, new_writer_with_capacity,
}
use xbase.Buffer.Nocopy.{NocopyBuffer, Node, block, new_nocopy_buffer}
use xbase.Buffer.Pool.{malloc_writer}

abbrev pub default_size_bytes : ℕ
default_size_bytes = 4

abbrev pub default_header_bytes : ℕ
default_header_bytes = 1

abbrev pub default_seq_bytes : ℕ
default_seq_bytes = 8

abbrev pub default_route_bytes : ℕ
default_route_bytes = 1

abbrev pub default_code_bytes : ℕ
default_code_bytes = 2

abbrev pub data_bit : ℕ
data_bit = 0

abbrev pub heartbeat_bit : ℕ
heartbeat_bit = 2 ^ 7

-- The sizes of the words: `1 << iota`.
abbrev pub b8 : ℕ
b8 = 1

abbrev pub b16 : ℕ
b16 = 2

abbrev pub b32 : ℕ
b32 = 4

abbrev pub b64 : ℕ
b64 = 8

pub data Route : Type 0 where
  handshake bind unbind get_ip stat is_online disconnect push multicast broadcast : Route
  publish subscribe unsubscribe trigger deliver get_state set_state : Route

-- `iota + 1`, in the order of the source.
abbrev pub route_id : Route → ℕ
route_id handshake = 1
route_id bind = 2
route_id unbind = 3
route_id get_ip = 4
route_id stat = 5
route_id is_online = 6
route_id disconnect = 7
route_id push = 8
route_id multicast = 9
route_id broadcast = 10
route_id publish = 11
route_id subscribe = 12
route_id unsubscribe = 13
route_id trigger = 14
route_id deliver = 15
route_id get_state = 16
route_id set_state = 17

-- The four writes that every encoder begins with, then its own. `size` is what the encoder counts
-- behind the size field; `uint32` wraps it.
abbrev pub with_head : ℕ → Route → ℕ → Write → Write
with_head size r seq body = do
  write_uint32s big_endian (size % 2 ^ 32 ∷ [])
  write_uint8s (data_bit ∷ [])
  write_uint8s (route_id r ∷ [])
  write_uint64s big_endian (seq ∷ [])
  body

-- An encoder that writes nothing behind the head.
abbrev pub no_body : Write
no_body w = ok w

-- `writer := buffer.MallocWriter(cap)`, the writes, `buffer.NewNocopyBuffer(writer, nodes...)`.
unfoldable pub framed : (ℕ → Option Writer) → ℕ → Write → List Node → Outcome NocopyBuffer
framed pooled cap writes nodes =
    bind_outcome (writes (malloc_writer pooled cap))
      (λ w. ok (new_nocopy_buffer (block (bytes w) ∷ nodes)))

-- The heartbeat frame that `init` writes once.
unfoldable pub heartbeat : Outcome (List ℕ)
heartbeat =
    bind_outcome
      ((do write_uint32s big_endian (default_header_bytes ∷ []); write_uint8s (heartbeat_bit ∷ []))
        (new_writer_with_capacity (default_size_bytes + default_header_bytes)))
      (λ w. ok (bytes w))

-- io.ReadFull into a buffer of `n` bytes: the bytes, and what the stream has left.
unfoldable pub read_full : ℕ → List ℕ → Outcome (List ℕ × List ℕ)
read_full n stream = if ltb (length stream) n then err io_eof else ok (take n stream, drop n stream)

-- `header & heartbeatBit == heartbeatBit` on a byte.
abbrev pub is_heartbeat : ℕ → Bool
is_heartbeat header = header / 2 ^ 7 % 2 == 1

abbrev pub byte_at : List ℕ → ℕ → ℕ
byte_at [] i = 0
byte_at (b ∷ bs) zero = b
byte_at (b ∷ bs) (suc i) = byte_at bs i

-- ParseBuffer: whether it is a heartbeat, the route and the sequence number. `room` has the bytes of the
-- slice up to its capacity: the bound of a slice expression panics only beyond the capacity, so bytes
-- behind the end of the data are read where the array has them.
unfoldable pub parse_buffer : List ℕ → Outcome (Bool × ℕ × ℕ)
parse_buffer room =
    if ltb (length room) 5
    then panic
    else if is_heartbeat (byte_at room 4)
    then ok (true, 0, 0)
    else if ltb (length room) 14
    then panic
    else ok (false, byte_at room 5, get_uint big_endian (take 8 (drop 6 room)))

-- `make([]byte, defaultSizeBytes+size)` in uint32, the copy of the size field into its first four
-- bytes, and the read of the rest. Less than four bytes panic.
unfoldable pub read_rest : List ℕ → List ℕ → Outcome (List ℕ × List ℕ)
read_rest head stream =
    let total = (default_size_bytes + get_uint big_endian head) % 2 ^ 32 in
    if ltb total default_size_bytes
    then panic
    else bind_outcome (read_full (total - default_size_bytes) stream) (λ p. ok (head ++ p.0, p.1))

-- ReaderBuffer: the next frame, and what the stream has left. The pooled buffer that has the frame may
-- have room behind it, with bytes of an earlier use.
unfoldable pub reader_buffer : List ℕ → Outcome (List ℕ × List ℕ)
reader_buffer stream =
    bind_outcome (read_full default_size_bytes stream)
      (λ p. if get_uint big_endian p.0 == 0 then err invalid_message else read_rest p.0 p.1)

-- ReadMessage: the same, with the frame parsed. The slice is made for the frame, with no room behind it.
unfoldable pub read_message : List ℕ → Outcome ((Bool × ℕ × ℕ × List ℕ) × List ℕ)
read_message stream =
    bind_outcome (reader_buffer stream)
      (λ p. bind_outcome (parse_buffer p.0) (λ h. ok ((h.0, h.1, h.2, p.0), p.1)))
