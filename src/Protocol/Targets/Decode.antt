-- ===== src/Protocol/Targets/Decode.antt =====
-- The decoders of requests with targets. `tail` is the channel or the message.
use xbase.Prelude.{ℕ, ◌+◌, ◌*◌, ◌%◌, ◌^◌, List, Outcome, ok, bind_outcome}
use xbase.Prelude.Int.{pos}
use xbase.Bytes.{big_endian}
use xbase.Buffer.Reader.{
  Read, ◌>>=◌, ◌>>◌, return, read_from, seek, seek_start, read_uint8, read_uint16, read_uint64,
  read_int64s,
}
use xbase.Protocol.Decoding.{slice_from}
use xbase.Protocol.Fixed.{seq_start}
use xbase.Protocol.Targets.{subscribe_req_bytes, unsubscribe_req_bytes, multicast_req_bytes}

-- The sequence number, the kind, the count and the targets.
abbrev pub target_fields : Read (ℕ × ℕ × ℕ × List ℕ)
target_fields = do
  seq ← read_uint64 big_endian
  kind ← read_uint8
  count ← read_uint16 big_endian
  targets ← read_int64s big_endian count
  return (seq, kind, count, targets)

-- `data[reqBytes+8*count:]` in uint16.
abbrev pub with_tail : ℕ → List ℕ → ℕ × ℕ × ℕ × List ℕ → Outcome (ℕ × ℕ × List ℕ × List ℕ)
with_tail req_bytes frame v =
    bind_outcome (slice_from frame ((req_bytes + 8 * v.2) % 2 ^ 16))
      (λ rest. ok (v.0, v.1, v.3, rest))

unfoldable pub decode_subscribe_req : List ℕ → Outcome (ℕ × ℕ × List ℕ × List ℕ)
decode_subscribe_req frame =
    bind_outcome (read_from frame (seek (pos seq_start) seek_start >> target_fields))
      (with_tail subscribe_req_bytes frame)

unfoldable pub decode_unsubscribe_req : List ℕ → Outcome (ℕ × ℕ × List ℕ × List ℕ)
decode_unsubscribe_req frame =
    bind_outcome (read_from frame (seek (pos seq_start) seek_start >> target_fields))
      (with_tail unsubscribe_req_bytes frame)

unfoldable pub decode_multicast_req : List ℕ → Outcome (ℕ × ℕ × List ℕ × List ℕ)
decode_multicast_req frame =
    bind_outcome (read_from frame (seek (pos seq_start) seek_start >> target_fields))
      (with_tail multicast_req_bytes frame)
