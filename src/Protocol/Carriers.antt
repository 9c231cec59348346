-- ===== src/Protocol/Carriers.antt =====
-- push.go, broadcast.go and publish.go: requests that end in a message. The decoder of a publish
-- computes the place of the message in uint8, the type of the channel's length.
pub mod RoundTrip
use xbase.Prelude.{ℕ, ◌+◌, ◌-◌, ◌%◌, ◌^◌, Option, List, [], ◌∷◌, Outcome, ok, bind_outcome, length}
use xbase.Prelude.Int.{pos}
use xbase.Bytes.{big_endian}
use xbase.Buffer.Writer.{Writer, Write, ◌>>◌, write_uint8s, write_int64s, write_string}
use xbase.Buffer.Reader.{
  Read, ◌>>=◌, return, read_from, seek, seek_start, read_uint8, read_uint64, read_int64,
  read_string,
}
use xbase.Buffer.Nocopy.{NocopyBuffer, Node, node_len}
use xbase.Protocol.{default_size_bytes, b8, b64, push, broadcast, publish, with_head, framed}
use xbase.Protocol.Decoding.{slice_from}
use xbase.Protocol.Fixed.{seq_start, body_start}

abbrev pub push_req_bytes : ℕ
push_req_bytes = body_start + b8 + b64

abbrev pub broadcast_req_bytes : ℕ
broadcast_req_bytes = body_start + b8

abbrev pub publish_req_bytes : ℕ
publish_req_bytes = body_start + b8

unfoldable pub encode_push_req : (ℕ → Option Writer) → ℕ → ℕ → ℕ → Node → Outcome NocopyBuffer
encode_push_req pooled seq kind target message =
    framed pooled push_req_bytes
      (with_head (push_req_bytes - default_size_bytes + node_len message) push seq
        (do write_uint8s (kind % 2 ^ 8 ∷ []); write_int64s big_endian (target ∷ [])))
      (message ∷ [])

abbrev pub push_req_fields : Read (ℕ × ℕ × ℕ)
push_req_fields = do
  seq ← read_uint64 big_endian
  kind ← read_uint8
  target ← read_int64 big_endian
  return (seq, kind, target)

unfoldable pub decode_push_req : List ℕ → Outcome (ℕ × ℕ × ℕ × List ℕ)
decode_push_req frame =
    bind_outcome (read_from frame (seek (pos seq_start) seek_start >>= (λ _. push_req_fields)))
      (λ v. bind_outcome (slice_from frame push_req_bytes) (λ message. ok (v.0, v.1, v.2, message)))

unfoldable pub encode_broadcast_req : (ℕ → Option Writer) → ℕ → ℕ → Node → Outcome NocopyBuffer
encode_broadcast_req pooled seq kind message =
    framed pooled broadcast_req_bytes
      (with_head (broadcast_req_bytes - default_size_bytes + node_len message) broadcast seq
        (write_uint8s (kind % 2 ^ 8 ∷ [])))
      (message ∷ [])

abbrev pub broadcast_req_fields : Read (ℕ × ℕ)
broadcast_req_fields = do seq ← read_uint64 big_endian; kind ← read_uint8; return (seq, kind)

unfoldable pub decode_broadcast_req : List ℕ → Outcome (ℕ × ℕ × List ℕ)
decode_broadcast_req frame =
    bind_outcome (read_from frame (seek (pos seq_start) seek_start >>= (λ _. broadcast_req_fields)))
      (λ v. bind_outcome (slice_from frame broadcast_req_bytes) (λ message. ok (v.0, v.1, message)))

unfoldable pub encode_publish_req : (ℕ → Option Writer) → ℕ → List ℕ → Node → Outcome NocopyBuffer
encode_publish_req pooled seq channel message =
    let size = publish_req_bytes + length channel in
    framed pooled size
      (with_head (size - default_size_bytes + node_len message) publish seq
        (do write_uint8s (length channel % 2 ^ 8 ∷ []); write_string channel))
      (message ∷ [])

abbrev pub publish_req_fields : Read (ℕ × ℕ × List ℕ)
publish_req_fields = do
  seq ← read_uint64 big_endian
  channel_bytes ← read_uint8
  channel ← read_string channel_bytes
  return (seq, channel_bytes, channel)

unfoldable pub decode_publish_req : List ℕ → Outcome (ℕ × List ℕ × List ℕ)
decode_publish_req frame =
    bind_outcome (read_from frame (seek (pos seq_start) seek_start >>= (λ _. publish_req_fields)))
      (λ v.
        bind_outcome (slice_from frame ((publish_req_bytes + v.1) % 2 ^ 8))
          (λ message. ok (v.0, v.2, message)))
