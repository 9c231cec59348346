-- ===== src/Protocol/Targets/Encode.antt =====
-- The encoders of requests with targets, multicast.go among them. `uint16` cuts the count.
use xbase.Prelude.{ℕ, ◌+◌, ◌-◌, ◌*◌, ◌%◌, ◌^◌, Option, List, [], ◌∷◌, Outcome, length}
use xbase.Bytes.{big_endian}
use xbase.Buffer.Writer.{Writer, ◌>>◌, write_uint8s, write_uint16s, write_int64s, write_string}
use xbase.Buffer.Nocopy.{NocopyBuffer, Node, node_len}
use xbase.Protocol.{default_size_bytes, subscribe, unsubscribe, multicast, with_head, framed}
use xbase.Protocol.Targets.{subscribe_req_bytes, unsubscribe_req_bytes, multicast_req_bytes}

unfoldable pub encode_subscribe_req :
    (ℕ → Option Writer) → ℕ → ℕ → List ℕ → List ℕ → Outcome NocopyBuffer
encode_subscribe_req pooled seq kind targets channel =
    let size = subscribe_req_bytes + length targets * 8 + length channel in
    framed pooled size
      (with_head (size - default_size_bytes) subscribe seq (do
        write_uint8s (kind % 2 ^ 8 ∷ [])
        write_uint16s big_endian (length targets % 2 ^ 16 ∷ [])
        write_int64s big_endian targets
        write_string channel))
      []

unfoldable pub encode_unsubscribe_req :
    (ℕ → Option Writer) → ℕ → ℕ → List ℕ → List ℕ → Outcome NocopyBuffer
encode_unsubscribe_req pooled seq kind targets channel =
    let size = unsubscribe_req_bytes + length targets * 8 + length channel in
    framed pooled size
      (with_head (size - default_size_bytes) unsubscribe seq (do
        write_uint8s (kind % 2 ^ 8 ∷ [])
        write_uint16s big_endian (length targets % 2 ^ 16 ∷ [])
        write_int64s big_endian targets
        write_string channel))
      []

unfoldable pub encode_multicast_req :
    (ℕ → Option Writer) → ℕ → ℕ → List ℕ → Node → Outcome NocopyBuffer
encode_multicast_req pooled seq kind targets message =
    let size = multicast_req_bytes + length targets * 8 in
    framed pooled size
      (with_head (size - default_size_bytes + node_len message) multicast seq (do
        write_uint8s (kind % 2 ^ 8 ∷ [])
        write_uint16s big_endian (length targets % 2 ^ 16 ∷ [])
        write_int64s big_endian targets))
      (message ∷ [])
