-- ===== src/Protocol/Replies/Totals.antt =====
-- The replies with a total. It is sent only with the code 0, and only if it is not 0.
use xbase.Prelude.{
  ℕ, ◌-◌, Bool, Option, none, some, List, [], ◌∷◌, Outcome, err, invalid_message, ◌==◌, ◌&&◌, ◌||◌,
  not, if◌then◌else◌, length,
}
use xbase.Prelude.Int.{pos}
use xbase.Bytes.{big_endian}
use xbase.Buffer.Writer.{Writer, Write, ◌>>◌, write_uint16s, write_uint64s}
use xbase.Buffer.Reader.{Read, ◌>>=◌, return, read_from, seek, seek_start, read_uint16, read_uint64}
use xbase.Buffer.Nocopy.{NocopyBuffer}
use xbase.Protocol.{
  default_size_bytes, b64, stat, multicast, broadcast, publish, no_body, with_head, framed,
}
use xbase.Protocol.Fixed.{body_start}
use xbase.Protocol.Replies.{
  stat_res_bytes, multicast_res_bytes, broadcast_res_bytes, publish_res_bytes,
}

-- The variadic `total ...uint64`: its first value, if there is one.
abbrev pub total_of : Option ℕ → ℕ
total_of (some total) = total
total_of none = 0

abbrev pub sends_total : ℕ → ℕ → Bool
sends_total code total = code == 0 && not (total == 0)

abbrev pub write_total : ℕ → ℕ → Write
write_total code total =
    if sends_total code total then write_uint64s big_endian (total ∷ []) else no_body

-- The total is read only from a frame of the full length with the code 0; it is 0 otherwise.
abbrev pub total_fields : Bool → Read (ℕ × ℕ)
total_fields full = do
  code ← read_uint16 big_endian
  total ← (if code == 0 && full then read_uint64 big_endian else return 0)
  return (code, total)

unfoldable pub encode_stat_res : (ℕ → Option Writer) → ℕ → ℕ → Option ℕ → Outcome NocopyBuffer
encode_stat_res pooled seq code total =
    let size = stat_res_bytes - default_size_bytes in
    framed pooled stat_res_bytes
      (with_head (if sends_total code (total_of total) then size else size - b64) stat seq
        (do write_uint16s big_endian (code ∷ []); write_total code (total_of total)))
      []

-- The code is never read: it stays 0, and the total is read where the code stands.
abbrev pub stat_res_fields : Bool → Read (ℕ × ℕ)
stat_res_fields full = do
  total ← (if full then read_uint64 big_endian else return 0)
  return (0, total)

unfoldable pub decode_stat_res : List ℕ → Outcome (ℕ × ℕ)
decode_stat_res frame =
    if length frame == stat_res_bytes || length frame == stat_res_bytes - 8
    then read_from frame (
        seek (pos body_start) seek_start
        >>= (λ _. stat_res_fields (length frame == stat_res_bytes)))
    else err invalid_message

unfoldable pub encode_multicast_res : (ℕ → Option Writer) → ℕ → ℕ → Option ℕ → Outcome NocopyBuffer
encode_multicast_res pooled seq code total =
    let size = multicast_res_bytes - default_size_bytes in
    framed pooled multicast_res_bytes
      (with_head (if sends_total code (total_of total) then size else size - b64) multicast seq
        (do write_uint16s big_endian (code ∷ []); write_total code (total_of total)))
      []

unfoldable pub decode_multicast_res : List ℕ → Outcome (ℕ × ℕ)
decode_multicast_res frame =
    if length frame == multicast_res_bytes || length frame == multicast_res_bytes - b64
    then read_from frame (
        seek (pos body_start) seek_start
        >>= (λ _. total_fields (length frame == multicast_res_bytes)))
    else err invalid_message

unfoldable pub encode_broadcast_res : (ℕ → Option Writer) → ℕ → ℕ → Option ℕ → Outcome NocopyBuffer
encode_broadcast_res pooled seq code total =
    let size = broadcast_res_bytes - default_size_bytes in
    framed pooled broadcast_res_bytes
      (with_head (if sends_total code (total_of total) then size else size - b64) broadcast seq
        (do write_uint16s big_endian (code ∷ []); write_total code (total_of total)))
      []

unfoldable pub decode_broadcast_res : List ℕ → Outcome (ℕ × ℕ)
decode_broadcast_res frame =
    if length frame == broadcast_res_bytes || length frame == broadcast_res_bytes - b64
    then read_from frame (
        seek (pos body_start) seek_start
        >>= (λ _. total_fields (length frame == broadcast_res_bytes)))
    else err invalid_message

unfoldable pub encode_publish_res : (ℕ → Option Writer) → ℕ → ℕ → Outcome NocopyBuffer
encode_publish_res pooled seq total =
    framed pooled publish_res_bytes
      (with_head (publish_res_bytes - default_size_bytes) publish seq
        (write_uint64s big_endian (total ∷ [])))
      []

unfoldable pub decode_publish_res : List ℕ → Outcome ℕ
decode_publish_res frame =
    read_from frame (seek (pos body_start) seek_start >>= (λ _. read_uint64 big_endian))
