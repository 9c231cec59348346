-- ===== src/Protocol/Fixed/Decode.antt =====
-- The decoders. What a decoder returns beside an error is left out.
use xbase.Prelude.{
  ℕ, ◌-◌, Bool, List, Outcome, err, invalid_message, ◌==◌, ◌||◌, if◌then◌else◌, length,
}
use xbase.Prelude.Int.{pos}
use xbase.Bytes.{big_endian}
use xbase.Buffer.Reader.{
  Read, ◌>>=◌, ◌>>◌, return, read_from, seek, seek_start, read_uint8, read_bool, read_uint64,
  read_int64, read_string,
}
use xbase.Protocol.{b64}
use xbase.Protocol.Fixed.{
  seq_start, bind_req_bytes, unbind_req_bytes, get_ip_req_bytes, is_online_req_bytes,
  stat_req_bytes, get_state_req_bytes, set_state_req_bytes, disconnect_req_bytes, trigger_req_bytes,
  handshake_req_bytes,
}

-- The reads of the decoder.
abbrev pub bind_req_fields : Read (ℕ × ℕ × ℕ)
bind_req_fields = do
  seq ← read_uint64 big_endian
  cid ← read_int64 big_endian
  uid ← read_int64 big_endian
  return (seq, cid, uid)

unfoldable pub decode_bind_req : List ℕ → Outcome (ℕ × ℕ × ℕ)
decode_bind_req frame =
    if length frame == bind_req_bytes
    then read_from frame (seek (pos seq_start) seek_start >> bind_req_fields)
    else err invalid_message

-- The reads of the decoder.
abbrev pub unbind_req_fields : Read (ℕ × ℕ × ℕ)
unbind_req_fields = do
  seq ← read_uint64 big_endian
  uid ← read_int64 big_endian
  cid ← read_int64 big_endian
  return (seq, uid, cid)

unfoldable pub decode_unbind_req : List ℕ → Outcome (ℕ × ℕ × ℕ)
decode_unbind_req frame =
    if length frame == unbind_req_bytes
    then read_from frame (seek (pos seq_start) seek_start >> unbind_req_fields)
    else err invalid_message

-- The reads of the decoder.
abbrev pub get_ip_req_fields : Read (ℕ × ℕ × ℕ)
get_ip_req_fields = do
  seq ← read_uint64 big_endian
  kind ← read_uint8
  target ← read_int64 big_endian
  return (seq, kind, target)

unfoldable pub decode_get_ip_req : List ℕ → Outcome (ℕ × ℕ × ℕ)
decode_get_ip_req frame =
    if length frame == get_ip_req_bytes
    then read_from frame (seek (pos seq_start) seek_start >> get_ip_req_fields)
    else err invalid_message

-- The reads of the decoder.
abbrev pub is_online_req_fields : Read (ℕ × ℕ × ℕ)
is_online_req_fields = do
  seq ← read_uint64 big_endian
  kind ← read_uint8
  target ← read_int64 big_endian
  return (seq, kind, target)

unfoldable pub decode_is_online_req : List ℕ → Outcome (ℕ × ℕ × ℕ)
decode_is_online_req frame =
    if length frame == is_online_req_bytes
    then read_from frame (seek (pos seq_start) seek_start >> is_online_req_fields)
    else err invalid_message

-- The reads of the decoder.
abbrev pub stat_req_fields : Read (ℕ × ℕ)
stat_req_fields = do seq ← read_uint64 big_endian; kind ← read_uint8; return (seq, kind)

unfoldable pub decode_stat_req : List ℕ → Outcome (ℕ × ℕ)
decode_stat_req frame =
    if length frame == stat_req_bytes
    then read_from frame (seek (pos seq_start) seek_start >> stat_req_fields)
    else err invalid_message

abbrev pub get_state_req_fields : Read ℕ
get_state_req_fields = read_uint64 big_endian

unfoldable pub decode_get_state_req : List ℕ → Outcome (ℕ)
decode_get_state_req frame =
    if length frame == get_state_req_bytes
    then read_from frame (seek (pos seq_start) seek_start >> get_state_req_fields)
    else err invalid_message

-- The reads of the decoder.
abbrev pub set_state_req_fields : Read (ℕ × ℕ)
set_state_req_fields = do seq ← read_uint64 big_endian; state ← read_uint8; return (seq, state)

unfoldable pub decode_set_state_req : List ℕ → Outcome (ℕ × ℕ)
decode_set_state_req frame =
    if length frame == set_state_req_bytes
    then read_from frame (seek (pos seq_start) seek_start >> set_state_req_fields)
    else err invalid_message

-- The reads of the decoder.
abbrev pub disconnect_req_fields : Read (ℕ × ℕ × ℕ × Bool)
disconnect_req_fields = do
  seq ← read_uint64 big_endian
  uid ← read_int64 big_endian
  cid ← read_int64 big_endian
  force ← read_bool
  return (seq, uid, cid, force)

unfoldable pub decode_disconnect_req : List ℕ → Outcome (ℕ × ℕ × ℕ × Bool)
decode_disconnect_req frame =
    if length frame == disconnect_req_bytes
    then read_from frame (seek (pos seq_start) seek_start >> disconnect_req_fields)
    else err invalid_message

-- The uid is read only from a frame of the full length; it is 0 otherwise.
abbrev pub read_uid : List ℕ → Read ℕ
read_uid frame = if length frame == trigger_req_bytes then read_int64 big_endian else return 0

abbrev pub trigger_req_fields : Read ℕ → Read (ℕ × ℕ × ℕ × ℕ)
trigger_req_fields uid_field = do
  seq ← read_uint64 big_endian
  event ← read_uint8
  cid ← read_int64 big_endian
  uid ← uid_field
  return (seq, event, cid, uid)

unfoldable pub decode_trigger_req : List ℕ → Outcome (ℕ × ℕ × ℕ × ℕ)
decode_trigger_req frame =
    if length frame == trigger_req_bytes || length frame == trigger_req_bytes - b64
    then read_from frame (seek (pos seq_start) seek_start >> trigger_req_fields (read_uid frame))
    else err invalid_message

-- The identifier takes the rest of the frame.
abbrev pub handshake_req_fields : ℕ → Read (ℕ × ℕ × List ℕ)
handshake_req_fields n = do
  seq ← read_uint64 big_endian
  ins_kind ← read_uint8
  ins_id ← read_string n
  return (seq, ins_kind, ins_id)

unfoldable pub decode_handshake_req : List ℕ → Outcome (ℕ × ℕ × List ℕ)
decode_handshake_req frame =
    read_from frame
      (seek (pos seq_start) seek_start >> handshake_req_fields (length frame - handshake_req_bytes))
