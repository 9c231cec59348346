-- ===== src/Protocol/Replies/Codes.antt =====
-- The replies that carry a code alone, and those with a state or a flag behind it.
use xbase.Prelude.{
  ℕ, ◌-◌, ◌%◌, ◌^◌, Bool, Option, List, [], ◌∷◌, Outcome, err, invalid_message, ◌==◌, if◌then◌else◌,
  length,
}
use xbase.Prelude.Int.{pos, negsuc}
use xbase.Bytes.{big_endian}
use xbase.Buffer.Writer.{Writer, ◌>>◌, write_uint8s, write_uint16s, write_bools}
use xbase.Buffer.Reader.{
  Read, ◌>>=◌, return, read_from, seek, seek_start, seek_end, read_uint8, read_uint16, read_bool,
}
use xbase.Buffer.Nocopy.{NocopyBuffer}
use xbase.Protocol.{
  default_size_bytes, handshake, bind, unbind, disconnect, push, subscribe, unsubscribe, trigger,
  set_state, is_online, get_state, with_head, framed,
}
use xbase.Protocol.Fixed.{body_start}
use xbase.Protocol.Replies.{
  handshake_res_bytes, bind_res_bytes, unbind_res_bytes, disconnect_res_bytes, push_res_bytes,
  subscribe_res_bytes, unsubscribe_res_bytes, trigger_res_bytes, set_state_res_bytes,
  is_online_res_bytes, get_state_res_bytes,
}

-- The last two bytes, as `Seek(-defaultCodeBytes, io.SeekEnd)` finds them.
abbrev pub last_code : List ℕ → Outcome ℕ
last_code frame = read_from frame (seek (negsuc 1) seek_end >>= (λ _. read_uint16 big_endian))

unfoldable pub encode_handshake_res : (ℕ → Option Writer) → ℕ → ℕ → Outcome NocopyBuffer
encode_handshake_res pooled seq code =
    framed pooled handshake_res_bytes
      (with_head (handshake_res_bytes - default_size_bytes) handshake seq
        (write_uint16s big_endian (code ∷ [])))
      []

unfoldable pub decode_handshake_res : List ℕ → Outcome ℕ
decode_handshake_res frame =
    if length frame == handshake_res_bytes then last_code frame else err invalid_message

unfoldable pub encode_bind_res : (ℕ → Option Writer) → ℕ → ℕ → Outcome NocopyBuffer
encode_bind_res pooled seq code =
    framed pooled bind_res_bytes
      (with_head (bind_res_bytes - default_size_bytes) bind seq
        (write_uint16s big_endian (code ∷ [])))
      []

unfoldable pub decode_bind_res : List ℕ → Outcome ℕ
decode_bind_res frame =
    if length frame == bind_res_bytes then last_code frame else err invalid_message

unfoldable pub encode_unbind_res : (ℕ → Option Writer) → ℕ → ℕ → Outcome NocopyBuffer
encode_unbind_res pooled seq code =
    framed pooled unbind_res_bytes
      (with_head (unbind_res_bytes - default_size_bytes) unbind seq
        (write_uint16s big_endian (code ∷ [])))
      []

unfoldable pub decode_unbind_res : List ℕ → Outcome ℕ
decode_unbind_res frame =
    if length frame == unbind_res_bytes then last_code frame else err invalid_message

unfoldable pub encode_disconnect_res : (ℕ → Option Writer) → ℕ → ℕ → Outcome NocopyBuffer
encode_disconnect_res pooled seq code =
    framed pooled disconnect_res_bytes
      (with_head (disconnect_res_bytes - default_size_bytes) disconnect seq
        (write_uint16s big_endian (code ∷ [])))
      []

-- The source tests the length of a bind reply here; it is the same.
unfoldable pub decode_disconnect_res : List ℕ → Outcome ℕ
decode_disconnect_res frame =
    if length frame == bind_res_bytes then last_code frame else err invalid_message

unfoldable pub encode_push_res : (ℕ → Option Writer) → ℕ → ℕ → Outcome NocopyBuffer
encode_push_res pooled seq code =
    framed pooled push_res_bytes
      (with_head (push_res_bytes - default_size_bytes) push seq
        (write_uint16s big_endian (code ∷ [])))
      []

unfoldable pub decode_push_res : List ℕ → Outcome ℕ
decode_push_res frame =
    if length frame == push_res_bytes then last_code frame else err invalid_message

unfoldable pub encode_subscribe_res : (ℕ → Option Writer) → ℕ → ℕ → Outcome NocopyBuffer
encode_subscribe_res pooled seq code =
    framed pooled subscribe_res_bytes
      (with_head (subscribe_res_bytes - default_size_bytes) subscribe seq
        (write_uint16s big_endian (code ∷ [])))
      []

unfoldable pub decode_subscribe_res : List ℕ → Outcome ℕ
decode_subscribe_res frame =
    if length frame == subscribe_res_bytes then last_code frame else err invalid_message

unfoldable pub encode_unsubscribe_res : (ℕ → Option Writer) → ℕ → ℕ → Outcome NocopyBuffer
encode_unsubscribe_res pooled seq code =
    framed pooled unsubscribe_res_bytes
      (with_head (unsubscribe_res_bytes - default_size_bytes) unsubscribe seq
        (write_uint16s big_endian (code ∷ [])))
      []

unfoldable pub decode_unsubscribe_res : List ℕ → Outcome ℕ
decode_unsubscribe_res frame =
    if length frame == unsubscribe_res_bytes then last_code frame else err invalid_message

unfoldable pub encode_trigger_res : (ℕ → Option Writer) → ℕ → ℕ → Outcome NocopyBuffer
encode_trigger_res pooled seq code =
    framed pooled trigger_res_bytes
      (with_head (trigger_res_bytes - default_size_bytes) trigger seq
        (write_uint16s big_endian (code ∷ [])))
      []

unfoldable pub decode_trigger_res : List ℕ → Outcome ℕ
decode_trigger_res frame =
    if length frame == trigger_res_bytes then last_code frame else err invalid_message

unfoldable pub encode_set_state_res : (ℕ → Option Writer) → ℕ → ℕ → Outcome NocopyBuffer
encode_set_state_res pooled seq code =
    framed pooled set_state_res_bytes
      (with_head (set_state_res_bytes - default_size_bytes) set_state seq
        (write_uint16s big_endian (code ∷ [])))
      []

unfoldable pub decode_set_state_res : List ℕ → Outcome ℕ
decode_set_state_res frame =
    if length frame == set_state_res_bytes then last_code frame else err invalid_message

unfoldable pub encode_is_online_res : (ℕ → Option Writer) → ℕ → ℕ → Bool → Outcome NocopyBuffer
encode_is_online_res pooled seq code is_on =
    framed pooled is_online_res_bytes
      (with_head (is_online_res_bytes - default_size_bytes) is_online seq
        (do write_uint16s big_endian (code ∷ []); write_bools (is_on ∷ [])))
      []

abbrev pub is_online_res_fields : Read (ℕ × Bool)
is_online_res_fields = do code ← read_uint16 big_endian; is_on ← read_bool; return (code, is_on)

unfoldable pub decode_is_online_res : List ℕ → Outcome (ℕ × Bool)
decode_is_online_res frame =
    if length frame == is_online_res_bytes
    then read_from frame (seek (pos body_start) seek_start >>= (λ _. is_online_res_fields))
    else err invalid_message

unfoldable pub encode_get_state_res : (ℕ → Option Writer) → ℕ → ℕ → ℕ → Outcome NocopyBuffer
encode_get_state_res pooled seq code state =
    framed pooled get_state_res_bytes
      (with_head (get_state_res_bytes - default_size_bytes) get_state seq
        (do write_uint16s big_endian (code ∷ []); write_uint8s (state % 2 ^ 8 ∷ [])))
      []

abbrev pub get_state_res_fields : Read (ℕ × ℕ)
get_state_res_fields = do code ← read_uint16 big_endian; state ← read_uint8; return (code, state)

unfoldable pub decode_get_state_res : List ℕ → Outcome (ℕ × ℕ)
decode_get_state_res frame =
    if length frame == get_state_res_bytes
    then read_from frame (seek (pos body_start) seek_start >>= (λ _. get_state_res_fields))
    else err invalid_message
