-- ===== src/Protocol/Fixed/Encode.antt =====
-- The encoders. A kind, an event or a state is an `int` that `uint8` cuts to a byte.
use xbase.Prelude.{
  ℕ, ◌+◌, ◌-◌, ◌%◌, ◌^◌, Bool, Option, none, some, List, [], ◌∷◌, Outcome, ◌==◌, if◌then◌else◌,
  length,
}
use xbase.Bytes.{big_endian}
use xbase.Buffer.Writer.{Writer, Write, ◌>>◌, write_uint8s, write_bools, write_int64s, write_string}
use xbase.Buffer.Nocopy.{NocopyBuffer}
use xbase.Protocol.{
  default_size_bytes, b64, with_head, no_body, framed, bind, unbind, get_ip, is_online, stat,
  get_state, set_state, trigger, disconnect, handshake,
}
use xbase.Protocol.Fixed.{
  bind_req_bytes, unbind_req_bytes, get_ip_req_bytes, is_online_req_bytes, stat_req_bytes,
  get_state_req_bytes, set_state_req_bytes, disconnect_req_bytes, trigger_req_bytes,
  handshake_req_bytes,
}

unfoldable pub encode_bind_req : (ℕ → Option Writer) → ℕ → ℕ → ℕ → Outcome NocopyBuffer
encode_bind_req pooled seq cid uid =
    framed pooled bind_req_bytes
      (with_head (bind_req_bytes - default_size_bytes) bind seq
        (write_int64s big_endian (cid ∷ uid ∷ [])))
      []

unfoldable pub encode_unbind_req : (ℕ → Option Writer) → ℕ → ℕ → ℕ → Outcome NocopyBuffer
encode_unbind_req pooled seq uid cid =
    framed pooled unbind_req_bytes
      (with_head (unbind_req_bytes - default_size_bytes) unbind seq
        (do write_int64s big_endian (uid ∷ []); write_int64s big_endian (cid ∷ [])))
      []

unfoldable pub encode_get_ip_req : (ℕ → Option Writer) → ℕ → ℕ → ℕ → Outcome NocopyBuffer
encode_get_ip_req pooled seq kind target =
    framed pooled get_ip_req_bytes
      (with_head (get_ip_req_bytes - default_size_bytes) get_ip seq
        (do write_uint8s (kind % 2 ^ 8 ∷ []); write_int64s big_endian (target ∷ [])))
      []

unfoldable pub encode_is_online_req : (ℕ → Option Writer) → ℕ → ℕ → ℕ → Outcome NocopyBuffer
encode_is_online_req pooled seq kind target =
    framed pooled is_online_req_bytes
      (with_head (is_online_req_bytes - default_size_bytes) is_online seq
        (do write_uint8s (kind % 2 ^ 8 ∷ []); write_int64s big_endian (target ∷ [])))
      []

unfoldable pub encode_stat_req : (ℕ → Option Writer) → ℕ → ℕ → Outcome NocopyBuffer
encode_stat_req pooled seq kind =
    framed pooled stat_req_bytes
      (with_head (stat_req_bytes - default_size_bytes) stat seq (write_uint8s (kind % 2 ^ 8 ∷ [])))
      []

unfoldable pub encode_get_state_req : (ℕ → Option Writer) → ℕ → Outcome NocopyBuffer
encode_get_state_req pooled seq =
    framed pooled get_state_req_bytes
      (with_head (get_state_req_bytes - default_size_bytes) get_state seq no_body) []

unfoldable pub encode_set_state_req : (ℕ → Option Writer) → ℕ → ℕ → Outcome NocopyBuffer
encode_set_state_req pooled seq state =
    framed pooled set_state_req_bytes
      (with_head (set_state_req_bytes - default_size_bytes) set_state seq
        (write_uint8s (state % 2 ^ 8 ∷ [])))
      []

unfoldable pub encode_disconnect_req : (ℕ → Option Writer) → ℕ → ℕ → ℕ → Bool → Outcome NocopyBuffer
encode_disconnect_req pooled seq uid cid force =
    framed pooled disconnect_req_bytes
      (with_head (disconnect_req_bytes - default_size_bytes) disconnect seq (do
        write_int64s big_endian (uid ∷ [])
        write_int64s big_endian (cid ∷ [])
        write_bools (force ∷ [])))
      []

-- The variadic `uid ...int64`: its first value, if there is one. A uid of 0 is not sent.
abbrev pub uid_of : Option ℕ → ℕ
uid_of (some uid) = uid
uid_of none = 0

abbrev pub trigger_size : ℕ → ℕ
trigger_size uid =
    if uid == 0
    then trigger_req_bytes - default_size_bytes - b64
    else trigger_req_bytes - default_size_bytes

abbrev pub write_uid : ℕ → Write
write_uid uid = if uid == 0 then no_body else write_int64s big_endian (uid ∷ [])

unfoldable pub encode_trigger_req :
    (ℕ → Option Writer) → ℕ → ℕ → ℕ → Option ℕ → Outcome NocopyBuffer
encode_trigger_req pooled seq event cid uid =
    framed pooled trigger_req_bytes
      (with_head (trigger_size (uid_of uid)) trigger seq (do
        write_uint8s (event % 2 ^ 8 ∷ [])
        write_int64s big_endian (cid ∷ [])
        write_uid (uid_of uid)))
      []

unfoldable pub encode_handshake_req : (ℕ → Option Writer) → ℕ → ℕ → List ℕ → Outcome NocopyBuffer
encode_handshake_req pooled seq ins_kind ins_id =
    let size = handshake_req_bytes + length ins_id in
    framed pooled size
      (with_head (size - default_size_bytes) handshake seq
        (do write_uint8s (ins_kind % 2 ^ 8 ∷ []); write_string ins_id))
      []
