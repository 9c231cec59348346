-- ===== src/Protocol/Fixed.antt =====
-- The requests of a fixed size, and the handshake: bind.go, unbind.go, getip.go, isonline.go, stat.go,
-- state.go, trigger.go, disconnect.go and handshake.go. This file has the sizes, the children the
-- encoders, the decoders and the round trips.
pub mod Encode
pub mod Decode
pub mod RoundTrip
pub mod Optional
use xbase.Prelude.{ℕ, ◌+◌}
use xbase.Protocol.{
  default_size_bytes, default_header_bytes, default_route_bytes, default_seq_bytes, b8, b64,
}

-- Where the sequence number stands, and what follows it.
abbrev pub seq_start : ℕ
seq_start = default_size_bytes + default_header_bytes + default_route_bytes

abbrev pub body_start : ℕ
body_start = seq_start + default_seq_bytes

abbrev pub bind_req_bytes : ℕ
bind_req_bytes = body_start + b64 + b64

abbrev pub unbind_req_bytes : ℕ
unbind_req_bytes = seq_start + default_seq_bytes + default_seq_bytes + b64

abbrev pub get_ip_req_bytes : ℕ
get_ip_req_bytes = body_start + b8 + b64

abbrev pub is_online_req_bytes : ℕ
is_online_req_bytes = body_start + b8 + b64

abbrev pub stat_req_bytes : ℕ
stat_req_bytes = body_start + b8

abbrev pub get_state_req_bytes : ℕ
get_state_req_bytes = body_start

abbrev pub set_state_req_bytes : ℕ
set_state_req_bytes = body_start + b8

abbrev pub disconnect_req_bytes : ℕ
disconnect_req_bytes =
    default_size_bytes + default_header_bytes + default_seq_bytes + default_seq_bytes + b8 + b64
    + b8

abbrev pub trigger_req_bytes : ℕ
trigger_req_bytes = body_start + b8 + b64 + b64

abbrev pub handshake_req_bytes : ℕ
handshake_req_bytes = body_start + b8
