-- ===== src/Protocol/Replies.antt =====
-- The replies: those that carry a code alone, and those with a total, a state or a flag behind it.
pub mod Codes
pub mod Totals
pub mod CodesRoundTrip
pub mod TotalsFrames
pub mod TotalsRoundTrip
pub mod Answers
use xbase.Prelude.{ℕ, ◌+◌}
use xbase.Protocol.{default_code_bytes, b8, b64}
use xbase.Protocol.Fixed.{body_start}

abbrev pub handshake_res_bytes : ℕ
handshake_res_bytes = body_start + default_code_bytes

abbrev pub bind_res_bytes : ℕ
bind_res_bytes = body_start + default_code_bytes

abbrev pub unbind_res_bytes : ℕ
unbind_res_bytes = body_start + default_code_bytes

abbrev pub disconnect_res_bytes : ℕ
disconnect_res_bytes = body_start + default_code_bytes

abbrev pub push_res_bytes : ℕ
push_res_bytes = body_start + default_code_bytes

abbrev pub subscribe_res_bytes : ℕ
subscribe_res_bytes = body_start + default_code_bytes

abbrev pub unsubscribe_res_bytes : ℕ
unsubscribe_res_bytes = body_start + default_code_bytes

abbrev pub trigger_res_bytes : ℕ
trigger_res_bytes = body_start + default_code_bytes

abbrev pub set_state_res_bytes : ℕ
set_state_res_bytes = body_start + default_code_bytes

abbrev pub is_online_res_bytes : ℕ
is_online_res_bytes = body_start + default_code_bytes + b8

abbrev pub get_state_res_bytes : ℕ
get_state_res_bytes = body_start + default_code_bytes + b8

abbrev pub stat_res_bytes : ℕ
stat_res_bytes = body_start + default_code_bytes + b64

abbrev pub multicast_res_bytes : ℕ
multicast_res_bytes = body_start + default_code_bytes + b64

abbrev pub broadcast_res_bytes : ℕ
broadcast_res_bytes = body_start + default_code_bytes + b64

abbrev pub publish_res_bytes : ℕ
publish_res_bytes = body_start + b64
