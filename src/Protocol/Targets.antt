-- ===== src/Protocol/Targets.antt =====
-- subscribe.go and unsubscribe.go: a count of targets, the targets, and a channel in the rest of the
-- frame. The decoders compute the place of the channel in uint16, the type of the count.
pub mod Encode
pub mod Decode
pub mod RoundTrip
pub mod Delivery
use xbase.Prelude.{ℕ, ◌+◌}
use xbase.Protocol.{b8, b16}
use xbase.Protocol.Fixed.{body_start}

abbrev pub subscribe_req_bytes : ℕ
subscribe_req_bytes = body_start + b8 + b16

abbrev pub unsubscribe_req_bytes : ℕ
unsubscribe_req_bytes = body_start + b8 + b16

abbrev pub multicast_req_bytes : ℕ
multicast_req_bytes = body_start + b8 + b16
