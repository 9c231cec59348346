-- ===== src/Protocol/Requests.antt =====
-- The requests of internal/transporter/internal/protocol as one type: the encoder and the decoder of
-- each, and the decoder that a server calls by the route of a frame.
pub mod Delivery
use xbase.Prelude.{
  ℕ, ◌^◌, ◌<◌, ◌≤◌, Bool, Option, none, some, List, Outcome, map_outcome, length, AllBelow,
}
use xbase.Buffer.Writer.{Writer}
use xbase.Buffer.Nocopy.{Node, block, node_bytes, NocopyBuffer}
use xbase.Buffer.Nocopy.Laws.{NodeOk}
use xbase.Protocol.{
  Route, deliver, bind, unbind, get_ip, is_online, stat, get_state, set_state, disconnect, trigger,
  handshake, subscribe, unsubscribe, multicast, push, broadcast, publish,
}
use xbase.Protocol.Fixed.Encode.{
  uid_of, encode_bind_req, encode_unbind_req, encode_get_ip_req, encode_is_online_req,
  encode_stat_req, encode_get_state_req, encode_set_state_req, encode_disconnect_req,
  encode_trigger_req, encode_handshake_req,
}
use xbase.Protocol.Fixed.Decode.{
  decode_bind_req, decode_unbind_req, decode_get_ip_req, decode_is_online_req, decode_stat_req,
  decode_get_state_req, decode_set_state_req, decode_disconnect_req, decode_trigger_req,
  decode_handshake_req,
}
use xbase.Protocol.Targets.Encode.{
  encode_subscribe_req, encode_unsubscribe_req, encode_multicast_req,
}
use xbase.Protocol.Targets.Decode.{
  decode_subscribe_req, decode_unsubscribe_req, decode_multicast_req,
}
use xbase.Protocol.Carriers.{
  encode_push_req, decode_push_req, encode_broadcast_req, decode_broadcast_req, encode_publish_req,
  decode_publish_req,
}

pub data Request : Type 0 where
  bind_req : ℕ → ℕ → ℕ → Request
  unbind_req : ℕ → ℕ → ℕ → Request
  get_ip_req : ℕ → ℕ → ℕ → Request
  is_online_req : ℕ → ℕ → ℕ → Request
  stat_req : ℕ → ℕ → Request
  get_state_req : ℕ → Request
  set_state_req : ℕ → ℕ → Request
  disconnect_req : ℕ → ℕ → ℕ → Bool → Request
  trigger_req : ℕ → ℕ → ℕ → Option ℕ → Request
  handshake_req : ℕ → ℕ → List ℕ → Request
  subscribe_req : ℕ → ℕ → List ℕ → List ℕ → Request
  unsubscribe_req : ℕ → ℕ → List ℕ → List ℕ → Request
  multicast_req : ℕ → ℕ → List ℕ → Node → Request
  push_req : ℕ → ℕ → ℕ → Node → Request
  broadcast_req : ℕ → ℕ → Node → Request
  publish_req : ℕ → List ℕ → Node → Request

abbrev pub encode_request : (ℕ → Option Writer) → Request → Outcome NocopyBuffer
encode_request pooled (bind_req seq cid uid) = encode_bind_req pooled seq cid uid
encode_request pooled (unbind_req seq uid cid) = encode_unbind_req pooled seq uid cid
encode_request pooled (get_ip_req seq kind target) = encode_get_ip_req pooled seq kind target
encode_request pooled (is_online_req seq kind target) = encode_is_online_req pooled seq kind target
encode_request pooled (stat_req seq kind) = encode_stat_req pooled seq kind
encode_request pooled (get_state_req seq) = encode_get_state_req pooled seq
encode_request pooled (set_state_req seq state) = encode_set_state_req pooled seq state
encode_request pooled (disconnect_req seq uid cid force) =
    encode_disconnect_req pooled seq uid cid force
encode_request pooled (trigger_req seq event cid uid) = encode_trigger_req pooled seq event cid uid
encode_request pooled (handshake_req seq ins_kind ins_id) =
    encode_handshake_req pooled seq ins_kind ins_id
encode_request pooled (subscribe_req seq kind targets channel) =
    encode_subscribe_req pooled seq kind targets channel
encode_request pooled (unsubscribe_req seq kind targets channel) =
    encode_unsubscribe_req pooled seq kind targets channel
encode_request pooled (multicast_req seq kind targets message) =
    encode_multicast_req pooled seq kind targets message
encode_request pooled (push_req seq kind target message) =
    encode_push_req pooled seq kind target message
encode_request pooled (broadcast_req seq kind message) =
    encode_broadcast_req pooled seq kind message
encode_request pooled (publish_req seq channel message) =
    encode_publish_req pooled seq channel message

abbrev pub request_route : Request → Route
request_route (bind_req seq cid uid) = bind
request_route (unbind_req seq uid cid) = unbind
request_route (get_ip_req seq kind target) = get_ip
request_route (is_online_req seq kind target) = is_online
request_route (stat_req seq kind) = stat
request_route (get_state_req seq) = get_state
request_route (set_state_req seq state) = set_state
request_route (disconnect_req seq uid cid force) = disconnect
request_route (trigger_req seq event cid uid) = trigger
request_route (handshake_req seq ins_kind ins_id) = handshake
request_route (subscribe_req seq kind targets channel) = subscribe
request_route (unsubscribe_req seq kind targets channel) = unsubscribe
request_route (multicast_req seq kind targets message) = multicast
request_route (push_req seq kind target message) = push
request_route (broadcast_req seq kind message) = broadcast
request_route (publish_req seq channel message) = publish

abbrev pub request_seq : Request → ℕ
request_seq (bind_req seq cid uid) = seq
request_seq (unbind_req seq uid cid) = seq
request_seq (get_ip_req seq kind target) = seq
request_seq (is_online_req seq kind target) = seq
request_seq (stat_req seq kind) = seq
request_seq (get_state_req seq) = seq
request_seq (set_state_req seq state) = seq
request_seq (disconnect_req seq uid cid force) = seq
request_seq (trigger_req seq event cid uid) = seq
request_seq (handshake_req seq ins_kind ins_id) = seq
request_seq (subscribe_req seq kind targets channel) = seq
request_seq (unsubscribe_req seq kind targets channel) = seq
request_seq (multicast_req seq kind targets message) = seq
request_seq (push_req seq kind target message) = seq
request_seq (broadcast_req seq kind message) = seq
request_seq (publish_req seq channel message) = seq

-- The values that a decoder gives, as a request. A message is the block of its bytes.
abbrev pub bind_of : ℕ × ℕ × ℕ → Request
bind_of (seq, cid, uid) = bind_req seq cid uid

abbrev pub unbind_of : ℕ × ℕ × ℕ → Request
unbind_of (seq, uid, cid) = unbind_req seq uid cid

abbrev pub get_ip_of : ℕ × ℕ × ℕ → Request
get_ip_of (seq, kind, target) = get_ip_req seq kind target

abbrev pub is_online_of : ℕ × ℕ × ℕ → Request
is_online_of (seq, kind, target) = is_online_req seq kind target

abbrev pub stat_of : ℕ × ℕ → Request
stat_of (seq, kind) = stat_req seq kind

abbrev pub set_state_of : ℕ × ℕ → Request
set_state_of (seq, state) = set_state_req seq state

abbrev pub disconnect_of : ℕ × ℕ × ℕ × Bool → Request
disconnect_of (seq, uid, cid, force) = disconnect_req seq uid cid force

abbrev pub trigger_of : ℕ × ℕ × ℕ × ℕ → Request
trigger_of (seq, event, cid, uid) = trigger_req seq event cid (some uid)

abbrev pub handshake_of : ℕ × ℕ × List ℕ → Request
handshake_of (seq, ins_kind, ins_id) = handshake_req seq ins_kind ins_id

abbrev pub subscribe_of : ℕ × ℕ × List ℕ × List ℕ → Request
subscribe_of (seq, kind, targets, channel) = subscribe_req seq kind targets channel

abbrev pub unsubscribe_of : ℕ × ℕ × List ℕ × List ℕ → Request
unsubscribe_of (seq, kind, targets, channel) = unsubscribe_req seq kind targets channel

abbrev pub multicast_of : ℕ × ℕ × List ℕ × List ℕ → Request
multicast_of (seq, kind, targets, message) = multicast_req seq kind targets (block message)

abbrev pub push_of : ℕ × ℕ × ℕ × List ℕ → Request
push_of (seq, kind, target, message) = push_req seq kind target (block message)

abbrev pub broadcast_of : ℕ × ℕ × List ℕ → Request
broadcast_of (seq, kind, message) = broadcast_req seq kind (block message)

abbrev pub publish_of : ℕ × List ℕ × List ℕ → Request
publish_of (seq, channel, message) = publish_req seq channel (block message)

-- The decoder that the handler of a route calls. A route with no request type of the model has none.
abbrev pub decode_request : Route → List ℕ → Option (Outcome Request)
decode_request bind frame = some (map_outcome bind_of (decode_bind_req frame))
decode_request unbind frame = some (map_outcome unbind_of (decode_unbind_req frame))
decode_request get_ip frame = some (map_outcome get_ip_of (decode_get_ip_req frame))
decode_request is_online frame = some (map_outcome is_online_of (decode_is_online_req frame))
decode_request stat frame = some (map_outcome stat_of (decode_stat_req frame))
decode_request get_state frame =
    some (map_outcome (λ seq. get_state_req seq) (decode_get_state_req frame))
decode_request set_state frame = some (map_outcome set_state_of (decode_set_state_req frame))
decode_request disconnect frame = some (map_outcome disconnect_of (decode_disconnect_req frame))
decode_request trigger frame = some (map_outcome trigger_of (decode_trigger_req frame))
decode_request handshake frame = some (map_outcome handshake_of (decode_handshake_req frame))
decode_request subscribe frame = some (map_outcome subscribe_of (decode_subscribe_req frame))
decode_request unsubscribe frame = some (map_outcome unsubscribe_of (decode_unsubscribe_req frame))
decode_request multicast frame = some (map_outcome multicast_of (decode_multicast_req frame))
decode_request push frame = some (map_outcome push_of (decode_push_req frame))
decode_request broadcast frame = some (map_outcome broadcast_of (decode_broadcast_req frame))
decode_request publish frame = some (map_outcome publish_of (decode_publish_req frame))
decode_request deliver frame = none

-- What arrives of a request: a message as one block, and a user that was left out as 0.
abbrev pub arrived : Request → Request
arrived (bind_req seq cid uid) = bind_req seq cid uid
arrived (unbind_req seq uid cid) = unbind_req seq uid cid
arrived (get_ip_req seq kind target) = get_ip_req seq kind target
arrived (is_online_req seq kind target) = is_online_req seq kind target
arrived (stat_req seq kind) = stat_req seq kind
arrived (get_state_req seq) = get_state_req seq
arrived (set_state_req seq state) = set_state_req seq state
arrived (disconnect_req seq uid cid force) = disconnect_req seq uid cid force
arrived (trigger_req seq event cid uid) = trigger_req seq event cid (some (uid_of uid))
arrived (handshake_req seq ins_kind ins_id) = handshake_req seq ins_kind ins_id
arrived (subscribe_req seq kind targets channel) = subscribe_req seq kind targets channel
arrived (unsubscribe_req seq kind targets channel) = unsubscribe_req seq kind targets channel
arrived (multicast_req seq kind targets message) =
    multicast_req seq kind targets (block (node_bytes message))
arrived (push_req seq kind target message) = push_req seq kind target (block (node_bytes message))
arrived (broadcast_req seq kind message) = broadcast_req seq kind (block (node_bytes message))
arrived (publish_req seq channel message) = publish_req seq channel (block (node_bytes message))

-- The values fit the words that carry them, there are at most 8189 targets, a published channel has at
-- most 240 bytes, and a text or a message has less than 2 ^ 31.
abbrev pub Fits : Request → Type 0
Fits (bind_req seq cid uid) = (seq < 2 ^ 64) × (cid < 2 ^ 64) × (uid < 2 ^ 64)
Fits (unbind_req seq uid cid) = (seq < 2 ^ 64) × (uid < 2 ^ 64) × (cid < 2 ^ 64)
Fits (get_ip_req seq kind target) = (seq < 2 ^ 64) × (kind < 2 ^ 8) × (target < 2 ^ 64)
Fits (is_online_req seq kind target) = (seq < 2 ^ 64) × (kind < 2 ^ 8) × (target < 2 ^ 64)
Fits (stat_req seq kind) = (seq < 2 ^ 64) × (kind < 2 ^ 8)
Fits (get_state_req seq) = (seq < 2 ^ 64)
Fits (set_state_req seq state) = (seq < 2 ^ 64) × (state < 2 ^ 8)
Fits (disconnect_req seq uid cid force) = (seq < 2 ^ 64) × (uid < 2 ^ 64) × (cid < 2 ^ 64)
Fits (trigger_req seq event cid uid) =
    (seq < 2 ^ 64) × (event < 2 ^ 8) × (cid < 2 ^ 64) × (uid_of uid < 2 ^ 64)
Fits (handshake_req seq ins_kind ins_id) =
    (seq < 2 ^ 64) × (ins_kind < 2 ^ 8) × (length ins_id < 2 ^ 31)
Fits (subscribe_req seq kind targets channel) =
    (seq < 2 ^ 64)
    × (kind < 2 ^ 8)
    × (AllBelow (2 ^ 64) targets)
    × (length targets < 8190)
    × (length channel < 2 ^ 31)
Fits (unsubscribe_req seq kind targets channel) =
    (seq < 2 ^ 64)
    × (kind < 2 ^ 8)
    × (AllBelow (2 ^ 64) targets)
    × (length targets < 8190)
    × (length channel < 2 ^ 31)
Fits (multicast_req seq kind targets message) =
    (seq < 2 ^ 64)
    × (kind < 2 ^ 8)
    × (AllBelow (2 ^ 64) targets)
    × (length targets < 8190)
    × (NodeOk message)
    × (length (node_bytes message) < 2 ^ 31)
Fits (push_req seq kind target message) =
    (seq < 2 ^ 64)
    × (kind < 2 ^ 8)
    × (target < 2 ^ 64)
    × (NodeOk message)
    × (length (node_bytes message) < 2 ^ 31)
Fits (broadcast_req seq kind message) =
    (seq < 2 ^ 64) × (kind < 2 ^ 8) × (NodeOk message) × (length (node_bytes message) < 2 ^ 31)
Fits (publish_req seq channel message) =
    (seq < 2 ^ 64)
    × (length channel ≤ 240)
    × (NodeOk message)
    × (length (node_bytes message) < 2 ^ 31)
