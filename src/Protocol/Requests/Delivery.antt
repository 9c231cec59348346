-- ===== src/Protocol/Requests/Delivery.antt =====
-- The way of a request of internal/transporter/internal/protocol from its encoder to its decoder.
use xbase.Prelude.{ℕ, ◌≡◌, ap, false, Option, some, List, ◌++◌, Outcome, ok, map_outcome}
use xbase.Buffer.Writer.{Writer}
use xbase.Buffer.Pool.{IsPool}
use xbase.Buffer.Nocopy.{NocopyBuffer, buffer_bytes, node_bytes}
use xbase.Protocol.{
  Route, route_id, read_message, bind, unbind, get_ip, is_online, stat, get_state, set_state,
  disconnect, trigger, handshake, subscribe, unsubscribe, multicast, push, broadcast, publish,
}
use xbase.Protocol.Fixed.Encode.{
  uid_of, encode_bind_req, encode_unbind_req, encode_get_ip_req, encode_is_online_req,
  encode_stat_req, encode_get_state_req, encode_set_state_req, encode_disconnect_req,
  encode_trigger_req, encode_handshake_req,
}
use xbase.Protocol.Fixed.Decode.{
  decode_bind_req, decode_unbind_req, decode_get_ip_req, decode_is_online_req, decode_stat_req,
  decode_get_state_req, decode_set_state_req, decode_disconnect_req, decode_trigger_req,
  decode_handshake_req,
}
use xbase.Protocol.Targets.Encode.{
  encode_subscribe_req, encode_unsubscribe_req, encode_multicast_req,
}
use xbase.Protocol.Targets.Decode.{
  decode_subscribe_req, decode_unsubscribe_req, decode_multicast_req,
}
use xbase.Protocol.Carriers.{
  encode_push_req, decode_push_req, encode_broadcast_req, decode_broadcast_req, encode_publish_req,
  decode_publish_req,
}
use xbase.Protocol.Decoding.{Delivers}
use xbase.Protocol.Requests.{
  Request, encode_request, decode_request, request_route, request_seq, arrived, Fits, bind_req,
  unbind_req, get_ip_req, is_online_req, stat_req, get_state_req, set_state_req, disconnect_req,
  trigger_req, handshake_req, subscribe_req, unsubscribe_req, multicast_req, push_req,
  broadcast_req, publish_req, bind_of, unbind_of, get_ip_of, is_online_of, stat_of, set_state_of,
  disconnect_of, trigger_of, handshake_of, subscribe_of, unsubscribe_of, multicast_of, push_of,
  broadcast_of, publish_of,
}
use xbase.Protocol.Fixed.RoundTrip.{
  bind_req_round_trip, unbind_req_round_trip, get_ip_req_round_trip, is_online_req_round_trip,
  stat_req_round_trip, get_state_req_round_trip, set_state_req_round_trip,
  disconnect_req_round_trip,
}
use xbase.Protocol.Fixed.Optional.{trigger_req_round_trip, handshake_req_round_trip}
use xbase.Protocol.Targets.Delivery.{
  subscribe_req_round_trip, unsubscribe_req_round_trip, multicast_req_round_trip,
}
use xbase.Protocol.Carriers.RoundTrip.{
  push_req_round_trip, broadcast_req_round_trip, publish_req_round_trip,
}

module _ (pooled : ℕ → Option Writer) (fresh : IsPool pooled) (rest : List ℕ) where
  wrapped :
      {A : Type 0} (f : A → Request) (encoded : Outcome NocopyBuffer) (r : Route) (seq : ℕ)
      (decode : List ℕ → Outcome A) (a : A)
      → Delivers encoded r seq rest decode a
      → (b : NocopyBuffer) × (encoded ≡ ok b)
        × (read_message (buffer_bytes b ++ rest)
            ≡ ok ((false, route_id r, seq, buffer_bytes b), rest))
        × (◌≡◌ {A = Option (Outcome Request)}
            (some (map_outcome f (decode (buffer_bytes b))))
            (some (ok (f a))))
  wrapped f encoded r seq decode a (b, e, run, d) = (b, e, run, ap (λ o. some (map_outcome f o)) d)

  -- Every request that fits is encoded; its bytes come out of a stream as one frame with the route and
  -- the sequence number of the request, whatever follows them, and the decoder of that route gives the
  -- request back, a message as one block and a user that was left out as 0.
  pub request_round_trip :
      (r : Request)
      → Fits r
      → (b : NocopyBuffer) × (encode_request pooled r ≡ ok b)
        × (read_message (buffer_bytes b ++ rest)
            ≡ ok ((false, route_id (request_route r), request_seq r, buffer_bytes b), rest))
        × (decode_request (request_route r) (buffer_bytes b) ≡ some (ok (arrived r)))
  request_round_trip (bind_req seq cid uid) h =
      wrapped bind_of (encode_bind_req pooled seq cid uid) bind seq decode_bind_req (seq, cid, uid)
        (bind_req_round_trip pooled fresh rest seq cid uid h.0 h.1 h.2)
  request_round_trip (unbind_req seq uid cid) h =
      wrapped unbind_of (encode_unbind_req pooled seq uid cid) unbind seq decode_unbind_req
        (seq, uid, cid) (unbind_req_round_trip pooled fresh rest seq uid cid h.0 h.1 h.2)
  request_round_trip (get_ip_req seq kind target) h =
      wrapped get_ip_of (encode_get_ip_req pooled seq kind target) get_ip seq decode_get_ip_req
        (seq, kind, target) (get_ip_req_round_trip pooled fresh rest seq kind target h.0 h.1 h.2)
  request_round_trip (is_online_req seq kind target) h =
      wrapped is_online_of (encode_is_online_req pooled seq kind target) is_online seq
        decode_is_online_req (seq, kind, target)
        (is_online_req_round_trip pooled fresh rest seq kind target h.0 h.1 h.2)
  request_round_trip (stat_req seq kind) h =
      wrapped stat_of (encode_stat_req pooled seq kind) stat seq decode_stat_req (seq, kind)
        (stat_req_round_trip pooled fresh rest seq kind h.0 h.1)
  request_round_trip (get_state_req seq) h =
      wrapped (λ seq. get_state_req seq) (encode_get_state_req pooled seq) get_state seq
        decode_get_state_req seq (get_state_req_round_trip pooled fresh rest seq h)
  request_round_trip (set_state_req seq state) h =
      wrapped set_state_of (encode_set_state_req pooled seq state) set_state seq
        decode_set_state_req (seq, state)
        (set_state_req_round_trip pooled fresh rest seq state h.0 h.1)
  request_round_trip (disconnect_req seq uid cid force) h =
      wrapped disconnect_of (encode_disconnect_req pooled seq uid cid force) disconnect seq
        decode_disconnect_req (seq, uid, cid, force)
        (disconnect_req_round_trip pooled fresh rest seq uid cid force h.0 h.1 h.2)
  request_round_trip (trigger_req seq event cid uid) h =
      wrapped trigger_of (encode_trigger_req pooled seq event cid uid) trigger seq
        decode_trigger_req (seq, event, cid, uid_of uid)
        (trigger_req_round_trip pooled fresh rest seq event cid uid h.0 h.1 h.2 h.3)
  request_round_trip (handshake_req seq ins_kind ins_id) h =
      wrapped handshake_of (encode_handshake_req pooled seq ins_kind ins_id) handshake seq
        decode_handshake_req (seq, ins_kind, ins_id)
        (handshake_req_round_trip pooled fresh rest seq ins_kind ins_id h.0 h.1 h.2)
  request_round_trip (subscribe_req seq kind targets channel) h =
      wrapped subscribe_of (encode_subscribe_req pooled seq kind targets channel) subscribe seq
        decode_subscribe_req (seq, kind, targets, channel)
        (subscribe_req_round_trip pooled fresh rest seq kind targets channel h.0 h.1 h.2 h.3 h.4)
  request_round_trip (unsubscribe_req seq kind targets channel) h =
      wrapped unsubscribe_of (encode_unsubscribe_req pooled seq kind targets channel) unsubscribe
        seq decode_unsubscribe_req (seq, kind, targets, channel)
        (unsubscribe_req_round_trip pooled fresh rest seq kind targets channel h.0 h.1 h.2 h.3 h.4)
  request_round_trip (multicast_req seq kind targets message) h =
      wrapped multicast_of (encode_multicast_req pooled seq kind targets message) multicast seq
        decode_multicast_req (seq, kind, targets, node_bytes message)
        (multicast_req_round_trip pooled fresh rest seq kind targets message h.0 h.1 h.2 h.3 h.4
          h.5)
  request_round_trip (push_req seq kind target message) h =
      wrapped push_of (encode_push_req pooled seq kind target message) push seq decode_push_req
        (seq, kind, target, node_bytes message)
        (push_req_round_trip pooled fresh rest seq kind target message h.0 h.1 h.2 h.3 h.4)
  request_round_trip (broadcast_req seq kind message) h =
      wrapped broadcast_of (encode_broadcast_req pooled seq kind message) broadcast seq
        decode_broadcast_req (seq, kind, node_bytes message)
        (broadcast_req_round_trip pooled fresh rest seq kind message h.0 h.1 h.2 h.3)
  request_round_trip (publish_req seq channel message) h =
      wrapped publish_of (encode_publish_req pooled seq channel message) publish seq
        decode_publish_req (seq, channel, node_bytes message)
        (publish_req_round_trip pooled fresh rest seq channel message h.0 h.1 h.2 h.3)
