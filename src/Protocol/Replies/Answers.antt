-- ===== src/Protocol/Replies/Answers.antt =====
-- The replies of internal/transporter/internal/protocol as one type, but those to a stat, of which the
-- decoder loses the code, and to a delivery and a query of an address.
use xbase.Prelude.{
  ℕ, ◌^◌, ◌<◌, ◌≡◌, ap, Bool, false, Option, some, List, ◌++◌, Outcome, ok, map_outcome,
}
use xbase.Buffer.Writer.{Writer}
use xbase.Buffer.Pool.{IsPool}
use xbase.Buffer.Nocopy.{NocopyBuffer, buffer_bytes}
use xbase.Protocol.{
  Route, route_id, read_message, is_online, get_state, multicast, broadcast, publish,
}
use xbase.Protocol.Decoding.{Delivers}
use xbase.Protocol.Replies.Codes.{
  encode_is_online_res, decode_is_online_res, encode_get_state_res, decode_get_state_res,
}
use xbase.Protocol.Replies.Totals.{
  total_of, encode_multicast_res, decode_multicast_res, encode_broadcast_res, decode_broadcast_res,
  encode_publish_res, decode_publish_res,
}
use xbase.Protocol.Replies.CodesRoundTrip.{
  CodeReply, reply_route, encode_code, decode_code, code_res_round_trip, is_online_res_round_trip,
  get_state_res_round_trip,
}
use xbase.Protocol.Replies.TotalsFrames.{received}
use xbase.Protocol.Replies.TotalsRoundTrip.{
  multicast_res_round_trip, broadcast_res_round_trip, publish_res_round_trip,
}

-- A reply as a handler gives it; a total may be left out.
pub data Reply : Type 0 where
  code_res : CodeReply → (code : ℕ) → Reply
  is_online_res : (code : ℕ) → (is_on : Bool) → Reply
  get_state_res : (code : ℕ) → (state : ℕ) → Reply
  multicast_res : (code : ℕ) → (total : Option ℕ) → Reply
  broadcast_res : (code : ℕ) → (total : Option ℕ) → Reply
  publish_res : (total : ℕ) → Reply

abbrev pub answer_route : Reply → Route
answer_route (code_res c code) = reply_route c
answer_route (is_online_res code is_on) = is_online
answer_route (get_state_res code state) = get_state
answer_route (multicast_res code total) = multicast
answer_route (broadcast_res code total) = broadcast
answer_route (publish_res total) = publish

abbrev pub encode_reply : (ℕ → Option Writer) → ℕ → Reply → Outcome NocopyBuffer
encode_reply pooled seq (code_res c code) = encode_code c pooled seq code
encode_reply pooled seq (is_online_res code is_on) = encode_is_online_res pooled seq code is_on
encode_reply pooled seq (get_state_res code state) = encode_get_state_res pooled seq code state
encode_reply pooled seq (multicast_res code total) = encode_multicast_res pooled seq code total
encode_reply pooled seq (broadcast_res code total) = encode_broadcast_res pooled seq code total
encode_reply pooled seq (publish_res total) = encode_publish_res pooled seq total

abbrev online_of : ℕ × Bool → Reply
online_of (code, is_on) = is_online_res code is_on

abbrev state_of : ℕ × ℕ → Reply
state_of (code, state) = get_state_res code state

abbrev multicast_of : ℕ × ℕ → Reply
multicast_of (code, total) = multicast_res code (some total)

abbrev broadcast_of : ℕ × ℕ → Reply
broadcast_of (code, total) = broadcast_res code (some total)

-- The decoder that the caller of the request uses.
abbrev pub decode_reply : Reply → List ℕ → Outcome Reply
decode_reply (code_res c _) frame = map_outcome (code_res c) (decode_code c frame)
decode_reply (is_online_res _ _) frame = map_outcome online_of (decode_is_online_res frame)
decode_reply (get_state_res _ _) frame = map_outcome state_of (decode_get_state_res frame)
decode_reply (multicast_res _ _) frame = map_outcome multicast_of (decode_multicast_res frame)
decode_reply (broadcast_res _ _) frame = map_outcome broadcast_of (decode_broadcast_res frame)
decode_reply (publish_res _) frame = map_outcome publish_res (decode_publish_res frame)

-- What the caller gets: the total only with the code 0, and 0 for one that was left out.
abbrev pub answered : Reply → Reply
answered (multicast_res code total) = multicast_res code (some (received code (total_of total)))
answered (broadcast_res code total) = broadcast_res code (some (received code (total_of total)))
answered (code_res c code) = code_res c code
answered (is_online_res code is_on) = is_online_res code is_on
answered (get_state_res code state) = get_state_res code state
answered (publish_res total) = publish_res total

-- The values fit the words that carry them.
abbrev pub Fits : Reply → Type 0
Fits (code_res c code) = code < 2 ^ 16
Fits (is_online_res code is_on) = code < 2 ^ 16
Fits (get_state_res code state) = (code < 2 ^ 16) × (state < 2 ^ 8)
Fits (multicast_res code total) = (code < 2 ^ 16) × (total_of total < 2 ^ 64)
Fits (broadcast_res code total) = (code < 2 ^ 16) × (total_of total < 2 ^ 64)
Fits (publish_res total) = total < 2 ^ 64

module _ (pooled : ℕ → Option Writer) (fresh : IsPool pooled) (rest : List ℕ) where
  wrapped :
      {A : Type 0} (f : A → Reply) (encoded : Outcome NocopyBuffer) (r : Route) (seq : ℕ)
      (decode : List ℕ → Outcome A) (a : A)
      → Delivers encoded r seq rest decode a
      → (b : NocopyBuffer) × (encoded ≡ ok b)
        × (read_message (buffer_bytes b ++ rest)
            ≡ ok ((false, route_id r, seq, buffer_bytes b), rest))
        × (map_outcome f (decode (buffer_bytes b)) ≡ ok (f a))
  wrapped f encoded r seq decode a (b, e, run, d) = (b, e, run, ap (map_outcome f) d)

  -- A reply that fits, to any request but a stat, an address query and a delivery, is encoded; its bytes
  -- come out of a stream as one frame with the route of its request and the sequence number, whatever
  -- follows them, and the decoder of the reply gives it back, the total only with the code 0, and 0 for
  -- a total that was left out.
  pub reply_round_trip :
      (r : Reply) (seq : ℕ)
      → Fits r
      → seq < 2 ^ 64
      → (b : NocopyBuffer) × (encode_reply pooled seq r ≡ ok b)
        × (read_message (buffer_bytes b ++ rest)
            ≡ ok ((false, route_id (answer_route r), seq, buffer_bytes b), rest))
        × (decode_reply r (buffer_bytes b) ≡ ok (answered r))
  reply_round_trip (code_res c code) seq h s =
      wrapped (code_res c) (encode_code c pooled seq code) (reply_route c) seq (decode_code c) code
        (code_res_round_trip pooled fresh rest c seq code s h)
  reply_round_trip (is_online_res code is_on) seq h s =
      wrapped online_of (encode_is_online_res pooled seq code is_on) is_online seq
        decode_is_online_res (code, is_on)
        (is_online_res_round_trip pooled fresh rest seq code is_on s h)
  reply_round_trip (get_state_res code state) seq h s =
      wrapped state_of (encode_get_state_res pooled seq code state) get_state seq
        decode_get_state_res (code, state)
        (get_state_res_round_trip pooled fresh rest seq code state s h.0 h.1)
  reply_round_trip (multicast_res code total) seq h s =
      wrapped multicast_of (encode_multicast_res pooled seq code total) multicast seq
        decode_multicast_res (code, received code (total_of total))
        (multicast_res_round_trip pooled fresh rest seq code total s h.0 h.1)
  reply_round_trip (broadcast_res code total) seq h s =
      wrapped broadcast_of (encode_broadcast_res pooled seq code total) broadcast seq
        decode_broadcast_res (code, received code (total_of total))
        (broadcast_res_round_trip pooled fresh rest seq code total s h.0 h.1)
  reply_round_trip (publish_res total) seq h s =
      wrapped publish_res (encode_publish_res pooled seq total) publish seq decode_publish_res total
        (publish_res_round_trip pooled fresh rest seq total s h)
