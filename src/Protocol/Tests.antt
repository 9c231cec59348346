-- ===== src/Protocol/Tests.antt =====
-- The node protocol on concrete requests and answers.
use xbase.Prelude.{
  ℕ, zero, suc, ◌+◌, ◌^◌, ◌<◌, ◌≤◌, ◌≡◌, refl, Option, none, some, List, [], ◌∷◌, ◌++◌, ok, panic,
  arith, length, replicate, length-replicate, AllBelow, false,
}
use xbase.Bytes.{big_endian, put_uint}
use xbase.Buffer.Writer.{Writer}
use xbase.Buffer.Pool.{IsPool}
use xbase.Buffer.Nocopy.{NocopyBuffer, buffer_bytes, Node, block, sub, end, link, node_bytes}
use xbase.Buffer.Nocopy.Laws.{NodeOk}
use xbase.Protocol.{reader_buffer, parse_buffer, multicast, stat, read_message, route_id}
use xbase.Protocol.Decoding.{Delivers}
use xbase.Protocol.Targets.Encode.{encode_multicast_req}
use xbase.Protocol.Targets.Decode.{decode_multicast_req}
use xbase.Protocol.Targets.Delivery.{multicast_req_misread}
use xbase.Protocol.Replies.Totals.{encode_stat_res, decode_stat_res}
use xbase.Protocol.Replies.TotalsRoundTrip.{stat_res_misread}
use xbase.Protocol.Streams.{oversized_panics, short_frame_panics}
use xbase.Protocol.Requests.{Request, multicast_req, encode_request, decode_request, arrived}
use xbase.Protocol.Requests.Delivery.{request_round_trip}
use xbase.Protocol.Replies.Answers.{Reply, multicast_res, encode_reply, decode_reply, answered}
use xbase.Protocol.Replies.Answers.{reply_round_trip}

-- Nothing was released to the pool yet.
abbrev no_pool : ℕ → Option Writer
no_pool i = none

no_pool-IsPool : IsPool no_pool
no_pool-IsPool i w e = absurd (ground (arith, e))

abbrev tail_bytes : List ℕ
tail_bytes = 1 ∷ 2 ∷ []

abbrev two_targets : List ℕ
two_targets = 11 ∷ 12 ∷ []

abbrev room : List ℕ
room = 114 ∷ 111 ∷ []

abbrev long_room : List ℕ
long_room = replicate 250 114

length-long_room : length long_room ≡ 250
length-long_room = length-replicate {A = ℕ} 250 114

-- A message in two blocks.
abbrev greeting : Node
greeting = sub 2 none (link (block (104 ∷ [])) (link (block (105 ∷ [])) end))

greeting-NodeOk : NodeOk greeting
greeting-NodeOk = (refl, omega arith, tt, (tt, (tt, tt)))

greeting_short : length (node_bytes greeting) < 2 ^ 31
unfolding node_bytes
greeting_short = omega arith

abbrev many_targets : List ℕ
many_targets = replicate 8190 11

length-many_targets : length many_targets ≡ 8190
length-many_targets = length-replicate {A = ℕ} 8190 11

many_targets-AllBelow : (n : ℕ) → AllBelow (2 ^ 64) (replicate n 11)
many_targets-AllBelow zero = tt
many_targets-AllBelow (suc n) = (omega arith, many_targets-AllBelow n)

stat_res_misread_example :
    Delivers (encode_stat_res no_pool 7 0 (some 70000)) stat 7 tail_bytes decode_stat_res (0, 1)
stat_res_misread_example =
    stat_res_misread no_pool no_pool-IsPool tail_bytes 7 0 (some 70000) (omega arith) (omega arith)
      (omega arith)

multicast_req_misread_example :
    (got : List ℕ) × Delivers
      (encode_multicast_req no_pool 7 1 many_targets greeting)
      multicast
      7
      tail_bytes
      decode_multicast_req
      (7, 1, many_targets, got)
    × (length (node_bytes greeting) + 2 ^ 16 ≤ length got)
multicast_req_misread_example =
    multicast_req_misread no_pool no_pool-IsPool tail_bytes 7 1 many_targets greeting (omega arith)
      (omega arith) (many_targets-AllBelow 8190) (omega (arith, length-many_targets))
      (omega (arith, length-many_targets)) greeting-NodeOk greeting_short

oversized_panics_example : read_message (put_uint big_endian 4 4294967295 ++ tail_bytes) ≡ panic
oversized_panics_example = oversized_panics 4294967295 tail_bytes (omega arith) (omega arith)

-- Eight bytes that an earlier use left behind the frame make up the nine: the frame has the route, and
-- they have the number.
abbrev stale_bytes : List ℕ
stale_bytes = 0 ∷ 0 ∷ 0 ∷ 0 ∷ 0 ∷ 0 ∷ 0 ∷ 9 ∷ []

short_frame_panics_example :
    (read_message (put_uint big_endian 4 2 ++ ((0 ∷ 5 ∷ []) ++ tail_bytes)) ≡ panic)
    × (reader_buffer (put_uint big_endian 4 2 ++ ((0 ∷ 5 ∷ []) ++ tail_bytes))
        ≡ ok (put_uint big_endian 4 2 ++ (0 ∷ 5 ∷ []), tail_bytes))
    × (parse_buffer ((put_uint big_endian 4 2 ++ (0 ∷ 5 ∷ [])) ++ stale_bytes) ≡ ok (false, 5, 9))
unfolding xbase.Bytes.get_uint xbase.Bytes.le_value
short_frame_panics_example =
    short_frame_panics 0 (5 ∷ []) tail_bytes stale_bytes (omega arith) (omega arith)

abbrev to_two : Request
to_two = multicast_req 7 1 two_targets greeting

request_round_trip_example :
    (b : NocopyBuffer) × (encode_request no_pool to_two ≡ ok b)
    × (read_message (buffer_bytes b ++ tail_bytes)
        ≡ ok ((false, route_id multicast, 7, buffer_bytes b), tail_bytes))
    × (decode_request multicast (buffer_bytes b) ≡ some (ok (arrived to_two)))
request_round_trip_example = request_round_trip no_pool no_pool-IsPool tail_bytes to_two (
  omega arith,
  omega arith,
  (omega arith, (omega arith, tt)),
  omega arith,
  greeting-NodeOk,
  greeting_short,
)

abbrev two_of_two : Reply
two_of_two = multicast_res 0 (some 2)

reply_round_trip_example :
    (b : NocopyBuffer) × (encode_reply no_pool 7 two_of_two ≡ ok b)
    × (read_message (buffer_bytes b ++ tail_bytes)
        ≡ ok ((false, route_id multicast, 7, buffer_bytes b), tail_bytes))
    × (decode_reply two_of_two (buffer_bytes b) ≡ ok (answered two_of_two))
reply_round_trip_example =
    reply_round_trip no_pool no_pool-IsPool tail_bytes two_of_two 7 (omega arith, omega arith)
      (omega arith)
