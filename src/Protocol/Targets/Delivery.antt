-- ===== src/Protocol/Targets/Delivery.antt =====
-- Subscriptions and multicasts from the encoder through a stream to the decoder.
use xbase.Prelude.{
  ℕ, ◌+◌, ◌-◌, ◌*◌, ◌^◌, ◌<◌, ◌≤◌, ◌≡◌, sym, subst, Option, List, [], ◌++◌, arith, length,
  length-append, append-nil, AllBelow,
}
use xbase.Bytes.{big_endian}
use xbase.Buffer.Writer.{Writer, ◌>>◌, write_int64s, write_string}
use xbase.Buffer.Writer.Appends.{Appends, >>-Appends, write_int64s-Appends, write_string-Appends}
use xbase.Buffer.Pool.{IsPool}
use xbase.Buffer.Nocopy.{Node, node_bytes, node_len}
use xbase.Buffer.Nocopy.Laws.{NodeOk}
use xbase.Buffer.Nocopy.Contents.{length-node_bytes}
use xbase.Protocol.{Route, subscribe, unsubscribe, multicast, framed, with_head}
use xbase.Protocol.Frames.{frame, with_head-Appends, framed-Encodes, Encodes}
use xbase.Protocol.Decoding.{Delivers, carrier-Delivers, frame-Delivers}
use xbase.Protocol.Targets.Encode.{
  encode_subscribe_req, encode_unsubscribe_req, encode_multicast_req,
}
use xbase.Protocol.Targets.Decode.{
  decode_subscribe_req, decode_unsubscribe_req, decode_multicast_req,
}
use xbase.Protocol.Targets.RoundTrip.{
  words, target_bytes, length-target_bytes, write_targets, targets-Appends, decode_targets_exact,
  decode_targets_wrapped,
}

module _ (pooled : ℕ → Option Writer) (fresh : IsPool pooled) (rest : List ℕ) where
  -- What an encoder of targets and a text sends, at its size.
  channel-Encodes :
      (cap size : ℕ) (r : Route) (seq kind : ℕ) (targets channel : List ℕ)
      → size ≡ 13 + 8 * length targets + length channel
      → kind < 2 ^ 8
      → length targets < 2 ^ 16
      → length channel < 2 ^ 31
      → Encodes
          (framed pooled cap
            (with_head size r seq (
              write_targets kind targets
                (◌>>◌ (write_int64s big_endian targets) (write_string channel))))
            [])
          (frame size r seq (target_bytes kind targets ++ channel))
  channel-Encodes cap size r seq kind targets channel e hk hn hc =
      framed-Encodes pooled cap _ (frame size r seq (target_bytes kind targets ++ channel)) fresh (
        with_head-Appends size r seq _ (target_bytes kind targets ++ channel) (omega arith) (
          targets-Appends kind targets _ channel hk hn (
            >>-Appends (write_int64s big_endian targets) (write_string channel) (words targets)
              channel (write_int64s-Appends big_endian targets) (write_string-Appends channel))))

  -- A subscribe request with at most 8189 targets is delivered as one frame and decoded to the same
  -- values, if they fit their words and the channel is shorter than 2 ^ 31 bytes.
  pub subscribe_req_round_trip :
      (seq kind : ℕ) (targets channel : List ℕ)
      → seq < 2 ^ 64
      → kind < 2 ^ 8
      → AllBelow (2 ^ 64) targets
      → length targets < 8190
      → length channel < 2 ^ 31
      → Delivers
          (encode_subscribe_req pooled seq kind targets channel)
          subscribe
          seq
          rest
          decode_subscribe_req
          (seq, kind, targets, channel)
  unfolding encode_subscribe_req decode_subscribe_req
  subscribe_req_round_trip seq kind targets channel h hk ht hn hc =
      let size = 17 + length targets * 8 + length channel - 4 in
      let e : size ≡ 13 + 8 * length targets + length channel = omega arith in
      frame-Delivers _ size subscribe seq (target_bytes kind targets ++ channel) rest
        decode_subscribe_req (seq, kind, targets, channel)
        (channel-Encodes (17 + length targets * 8 + length channel) size subscribe seq kind targets
          channel e hk (omega arith) hc)
        (omega (
          arith,
          length-append (target_bytes kind targets) channel,
          length-target_bytes kind targets,
        ))
        (omega arith) h (decode_targets_exact size subscribe seq kind targets channel h ht hn)

  -- From 8190 targets on, which the encoder counts in full up to 65535, the decoder of the subscribe
  -- request takes a channel that is at least 65536 bytes longer than the one that was sent.
  pub subscribe_req_misread :
      (seq kind : ℕ) (targets channel : List ℕ)
      → seq < 2 ^ 64
      → kind < 2 ^ 8
      → AllBelow (2 ^ 64) targets
      → 8190 ≤ length targets
      → length targets < 2 ^ 16
      → length channel < 2 ^ 31
      → (got : List ℕ) × Delivers
          (encode_subscribe_req pooled seq kind targets channel)
          subscribe
          seq
          rest
          decode_subscribe_req
          (seq, kind, targets, got)
        × (length channel + 2 ^ 16 ≤ length got)
  unfolding encode_subscribe_req decode_subscribe_req
  subscribe_req_misread seq kind targets channel h hk ht low hn hc =
      let size = 17 + length targets * 8 + length channel - 4 in
      let e : size ≡ 13 + 8 * length targets + length channel = omega arith in
      let (got, d, l) = decode_targets_wrapped size subscribe seq kind targets channel h ht hn in
      (
        got,
        frame-Delivers _ size subscribe seq (target_bytes kind targets ++ channel) rest
            decode_subscribe_req (seq, kind, targets, got)
            (channel-Encodes (17 + length targets * 8 + length channel) size subscribe seq kind
              targets channel e hk hn hc)
            (omega (
              arith,
              length-append (target_bytes kind targets) channel,
              length-target_bytes kind targets,
            ))
            (omega arith) h d,
        omega arith,
      )

  -- An unsubscribe request with at most 8189 targets is delivered as one frame and decoded to the same
  -- values, if they fit their words and the channel is shorter than 2 ^ 31 bytes.
  pub unsubscribe_req_round_trip :
      (seq kind : ℕ) (targets channel : List ℕ)
      → seq < 2 ^ 64
      → kind < 2 ^ 8
      → AllBelow (2 ^ 64) targets
      → length targets < 8190
      → length channel < 2 ^ 31
      → Delivers
          (encode_unsubscribe_req pooled seq kind targets channel)
          unsubscribe
          seq
          rest
          decode_unsubscribe_req
          (seq, kind, targets, channel)
  unfolding encode_unsubscribe_req decode_unsubscribe_req
  unsubscribe_req_round_trip seq kind targets channel h hk ht hn hc =
      let size = 17 + length targets * 8 + length channel - 4 in
      let e : size ≡ 13 + 8 * length targets + length channel = omega arith in
      frame-Delivers _ size unsubscribe seq (target_bytes kind targets ++ channel) rest
        decode_unsubscribe_req (seq, kind, targets, channel)
        (channel-Encodes (17 + length targets * 8 + length channel) size unsubscribe seq kind
          targets channel e hk (omega arith) hc)
        (omega (
          arith,
          length-append (target_bytes kind targets) channel,
          length-target_bytes kind targets,
        ))
        (omega arith) h (decode_targets_exact size unsubscribe seq kind targets channel h ht hn)

  -- From 8190 targets on, which the encoder counts in full up to 65535, the decoder of the unsubscribe
  -- request takes a channel that is at least 65536 bytes longer than the one that was sent.
  pub unsubscribe_req_misread :
      (seq kind : ℕ) (targets channel : List ℕ)
      → seq < 2 ^ 64
      → kind < 2 ^ 8
      → AllBelow (2 ^ 64) targets
      → 8190 ≤ length targets
      → length targets < 2 ^ 16
      → length channel < 2 ^ 31
      → (got : List ℕ) × Delivers
          (encode_unsubscribe_req pooled seq kind targets channel)
          unsubscribe
          seq
          rest
          decode_unsubscribe_req
          (seq, kind, targets, got)
        × (length channel + 2 ^ 16 ≤ length got)
  unfolding encode_unsubscribe_req decode_unsubscribe_req
  unsubscribe_req_misread seq kind targets channel h hk ht low hn hc =
      let size = 17 + length targets * 8 + length channel - 4 in
      let e : size ≡ 13 + 8 * length targets + length channel = omega arith in
      let (got, d, l) = decode_targets_wrapped size unsubscribe seq kind targets channel h ht hn in
      (
        got,
        frame-Delivers _ size unsubscribe seq (target_bytes kind targets ++ channel) rest
            decode_unsubscribe_req (seq, kind, targets, got)
            (channel-Encodes (17 + length targets * 8 + length channel) size unsubscribe seq kind
              targets channel e hk hn hc)
            (omega (
              arith,
              length-append (target_bytes kind targets) channel,
              length-target_bytes kind targets,
            ))
            (omega arith) h d,
        omega arith,
      )

  -- A multicast request with at most 8189 targets is delivered as one frame and decoded to the same
  -- values and the bytes of the message, if they fit their words and the message is a well-formed
  -- buffer shorter than 2 ^ 31 bytes.
  pub multicast_req_round_trip :
      (seq kind : ℕ) (targets : List ℕ) (message : Node)
      → seq < 2 ^ 64
      → kind < 2 ^ 8
      → AllBelow (2 ^ 64) targets
      → length targets < 8190
      → NodeOk message
      → length (node_bytes message) < 2 ^ 31
      → Delivers
          (encode_multicast_req pooled seq kind targets message)
          multicast
          seq
          rest
          decode_multicast_req
          (seq, kind, targets, node_bytes message)
  unfolding encode_multicast_req decode_multicast_req
  multicast_req_round_trip seq kind targets message h hk ht hn good hm =
      let size = 17 + length targets * 8 - 4 + node_len message in
      let l = length-node_bytes message good in
      carrier-Delivers pooled (17 + length targets * 8) size multicast seq _
        (target_bytes kind targets) rest message decode_multicast_req
        (seq, kind, targets, node_bytes message) fresh good h
        (subst (Appends (write_targets kind targets (write_int64s big_endian targets)))
          (append-nil (target_bytes kind targets))
          (targets-Appends kind targets (write_int64s big_endian targets) [] hk (omega arith) (
            subst (Appends (write_int64s big_endian targets)) (sym (append-nil (words targets)))
              (write_int64s-Appends big_endian targets))))
        (omega (arith, l, length-target_bytes kind targets)) (omega (arith, l))
        (decode_targets_exact size multicast seq kind targets (node_bytes message) h ht hn)

  -- From 8190 to 65535 targets, the decoder of the multicast request takes a message that is at least
  -- 65536 bytes longer than the one that was sent.
  pub multicast_req_misread :
      (seq kind : ℕ) (targets : List ℕ) (message : Node)
      → seq < 2 ^ 64
      → kind < 2 ^ 8
      → AllBelow (2 ^ 64) targets
      → 8190 ≤ length targets
      → length targets < 2 ^ 16
      → NodeOk message
      → length (node_bytes message) < 2 ^ 31
      → (got : List ℕ) × Delivers
          (encode_multicast_req pooled seq kind targets message)
          multicast
          seq
          rest
          decode_multicast_req
          (seq, kind, targets, got)
        × (length (node_bytes message) + 2 ^ 16 ≤ length got)
  unfolding encode_multicast_req decode_multicast_req
  multicast_req_misread seq kind targets message h hk ht low hn good hm =
      let size = 17 + length targets * 8 - 4 + node_len message in
      let l = length-node_bytes message good in
      let (got, d, longer) =
        decode_targets_wrapped size multicast seq kind targets (node_bytes message) h ht hn in
      (
        got,
        carrier-Delivers pooled (17 + length targets * 8) size multicast seq _
            (target_bytes kind targets) rest message decode_multicast_req (seq, kind, targets, got)
            fresh good h
            (subst (Appends (write_targets kind targets (write_int64s big_endian targets)))
              (append-nil (target_bytes kind targets))
              (targets-Appends kind targets (write_int64s big_endian targets) [] hk hn (
                subst (Appends (write_int64s big_endian targets)) (sym (append-nil (words targets)))
                  (write_int64s-Appends big_endian targets))))
            (omega (arith, l, length-target_bytes kind targets)) (omega (arith, l)) d,
        omega arith,
      )
