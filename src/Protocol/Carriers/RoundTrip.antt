-- ===== src/Protocol/Carriers/RoundTrip.antt =====
-- Messages in pushes, broadcasts and publishes arrive as they were sent; a publish on a long channel
-- does not.
use xbase.Prelude.{
  ℕ, ◌+◌, ◌-◌, ◌%◌, ◌^◌, ◌<◌, ◌≤◌, ◌≡◌, refl, sym, subst, Option, List, [], ◌∷◌, ◌++◌, ok, arith,
  length, length-append, append-nil, drop, length-drop,
}
use xbase.Bytes.{big_endian, put_uint}
use xbase.Bytes.Laws.{length-put_uint}
use xbase.Buffer.Writer.{Writer, write_int64s}
use xbase.Buffer.Writer.Appends.{Appends, >>-Appends, write_string-Appends}
use xbase.Buffer.Pool.{IsPool}
use xbase.Buffer.Nocopy.{Node, node_bytes, node_len}
use xbase.Buffer.Nocopy.Laws.{NodeOk}
use xbase.Buffer.Nocopy.Contents.{length-node_bytes}
use xbase.Buffer.Reader.{read_string}
use xbase.Buffer.Reader.Reads.{Reads, map-Reads, read_string-Reads}
use xbase.Protocol.{push, broadcast, publish}
use xbase.Protocol.Frames.{frame, length-frame, write_int64-Appends}
use xbase.Protocol.Decoding.{
  Delivers, carrier-Delivers, byte-Appends, then_uint64, then_uint8, then_int64, return-Reads,
  read_from-seq, slice_from-body, slice_from-drop,
}
use xbase.Protocol.Carriers.{
  encode_push_req, decode_push_req, push_req_fields, encode_broadcast_req, decode_broadcast_req,
  broadcast_req_fields, encode_publish_req, decode_publish_req, publish_req_fields,
}

-- The target's word.
abbrev target_word : ℕ → List ℕ
target_word target = put_uint big_endian 8 target ++ []

length-target_word : (t : ℕ) → length (target_word t) ≡ 8
length-target_word t =
    omega (arith, length-append (put_uint big_endian 8 t) [], length-put_uint big_endian 8 t)

publish_req_fields-Reads :
    (seq : ℕ) (channel : List ℕ)
    → seq < 2 ^ 64
    → Reads publish_req_fields
        (put_uint big_endian 8 seq ++ (length channel ∷ channel))
        (seq, length channel, channel)
publish_req_fields-Reads seq channel h =
    then_uint64 _ (length channel ∷ channel) (seq, length channel, channel) seq h
      (then_uint8 _ channel (seq, length channel, channel) (length channel)
        (map-Reads (read_string (length channel)) (λ c. (seq, length channel, c)) channel channel
          (read_string-Reads channel)))

module _ (pooled : ℕ → Option Writer) (fresh : IsPool pooled) (rest : List ℕ) where
  -- A push request whose values fit their words, with a well-formed message shorter than 2 ^ 31 bytes,
  -- is delivered as one frame and decoded to the same values and the bytes of the message.
  pub push_req_round_trip :
      (seq kind target : ℕ) (message : Node)
      → seq < 2 ^ 64
      → kind < 2 ^ 8
      → target < 2 ^ 64
      → NodeOk message
      → length (node_bytes message) < 2 ^ 31
      → Delivers
          (encode_push_req pooled seq kind target message)
          push
          seq
          rest
          decode_push_req
          (seq, kind, target, node_bytes message)
  unfolding encode_push_req decode_push_req
  push_req_round_trip seq kind target message h hk ht good hm =
      let l = length-node_bytes message good in
      let body = kind ∷ target_word target in
      let w = length-target_word target in
      carrier-Delivers pooled 23 (19 + node_len message) push seq _ (kind ∷ target_word target) rest
        message decode_push_req (seq, kind, target, node_bytes message) fresh good h
        (>>-Appends _ _ (kind ∷ []) (target_word target) (byte-Appends kind hk) (
          subst (Appends (write_int64s big_endian (target ∷ [])))
            (sym (append-nil (put_uint big_endian 8 target)))
            (write_int64-Appends big_endian target)))
        (omega (arith, l, w)) (omega (arith, l))
        (rw (
          read_from-seq push_req_fields (19 + node_len message) push seq body (node_bytes message)
              (seq, kind, target)
              (then_uint64 _ (kind ∷ target_word target) (seq, kind, target) seq h
                (then_uint8 _ (target_word target) (seq, kind, target) kind
                  (then_int64 _ [] (seq, kind, target) target ht
                    (return-Reads (seq, kind, target))))),
          slice_from-body (19 + node_len message) push seq body (node_bytes message) 23
              (omega (arith, w)),
        ))

  -- A broadcast request whose values fit their words, with a well-formed message shorter than
  -- 2 ^ 31 bytes, is delivered as one frame and decoded to the same values and the message's bytes.
  pub broadcast_req_round_trip :
      (seq kind : ℕ) (message : Node)
      → seq < 2 ^ 64
      → kind < 2 ^ 8
      → NodeOk message
      → length (node_bytes message) < 2 ^ 31
      → Delivers
          (encode_broadcast_req pooled seq kind message)
          broadcast
          seq
          rest
          decode_broadcast_req
          (seq, kind, node_bytes message)
  unfolding encode_broadcast_req decode_broadcast_req
  broadcast_req_round_trip seq kind message h hk good hm =
      let l = length-node_bytes message good in
      carrier-Delivers pooled 15 (11 + node_len message) broadcast seq _ (kind ∷ []) rest message
        decode_broadcast_req (seq, kind, node_bytes message) fresh good h (byte-Appends kind hk)
        (omega (arith, l)) (omega (arith, l))
        (rw (
          read_from-seq broadcast_req_fields (11 + node_len message) broadcast seq (kind ∷ [])
              (node_bytes message) (seq, kind)
              (then_uint64 _ (kind ∷ []) (seq, kind) seq h
                (then_uint8 _ [] (seq, kind) kind (return-Reads (seq, kind)))),
          slice_from-body (11 + node_len message) broadcast seq (kind ∷ []) (node_bytes message) 15
              refl,
        ))

  publish-Delivers :
      (seq : ℕ) (channel : List ℕ) (message : Node) (got : List ℕ)
      → seq < 2 ^ 64
      → length channel < 2 ^ 8
      → NodeOk message
      → length (node_bytes message) < 2 ^ 31
      → decode_publish_req (
          frame
            (11 + length channel + node_len message)
            publish
            seq
            ((length channel ∷ channel) ++ node_bytes message))
        ≡ ok (seq, channel, got)
      → Delivers
          (encode_publish_req pooled seq channel message)
          publish
          seq
          rest
          decode_publish_req
          (seq, channel, got)
  unfolding encode_publish_req
  publish-Delivers seq channel message got h hc good hm d =
      let l = length-node_bytes message good in
      let e : 15 + length channel - 4 + node_len message ≡ 11 + length channel + node_len message =
        omega arith in
      rw e (
        carrier-Delivers pooled (15 + length channel) (11 + length channel + node_len message)
          publish seq _ (length channel ∷ channel) rest message decode_publish_req
          (seq, channel, got) fresh good h
          (>>-Appends _ _ (length channel ∷ []) channel (byte-Appends (length channel) hc)
            (write_string-Appends channel))
          (omega (arith, l)) (omega (arith, l)) d)

  -- A publish request on a channel of at most 240 bytes, with a well-formed message shorter than
  -- 2 ^ 31 bytes, is delivered as one frame and decoded to the same channel and the message's bytes.
  pub publish_req_round_trip :
      (seq : ℕ) (channel : List ℕ) (message : Node)
      → seq < 2 ^ 64
      → length channel ≤ 240
      → NodeOk message
      → length (node_bytes message) < 2 ^ 31
      → Delivers
          (encode_publish_req pooled seq channel message)
          publish
          seq
          rest
          decode_publish_req
          (seq, channel, node_bytes message)
  unfolding decode_publish_req
  publish_req_round_trip seq channel message h hc good hm =
      let size = 11 + length channel + node_len message in
      let off : (15 + length channel) % 2 ^ 8 ≡ 15 + length channel = omega arith in
      publish-Delivers seq channel message (node_bytes message) h (omega arith) good hm (
        rw (
          read_from-seq publish_req_fields size publish seq (length channel ∷ channel)
              (node_bytes message) (seq, length channel, channel)
              (publish_req_fields-Reads seq channel h),
          off,
          slice_from-body size publish seq (length channel ∷ channel) (node_bytes message)
              (15 + length channel) (omega arith),
        ))

  -- From 241 to 255 bytes of channel, which the encoder sends in full, the decoder takes a message
  -- that is 256 bytes longer than the one that was sent.
  pub publish_req_misread :
      (seq : ℕ) (channel : List ℕ) (message : Node)
      → seq < 2 ^ 64
      → 241 ≤ length channel
      → length channel < 2 ^ 8
      → NodeOk message
      → length (node_bytes message) < 2 ^ 31
      → (got : List ℕ) × Delivers
          (encode_publish_req pooled seq channel message)
          publish
          seq
          rest
          decode_publish_req
          (seq, channel, got)
        × (length got ≡ length (node_bytes message) + 256)
  unfolding decode_publish_req
  publish_req_misread seq channel message h low hc good hm =
      let size = 11 + length channel + node_len message in
      let f = frame size publish seq ((length channel ∷ channel) ++ node_bytes message) in
      let off = (15 + length channel) % 2 ^ 8 in
      let l : length f ≡ 15 + length channel + length (node_bytes message) = omega (
        arith,
        length-frame size publish seq ((length channel ∷ channel) ++ node_bytes message),
        length-append channel (node_bytes message),
      ) in
      (
        drop off f,
        publish-Delivers seq channel message (drop off f) h hc good hm (
            rw (
              read_from-seq publish_req_fields size publish seq (length channel ∷ channel)
                  (node_bytes message) (seq, length channel, channel)
                  (publish_req_fields-Reads seq channel h),
              slice_from-drop f off (omega (arith, l)),
            )),
        omega (arith, l, length-drop off f),
      )
