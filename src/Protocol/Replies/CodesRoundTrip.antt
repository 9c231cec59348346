-- ===== src/Protocol/Replies/CodesRoundTrip.antt =====
-- Codes, flags and states arrive as they were sent.
use xbase.Prelude.{
  ℕ, ◌^◌, ◌<◌, ◌≡◌, sym, ap, ◌∙◌, Bool, true, Option, List, [], ◌∷◌, ◌++◌, Outcome, arith, ◌==◌,
  length, length-append, append-nil,
}
use xbase.Prelude.Int.{pos}
use xbase.Bytes.{big_endian, put_uint}
use xbase.Bytes.Laws.{length-put_uint}
use xbase.Buffer.Writer.{Writer, write_uint16s, bool_byte}
use xbase.Buffer.Writer.Appends.{>>-Appends, write_bools-Appends}
use xbase.Buffer.Nocopy.{NocopyBuffer}
use xbase.Buffer.Pool.{IsPool}
use xbase.Buffer.Reader.{read_uint16, read_from, seek, seek_start, ◌>>=◌}
use xbase.Buffer.Reader.Reads.{read_uint16-Reads}
use xbase.Protocol.{
  Route, handshake, bind, unbind, disconnect, push, subscribe, unsubscribe, trigger, set_state,
  is_online, get_state, framed, with_head,
}
use xbase.Protocol.Frames.{frame, length-frame, write_uint16-Appends}
use xbase.Protocol.Decoding.{
  Delivers, reply-Delivers, byte-Appends, then_uint16, then_uint8, then_bool, return-Reads,
  read_from-end, read_from-body,
}
use xbase.Protocol.Replies.Codes.{
  last_code, encode_handshake_res, decode_handshake_res, encode_bind_res, decode_bind_res,
  encode_unbind_res, decode_unbind_res, encode_disconnect_res, decode_disconnect_res,
  encode_push_res, decode_push_res, encode_subscribe_res, decode_subscribe_res,
  encode_unsubscribe_res, decode_unsubscribe_res, encode_trigger_res, decode_trigger_res,
  encode_set_state_res, decode_set_state_res, encode_is_online_res, decode_is_online_res,
  is_online_res_fields, encode_get_state_res, decode_get_state_res, get_state_res_fields,
}

-- The requests that are answered by a code alone.
pub data CodeReply : Type 0 where
  handshakes binds unbinds disconnects pushes subscribes unsubscribes triggers sets_state :
      CodeReply

abbrev pub reply_route : CodeReply → Route
reply_route handshakes = handshake
reply_route binds = bind
reply_route unbinds = unbind
reply_route disconnects = disconnect
reply_route pushes = push
reply_route subscribes = subscribe
reply_route unsubscribes = unsubscribe
reply_route triggers = trigger
reply_route sets_state = set_state

abbrev pub encode_code : CodeReply → (ℕ → Option Writer) → ℕ → ℕ → Outcome NocopyBuffer
encode_code handshakes = encode_handshake_res
encode_code binds = encode_bind_res
encode_code unbinds = encode_unbind_res
encode_code disconnects = encode_disconnect_res
encode_code pushes = encode_push_res
encode_code subscribes = encode_subscribe_res
encode_code unsubscribes = encode_unsubscribe_res
encode_code triggers = encode_trigger_res
encode_code sets_state = encode_set_state_res

abbrev pub decode_code : CodeReply → List ℕ → Outcome ℕ
decode_code handshakes = decode_handshake_res
decode_code binds = decode_bind_res
decode_code unbinds = decode_unbind_res
decode_code disconnects = decode_disconnect_res
decode_code pushes = decode_push_res
decode_code subscribes = decode_subscribe_res
decode_code unsubscribes = decode_unsubscribe_res
decode_code triggers = decode_trigger_res
decode_code sets_state = decode_set_state_res

-- What the nine decoders compute on a frame of sixteen bytes.
decode_code-last_code : (c : CodeReply) (f : List ℕ) → length f ≡ 16 → decode_code c f ≡ last_code f
unfolding decode_handshake_res decode_bind_res decode_unbind_res decode_disconnect_res
    decode_push_res decode_subscribe_res decode_unsubscribe_res decode_trigger_res
    decode_set_state_res
decode_code-last_code handshakes f e = ground arith
decode_code-last_code _ f e = ground arith

module _ (pooled : ℕ → Option Writer) (fresh : IsPool pooled) (rest : List ℕ) where
  -- Each of the nine replies that carry a code alone is delivered as one frame on its route and
  -- decoded to the code, if the sequence number and the code fit their words.
  pub code_res_round_trip :
      (c : CodeReply) (seq code : ℕ)
      → seq < 2 ^ 64
      → code < 2 ^ 16
      → Delivers (encode_code c pooled seq code) (reply_route c) seq rest (decode_code c) code
  unfolding encode_handshake_res encode_bind_res encode_unbind_res encode_disconnect_res
      encode_push_res encode_subscribe_res encode_unsubscribe_res encode_trigger_res
      encode_set_state_res
  code_res_round_trip c seq code h hc =
      elim c
        as (λ k.
          Delivers (encode_code k pooled seq code) (reply_route k) seq rest (decode_code k) code) [
            | handshakes ↦ sent handshakes
            | binds ↦ sent binds
            | unbinds ↦ sent unbinds
            | disconnects ↦ sent disconnects
            | pushes ↦ sent pushes
            | subscribes ↦ sent subscribes
            | unsubscribes ↦ sent unsubscribes
            | triggers ↦ sent triggers
            | sets_state ↦ sent sets_state
          ]
    where
      sent :
          (k : CodeReply)
          → Delivers
              (framed pooled 16
                (with_head 12 (reply_route k) seq (write_uint16s big_endian (code ∷ [])))
                [])
              (reply_route k)
              seq
              rest
              (decode_code k)
              code
      sent k =
          reply-Delivers pooled 16 12 (reply_route k) seq (write_uint16s big_endian (code ∷ []))
            (put_uint big_endian 2 code) rest (decode_code k) code fresh h
            (write_uint16-Appends big_endian code)
            (omega (arith, length-put_uint big_endian 2 code)) (omega arith)
            (decode_code-last_code k (frame 12 (reply_route k) seq (put_uint big_endian 2 code)) (
                omega (
                  arith,
                  length-frame 12 (reply_route k) seq (put_uint big_endian 2 code),
                  length-put_uint big_endian 2 code,
                ))
              ∙ read_from-end (read_uint16 big_endian) 12 (reply_route k) seq
                  (put_uint big_endian 2 code) code (length-put_uint big_endian 2 code)
                  (read_uint16-Reads big_endian code hc))

  -- An answer whether a target is online is delivered as one frame and decoded to the same code and
  -- flag, if the sequence number and the code fit their words.
  pub is_online_res_round_trip :
      (seq code : ℕ) (is_on : Bool)
      → seq < 2 ^ 64
      → code < 2 ^ 16
      → Delivers
          (encode_is_online_res pooled seq code is_on)
          is_online
          seq
          rest
          decode_is_online_res
          (code, is_on)
  unfolding encode_is_online_res decode_is_online_res
  is_online_res_round_trip seq code is_on h hc =
      let body = put_uint big_endian 2 code ++ (bool_byte is_on ∷ []) in
      let l : length body ≡ 3 = omega (
        arith,
        length-append (put_uint big_endian 2 code) (bool_byte is_on ∷ []),
        length-put_uint big_endian 2 code,
      ) in
      let t : (length (frame 13 is_online seq body) == 17) ≡ true =
        ground (arith, length-frame 13 is_online seq body, l) in
      reply-Delivers pooled 17 13 is_online seq _ body rest decode_is_online_res (code, is_on) fresh
        h
        (>>-Appends _ _ (put_uint big_endian 2 code) (bool_byte is_on ∷ [])
          (write_uint16-Appends big_endian code) (write_bools-Appends (is_on ∷ [])))
        (omega (arith, l)) (omega arith)
        (rw t (
          ap
            (λ b.
              read_from (frame 13 is_online seq b)
                (seek (pos 14) seek_start >>= (λ _. is_online_res_fields)))
            (sym (append-nil body))
          ∙ read_from-body is_online_res_fields 13 is_online seq body [] (code, is_on)
              (then_uint16 _ (bool_byte is_on ∷ []) (code, is_on) code hc
                (then_bool _ [] (code, is_on) is_on (return-Reads (code, is_on))))))

  -- An answer with a state is delivered as one frame and decoded to the same code and state, if the
  -- sequence number, the code and the state fit their words.
  pub get_state_res_round_trip :
      (seq code state : ℕ)
      → seq < 2 ^ 64
      → code < 2 ^ 16
      → state < 2 ^ 8
      → Delivers
          (encode_get_state_res pooled seq code state)
          get_state
          seq
          rest
          decode_get_state_res
          (code, state)
  unfolding encode_get_state_res decode_get_state_res
  get_state_res_round_trip seq code state h hc hs =
      let body = put_uint big_endian 2 code ++ (state ∷ []) in
      let l : length body ≡ 3 = omega (
        arith,
        length-append (put_uint big_endian 2 code) (state ∷ []),
        length-put_uint big_endian 2 code,
      ) in
      let t : (length (frame 13 get_state seq body) == 17) ≡ true =
        ground (arith, length-frame 13 get_state seq body, l) in
      reply-Delivers pooled 17 13 get_state seq _ body rest decode_get_state_res (code, state) fresh
        h
        (>>-Appends _ _ (put_uint big_endian 2 code) (state ∷ [])
          (write_uint16-Appends big_endian code) (byte-Appends state hs))
        (omega (arith, l)) (omega arith)
        (rw t (
          ap
            (λ b.
              read_from (frame 13 get_state seq b)
                (seek (pos 14) seek_start >>= (λ _. get_state_res_fields)))
            (sym (append-nil body))
          ∙ read_from-body get_state_res_fields 13 get_state seq body [] (code, state)
              (then_uint16 _ (state ∷ []) (code, state) code hc
                (then_uint8 _ [] (code, state) state (return-Reads (code, state))))))
