-- ===== src/Protocol/Fixed/Optional.antt =====
-- The requests of a varying length: a trigger with its optional user, and the handshake.
use xbase.Prelude.{
  ℕ, ◌+◌, ◌-◌, ◌%◌, ◌^◌, ◌<◌, ◌≡◌, refl, ap, true, false, Option, none, some, List, [], ◌∷◌, arith,
  ◌==◌, length, Bool-cases, inl, inr,
}
use xbase.Prelude.Int.{pos}
use xbase.Bytes.{big_endian, put_uint}
use xbase.Buffer.Writer.{Writer, ◌>>◌, write_uint8s, write_int64s, write_string}
use xbase.Buffer.Writer.Appends.{>>-Appends, write_int64s-Appends, write_string-Appends}
use xbase.Buffer.Pool.{IsPool}
use xbase.Buffer.Reader.{◌>>=◌, return, read_from, seek, seek_start, read_int64, read_string}
use xbase.Buffer.Reader.Reads.{map-Reads, read_string-Reads}
use xbase.Protocol.{trigger, handshake, no_body}
use xbase.Protocol.Frames.{write_int64-Appends, no_body-Appends}
use xbase.Protocol.Decoding.{
  Delivers, fields-Delivers, byte-Appends, then_uint64, then_int64, then_uint8, return-Reads,
}
use xbase.Protocol.Fixed.{seq_start}
use xbase.Protocol.Fixed.Encode.{uid_of, encode_trigger_req, encode_handshake_req}
use xbase.Protocol.Fixed.Decode.{
  trigger_req_fields, decode_trigger_req, handshake_req_fields, decode_handshake_req,
}
use xbase.Protocol.Fixed.RoundTrip.{word, length-word}

module _ (pooled : ℕ → Option Writer) (fresh : IsPool pooled) (rest : List ℕ) where
  trigger_without_uid :
      (seq event cid : ℕ) (uid : Option ℕ)
      → uid_of uid ≡ 0
      → seq < 2 ^ 64
      → event < 2 ^ 8
      → cid < 2 ^ 64
      → Delivers
          (encode_trigger_req pooled seq event cid uid)
          trigger
          seq
          rest
          decode_trigger_req
          (seq, event, cid, uid_of uid)
  unfolding encode_trigger_req decode_trigger_req
  trigger_without_uid seq event cid uid z h he hc = rw z (
      fields-Delivers pooled 31 19 trigger seq
        (◌>>◌ (write_uint8s (event % 2 ^ 8 ∷ []))
          (◌>>◌ (write_int64s big_endian (cid ∷ [])) no_body))
        (event ∷ word cid []) rest decode_trigger_req (trigger_req_fields (return 0))
        (seq, event, cid, 0) fresh h
        (>>-Appends _ _ (event ∷ []) (word cid []) (byte-Appends event he) (
          >>-Appends _ _ (put_uint big_endian 8 cid) [] (write_int64-Appends big_endian cid)
            no_body-Appends))
        (omega (arith, length-word cid [])) (omega arith)
        (then_uint64 _ _ (seq, event, cid, 0) seq h
          (then_uint8 _ (word cid []) (seq, event, cid, 0) event
            (then_int64 _ _ (seq, event, cid, 0) cid hc (return-Reads (seq, event, cid, 0)))))
        (λ f e.
          let t : (length f == 31) ≡ false = ground arith in
          let s : (length f == 23) ≡ true = ground arith in rw (t, s)))

  trigger_with_uid :
      (seq event cid uid : ℕ)
      → (uid == 0) ≡ false
      → seq < 2 ^ 64
      → event < 2 ^ 8
      → cid < 2 ^ 64
      → uid < 2 ^ 64
      → Delivers
          (encode_trigger_req pooled seq event cid (some uid))
          trigger
          seq
          rest
          decode_trigger_req
          (seq, event, cid, uid)
  unfolding encode_trigger_req decode_trigger_req
  trigger_with_uid seq event cid uid z h he hc hu = rw z (
      fields-Delivers pooled 31 27 trigger seq
        (◌>>◌ (write_uint8s (event % 2 ^ 8 ∷ []))
          (◌>>◌ (write_int64s big_endian (cid ∷ [])) (write_int64s big_endian (uid ∷ []))))
        (event ∷ word cid (word uid [])) rest decode_trigger_req
        (trigger_req_fields (read_int64 big_endian)) (seq, event, cid, uid) fresh h
        (>>-Appends _ _ (event ∷ []) (word cid (word uid [])) (byte-Appends event he) (
          >>-Appends _ _ (put_uint big_endian 8 cid) (word uid [])
            (write_int64-Appends big_endian cid) (write_int64s-Appends big_endian (uid ∷ []))))
        (omega (arith, length-word cid (word uid []), length-word uid [])) (omega arith)
        (then_uint64 _ _ (seq, event, cid, uid) seq h
          (then_uint8 _ (word cid (word uid [])) (seq, event, cid, uid) event
            (then_int64 _ _ (seq, event, cid, uid) cid hc
              (then_int64 _ _ (seq, event, cid, uid) uid hu
                (return-Reads (seq, event, cid, uid))))))
        (λ f e. let t : (length f == 31) ≡ true = ground arith in rw t))

  -- A trigger whose values fit their words is delivered as one frame and decoded to the same values;
  -- a user that is left out is decoded as 0.
  pub trigger_req_round_trip :
      (seq event cid : ℕ) (uid : Option ℕ)
      → seq < 2 ^ 64
      → event < 2 ^ 8
      → cid < 2 ^ 64
      → uid_of uid < 2 ^ 64
      → Delivers
          (encode_trigger_req pooled seq event cid uid)
          trigger
          seq
          rest
          decode_trigger_req
          (seq, event, cid, uid_of uid)
  trigger_req_round_trip seq event cid none h he hc hu =
      trigger_without_uid seq event cid none refl h he hc
  trigger_req_round_trip seq event cid (some uid) h he hc hu = elim (Bool-cases (uid == 0)) [
    | inl z ↦ trigger_without_uid seq event cid (some uid) (ground arith) h he hc
    | inr z ↦ trigger_with_uid seq event cid uid z h he hc hu
  ]

  -- A handshake whose values fit their words, with an identifier shorter than 2 ^ 31 bytes, is
  -- delivered as one frame and decoded to the same values.
  pub handshake_req_round_trip :
      (seq ins_kind : ℕ) (ins_id : List ℕ)
      → seq < 2 ^ 64
      → ins_kind < 2 ^ 8
      → length ins_id < 2 ^ 31
      → Delivers
          (encode_handshake_req pooled seq ins_kind ins_id)
          handshake
          seq
          rest
          decode_handshake_req
          (seq, ins_kind, ins_id)
  unfolding encode_handshake_req decode_handshake_req
  handshake_req_round_trip seq ins_kind ins_id h hk hl =
      fields-Delivers pooled (15 + length ins_id) (15 + length ins_id - 4) handshake seq
        (◌>>◌ (write_uint8s (ins_kind % 2 ^ 8 ∷ [])) (write_string ins_id)) (ins_kind ∷ ins_id) rest
        decode_handshake_req (handshake_req_fields (length ins_id)) (seq, ins_kind, ins_id) fresh h
        (>>-Appends _ _ (ins_kind ∷ []) ins_id (byte-Appends ins_kind hk)
          (write_string-Appends ins_id))
        (omega arith) (omega arith)
        (then_uint64 _ _ (seq, ins_kind, ins_id) seq h
          (then_uint8 _ ins_id (seq, ins_kind, ins_id) ins_kind
            (map-Reads (read_string (length ins_id)) (λ i. (seq, ins_kind, i)) ins_id ins_id
              (read_string-Reads ins_id))))
        (λ f e.
          ap (λ n. read_from f (seek (pos seq_start) seek_start >>= (λ _. handshake_req_fields n)))
            (omega arith))
