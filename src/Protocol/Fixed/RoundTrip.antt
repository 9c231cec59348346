-- ===== src/Protocol/Fixed/RoundTrip.antt =====
-- What the encoders send, the streams give back as one frame and the decoders read.
use xbase.Prelude.{
  ℕ, ◌+◌, ◌%◌, ◌^◌, ◌<◌, ◌≡◌, sym, subst, Bool, Option, List, [], ◌∷◌, ◌++◌, arith, length,
  length-append, append-nil,
}
use xbase.Bytes.{big_endian, put_uint}
use xbase.Bytes.Laws.{length-put_uint}
use xbase.Buffer.Writer.{Writer, ◌>>◌, write_uint8s, write_bools, write_int64s, bool_byte}
use xbase.Buffer.Writer.Appends.{>>-Appends, write_bools-Appends, write_int64s-Appends}
use xbase.Buffer.Pool.{IsPool}
use xbase.Buffer.Reader.{read_uint64}
use xbase.Buffer.Reader.Reads.{Reads, read_uint64-Reads}
use xbase.Protocol.{
  bind, unbind, get_ip, is_online, stat, get_state, set_state, disconnect, no_body,
}
use xbase.Protocol.Frames.{write_int64-Appends, no_body-Appends}
use xbase.Protocol.Decoding.{
  Delivers, fields-Delivers, byte-Appends, then_uint64, then_int64, then_uint8, then_bool,
  return-Reads,
}
use xbase.Protocol.Fixed.Encode.{
  encode_bind_req, encode_unbind_req, encode_get_ip_req, encode_is_online_req, encode_stat_req,
  encode_get_state_req, encode_set_state_req, encode_disconnect_req,
}
use xbase.Protocol.Fixed.Decode.{
  bind_req_fields, unbind_req_fields, get_ip_req_fields, is_online_req_fields, stat_req_fields,
  get_state_req_fields, set_state_req_fields, disconnect_req_fields, decode_bind_req,
  decode_unbind_req, decode_get_ip_req, decode_is_online_req, decode_stat_req, decode_get_state_req,
  decode_set_state_req, decode_disconnect_req,
}

abbrev pub word : ℕ → List ℕ → List ℕ
word v ys = put_uint big_endian 8 v ++ ys

pub length-word : (v : ℕ) (ys : List ℕ) → length (word v ys) ≡ 8 + length ys
length-word v ys =
    omega (arith, length-append (put_uint big_endian 8 v) ys, length-put_uint big_endian 8 v)

module _ (pooled : ℕ → Option Writer) (fresh : IsPool pooled) (rest : List ℕ) where
  -- A bind request whose values fit their words is delivered as one frame and decoded to the same values.
  pub bind_req_round_trip :
      (seq cid uid : ℕ)
      → seq < 2 ^ 64
      → cid < 2 ^ 64
      → uid < 2 ^ 64
      → Delivers (encode_bind_req pooled seq cid uid) bind seq rest decode_bind_req (seq, cid, uid)
  unfolding encode_bind_req decode_bind_req
  bind_req_round_trip seq cid uid h hcid huid =
      fields-Delivers pooled 30 26 bind seq (write_int64s big_endian (cid ∷ uid ∷ []))
        (word cid (word uid [])) rest decode_bind_req bind_req_fields (seq, cid, uid) fresh h
        (write_int64s-Appends big_endian (cid ∷ uid ∷ []))
        (omega (arith, length-word cid (word uid []), length-word uid [])) (omega arith)
        (then_uint64 _ _ (seq, cid, uid) seq h
          (then_int64 _ _ (seq, cid, uid) cid hcid
            (then_int64 _ _ (seq, cid, uid) uid huid (return-Reads (seq, cid, uid)))))
        (λ f e. ground arith)

  -- An unbind request whose values fit their words is delivered as one frame and decoded to the same values.
  pub unbind_req_round_trip :
      (seq uid cid : ℕ)
      → seq < 2 ^ 64
      → uid < 2 ^ 64
      → cid < 2 ^ 64
      → Delivers
          (encode_unbind_req pooled seq uid cid)
          unbind
          seq
          rest
          decode_unbind_req
          (seq, uid, cid)
  unfolding encode_unbind_req decode_unbind_req
  unbind_req_round_trip seq uid cid h huid hcid =
      fields-Delivers pooled 30 26 unbind seq
        (◌>>◌ (write_int64s big_endian (uid ∷ [])) (write_int64s big_endian (cid ∷ [])))
        (word uid (word cid [])) rest decode_unbind_req unbind_req_fields (seq, uid, cid) fresh h
        (>>-Appends (write_int64s big_endian (uid ∷ [])) _ _ _ (write_int64-Appends big_endian uid)
          (write_int64s-Appends big_endian (cid ∷ [])))
        (omega (arith, length-word uid (word cid []), length-word cid [])) (omega arith)
        (then_uint64 _ _ (seq, uid, cid) seq h
          (then_int64 _ _ (seq, uid, cid) uid huid
            (then_int64 _ _ (seq, uid, cid) cid hcid (return-Reads (seq, uid, cid)))))
        (λ f e. ground arith)

  -- A request for an address whose values fit their words is delivered as one frame and decoded to the same values.
  pub get_ip_req_round_trip :
      (seq kind target : ℕ)
      → seq < 2 ^ 64
      → kind < 2 ^ 8
      → target < 2 ^ 64
      → Delivers
          (encode_get_ip_req pooled seq kind target)
          get_ip
          seq
          rest
          decode_get_ip_req
          (seq, kind, target)
  unfolding encode_get_ip_req decode_get_ip_req
  get_ip_req_round_trip seq kind target h hkind htarget =
      fields-Delivers pooled 23 19 get_ip seq
        (◌>>◌ (write_uint8s (kind % 2 ^ 8 ∷ [])) (write_int64s big_endian (target ∷ [])))
        ((kind ∷ word target [])) rest decode_get_ip_req get_ip_req_fields (seq, kind, target) fresh
        h
        (>>-Appends (write_uint8s (kind % 2 ^ 8 ∷ [])) _ _ _ (byte-Appends kind hkind)
          (write_int64s-Appends big_endian (target ∷ [])))
        (omega (arith, length-word target [])) (omega arith)
        (then_uint64 _ _ (seq, kind, target) seq h
          (then_uint8 _ _ (seq, kind, target) kind
            (then_int64 _ _ (seq, kind, target) target htarget (return-Reads (seq, kind, target)))))
        (λ f e. ground arith)

  -- A request whether a target is online whose values fit their words is delivered as one frame and decoded to the same values.
  pub is_online_req_round_trip :
      (seq kind target : ℕ)
      → seq < 2 ^ 64
      → kind < 2 ^ 8
      → target < 2 ^ 64
      → Delivers
          (encode_is_online_req pooled seq kind target)
          is_online
          seq
          rest
          decode_is_online_req
          (seq, kind, target)
  unfolding encode_is_online_req decode_is_online_req
  is_online_req_round_trip seq kind target h hkind htarget =
      fields-Delivers pooled 23 19 is_online seq
        (◌>>◌ (write_uint8s (kind % 2 ^ 8 ∷ [])) (write_int64s big_endian (target ∷ [])))
        ((kind ∷ word target [])) rest decode_is_online_req is_online_req_fields (seq, kind, target)
        fresh h
        (>>-Appends (write_uint8s (kind % 2 ^ 8 ∷ [])) _ _ _ (byte-Appends kind hkind)
          (write_int64s-Appends big_endian (target ∷ [])))
        (omega (arith, length-word target [])) (omega arith)
        (then_uint64 _ _ (seq, kind, target) seq h
          (then_uint8 _ _ (seq, kind, target) kind
            (then_int64 _ _ (seq, kind, target) target htarget (return-Reads (seq, kind, target)))))
        (λ f e. ground arith)

  -- A request for the number online whose values fit their words is delivered as one frame and decoded to the same values.
  pub stat_req_round_trip :
      (seq kind : ℕ)
      → seq < 2 ^ 64
      → kind < 2 ^ 8
      → Delivers (encode_stat_req pooled seq kind) stat seq rest decode_stat_req (seq, kind)
  unfolding encode_stat_req decode_stat_req
  stat_req_round_trip seq kind h hkind =
      fields-Delivers pooled 15 11 stat seq (write_uint8s (kind % 2 ^ 8 ∷ [])) ((kind ∷ [])) rest
        decode_stat_req stat_req_fields (seq, kind) fresh h (byte-Appends kind hkind)
        (omega (arith)) (omega arith)
        (then_uint64 _ _ (seq, kind) seq h
          (then_uint8 _ [] (seq, kind) kind (return-Reads (seq, kind))))
        (λ f e. ground arith)

  -- A request for the state whose values fit their words is delivered as one frame and decoded to the same values.
  pub get_state_req_round_trip :
      (seq : ℕ)
      → seq < 2 ^ 64
      → Delivers (encode_get_state_req pooled seq) get_state seq rest decode_get_state_req seq
  unfolding encode_get_state_req decode_get_state_req
  get_state_req_round_trip seq h =
      fields-Delivers pooled 14 10 get_state seq (no_body) [] rest decode_get_state_req
        get_state_req_fields seq fresh h (no_body-Appends) (omega (arith)) (omega arith)
        (subst (λ l. Reads (read_uint64 big_endian) l seq)
          (sym (append-nil (put_uint big_endian 8 seq))) (read_uint64-Reads big_endian seq h))
        (λ f e. ground arith)

  -- A request to set the state whose values fit their words is delivered as one frame and decoded to the same values.
  pub set_state_req_round_trip :
      (seq state : ℕ)
      → seq < 2 ^ 64
      → state < 2 ^ 8
      → Delivers
          (encode_set_state_req pooled seq state)
          set_state
          seq
          rest
          decode_set_state_req
          (seq, state)
  unfolding encode_set_state_req decode_set_state_req
  set_state_req_round_trip seq state h hstate =
      fields-Delivers pooled 15 11 set_state seq (write_uint8s (state % 2 ^ 8 ∷ [])) ((state ∷ []))
        rest decode_set_state_req set_state_req_fields (seq, state) fresh h
        (byte-Appends state hstate) (omega (arith)) (omega arith)
        (then_uint64 _ _ (seq, state) seq h
          (then_uint8 _ [] (seq, state) state (return-Reads (seq, state))))
        (λ f e. ground arith)

  -- A disconnect request whose values fit their words is delivered as one frame and decoded to the same values.
  pub disconnect_req_round_trip :
      (seq uid cid : ℕ) (force : Bool)
      → seq < 2 ^ 64
      → uid < 2 ^ 64
      → cid < 2 ^ 64
      → Delivers
          (encode_disconnect_req pooled seq uid cid force)
          disconnect
          seq
          rest
          decode_disconnect_req
          (seq, uid, cid, force)
  unfolding encode_disconnect_req decode_disconnect_req
  disconnect_req_round_trip seq uid cid force h huid hcid =
      fields-Delivers pooled 31 27 disconnect seq
        (◌>>◌ (write_int64s big_endian (uid ∷ []))
          (◌>>◌ (write_int64s big_endian (cid ∷ [])) (write_bools (force ∷ []))))
        (word uid (word cid ((bool_byte force ∷ [])))) rest decode_disconnect_req
        disconnect_req_fields (seq, uid, cid, force) fresh h
        (>>-Appends (write_int64s big_endian (uid ∷ [])) _ _ _ (write_int64-Appends big_endian uid)
          (>>-Appends (write_int64s big_endian (cid ∷ [])) _ _ _
            (write_int64-Appends big_endian cid) (write_bools-Appends (force ∷ []))))
        (omega (
          arith,
          length-word uid (word cid ((bool_byte force ∷ []))),
          length-word cid ((bool_byte force ∷ [])),
        ))
        (omega arith)
        (then_uint64 _ _ (seq, uid, cid, force) seq h
          (then_int64 _ _ (seq, uid, cid, force) uid huid
            (then_int64 _ _ (seq, uid, cid, force) cid hcid
              (then_bool _ [] (seq, uid, cid, force) force (return-Reads (seq, uid, cid, force))))))
        (λ f e. ground arith)
