-- ===== src/Protocol/Replies/TotalsRoundTrip.antt =====
-- Totals arrive as they were sent, but for the answer to a stat.
use xbase.Prelude.{
  ℕ, ◌/◌, ◌^◌, ◌<◌, ◌≡◌, sym, ap, subst, ◌∙◌, true, false, Option, List, [], arith, ◌==◌, length,
  append-nil, Bool-cases, inl, inr,
}
use xbase.Prelude.Int.{pos}
use xbase.Bytes.{big_endian, put_uint}
use xbase.Bytes.Laws.{length-put_uint}
use xbase.Buffer.Writer.{Writer}
use xbase.Buffer.Pool.{IsPool}
use xbase.Buffer.Reader.{read_uint64, read_from, seek, seek_start, ◌>>=◌}
use xbase.Buffer.Reader.Reads.{read_uint64-Reads}
use xbase.Protocol.{stat, multicast, broadcast, publish}
use xbase.Protocol.Frames.{frame, length-frame, write_uint64-Appends}
use xbase.Protocol.Decoding.{Delivers, reply-Delivers, read_from-body}
use xbase.Protocol.Replies.Totals.{
  total_of, sends_total, encode_stat_res, decode_stat_res, encode_multicast_res,
  decode_multicast_res, encode_broadcast_res, decode_broadcast_res, encode_publish_res,
  decode_publish_res,
}
use xbase.Protocol.Replies.TotalsFrames.{
  sent_total, sent_alone, length-sent_total, length-sent_alone, sent_total-Appends,
  sent_alone-Appends, total_read, code_read, stat_total_read, stat_code_read, received,
  sends_total-true, sends_total-false,
}

module _ (pooled : ℕ → Option Writer) (fresh : IsPool pooled) (rest : List ℕ) where
  multicast_sent :
      (seq : ℕ) (total : Option ℕ)
      → sends_total 0 (total_of total) ≡ true
      → seq < 2 ^ 64
      → total_of total < 2 ^ 64
      → Delivers
          (encode_multicast_res pooled seq 0 total)
          multicast
          seq
          rest
          decode_multicast_res
          (0, total_of total)
  unfolding encode_multicast_res decode_multicast_res
  multicast_sent seq total e h ht =
      let t = total_of total in
      let f : (length (frame 20 multicast seq (sent_total 0 t)) == 24) ≡ true =
        ground (arith, length-frame 20 multicast seq (sent_total 0 t), length-sent_total 0 t) in
      rw e (
        reply-Delivers pooled 24 20 multicast seq _ (sent_total 0 t) rest decode_multicast_res
          (0, total_of total) fresh h (sent_total-Appends 0 t)
          (omega (arith, length-sent_total 0 t)) (omega arith)
          (rw f (total_read 20 multicast seq (total_of total) ht)))

  multicast_alone :
      (seq code : ℕ) (total : Option ℕ)
      → sends_total code (total_of total) ≡ false
      → seq < 2 ^ 64
      → code < 2 ^ 16
      → Delivers
          (encode_multicast_res pooled seq code total)
          multicast
          seq
          rest
          decode_multicast_res
          (code, 0)
  unfolding encode_multicast_res decode_multicast_res
  multicast_alone seq code total e h hc =
      let l = length-frame 12 multicast seq (sent_alone code) in
      let k = length-sent_alone code in
      let f : (length (frame 12 multicast seq (sent_alone code)) == 24) ≡ false =
        ground (arith, l, k) in
      let g : (length (frame 12 multicast seq (sent_alone code)) == 16) ≡ true =
        ground (arith, l, k) in
      rw e (
        reply-Delivers pooled 24 12 multicast seq _ (sent_alone code) rest decode_multicast_res
          (code, 0) fresh h (sent_alone-Appends code) (omega (arith, k)) (omega arith)
          (rw (f, g) (code_read 12 multicast seq code hc)))

  broadcast_sent :
      (seq : ℕ) (total : Option ℕ)
      → sends_total 0 (total_of total) ≡ true
      → seq < 2 ^ 64
      → total_of total < 2 ^ 64
      → Delivers
          (encode_broadcast_res pooled seq 0 total)
          broadcast
          seq
          rest
          decode_broadcast_res
          (0, total_of total)
  unfolding encode_broadcast_res decode_broadcast_res
  broadcast_sent seq total e h ht =
      let t = total_of total in
      let f : (length (frame 20 broadcast seq (sent_total 0 t)) == 24) ≡ true =
        ground (arith, length-frame 20 broadcast seq (sent_total 0 t), length-sent_total 0 t) in
      rw e (
        reply-Delivers pooled 24 20 broadcast seq _ (sent_total 0 t) rest decode_broadcast_res
          (0, total_of total) fresh h (sent_total-Appends 0 t)
          (omega (arith, length-sent_total 0 t)) (omega arith)
          (rw f (total_read 20 broadcast seq (total_of total) ht)))

  broadcast_alone :
      (seq code : ℕ) (total : Option ℕ)
      → sends_total code (total_of total) ≡ false
      → seq < 2 ^ 64
      → code < 2 ^ 16
      → Delivers
          (encode_broadcast_res pooled seq code total)
          broadcast
          seq
          rest
          decode_broadcast_res
          (code, 0)
  unfolding encode_broadcast_res decode_broadcast_res
  broadcast_alone seq code total e h hc =
      let l = length-frame 12 broadcast seq (sent_alone code) in
      let k = length-sent_alone code in
      let f : (length (frame 12 broadcast seq (sent_alone code)) == 24) ≡ false =
        ground (arith, l, k) in
      let g : (length (frame 12 broadcast seq (sent_alone code)) == 16) ≡ true =
        ground (arith, l, k) in
      rw e (
        reply-Delivers pooled 24 12 broadcast seq _ (sent_alone code) rest decode_broadcast_res
          (code, 0) fresh h (sent_alone-Appends code) (omega (arith, k)) (omega arith)
          (rw (f, g) (code_read 12 broadcast seq code hc)))

  stat_sent :
      (seq : ℕ) (total : Option ℕ)
      → sends_total 0 (total_of total) ≡ true
      → seq < 2 ^ 64
      → total_of total < 2 ^ 64
      → Delivers
          (encode_stat_res pooled seq 0 total)
          stat
          seq
          rest
          decode_stat_res
          (0, total_of total / 2 ^ 16)
  unfolding encode_stat_res decode_stat_res
  stat_sent seq total e h ht =
      let t = total_of total in
      let f : (length (frame 20 stat seq (sent_total 0 t)) == 24) ≡ true =
        ground (arith, length-frame 20 stat seq (sent_total 0 t), length-sent_total 0 t) in
      rw e (
        reply-Delivers pooled 24 20 stat seq _ (sent_total 0 t) rest decode_stat_res
          (0, total_of total / 2 ^ 16) fresh h (sent_total-Appends 0 t)
          (omega (arith, length-sent_total 0 t)) (omega arith)
          (rw f (stat_total_read 20 seq (total_of total) ht)))

  stat_alone :
      (seq code : ℕ) (total : Option ℕ)
      → sends_total code (total_of total) ≡ false
      → seq < 2 ^ 64
      → code < 2 ^ 16
      → Delivers (encode_stat_res pooled seq code total) stat seq rest decode_stat_res (0, 0)
  unfolding encode_stat_res decode_stat_res
  stat_alone seq code total e h hc =
      let l = length-frame 12 stat seq (sent_alone code) in
      let k = length-sent_alone code in
      let f : (length (frame 12 stat seq (sent_alone code)) == 24) ≡ false = ground (arith, l, k) in
      let g : (length (frame 12 stat seq (sent_alone code)) == 16) ≡ true = ground (arith, l, k) in
      rw e (
        reply-Delivers pooled 24 12 stat seq _ (sent_alone code) rest decode_stat_res (0, 0) fresh h
          (sent_alone-Appends code) (omega (arith, k)) (omega arith)
          (rw (f, g) (stat_code_read 12 seq code)))

  -- A multicast answer is delivered as one frame and decoded to the code and, if the code is 0, the total;
  -- a total that is left out, or that comes with another code, is decoded as 0. The sequence number,
  -- the code and the total fit their words.
  pub multicast_res_round_trip :
      (seq code : ℕ) (total : Option ℕ)
      → seq < 2 ^ 64
      → code < 2 ^ 16
      → total_of total < 2 ^ 64
      → Delivers
          (encode_multicast_res pooled seq code total)
          multicast
          seq
          rest
          decode_multicast_res
          (code, received code (total_of total))
  multicast_res_round_trip seq code total h hc ht =
      elim (Bool-cases (sends_total code (total_of total))) [
        | inl e ↦
            let z = sends_total-true code (total_of total) e in
            subst
              (λ c.
                Delivers (encode_multicast_res pooled seq c total) multicast seq rest
                  decode_multicast_res (c, received c (total_of total)))
              (sym z)
              (multicast_sent seq total (subst (λ c. sends_total c (total_of total) ≡ true) z e) h
                ht)
        | inr e ↦
            subst
              (λ v.
                Delivers (encode_multicast_res pooled seq code total) multicast seq rest
                  decode_multicast_res (code, v))
              (sym (sends_total-false code (total_of total) e))
              (multicast_alone seq code total e h hc)
      ]

  -- A broadcast answer is delivered as one frame and decoded to the code and, if the code is 0, the total;
  -- a total that is left out, or that comes with another code, is decoded as 0. The sequence number,
  -- the code and the total fit their words.
  pub broadcast_res_round_trip :
      (seq code : ℕ) (total : Option ℕ)
      → seq < 2 ^ 64
      → code < 2 ^ 16
      → total_of total < 2 ^ 64
      → Delivers
          (encode_broadcast_res pooled seq code total)
          broadcast
          seq
          rest
          decode_broadcast_res
          (code, received code (total_of total))
  broadcast_res_round_trip seq code total h hc ht =
      elim (Bool-cases (sends_total code (total_of total))) [
        | inl e ↦
            let z = sends_total-true code (total_of total) e in
            subst
              (λ c.
                Delivers (encode_broadcast_res pooled seq c total) broadcast seq rest
                  decode_broadcast_res (c, received c (total_of total)))
              (sym z)
              (broadcast_sent seq total (subst (λ c. sends_total c (total_of total) ≡ true) z e) h
                ht)
        | inr e ↦
            subst
              (λ v.
                Delivers (encode_broadcast_res pooled seq code total) broadcast seq rest
                  decode_broadcast_res (code, v))
              (sym (sends_total-false code (total_of total) e))
              (broadcast_alone seq code total e h hc)
      ]

  -- The answer to a stat is delivered as one frame, but decoded to the code 0 whatever the code was,
  -- and a total that was sent, with the code 0, to the total without its last sixteen bits. The
  -- sequence number, the code and the total fit their words.
  pub stat_res_misread :
      (seq code : ℕ) (total : Option ℕ)
      → seq < 2 ^ 64
      → code < 2 ^ 16
      → total_of total < 2 ^ 64
      → Delivers
          (encode_stat_res pooled seq code total)
          stat
          seq
          rest
          decode_stat_res
          (0, received code (total_of total) / 2 ^ 16)
  stat_res_misread seq code total h hc ht = elim (Bool-cases (sends_total code (total_of total))) [
    | inl e ↦
        let z = sends_total-true code (total_of total) e in
        subst
          (λ c.
            Delivers (encode_stat_res pooled seq c total) stat seq rest decode_stat_res
              (0, received c (total_of total) / 2 ^ 16))
          (sym z)
          (stat_sent seq total (subst (λ c. sends_total c (total_of total) ≡ true) z e) h ht)
    | inr e ↦
        subst
          (λ v.
            Delivers (encode_stat_res pooled seq code total) stat seq rest decode_stat_res
              (0, v / 2 ^ 16))
          (sym (sends_total-false code (total_of total) e)) (stat_alone seq code total e h hc)
  ]

  -- The answer to a publish is delivered as one frame and decoded to the same total, if the sequence
  -- number and the total fit their words.
  pub publish_res_round_trip :
      (seq total : ℕ)
      → seq < 2 ^ 64
      → total < 2 ^ 64
      → Delivers (encode_publish_res pooled seq total) publish seq rest decode_publish_res total
  unfolding encode_publish_res decode_publish_res
  publish_res_round_trip seq total h ht =
      let w = put_uint big_endian 8 total in
      reply-Delivers pooled 22 18 publish seq _ w rest decode_publish_res total fresh h
        (write_uint64-Appends big_endian total) (omega (arith, length-put_uint big_endian 8 total))
        (omega arith)
        (ap
            (λ b.
              read_from (frame 18 publish seq b)
                (seek (pos 14) seek_start >>= (λ _. read_uint64 big_endian)))
            (sym (append-nil w))
          ∙ read_from-body (read_uint64 big_endian) 18 publish seq w [] total
              (read_uint64-Reads big_endian total ht))
