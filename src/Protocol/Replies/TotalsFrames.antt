-- ===== src/Protocol/Replies/TotalsFrames.antt =====
-- The bytes of a code with a total or without, and what the decoders of totals read of them.
use xbase.Prelude.{
  ℕ, ◌/◌, ◌^◌, ◌<◌, ◌≡◌, sym, ap, ◌∙◌, true, false, List, [], ◌∷◌, ◌++◌, ok, arith, ◌==◌, ◌&&◌,
  if◌then◌else◌, length, length-append, append-nil, drop,
}
use xbase.Prelude.Int.{pos}
use xbase.Bytes.{big_endian, put_uint, le_bytes}
use xbase.Bytes.Laws.{length-put_uint}
use xbase.Buffer.Writer.{◌>>◌, write_uint16s, write_uint64s}
use xbase.Buffer.Writer.Appends.{Appends, >>-Appends, write_uint64s-Appends}
use xbase.Buffer.Reader.{return, read_uint64, read_from, seek, seek_start, ◌>>=◌}
use xbase.Buffer.Reader.Reads.{map-Reads, read_uint64-Reads}
use xbase.Protocol.{Route, stat, no_body}
use xbase.Protocol.Frames.{frame, write_uint16-Appends, no_body-Appends}
use xbase.Protocol.Decoding.{then_uint16, then_uint64, return-Reads, read_from-body}
use xbase.Protocol.Replies.Totals.{sends_total, total_fields, stat_res_fields}

-- A code, then a total or nothing.
abbrev pub sent_total : ℕ → ℕ → List ℕ
sent_total code total = put_uint big_endian 2 code ++ (put_uint big_endian 8 total ++ [])

abbrev pub sent_alone : ℕ → List ℕ
sent_alone code = put_uint big_endian 2 code ++ []

pub length-sent_total : (code total : ℕ) → length (sent_total code total) ≡ 10
length-sent_total code total = omega (
  arith,
  length-append (put_uint big_endian 2 code) (put_uint big_endian 8 total ++ []),
  length-append (put_uint big_endian 8 total) [],
  length-put_uint big_endian 2 code,
  length-put_uint big_endian 8 total,
)

pub length-sent_alone : (code : ℕ) → length (sent_alone code) ≡ 2
length-sent_alone code =
    omega (arith, length-append (put_uint big_endian 2 code) [], length-put_uint big_endian 2 code)

pub sent_total-Appends :
    (code total : ℕ)
    → Appends
        (◌>>◌ (write_uint16s big_endian (code ∷ [])) (write_uint64s big_endian (total ∷ [])))
        (sent_total code total)
sent_total-Appends code total =
    >>-Appends _ _ (put_uint big_endian 2 code) (put_uint big_endian 8 total ++ [])
      (write_uint16-Appends big_endian code) (write_uint64s-Appends big_endian (total ∷ []))

pub sent_alone-Appends :
    (code : ℕ) → Appends (◌>>◌ (write_uint16s big_endian (code ∷ [])) no_body) (sent_alone code)
sent_alone-Appends code =
    >>-Appends _ no_body (put_uint big_endian 2 code) [] (write_uint16-Appends big_endian code)
      no_body-Appends

-- The decoders that read the code.
pub total_read :
    (size : ℕ) (r : Route) (seq total : ℕ)
    → total < 2 ^ 64
    → read_from
        (frame size r seq (sent_total 0 total))
        (seek (pos 14) seek_start >>= (λ _. total_fields true))
      ≡ ok (0, total)
total_read size r seq total h =
    ap (λ b. read_from (frame size r seq b) (seek (pos 14) seek_start >>= (λ _. total_fields true)))
      (sym (append-nil (sent_total 0 total)))
    ∙ read_from-body (total_fields true) size r seq (sent_total 0 total) [] (0, total)
        (then_uint16 _ (put_uint big_endian 8 total ++ []) (0, total) 0 (omega arith)
          (then_uint64 _ [] (0, total) total h (return-Reads (0, total))))

pub code_read :
    (size : ℕ) (r : Route) (seq code : ℕ)
    → code < 2 ^ 16
    → read_from
        (frame size r seq (sent_alone code))
        (seek (pos 14) seek_start >>= (λ _. total_fields false))
      ≡ ok (code, 0)
code_read size r seq code h =
    ap
      (λ b. read_from (frame size r seq b) (seek (pos 14) seek_start >>= (λ _. total_fields false)))
      (sym (append-nil (sent_alone code)))
    ∙ read_from-body (total_fields false) size r seq (sent_alone code) [] (code, 0)
        (then_uint16
          (λ c.
            (if c == 0 && false then read_uint64 big_endian else return 0) >>= (λ t. return (c, t)))
          [] (code, 0) code h (λ r q at. (r, ground arith, at)))

-- The first eight of the ten bytes of a code 0 and a total are those of the total without its last
-- sixteen bits.
pub shifted_total :
    (total : ℕ)
    → total < 2 ^ 64
    → sent_total 0 total
      ≡ put_uint big_endian 8 (total / 2 ^ 16) ++ drop 6 (put_uint big_endian 8 total)
unfolding put_uint le_bytes
shifted_total total h = ground arith

pub stat_total_read :
    (size seq total : ℕ)
    → total < 2 ^ 64
    → read_from
        (frame size stat seq (sent_total 0 total))
        (seek (pos 14) seek_start >>= (λ _. stat_res_fields true))
      ≡ ok (0, total / 2 ^ 16)
stat_total_read size seq total h =
    let t = total / 2 ^ 16 in
    ap
      (λ b.
        read_from (frame size stat seq b)
          (seek (pos 14) seek_start >>= (λ _. stat_res_fields true)))
      (shifted_total total h)
    ∙ read_from-body (stat_res_fields true) size stat seq (put_uint big_endian 8 (total / 2 ^ 16))
        (drop 6 (put_uint big_endian 8 total)) (0, total / 2 ^ 16)
        (map-Reads (read_uint64 big_endian) (λ v. (0, v)) (put_uint big_endian 8 (total / 2 ^ 16))
          (total / 2 ^ 16) (read_uint64-Reads big_endian (total / 2 ^ 16) (omega arith)))

pub stat_code_read :
    (size seq code : ℕ)
    → read_from
        (frame size stat seq (sent_alone code))
        (seek (pos 14) seek_start >>= (λ _. stat_res_fields false))
      ≡ ok (0, 0)
stat_code_read size seq code =
    read_from-body (stat_res_fields false) size stat seq [] (sent_alone code) (0, 0)
      (return-Reads (0, 0))

-- What a reader of the code and the total is to get.
abbrev pub received : ℕ → ℕ → ℕ
received code total = if code == 0 then total else 0

pub sends_total-true : (code total : ℕ) → sends_total code total ≡ true → code ≡ 0
sends_total-true code total e = ground arith

pub sends_total-false : (code total : ℕ) → sends_total code total ≡ false → received code total ≡ 0
sends_total-false code total e = ground arith
