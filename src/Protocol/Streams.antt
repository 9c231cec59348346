-- ===== src/Protocol/Streams.antt =====
-- What a stream can do to ReadMessage besides giving a frame: heartbeats, and the lengths at which the
-- reading goroutine panics.
use xbase.Prelude.{
  ℕ, suc, ◌+◌, ◌-◌, ◌%◌, ◌/◌, ◌^◌, ◌<◌, ◌≤◌, ◌≡◌, refl, ap, ◌∙◌, true, false, List, [], ◌∷◌, ◌++◌,
  ok, panic, arith, take, drop, if◌then◌else◌, ltb, ◌==◌, length, length-append, append_assoc,
}
use xbase.Bytes.{big_endian, put_uint, get_uint, le_bytes}
use xbase.Bytes.Laws.{length-put_uint, get_uint-put_uint}
use xbase.Buffer.Writer.{
  bytes, grow, grow_slice, put_byte, put_word, for_each, write_uint8s, write_uint32s,
  new_writer_with_capacity,
}
use xbase.Protocol.{
  heartbeat, read_rest, reader_buffer, read_message, parse_buffer, byte_at, heartbeat_bit,
}
use xbase.Protocol.Frames.{read_full_lem, reader_buffer_lem, byte_at-append}

heartbeat_bytes : heartbeat ≡ ok (put_uint big_endian 4 1 ++ (heartbeat_bit ∷ []))
unfolding heartbeat new_writer_with_capacity write_uint32s write_uint8s grow grow_slice for_each
    put_word put_byte bytes put_uint le_bytes
heartbeat_bytes = refl

-- The heartbeat frame is built, and is read back from a stream as a heartbeat, whatever follows it.
pub heartbeat_round_trip :
    (rest : List ℕ)
    → (beat : List ℕ) × (heartbeat ≡ ok beat)
      × (read_message (beat ++ rest) ≡ ok ((true, 0, 0, beat), rest))
unfolding read_message parse_buffer
heartbeat_round_trip rest =
    let beat = put_uint big_endian 4 1 ++ (heartbeat_bit ∷ []) in
    let l : length beat ≡ 5 = omega (
      arith,
      length-append (put_uint big_endian 4 1) (heartbeat_bit ∷ []),
      length-put_uint big_endian 4 1,
    ) in
    let got : reader_buffer (beat ++ rest) ≡ ok (beat, rest) =
      ap reader_buffer (append_assoc (put_uint big_endian 4 1) (heartbeat_bit ∷ []) rest)
      ∙ reader_buffer_lem 1 (heartbeat_bit ∷ []) rest refl (omega arith) (omega arith) in
    let low : ltb (length beat) 5 ≡ false = ground arith in
    (
      beat,
      heartbeat_bytes,
      rw (
        got,
        low,
        byte_at-append (put_uint big_endian 4 1) (heartbeat_bit ∷ []) 0 4
            (omega (arith, length-put_uint big_endian 4 1)),
      ),
    )

-- A size field within four of 2 ^ 32 wraps in uint32, and the copy of the field panics, whatever
-- follows it.
pub oversized_panics :
    (size : ℕ) (rest : List ℕ)
    → 2 ^ 32 - 4 ≤ size
    → size < 2 ^ 32
    → read_message (put_uint big_endian 4 size ++ rest) ≡ panic
unfolding read_message reader_buffer read_rest
oversized_panics size rest low high =
    let wrapped : ltb ((4 + size) % 2 ^ 32) 4 ≡ true = ground arith in
    let some_bytes : (size == 0) ≡ false = ground arith in
    rw (
      read_full_lem 4 (put_uint big_endian 4 size) rest (length-put_uint big_endian 4 size),
      get_uint-put_uint big_endian 4 size (omega arith),
      some_bytes,
      wrapped,
    )

-- What ParseBuffer does to the head of a frame, the bytes behind its header given.
parse_buffer-head :
    (front : List ℕ) (header : ℕ) (bs : List ℕ)
    → length front ≡ 4
    → header < 2 ^ 7
    → parse_buffer (front ++ (header ∷ bs)) ≡ (
        if ltb (length bs) 9
        then panic
        else ok (false, byte_at bs 0, get_uint big_endian (take 8 (drop 1 bs))))
unfolding parse_buffer
parse_buffer-head front header bs n h =
    let k = length-append front (header ∷ bs) in
    let low : ltb (length (front ++ (header ∷ bs))) 5 ≡ false = ground (arith, k, n) in
    let high : ltb (length (front ++ (header ∷ bs))) 14 ≡ ltb (length bs) 9 =
      ground (arith, k, n) in
    let plain : (header / 2 ^ 7 % 2 == 1) ≡ false = ground arith in
    rw
      (
        low,
        byte_at-append front (header ∷ bs) 0 4 (omega (arith, n)),
        plain,
        high,
        byte_at-append front (header ∷ bs) 1 5 (omega (arith, n)),
        drop_more front (header ∷ bs) n,
      )
      refl
  where
    drop_more : (front s : List ℕ) → length front ≡ 4 → drop 6 (front ++ s) ≡ drop 2 s
    drop_more (a ∷ b ∷ c ∷ d ∷ []) s n = refl
    drop_more [] s n = absurd (omega (arith, n))
    drop_more (a ∷ []) s n = absurd (omega (arith, n))
    drop_more (a ∷ b ∷ []) s n = absurd (omega (arith, n))
    drop_more (a ∷ b ∷ c ∷ []) s n = absurd (omega (arith, n))
    drop_more (a ∷ b ∷ c ∷ d ∷ e ∷ front) s n = absurd (omega (arith, n))

-- A frame that is not a heartbeat, with fewer than nine bytes behind its header, is too short for a route
-- and a sequence number. ReadMessage panics on it. ReaderBuffer gives it, in a buffer with any stale
-- bytes behind it: ParseBuffer panics there only where the stale bytes do not make up the nine, and
-- otherwise takes the missing bytes of the route and the sequence number from them.
pub short_frame_panics :
    (header : ℕ) (bs rest stale : List ℕ)
    → header < 2 ^ 7
    → length bs < 9
    → (read_message (put_uint big_endian 4 (suc (length bs)) ++ ((header ∷ bs) ++ rest)) ≡ panic)
      × (reader_buffer (put_uint big_endian 4 (suc (length bs)) ++ ((header ∷ bs) ++ rest))
          ≡ ok (put_uint big_endian 4 (suc (length bs)) ++ (header ∷ bs), rest))
      × (parse_buffer ((put_uint big_endian 4 (suc (length bs)) ++ (header ∷ bs)) ++ stale) ≡ (
          if ltb (length bs + length stale) 9
          then panic
          else ok (
            false,
            byte_at (bs ++ stale) 0,
            get_uint big_endian (take 8 (drop 1 (bs ++ stale))),
          )))
unfolding read_message
short_frame_panics header bs rest stale h l =
    let front = put_uint big_endian 4 (suc (length bs)) in
    let n = length-put_uint big_endian 4 (suc (length bs)) in
    let got =
      reader_buffer_lem (suc (length bs)) (header ∷ bs) rest refl (omega arith) (omega arith) in
    let high : ltb (length bs) 9 ≡ true = ground arith in
    (
      rw (got, parse_buffer-head front header bs n h, high) refl,
      got,
      ap parse_buffer (append_assoc front (header ∷ bs) stale)
          ∙ parse_buffer-head front header (bs ++ stale) n h
          ∙ ap
              (λ k.
                if ltb k 9
                then panic
                else ok (
                  false,
                  byte_at (bs ++ stale) 0,
                  get_uint big_endian (take 8 (drop 1 (bs ++ stale))),
                ))
              (length-append bs stale),
    )
