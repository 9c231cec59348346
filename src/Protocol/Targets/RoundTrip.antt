-- ===== src/Protocol/Targets/RoundTrip.antt =====
-- Requests with targets: exact up to 8189 targets, and misplaced beyond.
use native.Mathlib.Nat.{mod-eq_of_lt}
use xbase.Prelude.{
  ℕ, ◌+◌, ◌*◌, ◌/◌, ◌%◌, ◌^◌, ◌<◌, ◌≡◌, sym, subst, List, [], ◌∷◌, ◌++◌, Outcome, ok, bind_outcome,
  arith, length, length-append, append_assoc, flat_map, length-flat_map, AllBelow, drop,
  length-drop,
}
use xbase.Prelude.Int.{pos}
use xbase.Bytes.{big_endian, put_uint}
use xbase.Bytes.Laws.{length-put_uint}
use xbase.Buffer.Writer.{Write, ◌>>◌, write_uint8s, write_uint16s}
use xbase.Buffer.Writer.Appends.{Appends, >>-Appends}
use xbase.Buffer.Reader.{read_from, seek, seek_start, ◌>>=◌, read_int64s}
use xbase.Buffer.Reader.Reads.{Reads, map-Reads, read_int64s-Reads}
use xbase.Protocol.{Route}
use xbase.Protocol.Frames.{frame, length-frame, write_uint16-Appends}
use xbase.Protocol.Decoding.{
  byte-Appends, then_uint64, then_uint8, then_uint16, read_from-seq, slice_from-body,
  slice_from-drop,
}
use xbase.Protocol.Targets.Decode.{target_fields, with_tail}

abbrev pub words : List ℕ → List ℕ
words = flat_map (put_uint big_endian 8)

length-words : (targets : List ℕ) → length (words targets) ≡ 8 * length targets
length-words = length-flat_map (put_uint big_endian 8) 8 (length-put_uint big_endian 8)

-- The kind, the count and the targets.
abbrev pub target_bytes : ℕ → List ℕ → List ℕ
target_bytes kind targets = kind ∷ (put_uint big_endian 2 (length targets) ++ words targets)

pub length-target_bytes :
    (kind : ℕ) (targets : List ℕ) → length (target_bytes kind targets) ≡ 3 + 8 * length targets
length-target_bytes kind targets = omega (
  arith,
  length-append (put_uint big_endian 2 (length targets)) (words targets),
  length-put_uint big_endian 2 (length targets),
  length-words targets,
)

abbrev pub write_targets : ℕ → List ℕ → Write → Write
write_targets kind targets m =
    ◌>>◌ (write_uint8s (kind % 2 ^ 8 ∷ []))
      (◌>>◌ (write_uint16s big_endian (length targets % 2 ^ 16 ∷ [])) m)

count-Appends :
    (n : ℕ)
    → n < 2 ^ 16
    → Appends (write_uint16s big_endian (n % 2 ^ 16 ∷ [])) (put_uint big_endian 2 n)
count-Appends n h =
    subst (λ k. Appends (write_uint16s big_endian (n % 2 ^ 16 ∷ [])) (put_uint big_endian 2 k))
      (mod-eq_of_lt h) (write_uint16-Appends big_endian (n % 2 ^ 16))

pub targets-Appends :
    (kind : ℕ) (targets : List ℕ) (m : Write) (bs : List ℕ)
    → kind < 2 ^ 8
    → length targets < 2 ^ 16
    → Appends m (words targets ++ bs)
    → Appends (write_targets kind targets m) (target_bytes kind targets ++ bs)
targets-Appends kind targets m bs hk hn p =
    let n = put_uint big_endian 2 (length targets) in
    subst (λ l. Appends (write_targets kind targets m) (kind ∷ l))
      (sym (append_assoc n (words targets) bs))
      (>>-Appends _ _ (kind ∷ []) (n ++ (words targets ++ bs)) (byte-Appends kind hk)
        (>>-Appends _ m n (words targets ++ bs) (count-Appends (length targets) hn) p))

target_fields-Reads :
    (seq kind : ℕ) (targets : List ℕ)
    → seq < 2 ^ 64
    → length targets < 2 ^ 16
    → AllBelow (2 ^ 64) targets
    → Reads target_fields
        (put_uint big_endian 8 seq ++ target_bytes kind targets)
        (seq, kind, length targets, targets)
target_fields-Reads seq kind targets h hn ht =
    then_uint64 _ (target_bytes kind targets) (seq, kind, length targets, targets) seq h
      (then_uint8 _ (put_uint big_endian 2 (length targets) ++ words targets)
        (seq, kind, length targets, targets) kind
        (then_uint16 _ (words targets) (seq, kind, length targets, targets) (length targets) hn
          (map-Reads (read_int64s big_endian (length targets))
            (λ ts. (seq, kind, length targets, ts)) (words targets) targets
            (read_int64s-Reads big_endian targets ht))))

-- The decoders of this file, with their place of the tail left to compute.
abbrev pub decode_targets : List ℕ → Outcome (ℕ × ℕ × List ℕ × List ℕ)
decode_targets f =
    bind_outcome (read_from f (seek (pos 6) seek_start >>= (λ _. target_fields))) (with_tail 17 f)

module _ (size : ℕ) (r : Route) (seq kind : ℕ) (targets tail : List ℕ) (h : seq < 2 ^ 64)
    (ht : AllBelow (2 ^ 64) targets) where
  fields_read :
      length targets < 2 ^ 16
      → read_from
          (frame size r seq (target_bytes kind targets ++ tail))
          (seek (pos 6) seek_start >>= (λ _. target_fields))
        ≡ ok (seq, kind, length targets, targets)
  fields_read hn =
      read_from-seq target_fields size r seq (target_bytes kind targets) tail
        (seq, kind, length targets, targets) (target_fields-Reads seq kind targets h hn ht)

  pub decode_targets_exact :
      length targets < 8190
      → decode_targets (frame size r seq (target_bytes kind targets ++ tail))
        ≡ ok (seq, kind, targets, tail)
  decode_targets_exact hn =
      let off : (17 + 8 * length targets) % 2 ^ 16 ≡ 17 + 8 * length targets = omega arith in
      rw (
        fields_read (omega arith),
        off,
        slice_from-body size r seq (target_bytes kind targets) tail (17 + 8 * length targets)
            (omega (arith, length-target_bytes kind targets)),
      )

  -- Any count: the tail is what follows the place that uint16 leaves.
  pub decode_targets_wrapped :
      length targets < 2 ^ 16
      → (got : List ℕ) × (decode_targets (frame size r seq (target_bytes kind targets ++ tail))
          ≡ ok (seq, kind, targets, got))
        × (length got ≡ length tail + 2 ^ 16 * ((17 + 8 * length targets) / 2 ^ 16))
  decode_targets_wrapped hn =
      let f = frame size r seq (target_bytes kind targets ++ tail) in
      let off = (17 + 8 * length targets) % 2 ^ 16 in
      let l : length f ≡ 17 + 8 * length targets + length tail = omega (
        arith,
        length-frame size r seq (target_bytes kind targets ++ tail),
        length-append (target_bytes kind targets) tail,
        length-target_bytes kind targets,
      ) in
      (
        drop off f,
        rw (fields_read hn, slice_from-drop f off (omega (arith, l))),
        omega (arith, l, length-drop off f),
      )
