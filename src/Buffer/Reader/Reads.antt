-- ===== src/Buffer/Reader/Reads.antt =====
-- The reader against the bytes that are left: each method takes its bytes off their front.
use xbase.Prelude.{
  ℕ, suc, ◌+◌, ◌*◌, ◌^◌, ◌≤◌, ◌<◌, ◌≡◌, refl, sym, ap, subst, ◌∙◌, Bool, true, false, List, [], ◌∷◌,
  ◌++◌, ok, leb, ◌==◌, arith, length, drop, length-append, length-drop, append_assoc, append-nil,
  flat_map, length-flat_map, AllBelow,
}
use xbase.Prelude.Int.{pos, negsuc, ◌+ℤ◌}
use xbase.Bytes.{ByteOrder, put_uint, get_uint}
use xbase.Bytes.Laws.{length-put_uint, get_uint-put_uint}
use xbase.Buffer.Slices.{take-append, drop-append, drop-add}
use xbase.Buffer.Writer.{bool_byte}
use xbase.Buffer.Reader.{
  Reader, Read, ◌>>=◌, ◌>>◌, return, new_reader, read_from, seek, seek_start, seek_end, slices,
  slice, read_bool, read_uint8, read_uint16, read_uint32, read_uint64, read_int64, words_of,
  read_int64s, read_string, head_or_zero,
}

-- The bytes that are left for a reader.
pub record At (r : Reader) (s : List ℕ) : Type 0 where
  pub within : r.off ≤ length r.buf
  pub rest : drop r.off r.buf ≡ s

-- Where `bs` comes next, `m` succeeds with `a` and leaves what follows `bs`.
abbrev pub Reads : {A : Type 0} → Read A → List ℕ → A → Type 0
Reads {A} m bs a =
    (r : Reader) (s : List ℕ) → At r (bs ++ s) → (r' : Reader) × (m r ≡ ok (a, r')) × At r' s

slices_room : (r : Reader) (bs s : List ℕ) → At r (bs ++ s) → r.off + length bs ≤ length r.buf
slices_room r bs s h =
    omega (arith, length-drop r.off r.buf, ap length h.rest, length-append bs s, h.within)

pub slices-Reads : (b n : ℕ) (bs : List ℕ) → length bs ≡ b * n → Reads (slices b n) bs bs
unfolding slices
slices-Reads b n bs e r s h =
    let room = slices_room r bs s h in
    let low : leb (suc (length r.buf)) (r.off + b * n) ≡ false = ground arith in
    (
      record r { off = r.off + b * n },
      rw (low, h.rest, take-append (b * n) bs s e),
      record {
        within = omega (arith, room);
        rest =
            drop-add r.buf r.off (b * n) (r.off + b * n) refl
            ∙ ap (drop (b * n)) h.rest
            ∙ drop-append (b * n) bs s e;
      },
    )

pub slice-Reads : (b : ℕ) (bs : List ℕ) → length bs ≡ b → Reads (slice b) bs bs
unfolding slice
slice-Reads b bs e = slices-Reads b 1 bs (omega arith)

pub bind-Reads :
    {A B : Type 0} (m : Read A) (k : A → Read B) (xs ys : List ℕ) (a : A) (b : B)
    → Reads m xs a
    → Reads (k a) ys b
    → Reads (m >>= k) (xs ++ ys) b
bind-Reads m k xs ys a b p q r s h =
    let (r₁, e₁, h₁) =
      p r (ys ++ s) (record { within = h.within; rest = h.rest ∙ append_assoc xs ys s }) in
    let (r₂, e₂, h₂) = q r₁ s h₁ in (r₂, rw (e₁, ◌>>=◌) e₂, h₂)

pub map-Reads :
    {A B : Type 0} (m : Read A) (f : A → B) (xs : List ℕ) (a : A)
    → Reads m xs a
    → Reads (m >>= (λ x. return (f x))) xs (f a)
map-Reads m f xs a p r s h = let (r₁, e₁, h₁) = p r s h in (r₁, rw (e₁, ◌>>=◌), h₁)

pub read_uint8-Reads : (v : ℕ) → Reads read_uint8 (v ∷ []) v
unfolding read_uint8
read_uint8-Reads v =
    map-Reads (slice 1) head_or_zero (v ∷ []) (v ∷ []) (slice-Reads 1 (v ∷ []) refl)

pub read_bool-Reads : (v : Bool) → Reads read_bool (bool_byte v ∷ []) v
unfolding read_bool
read_bool-Reads true =
    map-Reads (slice 1) (λ l. head_or_zero l == 1) (1 ∷ []) (1 ∷ []) (slice-Reads 1 (1 ∷ []) refl)
read_bool-Reads false =
    map-Reads (slice 1) (λ l. head_or_zero l == 1) (0 ∷ []) (0 ∷ []) (slice-Reads 1 (0 ∷ []) refl)

word-Reads :
    (o : ByteOrder) (k v : ℕ)
    → v < 256 ^ k
    → Reads (slice k >>= (λ buf. return (get_uint o buf))) (put_uint o k v) v
word-Reads o k v h =
    subst (Reads (slice k >>= (λ buf. return (get_uint o buf))) (put_uint o k v))
      (get_uint-put_uint o k v h)
      (map-Reads (slice k) (get_uint o) (put_uint o k v) (put_uint o k v)
        (slice-Reads k (put_uint o k v) (length-put_uint o k v)))

pub read_uint16-Reads :
    (o : ByteOrder) (v : ℕ) → v < 2 ^ 16 → Reads (read_uint16 o) (put_uint o 2 v) v
unfolding read_uint16
read_uint16-Reads o v h = word-Reads o 2 v h

pub read_uint32-Reads :
    (o : ByteOrder) (v : ℕ) → v < 2 ^ 32 → Reads (read_uint32 o) (put_uint o 4 v) v
unfolding read_uint32
read_uint32-Reads o v h = word-Reads o 4 v h

pub read_uint64-Reads :
    (o : ByteOrder) (v : ℕ) → v < 2 ^ 64 → Reads (read_uint64 o) (put_uint o 8 v) v
unfolding read_uint64
read_uint64-Reads o v h = word-Reads o 8 v h

pub read_int64-Reads :
    (o : ByteOrder) (v : ℕ) → v < 2 ^ 64 → Reads (read_int64 o) (put_uint o 8 v) v
unfolding read_int64
read_int64-Reads o v h = word-Reads o 8 v h

pub words_of-put_uint :
    (o : ByteOrder) (b : ℕ) (vs : List ℕ)
    → AllBelow (256 ^ b) vs
    → words_of o b (length vs) (flat_map (put_uint o b) vs) ≡ vs
unfolding words_of
words_of-put_uint o b [] h = refl
words_of-put_uint o b (v ∷ vs) h =
    rw
      (
        take-append b (put_uint o b v) (flat_map (put_uint o b) vs) (length-put_uint o b v),
        drop-append b (put_uint o b v) (flat_map (put_uint o b) vs) (length-put_uint o b v),
        get_uint-put_uint o b v h.0,
      )
      (ap (◌∷◌ v) (words_of-put_uint o b vs h.1))

pub read_int64s-Reads :
    (o : ByteOrder) (vs : List ℕ)
    → AllBelow (2 ^ 64) vs
    → Reads (read_int64s o (length vs)) (flat_map (put_uint o 8) vs) vs
unfolding read_int64s
read_int64s-Reads o [] h r s at = (r, refl, at)
read_int64s-Reads o (v ∷ vs) h r s at =
    let n = suc (length vs) in
    let bs = flat_map (put_uint o 8) (v ∷ vs) in
    subst (Reads (slices 8 n >>= (λ buf. return (words_of o 8 n buf))) bs)
      (words_of-put_uint o 8 (v ∷ vs) h)
      (map-Reads (slices 8 n) (words_of o 8 n) bs bs
        (slices-Reads 8 n bs (length-flat_map (put_uint o 8) 8 (length-put_uint o 8) (v ∷ vs))))
      r s at

pub read_string-Reads : (str : List ℕ) → Reads (read_string (length str)) str str
unfolding read_string
read_string-Reads str = slice-Reads (length str) str refl

seek_forward : (n : ℕ) → pos 0 +ℤ pos n ≡ pos n
unfolding ◌+ℤ◌
seek_forward n = ground arith

seek_back : (m n k : ℕ) → m ≡ k + suc n → pos m +ℤ negsuc n ≡ pos k
unfolding ◌+ℤ◌
seek_back m n k e = ground arith

-- A read that starts at an index, behind a prefix of that length.
pub read_from-seek_start :
    {A : Type 0} (m : Read A) (n : ℕ) (p bs s : List ℕ) (a : A)
    → length p ≡ n
    → Reads m bs a
    → read_from (p ++ (bs ++ s)) (seek (pos n) seek_start >> m) ≡ ok a
unfolding seek new_reader
read_from-seek_start m n p bs s a e q =
    let (r', e', h') =
      q (record { buf = p ++ (bs ++ s); off = n }) s
        (record {
          within = omega (arith, length-append p (bs ++ s));
          rest = drop-append n p (bs ++ s) e;
        }) in
    rw (seek_forward n, e')

-- A read of the last bytes.
pub read_from-seek_end :
    {A : Type 0} (m : Read A) (n : ℕ) (p bs : List ℕ) (a : A)
    → length bs ≡ suc n
    → Reads m bs a
    → read_from (p ++ bs) (seek (negsuc n) seek_end >> m) ≡ ok a
unfolding seek new_reader
read_from-seek_end m n p bs a e q =
    let (r', e', h') =
      q (record { buf = p ++ bs; off = length p }) []
        (record {
          within = omega (arith, length-append p bs);
          rest = drop-append (length p) p bs refl ∙ sym (append-nil bs);
        }) in
    rw (seek_back (length (p ++ bs)) n (length p) (omega (arith, length-append p bs)), e')
