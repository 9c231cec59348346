-- ===== src/Packet/Fields.antt =====
-- The bytes of a packed message, and its fields in them.
use xbase.Prelude.{
  ℕ, zero, suc, ◌+◌, ◌^◌, ◌<◌, ◌≡◌, refl, sym, ap, ◌∙◌, List, [], ◌∷◌, ◌++◌, arith, length, take,
  drop, replicate, length-append, append_assoc,
}
use xbase.Bytes.{put_uint, get_uint}
use xbase.Bytes.Laws.{length-put_uint, get_uint-put_uint}
use xbase.Buffer.Slices.{overwrite, take-append, drop-append, drop-add}
use xbase.Packet.{Options, Message, fill, data_bit, word_at}

-- A word of four bytes in the packer's order.
abbrev pub word : Options → ℕ → List ℕ
word o v = put_uint o.byte_order 4 v

length-word : (o : Options) (v : ℕ) → length (word o v) ≡ 4
length-word o v = length-put_uint o.byte_order 4 v

-- The header of five words, and what follows it.
abbrev pub packed : Options → Message → ℕ → List ℕ → List ℕ
packed o m total rest =
    word o total
    ++ (word o data_bit ++ (word o m.game_id ++ (word o m.message_id ++ (word o m.seq ++ rest))))

pub length-packed :
    (o : Options) (m : Message) (total : ℕ) (rest : List ℕ)
    → length (packed o m total rest) ≡ 20 + length rest
length-packed o m total rest =
    let l₅ = length-append (word o m.seq) rest in
    let l₄ = length-append (word o m.message_id) (word o m.seq ++ rest) in
    let l₃ = length-append (word o m.game_id) (word o m.message_id ++ (word o m.seq ++ rest)) in
    let l₂ =
      length-append (word o data_bit)
        (word o m.game_id ++ (word o m.message_id ++ (word o m.seq ++ rest))) in
    let l₁ =
      length-append (word o total) (
        word o data_bit ++ (word o m.game_id ++ (word o m.message_id ++ (word o m.seq ++ rest)))) in
    omega (
      arith,
      l₁,
      l₂,
      l₃,
      l₄,
      l₅,
      length-word o total,
      length-word o data_bit,
      length-word o m.game_id,
      length-word o m.message_id,
      length-word o m.seq,
    )

-- A write at an index goes behind the bytes before it.
overwrite-append :
    (xs ys : List ℕ) (i : ℕ) (bs : List ℕ)
    → i ≡ length xs
    → overwrite (xs ++ ys) i bs ≡ xs ++ overwrite ys 0 bs
overwrite-append [] ys zero bs e = refl
overwrite-append [] ys (suc i) bs e = absurd (omega arith)
overwrite-append (x ∷ xs) ys zero bs e = absurd (omega arith)
overwrite-append (x ∷ xs) ys (suc i) bs e = ap (◌∷◌ x) (overwrite-append xs ys i bs (omega arith))

-- Writing over zeros leaves the zeros behind.
overwrite-zeros :
    (bs : List ℕ) (n k : ℕ)
    → n ≡ length bs + k
    → overwrite (replicate n 0) 0 bs ≡ bs ++ replicate k 0
overwrite-zeros [] zero zero e = refl
overwrite-zeros [] zero (suc k) e = absurd (omega arith)
overwrite-zeros [] (suc n) zero e = absurd (omega arith)
overwrite-zeros [] (suc n) (suc k) e =
    let e' : n ≡ k = omega arith in ap (λ j. 0 ∷ replicate j 0) e'
overwrite-zeros (b ∷ bs) zero k e = absurd (omega arith)
overwrite-zeros (b ∷ bs) (suc n) k e = ap (◌∷◌ b) (overwrite-zeros bs n k (omega arith))

-- One more word behind what is written, over the zeros.
fill_one :
    (xs bs : List ℕ) (i n k : ℕ)
    → i ≡ length xs
    → n ≡ length bs + k
    → overwrite (xs ++ replicate n 0) i bs ≡ (xs ++ bs) ++ replicate k 0
fill_one xs bs i n k e h =
    overwrite-append xs (replicate n 0) i bs e
    ∙ ap (◌++◌ xs) (overwrite-zeros bs n k h)
    ∙ sym (append_assoc xs bs (replicate k 0))

module _ (o : Options) (m : Message) (total : ℕ) where
  pub fill-packed :
      (n : ℕ)
      → n ≡ length m.buffer
      → fill o m total (replicate (4 + (20 + n)) 0) ≡ packed o m total (m.buffer ++ replicate 4 0)
  fill-packed n e =
      let b = m.buffer in
      let a₁ = word o total in
      let a₂ = a₁ ++ word o data_bit in
      let a₃ = a₂ ++ word o m.game_id in
      let a₄ = a₃ ++ word o m.message_id in
      let a₅ = a₄ ++ word o m.seq in
      let k₁ = length-word o total in
      let k₂ : length a₂ ≡ 8 =
        omega (arith, length-append a₁ (word o data_bit), k₁, length-word o data_bit) in
      let k₃ : length a₃ ≡ 12 =
        omega (arith, length-append a₂ (word o m.game_id), k₂, length-word o m.game_id) in
      let k₄ : length a₄ ≡ 16 =
        omega (arith, length-append a₃ (word o m.message_id), k₃, length-word o m.message_id) in
      let k₅ : length a₅ ≡ 20 =
        omega (arith, length-append a₄ (word o m.seq), k₄, length-word o m.seq) in
      rw
        (
          overwrite-zeros a₁ (4 + (20 + n)) (20 + n) (omega (arith, k₁)),
          fill_one a₁ (word o data_bit) 4 (20 + n) (16 + n) (omega (arith, k₁))
              (omega (arith, length-word o data_bit)),
          fill_one a₂ (word o m.game_id) 8 (16 + n) (12 + n) (omega (arith, k₂))
              (omega (arith, length-word o m.game_id)),
          fill_one a₃ (word o m.message_id) 12 (12 + n) (8 + n) (omega (arith, k₃))
              (omega (arith, length-word o m.message_id)),
          fill_one a₄ (word o m.seq) 16 (8 + n) (4 + n) (omega (arith, k₄))
              (omega (arith, length-word o m.seq)),
          fill_one a₅ b 20 (4 + n) 4 (omega (arith, k₅)) (omega arith),
        )
        (simp append_assoc)

drop-word :
    (o : Options) (v : ℕ) (ys : List ℕ) (j k : ℕ) → k ≡ 4 + j → drop k (word o v ++ ys) ≡ drop j ys
drop-word o v ys j k e =
    drop-add (word o v ++ ys) 4 j k e ∙ ap (drop j) (drop-append 4 (word o v) ys (length-word o v))

first_word :
    (o : Options) (v : ℕ) (ys : List ℕ)
    → v < 2 ^ 32
    → get_uint o.byte_order (take 4 (word o v ++ ys)) ≡ v
first_word o v ys h =
    rw (take-append 4 (word o v) ys (length-word o v)) (get_uint-put_uint o.byte_order 4 v h)

-- The fields stand where UnpackMessage looks for them.
pub record Fields (o : Options) (m : Message) (total : ℕ) (rest : List ℕ) : Type 0 where
  pub size_field : word_at o (packed o m total rest) 0 ≡ total
  pub game_field : word_at o (packed o m total rest) 8 ≡ m.game_id
  pub message_field : word_at o (packed o m total rest) 12 ≡ m.message_id
  pub seq_field : word_at o (packed o m total rest) 16 ≡ m.seq
  pub body_field : drop 20 (packed o m total rest) ≡ rest

pub packed-Fields :
    (o : Options) (m : Message) (total : ℕ) (rest : List ℕ)
    → total < 2 ^ 32
    → m.game_id < 2 ^ 32
    → m.message_id < 2 ^ 32
    → m.seq < 2 ^ 32
    → Fields o m total rest
packed-Fields o m total rest ht hg hm hs =
    let y₅ = word o m.seq ++ rest in
    let y₄ = word o m.message_id ++ y₅ in
    let y₃ = word o m.game_id ++ y₄ in
    let y₂ = word o data_bit ++ y₃ in
    let d₈ : drop 8 (word o total ++ y₂) ≡ y₃ =
      drop-word o total y₂ 4 8 refl ∙ drop-word o data_bit y₃ 0 4 refl in
    let d₁₂ : drop 12 (word o total ++ y₂) ≡ y₄ =
      drop-add (word o total ++ y₂) 8 4 12 refl
      ∙ ap (drop 4) d₈
      ∙ drop-word o m.game_id y₄ 0 4 refl in
    let d₁₆ : drop 16 (word o total ++ y₂) ≡ y₅ =
      drop-add (word o total ++ y₂) 12 4 16 refl
      ∙ ap (drop 4) d₁₂
      ∙ drop-word o m.message_id y₅ 0 4 refl in
    let d₂₀ : drop 20 (word o total ++ y₂) ≡ rest =
      drop-add (word o total ++ y₂) 16 4 20 refl
      ∙ ap (drop 4) d₁₆
      ∙ drop-word o m.seq rest 0 4 refl in
    record {
      size_field = first_word o total y₂ ht;
      game_field = ap (λ l. get_uint o.byte_order (take 4 l)) d₈ ∙ first_word o m.game_id y₄ hg;
      message_field =
          ap (λ l. get_uint o.byte_order (take 4 l)) d₁₂ ∙ first_word o m.message_id y₅ hm;
      seq_field = ap (λ l. get_uint o.byte_order (take 4 l)) d₁₆ ∙ first_word o m.seq rest hs;
      body_field = d₂₀;
    }
