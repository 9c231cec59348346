-- ===== src/Buffer/Writer/Appends.antt =====
-- Each method of the writer as an append: the writer refines the sequence of the bytes written.
use xbase.Prelude.{
  ℕ, ◌*◌, ◌≡◌, refl, ap, subst, ◌∙◌, Bool, List, [], ◌∷◌, ◌++◌, ok, arith, length, append_assoc,
  flat_map, length-flat_map, flat_map-single,
}
use xbase.Bytes.{ByteOrder, put_uint}
use xbase.Bytes.Laws.{length-put_uint}
use xbase.Buffer.Writer.{
  Writer, Write, bytes, grow, put_byte, put_word, for_each, copy_bytes, ◌>>◌, bool_byte,
  write_bools, write_uint8s, write_uint16s, write_uint32s, write_int32s, write_uint64s,
  write_int64s, write_bytes, write_string,
}
use xbase.Buffer.Writer.Laws.{
  IsValid, Puts, put_byte-Puts, put_word-Puts, for_each-Puts, copy_bytes-Puts, grow_room,
}

-- From any writer in good order, `m` does not panic, keeps the order and appends `bs`.
abbrev pub Appends : Write → List ℕ → Type 0
Appends m bs =
    (w : Writer)
    → IsValid w
    → (w' : Writer) × (m w ≡ ok w') × IsValid w' × (bytes w' ≡ bytes w ++ bs)

pub >>-Appends :
    (m k : Write) (xs ys : List ℕ) → Appends m xs → Appends k ys → Appends (m >> k) (xs ++ ys)
>>-Appends m k xs ys p q w v =
    let (w₁, e₁, v₁, b₁) = p w v in
    let (w₂, e₂, v₂, b₂) = q w₁ v₁ in
    (w₂, rw (e₁, ◌>>◌) e₂, v₂, b₂ ∙ ap (λ l. l ++ ys) b₁ ∙ append_assoc (bytes w) xs ys)

grown-Appends :
    (n : ℕ) (m : Write) (bs : List ℕ) → length bs ≡ n → Puts m bs → Appends (grow n >> m) bs
grown-Appends n m bs e p w v =
    let (w₁, e₁, v₁, o₁, r₁, b₁) = grow_room n w v in
    let (w₂, e₂, p₂) = p w₁ v₁ (omega (arith, o₁)) in
    (w₂, rw (e₁, ◌>>◌) e₂, p₂.valid, p₂.appended ∙ ap (λ l. l ++ bs) b₁)

words-Appends :
    (o : ByteOrder) (k : ℕ) (vs : List ℕ)
    → Appends (grow (k * length vs) >> for_each (put_word o k) vs) (flat_map (put_uint o k) vs)
words-Appends o k vs =
    grown-Appends (k * length vs) (for_each (put_word o k) vs) (flat_map (put_uint o k) vs)
      (length-flat_map (put_uint o k) k (length-put_uint o k) vs)
      (for_each-Puts (put_word o k) (put_uint o k) (put_word-Puts o k) vs)

pub write_uint16s-Appends :
    (o : ByteOrder) (vs : List ℕ) → Appends (write_uint16s o vs) (flat_map (put_uint o 2) vs)
unfolding write_uint16s
write_uint16s-Appends o vs = words-Appends o 2 vs

pub write_uint32s-Appends :
    (o : ByteOrder) (vs : List ℕ) → Appends (write_uint32s o vs) (flat_map (put_uint o 4) vs)
unfolding write_uint32s
write_uint32s-Appends o vs = words-Appends o 4 vs

pub write_int32s-Appends :
    (o : ByteOrder) (vs : List ℕ) → Appends (write_int32s o vs) (flat_map (put_uint o 4) vs)
unfolding write_int32s
write_int32s-Appends o vs = words-Appends o 4 vs

pub write_uint64s-Appends :
    (o : ByteOrder) (vs : List ℕ) → Appends (write_uint64s o vs) (flat_map (put_uint o 8) vs)
unfolding write_uint64s
write_uint64s-Appends o vs = words-Appends o 8 vs

pub write_int64s-Appends :
    (o : ByteOrder) (vs : List ℕ) → Appends (write_int64s o vs) (flat_map (put_uint o 8) vs)
unfolding write_int64s
write_int64s-Appends o vs = words-Appends o 8 vs

pub write_uint8s-Appends : (vs : List ℕ) → Appends (write_uint8s vs) vs
unfolding write_uint8s
write_uint8s-Appends vs =
    subst (λ l. Appends (grow (length vs) >> for_each put_byte vs) l) (flat_map-single vs)
      (grown-Appends (length vs) (for_each put_byte vs) (flat_map (λ v. v ∷ []) vs)
        (ap length (flat_map-single vs)) (for_each-Puts put_byte (λ v. v ∷ []) put_byte-Puts vs))

pub write_bools-Appends :
    (vs : List Bool) → Appends (write_bools vs) (flat_map (λ v. bool_byte v ∷ []) vs)
unfolding write_bools
write_bools-Appends vs =
    let put : Bool → Write = λ v. put_byte (bool_byte v) in
    let one : Bool → List ℕ = λ v. bool_byte v ∷ [] in
    grown-Appends (length vs) (for_each put vs) (flat_map one vs)
      (omega (arith, length-flat_map one 1 (λ v. refl) vs))
      (for_each-Puts put one (λ v. put_byte-Puts (bool_byte v)) vs)

pub write_bytes-Appends : (vs : List ℕ) → Appends (write_bytes vs) vs
unfolding write_bytes
write_bytes-Appends vs = grown-Appends (length vs) (copy_bytes vs) vs refl (copy_bytes-Puts vs)

pub write_string-Appends : (str : List ℕ) → Appends (write_string str) str
unfolding write_string
write_string-Appends str = write_bytes-Appends str
