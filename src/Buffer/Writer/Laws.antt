-- ===== src/Buffer/Writer/Laws.antt =====
-- What one write does to a writer in good order.
use xbase.Prelude.{
  ℕ, ◌+◌, ◌*◌, ◌-◌, ◌≤◌, max, ◌≡◌, refl, sym, ap, ◌∙◌, List, [], ◌∷◌, ◌++◌, ok, ltb, le→leb, arith,
  length, take, replicate, length-take, length-append, length-replicate, append-nil, append_assoc,
  flat_map, take_all, Bool-cases, inl, inr,
}
use xbase.Bytes.{ByteOrder, put_uint}
use xbase.Bytes.Laws.{length-put_uint}
use xbase.Buffer.Slices.{overwrite, length-overwrite, take-overwrite}
use xbase.Buffer.Writer.{
  Writer, Write, bytes, grow_slice, grow, put_byte, put_word, for_each, copy_bytes,
}

-- The slice is as long as its array, and what is written lies in it.
pub record IsValid (w : Writer) : Type 0 where
  pub full : w.len ≡ length w.arr
  pub within : w.off ≤ length w.arr

-- `m` appends `bs`, if there is room for `n` bytes, and leaves the rest of the room.
pub record Put (w : Writer) (bs : List ℕ) (w' : Writer) : Type 0 where
  pub valid : IsValid w'
  pub size : length w'.arr ≡ length w.arr
  pub moved : w'.off ≡ w.off + length bs
  pub appended : bytes w' ≡ bytes w ++ bs

abbrev pub Puts : Write → List ℕ → Type 0
Puts m bs =
    (w : Writer)
    → IsValid w
    → w.off + length bs ≤ length w.arr
    → (w' : Writer) × (m w ≡ ok w') × Put w bs w'

overwritten :
    (w : Writer) (bs : List ℕ)
    → IsValid w
    → (j : ℕ) → j ≡ w.off + length bs
    → j ≤ length w.arr
    → Put w bs (record w { arr = overwrite w.arr w.off bs; off = j })
unfolding bytes
overwritten w bs v j e h = record {
  valid = record {
    full = v.full ∙ sym (length-overwrite w.arr w.off bs);
    within = omega (arith, length-overwrite w.arr w.off bs);
  };
  size = length-overwrite w.arr w.off bs;
  moved = e;
  appended = take-overwrite w.arr w.off bs j e h;
}

pub put_byte-Puts : (v : ℕ) → Puts (put_byte v) (v ∷ [])
unfolding put_byte
put_byte-Puts x w v h = (_, ground arith, overwritten w (x ∷ []) v (w.off + 1) (omega arith) h)

pub put_word-Puts : (o : ByteOrder) (k v : ℕ) → Puts (put_word o k v) (put_uint o k v)
unfolding put_word
put_word-Puts o k x w v h = (
  _,
  ground (arith, length-put_uint o k x),
  overwritten w (put_uint o k x) v (w.off + k) (omega (arith, length-put_uint o k x))
      (omega (arith, length-put_uint o k x)),
)

-- A loop of puts appends what its rounds append.
pub for_each-Puts {ℓ} :
    {A : Type ℓ} (put : A → Write) (f : A → List ℕ)
    → ((a : A) → Puts (put a) (f a))
    → (vs : List A) → Puts (for_each put vs) (flat_map f vs)
unfolding for_each bytes
for_each-Puts put f p [] w v h = (
  w,
  refl,
  record { valid = v; size = refl; moved = omega arith; appended = sym (append-nil (bytes w)) },
)
for_each-Puts {A} put f p (a ∷ vs) w v h =
    let room = length-append (f a) (flat_map f vs) in
    let (w₁, e₁, p₁) = p a w v (omega (arith, room)) in
    let (w₂, e₂, p₂) =
      for_each-Puts put f p vs w₁ p₁.valid (omega (arith, room, p₁.moved, p₁.size)) in
    (
      w₂,
      rw (e₁, for_each) e₂,
      record {
        valid = p₂.valid;
        size = p₂.size ∙ p₁.size;
        moved = omega (arith, room, p₁.moved, p₂.moved);
        appended =
            p₂.appended
            ∙ ap (λ l. l ++ flat_map f vs) p₁.appended
            ∙ append_assoc (bytes w) (f a) (flat_map f vs);
      },
    )

pub copy_bytes-Puts : (vs : List ℕ) → Puts (copy_bytes vs) vs
unfolding copy_bytes
copy_bytes-Puts vs w v h = (
  _,
  ground (arith, take_all (w.len - w.off) vs),
  overwritten w vs v (w.off + length vs) (omega arith) h,
)

-- A new array keeps what was written.
regrown :
    (c : ℕ) (w : Writer)
    → w.off ≤ length w.arr
    → w.off ≤ c
    → (length (overwrite (replicate c 0) 0 (take w.off w.arr)) ≡ c)
      × (take w.off (overwrite (replicate c 0) 0 (take w.off w.arr)) ≡ take w.off w.arr)
regrown c w h k = (
  length-overwrite (replicate c 0) 0 (take w.off w.arr) ∙ length-replicate {A = ℕ} c 0,
  take-overwrite (replicate c 0) 0 (take w.off w.arr) w.off (omega (arith, length-take w.off w.arr))
      (omega (arith, length-replicate {A = ℕ} c 0)),
)

-- Growing makes the room that is asked for, and changes nothing that was written.
pub grow_room :
    (n : ℕ) (w : Writer)
    → IsValid w
    → (w' : Writer) × (grow n w ≡ ok w')
      × IsValid w'
      × (w'.off ≡ w.off)
      × (w.off + n ≤ length w'.arr)
      × (bytes w' ≡ bytes w)
unfolding grow grow_slice bytes
grow_room n w v = elim (Bool-cases (ltb (w.off + n) (length w.arr))) [
  | inl t ↦ (w, rw t, v, refl, ground arith, refl)
  | inr t ↦
      let c = max (w.len + n) (2 * length w.arr) in
      let (s, b) = regrown c w v.within (omega arith) in
      (
        _,
        rw (t, le→leb w.off (length w.arr) v.within),
        record { full = sym s; within = omega (arith, s) },
        refl,
        omega (arith, s),
        b,
      )
]
