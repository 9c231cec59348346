-- ===== src/Transporter/Messages/Cancelling.antt =====
-- What a message that is written, and a call that gives up, leave behind, in conn.go and client.go of
-- internal/transporter/internal/client.
use xbase.Prelude.{
  ℕ, ◌+◌, ◌≡◌, ◌≢◌, inl, inr, refl, sym, ap, subst, ◌∙◌, Bool, true, false, none, some, List, ◌∷◌,
  arith, ◌==◌, if◌then◌else◌, Bool-cases, ok,
}
use xbase.Dict.{lookup, insert, lookup-insert, lookup-delete}
use xbase.Transporter.Writing.{Wire, visit_nodes, joined, Sends, Takes, visit_nodes_lem}
use xbase.Transporter.Messages.{
  state_pending, state_sent, Message, Shared, put_message, compare_and_swap, release, store_message,
  forget, transmit, transmit_nodes, transmit_buf, write_marked, same_state, do_write,
}

-- A message that waits to be written: it has a number, a buffer and a channel.
pub record Waits (s : Shared) (a seq call : ℕ) (nodes : List (List ℕ)) : Type 0 where
  pub numbered : seq ≢ 0
  pub is : s.heap a ≡ record { seq = seq; buf = some nodes; call = call; state = state_pending }

-- The shared state after the message is marked and its call stored.
abbrev pub stored : Shared → ℕ → ℕ → ℕ → List (List ℕ) → Shared
stored s a seq call nodes =
    record (put_message s a
      (record { seq = seq; buf = some nodes; call = call; state = state_sent })) {
        calls = insert seq call s.calls;
      }

module _ (write : ℕ → List ℕ → ℕ × Bool) (s : Shared) (a seq call : ℕ) (nodes : List (List ℕ))
    (waits : Waits s a seq call nodes) where
  abbrev pub sent : Message
  sent = record { seq = seq; buf = some nodes; call = call; state = state_sent }

  pub marked : compare_and_swap s a state_pending state_sent ≡ (true, put_message s a sent)
  unfolding compare_and_swap
  marked =
      ap
        (λ (m : Message).
          if same_state m.state state_pending
          then (true, put_message s a (record m { state = state_sent }))
          else (false, s))
        waits.is

  -- What doWrite does to a message that waits: its call is stored, its nodes are visited, and it is
  -- released.
  do_write-run :
      do_write write s a
      ≡ ok (transmit_nodes write (stored s a seq call nodes) a (visit_nodes write s.wire nodes))
  unfolding do_write transmit store_message
  do_write-run =
      let s₁ = put_message s a sent in
      let mine : s₁.heap a ≡ sent = ground arith in
      ap
        (λ (m : Message).
          if m.seq == 0
          then transmit write s a
          else write_marked write a (compare_and_swap s a state_pending state_sent))
        waits.is
      ∙ ap
          (λ b.
            if b
            then transmit write s a
            else write_marked write a (compare_and_swap s a state_pending state_sent))
          (numbered_seq waits.numbered)
      ∙ ap (write_marked write a) marked
      ∙ ap (λ (m : Message). transmit write (record s₁ { calls = insert m.seq m.call s.calls }) a)
          mine
      ∙ ap (λ (m : Message). transmit_buf write (stored s a seq call nodes) a m.buf) mine
    where
      numbered_seq : seq ≢ 0 → (seq == 0) ≡ false
      numbered_seq n = ground arith

  -- What is left after it: the object is back in the pool, its buffer released, its number and channel
  -- gone; the call waits for its reply where the write was good, and for none where it was not.
  abbrev pub Finished : Bool → Shared → Type 0
  Finished good s' =
      (lookup seq s'.calls ≡ (if good then some call else none))
      × ((k : ℕ) → seq ≢ k → lookup k s'.calls ≡ lookup k s.calls)
      × (s'.released ≡ s.released + 1)
      × (s'.pool ≡ a ∷ s.pool)
      × (s'.heap a ≡ record { seq = 0; buf = none; call = 0; state = state_sent })

  transmit_nodes-Finished :
      (w : Wire) (good : Bool)
      → Finished good (transmit_nodes write (stored s a seq call nodes) a (w, good)).1
  unfolding release
  transmit_nodes-Finished w true = (
    ground (arith, lookup-insert seq seq call s.calls),
    λ k n. ground (arith, lookup-insert seq k call s.calls),
    ground arith,
    refl,
    ground arith,
  )
  transmit_nodes-Finished w false =
      let mine : (stored s a seq call nodes).heap a ≡ sent = ground arith in
      subst
        (λ (m : Message).
          Finished false
            (release (forget (record (stored s a seq call nodes) { wire = w }) m.seq false) a))
        (sym mine)
        (elim (Bool-cases (seq == 0)) [
          | inl e ↦ absurd (waits.numbered (ground (arith, e)))
          | inr e ↦ rw e (
            ground (arith, lookup-delete seq seq (insert seq call s.calls)),
            λ k n. ground (
              arith,
              lookup-delete seq k (insert seq call s.calls),
              lookup-insert seq k call s.calls,
            ),
            ground arith,
            refl,
            ground arith,
          )
        ])

  pub do_write-ends :
      (good : Bool) × (s' : Shared) × (do_write write s a ≡ ok (good, s')) × Finished good s'
  do_write-ends =
      let run = visit_nodes write s.wire nodes in
      (
        run.1,
        (transmit_nodes write (stored s a seq call nodes) a run).1,
        do_write-run,
        transmit_nodes-Finished run.0 run.1,
      )

  -- Where `Write` takes no more than it is given, doWrite on a message that waits: it releases the buffer
  -- once and puts the object back with no number and no channel; a prefix of what the nodes hold is on
  -- the wire, all of it where the write is good; then the call waits under its number, and otherwise no
  -- call does; the calls under other numbers stay.
  pub do_write_lem :
      Takes write
      → (good : Bool) × (s' : Shared) × (do_write write s a ≡ ok (good, s'))
        × Finished good s'
        × Sends write s.wire (joined nodes) (s'.wire, good)
  unfolding release
  do_write_lem takes =
      let run = visit_nodes write s.wire nodes in
      (
        run.1,
        (transmit_nodes write (stored s a seq call nodes) a run).1,
        do_write-run,
        transmit_nodes-Finished run.0 run.1,
        on_wire run (visit_nodes_lem write takes s.wire nodes),
      )
    where
      on_wire :
          (run : Wire × Bool)
          → Sends write s.wire (joined nodes) run
          → Sends write s.wire
              (joined nodes)
              ((transmit_nodes write (stored s a seq call nodes) a run).1.wire, run.1)
      on_wire (w, true) h = h
      on_wire (w, false) h = elim (Bool-cases (((stored s a seq call nodes).heap a).seq == 0)) [
        | inl e ↦ rw e h
        | inr e ↦ rw e h
      ]
