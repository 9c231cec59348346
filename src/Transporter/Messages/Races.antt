-- ===== src/Transporter/Messages/Races.antt =====
-- The orders in which a caller that gives up and the writing goroutine reach one pooled message, in
-- conn.go and client.go of internal/transporter/internal/client.
use xbase.Prelude.{
  ℕ, ◌+◌, ◌≡◌, ◌≢◌, refl, ap, ◌∙◌, Bool, true, false, Option, none, some, List, ◌∷◌, arith, ◌==◌,
  if◌then◌else◌, Outcome, ok,
}
use xbase.Dict.{lookup, insert, delete, lookup-insert, lookup-delete}
use xbase.Transporter.Messages.{
  state_pending, state_sent, state_canceled, Message, Shared, put_message, compare_and_swap,
  take_out, prepare, release, store_message, transmit, write_marked, same_state, do_write,
  delete_message, delete_unless,
}
use xbase.Transporter.Messages.Cancelling.{Waits, marked, do_write-ends}

-- doWrite as a function of what stands at the address.
abbrev write_as : (ℕ → List ℕ → ℕ × Bool) → Shared → ℕ → Message → Outcome (Bool × Shared)
write_as write s a m =
    if m.seq == 0
    then transmit write s a
    else write_marked write a (
        if same_state m.state state_pending
        then (true, put_message s a (record m { state = state_sent }))
        else (false, s))

module _ (write : ℕ → List ℕ → ℕ × Bool) (s : Shared) (a seq call : ℕ) (nodes : List (List ℕ))
    (waits : Waits s a seq call nodes) where
  abbrev canceled : Message
  canceled = record { seq = seq; buf = some nodes; call = call; state = state_canceled }

  delete_message-run : delete_message s a ≡ put_message s a canceled
  unfolding delete_message compare_and_swap
  delete_message-run =
      ap
        (λ (m : Message). delete_unless a (
          if same_state m.state state_pending
          then (true, put_message s a (record m { state = state_canceled }))
          else (false, s)))
        waits.is

  -- A caller that gives up while its message waits: doWrite then writes nothing, stores no call, and
  -- releases the message once.
  pub delete_message-do_write :
      (s' : Shared) × (do_write write (delete_message s a) a ≡ ok (true, s'))
      × (s'.calls ≡ s.calls)
      × (s'.wire ≡ s.wire)
      × (s'.released ≡ s.released + 1)
      × (s'.pool ≡ a ∷ s.pool)
  unfolding do_write compare_and_swap release
  delete_message-do_write =
      let s₁ = put_message s a canceled in
      let mine : s₁.heap a ≡ canceled = ground arith in
      (
        release s₁ a,
        ap (λ s. do_write write s a) delete_message-run
            ∙ ap (write_as write s₁ a) mine
            ∙ numbered waits.numbered,
        refl,
        refl,
        ground arith,
        refl,
      )
    where
      numbered :
          seq ≢ 0
          → (if seq == 0
              then transmit write (put_message s a canceled) a
              else ok (true, release (put_message s a canceled) a))
            ≡ ok (true, release (put_message s a canceled) a)
      numbered n = ground arith

  -- A caller that gives up after doWrite is through: the message has no number any more, so the entry of
  -- the call stays where the write was good.
  pub do_write-delete_message :
      (good : Bool) × (s' : Shared) × (do_write write s a ≡ ok (good, s'))
      × (lookup seq (delete_message s' a).calls ≡ (if good then some call else none))
  unfolding delete_message compare_and_swap
  do_write-delete_message =
      let (good, s', run, (found, others, once, back, gone)) =
        do_write-ends write s a seq call nodes waits in
      (
        good,
        s',
        run,
        ap
              (λ (m : Message).
                lookup seq
                  (delete_unless a (
                    if same_state m.state state_pending
                    then (true, put_message s' a (record m { state = state_canceled }))
                    else (false, s'))).calls)
              gone
            ∙ ap (λ (m : Message). lookup seq (delete m.seq s'.calls)) gone
            ∙ lookup-delete 0 seq s'.calls
            ∙ other waits.numbered (lookup seq s'.calls)
            ∙ found,
      )
    where
      other : seq ≢ 0 → (o : Option ℕ) → (if 0 == seq then none else o) ≡ o
      other n o = ground arith

  -- A caller that gives up after doWrite has marked the message, and before it stores the call: the entry
  -- of the call is stored, and nobody waits for it.
  pub delete_message-store :
      (s' : Shared) × (compare_and_swap s a state_pending state_sent ≡ (true, s'))
      × (lookup seq (store_message (delete_message s' a) a).calls ≡ some call)
  unfolding delete_message compare_and_swap store_message
  delete_message-store =
      let sent_message : Message = record {
        seq = seq;
        buf = some nodes;
        call = call;
        state = state_sent;
      } in
      let s' = put_message s a sent_message in
      let mine : s'.heap a ≡ sent_message = ground arith in
      (
        s',
        marked write s a seq call nodes waits,
        ap
              (λ (m : Message).
                lookup seq
                  (store_message
                    (delete_unless a (
                      if same_state m.state state_pending
                      then (true, put_message s' a (record m { state = state_canceled }))
                      else (false, s')))
                    a).calls)
              mine
            ∙ ap (λ (m : Message). lookup seq (insert m.seq m.call (delete m.seq s'.calls))) mine
            ∙ ground (arith, lookup-insert seq seq call (delete seq s.calls)),
      )

module _ (s : Shared) (a seq' : ℕ) (nodes' : List (List ℕ)) (numbered : seq' ≢ 0) where
  prepare-Waits : Waits (prepare s a seq' nodes') a seq' s.next_call nodes'
  unfolding prepare
  prepare-Waits = record { numbered = numbered; is = ground arith }

  prepare-pool : (pool : List ℕ) → s.pool ≡ a ∷ pool → (prepare s a seq' nodes').pool ≡ pool
  unfolding prepare take_out
  prepare-pool pool e = ap (take_out a) e ∙ ground arith

  prepare-same :
      ((prepare s a seq' nodes').calls ≡ s.calls) × ((prepare s a seq' nodes').wire ≡ s.wire)
  unfolding prepare
  prepare-same = (refl, refl)

-- A message that waits is written, which puts its object back in the pool; another call, with a number
-- that is not 0, takes the object out of the pool, and its message waits there. Where the caller of the
-- first message gives up only then, at the address that it still holds, the message of the other call
-- is not written and its call is not stored, though its write is good and its object is released.
pub delete_message-reused :
    (write : ℕ → List ℕ → ℕ × Bool) (s : Shared) (a seq call : ℕ) (nodes : List (List ℕ)) (seq' : ℕ)
    (nodes' : List (List ℕ))
    → Waits s a seq call nodes
    → seq' ≢ 0
    → (good : Bool) × (s₁ : Shared) × (do_write write s a ≡ ok (good, s₁))
      × (s₁.pool ≡ a ∷ s.pool)
      × ((prepare s₁ a seq' nodes').pool ≡ s.pool)
      × Waits (prepare s₁ a seq' nodes') a seq' s₁.next_call nodes'
      × ((s₂ : Shared) × (do_write write (delete_message (prepare s₁ a seq' nodes') a) a
            ≡ ok (true, s₂))
          × (s₂.calls ≡ s₁.calls)
          × (s₂.wire ≡ s₁.wire)
          × (s₂.pool ≡ a ∷ s.pool))
delete_message-reused write s a seq call nodes seq' nodes' waits numbered =
    let (good, s₁, run, (_, _, _, back, _)) = do_write-ends write s a seq call nodes waits in
    let again = prepare-Waits s₁ a seq' nodes' numbered in
    let taken = prepare-pool s₁ a seq' nodes' numbered s.pool back in
    let same = prepare-same s₁ a seq' nodes' numbered in
    let (s₂, run', calls, wire, _, back') =
      delete_message-do_write write (prepare s₁ a seq' nodes') a seq' s₁.next_call nodes' again in
    (
      good,
      s₁,
      run,
      back,
      taken,
      again,
      (s₂, run', calls ∙ same.0, wire ∙ same.1, back' ∙ ap (λ pool. a ∷ pool) taken),
    )
