-- ===== src/Transporter/Messages.antt =====
-- internal/transporter/internal/client/message.go, with the parts of client.go and conn.go that hand a
-- message on: the caller and the writing goroutine hold the same pooled object, so the objects stand in a
-- heap by address. Each atomic access is one function, and the handlers are compositions of them.
pub mod Cancelling
pub mod Races
use xbase.Prelude.{
  ℕ, ◌≡◌, refl, Bool, true, false, Option, none, some, List, [], ◌∷◌, ◌++◌, ◌+◌, ◌==◌,
  if◌then◌else◌, Outcome, ok, panic, map_outcome,
}
use xbase.Transporter.Writing.{Wire, visit_nodes}
use xbase.Dict.{lookup, insert, delete}

pub data MessageState : Type 0 where
  state_pending state_sent state_canceled : MessageState

-- `buf` is the list of the nodes, with what they hold; `call` is 0 for the nil channel.
pub record Message : Type 0 where
  pub seq : ℕ
  pub buf : Option (List (List ℕ))
  pub call : ℕ
  pub state : MessageState

-- What the goroutines of a connection share. `calls` has the pending calls as one map; `pool` has
-- the addresses that were put back, `released` counts the buffers that were released, `wire` is what was
-- written to the network, `next_call` the next channel that `make` gives.
pub record Shared : Type 0 where
  pub heap : ℕ → Message
  pub pool : List ℕ
  pub queue : List ℕ
  pub calls : List (ℕ × ℕ)
  pub released : ℕ
  pub wire : Wire
  pub next_call : ℕ

abbrev pub put_message : Shared → ℕ → Message → Shared
put_message s a m = record s { heap = λ b. if a == b then m else s.heap b }

-- `atomic.Int32.CompareAndSwap`.
abbrev pub same_state : MessageState → MessageState → Bool
same_state state_pending state_pending = true
same_state state_sent state_sent = true
same_state state_canceled state_canceled = true
same_state _ _ = false

unfoldable pub compare_and_swap : Shared → ℕ → MessageState → MessageState → Bool × Shared
compare_and_swap s a old next =
    if same_state (s.heap a).state old
    then (true, put_message s a (record (s.heap a) { state = next }))
    else (false, s)

-- `pool.Get` where it gives the object at the address: it is not in the pool any more. An address that
-- is not in the pool is that of a new object.
unfoldable pub take_out : ℕ → List ℕ → List ℕ
take_out a [] = []
take_out a (b ∷ pool) = let rest = take_out a pool in if a == b then pool else b ∷ rest

-- Call takes an object out of the pool and sets its fields; then the send: the fast path of enqueue on an
-- open connection.
unfoldable pub prepare : Shared → ℕ → ℕ → List (List ℕ) → Shared
unfolding take_out
prepare s a seq buf =
    record (put_message s a
      (record { seq = seq; buf = some buf; call = s.next_call; state = state_pending })) {
        next_call = s.next_call + 1;
        pool = take_out a s.pool;
      }

unfoldable pub enqueue : Shared → ℕ → Shared
enqueue s a = record s { queue = s.queue ++ (a ∷ []) }

-- `Client.release`.
abbrev pub release_buf : Option (List (List ℕ)) → ℕ → ℕ
release_buf none released = released
release_buf (some buf) released = released + 1

unfoldable pub release : Shared → ℕ → Shared
release s a = record (put_message s a (record (s.heap a) { seq = 0; buf = none; call = 0 })) {
  released = release_buf (s.heap a).buf s.released;
  pool = a ∷ s.pool;
}

-- The parts of doWrite. `c.pending.store(msg.seq, msg.call)`:
unfoldable pub store_message : Shared → ℕ → Shared
store_message s a = record s { calls = insert (s.heap a).seq (s.heap a).call s.calls }

-- `if !ok && msg.seq != 0 { c.pending.delete(msg.seq) }`
abbrev pub forget : Shared → ℕ → Bool → Shared
forget s seq true = s
forget s seq false = if seq == 0 then s else record s { calls = delete seq s.calls }

module _ (write : ℕ → List ℕ → ℕ × Bool) where
  -- The rest of doWrite: the visit of the nodes (a nil buffer has no method to call), the entry that is
  -- taken back where it fails, and the release. Where the Boolean is false the connection is dialled
  -- again.
  abbrev pub transmit_nodes : Shared → ℕ → Wire × Bool → Bool × Shared
  transmit_nodes s a (w, good) =
      (good, release (forget (record s { wire = w }) (s.heap a).seq good) a)

  abbrev pub transmit_buf : Shared → ℕ → Option (List (List ℕ)) → Outcome (Bool × Shared)
  transmit_buf s a none = panic
  transmit_buf s a (some nodes) = ok (transmit_nodes s a (visit_nodes write s.wire nodes))

  unfoldable pub transmit : Shared → ℕ → Outcome (Bool × Shared)
  unfolding release visit_nodes
  transmit s a = transmit_buf s a (s.heap a).buf

  abbrev pub write_marked : ℕ → Bool × Shared → Outcome (Bool × Shared)
  write_marked a (true, s) = transmit (store_message s a) a
  write_marked a (false, s) = ok (true, release s a)

  unfoldable pub do_write : Shared → ℕ → Outcome (Bool × Shared)
  unfolding compare_and_swap store_message transmit release
  do_write s a =
      if (s.heap a).seq == 0
      then transmit s a
      else write_marked a (compare_and_swap s a state_pending state_sent)

-- `conn.delete`, which Call runs when it gives up.
abbrev pub delete_unless : ℕ → Bool × Shared → Shared
delete_unless a (true, s) = s
delete_unless a (false, s) = record s { calls = delete (s.heap a).seq s.calls }

unfoldable pub delete_message : Shared → ℕ → Shared
unfolding compare_and_swap
delete_message s a = delete_unless a (compare_and_swap s a state_pending state_canceled)

-- drainQueue: the messages that wait in the queue are released.
unfoldable pub release_all : Shared → List ℕ → Shared
unfolding release
release_all s [] = s
release_all s (a ∷ rest) = release_all (release s a) rest

unfoldable pub drain_queue : Shared → Shared
unfolding release_all
drain_queue s = record (release_all s s.queue) { queue = [] }

-- The reading goroutine: the call that a reply is for.
unfoldable pub extract_call : Shared → ℕ → Option ℕ × Shared
extract_call s seq = (lookup seq s.calls, record s { calls = delete seq s.calls })
