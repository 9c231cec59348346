-- ===== src/Transporter/Connection.antt =====
-- internal/transporter/internal/client/conn.go: the states of a connection, how it is dialled again and
-- closed. The network is two parameters: whether the dial of a number gives a connection, and whether the
-- handshake on it is answered. The connection of a dial has the number of the dial, a context the number
-- of its making; 0 is nil. The delays between dials are left out, and what runs under a lock is one step.
-- retry and close change the state outside of the lock: each is a step that marks the state and one that
-- does the rest, so that other operations can stand between the two.
pub mod Sound
pub mod Waking
pub mod Overlaps
use xbase.Prelude.{ℕ, zero, suc, ◌+◌, Bool, true, false, List, [], ◌∷◌, ◌==◌, if◌then◌else◌}

pub data ConnState : Type 0 where
  conn_opened conn_hanged conn_closed : ConnState

-- `running` has the contexts and the connections that the reading and the writing goroutine were started
-- with; `failures` and `successes` count how often those who wait were woken with either result.
pub record Link : Type 0 where
  pub state : ConnState
  pub conn : ℕ
  pub ctx : ℕ
  pub cancel : ℕ
  pub canceled : List ℕ
  pub closed : List ℕ
  pub running : List (ℕ × ℕ)
  pub failures : ℕ
  pub successes : ℕ
  pub last_fault : ℕ
  pub next_ctx : ℕ
  pub next_dial : ℕ

unfoldable pub new_conn : ℕ → Link
new_conn now = record {
  state = conn_closed;
  conn = 0;
  ctx = 0;
  cancel = 0;
  canceled = [];
  closed = [];
  running = [];
  failures = 0;
  successes = 0;
  last_fault = now;
  next_ctx = 1;
  next_dial = 1;
}

-- `if cancel != nil { cancel() }` and `if conn != nil { _ = conn.Close() }`.
abbrev pub unless_nil : ℕ → List ℕ → List ℕ
unless_nil zero past = past
unless_nil (suc k) past = suc k ∷ past

-- markClosedLocked, signalFailureLocked and signalSuccessLocked.
abbrev pub fault_time : ConnState → ℕ → ℕ → ℕ
fault_time conn_closed last now = last
fault_time _ last now = now

unfoldable pub mark_closed_locked : Link → ℕ → Link
mark_closed_locked l now = record l {
  state = conn_closed;
  last_fault = fault_time l.state l.last_fault now;
  canceled = unless_nil l.cancel l.canceled;
  cancel = 0;
  closed = unless_nil l.conn l.closed;
  conn = 0;
}

abbrev pub signal_failure : Link → Link
signal_failure l = record l { failures = l.failures + 1 }

abbrev pub signal_success : Link → Link
signal_success l = record l { successes = l.successes + 1 }

-- close, without the queue that it drains: that is `drain_queue` of the messages.
abbrev pub is_closed : ConnState → Bool
is_closed conn_closed = true
is_closed _ = false

abbrev pub is_opened : ConnState → Bool
is_opened conn_opened = true
is_opened _ = false

abbrev pub close_mark : Link → Link
close_mark l = record l { state = conn_closed }

-- What close does after its swap of the state, where that was not closed.
abbrev pub close_rest : Link → ℕ → Link
close_rest l now = signal_failure (record l {
  last_fault = now;
  canceled = unless_nil l.cancel l.canceled;
  closed = unless_nil l.conn l.closed;
  conn = 0;
  cancel = 0;
})

unfoldable pub close : Link → ℕ → Link
close l now = if is_closed l.state then l else close_rest (close_mark l) now

abbrev pub max_retry_times : ℕ
max_retry_times = 3

module _ (dialled shaken : ℕ → Bool) where
  -- processLocked on a new connection, with the close of doDialLocked where it fails.
  unfoldable pub process_locked : Link → ℕ → Bool × Link
  process_locked l conn =
      let l₁ = record l {
        conn = conn;
        ctx = l.next_ctx;
        cancel = l.next_ctx;
        state = conn_opened;
        next_ctx = l.next_ctx + 1;
      } in
      if shaken conn then (true, record l₁ { running = (l.next_ctx, conn) ∷ l.running }) else (
        false,
        record l₁ {
          canceled = l.next_ctx ∷ l.canceled;
          closed = conn ∷ l.closed;
          conn = 0;
          state = conn_closed;
        },
      )

  -- doDialLocked, with the tries that are left.
  unfoldable pub do_dial_locked : ℕ → Link → Bool × Link
  unfolding process_locked
  do_dial_locked zero l = (false, l)
  do_dial_locked (suc tries) l =
      let l₁ = record l { next_dial = l.next_dial + 1 } in
      let rest = do_dial_locked tries l₁ in
      if dialled l.next_dial then process_locked l₁ l.next_dial else rest

  abbrev pub signalled : ℕ → Bool × Link → Bool × Link
  signalled now (true, l) = (true, signal_success l)
  signalled now (false, l) = (false, signal_failure (mark_closed_locked l now))

  unfoldable pub dial : Link → ℕ → Bool × Link
  unfolding do_dial_locked mark_closed_locked
  dial l now =
      if is_opened l.state then (true, l) else signalled now (do_dial_locked max_retry_times l)

  -- retry, which a goroutine runs with the connection it was started with: the state, which it
  -- changes where it is open, then the connection and the context, then the dial.
  abbrev pub retry_mark : Link → Link
  retry_mark l = record l { state = conn_hanged }

  abbrev pub retry_drop : Link → ℕ → Link
  retry_drop l conn = record l {
    closed = if l.conn == conn then unless_nil conn l.closed else l.closed;
    canceled = unless_nil l.cancel l.canceled;
  }

  abbrev pub hanged : Link → ℕ → Link
  hanged l conn = retry_drop (retry_mark l) conn

  unfoldable pub retry_rest : Link → ℕ → ℕ → Link
  unfolding dial
  retry_rest l conn now = (dial (retry_drop l conn) now).1

  unfoldable pub retry : Link → ℕ → ℕ → Link
  unfolding retry_rest
  retry l conn now = if is_opened l.state then retry_rest (retry_mark l) conn now else l
