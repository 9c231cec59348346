-- ===== src/Transporter/Tests.antt =====
-- Calls between nodes on concrete values: a message of two blocks at the address 4, with the number 7 and
-- the channel 30.
use xbase.Prelude.{
  ℕ, ◌+◌, ◌%◌, ◌≡◌, ◌≢◌, ◌⊎◌, refl, ap, false, Bool, true, none, some, List, [], ◌∷◌, arith, length,
  get_elem?, ok, panic, if◌then◌else◌, ◌==◌,
}
use xbase.Prelude.Int.{negsuc}
use xbase.Dict.{lookup}
use xbase.Transporter.Pending.{Op, extract_op, store_op, delete_op, new_pending, run, run_one}
use xbase.Transporter.Pending.Refinement.{new_pending-refines}
use xbase.Transporter.Writing.{Wire, Takes, Sends, joined, write_all, Ends, write_all_lem}
use xbase.Transporter.Messages.{state_pending, Message, Shared, do_write, delete_message, prepare}
use xbase.Transporter.Messages.Cancelling.{Waits, Finished, do_write_lem}
use xbase.Transporter.Messages.Races.{
  delete_message-do_write, do_write-delete_message, delete_message-reused,
}
use xbase.Transporter.Loading.{load, Picks, load_lem}
use xbase.Transporter.Connection.{Link, conn_opened, new_conn, is_closed, retry_mark, retry, dial}
use xbase.Transporter.Connection.Sound.{IsSound}
use xbase.Transporter.Connection.Waking.{
  LinkOp, dial_op, retry_op, close_op, run_link, run_link-IsSound, Wakes, retry-Wakes,
}
use xbase.Transporter.Connection.Overlaps.{overlapped, Emptied, close-retry_overlapped}

-- Two numbers of one partition.
abbrev ops : List Op
ops = store_op 7 30 ∷ store_op 27 31 ∷ extract_op 7 ∷ delete_op 27 ∷ extract_op 27 ∷ []

new_pending-refines_example : run new_pending ops ≡ ok (run_one [] ops)
new_pending-refines_example = new_pending-refines ops

ops_found : run_one [] ops ≡ none ∷ none ∷ some 30 ∷ none ∷ none ∷ []
unfolding run_one lookup xbase.Dict.insert xbase.Dict.delete
ops_found = refl

-- A connection that takes everything.
abbrev take_all : ℕ → List ℕ → ℕ × Bool
take_all k bs = (length bs, false)

take_all-Takes : Takes take_all
take_all-Takes k bs = omega arith

abbrev dry : Wire
dry = record { bytes = []; writes = 0 }

write_all_lem_example : Ends take_all dry (1 ∷ 2 ∷ []) (write_all take_all 3 dry (1 ∷ 2 ∷ []))
write_all_lem_example = write_all_lem take_all take_all-Takes 3 dry (1 ∷ 2 ∷ []) (omega arith)

abbrev two_nodes : List (List ℕ)
two_nodes = (1 ∷ []) ∷ (2 ∷ []) ∷ []

abbrev call_message : Message
call_message = record { seq = 7; buf = some two_nodes; call = 30; state = state_pending }

abbrev shared : Shared
shared = record {
  heap = λ a. call_message;
  pool = [];
  queue = [];
  calls = (5, 29) ∷ [];
  released = 0;
  wire = dry;
  next_call = 31;
}

shared-Waits : Waits shared 4 7 30 two_nodes
shared-Waits = record { numbered = λ e. ground (arith, e); is = refl }

do_write_lem_example :
    (good : Bool) × (s' : Shared) × (do_write take_all shared 4 ≡ ok (good, s'))
    × Finished take_all shared 4 7 30 two_nodes shared-Waits good s'
    × Sends take_all dry (joined two_nodes) (s'.wire, good)
do_write_lem_example = do_write_lem take_all shared 4 7 30 two_nodes shared-Waits take_all-Takes

delete_message-do_write_example :
    (s' : Shared) × (do_write take_all (delete_message shared 4) 4 ≡ ok (true, s'))
    × (s'.calls ≡ (5, 29) ∷ [])
    × (s'.wire ≡ dry)
    × (s'.released ≡ 0 + 1)
    × (s'.pool ≡ 4 ∷ [])
delete_message-do_write_example =
    delete_message-do_write take_all shared 4 7 30 two_nodes shared-Waits

do_write-delete_message_example :
    (good : Bool) × (s' : Shared) × (do_write take_all shared 4 ≡ ok (good, s'))
    × (lookup 7 (delete_message s' 4).calls ≡ (if good then some 30 else none))
do_write-delete_message_example =
    do_write-delete_message take_all shared 4 7 30 two_nodes shared-Waits

delete_message-reused_example :
    (good : Bool) × (s₁ : Shared) × (do_write take_all shared 4 ≡ ok (good, s₁))
    × (s₁.pool ≡ 4 ∷ [])
    × ((prepare s₁ 4 8 two_nodes).pool ≡ [])
    × Waits (prepare s₁ 4 8 two_nodes) 4 8 s₁.next_call two_nodes
    × ((s₂ : Shared) × (do_write take_all (delete_message (prepare s₁ 4 8 two_nodes) 4) 4
          ≡ ok (true, s₂))
        × (s₂.calls ≡ s₁.calls)
        × (s₂.wire ≡ s₁.wire)
        × (s₂.pool ≡ 4 ∷ []))
delete_message-reused_example =
    delete_message-reused take_all shared 4 7 30 two_nodes 8 two_nodes shared-Waits
      (λ e. ground (arith, e))

-- Three connections, and the index -1, which is no multiple of three.
load_lem_example :
    ((at : ℕ) × (conn : ℕ) × (next : ℕ) × (load (11 ∷ 12 ∷ 13 ∷ []) 0 (some (negsuc 0))
        ≡ ok (some conn, next))
      × (get_elem? (11 ∷ 12 ∷ 13 ∷ []) at ≡ some conn)
      × Picks 3 0 (some (negsuc 0)) at next)
    ⊎ ((k : ℕ) × (some (negsuc 0) ≡ some (negsuc k))
        × ((k + 1) % 3 ≢ 0)
        × (load (11 ∷ 12 ∷ 13 ∷ []) 0 (some (negsuc 0)) ≡ panic))
load_lem_example = load_lem 11 (12 ∷ 13 ∷ []) 0 (some (negsuc 0))

-- It runs out of range, and -3 does not.
minus_one_panics : load (11 ∷ 12 ∷ 13 ∷ []) 0 (some (negsuc 0)) ≡ panic
unfolding load
minus_one_panics = refl

minus_three_picks : load (11 ∷ 12 ∷ 13 ∷ []) 0 (some (negsuc 2)) ≡ ok (some 11, 0)
unfolding load
minus_three_picks = refl

-- The third dial fails, and the handshake on the second connection.
abbrev dialled : ℕ → Bool
dialled k = if k == 3 then false else true

abbrev shaken : ℕ → Bool
shaken conn = if conn == 2 then false else true

abbrev some_faults : List LinkOp
some_faults = dial_op 1 ∷ retry_op 1 2 ∷ dial_op 3 ∷ close_op 4 ∷ []

run_link-IsSound_example : IsSound (run_link dialled shaken (new_conn 0) some_faults)
run_link-IsSound_example = run_link-IsSound dialled shaken 0 some_faults

abbrev opened : Link
opened = run_link dialled shaken (new_conn 0) (dial_op 1 ∷ [])

opened_state : opened.state ≡ conn_opened
unfolding run_link dial new_conn
opened_state = refl

retry-Wakes_example : Wakes dialled shaken opened (retry dialled shaken opened 1 2)
retry-Wakes_example =
    retry-Wakes dialled shaken opened 1 2 (run_link-IsSound dialled shaken 0 (dial_op 1 ∷ []))
      opened_state

-- A close at 4 during a retry at 3, whose dial has the number 2.
abbrev shaken_all : ℕ → Bool
shaken_all conn = true

abbrev opened_once : Link
opened_once = run_link dialled shaken_all (new_conn 0) (dial_op 1 ∷ [])

opened_once_state : opened_once.state ≡ conn_opened
unfolding run_link dial new_conn
opened_once_state = refl

second_dial : opened_once.next_dial ≡ 2
unfolding run_link dial new_conn
second_dial = refl

close-retry_overlapped_example :
    (is_closed (retry_mark dialled shaken_all opened_once).state ≡ false)
    × Emptied dialled shaken_all opened_once.next_dial
        (overlapped dialled shaken_all opened_once 1 3 4)
close-retry_overlapped_example =
    close-retry_overlapped dialled shaken_all opened_once 1 3 4
      (run_link-IsSound dialled shaken_all 0 (dial_op 1 ∷ [])) opened_once_state
      (ap dialled second_dial) refl
