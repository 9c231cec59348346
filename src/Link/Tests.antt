-- ===== src/Link/Tests.antt =====
-- The links on concrete users: the user 8 is known to be at the gate 1, and the gate 2 is there too.
use xbase.Prelude.{
  ℕ, ◌+◌, ◌≡◌, refl, Bool, true, false, none, some, List, [], ◌∷◌, arith, Outcome, ok,
  not_found_session, ◌==◌, if◌then◌else◌,
}
use xbase.Dict.{lookup}
use xbase.Dispatcher.{round_robin}
use xbase.Dispatcher.Services.{Dispatcher, new_dispatcher}
use xbase.Link.Sources.{
  NodeBinding, new_node_linker, UserEvent, bind_node, unbind_node, watch_user_locate,
}
use xbase.Link.Sources.Held.{Counted, watch_user_locate-Counted}
use xbase.Link.Calls.{GateLinker, do_build_client, Answer, do_rpc}
use xbase.Link.Calls.Retries.{do_rpc-retries, do_rpc-loses_error}

abbrev to_four : NodeBinding
to_four = record { nid = 4; metadata = 0 }

-- The user 8 comes to the node 4 and leaves it for the node 5.
abbrev moves : List UserEvent
moves =
    bind_node 8 1 to_four
    ∷ bind_node 8 1 (record { nid = 5; metadata = 0 })
    ∷ unbind_node 8 1 4
    ∷ []

watch_user_locate-Counted_example : Counted 4 (watch_user_locate 4 new_node_linker moves)
watch_user_locate-Counted_example = watch_user_locate-Counted 4 moves

moves_counted : (watch_user_locate 4 new_node_linker moves).dones ≡ 1
unfolding watch_user_locate lookup xbase.Dict.insert
moves_counted = refl

abbrev gates : GateLinker
gates = record {
  sources = (8, 1) ∷ [];
  dispatcher = record (new_dispatcher round_robin) { endpoints = (1, 11) ∷ (2, 12) ∷ [] };
  asked = 0;
  failed = 0;
}

abbrev build_any : ℕ → Outcome ℕ
build_any address = ok address

-- The session is at the gate 2 alone.
abbrev missing : Answer
missing = record { reply = none; error = some not_found_session }

abbrev pushed : Answer
pushed = record { reply = some 1; error = none }

abbrev push_to : ℕ → ℕ → Bool × Answer
push_to client index = if client == 12 then (false, pushed) else (true, missing)

abbrev at_two : ℕ → ℕ → Outcome ℕ
at_two asked uid = ok 2

abbrev at_one : ℕ → ℕ → Outcome ℕ
at_one asked uid = ok 1

at_gate_one : lookup 8 gates.sources ≡ some 1
unfolding lookup
at_gate_one = refl

first_built : do_build_client build_any gates 1 ≡ ok 11
unfolding do_build_client xbase.Dispatcher.Services.find_endpoint lookup
first_built = refl

second_built : do_build_client build_any gates 2 ≡ ok 12
unfolding do_build_client xbase.Dispatcher.Services.find_endpoint lookup
second_built = refl

do_rpc-retries_example :
    (l' : GateLinker) × (do_rpc (some at_two) build_any push_to gates 8 ≡ (ok pushed, l'))
    × (lookup 8 l'.sources ≡ some 2)
    × (l'.failed ≡ 0)
do_rpc-retries_example =
    do_rpc-retries at_two build_any push_to gates 8 1 at_gate_one (λ e. ground (arith, e)) 11
      missing first_built refl 2 (λ e. ground (arith, e)) refl 12 pushed (λ e. ground (arith, e))
      second_built refl

do_rpc-loses_error_example :
    (l' : GateLinker) × (do_rpc (some at_one) build_any push_to gates 8
      ≡ (ok (record { reply = none; error = none }), l'))
    × (lookup 8 l'.sources ≡ some 1)
    × (l'.failed ≡ 0 + 1)
do_rpc-loses_error_example =
    do_rpc-loses_error at_one build_any push_to gates 8 1 at_gate_one (λ e. ground (arith, e)) 11
      missing first_built refl 1 (λ e. ground (arith, e)) refl refl
