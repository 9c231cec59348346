-- ===== src/Link/Calls.antt =====
-- internal/link/gate.go: where the gate of a user is found, and a call of it, tried once more where the
-- user's session is not there. What is outside is a parameter: the locator, from the number of its call and
-- the user to the id of a gate, 0 where it has none; the client that `Build` of the builder gives for an
-- endpoint; and the call itself, the `successHandler`.
pub mod Retries
use xbase.Prelude.{
  ℕ, zero, suc, ◌+◌, Bool, true, false, Option, none, some, List, [], ◌∷◌, ◌==◌, if◌then◌else◌,
  Outcome, ok, err, panic, bind_outcome, Error, not_found_locator, not_found_user_location,
  invalid_gid,
}
use xbase.Dict.{lookup, insert, delete}
use xbase.Dispatcher.Services.{Dispatcher, find_endpoint}

-- `asked` counts the calls of the locator, `failed` those of the `failedHandler`.
pub record GateLinker : Type 0 where
  pub sources : List (ℕ × ℕ)
  pub dispatcher : Dispatcher
  pub asked : ℕ
  pub failed : ℕ

abbrev pub known_gate : Option ℕ → ℕ
known_gate none = 0
known_gate (some gid) = gid

-- What a call of the locator gives, stored unless it is empty.
abbrev pub located : GateLinker → ℕ → Outcome ℕ → Outcome ℕ × GateLinker
located l uid (err e) = (err e, l)
located l uid panic = (panic, l)
located l uid (ok gid) =
    if gid == 0
    then (err not_found_user_location, l)
    else (ok gid, record l { sources = insert uid gid l.sources })

abbrev pub ask_locator : Option (ℕ → ℕ → Outcome ℕ) → GateLinker → ℕ → Outcome ℕ × GateLinker
ask_locator none l uid = (err not_found_locator, l)
ask_locator (some locate) l uid =
    let gid = known_gate (lookup uid l.sources) in
    if gid == 0
    then located (record l { asked = l.asked + 1 }) uid (locate l.asked uid)
    else (ok gid, l)

unfoldable pub locate_gate : Option (ℕ → ℕ → Outcome ℕ) → GateLinker → ℕ → Outcome ℕ × GateLinker
locate_gate locator l uid = ask_locator locator l uid

unfoldable pub do_build_client : (ℕ → Outcome ℕ) → GateLinker → ℕ → Outcome ℕ
unfolding find_endpoint
do_build_client build l gid =
    if gid == 0 then err invalid_gid else bind_outcome (find_endpoint l.dispatcher gid) build

-- A reply and an error, each of which a call may have.
pub record Answer : Type 0 where
  pub reply : Option ℕ
  pub error : Option Error

abbrev pub fails : GateLinker → Error → Outcome Answer × GateLinker
fails l e = (ok (record { reply = none; error = some e }), record l { failed = l.failed + 1 })

-- doRPC, from a round on: `last` is what the call of the round before gave. A call says whether it is to
-- be tried again, and its answer.
module _ (locator : Option (ℕ → ℕ → Outcome ℕ)) (build : ℕ → Outcome ℕ)
    (call : ℕ → ℕ → Bool × Answer) where
  abbrev pub after_call :
      GateLinker
      → ℕ
      → Bool × Answer
      → (Answer → GateLinker → Outcome Answer × GateLinker)
      → Outcome Answer × GateLinker
  after_call l uid (true, answer) again = again answer (record l { sources = delete uid l.sources })
  after_call l uid (false, answer) again = (ok answer, l)

  abbrev pub with_client :
      GateLinker
      → ℕ
      → ℕ
      → Outcome ℕ
      → (Answer → GateLinker → Outcome Answer × GateLinker)
      → Outcome Answer × GateLinker
  with_client l uid i (err e) again = fails l e
  with_client l uid i panic again = (panic, l)
  with_client l uid i (ok client) again = after_call l uid (call client i) again

  -- The gate that was asked before is not asked again: its reply is given, with the error of the lookup,
  -- which is none.
  abbrev pub with_gate :
      ℕ
      → ℕ
      → ℕ
      → Answer
      → Outcome ℕ × GateLinker
      → (ℕ → Answer → GateLinker → Outcome Answer × GateLinker)
      → Outcome Answer × GateLinker
  with_gate uid i prev last (err e, l) again = fails l e
  with_gate uid i prev last (panic, l) again = (panic, l)
  with_gate uid i prev last (ok gid, l) again =
      if gid == prev
      then (ok (record { reply = last.reply; error = none }), record l { failed = l.failed + 1 })
      else with_client l uid i (do_build_client build l gid) (again gid)

  unfoldable pub do_rounds : ℕ → ℕ → ℕ → ℕ → Answer → GateLinker → Outcome Answer × GateLinker
  unfolding locate_gate do_build_client
  do_rounds zero uid i prev last l = (ok last, l)
  do_rounds (suc rounds) uid i prev last l =
      with_gate uid i prev last (locate_gate locator l uid)
        (λ gid answer l'. do_rounds rounds uid (i + 1) gid answer l')

  unfoldable pub do_rpc : GateLinker → ℕ → Outcome Answer × GateLinker
  unfolding do_rounds
  do_rpc l uid = do_rounds 2 uid 1 0 (record { reply = none; error = none }) l
