-- ===== src/Link/Calls/Retries.antt =====
-- doRPC of internal/link/gate.go where the gate that a user is known to be at does not have the user's
-- session any more.
use xbase.Prelude.{
  ℕ, ◌+◌, ◌≡◌, ◌≢◌, refl, ap, ◌∙◌, Bool, true, false, Option, none, some, arith, ◌==◌,
  if◌then◌else◌, Outcome, ok,
}
use xbase.Dict.{lookup, insert, delete, lookup-insert, lookup-delete}
use xbase.Link.Calls.{
  GateLinker, known_gate, located, locate_gate, do_build_client, Answer, after_call, with_client,
  with_gate, do_rounds, do_rpc,
}

unequal : (a b : ℕ) → a ≢ b → (a == b) ≡ false
unequal a b n = ground arith

-- A gate that was not asked in the round before, with a client.
with_gate-other :
    (locator : Option (ℕ → ℕ → Outcome ℕ)) (build : ℕ → Outcome ℕ) (call : ℕ → ℕ → Bool × Answer)
    (uid i prev gid client : ℕ) (last : Answer) (l : GateLinker)
    (again : ℕ → Answer → GateLinker → Outcome Answer × GateLinker)
    → gid ≢ prev
    → do_build_client build l gid ≡ ok client
    → with_gate locator build call uid i prev last (ok gid, l) again
      ≡ after_call locator build call l uid (call client i) (again gid)
with_gate-other locator build call uid i prev gid client last l again n e =
    ap
      (λ b.
        if b
        then (ok (record { reply = last.reply; error = none }), record l { failed = l.failed + 1 })
        else with_client locator build call l uid i (do_build_client build l gid) (again gid))
      (unequal gid prev n)
    ∙ ap (λ o. with_client locator build call l uid i o (again gid)) e

module _ (locate : ℕ → ℕ → Outcome ℕ) (build : ℕ → Outcome ℕ) (call : ℕ → ℕ → Bool × Answer)
    (l : GateLinker) (uid stale : ℕ) (cached : lookup uid l.sources ≡ some stale)
    (not_empty : stale ≢ 0) (client : ℕ) (answer : Answer)
    (built : do_build_client build l stale ≡ ok client)
    (gone : call client 1 ≡ (true, answer)) where
  abbrev forgotten : GateLinker
  forgotten = record l { sources = delete uid l.sources }

  known : locate_gate (some locate) l uid ≡ (ok stale, l)
  unfolding locate_gate
  known =
      ap
        (λ o.
          if known_gate o == 0
          then located (record l { asked = l.asked + 1 }) uid (locate l.asked uid)
          else (ok (known_gate o), l))
        cached
      ∙ ground arith

  first_round :
      do_rpc (some locate) build call l uid
      ≡ do_rounds (some locate) build call 1 uid 2 stale answer forgotten
  unfolding do_rpc do_rounds
  first_round =
      let again = λ (gid : ℕ) (a : Answer) (l' : GateLinker).
        do_rounds (some locate) build call 1 uid 2 gid a l' in
      ap
        (λ r.
          with_gate (some locate) build call uid 1 0 (record { reply = none; error = none }) r
            again)
        known
      ∙ with_gate-other (some locate) build call uid 1 0 stale client
          (record { reply = none; error = none }) l again not_empty built
      ∙ ap (λ r. after_call (some locate) build call l uid r (again stale)) gone

  module _ (gid : ℕ) (there : gid ≢ 0) (found : locate l.asked uid ≡ ok gid) where
    abbrev updated : GateLinker
    updated = record forgotten {
      asked = l.asked + 1;
      sources = insert uid gid (delete uid l.sources);
    }

    forgotten_source : lookup uid (delete uid l.sources) ≡ none
    forgotten_source = lookup-delete uid uid l.sources ∙ ground arith

    located_again : locate_gate (some locate) forgotten uid ≡ (ok gid, updated)
    unfolding locate_gate
    located_again =
        ap
          (λ o.
            if known_gate o == 0
            then located (record forgotten { asked = l.asked + 1 }) uid (locate l.asked uid)
            else (ok (known_gate o), forgotten))
          forgotten_source
        ∙ ap (located (record forgotten { asked = l.asked + 1 }) uid) found
        ∙ rw (unequal gid 0 there) refl

    stored : lookup uid updated.sources ≡ some gid
    stored = lookup-insert uid uid gid (delete uid l.sources) ∙ ground arith

    -- The cached gate of a user, whose client builds, answers the first call that it is to be tried again,
    -- and the locator gives another gate, whose client builds too and answers the second call that it is
    -- not to be tried again: that answer is the result, and the other gate is cached.
    pub do_rpc-retries :
        (other : ℕ) (reply : Answer)
        → gid ≢ stale
        → do_build_client build l gid ≡ ok other
        → call other 2 ≡ (false, reply)
        → (l' : GateLinker) × (do_rpc (some locate) build call l uid ≡ (ok reply, l'))
          × (lookup uid l'.sources ≡ some gid)
          × (l'.failed ≡ l.failed)
    unfolding do_rounds do_build_client
    do_rpc-retries other reply ne other_built done =
        let again = λ (g : ℕ) (a : Answer) (l' : GateLinker).
          do_rounds (some locate) build call 0 uid 3 g a l' in
        (
          updated,
          first_round
              ∙ ap (λ r. with_gate (some locate) build call uid 2 stale answer r again)
                  located_again
              ∙ with_gate-other (some locate) build call uid 2 stale gid other answer updated again
                  ne other_built
              ∙ ap (λ r. after_call (some locate) build call updated uid r (again gid)) done,
          stored,
          refl,
        )

    -- The cached gate of a user does not have the session, and the locator gives the same gate: the
    -- result is the reply without the error of the call.
    pub do_rpc-loses_error :
        gid ≡ stale
        → (l' : GateLinker) × (do_rpc (some locate) build call l uid
            ≡ (ok (record { reply = answer.reply; error = none }), l'))
          × (lookup uid l'.sources ≡ some stale)
          × (l'.failed ≡ l.failed + 1)
    unfolding do_rounds
    do_rpc-loses_error e = (
      record updated { failed = l.failed + 1 },
      first_round
          ∙ ap
              (λ r.
                with_gate (some locate) build call uid 2 stale answer r
                  (λ g a l'. do_rounds (some locate) build call 0 uid 3 g a l'))
              located_again
          ∙ rw (same e) refl,
      stored ∙ ap some e,
      refl,
    )
      where
        same : gid ≡ stale → (gid == stale) ≡ true
        same q = ground arith
