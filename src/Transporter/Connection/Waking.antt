-- ===== src/Transporter/Connection/Waking.antt =====
-- The operations of a connection of internal/transporter/internal/client/conn.go one after another, and
-- what a fault of an open connection ends in.
use xbase.Prelude.{
  ℕ, zero, suc, ◌+◌, ◌≡◌, ◌⊎◌, inl, inr, refl, ap, Bool, true, false, List, [], ◌∷◌, Bool-cases,
}
use xbase.Transporter.Connection.{
  conn_opened, conn_closed, Link, new_conn, mark_closed_locked, is_opened, close, max_retry_times,
  process_locked, do_dial_locked, signalled, dial, hanged, retry, retry_rest,
}
use xbase.Transporter.Connection.Sound.{
  IsSound, IsKnown, new_conn-IsSound, dial-IsSound, retry-IsSound, close-IsSound, hanged-Known,
  do_dial_locked-Dialled,
}

-- A dial, a retry by a goroutine that was started with a connection, and a close, each at a time. Each
-- runs to its end before the next begins.
pub data LinkOp : Type 0 where
  dial_op : ℕ → LinkOp
  retry_op : ℕ → ℕ → LinkOp
  close_op : ℕ → LinkOp

module _ (dialled shaken : ℕ → Bool) where
  abbrev pub link_op : Link → LinkOp → Link
  link_op l (dial_op now) = (dial dialled shaken l now).1
  link_op l (retry_op conn now) = retry dialled shaken l conn now
  link_op l (close_op now) = close l now

  unfoldable pub run_link : Link → List LinkOp → Link
  run_link l [] = l
  run_link l (op ∷ ops) = run_link (link_op l op) ops

  link_op-IsSound : (l : Link) (op : LinkOp) → IsSound l → IsSound (link_op l op)
  link_op-IsSound l (dial_op now) s = dial-IsSound dialled shaken l now s
  link_op-IsSound l (retry_op conn now) s = retry-IsSound dialled shaken l conn now s
  link_op-IsSound l (close_op now) s = close-IsSound l now s

  run_link-keeps : (l : Link) (ops : List LinkOp) → IsSound l → IsSound (run_link l ops)
  unfolding run_link
  run_link-keeps l [] s = s
  run_link-keeps l (op ∷ ops) s = run_link-keeps (link_op l op) ops (link_op-IsSound l op s)

  -- After any dials, retries and closes of a new connection that do not overlap, each of them run to its
  -- end before the next begins, whatever the network answers, the connection is not left hanged, and
  -- where it is open it has a network connection that is not closed, and the cancel function of its own
  -- context, which is not canceled.
  pub run_link-IsSound : (now : ℕ) (ops : List LinkOp) → IsSound (run_link (new_conn now) ops)
  run_link-IsSound now ops = run_link-keeps (new_conn now) ops (new_conn-IsSound now)

  -- A dial wakes nobody before its end.
  abbrev Counts : Link → Link → Type 0
  Counts l l' = (l'.failures ≡ l.failures) × (l'.successes ≡ l.successes)

  process_locked-Counts : (l : Link) (conn : ℕ) → Counts l (process_locked dialled shaken l conn).1
  unfolding process_locked
  process_locked-Counts l conn = elim (Bool-cases (shaken conn)) [
    | inl e ↦ rw e (refl, refl)
    | inr e ↦ rw e (refl, refl)
  ]

  do_dial_locked-Counts :
      (tries : ℕ) (l : Link) → Counts l (do_dial_locked dialled shaken tries l).1
  unfolding do_dial_locked
  do_dial_locked-Counts zero l = (refl, refl)
  do_dial_locked-Counts (suc tries) l = elim (Bool-cases (dialled l.next_dial)) [
    | inl e ↦ rw e (process_locked-Counts (record l { next_dial = l.next_dial + 1 }) l.next_dial)
    | inr e ↦ rw e (do_dial_locked-Counts tries (record l { next_dial = l.next_dial + 1 }))
  ]

  -- Those who wait are woken once, with the result that the state shows.
  abbrev pub Wakes : Link → Link → Type 0
  Wakes l l' =
      ((l'.state ≡ conn_opened) × (l'.successes ≡ l.successes + 1) × (l'.failures ≡ l.failures))
      ⊎ ((l'.state ≡ conn_closed) × (l'.failures ≡ l.failures + 1) × (l'.successes ≡ l.successes))

  signalled-Wakes :
      (now : ℕ) (l : Link) (r : Bool × Link)
      → Counts l r.1
      → (r.0 ≡ true → r.1.state ≡ conn_opened)
      → Wakes l (signalled dialled shaken now r).1
  unfolding mark_closed_locked
  signalled-Wakes now l (true, l') (f, s) h = inl (h refl, ap (λ n. n + 1) s, f)
  signalled-Wakes now l (false, l') (f, s) h = inr (refl, ap (λ n. n + 1) f, s)

  -- A fault of an open connection, whose retry no other operation overlaps, ends with the connection open again, and those who wait woken with
  -- success, or closed, and those who wait woken with failure.
  pub retry-Wakes :
      (l : Link) (conn now : ℕ)
      → IsSound l
      → l.state ≡ conn_opened
      → Wakes l (retry dialled shaken l conn now)
  unfolding retry retry_rest dial
  retry-Wakes l conn now sound e =
      let l₁ = hanged dialled shaken l conn in
      let known : IsKnown l₁ = hanged-Known dialled shaken l conn sound.known in
      rw (ap is_opened e) (
        signalled-Wakes now l (do_dial_locked dialled shaken max_retry_times l₁)
          (do_dial_locked-Counts max_retry_times l₁)
          (λ q. ((do_dial_locked-Dialled dialled shaken max_retry_times l₁ known).1 q).0))
