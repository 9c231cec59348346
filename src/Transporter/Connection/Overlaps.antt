-- ===== src/Transporter/Connection/Overlaps.antt =====
-- A retry and a close of internal/transporter/internal/client/conn.go that overlap.
use xbase.Prelude.{
  ℕ, zero, suc, ◌+◌, ◌<◌, ◌≡◌, refl, ap, sym, subst, Bool, true, false, List, ◌∷◌, arith,
}
use xbase.Dict.{has}
use xbase.Transporter.Connection.{
  conn_opened, Link, unless_nil, signal_success, is_closed, is_opened, close_mark, close_rest,
  process_locked, do_dial_locked, signalled, dial, retry_mark, retry_drop, retry_rest,
}
use xbase.Transporter.Connection.Sound.{IsSound}

has-unless_nil : (k : ℕ) (past : List ℕ) → 0 < k → has k (unless_nil k past) ≡ true
unfolding has
has-unless_nil zero past h = absurd (omega (arith, h))
has-unless_nil (suc k) past h = ground arith

module _ (dialled shaken : ℕ → Bool) where
  -- The retry has marked the state when the close begins; the close marks it too, then the retry does
  -- the rest, then the close does.
  abbrev pub overlapped : Link → ℕ → ℕ → ℕ → Link
  overlapped l conn now later =
      close_rest (retry_rest dialled shaken (close_mark (retry_mark dialled shaken l)) conn now)
        later

  -- The link after a dial that the network answers at once.
  abbrev connected : Link → Link
  connected l = signal_success (record l {
    conn = l.next_dial;
    ctx = l.next_ctx;
    cancel = l.next_ctx;
    state = conn_opened;
    next_ctx = l.next_ctx + 1;
    next_dial = l.next_dial + 1;
    running = (l.next_ctx, l.next_dial) ∷ l.running;
  })

  do_dial_locked-connected :
      (tries : ℕ) (l : Link) (now : ℕ)
      → dialled l.next_dial ≡ true
      → shaken l.next_dial ≡ true
      → signalled dialled shaken now (do_dial_locked dialled shaken (suc tries) l)
        ≡ (true, connected l)
  unfolding do_dial_locked process_locked
  do_dial_locked-connected tries l now d s = rw (d, s) refl

  retry_rest-connected :
      (l : Link) (conn now : ℕ)
      → is_opened l.state ≡ false
      → dialled l.next_dial ≡ true
      → shaken l.next_dial ≡ true
      → retry_rest dialled shaken l conn now ≡ connected (retry_drop dialled shaken l conn)
  unfolding retry_rest dial
  retry_rest-connected l conn now e d s =
      rw (e, retry_rest, dial)
        (ap (λ r. r.1) (do_dial_locked-connected 2 (retry_drop dialled shaken l conn) now d s))

  -- The state is open, but there is no network connection and no cancel function, that of the dial is
  -- closed, and a dial returns success and changes nothing.
  abbrev pub Emptied : ℕ → Link → Type 0
  Emptied conn l =
      (l.state ≡ conn_opened)
      × (l.conn ≡ 0)
      × (l.cancel ≡ 0)
      × (has conn l.closed ≡ true)
      × ((now : ℕ) → dial dialled shaken l now ≡ (true, l))

  -- A close that begins after the retry of an open connection has marked the state, and that empties
  -- the connection after the dial of the retry, which the network answers at once, leaves the state open
  -- with no network connection and no cancel function: the connection of the dial is closed, and a dial
  -- then returns success and changes nothing.
  pub close-retry_overlapped :
      (l : Link) (conn now later : ℕ)
      → IsSound l
      → l.state ≡ conn_opened
      → dialled l.next_dial ≡ true
      → shaken l.next_dial ≡ true
      → (is_closed (retry_mark dialled shaken l).state ≡ false)
        × Emptied l.next_dial (overlapped l conn now later)
  unfolding dial
  close-retry_overlapped l conn now later sound open_before d s =
      let l₁ = close_mark (retry_mark dialled shaken l) in
      (
        refl,
        subst (λ r. Emptied l.next_dial (close_rest r later))
            (sym (retry_rest-connected l₁ conn now refl d s))
            (
              refl,
              refl,
              refl,
              has-unless_nil l.next_dial (retry_drop dialled shaken l₁ conn).closed
                  sound.known.some_dial,
              λ again. refl,
            ),
      )
