-- ===== src/Transporter/Connection/Sound.antt =====
-- The invariant of a connection of internal/transporter/internal/client/conn.go.
use xbase.Prelude.{
  ℕ, zero, suc, ◌+◌, ◌<◌, ◌≡◌, ◌≢◌, inl, inr, refl, subst, Bool, true, false, List, ◌∷◌, arith,
  ◌==◌, if◌then◌else◌, Bool-cases,
}
use xbase.Dict.{has}
use xbase.Transporter.Connection.{
  conn_opened, conn_hanged, Link, new_conn, unless_nil, mark_closed_locked, is_closed, is_opened,
  close, max_retry_times, process_locked, do_dial_locked, signalled, dial, hanged, retry,
  retry_rest,
}

-- What the link holds where its state is open: a connection that is not closed, and the cancel function
-- of its context, which is not canceled.
pub record Live (conn ctx cancel : ℕ) (closed canceled : List ℕ) : Type 0 where
  pub conn_there : conn ≢ 0
  pub conn_open : has conn closed ≡ false
  pub ctx_there : cancel ≢ 0
  pub own_ctx : cancel ≡ ctx
  pub ctx_open : has cancel canceled ≡ false

-- Connections and contexts that are made later have other numbers.
pub record Known (conn cancel next_dial next_ctx : ℕ) (closed canceled : List ℕ) : Type 0 where
  pub some_ctx : 0 < next_ctx
  pub some_dial : 0 < next_dial
  pub conn_known : conn < next_dial
  pub cancel_known : cancel < next_ctx
  pub closed_known : (k : ℕ) → has k closed ≡ true → k < next_dial
  pub canceled_known : (k : ℕ) → has k canceled ≡ true → k < next_ctx

abbrev pub IsLive : Link → Type 0
IsLive l = Live l.conn l.ctx l.cancel l.closed l.canceled

abbrev pub IsKnown : Link → Type 0
IsKnown l = Known l.conn l.cancel l.next_dial l.next_ctx l.closed l.canceled

-- No operation leaves it hanged.
pub record IsSound (l : Link) : Type 0 where
  pub known : IsKnown l
  pub settled : l.state ≢ conn_hanged
  pub live : l.state ≡ conn_opened → IsLive l

has-unless_nil :
    (k c n : ℕ) (past : List ℕ)
    → c < n
    → (has k past ≡ true → k < n)
    → has k (unless_nil c past) ≡ true
    → k < n
unfolding has
has-unless_nil k zero n past h p e = p e
has-unless_nil k (suc c) n past h p e = ground (arith, p, e)

pub new_conn-IsSound : (now : ℕ) → IsSound (new_conn now)
unfolding new_conn has
new_conn-IsSound now = record {
  known = record {
    some_ctx = omega arith;
    some_dial = omega arith;
    conn_known = omega arith;
    cancel_known = omega arith;
    closed_known = λ k e. absurd (ground (arith, e));
    canceled_known = λ k e. absurd (ground (arith, e));
  };
  settled = λ e. ground (arith, e);
  live = λ e. absurd (ground (arith, e));
}

mark_closed_locked-Known : (l : Link) (now : ℕ) → IsKnown l → IsKnown (mark_closed_locked l now)
unfolding mark_closed_locked
mark_closed_locked-Known l now k = record {
  some_ctx = k.some_ctx;
  some_dial = k.some_dial;
  conn_known = k.some_dial;
  cancel_known = k.some_ctx;
  closed_known =
      λ c e. has-unless_nil c l.conn l.next_dial l.closed k.conn_known (k.closed_known c) e;
  canceled_known =
      λ c e. has-unless_nil c l.cancel l.next_ctx l.canceled k.cancel_known (k.canceled_known c) e;
}

module _ (dialled shaken : ℕ → Bool) where
  -- The end of a dial: with a live connection, or with none that counts.
  abbrev pub Dialled : Bool × Link → Type 0
  Dialled (good, l) = IsKnown l × (good ≡ true → (l.state ≡ conn_opened) × IsLive l)

  module _ (l : Link) (k : IsKnown l) where
    fresh_conn : has l.next_dial l.closed ≡ false
    fresh_conn = elim (Bool-cases (has l.next_dial l.closed)) [
      | inl e ↦ absurd (omega (arith, k.closed_known l.next_dial e))
      | inr e ↦ e
    ]

    fresh_ctx : has l.next_ctx l.canceled ≡ false
    fresh_ctx = elim (Bool-cases (has l.next_ctx l.canceled)) [
      | inl e ↦ absurd (omega (arith, k.canceled_known l.next_ctx e))
      | inr e ↦ e
    ]

    next-Known : IsKnown (record l { next_dial = l.next_dial + 1 })
    next-Known = record {
      some_ctx = k.some_ctx;
      cancel_known = k.cancel_known;
      canceled_known = k.canceled_known;
      some_dial = omega arith;
      conn_known = omega (arith, k.conn_known);
      closed_known = λ c e. omega (arith, k.closed_known c e);
    }

    process_locked-Dialled :
        Dialled
          (process_locked dialled shaken (record l { next_dial = l.next_dial + 1 }) l.next_dial)
    unfolding process_locked has
    process_locked-Dialled = elim (Bool-cases (shaken l.next_dial)) [
      | inl e ↦ rw e (
        record {
          some_ctx = omega arith;
          some_dial = omega arith;
          conn_known = omega arith;
          cancel_known = omega arith;
          closed_known = λ c e. omega (arith, k.closed_known c e);
          canceled_known = λ c e. omega (arith, k.canceled_known c e);
        },
        λ e. (
          refl,
          record {
            conn_there = λ z. omega (arith, z, k.some_dial);
            conn_open = fresh_conn;
            ctx_there = λ z. omega (arith, z, k.some_ctx);
            own_ctx = refl;
            ctx_open = fresh_ctx;
          },
        ),
      )
      | inr e ↦ rw e (
        record {
          some_ctx = omega arith;
          some_dial = omega arith;
          conn_known = omega arith;
          cancel_known = omega arith;
          closed_known = λ c e. among c l.next_dial l.closed e (k.closed_known c);
          canceled_known = λ c e. among c l.next_ctx l.canceled e (k.canceled_known c);
        },
        λ e. absurd (ground (arith, e)),
      )
    ]
      where
        among :
            (c n : ℕ) (past : List ℕ)
            → has c (n ∷ past) ≡ true
            → (has c past ≡ true → c < n)
            → c < n + 1
        among c n past e h = ground (arith, e, h)

  pub do_dial_locked-Dialled :
      (tries : ℕ) (l : Link) → IsKnown l → Dialled (do_dial_locked dialled shaken tries l)
  unfolding do_dial_locked
  do_dial_locked-Dialled zero l k = (k, λ e. absurd (ground (arith, e)))
  do_dial_locked-Dialled (suc tries) l k = elim (Bool-cases (dialled l.next_dial)) [
    | inl e ↦ rw e (process_locked-Dialled l k)
    | inr e ↦
        rw e
          (do_dial_locked-Dialled tries (record l { next_dial = l.next_dial + 1 }) (next-Known l k))
  ]

  signalled-IsSound :
      (now : ℕ) (r : Bool × Link) → Dialled r → IsSound (signalled dialled shaken now r).1
  unfolding mark_closed_locked
  signalled-IsSound now (true, l) (k, h) = record {
    known = k;
    settled = λ e. ground (arith, e, (h refl).0);
    live = λ e. (h refl).1;
  }
  signalled-IsSound now (false, l) (k, h) = record {
    known = mark_closed_locked-Known l now k;
    settled = λ e. ground (arith, e);
    live = λ e. absurd (ground (arith, e));
  }

  -- A link as it is where its state is open counts for nothing else.
  redial-IsSound :
      (l : Link) (now : ℕ)
      → is_opened l.state ≡ false
      → IsKnown l
      → IsSound (dial dialled shaken l now).1
  unfolding dial
  redial-IsSound l now e k = rw e (
      signalled-IsSound now (do_dial_locked dialled shaken max_retry_times l)
        (do_dial_locked-Dialled max_retry_times l k))

  pub dial-IsSound : (l : Link) (now : ℕ) → IsSound l → IsSound (dial dialled shaken l now).1
  unfolding dial
  dial-IsSound l now sound = elim (Bool-cases (is_opened l.state)) [
    | inl e ↦ rw e sound
    | inr e ↦ redial-IsSound l now e sound.known
  ]

  pub hanged-Known : (l : Link) (conn : ℕ) → IsKnown l → IsKnown (hanged dialled shaken l conn)
  hanged-Known l conn k = record {
    some_ctx = k.some_ctx;
    some_dial = k.some_dial;
    conn_known = k.conn_known;
    cancel_known = k.cancel_known;
    closed_known = λ c e. closed_by (l.conn == conn) c refl e;
    canceled_known = λ c e.
        has-unless_nil c l.cancel l.next_ctx l.canceled k.cancel_known (k.canceled_known c) e;
  }
    where
      closed_by :
          (b : Bool) (c : ℕ)
          → b ≡ (l.conn == conn)
          → has c (if b then unless_nil conn l.closed else l.closed) ≡ true
          → c < l.next_dial
      closed_by true c q e =
          has-unless_nil c conn l.next_dial l.closed
            (subst (λ m. m < l.next_dial) (ground (arith, q)) k.conn_known) (k.closed_known c) e
      closed_by false c q e = k.closed_known c e

  pub retry-IsSound :
      (l : Link) (conn now : ℕ) → IsSound l → IsSound (retry dialled shaken l conn now)
  unfolding retry retry_rest
  retry-IsSound l conn now sound = elim (Bool-cases (is_opened l.state)) [
    | inl e ↦
        rw e
          (redial-IsSound (hanged dialled shaken l conn) now refl (hanged-Known l conn sound.known))
    | inr e ↦ rw e sound
  ]

pub close-IsSound : (l : Link) (now : ℕ) → IsSound l → IsSound (close l now)
unfolding close
close-IsSound l now sound = elim (Bool-cases (is_closed l.state)) [
  | inl e ↦ rw e sound
  | inr e ↦ rw e record {
    known = record {
      some_ctx = sound.known.some_ctx;
      some_dial = sound.known.some_dial;
      conn_known = sound.known.some_dial;
      cancel_known = sound.known.some_ctx;
      closed_known = λ c e.
          has-unless_nil c l.conn l.next_dial l.closed sound.known.conn_known
            (sound.known.closed_known c) e;
      canceled_known = λ c e.
          has-unless_nil c l.cancel l.next_ctx l.canceled sound.known.cancel_known
            (sound.known.canceled_known c) e;
    };
    settled = λ e. ground (arith, e);
    live = λ e. absurd (ground (arith, e));
  }
]
