-- ===== src/Session/Ownership.antt =====
-- What Bind, Unbind, AddConn and RemConn of session/session.go promise: who has which user after them,
-- and that the invariant stays.
use xbase.Prelude.{
  ℕ, ◌≡◌, ◌≢◌, refl, ap, sym, subst, ◌∙◌, Option, some, none, arith, ◌==◌, if◌then◌else◌,
  Bool-cases, inl, inr, ok, bind_outcome,
}
use xbase.Dict.{lookup, delete, lookup-delete}
use xbase.Session.{
  Session, set_uid, conn_locked, sessions_locked, found, drop_user, take_over, bind_conn, bind,
  unbind,
}
use xbase.Session.Invariant.{IsValid, released-IsValid}
use xbase.Session.Binding.{bind_conn-IsValid}

module _ (id : ℕ → ℕ) where
  bind_conn-uid : (s : Session) (c cid uid : ℕ) → (bind_conn id s c cid uid).0.uid_of c ≡ uid
  unfolding bind_conn take_over drop_user
  bind_conn-uid s c cid uid = ground arith

  bind_conn-conns : (s : Session) (c cid uid : ℕ) → (bind_conn id s c cid uid).0.conns ≡ s.conns
  unfolding bind_conn take_over drop_user
  bind_conn-conns s c cid uid = ground arith

  bind_conn-others :
      (s : Session) (c cid uid d : ℕ)
      → IsValid id s
      → d ≢ c
      → s.uid_of d ≢ uid
      → (bind_conn id s c cid uid).0.uid_of d ≡ s.uid_of d
  unfolding bind_conn take_over drop_user
  bind_conn-others s c cid uid d valid h n =
      ground (arith, valid.by_uid uid d, lookup-delete (s.uid_of c) uid s.users)

  -- In a valid session where the connection `cid` is there, Bind of a user that is not 0 succeeds, the
  -- session is valid after it, the user's entry is that connection, the connection is bound to the user,
  -- and the connections are the same.
  pub bind_lem :
      (s : Session) (c cid uid : ℕ)
      → IsValid id s
      → lookup cid s.conns ≡ some c
      → uid ≢ 0
      → (s' : Session) × (kicked : Option ℕ) × (bind id s cid uid ≡ ok (s', kicked))
        × IsValid id s'
        × (lookup uid s'.users ≡ some c)
        × (s'.uid_of c ≡ uid)
        × (s'.conns ≡ s.conns)
  unfolding bind conn_locked sessions_locked
  bind_lem s c cid uid valid here nz =
      let r = bind_conn id s c cid uid in
      let after = bind_conn-IsValid id s c cid uid valid here in
      let is : r.0.uid_of c ≡ uid = bind_conn-uid s c cid uid in
      let same = bind_conn-conns s c cid uid in
      (
        r.0,
        r.1,
        ap (λ o. bind_outcome (found o) (λ c. ok (bind_conn id s c cid uid))) here,
        after,
        ap (λ u. lookup u r.0.users) (sym is)
            ∙ after.bound cid c (ap (lookup cid) same ∙ here) (λ z. nz (sym is ∙ z)),
        is,
        same,
      )

  bind_conn-replaces :
      (s : Session) (c cid uid old : ℕ)
      → s.uid_of c ≢ uid
      → uid ≢ 0
      → lookup uid s.users ≡ some old
      → old ≢ c
      → id old ≢ cid
      → ((bind_conn id s c cid uid).1 ≡ some old) × ((bind_conn id s c cid uid).0.uid_of old ≡ 0)
  unfolding bind_conn take_over drop_user
  bind_conn-replaces s c cid uid old n nz e h i =
      ground (arith, n, nz, e, h, i, lookup-delete (s.uid_of c) uid s.users)

  pub bind-found :
      (s : Session) (c cid uid : ℕ)
      → lookup cid s.conns ≡ some c
      → bind id s cid uid ≡ ok (bind_conn id s c cid uid)
  unfolding bind conn_locked sessions_locked
  bind-found s c cid uid here =
      ap (λ o. bind_outcome (found o) (λ c. ok (bind_conn id s c cid uid))) here

  -- In a valid session where the connection `cid` is there, Bind of a user that is not 0 and that
  -- another connection has makes the first connection the user's, binds the other to no user, and has
  -- the other closed.
  pub bind_replaces :
      (s : Session) (c cid uid old : ℕ)
      → IsValid id s
      → lookup cid s.conns ≡ some c
      → uid ≢ 0
      → lookup uid s.users ≡ some old
      → old ≢ c
      → (s' : Session) × (bind id s cid uid ≡ ok (s', some old))
        × (lookup uid s'.users ≡ some c)
        × (s'.uid_of old ≡ 0)
  bind_replaces s c cid uid old valid here nz e h =
      let own : s.uid_of c ≢ uid = (λ z. h (ground (arith, z, nz, e, valid.bound cid c here))) in
      let i : id old ≢ cid =
        (λ i. h (ground (arith, here, valid.known uid old e, ap (λ k. lookup k s.conns) i))) in
      let r = bind_conn id s c cid uid in
      let (kicked, free) = bind_conn-replaces s c cid uid old own nz e h i in
      let after = bind_conn-IsValid id s c cid uid valid here in
      let is : r.0.uid_of c ≡ uid = bind_conn-uid s c cid uid in
      (
        r.0,
        bind-found s c cid uid here ∙ ap (λ k. ok (r.0, k)) kicked,
        ap (λ u. lookup u r.0.users) (sym is)
            ∙ after.bound cid c (ap (lookup cid) (bind_conn-conns s c cid uid) ∙ here)
                (λ z. nz (sym is ∙ z)),
        free,
      )

  unbind-own :
      (s : Session) (c cid uid : ℕ)
      → IsValid id s
      → lookup cid s.conns ≡ some c
      → cid ≢ 0
      → uid ≢ 0
      → s.uid_of c ≡ uid
      → unbind id s cid uid ≡ ok (record (set_uid s c 0) { users = delete uid s.users }, cid)
  unfolding unbind conn_locked sessions_locked drop_user
  unbind-own s c cid uid valid here cnz nz own =
      ground (arith, here, own, nz, cnz, valid.bound cid c here, valid.by_id cid c here)

  -- Bind in a valid session where the connection `cid` is there, of any user: a connection that is not
  -- this one, and that was not bound to that user, is bound to the user that it was bound to before.
  pub bind_others :
      (s : Session) (c cid uid d : ℕ)
      → IsValid id s
      → lookup cid s.conns ≡ some c
      → d ≢ c
      → s.uid_of d ≢ uid
      → (s' : Session) × (kicked : Option ℕ) × (bind id s cid uid ≡ ok (s', kicked))
        × (s'.uid_of d ≡ s.uid_of d)
  bind_others s c cid uid d valid here h n = (
    (bind_conn id s c cid uid).0,
    (bind_conn id s c cid uid).1,
    bind-found s c cid uid here,
    bind_conn-others s c cid uid d valid h n,
  )

  -- Unbind in a valid session where the connection `cid` is there, `cid` and the user not 0: the session
  -- is valid after it; if the connection was bound to the user, the result is `cid`, the connection is
  -- bound to no user and the user's entry is gone, and otherwise the result is 0; every other user's
  -- entry, and the connections, are the same.
  pub unbind_lem :
      (s : Session) (c cid uid : ℕ)
      → IsValid id s
      → lookup cid s.conns ≡ some c
      → cid ≢ 0
      → uid ≢ 0
      → (s' : Session) × (r : ℕ) × (unbind id s cid uid ≡ ok (s', r))
        × IsValid id s'
        × (r ≡ (if s.uid_of c == uid then cid else 0))
        × (s'.uid_of c ≡ (if s.uid_of c == uid then 0 else s.uid_of c))
        × ((u : ℕ)
            → lookup u s'.users ≡ (
                if s.uid_of c == uid
                then if uid == u then none else lookup u s.users
                else lookup u s.users))
        × (s'.conns ≡ s.conns)
  unfolding unbind conn_locked sessions_locked
  unbind_lem s c cid uid valid here cnz nz = elim (Bool-cases (s.uid_of c == uid)) [
    | inl e ↦
        let own : s.uid_of c ≡ uid = ground (arith, e) in
        (
          record (set_uid s c 0) { users = delete uid s.users },
          cid,
          unbind-own s c cid uid valid here cnz nz own,
          subst (λ u. IsValid id (record (set_uid s c 0) { users = delete u s.users })) own
              (released-IsValid id s valid c cid here (λ z. nz (sym own ∙ z))),
          ground (arith, e),
          ground (arith, e),
          (λ u. ground (arith, e, lookup-delete uid u s.users)),
          refl,
        )
    | inr e ↦ (
      s,
      0,
      ground (arith, here, nz, cnz, e),
      valid,
      ground (arith, e),
      ground (arith, e),
      (λ u. ground (arith, e)),
      refl,
    )
  ]
