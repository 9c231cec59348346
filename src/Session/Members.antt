-- ===== src/Session/Members.antt =====
-- AddConn and RemConn of session/session.go: what they do to the two maps, and the invariant.
use xbase.Prelude.{
  ℕ, ◌≡◌, ◌≢◌, refl, ap, sym, subst, ◌∙◌, Bool, true, false, some, none, List, [], ◌∷◌, arith, ◌==◌,
  if◌then◌else◌, Option-cases, Bool-cases, inl, inr,
}
use xbase.Dict.{lookup, delete, lookup-insert, lookup-delete}
use xbase.Session.{Session, unbind_other, add_conn, drop_user}
use xbase.Session.Channels.{leave_all, do_unsubscribe_locked, rem_conn}
use xbase.Session.Invariant.{IsValid}
use xbase.Session.Binding.{drop_user-own}

module _ (id : ℕ → ℕ) where
  add_conn-IsValid :
      (s : Session) (c : ℕ)
      → IsValid id s
      → lookup (id c) s.conns ≡ none
      → IsValid id (add_conn id s c)
  unfolding add_conn unbind_other
  add_conn-IsValid s c valid fresh = record {
    by_id = λ k d e. ground (arith, valid.by_id k d, lookup-insert (id c) k c s.conns);
    by_uid = λ u d e. ground (
      arith,
      fresh,
      valid.by_uid u d,
      valid.by_uid (s.uid_of c) d,
      valid.known u d,
      valid.by_uid u c,
      valid.known u c,
      lookup-insert (s.uid_of c) u c s.users,
    );
    nonzero = λ d e. ground (arith, valid.nonzero d, lookup-insert (s.uid_of c) 0 c s.users);
    known = λ u d e. ground (
      arith,
      fresh,
      valid.known u d,
      lookup-insert (id c) (id d) c s.conns,
      lookup-insert (id c) (id c) c s.conns,
      lookup-insert (s.uid_of c) u c s.users,
    );
    bound = λ k d e n. ground (
      arith,
      fresh,
      valid.bound k d,
      valid.by_id k d,
      lookup-insert (id c) k c s.conns,
      lookup-insert (s.uid_of c) (s.uid_of d) c s.users,
      lookup-insert (s.uid_of c) (s.uid_of c) c s.users,
      e,
      n,
    );
  }

  -- AddConn of a connection whose id no connection of the session has keeps the session valid, puts the
  -- connection under its id and, if it is bound to a user, under that user; every other user's entry is
  -- the same.
  pub add_conn_lem :
      (s : Session) (c : ℕ)
      → IsValid id s
      → lookup (id c) s.conns ≡ none
      → IsValid id (add_conn id s c)
        × (lookup (id c) (add_conn id s c).conns ≡ some c)
        × ((u : ℕ)
            → lookup u (add_conn id s c).users ≡ (
                if s.uid_of c == 0
                then lookup u s.users
                else if s.uid_of c == u
                then some c
                else lookup u s.users))
  unfolding add_conn unbind_other
  add_conn_lem s c valid fresh = (
    add_conn-IsValid s c valid fresh,
    ground (arith, lookup-insert (id c) (id c) c s.conns),
    (λ u. ground (arith, lookup-insert (s.uid_of c) u c s.users)),
  )

  skip-rest :
      (b : Bool) (s : Session) (chs cur : List (ℕ × List ℕ))
      → record (if b then s else record s { channels = chs }) { channels = cur }
        ≡ record s { channels = cur }
  skip-rest true s chs cur = refl
  skip-rest false s chs cur = refl

  -- Leaving channels changes nothing but the channels.
  leave_all-rest :
      (s : Session) (c : ℕ) (chs : List ℕ)
      → leave_all s c chs ≡ record s { channels = (leave_all s c chs).channels }
  unfolding leave_all do_unsubscribe_locked
  leave_all-rest s c [] = refl
  leave_all-rest s c (ch ∷ chs) =
      leave_all-rest (if ch == 0 then s else do_unsubscribe_locked s ch c) c chs
      ∙ skip-rest (ch == 0) s (do_unsubscribe_locked s ch c).channels
          (leave_all s c (ch ∷ chs)).channels

  -- The users without the entry of the connection.
  abbrev users_without : Session → ℕ → List (ℕ × ℕ)
  users_without s c = if s.uid_of c == 0 then s.users else delete (s.uid_of c) s.users

  lookup-users_without :
      (s : Session) (c u : ℕ)
      → IsValid id s
      → lookup u (users_without s c) ≡ (if s.uid_of c == u then none else lookup u s.users)
  lookup-users_without s c u valid = elim (Option-cases (lookup 0 s.users)) [
    | inl e ↦ ground (arith, e, lookup-delete (s.uid_of c) u s.users, ap (λ v. lookup v s.users))
    | inr (d, e) ↦ absurd (valid.nonzero d e)
  ]

  same_entry : (s : Session) (c d : ℕ) → id c ≡ id d → lookup (id c) s.conns ≡ lookup (id d) s.conns
  same_entry s c d i = ap (λ k. lookup k s.conns) i

  removed-IsValid :
      (s : Session) (c : ℕ) (chs : List (ℕ × List ℕ))
      → IsValid id s
      → lookup (id c) s.conns ≡ some c
      → IsValid id
          (record s { conns = delete (id c) s.conns; users = users_without s c; channels = chs })
  removed-IsValid s c chs valid here = record {
    by_id = λ k d e. ground (arith, valid.by_id k d, lookup-delete (id c) k s.conns);
    by_uid = λ u d e. ground (arith, valid.by_uid u d, lookup-delete (s.uid_of c) u s.users);
    nonzero = λ d e. ground (arith, valid.nonzero d, lookup-delete (s.uid_of c) 0 s.users);
    known = λ u d e. ground (
      arith,
      here,
      valid.known u d,
      valid.by_uid u d,
      valid.nonzero d,
      same_entry s c d,
      lookup-delete (id c) (id d) s.conns,
      lookup-delete (s.uid_of c) u s.users,
      e,
    );
    bound = λ k d e n. ground (
      arith,
      here,
      valid.bound k d,
      valid.by_id k d,
      valid.bound (id c) c,
      lookup-delete (id c) k s.conns,
      lookup-delete (s.uid_of c) (s.uid_of d) s.users,
      e,
      n,
    );
  }

  rem_conn-is :
      (s : Session) (c : ℕ)
      → IsValid id s
      → lookup (id c) s.conns ≡ some c
      → (chs : List (ℕ × List ℕ)) × (rem_conn id s c
          ≡ record s { conns = delete (id c) s.conns; users = users_without s c; channels = chs })
  unfolding rem_conn
  rem_conn-is s c valid here =
      let s₁ = record s { conns = delete (id c) s.conns } in
      let dropped = without s₁ c (valid.bound (id c) c here) in
      let s₂ : Session = record s₁ { users = users_without s c } in
      (
        (leave_all s₂ c (s.attrs_of c)).channels,
        ap (λ r. leave_all r c (s.attrs_of c)) dropped ∙ leave_all-rest s₂ c (s.attrs_of c),
      )
    where
      without :
          (s : Session) (c : ℕ)
          → (s.uid_of c ≢ 0 → lookup (s.uid_of c) s.users ≡ some c)
          → (if s.uid_of c == 0
              then s
              else drop_user id s (id c) (s.uid_of c) (lookup (s.uid_of c) s.users))
            ≡ record s { users = users_without s c }
      without s c own = elim (Bool-cases (s.uid_of c == 0)) [
        | inl e ↦ ground (arith, e)
        | inr e ↦
            let n : s.uid_of c ≢ 0 = ground (arith, e) in
            ground (arith, e, drop_user-own id s c (id c) (s.uid_of c) refl (own n))
      ]

  -- RemConn of a connection of a valid session: the session is valid after it, the entry of the
  -- connection's id is gone and every other id's entry is the same, and the entry of the user that it is
  -- bound to is gone, whereas every other user's entry is the same.
  pub rem_conn_lem :
      (s : Session) (c : ℕ)
      → IsValid id s
      → lookup (id c) s.conns ≡ some c
      → IsValid id (rem_conn id s c)
        × ((k : ℕ)
            → lookup k (rem_conn id s c).conns ≡ (if id c == k then none else lookup k s.conns))
        × ((u : ℕ)
            → lookup u (rem_conn id s c).users
              ≡ (if s.uid_of c == u then none else lookup u s.users))
  rem_conn_lem s c valid here =
      let (chs, e) = rem_conn-is s c valid here in
      (
        subst (IsValid id) (sym e) (removed-IsValid s c chs valid here),
        (λ k. ap (λ r. lookup k r.conns) e ∙ lookup-delete (id c) k s.conns),
        (λ u. ap (λ r. lookup u r.users) e ∙ lookup-users_without s c u valid),
      )
