-- ===== src/Session/Binding.antt =====
-- Bind, Unbind, AddConn and RemConn of session/session.go and the invariant.
use xbase.Prelude.{
  ℕ, ◌≡◌, ◌≢◌, refl, ap, ap₂, sym, subst, ◌∙◌, Bool, true, false, Option, some, none, List, arith,
  ◌==◌, if◌then◌else◌, Option-cases, Bool-cases, inl, inr,
}
use xbase.Dict.{lookup, insert, delete, lookup-insert, lookup-delete}
use xbase.Session.{Session, update, set_uid, drop_user, take_over, bind_conn}
use xbase.Session.Invariant.{IsValid, released, released-IsValid, taken, taken-IsValid}

module _ (id : ℕ → ℕ) where
  -- The entry of a user that a connection is bound to is the connection's own, so the guard is met.
  pub drop_user-own :
      (s : Session) (c cid uid : ℕ)
      → id c ≡ cid
      → lookup uid s.users ≡ some c
      → drop_user id s cid uid (lookup uid s.users) ≡ record s { users = delete uid s.users }
  unfolding drop_user
  drop_user-own s c cid uid h e = ground (arith, h, e)

  pub IsValid-ext :
      (s : Session) (users : List (ℕ × ℕ)) (uid_of : ℕ → ℕ) (channels : List (ℕ × List ℕ))
      (attrs_of : ℕ → List ℕ)
      → ((u : ℕ) → lookup u users ≡ lookup u s.users)
      → ((d : ℕ) → uid_of d ≡ s.uid_of d)
      → IsValid id s
      → IsValid id (record {
        conns = s.conns;
        users = users;
        channels = channels;
        uid_of = uid_of;
        attrs_of = attrs_of;
      })
  IsValid-ext s users uid_of channels attrs_of same same_uid valid = record {
    by_id = valid.by_id;
    by_uid = λ u d e. same_uid d ∙ valid.by_uid u d (sym (same u) ∙ e);
    nonzero = λ d e. valid.nonzero d (sym (same 0) ∙ e);
    known = λ u d e. valid.known u d (sym (same u) ∙ e);
    bound = λ k d e n.
        same (uid_of d)
        ∙ ap (λ u. lookup u s.users) (same_uid d)
        ∙ valid.bound k d e (λ z. n (same_uid d ∙ z));
  }

  -- Two connections of the session that are bound to different users have different ids.
  ids_differ :
      (s : Session) (c cid d : ℕ)
      → IsValid id s
      → lookup cid s.conns ≡ some c
      → lookup (id d) s.conns ≡ some d
      → s.uid_of d ≢ s.uid_of c
      → id d ≢ cid
  ids_differ s c cid d valid here e n i =
      ground (arith, here, e, n, i, ap (λ k. lookup k s.conns) i)

  take_over-other :
      (s : Session) (c cid uid old : ℕ)
      → id old ≢ cid
      → take_over id s c cid uid (some old)
        ≡ (record (set_uid (set_uid s old 0) c uid) { users = insert uid c s.users }, some old)
  unfolding take_over
  take_over-other s c cid uid old h = ground (arith, h)

  evicted-IsValid :
      (s : Session) (c cid uid old : ℕ)
      → IsValid id s
      → lookup cid s.conns ≡ some c
      → s.uid_of c ≡ 0
      → uid ≢ 0
      → lookup uid s.users ≡ some old
      → IsValid id (record (set_uid (set_uid s old 0) c uid) { users = insert uid c s.users })
  evicted-IsValid s c cid uid old valid here free nz e =
      let user : s.uid_of old ≡ uid = valid.by_uid uid old e in
      let before =
        released-IsValid id s valid old (id old) (valid.known uid old e) (λ z. nz (sym user ∙ z)) in
      let s₁ = released id s valid old (id old) (valid.known uid old e) in
      IsValid-ext (taken id s₁ before c cid here uid) (insert uid c s.users) _ s.channels s.attrs_of
        (λ u. ground (
          arith,
          user,
          lookup-insert uid u c s.users,
          lookup-insert uid u c (delete (s.uid_of old) s.users),
          lookup-delete (s.uid_of old) u s.users,
        ))
        (λ d. refl)
        (taken-IsValid id s₁ before c cid here uid nz (ground (arith, free))
          (ground (arith, user, lookup-delete (s.uid_of old) uid s.users)))

  take_over-IsValid :
      (s : Session) (c cid uid : ℕ)
      → IsValid id s
      → lookup cid s.conns ≡ some c
      → s.uid_of c ≡ 0
      → uid ≢ 0
      → IsValid id (take_over id s c cid uid (lookup uid s.users)).0
  unfolding take_over
  take_over-IsValid s c cid uid valid here free nz = elim (Option-cases (lookup uid s.users)) [
    | inl e ↦
        subst (λ o. IsValid id (take_over id s c cid uid o).0) (sym e)
          (taken-IsValid id s valid c cid here uid nz free e)
    | inr (old, e) ↦
        subst (λ o. IsValid id (take_over id s c cid uid o).0) (sym e)
          (subst (λ r. IsValid id r.0)
            (sym (
              take_over-other s c cid uid old (
                ids_differ s c cid old valid here (valid.known uid old e)
                  (λ z. nz (sym (valid.by_uid uid old e) ∙ z ∙ free)))))
            (evicted-IsValid s c cid uid old valid here free nz e))
  ]

  set_twice : (f : ℕ → ℕ) (a u : ℕ) → update (update f a 0) a u ≡ update f a u
  set_twice f a u = λ i d. pointwise f a u d i
    where
      pointwise : (f : ℕ → ℕ) (a u d : ℕ) → update (update f a 0) a u d ≡ update f a u d
      pointwise f a u d = ground arith

  set_thrice :
      (f : ℕ → ℕ) (a b u : ℕ) → update (update (update f a 0) b 0) a u ≡ update (update f b 0) a u
  set_thrice f a b u = λ i d. pointwise f a b u d i
    where
      pointwise :
          (f : ℕ → ℕ) (a b u d : ℕ)
          → update (update (update f a 0) b 0) a u d ≡ update (update f b 0) a u d
      pointwise f a b u d = ground arith

  -- The user that `c` was bound to is overwritten, so it may as well be cleared before.
  take_over-cleared :
      (s : Session) (c cid uid : ℕ) (o : Option ℕ)
      → take_over id (set_uid s c 0) c cid uid o ≡ take_over id s c cid uid o
  unfolding take_over
  take_over-cleared s c cid uid none =
      ap (λ f. (record s { uid_of = f; users = insert uid c s.users }, none))
        (set_twice s.uid_of c uid)
  take_over-cleared s c cid uid (some old) =
      ap₂
        (λ f g.
          if id old == cid
          then (record s { uid_of = f; users = insert uid c s.users }, none)
          else (record s { uid_of = g; users = insert uid c s.users }, some old))
        (set_twice s.uid_of c uid) (set_thrice s.uid_of c old uid)

  -- Bind of a connection that is bound to no user.
  pub bind_conn-free :
      (s : Session) (c cid uid : ℕ)
      → s.uid_of c ≡ 0
      → bind_conn id s c cid uid ≡ (
          if s.uid_of c == uid
          then (s, none)
          else if uid == 0
          then (set_uid s c 0, none)
          else take_over id s c cid uid (lookup uid s.users))
  unfolding bind_conn
  bind_conn-free s c cid uid h = ground (arith, h)

  -- Bind of a connection that is bound to a user: as if it were unbound first.
  pub bind_conn-bound :
      (s : Session) (c cid uid : ℕ)
      → id c ≡ cid
      → s.uid_of c ≢ 0
      → lookup (s.uid_of c) s.users ≡ some c
      → bind_conn id s c cid uid ≡ (
          if s.uid_of c == uid
          then (s, none)
          else if uid == 0
          then (record (set_uid s c 0) { users = delete (s.uid_of c) s.users }, none)
          else take_over id
              (record s { users = delete (s.uid_of c) s.users })
              c
              cid
              uid
              (lookup uid (delete (s.uid_of c) s.users)))
  unfolding bind_conn
  bind_conn-bound s c cid uid same bound h =
      ground (arith, bound, drop_user-own s c cid (s.uid_of c) same h)

  -- The three ways that Bind goes on: nothing to do, an unbinding, a new user.
  by_tests :
      (r : Session × Option ℕ) (b d : Bool) (x y z : Session × Option ℕ)
      → r ≡ (if b then x else if d then y else z)
      → IsValid id x.0
      → IsValid id y.0
      → (d ≡ false → IsValid id z.0)
      → IsValid id r.0
  by_tests r true d x y z e f g h = subst (λ r. IsValid id r.0) (sym e) f
  by_tests r false true x y z e f g h = subst (λ r. IsValid id r.0) (sym e) g
  by_tests r false false x y z e f g h = subst (λ r. IsValid id r.0) (sym e) (h refl)

  unset-IsValid : (s : Session) (c : ℕ) → s.uid_of c ≡ 0 → IsValid id s → IsValid id (set_uid s c 0)
  unset-IsValid s c free valid =
      IsValid-ext s s.users _ s.channels s.attrs_of (λ u. refl) (λ d. ground (arith, free)) valid

  pub bind_conn-IsValid :
      (s : Session) (c cid uid : ℕ)
      → IsValid id s
      → lookup cid s.conns ≡ some c
      → IsValid id (bind_conn id s c cid uid).0
  bind_conn-IsValid s c cid uid valid here = elim (Bool-cases (s.uid_of c == 0)) [
    | inl z ↦
        let free : s.uid_of c ≡ 0 = ground (arith, z) in
        by_tests (bind_conn id s c cid uid) (s.uid_of c == uid) (uid == 0) (s, none)
          (set_uid s c 0, none) (take_over id s c cid uid (lookup uid s.users))
          (bind_conn-free s c cid uid free) valid (unset-IsValid s c free valid)
          (λ n. take_over-IsValid s c cid uid valid here free (ground (arith, n)))
    | inr z ↦
        let bound : s.uid_of c ≢ 0 = ground (arith, z) in
        let own = valid.bound cid c here bound in
        let s₁ : Session = record s { users = delete (s.uid_of c) s.users } in
        by_tests (bind_conn id s c cid uid) (s.uid_of c == uid) (uid == 0) (s, none)
          (set_uid s₁ c 0, none) (take_over id s₁ c cid uid (lookup uid s₁.users))
          (bind_conn-bound s c cid uid (valid.by_id cid c here) bound own) valid
          (released-IsValid id s valid c cid here bound)
          (λ n.
            subst (λ r. IsValid id r.0) (take_over-cleared s₁ c cid uid (lookup uid s₁.users))
              (take_over-IsValid (released id s valid c cid here) c cid uid
                (released-IsValid id s valid c cid here bound) here (ground arith)
                (ground (arith, n))))
  ]
