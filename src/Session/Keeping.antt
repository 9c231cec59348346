-- ===== src/Session/Keeping.antt =====
-- The methods of session/session.go and both invariants: the one of the maps and the bindings, and the
-- one of the channels and the attributes.
use xbase.Prelude.{
  ℕ, ◌≡◌, ◌≢◌, refl, ap, sym, subst, ◌∙◌, Bool, true, false, Option, some, none, List, [], ◌∷◌,
  arith, ◌==◌, ◌||◌, if◌then◌else◌, length, Option-cases, Bool-cases, inl, inr, Outcome, ok, err,
  panic, bind_outcome,
}
use xbase.Dict.{lookup, has}
use xbase.Session.{
  Session, Kind, set_uid, sessions_locked, conn_locked, add_conn, unbind_other, drop_user,
  take_over, bind_conn, bind, unbind,
}
use xbase.Session.Channels.{
  do_unsubscribe_locked, leave_all, rem_conn, join, join_each, open_channel, subscribe, leave,
  leave_each, unsubscribe,
}
use xbase.Session.Invariant.{IsValid}
use xbase.Session.Binding.{IsValid-ext, bind_conn-IsValid}
use xbase.Session.Ownership.{unbind_lem}
use xbase.Session.Messages.{snapshot_channel}
use xbase.Session.Subscribing.{subscribed}
use xbase.Session.Linking.{Linked, join_each-Linked, open_channel-same, leave_each-Linked}
use xbase.Session.Deliveries.{rem_conn-channels}

-- What holds of the session of a result.
abbrev pub Of {ℓ} : {A : Type ℓ} → (A → Type 0) → Outcome A → Type 0
Of P (ok a) = P a
Of P (err e) = Unit
Of P panic = Unit

abbrev pub Both : (ℕ → ℕ) → Session → Type 0
Both id s = IsValid id s × Linked s

module _ (id : ℕ → ℕ) where
  channels-IsValid :
      (s : Session) (channels : List (ℕ × List ℕ)) (attrs_of : ℕ → List ℕ)
      → IsValid id s
      → IsValid id (record s { channels = channels; attrs_of = attrs_of })
  channels-IsValid s channels attrs_of valid =
      IsValid-ext id s s.users s.uid_of channels attrs_of (λ u. refl) (λ d. refl) valid

  join_each-IsValid :
      (conns : List (ℕ × ℕ)) (s : Session) (channel : ℕ) (ts : List ℕ)
      → IsValid id s
      → IsValid id (join_each conns s channel ts)
  unfolding join_each
  join_each-IsValid conns s channel [] valid = valid
  join_each-IsValid conns s channel (t ∷ ts) valid =
      join_each-IsValid conns (join s channel (lookup t conns)) channel ts
        (join-IsValid (lookup t conns))
    where
      join-IsValid : (o : Option ℕ) → IsValid id (join s channel o)
      join-IsValid none = valid
      join-IsValid (some c) =
          channels-IsValid s (join s channel (some c)).channels (join s channel (some c)).attrs_of
            valid

  leave_each-IsValid :
      (conns : List (ℕ × ℕ)) (s : Session) (channel : ℕ) (ts : List ℕ)
      → IsValid id s
      → IsValid id (leave_each conns s channel ts)
  unfolding leave_each do_unsubscribe_locked
  leave_each-IsValid conns s channel [] valid = valid
  leave_each-IsValid conns s channel (t ∷ ts) valid =
      leave_each-IsValid conns (leave s channel (lookup t conns)) channel ts
        (leave-IsValid (lookup t conns))
    where
      leave-IsValid : (o : Option ℕ) → IsValid id (leave s channel o)
      leave-IsValid none = valid
      leave-IsValid (some c) = elim (Bool-cases (has channel (s.attrs_of c))) [
        | inl e ↦ rw e (IsValid-ext id s s.users s.uid_of _ _ (λ u. refl) (λ d. refl) valid)
        | inr e ↦ rw e valid
      ]

  open_channel-Linked : (s : Session) (channel : ℕ) → Linked s → Linked (open_channel s channel)
  open_channel-Linked s channel l = record {
    marked = λ other c e. l.marked other c (sym (open_channel-same s channel other c) ∙ e);
    named = λ c. open_channel-same s channel 0 c ∙ l.named c;
  }

  pub subscribe-Both :
      (s : Session) (kind : Kind) (targets : List ℕ) (channel : ℕ)
      → Both id s
      → Of (Both id) (subscribe s kind targets channel)
  unfolding subscribe
  subscribe-Both s kind targets channel (valid, l) =
      by_guard (length targets == 0 || channel == 0) (sessions_locked s kind)
        (λ g z. ground (arith, g, z))
    where
      by_guard :
          (g : Bool) (o : Outcome (List (ℕ × ℕ)))
          → (g ≡ false → channel ≢ 0)
          → Of (Both id) (
              if g
              then ok s
              else bind_outcome o
                  (λ conns. ok (join_each conns (open_channel s channel) channel targets)))
      by_guard true o h = (valid, l)
      by_guard false (ok conns) h = (
        join_each-IsValid conns (open_channel s channel) channel targets
            (channels-IsValid s (open_channel s channel).channels s.attrs_of valid),
        join_each-Linked conns (open_channel s channel) channel targets (h refl)
            (open_channel-Linked s channel l),
      )
      by_guard false (err e) h = tt
      by_guard false panic h = tt

  pub unsubscribe-Both :
      (s : Session) (kind : Kind) (targets : List ℕ) (channel : ℕ)
      → Both id s
      → Of (Both id) (unsubscribe s kind targets channel)
  unfolding unsubscribe
  unsubscribe-Both s kind targets channel (valid, l) =
      by_guard (length targets == 0 || channel == 0) (sessions_locked s kind)
    where
      by_guard :
          (g : Bool) (o : Outcome (List (ℕ × ℕ)))
          → Of (Both id) (
              if g then ok s else bind_outcome o (λ conns. ok (leave_each conns s channel targets)))
      by_guard true o = (valid, l)
      by_guard false (ok conns) = (
        leave_each-IsValid conns s channel targets valid,
        leave_each-Linked conns s channel targets l,
      )
      by_guard false (err e) = tt
      by_guard false panic = tt

  -- The channels and the attributes are all that Linked is about.
  Linked-same :
      (s s' : Session) → s'.channels ≡ s.channels → s'.attrs_of ≡ s.attrs_of → Linked s → Linked s'
  Linked-same s s' e f l = record {
    marked = λ channel c h.
        ap (λ at. has channel (at c)) f
        ∙ l.marked channel c (ap (λ chs. subscribed chs channel c) (sym e) ∙ h);
    named = λ c. ap (λ chs. subscribed chs 0 c) e ∙ l.named c;
  }

  pub add_conn-Linked : (s : Session) (c : ℕ) → Linked s → Linked (add_conn id s c)
  unfolding add_conn unbind_other
  add_conn-Linked s c l = Linked-same s (add_conn id s c) (ground arith) (ground arith) l

  bind_conn-Linked : (s : Session) (c cid uid : ℕ) → Linked s → Linked (bind_conn id s c cid uid).0
  unfolding bind_conn take_over drop_user
  bind_conn-Linked s c cid uid l =
      Linked-same s (bind_conn id s c cid uid).0 (ground arith) (ground arith) l

  pub bind-Both :
      (s : Session) (cid uid : ℕ)
      → Both id s
      → Of {A = Session × Option ℕ} (λ r. Both id r.0) (bind id s cid uid)
  unfolding bind conn_locked sessions_locked
  bind-Both s cid uid (valid, l) = elim (Option-cases (lookup cid s.conns)) [
    | inl e ↦ rw e tt
    | inr (c, e) ↦ rw e (bind_conn-IsValid id s c cid uid valid e, bind_conn-Linked s c cid uid l)
  ]

  drop_user-Linked :
      (s : Session) (cid uid : ℕ) (o : Option ℕ) → Linked s → Linked (drop_user id s cid uid o)
  unfolding drop_user
  drop_user-Linked s cid uid none l = l
  drop_user-Linked s cid uid (some c) l =
      Linked-same s (drop_user id s cid uid (some c)) (ground arith) (ground arith) l

  pub unbind-Both :
      (s : Session) (cid uid : ℕ)
      → Both id s
      → Of {A = Session × ℕ} (λ r. Both id r.0) (unbind id s cid uid)
  unfolding unbind conn_locked sessions_locked
  unbind-Both s cid uid (valid, l) = elim (Bool-cases (uid == 0 || cid == 0)) [
    | inl g ↦ rw g tt
    | inr g ↦ elim (Option-cases (lookup cid s.conns)) [
      | inl e ↦ rw (g, e) tt
      | inr (c, e) ↦
          let (s', r, run, valid', _, _, _, _) =
            unbind_lem id s c cid uid valid e (ground (arith, g)) (ground (arith, g)) in
          both (unbind id s cid uid) (s', r) run valid'
            (rw (g, e) (of_linked c (s.uid_of c == uid)))
    ]
  ]
    where
      of_linked :
          (c : ℕ) (b : Bool)
          → Of {A = Session × ℕ}
              (λ r. Linked r.0)
              (if b
                then ok (drop_user id (set_uid s c 0) cid uid (lookup uid s.users), cid)
                else ok (s, 0))
      of_linked c true =
          drop_user-Linked (set_uid s c 0) cid uid (lookup uid s.users)
            (Linked-same s (set_uid s c 0) refl refl l)
      of_linked c false = l

      both :
          (o : Outcome (Session × ℕ)) (r : Session × ℕ)
          → o ≡ ok r
          → IsValid id r.0
          → Of {A = Session × ℕ} (λ r. Linked r.0) o
          → Of {A = Session × ℕ} (λ r. Both id r.0) o
      both o r e v h =
          subst (Of {A = Session × ℕ} (λ r. Both id r.0)) (sym e)
            (v, subst (Of {A = Session × ℕ} (λ r. Linked r.0)) e h)

  leave_all-attrs : (s : Session) (c : ℕ) (chs : List ℕ) → (leave_all s c chs).attrs_of ≡ s.attrs_of
  unfolding leave_all do_unsubscribe_locked
  leave_all-attrs s c [] = refl
  leave_all-attrs s c (channel ∷ chs) =
      leave_all-attrs (if channel == 0 then s else do_unsubscribe_locked s channel c) c chs
      ∙ ground arith

  rem_conn-attrs : (s : Session) (c : ℕ) → (rem_conn id s c).attrs_of ≡ s.attrs_of
  unfolding rem_conn drop_user
  rem_conn-attrs s c = leave_all-attrs _ c (s.attrs_of c) ∙ ground arith

  pub rem_conn-Linked : (s : Session) (c : ℕ) → Linked s → Linked (rem_conn id s c)
  unfolding snapshot_channel
  rem_conn-Linked s c l = record {
    marked = λ channel d e.
        ap (λ at. has channel (at d)) (rem_conn-attrs s c)
        ∙ l.marked channel d (ground (arith, e, rem_conn-channels id s c channel d l));
    named = λ d. ground (arith, l.named d, rem_conn-channels id s c 0 d l);
  }
