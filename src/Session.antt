-- ===== src/Session.antt =====
-- session/session.go. A connection is a reference into the store of the connection objects, which are
-- shared with the network layer: the store has what the session reads and changes of them, the user
-- that each is bound to and the channels among its attributes. `id` is `conn.ID()`, which never
-- changes. A method runs under the session's lock and is one step. A nil connection is no reference:
-- the maps never hold one, since AddConn refuses it.
pub mod Messages
pub mod Channels
pub mod Invariant
pub mod Binding
pub mod Ownership
pub mod Members
pub mod Subscribing
pub mod Linking
pub mod Deliveries
pub mod Keeping
pub mod Traces
mod Tests
use xbase.Prelude.{
  ℕ, ◌+◌, Bool, true, false, not, ◌&&◌, Option, some, none, List, [], ◌∷◌, Outcome, ok, err,
  bind_outcome, not_found_session, invalid_session_kind, ◌==◌, ◌||◌, if◌then◌else◌, length,
}
use xbase.Dict.{lookup, insert, delete}

pub data Kind : Type 0 where
  conn user unknown : Kind

pub record Session : Type 0 where
  pub conns : List (ℕ × ℕ)
  pub users : List (ℕ × ℕ)
  pub channels : List (ℕ × List ℕ)
  pub uid_of : ℕ → ℕ
  pub attrs_of : ℕ → List ℕ

-- Assignment to a field of one connection object.
abbrev pub update {ℓ} : {A : Type ℓ} → (ℕ → A) → ℕ → A → ℕ → A
update f a v b = if a == b then v else f b

-- `conn.Unbind()` and `conn.Bind(uid)`.
abbrev pub set_uid : Session → ℕ → ℕ → Session
set_uid s c uid = record s { uid_of = update s.uid_of c uid }

-- NewSession, in a world of connections.
abbrev pub new_session : (ℕ → ℕ) → (ℕ → List ℕ) → Session
new_session uid_of attrs_of = record {
  conns = [];
  users = [];
  channels = [];
  uid_of = uid_of;
  attrs_of = attrs_of;
}

unfoldable pub sessions_locked : Session → Kind → Outcome (List (ℕ × ℕ))
sessions_locked s conn = ok s.conns
sessions_locked s user = ok s.users
sessions_locked s unknown = err invalid_session_kind

abbrev pub found : Option ℕ → Outcome ℕ
found (some c) = ok c
found none = err not_found_session

unfoldable pub conn_locked : Session → Kind → ℕ → Outcome ℕ
unfolding sessions_locked
conn_locked s kind target =
    bind_outcome (sessions_locked s kind) (λ conns. found (lookup target conns))

abbrev pub is_found : Option ℕ → Bool
is_found (some c) = true
is_found none = false

-- Has.
unfoldable pub has_session : Session → Kind → ℕ → Outcome Bool
has_session s conn target = ok (is_found (lookup target s.conns))
has_session s user target = ok (is_found (lookup target s.users))
has_session s unknown target = err invalid_session_kind

-- Stat.
unfoldable pub stat : Session → Kind → Outcome ℕ
stat s conn = ok (length s.conns)
stat s user = ok (length s.users)
stat s unknown = err invalid_session_kind

module _ (id : ℕ → ℕ) where
  -- `if oldConn, ok := s.users[uid]; ok && oldConn.ID() != cid { oldConn.Unbind() }`
  unfoldable pub unbind_other : Session → ℕ → Option ℕ → Session
  unbind_other s cid none = s
  unbind_other s cid (some old) = if id old == cid then s else set_uid s old 0

  -- AddConn, of a connection that is not nil.
  unfoldable pub add_conn : Session → ℕ → Session
  unfolding unbind_other
  add_conn s c =
      let s₁ = record s { conns = insert (id c) c s.conns } in
      if s.uid_of c == 0
      then s₁
      else let s₂ = unbind_other s₁ (id c) (lookup (s.uid_of c) s.users) in
        record s₂ { users = insert (s.uid_of c) c s.users }

  -- `if curConn, ok := s.users[uid]; ok && curConn.ID() == cid { delete(s.users, uid) }`
  unfoldable pub drop_user : Session → ℕ → ℕ → Option ℕ → Session
  drop_user s cid uid none = s
  drop_user s cid uid (some cur) =
      if id cur == cid then record s { users = delete uid s.users } else s

  -- Bind behind the lookup of the connection. The second part is the connection that is closed, in a
  -- goroutine of its own, after the lock is released.
  unfoldable pub take_over : Session → ℕ → ℕ → ℕ → Option ℕ → Session × Option ℕ
  take_over s c cid uid none = (record (set_uid s c uid) { users = insert uid c s.users }, none)
  take_over s c cid uid (some old) =
      if id old == cid
      then (record (set_uid s c uid) { users = insert uid c s.users }, none)
      else (record (set_uid (set_uid s old 0) c uid) { users = insert uid c s.users }, some old)

  unfoldable pub bind_conn : Session → ℕ → ℕ → ℕ → Session × Option ℕ
  unfolding drop_user take_over
  bind_conn s c cid uid =
      let s₁ =
        if s.uid_of c == 0 then s else drop_user s cid (s.uid_of c) (lookup (s.uid_of c) s.users) in
      if s.uid_of c == uid
      then (s, none)
      else if uid == 0
      then (set_uid s₁ c 0, none)
      else take_over s₁ c cid uid (lookup uid s₁.users)

  unfoldable pub bind : Session → ℕ → ℕ → Outcome (Session × Option ℕ)
  unfolding conn_locked bind_conn
  bind s cid uid = bind_outcome (conn_locked s conn cid) (λ c. ok (bind_conn s c cid uid))

  -- Unbind: the connection's id, or 0 if it has another user by now.
  unfoldable pub unbind : Session → ℕ → ℕ → Outcome (Session × ℕ)
  unfolding conn_locked drop_user
  unbind s cid uid =
      if uid == 0 || cid == 0
      then err not_found_session
      else bind_outcome (conn_locked s conn cid) (λ c.
        if s.uid_of c == uid
        then ok (drop_user (set_uid s c 0) cid uid (lookup uid s.users), cid)
        else ok (s, 0))

-- Close: the connection that is asked to close, if any. The rest is RemConn's, later.
abbrev pub or_else : Option ℕ → Option ℕ → Option ℕ
or_else (some c) d = some c
or_else none d = d

abbrev pub close_target : Session → ℕ → Option ℕ → Outcome (Option ℕ)
close_target s uid none = err not_found_session
close_target s uid (some c) = if s.uid_of c == uid then ok (some c) else ok none

unfoldable pub close : Session → ℕ → ℕ → Outcome (Option ℕ)
close s cid uid = close_target s uid (or_else (lookup cid s.conns) (lookup uid s.users))
