-- ===== src/Session/Channels.antt =====
-- The channels of session/session.go: subscribing, unsubscribing, and what RemConn does to them. The
-- attributes of a connection are the channels whose key `__session_channel__:` + name is set.
use xbase.Prelude.{
  ℕ, Option, some, none, List, [], ◌∷◌, Outcome, ok, bind_outcome, ◌==◌, ◌||◌, if◌then◌else◌,
  length,
}
use xbase.Dict.{lookup, insert, delete, has, add, remove}
use xbase.Session.Messages.{or_empty}
use xbase.Session.{Session, Kind, update, sessions_locked, drop_user}

-- `delete(channelConns, conn)`, and the channel with it when it is empty.
abbrev pub put_channel : List (ℕ × List ℕ) → ℕ → List ℕ → List (ℕ × List ℕ)
put_channel chs channel [] = delete channel chs
put_channel chs channel (c ∷ cs) = insert channel (c ∷ cs) chs

abbrev pub unsubscribe_in : List (ℕ × List ℕ) → ℕ → ℕ → Option (List ℕ) → List (ℕ × List ℕ)
unsubscribe_in chs channel c none = chs
unsubscribe_in chs channel c (some cs) = put_channel chs channel (remove c cs)

-- doUnsubscribeLocked.
unfoldable pub do_unsubscribe_locked : Session → ℕ → ℕ → Session
do_unsubscribe_locked s channel c = record s {
  channels = unsubscribe_in s.channels channel c (lookup channel s.channels);
}

-- The callback of `conn.Attr().Visit` in RemConn, over the channels of the connection.
unfoldable pub leave_all : Session → ℕ → List ℕ → Session
unfolding do_unsubscribe_locked
leave_all s c [] = s
leave_all s c (channel ∷ rest) =
    leave_all (if channel == 0 then s else do_unsubscribe_locked s channel c) c rest

-- RemConn, of a connection that is not nil.
unfoldable pub rem_conn : (ℕ → ℕ) → Session → ℕ → Session
unfolding drop_user leave_all
rem_conn id s c =
    let s₁ = record s { conns = delete (id c) s.conns } in
    let s₂ =
      if s.uid_of c == 0
      then s₁
      else drop_user id s₁ (id c) (s.uid_of c) (lookup (s.uid_of c) s.users) in
    leave_all s₂ c (s.attrs_of c)

-- One target of Subscribe: its attribute is set, and it joins the set of the channel.
abbrev pub join : Session → ℕ → Option ℕ → Session
join s channel none = s
join s channel (some c) = record s {
  attrs_of = update s.attrs_of c (add channel (s.attrs_of c));
  channels = insert channel (add c (or_empty (lookup channel s.channels))) s.channels;
}

unfoldable pub join_each : List (ℕ × ℕ) → Session → ℕ → List ℕ → Session
join_each conns s channel [] = s
join_each conns s channel (t ∷ ts) = join_each conns (join s channel (lookup t conns)) channel ts

-- A channel that is not there is made, whether or not a target is found.
abbrev pub open_channel : Session → ℕ → Session
open_channel s channel = record s {
  channels = insert channel (or_empty (lookup channel s.channels)) s.channels;
}

unfoldable pub subscribe : Session → Kind → List ℕ → ℕ → Outcome Session
unfolding join_each
subscribe s kind targets channel =
    if length targets == 0 || channel == 0
    then ok s
    else bind_outcome (sessions_locked s kind)
        (λ conns. ok (join_each conns (open_channel s channel) channel targets))

-- One target of Unsubscribe: only if its attribute was set.
abbrev pub leave : Session → ℕ → Option ℕ → Session
leave s channel none = s
leave s channel (some c) =
    if has channel (s.attrs_of c)
    then do_unsubscribe_locked
        (record s { attrs_of = update s.attrs_of c (remove channel (s.attrs_of c)) }) channel c
    else s

unfoldable pub leave_each : List (ℕ × ℕ) → Session → ℕ → List ℕ → Session
unfolding do_unsubscribe_locked
leave_each conns s channel [] = s
leave_each conns s channel (t ∷ ts) = leave_each conns (leave s channel (lookup t conns)) channel ts

unfoldable pub unsubscribe : Session → Kind → List ℕ → ℕ → Outcome Session
unfolding leave_each
unsubscribe s kind targets channel =
    if length targets == 0 || channel == 0
    then ok s
    else bind_outcome (sessions_locked s kind) (λ conns. ok (leave_each conns s channel targets))
