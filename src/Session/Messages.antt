-- ===== src/Session/Messages.antt =====
-- Send, Push, Multicast, Broadcast and Publish of session/session.go. A push to a connection is an
-- action of the network layer: `push c` says whether it returns no error.
use xbase.Prelude.{
  ℕ, suc, Bool, Option, some, none, List, [], ◌∷◌, Outcome, ok, bind_outcome, map_outcome, ◌==◌,
  if◌then◌else◌, length,
}
use xbase.Dict.{lookup, values}
use xbase.Session.{Session, Kind, sessions_locked, conn_locked}

-- getConn, with which Send, Push and the four address queries begin.
unfoldable pub get_conn : Session → Kind → ℕ → Outcome ℕ
get_conn s kind target = conn_locked s kind target

abbrev pub consed : Option ℕ → List ℕ → List ℕ
consed none cs = cs
consed (some c) cs = c ∷ cs

unfoldable pub pick : List (ℕ × ℕ) → List ℕ → List ℕ
pick conns [] = []
pick conns (t ∷ ts) = consed (lookup t conns) (pick conns ts)

unfoldable pub snapshot_targets : Session → Kind → List ℕ → Outcome (List ℕ)
unfolding pick sessions_locked
snapshot_targets s kind targets =
    bind_outcome (sessions_locked s kind) (λ conns. ok (pick conns targets))

-- The order in which Go ranges over the map is any; here it is that of the list.
unfoldable pub snapshot_all : Session → Kind → Outcome (List ℕ)
unfolding sessions_locked
snapshot_all s kind = bind_outcome (sessions_locked s kind) (λ conns. ok (values conns))

abbrev pub or_empty : Option (List ℕ) → List ℕ
or_empty none = []
or_empty (some cs) = cs

unfoldable pub snapshot_channel : Session → ℕ → List ℕ
snapshot_channel s channel = or_empty (lookup channel s.channels)

-- `for _, conn := range conns { if conn.Push(message) == nil { n++ } }`
unfoldable pub push_all : (ℕ → Bool) → List ℕ → ℕ
push_all push [] = 0
push_all push (c ∷ cs) = let n = push_all push cs in if push c then suc n else n

-- The connections that were pushed to, and how many took the message.
unfoldable pub multicast : Session → (ℕ → Bool) → Kind → List ℕ → Outcome (List ℕ × ℕ)
unfolding snapshot_targets push_all
multicast s push kind targets =
    if length targets == 0
    then ok ([], 0)
    else map_outcome (λ cs. (cs, push_all push cs)) (snapshot_targets s kind targets)

unfoldable pub broadcast : Session → (ℕ → Bool) → Kind → Outcome (List ℕ × ℕ)
unfolding snapshot_all push_all
broadcast s push kind = map_outcome (λ cs. (cs, push_all push cs)) (snapshot_all s kind)

unfoldable pub publish : Session → (ℕ → Bool) → ℕ → List ℕ × ℕ
unfolding snapshot_channel push_all
publish s push channel =
    if channel == 0
    then ([], 0)
    else (snapshot_channel s channel, push_all push (snapshot_channel s channel))
