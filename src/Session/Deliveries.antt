-- ===== src/Session/Deliveries.antt =====
-- What Subscribe, Unsubscribe, RemConn and Multicast of session/session.go promise on who gets a message.
use xbase.Prelude.{
  ℕ, suc, ◌≡◌, ◌≢◌, ◌≤◌, refl, ap, sym, ◌∙◌, Bool, true, false, Option, some, none, List, [], ◌∷◌,
  arith, ◌==◌, if◌then◌else◌, Bool-cases, inl, inr, ok, length, All,
}
use xbase.Dict.{lookup, has, lookup-insert}
use xbase.Session.{Session, Kind, sessions_locked, drop_user}
use xbase.Session.Messages.{
  snapshot_channel, or_empty, consed, pick, snapshot_targets, push_all, multicast,
}
use xbase.Session.Channels.{
  leave_all, rem_conn, join_each, open_channel, subscribe, leave_each, unsubscribe,
}
use xbase.Session.Subscribing.{subscribed, leave_all-other, leave_all-absent, leave_all-left}
use xbase.Session.Linking.{
  Linked, open_channel-same, join_each-Linked, join_each-joins, leave_each-Linked, leave_each-left,
}

-- Subscribe of at least one target to a channel with a name, by a valid kind: it succeeds, the
-- attributes still cover the channels, and every target that is in the session is then in the snapshot
-- with which Publish sends to the channel.
pub subscribe_lem :
    (s : Session) (kind : Kind) (conns : List (ℕ × ℕ)) (targets : List ℕ) (channel t c : ℕ)
    → Linked s
    → sessions_locked s kind ≡ ok conns
    → length targets ≢ 0
    → channel ≢ 0
    → has t targets ≡ true
    → lookup t conns ≡ some c
    → (s' : Session) × (subscribe s kind targets channel ≡ ok s')
      × Linked s'
      × (has c (snapshot_channel s' channel) ≡ true)
unfolding subscribe snapshot_channel
subscribe_lem s kind conns targets channel t c l k len nz h e =
    let opened : Linked (open_channel s channel) = record {
      marked = λ other c e. l.marked other c (sym (open_channel-same s channel other c) ∙ e);
      named = λ c. open_channel-same s channel 0 c ∙ l.named c;
    } in
    (
      join_each conns (open_channel s channel) channel targets,
      ground (arith, k, len, nz),
      join_each-Linked conns (open_channel s channel) channel targets nz opened,
      join_each-joins conns (open_channel s channel) channel targets t c h e,
    )

-- Unsubscribe of at least one target from a channel with a name, by a valid kind, where the attributes
-- cover the channels: it succeeds, they still do, and no target that is in the session is then in the
-- snapshot with which Publish sends to the channel.
pub unsubscribe_lem :
    (s : Session) (kind : Kind) (conns : List (ℕ × ℕ)) (targets : List ℕ) (channel t c : ℕ)
    → Linked s
    → sessions_locked s kind ≡ ok conns
    → length targets ≢ 0
    → channel ≢ 0
    → has t targets ≡ true
    → lookup t conns ≡ some c
    → (s' : Session) × (unsubscribe s kind targets channel ≡ ok s')
      × Linked s'
      × (has c (snapshot_channel s' channel) ≡ false)
unfolding unsubscribe snapshot_channel
unsubscribe_lem s kind conns targets channel t c l k len nz h e = (
  leave_each conns s channel targets,
  ground (arith, k, len, nz),
  leave_each-Linked conns s channel targets l,
  leave_each-left conns s channel targets t c l h e,
)

rem_conn-start :
    (id : ℕ → ℕ) (s : Session) (c : ℕ)
    → (s₂ : Session) × (rem_conn id s c ≡ leave_all s₂ c (s.attrs_of c))
      × (s₂.channels ≡ s.channels)
unfolding rem_conn drop_user
rem_conn-start id s c = (_, refl, ground arith)

leave_all-gone :
    (s s₂ : Session) (c channel : ℕ)
    → Linked s
    → s₂.channels ≡ s.channels
    → subscribed (leave_all s₂ c (s.attrs_of c)).channels channel c ≡ false
leave_all-gone s s₂ c channel l e = elim (Bool-cases (subscribed s.channels channel c)) [
  | inl h ↦
      leave_all-left s₂ c (s.attrs_of c) channel (l.marked channel c h)
        (λ z. ground (arith, h, l.named c, ap (λ j. subscribed s.channels j c) z))
  | inr h ↦
      leave_all-absent s₂ c (s.attrs_of c) channel (ap (λ chs. subscribed chs channel c) e ∙ h)
]

-- RemConn, where the attributes cover the channels: the removed connection is in the snapshot of no
-- channel, and every other connection is in the snapshots that it was in before.
pub rem_conn-channels :
    (id : ℕ → ℕ) (s : Session) (c channel d : ℕ)
    → Linked s
    → has d (snapshot_channel (rem_conn id s c) channel)
      ≡ (if c == d then false else has d (snapshot_channel s channel))
unfolding rem_conn snapshot_channel
rem_conn-channels id s c channel d l =
    let (s₂, e, same) = rem_conn-start id s c in
    ground (
      arith,
      ap (λ r. subscribed r.channels channel d) e,
      leave_all-gone s s₂ c channel l same,
      leave_all-other s₂ c (s.attrs_of c) channel d,
      ap (λ chs. subscribed chs channel d) same,
    )

length-pick : (conns : List (ℕ × ℕ)) (ts : List ℕ) → length (pick conns ts) ≤ length ts
unfolding pick
length-pick conns [] = omega arith
length-pick conns (t ∷ ts) = ground (arith, length-pick conns ts)

-- Every connection that is picked is the entry of a target.
abbrev pub Targeted : List (ℕ × ℕ) → List ℕ → ℕ → Type 0
Targeted conns ts c = (t : ℕ) × (has t ts ≡ true) × (lookup t conns ≡ some c)

Targeted-more :
    (conns : List (ℕ × ℕ)) (t : ℕ) (ts : List ℕ) (c : ℕ)
    → Targeted conns ts c
    → Targeted conns (t ∷ ts) c
unfolding has
Targeted-more conns t ts c (u, h, e) = (u, ground (arith, h), e)

Targeted-All :
    (conns : List (ℕ × ℕ)) (t : ℕ) (ts cs : List ℕ)
    → All (Targeted conns ts) cs
    → All (Targeted conns (t ∷ ts)) cs
Targeted-All conns t ts [] h = tt
Targeted-All conns t ts (c ∷ cs) (h, hs) =
    (Targeted-more conns t ts c h, Targeted-All conns t ts cs hs)

consed-Targeted :
    (conns : List (ℕ × ℕ)) (t : ℕ) (ts cs : List ℕ) (o : Option ℕ)
    → lookup t conns ≡ o
    → All (Targeted conns ts) cs
    → All (Targeted conns (t ∷ ts)) (consed o cs)
unfolding has
consed-Targeted conns t ts cs none e h = Targeted-All conns t ts cs h
consed-Targeted conns t ts cs (some d) e h = ((t, ground arith, e), Targeted-All conns t ts cs h)

pick-Targeted : (conns : List (ℕ × ℕ)) (ts : List ℕ) → All (Targeted conns ts) (pick conns ts)
unfolding pick
pick-Targeted conns [] = tt
pick-Targeted conns (t ∷ ts) =
    consed-Targeted conns t ts (pick conns ts) (lookup t conns) refl (pick-Targeted conns ts)

push_all-bound : (push : ℕ → Bool) (cs : List ℕ) → push_all push cs ≤ length cs
unfolding push_all
push_all-bound push [] = omega arith
push_all-bound push (c ∷ cs) = ground (arith, push_all-bound push cs)

-- How many elements pass a test.
abbrev pub count_if : (ℕ → Bool) → List ℕ → ℕ
count_if p [] = 0
count_if p (c ∷ cs) = let n = count_if p cs in if p c then suc n else n

-- Whether a target has an entry, and its connection passes the test.
abbrev pub found_with : (ℕ → Bool) → Option ℕ → Bool
found_with p none = false
found_with p (some c) = p c

count_if-pick :
    (p : ℕ → Bool) (conns : List (ℕ × ℕ)) (ts : List ℕ)
    → count_if p (pick conns ts) ≡ count_if (λ t. found_with p (lookup t conns)) ts
unfolding pick
count_if-pick p conns [] = refl
count_if-pick p conns (t ∷ ts) =
    count_if-consed (lookup t conns)
    ∙ ap (λ n. if found_with p (lookup t conns) then suc n else n) (count_if-pick p conns ts)
  where
    count_if-consed :
        (o : Option ℕ)
        → count_if p (consed o (pick conns ts)) ≡ (
            if found_with p o then suc (count_if p (pick conns ts)) else count_if p (pick conns ts))
    count_if-consed none = refl
    count_if-consed (some c) = refl

push_all-count_if : (push : ℕ → Bool) (cs : List ℕ) → push_all push cs ≡ count_if push cs
unfolding push_all
push_all-count_if push [] = refl
push_all-count_if push (c ∷ cs) = ap (λ n. if push c then suc n else n) (push_all-count_if push cs)

-- Multicast by a valid kind succeeds. It pushes to exactly the connections of the targets that have an
-- entry, one push for each of these targets: of the connections that it pushes to, as many pass a test,
-- whatever the test, as there are targets with an entry whose connection passes it. It returns the
-- number of the targets with an entry whose connection takes the push, which is at most the number of
-- pushes, and that is at most the number of targets; every connection that it pushes to is the entry
-- of a target.
pub multicast_lem :
    (s : Session) (push : ℕ → Bool) (kind : Kind) (conns : List (ℕ × ℕ)) (targets : List ℕ)
    → sessions_locked s kind ≡ ok conns
    → (cs : List ℕ) × (n : ℕ) × (multicast s push kind targets ≡ ok (cs, n))
      × ((p : ℕ → Bool) → count_if p cs ≡ count_if (λ t. found_with p (lookup t conns)) targets)
      × (n ≡ count_if (λ t. found_with push (lookup t conns)) targets)
      × (n ≤ length cs)
      × (length cs ≤ length targets)
      × All (Targeted conns targets) cs
unfolding multicast snapshot_targets
multicast_lem s push kind conns targets k = (
  pick conns targets,
  push_all push (pick conns targets),
  by_targets targets,
  λ p. count_if-pick p conns targets,
  push_all-count_if push (pick conns targets) ∙ count_if-pick push conns targets,
  push_all-bound push (pick conns targets),
  length-pick conns targets,
  pick-Targeted conns targets,
)
  where
    by_targets :
        (targets : List ℕ)
        → multicast s push kind targets
          ≡ ok (pick conns targets, push_all push (pick conns targets))
    by_targets [] = refl
    by_targets (t ∷ ts) = ground (arith, k)

-- Subscribe of one target that is not in the session to a channel that is not there leaves the channel
-- with no connection in it.
pub subscribe_leaks :
    (s : Session) (kind : Kind) (conns : List (ℕ × ℕ)) (t channel : ℕ)
    → sessions_locked s kind ≡ ok conns
    → channel ≢ 0
    → lookup t conns ≡ none
    → lookup channel s.channels ≡ none
    → (s' : Session) × (subscribe s kind (t ∷ []) channel ≡ ok s')
      × (lookup channel s'.channels ≡ some [])
unfolding subscribe join_each
subscribe_leaks s kind conns t channel k nz h e = (
  open_channel s channel,
  ground (arith, k, nz, h),
  ground
      (arith, e, lookup-insert channel channel (or_empty (lookup channel s.channels)) s.channels),
)
