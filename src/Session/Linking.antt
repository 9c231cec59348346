-- ===== src/Session/Linking.antt =====
-- Channels and attributes of session/session.go: the invariant that ties them, and what it gives to
-- Publish after Subscribe, Unsubscribe and RemConn.
use xbase.Prelude.{ℕ, ◌≡◌, ◌≢◌, ap, true, false, Option, some, none, List, [], ◌∷◌, arith}
use xbase.Dict.{lookup, has, add, has-add, has-remove}
use xbase.Session.{Session}
use xbase.Session.Messages.{or_empty}
use xbase.Session.Channels.{do_unsubscribe_locked, join, join_each, open_channel, leave, leave_each}
use xbase.Session.Subscribing.{subscribed, subscribed-insert, subscribed-unsubscribe_in}

-- The attributes cover the channels: a connection that is in a channel has the channel's attribute, and
-- no connection is in the channel without a name.
pub record Linked (s : Session) : Type 0 where
  pub marked :
      (channel c : ℕ) → subscribed s.channels channel c ≡ true → has channel (s.attrs_of c) ≡ true
  pub named : (c : ℕ) → subscribed s.channels 0 c ≡ false

join-Linked :
    (s : Session) (channel : ℕ) (o : Option ℕ) → channel ≢ 0 → Linked s → Linked (join s channel o)
join-Linked s channel none nz l = l
join-Linked s channel (some c) nz l =
    let cs = or_empty (lookup channel s.channels) in
    record {
      marked = λ other d e. ground (
        arith,
        e,
        l.marked other d,
        subscribed-insert s.channels channel other d (add c cs),
        has-add c d cs,
        has-add channel other (s.attrs_of c),
        ap (λ j. subscribed s.channels j d),
      );
      named =
          λ d. ground (arith, nz, l.named d, subscribed-insert s.channels channel 0 d (add c cs));
    }

pub join_each-Linked :
    (conns : List (ℕ × ℕ)) (s : Session) (channel : ℕ) (ts : List ℕ)
    → channel ≢ 0
    → Linked s
    → Linked (join_each conns s channel ts)
unfolding join_each
join_each-Linked conns s channel [] nz l = l
join_each-Linked conns s channel (t ∷ ts) nz l =
    join_each-Linked conns (join s channel (lookup t conns)) channel ts nz
      (join-Linked s channel (lookup t conns) nz l)

pub open_channel-same :
    (s : Session) (channel other c : ℕ)
    → subscribed (open_channel s channel).channels other c ≡ subscribed s.channels other c
open_channel-same s channel other c = ground (
  arith,
  subscribed-insert s.channels channel other c (or_empty (lookup channel s.channels)),
  ap (λ j. subscribed s.channels j c),
)

join-keeps :
    (s : Session) (channel : ℕ) (o : Option ℕ) (c : ℕ)
    → subscribed s.channels channel c ≡ true
    → subscribed (join s channel o).channels channel c ≡ true
join-keeps s channel none c h = h
join-keeps s channel (some d) c h =
    let cs = or_empty (lookup channel s.channels) in
    ground (arith, h, subscribed-insert s.channels channel channel c (add d cs), has-add d c cs)

join-joins :
    (s : Session) (channel : ℕ) (o : Option ℕ) (c : ℕ)
    → o ≡ some c
    → subscribed (join s channel o).channels channel c ≡ true
join-joins s channel none c e = absurd (ground (arith, e))
join-joins s channel (some d) c e =
    let cs = or_empty (lookup channel s.channels) in
    ground (arith, e, subscribed-insert s.channels channel channel c (add d cs), has-add d c cs)

pub join_each-keeps :
    (conns : List (ℕ × ℕ)) (s : Session) (channel : ℕ) (ts : List ℕ) (c : ℕ)
    → subscribed s.channels channel c ≡ true
    → subscribed (join_each conns s channel ts).channels channel c ≡ true
unfolding join_each
join_each-keeps conns s channel [] c h = h
join_each-keeps conns s channel (t ∷ ts) c h =
    join_each-keeps conns (join s channel (lookup t conns)) channel ts c
      (join-keeps s channel (lookup t conns) c h)

pub join_each-joins :
    (conns : List (ℕ × ℕ)) (s : Session) (channel : ℕ) (ts : List ℕ) (t c : ℕ)
    → has t ts ≡ true
    → lookup t conns ≡ some c
    → subscribed (join_each conns s channel ts).channels channel c ≡ true
unfolding join_each has
join_each-joins conns s channel [] t c h e = absurd (ground (arith, h))
join_each-joins conns s channel (u ∷ ts) t c h e =
    let s₁ = join s channel (lookup u conns) in
    ground (
      arith,
      h,
      e,
      ap (λ k. lookup k conns),
      join_each-joins conns s₁ channel ts t c,
      join_each-keeps conns s₁ channel ts c,
      join-joins s channel (lookup u conns) c,
    )

leave-Linked : (s : Session) (channel : ℕ) (o : Option ℕ) → Linked s → Linked (leave s channel o)
unfolding do_unsubscribe_locked
leave-Linked s channel none l = l
leave-Linked s channel (some c) l = record {
  marked = λ other d e. ground (
    arith,
    e,
    l.marked other d,
    subscribed-unsubscribe_in s.channels channel c other d,
    has-remove channel other (s.attrs_of c),
  );
  named = λ d. ground (
    arith,
    l.named d,
    subscribed-unsubscribe_in s.channels channel c 0 d,
    ap (λ j. subscribed s.channels j d),
  );
}

pub leave_each-Linked :
    (conns : List (ℕ × ℕ)) (s : Session) (channel : ℕ) (ts : List ℕ)
    → Linked s
    → Linked (leave_each conns s channel ts)
unfolding leave_each
leave_each-Linked conns s channel [] l = l
leave_each-Linked conns s channel (t ∷ ts) l =
    leave_each-Linked conns (leave s channel (lookup t conns)) channel ts
      (leave-Linked s channel (lookup t conns) l)

leave-absent :
    (s : Session) (channel : ℕ) (o : Option ℕ) (c : ℕ)
    → subscribed s.channels channel c ≡ false
    → subscribed (leave s channel o).channels channel c ≡ false
unfolding do_unsubscribe_locked
leave-absent s channel none c h = h
leave-absent s channel (some d) c h =
    ground (arith, h, subscribed-unsubscribe_in s.channels channel d channel c)

leave-left :
    (s : Session) (channel : ℕ) (o : Option ℕ) (c : ℕ)
    → Linked s
    → o ≡ some c
    → subscribed (leave s channel o).channels channel c ≡ false
unfolding do_unsubscribe_locked
leave-left s channel none c l e = absurd (ground (arith, e))
leave-left s channel (some d) c l e =
    ground (arith, e, l.marked channel c, subscribed-unsubscribe_in s.channels channel d channel c)

pub leave_each-absent :
    (conns : List (ℕ × ℕ)) (s : Session) (channel : ℕ) (ts : List ℕ) (c : ℕ)
    → subscribed s.channels channel c ≡ false
    → subscribed (leave_each conns s channel ts).channels channel c ≡ false
unfolding leave_each
leave_each-absent conns s channel [] c h = h
leave_each-absent conns s channel (t ∷ ts) c h =
    leave_each-absent conns (leave s channel (lookup t conns)) channel ts c
      (leave-absent s channel (lookup t conns) c h)

pub leave_each-left :
    (conns : List (ℕ × ℕ)) (s : Session) (channel : ℕ) (ts : List ℕ) (t c : ℕ)
    → Linked s
    → has t ts ≡ true
    → lookup t conns ≡ some c
    → subscribed (leave_each conns s channel ts).channels channel c ≡ false
unfolding leave_each has
leave_each-left conns s channel [] t c l h e = absurd (ground (arith, h))
leave_each-left conns s channel (u ∷ ts) t c l h e =
    let s₁ = leave s channel (lookup u conns) in
    ground (
      arith,
      h,
      e,
      ap (λ k. lookup k conns),
      leave_each-left conns s₁ channel ts t c (leave-Linked s channel (lookup u conns) l),
      leave_each-absent conns s₁ channel ts c,
      leave-left s channel (lookup u conns) c l,
    )
