-- ===== src/Session/Subscribing.antt =====
-- Who is in a channel of session/session.go after Subscribe, Unsubscribe and RemConn.
use xbase.Prelude.{
  ℕ, ◌≡◌, ◌≢◌, refl, ap, Bool, true, false, Option, some, none, List, [], ◌∷◌, arith, ◌==◌,
  if◌then◌else◌,
}
use xbase.Dict.{lookup, insert, lookup-insert, lookup-delete, has, remove, has-remove, has-nil}
use xbase.Session.{Session}
use xbase.Session.Messages.{or_empty}
use xbase.Session.Channels.{put_channel, unsubscribe_in, do_unsubscribe_locked, leave_all}

-- `conn` is in the channel `channel`.
abbrev pub subscribed : List (ℕ × List ℕ) → ℕ → ℕ → Bool
subscribed chs channel c = has c (or_empty (lookup channel chs))

pub subscribed-insert :
    (chs : List (ℕ × List ℕ)) (channel other c : ℕ) (cs : List ℕ)
    → subscribed (insert channel cs chs) other c
      ≡ (if channel == other then has c cs else subscribed chs other c)
subscribed-insert chs channel other c cs = ground (arith, lookup-insert channel other cs chs)

subscribed-put_channel :
    (chs : List (ℕ × List ℕ)) (channel other c : ℕ) (cs : List ℕ)
    → subscribed (put_channel chs channel cs) other c
      ≡ (if channel == other then has c cs else subscribed chs other c)
subscribed-put_channel chs channel other c [] = ground (arith, lookup-delete channel other chs)
subscribed-put_channel chs channel other c (x ∷ xs) = subscribed-insert chs channel other c (x ∷ xs)

-- doUnsubscribeLocked takes exactly one connection out of one channel.
pub subscribed-unsubscribe_in :
    (chs : List (ℕ × List ℕ)) (channel c other d : ℕ)
    → subscribed (unsubscribe_in chs channel c (lookup channel chs)) other d ≡ (
        if channel == other
        then (if c == d then false else subscribed chs channel d)
        else subscribed chs other d)
subscribed-unsubscribe_in chs channel c other d = by_entry (lookup channel chs) refl
  where
    by_entry :
        (o : Option (List ℕ))
        → o ≡ lookup channel chs
        → subscribed (unsubscribe_in chs channel c o) other d ≡ (
            if channel == other
            then (if c == d then false else subscribed chs channel d)
            else subscribed chs other d)
    by_entry none e = ground (arith, e, has-nil d, ap (λ j. subscribed chs j d))
    by_entry (some cs) e =
        ground
          (arith, e, subscribed-put_channel chs channel other d (remove c cs), has-remove c d cs)

pub leave_all-other :
    (s : Session) (c : ℕ) (attrs : List ℕ) (other d : ℕ)
    → d ≢ c
    → subscribed (leave_all s c attrs).channels other d ≡ subscribed s.channels other d
unfolding leave_all do_unsubscribe_locked
leave_all-other s c [] other d n = refl
leave_all-other s c (channel ∷ attrs) other d n = ground (
  arith,
  n,
  leave_all-other (if channel == 0 then s else do_unsubscribe_locked s channel c) c attrs other d n,
  subscribed-unsubscribe_in s.channels channel c other d,
  ap (λ j. subscribed s.channels j d),
)

pub leave_all-absent :
    (s : Session) (c : ℕ) (attrs : List ℕ) (other : ℕ)
    → subscribed s.channels other c ≡ false
    → subscribed (leave_all s c attrs).channels other c ≡ false
unfolding leave_all do_unsubscribe_locked
leave_all-absent s c [] other n = n
leave_all-absent s c (channel ∷ attrs) other n = ground (
  arith,
  n,
  leave_all-absent (if channel == 0 then s else do_unsubscribe_locked s channel c) c attrs other,
  subscribed-unsubscribe_in s.channels channel c other c,
)

pub leave_all-left :
    (s : Session) (c : ℕ) (attrs : List ℕ) (other : ℕ)
    → has other attrs ≡ true
    → other ≢ 0
    → subscribed (leave_all s c attrs).channels other c ≡ false
unfolding leave_all do_unsubscribe_locked has
leave_all-left s c [] other h nz = absurd (ground (arith, h))
leave_all-left s c (channel ∷ attrs) other h nz = ground (
  arith,
  h,
  nz,
  leave_all-left (if channel == 0 then s else do_unsubscribe_locked s channel c) c attrs other,
  leave_all-absent (if channel == 0 then s else do_unsubscribe_locked s channel c) c attrs other,
  subscribed-unsubscribe_in s.channels channel c other c,
)
