-- ===== src/Session/Tests.antt =====
-- A session with two connections, 101 and 102 under the ids 1 and 2, of which the first has the user 7 and
-- is in the channel 5.
use xbase.Prelude.{
  Bool, ℕ, ◌≡◌, ◌≤◌, refl, true, false, Option, none, some, List, [], ◌∷◌, ok, arith, ◌==◌, ◌-◌,
  if◌then◌else◌, length, All,
}
use xbase.Dict.{lookup, has}
use xbase.Session.{Session, new_session, bind_conn, conn, sessions_locked, bind, unbind, add_conn}
use xbase.Session.Messages.{snapshot_channel, multicast}
use xbase.Session.Channels.{rem_conn, subscribe, unsubscribe}
use xbase.Session.Invariant.{IsValid}
use xbase.Session.Ownership.{bind_lem, bind_replaces, unbind_lem}
use xbase.Session.Members.{add_conn_lem, rem_conn_lem}
use xbase.Session.Linking.{Linked}
use xbase.Session.Traces.{Reaches, here, then_step, add_step, bind_step, new_session-Reaches}
use xbase.Session.Deliveries.{
  Targeted, count_if, found_with, subscribe_lem, unsubscribe_lem, rem_conn-channels, multicast_lem,
}

abbrev three : List ℕ
three = 1 ∷ 2 ∷ 3 ∷ []

abbrev id_of : ℕ → ℕ
id_of c = c - 100

abbrev first_uid : ℕ → ℕ
first_uid c = if c == 101 then 7 else 0

abbrev first_attrs : ℕ → List ℕ
first_attrs c = if c == 101 then 5 ∷ [] else []

abbrev two : Session
two = record {
  conns = (1, 101) ∷ (2, 102) ∷ [];
  users = (7, 101) ∷ [];
  channels = (5, 101 ∷ []) ∷ [];
  uid_of = first_uid;
  attrs_of = first_attrs;
}

two-IsValid : IsValid id_of two
unfolding lookup
two-IsValid = record {
  by_id = λ k c e. ground (arith, e);
  by_uid = λ u c e. ground (arith, e);
  nonzero = λ c e. ground (arith, e);
  known = λ u c e. ground (arith, e);
  bound = λ k c e n. ground (arith, e, n);
}

two-Linked : Linked two
unfolding lookup has
two-Linked = record { marked = λ channel c e. ground (arith, e); named = λ c. ground arith }

first : lookup 1 two.conns ≡ some 101
unfolding lookup
first = refl

second : lookup 2 two.conns ≡ some 102
unfolding lookup
second = refl

owner : lookup 7 two.users ≡ some 101
unfolding lookup
owner = refl

free_id : lookup (id_of 103) two.conns ≡ none
unfolding lookup
free_id = refl

no_channel : lookup 6 two.channels ≡ none
unfolding lookup
no_channel = refl

no_third : lookup 3 two.conns ≡ none
unfolding lookup
no_third = refl

by_conn : sessions_locked two conn ≡ ok two.conns
unfolding sessions_locked
by_conn = refl

chosen : has 2 (2 ∷ []) ≡ true
unfolding has
chosen = refl

chosen_first : has 1 (1 ∷ []) ≡ true
unfolding has
chosen_first = refl

bind_lem_example :
    (s' : Session) × (kicked : Option ℕ) × (bind id_of two 2 7 ≡ ok (s', kicked))
    × IsValid id_of s'
    × (lookup 7 s'.users ≡ some 102)
    × (s'.uid_of 102 ≡ 7)
    × (s'.conns ≡ two.conns)
bind_lem_example = bind_lem id_of two 102 2 7 two-IsValid second (omega arith)

bind_replaces_example :
    (s' : Session) × (bind id_of two 2 7 ≡ ok (s', some 101))
    × (lookup 7 s'.users ≡ some 102)
    × (s'.uid_of 101 ≡ 0)
bind_replaces_example =
    bind_replaces id_of two 102 2 7 101 two-IsValid second (omega arith) owner (omega arith)

unbind_lem_example :
    (s' : Session) × (r : ℕ) × (unbind id_of two 1 7 ≡ ok (s', r))
    × IsValid id_of s'
    × (r ≡ (if two.uid_of 101 == 7 then 1 else 0))
    × (s'.uid_of 101 ≡ (if two.uid_of 101 == 7 then 0 else two.uid_of 101))
    × ((u : ℕ)
        → lookup u s'.users ≡ (
            if two.uid_of 101 == 7
            then if 7 == u then none else lookup u two.users
            else lookup u two.users))
    × (s'.conns ≡ two.conns)
unbind_lem_example = unbind_lem id_of two 101 1 7 two-IsValid first (omega arith) (omega arith)

add_conn_lem_example :
    IsValid id_of (add_conn id_of two 103)
    × (lookup (id_of 103) (add_conn id_of two 103).conns ≡ some 103)
    × ((u : ℕ)
        → lookup u (add_conn id_of two 103).users ≡ (
            if two.uid_of 103 == 0
            then lookup u two.users
            else if two.uid_of 103 == u
            then some 103
            else lookup u two.users))
add_conn_lem_example = add_conn_lem id_of two 103 two-IsValid free_id

rem_conn_lem_example :
    IsValid id_of (rem_conn id_of two 101)
    × ((k : ℕ)
        → lookup k (rem_conn id_of two 101).conns
          ≡ (if id_of 101 == k then none else lookup k two.conns))
    × ((u : ℕ)
        → lookup u (rem_conn id_of two 101).users
          ≡ (if two.uid_of 101 == u then none else lookup u two.users))
rem_conn_lem_example = rem_conn_lem id_of two 101 two-IsValid first

subscribe_lem_example :
    (s' : Session) × (subscribe two conn (2 ∷ []) 5 ≡ ok s')
    × Linked s'
    × (has 102 (snapshot_channel s' 5) ≡ true)
subscribe_lem_example =
    subscribe_lem two conn two.conns (2 ∷ []) 5 2 102 two-Linked by_conn (omega arith) (omega arith)
      chosen second

unsubscribe_lem_example :
    (s' : Session) × (unsubscribe two conn (1 ∷ []) 5 ≡ ok s')
    × Linked s'
    × (has 101 (snapshot_channel s' 5) ≡ false)
unsubscribe_lem_example =
    unsubscribe_lem two conn two.conns (1 ∷ []) 5 1 101 two-Linked by_conn (omega arith)
      (omega arith) chosen_first first

rem_conn-channels_example :
    has 101 (snapshot_channel (rem_conn id_of two 101) 5)
    ≡ (if 101 == 101 then false else has 101 (snapshot_channel two 5))
rem_conn-channels_example = rem_conn-channels id_of two 101 5 101 two-Linked

multicast_lem_example :
    (cs : List ℕ) × (n : ℕ) × (multicast two (λ c. c == 101) conn three ≡ ok (cs, n))
    × ((p : ℕ → Bool) → count_if p cs ≡ count_if (λ t. found_with p (lookup t two.conns)) three)
    × (n ≡ count_if (λ t. found_with (λ c. c == 101) (lookup t two.conns)) three)
    × (n ≤ length cs)
    × (length cs ≤ length three)
    × All (Targeted two.conns three) cs
multicast_lem_example = multicast_lem two (λ c. c == 101) conn two.conns three by_conn

-- The first connection comes, and is bound to the user 9.
abbrev one : Session
one = add_conn id_of (new_session first_uid first_attrs) 101

nobody : lookup 1 (new_session first_uid first_attrs).conns ≡ none
unfolding lookup
nobody = refl

abbrev rebound : Session
rebound = (bind_conn id_of one 101 1 9).0

bound_again : bind id_of one 1 9 ≡ ok (rebound, none)
unfolding bind add_conn lookup bind_conn xbase.Dict.insert xbase.Dict.delete
bound_again = refl

one_bound : Reaches id_of (new_session first_uid first_attrs) rebound
one_bound = then_step (then_step here (add_step 101 nobody)) (bind_step 1 9 none bound_again)

new_session-Reaches_example : IsValid id_of rebound × Linked rebound
new_session-Reaches_example = new_session-Reaches id_of first_uid first_attrs rebound one_bound
