-- ===== src/Session/Invariant.antt =====
-- The invariant of session/session.go: the two maps and the users that the connections are bound to
-- agree with each other.
use xbase.Prelude.{ℕ, ◌≡◌, ◌≢◌, some, none, arith}
use xbase.Dict.{lookup, insert, delete, lookup-insert, lookup-delete}
use xbase.Session.{Session, set_uid}

-- Every connection is under its id, every user's entry is a connection of the session that is bound to
-- that user, and every connection that is bound to a user has the user's entry.
pub record IsValid (id : ℕ → ℕ) (s : Session) : Type 0 where
  pub by_id : (k c : ℕ) → lookup k s.conns ≡ some c → id c ≡ k
  pub by_uid : (u c : ℕ) → lookup u s.users ≡ some c → s.uid_of c ≡ u
  pub nonzero : (c : ℕ) → lookup 0 s.users ≢ some c
  pub known : (u c : ℕ) → lookup u s.users ≡ some c → lookup (id c) s.conns ≡ some c
  pub bound :
      (k c : ℕ) → lookup k s.conns ≡ some c → s.uid_of c ≢ 0 → lookup (s.uid_of c) s.users ≡ some c

module _ (id : ℕ → ℕ) (s : Session) (valid : IsValid id s) (c cid : ℕ)
    (here : lookup cid s.conns ≡ some c) where
  -- The session with the entry of the user of `c` deleted, and `c` bound to no user.
  abbrev pub released : Session
  released = record (set_uid s c 0) { users = delete (s.uid_of c) s.users }

  pub released-IsValid : s.uid_of c ≢ 0 → IsValid id released
  released-IsValid h = record {
    by_id = valid.by_id;
    by_uid = λ u d e.
        ground (arith, valid.by_uid u d, valid.by_uid u c, lookup-delete (s.uid_of c) u s.users);
    nonzero = λ d e. ground (arith, valid.nonzero d, lookup-delete (s.uid_of c) 0 s.users);
    known = λ u d e. ground (arith, valid.known u d, lookup-delete (s.uid_of c) u s.users);
    bound = λ k d e n. ground (
      arith,
      valid.by_id k d e,
      valid.by_id cid c here,
      valid.bound k d e,
      valid.bound cid c here,
      lookup-delete (s.uid_of c) (s.uid_of d) s.users,
    );
  }

  -- The session with `c`, that was bound to no user, bound to a user that has no entry.
  abbrev pub taken : ℕ → Session
  taken uid = record (set_uid s c uid) { users = insert uid c s.users }

  pub taken-IsValid :
      (uid : ℕ) → uid ≢ 0 → s.uid_of c ≡ 0 → lookup uid s.users ≡ none → IsValid id (taken uid)
  taken-IsValid uid nz free vacant = record {
    by_id = valid.by_id;
    by_uid = λ u d e.
        ground (
          arith,
          valid.by_uid u d,
          valid.by_uid u c,
          valid.nonzero c,
          lookup-insert uid u c s.users,
        );
    nonzero = λ d e. ground (arith, valid.nonzero d, lookup-insert uid 0 c s.users);
    known = λ u d e.
        ground (arith, valid.known u d, valid.by_id cid c here, lookup-insert uid u c s.users);
    bound = λ k d e n. ground (
      arith,
      valid.bound k d e,
      lookup-insert uid (s.uid_of d) c s.users,
      lookup-insert uid uid c s.users,
    );
  }
