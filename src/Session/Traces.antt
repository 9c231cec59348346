-- ===== src/Session/Traces.antt =====
-- The states that the methods of session/session.go reach from NewSession, in any order of the calls.
use xbase.Prelude.{ℕ, ◌≡◌, refl, subst, Option, some, none, List, arith, ok}
use xbase.Dict.{lookup, has}
use xbase.Session.{Session, Kind, new_session, add_conn, bind, unbind}
use xbase.Session.Channels.{rem_conn, subscribe, unsubscribe}
use xbase.Session.Invariant.{IsValid}
use xbase.Session.Members.{add_conn_lem, rem_conn_lem}
use xbase.Session.Linking.{Linked}
use xbase.Session.Keeping.{
  Of, Both, subscribe-Both, unsubscribe-Both, bind-Both, unbind-Both, add_conn-Linked,
  rem_conn-Linked,
}

-- One call. A connection is added under an id that no connection of the session has, and removed while it
-- is the one under its id; the other methods are called with anything.
pub data Step (id : ℕ → ℕ) : Session → Session → Type 0 where
  add_step : {s : Session} (c : ℕ) → lookup (id c) s.conns ≡ none → Step id s (add_conn id s c)
  rem_step : {s : Session} (c : ℕ) → lookup (id c) s.conns ≡ some c → Step id s (rem_conn id s c)
  bind_step :
      {s s' : Session} (cid uid : ℕ) (kicked : Option ℕ)
      → bind id s cid uid ≡ ok (s', kicked)
      → Step id s s'
  unbind_step : {s s' : Session} (cid uid r : ℕ) → unbind id s cid uid ≡ ok (s', r) → Step id s s'
  subscribe_step :
      {s s' : Session} (kind : Kind) (targets : List ℕ) (channel : ℕ)
      → subscribe s kind targets channel ≡ ok s'
      → Step id s s'
  unsubscribe_step :
      {s s' : Session} (kind : Kind) (targets : List ℕ) (channel : ℕ)
      → unsubscribe s kind targets channel ≡ ok s'
      → Step id s s'

pub data Reaches (id : ℕ → ℕ) : Session → Session → Type 0 where
  here : {s : Session} → Reaches id s s
  then_step : {s t u : Session} → Reaches id s t → Step id t u → Reaches id s u

module _ (id : ℕ → ℕ) where
  Step-Both : (s s' : Session) → Step id s s' → Both id s → Both id s'
  Step-Both s s' (add_step c e) (valid, l) =
      ((add_conn_lem id s c valid e).0, add_conn-Linked id s c l)
  Step-Both s s' (rem_step c e) (valid, l) =
      ((rem_conn_lem id s c valid e).0, rem_conn-Linked id s c l)
  Step-Both s s' (bind_step cid uid kicked e) h =
      subst (Of {A = Session × Option ℕ} (λ r. Both id r.0)) e (bind-Both id s cid uid h)
  Step-Both s s' (unbind_step cid uid r e) h =
      subst (Of {A = Session × ℕ} (λ r. Both id r.0)) e (unbind-Both id s cid uid h)
  Step-Both s s' (subscribe_step kind targets channel e) h =
      subst (Of (Both id)) e (subscribe-Both id s kind targets channel h)
  Step-Both s s' (unsubscribe_step kind targets channel e) h =
      subst (Of (Both id)) e (unsubscribe-Both id s kind targets channel h)

  Reaches-Both : (s s' : Session) → Reaches id s s' → Both id s → Both id s'
  Reaches-Both s s' here h = h
  Reaches-Both s s' (then_step {t = t} reach step) h =
      Step-Both t s' step (Reaches-Both s t reach h)

  new_session-Both :
      (uid_of : ℕ → ℕ) (attrs_of : ℕ → List ℕ) → Both id (new_session uid_of attrs_of)
  unfolding lookup has
  new_session-Both uid_of attrs_of = (
    record {
      by_id = λ k c e. absurd (ground (arith, e));
      by_uid = λ u c e. absurd (ground (arith, e));
      nonzero = λ c e. ground (arith, e);
      known = λ u c e. absurd (ground (arith, e));
      bound = λ k c e n. absurd (ground (arith, e));
    },
    record { marked = λ channel c e. absurd (ground (arith, e)); named = λ c. refl },
  )

  -- From NewSession, whatever users and attributes the connections have, calls follow one another in any
  -- order: AddConn of a connection under an id that no connection of the session has, RemConn of a
  -- connection that is the one under its id, and Bind, Unbind, Subscribe and Unsubscribe of anything,
  -- with results that are no error. Every session that these calls reach has maps and bindings that
  -- agree, and attributes that cover the channels.
  pub new_session-Reaches :
      (uid_of : ℕ → ℕ) (attrs_of : ℕ → List ℕ) (s : Session)
      → Reaches id (new_session uid_of attrs_of) s
      → IsValid id s × Linked s
  new_session-Reaches uid_of attrs_of s reach =
      Reaches-Both (new_session uid_of attrs_of) s reach (new_session-Both uid_of attrs_of)
