-- ===== src/Remote/Guarded.antt =====
-- Which messages `_handle_envelope` of services/remote_negotiation.py lets pass, and an approval that
-- nobody can answer any more.
use enishi.Prelude.{
  ℕ, ◌+◌, ◌≡◌, ◌≢◌, refl, sym, ap, subst, ◌∙◌, Bool, true, false, not, ◌&&◌, ◌||◌, Option, none,
  some, is_some, arith, ◌==◌, ==_iff,
}
use enishi.Prelude.Table.{lookup}
use enishi.Errors.{Code, Result, ok, err, Done, raise_if}
use enishi.Exec.{Db, Exec}
use enishi.Exec.Triples.{Ends, Ensures, Ensures-lift, Ensures-read, Ensures-if}
use enishi.Protocol.{request, is_terminal, ◌is_type◌}
use enishi.Remote.Types.{Envelope, NegotiationSession, Tables}
use enishi.Remote.Domain.{Node, Call}
use enishi.Remote.Guards.{same_id, sender_node, is_party, is_mismatched, require_bound_to_session}
use enishi.Remote.Receive.{gate}
use enishi.Remote.Handle.{Action, handle_message, handle_envelope}
use enishi.Remote.Passed.{gate-some}
use enishi.Remote.Answered.{ok-same}

same_id-equal : (o : Option ℕ) (i : ℕ) → same_id o (some i) ≡ true → o ≡ some i
same_id-equal none i h = cc
same_id-equal (some j) i h = ap some (ground (arith, h))

apart : (a b : ℕ) → (a == b) ≡ false → a ≢ b
apart a b h = ground (arith, h)

is_true : (b : Bool) → not b ≡ false → b ≡ true
is_true true h = refl
is_true false h = cc

passed : (b : Bool) (c : Code) (done : Done) → raise_if b c ≡ ok done → b ≡ false
passed true c done h = cc
passed false c done h = refl

module _ {J : Type 0} (e : Envelope J) where
  -- The message belongs to the session: it comes from the session's peer, is about what the session is
  -- about, is between its two parties if it names nodes, has the next number, and the session is not
  -- over.
  pub record Belongs (session : NegotiationSession J) : Type 0 where
    pub from_peer : session.remote_peer_agent_id ≡ some (sender_node e)
    pub same_intent : e.intent ≡ session.intent
    pub same_version : e.session_version ≡ session.session_version
    pub between_parties :
        is_some e.sender_node_id ≡ true
        → (e.sender_agent_id ≢ e.receiver_agent_id)
          × (is_party e.sender_agent_id session ≡ true)
          × (is_party e.receiver_agent_id session ≡ true)
    pub next : e.sequence ≡ session.last_sequence + 1
    pub open_yet : is_terminal session.status ≡ false

  bound-Belongs :
      (session : NegotiationSession J)
      → is_mismatched session e ≡ false
      → e.sequence ≡ session.last_sequence + 1
      → is_terminal session.status ≡ false
      → Belongs session
  bound-Belongs session h next open_yet =
      let peer_test = same_id session.remote_peer_agent_id (some (sender_node e)) in
      let intent_test = e.intent == session.intent in
      let version_test = e.session_version == session.session_version in
      let (rest, version) = or_false _ (not version_test) h in
      let (rest', intent) = or_false _ (not intent_test) rest in
      let (peer, parties) = or_false (not peer_test) _ rest' in
      record {
        from_peer = same_id-equal _ _ (is_true peer_test peer);
        same_intent = (==_iff _ _).0 (is_true intent_test intent);
        same_version = (==_iff _ _).0 (is_true version_test version);
        between_parties = λ k. parties_of (is_some e.sender_node_id) parties k;
        next = next;
        open_yet = open_yet;
      }
    where
      or_false : (a b : Bool) → (a || b) ≡ false → (a ≡ false) × (b ≡ false)
      or_false true b h = cc
      or_false false b h = (refl, h)

      parties_of :
          (named : Bool)
          → (named
              && ((e.sender_agent_id == e.receiver_agent_id)
                  || (not (is_party e.sender_agent_id session)
                      || not (is_party e.receiver_agent_id session))))
            ≡ false
          → named ≡ true
          → (e.sender_agent_id ≢ e.receiver_agent_id)
            × (is_party e.sender_agent_id session ≡ true)
            × (is_party e.receiver_agent_id session ≡ true)
      parties_of false h k = cc
      parties_of true h k =
          let (different, both) = or_false (e.sender_agent_id == e.receiver_agent_id) _ h in
          let (first, second) = or_false (not (is_party e.sender_agent_id session)) _ both in
          (apart _ _ different, is_true _ first, is_true _ second)

-- What is known beforehand is still known at the end.
known :
    {T A : Type 0} {P : Db T → Type 0} {X : Type 0} (m : Exec T A)
    → X
    → Ensures P m (λ _ _. X) (λ _. Unit {0})
known {T} {A} {P} {X} m x = record { at = λ db _. at_end (m db) }
  where
    at_end : (end : Result A × Db T) → Ends (λ _ _. X) (λ _. Unit {0}) end
    at_end (ok a, db) = x
    at_end (err c, db) = tt

module _ {J C : Type 0} (node : Node J C) (call : Call) (e : Envelope J) (T : Tables J C) where
  -- The session of the message, as the tables had it, to which the message belongs.
  abbrev pub Expected : Type 0
  Expected =
      (session : NegotiationSession J) × (lookup e.session_id T.sessions ≡ some session)
      × Belongs e session

  message-Expected :
      (o : Option (NegotiationSession J))
      → gate e T ≡ ok o
      → Ensures (λ _. Unit {0}) (handle_message node call e o) (λ _ _. Expected) (λ _. Unit {0})
  unfolding handle_message require_bound_to_session
  message-Expected none h = Ensures-lift _ (λ _ _. tt) λ session none_found. cc
  message-Expected (some session) h =
      Ensures-lift _ (λ _ _. tt)
        λ s same.
          Ensures-lift _ (λ _ _. tt)
            λ done bound.
              let same' = ok-same same in
              let (here, open_yet, next) = gate-some e T s (h ∙ ap (λ x. ok (some x)) same') in
              known _ (s, here, bound-Belongs e s (passed _ _ done bound) next open_yet)

  handle-Expected :
      (e.message_type is_type request) ≡ false
      → Ensures
          (λ db. db.working ≡ T)
          (handle_envelope node call e)
          (λ _ _. Expected)
          (λ _. Unit {0})
  unfolding handle_envelope
  handle-Expected other =
      Ensures-read _ (λ _ _. tt)
        λ o.
          Ensures-if (e.message_type is_type request) (λ is_request. cc)
            (λ _. record {
              at = λ db p. (message-Expected o (ap (gate e) (sym p.0) ∙ p.1)).at db tt;
            })

  -- A message that is no REQUEST and is handled without an error belongs to a session that the tables
  -- have: it comes from that session's peer, has its intent and its version, is between its two parties
  -- if it names nodes, has the number after its last, and the session was neither agreed nor failed.
  pub handle_envelope-Belongs :
      (committed : Tables J C) (action : Action) (db' : Db (Tables J C))
      → (e.message_type is_type request) ≡ false
      → handle_envelope node call e (record { committed = committed; working = T })
        ≡ (ok action, db')
      → Expected
  handle_envelope-Belongs committed action db' other h =
      subst (Ends (λ _ _. Expected) (λ _. Unit {0})) h
        ((handle-Expected other).at (record { committed = committed; working = T }) refl)
