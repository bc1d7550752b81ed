-- ===== src/Remote/Guards.antt =====
-- The guards of services/remote_negotiation.py: which peer may ask for what, and whether a message
-- belongs to the session that it names. They only read.
use enishi.Prelude.{
  ℕ, Bool, true, false, not, ◌&&◌, ◌||◌, Option, none, some, List, [], ◌∷◌, any, ltb, is_some, ◌==◌,
  if◌then◌else◌,
}
use enishi.Prelude.Table.{Table, lookup}
use enishi.Errors.{
  Result, ok, err, Done, raise_if, ◌>>=◌, ◌>>◌, peer_not_trusted, peer_capability_mismatch,
  unknown_intent, intent_not_supported, clone_review_required, agent_identity_mismatch,
  session_binding_mismatch,
}
use enishi.Exec.{found}
use enishi.Remote.Types.{
  PeerStatus, trusted, Capabilities, PeerAgent, CloneAgent, Envelope, NegotiationSession, Tables,
  or_else,
}
use enishi.Remote.Domain.{DecisionDomain, Node}

-- The texts that the driver knows: `INTENT_MEETING_SCHEDULE` and `_PROTOCOL`.
abbrev pub meeting_schedule : ℕ
meeting_schedule = 0

abbrev pub protocol : ℕ
protocol = 0

abbrev pub is_trusted : PeerStatus → Bool
is_trusted trusted = true
is_trusted _ = false

abbrev pub member : ℕ → List ℕ → Bool
member i ids = any (λ j. j == i) ids

-- `a == b` where either may be None.
abbrev pub same_id : Option ℕ → Option ℕ → Bool
same_id none none = true
same_id (some a) (some b) = a == b
same_id _ _ = false

unfoldable pub require_declared : Capabilities → ℕ → Result Done
require_declared capabilities intent = do
  raise_if (not (member intent capabilities.supported_intents)) peer_capability_mismatch
  raise_if (not (member protocol capabilities.protocol_versions)) peer_capability_mismatch

-- A peer without capabilities speaks the old protocol, and is sent meetings only.
unfoldable pub require_peer_capability : PeerAgent → ℕ → Result Done
unfolding require_declared
require_peer_capability peer intent = elim peer.capabilities [
  | none ↦ raise_if (not (intent == meeting_schedule)) peer_capability_mismatch
  | some capabilities ↦ require_declared capabilities intent
]

unfoldable pub require_peer_capability_for_receive : PeerAgent → ℕ → Result Done
unfolding require_declared
require_peer_capability_for_receive peer intent = elim peer.capabilities [
  | none ↦ ok tt
  | some capabilities ↦ require_declared capabilities intent
]

-- Of two clones the one that was created later.
abbrev pub later_clone :
    {C : Type 0} → ℕ × CloneAgent C → Option (ℕ × CloneAgent C) → ℕ × CloneAgent C
later_clone c none = c
later_clone (i, c) (some (j, d)) = if ltb c.created_at d.created_at then (j, d) else (i, c)

module _ {C : Type 0} where
  abbrev pub wanted : Option ℕ → CloneAgent C → Bool
  wanted none clone = clone.active
  wanted (some user_id) clone = clone.active && (clone.user_id == user_id)

  unfoldable pub latest_clone : Option ℕ → Table (CloneAgent C) → Option (ℕ × CloneAgent C)
  latest_clone user_id [] = none
  latest_clone user_id ((i, clone) ∷ clones) =
      let rest = latest_clone user_id clones in
      if wanted user_id clone then some (later_clone (i, clone) rest) else rest

module _ {J C : Type 0} where
  unfoldable pub require_trusted_peer : ℕ → Tables J C → Result PeerAgent
  unfolding lookup
  require_trusted_peer agent_id db = do
    peer ← found peer_not_trusted (lookup agent_id db.peers)
    raise_if (not (is_trusted peer.status)) peer_not_trusted
    ok peer

  unfoldable pub get_domain : Node J C → ℕ → Result (DecisionDomain J C)
  get_domain node intent = found unknown_intent (node.domain_of intent)

  unfoldable pub require_receivable_request : Node J C → ℕ → J → ℕ → Tables J C → Result Done
  unfolding lookup get_domain require_peer_capability_for_receive
  require_receivable_request node intent payload sender_node db = do
    domain ← get_domain node intent
    raise_if (not domain.supports_remote) intent_not_supported
    domain.validate_request payload
    peer ← found peer_not_trusted (lookup sender_node db.peers)
    require_peer_capability_for_receive peer intent

  unfoldable pub find_active_clone : Option ℕ → Tables J C → Result (ℕ × CloneAgent C)
  unfolding latest_clone
  find_active_clone user_id db = found clone_review_required (latest_clone user_id db.clones)

  unfoldable pub active_clone_of : ℕ → Tables J C → Result (ℕ × CloneAgent C)
  unfolding lookup
  active_clone_of personal_id db = do
    personal ← found clone_review_required (lookup personal_id db.personals)
    clone_id ← found clone_review_required personal.active_clone_id
    clone ← found clone_review_required (lookup clone_id db.clones)
    raise_if (not clone.active) clone_review_required
    ok (clone_id, clone)

  -- This node's side of the session: the agent id that the message was sent to, which has to be one
  -- of the two that the session recorded; a session without such ids is of the old kind.
  unfoldable pub resolve_own_identity :
      NegotiationSession J → ℕ → Tables J C → Result (Option ℕ × ℕ × CloneAgent C)
  unfolding active_clone_of find_active_clone
  resolve_own_identity session receiver db =
      if same_id session.responder_agent_id (some receiver)
        || same_id session.initiator_agent_id (some receiver)
      then (active_clone_of receiver db >>= λ clone. ok (some receiver, clone.0, clone.1))
      else if is_some session.responder_agent_id || is_some session.initiator_agent_id
      then err agent_identity_mismatch
      else (find_active_clone none db >>= λ clone. ok (none, clone.0, clone.1))

module _ {J : Type 0} where
  -- `envelope.get("sender_node_id", sender)`
  abbrev pub sender_node : Envelope J → ℕ
  sender_node e = or_else e.sender_node_id e.sender_agent_id

  abbrev pub is_party : ℕ → NegotiationSession J → Bool
  is_party i session =
      same_id session.initiator_agent_id (some i) || same_id session.responder_agent_id (some i)

  -- The fields that do not match, `mismatched`, as a test for each.
  abbrev pub is_mismatched : NegotiationSession J → Envelope J → Bool
  is_mismatched session e =
      not (same_id session.remote_peer_agent_id (some (sender_node e)))
      || (is_some e.sender_node_id
          && ((e.sender_agent_id == e.receiver_agent_id)
              || (not (is_party e.sender_agent_id session)
                  || not (is_party e.receiver_agent_id session))))
      || not (e.intent == session.intent)
      || not (e.session_version == session.session_version)

  unfoldable pub require_bound_to_session : NegotiationSession J → Envelope J → Result Done
  require_bound_to_session session e = raise_if (is_mismatched session e) session_binding_mismatch
