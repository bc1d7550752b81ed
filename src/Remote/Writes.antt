-- ===== src/Remote/Writes.antt =====
-- What `_handle_envelope` and `resolve_remote_approval` of services/remote_negotiation.py write
-- besides messages: rules that are read are stored, sessions end, agreements and decisions are added.
use enishi.Prelude.{ℕ, Bool, true, false, some, [], ◌∷◌, ◌++◌, is_some, if◌then◌else◌}
use enishi.Prelude.Table.{lookup, insert}
use enishi.Errors.{ok, Done}
use enishi.Exec.{Exec, pure, read, modify, commit, ◌>>=◌, ◌>>◌}
use enishi.Protocol.{NegotiationStatus, agreed}
use enishi.Policies.{Rules, rule_holds}
use enishi.Remote.Types.{
  SessionResult, NegotiationSession, NegotiationDecision, Agreement, Tables, or_else,
}
use enishi.Remote.Domain.{Reply}
use enishi.Remote.Messages.{update_session}

-- The keys of the rules that the driver asks for.
abbrev pub schedule_negotiation : ℕ
schedule_negotiation = 0

abbrev pub high_value : ℕ
high_value = 3

abbrev pub delegation_defaults : Rules
delegation_defaults = (0, true) ∷ (1, true) ∷ (2, true) ∷ (3, false) ∷ (4, true) ∷ []

abbrev pub approval_rule_defaults : Rules
approval_rule_defaults = (0, true) ∷ (1, true) ∷ (2, true) ∷ (3, true) ∷ []

abbrev pub ended :
    {J : Type 0} → NegotiationStatus → SessionResult J → NegotiationSession J → NegotiationSession J
ended status result session = record session { status = status; result = some result }

abbrev pub agreement_of : {J : Type 0} → NegotiationSession J → J → Agreement J
agreement_of session payload = record {
  intent = session.intent;
  initiator_agent_id = or_else session.initiator_agent_id session.initiator_clone_id;
  responder_agent_id = or_else session.responder_agent_id session.responder_clone_id;
  agreed_payload = payload;
}

module _ {J C : Type 0} where
  abbrev pub store_delegations : ℕ → ℕ → Tables J C → Tables J C
  store_delegations user_id action db = record db {
    delegations = (rule_holds delegation_defaults user_id action true db.delegations).1;
  }

  -- `_get_policy` commits, whatever is in the open transaction.
  unfoldable pub delegation_enabled : ℕ → ℕ → Exec (Tables J C) Bool
  unfolding rule_holds
  delegation_enabled user_id action = do
    holds ← read (λ db. ok (rule_holds delegation_defaults user_id action true db.delegations).0)
    modify (store_delegations user_id action)
    commit
    pure holds

  abbrev pub store_approval_rules : ℕ → ℕ → Tables J C → Tables J C
  store_approval_rules user_id action db = record db {
    approval_rules = (rule_holds approval_rule_defaults user_id action true db.approval_rules).1;
  }

  unfoldable pub approval_rule : ℕ → ℕ → Exec (Tables J C) Bool
  unfolding rule_holds
  approval_rule user_id action = do
    holds ←
        read (λ db. ok (rule_holds approval_rule_defaults user_id action true db.approval_rules).0)
    modify (store_approval_rules user_id action)
    commit
    pure holds

  abbrev pub end_session : ℕ → NegotiationStatus → SessionResult J → Tables J C → Tables J C
  end_session session_id status result = update_session session_id (ended status result)

  unfoldable pub add_agreement : ℕ → NegotiationSession J → J → Tables J C → Tables J C
  unfolding insert
  add_agreement session_id session payload db = record db {
    agreements = insert session_id (agreement_of session payload) db.agreements;
  }

  -- `_create_remote_agreement`: a new one is logged, and the log commits.
  unfoldable pub create_remote_agreement : ℕ → NegotiationSession J → J → Exec (Tables J C) Done
  unfolding lookup add_agreement
  create_remote_agreement session_id session payload = do
    existing ← read (λ db. ok (is_some (lookup session_id db.agreements)))
    if existing then pure tt else (modify (add_agreement session_id session payload) >> commit)

  -- The session ends with its agreement.
  unfoldable pub agree : ℕ → NegotiationSession J → J → SessionResult J → Exec (Tables J C) Done
  unfolding create_remote_agreement
  agree session_id session payload result = do
    modify (end_session session_id agreed result)
    create_remote_agreement session_id session payload

  unfoldable pub record_remote_decision : ℕ → ℕ → Reply J → Tables J C → Tables J C
  record_remote_decision session_id clone_id reply db =
      let decision : NegotiationDecision J = record {
        session_id = session_id;
        clone_id = clone_id;
        policy_version = reply.policy_version;
        outcome = reply.outcome;
        reason_codes = reply.reason_codes;
        evidence = reply.evidence;
      } in
      record db { decisions = db.decisions ++ decision ∷ [] }
