-- ===== src/Remote/Responded.antt =====
-- What `_handle_envelope` of services/remote_negotiation.py does once a message is recorded: whatever
-- the answer is, the session goes on by steps of the abstract session.
use enishi.Prelude.{ℕ, ◌≡◌, refl, false, Option, some, ltb}
use enishi.Exec.{Db, pure, modify, commit, ◌>>◌}
use enishi.Exec.Triples.{
  Ensures, Ensures-pure, Ensures-lift, Ensures-read, Ensures-bind, Ensures-modify, Ensures-commit,
  Ensures-if, Ensures-weaken,
}
use enishi.Protocol.{
  NegotiationStatus, waiting_approval, failed, MessageType, accept, request, counter, propose,
  reject, error, request_approval, approval_result, execute, receipt, is_terminal,
  max_counter_rounds, ◌is_status◌,
}
use enishi.Remote.Types.{Outcome, CloneAgent, Envelope, SessionResult, NegotiationSession, Tables}
use enishi.Remote.Domain.{Reply, DecisionDomain, Node, Call}
use enishi.Remote.Writes.{ended, end_session, record_remote_decision}
use enishi.Remote.Handle.{
  Action, request_human_decision, answer, decide, accepted, refused, respond,
}
use enishi.Remote.Machine.{Base, local, Follows}
use enishi.Remote.Follows.{update_session-Follows}
use enishi.Remote.Answered.{
  same_terms, Kept, Fallback, Open, delegation_enabled-Shows, approval_rule-Shows, send_reply-Open,
  agree-Kept,
}

module _ {J C : Type 0} (base : Base J) (node : Node J C) (call : Call) (e : Envelope J) where
  -- The session goes to a status that is not agreed, and the transaction ends.
  close-Kept :
      (row : NegotiationSession J) (status : NegotiationStatus) (result : SessionResult J)
      (action : Action)
      → is_terminal row.status ≡ false
      → (status is_status NegotiationStatus.agreed) ≡ false
      → Ensures
          (Open base e.session_id row)
          (modify (end_session {C = C} e.session_id status result) >> (commit >> pure action))
          (λ _. Kept base)
          (Fallback base)
  close-Kept row status result action open_yet other =
      Ensures-bind
        (Ensures-modify {Q = λ _ db. Follows base db.working}
          (end_session e.session_id status result)
          (λ db p.
            update_session-Follows base e.session_id (ended status result) row db.working db.working
              refl refl refl refl p.1 open_yet other
              (same_terms row status (some result) row.pending_approval_id) p.0.1))
        (λ _.
          Ensures-bind {M = λ _. Kept base} (Ensures-commit (λ db p. (p, p)))
            (λ _. Ensures-pure action (λ db p. p)))

  finish-Kept :
      (row : NegotiationSession J) (action : Action)
      → Ensures
          (Open {C = C} base e.session_id row)
          (commit >> pure action)
          (λ _. Kept base)
          (Fallback base)
  finish-Kept row action =
      Ensures-bind {M = λ _. Kept base} (Ensures-commit (λ db p. (p.0.1, p.0.1)))
        (λ _. Ensures-pure action (λ db p. p))

  agreed-Kept :
      (action : Action)
      → Ensures (Kept {C = C} base) (commit >> pure action) (λ _. Kept base) (Fallback base)
  agreed-Kept action =
      Ensures-bind {M = λ _. Kept base} (Ensures-commit (λ db p. (p.1, p.1)))
        (λ _. Ensures-pure action (λ db p. p))

  module _ (row session : NegotiationSession J) (open_yet : is_terminal row.status ≡ false)
      (now : row.last_sequence ≡ e.sequence) where
    request_human_decision-Follows :
        (own : Option ℕ) (clone : CloneAgent C) (reply : Reply J) (context : J × J)
        (db : Db (Tables J C))
        → Open base e.session_id row db
        → Follows base (request_human_decision node call e own clone reply context db.working)
    unfolding request_human_decision
    request_human_decision-Follows own clone reply context db p =
        update_session-Follows base e.session_id _ row db.working _ refl refl refl refl p.1 open_yet
          refl (same_terms row waiting_approval row.result (some call.approval_id)) p.0.1

    answer-Kept :
        (outcome : Outcome) (domain : DecisionDomain J C) (own : Option ℕ) (clone : CloneAgent C)
        (rounds : ℕ) (reply : Reply J)
        → Ensures
            (Open base e.session_id row)
            (answer node call outcome e session domain own clone rounds reply)
            (λ _. Kept base)
            (Fallback base)
    unfolding answer
    answer-Kept Outcome.approval_required domain own clone rounds reply =
        Ensures-lift _ (λ db p. p.0.0)
          λ context _.
            Ensures-bind
              (Ensures-modify {Q = λ _ db. Follows base db.working}
                (request_human_decision node call e own clone reply context)
                (λ db p. request_human_decision-Follows own clone reply context db p))
              λ _.
                Ensures-bind {M = λ _. Kept base} (Ensures-commit (λ db p. (p, p)))
                  λ _. Ensures-pure _ (λ db p. p)
    answer-Kept Outcome.auto_accept domain own clone rounds reply =
        Ensures-bind (send_reply-Open base node call e row session own _ _ _ open_yet now) λ _.
          Ensures-lift _ (λ db p. p.0.0)
            λ payload _.
              Ensures-bind (agree-Kept base e.session_id _ session payload _ open_yet)
                λ _. agreed-Kept _
    answer-Kept Outcome.reject domain own clone rounds reply =
        Ensures-bind (send_reply-Open base node call e row session own _ _ _ open_yet now)
          λ _. close-Kept _ failed _ _ open_yet refl
    answer-Kept Outcome.counter domain own clone rounds reply =
        Ensures-if (ltb rounds max_counter_rounds)
          (λ _.
            Ensures-bind (send_reply-Open base node call e row session own _ _ _ open_yet now)
              λ _. finish-Kept _ _)
          (λ _.
            Ensures-bind (send_reply-Open base node call e row session own _ _ _ open_yet now)
              λ _. close-Kept _ failed _ _ open_yet refl)

    decide-Kept :
        Ensures
          (Open base e.session_id row)
          (decide node call e session)
          (λ _. Kept base)
          (Fallback base)
    unfolding decide local
    decide-Kept =
        Ensures-read _ (λ db p. p.0.0)
          λ (own : Option ℕ × ℕ × CloneAgent C).
            Ensures-lift _ (λ db p. p.0.0.0)
              λ domain _.
                Ensures-read _ (λ db p. p.0.0.0)
                  λ payload.
                    Ensures-lift _ (λ db p. p.0.0.0.0)
                      λ position _.
                        Ensures-read _ (λ db p. p.0.0.0.0)
                          λ rounds.
                            Ensures-bind
                              (Ensures-weaken (λ db p. p.0.0.0) (λ _ db p. p) (λ db p. p)
                                (delegation_enabled-Shows base e.session_id (some row) own.2.user_id
                                  _))
                              λ delegated.
                                Ensures-bind
                                  (approval_rule-Shows base e.session_id (some row) own.2.user_id _)
                                  λ high.
                                    Ensures-read _ (λ db p. p.0.0)
                                      λ last.
                                        Ensures-lift _ (λ db p. p.0.0.0)
                                          λ reply _.
                                            Ensures-bind
                                              (Ensures-modify {Q = λ _. Open base e.session_id row}
                                                (record_remote_decision e.session_id own.1 reply)
                                                (λ db p. p.0))
                                              λ _.
                                                answer-Kept reply.outcome domain own.0 own.2 rounds
                                                  reply

    accepted-Kept :
        Ensures
          (Open base e.session_id row)
          (accepted node call e session)
          (λ _. Kept base)
          (Fallback base)
    unfolding accepted
    accepted-Kept =
        Ensures-lift _ (λ db p. p.0.0)
          λ domain _.
            Ensures-read _ (λ db p. p.0.0)
              λ payload.
                Ensures-lift _ (λ db p. p.0.0.0)
                  λ value _.
                    Ensures-lift _ (λ db p. p.0.0.0)
                      λ agreed_payload _.
                        Ensures-read _ (λ db p. p.0.0.0)
                          λ rounds.
                            Ensures-bind
                              (Ensures-weaken (λ db p. p.0.0) (λ _ db p. p) (λ db p. p)
                                (agree-Kept base e.session_id row session agreed_payload _
                                  open_yet))
                              λ _. agreed-Kept _

    pub respond-Kept :
        (message_type : MessageType)
        → Ensures
            (Open base e.session_id row)
            (respond node call message_type e session)
            (λ _. Kept base)
            (Fallback base)
    unfolding respond refused
    respond-Kept propose = decide-Kept
    respond-Kept counter = decide-Kept
    respond-Kept accept = accepted-Kept
    respond-Kept reject = close-Kept row failed _ _ open_yet refl
    respond-Kept error = close-Kept row failed _ _ open_yet refl
    respond-Kept request = finish-Kept row _
    respond-Kept request_approval = finish-Kept row _
    respond-Kept approval_result = finish-Kept row _
    respond-Kept execute = finish-Kept row _
    respond-Kept receipt = finish-Kept row _
