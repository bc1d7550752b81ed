-- ===== src/Remote/Tests.antt =====
-- A negotiation with another node on small values, and the theorems on it. JSON values are numbers: an
-- offer is its amount, a code is put 1000 above itself.
use enishi.Prelude.{
  ℕ, ◌+◌, ◌-◌, ◌≡◌, refl, Bool, true, false, Option, none, some, List, [], ◌∷◌, leb, ◌==◌,
  if◌then◌else◌,
}
use enishi.Errors.{ok, err, invalid_state_transition}
use enishi.Exec.{Db, read, lift, modify, commit, pure, attempt, rollback, ◌>>=◌}
use enishi.Protocol.{
  NegotiationStatus, opened, waiting_approval, failed, MessageType, request, propose, accept,
  reject,
}
use enishi.Tasks.Types.{ApprovalStatus}
use enishi.Remote.Types.{
  PeerStatus, Outcome, OutboxStatus, Envelope, NegotiationSession, Approval, RelayOutbox, Tables,
}
use enishi.Remote.Domain.{Reply, DecisionDomain, Json, Node, Call}
use enishi.Remote.Outbox.{flush_outbox}
use enishi.Remote.Inbox.{Delivery, Turn}
use enishi.Remote.Handle.{processed, handle_envelope}
use enishi.Remote.Resolve.{resolve_remote_approval}
use enishi.Remote.Machine.{Steps, local}
use enishi.Remote.Invariants.{InOrder, is_agreed}
use enishi.Remote.Runs.{Event, inbox, run, run-Steps, run-InOrder, run-over}
use enishi.Remote.Sending.{Exact, waiting, flush_outbox-Exact}
use enishi.Remote.Guarded.{Expected, handle_envelope-Belongs}
use enishi.Remote.Orphans.{Waiting, refused-unanswerable}

abbrev json : Json ℕ
json = record {
  empty = 0;
  code_delta = λ c. c + 1000;
  reason_payload = λ _. 1;
  code_of = λ v. if leb 1000 v then some (v - 1000) else none;
  reason_of = λ v. v;
  type_text = λ _. 7;
  rejected_text = 8;
  selected_slot = λ v. v;
  candidate_slots = λ v. v;
  slot_proposal = λ v. v;
  slot_context = λ v. v;
  non_empty = λ v. if v == 0 then none else some v;
  with_timezone = λ _ v. v;
}

-- Offers of 10 and less are taken, 99 goes to the owner, others are countered with 10.
abbrev reply : ℕ → Reply ℕ
reply offer = record {
  outcome =
      if leb offer 10
      then Outcome.auto_accept
      else if offer == 99
      then Outcome.approval_required
      else Outcome.counter;
  reason_codes = [];
  evidence = 0;
  policy_version = 1;
  reply_delta = if leb offer 10 then offer else 10;
  agreement_value = offer;
  approval_raw = offer;
  proposed_action = accept;
}

abbrev toy : DecisionDomain ℕ ℕ
toy = record {
  delegation_key = none;
  supports_remote = true;
  remote_rounds_exhausted_code = 5;
  validate_request = λ _. ok tt;
  build_remote_request_payload = λ v. ok v;
  derive_own_position = λ _ payload _. ok payload;
  build_remote_propose_delta = λ v. ok v;
  decide_remote_reply = λ _ _ offer _. ok (reply offer);
  remote_agreement_payload = λ v. ok v;
  agreement_value_from_accept_delta = λ delta _. ok delta;
  approval_context = λ raw. ok (raw, raw);
  approval_reply = λ approved _ proposal _ _. ok (record {
    message_type = if approved then accept else reject;
    delta = if approved then proposal else 1003;
    agreement_value = proposal;
  });
}

abbrev node : Node ℕ ℕ
node = record {
  json = json;
  domain_of = λ intent. if intent == 0 then some toy else none;
  node_id = 1;
  sealed = λ e. e.message_id;
  verify_envelope = λ _ e key. if e.seal == key then ok tt else err invalid_state_transition;
}

-- The owner 111 has the agent 11 with the clone 5; the peer is the node 2 of the agent 22.
abbrev tables : Tables ℕ ℕ
tables = record {
  sessions = [];
  messages = [];
  decisions = [];
  agreements = [];
  outbox = [];
  approvals = [];
  peers =
      (
        2,
        record {
          status = PeerStatus.trusted;
          capabilities = none;
          public_key = 77;
          personal_agent_id = some 22;
        },
      )
      ∷ [];
  users = (111, 0) ∷ [];
  personals = (11, record { user_id = 111; active_clone_id = some 5 }) ∷ [];
  clones = (5, record { user_id = 111; active = true; created_at = 0; profile = 0 }) ∷ [];
  nodes = [];
  delegations = [];
  approval_rules = [];
  seen = [];
}

abbrev says : ℕ → MessageType → ℕ → ℕ → Envelope ℕ
says id type sequence delta = record {
  message_id = id;
  session_id = 7;
  sender_agent_id = 22;
  receiver_agent_id = 11;
  sender_node_id = some 2;
  receiver_node_id = some 1;
  message_type = type;
  intent = 0;
  session_version = 1;
  sequence = sequence;
  payload = 0;
  delta = delta;
  requires_human_approval = false;
  seal = 77;
}

abbrev call : ℕ → Call
call n = record { now = n; message_id = n + 500; approval_id = n + 600 }

abbrev delivered : ℕ → Envelope ℕ → Turn ℕ × Delivery ℕ
delivered n e = (
  record { call = call n; accepts = λ _. true; ack_works = true },
  record { delivery_id = some n; envelope = some e },
)

-- A REQUEST and an offer that is taken.
abbrev agreeing : List (Event ℕ)
agreeing = inbox (delivered 1 (says 31 request 1 0) ∷ delivered 2 (says 32 propose 2 9) ∷ []) ∷ []

run_agrees : is_agreed (local 7 (run node agreeing tables)).session ≡ true
unfolding run local read lift modify commit pure attempt rollback ◌>>=◌
run_agrees = refl

run-Steps_example : Steps (local 7 tables) (local 7 (run node agreeing tables))
run-Steps_example = run-Steps node agreeing tables 7

run-InOrder_example : InOrder (local 7 (run node agreeing tables))
unfolding local
run-InOrder_example = run-InOrder node agreeing tables 7 refl

-- A session that waits for its owner, or is over.
abbrev session : NegotiationStatus → Option ℕ → NegotiationSession ℕ
session status pending = record {
  initiator_clone_id = 22;
  responder_clone_id = 5;
  initiator_agent_id = some 22;
  responder_agent_id = some 11;
  intent = 0;
  status = status;
  session_version = 1;
  result = none;
  pending_approval_id = pending;
  last_sequence = 2;
  remote_peer_agent_id = some 2;
}

abbrev with_session : NegotiationSession ℕ → Tables ℕ ℕ
with_session row = record tables { sessions = (7, row) ∷ [] }

abbrev late : List (Event ℕ)
late = inbox (delivered 1 (says 33 reject 3 1003) ∷ []) ∷ []

run-over_example :
    local 7 (run node late (with_session (session failed none)))
    ≡ local 7 (with_session (session failed none))
unfolding local
run-over_example = run-over node late (with_session (session failed none)) 7 refl

abbrev item : ℕ → RelayOutbox ℕ
item n = record {
  approval_id = none;
  envelope = says n propose 2 0;
  status = OutboxStatus.pending;
  attempts = 0;
  sent_at = none;
}

abbrev queued : Db (Tables ℕ ℕ)
queued =
    let T = record tables { outbox = item 1 ∷ item 2 ∷ item 3 ∷ [] } in
    record { committed = T; working = T }

-- The Relay takes the first message and refuses the second.
abbrev takes_first : Envelope ℕ → Bool
takes_first e = e.message_id == 1

flush_outbox-Exact_example :
    Exact takes_first
      (waiting queued.working.outbox)
      (says 1 propose 2 0 ∷ [])
      (says 2 propose 2 0 ∷ says 3 propose 2 0 ∷ [])
      1
    × ((flush_outbox takes_first 9 queued).0.sent ≡ 1)
    × ((flush_outbox takes_first 9 queued).0.pending ≡ 2)
unfolding flush_outbox
flush_outbox-Exact_example = flush_outbox-Exact takes_first 9 queued

-- The peer's ACCEPT in an open session whose last message is this node's offer.
abbrev talking : Tables ℕ ℕ
talking = record (with_session (session opened none)) {
  messages =
      record {
        session_id = 7;
        sequence = 1;
        sender_agent_id = 22;
        receiver_agent_id = 11;
        message_type = request;
        intent = 0;
        payload = 0;
        delta = 0;
        requires_human_approval = false;
      }
      ∷ record {
        session_id = 7;
        sequence = 2;
        sender_agent_id = 11;
        receiver_agent_id = 22;
        message_type = propose;
        intent = 0;
        payload = 0;
        delta = 9;
        requires_human_approval = false;
      }
      ∷ [];
}

abbrev accepting : Envelope ℕ
accepting = says 34 accept 3 9

handle_envelope-Belongs_example : Expected node (call 1) accepting talking
unfolding handle_envelope read lift modify commit pure attempt rollback ◌>>=◌
handle_envelope-Belongs_example =
    handle_envelope-Belongs node (call 1) accepting talking talking processed
      (handle_envelope node (call 1) accepting
        (record { committed = talking; working = talking })).1
      refl refl

abbrev approval : Approval ℕ
approval = record {
  user_id = 111;
  is_remote_decision = true;
  status = ApprovalStatus.pending;
  resolved_at = none;
  session_id = 7;
  proposed_action = accept;
  proposal = 99;
  public_context = 99;
  selected_slot = 99;
  candidate_slots = 99;
  reason_codes = [];
  peer_node_id = some 2;
  peer_personal_agent_id = some 22;
  own_personal_agent_id = some 11;
}

-- The owner is asked about an offer, and the peer rejects before the owner answers.
abbrev asked : Db (Tables ℕ ℕ)
asked =
    let T = record talking {
      sessions = (7, session waiting_approval (some 600)) ∷ [];
      approvals = (600, approval) ∷ [];
    } in
    record { committed = T; working = T }

abbrev refusing : Envelope ℕ
refusing = says 35 reject 3 1003

abbrev refused_db : Db (Tables ℕ ℕ)
refused_db = (handle_envelope node (call 1) refusing asked).1

refused-unanswerable_example :
    Waiting 600 7 approval refused_db.working
    × (resolve_remote_approval node (call 2) 600 ApprovalStatus.expired none refused_db
        ≡ (err invalid_state_transition, refused_db))
unfolding handle_envelope read lift modify commit pure attempt rollback ◌>>=◌
refused-unanswerable_example =
    refused-unanswerable node (call 1) 600 approval refusing asked refused_db processed (call 2)
      ApprovalStatus.expired none refl
      (record { stored = refl; remote = refl; still_pending = refl; about = refl }) refl refl
