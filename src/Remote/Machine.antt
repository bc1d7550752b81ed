-- ===== src/Remote/Machine.antt =====
-- An abstract session of services/remote_negotiation.py: what the tables hold for one session, and the
-- steps that it may take, whoever makes them.
use enishi.Prelude.{ℕ, ◌+◌, ◌≡◌, false, Option, none, some, List, [], ◌∷◌, ◌++◌, keep}
use enishi.Prelude.Table.{lookup}
use enishi.Protocol.{opened, agreed, is_terminal, ◌is_status◌}
use enishi.Remote.Types.{NegotiationSession, NegotiationMessage, Agreement, Tables, or_else}
use enishi.Replay.{SeenMessage}
use enishi.Remote.Messages.{of_session, with_sequence}

-- What the tables hold for one session.
pub record Local (J : Type 0) : Type 0 where
  pub session : Option (NegotiationSession J)
  pub messages : List (NegotiationMessage J)
  pub agreement : Option (Agreement J)

module _ {J : Type 0} where
  -- What a session never changes after it was opened.
  pub record SameTerms (old new : NegotiationSession J) : Type 0 where
    pub initiator : new.initiator_agent_id ≡ old.initiator_agent_id
    pub responder : new.responder_agent_id ≡ old.responder_agent_id
    pub peer : new.remote_peer_agent_id ≡ old.remote_peer_agent_id
    pub intent : new.intent ≡ old.intent
    pub version : new.session_version ≡ old.session_version
    pub sequence : new.last_sequence ≡ old.last_sequence

  pub data Step : Local J → Local J → Type 0 where
    -- A REQUEST with number 1 opens the session.
    opens :
        {ms : List (NegotiationMessage J)} {a : Option (Agreement J)} (row : NegotiationSession J)
        (m : NegotiationMessage J)
        → row.status ≡ opened
        → row.last_sequence ≡ 1
        → m.sequence ≡ 1
        → Step
            (record { session = none; messages = ms; agreement = a })
            (record { session = some row; messages = ms ++ m ∷ []; agreement = a })
    -- A message with the next number, of either side, while the session is not over.
    says :
        {ms : List (NegotiationMessage J)} {a : Option (Agreement J)} (row : NegotiationSession J)
        (m : NegotiationMessage J)
        → is_terminal row.status ≡ false
        → m.sequence ≡ row.last_sequence + 1
        → Step
            (record { session = some row; messages = ms; agreement = a })
            (record {
              session = some (with_sequence m.sequence row);
              messages = ms ++ m ∷ [];
              agreement = a;
            })
    -- The session waits, goes on or fails.
    turns :
        {ms : List (NegotiationMessage J)} {a : Option (Agreement J)}
        (row next : NegotiationSession J)
        → is_terminal row.status ≡ false
        → (next.status is_status agreed) ≡ false
        → SameTerms row next
        → Step
            (record { session = some row; messages = ms; agreement = a })
            (record { session = some next; messages = ms; agreement = a })
    -- The session ends agreed, with its agreement in the same step; one that is there is kept.
    agrees :
        {ms : List (NegotiationMessage J)} {a : Option (Agreement J)}
        (row next : NegotiationSession J) (agreement : Agreement J)
        → is_terminal row.status ≡ false
        → next.status ≡ agreed
        → SameTerms row next
        → Step
            (record { session = some row; messages = ms; agreement = a })
            (record { session = some next; messages = ms; agreement = some (or_else a agreement) })

  pub data Steps : Local J → Local J → Type 0 where
    stays : {l : Local J} → Steps l l
    then_step : {k l m : Local J} → Steps k l → Step l m → Steps k m

-- Where the sessions were, and what is to hold of the messages that were seen.
pub record Base (J : Type 0) : Type 1 where
  pub sessions : ℕ → Local J
  pub seen : List SeenMessage → Type 0

module _ {J C : Type 0} where
  unfoldable pub local : ℕ → Tables J C → Local J
  unfolding lookup
  local session_id db = record {
    session = lookup session_id db.sessions;
    messages = keep (of_session session_id) db.messages;
    agreement = lookup session_id db.agreements;
  }

  -- Every session has come by steps from where it was, and what is to hold of the messages that were
  -- seen holds.
  abbrev pub Follows : Base J → Tables J C → Type 0
  Follows base db = ((t : ℕ) → Steps (base.sessions t) (local t db)) × base.seen db.seen
