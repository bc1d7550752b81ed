-- ===== src/Remote/Follows.antt =====
-- The writes of services/remote_negotiation.py as steps of the abstract session.
use enishi.Prelude.{
  ℕ, ◌+◌, ◌≡◌, refl, sym, ap, subst, ◌∙◌, false, Option, none, some, List, [], ◌∷◌, ◌++◌, keep,
  ◌==◌, ==-refl, ++-nil,
}
use enishi.Prelude.Table.{lookup, lookup-insert}
use enishi.Protocol.{opened, agreed, is_terminal, ◌is_status◌}
use enishi.Remote.Types.{Envelope, NegotiationSession, NegotiationMessage, Agreement, Tables}
use enishi.Remote.Messages.{
  of_session, save_message, enqueue_envelope, update_session, record_incoming, record_outgoing,
}
use enishi.Remote.Writes.{add_agreement, agreement_of}
use enishi.Remote.Receive.{open_session}
use enishi.Remote.Machine.{Base, Local, Step, opens, says, turns, agrees, SameTerms, local, Follows}
use enishi.Remote.Locals.{
  if_same, said_by, message_of, update_session_found, Wrote, Follows-Wrote, Wrote-update,
  Wrote-message,
}

module _ {J C : Type 0} (base : Base J) (s : ℕ) where
  -- A step from the row that the session has.
  Step-found :
      (db : Tables J C) (o : Option (NegotiationSession J)) {l : Local J}
      → lookup s db.sessions ≡ o
      → Step
          (record {
            session = o;
            messages = keep (of_session s) db.messages;
            agreement = lookup s db.agreements;
          })
          l
      → Step (local s db) l
  unfolding local
  Step-found db o {l} found step =
      subst
        (λ (o : Option (NegotiationSession J)).
          Step
            (record {
              session = o;
              messages = keep (of_session s) db.messages;
              agreement = lookup s db.agreements;
            })
            l)
        (sym found) step

  -- The same where no message is added.
  Step-quiet :
      (db : Tables J C) {row : NegotiationSession J} (next : NegotiationSession J)
      (a : Option (Agreement J))
      → lookup s db.sessions ≡ some row
      → Step
          (record {
            session = some row;
            messages = keep (of_session s) db.messages;
            agreement = lookup s db.agreements;
          })
          (record {
            session = some next;
            messages = keep (of_session s) db.messages;
            agreement = a;
          })
      → Step (local s db) (record {
        session = some next;
        messages = keep (of_session s) db.messages ++ [];
        agreement = a;
      })
  Step-quiet db next a found step =
      subst
        (λ (ms : List (NegotiationMessage J)).
          Step (local s db) (record { session = some next; messages = ms; agreement = a }))
        (sym (++-nil _)) (Step-found db _ found step)

  pub record_incoming-Follows :
      (e : Envelope J) (row : NegotiationSession J) (db : Tables J C)
      → lookup s db.sessions ≡ some row
      → is_terminal row.status ≡ false
      → e.sequence ≡ row.last_sequence + 1
      → Follows base db
      → Follows base (record_incoming s e db)
  unfolding record_incoming save_message
  record_incoming-Follows e row db found open_yet next h =
      Follows-Wrote base s _ _ _ db _ h (Wrote-message s e row db _ found refl refl refl refl)
        (Step-found db _ found (says row (message_of s e) open_yet next))

  pub record_outgoing-Follows :
      (e : Envelope J) (approval_id : Option ℕ) (row : NegotiationSession J) (db : Tables J C)
      → lookup s db.sessions ≡ some row
      → is_terminal row.status ≡ false
      → e.sequence ≡ row.last_sequence + 1
      → Follows base db
      → Follows base (record_outgoing s e approval_id db)
  unfolding record_outgoing save_message enqueue_envelope
  record_outgoing-Follows e approval_id row db found open_yet next h =
      Follows-Wrote base s _ _ _ db _ h (Wrote-message s e row db _ found refl refl refl refl)
        (Step-found db _ found (says row (message_of s e) open_yet next))

  -- A session that changes, in tables that differ in nothing that a session shows.
  pub update_session-Follows :
      (f : NegotiationSession J → NegotiationSession J) (row : NegotiationSession J)
      (db db1 : Tables J C)
      → db1.sessions ≡ db.sessions
      → db1.messages ≡ db.messages
      → db1.agreements ≡ db.agreements
      → db1.seen ≡ db.seen
      → lookup s db.sessions ≡ some row
      → is_terminal row.status ≡ false
      → (f row).status is_status agreed ≡ false
      → SameTerms row (f row)
      → Follows base db
      → Follows base (update_session s f db1)
  update_session-Follows f row db db1 e1 e2 e3 e4 found open_yet other same h =
      Follows-Wrote base s _ _ _ db _ h
        (Wrote-update s f row db db1 found e1 (e2 ∙ sym (++-nil db.messages)) e3 e4)
        (Step-quiet db (f row) _ found (turns row (f row) open_yet other same))

  pub agreed-Follows :
      (f : NegotiationSession J → NegotiationSession J) (row : NegotiationSession J)
      (session : NegotiationSession J) (payload : J) (db : Tables J C)
      → lookup s db.sessions ≡ some row
      → lookup s db.agreements ≡ none
      → is_terminal row.status ≡ false
      → (f row).status ≡ agreed
      → SameTerms row (f row)
      → Follows base db
      → Follows base (add_agreement s session payload (update_session s f db))
  unfolding add_agreement
  agreed-Follows f row session payload db found fresh open_yet done same h =
      let e = update_session_found s f row db found in
      let a = agreement_of session payload in
      let w : Wrote s (f row) [] (some a) db
          (add_agreement s session payload (update_session s f db)) =
        record {
          sessions = ap (λ T. T.sessions) e;
          messages = ap (λ T. T.messages) e ∙ sym (++-nil db.messages);
          seen = ap (λ T. T.seen) e;
          own = λ t. if_same (s == t);
          agreement_own = lookup-insert s s a _ ∙ rw (==-refl s) refl;
          agreement_other =
              λ t other. lookup-insert s t a _ ∙ rw other (ap (λ T. lookup t T.agreements) e);
        } in
      Follows-Wrote base s _ _ _ db _ h w (
        Step-quiet db (f row) (some a) found (
          subst
            (λ (o : Option (Agreement J)).
              Step
                (record {
                  session = some row;
                  messages = keep (of_session s) db.messages;
                  agreement = lookup s db.agreements;
                })
                (record {
                  session = some (f row);
                  messages = keep (of_session s) db.messages;
                  agreement = o;
                }))
            (rw fresh refl) (agrees row (f row) a open_yet done same)))

  pub kept_agreement-Follows :
      (f : NegotiationSession J → NegotiationSession J) (row : NegotiationSession J)
      (a : Agreement J) (db : Tables J C)
      → lookup s db.sessions ≡ some row
      → lookup s db.agreements ≡ some a
      → is_terminal row.status ≡ false
      → (f row).status ≡ agreed
      → SameTerms row (f row)
      → Follows base db
      → Follows base (update_session s f db)
  kept_agreement-Follows f row a db found there open_yet done same h =
      Follows-Wrote base s _ _ _ db _ h
        (Wrote-update s f row db db found refl (sym (++-nil db.messages)) refl refl)
        (Step-quiet db (f row) (lookup s db.agreements) found (
          subst
            (λ (o : Option (Agreement J)).
              Step
                (record {
                  session = some row;
                  messages = keep (of_session s) db.messages;
                  agreement = lookup s db.agreements;
                })
                (record {
                  session = some (f row);
                  messages = keep (of_session s) db.messages;
                  agreement = o;
                }))
            (rw there refl) (agrees row (f row) a open_yet done same)))

module _ {J C : Type 0} (base : Base J) where
  pub open_session-Follows :
      (e : Envelope J) (row : NegotiationSession J) (db : Tables J C)
      → lookup e.session_id db.sessions ≡ none
      → row.status ≡ opened
      → row.last_sequence ≡ 1
      → e.sequence ≡ 1
      → Follows base db
      → Follows base (open_session e row db)
  unfolding open_session save_message
  open_session-Follows e row db found fresh first number h =
      let s = e.session_id in
      let w : Wrote s row (message_of s e ∷ []) (lookup s db.agreements) db
          (open_session e row db) =
        record {
          sessions = refl;
          messages = refl;
          seen = refl;
          own = λ t. said_by s (message_of s e) t refl;
          agreement_own = refl;
          agreement_other = λ t _. refl;
        } in
      Follows-Wrote base s _ _ _ db _ h w
        (Step-found base s db _ found (opens row (message_of s e) fresh first number))
