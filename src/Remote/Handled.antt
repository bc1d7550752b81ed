-- ===== src/Remote/Handled.antt =====
-- `_handle_envelope` of services/remote_negotiation.py leads sessions on by steps of the abstract
-- session alone, whether it returns or raises.
use enishi.Prelude.{◌≡◌, refl, sym, ap, ◌∙◌, false, Option, none, some}
use enishi.Errors.{ok}
use enishi.Exec.{Db, lift, ◌>>=◌}
use enishi.Exec.Triples.{
  Ensures, Ensures-pure, Ensures-lift, Ensures-read, Ensures-bind, Ensures-modify, Ensures-commit,
  Ensures-if,
}
use enishi.Protocol.{request, is_terminal, ◌is_type◌}
use enishi.Remote.Types.{Envelope, NegotiationSession, Tables}
use enishi.Remote.Domain.{Node, Call}
use enishi.Remote.Messages.{with_sequence, record_incoming, save_message}
use enishi.Remote.Receive.{gate, open_session}
use enishi.Remote.Handle.{handle_request, handle_message, handle_envelope}
use enishi.Remote.Passed.{gate-some, gate-none, requested-fresh}
use enishi.Remote.Machine.{Base, Follows}
use enishi.Remote.Locals.{lookup-update_session}
use enishi.Remote.Follows.{record_incoming-Follows, open_session-Follows}
use enishi.Remote.Responded.{respond-Kept}
use enishi.Remote.Answered.{ok-same, Kept, Fallback, Open}

module _ {J C : Type 0} (base : Base J) (node : Node J C) (call : Call) (e : Envelope J) where
  handle_request-Kept :
      (known : Option (NegotiationSession J))
      → Ensures
          (λ db. Kept base db × (gate e db.working ≡ ok known))
          (handle_request node call e)
          (λ _. Kept base)
          (Fallback base)
  unfolding handle_request
  handle_request-Kept known =
      Ensures-read _ (λ db p. p.0.0)
        λ row.
          Ensures-bind
            (Ensures-modify {Q = λ _ db. Follows base db.working} (open_session e row) (λ db p.
              let (fresh, opened_now, first) = requested-fresh e db.working node row p.1 in
              open_session-Follows base e row db.working fresh opened_now
                (first ∙ gate-none e db.working known p.0.1 fresh)
                (gate-none e db.working known p.0.1 fresh) p.0.0.1))
            λ _.
              Ensures-bind {M = λ _. Kept base} (Ensures-commit (λ db p. (p, p)))
                λ _. Ensures-pure _ (λ db p. p)

  -- A message of a session that is there, with the next number.
  record_incoming-Open :
      (session : NegotiationSession J) (db : Db (Tables J C))
      → Kept base db
      → gate e db.working ≡ ok (some session)
      → Open base e.session_id
          (with_sequence e.sequence session)
          (record db { working = record_incoming e.session_id e db.working })
  unfolding record_incoming save_message
  record_incoming-Open session db p h =
      let (here, open_yet, next) = gate-some e db.working session h in
      (
        (
          p.0,
          record_incoming-Follows base e.session_id e session db.working here open_yet next p.1,
        ),
        lookup-update_session e.session_id (with_sequence e.sequence) session _ here,
      )

  handle_open-Kept :
      (session : NegotiationSession J)
      → is_terminal session.status ≡ false
      → Ensures
          (λ db. Kept base db × (gate e db.working ≡ ok (some session)))
          (handle_message node call e (some session))
          (λ _. Kept base)
          (Fallback base)
  unfolding handle_message
  handle_open-Kept session open_yet =
      Ensures-lift _ (λ db p. p.0.0)
        λ s same.
          Ensures-lift _ (λ db p. p.0.0)
            λ _ _.
              Ensures-bind
                (Ensures-modify {Q = λ _. Open base e.session_id (with_sequence e.sequence s)}
                  (record_incoming e.session_id e)
                  (λ db p.
                    record_incoming-Open s db p.0
                      (p.1 ∙ ap (λ (x : NegotiationSession J). ok (some x)) (ok-same same))))
                λ _.
                  respond-Kept base node call e (with_sequence e.sequence s) s
                    (ap (λ (x : NegotiationSession J). is_terminal x.status) (sym (ok-same same))
                      ∙ open_yet)
                    refl e.message_type

  handle_known-Kept :
      (session : NegotiationSession J)
      → Ensures
          (λ db. Kept base db × (gate e db.working ≡ ok (some session)))
          (handle_message node call e (some session))
          (λ _. Kept base)
          (Fallback base)
  handle_known-Kept session = record {
    at = λ db p. (handle_open-Kept session (gate-some e db.working session p.1).1).at db p;
  }

  handle_message-Kept :
      (known : Option (NegotiationSession J))
      → Ensures
          (λ db. Kept base db × (gate e db.working ≡ ok known))
          (handle_message node call e known)
          (λ _. Kept base)
          (Fallback base)
  unfolding handle_message lift ◌>>=◌
  handle_message-Kept none = record { at = λ db p. p.0.0 }
  handle_message-Kept (some session) = handle_known-Kept session

  pub handle_envelope-Kept :
      Ensures (Kept base) (handle_envelope node call e) (λ _. Kept base) (Fallback base)
  unfolding handle_envelope
  handle_envelope-Kept =
      Ensures-read _ (λ db p. p.0)
        λ known.
          Ensures-if (e.message_type is_type request) (λ _. handle_request-Kept known)
            (λ _. handle_message-Kept known)
