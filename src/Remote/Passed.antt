-- ===== src/Remote/Passed.antt =====
-- What a message has passed when `_handle_envelope` of services/remote_negotiation.py goes on.
use enishi.Prelude.{
  ℕ, ◌+◌, ◌≡◌, refl, sym, ap, ◌∙◌, Bool, true, false, not, ◌&&◌, Option, none, some, is_some, arith,
  ◌==◌,
}
use enishi.Prelude.Table.{lookup}
use enishi.Errors.{
  ok, raise_if, raise_if-passed, >>=-returned, ◌>>=◌, ◌>>◌, unhandled, Code,
  invalid_state_transition,
}
use enishi.Exec.{found}
use enishi.Protocol.{
  waiting_approval, agreed, failed, ◌is_status◌, NegotiationStatus, MessageType, opened,
  is_terminal, validate_incoming,
}
use enishi.Remote.Types.{Envelope, NegotiationSession, Approval, Tables}
use enishi.Remote.Awaiting.{awaits, require_waiting}
use enishi.Remote.Domain.{Node}
use enishi.Remote.Guards.{require_receivable_request, sender_node}
use enishi.Remote.Messages.{last_message, counter_rounds}
use enishi.Remote.Receive.{
  type_of, received_session, validate_session, gate, responder_of, requested,
}

ok-same : {A : Type 0} {x y : A} → ok x ≡ ok y → x ≡ y
ok-same h = cc

none_only : {A : Type 0} (o : Option A) → is_some o ≡ false → o ≡ none
none_only none h = refl
none_only (some a) h = cc

equal : (a b : ℕ) → not (a == b) ≡ false → a ≡ b
equal a b h = ground arith

-- What the state machine asks of every message.
validate_incoming-next :
    (status : NegotiationStatus) (last_sequence : ℕ) (message_type : MessageType) (sequence : ℕ)
    (last : Option MessageType) (rounds : ℕ)
    → validate_incoming status last_sequence message_type sequence last rounds ≡ ok tt
    → (is_terminal status ≡ false) × (sequence ≡ last_sequence + 1)
unfolding validate_incoming
validate_incoming-next status last_sequence message_type sequence last rounds h =
    let (open_yet, rest) = raise_if-passed (is_terminal status) _ _ h in
    let (_, rest') = raise_if-passed _ _ _ rest in
    let (next, _) = raise_if-passed _ _ _ rest' in (open_yet, equal _ _ next)

module _ {J C : Type 0} (e : Envelope J) (db : Tables J C) where
  pub gate-passed :
      (known : Option (NegotiationSession J))
      → gate e db ≡ ok known
      → (known ≡ lookup e.session_id db.sessions) × (validate_session e known db ≡ ok tt)
  unfolding gate
  gate-passed known h =
      let (_, valid, same) =
        >>=-returned (validate_session e (lookup e.session_id db.sessions) db) _ h in
      let found = sym (ok-same same) in (found, ap (λ o. validate_session e o db) found ∙ valid)

  pub gate-some :
      (session : NegotiationSession J)
      → gate e db ≡ ok (some session)
      → (lookup e.session_id db.sessions ≡ some session)
        × (is_terminal session.status ≡ false)
        × (e.sequence ≡ session.last_sequence + 1)
  unfolding validate_session
  gate-some session h =
      let (found, valid) = gate-passed (some session) h in
      let (open_yet, next) =
        validate_incoming-next session.status session.last_sequence e.message_type e.sequence
          (type_of (last_message e.session_id db)) (counter_rounds e.session_id db) valid in
      (sym found, open_yet, next)

  pub gate-none :
      (known : Option (NegotiationSession J))
      → gate e db ≡ ok known
      → lookup e.session_id db.sessions ≡ none
      → e.sequence ≡ 1
  unfolding validate_session
  gate-none known h fresh =
      let (found, valid) = gate-passed known h in
      (validate_incoming-next opened 0 e.message_type e.sequence none 0
        (ap (λ o. validate_session e o db) (sym (found ∙ fresh)) ∙ valid)).1

  -- A REQUEST opens a session that is not there.
  pub requested-fresh :
      (node : Node J C) (row : NegotiationSession J)
      → requested node e db ≡ ok row
      → (lookup e.session_id db.sessions ≡ none)
        × (row.status ≡ opened)
        × (row.last_sequence ≡ e.sequence)
  unfolding requested received_session
  requested-fresh node row h =
      let rest = λ (responder_id : ℕ).
        raise_if (is_some (lookup e.session_id db.sessions)) unhandled
        >> ok (received_session e responder_id) in
      let (_, _, h1) =
        >>=-returned (require_receivable_request node e.intent e.payload (sender_node e) db)
          (λ _. responder_of e db >>= rest) h in
      let (responder_id, _, h2) = >>=-returned (responder_of e db) rest h1 in
      let (fresh, h3) = raise_if-passed _ _ _ h2 in
      let same = ok-same h3 in
      (none_only _ fresh, ap (λ r. r.status) (sym same), ap (λ r. r.last_sequence) (sym same))

waits_open :
    (status : NegotiationStatus)
    → (status is_status waiting_approval) ≡ true
    → is_terminal status ≡ false
waits_open opened h = refl
waits_open waiting_approval h = refl
waits_open agreed h = cc
waits_open failed h = cc

both_first : (a b : Bool) → not (a && b) ≡ false → a ≡ true
both_first true b h = refl
both_first false b h = cc

found-same : {A : Type 0} (c : Code) (o : Option A) (a : A) → found c o ≡ ok a → o ≡ some a
found-same c none a h = cc
found-same c (some b) a h = ap some (ok-same h)

module _ {J C : Type 0} where
  -- A session that waits is not over.
  pub require_waiting-passed :
      (approval_id : ℕ) (a : Approval J) (db : Tables J C) (session : NegotiationSession J)
      → require_waiting approval_id a db ≡ ok session
      → (lookup a.session_id db.sessions ≡ some session) × (is_terminal session.status ≡ false)
  unfolding require_waiting
  require_waiting-passed approval_id a db session h =
      let rest = λ (s : NegotiationSession J).
        raise_if (not (awaits approval_id s)) invalid_state_transition >> ok s in
      let (s, here, h1) =
        >>=-returned (found invalid_state_transition (lookup a.session_id db.sessions)) rest h in
      let (waits, same) = raise_if-passed (not (awaits approval_id s)) _ _ h1 in
      let open_yet = waits_open s.status (both_first _ _ waits) in
      (
        found-same _ _ s here ∙ ap some (ok-same same),
        ap (λ (x : NegotiationSession J). is_terminal x.status) (sym (ok-same same)) ∙ open_yet,
      )
