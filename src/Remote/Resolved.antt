-- ===== src/Remote/Resolved.antt =====
-- `resolve_remote_approval` and `start_remote_negotiation` of services/remote_negotiation.py: their
-- sessions too go by the steps of the abstract session alone.
use enishi.Prelude.{ℕ, ◌+◌, ◌≡◌, refl, false, ◌&&◌, Option, none, some}
use enishi.Prelude.Table.{lookup}
use enishi.Exec.{modify}
use enishi.Exec.Triples.{
  Ensures, Ensures-pure, Ensures-lift, Ensures-read, Ensures-bind, Ensures-modify, Ensures-commit,
  Ensures-if, Ensures-weaken,
}
use enishi.Protocol.{
  NegotiationStatus, opened, waiting_approval, agreed, failed, is_terminal, ◌is_status◌,
}
use enishi.Tasks.Types.{ApprovalStatus}
use enishi.Remote.Types.{countered_by_human, refused_by_human, NegotiationSession, Approval, Tables}
use enishi.Remote.Domain.{ApprovalReply, DecisionDomain, Node, Call}
use enishi.Remote.Messages.{with_sequence, update_session}
use enishi.Remote.Writes.{ended}
use enishi.Remote.Resolve.{
  is_approved, is_accept, no_longer_pending, reopened, close_approval, conclude, resolve_waiting,
  resolve_remote_approval,
}
use enishi.Remote.Machine.{Base, SameTerms, Follows}
use enishi.Remote.Passed.{require_waiting-passed}
use enishi.Remote.Locals.{lookup-update_session}
use enishi.Remote.Follows.{record_outgoing-Follows, update_session-Follows}
use enishi.Remote.Answered.{
  same_terms, Kept, Fallback, Open, transport-Open, lookup-record_outgoing, agree-Kept,
}

still_open :
    (status : NegotiationStatus) → is_terminal status ≡ false → (status is_status agreed) ≡ false
still_open opened h = refl
still_open waiting_approval h = refl
still_open agreed h = cc
still_open failed h = refl

module _ {J C : Type 0} (base : Base J) (node : Node J C) (call : Call) where
  close_approval-Follows :
      (approval_id : ℕ) (target : ApprovalStatus) (a : Approval J) (row : NegotiationSession J)
      (db : Tables J C)
      → lookup a.session_id db.sessions ≡ some row
      → is_terminal row.status ≡ false
      → Follows base db
      → Follows base (close_approval node call approval_id target a db)
  unfolding close_approval
  close_approval-Follows approval_id target a row db here open_yet h =
      update_session-Follows base a.session_id no_longer_pending row db _ refl refl refl refl here
        open_yet (still_open row.status open_yet) (same_terms row row.status row.result none) h

  conclude-Kept :
      (target : ApprovalStatus) (s : ℕ) (row session : NegotiationSession J)
      (domain : DecisionDomain J C) (reply : ApprovalReply J)
      → is_terminal row.status ≡ false
      → Ensures
          (Open base s row)
          (conclude node call target s session domain reply)
          (λ _ db. Follows base db.working)
          (Fallback base)
  unfolding conclude
  conclude-Kept target s row session domain reply open_yet =
      Ensures-if (is_approved target && is_accept reply.message_type)
        (λ _.
          Ensures-lift _ (λ db p. p.0.0)
            λ payload _.
              Ensures-weaken (λ db p. p) (λ _ db p. p.1) (λ db p. p)
                (agree-Kept base s row session payload _ open_yet))
        (λ _.
          Ensures-if (is_approved target)
            (λ _.
              turned-Kept reopened refl
                (same_terms row opened (some countered_by_human) row.pending_approval_id))
            (λ _.
              Ensures-lift _ (λ db p. p.0.0)
                λ code _.
                  turned-Kept (ended failed (refused_by_human code)) refl
                    (same_terms row failed _ row.pending_approval_id)))
    where
      turned-Kept :
          (f : NegotiationSession J → NegotiationSession J)
          → ((f row).status is_status agreed) ≡ false
          → SameTerms row (f row)
          → Ensures
              (Open {C = C} base s row)
              (modify (update_session s f))
              (λ _ db. Follows base db.working)
              (Fallback base)
      turned-Kept f other same = Ensures-modify (update_session s f) (λ db p.
          update_session-Follows base s f row db.working db.working refl refl refl refl p.1 open_yet
            other same p.0.1)

  resolve_waiting-Kept :
      (approval_id : ℕ) (target : ApprovalStatus) (override : Option J) (a : Approval J)
      (session : NegotiationSession J)
      → is_terminal session.status ≡ false
      → Ensures
          (Open base a.session_id session)
          (resolve_waiting node call approval_id target override a session)
          (λ _. Kept base)
          (Fallback base)
  unfolding resolve_waiting
  resolve_waiting-Kept approval_id target override a session open_yet =
      let s = a.session_id in
      let row = with_sequence (session.last_sequence + 1) session in
      Ensures-lift _ (λ db p. p.0.0)
        λ domain _.
          Ensures-lift _ (λ db p. p.0.0)
            λ reply _. Ensures-bind (transport-Open base s node session session _ _) λ ids.
              Ensures-bind
                (Ensures-modify {Q = λ _. Open base s row} _ (λ db p. (
                  (
                    p.0.0,
                    record_outgoing-Follows base s _ (some approval_id) session db.working p.1
                        open_yet refl p.0.1,
                  ),
                  lookup-record_outgoing base s _ (some approval_id) session db.working p.1,
                )))
                λ _.
                  Ensures-bind
                    (Ensures-modify {Q = λ _. Open base s (no_longer_pending row)}
                      (close_approval node call approval_id target a)
                      (λ db p. (
                        (
                          p.0.0,
                          close_approval-Follows approval_id target a row db.working p.1 open_yet
                              p.0.1,
                        ),
                        lookup-update_session s no_longer_pending row _ p.1,
                      )))
                    λ _.
                      Ensures-bind
                        (conclude-Kept target s (no_longer_pending row) session domain reply
                          open_yet)
                        λ _.
                          Ensures-bind {M = λ _. Kept base} (Ensures-commit (λ db p. (p, p)))
                            λ _. Ensures-pure _ (λ db p. p)

  pub resolve_remote_approval-Kept :
      (approval_id : ℕ) (target : ApprovalStatus) (override : Option J)
      → Ensures
          (Kept base)
          (resolve_remote_approval node call approval_id target override)
          (λ _. Kept base)
          (Fallback base)
  unfolding resolve_remote_approval
  resolve_remote_approval-Kept approval_id target override =
      Ensures-read _ (λ db p. p.0)
        λ a.
          Ensures-lift _ (λ db p. p.0.0)
            λ _ _.
              Ensures-read _ (λ db p. p.0.0)
                λ session. record {
                  at = λ db p.
                      let (here, open_yet) =
                        require_waiting-passed approval_id a db.working session p.1 in
                      (resolve_waiting-Kept approval_id target override a session open_yet).at db
                        (p.0.0, here);
                }
