-- ===== src/Remote/Awaiting.antt =====
-- The checks of `resolve_remote_approval` of services/remote_negotiation.py: an approval that is
-- pending, of a session that waits for this very approval.
use enishi.Prelude.{ℕ, Bool, not, ◌&&◌, some}
use enishi.Prelude.Table.{lookup}
use enishi.Errors.{Code, Result, ok, raise_if, ◌>>=◌, ◌>>◌, invalid_state_transition}
use enishi.Exec.{found}
use enishi.Protocol.{waiting_approval, ◌is_status◌}
use enishi.Tasks.Types.{ApprovalStatus, is_pending}
use enishi.Remote.Types.{NegotiationSession, Approval, Tables}
use enishi.Remote.Guards.{same_id}

-- `approval.status` of an approval that is over.
abbrev pub over_code : ApprovalStatus → Code
over_code ApprovalStatus.expired = Code.approval_expired
over_code _ = invalid_state_transition

-- The session waits for this very approval.
abbrev pub awaits : {J : Type 0} → ℕ → NegotiationSession J → Bool
awaits approval_id session =
    (session.status is_status waiting_approval)
    && same_id session.pending_approval_id (some approval_id)

module _ {J C : Type 0} where
  unfoldable pub require_pending : ℕ → Tables J C → Result (Approval J)
  unfolding lookup
  require_pending approval_id db = do
    a ← found Code.approval_required (lookup approval_id db.approvals)
    raise_if (not a.is_remote_decision) invalid_state_transition
    raise_if (not (is_pending a.status)) (over_code a.status)
    ok a

  unfoldable pub require_waiting : ℕ → Approval J → Tables J C → Result (NegotiationSession J)
  unfolding lookup
  require_waiting approval_id a db = do
    session ← found invalid_state_transition (lookup a.session_id db.sessions)
    raise_if (not (awaits approval_id session)) invalid_state_transition
    ok session
