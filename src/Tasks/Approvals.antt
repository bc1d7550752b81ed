-- ===== src/Tasks/Approvals.antt =====
-- services/local-core/enishi_core/services/approvals.py, with the two routes of api/routes.py that
-- approve and reject. A pending approval whose time is over is expired by whoever reads it.
use enishi.Prelude.{ℕ, ◌+◌, Bool, true, false, not, ◌&&◌, Option, none, some, ltb, if◌then◌else◌}
use enishi.Prelude.Table.{lookup, insert}
use enishi.Errors.{Code, Result, ok, err}
use enishi.Tasks.Types.{
  ApprovalStatus, ActionType, negotiation_decision, ApprovalPayload, Approval, Database, is_pending,
}
use enishi.Tasks.Sessions
use enishi.Tasks.Resolution
use enishi.Tasks.Resolution.{expire_task_for_approval}

-- `resolve_remote_approval` of services/remote_negotiation.py, which answers the approvals of
-- sessions with other nodes: the part of it that the owner's approvals call.
pub record RemoteApprovals (P : Type 0) : Type 0 where
  pub resolve : ℕ → ℕ → ApprovalStatus → Database P → Result (Approval P) × Database P

abbrev pub is_decision : ActionType → Bool
is_decision negotiation_decision = true
is_decision _ = false

module _ {P : Type 0} (remote : RemoteApprovals P) (ttl_seconds now : ℕ) where
  -- What a call gives: an approval or an error, and the database.
  abbrev pub Outcome : Type 0
  Outcome = Result (Approval P) × Database P

  -- `expires_at or now + timedelta(seconds=...)`
  unfoldable pub create_approval :
      ℕ → ℕ → ActionType → ℕ → ApprovalPayload P → Option ℕ → Database P → Approval P × Database P
  create_approval i user_id action_type level payload expires_at db =
      let a : Approval P = record {
        user_id = user_id;
        action_type = action_type;
        level = level;
        status = ApprovalStatus.pending;
        payload = payload;
        created_at = now;
        expires_at = elim expires_at [ none ↦ now + ttl_seconds | some t ↦ t ];
        resolved_at = none;
      } in
      (a, record db { approvals = insert i a db.approvals })

  abbrev pub closed : ApprovalStatus → Approval P → Approval P
  closed status a = record a { status = status; resolved_at = some now }

  abbrev pub save : ℕ → Approval P → Database P → Database P
  save i a db = record db { approvals = insert i a db.approvals }

  -- The approval is over for everybody who waits for it.
  abbrev pub expire_local : ℕ → Approval P → Database P → Database P
  expire_local i a db =
      Sessions.on_approval_resolved i a (expire_task_for_approval now a (save i a db))

  unfoldable pub expire_if_needed : ℕ → Approval P → Database P → Outcome
  unfolding Sessions.on_approval_resolved expire_task_for_approval
  expire_if_needed i a db =
      if not (is_pending a.status)
      then (ok a, db)
      else if ltb now a.expires_at
      then (ok a, db)
      else if is_decision a.action_type && a.payload.remote
      then remote.resolve now i ApprovalStatus.expired db
      else (
        ok (closed ApprovalStatus.expired a),
        expire_local i (closed ApprovalStatus.expired a) db,
      )

  unfoldable pub get_approval : ℕ → Database P → Outcome
  unfolding expire_if_needed
  get_approval i db = elim (lookup i db.approvals) [
    | none ↦ (err Code.approval_required, db)
    | some a ↦ expire_if_needed i a db
  ]

  abbrev pub not_pending : ApprovalStatus → Result (Approval P)
  not_pending ApprovalStatus.expired = err Code.approval_expired
  not_pending _ = err Code.invalid_state_transition

  abbrev pub if_pending : (Approval P → Database P → Outcome) → Outcome → Outcome
  if_pending next (err c, db) = (err c, db)
  if_pending next (ok a, db) = if is_pending a.status then next a db else (not_pending a.status, db)

  -- `_get_pending_approval`, then the new status.
  unfoldable pub close_pending : ApprovalStatus → ℕ → Database P → Outcome
  unfolding get_approval
  close_pending status i db =
      if_pending (λ a db'. (ok (closed status a), save i (closed status a) db')) (get_approval i db)

  unfoldable pub approve : ℕ → Database P → Outcome
  unfolding close_pending
  approve i db = close_pending ApprovalStatus.approved i db

  unfoldable pub reject : ℕ → Database P → Outcome
  unfolding close_pending
  reject i db = close_pending ApprovalStatus.rejected i db

  abbrev pub then_tell : ℕ → Outcome → Outcome
  then_tell i (err c, db) = (err c, db)
  then_tell i (ok a, db) =
      (ok a, Sessions.on_approval_resolved i a (Resolution.on_approval_resolved now a db))

  abbrev pub is_remote : ℕ → Database P → Bool
  is_remote i db = elim (lookup i db.approvals) [
    | none ↦ false
    | some a ↦ is_decision a.action_type && a.payload.remote
  ]

  -- The route: the answer is saved, then the task and the session learn of it.
  unfoldable pub answer_approval : ApprovalStatus → ℕ → Database P → Outcome
  unfolding close_pending Sessions.on_approval_resolved Resolution.on_approval_resolved
  answer_approval status i db =
      if is_remote i db
      then remote.resolve now i status db
      else then_tell i (close_pending status i db)
