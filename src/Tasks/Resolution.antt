-- ===== src/Tasks/Resolution.antt =====
-- `on_approval_resolved` and `expire_task_for_approval` of
-- services/local-core/enishi_core/services/tasks.py: what an owner's answer does to a task.
use enishi.Prelude.{ℕ, true, false, Option, none, some}
use enishi.Prelude.Table.{lookup, insert}
use enishi.Tasks.Types.{
  ApprovalStatus, queued, cancelled, expired_task, approval_expired, CodingTask, Approval, Database,
  is_waiting,
}

abbrev pub if_waiting : (CodingTask → CodingTask) → CodingTask → CodingTask
if_waiting f t = elim (is_waiting t.status) [ true ↦ f t | false ↦ t ]

module _ (now : ℕ) where
  abbrev pub lapsed : CodingTask → CodingTask
  lapsed t = record t {
    status = expired_task;
    finished_at = some now;
    failure_code = some approval_expired;
  }

  -- The task as a resolved approval leaves it.
  abbrev pub resolved_task : ApprovalStatus → CodingTask → CodingTask
  resolved_task ApprovalStatus.approved t = record t { status = queued; queued_at = some now }
  resolved_task ApprovalStatus.rejected t = record t { status = cancelled; finished_at = some now }
  resolved_task ApprovalStatus.expired t = lapsed t
  resolved_task ApprovalStatus.pending t = t

module _ {P : Type 0} (now : ℕ) where
  abbrev pub set_task : ℕ → CodingTask → Database P → Database P
  set_task i t db = record db { tasks = insert i t db.tasks }

  abbrev pub at_task : (CodingTask → CodingTask) → Option ℕ → Database P → Database P
  at_task f none db = db
  at_task f (some i) db = elim (lookup i db.tasks) [
    | none ↦ db
    | some t ↦ set_task i (if_waiting f t) db
  ]

  unfoldable pub expire_task_for_approval : Approval P → Database P → Database P
  expire_task_for_approval a db = at_task (lapsed now) a.payload.task_id db

  unfoldable pub on_approval_resolved : Approval P → Database P → Database P
  on_approval_resolved a db = at_task (resolved_task now a.status) a.payload.task_id db
