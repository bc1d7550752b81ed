-- ===== src/Tasks/Queue.antt =====
-- The queue of services/local-core/enishi_core/services/tasks.py: reading, cancelling, claiming,
-- running and recovering coding tasks. One worker runs one task at a time.
use enishi.Prelude.{
  ℕ, Bool, true, false, ◌&&◌, ◌||◌, Option, none, some, [], ◌∷◌, ltb, leb, ◌==◌, if◌then◌else◌,
}
use enishi.Prelude.Table.{Table, lookup, insert}
use enishi.Errors.{Code, Result, ok, err, Done}
use enishi.Tasks.Types.{
  CodingTaskStatus, queued, running, completed, failed, cancelling, cancelled, expired_task,
  FailureCode, worker_interrupted, task_timeout, provider_failed, task_execution_error, CodingTask,
  Approval, Database,
}
use enishi.Tasks.Resolution.{set_task, on_approval_resolved}
use enishi.Tasks.Approvals.{RemoteApprovals, get_approval}

-- `_TERMINAL_STATUSES_WITH_EXPIRED`
abbrev pub is_finished : CodingTaskStatus → Bool
is_finished completed = true
is_finished failed = true
is_finished cancelled = true
is_finished expired_task = true
is_finished _ = false

abbrev pub is_cancelling : CodingTaskStatus → Bool
is_cancelling cancelling = true
is_cancelling _ = false

abbrev pub is_running : CodingTaskStatus → Bool
is_running running = true
is_running _ = false

abbrev pub is_queued : CodingTaskStatus → Bool
is_queued queued = true
is_queued _ = false

abbrev time_or : Option ℕ → ℕ
time_or none = 0
time_or (some t) = t

-- `ORDER BY queued_at, created_at`: NULL sorts first in SQLite.
abbrev before : CodingTask → CodingTask → Bool
before a b =
    ltb (time_or a.queued_at) (time_or b.queued_at)
    || (time_or a.queued_at == time_or b.queued_at && leb a.created_at b.created_at)

abbrev first_of : ℕ × CodingTask → Option (ℕ × CodingTask) → Option (ℕ × CodingTask)
first_of (i, t) none = some (i, t)
first_of (i, t) (some (j, u)) = if before t u then some (i, t) else some (j, u)

-- `select ... where(status == QUEUED).order_by(...).limit(1)`
unfoldable pub next_queued : Table CodingTask → Option (ℕ × CodingTask)
next_queued [] = none
next_queued ((i, t) ∷ rest) =
    let best = next_queued rest in if is_queued t.status then first_of (i, t) best else best

-- What becomes of the provider's run, as the worker sees it.
pub data RunEnd : Type 0 where
  -- `provider_task.result()`, completed or not.
  provider_done : Bool → RunEnd
  -- The worker read the status CANCELLING and gave the provider up.
  saw_cancelling : RunEnd
  timed_out : RunEnd
  raised : RunEnd
  -- The worker itself is cancelled.
  worker_cancelled : RunEnd

module _ (now : ℕ) where
  -- `_mark_task_finished`
  unfoldable pub mark_task_finished :
      CodingTaskStatus → Option FailureCode → CodingTask → CodingTask
  mark_task_finished status failure t = record t {
    status = status;
    failure_code = failure;
    finished_at = some now;
    heartbeat_at = some now;
  }

  abbrev pub cancelled_by_owner : CodingTask → CodingTask
  cancelled_by_owner t =
      if is_running t.status
      then record t { status = cancelling }
      else record t { status = cancelled; finished_at = some now }

  abbrev pub interrupted : CodingTask → CodingTask
  interrupted t =
      if is_running t.status || is_cancelling t.status
      then record t {
        status = failed;
        failure_code = some worker_interrupted;
        finished_at = some now;
        heartbeat_at = some now;
      }
      else t

  unfoldable pub recover_interrupted_tasks : Table CodingTask → Table CodingTask
  recover_interrupted_tasks [] = []
  recover_interrupted_tasks ((i, t) ∷ rest) = (i, interrupted t) ∷ recover_interrupted_tasks rest

  abbrev pub claimed : ℕ → CodingTask → CodingTask
  claimed worker t = record t {
    status = running;
    started_at = some now;
    heartbeat_at = some now;
    worker_id = some worker;
  }

  -- `update(CodingTask).where(id == task_id, status == QUEUED)`, and the task if it hit a row.
  abbrev pub claim_row : ℕ → ℕ → Table CodingTask → Option ℕ × Table CodingTask
  claim_row worker i d = elim (lookup i d) [
    | none ↦ (none, d)
    | some t ↦ if is_queued t.status then (some i, insert i (claimed worker t) d) else (none, d)
  ]

  unfoldable pub claim_next_task : ℕ → Table CodingTask → Option ℕ × Table CodingTask
  unfolding next_queued
  claim_next_task worker d = elim (next_queued d) [
    | none ↦ (none, d)
    | some (i, t) ↦ claim_row worker i d
  ]

  unfoldable pub refresh_heartbeat : ℕ → Table CodingTask → Table CodingTask
  refresh_heartbeat i d = elim (lookup i d) [
    | none ↦ d
    | some t ↦ insert i (if is_running t.status then record t { heartbeat_at = some now } else t) d
  ]

  abbrev pub done_or_failed : Bool → CodingTask → CodingTask
  done_or_failed true t = mark_task_finished completed none t
  done_or_failed false t = mark_task_finished failed (some provider_failed) t

  -- How `_run_claimed_task` leaves the task. `seen` is the status on the task object of the worker's
  -- own database session, which is read when the run begins: `session.get` gives that object again
  -- and reads no row anew. A cancelled provider run has a result too, which is not completed.
  unfoldable pub finish_task : CodingTaskStatus → RunEnd → CodingTask → CodingTask
  unfolding mark_task_finished
  finish_task seen (provider_done success) t =
      if is_cancelling seen then mark_task_finished cancelled none t else done_or_failed success t
  finish_task seen saw_cancelling t =
      if is_cancelling seen then mark_task_finished cancelled none t else done_or_failed false t
  finish_task seen timed_out t = mark_task_finished failed (some task_timeout) t
  finish_task seen raised t = mark_task_finished failed (some task_execution_error) t
  finish_task seen worker_cancelled t =
      if is_cancelling seen then mark_task_finished cancelled none t else t

  -- `_run_claimed_task`, from the row's point of view: one write when the run is over.
  unfoldable pub run_claimed_task :
      CodingTaskStatus → RunEnd → ℕ → Table CodingTask → Table CodingTask
  unfolding finish_task
  run_claimed_task seen end i d = elim (lookup i d) [
    | none ↦ d
    | some t ↦ insert i (finish_task seen end t) d
  ]

module _ {P : Type 0} (remote : RemoteApprovals P) (ttl_seconds now : ℕ) where
  abbrev pub tell_task : Result (Approval P) × Database P → Result Done × Database P
  tell_task (err c, db) = (err c, db)
  tell_task (ok a, db) = (ok tt, on_approval_resolved now a db)

  abbrev pub found : ℕ → Result Done × Database P → Result CodingTask × Database P
  found i (err c, db) = (err c, db)
  found i (ok _, db) = elim (lookup i db.tasks) [
    | none ↦ (err Code.task_not_found, db)
    | some t ↦ (ok t, db)
  ]

  -- A task that has an approval learns its state first.
  abbrev pub learned : Option ℕ → Database P → Result Done × Database P
  learned none db = (ok tt, db)
  learned (some approval) db = tell_task (get_approval remote ttl_seconds now approval db)

  unfoldable pub get_task : ℕ → Database P → Result CodingTask × Database P
  unfolding get_approval on_approval_resolved
  get_task i db = elim (lookup i db.tasks) [
    | none ↦ (err Code.task_not_found, db)
    | some t ↦ found i (learned t.approval_id db)
  ]

  abbrev pub cancel_found : ℕ → Result CodingTask × Database P → Result CodingTask × Database P
  cancel_found i (err c, db) = (err c, db)
  cancel_found i (ok t, db) =
      if is_finished t.status || is_cancelling t.status
      then (err Code.invalid_state_transition, db)
      else (ok (cancelled_by_owner now t), set_task now i (cancelled_by_owner now t) db)

  unfoldable pub cancel_task : ℕ → Database P → Result CodingTask × Database P
  unfolding get_task
  cancel_task i db = cancel_found i (get_task i db)
