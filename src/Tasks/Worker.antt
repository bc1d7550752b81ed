-- ===== src/Tasks/Worker.antt =====
-- The single worker of services/local-core/enishi_core/services/tasks.py beside the interface: what
-- `worker_loop` holds between its steps, and all calls of one process as steps. What cannot happen at
-- a moment, such as a timeout before the time, is not excluded.
use enishi.Prelude.{ℕ, Option, none, some}
use enishi.Prelude.Table.{Table, lookup}
use enishi.Tasks.Types.{ApprovalStatus, CodingTaskStatus, CodingTask, Database}
use enishi.Tasks.Approvals.{RemoteApprovals, answer_approval}
use enishi.Tasks.Queue.{
  RunEnd, claim_next_task, refresh_heartbeat, recover_interrupted_tasks, run_claimed_task, get_task,
  cancel_task,
}

-- `worker_loop` waits, has claimed a task, or runs it: then the database session of
-- `_run_claimed_task` has an object for the row, with the status that the row had when the run began.
-- `session.get` gives that object again without reading the row, as the session keeps its objects.
pub data Worker : Type 0 where
  idle : Worker
  holds : ℕ → Worker
  runs : ℕ → CodingTaskStatus → Worker

pub record Process (P : Type 0) : Type 0 where
  pub db : Database P
  pub worker : Worker

abbrev pub holding : Option ℕ → Worker
holding none = idle
holding (some i) = holds i

abbrev pub seen_at : ℕ → Option CodingTask → Worker
seen_at i none = idle
seen_at i (some t) = runs i t.status

-- `session.get` at the start of `_run_claimed_task`, which reads the row.
abbrev pub begun : Table CodingTask → Worker → Worker
begun tasks (holds i) = seen_at i (lookup i tasks)
begun tasks w = w

module _ {P : Type 0} where
  abbrev pub over_tasks : Table CodingTask → Worker → Process P → Process P
  over_tasks tasks worker s = record { db = record s.db { tasks = tasks }; worker = worker }

  -- One round of `worker_loop`, which claims the next task when it has none.
  abbrev pub claim_by : ℕ → ℕ → Worker → Process P → Process P
  claim_by now worker_id idle s =
      let (claimed, tasks) = claim_next_task now worker_id s.db.tasks in
      over_tasks tasks (holding claimed) s
  claim_by now worker_id _ s = s

  unfoldable pub claim_round : ℕ → ℕ → Process P → Process P
  claim_round now worker_id s = claim_by now worker_id s.worker s

  unfoldable pub begin_run : Process P → Process P
  begin_run s = record { db = s.db; worker = begun s.db.tasks s.worker }

  -- The end of `_run_claimed_task`: it asks the object that the session has, and writes to the row
  -- whatever the row is by then.
  abbrev pub end_by : ℕ → RunEnd → Worker → Process P → Process P
  end_by now end (runs i seen) s = over_tasks (run_claimed_task now seen end i s.db.tasks) idle s
  end_by now end _ s = s

  unfoldable pub end_run : ℕ → RunEnd → Process P → Process P
  unfolding run_claimed_task
  end_run now end s = end_by now end s.worker s

  -- The process is gone, wherever it was, and starts anew: `lifespan` of main.py recovers the tasks
  -- before it starts the worker.
  unfoldable pub start_process : ℕ → Process P → Process P
  unfolding recover_interrupted_tasks
  start_process now s = over_tasks (recover_interrupted_tasks now s.db.tasks) idle s

-- One call by the interface, the worker or the process that starts.
pub data Step {P : Type 0} (remote : RemoteApprovals P) (ttl : ℕ)
    : Process P → Process P → Type 0 where
  answers :
      (now i : ℕ) (status : ApprovalStatus) (s : Process P)
      → Step remote ttl s (record s { db = (answer_approval remote ttl now status i s.db).1 })
  reads :
      (now i : ℕ) (s : Process P)
      → Step remote ttl s (record s { db = (get_task remote ttl now i s.db).1 })
  cancels :
      (now i : ℕ) (s : Process P)
      → Step remote ttl s (record s { db = (cancel_task remote ttl now i s.db).1 })
  claims : (now worker_id : ℕ) (s : Process P) → Step remote ttl s (claim_round now worker_id s)
  begins : (s : Process P) → Step remote ttl s (begin_run s)
  beats :
      (now i : ℕ) (s : Process P)
      → Step remote ttl s (over_tasks (refresh_heartbeat now i s.db.tasks) s.worker s)
  ends : (now : ℕ) (end : RunEnd) (s : Process P) → Step remote ttl s (end_run now end s)
  starts : (now : ℕ) (s : Process P) → Step remote ttl s (start_process now s)

pub data Steps {P : Type 0} (remote : RemoteApprovals P) (ttl : ℕ)
    : Process P → Process P → Type 0 where
  done : {s : Process P} → Steps remote ttl s s
  step : {a b c : Process P} → Step remote ttl a b → Steps remote ttl b c → Steps remote ttl a c
