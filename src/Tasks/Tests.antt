-- ===== src/Tasks/Tests.antt =====
-- Approvals and tasks of services/local-core/enishi_core/services on a small database.
use enishi.Prelude.{ℕ, ◌≡◌, ◌≢◌, refl, true, false, none, some, [], ◌∷◌, any, ◌==◌, if◌then◌else◌}
use enishi.Prelude.Table.{lookup, insert}
use enishi.Errors.{ok, err, unhandled}
use enishi.Protocol.{NegotiationStatus}
use enishi.Tasks.Types.{
  ApprovalStatus, negotiation_decision, operations, Operation, waiting_approval, cancelled,
  cancelling, CodingTask, Approval, NegotiationSession, Database,
}
use enishi.Tasks.Sessions
use enishi.Tasks.Resolution
use enishi.Tasks.Approvals.{
  RemoteApprovals, answer_approval, close_pending, get_approval, expire_if_needed, create_approval,
}
use enishi.Tasks.Queue.{cancel_task, get_task, claim_next_task, next_queued, saw_cancelling}
use enishi.Tasks.Create.{
  Registry, TaskRequest, create_task, validate_user_and_clone, validate_operations, is_level3,
  is_level2, level2_operations, task_payload,
}
use enishi.Tasks.Permission.{needs_consent, Waits, create_task-Waits}
use enishi.Tasks.Lifecycle.{Arrow, Grows}
use enishi.Tasks.Histories.{KeepsTasks}
use enishi.Tasks.Worker.{
  idle, Process, claim_round, begin_run, end_run, start_process, answers, cancels, claims, begins,
  ends, starts, Steps, done, step,
}
use enishi.Tasks.Runs.{task_life, finished_stays}
use enishi.Tasks.Stops.{begun_never_cancelled}
use enishi.Tasks.Answers.{on_approval_resolved-twice}

abbrev no_remote : RemoteApprovals ℕ
no_remote = record { resolve = λ now i status db. (err unhandled, db) }

abbrev new_task : CodingTask
new_task = record {
  user_id = 1;
  clone_id = 2;
  project_id = none;
  provider = 3;
  status = waiting_approval;
  approval_id = some 50;
  failure_code = none;
  created_at = 1;
  queued_at = none;
  started_at = none;
  finished_at = none;
  worker_id = none;
  heartbeat_at = none;
  timeout_seconds = 600;
}

abbrev commit_approval : Approval ℕ
commit_approval = record {
  user_id = 1;
  action_type = operations (Operation.git_commit ∷ []);
  level = 2;
  status = ApprovalStatus.pending;
  payload = record {
    task_id = some 70;
    session_id = none;
    remote = false;
    proposal = 0;
    decider_clone_id = none;
  };
  created_at = 1;
  expires_at = 100;
  resolved_at = none;
}

abbrev split_approval : Approval ℕ
split_approval = record {
  user_id = 1;
  action_type = negotiation_decision;
  level = 1;
  status = ApprovalStatus.approved;
  payload = record {
    task_id = none;
    session_id = some 80;
    remote = false;
    proposal = 900;
    decider_clone_id = some 12;
  };
  created_at = 1;
  expires_at = 100;
  resolved_at = none;
}

abbrev waiting_session : NegotiationSession ℕ
waiting_session = record {
  initiator_clone_id = 11;
  responder_clone_id = 12;
  status = NegotiationStatus.waiting_approval;
  result = none;
  pending_approval_id = some 51;
}

abbrev before : Database ℕ
before = record {
  approvals = (50, commit_approval) ∷ (51, split_approval) ∷ [];
  tasks = (70, new_task) ∷ [];
  sessions = (80, waiting_session) ∷ [];
  messages = [];
  agreements = [];
}

abbrev no_remote-KeepsTasks : KeepsTasks ℕ no_remote
no_remote-KeepsTasks now i status db = refl

abbrev approved_db : Database ℕ
approved_db = (answer_approval no_remote 600 9 ApprovalStatus.approved 50 before).1

abbrev claimed_db : Database ℕ
claimed_db = record approved_db { tasks = (claim_next_task 10 5 approved_db.tasks).1 }

abbrev cancelling_db : Database ℕ
cancelling_db = (cancel_task no_remote 600 11 70 claimed_db).1

-- The day's calls: approved, claimed, begun, asked to stop, and the provider given up.
abbrev morning : Process ℕ
morning = record { db = before; worker = idle }

abbrev approved_process : Process ℕ
approved_process = record morning { db = approved_db }

abbrev claimed_process : Process ℕ
claimed_process = claim_round 10 5 approved_process

abbrev begun_process : Process ℕ
begun_process = begin_run claimed_process

abbrev asked_process : Process ℕ
asked_process = record begun_process { db = (cancel_task no_remote 600 11 70 begun_process.db).1 }

abbrev evening : Process ℕ
evening = end_run 12 saw_cancelling asked_process

abbrev night : Steps no_remote 600 begun_process evening
night = step (cancels 11 70 begun_process) (step (ends 12 saw_cancelling asked_process) done)

abbrev day : Steps no_remote 600 morning evening
day =
    step (answers 9 50 ApprovalStatus.approved morning)
      (step (claims 10 5 approved_process) (step (begins claimed_process) night))

task_life_example : Grows Arrow before.tasks evening.db.tasks
task_life_example = task_life no_remote no_remote-KeepsTasks 600 day tt

begun_never_cancelled_example :
    (t' : CodingTask) × (lookup 70 evening.db.tasks ≡ some t') × (t'.status ≢ cancelled)
unfolding lookup insert answer_approval close_pending get_approval expire_if_needed
    Resolution.on_approval_resolved claim_round claim_next_task next_queued begin_run
begun_never_cancelled_example =
    begun_never_cancelled no_remote no_remote-KeepsTasks 600 70 _ night refl refl refl

abbrev over_task : CodingTask
over_task = record new_task { status = cancelled }

abbrev over : Database ℕ
over = record before { tasks = (70, over_task) ∷ [] }

abbrev over_process : Process ℕ
over_process = record { db = over; worker = idle }

finished_stays_example :
    (t' : CodingTask) × (lookup 70
        (start_process 13 (record over_process {
          db = (answer_approval no_remote 600 9 ApprovalStatus.approved 50 over).1;
        })).db.tasks
      ≡ some t')
    × (cancelled ≡ t'.status)
unfolding lookup
finished_stays_example =
    finished_stays no_remote no_remote-KeepsTasks 600 70 over_task
      (step (answers 9 50 ApprovalStatus.approved over_process) (step (starts 13 _) done)) tt refl
      refl

on_approval_resolved-twice_example :
    Sessions.on_approval_resolved 51 split_approval
      (Sessions.on_approval_resolved 51 split_approval before)
    ≡ Sessions.on_approval_resolved 51 split_approval before
on_approval_resolved-twice_example = on_approval_resolved-twice 51 split_approval before

-- Approved, claimed, then asked to stop while it runs.
asked_to_stop :
    lookup 70 cancelling_db.tasks
    ≡ some (record new_task {
      status = cancelling;
      queued_at = some 9;
      started_at = some 10;
      heartbeat_at = some 10;
      worker_id = some 5;
    })
unfolding lookup insert answer_approval close_pending get_approval expire_if_needed
    Sessions.on_approval_resolved Resolution.on_approval_resolved claim_next_task next_queued
    cancel_task get_task
asked_to_stop = refl

abbrev small_registry : Registry
small_registry = record {
  user_exists = λ u. u == 1;
  clone = λ c. if c == 2 then some (1, true) else none;
  project = λ p. none;
  delegation_enabled = λ u. true;
  approval_required = λ u a. true;
  provider_known = λ p. p == 3;
  timeout_for_provider = λ p. 600;
  build_context = λ c p t. ok 90;
}

abbrev commit_request : TaskRequest
commit_request = record {
  user_id = 1;
  clone_id = 2;
  provider = 3;
  project_id = none;
  requested_operations = Operation.git_commit ∷ [];
  approval_expires_at = some 100;
}

abbrev empty_db : Database ℕ
empty_db = record { approvals = []; tasks = []; sessions = []; messages = []; agreements = [] }

abbrev stored_approval : Approval ℕ
stored_approval = record {
  user_id = 1;
  action_type = operations (Operation.git_commit ∷ []);
  level = 2;
  status = ApprovalStatus.pending;
  payload = task_payload small_registry no_remote 600 1 0 70;
  created_at = 1;
  expires_at = 100;
  resolved_at = none;
}

abbrev stored_db : Database ℕ
stored_db = record empty_db { approvals = (50, stored_approval) ∷ []; tasks = (70, new_task) ∷ [] }

create_task-Waits_example :
    (any is_level3 (Operation.git_commit ∷ []) ≡ false)
    × (needs_consent small_registry commit_request ≡ true
        → Waits small_registry no_remote 600 1 0 70 50 new_task stored_db)
unfolding create_task validate_user_and_clone validate_operations is_level3 is_level2
    level2_operations create_approval insert
create_task-Waits_example =
    create_task-Waits small_registry no_remote 600 1 0 70 50 commit_request empty_db new_task
      stored_db refl

needs_consent_here : needs_consent small_registry commit_request ≡ true
unfolding is_level2
needs_consent_here = refl
