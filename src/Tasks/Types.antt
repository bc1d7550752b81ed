-- ===== src/Tasks/Types.antt =====
-- The rows of models/approval.py, models/task.py and models/negotiation.py that the approvals and
-- the tasks of services/local-core/enishi_core read and write. A time is a number.
use enishi.Prelude.{ℕ, Bool, true, false, Option, List}
use enishi.Prelude.Table.{Table}
use enishi.Protocol.{NegotiationStatus, MessageType}

pub data ApprovalStatus : Type 0 where
  pending approved rejected expired : ApprovalStatus

-- The operations that the service knows by name: those of level 3, then those of level 2.
pub data Operation : Type 0 where
  git_push deploy read_home_directory send_secrets rm_rf git_reset_hard git_clean sudo : Operation
  install_dependencies db_migration delete_files use_network git_commit modify_config : Operation
  other_operation : ℕ → Operation

pub data ActionType : Type 0 where
  negotiation_decision : ActionType
  operations : List Operation → ActionType
  other_action : ActionType

pub data CodingTaskStatus : Type 0 where
  waiting_approval queued running completed failed cancelling cancelled expired_task :
      CodingTaskStatus

pub data FailureCode : Type 0 where
  approval_expired worker_interrupted task_timeout provider_failed task_execution_error :
      FailureCode

pub record CodingTask : Type 0 where
  pub user_id : ℕ
  pub clone_id : ℕ
  pub project_id : Option ℕ
  pub provider : ℕ
  pub status : CodingTaskStatus
  pub approval_id : Option ℕ
  pub failure_code : Option FailureCode
  pub created_at : ℕ
  pub queued_at : Option ℕ
  pub started_at : Option ℕ
  pub finished_at : Option ℕ
  pub worker_id : Option ℕ
  pub heartbeat_at : Option ℕ
  pub timeout_seconds : ℕ

-- P is what is proposed: the payload of the agreement that an approval may lead to.
module _ (P : Type 0) where
  pub record ApprovalPayload : Type 0 where
    pub task_id : Option ℕ
    pub session_id : Option ℕ
    pub remote : Bool
    pub proposal : P
    pub decider_clone_id : Option ℕ

  pub record Approval : Type 0 where
    pub user_id : ℕ
    pub action_type : ActionType
    pub level : ℕ
    pub status : ApprovalStatus
    pub payload : ApprovalPayload
    pub created_at : ℕ
    pub expires_at : ℕ
    pub resolved_at : Option ℕ

  pub data SessionResult : Type 0 where
    accepted_task : P → ℕ → SessionResult
    refused_by_owner : ℕ → SessionResult
    approval_lapsed : ℕ → SessionResult

  pub record NegotiationSession : Type 0 where
    pub initiator_clone_id : ℕ
    pub responder_clone_id : ℕ
    pub status : NegotiationStatus
    pub result : Option SessionResult
    pub pending_approval_id : Option ℕ

  pub record SessionMessage : Type 0 where
    pub session_id : ℕ
    pub sequence : ℕ
    pub sender_agent_id : ℕ
    pub receiver_agent_id : ℕ
    pub message_type : MessageType
    pub outcome : SessionResult
    pub requires_human_approval : Bool

  pub record Database : Type 0 where
    pub approvals : Table Approval
    pub tasks : Table CodingTask
    pub sessions : Table NegotiationSession
    pub messages : List SessionMessage
    pub agreements : Table P

abbrev pub is_pending : ApprovalStatus → Bool
is_pending ApprovalStatus.pending = true
is_pending _ = false

abbrev pub is_waiting : CodingTaskStatus → Bool
is_waiting waiting_approval = true
is_waiting _ = false

abbrev pub is_waiting_session : NegotiationStatus → Bool
is_waiting_session NegotiationStatus.waiting_approval = true
is_waiting_session _ = false
