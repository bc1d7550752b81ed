-- ===== src/Tasks/Create.antt =====
-- `create_task` of services/local-core/enishi_core/services/tasks.py, with `_validate_user_and_clone`
-- and `_validate_operations`.
use enishi.Prelude.{
  ℕ, Bool, true, false, not, ◌&&◌, ◌||◌, Option, none, some, List, [], ◌∷◌, keep, any, ◌==◌,
}
use enishi.Errors.{Code, Result, ok, err, Done, ◌>>=◌, ◌>>◌, raise_if}
use enishi.Tasks.Types.{
  Operation, git_push, deploy, read_home_directory, send_secrets, rm_rf, git_reset_hard, git_clean,
  sudo, install_dependencies, db_migration, delete_files, use_network, git_commit, modify_config,
  operations, CodingTaskStatus, waiting_approval, queued, CodingTask, ApprovalPayload, Database,
}
use enishi.Tasks.Resolution.{set_task}
use enishi.Tasks.Approvals.{RemoteApprovals, create_approval}

-- `LEVEL3_OPERATIONS`
unfoldable pub is_level3 : Operation → Bool
is_level3 git_push = true
is_level3 deploy = true
is_level3 read_home_directory = true
is_level3 send_secrets = true
is_level3 rm_rf = true
is_level3 git_reset_hard = true
is_level3 git_clean = true
is_level3 sudo = true
is_level3 _ = false

-- `LEVEL2_OPERATIONS`
unfoldable pub is_level2 : Operation → Bool
is_level2 install_dependencies = true
is_level2 db_migration = true
is_level2 delete_files = true
is_level2 use_network = true
is_level2 git_commit = true
is_level2 modify_config = true
is_level2 _ = false

-- The key of a project's permissions, `_PROJECT_PERMISSION_ALIASES`.
pub data PermissionKey : Type 0 where
  delete : PermissionKey
  named : Operation → PermissionKey

abbrev pub permission_key : Operation → PermissionKey
permission_key delete_files = delete
permission_key operation = named operation

-- The owner's approval rule for an operation, `_APPROVAL_RULE_ACTIONS`.
pub data RuleAction : Type 0 where
  file_delete external_publish : RuleAction
  action : Operation → RuleAction

abbrev pub rule_action : Operation → RuleAction
rule_action delete_files = file_delete
rule_action use_network = external_publish
rule_action deploy = external_publish
rule_action operation = action operation

-- What `create_task` reads of the other tables and services: of a clone its owner and whether it is
-- active, of a project its permissions. `build_context` is `build_context_package`, which stores the
-- package and gives its identifier.
pub record Registry : Type 0 where
  pub user_exists : ℕ → Bool
  pub clone : ℕ → Option (ℕ × Bool)
  pub project : ℕ → Option (PermissionKey → Option Bool)
  pub delegation_enabled : ℕ → Bool
  pub approval_required : ℕ → RuleAction → Bool
  pub provider_known : ℕ → Bool
  pub timeout_for_provider : ℕ → ℕ
  pub build_context : ℕ → Option ℕ → ℕ → Result ℕ

pub record TaskRequest : Type 0 where
  pub user_id : ℕ
  pub clone_id : ℕ
  pub provider : ℕ
  pub project_id : Option ℕ
  pub requested_operations : List Operation
  pub approval_expires_at : Option ℕ

abbrev is_forbidden : Option Bool → Bool
is_forbidden (some false) = true
is_forbidden _ = false

abbrev denied : (PermissionKey → Option Bool) → Operation → Bool
denied permissions operation = is_forbidden (permissions (permission_key operation))

module _ (r : Registry) where
  abbrev clone_fits : ℕ → Option (ℕ × Bool) → Result Done
  clone_fits user_id none = err Code.clone_not_found
  clone_fits user_id (some (owner, active)) =
      raise_if (not (owner == user_id) || not active) Code.clone_review_required

  unfoldable pub validate_user_and_clone : ℕ → ℕ → Result Done
  validate_user_and_clone user_id clone_id =
      raise_if (not (r.user_exists user_id)) Code.user_not_found
      >> clone_fits user_id (r.clone clone_id)

  -- The project, if one is named, and its permissions for the operations.
  abbrev pub project_allows : Option ℕ → List Operation → Result Done
  project_allows none ops = raise_if (any is_level3 ops) Code.task_permission_denied
  project_allows (some p) ops = elim (r.project p) [
    | none ↦ err Code.project_not_found
    | some permissions ↦
        raise_if (any is_level3 ops) Code.task_permission_denied
        >> raise_if (any (denied permissions) ops) Code.task_permission_denied
  ]

  unfoldable pub validate_operations : Option ℕ → List Operation → Result Done
  unfolding is_level3
  validate_operations project_id ops = project_allows project_id ops

  -- The operations that wait for the owner. They are named once each and in order in the action's
  -- text, which nothing reads.
  unfoldable pub level2_operations : ℕ → List Operation → List Operation
  unfolding is_level2
  level2_operations user_id ops =
      keep (λ o. is_level2 o && r.approval_required user_id (rule_action o)) ops

  abbrev pub guards : TaskRequest → Result Done
  guards q =
      validate_user_and_clone q.user_id q.clone_id
      >> raise_if (not (r.delegation_enabled q.user_id)) Code.task_permission_denied
      >> validate_operations q.project_id q.requested_operations
      >> raise_if (not (r.provider_known q.provider)) Code.provider_not_installed

  module _ {P : Type 0} (remote : RemoteApprovals P) (ttl_seconds now : ℕ) (no_proposal : P) where
    abbrev task_for : TaskRequest → CodingTaskStatus → Option ℕ → Option ℕ → CodingTask
    task_for q status queued_at approval_id = record {
      user_id = q.user_id;
      clone_id = q.clone_id;
      project_id = q.project_id;
      provider = q.provider;
      status = status;
      approval_id = approval_id;
      failure_code = none;
      created_at = now;
      queued_at = queued_at;
      started_at = none;
      finished_at = none;
      worker_id = none;
      heartbeat_at = none;
      timeout_seconds = r.timeout_for_provider q.provider;
    }

    abbrev pub task_payload : ℕ → ApprovalPayload P
    task_payload i = record {
      task_id = some i;
      session_id = none;
      remote = false;
      proposal = no_proposal;
      decider_clone_id = none;
    }

    -- `i` and `j` are the identifiers that the new rows get.
    abbrev pub stored : ℕ → ℕ → TaskRequest → List Operation → Database P → CodingTask × Database P
    stored i j q [] db = let t = task_for q queued (some now) none in (t, set_task now i t db)
    stored i j q (o ∷ os) db =
        let (a, db') =
          create_approval remote ttl_seconds now j q.user_id (operations (o ∷ os)) 2
            (task_payload i) q.approval_expires_at db in
        let t = task_for q waiting_approval none (some j) in (t, set_task now i t db')

    unfoldable pub create_task : ℕ → ℕ → TaskRequest → Database P → Result (CodingTask × Database P)
    unfolding validate_user_and_clone validate_operations level2_operations create_approval
    create_task i j q db =
        guards q
        >> (r.build_context q.clone_id q.project_id i >>= λ context.
            ok (stored i j q (level2_operations q.user_id q.requested_operations) db))
