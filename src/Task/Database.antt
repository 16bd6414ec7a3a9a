-- ===== src/Task/Database.antt =====
-- The rows of the database that the task and lock repositories share: the tables of
-- packages/persistence/src/migrations/001_initial.sql, with the columns that the code reads.
-- Instants are milliseconds; the code compares their ISO texts, which have the same order.
use gram_coding_agent.Base.{ℕ, String, Option, List}
use gram_coding_agent.Task.Status.{TaskStatus}

pub data PublishMode : Type 0 where
  pull_request direct_main : PublishMode

-- the fields of `metadata_json` that the code reads
pub record Metadata : Type 0 where
  pub local_command : Option String
  pub package_manager : Option String

pub record TaskRow : Type 0 where
  pub id : String
  pub seq : ℕ
  pub goal : String
  pub repo_id : Option ℕ
  pub repo_selector : Option String
  pub status : TaskStatus
  pub task_type : String
  pub publish_mode : PublishMode
  pub priority : ℕ
  pub metadata : Option Metadata
  pub created_at : ℕ
  pub updated_at : ℕ

pub record WorkspaceRow : Type 0 where
  pub id : ℕ
  pub task_id : String
  pub repo_id : ℕ
  pub linux_path : String
  pub branch : String
  pub recovery_state : Option String

pub record CommandRunRow : Type 0 where
  pub id : ℕ
  pub task_id : String
  pub category : String
  pub cwd : String
  pub executable : Option String
  pub args : Option (List String)
  pub shell_text : Option String
  pub status : String
  pub exit_code : Option ℕ
  pub finished_at : Option ℕ

pub record RepoLeaseRow : Type 0 where
  pub repo_id : ℕ
  pub owner_task_id : String
  pub lease_token : String
  pub acquired_at : ℕ
  pub heartbeat_at : ℕ
  pub lease_until : ℕ
  pub owner_pid : ℕ
  pub owner_boot_id : String

pub record Database : Type 0 where
  -- `next_value` of the one row of `task_sequence`
  pub task_sequence : Option ℕ
  -- the ids of `repositories`
  pub repositories : List ℕ
  pub tasks : List TaskRow
  pub workspaces : List WorkspaceRow
  pub command_runs : List CommandRunRow
  pub repo_locks : List RepoLeaseRow
