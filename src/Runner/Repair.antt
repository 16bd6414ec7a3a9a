-- ===== src/Runner/Repair.antt =====
-- `TaskRunner.runRepairCycle`: packages/task-engine/src/task-runner.ts.
pub mod Laws
use gram_coding_agent.Base.{ℕ, Bool, true, false, List, [], ◌∷◌, Option, none, some}
use gram_coding_agent.Base.Effects.{Eff, ◌>>=◌, ◌>>◌, pure, throw, require}
use gram_coding_agent.Base.Steps.{attempt}
use gram_coding_agent.Policy.Text.{Text}
use gram_coding_agent.Runner.{CiOutcome, success, failure, pending, Workspace}

pub data Event : Type 0 where
  ci_failed lock_acquire workspace_reuse repair_done verify_done push_done remote_confirm
        lock_release ci_observe :
      Event

pub data AuditEvent : Type 0 where
  started : ℕ → Text → AuditEvent
  finished : ℕ → Text → Text → CiOutcome → AuditEvent

pub data Call : Type 0 where
  audit_call : Text → AuditEvent → Call
  emit_call : Event → Call
  acquire_call : ℕ → Text → Call
  reuse_call : Text → Call
  repair_call : Text → Workspace → Call
  verify_call : Text → Call
  push_call : Text → Text → Call
  confirm_call : Text → Text → Text → Call
  release_call : Call
  observe_call : Text → Call

abbrev Port : Type 0 → Type 0
Port A = List Call → Option A

-- `none` stands for a call that throws; the callback of the caller is a port as well.
pub record Ports : Type 0 where
  pub append : Port (Unit {0})
  pub on_event : Port (Unit {0})
  pub acquire : Port (Unit {0})
  pub reuse : Port Workspace
  pub repair : Port (Unit {0})
  pub verify : Port (Unit {0})
  pub push : Port Text
  pub confirm_remote_sha : Port Bool
  pub release : Port (Unit {0})
  pub observe : Port CiOutcome

pub record RepairCycleInput : Type 0 where
  pub task_id : Text
  pub repo_id : ℕ
  pub branch : Text
  pub remote : Text
  pub ci_outcome : CiOutcome

pub record RepairCycleResult : Type 0 where
  pub task_id : Text
  pub repo_id : ℕ
  pub sha : Text
  pub branch : Text
  pub remote : Text
  pub ci_outcome : CiOutcome

pub data RepairError : Type 0 where
  not_repairable : CiOutcome → RepairError
  port_failed : RepairError
  not_confirmed : Text → Text → Text → RepairError

abbrev pub Step : Type 0 → Type 0
Step A = Eff (List Call) RepairError A

abbrev pub emit : Ports → Event → Step (Unit {0})
emit ports event = attempt port_failed (emit_call event) ports.on_event

-- from the push to the result
unfoldable pub push_repair : Ports → RepairCycleInput → Workspace → Step RepairCycleResult
push_repair ports input workspace = do
  sha ← attempt port_failed (push_call workspace.linux_path input.branch) ports.push
  emit ports push_done
  confirmed ←
      attempt port_failed (confirm_call input.remote input.branch sha) ports.confirm_remote_sha
  emit ports remote_confirm
  require confirmed (not_confirmed input.remote input.branch sha)
  attempt port_failed release_call ports.release
  emit ports lock_release
  outcome ← attempt port_failed (observe_call input.task_id) ports.observe
  emit ports ci_observe
  attempt port_failed (audit_call input.task_id (finished input.repo_id input.branch sha outcome))
      ports.append
  pure (record {
    task_id = input.task_id;
    repo_id = input.repo_id;
    sha = sha;
    branch = input.branch;
    remote = input.remote;
    ci_outcome = outcome;
  })

-- the cycle of a failed outcome
unfoldable pub repair_cycle : Ports → RepairCycleInput → Step RepairCycleResult
unfolding push_repair
repair_cycle ports input = do
  attempt port_failed (audit_call input.task_id (started input.repo_id input.branch)) ports.append
  emit ports ci_failed
  attempt port_failed (acquire_call input.repo_id input.task_id) ports.acquire
  emit ports lock_acquire
  workspace ← attempt port_failed (reuse_call input.task_id) ports.reuse
  emit ports workspace_reuse
  attempt port_failed (repair_call input.task_id workspace) ports.repair
  emit ports repair_done
  attempt port_failed (verify_call input.task_id) ports.verify
  emit ports verify_done
  push_repair ports input workspace

-- the guard on the outcome
unfoldable pub repair_on : Ports → RepairCycleInput → CiOutcome → Step RepairCycleResult
unfolding repair_cycle
repair_on ports input failure = repair_cycle ports input
repair_on ports input success = throw (not_repairable success)
repair_on ports input pending = throw (not_repairable pending)

unfoldable pub run_repair_cycle : Ports → RepairCycleInput → Step RepairCycleResult
unfolding repair_on
run_repair_cycle ports input = repair_on ports input input.ci_outcome
