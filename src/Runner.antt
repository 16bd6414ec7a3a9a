-- ===== src/Runner.antt =====
-- `TaskRunner`: packages/task-engine/src/task-runner.ts, over the ports of task-runner-ports.ts, which
-- answer as functions of the calls made so far. What the code takes from a port and never reads (the
-- results of a modification and of a pull request) is left out, and a lease is a number.
pub mod Repair
pub mod Laws
mod Tests
use gram_coding_agent.Base.{ℕ, String, Bool, true, false, List, [], ◌∷◌, Option, none, some}
use gram_coding_agent.Base.Effects.{Eff, ◌>>=◌, ◌>>◌, pure, require}
use gram_coding_agent.Base.Steps.{attempt, expect}
use gram_coding_agent.Policy.Text.{Text}
use gram_coding_agent.Task.Status.{TaskStatus, preparing, running, verifying, publishing}

pub data CiOutcome : Type 0 where
  success failure pending : CiOutcome

pub record Workspace : Type 0 where
  pub linux_path : Text
  pub branch : Text

pub record ResolvedTask : Type 0 where
  pub task_id : Text
  pub repo_id : ℕ
  pub branch : Text
  pub remote : Text
  pub local_base_path : Text

pub record RepositoryInstructions : Type 0 where
  pub content : Text
  pub source : Text

pub record TaskAnalysis : Type 0 where
  pub summary : Text
  pub files : List Text

-- `VerificationResult`
pub record Verification : Type 0 where
  pub plan_id : Option ℕ
  pub passed : Bool
  pub output : Text
  pub head_sha : Option Text
  pub approved_paths : Option (List Text)

pub record PublishedTask : Type 0 where
  pub task_id : Text
  pub sha : Text
  pub branch : Text
  pub remote : Text

pub data Call : Type 0 where
  resolve_call : Text → Call
  acquire_call : ℕ → Text → Call
  fetch_call : ResolvedTask → Call
  create_call : Text → Call
  transition_call : Text → TaskStatus → TaskStatus → Call
  load_call : Workspace → Text → Call
  analyze_call : ResolvedTask → Workspace → RepositoryInstructions → Call
  modify_call : ResolvedTask → Workspace → TaskAnalysis → Call
  verify_call : Text → Call
  publish_call : ResolvedTask → Workspace → Verification → ℕ → Call
  ensure_call : ResolvedTask → PublishedTask → Call
  observe_call : Text → Call
  complete_call : Text → Call

-- an asynchronous method, `none` where it throws
abbrev Port : Type 0 → Type 0
Port A = List Call → Option A

-- The options of a runner that `run` reads; all but the locks may be missing.
pub record Ports : Type 0 where
  pub acquire : Port ℕ
  pub repo_resolve : Option (Port ResolvedTask)
  pub repo_fetch : Option (Port (Unit {0}))
  pub workspace_create : Option (Port Workspace)
  pub instructions : Option (Port RepositoryInstructions)
  pub analyze : Option (Port TaskAnalysis)
  pub modify : Option (Port (Unit {0}))
  pub verify : Option (Port Verification)
  pub publish : Option (Port PublishedTask)
  pub pr_ensure : Option (Port (Unit {0}))
  pub ci_observe : Option (Port CiOutcome)
  pub complete : Option (Port (Unit {0}))
  pub progress : Option (Port (Unit {0}))

pub data RunError : Type 0 where
  missing_port : String → RunError
  port_failed : RunError
  verification_failed : Text → Text → RunError

abbrev pub Step : Type 0 → Type 0
Step A = Eff (List Call) RunError A

-- the ports of a run, all of them present
pub record RunPorts : Type 0 where
  pub lock : Port ℕ
  pub resolve : Port ResolvedTask
  pub fetch : Port (Unit {0})
  pub create : Port Workspace
  pub load : Port RepositoryInstructions
  pub analysis : Port TaskAnalysis
  pub change : Port (Unit {0})
  pub check : Port Verification
  pub send : Port PublishedTask
  pub ensure : Port (Unit {0})
  pub observe : Port CiOutcome
  pub finish : Port (Unit {0})
  pub transition : Port (Unit {0})

-- `requireRunPort` for each port
unfoldable pub require_ports : Ports → Step RunPorts
require_ports ports = do
  repo_resolve ← expect (missing_port "repoResolve") ports.repo_resolve
  repo_fetch ← expect (missing_port "repoFetch") ports.repo_fetch
  workspace_create ← expect (missing_port "workspaceCreate") ports.workspace_create
  instructions ← expect (missing_port "instructions") ports.instructions
  analyze ← expect (missing_port "analyze") ports.analyze
  modify ← expect (missing_port "modify") ports.modify
  verify ← expect (missing_port "verify") ports.verify
  publish ← expect (missing_port "publish") ports.publish
  pr_ensure ← expect (missing_port "prEnsure") ports.pr_ensure
  ci_observe ← expect (missing_port "ciObserve") ports.ci_observe
  complete ← expect (missing_port "complete") ports.complete
  progress ← expect (missing_port "progress") ports.progress
  pure (record {
    lock = ports.acquire;
    resolve = repo_resolve;
    fetch = repo_fetch;
    create = workspace_create;
    load = instructions;
    analysis = analyze;
    change = modify;
    check = verify;
    send = publish;
    ensure = pr_ensure;
    observe = ci_observe;
    finish = complete;
    transition = progress;
  })

-- `if (outcome === 'SUCCESS') await completePort.complete(taskId)`
abbrev pub complete_on : RunPorts → Text → CiOutcome → Step (Unit {0})
complete_on ports task_id success = attempt port_failed (complete_call task_id) ports.finish
complete_on ports task_id failure = pure tt
complete_on ports task_id pending = pure tt

-- from the verification to the end
unfoldable pub verify_and_publish : RunPorts → Text → ResolvedTask → Workspace → ℕ → Step (Unit {0})
verify_and_publish ports task_id task workspace lease = do
  verification ← attempt port_failed (verify_call task_id) ports.check
  require verification.passed (verification_failed task_id verification.output)
  attempt port_failed (transition_call task_id verifying publishing) ports.transition
  published ← attempt port_failed (publish_call task workspace verification lease) ports.send
  attempt port_failed (ensure_call task published) ports.ensure
  outcome ← attempt port_failed (observe_call task_id) ports.observe
  complete_on ports task_id outcome

unfoldable pub run_with : Text → RunPorts → Step (Unit {0})
unfolding verify_and_publish
run_with task_id ports = do
  task ← attempt port_failed (resolve_call task_id) ports.resolve
  lease ← attempt port_failed (acquire_call task.repo_id task_id) ports.lock
  attempt port_failed (fetch_call task) ports.fetch
  workspace ← attempt port_failed (create_call task_id) ports.create
  attempt port_failed (transition_call task_id preparing running) ports.transition
  instructions ← attempt port_failed (load_call workspace task_id) ports.load
  analysis ← attempt port_failed (analyze_call task workspace instructions) ports.analysis
  attempt port_failed (modify_call task workspace analysis) ports.change
  attempt port_failed (transition_call task_id running verifying) ports.transition
  verify_and_publish ports task_id task workspace lease

unfoldable pub run : Ports → Text → Step (Unit {0})
unfolding require_ports run_with
run ports task_id = require_ports ports >>= run_with task_id
