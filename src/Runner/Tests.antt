-- ===== src/Runner/Tests.antt =====
-- Runs of a task runner with ports that all answer.
use gram_coding_agent.Base.{none, [], some, true}
use gram_coding_agent.Base.Steps.{Outcome}
use gram_coding_agent.Policy.Text.{codes}
use gram_coding_agent.Runner.{success, failure, Workspace, Ports, run}
use gram_coding_agent.Runner.Laws.{Ran, Stopped, run_in_order}
use gram_coding_agent.Runner.Repair as Repair
use gram_coding_agent.Runner.Repair.{RepairCycleInput, run_repair_cycle}
use gram_coding_agent.Runner.Repair.Laws.{IsRepaired, IsBroken, repair_in_order}

abbrev workspace : Workspace
workspace = record { linux_path = codes "/w"; branch = codes "b" }

abbrev answering : Ports
answering = record {
  acquire = λ _. some 1;
  repo_resolve = some (λ _. some (record {
    task_id = codes "t";
    repo_id = 7;
    branch = codes "b";
    remote = codes "origin";
    local_base_path = codes "/r";
  }));
  repo_fetch = some (λ _. some tt);
  workspace_create = some (λ _. some workspace);
  instructions = some (λ _. some (record { content = codes "i"; source = codes "s" }));
  analyze = some (λ _. some (record { summary = codes "a"; files = [] }));
  modify = some (λ _. some tt);
  verify = some (λ _. some (record {
    plan_id = none;
    passed = true;
    output = [];
    head_sha = none;
    approved_paths = none;
  }));
  publish = some (λ _. some (record {
    task_id = codes "t";
    sha = codes "p";
    branch = codes "b";
    remote = codes "origin";
  }));
  pr_ensure = some (λ _. some tt);
  ci_observe = some (λ _. some success);
  complete = some (λ _. some tt);
  progress = some (λ _. some tt);
}

run_in_order_example :
    Outcome
      (Ran answering (codes "t"))
      (Stopped answering (codes "t"))
      (run answering (codes "t") [])
run_in_order_example = run_in_order answering (codes "t")

abbrev failed_input : RepairCycleInput
failed_input = record {
  task_id = codes "t";
  repo_id = 7;
  branch = codes "b";
  remote = codes "origin";
  ci_outcome = failure;
}

abbrev repairing : Repair.Ports
repairing = record {
  append = λ _. some tt;
  on_event = λ _. some tt;
  acquire = λ _. some tt;
  reuse = λ _. some workspace;
  repair = λ _. some tt;
  verify = λ _. some tt;
  push = λ _. some (codes "s");
  confirm_remote_sha = λ _. some true;
  release = λ _. some tt;
  observe = λ _. some success;
}

repair_in_order_example :
    Outcome
      (IsRepaired repairing failed_input)
      (IsBroken repairing failed_input)
      (run_repair_cycle repairing failed_input [])
repair_in_order_example = repair_in_order repairing failed_input
