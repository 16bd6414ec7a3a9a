-- ===== src/Checks/Tests.antt =====
-- Runs of the observation of checks, and of the completion of a task.
use gram_coding_agent.Base.{◌≡◌, ◌↔◌, ◌⊎◌, refl, arith, [], ◌∷◌, none, some, ok}
use gram_coding_agent.Base.Steps.{Outcome}
use gram_coding_agent.Policy.Text.{codes}
use gram_coding_agent.Task.Status as Status
use gram_coding_agent.Task.Database.{Database, TaskRow, pull_request}
use gram_coding_agent.Task.Store.{get}
use gram_coding_agent.Task.Store.Laws.{IsWellFormed}
use gram_coding_agent.Checks.{
  RequiredCheckSnapshot, completed, CiPullRequestContext, Ports, default_options,
  observe_required_checks,
}
use gram_coding_agent.Checks.Laws.{IsObserved, IsBroken, observe_required_checks_lem}
use gram_coding_agent.Checks.Completion.{complete, complete_lem}

abbrev check : RequiredCheckSnapshot
check = record {
  provider_run_id = none;
  provider_check_id = codes "1";
  workflow_name = none;
  check_name = codes "ci";
  status = completed;
  conclusion = some "success";
  url = none;
  started_at = none;
  finished_at = none;
}

abbrev pull : CiPullRequestContext
pull = record {
  task_id = "t";
  repo_id = some 7;
  pull_request_id = 1;
  owner = codes "o";
  name = codes "n";
  number = 2;
  head_sha = codes "0123456789abcdef0123456789abcdef01234567";
  base_branch = codes "main";
}

abbrev answering : Ports
answering = record {
  list_required_checks = λ _. some (check ∷ []);
  upsert_check = λ _. some tt;
  complete = λ _. some tt;
  wait = λ _. some tt;
}

observe_required_checks_lem_example :
    Outcome
      (IsObserved answering default_options pull)
      (IsBroken answering default_options pull)
      (observe_required_checks answering default_options pull [])
observe_required_checks_lem_example = observe_required_checks_lem answering default_options pull

abbrev task : TaskRow
task = record {
  id = "t";
  seq = 1;
  goal = "g";
  repo_id = some 7;
  repo_selector = none;
  status = Status.publishing;
  task_type = "CODING";
  publish_mode = pull_request;
  priority = 2;
  metadata = none;
  created_at = 0;
  updated_at = 0;
}

abbrev database : Database
database = record {
  task_sequence = some 2;
  repositories = 7 ∷ [];
  tasks = task ∷ [];
  workspaces = [];
  command_runs = [];
  repo_locks = [];
}

database-IsWellFormed : IsWellFormed database
database-IsWellFormed = record {
  ids = λ id. ground arith;
  seqs = λ n. ground arith;
  below = (omega arith, tt);
}

complete_lem_example :
    (r' : TaskRow) × (get "t" (complete "t" 5 database).1 ≡ some r')
    × ((r' ≡ task) ⊎ ((task.status ≡ Status.publishing) × (r'.status ≡ Status.completed)))
    × (((complete "t" 5 database).0 ≡ ok tt)
        ↔ ((task.status ≡ Status.publishing) ⊎ (task.status ≡ Status.completed)))
unfolding get
complete_lem_example = complete_lem "t" 5 database task database-IsWellFormed refl
