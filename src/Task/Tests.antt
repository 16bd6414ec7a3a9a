-- ===== src/Task/Tests.antt =====
-- Runs of the task repository on small databases.
use gram_coding_agent.Base.{
  ◌+◌, ◌≤◌, ◌≡◌, ◌≢◌, refl, arith, ◌⊎◌, true, List, [], ◌∷◌, ◌++◌, none, some, length, contains,
  if◌then◌else◌, ◌==◌, string_eq, ok, err,
}
use gram_coding_agent.Task.Status.{
  TaskStatus, queued, waiting_repo_lock, preparing, running, verifying, publishing, completed,
  cancelled, can_transition_task_status, status_eq,
}
use gram_coding_agent.Task.Status.Paths.{
  StatusPath, Life, moves, ended, ends_locally, completed_run_verifies, completed_run_publishes,
  cancellable,
}
use gram_coding_agent.Task.Database.{pull_request, TaskRow, WorkspaceRow, CommandRunRow, Database}
use gram_coding_agent.Task.Store.{
  CreateStoredTaskInput, get, create, transition, guarded_transition, concurrent_transition,
  bind_repository, constraint,
}
use gram_coding_agent.Task.Store.Laws.{
  IsWellFormed, moved, transition_lem, guarded_transition_allowed, create-IsWellFormed,
  create_atomic,
}
use gram_coding_agent.Task.Store.Local.{complete_local_command}
use gram_coding_agent.Task.Store.Evidence.{IsSuccessfulRun, complete_local_command_needs_run}
use gram_coding_agent.Task.Store.Binding.{bind_repository_keeps}
use gram_coding_agent.Task.Store.Runnable.{list_runnable, IsListing, list_runnable_order}

abbrev task : TaskRow
task = record {
  id = "t";
  seq = 1;
  goal = "g";
  repo_id = some 7;
  repo_selector = none;
  status = waiting_repo_lock;
  task_type = "CODING";
  publish_mode = pull_request;
  priority = 2;
  metadata = none;
  created_at = 0;
  updated_at = 0;
}

abbrev local_task : TaskRow
local_task = record task {
  id = "c";
  seq = 1;
  status = running;
  task_type = "LOCAL_COMMAND";
  metadata = some (record { local_command = some "test"; package_manager = some "pnpm" });
}

abbrev database : List TaskRow → Database
database tasks = record {
  task_sequence = some 2;
  repositories = 7 ∷ [];
  tasks = tasks;
  workspaces =
      record {
        id = 1;
        task_id = "c";
        repo_id = 7;
        linux_path = "/w";
        branch = "b";
        recovery_state = none;
      }
      ∷ [];
  command_runs =
      record {
        id = 5;
        task_id = "c";
        category = "DEVELOPMENT";
        cwd = "/w";
        executable = some "pnpm";
        args = some ("run" ∷ "test" ∷ []);
        shell_text = none;
        status = "SUCCEEDED";
        exit_code = some 0;
        finished_at = some 9;
      }
      ∷ [];
  repo_locks = [];
}

one_task-IsWellFormed : IsWellFormed (database (task ∷ []))
one_task-IsWellFormed = record {
  ids = λ id. ground arith;
  seqs = λ n. ground arith;
  below = (omega arith, tt);
}

transition_lem_example : transition "t" waiting_repo_lock preparing 3 (database (task ∷ [])) ≡ (
    if task.status == waiting_repo_lock
    then (ok tt, moved "t" waiting_repo_lock preparing 3 (database (task ∷ [])))
    else (err (concurrent_transition "t" waiting_repo_lock preparing), database (task ∷ [])))
unfolding get
transition_lem_example =
    transition_lem "t" waiting_repo_lock preparing 3 (database (task ∷ [])) task
      one_task-IsWellFormed refl

guarded_transition_allowed_example :
    (r' : TaskRow) × (get "t"
        (guarded_transition "t" waiting_repo_lock preparing 3 (database (task ∷ []))).1
      ≡ some r')
    × ((r' ≡ task)
        ⊎ ((task.id ≡ "t") × (can_transition_task_status waiting_repo_lock r'.status ≡ true)))
unfolding get
guarded_transition_allowed_example =
    guarded_transition_allowed "t" "t" waiting_repo_lock preparing 3 (database (task ∷ [])) task
      refl

abbrev new_task : CreateStoredTaskInput
new_task = record {
  goal = "h";
  task_type = "CODING";
  publish_mode = pull_request;
  repo_id = none;
  repo_selector = none;
  priority = none;
  metadata = none;
}

abbrev stored : TaskRow
stored = record task {
  id = "u";
  seq = 2;
  goal = "h";
  repo_id = none;
  status = queued;
  created_at = 4;
  updated_at = 4;
}

abbrev after_create : Database
after_create = record (database (task ∷ stored ∷ [])) { task_sequence = some 3 }

create-IsWellFormed_example :
    IsWellFormed after_create
    × (some 2 ≡ some stored.seq)
    × (some 3 ≡ some (stored.seq + 1))
    × (get "u" (database (task ∷ [])) ≡ none)
    × (get "u" after_create ≡ some stored)
    × (queued ≡ queued)
unfolding create
create-IsWellFormed_example =
    create-IsWellFormed new_task "u" 4 (database (task ∷ [])) stored after_create
      one_task-IsWellFormed refl

create_atomic_example : database (task ∷ []) ≡ database (task ∷ [])
unfolding create
create_atomic_example =
    create_atomic new_task "t" 4 (database (task ∷ [])) constraint (database (task ∷ [])) refl

complete_local_command_needs_run_example :
    (r' : TaskRow) × (get "c" (complete_local_command "c" 5 9 (database (local_task ∷ []))).1
      ≡ some r')
    × ((r' ≡ local_task)
        ⊎ ((local_task.id ≡ "c")
            × (local_task.task_type ≡ "LOCAL_COMMAND")
            × (running ≡ running)
            × (r'.status ≡ completed)
            × ((c : CommandRunRow) × (w : WorkspaceRow) × IsSuccessfulRun
                  (database (local_task ∷ []))
                  local_task
                  5
                  c
                  w)))
unfolding get
complete_local_command_needs_run_example =
    complete_local_command_needs_run "c" "c" 5 9 (database (local_task ∷ [])) local_task refl

bind_repository_keeps_example :
    get "t" (bind_repository "t" 8 3 (database (task ∷ []))).1 ≡ some task
unfolding get
bind_repository_keeps_example =
    bind_repository_keeps "t" "t" 8 7 3 (database (task ∷ [])) task refl refl

list_runnable_order_example :
    (waits queue : List TaskRow) × (list_runnable 2 (database (task ∷ [])) ≡ ok (waits ++ queue))
    × IsListing waiting_repo_lock 2 (database (task ∷ [])) waits
    × IsListing queued 2 (database (task ∷ [])) queue
list_runnable_order_example =
    list_runnable_order 2 (database (task ∷ [])) (omega arith) (omega arith)

abbrev whole_life : List TaskStatus
whole_life = waiting_repo_lock ∷ preparing ∷ running ∷ verifying ∷ publishing ∷ completed ∷ []

whole_life-Life : Life completed queued whole_life
unfolding can_transition_task_status
whole_life-Life = moves refl (moves refl (moves refl (moves refl (moves refl (moves refl ended)))))

completed_run_verifies_example :
    (contains whole_life verifying ≡ true) ⊎ (ends_locally queued whole_life ≡ true)
completed_run_verifies_example = completed_run_verifies queued whole_life refl refl whole_life-Life

queued≢completed : queued ≢ completed
queued≢completed h = cc

queued≢publishing : queued ≢ publishing
queued≢publishing h = cc

completed_run_publishes_example :
    (contains whole_life publishing ≡ true) ⊎ (ends_locally queued whole_life ≡ true)
completed_run_publishes_example =
    completed_run_publishes queued whole_life queued≢completed queued≢publishing whole_life-Life

cancellable_example : (l : List TaskStatus) × (StatusPath cancelled queued l) × (length l ≤ 2)
cancellable_example = cancellable queued queued≢completed
