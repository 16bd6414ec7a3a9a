-- ===== src/Task/Store.antt =====
-- `TaskRepository`: packages/persistence/src/repositories/task-repository.ts. A method is a step on
-- the database; the id that `createTaskId` draws and the time are arguments.
pub mod Runnable
pub mod Laws
pub mod Local
pub mod Evidence
pub mod Binding
use gram_coding_agent.Base.{
  ℕ, ◌+◌, String, Bool, true, false, ◌&&◌, ◌||◌, List, [], ◌∷◌, ◌++◌, Option, none, some,
  if◌then◌else◌, ◌==◌, string_eq, nat_eq, leb, ltb, any, contains, nat_beq, is_some, ok, err,
  Result, not,
}
use gram_coding_agent.Base.Effects.{Eff, throw, pure, ◌>>◌, ◌>>=◌}
use gram_coding_agent.Table.{find_where, update_where, count_where}
use gram_coding_agent.Task.Status.{
  TaskStatus, queued, running, completed, status_eq, can_transition_task_status,
}
use gram_coding_agent.Task.Database.{
  Database, TaskRow, WorkspaceRow, CommandRunRow, Metadata, PublishMode,
}

pub data TaskError : Type 0 where
  invalid_transition : TaskStatus → TaskStatus → TaskError
  concurrent_transition : String → TaskStatus → TaskStatus → TaskError
  binding_conflict : String → ℕ → ℕ → TaskError
  sequence_not_initialized constraint not_read_back : TaskError
  task_not_found repository_not_found bind_failed : TaskError
  invalid_evidence evidence_rejected invalid_limit : TaskError

pub record CreateStoredTaskInput : Type 0 where
  pub goal : String
  pub task_type : String
  pub publish_mode : PublishMode
  pub repo_id : Option ℕ
  pub repo_selector : Option String
  pub priority : Option ℕ
  pub metadata : Option Metadata

-- `db.transaction`: what a throwing body wrote is rolled back.
abbrev pub settle : {S E A : Type 0} → S → Result E A × S → Result E A × S
settle s (ok a, s') = (ok a, s')
settle s (err e, s') = (err e, s)

abbrev pub transaction : {S E A : Type 0} → Eff S E A → Eff S E A
transaction body s = settle s (body s)

abbrev pub or_else {ℓ} : {A : Type ℓ} → Option A → A → A
or_else none d = d
or_else (some a) d = a

abbrev pub has_id : String → TaskRow → Bool
has_id id r = r.id == id

unfoldable pub get : String → Database → Option TaskRow
get id db = find_where (has_id id) db.tasks

abbrev new_row : CreateStoredTaskInput → String → ℕ → ℕ → TaskRow
new_row value id seq now = record {
  id = id;
  seq = seq;
  goal = value.goal;
  repo_id = value.repo_id;
  repo_selector = value.repo_selector;
  status = queued;
  task_type = value.task_type;
  publish_mode = value.publish_mode;
  priority = or_else value.priority 2;
  metadata = value.metadata;
  created_at = now;
  updated_at = now;
}

-- `repo_id INTEGER REFERENCES repositories(id)`
abbrev references : Database → Option ℕ → Bool
references db none = true
references db (some repo_id) = contains db.repositories repo_id

-- The INSERT: `id` is the primary key, `seq` is unique, and `repo_id` is a foreign key.
insert_task : TaskRow → Eff Database TaskError (Unit {0})
insert_task r db =
    if any (λ x. x.id == r.id || x.seq == r.seq) db.tasks || not (references db r.repo_id)
    then (err constraint, db)
    else (ok tt, record db { tasks = db.tasks ++ r ∷ [] })

read_back : String → Eff Database TaskError TaskRow
unfolding get
read_back id db = elim (get id db) [ none ↦ (err not_read_back, db) | some r ↦ (ok r, db) ]

create_body : CreateStoredTaskInput → String → ℕ → Eff Database TaskError TaskRow
unfolding insert_task read_back
create_body value id now db = elim (db.task_sequence) [
  | none ↦ (err sequence_not_initialized, db)
  | some next_value ↦
      (do insert_task (new_row value id next_value now); read_back id)
        (record db { task_sequence = some (next_value + 1) })
]

unfoldable pub create : CreateStoredTaskInput → String → ℕ → Eff Database TaskError TaskRow
unfolding create_body
create value id now = transaction (create_body value id now)

abbrev pub has_status : String → TaskStatus → TaskRow → Bool
has_status id s r = r.id == id && r.status == s

abbrev pub set_status : TaskStatus → ℕ → TaskRow → TaskRow
set_status to now r = record r { status = to; updated_at = now }

unfoldable pub transition : String → TaskStatus → TaskStatus → ℕ → Eff Database TaskError (Unit {0})
transition id expected_from to now db =
    let p = has_status id expected_from in
    let db' = record db { tasks = update_where p (set_status to now) db.tasks } in
    if count_where p db.tasks == 1
    then (ok tt, db')
    else (err (concurrent_transition id expected_from to), db')

-- `TaskStateMachine.transition` of packages/task-engine/src/state-machine.ts
unfoldable pub guarded_transition :
    String → TaskStatus → TaskStatus → ℕ → Eff Database TaskError (Unit {0})
guarded_transition id from to now =
    if can_transition_task_status from to
    then transition id from to now
    else throw (invalid_transition from to)

-- UPDATE … SET repo_id WHERE id = ? AND repo_id IS NULL
abbrev unbound : String → TaskRow → Bool
unbound id r = r.id == id && not (is_some r.repo_id)

abbrev set_repo : ℕ → ℕ → TaskRow → TaskRow
set_repo repo_id now r = record r { repo_id = some repo_id; updated_at = now }

-- the checks after an update that changed no row
rebound : String → ℕ → Eff Database TaskError (Unit {0})
unfolding get
rebound id repo_id db = elim (get id db) [
  | none ↦ (err task_not_found, db)
  | some current ↦ elim (current.repo_id) [
    | none ↦ (err bind_failed, db)
    | some bound ↦
        if bound == repo_id then (ok tt, db) else (err (binding_conflict id bound repo_id), db)
  ]
]

bind_found : String → ℕ → ℕ → Option ℕ → Eff Database TaskError (Unit {0})
unfolding rebound
bind_found id repo_id now none db =
    let db' = record db { tasks = update_where (unbound id) (set_repo repo_id now) db.tasks } in
    if count_where (unbound id) db.tasks == 1 then (ok tt, db') else rebound id repo_id db'
bind_found id repo_id now (some bound) db =
    if bound == repo_id then (ok tt, db) else (err (binding_conflict id bound repo_id), db)

unfoldable pub bind_repository : String → ℕ → ℕ → Eff Database TaskError (Unit {0})
unfolding get bind_found
bind_repository id repo_id now db = elim (get id db) [
  | none ↦ (err task_not_found, db)
  | some task ↦
      if contains db.repositories repo_id
      then bind_found id repo_id now task.repo_id db
      else (err repository_not_found, db)
]
