-- ===== src/Task/Store/Local.antt =====
-- `TaskRepository.completeLocalCommand`: a local command is completed against the stored run of it.
use gram_coding_agent.Base.{
  ℕ, ◌-◌, ◌^◌, String, Bool, false, ◌&&◌, List, [], ◌∷◌, Option, none, some, any, contains, conj,
  if◌then◌else◌, ◌==◌, string_eq, nat_eq, leb, is_some, not, ok, err,
}
use gram_coding_agent.Base.Effects.{Eff}
use gram_coding_agent.Table.{update_where, count_where}
use gram_coding_agent.Task.Status.{running, completed, status_eq}
use gram_coding_agent.Task.Database.{Database, TaskRow, WorkspaceRow, CommandRunRow}
use gram_coding_agent.Task.Store.{TaskError, invalid_evidence, evidence_rejected, set_status}

-- an SQL comparison: false where a side is NULL
abbrev pub sql_eq : Option String → Option String → Bool
sql_eq (some a) (some b) = a == b
sql_eq _ _ = false

abbrev pub local_command_of : TaskRow → Option String
local_command_of r = elim (r.metadata) [ none ↦ none | some m ↦ m.local_command ]

abbrev pub package_manager_of : TaskRow → Option String
package_manager_of r = elim (r.metadata) [ none ↦ none | some m ↦ m.package_manager ]

abbrev pub is_declared_name : Option String → Bool
is_declared_name none = false
is_declared_name (some n) = contains ("lint" ∷ "test" ∷ "build" ∷ "dev" ∷ []) n

abbrev pub is_node_manager : Option String → Bool
is_node_manager none = false
is_node_manager (some n) = contains ("npm" ∷ "pnpm" ∷ []) n

-- `args_json = json_array('run', localCommand)`
abbrev pub args_run : Option (List String) → Option String → Bool
args_run (some (a ∷ b ∷ [])) (some name) = a == "run" && b == name
args_run _ _ = false

abbrev pub exit_is_zero : Option ℕ → Bool
exit_is_zero none = false
exit_is_zero (some n) = n == 0

abbrev pub repo_matches : Option ℕ → ℕ → Bool
repo_matches none n = false
repo_matches (some m) n = m == n

-- the conditions on a run and a workspace inside the EXISTS
abbrev pub evidence_tests : TaskRow → ℕ → CommandRunRow → WorkspaceRow → List Bool
evidence_tests r run_id c w =
    (c.id == run_id)
    ∷ (c.task_id == r.id)
    ∷ (w.task_id == r.id)
    ∷ repo_matches r.repo_id w.repo_id
    ∷ (c.cwd == w.linux_path)
    ∷ not (is_some w.recovery_state)
    ∷ (c.category == "DEVELOPMENT")
    ∷ not (is_some c.shell_text)
    ∷ (c.status == "SUCCEEDED")
    ∷ exit_is_zero c.exit_code
    ∷ is_some c.finished_at
    ∷ sql_eq c.executable (package_manager_of r)
    ∷ is_node_manager c.executable
    ∷ args_run c.args (local_command_of r)
    ∷ []

unfoldable pub is_evidence : TaskRow → ℕ → CommandRunRow → WorkspaceRow → Bool
is_evidence r run_id c w = conj (evidence_tests r run_id c w)

unfoldable pub has_evidence : Database → ℕ → TaskRow → Bool
unfolding is_evidence
has_evidence db run_id r =
    any (λ c. any (λ w. is_evidence r run_id c w) db.workspaces) db.command_runs

abbrev pub max_safe_integer : ℕ
max_safe_integer = 2 ^ 53 - 1

abbrev pub completion_tests : Database → String → ℕ → TaskRow → List Bool
completion_tests db id run_id r =
    (r.id == id)
    ∷ (r.task_type == "LOCAL_COMMAND")
    ∷ (r.status == running)
    ∷ is_declared_name (local_command_of r)
    ∷ has_evidence db run_id r
    ∷ []

unfoldable pub completable : Database → String → ℕ → TaskRow → Bool
unfolding has_evidence
completable db id run_id r = conj (completion_tests db id run_id r)

unfoldable pub complete_local_command : String → ℕ → ℕ → Eff Database TaskError (Unit {0})
unfolding completable
complete_local_command id run_id now db =
    let p = completable db id run_id in
    let db' = record db { tasks = update_where p (set_status completed now) db.tasks } in
    if not (leb 1 run_id && leb run_id max_safe_integer)
    then (err invalid_evidence, db)
    else if count_where p db.tasks == 1
    then (ok tt, db')
    else (err evidence_rejected, db')
