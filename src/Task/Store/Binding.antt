-- ===== src/Task/Store/Binding.antt =====
-- How `TaskRepository.bindRepository` ties a task to a repository.
use gram_coding_agent.Base.{
  Result, ℕ, ◌≡◌, refl, String, Option, none, some, contains, if◌then◌else◌, ◌==◌, string_eq,
  nat_eq, ok, err, arith, and-true,
}
use gram_coding_agent.Table.{update_where, find_where-some}
use gram_coding_agent.Table.Unique.{find_where-update, count_where_key}
use gram_coding_agent.Task.Database.{Database, TaskRow}
use gram_coding_agent.Task.Store.{
  TaskError, has_id, get, bind_repository, unbound, set_repo, repository_not_found,
  binding_conflict,
}
use gram_coding_agent.Task.Store.Laws.{IsWellFormed}

-- the answer to a request, from the repository that the task is bound to already
abbrev pub bound_answer :
    String → ℕ → ℕ → Option ℕ → Database → Result TaskError (Unit {0}) × Database
bound_answer id repo_id now none db =
    (ok tt, record db { tasks = update_where (unbound id) (set_repo repo_id now) db.tasks })
bound_answer id repo_id now (some m) db =
    if m == repo_id then (ok tt, db) else (err (binding_conflict id m repo_id), db)

-- A known repository is bound to a task that has none; a bound task accepts the same repository
-- again, and refuses every other one unchanged.
pub bind_repository_lem :
    (id : String) (repo_id now : ℕ) (db : Database) (r : TaskRow)
    → IsWellFormed db
    → get id db ≡ some r
    → bind_repository id repo_id now db ≡ (
        if contains db.repositories repo_id
        then bound_answer id repo_id now r.repo_id db
        else (err repository_not_found, db))
unfolding bind_repository
bind_repository_lem id repo_id now db r wf e =
    let key =
      count_where_key (has_id id) (unbound id) (λ x h. (and-true _ _ h).0) db.tasks r (wf.ids id)
        e in
    ground (arith, e, key, find_where-some (has_id id) db.tasks r e)

-- No request to bind a task changes a stored task that has a repository.
pub bind_repository_keeps :
    (id j : String) (repo_id m now : ℕ) (db : Database) (r : TaskRow)
    → get j db ≡ some r
    → r.repo_id ≡ some m
    → get j (bind_repository id repo_id now db).1 ≡ some r
unfolding bind_repository
bind_repository_keeps id j repo_id m now db r e bound =
    let kept =
      find_where-update (has_id j) (unbound id) (set_repo repo_id now) (λ x _. refl) db.tasks in
    ground (arith, kept)
