-- ===== src/Checks/Completion.antt =====
-- `PersistentCiCompletion`: packages/github/src/checks-service.ts.
use gram_coding_agent.Base.{
  ℕ, ◌≡◌, ◌≢◌, refl, arith, String, Option, none, some, if◌then◌else◌, ◌==◌, Result, ok, err, inl,
  inr, ◌⊎◌, Bool-cases, ap, ◌∙◌, ◌↔◌,
}
use gram_coding_agent.Base.Effects.{Eff}
use gram_coding_agent.Task.Status.{TaskStatus, publishing, completed, status_eq}
use gram_coding_agent.Task.Database.{Database, TaskRow}
use gram_coding_agent.Task.Store.Laws.{
  moved, IsWellFormed, transition_lem, get-transition, has_id-get,
}
use gram_coding_agent.Task.Store.{TaskError, get, transition, set_status}

pub data CompletionError : Type 0 where
  task_not_found : String → CompletionError
  not_publishing : TaskStatus → CompletionError
  store_failed : TaskError → CompletionError

abbrev of_store :
    Result TaskError (Unit {0}) × Database → Result CompletionError (Unit {0}) × Database
of_store (ok _, db) = (ok tt, db)
of_store (err e, db) = (err (store_failed e), db)

-- the completion of a task that is found with this status
abbrev complete_from : String → ℕ → TaskStatus → Eff Database CompletionError (Unit {0})
complete_from id now status db =
    if status == completed
    then (ok tt, db)
    else if status == publishing
    then of_store (transition id publishing completed now db)
    else (err (not_publishing status), db)

unfoldable pub complete : String → ℕ → Eff Database CompletionError (Unit {0})
unfolding get transition
complete id now db = elim (get id db) [
  | none ↦ (err (task_not_found id), db)
  | some task ↦ complete_from id now task.status db
]

not_found≢ok : {e : CompletionError} {a : Unit {0}} → err e ≢ ok a
not_found≢ok h = cc

complete-found :
    (id : String) (now : ℕ) (db : Database) (r : TaskRow)
    → get id db ≡ some r
    → complete id now db ≡ complete_from id now r.status db
unfolding complete
complete-found id now db r e =
    ap
      (λ (o : Option TaskRow). elim o as (λ _. Result CompletionError (Unit {0}) × Database) [
        | none ↦ (err (task_not_found id), db)
        | some task ↦ complete_from id now task.status db
      ])
      e

-- The completion of a stored task by CI moves it only from `PUBLISHING` to `COMPLETED`, and returns
-- exactly where it is in one of these statuses.
pub complete_lem :
    (id : String) (now : ℕ) (db : Database) (r : TaskRow)
    → IsWellFormed db
    → get id db ≡ some r
    → (r' : TaskRow) × (get id (complete id now db).1 ≡ some r')
      × ((r' ≡ r) ⊎ ((r.status ≡ publishing) × (r'.status ≡ completed)))
      × (((complete id now db).0 ≡ ok tt) ↔ ((r.status ≡ publishing) ⊎ (r.status ≡ completed)))
complete_lem id now db r wf e =
    rw (complete-found id now db r e) (elim (Bool-cases (r.status == completed)) [
      | inl done ↦ rw done (r, e, inl refl, (λ _. inr ((status_eq.beq_iff _ _).0 done), λ _. refl))
      | inr open_task ↦ elim (Bool-cases (r.status == publishing)) [
        | inl ready ↦
            let t : transition id publishing completed now db
                ≡ (ok tt, moved id publishing completed now db) =
              transition_lem id publishing completed now db r wf e ∙ rw ready in
            let stored = get-transition id id publishing completed now db in
            rw (open_task, ready)
              (rw t (
                set_status completed now r,
                (rw t at stored) ∙ rw e (ap some (rw (has_id-get id db r e, ready))),
                inr ((status_eq.beq_iff _ _).0 ready, refl),
                (λ _. inl ((status_eq.beq_iff _ _).0 ready), λ _. refl),
              ))
        | inr other ↦
            rw (open_task, other)
              (r, e, inl refl, (λ h. absurd (not_found≢ok h), λ h. ground arith))
      ]
    ])
