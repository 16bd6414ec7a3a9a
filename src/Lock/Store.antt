-- ===== src/Lock/Store.antt =====
-- `LockRepository`: packages/persistence/src/repositories/lock-repository.ts.
pub mod Laws
pub mod Prepare
use gram_coding_agent.Base.{
  ℕ, ◌+◌, String, Bool, true, false, ◌&&◌, ◌||◌, List, [], ◌∷◌, ◌++◌, Option, none, some, not, any,
  contains, if◌then◌else◌, ◌==◌, string_eq, nat_eq, Result, ok, err, is_some,
}
use gram_coding_agent.Base.Effects.{Eff, ◌>>=◌, ◌>>◌}
use gram_coding_agent.Table.{find_where, update_where, count_where, delete_where}
use gram_coding_agent.Task.Status.{TaskStatus, waiting_repo_lock, preparing, status_eq}
use gram_coding_agent.Task.Database.{Database, TaskRow, RepoLeaseRow}
use gram_coding_agent.Task.Store.{transaction, set_status}

pub data LockError : Type 0 where
  lease_conflict : ℕ → LockError
  task_not_waiting : String → LockError
  lease_not_persisted : LockError

pub record AcquireRepoLeaseInput : Type 0 where
  pub repo_id : ℕ
  pub task_id : String
  pub lease_token : String
  pub acquired_at : ℕ
  pub heartbeat_at : ℕ
  pub lease_until : ℕ
  pub owner_pid : ℕ
  pub owner_boot_id : String

abbrev pub of_repo : ℕ → RepoLeaseRow → Bool
of_repo repo_id l = l.repo_id == repo_id

abbrev pub of_lease : ℕ → String → RepoLeaseRow → Bool
of_lease repo_id token l = l.repo_id == repo_id && l.lease_token == token

unfoldable pub get_lease : ℕ → Database → Option RepoLeaseRow
get_lease repo_id db = find_where (of_repo repo_id) db.repo_locks

abbrev pub lease_row : AcquireRepoLeaseInput → RepoLeaseRow
lease_row value = record {
  repo_id = value.repo_id;
  owner_task_id = value.task_id;
  lease_token = value.lease_token;
  acquired_at = value.acquired_at;
  heartbeat_at = value.heartbeat_at;
  lease_until = value.lease_until;
  owner_pid = value.owner_pid;
  owner_boot_id = value.owner_boot_id;
}

-- The constraints of `repo_locks`: one row for a repository, unique tokens, two foreign keys. A
-- violated one is the conflict that the repository reports.
abbrev pub violates : AcquireRepoLeaseInput → Database → Bool
violates value db =
    any (λ l. l.repo_id == value.repo_id || l.lease_token == value.lease_token) db.repo_locks
    || not (contains db.repositories value.repo_id)
    || not (any (λ r. r.id == value.task_id) db.tasks)

insert_lease : AcquireRepoLeaseInput → Eff Database LockError (Unit {0})
insert_lease value db =
    if violates value db
    then (err (lease_conflict value.repo_id), db)
    else (ok tt, record db { repo_locks = db.repo_locks ++ lease_row value ∷ [] })

abbrev pub is_bound_to : ℕ → Option ℕ → Bool
is_bound_to repo_id none = false
is_bound_to repo_id (some n) = n == repo_id

-- WHERE id = ? AND repo_id = ? AND status = 'WAITING_REPO_LOCK'
abbrev pub is_waiting_for : String → ℕ → TaskRow → Bool
is_waiting_for task_id repo_id r =
    r.id == task_id && is_bound_to repo_id r.repo_id && r.status == waiting_repo_lock

prepare_task : AcquireRepoLeaseInput → Eff Database LockError (Unit {0})
prepare_task value db =
    let p = is_waiting_for value.task_id value.repo_id in
    let db' = record db {
      tasks = update_where p (set_status preparing value.acquired_at) db.tasks;
    } in
    if count_where p db.tasks == 1
    then (ok tt, db')
    else (err (task_not_waiting value.task_id), db')

stored_lease : ℕ → Eff Database LockError RepoLeaseRow
unfolding get_lease
stored_lease repo_id db = elim (get_lease repo_id db) [
  | none ↦ (err lease_not_persisted, db)
  | some l ↦ (ok l, db)
]

unfoldable pub acquire_body : AcquireRepoLeaseInput → Eff Database LockError RepoLeaseRow
unfolding insert_lease prepare_task stored_lease
acquire_body value = do insert_lease value; prepare_task value; stored_lease value.repo_id

unfoldable pub acquire_and_prepare : AcquireRepoLeaseInput → Eff Database LockError RepoLeaseRow
unfolding acquire_body
acquire_and_prepare value = transaction (acquire_body value)

unfoldable pub heartbeat : ℕ → String → ℕ → ℕ → Database → Bool × Database
heartbeat repo_id token heartbeat_at lease_until db =
    let p = of_lease repo_id token in
    (
      count_where p db.repo_locks == 1,
      record db {
        repo_locks =
            update_where p
              (λ l. record l { heartbeat_at = heartbeat_at; lease_until = lease_until })
              db.repo_locks;
      },
    )

unfoldable pub release : ℕ → String → Database → Bool × Database
release repo_id token db = (
  count_where (of_lease repo_id token) db.repo_locks == 1,
  record db { repo_locks = delete_where (of_lease repo_id token) db.repo_locks },
)
