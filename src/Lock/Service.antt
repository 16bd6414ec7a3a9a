-- ===== src/Lock/Service.antt =====
-- `RepoLockService` and `LeaseHeartbeat`: packages/repo-lock/src/repo-lock-service.ts and
-- lease-heartbeat.ts. The state is the database with the directory of lock files; a lease handle is
-- a record of its own. The clock, the token that `randomUUID` draws, the process id and the boot id
-- are arguments, and so is what the file system does with the new lock file.
pub mod Laws
pub mod Release
pub mod Heartbeat
use gram_coding_agent.Base.{
  ℕ, ◌+◌, String, Bool, true, false, ◌&&◌, ◌||◌, List, [], ◌∷◌, ◌++◌, Option, none, some, not, any,
  contains, if◌then◌else◌, ◌==◌, string_eq, nat_eq, Result, ok, err, is_some,
}
use gram_coding_agent.Table.{find_where, delete_where}
use gram_coding_agent.Task.Status.{
  TaskStatus, waiting_repo_lock, preparing, running, verifying, publishing, needs_recovery,
  status_eq,
}
use gram_coding_agent.Task.Database.{Database, TaskRow}
use gram_coding_agent.Task.Store as TaskStore
use gram_coding_agent.Lock.Store as LockStore
use gram_coding_agent.Lock.Store.{LockError, lease_conflict, AcquireRepoLeaseInput}

-- `<repoId>.lock` and the `leaseToken` in it; a file that was never written in full has none
pub record LockFile : Type 0 where
  pub repo_id : ℕ
  pub lease_token : Option String

pub record World : Type 0 where
  pub db : Database
  pub files : List LockFile

-- what the file system does with a new lock file: it can fail its creation, the write of the metadata,
-- the close after a good write, or its removal where the lease is refused
pub data Disk : Type 0 where
  healthy open_fails write_fails close_fails remove_fails : Disk

pub data RepoLockError : Type 0 where
  repo_locked : ℕ → RepoLockError
  repo_lock_lost : ℕ → RepoLockError
  store_error : LockError → RepoLockError
  file_error metadata_unreadable : RepoLockError

-- the lease that `acquire` returns, with the variables that its methods close over
pub record RepoLockLease : Type 0 where
  pub repo_id : ℕ
  pub task_id : String
  pub lease_token : String
  pub ttl_ms : ℕ
  pub released : Bool
  pub quiesced : Bool
  -- whether `LeaseHeartbeat` has a timer
  pub ticking : Bool

abbrev pub file_of : ℕ → LockFile → Bool
file_of repo_id f = f.repo_id == repo_id

abbrev pub add_file : ℕ → Option String → World → World
add_file repo_id token w = record w {
  files = w.files ++ record { repo_id = repo_id; lease_token = token } ∷ [];
}

-- `openSync(lockPath, 'wx')`, the write of the metadata and the close
abbrev pub create_file : Disk → ℕ → String → World → Result RepoLockError (Unit {0}) × World
create_file disk repo_id token w =
    if any (file_of repo_id) w.files then (err (repo_locked repo_id), w) else elim disk [
      | open_fails ↦ (err file_error, w)
      | write_fails ↦ (err file_error, add_file repo_id none w)
      | close_fails ↦ (err file_error, add_file repo_id (some token) w)
      | remove_fails ↦ (ok tt, add_file repo_id (some token) w)
      | healthy ↦ (ok tt, add_file repo_id (some token) w)
    ]

-- the error that `acquire` throws for one of `acquireAndPrepare`
abbrev pub translate : ℕ → LockError → RepoLockError
translate repo_id (lease_conflict _) = repo_locked repo_id
translate repo_id e = store_error e

abbrev input : ℕ → String → String → ℕ → ℕ → ℕ → String → AcquireRepoLeaseInput
input repo_id task_id token now ttl pid boot_id = record {
  repo_id = repo_id;
  task_id = task_id;
  lease_token = token;
  acquired_at = now;
  heartbeat_at = now;
  lease_until = now + ttl;
  owner_pid = pid;
  owner_boot_id = boot_id;
}

abbrev new_lease : ℕ → String → String → ℕ → RepoLockLease
new_lease repo_id task_id token ttl = record {
  repo_id = repo_id;
  task_id = task_id;
  lease_token = token;
  ttl_ms = ttl;
  released = false;
  quiesced = false;
  ticking = true;
}

-- `rmSync` where the lease is refused; its own error replaces that of the store
abbrev pub remove_new : Disk → ℕ → RepoLockError → List LockFile → RepoLockError × List LockFile
remove_new remove_fails repo_id e files = (file_error, files)
remove_new _ repo_id e files = (e, delete_where (file_of repo_id) files)

-- the second half of `acquire`: on an error the new lock file is removed
lease_file : Disk → AcquireRepoLeaseInput → ℕ → World → Result RepoLockError RepoLockLease × World
lease_file disk value ttl w =
    let (r, db') = LockStore.acquire_and_prepare value w.db in
    elim r [
      | ok _ ↦
          (ok (new_lease value.repo_id value.task_id value.lease_token ttl), record w { db = db' })
      | err e ↦
          let (e', files') = remove_new disk value.repo_id (translate value.repo_id e) w.files in
          (err e', record { db = db'; files = files' })
    ]

abbrev pub after_file :
    Disk
    → AcquireRepoLeaseInput
    → ℕ
    → Result RepoLockError (Unit {0}) × World
    → Result RepoLockError RepoLockLease × World
unfolding lease_file
after_file disk value ttl (ok _, w) = lease_file disk value ttl w
after_file disk value ttl (err e, w) = (err e, w)

unfoldable pub acquire :
    Disk
    → ℕ
    → String
    → String
    → ℕ
    → ℕ
    → ℕ
    → String
    → World
    → Result RepoLockError RepoLockLease × World
unfolding lease_file
acquire disk repo_id task_id token now ttl pid boot_id w =
    after_file disk (input repo_id task_id token now ttl pid boot_id) ttl
      (create_file disk repo_id token w)

abbrev pub can_move_to_recovery : TaskStatus → Bool
can_move_to_recovery s =
    contains (waiting_repo_lock ∷ preparing ∷ running ∷ verifying ∷ publishing ∷ []) s

-- a transition that another one beat is swallowed
unfoldable pub move_task_toward_recovery : String → ℕ → World → World
move_task_toward_recovery task_id now w = elim (TaskStore.get task_id w.db) [
  | none ↦ w
  | some current ↦
      if can_move_to_recovery current.status
      then record w { db = (TaskStore.transition task_id current.status needs_recovery now w.db).1 }
      else w
]

unfoldable pub heartbeat : RepoLockLease → ℕ → World → Result RepoLockError (Unit {0}) × World
unfolding move_task_toward_recovery
heartbeat lease now w =
    let (owned, db') =
      LockStore.heartbeat lease.repo_id lease.lease_token now (now + lease.ttl_ms) w.db in
    let w' = record w { db = db' } in
    if owned
    then (ok tt, w')
    else (err (repo_lock_lost lease.repo_id), move_task_toward_recovery lease.task_id now w')

-- what a firing of the timer makes of its beat: a failed one stops it and runs `onFailure`
abbrev pub after_tick :
    RepoLockLease → ℕ → Result RepoLockError (Unit {0}) × World → RepoLockLease × World
after_tick lease now (ok _, w) = (lease, w)
after_tick lease now (err _, w) =
    (record lease { ticking = false }, move_task_toward_recovery lease.task_id now w)

-- one firing of the timer, if there still is one
unfoldable pub tick : RepoLockLease → ℕ → World → RepoLockLease × World
tick lease now w =
    if lease.ticking then after_tick lease now (heartbeat lease now w) else (lease, w)

unfoldable pub quiesce : RepoLockLease → RepoLockLease
quiesce lease = if lease.quiesced then lease else record lease { quiesced = true; ticking = false }

abbrev pub remove_read :
    ℕ → String → Option String → List LockFile → Result RepoLockError (Unit {0}) × List LockFile
remove_read repo_id token none files = (err metadata_unreadable, files)
remove_read repo_id token (some t) files =
    (ok tt, if t == token then delete_where (file_of repo_id) files else files)

-- the file is removed only where it holds the token of this lease; a missing file is no error
abbrev pub remove_file :
    ℕ → String → List LockFile → Result RepoLockError (Unit {0}) × List LockFile
remove_file repo_id token files = elim (find_where (file_of repo_id) files) [
  | none ↦ (ok tt, files)
  | some f ↦ remove_read repo_id token f.lease_token files
]

unfoldable pub release :
    RepoLockLease → World → Result RepoLockError (Unit {0}) × RepoLockLease × World
release lease w =
    let (r, files') = remove_file lease.repo_id lease.lease_token w.files in
    if lease.released then (ok tt, lease, w) else (
      r,
      record lease { released = true; ticking = false },
      record { db = (LockStore.release lease.repo_id lease.lease_token w.db).1; files = files' },
    )
