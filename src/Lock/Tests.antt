-- ===== src/Lock/Tests.antt =====
-- Runs of the lock repository and the lock service on small worlds.
use gram_coding_agent.Base.{
  ℕ, ◌≡◌, ◌≢◌, refl, arith, ◌⊎◌, true, false, List, [], ◌∷◌, none, some, any, string_eq, nat_eq, ok,
  err,
}
use gram_coding_agent.Table.{find_where}
use gram_coding_agent.Task.Status.{waiting_repo_lock, preparing, running, needs_recovery}
use gram_coding_agent.Task.Database.{pull_request, TaskRow, RepoLeaseRow, Database}
use gram_coding_agent.Task.Store as TaskStore
use gram_coding_agent.Lock.Store.{
  LockError, AcquireRepoLeaseInput, lease_conflict, acquire_and_prepare, get_lease, lease_row,
}
use gram_coding_agent.Lock.Store.Laws.{IsExclusive, acquire_and_prepare-IsExclusive}
use gram_coding_agent.Lock.Store.Prepare.{IsPrepared, IsRefused, acquire_and_prepare_prepares}
use gram_coding_agent.Lock.Service.{
  World, healthy, open_fails, write_fails, close_fails, remove_fails, repo_locked, repo_lock_lost,
  file_error, RepoLockLease, file_of, acquire, heartbeat, tick, release,
}
use gram_coding_agent.Lock.Service.Laws.{
  acquire_needs_free, acquire_failed_unchanged, failed_write_locks_out,
}
use gram_coding_agent.Lock.Service.Release.{release_frees}
use gram_coding_agent.Lock.Service.Heartbeat.{tick_lost}

abbrev waiting_task : TaskRow
waiting_task = record {
  id = "t";
  seq = 1;
  goal = "g";
  repo_id = some 7;
  repo_selector = none;
  status = waiting_repo_lock;
  task_type = "CODING";
  publish_mode = pull_request;
  priority = 2;
  metadata = none;
  created_at = 0;
  updated_at = 0;
}

abbrev value : AcquireRepoLeaseInput
value = record {
  repo_id = 7;
  task_id = "t";
  lease_token = "k";
  acquired_at = 5;
  heartbeat_at = 5;
  lease_until = 65;
  owner_pid = 11;
  owner_boot_id = "b";
}

abbrev database : List TaskRow → List RepoLeaseRow → Database
database tasks locks = record {
  task_sequence = some 2;
  repositories = 7 ∷ [];
  tasks = tasks;
  workspaces = [];
  command_runs = [];
  repo_locks = locks;
}

abbrev free_world : World
free_world = record { db = database (waiting_task ∷ []) []; files = [] }

abbrev row : RepoLeaseRow
row = lease_row value

abbrev lease : RepoLockLease
lease = record {
  repo_id = 7;
  task_id = "t";
  lease_token = "k";
  ttl_ms = 60;
  released = false;
  quiesced = false;
  ticking = true;
}

abbrev held_world : World
held_world = record {
  db = database (record waiting_task { status = preparing; updated_at = 5 } ∷ []) (row ∷ []);
  files = record { repo_id = 7; lease_token = some "k" } ∷ [];
}

free-IsExclusive : IsExclusive (database (waiting_task ∷ []) [])
free-IsExclusive repo_id = omega arith

held-IsExclusive : IsExclusive held_world.db
held-IsExclusive repo_id = ground arith

acquire_and_prepare_prepares_example :
    ((e : LockError) × (acquire_and_prepare value free_world.db ≡ (err e, free_world.db))
      × IsRefused value free_world.db e)
    ⊎ ((l : RepoLeaseRow) × (db' : Database) × (acquire_and_prepare value free_world.db
          ≡ (ok l, db'))
        × IsPrepared value free_world.db l db')
acquire_and_prepare_prepares_example =
    acquire_and_prepare_prepares value free_world.db (ground arith)

acquire_and_prepare-IsExclusive_example :
    IsExclusive (acquire_and_prepare value held_world.db).1
    × ((get_lease 7 held_world.db ≡ none)
        ⊎ (acquire_and_prepare value held_world.db ≡ (err (lease_conflict 7), held_world.db)))
acquire_and_prepare-IsExclusive_example =
    acquire_and_prepare-IsExclusive value held_world.db held-IsExclusive

acquire_needs_free_example :
    (any (file_of 7) [] ≡ false)
    × (get_lease 7 free_world.db ≡ none)
    × (get_lease 7 held_world.db ≡ some row)
    × IsExclusive held_world.db
    × (held_world.files ≡ record { repo_id = 7; lease_token = some "k" } ∷ [])
unfolding acquire acquire_and_prepare gram_coding_agent.Task.Status.TaskStatus-discrete
acquire_needs_free_example =
    acquire_needs_free healthy 7 "t" "k" 5 60 11 "b" free_world lease held_world free-IsExclusive
      refl

open_fails≢write_fails : open_fails ≢ write_fails
open_fails≢write_fails h = cc

open_fails≢close_fails : open_fails ≢ close_fails
open_fails≢close_fails h = cc

open_fails≢remove_fails : open_fails ≢ remove_fails
open_fails≢remove_fails h = cc

acquire_failed_unchanged_example : free_world ≡ free_world
unfolding acquire
acquire_failed_unchanged_example =
    acquire_failed_unchanged open_fails 7 "t" "k" 5 60 11 "b" free_world file_error free_world
      open_fails≢write_fails open_fails≢close_fails open_fails≢remove_fails refl

failed_write_locks_out_example :
    acquire healthy 7 "t" "l" 9 60 11 "b" (acquire write_fails 7 "t" "k" 5 60 11 "b" free_world).1
    ≡ (err (repo_locked 7), (acquire write_fails 7 "t" "k" 5 60 11 "b" free_world).1)
failed_write_locks_out_example =
    failed_write_locks_out 7 "t" "k" 5 60 11 "b" free_world healthy "t" "l" 9 60 11 "b"

eight≢seven : ◌≢◌ {A = ℕ} 8 7
eight≢seven h = omega arith

release_frees_example :
    ((release lease held_world).0 ≡ ok tt)
    × (release (release lease held_world).1 (release lease held_world).2
        ≡ (ok tt, (release lease held_world).1, (release lease held_world).2))
    × (get_lease 7 (release lease held_world).2.db ≡ none)
    × (any (file_of 7) (release lease held_world).2.files ≡ false)
    × (get_lease 8 (release lease held_world).2.db ≡ get_lease 8 held_world.db)
    × (find_where (file_of 8) (release lease held_world).2.files
        ≡ find_where (file_of 8) held_world.files)
unfolding get_lease
release_frees_example =
    release_frees lease held_world row (record { repo_id = 7; lease_token = some "k" }) 8
      held-IsExclusive refl refl refl refl eight≢seven

abbrev lost_world : World
lost_world = record { db = database (record waiting_task { status = running } ∷ []) []; files = [] }

tick_lost_example :
    ((heartbeat lease 50 lost_world).0 ≡ err (repo_lock_lost 7))
    × ((tick lease 50 lost_world).0.ticking ≡ false)
    × (TaskStore.get "t" (tick lease 50 lost_world).1.db
        ≡ some (record waiting_task { status = needs_recovery; updated_at = 50 }))
unfolding get_lease gram_coding_agent.Task.Store.get
    gram_coding_agent.Task.Status.TaskStatus-discrete
tick_lost_example =
    tick_lost lease 50 lost_world (record waiting_task { status = running }) refl refl refl
