-- ===== src/Lock/Service/Laws.antt =====
-- The lock files and the lease table under `acquire` of packages/repo-lock/src/repo-lock-service.ts.
use gram_coding_agent.Base.{
  ℕ, ◌≡◌, ◌≢◌, refl, String, true, false, List, [], ◌∷◌, ◌++◌, none, some, any, any-append, ==-refl,
  string_eq, nat_eq, Result, ok, err, arith, Bool-cases, Result-cases, inl, inr, ◌∙◌, ◌⊎◌,
}
use gram_coding_agent.Table.{delete_where}
use gram_coding_agent.Table.Unique.{delete_where-insert}
use gram_coding_agent.Task.Status.{status_eq}
use gram_coding_agent.Task.Database.{Database, RepoLeaseRow}
use gram_coding_agent.Lock.Store as LockStore
use gram_coding_agent.Lock.Store.{LockError, lease_conflict, AcquireRepoLeaseInput}
use gram_coding_agent.Lock.Store.Laws.{
  IsExclusive, acquire_and_prepare_atomic, acquire_and_prepare_ok, leased,
}
use gram_coding_agent.Lock.Service.{
  World, LockFile, Disk, healthy, open_fails, write_fails, close_fails, remove_fails, remove_new,
  translate, RepoLockLease, RepoLockError, repo_locked, acquire, after_file, create_file, input,
  lease_file, file_of,
}

module _ (disk : Disk) (value : AcquireRepoLeaseInput) (token : String) (ttl : ℕ) (w : World) where
  abbrev stored : Result LockError RepoLeaseRow × Database
  stored = LockStore.acquire_and_prepare value w.db

  -- the directory with the new lock file in it
  abbrev with_file : World
  with_file = record w {
    files = w.files ++ record { repo_id = value.repo_id; lease_token = some token } ∷ [];
  }

  remove_new-removed :
      (k : Disk) (e : RepoLockError) (files : List LockFile)
      → k ≢ remove_fails
      → (remove_new k value.repo_id e files).1 ≡ delete_where (file_of value.repo_id) files
  remove_new-removed healthy e files h = refl
  remove_new-removed open_fails e files h = refl
  remove_new-removed write_fails e files h = refl
  remove_new-removed close_fails e files h = refl
  remove_new-removed remove_fails e files h = absurd (h refl)

  lease_file_failed :
      disk ≢ remove_fails
      → any (file_of value.repo_id) w.files ≡ false
      → (e : RepoLockError) (w' : World) → lease_file disk value ttl with_file ≡ (err e, w')
      → w' ≡ w
  unfolding lease_file
  lease_file_failed removes free e w' h = elim (Result-cases stored.0) [
    | inl (a, good) ↦ ground arith
    | inr (x, bad) ↦
        let same = acquire_and_prepare_atomic value w.db x stored.1 (λ i. (bad i, stored.1)) in
        let files =
          delete_where-insert (file_of value.repo_id) w.files
            (record { repo_id = value.repo_id; lease_token = some token }) free
            (==-refl value.repo_id) in
        let removed = remove_new-removed disk (translate value.repo_id x) with_file.files removes in
        ground arith
  ]

  lease_file_stored :
      (l : RepoLockLease) (w' : World)
      → IsExclusive w.db
      → lease_file disk value ttl with_file ≡ (ok l, w')
      → (LockStore.get_lease value.repo_id w.db ≡ none)
        × IsExclusive w'.db
        × (w'.files ≡ with_file.files)
        × (LockStore.get_lease value.repo_id w'.db ≡ some (LockStore.lease_row value))
  unfolding lease_file
  lease_file_stored l w' excl h = elim (Result-cases stored.0) [
    | inr (x, bad) ↦ ground arith
    | inl (a, good) ↦
        let (done, was, is, excl') = acquire_and_prepare_ok value w.db a good excl in
        let after : w' ≡ record with_file { db = leased value w.db } = ground arith in
        (was, rw after excl', rw after, rw after is)
  ]

module _ (disk : Disk) (repo_id : ℕ) (task_id token : String) (now ttl pid : ℕ) (boot_id : String)
    (w : World) where
  -- A repository whose lock file exists is refused, and nothing is written.
  pub acquire_locked_by_file :
      any (file_of repo_id) w.files ≡ true
      → acquire disk repo_id task_id token now ttl pid boot_id w ≡ (err (repo_locked repo_id), w)
  unfolding acquire
  acquire_locked_by_file h = rw h

  abbrev request : AcquireRepoLeaseInput
  request = input repo_id task_id token now ttl pid boot_id

  -- An acquisition that fails leaves the database and the lock files as they were, unless the disk
  -- fails the write of the lock file, its close after a good write, or its removal.
  pub acquire_failed_unchanged :
      (e : RepoLockError) (w' : World)
      → disk ≢ write_fails
      → disk ≢ close_fails
      → disk ≢ remove_fails
      → acquire disk repo_id task_id token now ttl pid boot_id w ≡ (err e, w')
      → w' ≡ w
  unfolding acquire
  acquire_failed_unchanged e w' writes closes removes h =
      elim (Bool-cases (any (file_of repo_id) w.files)) [
        | inl there ↦ ground arith
        | inr free ↦ by_disk disk writes closes removes free h
      ]
    where
      by_disk :
          (k : Disk)
          → k ≢ write_fails
          → k ≢ close_fails
          → k ≢ remove_fails
          → any (file_of repo_id) w.files ≡ false
          → after_file k request ttl (create_file k repo_id token w) ≡ (err e, w')
          → w' ≡ w
      by_disk healthy writes closes removes free h =
          lease_file_failed healthy request token ttl w removes free e w' (rw free at h)
      by_disk open_fails writes closes removes free h = ground arith
      by_disk write_fails writes closes removes free h = absurd (writes refl)
      by_disk close_fails writes closes removes free h = absurd (closes refl)
      by_disk remove_fails writes closes removes free h = absurd (removes refl)

  -- Where the lease table is exclusive, an acquisition succeeds only where the repository had
  -- neither a lock file nor a lease; it adds a lock file with its token, its own lease is the stored
  -- one, and the table stays exclusive.
  pub acquire_needs_free :
      (l : RepoLockLease) (w' : World)
      → IsExclusive w.db
      → acquire disk repo_id task_id token now ttl pid boot_id w ≡ (ok l, w')
      → (any (file_of repo_id) w.files ≡ false)
        × (LockStore.get_lease repo_id w.db ≡ none)
        × (LockStore.get_lease repo_id w'.db ≡ some (LockStore.lease_row request))
        × IsExclusive w'.db
        × (w'.files ≡ w.files ++ record { repo_id = repo_id; lease_token = some token } ∷ [])
  unfolding acquire
  acquire_needs_free l w' excl h = elim (Bool-cases (any (file_of repo_id) w.files)) [
    | inl there ↦ ground arith
    | inr free ↦ by_disk disk free h
  ]
    where
      by_store :
          (k : Disk)
          → any (file_of repo_id) w.files ≡ false
          → lease_file k request ttl (with_file k request token ttl w) ≡ (ok l, w')
          → (any (file_of repo_id) w.files ≡ false)
            × (LockStore.get_lease repo_id w.db ≡ none)
            × (LockStore.get_lease repo_id w'.db ≡ some (LockStore.lease_row request))
            × IsExclusive w'.db
            × (w'.files ≡ w.files ++ record { repo_id = repo_id; lease_token = some token } ∷ [])
      by_store k free h =
          let (was, excl', files, is) = lease_file_stored k request token ttl w l w' excl h in
          (free, was, is, excl', files)

      by_disk :
          (k : Disk)
          → any (file_of repo_id) w.files ≡ false
          → after_file k request ttl (create_file k repo_id token w) ≡ (ok l, w')
          → (any (file_of repo_id) w.files ≡ false)
            × (LockStore.get_lease repo_id w.db ≡ none)
            × (LockStore.get_lease repo_id w'.db ≡ some (LockStore.lease_row request))
            × IsExclusive w'.db
            × (w'.files ≡ w.files ++ record { repo_id = repo_id; lease_token = some token } ∷ [])
      by_disk healthy free h = by_store healthy free (rw free at h)
      by_disk remove_fails free h = by_store remove_fails free (rw free at h)
      by_disk open_fails free h = ground arith
      by_disk write_fails free h = ground arith
      by_disk close_fails free h = ground arith

-- After an acquisition whose write of the lock file fails, every acquisition of the same
-- repository reports that it is locked and changes nothing.
pub failed_write_locks_out :
    (repo_id : ℕ) (task_id token : String) (now ttl pid : ℕ) (boot_id : String) (w : World)
    (disk : Disk) (task_id' token' : String) (now' ttl' pid' : ℕ) (boot_id' : String)
    → let w' = (acquire write_fails repo_id task_id token now ttl pid boot_id w).1 in
      acquire disk repo_id task_id' token' now' ttl' pid' boot_id' w'
      ≡ (err (repo_locked repo_id), w')
unfolding acquire
failed_write_locks_out repo_id task_id token now ttl pid boot_id w disk task_id' token' now' ttl'
      pid' boot_id' =
    acquire_locked_by_file disk repo_id task_id' token' now' ttl' pid' boot_id' _
      (left (Bool-cases (any (file_of repo_id) w.files)))
  where
    left :
        (any (file_of repo_id) w.files ≡ true) ⊎ (any (file_of repo_id) w.files ≡ false)
        → any
            (file_of repo_id)
            (acquire write_fails repo_id task_id token now ttl pid boot_id w).1.files
          ≡ true
    left (inl there) = rw there there
    left (inr free) = rw free (
        any-append (file_of repo_id) w.files (record { repo_id = repo_id; lease_token = none } ∷ [])
        ∙ rw free (rw (==-refl repo_id)))
