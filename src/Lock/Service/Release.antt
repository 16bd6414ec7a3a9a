-- ===== src/Lock/Service/Release.antt =====
-- When a lease ends: `release` of packages/repo-lock/src/repo-lock-service.ts.
use gram_coding_agent.Base.{
  ℕ, ◌≡◌, ◌≢◌, String, true, false, none, some, not, any, if◌then◌else◌, ◌==◌, string_eq, nat_eq,
  ok, arith, Bool-cases, inl, inr,
}
use gram_coding_agent.Table.{find_where}
use gram_coding_agent.Table.Unique.{find_where-delete, any_of_find, any-delete_where}
use gram_coding_agent.Task.Status.{status_eq}
use gram_coding_agent.Task.Database.{Database, RepoLeaseRow}
use gram_coding_agent.Lock.Store as LockStore
use gram_coding_agent.Lock.Store.Laws.{IsExclusive}
use gram_coding_agent.Lock.Service.{World, LockFile, RepoLockLease, file_of, release}

file_of-away :
    (other repo_id : ℕ) (x : LockFile)
    → other ≢ repo_id
    → file_of other x ≡ true
    → file_of repo_id x ≡ false
file_of-away other repo_id x away h = ground arith

release-others :
    (repo_id other : ℕ) (token : String) (db : Database)
    → other ≢ repo_id
    → LockStore.get_lease other (LockStore.release repo_id token db).1
      ≡ LockStore.get_lease other db
unfolding LockStore.release LockStore.get_lease
release-others repo_id other token db away =
    find_where-delete (LockStore.of_repo other) (LockStore.of_lease repo_id token)
      (λ x h. ground arith) db.repo_locks

-- Where the lease table is exclusive and the lock file carries the token of the stored lease, the
-- first release by a handle succeeds and a second one does nothing; the release ends the lease and
-- removes the file where the token is the handle's own, and leaves both where it is not. The lease
-- and the lock file of every other repository stay as they were.
pub release_frees :
    (lease : RepoLockLease) (w : World) (row : RepoLeaseRow) (f : LockFile) (other : ℕ)
    → IsExclusive w.db
    → lease.released ≡ false
    → LockStore.get_lease lease.repo_id w.db ≡ some row
    → find_where (file_of lease.repo_id) w.files ≡ some f
    → f.lease_token ≡ some row.lease_token
    → other ≢ lease.repo_id
    → let (r, lease', w') = release lease w in
      (r ≡ ok tt)
      × (release lease' w' ≡ (ok tt, lease', w'))
      × (LockStore.get_lease lease.repo_id w'.db
          ≡ (if row.lease_token == lease.lease_token then none else some row))
      × (any (file_of lease.repo_id) w'.files ≡ not (row.lease_token == lease.lease_token))
      × (LockStore.get_lease other w'.db ≡ LockStore.get_lease other w.db)
      × (find_where (file_of other) w'.files ≡ find_where (file_of other) w.files)
unfolding release
release_frees lease w row f other excl live held file same away =
    let (_, lease_after) =
      LockStore.Laws.release_lem lease.repo_id lease.lease_token w.db row excl held in
    elim (Bool-cases (row.lease_token == lease.lease_token)) [
      | inl mine ↦ (
        ground arith,
        ground arith,
        rw live lease_after,
        ground (arith, any-delete_where (file_of lease.repo_id) w.files),
        rw live (release-others lease.repo_id other lease.lease_token w.db away),
        ground (
          arith,
          find_where-delete (file_of other) (file_of lease.repo_id)
              (λ x h. file_of-away other lease.repo_id x away h) w.files,
        ),
      )
      | inr foreign ↦ (
        ground arith,
        ground arith,
        rw live lease_after,
        ground (arith, any_of_find (file_of lease.repo_id) w.files f file),
        rw live (release-others lease.repo_id other lease.lease_token w.db away),
        ground arith,
      )
    ]
