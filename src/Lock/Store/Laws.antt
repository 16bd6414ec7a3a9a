-- ===== src/Lock/Store/Laws.antt =====
-- The lease table under the methods of packages/persistence/src/repositories/lock-repository.ts.
use gram_coding_agent.Base.{
  ℕ, ◌≤◌, ◌≡◌, refl, String, Bool, false, ◌||◌, [], ◌∷◌, ◌++◌, none, some, if◌then◌else◌, ◌==◌,
  ==-refl, string_eq, nat_eq, nat_beq_iff, Result, ok, err, arith, Bool-cases, inl, inr, and-true,
  ◌∙◌, ◌⊎◌,
}
use gram_coding_agent.Table.{
  find_where, update_where, count_where, count_where-append, count_where-update, count_where-delete,
  find_where-some,
}
use gram_coding_agent.Table.Unique.{
  find_where-append, find_where_of_any, count_where_of_any, count_where_key, find_where-delete_key,
}
use gram_coding_agent.Task.Status.{preparing}
use gram_coding_agent.Task.Database.{Database, RepoLeaseRow}
use gram_coding_agent.Task.Store.{set_status}
use gram_coding_agent.Task.Store.Laws.{settle_err}
use gram_coding_agent.Lock.Store.{
  LockError, lease_conflict, task_not_waiting, AcquireRepoLeaseInput, of_repo, of_lease, get_lease,
  lease_row, violates, is_waiting_for, acquire_body, acquire_and_prepare, heartbeat, release,
}

-- One lease for a repository.
abbrev pub IsExclusive : Database → Type 0
IsExclusive db = (repo_id : ℕ) → count_where (of_repo repo_id) db.repo_locks ≤ 1

-- the database after a lease is stored and its task prepared
abbrev pub leased : AcquireRepoLeaseInput → Database → Database
leased value db = record db {
  repo_locks = db.repo_locks ++ lease_row value ∷ [];
  tasks =
      update_where (is_waiting_for value.task_id value.repo_id)
        (set_status preparing value.acquired_at) db.tasks;
}

module _ (value : AcquireRepoLeaseInput) (db : Database) where
  -- An acquisition that throws leaves no lease and no changed task behind.
  pub acquire_and_prepare_atomic :
      (e : LockError) (db' : Database) → acquire_and_prepare value db ≡ (err e, db') → db' ≡ db
  unfolding acquire_and_prepare
  acquire_and_prepare_atomic e db' h = settle_err db (acquire_body value db) e db' h

  abbrev clash : RepoLeaseRow → Bool
  clash l = l.repo_id == value.repo_id || l.lease_token == value.lease_token

  no_lease : violates value db ≡ false → find_where (of_repo value.repo_id) db.repo_locks ≡ none
  no_lease h =
      find_where_of_any (of_repo value.repo_id) clash (λ x q. rw q) db.repo_locks (ground arith)

  found :
      violates value db ≡ false
      → find_where (of_repo value.repo_id) (db.repo_locks ++ lease_row value ∷ [])
        ≡ some (lease_row value)
  found h =
      find_where-append (of_repo value.repo_id) db.repo_locks (lease_row value ∷ [])
      ∙ rw (no_lease h) (rw (==-refl value.repo_id))

  grown : violates value db ≡ false → IsExclusive db → IsExclusive (leased value db)
  grown h excl repo_id =
      let more = count_where-append (of_repo repo_id) db.repo_locks (lease_row value ∷ []) in
      elim (Bool-cases (value.repo_id == repo_id)) [
        | inl e ↦
            let free =
              count_where_of_any (of_repo repo_id) clash
                (λ x q. ground (arith, nat_beq_iff x.repo_id repo_id)) db.repo_locks
                (ground arith) in
            rw more (rw (free, e) (omega arith))
        | inr e ↦ rw more (rw e (omega (arith, excl repo_id)))
      ]

  -- how the acquisition goes on once the lease is inserted
  abbrev after_insert : Result LockError RepoLeaseRow × Database
  after_insert =
      if count_where (is_waiting_for value.task_id value.repo_id) db.tasks == 1
      then (ok (lease_row value), leased value db)
      else (err (task_not_waiting value.task_id), db)

  one_each : violates value db ≡ false → IsExclusive db → IsExclusive after_insert.1
  one_each h excl =
      elim (Bool-cases (count_where (is_waiting_for value.task_id value.repo_id) db.tasks == 1)) [
        | inl e ↦ rw e (grown h excl)
        | inr e ↦ rw e excl
      ]

  -- An acquisition reports a conflict where a constraint is violated, and reports the task where no
  -- single task of its id waits for the repository, both without change; otherwise it stores its own
  -- lease and prepares the task.
  pub acquire_and_prepare_lem : acquire_and_prepare value db ≡ (
      if violates value db
      then (err (lease_conflict value.repo_id), db)
      else if count_where (is_waiting_for value.task_id value.repo_id) db.tasks == 1
      then (ok (lease_row value), leased value db)
      else (err (task_not_waiting value.task_id), db))
  unfolding acquire_and_prepare
  acquire_and_prepare_lem = elim (Bool-cases (violates value db)) [
    | inl bad ↦ rw bad (ground arith)
    | inr good ↦
        rw good
          (elim (Bool-cases
            (count_where (is_waiting_for value.task_id value.repo_id) db.tasks == 1)) [
              | inl waits ↦ ground (arith, found good)
              | inr gone ↦ ground arith
            ])
  ]

  -- An acquisition keeps the lease table exclusive, and where the repository has a lease, it reports
  -- the conflict and changes nothing.
  pub acquire_and_prepare-IsExclusive :
      IsExclusive db
      → IsExclusive (acquire_and_prepare value db).1
        × ((get_lease value.repo_id db ≡ none)
            ⊎ ((acquire_and_prepare value db) ≡ (err (lease_conflict value.repo_id), db)))
  unfolding get_lease
  acquire_and_prepare-IsExclusive excl =
      rw acquire_and_prepare_lem (elim (Bool-cases (violates value db)) [
        | inl bad ↦ (rw bad excl, inr (rw bad))
        | inr good ↦ (rw good (one_each good excl), inl (no_lease good))
      ])

  pub acquire_and_prepare_ok :
      (a : RepoLeaseRow)
      → (acquire_and_prepare value db).0 ≡ ok a
      → IsExclusive db
      → (acquire_and_prepare value db ≡ (ok (lease_row value), leased value db))
        × (get_lease value.repo_id db ≡ none)
        × (get_lease value.repo_id (leased value db) ≡ some (lease_row value))
        × IsExclusive (leased value db)
  unfolding get_lease
  acquire_and_prepare_ok a h excl = elim (Bool-cases (violates value db)) [
    | inl bad ↦ ground (arith, acquire_and_prepare_lem)
    | inr good ↦
        (ground (arith, acquire_and_prepare_lem), no_lease good, found good, grown good excl)
  ]

-- A heartbeat or a release by any token keeps the table exclusive.
pub heartbeat-IsExclusive :
    (repo_id : ℕ) (token : String) (now until : ℕ) (db : Database)
    → IsExclusive db
    → IsExclusive (heartbeat repo_id token now until db).1
unfolding heartbeat
heartbeat-IsExclusive repo_id token now until db excl n =
    rw
      (count_where-update (of_repo n) (of_lease repo_id token)
        (λ l. record l { heartbeat_at = now; lease_until = until }) (λ l _. refl) db.repo_locks)
      (excl n)

pub release-IsExclusive :
    (repo_id : ℕ) (token : String) (db : Database)
    → IsExclusive db
    → IsExclusive (release repo_id token db).1
unfolding release
release-IsExclusive repo_id token db excl n =
    omega (arith, count_where-delete (of_lease repo_id token) (of_repo n) db.repo_locks, excl n)

-- Where the lease table is exclusive, a release with the token of a repository's lease answers
-- true and removes it, and one with another token answers false and leaves it.
pub release_lem :
    (repo_id : ℕ) (token : String) (db : Database) (l : RepoLeaseRow)
    → IsExclusive db
    → get_lease repo_id db ≡ some l
    → ((release repo_id token db).0 ≡ (l.lease_token == token))
      × (get_lease repo_id (release repo_id token db).1
          ≡ (if l.lease_token == token then none else some l))
unfolding release get_lease
release_lem repo_id token db l excl e =
    let key =
      count_where_key (of_repo repo_id) (of_lease repo_id token) (λ x h. (and-true _ _ h).0)
        db.repo_locks l (excl repo_id) e in
    let here = find_where-some (of_repo repo_id) db.repo_locks l e in
    (
      ground (arith, key, here),
      find_where-delete_key (of_repo repo_id) (of_lease repo_id token) (λ x h. (and-true _ _ h).0)
            db.repo_locks l (excl repo_id) e
          ∙ ground (arith, here),
    )
