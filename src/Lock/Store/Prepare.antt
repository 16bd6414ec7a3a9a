-- ===== src/Lock/Store/Prepare.antt =====
-- What an acquisition does to the task and to the lease table:
-- packages/persistence/src/repositories/lock-repository.ts.
use gram_coding_agent.Base.{
  ℕ, ◌≤◌, ◌≡◌, refl, ap, String, Bool, true, false, ◌&&◌, ◌||◌, List, [], ◌∷◌, ◌++◌, Option, none,
  some, any, ◌==◌, string_eq, nat_eq, ok, err, arith, Bool-cases, Option-cases, inl, inr, and-true,
  ◌∙◌, ◌⊎◌, ◌≢◌, sym, contains, ==-refl,
}
use mathlib.Core.Bool.{false≢true}
use gram_coding_agent.Table.{find_where, count_where, find_where-none, find_where-some}
use gram_coding_agent.Table.Unique.{
  find_where-update, count_where_key, count_where_absent, find_where_of_any,
}
use gram_coding_agent.Task.Status.{waiting_repo_lock, preparing, status_eq}
use gram_coding_agent.Task.Database.{Database, TaskRow, RepoLeaseRow}
use gram_coding_agent.Task.Store.{has_id, get, set_status}
use gram_coding_agent.Lock.Store.{
  LockError, lease_conflict, task_not_waiting, AcquireRepoLeaseInput, lease_row, violates,
  is_bound_to, is_waiting_for, acquire_and_prepare,
}
use gram_coding_agent.Lock.Store.Laws.{leased, acquire_and_prepare_lem}

bound_to : (repo_id : ℕ) (o : Option ℕ) → is_bound_to repo_id o ≡ true → o ≡ some repo_id
bound_to repo_id none h = ground arith
bound_to repo_id (some n) h = ap some ((nat_eq.beq_iff n repo_id).0 h)

no_clash :
    {A : Type 0} (q p : A → Bool)
    → ((x : A) → q x ≡ true → p x ≡ true)
    → (t : List A) → any p t ≡ false
    → any q t ≡ false
no_clash q p h [] e = refl
no_clash q p h (x ∷ t) e = ground (arith, h x, no_clash q p h t)

waiting-has_id :
    (task_id : String) (repo_id : ℕ) (r : TaskRow)
    → is_waiting_for task_id repo_id r ≡ true
    → has_id task_id r ≡ true
waiting-has_id task_id repo_id r h = ground arith

waiting_row :
    (task_id : String) (repo_id : ℕ) (tasks : List TaskRow)
    → count_where (has_id task_id) tasks ≤ 1
    → count_where (is_waiting_for task_id repo_id) tasks ≡ 1
    → (r : TaskRow) × (find_where (has_id task_id) tasks ≡ some r)
      × (is_waiting_for task_id repo_id r ≡ true)
waiting_row task_id repo_id tasks one waits =
    elim (Option-cases (find_where (has_id task_id) tasks)) [
      | inl missing ↦
          let gone =
            count_where_absent (has_id task_id) (is_waiting_for task_id repo_id)
              (waiting-has_id task_id repo_id) tasks missing in
          ground (arith, gone)
      | inr (r, stored) ↦
          let counted =
            count_where_key (has_id task_id) (is_waiting_for task_id repo_id)
              (waiting-has_id task_id repo_id) tasks r one stored in
          (r, stored, ground (arith, counted))
    ]

-- the task and the table that a successful acquisition needs, and what it leaves
abbrev pub IsPrepared : AcquireRepoLeaseInput → Database → RepoLeaseRow → Database → Type 0
IsPrepared value db l db' =
    ((r : TaskRow) × (get value.task_id db ≡ some r)
      × (r.status ≡ waiting_repo_lock)
      × (r.repo_id ≡ some value.repo_id)
      × (get value.task_id db'
          ≡ some (record r { status = preparing; updated_at = value.acquired_at })))
    × (any (λ x. x.repo_id == value.repo_id) db.repo_locks ≡ false)
    × (any (λ x. x.lease_token == value.lease_token) db.repo_locks ≡ false)
    × (db'.repo_locks ≡ db.repo_locks ++ l ∷ [])
    × (l.repo_id ≡ value.repo_id)
    × (l.owner_task_id ≡ value.task_id)
    × (l.lease_token ≡ value.lease_token)

leased-IsPrepared :
    (value : AcquireRepoLeaseInput) (db : Database)
    → count_where (has_id value.task_id) db.tasks ≤ 1
    → violates value db ≡ false
    → count_where (is_waiting_for value.task_id value.repo_id) db.tasks ≡ 1
    → IsPrepared value db (lease_row value) (leased value db)
unfolding get
leased-IsPrepared value db one good waits =
    let p = is_waiting_for value.task_id value.repo_id in
    let (r, stored, is_p) = waiting_row value.task_id value.repo_id db.tasks one waits in
    let after =
      find_where-update (has_id value.task_id) p (set_status preparing value.acquired_at)
        (λ x _. refl) db.tasks in
    let (key, waiting) =
      and-true (r.id == value.task_id && is_bound_to value.repo_id r.repo_id)
        (r.status == waiting_repo_lock) is_p in
    let (_, bound) = and-true (r.id == value.task_id) (is_bound_to value.repo_id r.repo_id) key in
    let free : any (λ x. x.repo_id == value.repo_id || x.lease_token == value.lease_token)
          db.repo_locks
        ≡ false =
      ground arith in
    (
      (
        r,
        stored,
        (status_eq.beq_iff r.status waiting_repo_lock).0 waiting,
        bound_to value.repo_id r.repo_id bound,
        after ∙ rw stored (rw is_p refl),
      ),
      no_clash (λ x. x.repo_id == value.repo_id) _ (λ x h. rw h refl) db.repo_locks free,
      no_clash (λ x. x.lease_token == value.lease_token) _ (λ x h. ground arith) db.repo_locks free,
      refl,
      refl,
      refl,
      refl,
    )

-- a lease, a repository or a task that stands against the acquisition
abbrev pub IsConflict : AcquireRepoLeaseInput → Database → Type 0
IsConflict value db =
    (any (λ x. x.repo_id == value.repo_id) db.repo_locks ≡ true)
    ⊎ (any (λ x. x.lease_token == value.lease_token) db.repo_locks ≡ true)
    ⊎ (contains db.repositories value.repo_id ≡ false)
    ⊎ (get value.task_id db ≡ none)

-- why an acquisition is refused
abbrev pub IsRefused : AcquireRepoLeaseInput → Database → LockError → Type 0
IsRefused value db e =
    ((e ≡ lease_conflict value.repo_id) × IsConflict value db)
    ⊎ ((e ≡ task_not_waiting value.task_id)
        × ((r : TaskRow) × (get value.task_id db ≡ some r)
            × ((r.status ≢ waiting_repo_lock) ⊎ (r.repo_id ≢ some value.repo_id))))

any-either :
    {A : Type 0} (q p : A → Bool) (t : List A) → any (λ x. q x || p x) t ≡ (any q t || any p t)
any-either q p [] = refl
any-either q p (x ∷ t) = ground (arith, any-either q p t)

any-none : {A : Type 0} (q : A → Bool) (t : List A) → any q t ≡ false → find_where q t ≡ none
any-none q t h = find_where_of_any q q (λ x k. k) t h

violates-IsConflict :
    (value : AcquireRepoLeaseInput) (db : Database) → violates value db ≡ true → IsConflict value db
unfolding get
violates-IsConflict value db h =
    let split =
      any-either (λ x. x.repo_id == value.repo_id) (λ x. x.lease_token == value.lease_token)
        db.repo_locks in
    elim (Bool-cases (any (λ x. x.repo_id == value.repo_id) db.repo_locks)) [
      | inl e ↦ inl e
      | inr no_repo ↦
          elim (Bool-cases (any (λ x. x.lease_token == value.lease_token) db.repo_locks)) [
            | inl e ↦ inr (inl e)
            | inr no_token ↦ elim (Bool-cases (contains db.repositories value.repo_id)) [
              | inr e ↦ inr (inr (inl e))
              | inl known ↦
                  inr (inr (inr (any-none (λ x. x.id == value.task_id) db.tasks (ground arith))))
            ]
          ]
    ]

not_waiting :
    (value : AcquireRepoLeaseInput) (db : Database)
    → count_where (has_id value.task_id) db.tasks ≤ 1
    → violates value db ≡ false
    → (count_where (is_waiting_for value.task_id value.repo_id) db.tasks == 1) ≡ false
    → (r : TaskRow) × (get value.task_id db ≡ some r)
      × ((r.status ≢ waiting_repo_lock) ⊎ (r.repo_id ≢ some value.repo_id))
unfolding get
not_waiting value db one good gone =
    elim (Option-cases (find_where (has_id value.task_id) db.tasks)) [
      | inl missing ↦
          let none_such = find_where-none (has_id value.task_id) db.tasks missing in
          let present : any (has_id value.task_id) db.tasks ≡ true = ground arith in
          absurd_count (has_id value.task_id) db.tasks none_such present
      | inr (r, stored) ↦
          let counted =
            count_where_key (has_id value.task_id) (is_waiting_for value.task_id value.repo_id)
              (waiting-has_id value.task_id value.repo_id) db.tasks r one stored in
          let own = find_where-some (has_id value.task_id) db.tasks r stored in
          let no_match : is_waiting_for value.task_id value.repo_id r ≡ false = ground arith in
          (r, stored, either r own no_match)
    ]
  where
    absurd_count :
        {B : Type 0} (q : TaskRow → Bool) (t : List TaskRow)
        → count_where q t ≡ 0
        → any q t ≡ true
        → B
    absurd_count q [] e h = ground arith
    absurd_count q (x ∷ t) e h = elim (Bool-cases (q x)) [
      | inl k ↦ ground arith
      | inr k ↦ absurd_count q t (ground arith) (ground arith)
    ]

    either :
        (r : TaskRow)
        → has_id value.task_id r ≡ true
        → is_waiting_for value.task_id value.repo_id r ≡ false
        → (r.status ≢ waiting_repo_lock) ⊎ (r.repo_id ≢ some value.repo_id)
    either r own h = elim (Bool-cases (r.status == waiting_repo_lock)) [
      | inr e ↦
          inl (λ same. false≢true (sym e ∙ (status_eq.beq_iff r.status waiting_repo_lock).1 same))
      | inl e ↦ inr (λ same.
          let unbound : is_bound_to value.repo_id r.repo_id ≡ false = ground arith in
          false≢true (sym unbound ∙ ap (is_bound_to value.repo_id) same ∙ ==-refl value.repo_id))
    ]

-- Where the id of its task is the id of at most one, an acquisition that succeeds found that task
-- stored, bound to the repository and `WAITING_REPO_LOCK`, and found no lease of the repository and
-- none with its token; it makes the task `PREPARING`, and adds the one lease that it returns, which
-- names the repository, the task and the token. An acquisition that fails changes nothing; it reports
-- a conflict only where there is such a lease or the repository or the task is not stored, and reports
-- the task only where that has another status or is not bound to the repository.
pub acquire_and_prepare_prepares :
    (value : AcquireRepoLeaseInput) (db : Database)
    → count_where (has_id value.task_id) db.tasks ≤ 1
    → ((e : LockError) × (acquire_and_prepare value db ≡ (err e, db)) × IsRefused value db e)
      ⊎ ((l : RepoLeaseRow) × (db' : Database) × (acquire_and_prepare value db ≡ (ok l, db'))
          × IsPrepared value db l db')
acquire_and_prepare_prepares value db one = elim (Bool-cases (violates value db)) [
  | inl bad ↦ inl (
    lease_conflict value.repo_id,
    acquire_and_prepare_lem value db ∙ rw bad refl,
    inl (refl, violates-IsConflict value db bad),
  )
  | inr good ↦
      elim (Bool-cases (count_where (is_waiting_for value.task_id value.repo_id) db.tasks == 1)) [
        | inr gone ↦ inl (
          task_not_waiting value.task_id,
          acquire_and_prepare_lem value db ∙ rw (good, gone) refl,
          inr (refl, not_waiting value db one good gone),
        )
        | inl waits ↦ inr (
          lease_row value,
          leased value db,
          acquire_and_prepare_lem value db ∙ rw (good, waits) refl,
          leased-IsPrepared value db one good (
              (nat_eq.beq_iff (count_where (is_waiting_for value.task_id value.repo_id) db.tasks)
                  1).0
                waits),
        )
      ]
]
