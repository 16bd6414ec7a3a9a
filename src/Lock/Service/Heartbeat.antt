-- ===== src/Lock/Service/Heartbeat.antt =====
-- A heartbeat that finds its lease gone: packages/repo-lock/src/repo-lock-service.ts and
-- lease-heartbeat.ts.
use gram_coding_agent.Base.{
  ℕ, ◌+◌, ◌≡◌, String, true, false, none, some, if◌then◌else◌, ==-refl, string_eq, nat_eq, err,
  arith, Bool-cases, inl, inr, and-true, ap, ◌∙◌,
}
use gram_coding_agent.Table.Unique.{count_where_absent}
use gram_coding_agent.Task.Status.{TaskStatus-discrete, needs_recovery, status_eq}
use gram_coding_agent.Task.Database.{TaskRow}
use gram_coding_agent.Task.Store as TaskStore
use gram_coding_agent.Task.Store.Laws.{get-transition, has_id-get}
use gram_coding_agent.Lock.Store as LockStore
use gram_coding_agent.Lock.Service.{
  World, RepoLockLease, repo_lock_lost, move_task_toward_recovery, heartbeat, tick, after_tick,
  can_move_to_recovery,
}

-- the row of a task that was moved toward recovery
abbrev recovered : ℕ → TaskRow → TaskRow
recovered now r =
    if can_move_to_recovery r.status then TaskStore.set_status needs_recovery now r else r

recovered_twice : (now : ℕ) (r : TaskRow) → recovered now (recovered now r) ≡ recovered now r
unfolding TaskStatus-discrete
recovered_twice now r = ground arith

get-move :
    (task_id : String) (now : ℕ) (w : World) (r : TaskRow)
    → TaskStore.get task_id w.db ≡ some r
    → TaskStore.get task_id (move_task_toward_recovery task_id now w).db ≡ some (recovered now r)
unfolding move_task_toward_recovery
get-move task_id now w r e =
    let own : TaskStore.has_status task_id r.status r ≡ true = at_status in
    elim (Bool-cases (can_move_to_recovery r.status)) [
      | inl movable ↦
          rw (e, move_task_toward_recovery)
            (rw movable (
              (get-transition task_id task_id r.status needs_recovery now w.db)
              ∙ rw e (ap some (rw own))))
      | inr fixed ↦ ground arith
    ]
  where
    at_status : TaskStore.has_status task_id r.status r ≡ true
    at_status = ground (arith, has_id-get task_id w.db r e, ==-refl r.status)

module _ (lease : RepoLockLease) (now : ℕ) (w : World)
    (gone : LockStore.get_lease lease.repo_id w.db ≡ none) where
  -- the state after the update of a lease that is not there
  abbrev after_beat : World
  after_beat = record w {
    db = (LockStore.heartbeat lease.repo_id lease.lease_token now (now + lease.ttl_ms) w.db).1;
  }

  heartbeat_lost :
      heartbeat lease now w
      ≡ (err (repo_lock_lost lease.repo_id), move_task_toward_recovery lease.task_id now after_beat)
  unfolding heartbeat LockStore.get_lease LockStore.heartbeat
  heartbeat_lost = rw (
      count_where_absent (LockStore.of_repo lease.repo_id)
        (LockStore.of_lease lease.repo_id lease.lease_token) (λ x h. (and-true _ _ h).0)
        w.db.repo_locks gone)

  get_lost :
      (r : TaskRow)
      → TaskStore.get lease.task_id w.db ≡ some r
      → TaskStore.get lease.task_id after_beat.db ≡ some r
  unfolding LockStore.heartbeat TaskStore.get
  get_lost r e = e

-- A beat of a running timer that finds the lease gone reports the loss, stops the timer and, where
-- the status of the stored task allows it, moves the task to `NEEDS_RECOVERY`; otherwise the task
-- stays as it is.
pub tick_lost :
    (lease : RepoLockLease) (now : ℕ) (w : World) (r : TaskRow)
    → lease.ticking ≡ true
    → LockStore.get_lease lease.repo_id w.db ≡ none
    → TaskStore.get lease.task_id w.db ≡ some r
    → let (lease', w') = tick lease now w in
      ((heartbeat lease now w).0 ≡ err (repo_lock_lost lease.repo_id))
      × (lease'.ticking ≡ false)
      × (TaskStore.get lease.task_id w'.db
          ≡ some (
              if can_move_to_recovery r.status
              then TaskStore.set_status needs_recovery now r
              else r))
unfolding tick
tick_lost lease now w r live gone e =
    let lost = heartbeat_lost lease now w gone in
    let w0 = after_beat lease now w gone in
    let w1 = move_task_toward_recovery lease.task_id now w0 in
    let once = get-move lease.task_id now w0 r (get_lost lease now w gone r e) in
    let twice =
      get-move lease.task_id now w1 (recovered now r) once ∙ ap some (recovered_twice now r) in
    let fired : tick lease now w
        ≡ (record lease { ticking = false }, move_task_toward_recovery lease.task_id now w1) =
      ap (λ b. if b then after_tick lease now (heartbeat lease now w) else (lease, w)) live
      ∙ ap (after_tick lease now) lost in
    (
      ap (λ p. p.0) lost,
      ap (λ p. p.0.ticking) fired,
      ap (λ p. TaskStore.get lease.task_id p.1.db) fired ∙ twice,
    )
