-- ===== src/Scheduler/Laws.antt =====
-- The scheduler's state at every reachable point: apps/agent/src/task-scheduler.ts.
use mathlib.Core.Bool.{false≢true}
use gram_coding_agent.Base.{
  ◌≤◌, String, ◌≡◌, refl, sym, ap, subst, Bool, true, false, ◌&&◌, ◌||◌, List, [], ◌∷◌, Option,
  none, some, Bool-cases, inl, inr, arith, contains, ◌==◌, string_eq, ==-refl,
}
use gram_coding_agent.Table.{delete_where, count_where, count_where-delete, delete_where_none}
use gram_coding_agent.Table.Unique.{count_where-any}
use gram_coding_agent.Task.Status.{
  TaskStatus, failed, queued, waiting_repo_lock, status_eq, can_transition_task_status,
}
use gram_coding_agent.Scheduler.{
  SchedulerCall, claimed, ran, audited, logged, transitioned, TaskScheduler, RunnableTaskSnapshot,
  RunFailure, Answers, new_scheduler, add_call, is_empty, stop, settle, is_task, finish,
  fail_status, fail_task, after_run, when_stops, dispatch, claim, visit, visit_all, tick,
  set_interval, start, settled, fulfilled, rejected, Step, starts, ticks, stops, fulfils, rejects,
  Steps, none_yet, then_step, Listing,
}
use gram_coding_agent.Scheduler.Agreement.{
  DrainAgrees, drain_of-agrees, settled-agrees, unsettled-agrees, open-agrees,
}

-- The tasks in flight are those whose runs have not settled, each once; the scheduler is drained
-- exactly where it stops and none is in flight.
abbrev pub IsSound : TaskScheduler → Type 0
IsSound s =
    (s.running ≡ s.in_flight)
    × (((id : String) → count_where (is_task id) s.in_flight ≤ 1)
        × DrainAgrees s.drain s.stopping s.stopped s.in_flight)

stop-IsSound : (s : TaskScheduler) → IsSound s → IsSound (stop s)
unfolding stop
stop-IsSound s (same, (once, agrees)) =
    (same, (once, drain_of-agrees s.drain s.stopping s.stopped s.in_flight agrees))

settle-IsSound :
    (l : List String) (s : TaskScheduler)
    → (is_empty l ≡ true → is_empty s.in_flight ≡ true)
    → s.running ≡ s.in_flight
    → ((id : String) → count_where (is_task id) s.in_flight ≤ 1)
    → DrainAgrees s.drain s.stopping s.stopped l
    → IsSound (settle s)
settle-IsSound l s f same once agrees = elim (Bool-cases (s.stopping && is_empty s.in_flight)) [
  | inl e ↦
      rw e (same, (once, settled-agrees s.drain s.stopping s.stopped l s.in_flight f agrees e))
  | inr e ↦
      rw e (same, (once, unsettled-agrees s.drain s.stopping s.stopped l s.in_flight f agrees e))
]

-- the tasks that were run, the last first
unfoldable pub dispatches : List SchedulerCall → List String
dispatches [] = []
dispatches (ran id ∷ calls) = id ∷ dispatches calls
dispatches (_ ∷ calls) = dispatches calls

-- what a failure leaves is the state with more calls, none of which runs a task
pub fail_task-keeps :
    (P : TaskScheduler → Type 0) (id : String) (f : RunFailure) (s : TaskScheduler)
    → ((calls : List SchedulerCall)
        → dispatches calls ≡ dispatches s.calls
        → P (record s { calls = calls }))
    → P (fail_task id f s)
unfolding fail_task dispatches
fail_task-keeps P id f s h = elim (Bool-cases f.is_repo_locked) [
  | inl e ↦ rw e (h s.calls refl)
  | inr e ↦ rw e (status_keeps f.status)
]
  where
    status_keeps :
        (o : Option TaskStatus)
        → P (add_call (logged id f.audit_takes) (add_call (audited id) (fail_status id o s)))
    status_keeps none = h (logged id f.audit_takes ∷ audited id ∷ s.calls) refl
    status_keeps (some status) = elim (Bool-cases (can_transition_task_status status failed)) [
      | inl e ↦
          rw e (
            h (logged id f.audit_takes ∷ audited id ∷ transitioned id status failed ∷ s.calls) refl)
      | inr e ↦ rw e (h (logged id f.audit_takes ∷ audited id ∷ s.calls) refl)
    ]

delete-empty :
    (id : String) (l : List String)
    → is_empty l ≡ true
    → is_empty (delete_where (is_task id) l) ≡ true
delete-empty id [] h = refl
delete-empty id (x ∷ l) h = absurd (false≢true h)

-- a run settles: both lose the task
finish-IsSound : (id : String) (s : TaskScheduler) → IsSound s → IsSound (finish id (settled id s))
unfolding finish
finish-IsSound id s (same, (once, agrees)) =
    settle-IsSound s.in_flight
      (record s {
        running = delete_where (is_task id) s.running;
        in_flight = delete_where (is_task id) s.in_flight;
      })
      (delete-empty id s.in_flight) (ap (delete_where (is_task id)) same)
      (λ key. ground (arith, count_where-delete (is_task id) (is_task key) s.in_flight, once key))
      agrees

fulfilled-IsSound : (id : String) (s : TaskScheduler) → IsSound s → IsSound (fulfilled id s)
unfolding fulfilled
fulfilled-IsSound id s h = finish-IsSound id s h

rejected-IsSound :
    (id : String) (f : RunFailure) (s : TaskScheduler) → IsSound s → IsSound (rejected id f s)
unfolding rejected
rejected-IsSound id f s h =
    fail_task-keeps (λ t. IsSound (finish id t)) id f (settled id s)
      (λ calls _. finish-IsSound id (record s { calls = calls }) h)

-- the set with one more task, none of it before
added :
    (id : String) (l : List String)
    → contains l id ≡ false
    → ((key : String) → count_where (is_task key) l ≤ 1)
    → (key : String) → count_where (is_task key) (id ∷ l) ≤ 1
added id l h once key = elim (Bool-cases (id == key)) [
  | inl e ↦
      let same = (string_eq.beq_iff id key).0 e in
      let absent : count_where (is_task key) l ≡ 0 =
        subst (λ k. count_where (is_task k) l ≡ 0) same (count_where-any (is_task id) l h) in
      rw e (ground (arith, absent))
  | inr e ↦ rw e (once key)
]

-- a run that throws at once leaves the set as it was before
removed :
    (id : String) (l : List String) → contains l id ≡ false → delete_where (is_task id) (id ∷ l) ≡ l
removed id l h =
    rw (==-refl id) (delete_where_none (is_task id) l (count_where-any (is_task id) l h))

-- the tasks are in flight that run, and the one that is being dispatched
abbrev IsLaunching : String → TaskScheduler → Type 0
IsLaunching id s =
    (s.in_flight ≡ id ∷ s.running)
    × ((contains s.running id ≡ false)
        × (((key : String) → count_where (is_task key) s.in_flight ≤ 1)
            × DrainAgrees s.drain s.stopping s.stopped s.in_flight))

when_stops-IsLaunching :
    (b : Bool) (id : String) (s : TaskScheduler)
    → IsLaunching id s
    → IsLaunching id (when_stops b s)
unfolding when_stops stop
when_stops-IsLaunching true id s (e, (absent, (once, agrees))) =
    (e, (absent, (once, drain_of-agrees s.drain s.stopping s.stopped s.in_flight agrees)))
when_stops-IsLaunching false id s h = h

after_run-IsSound :
    (id : String) (o : Option RunFailure) (s : TaskScheduler)
    → IsLaunching id s
    → IsSound (after_run id o s)
unfolding after_run finish
after_run-IsSound id none s (e, (absent, (once, agrees))) = (sym e, (once, agrees))
after_run-IsSound id (some f) s (e, (absent, (once, agrees))) =
    fail_task-keeps (λ t. IsSound (finish id t)) id f s (λ calls _. thrown calls)
  where
    left : delete_where (is_task id) s.in_flight ≡ s.running
    left = rw e (removed id s.running absent)

    nonempty : is_empty s.in_flight ≡ true → is_empty (delete_where (is_task id) s.in_flight) ≡ true
    nonempty h = delete-empty id s.in_flight h

    thrown : (calls : List SchedulerCall) → IsSound (finish id (record s { calls = calls }))
    thrown calls =
        settle-IsSound s.in_flight
          (record s { calls = calls; in_flight = delete_where (is_task id) s.in_flight }) nonempty
          (sym left)
          (λ key.
            ground (arith, count_where-delete (is_task id) (is_task key) s.in_flight, once key))
          agrees

dispatch-IsSound :
    (id : String) (a : Answers) (s : TaskScheduler)
    → IsSound s
    → s.stopping ≡ false
    → contains s.in_flight id ≡ false
    → IsSound (dispatch id a s)
unfolding dispatch
dispatch-IsSound id a s (same, (once, agrees)) going absent = after_run-IsSound id a.throws _ (
    when_stops-IsLaunching a.stops id
      (add_call (ran id) (record s { in_flight = id ∷ s.in_flight }))
      (
        ap (λ l. id ∷ l) (sym same),
        (
          rw same absent,
          (
            added id s.in_flight absent once,
            open-agrees s.drain s.stopping s.stopped s.in_flight (id ∷ s.in_flight) going agrees,
          ),
        ),
      ))

claim-IsSound :
    (id : String) (a : Answers) (s : TaskScheduler)
    → IsSound s
    → s.stopping ≡ false
    → contains s.in_flight id ≡ false
    → IsSound (claim id a s)
unfolding claim
claim-IsSound id a s h going absent = elim (Bool-cases a.claims) [
  | inl e ↦ rw e (dispatch-IsSound id a (add_call (claimed id) s) h going absent)
  | inr e ↦ rw e h
]

visit-IsSound :
    (c : RunnableTaskSnapshot) (a : Answers) (s : TaskScheduler)
    → IsSound s
    → s.stopping ≡ false
    → IsSound (visit c a s)
unfolding visit
visit-IsSound c a s h going = elim (Bool-cases (contains s.in_flight c.id)) [
  | inl e ↦ rw e h
  | inr absent ↦ elim (Bool-cases (c.status == queued)) [
    | inl e ↦ rw (absent, e) (claim-IsSound c.id a s h going absent)
    | inr e ↦ elim (Bool-cases (c.status == waiting_repo_lock)) [
      | inl k ↦ rw (absent, e, k) (dispatch-IsSound c.id a s h going absent)
      | inr k ↦ rw (absent, e, k) h
    ]
  ]
]

visit_all-IsSound :
    (l : List (RunnableTaskSnapshot × Answers)) (s : TaskScheduler)
    → IsSound s
    → IsSound (visit_all l s)
unfolding visit_all
visit_all-IsSound [] s h = h
visit_all-IsSound ((c, a) ∷ rest) s h = elim (Bool-cases (s.stopping || s.stopped)) [
  | inl e ↦ rw e h
  | inr e ↦ rw e (visit_all-IsSound rest (visit c a s) (visit-IsSound c a s h (ground (arith, e))))
]

tick-IsSound : (l : Listing) (s : TaskScheduler) → IsSound s → IsSound (tick l s)
unfolding tick
tick-IsSound none s h = h
tick-IsSound (some l) s h = elim (Bool-cases (s.stopping || s.stopped)) [
  | inl e ↦ rw e h
  | inr e ↦ rw e (visit_all-IsSound l s h)
]

set_interval-IsSound : (l : Listing) (s : TaskScheduler) → IsSound s → IsSound (set_interval l s)
set_interval-IsSound none s h = h
set_interval-IsSound (some l) s h = elim (Bool-cases (s.stopping || s.stopped)) [
  | inl e ↦ rw e h
  | inr e ↦ rw e h
]

start-IsSound : (l : Listing) (s : TaskScheduler) → IsSound s → IsSound (start l s)
unfolding start
start-IsSound l s h = elim (Bool-cases (s.started || s.stopping || s.stopped)) [
  | inl e ↦ rw e h
  | inr e ↦ rw e (
      set_interval-IsSound l (tick l (record s { started = true }))
        (tick-IsSound l (record s { started = true }) h))
]

step-IsSound : (s t : TaskScheduler) → IsSound s → Step s t → IsSound t
step-IsSound s _ h (starts l) = start-IsSound l s h
step-IsSound s _ h (ticks l) = tick-IsSound l s h
step-IsSound s _ h stops = stop-IsSound s h
step-IsSound s _ h (fulfils id m) = fulfilled-IsSound id s h
step-IsSound s _ h (rejects id f m) = rejected-IsSound id f s h

-- In every state that a new scheduler reaches, by starts, ticks, stops and settled runs in any order,
-- the tasks in flight are exactly those whose runs have not settled, each once; and the drain is
-- resolved, with `stopped`, exactly where the scheduler stops and no run is left.
pub reachable-IsSound : (s : TaskScheduler) → Steps new_scheduler s → IsSound s
reachable-IsSound _ none_yet = (refl, (λ id. omega arith, (refl, refl)))
reachable-IsSound _ (then_step {t = t} {u = u} steps k) =
    step-IsSound t u (reachable-IsSound t steps) k
