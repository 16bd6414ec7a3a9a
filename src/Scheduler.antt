-- ===== src/Scheduler.antt =====
-- `TaskScheduler`: apps/agent/src/task-scheduler.ts. What the ports answer to a call is an argument
-- of the step that makes it; the logger does not throw. A promise that `run` returned stands in `running` until it settles.
pub mod Agreement
pub mod Laws
pub mod Stop
mod Tests
use gram_coding_agent.Base.{
  ℕ, String, Bool, true, false, ◌&&◌, ◌||◌, not, List, [], ◌∷◌, ◌++◌, Option, none, some,
  if◌then◌else◌, ◌==◌, string_eq, contains, ◌≡◌,
}
use gram_coding_agent.Table.{delete_where}
use gram_coding_agent.Task.Status.{
  TaskStatus, queued, waiting_repo_lock, failed, status_eq, can_transition_task_status,
}

pub data Drain : Type 0 where
  -- `drain` is null, is a promise that waits for `drainResolve`, is a resolved promise
  no_drain draining drained : Drain

-- calls on the ports
pub data SchedulerCall : Type 0 where
  claimed ran audited : String → SchedulerCall
  -- the error that is logged: that of the run, or where false that of the audit
  logged : String → Bool → SchedulerCall
  transitioned : String → TaskStatus → TaskStatus → SchedulerCall

pub record TaskScheduler : Type 0 where
  pub in_flight : List String
  pub started : Bool
  pub stopping : Bool
  pub stopped : Bool
  -- the interval is set
  pub handle : Bool
  pub drain : Drain
  -- the promises of `run` that have not settled, and the calls made, the last first
  pub running : List String
  pub calls : List SchedulerCall

pub record RunnableTaskSnapshot : Type 0 where
  pub id : String
  pub status : TaskStatus

-- a thrown or rejected value: whether it is a `RepoLockedError`, what `get` then answers (null where
-- it throws), and whether the audit takes the event
pub record RunFailure : Type 0 where
  pub is_repo_locked : Bool
  pub status : Option TaskStatus
  pub audit_takes : Bool

-- the answers for one candidate: the claim succeeds, `run` calls `stop` before it returns, `run`
-- throws
pub record Answers : Type 0 where
  pub claims : Bool
  pub stops : Bool
  pub throws : Option RunFailure

abbrev pub new_scheduler : TaskScheduler
new_scheduler = record {
  in_flight = [];
  started = false;
  stopping = false;
  stopped = false;
  handle = false;
  drain = no_drain;
  running = [];
  calls = [];
}

abbrev pub add_call : SchedulerCall → TaskScheduler → TaskScheduler
add_call c s = record s { calls = c ∷ s.calls }

abbrev pub is_empty : List String → Bool
is_empty [] = true
is_empty (_ ∷ _) = false

abbrev pub drain_of : Drain → List String → Drain
drain_of no_drain [] = drained
drain_of no_drain (_ ∷ _) = draining
drain_of draining _ = draining
drain_of drained _ = drained

-- `stopped` is set where there is no drain yet and nothing is in flight
abbrev pub stopped_by : Drain → List String → Bool → Bool
stopped_by no_drain [] stopped = true
stopped_by _ _ stopped = stopped

unfoldable pub stop : TaskScheduler → TaskScheduler
stop s = record s {
  stopping = true;
  handle = false;
  stopped = stopped_by s.drain s.in_flight s.stopped;
  drain = drain_of s.drain s.in_flight;
}

abbrev pub resolved : Drain → Drain
resolved draining = drained
resolved d = d

-- `finish`, once the set has lost the task
abbrev pub settle : TaskScheduler → TaskScheduler
settle s =
    if s.stopping && is_empty s.in_flight
    then record s { stopped = true; drain = resolved s.drain }
    else s

abbrev pub is_task : String → String → Bool
is_task id x = x == id

unfoldable pub finish : String → TaskScheduler → TaskScheduler
finish id s = settle (record s { in_flight = delete_where (is_task id) s.in_flight })

abbrev pub fail_status : String → Option TaskStatus → TaskScheduler → TaskScheduler
fail_status id none s = s
fail_status id (some status) s =
    if can_transition_task_status status failed
    then add_call (transitioned id status failed) s
    else s

unfoldable pub fail_task : String → RunFailure → TaskScheduler → TaskScheduler
fail_task id f s =
    if f.is_repo_locked
    then s
    else add_call (logged id f.audit_takes) (add_call (audited id) (fail_status id f.status s))

-- what `run` leaves: a promise, or the error that it throws
unfoldable pub after_run : String → Option RunFailure → TaskScheduler → TaskScheduler
unfolding finish fail_task
after_run id none s = record s { running = id ∷ s.running }
after_run id (some f) s = finish id (fail_task id f s)

unfoldable pub when_stops : Bool → TaskScheduler → TaskScheduler
unfolding stop
when_stops true s = stop s
when_stops false s = s

unfoldable pub dispatch : String → Answers → TaskScheduler → TaskScheduler
unfolding after_run when_stops
dispatch id a s =
    after_run id a.throws
      (when_stops a.stops (add_call (ran id) (record s { in_flight = id ∷ s.in_flight })))

unfoldable pub claim : String → Answers → TaskScheduler → TaskScheduler
unfolding dispatch
claim id a s = if a.claims then dispatch id a (add_call (claimed id) s) else s

-- one turn of the loop over the candidates
unfoldable pub visit : RunnableTaskSnapshot → Answers → TaskScheduler → TaskScheduler
unfolding claim dispatch
visit candidate a s =
    if contains s.in_flight candidate.id
    then s
    else if candidate.status == queued
    then claim candidate.id a s
    else if candidate.status == waiting_repo_lock
    then dispatch candidate.id a s
    else s

unfoldable pub visit_all : List (RunnableTaskSnapshot × Answers) → TaskScheduler → TaskScheduler
unfolding visit
visit_all [] s = s
visit_all ((candidate, a) ∷ rest) s =
    if s.stopping || s.stopped then s else visit_all rest (visit candidate a s)

-- what `listRunnable` lists with the answers for each candidate, where it does not throw
abbrev pub Listing : Type 0
Listing = Option (List (RunnableTaskSnapshot × Answers))

unfoldable pub tick : Listing → TaskScheduler → TaskScheduler
unfolding visit_all
tick none s = s
tick (some candidates) s = if s.stopping || s.stopped then s else visit_all candidates s

-- not reached where the tick throws
abbrev pub set_interval : Listing → TaskScheduler → TaskScheduler
set_interval none s = s
set_interval (some _) s = if s.stopping || s.stopped then s else record s { handle = true }

unfoldable pub start : Listing → TaskScheduler → TaskScheduler
unfolding tick
start listing s =
    if s.started || s.stopping || s.stopped
    then s
    else set_interval listing (tick listing (record s { started = true }))

-- a promise settles: it is no longer among those that run
abbrev pub settled : String → TaskScheduler → TaskScheduler
settled id s = record s { running = delete_where (is_task id) s.running }

unfoldable pub fulfilled : String → TaskScheduler → TaskScheduler
unfolding finish
fulfilled id s = finish id (settled id s)

unfoldable pub rejected : String → RunFailure → TaskScheduler → TaskScheduler
unfolding finish fail_task
rejected id f s = finish id (fail_task id f (settled id s))

-- The steps of the event loop. Only a promise that runs settles.
pub data Step : TaskScheduler → TaskScheduler → Type 0 where
  starts : {s : TaskScheduler} (l : Listing) → Step s (start l s)
  ticks : {s : TaskScheduler} (l : Listing) → Step s (tick l s)
  stops : {s : TaskScheduler} → Step s (stop s)
  fulfils :
      {s : TaskScheduler} (id : String) → contains s.running id ≡ true → Step s (fulfilled id s)
  rejects :
      {s : TaskScheduler} (id : String) (f : RunFailure)
      → contains s.running id ≡ true
      → Step s (rejected id f s)

pub data Steps : TaskScheduler → TaskScheduler → Type 0 where
  none_yet : {s : TaskScheduler} → Steps s s
  then_step : {s t u : TaskScheduler} → Steps s t → Step t u → Steps s u
