-- ===== src/Scheduler/Tests.antt =====
-- A run of the scheduler: one task is dispatched, the scheduler is stopped, and the run settles.
use gram_coding_agent.Base.{
  List, ◌++◌, ◌≡◌, refl, true, false, [], ◌∷◌, none, some, string_eq, contains,
}
use gram_coding_agent.Task.Status.{queued, TaskStatus-discrete}
use gram_coding_agent.Scheduler.{
  TaskScheduler, RunnableTaskSnapshot, Answers, Listing, new_scheduler, start, tick, stop,
  fulfilled, starts, ticks, stops, fulfils, Steps, none_yet, then_step, draining, drained,
}
use gram_coding_agent.Scheduler.Laws.{IsSound, reachable-IsSound}
use gram_coding_agent.Scheduler.Stop.{IsQuiet, stopping-IsQuiet}

abbrev one_task : Listing
one_task = some (
    (record { id = "t"; status = queued }, record { claims = true; stops = false; throws = none })
    ∷ [])

abbrev busy : TaskScheduler
busy = start one_task new_scheduler

abbrev stopping : TaskScheduler
stopping = stop busy

abbrev finished : TaskScheduler
finished = fulfilled "t" (tick one_task stopping)

busy_runs : busy.running ≡ "t" ∷ []
unfolding start tick stop fulfilled TaskStatus-discrete
busy_runs = refl

stopping_waits : stopping.drain ≡ draining
unfolding start tick stop fulfilled TaskStatus-discrete
stopping_waits = refl

finished_drained : finished.drain ≡ drained
unfolding start tick stop fulfilled TaskStatus-discrete
finished_drained = refl

runs_still : contains (tick one_task stopping).running "t" ≡ true
unfolding start tick stop fulfilled TaskStatus-discrete
runs_still = refl

is_stopping : stopping.stopping ≡ true
unfolding stop
is_stopping = refl

steps : Steps new_scheduler finished
steps =
    then_step (then_step (then_step (then_step none_yet (starts one_task)) stops) (ticks one_task))
      (fulfils "t" runs_still)

reachable-IsSound_example : IsSound finished
reachable-IsSound_example = reachable-IsSound finished steps

-- the run of the first task stops the scheduler
abbrev stopping_task : List (RunnableTaskSnapshot × Answers)
stopping_task =
    (record { id = "t"; status = queued }, record { claims = true; stops = true; throws = none })
    ∷ []

abbrev next_task : List (RunnableTaskSnapshot × Answers)
next_task =
    (record { id = "u"; status = queued }, record { claims = true; stops = false; throws = none })
    ∷ []

stops_inside : (tick (some stopping_task) new_scheduler).stopping ≡ true
unfolding tick TaskStatus-discrete
stops_inside = refl

stopping-IsQuiet_example :
    IsQuiet
      (tick (some stopping_task) new_scheduler)
      (tick (some (stopping_task ++ next_task)) new_scheduler)
stopping-IsQuiet_example =
    stopping-IsQuiet stopping_task next_task new_scheduler
      (tick (some (stopping_task ++ next_task)) new_scheduler) stops_inside none_yet
