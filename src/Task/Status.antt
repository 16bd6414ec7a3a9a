-- ===== src/Task/Status.antt =====
-- The statuses of a task and the transitions between them: packages/domain/src/task.ts.
pub mod Paths
use gram_coding_agent.Base.{
  ℕ, ◌+◌, ◌<◌, ◌≡◌, Bool, true, false, List, [], ◌∷◌, ◌++◌, Eq, ◌==◌, dec_beq, dec_beq_iff,
  contains,
}

pub data TaskStatus : Type 0 where
  queued waiting_repo_lock preparing running verifying publishing : TaskStatus
  needs_approval needs_recovery completed failed interrupted cancelled : TaskStatus

unfoldable pub TaskStatus-discrete : Discrete TaskStatus
TaskStatus-discrete = hlevel

abbrev pub status_beq : TaskStatus → TaskStatus → Bool
status_beq a b = dec_beq TaskStatus-discrete a b

instance abbrev pub status_eq : Eq TaskStatus
status_eq = record { beq = status_beq; beq_iff = dec_beq_iff TaskStatus-discrete }

abbrev pub exceptional_transitions : List TaskStatus
exceptional_transitions = needs_approval ∷ needs_recovery ∷ failed ∷ interrupted ∷ cancelled ∷ []

-- the table `taskTransitions`
abbrev pub task_transitions : TaskStatus → List TaskStatus
task_transitions queued = waiting_repo_lock ∷ cancelled ∷ []
task_transitions waiting_repo_lock = preparing ∷ exceptional_transitions
task_transitions preparing = running ∷ exceptional_transitions
task_transitions running = verifying ∷ exceptional_transitions
task_transitions verifying = running ∷ publishing ∷ exceptional_transitions
task_transitions publishing = running ∷ completed ∷ exceptional_transitions
task_transitions needs_approval =
    waiting_repo_lock ∷ preparing ∷ running ∷ verifying ∷ publishing ∷ failed ∷ cancelled ∷ []
task_transitions needs_recovery =
    waiting_repo_lock ∷ preparing ∷ running ∷ verifying ∷ publishing ∷ failed ∷ cancelled ∷ []
task_transitions completed = []
task_transitions failed = queued ∷ []
task_transitions interrupted =
    waiting_repo_lock ∷ preparing ∷ running ∷ verifying ∷ publishing ∷ needs_recovery ∷ failed
    ∷ cancelled ∷ []
task_transitions cancelled = []

unfoldable pub can_transition_task_status : TaskStatus → TaskStatus → Bool
unfolding TaskStatus-discrete
can_transition_task_status from to = contains (task_transitions from) to
