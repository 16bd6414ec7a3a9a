-- ===== src/Task/Status/Paths.antt =====
-- Lives of a task: the allowed transitions of packages/domain/src/task.ts, with the completion of a
-- local command, which packages/persistence/src/repositories/task-repository.ts does beside the table.
use gram_coding_agent.Base.{
  ◌≡◌, ◌&&◌, true, false, List, [], ◌∷◌, ◌≢◌, arith, ◌↔◌, ◌⊎◌, inl, inr, contains, any, Bool, refl,
  subst, Bool-cases, ◌==◌, length, ◌≤◌,
}
use gram_coding_agent.Task.Status.{
  TaskStatus, queued, waiting_repo_lock, preparing, running, verifying, publishing, needs_approval,
  needs_recovery, completed, failed, interrupted, cancelled, can_transition_task_status, status_eq,
  TaskStatus-discrete,
}

-- A path to the status t, and the statuses that it enters, in order.
pub data StatusPath (t : TaskStatus) : TaskStatus → List TaskStatus → Type 0 where
  here : StatusPath t t []
  step :
      {s u : TaskStatus} {l : List TaskStatus}
      → can_transition_task_status s u ≡ true
      → StatusPath t u l
      → StatusPath t s (u ∷ l)

-- `COMPLETED` is entered from `PUBLISHING` and from no other status.
pub completed_only_from_publishing :
    (s : TaskStatus) → (can_transition_task_status s completed ≡ true) ↔ (s ≡ publishing)
unfolding can_transition_task_status
completed_only_from_publishing s = ground arith

cancelled-terminal : (s : TaskStatus) → can_transition_task_status cancelled s ≢ true
unfolding can_transition_task_status
cancelled-terminal s h = cc

completed-terminal : (s : TaskStatus) → can_transition_task_status completed s ≢ true
unfolding can_transition_task_status
completed-terminal s h = cc

-- A life that leads to the status t, and the statuses that it enters, in order: by transitions that
-- the table allows, and by the statement of `completeLocalCommand`, from `RUNNING` to `COMPLETED`.
pub data Life (t : TaskStatus) : TaskStatus → List TaskStatus → Type 0 where
  ended : Life t t []
  moves :
      {s u : TaskStatus} {l : List TaskStatus}
      → can_transition_task_status s u ≡ true
      → Life t u l
      → Life t s (u ∷ l)
  completes_locally : {l : List TaskStatus} → Life t completed l → Life t running (completed ∷ l)

-- the last step of a life from s is from `RUNNING` to `COMPLETED`
unfoldable pub ends_locally : TaskStatus → List TaskStatus → Bool
ends_locally s [] = false
ends_locally s (u ∷ []) = s == running && u == completed
ends_locally s (u ∷ v ∷ l) = ends_locally u (v ∷ l)

ends_locally-step :
    (s u : TaskStatus) (l : List TaskStatus)
    → ends_locally u l ≡ true
    → ends_locally s (u ∷ l) ≡ true
unfolding ends_locally
ends_locally-step s u [] h = cc
ends_locally-step s u (v ∷ l) h = h

-- A completed or cancelled task goes nowhere from there.
terminal_absorbs :
    (s t : TaskStatus) (l : List TaskStatus)
    → (s ≡ completed) ⊎ (s ≡ cancelled)
    → Life t s l
    → (t ≡ s) × (l ≡ [])
terminal_absorbs s t l h ended = (refl, refl)
terminal_absorbs s t l (inl e) (moves {u = u} c p) =
    absurd (completed-terminal u (subst (λ x. can_transition_task_status x u ≡ true) e c))
terminal_absorbs s t l (inr e) (moves {u = u} c p) =
    absurd (cancelled-terminal u (subst (λ x. can_transition_task_status x u ≡ true) e c))
terminal_absorbs _ t _ (inl e) (completes_locally p) = cc
terminal_absorbs _ t _ (inr e) (completes_locally p) = cc

completed_locally :
    (l : List TaskStatus) → Life completed completed l → ends_locally running (completed ∷ l) ≡ true
unfolding ends_locally TaskStatus-discrete
completed_locally l p =
    let (_, e) = terminal_absorbs completed completed l (inl refl) p in rw e refl

-- the statuses from which an operator or a restart may send a task to any working status
abbrev pub is_paused : TaskStatus → Bool
is_paused needs_approval = true
is_paused needs_recovery = true
is_paused interrupted = true
is_paused _ = false

abbrev pub is_before_verification : TaskStatus → Bool
is_before_verification queued = true
is_before_verification waiting_repo_lock = true
is_before_verification preparing = true
is_before_verification running = true
is_before_verification failed = true
is_before_verification _ = false

before_verification-step :
    (s u : TaskStatus)
    → is_before_verification s ≡ true
    → can_transition_task_status s u ≡ true
    → (u ≡ verifying) ⊎ (is_before_verification u ≡ true) ⊎ (is_paused u ≡ true) ⊎ (u ≡ cancelled)
unfolding can_transition_task_status
before_verification-step s u h c = ground arith

-- A life from a status before verification to `COMPLETED` that enters none of `NEEDS_APPROVAL`,
-- `NEEDS_RECOVERY` and `INTERRUPTED` enters `VERIFYING`, unless its last step is from `RUNNING` to
-- `COMPLETED`, as that of a local command is.
pub completed_run_verifies :
    (s : TaskStatus) (l : List TaskStatus)
    → is_before_verification s ≡ true
    → any is_paused l ≡ false
    → Life completed s l
    → (contains l verifying ≡ true) ⊎ (ends_locally s l ≡ true)
unfolding TaskStatus-discrete
completed_run_verifies s l early quiet ended = cc
completed_run_verifies _ _ early quiet (completes_locally {l = k} p) = inr (completed_locally k p)
completed_run_verifies s l early quiet (moves {u} {l = k} c p) =
    elim (before_verification-step s u early c) [
      | inl e ↦ inl (ground arith)
      | inr (inl next) ↦ elim (completed_run_verifies u k next (ground arith) p) [
        | inl h ↦ inl (ground arith)
        | inr h ↦ inr (ends_locally-step s u k h)
      ]
      | inr (inr (inl paused)) ↦ ground arith
      | inr (inr (inr e)) ↦ let (bad, _) = terminal_absorbs u completed k (inr e) p in ground arith
    ]

-- Every life to `COMPLETED` from a status other than `COMPLETED` and `PUBLISHING` enters
-- `PUBLISHING`, unless its last step is from `RUNNING` to `COMPLETED`, as that of a local command is.
pub completed_run_publishes :
    (s : TaskStatus) (l : List TaskStatus)
    → s ≢ completed
    → s ≢ publishing
    → Life completed s l
    → (contains l publishing ≡ true) ⊎ (ends_locally s l ≡ true)
unfolding TaskStatus-discrete
completed_run_publishes s l other early ended = absurd (other refl)
completed_run_publishes _ _ other early (completes_locally {l = k} p) = inr (completed_locally k p)
completed_run_publishes s l other early (moves {u} {l = k} c p) =
    elim (Bool-cases (u == publishing)) [
      | inl e ↦ inl (ground arith)
      | inr e ↦
          let later =
            completed_run_publishes u k
              (λ q. early (
                (completed_only_from_publishing s).0
                  (subst (λ x. can_transition_task_status s x ≡ true) q c)))
              (ground arith) p in
          elim later [ inl h ↦ inl (ground arith) | inr h ↦ inr (ends_locally-step s u k h) ]
    ]

-- From every status but `COMPLETED` the task can still be cancelled, in at most two transitions.
pub cancellable :
    (s : TaskStatus)
    → s ≢ completed
    → (l : List TaskStatus) × (StatusPath cancelled s l) × (length l ≤ 2)
unfolding can_transition_task_status
cancellable completed h = absurd (h refl)
cancellable cancelled h = ([], here, omega arith)
cancellable failed h = (queued ∷ cancelled ∷ [], step refl (step refl here), omega arith)
cancellable _ h = (cancelled ∷ [], step refl here, omega arith)
