-- ===== src/Runner/Repair/Laws.antt =====
-- The order of the steps of a repair cycle: packages/task-engine/src/task-runner.ts.
use gram_coding_agent.Base.{
  ℕ, ◌≡◌, refl, ap, ◌∙◌, Bool, true, false, List, [], ◌∷◌, some, take, any, inl, inr, ◌⊎◌,
}
use gram_coding_agent.Base.Steps.{attempt_then, require_then, Outcome}
use gram_coding_agent.Policy.Text.{Text}
use gram_coding_agent.Runner.{CiOutcome, success, failure, pending, Workspace}
use gram_coding_agent.Runner.Repair.{
  ci_failed, lock_acquire, workspace_reuse, repair_done, verify_done, push_done, remote_confirm,
  lock_release, ci_observe, started, finished, Call, audit_call, emit_call, acquire_call,
  reuse_call, repair_call, verify_call, push_call, confirm_call, release_call, observe_call, Ports,
  RepairCycleInput, RepairCycleResult, RepairError, push_repair, repair_cycle, repair_on,
  run_repair_cycle,
}

-- the calls of a whole cycle, in order
abbrev pub repair_calls : RepairCycleInput → Workspace → Text → CiOutcome → List Call
repair_calls input workspace sha outcome =
    audit_call input.task_id (started input.repo_id input.branch)
    ∷ emit_call ci_failed
    ∷ acquire_call input.repo_id input.task_id
    ∷ emit_call lock_acquire
    ∷ reuse_call input.task_id
    ∷ emit_call workspace_reuse
    ∷ repair_call input.task_id workspace
    ∷ emit_call repair_done
    ∷ verify_call input.task_id
    ∷ emit_call verify_done
    ∷ push_call workspace.linux_path input.branch
    ∷ emit_call push_done
    ∷ confirm_call input.remote input.branch sha
    ∷ emit_call remote_confirm
    ∷ release_call
    ∷ emit_call lock_release
    ∷ observe_call input.task_id
    ∷ emit_call ci_observe
    ∷ audit_call input.task_id (finished input.repo_id input.branch sha outcome)
    ∷ []

abbrev is_release : Call → Bool
is_release release_call = true
is_release _ = false

module _ (ports : Ports) (input : RepairCycleInput) where
  -- the remote confirmed at one of the calls
  abbrev IsConfirmed : List Call → Type 0
  IsConfirmed calls = (n : ℕ) × (ports.confirm_remote_sha (take n calls) ≡ some true)

  -- what the result of a cycle says, and the calls made for it
  abbrev pub IsRepaired : RepairCycleResult → List Call → Type 0
  IsRepaired result calls =
      (workspace : Workspace) × (calls ≡ repair_calls input workspace result.sha result.ci_outcome)
      × IsConfirmed calls
      × (input.ci_outcome ≡ failure)
      × (result.task_id ≡ input.task_id)
      × (result.repo_id ≡ input.repo_id)
      × (result.branch ≡ input.branch)
      × (result.remote ≡ input.remote)

  -- the calls that a cycle made before it threw
  abbrev pub IsBroken : RepairError → List Call → Type 0
  IsBroken e calls =
      (workspace : Workspace) × (sha : Text) × (outcome : CiOutcome) × (n : ℕ) × (calls
        ≡ take n (repair_calls input workspace sha outcome))
      × ((any is_release calls ≡ false) ⊎ IsConfirmed calls)
      × ((calls ≡ []) ⊎ (input.ci_outcome ≡ failure))

  push_repair_lem :
      (w : Workspace)
      → input.ci_outcome ≡ failure
      → Outcome IsRepaired IsBroken
          (push_repair ports input w (take 10 (repair_calls input w [] pending)))
  unfolding push_repair
  push_repair_lem w failed =
      attempt_then IsRepaired IsBroken _ _ _ _ _ (w, [], pending, 11, refl, inl refl, inr failed)
        λ sha _.
          attempt_then IsRepaired IsBroken _ _ _ _ _
            (w, sha, pending, 12, refl, inl refl, inr failed)
            λ _ _.
              attempt_then IsRepaired IsBroken _ _ _ _ _
                (w, sha, pending, 13, refl, inl refl, inr failed)
                λ confirmed answer.
                  attempt_then IsRepaired IsBroken _ _ _ _ _
                    (w, sha, pending, 14, refl, inl refl, inr failed)
                    λ _ _.
                      require_then IsRepaired IsBroken _ _ _ _
                        (w, sha, pending, 14, refl, inl refl, inr failed)
                        λ agreed.
                          let sure = answer ∙ ap some agreed in
                          attempt_then IsRepaired IsBroken _ _ _ _ _
                            (w, sha, pending, 15, refl, inr (12, sure), inr failed)
                            λ _ _.
                              attempt_then IsRepaired IsBroken _ _ _ _ _
                                (w, sha, pending, 16, refl, inr (12, sure), inr failed)
                                λ _ _.
                                  attempt_then IsRepaired IsBroken _ _ _ _ _
                                    (w, sha, pending, 17, refl, inr (12, sure), inr failed)
                                    λ outcome _.
                                      attempt_then IsRepaired IsBroken _ _ _ _ _
                                        (w, sha, outcome, 18, refl, inr (12, sure), inr failed)
                                        λ _ _.
                                          attempt_then IsRepaired IsBroken _ _ _ _ _
                                            (w, sha, outcome, 19, refl, inr (12, sure), inr failed)
                                            λ _ _.
                                              (w, refl, (12, sure), failed, refl, refl, refl, refl)

  repair_cycle_lem :
      input.ci_outcome ≡ failure → Outcome IsRepaired IsBroken (repair_cycle ports input [])
  unfolding repair_cycle
  repair_cycle_lem failed =
      let w0 : Workspace = record { linux_path = []; branch = [] } in
      attempt_then IsRepaired IsBroken _ _ _ _ _ (w0, [], pending, 1, refl, inl refl, inr failed)
        λ _ _.
          attempt_then IsRepaired IsBroken _ _ _ _ _
            (w0, [], pending, 2, refl, inl refl, inr failed)
            λ _ _.
              attempt_then IsRepaired IsBroken _ _ _ _ _
                (w0, [], pending, 3, refl, inl refl, inr failed)
                λ _ _.
                  attempt_then IsRepaired IsBroken _ _ _ _ _
                    (w0, [], pending, 4, refl, inl refl, inr failed)
                    λ _ _.
                      attempt_then IsRepaired IsBroken _ _ _ _ _
                        (w0, [], pending, 5, refl, inl refl, inr failed)
                        λ w _.
                          attempt_then IsRepaired IsBroken _ _ _ _ _
                            (w, [], pending, 6, refl, inl refl, inr failed)
                            λ _ _.
                              attempt_then IsRepaired IsBroken _ _ _ _ _
                                (w, [], pending, 7, refl, inl refl, inr failed)
                                λ _ _.
                                  attempt_then IsRepaired IsBroken _ _ _ _ _
                                    (w, [], pending, 8, refl, inl refl, inr failed)
                                    λ _ _.
                                      attempt_then IsRepaired IsBroken _ _ _ _ _
                                        (w, [], pending, 9, refl, inl refl, inr failed)
                                        λ _ _.
                                          attempt_then IsRepaired IsBroken _ _ _ _ _
                                            (w, [], pending, 10, refl, inl refl, inr failed)
                                            λ _ _. push_repair_lem w failed

  repair_on_lem :
      (o : CiOutcome)
      → input.ci_outcome ≡ o
      → Outcome IsRepaired IsBroken (repair_on ports input o [])
  unfolding repair_on
  repair_on_lem failure e = repair_cycle_lem e
  repair_on_lem success e =
      (record { linux_path = []; branch = [] }, [], pending, 0, refl, inl refl, inl refl)
  repair_on_lem pending e =
      (record { linux_path = []; branch = [] }, [], pending, 0, refl, inl refl, inl refl)

  -- A repair cycle makes its calls in the order of `repair_calls`: all of them where it returns, with
  -- the task, repository, branch and remote of its input, and the first n of them, for some n, where
  -- it throws. It makes calls only for the outcome `FAILURE`, and releases the lock only after the
  -- remote has confirmed the push.
  pub repair_in_order : Outcome IsRepaired IsBroken (run_repair_cycle ports input [])
  unfolding run_repair_cycle
  repair_in_order = repair_on_lem input.ci_outcome refl
