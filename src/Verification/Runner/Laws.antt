-- ===== src/Verification/Runner/Laws.antt =====
-- When a run of the checks passes and seals: packages/verification/src/verification-runner.ts.
use gram_coding_agent.Base.{
  ℕ, String, ◌≡◌, ◌≢◌, ◌⊎◌, refl, sym, ap, ◌∙◌, Bool, true, false, ◌&&◌, not, List, [], ◌∷◌, ◌++◌,
  Option, none, some, any, all, Bool-cases, inl, inr, ◌==◌, string_eq, is_some, All, and-true,
  Result, ok, err,
}
use gram_coding_agent.Base.Effects.{◌>>=◌, and_then, require, pure}
use gram_coding_agent.Base.Steps.{
  attempt, attempt_then, attempt_last, require_then, then_lem, Outcome,
}
use gram_coding_agent.Policy.Text.{Text, text_eq}
use gram_coding_agent.Verification.Evidence.{VerificationSnapshot}
use gram_coding_agent.Verification.Rows.{pass, check_status_eq}
use gram_coding_agent.Verification.Snapshot.{same_snapshot, same_snapshot_iff}
use gram_coding_agent.Verification.Runner.{
  PersistedVerificationPlan, RunnerCall, captured, sealed, RunError, foreign_task, sealing_missing,
  stale_checks, snapshot_mismatch, snapshot_changed, port_failed, Port, VerificationRunnerOptions,
  VerificationCheckResult, VerificationResult, Run, run_checks, is_stale, has_head, take_before,
  required_results, all_passed, seal_with, seal_after, run_bound, run,
}
use gram_coding_agent.Verification.Runner.Reports.{
  IsUnsealed, Post, AreResultsOf, ReportAll, more, run_checks-ReportAll,
}

module _ (ports : VerificationRunnerOptions) (plan : PersistedVerificationPlan) where
  -- a first snapshot is there exactly where snapshots are taken, and then it is what the first call
  -- of all took, it is of the plan and it can be sealed
  abbrev IsTaken : Option (Port VerificationSnapshot) → Option VerificationSnapshot → Type 0
  IsTaken none none = Unit
  IsTaken (some capture) (some before) =
      (is_some ports.seal_snapshot ≡ true)
      × ((capture [] ≡ some before)
          × ((before.task_id ≡ plan.task_id) × (plan.head_sha ≡ some before.head_sha)))
  IsTaken _ _ = false ≡ true

  -- Before any other call a snapshot is taken, which is of the plan. The last two calls: a snapshot
  -- is taken again, which is the same, and it is sealed; where no snapshots are taken, none is sealed.
  abbrev pub IsCertified : Option (Port VerificationSnapshot) → List RunnerCall → Type 0
  IsCertified none calls = IsUnsealed calls
  IsCertified (some capture) calls =
      (before : VerificationSnapshot) × ((earlier : List RunnerCall) × (IsUnsealed earlier
          × ((calls ≡ (earlier ++ captured ∷ []) ++ sealed plan.id before ∷ [])
              × ((capture [] ≡ some before)
                  × ((capture earlier ≡ some before)
                      × ((before.task_id ≡ plan.task_id)
                          × (plan.head_sha ≡ some before.head_sha)))))))

  abbrev pub HasRequiredPasses : List VerificationCheckResult → Type 0
  HasRequiredPasses results =
      (required_results results ≢ []) × All (λ r. r.status ≡ pass) (required_results results)

  -- a run that returns has a result for each check, and passed and certified its snapshot, or did not
  -- pass and sealed none
  abbrev pub IsSettled : VerificationResult → List RunnerCall → Type 0
  IsSettled result calls =
      AreResultsOf plan.checks result.checks
      × (((result.passed ≡ false) × IsUnsealed calls)
          ⊎ ((result.passed ≡ true)
              × (HasRequiredPasses result.checks × IsCertified ports.capture calls)))

  -- a run that throws has sealed nothing, unless it was the seal that threw
  abbrev pub IsBroken : RunError → List RunnerCall → Type 0
  IsBroken _ calls =
      IsUnsealed calls
      ⊎ ((before : VerificationSnapshot) × ((earlier : List RunnerCall) × (IsUnsealed earlier
              × (calls ≡ earlier ++ sealed plan.id before ∷ []))))

  head-is : (o : Option Text) (sha : Text) → has_head o sha ≡ true → o ≡ some sha
  head-is none sha h = cc
  head-is (some head) sha h = ap some (sym ((text_eq.beq_iff sha head).0 h))

  take_before-IsTaken :
      (o : Option (Port VerificationSnapshot))
      → Outcome
          (λ before after. IsTaken o before × IsUnsealed after)
          IsBroken
          (take_before ports plan o [])
  unfolding take_before
  take_before-IsTaken none = (tt, refl)
  take_before-IsTaken (some capture) =
      require_then Mid IsBroken (is_some ports.seal_snapshot) sealing_missing
        (λ _. require (not (any is_stale plan.checks)) stale_checks >>= λ _.
          attempt port_failed captured capture >>= fits_plan)
        [] (inl refl)
        λ can.
          require_then Mid IsBroken (not (any is_stale plan.checks)) stale_checks
            (λ _. attempt port_failed captured capture >>= fits_plan) [] (inl refl)
            λ fresh.
              attempt_then Mid IsBroken port_failed captured capture fits_plan []
                (inl (more captured [] refl refl))
                λ before e.
                  require_then Mid IsBroken
                    (before.task_id == plan.task_id && has_head plan.head_sha before.head_sha)
                    snapshot_mismatch (λ _. pure (some before)) ([] ++ captured ∷ [])
                    (inl (more captured [] refl refl))
                    λ fits. (
                      (
                        can,
                        (
                          e,
                          (
                            (string_eq.beq_iff before.task_id plan.task_id).0
                                (and-true (before.task_id == plan.task_id)
                                  (has_head plan.head_sha before.head_sha) fits).0,
                            head-is plan.head_sha before.head_sha
                                (and-true (before.task_id == plan.task_id)
                                  (has_head plan.head_sha before.head_sha) fits).1,
                          ),
                        ),
                      ),
                      more captured [] refl refl,
                    )
    where
      fits_plan : VerificationSnapshot → Run (Option VerificationSnapshot)
      fits_plan before =
          require (before.task_id == plan.task_id && has_head plan.head_sha before.head_sha)
            snapshot_mismatch
          >>= λ _. pure (some before)

      Mid : Option VerificationSnapshot → List RunnerCall → Type 0
      Mid before after = IsTaken (some capture) before × IsUnsealed after

  -- what is left to show of the calls, where all required checks passed or not
  abbrev IsClosed : Bool → Unit {0} → List RunnerCall → Type 0
  IsClosed true _ calls = IsCertified ports.capture calls
  IsClosed false _ calls = IsUnsealed calls

  seal_with-closes :
      (capture : Port VerificationSnapshot) (before : VerificationSnapshot)
      (o : Option (ℕ → VerificationSnapshot → Port (Unit {0}))) (earlier : List RunnerCall)
      → is_some o ≡ true
      → IsUnsealed earlier
      → (capture [] ≡ some before) × (capture earlier ≡ some before)
      → (before.task_id ≡ plan.task_id) × (plan.head_sha ≡ some before.head_sha)
      → Outcome
          (λ _ calls. IsCertified (some capture) calls)
          IsBroken
          (seal_with plan.id before o (earlier ++ captured ∷ []))
  unfolding seal_with
  seal_with-closes capture before none earlier h k e m = cc
  seal_with-closes capture before (some seal) earlier h k e m =
      attempt_last (λ _ calls. IsCertified (some capture) calls) IsBroken port_failed
        (sealed plan.id before) (seal plan.id before) (earlier ++ captured ∷ [])
        (inr (before, (earlier ++ captured ∷ [], (more captured earlier refl k, refl))))
        (λ _. (before, (earlier, (k, (refl, (e.0, (e.1, m)))))))

  seal_after-IsClosed :
      (passed : Bool) (o : Option VerificationSnapshot) (p : Option (Port VerificationSnapshot))
      (calls : List RunnerCall)
      → ports.capture ≡ p
      → IsTaken p o
      → IsUnsealed calls
      → Outcome (IsClosed passed) IsBroken (seal_after ports plan.id passed o p calls)
  unfolding seal_after
  seal_after-IsClosed false o p calls same h k = k
  seal_after-IsClosed true none none calls same h k = rw same k
  seal_after-IsClosed true none (some capture) calls same h k = cc
  seal_after-IsClosed true (some before) none calls same h k = cc
  seal_after-IsClosed true (some before) (some capture) calls same (can, (first, m)) k =
      attempt_then (IsClosed true) IsBroken _ _ _ _ _ (inl (more captured calls refl k)) λ later e.
        require_then (IsClosed true) IsBroken (same_snapshot before later) snapshot_changed
          (λ _. seal_with plan.id before ports.seal_snapshot) (calls ++ captured ∷ [])
          (inl (more captured calls refl k))
          λ unchanged.
            (let kept = (same_snapshot_iff before later).0 unchanged in
              rw same (
                seal_with-closes capture before ports.seal_snapshot calls can k
                  (first, e ∙ ap some (sym kept)) m))

  all_passed-lem :
      (results : List VerificationCheckResult)
      → all_passed results ≡ true
      → (results ≢ []) × All (λ r. r.status ≡ pass) results
  all_passed-lem [] h = cc
  all_passed-lem (r ∷ rs) h = (λ e. cc, go (r ∷ rs) h)
    where
      go :
          (l : List VerificationCheckResult)
          → all (λ x. x.status == pass) l ≡ true
          → All (λ x. x.status ≡ pass) l
      go [] h = tt
      go (x ∷ l) h =
          let (e, k) = and-true (x.status == pass) (all (λ x. x.status == pass) l) h in
          ((check_status_eq.beq_iff x.status pass).0 e, go l k)

  settles :
      (results : List VerificationCheckResult) (o : Option VerificationSnapshot)
      (calls : List RunnerCall)
      → IsTaken ports.capture o
      → AreResultsOf plan.checks results
      → IsUnsealed calls
      → Outcome IsSettled IsBroken (
          and_then
            (λ _.
              pure (record { passed = all_passed (required_results results); checks = results }))
            (seal_after ports plan.id
              (all_passed (required_results results))
              o
              ports.capture
              calls))
  settles results o calls taken own h = elim (Bool-cases (all_passed (required_results results))) [
    | inl e ↦ rw e (
        then_lem (IsClosed true) IsSettled IsBroken _ _
          (seal_after-IsClosed true o ports.capture calls refl taken h)
          (λ _ after k. (own, inr (refl, (all_passed-lem (required_results results) e, k)))))
    | inr e ↦ rw e (
        then_lem (IsClosed false) IsSettled IsBroken _ _
          (seal_after-IsClosed false o ports.capture calls refl taken h)
          (λ _ after k. (own, inl (refl, k))))
  ]

  weaken :
      {A : Type 0} (Q : A → List RunnerCall → Type 0) (o : Result RunError A × List RunnerCall)
      → Outcome Q Post o
      → Outcome Q IsBroken o
  weaken Q (ok a, s) h = h
  weaken Q (err e, s) h = inl h

  run_bound-IsSettled : Outcome IsSettled IsBroken (run_bound ports plan [])
  unfolding run_bound
  run_bound-IsSettled =
      then_lem (λ before after. IsTaken ports.capture before × IsUnsealed after) IsSettled IsBroken
        _ _ (take_before-IsTaken ports.capture)
        (λ before after (taken, h).
          then_lem (ReportAll plan.checks) IsSettled IsBroken _ _
            (weaken (ReportAll plan.checks) (run_checks ports plan.checks after)
              (run_checks-ReportAll ports plan.checks after h))
            (λ results later (own, k). settles results before later taken own k))

  -- A run of a plan's checks that returns has one result for each check, in order, which keeps the
  -- status of a check that was not pending; it either did not pass and sealed no snapshot, or passed: then
  -- there are required results and each is PASS, and, where snapshots are taken, one was taken before
  -- any other call, of the plan's task and commit, and the last two calls take a snapshot that is the
  -- same one and seal it, the only one sealed. A run that throws sealed none, unless the seal itself
  -- threw.
  pub run-IsSettled : (task_id : String) → Outcome IsSettled IsBroken (run ports plan task_id [])
  unfolding run
  run-IsSettled task_id =
      require_then IsSettled IsBroken (task_id == plan.task_id) foreign_task
        (λ _. run_bound ports plan) [] (inl refl) (λ _. run_bound-IsSettled)
