-- ===== src/Runner/Laws.antt =====
-- The order of the steps of a run: packages/task-engine/src/task-runner.ts.
use gram_coding_agent.Base.{
  none, ℕ, ◌≤◌, ◌≡◌, refl, subst, sym, Option-cases, Bool, true, false, List, [], ◌∷◌, Option, some,
  take, any, all, arith, inl, inr, ◌⊎◌,
}
use gram_coding_agent.Base.Steps.{
  attempt, attempt_then, require_then, expect_then, Outcome, then_lem,
}
use gram_coding_agent.Policy.Text.{Text}
use gram_coding_agent.Task.Status.{
  preparing, running, verifying, publishing, can_transition_task_status,
}
use gram_coding_agent.Runner.{
  RepositoryInstructions, TaskAnalysis, PublishedTask, CiOutcome, success, failure, pending,
  Workspace, ResolvedTask, Verification, Call, resolve_call, acquire_call, fetch_call, create_call,
  transition_call, load_call, analyze_call, modify_call, verify_call, publish_call, ensure_call,
  observe_call, complete_call, Ports, RunPorts, RunError, run, run_with, require_ports,
  verify_and_publish, complete_on,
}

-- the values that the ports of a run have answered with
pub record Answers : Type 0 where
  pub task : ResolvedTask
  pub lease : ℕ
  pub workspace : Workspace
  pub instructions : RepositoryInstructions
  pub analysis : TaskAnalysis
  pub verification : Verification
  pub published : PublishedTask

-- the calls of a whole run, in order
abbrev pub run_calls : Text → Answers → List Call
run_calls task_id a =
    resolve_call task_id
    ∷ acquire_call a.task.repo_id task_id
    ∷ fetch_call a.task
    ∷ create_call task_id
    ∷ transition_call task_id preparing running
    ∷ load_call a.workspace task_id
    ∷ analyze_call a.task a.workspace a.instructions
    ∷ modify_call a.task a.workspace a.analysis
    ∷ transition_call task_id running verifying
    ∷ verify_call task_id
    ∷ transition_call task_id verifying publishing
    ∷ publish_call a.task a.workspace a.verification a.lease
    ∷ ensure_call a.task a.published
    ∷ observe_call task_id
    ∷ complete_call task_id
    ∷ []

abbrev is_publish : Call → Bool
is_publish (publish_call _ _ _ _) = true
is_publish _ = false

abbrev is_complete : Call → Bool
is_complete (complete_call _) = true
is_complete _ = false

abbrev is_allowed : Call → Bool
is_allowed (transition_call _ from to) = can_transition_task_status from to
is_allowed _ = true

-- a port that is there has answered so at one of the calls
abbrev Answered : {A : Type 0} → Option (List Call → Option A) → List Call → A → Type 0
Answered {A} o calls a =
    (port : List Call → Option A) × (o ≡ some port) × (n : ℕ) × (port (take n calls) ≡ some a)

-- The calls are the first n of those of a run, n being at least k; every transition among them is
-- allowed; a publication is among them only after a verification that passed, a completion only after
-- CI has answered with success.
abbrev pub IsRun : Ports → Text → ℕ → List Call → Type 0
IsRun ports task_id k calls =
    (a : Answers) × (n : ℕ) × (k ≤ n)
    × (calls ≡ take n (run_calls task_id a))
    × (all is_allowed calls ≡ true)
    × ((any is_publish calls ≡ false)
        ⊎ ((v : Verification) × Answered ports.verify calls v × (v.passed ≡ true)))
    × ((any is_complete calls ≡ false) ⊎ Answered ports.ci_observe calls success)

abbrev blank : Answers
blank = record {
  task = record { task_id = []; repo_id = 0; branch = []; remote = []; local_base_path = [] };
  lease = 0;
  workspace = record { linux_path = []; branch = [] };
  instructions = record { content = []; source = [] };
  analysis = record { summary = []; files = [] };
  verification = record {
    plan_id = none;
    passed = false;
    output = [];
    head_sha = none;
    approved_paths = none;
  };
  published = record { task_id = []; sha = []; branch = []; remote = [] };
}

module _ (ports : Ports) (task_id : Text) where
  abbrev pub Ran : Unit {0} → List Call → Type 0
  Ran _ calls = IsRun ports task_id 14 calls

  abbrev pub Stopped : RunError → List Call → Type 0
  Stopped _ calls = IsRun ports task_id 0 calls

  complete_on_lem :
      (r : RunPorts) (a : Answers) (outcome : CiOutcome)
      → ports.ci_observe ≡ some r.observe
      → r.observe (take 13 (run_calls task_id a)) ≡ some outcome
      → Answered ports.verify (take 14 (run_calls task_id a)) a.verification
      → Answered ports.verify (take 15 (run_calls task_id a)) a.verification
      → a.verification.passed ≡ true
      → Outcome Ran Stopped (complete_on r task_id outcome (take 14 (run_calls task_id a)))
  unfolding can_transition_task_status attempt
  complete_on_lem r a success has_observe observed before after passed =
      elim (Option-cases (r.finish (take 14 (run_calls task_id a)))) [
        | inl e ↦
            rw (e, attempt)
              (
                a,
                15,
                omega arith,
                refl,
                refl,
                inr (a.verification, after, passed),
                inr (r.observe, has_observe, 13, observed),
              )
        | inr (_, e) ↦
            rw (e, attempt)
              (
                a,
                15,
                omega arith,
                refl,
                refl,
                inr (a.verification, after, passed),
                inr (r.observe, has_observe, 13, observed),
              )
      ]
  complete_on_lem r a failure has_observe observed before after passed =
      (a, 14, omega arith, refl, refl, inr (a.verification, before, passed), inl refl)
  complete_on_lem r a pending has_observe observed before after passed =
      (a, 14, omega arith, refl, refl, inr (a.verification, before, passed), inl refl)

  verify_and_publish_lem :
      (r : RunPorts) (a : Answers)
      → ports.verify ≡ some r.check
      → ports.ci_observe ≡ some r.observe
      → Outcome Ran Stopped
          (verify_and_publish r task_id a.task a.workspace a.lease (take 9 (run_calls task_id a)))
  unfolding verify_and_publish can_transition_task_status
  verify_and_publish_lem r a has_verify has_observe =
      attempt_then Ran Stopped _ _ _ _ _ (a, 10, omega arith, refl, refl, inl refl, inl refl)
        λ v answer.
          require_then Ran Stopped _ _ _ _ (a, 10, omega arith, refl, refl, inl refl, inl refl)
            λ passed.
              let b = record a { verification = v } in
              attempt_then Ran Stopped _ _ _ _ _
                (a, 11, omega arith, refl, refl, inl refl, inl refl)
                λ _ _.
                  attempt_then Ran Stopped _ _ _ _ _
                    (
                      b,
                      12,
                      omega arith,
                      refl,
                      refl,
                      inr (v, (r.check, has_verify, 9, answer), passed),
                      inl refl,
                    )
                    λ published _.
                      let c = record b { published = published } in
                      attempt_then Ran Stopped _ _ _ _ _
                        (
                          c,
                          13,
                          omega arith,
                          refl,
                          refl,
                          inr (v, (r.check, has_verify, 9, answer), passed),
                          inl refl,
                        )
                        λ _ _.
                          attempt_then Ran Stopped _ _ _ _ _
                            (
                              c,
                              14,
                              omega arith,
                              refl,
                              refl,
                              inr (v, (r.check, has_verify, 9, answer), passed),
                              inl refl,
                            )
                            λ outcome observed.
                              complete_on_lem r c outcome has_observe observed
                                (r.check, has_verify, 9, answer) (r.check, has_verify, 9, answer)
                                passed

  run_with_lem :
      (r : RunPorts)
      → ports.verify ≡ some r.check
      → ports.ci_observe ≡ some r.observe
      → Outcome Ran Stopped (run_with task_id r [])
  unfolding run_with can_transition_task_status
  run_with_lem r has_verify has_observe =
      attempt_then Ran Stopped _ _ _ _ _ (blank, 1, omega arith, refl, refl, inl refl, inl refl)
        λ task _.
          let a = record blank { task = task } in
          attempt_then Ran Stopped _ _ _ _ _ (a, 2, omega arith, refl, refl, inl refl, inl refl)
            λ lease _.
              attempt_then Ran Stopped _ _ _ _ _ (a, 3, omega arith, refl, refl, inl refl, inl refl)
                λ _ _.
                  attempt_then Ran Stopped _ _ _ _ _
                    (a, 4, omega arith, refl, refl, inl refl, inl refl)
                    λ workspace _.
                      let b = record a { workspace = workspace; lease = lease } in
                      attempt_then Ran Stopped _ _ _ _ _
                        (b, 5, omega arith, refl, refl, inl refl, inl refl)
                        λ _ _.
                          attempt_then Ran Stopped _ _ _ _ _
                            (b, 6, omega arith, refl, refl, inl refl, inl refl)
                            λ instructions _.
                              let c = record b { instructions = instructions } in
                              attempt_then Ran Stopped _ _ _ _ _
                                (c, 7, omega arith, refl, refl, inl refl, inl refl)
                                λ analysis _.
                                  let d = record c { analysis = analysis } in
                                  attempt_then Ran Stopped _ _ _ _ _
                                    (d, 8, omega arith, refl, refl, inl refl, inl refl)
                                    λ _ _.
                                      attempt_then Ran Stopped _ _ _ _ _
                                        (d, 9, omega arith, refl, refl, inl refl, inl refl)
                                        λ _ _. verify_and_publish_lem r d has_verify has_observe

  none_made : IsRun ports task_id 0 []
  none_made = (blank, 0, omega arith, refl, refl, inl refl, inl refl)

  -- the ports that a run has found, before any call
  abbrev Found : RunPorts → List Call → Type 0
  Found r calls = (calls ≡ []) × (ports.verify ≡ some r.check) × (ports.ci_observe ≡ some r.observe)

  require_ports_lem : Outcome Found Stopped (require_ports ports [])
  unfolding require_ports
  require_ports_lem = expect_then Found Stopped _ _ _ _ none_made λ _ _.
      expect_then Found Stopped _ _ _ _ none_made λ _ _.
        expect_then Found Stopped _ _ _ _ none_made λ _ _.
          expect_then Found Stopped _ _ _ _ none_made λ _ _.
            expect_then Found Stopped _ _ _ _ none_made λ _ _.
              expect_then Found Stopped _ _ _ _ none_made λ _ _.
                expect_then Found Stopped _ _ _ _ none_made λ _ has_verify.
                  expect_then Found Stopped _ _ _ _ none_made λ _ _.
                    expect_then Found Stopped _ _ _ _ none_made λ _ _.
                      expect_then Found Stopped _ _ _ _ none_made λ _ has_observe.
                        expect_then Found Stopped _ _ _ _ none_made λ _ _.
                          expect_then Found Stopped _ _ _ _ none_made
                            λ _ _. (refl, has_verify, has_observe)

  -- A run makes its calls in the order of `run_calls`: at least all before the completion where it
  -- returns, and the first n of them, for some n, where it throws. Every status transition among
  -- them is allowed; a publication is among them only where a verification has passed, and the
  -- completion only where CI has answered with success.
  pub run_in_order : Outcome Ran Stopped (run ports task_id [])
  unfolding run
  run_in_order =
      then_lem Found Ran Stopped (run_with task_id) (require_ports ports []) require_ports_lem
        λ r calls found.
          let (none_yet, has_verify, has_observe) = found in
          subst (λ c. Outcome Ran Stopped (run_with task_id r c)) (sym none_yet)
            (run_with_lem r has_verify has_observe)
