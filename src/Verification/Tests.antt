-- ===== src/Verification/Tests.antt =====
-- Runs of the verification repository, the planner and the evaluator on small tables.
use mathlib.Core.List.{Memᴰ}
use gram_coding_agent.Base.{
  ◌≡◌, ◌≢◌, ◌↔◌, refl, arith, true, false, [], ◌∷◌, Option, none, some, ok, err, All,
}
use gram_coding_agent.Policy.Text.{Text, codes, same}
use gram_coding_agent.Verification.Evidence.{VerificationSnapshot, object, shaped, not_pending}
use gram_coding_agent.Verification.Rows.{
  StoredVerificationCheckStatus, pending, pass, StoredVerificationCheckStatus-discrete,
  VerificationPlanRow, VerificationCheckRow, VerificationStore, sorted,
}
use gram_coding_agent.Verification.Store.{
  get_plan, get_check, latest_plan, CreateVerificationCheckInput,
}
use gram_coding_agent.Verification.Store.Assertions.{Node}
use gram_coding_agent.Verification.Store.Bound.{
  BoundVerificationPlan, get_bound_plan, snapshot_fits, assert_review, seal_snapshot, save_seal,
  is_asked,
}
use gram_coding_agent.Verification.Store.Finish.{
  FinishVerificationCheckInput, to_pass, finish_check, finished_row, trimmed, assert_external,
  assert_proof, assert_pass, reviewed,
}
use gram_coding_agent.Verification.Store.History.{
  here, after, check_created, check_finished, call, sealed_snapshot, IsKeyed,
}
use gram_coding_agent.Verification.Store.Frozen.{IsFrozen, sealed-IsFrozen}
use gram_coding_agent.Verification.Store.Sound.{IsProof, get_bound_plan-IsProof}
use gram_coding_agent.Verification.Store.RoundTrip.{seal_snapshot-bound}
use gram_coding_agent.Verification.Store.Once.{finish_check-once}
use gram_coding_agent.Verification.Classifier.{documentation, ui, ChangeClass-discrete}
use gram_coding_agent.Verification.Planner.{
  RepositoryVerificationProfile, VerificationPlan, lint, command_check, gate_check, gates,
  plan_production, required_commands, path_class, is_view,
}
use gram_coding_agent.Verification.Planner.Laws.{Covers, plan_production-Covers}
use gram_coding_agent.Verification.Completion.{
  required_checks_passed, required_of, IsPassed, required_checks_passed_iff,
}
use gram_coding_agent.Base.Steps.{Outcome}
use native.Mathlib.Decide.{ℕ_discrete}
use gram_coding_agent.Verification.Snapshot.{
  String-discrete, SnapshotEntry-discrete, VerificationSnapshot-discrete,
}
use gram_coding_agent.Verification.Planner.{non_command}
use gram_coding_agent.Verification.Runner.{
  GateResult, VerificationRunnerOptions, PersistedVerificationPlan, run,
}
use gram_coding_agent.Verification.Runner.Laws.{IsSettled, IsBroken, run-IsSettled}
use gram_coding_agent.Verification.Publication.{
  BoundPublishingOptions, IsPublishable, assert_passed, assert_passed-IsPublishable,
}

abbrev head : Text
head = codes "0123456789abcdef0123456789abcdef01234567"

abbrev snapshot : VerificationSnapshot
snapshot = record {
  version = 1;
  task_id = "t";
  head_sha = head;
  entries = record { path = codes "a.ts"; mode = codes "100644"; oid = some head } ∷ [];
}

abbrev node : Node
node = record { is_absolute = λ _. true; resolve = λ path. path; snapshot_digest = λ _. [] }

abbrev plan_row : Option VerificationSnapshot → VerificationPlanRow
plan_row sealing = record {
  id = 1;
  task_id = "t";
  head_sha = some head;
  change_class = "OTHER";
  risk = none;
  plan_json = object (record {
    external_reviews = false;
    verification_evidence = some (
        shaped (record {
          version = 1;
          command_floor = some 0;
          reviews =
              record { check_id = 1; evidence_ref = codes "ok"; approved_paths = codes "a.ts" ∷ [] }
              ∷ [];
          snapshot = sealing;
        }));
    others = [];
  });
  created_at = 0;
}

abbrev check : StoredVerificationCheckStatus → Option Text → VerificationCheckRow
check status ref = record {
  id = 1;
  plan_id = 1;
  task_id = "t";
  name = "diff-review";
  required = true;
  status = status;
  command_run_id = none;
  evidence_ref = ref;
  reason = none;
  started_at = none;
  finished_at = none;
}

abbrev store :
    Option VerificationSnapshot → StoredVerificationCheckStatus → Option Text → VerificationStore
store sealing status ref = record {
  plans = plan_row sealing ∷ [];
  checks = check status ref ∷ [];
  reviews = [];
  next_plan_id = 2;
  next_check_id = 2;
  database = record {
    task_sequence = none;
    repositories = [];
    tasks = [];
    workspaces = [];
    command_runs = [];
    repo_locks = [];
  };
}

abbrev sealed_store : VerificationStore
sealed_store = store (some snapshot) pass (some (codes "ok"))

abbrev passed_store : VerificationStore
passed_store = store none pass (some (codes "ok"))

abbrev pending_store : VerificationStore
pending_store = store none pending none

abbrev bound_example : BoundVerificationPlan
bound_example = record {
  id = 1;
  task_id = "t";
  head_sha = head;
  snapshot = snapshot;
  approved_paths = codes "a.ts" ∷ [];
  checks = check pass (some (codes "ok")) ∷ [];
}

abbrev more : CreateVerificationCheckInput
more = record {
  plan_id = 1;
  task_id = "t";
  name = "lint";
  required = true;
  status = none;
  reason = none;
}

abbrev passes : FinishVerificationCheckInput
passes = record {
  status = to_pass;
  command_run_id = none;
  evidence_ref = some (codes " ok ");
  approved_paths = none;
  reason = none;
  started_at = none;
  finished_at = none;
}

keyed : IsKeyed sealed_store
keyed = ((omega arith, tt), λ id. ground arith)

is_sealed : sealed_snapshot 1 sealed_store ≡ some snapshot
unfolding sealed_snapshot
is_sealed = refl

is_bound : get_bound_plan node "t" head (some 1) sealed_store ≡ some bound_example
unfolding get_bound_plan snapshot_fits assert_review StoredVerificationCheckStatus-discrete sorted
is_bound = refl

seals : (seal_snapshot node 1 snapshot passed_store).0 ≡ ok tt
unfolding seal_snapshot snapshot_fits assert_review StoredVerificationCheckStatus-discrete save_seal
seals = refl

finishes : (finish_check node 1 passes 5 pending_store).0 ≡ ok tt
unfolding finish_check StoredVerificationCheckStatus-discrete assert_external assert_pass
    assert_proof trimmed reviewed
finishes = refl

kept : get_plan 1 passed_store ≡ some (plan_row none)
unfolding get_plan
kept = refl

latest : latest_plan "t" (some head) passed_store ≡ some (plan_row none)
unfolding latest_plan same
latest = refl

sealed-IsFrozen_example :
    IsFrozen 1 sealed_store
      (call node (check_finished 1 passes 9) (call node (check_created more) sealed_store))
    × (sealed_snapshot 1
          (call node (check_finished 1 passes 9) (call node (check_created more) sealed_store))
        ≡ some snapshot)
sealed-IsFrozen_example =
    sealed-IsFrozen node 1 snapshot sealed_store
      (call node (check_finished 1 passes 9) (call node (check_created more) sealed_store)) keyed
      is_sealed (after (check_finished 1 passes 9) (after (check_created more) here))

get_bound_plan-IsProof_example :
    (row : VerificationPlanRow) × ((latest_plan "t" (some head) sealed_store ≡ some row)
      × ((is_asked (some 1) row ≡ true)
          × ((bound_example.id ≡ row.id) × IsProof sealed_store row bound_example)))
get_bound_plan-IsProof_example =
    get_bound_plan-IsProof node "t" head (some 1) sealed_store bound_example is_bound

seal_snapshot-bound_example :
    (b : BoundVerificationPlan) × ((get_bound_plan node "t" head
          (some 1)
          (seal_snapshot node 1 snapshot passed_store).1
        ≡ some b)
      × (b.snapshot ≡ snapshot))
seal_snapshot-bound_example =
    seal_snapshot-bound node "t" head snapshot (plan_row none) passed_store kept latest seals

finish_check-once_example :
    (c : VerificationCheckRow) × ((get_check 1 pending_store ≡ some c)
      × ((c.status ≡ pending)
          × ((get_check 1 (finish_check node 1 passes 5 pending_store).1
                ≡ some (finished_row passes 5 c))
              × ((finish_check node 1 passes 6 (finish_check node 1 passes 5 pending_store).1).0
                  ≡ err (not_pending 1)))))
finish_check-once_example = finish_check-once node 1 passes passes 5 6 pending_store finishes

-- the planner and the evaluator
abbrev profile : RepositoryVerificationProfile
profile = record {
  lint = some (codes "pnpm lint");
  test = none;
  build = none;
  browser_verification = false;
}

abbrev planned : VerificationPlan
planned = record {
  change_class = documentation;
  checks = command_check lint (codes "pnpm lint") ∷ gates;
}

plans : plan_production (codes "docs/a.md" ∷ []) profile ≡ ok planned
unfolding plan_production ChangeClass-discrete
plans = refl

needs_lint : Memᴰ lint (required_commands (path_class (codes "docs/a.md")))
unfolding required_commands path_class
needs_lint = Memᴰ.head refl

plan_production-Covers_example :
    Covers profile planned.checks lint
    × ((path_class (codes "docs/a.md") ≢ ui)
        × ((is_view (codes "docs/a.md") ≡ false)
            × (Memᴰ (gate_check "secret-scan") planned.checks
                × Memᴰ (gate_check "diff-review") planned.checks)))
plan_production-Covers_example =
    plan_production-Covers (codes "docs/a.md" ∷ []) profile planned (codes "docs/a.md") lint plans
      (Memᴰ.head refl) needs_lint

required_checks_passed_iff_example :
    (required_checks_passed "t" (some head) sealed_store ≡ true) ↔ (
      (required_of "t" (some head) sealed_store ≢ [])
      × All IsPassed (required_of "t" (some head) sealed_store))
required_checks_passed_iff_example = required_checks_passed_iff "t" (some head) sealed_store

-- the runner and the publication
abbrev gate : GateResult
gate = record {
  passed = true;
  evidence_ref = codes "ok";
  reason = none;
  changed_paths = some (codes "a.ts" ∷ []);
}

abbrev options : VerificationRunnerOptions
options = record {
  run_command = λ _ _. some (record { command_run_id = 1; exit_code = 0 });
  record_command = λ _ _ _ _. some tt;
  record_gate = λ _ _ _. some tt;
  seal_snapshot = some (λ _ _ _. some tt);
  scan = λ _. some gate;
  review = λ _. some gate;
  browser = none;
  capture = some (λ _. some snapshot);
}

abbrev persisted : PersistedVerificationPlan
persisted = record {
  id = 1;
  task_id = "t";
  head_sha = some head;
  checks =
      record {
        id = 1;
        name = "diff-review";
        kind = non_command;
        required = true;
        status = pending;
        command = none;
        reason = none;
      }
      ∷ [];
}

run-IsSettled_example :
    Outcome
      (IsSettled options persisted)
      (IsBroken options persisted)
      (run options persisted "t" [])
run-IsSettled_example = run-IsSettled options persisted "t"

abbrev publishing : BoundPublishingOptions
publishing = record { task_id = "t"; plan_id = 1; head_sha = head; paths = codes "a.ts" ∷ [] }

passes_publication : assert_passed node publishing "t" (some snapshot) sealed_store ≡ ok tt
unfolding assert_passed snapshot_fits assert_review StoredVerificationCheckStatus-discrete
    VerificationSnapshot-discrete ℕ_discrete String-discrete SnapshotEntry-discrete
passes_publication = refl

assert_passed-IsPublishable_example :
    (plan : BoundVerificationPlan) × (("t" ≡ publishing.task_id)
      × ((some snapshot ≡ some plan.snapshot) × IsPublishable node publishing sealed_store plan))
assert_passed-IsPublishable_example =
    assert_passed-IsPublishable node publishing "t" (some snapshot) sealed_store passes_publication
