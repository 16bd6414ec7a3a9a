-- ===== src/Verification/Store/Finish.antt =====
-- `VerificationRepository.finishCheck`:
-- packages/persistence/src/repositories/verification-repository.ts.
use gram_coding_agent.Base.{
  ℕ, String, Bool, true, false, ◌&&◌, not, List, [], ◌∷◌, ◌++◌, Option, none, some, any, all,
  if◌then◌else◌, ◌==◌, string_eq, nat_eq, Result, ok, err, is_some,
}
use gram_coding_agent.Base.Results.{◌>>=◌, guard}
use gram_coding_agent.Table.{update_where, count_where}
use gram_coding_agent.Policy.Text.{Text, trim, is_empty}
use gram_coding_agent.Task.Store.{or_else}
use gram_coding_agent.Verification.Evidence.{
  ReviewEvidence, VerificationEvidence, PlanObject, VerificationError, not_pending, plan_sealed,
  evidence_required, approved_paths_misplaced, invalid_path, constraint, read_plan_json,
  read_evidence, valid_path,
}
use gram_coding_agent.Verification.Rows.{
  StoredVerificationCheckStatus, pending, pass, fail, skipped, not_required, check_status_eq,
  VerificationPlanRow, VerificationCheckRow, VerificationStore, distinct, sorted,
}
use gram_coding_agent.Verification.Store.{get_plan, get_check, plan_of_task, commit, save_evidence}
use gram_coding_agent.Verification.Store.Assertions.{
  Node, assert_command_evidence, assert_external_review,
}
use gram_coding_agent.Verification.Store.Bound.{is_external_name}

-- a status other than PENDING
pub data FinishedStatus : Type 0 where
  to_pass to_fail to_skipped to_not_required : FinishedStatus

abbrev pub stored_status : FinishedStatus → StoredVerificationCheckStatus
stored_status to_pass = pass
stored_status to_fail = fail
stored_status to_skipped = skipped
stored_status to_not_required = not_required

pub record FinishVerificationCheckInput : Type 0 where
  pub status : FinishedStatus
  pub command_run_id : Option ℕ
  pub evidence_ref : Option Text
  pub approved_paths : Option (List Text)
  pub reason : Option String
  pub started_at : Option ℕ
  pub finished_at : Option ℕ

abbrev pub pending_check :
    ℕ → Option VerificationCheckRow → Result VerificationError VerificationCheckRow
pending_check id none = err (not_pending id)
pending_check id (some c) = guard (c.status == pending) (not_pending id) >>= λ _. ok c

-- `input.evidenceRef?.trim() ?? null`
unfoldable pub trimmed : Option Text → Option Text
unfolding trim
trimmed none = none
trimmed (some ref) = some (trim ref)

abbrev pub is_given : Option Text → Bool
is_given none = false
is_given (some ref) = not (is_empty ref)

unfoldable pub assert_external :
    Node
    → VerificationPlanRow
    → PlanObject
    → VerificationCheckRow
    → FinishVerificationCheckInput
    → VerificationStore
    → Result VerificationError (Unit {0})
unfolding assert_external_review trim
assert_external node row plan c input s =
    if plan.external_reviews && is_external_name c.name
    then assert_external_review node row c (trimmed input.evidence_ref) (stored_status input.status)
        (or_else input.approved_paths []) none s
    else ok tt

unfoldable pub assert_proof :
    Node
    → VerificationCheckRow
    → Option ℕ
    → Option ℕ
    → Option Text
    → VerificationStore
    → Result VerificationError (Unit {0})
unfolding assert_command_evidence
assert_proof node c floor none ref s = guard (is_given ref) evidence_required
assert_proof node c floor (some run_id) ref s =
    assert_command_evidence node run_id c.task_id c.id floor false s >>= λ _. ok tt

unfoldable pub assert_pass :
    Node
    → VerificationCheckRow
    → Option ℕ
    → FinishVerificationCheckInput
    → VerificationStore
    → Result VerificationError (Unit {0})
unfolding assert_command_evidence trim
assert_pass node c floor input s =
    if stored_status input.status == pass
    then assert_proof node c floor input.command_run_id (trimmed input.evidence_ref) s
    else ok tt

unfoldable pub takes_paths : VerificationCheckRow → FinishVerificationCheckInput → Bool
unfolding trim
takes_paths c input =
    c.name == "diff-review"
    && stored_status input.status == pass
    && not (is_some input.command_run_id)
    && is_given (trimmed input.evidence_ref)

unfoldable pub new_review : ℕ → FinishVerificationCheckInput → List Text → ReviewEvidence
unfolding trim sorted
new_review check_id input paths = record {
  check_id = check_id;
  evidence_ref = or_else (trimmed input.evidence_ref) [];
  approved_paths = sorted (distinct paths);
}

-- the evidence to save, where the check approves paths
unfoldable pub reviewed :
    VerificationCheckRow
    → FinishVerificationCheckInput
    → VerificationEvidence
    → Option (List Text)
    → Result VerificationError (Option VerificationEvidence)
unfolding valid_path trim sorted
reviewed c input evidence none = ok none
reviewed c input evidence (some paths) =
    guard (takes_paths c input) approved_paths_misplaced >>= λ _.
    guard (all valid_path paths) invalid_path >>= λ _.
    ok (some (record evidence { reviews = evidence.reviews ++ new_review c.id input paths ∷ [] }))

-- `command_run_id INTEGER REFERENCES command_runs(id)`
abbrev pub run_exists : Option ℕ → VerificationStore → Bool
run_exists none s = true
run_exists (some run_id) s = any (λ r. r.id == run_id) s.database.command_runs

-- the row of the plan, its value and the evidence to save
pub record Finish : Type 0 where
  pub row : VerificationPlanRow
  pub plan : PlanObject
  pub evidence : Option VerificationEvidence

unfoldable pub checked_finish :
    Node → ℕ → FinishVerificationCheckInput → VerificationStore → Result VerificationError Finish
unfolding get_check get_plan read_plan_json read_evidence assert_external_review
    assert_command_evidence trim valid_path sorted
checked_finish node id input s = pending_check id (get_check id s) >>= λ c.
    plan_of_task (get_plan c.plan_id s) c.task_id >>= λ row.
    read_plan_json row.plan_json >>= λ plan. read_evidence plan >>= λ evidence.
    guard (not (is_some evidence.snapshot)) plan_sealed >>= λ _.
    assert_external node row plan c input s >>= λ _.
    assert_pass node c evidence.command_floor input s >>= λ _.
    reviewed c input evidence input.approved_paths >>= λ saved.
    guard (run_exists input.command_run_id s) constraint >>= λ _.
    ok (record { row = row; plan = plan; evidence = saved })

abbrev pub is_pending_check : ℕ → VerificationCheckRow → Bool
is_pending_check id c = c.id == id && c.status == pending

unfoldable pub finished_row :
    FinishVerificationCheckInput → ℕ → VerificationCheckRow → VerificationCheckRow
unfolding trim
finished_row input now c = record c {
  status = stored_status input.status;
  command_run_id = input.command_run_id;
  evidence_ref = trimmed input.evidence_ref;
  reason = input.reason;
  started_at = some (or_else c.started_at (or_else input.started_at now));
  finished_at = some (or_else input.finished_at now);
}

unfoldable pub save_reviews :
    Finish → Option VerificationEvidence → VerificationStore → VerificationStore
unfolding save_evidence
save_reviews f none s = s
save_reviews f (some evidence) s = save_evidence f.row.id f.plan evidence s

unfoldable pub save_finish :
    ℕ
    → FinishVerificationCheckInput
    → ℕ
    → Finish
    → VerificationStore
    → Result VerificationError (Unit {0}) × VerificationStore
unfolding save_reviews finished_row
save_finish id input now f s =
    let checks = update_where (is_pending_check id) (finished_row input now) s.checks in
    if count_where (is_pending_check id) s.checks == 1
    then (ok tt, save_reviews f f.evidence (record s { checks = checks }))
    else (err (not_pending id), s)

unfoldable pub finish_check :
    Node
    → ℕ
    → FinishVerificationCheckInput
    → ℕ
    → VerificationStore
    → Result VerificationError (Unit {0}) × VerificationStore
unfolding checked_finish save_finish
finish_check node id input now s =
    commit (checked_finish node id input s) (save_finish id input now) s
