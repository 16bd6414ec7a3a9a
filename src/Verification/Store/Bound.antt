-- ===== src/Verification/Store/Bound.antt =====
-- The proof that a plan is verified: `boundPlan`, `getBoundPlan` and `sealSnapshot` of
-- packages/persistence/src/repositories/verification-repository.ts.
use gram_coding_agent.Base.{
  ℕ, String, Bool, true, false, ◌&&◌, ◌||◌, not, List, [], ◌∷◌, ◌++◌, Option, none, some, all,
  if◌then◌else◌, ◌==◌, string_eq, nat_eq, Result, ok, err, is_some, map, contains,
}
use gram_coding_agent.Base.Results.{◌>>=◌, guard}
use gram_coding_agent.Table.{find_where, select_where}
use gram_coding_agent.Policy.Text.{Text, text_eq}
use gram_coding_agent.Verification.Evidence.{
  SnapshotEntry, VerificationSnapshot, ReviewEvidence, VerificationEvidence, PlanObject,
  VerificationError, plan_not_found, already_sealed, snapshot_mismatch, foreign_check,
  no_required_checks, required_not_passed, review_mismatch, review_missing, paths_missing,
  path_absent, read_plan_json, read_evidence, valid_snapshot,
}
use gram_coding_agent.Verification.Rows.{
  pass, check_status_eq, VerificationPlanRow, VerificationCheckRow, VerificationStore,
  review_state_eq, has_evidence, distinct, sorted,
}
use gram_coding_agent.Verification.Store.{
  get_plan, list_for_plan, latest_plan, commit, save_evidence,
}
use gram_coding_agent.Verification.Store.Assertions.{
  Node, assert_command_evidence, head_is, assert_external_review,
}

pub record BoundVerificationPlan : Type 0 where
  pub id : ℕ
  pub task_id : String
  pub head_sha : Text
  pub snapshot : VerificationSnapshot
  pub approved_paths : List Text
  pub checks : List VerificationCheckRow

abbrev pub is_external_name : String → Bool
is_external_name name = name == "secret-scan" || name == "diff-review"

abbrev pub evidence_of : ℕ → List ReviewEvidence → Option ReviewEvidence
evidence_of check_id reviews = find_where (λ r. r.check_id == check_id) reviews

abbrev pub paths_of : Option ReviewEvidence → List Text
paths_of none = []
paths_of (some review) = review.approved_paths

-- the run of a check that has one
unfoldable pub assert_run :
    Node
    → String
    → ℕ
    → Option ℕ
    → VerificationStore
    → Option ℕ
    → Result VerificationError (Unit {0})
unfolding assert_command_evidence
assert_run node task_id check_id floor s none = ok tt
assert_run node task_id check_id floor s (some run_id) =
    assert_command_evidence node run_id task_id check_id floor true s >>= λ _. ok tt

unfoldable pub assert_review :
    Node
    → VerificationPlanRow
    → PlanObject
    → VerificationSnapshot
    → VerificationEvidence
    → VerificationStore
    → VerificationCheckRow
    → Result VerificationError (Unit {0})
unfolding assert_external_review
assert_review node row plan snapshot evidence s c =
    if plan.external_reviews && is_external_name c.name
    then assert_external_review node row c c.evidence_ref c.status
        (paths_of (evidence_of c.id evidence.reviews)) (some snapshot) s
    else ok tt

-- one turn of the loop over the required checks
unfoldable pub assert_required :
    Node
    → VerificationPlanRow
    → VerificationSnapshot
    → VerificationEvidence
    → VerificationStore
    → VerificationCheckRow
    → Result VerificationError (Unit {0})
unfolding read_plan_json has_evidence assert_run
assert_required node row snapshot evidence s c = read_plan_json row.plan_json >>= λ plan.
    assert_review node row plan snapshot evidence s c >>= λ _.
    guard (c.status == pass && has_evidence c) required_not_passed >>= λ _.
    assert_run node row.task_id c.id evidence.command_floor s c.command_run_id

-- `for (const x of list) …` where the body throws or passes
abbrev pub each :
    {A : Type 0}
    → (A → Result VerificationError (Unit {0}))
    → List A
    → Result VerificationError (Unit {0})
each f [] = ok tt
each f (x ∷ xs) = let rest = each f xs in f x >>= λ _. rest

abbrev pub same_ref : Option Text → Text → Bool
same_ref none ref = false
same_ref (some mine) ref = mine == ref

abbrev pub backs : ReviewEvidence → Option VerificationCheckRow → Bool
backs review none = false
backs review (some c) =
    c.name == "diff-review"
    && c.status == pass
    && not (is_some c.command_run_id)
    && same_ref c.evidence_ref review.evidence_ref

abbrev pub assert_backed :
    List VerificationCheckRow → ReviewEvidence → Result VerificationError (Unit {0})
assert_backed checks review =
    guard (backs review (find_where (λ c. c.id == review.check_id) checks)) review_mismatch

abbrev pub append_paths :
    Option ReviewEvidence
    → Result VerificationError (List Text)
    → Result VerificationError (List Text)
append_paths none rest = err paths_missing
append_paths (some recorded) rest = rest >>= λ paths. ok (recorded.approved_paths ++ paths)

-- the paths that the reviews approve, each of which must be recorded
unfoldable pub collect_paths :
    List ReviewEvidence → List VerificationCheckRow → Result VerificationError (List Text)
collect_paths reviews [] = ok []
collect_paths reviews (c ∷ t) = append_paths (evidence_of c.id reviews) (collect_paths reviews t)

abbrev pub is_required : VerificationCheckRow → Bool
is_required c = c.required

abbrev pub is_diff_review : VerificationCheckRow → Bool
is_diff_review c = c.name == "diff-review"

abbrev pub has_entry : List SnapshotEntry → Text → Bool
has_entry entries path = contains (map (λ e. e.path) entries) path

unfoldable pub snapshot_fits : VerificationPlanRow → VerificationSnapshot → Bool
unfolding valid_snapshot
snapshot_fits row snapshot =
    valid_snapshot snapshot
    && snapshot.task_id == row.task_id
    && head_is row.head_sha snapshot.head_sha

abbrev pub is_none : {A : Type 0} → List A → Bool
is_none [] = true
is_none (_ ∷ _) = false

unfoldable pub approved_by :
    List VerificationCheckRow
    → VerificationSnapshot
    → VerificationEvidence
    → Result VerificationError (List Text)
unfolding collect_paths
approved_by required snapshot evidence =
    let reviews = select_where is_diff_review required in
    guard (not (is_none reviews)) review_missing >>= λ _.
    collect_paths evidence.reviews reviews >>= λ paths.
    guard (all (has_entry snapshot.entries) paths) path_absent >>= λ _. ok (sorted (distinct paths))

abbrev pub bound :
    VerificationPlanRow
    → VerificationSnapshot
    → List VerificationCheckRow
    → List Text
    → BoundVerificationPlan
bound row snapshot checks paths = record {
  id = row.id;
  task_id = row.task_id;
  head_sha = snapshot.head_sha;
  snapshot = snapshot;
  approved_paths = paths;
  checks = checks;
}

unfoldable pub bound_plan :
    Node
    → VerificationPlanRow
    → VerificationSnapshot
    → VerificationEvidence
    → VerificationStore
    → Result VerificationError BoundVerificationPlan
unfolding list_for_plan assert_required approved_by
bound_plan node row snapshot evidence s =
    let checks = list_for_plan row.id s in
    let required = select_where is_required checks in
    guard (snapshot_fits row snapshot) snapshot_mismatch >>= λ _.
    guard (all (λ c. c.task_id == row.task_id) checks) foreign_check >>= λ _.
    guard (not (is_none required)) no_required_checks >>= λ _.
    each (assert_required node row snapshot evidence s) required >>= λ _.
    each (assert_backed checks) evidence.reviews >>= λ _.
    approved_by required snapshot evidence >>= λ paths. ok (bound row snapshot checks paths)

abbrev pub refuse_errors : {A : Type 0} → Result VerificationError (Option A) → Option A
refuse_errors (ok a) = a
refuse_errors (err _) = none

unfoldable pub bound_snapshot :
    Node
    → VerificationPlanRow
    → VerificationEvidence
    → Option VerificationSnapshot
    → VerificationStore
    → Result VerificationError (Option BoundVerificationPlan)
unfolding bound_plan
bound_snapshot node row evidence none s = ok none
bound_snapshot node row evidence (some snapshot) s =
    bound_plan node row snapshot evidence s >>= λ b. ok (some b)

-- a proof that is malformed, incomplete or foreign authorizes nothing
unfoldable pub bound_row :
    Node → VerificationPlanRow → VerificationStore → Option BoundVerificationPlan
unfolding read_plan_json read_evidence bound_snapshot
bound_row node row s = refuse_errors (
    read_plan_json row.plan_json >>= λ plan.
    read_evidence plan >>= λ evidence. bound_snapshot node row evidence evidence.snapshot s)

abbrev pub is_asked : Option ℕ → VerificationPlanRow → Bool
is_asked none row = true
is_asked (some plan_id) row = row.id == plan_id

unfoldable pub bound_latest :
    Node → Option ℕ → VerificationStore → Option VerificationPlanRow → Option BoundVerificationPlan
unfolding bound_row
bound_latest node plan_id s none = none
bound_latest node plan_id s (some row) = if is_asked plan_id row then bound_row node row s else none

unfoldable pub get_bound_plan :
    Node → String → Text → Option ℕ → VerificationStore → Option BoundVerificationPlan
unfolding latest_plan bound_latest
get_bound_plan node task_id head_sha plan_id s =
    bound_latest node plan_id s (latest_plan task_id (some head_sha) s)

abbrev pub found : Option VerificationPlanRow → Result VerificationError VerificationPlanRow
found none = err plan_not_found
found (some row) = ok row

-- the plan and the evidence with the snapshot, where it can be sealed
unfoldable pub checked_seal :
    Node
    → ℕ
    → VerificationSnapshot
    → VerificationStore
    → Result VerificationError (PlanObject × VerificationEvidence)
unfolding get_plan read_plan_json read_evidence bound_plan
checked_seal node plan_id snapshot s = found (get_plan plan_id s) >>= λ row.
    read_plan_json row.plan_json >>= λ plan. read_evidence plan >>= λ evidence.
    guard (not (is_some evidence.snapshot)) already_sealed >>= λ _.
    bound_plan node row snapshot evidence s >>= λ _.
    ok (plan, record evidence { snapshot = some snapshot })

unfoldable pub save_seal :
    ℕ
    → PlanObject × VerificationEvidence
    → VerificationStore
    → Result VerificationError (Unit {0}) × VerificationStore
unfolding save_evidence
save_seal plan_id (plan, evidence) s = (ok tt, save_evidence plan_id plan evidence s)

unfoldable pub seal_snapshot :
    Node
    → ℕ
    → VerificationSnapshot
    → VerificationStore
    → Result VerificationError (Unit {0}) × VerificationStore
unfolding checked_seal
seal_snapshot node plan_id snapshot s =
    commit (checked_seal node plan_id snapshot s) (save_seal plan_id) s
