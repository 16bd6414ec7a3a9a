-- ===== src/Verification/Store/Assertions.antt =====
-- The evidence of a check that passed: `assertCommandEvidence` and `assertExternalReview` of
-- packages/persistence/src/repositories/verification-repository.ts. The path functions and the hash
-- of Node are arguments.
use gram_coding_agent.Base.{
  ℕ, String, Bool, false, ◌&&◌, ◌||◌, not, List, Option, none, some, any, all, ◌==◌, string_eq,
  nat_eq, leb, Result, ok, err, map,
}
use gram_coding_agent.Base.Results.{◌>>=◌, guard}
use gram_coding_agent.Table.{find_where}
use gram_coding_agent.Policy.Text.{Text, text_eq}
use gram_coding_agent.Task.Database.{CommandRunRow, WorkspaceRow}
use gram_coding_agent.Task.Store.Local.{exit_is_zero}
use gram_coding_agent.Verification.Evidence.{
  VerificationSnapshot, VerificationError, foreign_command, command_not_successful,
  command_predates, command_consumed, command_outside_workspace, external_mismatch,
  external_snapshot_mismatch, workspace_changed, is_digest,
}
use gram_coding_agent.Verification.Rows.{
  StoredVerificationCheckStatus, check_status_eq, VerificationPlanRow, VerificationCheckRow,
  VerificationStore, StoredVerificationReview, accepted, review_state_eq, sorted, same_paths,
  external_id,
}

-- `node:path`, and `sha256` of the JSON text of a snapshot
pub record Node : Type 0 where
  pub is_absolute : String → Bool
  pub resolve : String → String
  pub snapshot_digest : VerificationSnapshot → Text

abbrev pub is_successful : CommandRunRow → Bool
is_successful run =
    run.category == "VERIFICATION" && run.status == "SUCCEEDED" && exit_is_zero run.exit_code

abbrev pub own_run : Option CommandRunRow → String → Result VerificationError CommandRunRow
own_run none task_id = err command_not_successful
own_run (some run) task_id = guard (run.task_id == task_id) foreign_command >>= λ _.
    guard (is_successful run) command_not_successful >>= λ _. ok run

-- the run is not one of those made before the plan
abbrev pub after_floor : Bool → Option ℕ → ℕ → Bool
after_floor require_workspace none run_id = not require_workspace
after_floor require_workspace (some floor) run_id = not (leb run_id floor)

abbrev pub holds_run : ℕ → VerificationCheckRow → Bool
holds_run run_id c = elim (c.command_run_id) [ none ↦ false | some id ↦ id == run_id ]

abbrev pub consumed_elsewhere : ℕ → ℕ → List VerificationCheckRow → Bool
consumed_elsewhere run_id check_id checks =
    any (λ c. holds_run run_id c && not (c.id == check_id)) checks

abbrev pub ran_in_workspace : Node → CommandRunRow → Option WorkspaceRow → Bool
ran_in_workspace node run none = false
ran_in_workspace node run (some workspace) =
    node.is_absolute run.cwd
    && node.is_absolute workspace.linux_path
    && (node.resolve run.cwd == node.resolve workspace.linux_path)

abbrev pub find_workspace : String → VerificationStore → Option WorkspaceRow
find_workspace task_id s = find_where (λ w. w.task_id == task_id) s.database.workspaces

unfoldable pub assert_command_evidence :
    Node
    → ℕ
    → String
    → ℕ
    → Option ℕ
    → Bool
    → VerificationStore
    → Result VerificationError CommandRunRow
assert_command_evidence node run_id task_id check_id floor require_workspace s =
    own_run (find_where (λ r. r.id == run_id) s.database.command_runs) task_id >>= λ run.
    guard (after_floor require_workspace floor run_id) command_predates >>= λ _.
    guard (not (consumed_elsewhere run_id check_id s.checks)) command_consumed >>= λ _.
    guard (not require_workspace || ran_in_workspace node run (find_workspace task_id s))
      command_outside_workspace
    >>= λ _. ok run

abbrev pub is_decision : StoredVerificationCheckStatus → Option StoredVerificationCheckStatus → Bool
is_decision status none = false
is_decision status (some decision) = decision == status

abbrev pub head_is : Option Text → Text → Bool
head_is none sha = false
head_is (some head) sha = sha == head

unfoldable pub accepts :
    VerificationPlanRow
    → VerificationCheckRow
    → StoredVerificationCheckStatus
    → List Text
    → StoredVerificationReview
    → Bool
unfolding sorted
accepts row c status paths review =
    review.state == accepted
    && review.task_id == row.task_id
    && review.plan_id == row.id
    && review.check_id == c.id
    && review.check_name == c.name
    && head_is row.head_sha review.head_sha
    && is_decision status review.decision
    && same_paths (sorted review.approved_paths) (sorted paths)

unfoldable pub review_of : Option Text → VerificationStore → Option StoredVerificationReview
unfolding external_id
review_of ref s = elim (external_id ref) [
  | none ↦ none
  | some id ↦ find_where (λ r. r.id == id) s.reviews
]

abbrev pub accepted_review :
    VerificationPlanRow
    → VerificationCheckRow
    → StoredVerificationCheckStatus
    → List Text
    → Option StoredVerificationReview
    → Result VerificationError StoredVerificationReview
accepted_review row c status paths none = err external_mismatch
accepted_review row c status paths (some review) =
    guard (accepts row c status paths review) external_mismatch >>= λ _. ok review

unfoldable pub saw_snapshot : Node → StoredVerificationReview → VerificationSnapshot → Bool
unfolding sorted is_digest
saw_snapshot node review snapshot =
    review.snapshot_digest == node.snapshot_digest snapshot
    && same_paths (sorted (map (λ v. v.path) review.views)) (map (λ e. e.path) snapshot.entries)
    && all (λ v. is_digest v.digest) review.views

abbrev pub same_workspace : StoredVerificationReview → Option WorkspaceRow → Bool
same_workspace review none = false
same_workspace review (some w) =
    (w.id == review.workspace_id)
    && w.linux_path == review.workspace_path
    && w.branch == review.branch

abbrev pub assert_sealed_review :
    Node
    → VerificationPlanRow
    → StoredVerificationReview
    → Option VerificationSnapshot
    → VerificationStore
    → Result VerificationError (Unit {0})
assert_sealed_review node row review none s = ok tt
assert_sealed_review node row review (some snapshot) s =
    guard (saw_snapshot node review snapshot) external_snapshot_mismatch >>= λ _.
    guard (same_workspace review (find_workspace row.task_id s)) workspace_changed

unfoldable pub assert_external_review :
    Node
    → VerificationPlanRow
    → VerificationCheckRow
    → Option Text
    → StoredVerificationCheckStatus
    → List Text
    → Option VerificationSnapshot
    → VerificationStore
    → Result VerificationError (Unit {0})
assert_external_review node row c ref status paths snapshot s =
    accepted_review row c status paths (review_of ref s) >>= λ review.
    assert_sealed_review node row review snapshot s
