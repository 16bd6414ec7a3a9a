-- ===== src/Verification/Store/History.antt =====
-- The life of the verification tables: the calls of
-- packages/persistence/src/repositories/verification-repository.ts, in any order, between them any
-- change of the other tables. No code deletes a row that these tables refer to.
use gram_coding_agent.Base.{ℕ, ◌<◌, ◌≤◌, List, Option, none, some, Result, ok, err, All}
use gram_coding_agent.Base.Results.{◌>>=◌}
use gram_coding_agent.Table.{count_where}
use gram_coding_agent.Task.Database.{Database}
use gram_coding_agent.Verification.Evidence.{
  VerificationSnapshot, VerificationError, read_plan_json, read_evidence,
}
use gram_coding_agent.Verification.Rows.{
  VerificationPlanRow, VerificationCheckRow, VerificationStore, StoredVerificationReview,
}
use gram_coding_agent.Verification.Store.{
  CreateVerificationPlanInput, CreateVerificationCheckInput, create_plan, create_check, get_plan,
  check_is,
}
use gram_coding_agent.Verification.Store.Assertions.{Node}
use gram_coding_agent.Verification.Store.Bound.{seal_snapshot}
use gram_coding_agent.Verification.Store.Finish.{FinishVerificationCheckInput, finish_check}

pub data VerificationCall : Type 0 where
  plan_created : CreateVerificationPlanInput → ℕ → VerificationCall
  check_created : CreateVerificationCheckInput → VerificationCall
  check_finished : ℕ → FinishVerificationCheckInput → ℕ → VerificationCall
  snapshot_sealed : ℕ → VerificationSnapshot → VerificationCall
  others_changed : Database → List StoredVerificationReview → VerificationCall

-- the tables after a call, whether it returned or threw
unfoldable pub call : Node → VerificationCall → VerificationStore → VerificationStore
unfolding create_plan create_check finish_check seal_snapshot
call node (plan_created input now) s = (create_plan input now s).1
call node (check_created input) s = (create_check input s).1
call node (check_finished id input now) s = (finish_check node id input now s).1
call node (snapshot_sealed plan_id snapshot) s = (seal_snapshot node plan_id snapshot s).1
call node (others_changed database reviews) s = record s { database = database; reviews = reviews }

pub data Reaches (node : Node) : VerificationStore → VerificationStore → Type 0 where
  here : {s : VerificationStore} → Reaches node s s
  after :
      {s t : VerificationStore} (c : VerificationCall)
      → Reaches node s t
      → Reaches node s (call node c t)

abbrev pub snapshot_in :
    Result VerificationError (Option VerificationSnapshot) → Option VerificationSnapshot
snapshot_in (ok o) = o
snapshot_in (err _) = none

unfoldable pub sealed_of : VerificationPlanRow → Option VerificationSnapshot
unfolding read_plan_json read_evidence
sealed_of row = snapshot_in (
    read_plan_json row.plan_json >>= λ plan.
    read_evidence plan >>= λ evidence. ok evidence.snapshot)

abbrev pub sealed_in : Option VerificationPlanRow → Option VerificationSnapshot
unfolding sealed_of
sealed_in none = none
sealed_in (some row) = sealed_of row

-- the snapshot that a plan is sealed with
unfoldable pub sealed_snapshot : ℕ → VerificationStore → Option VerificationSnapshot
unfolding get_plan sealed_of
sealed_snapshot plan_id s = sealed_in (get_plan plan_id s)

-- the ids of the checks are given in order, each once
abbrev pub IsKeyed : VerificationStore → Type 0
IsKeyed s =
    All (λ (c : VerificationCheckRow). c.id < s.next_check_id) s.checks
    × ((id : ℕ) → count_where (check_is id) s.checks ≤ 1)
