-- ===== src/Verification/Store/Sound.antt =====
-- What a bound plan proves of its task: `getBoundPlan` of
-- packages/persistence/src/repositories/verification-repository.ts.
use gram_coding_agent.Base.{
  ℕ, String, ◌≡◌, ◌≢◌, refl, sym, ap, subst, true, ◌&&◌, not, List, [], Option, none, some, Result,
  ok, err, All, all, ◌==◌, string_eq, Bool-cases, inl, inr, and-true, nat_eq,
}
use gram_coding_agent.Base.Results.{guard, bind-ok, guard-ok, ok-inj}
use gram_coding_agent.Table.{select_where}
use gram_coding_agent.Policy.Text.{Text, text_eq}
use gram_coding_agent.Verification.Evidence.{
  VerificationSnapshot, VerificationEvidence, PlanObject, VerificationError, valid_snapshot,
  read_plan_json, read_evidence, snapshot_mismatch, foreign_check, no_required_checks,
}
use gram_coding_agent.Verification.Rows.{
  VerificationPlanRow, VerificationCheckRow, VerificationStore, check_status_eq,
}
use gram_coding_agent.Verification.Store.{latest_plan, list_for_plan}
use gram_coding_agent.Verification.Store.Assertions.{Node, head_is}
use gram_coding_agent.Verification.Store.Bound.{
  BoundVerificationPlan, bound_plan, bound_row, bound_snapshot, get_bound_plan, bound_latest,
  refuse_errors, assert_required, assert_backed, each, approved_by, is_required, is_diff_review,
  has_entry, snapshot_fits, is_none, is_asked,
}
use gram_coding_agent.Verification.Store.History.{sealed_of}
use gram_coding_agent.Verification.Store.Passed.{
  HasPassed, assert_required-ok, approved_by-ok, each-ok, All-imp,
}

abbrev pub required_checks : VerificationPlanRow → VerificationStore → List VerificationCheckRow
unfolding list_for_plan
required_checks row s = select_where is_required (list_for_plan row.id s)

-- what a bound plan states of the row it was read from
abbrev pub IsProof : VerificationStore → VerificationPlanRow → BoundVerificationPlan → Type 0
IsProof s row b =
    (sealed_of row ≡ some b.snapshot)
    × ((b.snapshot.task_id ≡ row.task_id)
        × ((row.head_sha ≡ some b.snapshot.head_sha)
            × ((select_where is_diff_review (required_checks row s) ≢ [])
                × (All (HasPassed s row.task_id) (required_checks row s)
                    × All (λ path. has_entry b.snapshot.entries path ≡ true) b.approved_paths))))

head_is-true : (o : Option Text) (sha : Text) → head_is o sha ≡ true → o ≡ some sha
head_is-true none sha h = cc
head_is-true (some head) sha h = ap some (sym ((text_eq.beq_iff sha head).0 h))

pub bound_plan-IsProof :
    (node : Node) (row : VerificationPlanRow) (snapshot : VerificationSnapshot)
    (evidence : VerificationEvidence) (s : VerificationStore) (b : BoundVerificationPlan)
    → sealed_of row ≡ some snapshot
    → bound_plan node row snapshot evidence s ≡ ok b
    → IsProof s row b × (b.id ≡ row.id)
unfolding bound_plan valid_snapshot snapshot_fits
bound_plan-IsProof node row snapshot evidence s b is_sealed h =
    let checks = list_for_plan row.id s in
    let required = select_where is_required checks in
    let (_, (e1, h1)) = bind-ok (guard (snapshot_fits row snapshot) snapshot_mismatch) _ b h in
    let (_, (e2, h2)) =
      bind-ok (guard (all (λ c. c.task_id == row.task_id) checks) foreign_check) _ b h1 in
    let (_, (e3, h3)) = bind-ok (guard (not (is_none required)) no_required_checks) _ b h2 in
    let (u, (e4, h4)) =
      bind-ok (each (assert_required node row snapshot evidence s) required) _ b h3 in
    let (_, (e5, h5)) = bind-ok (each (assert_backed checks) evidence.reviews) _ b h4 in
    let (paths, (e6, h6)) = bind-ok (approved_by required snapshot evidence) _ b h5 in
    let (front, of_head) =
      and-true (valid_snapshot snapshot && snapshot.task_id == row.task_id)
        (head_is row.head_sha snapshot.head_sha)
        (guard-ok (snapshot_fits row snapshot) snapshot_mismatch _ e1) in
    let (_, of_task) = and-true (valid_snapshot snapshot) (snapshot.task_id == row.task_id) front in
    let passed =
      All-imp (λ c. assert_required node row snapshot evidence s c ≡ ok tt)
        (HasPassed s row.task_id) (assert_required-ok node row snapshot evidence s) required
        (each-ok (assert_required node row snapshot evidence s) required u e4) in
    let (reviewed, present) = approved_by-ok required snapshot evidence paths e6 in
    subst (λ x. IsProof s row x × (x.id ≡ row.id)) (ok-inj h6)
      (
        (
          is_sealed,
          (
            (string_eq.beq_iff snapshot.task_id row.task_id).0 of_task,
            (head_is-true row.head_sha snapshot.head_sha of_head, (reviewed, (passed, present))),
          ),
        ),
        refl,
      )

pub some-inj : {A : Type 0} {a b : A} → some a ≡ some b → a ≡ b
some-inj h = cc

none-some : {A : Type 0} (a : A) → none ≢ some a
none-some a h = cc

refuse_errors-some :
    {A : Type 0} (r : Result VerificationError (Option A)) (a : A)
    → refuse_errors r ≡ some a
    → r ≡ ok (some a)
refuse_errors-some (ok o) a h = ap ok h
refuse_errors-some (err e) a h = cc

bound_snapshot-some :
    (node : Node) (row : VerificationPlanRow) (evidence : VerificationEvidence)
    (o : Option VerificationSnapshot) (s : VerificationStore) (b : BoundVerificationPlan)
    → bound_snapshot node row evidence o s ≡ ok (some b)
    → (snapshot : VerificationSnapshot) × ((o ≡ some snapshot)
        × (bound_plan node row snapshot evidence s ≡ ok b))
unfolding bound_snapshot
bound_snapshot-some node row evidence none s b h = cc
bound_snapshot-some node row evidence (some snapshot) s b h =
    let (x, (e, h')) = bind-ok (bound_plan node row snapshot evidence s) _ (some b) h in
    let same : x ≡ b = some-inj (ok-inj h') in
    (snapshot, (refl, subst (λ y. bound_plan node row snapshot evidence s ≡ ok y) same e))

sealed_of-read :
    (row : VerificationPlanRow) (plan : PlanObject) (evidence : VerificationEvidence)
    (snapshot : VerificationSnapshot)
    → read_plan_json row.plan_json ≡ ok plan
    → read_evidence plan ≡ ok evidence
    → evidence.snapshot ≡ some snapshot
    → sealed_of row ≡ some snapshot
unfolding sealed_of
sealed_of-read row plan evidence snapshot e1 e2 e3 = rw (e1, e2) e3

pub bound_row-IsProof :
    (node : Node) (row : VerificationPlanRow) (s : VerificationStore) (b : BoundVerificationPlan)
    → bound_row node row s ≡ some b
    → (b.id ≡ row.id) × IsProof s row b
unfolding bound_row
bound_row-IsProof node row s b h =
    let h0 = refuse_errors-some _ b h in
    let (plan, (e1, h1)) = bind-ok (read_plan_json row.plan_json) _ (some b) h0 in
    let (evidence, (e2, h2)) = bind-ok (read_evidence plan) _ (some b) h1 in
    let (snapshot, (e3, h3)) = bound_snapshot-some node row evidence evidence.snapshot s b h2 in
    let is_sealed : sealed_of row ≡ some snapshot =
      sealed_of-read row plan evidence snapshot e1 e2 e3 in
    let (proof, same) = bound_plan-IsProof node row snapshot evidence s b is_sealed h3 in
    (same, proof)

bound_latest-IsProof :
    (node : Node) (plan_id : Option ℕ) (s : VerificationStore) (b : BoundVerificationPlan)
    (o : Option VerificationPlanRow)
    → bound_latest node plan_id s o ≡ some b
    → (row : VerificationPlanRow) × ((o ≡ some row)
        × ((is_asked plan_id row ≡ true) × ((b.id ≡ row.id) × IsProof s row b)))
unfolding bound_latest
bound_latest-IsProof node plan_id s b none h = cc
bound_latest-IsProof node plan_id s b (some row) h = elim (Bool-cases (is_asked plan_id row)) [
  | inl asked ↦ (row, (refl, (asked, bound_row-IsProof node row s b (rw asked at h))))
  | inr other ↦ absurd (none-some b (rw other at h))
]

-- A plan that `getBoundPlan` returns is the latest plan of the task for that commit, sealed with the
-- snapshot returned, which is of that task and commit. A diff review is among the required checks;
-- each required check passed with evidence, and the command run that it names, if any, is a
-- successful verification of that task. Each approved path is in the snapshot.
pub get_bound_plan-IsProof :
    (node : Node) (task_id : String) (head_sha : Text) (plan_id : Option ℕ) (s : VerificationStore)
    (b : BoundVerificationPlan)
    → get_bound_plan node task_id head_sha plan_id s ≡ some b
    → (row : VerificationPlanRow) × ((latest_plan task_id (some head_sha) s ≡ some row)
        × ((is_asked plan_id row ≡ true) × ((b.id ≡ row.id) × IsProof s row b)))
unfolding get_bound_plan
get_bound_plan-IsProof node task_id head_sha plan_id s b h =
    bound_latest-IsProof node plan_id s b (latest_plan task_id (some head_sha) s) h
