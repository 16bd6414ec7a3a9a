-- ===== src/Verification/Store/Laws.antt =====
-- What the steps of `createCheck`, `finishCheck` and `sealSnapshot` require of a plan:
-- packages/persistence/src/repositories/verification-repository.ts.
use gram_coding_agent.Base.{
  ℕ, String, ◌≡◌, refl, sym, ap, ◌∙◌, subst, true, not, Option, none, some, Result, ok, err,
  is_some, ◌==◌, string_eq,
}
use gram_coding_agent.Base.Results.{guard, bind-ok, guard-ok, ok≢err, ok-inj}
use gram_coding_agent.Verification.Evidence.{
  VerificationSnapshot, VerificationEvidence, PlanObject, VerificationError, read_plan_json,
  read_evidence, task_mismatch, not_pending, plan_sealed, constraint, already_sealed,
}
use gram_coding_agent.Verification.Rows.{
  VerificationPlanRow, VerificationCheckRow, VerificationStore, pending, check_status_eq,
}
use gram_coding_agent.Verification.Store.{
  CreateVerificationCheckInput, checked_check, get_plan, get_check, commit, plan_of_task,
  task_exists,
}
use gram_coding_agent.Verification.Store.Assertions.{Node}
use gram_coding_agent.Verification.Store.Bound.{checked_seal, found}
use gram_coding_agent.Verification.Store.Finish.{
  Finish, FinishVerificationCheckInput, checked_finish, pending_check, assert_external, assert_pass,
  reviewed, run_exists,
}
use gram_coding_agent.Verification.Store.History.{sealed_of, sealed_snapshot}

-- what holds of the tables before a transaction and after its statement holds after it
pub commit-keeps :
    {A B : Type 0} (P : VerificationStore → Type 0) (r : Result VerificationError A)
    (write : A → VerificationStore → Result VerificationError B × VerificationStore)
    (s : VerificationStore)
    → P s
    → ((a : A) → r ≡ ok a → P (write a s).1)
    → P (commit r write s).1
commit-keeps P (ok a) write s before written = written a refl
commit-keeps P (err e) write s before written = before

none-of-is_some : {A : Type 0} (o : Option A) → not (is_some o) ≡ true → o ≡ none
none-of-is_some none h = refl
none-of-is_some (some a) h = cc

-- a plan read as open is not sealed
pub sealed_of-open :
    (row : VerificationPlanRow) (plan : PlanObject) (evidence : VerificationEvidence)
    → read_plan_json row.plan_json ≡ ok plan
    → read_evidence plan ≡ ok evidence
    → not (is_some evidence.snapshot) ≡ true
    → sealed_of row ≡ none
unfolding sealed_of
sealed_of-open row plan evidence p q h = rw (p, q) (none-of-is_some evidence.snapshot h)

pub plan_of_task-some :
    (o : Option VerificationPlanRow) (task_id : String) (row : VerificationPlanRow)
    → plan_of_task o task_id ≡ ok row
    → o ≡ some row
plan_of_task-some none task_id row h = absurd (ok≢err (sym h))
plan_of_task-some (some r) task_id row h =
    let (u, (_, e)) = bind-ok (guard (r.task_id == task_id) task_mismatch) (λ _. ok r) row h in cc

pub found-some :
    (o : Option VerificationPlanRow) (row : VerificationPlanRow) → found o ≡ ok row → o ≡ some row
found-some none row h = absurd (ok≢err (sym h))
found-some (some r) row h = cc

pub pending_check-some :
    (id : ℕ) (o : Option VerificationCheckRow) (c : VerificationCheckRow)
    → pending_check id o ≡ ok c
    → (o ≡ some c) × ((c.status == pending) ≡ true)
pending_check-some id none c h = absurd (ok≢err (sym h))
pending_check-some id (some r) c h =
    let (u, (g, e)) = bind-ok (guard (r.status == pending) (not_pending id)) (λ _. ok r) c h in
    let q : r ≡ c = cc in
    (
      rw q refl,
      subst (λ (x : VerificationCheckRow). (x.status == pending) ≡ true) q
          (guard-ok (r.status == pending) (not_pending id) u g),
    )

module _ (input : CreateVerificationCheckInput) (s : VerificationStore)
    (c : VerificationCheckRow) where
  -- a check is added to a plan that is there and not sealed
  pub checked_check-open :
      checked_check input s ≡ ok c
      → (sealed_snapshot input.plan_id s ≡ none)
        × ((c.plan_id ≡ input.plan_id) × (c.id ≡ s.next_check_id))
  unfolding checked_check sealed_snapshot
  checked_check-open h =
      let (row, (e1, h1)) = bind-ok (plan_of_task (get_plan input.plan_id s) input.task_id) _ c h in
      let (plan, (e2, h2)) = bind-ok (read_plan_json row.plan_json) _ c h1 in
      let (evidence, (e3, h3)) = bind-ok (read_evidence plan) _ c h2 in
      let (_, (e4, h4)) = bind-ok (guard (not (is_some evidence.snapshot)) plan_sealed) _ c h3 in
      let (_, (e5, h5)) = bind-ok (guard (task_exists input.task_id s) constraint) _ c h4 in
      let opened = sealed_of-open row plan evidence e2 e3 (guard-ok _ plan_sealed _ e4) in
      let same = sym (ok-inj h5) in
      (
        rw (plan_of_task-some (get_plan input.plan_id s) input.task_id row e1) opened,
        (
          ap (λ (x : VerificationCheckRow). x.plan_id) same,
          ap (λ (x : VerificationCheckRow). x.id) same,
        ),
      )

module _ (node : Node) (plan_id : ℕ) (snapshot : VerificationSnapshot) (s : VerificationStore)
    (out : PlanObject × VerificationEvidence) where
  -- a plan is sealed where it is there, not sealed before, and bound
  pub checked_seal-open :
      checked_seal node plan_id snapshot s ≡ ok out → sealed_snapshot plan_id s ≡ none
  unfolding checked_seal sealed_snapshot
  checked_seal-open h =
      let (row, (e1, h1)) = bind-ok (found (get_plan plan_id s)) _ out h in
      let (plan, (e2, h2)) = bind-ok (read_plan_json row.plan_json) _ out h1 in
      let (evidence, (e3, h3)) = bind-ok (read_evidence plan) _ out h2 in
      let (_, (e4, h4)) =
        bind-ok (guard (not (is_some evidence.snapshot)) already_sealed) _ out h3 in
      let opened = sealed_of-open row plan evidence e2 e3 (guard-ok _ already_sealed _ e4) in
      rw (found-some (get_plan plan_id s) row e1) opened

module _ (node : Node) (id : ℕ) (input : FinishVerificationCheckInput) (s : VerificationStore)
    (f : Finish) where
  -- A check is finished where it is there and pending, its plan is there and not sealed; the evidence
  -- is saved on that plan.
  pub checked_finish-open :
      checked_finish node id input s ≡ ok f
      → (c : VerificationCheckRow) × ((get_check id s ≡ some c)
          × (((c.status == pending) ≡ true)
              × ((get_plan c.plan_id s ≡ some f.row) × (sealed_snapshot c.plan_id s ≡ none))))
  unfolding checked_finish sealed_snapshot
  checked_finish-open h =
      let (c, (e0, h0)) = bind-ok (pending_check id (get_check id s)) _ f h in
      let (row, (e1, h1)) = bind-ok (plan_of_task (get_plan c.plan_id s) c.task_id) _ f h0 in
      let (plan, (e2, h2)) = bind-ok (read_plan_json row.plan_json) _ f h1 in
      let (evidence, (e3, h3)) = bind-ok (read_evidence plan) _ f h2 in
      let (_, (e4, h4)) = bind-ok (guard (not (is_some evidence.snapshot)) plan_sealed) _ f h3 in
      let (_, (e5, h5)) = bind-ok (assert_external node row plan c input s) _ f h4 in
      let (_, (e6, h6)) = bind-ok (assert_pass node c evidence.command_floor input s) _ f h5 in
      let (saved, (e7, h7)) = bind-ok (reviewed c input evidence input.approved_paths) _ f h6 in
      let (_, (e8, h8)) = bind-ok (guard (run_exists input.command_run_id s) constraint) _ f h7 in
      let opened = sealed_of-open row plan evidence e2 e3 (guard-ok _ plan_sealed _ e4) in
      let there = plan_of_task-some (get_plan c.plan_id s) c.task_id row e1 in
      let (kept, is_pending) = pending_check-some id (get_check id s) c e0 in
      let finish : Finish = record { row = row; plan = plan; evidence = saved } in
      let same : finish ≡ f = ok-inj h8 in
      let row_of : row ≡ f.row = ap (λ (x : Finish). x.row) same in
      (c, (kept, (is_pending, (there ∙ ap some row_of, rw there opened))))
