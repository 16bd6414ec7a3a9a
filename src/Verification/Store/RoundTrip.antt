-- ===== src/Verification/Store/RoundTrip.antt =====
-- A plan that is sealed is bound: `sealSnapshot` and then `getBoundPlan` of
-- packages/persistence/src/repositories/verification-repository.ts.
use gram_coding_agent.Base.{
  ℕ, String, ◌≡◌, refl, sym, ◌∙◌, subst, true, ◌&&◌, not, List, [], ◌∷◌, Option, none, some, Result,
  ok, err, all, ◌==◌, string_eq, nat_eq, is_some, arith, ==-refl, Bool-cases, inl, inr, and-true,
}
use gram_coding_agent.Base.Results.{guard, bind-ok, guard-ok, ok-inj, ok≢err}
use gram_coding_agent.Table.{select_where}
use gram_coding_agent.Table.Unique.{latest_where-update}
use gram_coding_agent.Policy.Text.{Text, text_eq}
use gram_coding_agent.Verification.Evidence.{
  VerificationSnapshot, VerificationEvidence, PlanObject, EvidenceJson, shapeless, shaped, of_key,
  of_json, valid_reviews, valid_sealed, VerificationError, read_plan_json, read_evidence,
  valid_evidence, valid_snapshot, snapshot_mismatch, foreign_check, no_required_checks,
  already_sealed,
}
use gram_coding_agent.Verification.Rows.{
  VerificationPlanRow, VerificationCheckRow, VerificationStore,
}
use gram_coding_agent.Verification.Store.{
  get_plan, latest_plan, of_task, list_for_plan, save_evidence, commit, with_evidence, plan_is,
}
use gram_coding_agent.Verification.Store.Assertions.{
  Node, head_is, accepts, review_of, assert_external_review, assert_command_evidence,
}
use gram_coding_agent.Verification.Store.Bound.{
  BoundVerificationPlan, bound_plan, bound_row, bound_snapshot, bound_latest, get_bound_plan,
  seal_snapshot, checked_seal, assert_required, assert_review, assert_run, each, snapshot_fits,
  is_required, is_none, found, save_seal,
}
use gram_coding_agent.Verification.Store.Laws.{found-some}
use gram_coding_agent.Verification.Store.Sound.{bound_plan-IsProof, some-inj}
use gram_coding_agent.Verification.Store.History.{sealed_of}

-- the row with the evidence saved
abbrev saved : VerificationPlanRow → PlanObject → VerificationEvidence → VerificationPlanRow
saved row plan evidence = record row { plan_json = with_evidence plan evidence }

-- the evidence with the snapshot
abbrev sealing : VerificationEvidence → VerificationSnapshot → VerificationEvidence
sealing evidence snapshot = record evidence { snapshot = some snapshot }

valid_evidence-of_json :
    (o : Option EvidenceJson) (evidence : VerificationEvidence)
    → of_key o ≡ ok evidence
    → valid_evidence evidence ≡ true
unfolding of_key of_json valid_evidence valid_reviews valid_sealed
valid_evidence-of_json none evidence h = subst (λ e. valid_evidence e ≡ true) (ok-inj h) refl
valid_evidence-of_json (some shapeless) evidence h = absurd (ok≢err (sym h))
valid_evidence-of_json (some (shaped e)) evidence h = elim (Bool-cases (valid_evidence e)) [
  | inl v ↦ subst (λ x. valid_evidence x ≡ true) (ok-inj (rw v at h)) v
  | inr v ↦ absurd (ok≢err (sym (rw v at h)))
]

valid_evidence-sealing :
    (evidence : VerificationEvidence) (snapshot : VerificationSnapshot)
    → valid_evidence evidence ≡ true
    → valid_snapshot snapshot ≡ true
    → valid_evidence (sealing evidence snapshot) ≡ true
unfolding valid_evidence valid_sealed
valid_evidence-sealing evidence snapshot h v = ground (arith, v)

module _ (node : Node) (row : VerificationPlanRow) (plan : PlanObject)
    (evidence : VerificationEvidence) (snapshot : VerificationSnapshot) (plan_id : ℕ)
    (s : VerificationStore) where
  assert_required-saved :
      (c : VerificationCheckRow)
      → read_plan_json row.plan_json ≡ ok plan
      → assert_required node
          (saved row plan (sealing evidence snapshot))
          snapshot
          (sealing evidence snapshot)
          (save_evidence plan_id plan (sealing evidence snapshot) s)
          c
        ≡ assert_required node row snapshot evidence s c
  unfolding assert_required read_plan_json save_evidence assert_review assert_run
      assert_external_review accepts review_of assert_command_evidence
  assert_required-saved c e = rw e refl

  each-cong :
      (f g : VerificationCheckRow → Result VerificationError (Unit {0}))
      → ((c : VerificationCheckRow) → f c ≡ g c)
      → (checks : List VerificationCheckRow) → each f checks ≡ each g checks
  each-cong f g h [] = refl
  each-cong f g h (c ∷ t) = rw (h c, each-cong f g h t) refl

  bound_plan-saved :
      (b : BoundVerificationPlan)
      → read_plan_json row.plan_json ≡ ok plan
      → bound_plan node row snapshot evidence s ≡ ok b
      → bound_plan node
          (saved row plan (sealing evidence snapshot))
          snapshot
          (sealing evidence snapshot)
          (save_evidence plan_id plan (sealing evidence snapshot) s)
        ≡ ok b
  unfolding bound_plan snapshot_fits list_for_plan save_evidence
  bound_plan-saved b is_plan h =
      let checks = list_for_plan row.id s in
      let required = select_where is_required checks in
      let (_, (e1, h1)) = bind-ok (guard (snapshot_fits row snapshot) snapshot_mismatch) _ b h in
      let (_, (e2, h2)) =
        bind-ok (guard (all (λ c. c.task_id == row.task_id) checks) foreign_check) _ b h1 in
      let (_, (e3, h3)) = bind-ok (guard (not (is_none required)) no_required_checks) _ b h2 in
      let (_, (e4, h4)) =
        bind-ok (each (assert_required node row snapshot evidence s) required) _ b h3 in
      let ev = sealing evidence snapshot in
      let same =
        each-cong
          (assert_required node (saved row plan ev) snapshot ev (save_evidence plan_id plan ev s))
          (assert_required node row snapshot evidence s) (λ c. assert_required-saved c is_plan)
          required in
      rw (e1, e2, e3, same, e4) h4

  read_evidence-sealed :
      read_evidence plan ≡ ok evidence
      → valid_snapshot snapshot ≡ true
      → read_evidence
          (record plan { verification_evidence = some (shaped (sealing evidence snapshot)) })
        ≡ ok (sealing evidence snapshot)
  unfolding read_evidence of_key of_json
  read_evidence-sealed e v =
      rw
        (valid_evidence-sealing evidence snapshot
          (valid_evidence-of_json plan.verification_evidence evidence e) v)
        refl

  bound_plan-valid :
      (b : BoundVerificationPlan)
      → bound_plan node row snapshot evidence s ≡ ok b
      → valid_snapshot snapshot ≡ true
  unfolding bound_plan snapshot_fits
  bound_plan-valid b h =
      let (_, (fits, _)) = bind-ok (guard (snapshot_fits row snapshot) snapshot_mismatch) _ b h in
      let (front, _) =
        and-true (valid_snapshot snapshot && snapshot.task_id == row.task_id)
          (head_is row.head_sha snapshot.head_sha)
          (guard-ok (snapshot_fits row snapshot) snapshot_mismatch _ fits) in
      (and-true (valid_snapshot snapshot) (snapshot.task_id == row.task_id) front).0

  sealed_of-saved :
      read_evidence plan ≡ ok evidence
      → valid_snapshot snapshot ≡ true
      → sealed_of (saved row plan (sealing evidence snapshot)) ≡ some snapshot
  unfolding sealed_of read_plan_json
  sealed_of-saved e v = rw (read_evidence-sealed e v) refl

  -- the row that is saved is bound, with the snapshot
  bound_row-saved :
      (b : BoundVerificationPlan)
      → read_plan_json row.plan_json ≡ ok plan
      → read_evidence plan ≡ ok evidence
      → bound_plan node row snapshot evidence s ≡ ok b
      → (bound_row node
            (saved row plan (sealing evidence snapshot))
            (save_evidence plan_id plan (sealing evidence snapshot) s)
          ≡ some b)
        × (b.snapshot ≡ snapshot)
  unfolding bound_row read_plan_json bound_snapshot
  bound_row-saved b is_plan is_evidence h =
      let v = bound_plan-valid b h in
      let bound = bound_plan-saved b is_plan h in
      let is_sealed = sealed_of-saved is_evidence v in
      let ((e, _), _) =
        bound_plan-IsProof node (saved row plan (sealing evidence snapshot)) snapshot
          (sealing evidence snapshot) (save_evidence plan_id plan (sealing evidence snapshot) s) b
          is_sealed bound in
      (rw (read_evidence-sealed is_evidence v, bound) refl, some-inj (sym e ∙ is_sealed))

latest_plan-saved :
    (task_id : String) (head_sha : Text) (row : VerificationPlanRow) (plan : PlanObject)
    (evidence : VerificationEvidence) (s : VerificationStore)
    → latest_plan task_id (some head_sha) s ≡ some row
    → latest_plan task_id (some head_sha) (save_evidence row.id plan evidence s)
      ≡ some (saved row plan evidence)
unfolding latest_plan save_evidence
latest_plan-saved task_id head_sha row plan evidence s h =
    rw
      (
        latest_where-update (of_task task_id (some head_sha)) (plan_is row.id)
            (λ r. saved r plan evidence) (λ r e. refl) s.plans,
        h,
        ==-refl row.id,
      )
      refl

module _ (node : Node) (row : VerificationPlanRow) (snapshot : VerificationSnapshot)
    (s : VerificationStore) where
  -- the parts of a seal that was checked
  checked_seal-parts :
      (out : PlanObject × VerificationEvidence)
      → get_plan row.id s ≡ some row
      → checked_seal node row.id snapshot s ≡ ok out
      → (plan : PlanObject) × ((evidence : VerificationEvidence) × ((b : BoundVerificationPlan)
            × ((read_plan_json row.plan_json ≡ ok plan)
                × ((read_evidence plan ≡ ok evidence)
                    × ((bound_plan node row snapshot evidence s ≡ ok b)
                        × (out ≡ (plan, sealing evidence snapshot)))))))
  unfolding checked_seal
  checked_seal-parts out kept h =
      let (r, (e0, h0)) = bind-ok (found (get_plan row.id s)) _ out h in
      let r-is : r ≡ row = some-inj (sym (found-some (get_plan row.id s) r e0) ∙ kept) in
      let (plan, (e1, h1)) = bind-ok (read_plan_json r.plan_json) _ out h0 in
      let (evidence, (e2, h2)) = bind-ok (read_evidence plan) _ out h1 in
      let (_, (e3, h3)) =
        bind-ok (guard (not (is_some evidence.snapshot)) already_sealed) _ out h2 in
      let (b, (e4, h4)) = bind-ok (bound_plan node r snapshot evidence s) _ out h3 in
      (
        plan,
        (
          evidence,
          (
            b,
            (
              subst (λ x. read_plan_json x.plan_json ≡ ok plan) r-is e1,
              (
                e2,
                (
                  subst (λ x. bound_plan node x snapshot evidence s ≡ ok b) r-is e4,
                  sym (ok-inj h4),
                ),
              ),
            ),
          ),
        ),
      )

-- Where a snapshot is sealed into the latest plan of the task for the commit, `getBoundPlan` then
-- returns that plan with that snapshot.
pub seal_snapshot-bound :
    (node : Node) (task_id : String) (head_sha : Text) (snapshot : VerificationSnapshot)
    (row : VerificationPlanRow) (s : VerificationStore)
    → get_plan row.id s ≡ some row
    → latest_plan task_id (some head_sha) s ≡ some row
    → (seal_snapshot node row.id snapshot s).0 ≡ ok tt
    → (b : BoundVerificationPlan) × ((get_bound_plan node task_id head_sha
            (some row.id)
            (seal_snapshot node row.id snapshot s).1
          ≡ some b)
        × (b.snapshot ≡ snapshot))
unfolding seal_snapshot get_bound_plan save_seal bound_latest
seal_snapshot-bound node task_id head_sha snapshot row s kept latest h =
    go (checked_seal node row.id snapshot s) refl h
  where
    Bound : VerificationStore → Type 0
    Bound t =
        (b : BoundVerificationPlan) × ((get_bound_plan node task_id head_sha (some row.id) t
            ≡ some b)
          × (b.snapshot ≡ snapshot))

    saves :
        (plan : PlanObject) (evidence : VerificationEvidence) (b : BoundVerificationPlan)
        → read_plan_json row.plan_json ≡ ok plan
        → read_evidence plan ≡ ok evidence
        → bound_plan node row snapshot evidence s ≡ ok b
        → Bound (save_evidence row.id plan (sealing evidence snapshot) s)
    saves plan evidence b e1 e2 e3 =
        let (bound, same) = bound_row-saved node row plan evidence snapshot row.id s b e1 e2 e3 in
        let ev = sealing evidence snapshot in
        (
          b,
          (
            rw (latest_plan-saved task_id head_sha row plan ev s latest, ==-refl row.id) bound,
            same,
          ),
        )

    go :
        (r : Result VerificationError (PlanObject × VerificationEvidence))
        → checked_seal node row.id snapshot s ≡ r
        → (commit r (save_seal row.id) s).0 ≡ ok tt
        → Bound (commit r (save_seal row.id) s).1
    go (ok out) e h' =
        let (plan, (evidence, (b, (e1, (e2, (e3, same)))))) =
          checked_seal-parts node row snapshot s out kept e in
        subst (λ x. Bound (save_seal row.id x s).1) (sym same) (saves plan evidence b e1 e2 e3)
    go (err f) e h' = absurd (ok≢err (sym h'))
