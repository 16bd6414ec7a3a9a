-- ===== src/Verification/Store/Passed.antt =====
-- What the tests of `boundPlan` show of the required checks and the approved paths:
-- packages/persistence/src/repositories/verification-repository.ts.
use gram_coding_agent.Base.{
  ℕ, String, ◌≡◌, ◌≢◌, sym, ap, subst, Bool, true, ◌&&◌, not, List, [], ◌∷◌, Option, none, some,
  Result, ok, All, all, ◌==◌, string_eq, Bool-cases, inl, inr, and-true, nat_eq,
}
use gram_coding_agent.Base.Results.{guard, bind-ok, guard-ok, ok-inj, ok≢err}
use gram_coding_agent.Table.{find_where, select_where}
use gram_coding_agent.Table.Order.{All-order_by}
use gram_coding_agent.Policy.Text.{Text, text_eq}
use gram_coding_agent.Task.Database.{CommandRunRow}
use gram_coding_agent.Verification.Evidence.{
  VerificationSnapshot, VerificationEvidence, VerificationError, read_plan_json, text_le,
  command_not_successful, foreign_command, required_not_passed, review_missing, path_absent,
}
use gram_coding_agent.Verification.Rows.{
  VerificationPlanRow, VerificationCheckRow, VerificationStore, pass, check_status_eq, has_evidence,
  distinct, without, sorted,
}
use gram_coding_agent.Verification.Store.Assertions.{
  Node, own_run, is_successful, assert_command_evidence,
}
use gram_coding_agent.Verification.Store.Bound.{
  assert_required, assert_review, assert_run, each, approved_by, collect_paths, is_diff_review,
  has_entry, is_none,
}

-- the run that a check names is a successful verification of the task
abbrev pub HasRun : VerificationStore → String → Option ℕ → Type 0
HasRun s task_id none = Unit
HasRun s task_id (some run_id) =
    (run : CommandRunRow) × ((find_where (λ r. r.id == run_id) s.database.command_runs ≡ some run)
      × ((run.task_id ≡ task_id) × (is_successful run ≡ true)))

abbrev pub HasPassed : VerificationStore → String → VerificationCheckRow → Type 0
HasPassed s task_id c =
    (c.status ≡ pass) × ((has_evidence c ≡ true) × HasRun s task_id c.command_run_id)

module _ {A : Type 0} where
  pub each-ok :
      (f : A → Result VerificationError (Unit {0})) (xs : List A) (u : Unit {0})
      → each f xs ≡ ok u
      → All (λ x. f x ≡ ok tt) xs
  each-ok f [] u h = tt
  each-ok f (x ∷ xs) u h =
      let (_, (e, h')) = bind-ok (f x) (λ _. each f xs) u h in (e, each-ok f xs u h')

  all-All : (p : A → Bool) (xs : List A) → all p xs ≡ true → All (λ x. p x ≡ true) xs
  all-All p [] h = tt
  all-All p (x ∷ xs) h = let (e, h') = and-true (p x) (all p xs) h in (e, all-All p xs h')

  pub All-imp : (P Q : A → Type 0) (f : (x : A) → P x → Q x) (xs : List A) → All P xs → All Q xs
  All-imp P Q f [] h = tt
  All-imp P Q f (x ∷ xs) (p, h) = (f x p, All-imp P Q f xs h)

  none-nonempty : (xs : List A) → not (is_none xs) ≡ true → xs ≢ []
  none-nonempty [] h e = cc
  none-nonempty (x ∷ xs) h e = cc

All-without :
    (P : Text → Type 0) (p : Text) (paths : List Text) → All P paths → All P (without p paths)
All-without P p [] h = tt
All-without P p (q ∷ t) (k, h) = elim (Bool-cases (p == q)) [
  | inl e ↦ rw e (All-without P p t h)
  | inr e ↦ rw e (k, All-without P p t h)
]

All-distinct : (P : Text → Type 0) (paths : List Text) → All P paths → All P (distinct paths)
All-distinct P [] h = tt
All-distinct P (p ∷ t) (k, h) = (k, All-without P p (distinct t) (All-distinct P t h))

own_run-some :
    (o : Option CommandRunRow) (task_id : String) (run : CommandRunRow)
    → own_run o task_id ≡ ok run
    → (o ≡ some run) × ((run.task_id ≡ task_id) × (is_successful run ≡ true))
own_run-some none task_id run h = absurd (ok≢err (sym h))
own_run-some (some r) task_id run h =
    let (_, (e1, h1)) = bind-ok (guard (r.task_id == task_id) foreign_command) _ run h in
    let (_, (e2, h2)) = bind-ok (guard (is_successful r) command_not_successful) _ run h1 in
    let same : r ≡ run = ok-inj h2 in
    let own =
      (string_eq.beq_iff r.task_id task_id).0
        (guard-ok (r.task_id == task_id) foreign_command _ e1) in
    let done = guard-ok (is_successful r) command_not_successful _ e2 in
    (
      ap some same,
      subst (λ (x : CommandRunRow). (x.task_id ≡ task_id) × (is_successful x ≡ true)) same
          (own, done),
    )

assert_command_evidence-run :
    (node : Node) (run_id : ℕ) (task_id : String) (check_id : ℕ) (floor : Option ℕ) (w : Bool)
    (s : VerificationStore) (run : CommandRunRow)
    → assert_command_evidence node run_id task_id check_id floor w s ≡ ok run
    → HasRun s task_id (some run_id)
unfolding assert_command_evidence
assert_command_evidence-run node run_id task_id check_id floor w s run h =
    let o = find_where (λ r. r.id == run_id) s.database.command_runs in
    let (r, (e, _)) = bind-ok (own_run o task_id) _ run h in (r, own_run-some o task_id r e)

assert_run-ok :
    (node : Node) (task_id : String) (id : ℕ) (floor : Option ℕ) (s : VerificationStore)
    (o : Option ℕ)
    → assert_run node task_id id floor s o ≡ ok tt
    → HasRun s task_id o
unfolding assert_run
assert_run-ok node task_id id floor s none h = tt
assert_run-ok node task_id id floor s (some run_id) h =
    let (run, (e, _)) =
      bind-ok (assert_command_evidence node run_id task_id id floor true s) _ tt h in
    assert_command_evidence-run node run_id task_id id floor true s run e

pub assert_required-ok :
    (node : Node) (row : VerificationPlanRow) (snapshot : VerificationSnapshot)
    (evidence : VerificationEvidence) (s : VerificationStore) (c : VerificationCheckRow)
    → assert_required node row snapshot evidence s c ≡ ok tt
    → HasPassed s row.task_id c
unfolding assert_required
assert_required-ok node row snapshot evidence s c h =
    let (plan, (e1, h1)) = bind-ok (read_plan_json row.plan_json) _ tt h in
    let (_, (e2, h2)) = bind-ok (assert_review node row plan snapshot evidence s c) _ tt h1 in
    let (_, (e3, h3)) =
      bind-ok (guard (c.status == pass && has_evidence c) required_not_passed) _ tt h2 in
    let (is_pass, proved) =
      and-true (c.status == pass) (has_evidence c) (guard-ok _ required_not_passed _ e3) in
    (
      (check_status_eq.beq_iff c.status pass).0 is_pass,
      (proved, assert_run-ok node row.task_id c.id evidence.command_floor s c.command_run_id h3),
    )

pub approved_by-ok :
    (required : List VerificationCheckRow) (snapshot : VerificationSnapshot)
    (evidence : VerificationEvidence) (paths : List Text)
    → approved_by required snapshot evidence ≡ ok paths
    → (select_where is_diff_review required ≢ [])
      × All (λ path. has_entry snapshot.entries path ≡ true) paths
unfolding approved_by sorted
approved_by-ok required snapshot evidence paths h =
    let reviews = select_where is_diff_review required in
    let (_, (e1, h1)) = bind-ok (guard (not (is_none reviews)) review_missing) _ paths h in
    let (all_paths, (e2, h2)) = bind-ok (collect_paths evidence.reviews reviews) _ paths h1 in
    let (_, (e3, h3)) =
      bind-ok (guard (all (has_entry snapshot.entries) all_paths) path_absent) _ paths h2 in
    let P : Text → Type 0 = λ path. has_entry snapshot.entries path ≡ true in
    let present = all-All (has_entry snapshot.entries) all_paths (guard-ok _ path_absent _ e3) in
    (
      none-nonempty reviews (guard-ok _ review_missing _ e1),
      subst (All P) (ok-inj h3)
          (All-order_by text_le P (distinct all_paths) (All-distinct P all_paths present)),
    )
