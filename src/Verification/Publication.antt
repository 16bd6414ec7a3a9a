-- ===== src/Verification/Publication.antt =====
-- `BoundPublishingVerification`: apps/agent/src/verified-publishing.ts, on the verification tables.
-- The snapshot that is captured and the check of a commit are arguments.
use gram_coding_agent.Base.{
  ℕ, String, ◌≡◌, refl, sym, ap, ap₂, ◌∷◌, [], and-true, ◌∙◌, subst, Bool, true, ◌&&◌, List, Option,
  none, some, ◌==◌, string_eq, nat_eq, Result, ok, err,
}
use gram_coding_agent.Base.Results.{◌>>=◌, guard, bind-ok, guard-ok, ok-inj, ok≢err}
use gram_coding_agent.Policy.Text.{Text, text_eq}
use gram_coding_agent.Verification.Evidence.{VerificationSnapshot}
use gram_coding_agent.Verification.Rows.{VerificationStore, VerificationPlanRow, sorted, same_paths}
use gram_coding_agent.Verification.Snapshot.{same_snapshot, same_snapshot_iff}
use gram_coding_agent.Verification.Store.{latest_plan}
use gram_coding_agent.Verification.Store.Assertions.{Node}
use gram_coding_agent.Verification.Store.Bound.{BoundVerificationPlan, get_bound_plan}
use gram_coding_agent.Verification.Store.Sound.{IsProof, get_bound_plan-IsProof}

pub record BoundPublishingOptions : Type 0 where
  pub task_id : String
  pub plan_id : ℕ
  pub head_sha : Text
  pub paths : List Text

pub data PublicationError : Type 0 where
  task_mismatch plan_absent paths_mismatch snapshot_changed capture_failed : PublicationError
  commit_refused : PublicationError

abbrev pub is_plan_of : BoundPublishingOptions → String → BoundVerificationPlan → Bool
is_plan_of options task_id plan =
    (plan.id == options.plan_id) && plan.task_id == task_id && plan.head_sha == options.head_sha

unfoldable pub present :
    BoundPublishingOptions
    → String
    → Option BoundVerificationPlan
    → Result PublicationError BoundVerificationPlan
present options task_id none = err plan_absent
present options task_id (some plan) =
    guard (is_plan_of options task_id plan) plan_absent >>= λ _. ok plan

unfoldable pub require_plan :
    Node
    → BoundPublishingOptions
    → String
    → VerificationStore
    → Result PublicationError BoundVerificationPlan
unfolding get_bound_plan present sorted
require_plan node options task_id s = guard (task_id == options.task_id) task_mismatch >>= λ _.
    present options task_id (get_bound_plan node task_id options.head_sha (some options.plan_id) s)
    >>= λ plan.
        guard (same_paths (sorted plan.approved_paths) (sorted options.paths)) paths_mismatch
        >>= λ _. ok plan

abbrev pub taken : Option VerificationSnapshot → Result PublicationError VerificationSnapshot
taken none = err capture_failed
taken (some current) = ok current

unfoldable pub assert_passed :
    Node
    → BoundPublishingOptions
    → String
    → Option VerificationSnapshot
    → VerificationStore
    → Result PublicationError (Unit {0})
unfolding require_plan same_snapshot
assert_passed node options task_id captured s = require_plan node options task_id s >>= λ plan.
    taken captured >>= λ current. guard (same_snapshot current plan.snapshot) snapshot_changed

-- the check of a commit, of the snapshot and the approved paths
unfoldable pub assert_committed :
    Node
    → BoundPublishingOptions
    → String
    → (VerificationSnapshot → List Text → Text → Bool)
    → Text
    → VerificationStore
    → Result PublicationError (Unit {0})
unfolding require_plan
assert_committed node options task_id is_committed sha s =
    require_plan node options task_id s >>= λ plan.
    guard (is_committed plan.snapshot plan.approved_paths sha) commit_refused

present-some :
    (options : BoundPublishingOptions) (task_id : String) (o : Option BoundVerificationPlan)
    (plan : BoundVerificationPlan)
    → present options task_id o ≡ ok plan
    → o ≡ some plan
unfolding present
present-some options task_id none plan h = absurd (ok≢err (sym h))
present-some options task_id (some p) plan h =
    let (_, (_, e)) = bind-ok (guard (is_plan_of options task_id p) plan_absent) _ plan h in
    ap some (ok-inj e)

taken-some :
    (o : Option VerificationSnapshot) (current : VerificationSnapshot)
    → taken o ≡ ok current
    → o ≡ some current
taken-some none current h = absurd (ok≢err (sym h))
taken-some (some c) current h = ap some (ok-inj h)

same_paths-equal : (s t : List Text) → same_paths s t ≡ true → s ≡ t
same_paths-equal [] [] h = refl
same_paths-equal [] (q ∷ t) h = cc
same_paths-equal (p ∷ s) [] h = cc
same_paths-equal (p ∷ s) (q ∷ t) h =
    let (e, k) = and-true (p == q) (same_paths s t) h in
    ap₂ (λ a b. a ∷ b) ((text_eq.beq_iff p q).0 e) (same_paths-equal s t k)

-- The plan that a publication may rest on: the bound plan of the asked task, commit and number. Its
-- approved paths, put in order, are the paths to publish, put in order.
abbrev pub IsPublishable :
    Node → BoundPublishingOptions → VerificationStore → BoundVerificationPlan → Type 0
IsPublishable node options s plan =
    (get_bound_plan node options.task_id options.head_sha (some options.plan_id) s ≡ some plan)
    × (row : VerificationPlanRow) × ((latest_plan options.task_id (some options.head_sha) s
          ≡ some row)
        × ((row.id ≡ options.plan_id)
            × (IsProof s row plan × (sorted plan.approved_paths ≡ sorted options.paths))))

require_plan-IsPublishable :
    (node : Node) (options : BoundPublishingOptions) (task_id : String) (s : VerificationStore)
    (plan : BoundVerificationPlan)
    → require_plan node options task_id s ≡ ok plan
    → (task_id ≡ options.task_id) × IsPublishable node options s plan
unfolding require_plan
require_plan-IsPublishable node options task_id s plan h =
    let (_, (e1, h1)) = bind-ok (guard (task_id == options.task_id) task_mismatch) _ plan h in
    let of_task = (string_eq.beq_iff task_id options.task_id).0 (guard-ok _ task_mismatch _ e1) in
    let found = get_bound_plan node task_id options.head_sha (some options.plan_id) s in
    let (p, (e2, h2)) = bind-ok (present options task_id found) _ plan h1 in
    let (_, (e3, h3)) =
      bind-ok (guard (same_paths (sorted p.approved_paths) (sorted options.paths)) paths_mismatch) _
        plan h2 in
    let bound = present-some options task_id found p e2 in
    let (row, (latest, (asked, (_, proof)))) =
      get_bound_plan-IsProof node task_id options.head_sha (some options.plan_id) s p bound in
    let publishable : IsPublishable node options s p = (
      subst (λ t. get_bound_plan node t options.head_sha (some options.plan_id) s ≡ some p) of_task
          bound,
      row,
      (
        subst (λ t. latest_plan t (some options.head_sha) s ≡ some row) of_task latest,
        (
          (nat_eq.beq_iff row.id options.plan_id).0 asked,
          (proof, same_paths-equal _ _ (guard-ok _ paths_mismatch _ e3)),
        ),
      ),
    ) in
    (of_task, subst (IsPublishable node options s) (ok-inj h3) publishable)

-- Where `assertPassed` returns, the snapshot captured is the one that the plan is sealed with, and
-- the plan is the one that `getBoundPlan` answers for the asked task, commit and number, the latest
-- plan of the task for that commit, with all that a bound plan proves; the paths to publish, put in
-- order, are the approved paths of that plan, put in order.
pub assert_passed-IsPublishable :
    (node : Node) (options : BoundPublishingOptions) (task_id : String)
    (captured : Option VerificationSnapshot) (s : VerificationStore)
    → assert_passed node options task_id captured s ≡ ok tt
    → (plan : BoundVerificationPlan) × ((task_id ≡ options.task_id)
        × ((captured ≡ some plan.snapshot) × IsPublishable node options s plan))
unfolding assert_passed
assert_passed-IsPublishable node options task_id captured s h =
    let (plan, (e1, h1)) = bind-ok (require_plan node options task_id s) _ tt h in
    let (current, (e2, h2)) = bind-ok (taken captured) _ tt h1 in
    let (of_task, publishable) = require_plan-IsPublishable node options task_id s plan e1 in
    let same = (same_snapshot_iff current plan.snapshot).0 (guard-ok _ snapshot_changed _ h2) in
    (plan, (of_task, (taken-some captured current e2 ∙ ap some same, publishable)))
