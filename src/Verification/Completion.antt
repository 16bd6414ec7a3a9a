-- ===== src/Verification/Completion.antt =====
-- `CompletionEvaluator`: packages/verification/src/completion-evaluator.ts, on the checks that
-- `listForTask` reads.
use gram_coding_agent.Base.{
  String, Bool, true, false, ◌&&◌, List, [], ◌∷◌, Option, all, sym, subst, ◌==◌, ◌≡◌, ◌≢◌, ◌↔◌,
  refl, All, and-true,
}
use gram_coding_agent.Table.{select_where}
use gram_coding_agent.Policy.Text.{Text}
use gram_coding_agent.Verification.Rows.{
  VerificationCheckRow, VerificationStore, pass, check_status_eq, has_evidence,
}
use gram_coding_agent.Verification.Store.{list_for_task}
use gram_coding_agent.Verification.Store.Bound.{is_required}

unfoldable pub has_passed : VerificationCheckRow → Bool
unfolding has_evidence
has_passed c = c.status == pass && has_evidence c

abbrev pub all_of_some : (VerificationCheckRow → Bool) → List VerificationCheckRow → Bool
all_of_some p [] = false
all_of_some p (c ∷ t) = all p (c ∷ t)

abbrev pub when_some : List VerificationCheckRow → Bool → Bool
when_some [] b = false
when_some (_ ∷ _) b = b

unfoldable pub required_checks_passed : String → Option Text → VerificationStore → Bool
unfolding list_for_task has_passed
required_checks_passed task_id head_sha s =
    let checks = list_for_task task_id head_sha s in
    when_some checks (all_of_some has_passed (select_where is_required checks))

-- the required checks of the latest plan
abbrev pub required_of : String → Option Text → VerificationStore → List VerificationCheckRow
unfolding list_for_task
required_of task_id head_sha s = select_where is_required (list_for_task task_id head_sha s)

abbrev pub IsPassed : VerificationCheckRow → Type 0
IsPassed c = (c.status ≡ pass) × (has_evidence c ≡ true)

all_iff : (l : List VerificationCheckRow) → (all has_passed l ≡ true) ↔ All IsPassed l
unfolding has_passed
all_iff [] = (λ _. tt, λ _. refl)
all_iff (c ∷ t) = (
  λ h.
      let (e, k) = and-true (has_passed c) (all has_passed t) h in
      let (p, q) = and-true (c.status == pass) (has_evidence c) e in
      (((check_status_eq.beq_iff c.status pass).0 p, q), (all_iff t).0 k),
  λ h.
      let ((p, q), k) = h in
      rw ((check_status_eq.beq_iff c.status pass).1 p, q, (all_iff t).1 k) refl,
)

some_iff :
    (l : List VerificationCheckRow)
    → (all_of_some has_passed l ≡ true) ↔ ((l ≢ []) × All IsPassed l)
unfolding has_passed
some_iff [] = (λ h. cc, λ (h : ([] ≢ []) × _). absurd (h.0 refl))
some_iff (c ∷ t) = (
  λ h. (λ e. cc, (all_iff (c ∷ t)).0 h),
  λ (h : _ × All IsPassed (c ∷ t)). (all_iff (c ∷ t)).1 h.1,
)

when_some-lem :
    (checks : List VerificationCheckRow)
    → when_some checks (all_of_some has_passed (select_where is_required checks))
      ≡ all_of_some has_passed (select_where is_required checks)
unfolding has_passed
when_some-lem [] = refl
when_some-lem (c ∷ t) = refl

-- `requiredChecksPassed` holds exactly where the latest plan of the task has a required check and
-- each required check has passed with evidence.
pub required_checks_passed_iff :
    (task_id : String) (head_sha : Option Text) (s : VerificationStore)
    → (required_checks_passed task_id head_sha s ≡ true)
      ↔ ((required_of task_id head_sha s ≢ []) × All IsPassed (required_of task_id head_sha s))
unfolding required_checks_passed required_of
required_checks_passed_iff task_id head_sha s =
    let checks = list_for_task task_id head_sha s in
    subst
      (λ b.
        (b ≡ true)
        ↔ ((select_where is_required checks ≢ []) × All IsPassed (select_where is_required checks)))
      (sym (when_some-lem checks)) (some_iff (select_where is_required checks))
