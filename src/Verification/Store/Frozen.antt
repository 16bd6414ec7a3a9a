-- ===== src/Verification/Store/Frozen.antt =====
-- A sealed plan does not change any more:
-- packages/persistence/src/repositories/verification-repository.ts.
use gram_coding_agent.Base.{
  ℕ, ◌≡◌, ◌≢◌, refl, ap, ◌∙◌, Bool, List, [], ◌∷◌, ◌++◌, Option, none, some, Result-cases, inl, inr,
  nat_eq, ◌==◌, arith, append-nil, and-true, Bool-cases,
}
use gram_coding_agent.Table.{
  find_where, find_where-some, update_where, count_where, select_where, select_where-append,
}
use gram_coding_agent.Table.Unique.{select_where-update, find_where-append}
use gram_coding_agent.Verification.Evidence.{VerificationSnapshot, VerificationEvidence, PlanObject}
use gram_coding_agent.Verification.Rows.{
  VerificationPlanRow, VerificationCheckRow, VerificationStore, check_status_eq,
}
use gram_coding_agent.Verification.Store.{
  CreateVerificationPlanInput, CreateVerificationCheckInput, create_plan, create_check, insert_plan,
  insert_check, checked_plan, checked_check, get_plan, get_check, list_for_plan, save_evidence,
  plan_is, check_is, is_of_plan, with_evidence,
}
use gram_coding_agent.Verification.Store.Assertions.{Node}
use gram_coding_agent.Verification.Store.Bound.{seal_snapshot, save_seal, checked_seal}
use gram_coding_agent.Verification.Store.Finish.{
  Finish, FinishVerificationCheckInput, finish_check, checked_finish, finished_row,
  is_pending_check, save_finish, save_reviews,
}
use gram_coding_agent.Verification.Store.History.{
  VerificationCall, plan_created, check_created, check_finished, snapshot_sealed, others_changed,
  call, Reaches, here, after, sealed_snapshot, sealed_in, sealed_of, IsKeyed,
}
use gram_coding_agent.Verification.Store.Keys.{reaches-IsKeyed}
use gram_coding_agent.Verification.Store.Laws.{
  checked_check-open, checked_seal-open, checked_finish-open,
}

-- the row of the plan and its checks are the same
abbrev pub IsFrozen : ℕ → VerificationStore → VerificationStore → Type 0
IsFrozen id s t = (get_plan id t ≡ get_plan id s) × (list_for_plan id t ≡ list_for_plan id s)

-- another plan's evidence
save_evidence-get_plan :
    (id other : ℕ) (plan : PlanObject) (evidence : VerificationEvidence) (s : VerificationStore)
    → id ≢ other
    → get_plan id (save_evidence other plan evidence s) ≡ get_plan id s
unfolding get_plan save_evidence
save_evidence-get_plan id other plan evidence s away = go s.plans
  where
    go :
        (t : List VerificationPlanRow)
        → find_where (plan_is id) (
            update_where
              (plan_is other)
              (λ row. record row { plan_json = with_evidence plan evidence })
              t)
          ≡ find_where (plan_is id) t
    go [] = refl
    go (row ∷ t) = ground (arith, go t)

sealed-apart :
    (id other : ℕ) (snapshot : VerificationSnapshot) (s : VerificationStore)
    → sealed_snapshot id s ≡ some snapshot
    → sealed_snapshot other s ≡ none
    → id ≢ other
sealed-apart id other snapshot s h k e = cc

sealed-there :
    (o : Option VerificationPlanRow) (snapshot : VerificationSnapshot)
    → sealed_in o ≡ some snapshot
    → (row : VerificationPlanRow) × (o ≡ some row)
unfolding sealed_of
sealed-there none snapshot h = cc
sealed-there (some row) snapshot h = (row, refl)

find_where-more :
    (q : VerificationPlanRow → Bool) (t u : List VerificationPlanRow) (r : VerificationPlanRow)
    → find_where q t ≡ some r
    → find_where q (t ++ u) ≡ find_where q t
find_where-more q t u r e = ground (arith, find_where-append q t u)

-- the checks of a plan, with a check of another plan
list-more :
    (id : ℕ) (t : List VerificationCheckRow) (c : VerificationCheckRow)
    → id ≢ c.plan_id
    → select_where (is_of_plan id) (t ++ c ∷ []) ≡ select_where (is_of_plan id) t
list-more id t c away = ground (
  arith,
  select_where-append (is_of_plan id) t (c ∷ []),
  append-nil (select_where (is_of_plan id) t),
)

module _ (id : ℕ) (snapshot : VerificationSnapshot) (s : VerificationStore) where
  create_plan-IsFrozen :
      (input : CreateVerificationPlanInput) (now : ℕ)
      → sealed_snapshot id s ≡ some snapshot
      → IsFrozen id s (create_plan input now s).1
  unfolding create_plan insert_plan get_plan sealed_snapshot list_for_plan
  create_plan-IsFrozen input now h = elim (Result-cases (checked_plan input now s)) [
    | inl (row, e) ↦
        let (r, there) = sealed-there (get_plan id s) snapshot h in
        rw e (find_where-more (plan_is id) s.plans (row ∷ []) r there, refl)
    | inr (_, e) ↦ rw e (refl, refl)
  ]

  create_check-IsFrozen :
      (input : CreateVerificationCheckInput)
      → sealed_snapshot id s ≡ some snapshot
      → IsFrozen id s (create_check input s).1
  unfolding create_check insert_check get_plan list_for_plan
  create_check-IsFrozen input h = elim (Result-cases (checked_check input s)) [
    | inl (c, e) ↦
        let (opened, (of_plan, _)) = checked_check-open input s c e in
        let away = sealed-apart id input.plan_id snapshot s h opened in
        rw e (refl, list-more id s.checks c (λ q. away (q ∙ of_plan)))
    | inr (_, e) ↦ rw e (refl, refl)
  ]

  seal_snapshot-IsFrozen :
      (node : Node) (plan_id : ℕ) (other : VerificationSnapshot)
      → sealed_snapshot id s ≡ some snapshot
      → IsFrozen id s (seal_snapshot node plan_id other s).1
  unfolding seal_snapshot save_seal save_evidence list_for_plan
  seal_snapshot-IsFrozen node plan_id other h =
      elim (Result-cases (checked_seal node plan_id other s)) [
        | inl ((plan, evidence), e) ↦ rw e (
          save_evidence-get_plan id plan_id plan evidence s (
              sealed-apart id plan_id snapshot s h
                (checked_seal-open node plan_id other s (plan, evidence) e)),
          refl,
        )
        | inr (_, e) ↦ rw e (refl, refl)
      ]

  key-of : (key : ℕ) (row : VerificationPlanRow) → get_plan key s ≡ some row → row.id ≡ key
  unfolding get_plan
  key-of key row e = ground (arith, find_where-some (plan_is key) s.plans row e)

  save_finish-IsFrozen :
      (cid : ℕ) (input : FinishVerificationCheckInput) (now : ℕ) (f : Finish)
      (c : VerificationCheckRow)
      → IsKeyed s
      → get_check cid s ≡ some c
      → id ≢ c.plan_id
      → id ≢ f.row.id
      → IsFrozen id s (save_finish cid input now f s).1
  unfolding get_plan list_for_plan get_check finished_row save_reviews save_finish save_evidence
  save_finish-IsFrozen cid input now f c keyed e away elsewhere =
      elim (Bool-cases (count_where (is_pending_check cid) s.checks == 1)) [
        | inl one ↦ rw one (go f.evidence)
        | inr many ↦ rw many (refl, refl)
      ]
    where
      checks : List VerificationCheckRow
      checks = update_where (is_pending_check cid) (finished_row input now) s.checks

      same : select_where (is_of_plan id) checks ≡ select_where (is_of_plan id) s.checks
      same =
          select_where-update (is_of_plan id) (is_pending_check cid) (check_is cid)
            (finished_row input now) (λ r h. (and-true _ _ h).0) (λ r. refl) s.checks c
            (keyed.1 cid) e (ground (arith, away))

      go :
          (o : Option VerificationEvidence)
          → IsFrozen id s (save_reviews f o (record s { checks = checks }))
      go none = (refl, same)
      go (some evidence) = (save_evidence-get_plan id f.row.id f.plan evidence s elsewhere, same)

  finish_check-IsFrozen :
      (node : Node) (cid : ℕ) (input : FinishVerificationCheckInput) (now : ℕ)
      → IsKeyed s
      → sealed_snapshot id s ≡ some snapshot
      → IsFrozen id s (finish_check node cid input now s).1
  unfolding finish_check
  finish_check-IsFrozen node cid input now keyed h =
      elim (Result-cases (checked_finish node cid input s)) [
        | inl (f, e) ↦
            let (c, (kept, (_, (there, opened)))) = checked_finish-open node cid input s f e in
            let away = sealed-apart id c.plan_id snapshot s h opened in
            rw e (
              save_finish-IsFrozen cid input now f c keyed kept away
                (λ q. away (q ∙ key-of c.plan_id f.row there)))
        | inr (_, e) ↦ rw e (refl, refl)
      ]

  call-IsFrozen :
      (node : Node) (k : VerificationCall)
      → IsKeyed s
      → sealed_snapshot id s ≡ some snapshot
      → IsFrozen id s (call node k s)
  unfolding call get_plan list_for_plan
  call-IsFrozen node (plan_created input now) keyed h = create_plan-IsFrozen input now h
  call-IsFrozen node (check_created input) keyed h = create_check-IsFrozen input h
  call-IsFrozen node (check_finished cid input now) keyed h =
      finish_check-IsFrozen node cid input now keyed h
  call-IsFrozen node (snapshot_sealed plan_id other) keyed h =
      seal_snapshot-IsFrozen node plan_id other h
  call-IsFrozen node (others_changed database reviews) keyed h = (refl, refl)

-- Once a plan is sealed, no sequence of calls, with any change of the other tables between them,
-- alters its row, its snapshot or its checks, provided the ids of the checks are each given once.
pub sealed-IsFrozen :
    (node : Node) (id : ℕ) (snapshot : VerificationSnapshot) (s t : VerificationStore)
    → IsKeyed s
    → sealed_snapshot id s ≡ some snapshot
    → Reaches node s t
    → IsFrozen id s t × (sealed_snapshot id t ≡ some snapshot)
unfolding sealed_snapshot
sealed-IsFrozen node id snapshot s _ keyed h here = ((refl, refl), h)
sealed-IsFrozen node id snapshot s _ keyed h (after {t = t} k steps) =
    let ((same, list), kept) = sealed-IsFrozen node id snapshot s t keyed h steps in
    let (same', list') =
      call-IsFrozen id snapshot t node k (reaches-IsKeyed node s t keyed steps) kept in
    ((same' ∙ same, list' ∙ list), ap sealed_in same' ∙ kept)
