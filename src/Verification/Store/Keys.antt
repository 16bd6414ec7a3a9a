-- ===== src/Verification/Store/Keys.antt =====
-- The ids of the verification checks: AUTOINCREMENT gives each once
-- (packages/persistence/src/repositories/verification-repository.ts).
use gram_coding_agent.Base.{
  ℕ, suc, ◌<◌, ◌≡◌, refl, List, [], ◌∷◌, ◌++◌, Option, none, some, inl, inr, All, All-append,
  All-mono, arith, Bool-cases, nat_eq, ◌==◌,
}
use gram_coding_agent.Table.{
  update_where, count_where, count_where-append, count_where-update, All-update_where,
}
use gram_coding_agent.Verification.Evidence.{VerificationEvidence}
use gram_coding_agent.Verification.Rows.{VerificationCheckRow, VerificationStore}
use gram_coding_agent.Verification.Store.{
  create_plan, create_check, insert_plan, insert_check, checked_plan, checked_check, save_evidence,
  check_is,
}
use gram_coding_agent.Verification.Store.Assertions.{Node}
use gram_coding_agent.Verification.Store.Bound.{seal_snapshot, checked_seal, save_seal}
use gram_coding_agent.Verification.Store.Finish.{
  Finish, FinishVerificationCheckInput, finish_check, checked_finish, finished_row,
  is_pending_check, save_finish, save_reviews,
}
use gram_coding_agent.Verification.Store.History.{
  VerificationCall, plan_created, check_created, check_finished, snapshot_sealed, others_changed,
  call, Reaches, here, after, IsKeyed,
}
use gram_coding_agent.Verification.Store.Laws.{checked_check-open, commit-keeps}

abbrev IsBelow : ℕ → VerificationCheckRow → Type 0
IsBelow n c = c.id < n

fresh : (n : ℕ) (t : List VerificationCheckRow) → All (IsBelow n) t → count_where (check_is n) t ≡ 0
fresh n [] h = refl
fresh n (c ∷ t) (first, h) = ground (arith, fresh n t h)

add-IsKeyed :
    (c : VerificationCheckRow) (s : VerificationStore)
    → c.id ≡ s.next_check_id
    → IsKeyed s
    → IsKeyed (record s { checks = s.checks ++ c ∷ []; next_check_id = suc s.next_check_id })
add-IsKeyed c s e (below, once) =
    let n = s.next_check_id in
    (
      All-append (IsBelow (suc n)) s.checks (c ∷ [])
          (All-mono (IsBelow n) (IsBelow (suc n)) (λ x h. omega arith) s.checks below)
          (omega (arith, e), tt),
      λ id. ground (
        arith,
        count_where-append (check_is id) s.checks (c ∷ []),
        once id,
        fresh n s.checks below,
        e,
      ),
    )

update-IsKeyed :
    (input : FinishVerificationCheckInput) (id now : ℕ) (s : VerificationStore)
    → IsKeyed s
    → IsKeyed
        (record s { checks = update_where (is_pending_check id) (finished_row input now) s.checks })
unfolding finished_row
update-IsKeyed input id now s (below, once) = (
  All-update_where (IsBelow s.next_check_id) (is_pending_check id) (finished_row input now)
      (λ c h e. h) s.checks below,
  λ key.
      rw
        (count_where-update (check_is key) (is_pending_check id) (finished_row input now)
          (λ c e. refl) s.checks)
        (once key),
)

save_finish-IsKeyed :
    (input : FinishVerificationCheckInput) (id now : ℕ) (f : Finish) (s : VerificationStore)
    → IsKeyed s
    → IsKeyed (save_finish id input now f s).1
unfolding save_finish save_evidence save_reviews
save_finish-IsKeyed input id now f s keyed =
    elim (Bool-cases (count_where (is_pending_check id) s.checks == 1)) [
      | inl one ↦ rw one (go f.evidence)
      | inr many ↦ rw many keyed
    ]
  where
    next : VerificationStore
    next = record s {
      checks = update_where (is_pending_check id) (finished_row input now) s.checks;
    }

    go : (o : Option VerificationEvidence) → IsKeyed (save_reviews f o next)
    go none = update-IsKeyed input id now s keyed
    go (some evidence) = update-IsKeyed input id now s keyed

call-IsKeyed :
    (node : Node) (k : VerificationCall) (s : VerificationStore)
    → IsKeyed s
    → IsKeyed (call node k s)
unfolding call create_plan insert_plan create_check insert_check seal_snapshot save_evidence
    finish_check save_seal
call-IsKeyed node (plan_created input now) s keyed =
    commit-keeps IsKeyed (checked_plan input now s) insert_plan s keyed (λ row e. keyed)
call-IsKeyed node (check_created input) s keyed =
    commit-keeps IsKeyed (checked_check input s) insert_check s keyed
      (λ c e. add-IsKeyed c s (checked_check-open input s c e).1.1 keyed)
call-IsKeyed node (check_finished id input now) s keyed =
    commit-keeps IsKeyed (checked_finish node id input s) (save_finish id input now) s keyed
      (λ f e. save_finish-IsKeyed input id now f s keyed)
call-IsKeyed node (snapshot_sealed plan_id snapshot) s keyed =
    commit-keeps IsKeyed (checked_seal node plan_id snapshot s) (save_seal plan_id) s keyed
      (λ out e. keyed)
call-IsKeyed node (others_changed database reviews) s keyed = keyed

pub reaches-IsKeyed :
    (node : Node) (s t : VerificationStore) → IsKeyed s → Reaches node s t → IsKeyed t
reaches-IsKeyed node s _ keyed here = keyed
reaches-IsKeyed node s _ keyed (after {t = t} k steps) =
    call-IsKeyed node k t (reaches-IsKeyed node s t keyed steps)
