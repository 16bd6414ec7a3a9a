-- ===== src/Approval/Tests.antt =====
-- Runs of the approval repository on a small table.
use gram_coding_agent.Base.{
  ℕ, ◌+◌, ◌≡◌, refl, arith, true, false, [], ◌∷◌, Option, none, some, ltb, string_eq,
}
use gram_coding_agent.Approval.{
  ApprovalStatus, pending, approved, StoredApproval, Approvals, live_pair, get, approve, deny,
  consume, approval_ttl_ms,
}
use gram_coding_agent.Approval.Laws.{IsWellFormed}
use gram_coding_agent.Approval.Use.{consume_once, approve_then_consume}

abbrev approval : ApprovalStatus → Option ℕ → StoredApproval
approval status expires_at = record {
  id = 1;
  task_id = "t";
  policy_decision_id = none;
  operation_hash = "h";
  status = status;
  requested_at = 0;
  approved_at = none;
  consumed_at = none;
  expires_at = expires_at;
}

abbrev table : StoredApproval → Approvals
table a = record { rows = a ∷ []; next_id = 2 }

approved-IsWellFormed : IsWellFormed (table (approval approved (some 90)))
approved-IsWellFormed = record {
  one_live = λ t h. ground arith;
  ids = λ id. ground arith;
  below = (omega arith, tt);
}

pending-IsWellFormed : IsWellFormed (table (approval pending none))
pending-IsWellFormed = record {
  one_live = λ t h. ground arith;
  ids = λ id. ground arith;
  below = (omega arith, tt);
}

used : (consume "t" "h" 50 (table (approval approved (some 90)))).0 ≡ true
unfolding consume gram_coding_agent.Approval.ApprovalStatus-discrete
used = refl

consume_once_example :
    (consume "t" "h" 60 (consume "t" "h" 50 (table (approval approved (some 90)))).1).0 ≡ false
consume_once_example =
    consume_once "t" "h" 50 60 (table (approval approved (some 90))) approved-IsWellFormed used

found : get 1 (table (approval pending none)) ≡ some (approval pending none)
unfolding get
found = refl

approve_then_consume_example :
    (consume "t" "h" 1000 (approve 1 "h" 500 (table (approval pending none))).1).0
    ≡ ltb 1000 (500 + approval_ttl_ms)
approve_then_consume_example =
    approve_then_consume 1 500 1000 (table (approval pending none)) (approval pending none)
      pending-IsWellFormed found refl
