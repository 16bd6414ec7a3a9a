-- ===== src/Approval/Laws.antt =====
-- The constraints of the approvals table: packages/persistence/src/repositories/approval-repository.ts.
use gram_coding_agent.Base.{
  ℕ, ◌≤◌, ◌<◌, ◌≡◌, refl, String, Bool, true, List, Option, All, nat_eq, arith, and-true,
}
use gram_coding_agent.Table.{update_where, count_where, count_where-update_le, All-update_where}
use gram_coding_agent.Approval.{
  Approvals, StoredApproval, ApprovalStatus-discrete, approval_status_eq, is_pair, live_pair,
  is_stale, is_usable, set_expired, set_consumed, set_approved, set_denied, expire_stale,
  new_approval, has_id, approve, deny, consume, pending_id,
}

-- The constraints of the table: the unique index on live pairs, and ids given in order.
pub record IsWellFormed (t : Approvals) : Type 0 where
  pub one_live : (task_id hash : String) → count_where (live_pair task_id hash) t.rows ≤ 1
  pub ids : (id : ℕ) → count_where (has_id id) t.rows ≤ 1
  pub below : All (λ a. a.id < t.next_id) t.rows

-- an update that makes no row live and keeps the ids keeps the constraints
module _ (p : StoredApproval → Bool) (f : StoredApproval → StoredApproval)
    (not_revived : (j k : String) (a : StoredApproval)
      → p a ≡ true
      → live_pair j k (f a) ≡ true
      → live_pair j k a ≡ true)
    (same_id : (a : StoredApproval) → (f a).id ≡ a.id) where
  update-IsWellFormed :
      (t : Approvals) → IsWellFormed t → IsWellFormed (record t { rows = update_where p f t.rows })
  update-IsWellFormed t wf = record {
    one_live = λ j k. omega (
      arith,
      count_where-update_le (live_pair j k) p f (not_revived j k) t.rows,
      wf.one_live j k,
    );
    ids = λ id. omega (
      arith,
      count_where-update_le (has_id id) p f (λ a _ h. rw (← same_id a) h) t.rows,
      wf.ids id,
    );
    below =
        All-update_where (λ a. a.id < t.next_id) p f (λ a h _. rw (same_id a) h) t.rows wf.below;
  }

pub expire_stale-IsWellFormed :
    (task_id hash : String) (now : ℕ) (t : Approvals)
    → IsWellFormed t
    → IsWellFormed (record t { rows = expire_stale task_id hash now t.rows })
unfolding expire_stale
expire_stale-IsWellFormed task_id hash now =
    update-IsWellFormed (is_stale task_id hash now) set_expired (λ j k a p h. ground arith)
      (λ a. refl)

-- Using an approval keeps the constraints of the table.
pub consume-IsWellFormed :
    (task_id hash : String) (now : ℕ) (t : Approvals)
    → IsWellFormed t
    → IsWellFormed (consume task_id hash now t).1
unfolding consume
consume-IsWellFormed task_id hash now t wf =
    update-IsWellFormed (is_usable task_id hash now) (set_consumed now) (λ j k a p h. ground arith)
      (λ a. refl) (record t { rows = expire_stale task_id hash now t.rows })
      (expire_stale-IsWellFormed task_id hash now t wf)

pending_live :
    (j k : String) (id : ℕ) (a : StoredApproval)
    → pending_id id a ≡ true
    → is_pair j k a ≡ true
    → live_pair j k a ≡ true
unfolding ApprovalStatus-discrete
pending_live j k id a p h = ground arith

-- Approving and denying keep the constraints of the table, whatever the id and the hash.
pub decide-IsWellFormed :
    (id : ℕ) (hash : String) (now : ℕ) (t : Approvals)
    → IsWellFormed t
    → IsWellFormed (approve id hash now t).1 × IsWellFormed (deny id hash t).1
unfolding approve deny
decide-IsWellFormed id hash now t wf = (
  ground (
    arith,
    update-IsWellFormed (pending_id id) (set_approved now)
        (λ j k a p h. pending_live j k id a p ((and-true _ _ h).0)) (λ a. refl) t wf,
  ),
  ground (
    arith,
    update-IsWellFormed (pending_id id) set_denied
        (λ j k a p h. pending_live j k id a p ((and-true _ _ h).0)) (λ a. refl) t wf,
  ),
)

module _ (task_id hash : String) (decision : Option ℕ) (now : ℕ) (t : Approvals)
    (wf : IsWellFormed t) where
  abbrev fresh : List StoredApproval
  fresh = expire_stale task_id hash now t.rows

  abbrev row : StoredApproval
  row = new_approval t.next_id task_id decision hash now
