-- ===== src/Approval/Use.antt =====
-- How an approval is used: packages/persistence/src/repositories/approval-repository.ts, `consume`.
use gram_coding_agent.Base.{
  subst, sym, ℕ, ◌+◌, ◌≤◌, ◌≡◌, refl, String, Bool, true, false, List, [], ◌∷◌, some, if◌then◌else◌,
  ==-refl, string_eq, nat_eq, nat_beq, nat_beq_iff, ltb, arith, ◌∙◌,
}
use gram_coding_agent.Table.{
  find_where-some, update_where, count_where, count_where_mono, count_where-update_le,
  count_where-update,
}
use gram_coding_agent.Table.Unique.{count_where_key, find_where_unique, find_where-update}
use gram_coding_agent.Approval.{
  Approvals, StoredApproval, ApprovalStatus-discrete, approval_status_eq, pending, live_pair,
  set_approved, pending_id, approval_ttl_ms, is_stale, is_usable, set_expired, set_consumed,
  expire_stale, get, has_id, approve, consume,
}
use gram_coding_agent.Approval.Laws.{IsWellFormed, decide-IsWellFormed, expire_stale-IsWellFormed}

module _ (task_id hash : String) (now : ℕ) where
  -- every row that is used up was live, and is live no longer
  spend :
      (rows : List StoredApproval)
      → count_where
            (live_pair task_id hash)
            (update_where (is_usable task_id hash now) (set_consumed now) rows)
          + count_where (is_usable task_id hash now) rows
        ≡ count_where (live_pair task_id hash) rows
  unfolding ApprovalStatus-discrete
  spend [] = refl
  spend (a ∷ rows) = ground (arith, spend rows)

  usable_at-live :
      (at : ℕ) (a : StoredApproval)
      → is_usable task_id hash at a ≡ true
      → live_pair task_id hash a ≡ true
  unfolding ApprovalStatus-discrete
  usable_at-live at a h = ground arith

  none_revived :
      (at : ℕ) (rows : List StoredApproval)
      → count_where (live_pair task_id hash) (expire_stale task_id hash at rows)
        ≤ count_where (live_pair task_id hash) rows
  unfolding expire_stale
  none_revived at rows =
      count_where-update_le (live_pair task_id hash) (is_stale task_id hash at) set_expired
        (λ a p q. ground arith) rows

  -- expiry takes no usable row
  usable-expire :
      (rows : List StoredApproval)
      → count_where (is_usable task_id hash now) (expire_stale task_id hash now rows)
        ≡ count_where (is_usable task_id hash now) rows
  unfolding expire_stale ApprovalStatus-discrete
  usable-expire rows =
      count_where-update (is_usable task_id hash now) (is_stale task_id hash now) set_expired
        (λ a p. ground arith) rows

  -- the use of a pair whose one live row is known
  consume_live :
      (t : Approvals) (a : StoredApproval)
      → IsWellFormed t
      → get a.id t ≡ some a
      → live_pair task_id hash a ≡ true
      → (consume task_id hash now t).0 ≡ is_usable task_id hash now a
  unfolding consume get
  consume_live t a wf e live =
      let found =
        find_where_unique (live_pair task_id hash) (has_id a.id) t.rows a (wf.one_live task_id hash)
          e live in
      let key =
        count_where_key (live_pair task_id hash) (is_usable task_id hash now) (usable_at-live now)
          t.rows a (wf.one_live task_id hash) found in
      rw (usable-expire t.rows) (rw key (one_or_none (is_usable task_id hash now a)))
    where
      one_or_none : (b : Bool) → nat_beq (if b then 1 else 0) 1 ≡ b
      one_or_none true = refl
      one_or_none false = refl

  -- In a well-formed table, after a successful use of the approval of a pair, the next use of that
  -- pair is refused, at any time.
  pub consume_once :
      (later : ℕ) (t : Approvals)
      → IsWellFormed t
      → (consume task_id hash now t).0 ≡ true
      → (consume task_id hash later (consume task_id hash now t).1).0 ≡ false
  unfolding consume
  consume_once later t wf used =
      let rows = expire_stale task_id hash now t.rows in
      let left = update_where (is_usable task_id hash now) (set_consumed now) rows in
      let spent = spend rows in
      let before = (expire_stale-IsWellFormed task_id hash now t wf).one_live task_id hash in
      let later_live = none_revived later left in
      let usable =
        count_where_mono (is_usable task_id hash later) (live_pair task_id hash)
          (usable_at-live later) (expire_stale task_id hash later left) in
      ground (arith, spent, before, later_live, usable)

get-approve :
    (id : ℕ) (now : ℕ) (t : Approvals) (a : StoredApproval)
    → get id t ≡ some a
    → a.status ≡ pending
    → get id (approve id a.operation_hash now t).1 ≡ some (set_approved now a)
unfolding approve ApprovalStatus-discrete
get-approve id now t a e waits =
    let found =
      find_where-update (has_id id) (pending_id id) (set_approved now) (λ x _. refl) t.rows in
    let own = find_where-some (has_id id) t.rows a e in
    ground (arith, found, own, ==-refl a.operation_hash)

id_of_get : (id : ℕ) (t : Approvals) (a : StoredApproval) → get id t ≡ some a → a.id ≡ id
unfolding get
id_of_get id t a e = (nat_beq_iff a.id id).0 (find_where-some (has_id id) t.rows a e)

-- In a well-formed table, a pending approval that is approved can be used until it expires, thirty
-- minutes later, and not from then on.
pub approve_then_consume :
    (id : ℕ) (now later : ℕ) (t : Approvals) (a : StoredApproval)
    → IsWellFormed t
    → get id t ≡ some a
    → a.status ≡ pending
    → (consume a.task_id a.operation_hash later (approve id a.operation_hash now t).1).0
      ≡ ltb later (now + approval_ttl_ms)
unfolding ApprovalStatus-discrete
approve_then_consume id now later t a wf e waits =
    let a' = set_approved now a in
    let t' = (approve id a.operation_hash now t).1 in
    let same = id_of_get id t a e in
    let stored = get-approve id now t a e waits in
    consume_live a.task_id a.operation_hash later t' a'
      (decide-IsWellFormed id a.operation_hash now t wf).0
      (subst (λ i. get i t' ≡ some a') (sym same) stored)
      (ground (arith, ==-refl a.task_id, ==-refl a.operation_hash))
    ∙ ground (arith, ==-refl a.task_id, ==-refl a.operation_hash)
