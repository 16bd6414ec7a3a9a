-- ===== src/Approval.antt =====
-- `ApprovalRepository`: packages/persistence/src/repositories/approval-repository.ts, on the table
-- of packages/persistence/src/migrations/004_approvals.sql. Rows carry texts that are not empty, as
-- the checks of `decode` require; the time is an argument, in milliseconds.
pub mod Laws
pub mod Use
mod Tests
use gram_coding_agent.Base.{
  ℕ, suc, ◌+◌, ◌*◌, String, Bool, true, false, ◌&&◌, ◌||◌, List, [], ◌∷◌, ◌++◌, Option, none, some,
  not, any, if◌then◌else◌, ◌==◌, string_eq, nat_eq, Result, ok, err, leb, ltb, length, Eq, dec_beq,
  dec_beq_iff,
}
use gram_coding_agent.Table.{find_where, latest_where, update_where, count_where}

-- 30 * 60 * 1000
abbrev pub approval_ttl_ms : ℕ
approval_ttl_ms = 30 * 60 * 1000

pub data ApprovalStatus : Type 0 where
  pending approved consumed denied expired : ApprovalStatus

unfoldable pub ApprovalStatus-discrete : Discrete ApprovalStatus
ApprovalStatus-discrete = hlevel

instance abbrev pub approval_status_eq : Eq ApprovalStatus
approval_status_eq = record {
  beq = dec_beq ApprovalStatus-discrete;
  beq_iff = dec_beq_iff ApprovalStatus-discrete;
}

pub record StoredApproval : Type 0 where
  pub id : ℕ
  pub task_id : String
  pub policy_decision_id : Option ℕ
  pub operation_hash : String
  pub status : ApprovalStatus
  pub requested_at : ℕ
  pub approved_at : Option ℕ
  pub consumed_at : Option ℕ
  pub expires_at : Option ℕ

-- The table, and the next id that AUTOINCREMENT gives.
pub record Approvals : Type 0 where
  pub rows : List StoredApproval
  pub next_id : ℕ

pub data ApprovalError : Type 0 where
  empty_hash unique_violation : ApprovalError
  approval_not_found hash_mismatch : ℕ → ApprovalError
  already_resolved : ℕ → ApprovalStatus → ApprovalError

abbrev pub is_pair : String → String → StoredApproval → Bool
is_pair task_id hash a = a.task_id == task_id && a.operation_hash == hash

-- `LIVE_STATUSES`, and `status IN ('PENDING', 'APPROVED')`
abbrev pub is_live : ApprovalStatus → Bool
is_live pending = true
is_live approved = true
is_live _ = false

abbrev pub live_pair : String → String → StoredApproval → Bool
live_pair task_id hash a = is_pair task_id hash a && is_live a.status

-- `expires_at <= ?` and `expires_at > ?`, false on NULL
abbrev pub at_or_before : Option ℕ → ℕ → Bool
at_or_before none now = false
at_or_before (some t) now = leb t now

abbrev pub after : Option ℕ → ℕ → Bool
after none now = false
after (some t) now = ltb now t

abbrev pub is_stale : String → String → ℕ → StoredApproval → Bool
is_stale task_id hash now a =
    is_pair task_id hash a && a.status == approved && at_or_before a.expires_at now

abbrev pub set_expired : StoredApproval → StoredApproval
set_expired a = record a { status = expired }

-- the UPDATE that `request` and `consume` begin with
unfoldable pub expire_stale : String → String → ℕ → List StoredApproval → List StoredApproval
expire_stale task_id hash now rows = update_where (is_stale task_id hash now) set_expired rows

abbrev pub new_approval : ℕ → String → Option ℕ → String → ℕ → StoredApproval
new_approval id task_id decision hash now = record {
  id = id;
  task_id = task_id;
  policy_decision_id = decision;
  operation_hash = hash;
  status = pending;
  requested_at = now;
  approved_at = none;
  consumed_at = none;
  expires_at = none;
}

-- The body of the transaction of `request`. The INSERT cannot break the unique index on live pairs,
-- as no row of the pair is live there, so the handler of that error is not reached.
request_body : String → String → Option ℕ → ℕ → List StoredApproval → ℕ → StoredApproval × Approvals
request_body task_id hash decision now rows next_id =
    elim (latest_where (live_pair task_id hash) rows) [
      | some live ↦ (live, record { rows = rows; next_id = next_id })
      | none ↦
          let stored = new_approval next_id task_id decision hash now in
          (stored, record { rows = rows ++ stored ∷ []; next_id = suc next_id })
    ]

unfoldable pub request :
    String → String → Option ℕ → ℕ → Approvals → Result ApprovalError StoredApproval × Approvals
unfolding expire_stale request_body
request task_id hash decision now t =
    let (stored, t') =
      request_body task_id hash decision now (expire_stale task_id hash now t.rows) t.next_id in
    if hash == "" then (err empty_hash, t) else (ok stored, t')

abbrev pub has_id : ℕ → StoredApproval → Bool
has_id id a = a.id == id

unfoldable pub get : ℕ → Approvals → Option StoredApproval
get id t = find_where (has_id id) t.rows

-- the three checks with which `approve` and `deny` begin
abbrev pub resolvable : ℕ → String → Option StoredApproval → Result ApprovalError StoredApproval
resolvable id hash none = err (approval_not_found id)
resolvable id hash (some a) =
    if not (a.operation_hash == hash)
    then err (hash_mismatch id)
    else if not (a.status == pending)
    then err (already_resolved id a.status)
    else ok a

abbrev pub pending_id : ℕ → StoredApproval → Bool
pending_id id a = a.id == id && a.status == pending

-- UPDATE … WHERE id = ? AND status = 'PENDING', and the row read back
resolve_with :
    (StoredApproval → StoredApproval)
    → ℕ
    → Approvals
    → Result ApprovalError StoredApproval × Approvals
unfolding get
resolve_with f id t =
    let t' = record t { rows = update_where (pending_id id) f t.rows } in
    elim (get id t') [
      | none ↦ (err (approval_not_found id), t')
      | some a ↦
          if count_where (pending_id id) t.rows == 1
          then (ok a, t')
          else (err (already_resolved id a.status), t')
    ]

abbrev pub after_checks :
    (StoredApproval → StoredApproval)
    → ℕ
    → Result ApprovalError StoredApproval
    → Approvals
    → Result ApprovalError StoredApproval × Approvals
unfolding resolve_with
after_checks f id (err e) t = (err e, t)
after_checks f id (ok _) t = resolve_with f id t

abbrev pub set_approved : ℕ → StoredApproval → StoredApproval
set_approved now a = record a {
  status = approved;
  approved_at = some now;
  expires_at = some (now + approval_ttl_ms);
}

abbrev pub set_denied : StoredApproval → StoredApproval
set_denied a = record a { status = denied }

unfoldable pub approve :
    ℕ → String → ℕ → Approvals → Result ApprovalError StoredApproval × Approvals
unfolding resolve_with get
approve id hash now t = after_checks (set_approved now) id (resolvable id hash (get id t)) t

unfoldable pub deny : ℕ → String → Approvals → Result ApprovalError StoredApproval × Approvals
unfolding resolve_with get
deny id hash t = after_checks set_denied id (resolvable id hash (get id t)) t

abbrev pub is_usable : String → String → ℕ → StoredApproval → Bool
is_usable task_id hash now a =
    is_pair task_id hash a && a.status == approved && after a.expires_at now

abbrev pub set_consumed : ℕ → StoredApproval → StoredApproval
set_consumed now a = record a { status = consumed; consumed_at = some now }

unfoldable pub consume : String → String → ℕ → Approvals → Bool × Approvals
unfolding expire_stale
consume task_id hash now t =
    let rows = expire_stale task_id hash now t.rows in
    (
      count_where (is_usable task_id hash now) rows == 1,
      record t { rows = update_where (is_usable task_id hash now) (set_consumed now) rows },
    )
