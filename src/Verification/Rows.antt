-- ===== src/Verification/Rows.antt =====
-- The rows of the verification tables of packages/persistence/src/migrations, and the texts that
-- packages/persistence/src/repositories/verification-repository.ts compares in them.
use gram_coding_agent.Base.{
  ℕ, String, Bool, true, false, ◌&&◌, ◌||◌, not, List, [], ◌∷◌, Option, none, some, if◌then◌else◌,
  is_some, Eq, dec_beq, dec_beq_iff, drop, ◌==◌,
}
use gram_coding_agent.Table.Order.{order_by}
use gram_coding_agent.Policy.Text.{Text, is_empty, trim, text_eq, has_prefix}
use gram_coding_agent.Task.Database.{Database}
use gram_coding_agent.Verification.Evidence.{PlanJson, text_le}

pub data StoredVerificationCheckStatus : Type 0 where
  pending pass fail skipped not_required : StoredVerificationCheckStatus

unfoldable pub StoredVerificationCheckStatus-discrete : Discrete StoredVerificationCheckStatus
StoredVerificationCheckStatus-discrete = hlevel

instance abbrev pub check_status_eq : Eq StoredVerificationCheckStatus
check_status_eq = record {
  beq = dec_beq StoredVerificationCheckStatus-discrete;
  beq_iff = dec_beq_iff StoredVerificationCheckStatus-discrete;
}

pub record VerificationPlanRow : Type 0 where
  pub id : ℕ
  pub task_id : String
  pub head_sha : Option Text
  pub change_class : String
  pub risk : Option String
  pub plan_json : PlanJson
  pub created_at : ℕ

pub record VerificationCheckRow : Type 0 where
  pub id : ℕ
  pub plan_id : ℕ
  pub task_id : String
  pub name : String
  pub required : Bool
  pub status : StoredVerificationCheckStatus
  pub command_run_id : Option ℕ
  pub evidence_ref : Option Text
  pub reason : Option String
  pub started_at : Option ℕ
  pub finished_at : Option ℕ

pub data ReviewState : Type 0 where
  pending_review accepted failed interrupted : ReviewState

unfoldable pub ReviewState-discrete : Discrete ReviewState
ReviewState-discrete = hlevel

instance abbrev pub review_state_eq : Eq ReviewState
review_state_eq = record {
  beq = dec_beq ReviewState-discrete;
  beq_iff = dec_beq_iff ReviewState-discrete;
}

pub record ReviewAcknowledgement : Type 0 where
  pub path : Text
  pub digest : Text

pub record StoredVerificationReview : Type 0 where
  pub id : Text
  pub task_id : String
  pub workspace_id : ℕ
  pub workspace_path : String
  pub branch : String
  pub plan_id : ℕ
  pub check_id : ℕ
  pub check_name : String
  pub head_sha : Text
  pub snapshot_digest : Text
  pub run_id : String
  pub expires_at : ℕ
  -- PASS or FAIL once it is decided
  pub decision : Option StoredVerificationCheckStatus
  pub views : List ReviewAcknowledgement
  pub approved_paths : List Text
  pub state : ReviewState
  pub created_at : ℕ
  pub finished_at : Option ℕ

-- The three tables, the ids that AUTOINCREMENT gives next, and the rest of the database.
pub record VerificationStore : Type 0 where
  pub plans : List VerificationPlanRow
  pub checks : List VerificationCheckRow
  pub reviews : List StoredVerificationReview
  pub next_plan_id : ℕ
  pub next_check_id : ℕ
  pub database : Database

-- a reference that is there and not blank
abbrev pub is_reference : Option Text → Bool
is_reference none = false
is_reference (some ref) = not (is_empty (trim ref))

-- the value of `hasEvidence` that `decodeCheck` computes
unfoldable pub has_evidence : VerificationCheckRow → Bool
unfolding trim
has_evidence c = is_some c.command_run_id || is_reference c.evidence_ref

abbrev pub without : Text → List Text → List Text
without p [] = []
without p (q ∷ t) = let rest = without p t in if p == q then rest else q ∷ rest

-- `[...new Set(paths)]`
abbrev pub distinct : List Text → List Text
distinct [] = []
distinct (path ∷ paths) = path ∷ without path (distinct paths)

-- `[...paths].sort()`
unfoldable pub sorted : List Text → List Text
unfolding text_le
sorted paths = order_by text_le paths

-- the comparison of two JSON texts of lists of paths
abbrev pub same_paths : List Text → List Text → Bool
same_paths [] [] = true
same_paths (p ∷ s) (q ∷ t) = (p == q) && same_paths s t
same_paths _ _ = false

-- `ref.slice('external-review:'.length)` of a reference that starts so
unfoldable pub external_id : Option Text → Option Text
unfolding has_prefix
external_id none = none
external_id (some ref) = if has_prefix ref "external-review:" then some (drop 16 ref) else none
