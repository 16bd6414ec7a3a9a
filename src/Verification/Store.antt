-- ===== src/Verification/Store.antt =====
-- `VerificationRepository`: packages/persistence/src/repositories/verification-repository.ts. A
-- method is a step on the tables; the time is an argument, in milliseconds.
pub mod Assertions
pub mod Bound
pub mod Finish
pub mod History
pub mod Laws
pub mod Keys
pub mod Frozen
pub mod Passed
pub mod Sound
pub mod RoundTrip
pub mod Once
use gram_coding_agent.Base.{
  ℕ, suc, ◌+◌, String, Bool, true, false, ◌&&◌, not, List, [], ◌∷◌, ◌++◌, Option, none, some, any,
  if◌then◌else◌, ◌==◌, string_eq, nat_eq, leb, Result, ok, err, is_some, is_ok,
}
use gram_coding_agent.Base.Results.{◌>>=◌, guard}
use gram_coding_agent.Table.{find_where, latest_where, select_where, update_where}
use gram_coding_agent.Policy.Text.{Text, text_eq}
use gram_coding_agent.Task.Database.{CommandRunRow, TaskRow}
use gram_coding_agent.Task.Store.{or_else}
use gram_coding_agent.Verification.Evidence.{
  VerificationSnapshot, VerificationEvidence, PlanObject, PlanJson, unserializable, other_value,
  object, shaped, VerificationError, reserved_metadata, not_serializable, task_mismatch,
  plan_sealed, plan_not_found, already_sealed, constraint, read_plan_json, read_evidence,
  no_evidence,
}
use gram_coding_agent.Verification.Rows.{
  StoredVerificationCheckStatus, pending, VerificationPlanRow, VerificationCheckRow,
  VerificationStore, has_evidence,
}

abbrev pub plan_is : ℕ → VerificationPlanRow → Bool
plan_is id row = row.id == id

abbrev pub check_is : ℕ → VerificationCheckRow → Bool
check_is id c = c.id == id

abbrev pub is_of_plan : ℕ → VerificationCheckRow → Bool
is_of_plan plan_id c = c.plan_id == plan_id

unfoldable pub get_plan : ℕ → VerificationStore → Option VerificationPlanRow
get_plan id s = find_where (plan_is id) s.plans

unfoldable pub get_check : ℕ → VerificationStore → Option VerificationCheckRow
get_check id s = find_where (check_is id) s.checks

-- ids grow, so the rows stand in the order of their ids
unfoldable pub list_for_plan : ℕ → VerificationStore → List VerificationCheckRow
list_for_plan plan_id s = select_where (is_of_plan plan_id) s.checks

abbrev pub has_head : Option Text → Option Text → Bool
has_head none _ = true
has_head (some head) none = false
has_head (some head) (some sha) = sha == head

abbrev pub of_task : String → Option Text → VerificationPlanRow → Bool
of_task task_id head_sha row = row.task_id == task_id && has_head head_sha row.head_sha

unfoldable pub latest_plan : String → Option Text → VerificationStore → Option VerificationPlanRow
latest_plan task_id head_sha s = latest_where (of_task task_id head_sha) s.plans

unfoldable pub is_current_plan : String → ℕ → Text → VerificationStore → Bool
unfolding latest_plan
is_current_plan task_id plan_id head_sha s = elim (latest_plan task_id none s) [
  | none ↦ false
  | some row ↦ (row.id == plan_id) && has_head (some head_sha) row.head_sha
]

unfoldable pub list_for_task : String → Option Text → VerificationStore → List VerificationCheckRow
unfolding latest_plan list_for_plan
list_for_task task_id head_sha s = elim (latest_plan task_id head_sha s) [
  | none ↦ []
  | some row ↦ select_where (λ c. c.task_id == task_id) (list_for_plan row.id s)
]

pub record CreateVerificationPlanInput : Type 0 where
  pub task_id : String
  pub head_sha : Option Text
  pub change_class : String
  pub risk : Option String
  -- the value given has the key `verificationEvidence` itself
  pub names_evidence : Bool
  -- the value that its JSON text parses to
  pub plan : PlanJson
  pub created_at : Option ℕ

pub record CreateVerificationCheckInput : Type 0 where
  pub plan_id : ℕ
  pub task_id : String
  pub name : String
  pub required : Bool
  pub status : Option StoredVerificationCheckStatus
  pub reason : Option String

-- `COALESCE(MAX(id), 0)`
abbrev pub max_run_id : List CommandRunRow → ℕ
max_run_id [] = 0
max_run_id (run ∷ runs) = let rest = max_run_id runs in if leb rest run.id then run.id else rest

-- the JSON value to store, with the ids of the command runs made before the plan
unfoldable pub stored_json : CreateVerificationPlanInput → ℕ → Result VerificationError PlanJson
stored_json input watermark = guard (not input.names_evidence) reserved_metadata >>= λ _.
    elim (input.plan) [
      | unserializable ↦ err not_serializable
      | other_value text ↦ ok (other_value text)
      | object plan ↦ guard (not (is_some plan.verification_evidence)) reserved_metadata >>= λ _.
          ok (
            object (record plan {
              verification_evidence =
                  some (shaped (record no_evidence { command_floor = some watermark }));
            }))
    ]

-- `task_id TEXT NOT NULL REFERENCES tasks(id)`
abbrev pub task_exists : String → VerificationStore → Bool
task_exists task_id s = any (λ (t : TaskRow). t.id == task_id) s.database.tasks

abbrev new_plan :
    CreateVerificationPlanInput → PlanJson → ℕ → VerificationStore → VerificationPlanRow
new_plan input json now s = record {
  id = s.next_plan_id;
  task_id = input.task_id;
  head_sha = input.head_sha;
  change_class = input.change_class;
  risk = input.risk;
  plan_json = json;
  created_at = or_else input.created_at now;
}

-- a statement that ends a transaction, run where what comes before it gave a row
abbrev pub commit :
    {A B : Type 0}
    → Result VerificationError A
    → (A → VerificationStore → Result VerificationError B × VerificationStore)
    → VerificationStore
    → Result VerificationError B × VerificationStore
commit (ok a) write s = write a s
commit (err e) write s = (err e, s)

unfoldable pub insert_plan :
    VerificationPlanRow → VerificationStore → Result VerificationError ℕ × VerificationStore
insert_plan row s =
    (ok row.id, record s { plans = s.plans ++ row ∷ []; next_plan_id = suc s.next_plan_id })

unfoldable pub checked_plan :
    CreateVerificationPlanInput
    → ℕ
    → VerificationStore
    → Result VerificationError VerificationPlanRow
unfolding stored_json
checked_plan input now s = stored_json input (max_run_id s.database.command_runs) >>= λ json.
    guard (task_exists input.task_id s) constraint >>= λ _. ok (new_plan input json now s)

unfoldable pub create_plan :
    CreateVerificationPlanInput
    → ℕ
    → VerificationStore
    → Result VerificationError ℕ × VerificationStore
unfolding checked_plan insert_plan
create_plan input now s = commit (checked_plan input now s) insert_plan s

abbrev new_check : CreateVerificationCheckInput → VerificationStore → VerificationCheckRow
new_check input s = record {
  id = s.next_check_id;
  plan_id = input.plan_id;
  task_id = input.task_id;
  name = input.name;
  required = input.required;
  status = or_else input.status pending;
  command_run_id = none;
  evidence_ref = none;
  reason = input.reason;
  started_at = none;
  finished_at = none;
}

-- the plan of a check: it is there, and of the task
abbrev pub plan_of_task :
    Option VerificationPlanRow → String → Result VerificationError VerificationPlanRow
plan_of_task none task_id = err task_mismatch
plan_of_task (some row) task_id = guard (row.task_id == task_id) task_mismatch >>= λ _. ok row

unfoldable pub insert_check :
    VerificationCheckRow → VerificationStore → Result VerificationError ℕ × VerificationStore
insert_check c s =
    (ok c.id, record s { checks = s.checks ++ c ∷ []; next_check_id = suc s.next_check_id })

unfoldable pub checked_check :
    CreateVerificationCheckInput → VerificationStore → Result VerificationError VerificationCheckRow
unfolding get_plan read_plan_json read_evidence
checked_check input s = plan_of_task (get_plan input.plan_id s) input.task_id >>= λ row.
    read_plan_json row.plan_json >>= λ plan. read_evidence plan >>= λ evidence.
    guard (not (is_some evidence.snapshot)) plan_sealed >>= λ _.
    guard (task_exists input.task_id s) constraint >>= λ _. ok (new_check input s)

unfoldable pub create_check :
    CreateVerificationCheckInput
    → VerificationStore
    → Result VerificationError ℕ × VerificationStore
unfolding checked_check insert_check
create_check input s = commit (checked_check input s) insert_check s

abbrev pub with_evidence : PlanObject → VerificationEvidence → PlanJson
with_evidence plan evidence =
    object (record plan { verification_evidence = some (shaped evidence) })

unfoldable pub save_evidence :
    ℕ → PlanObject → VerificationEvidence → VerificationStore → VerificationStore
save_evidence plan_id plan evidence s = record s {
  plans =
      update_where (plan_is plan_id) (λ row. record row { plan_json = with_evidence plan evidence })
        s.plans;
}
