-- ===== src/Checks.antt =====
-- `ChecksService` and `PersistentCiCompletion`: packages/github/src/checks-service.ts. The client, the
-- persistence, the completion and the delay answer as functions of the calls made so far. Of a check,
-- an absent field and a null one are both `none`.
pub mod Laws
pub mod Completion
mod Tests
use gram_coding_agent.Base.{
  ℕ, zero, suc, ◌+◌, String, Bool, true, false, ◌&&◌, ◌||◌, not, List, [], ◌∷◌, Option, none, some,
  if◌then◌else◌, any, all, contains, leb, string_eq,
}
use gram_coding_agent.Base.Effects.{Eff, ◌>>=◌, ◌>>◌, pure, throw, require}
use gram_coding_agent.Base.Steps.{attempt}
use gram_coding_agent.Policy.Text.{Text}
use gram_coding_agent.Publishing.{is_full_sha}

pub data RequiredCheckStatus : Type 0 where
  queued in_progress completed : RequiredCheckStatus

pub record RequiredCheckSnapshot : Type 0 where
  pub provider_run_id : Option Text
  pub provider_check_id : Text
  pub workflow_name : Option Text
  pub check_name : Text
  pub status : RequiredCheckStatus
  pub conclusion : Option String
  pub url : Option Text
  pub started_at : Option Text
  pub finished_at : Option Text

pub record CiPullRequestContext : Type 0 where
  pub task_id : String
  pub repo_id : Option ℕ
  pub pull_request_id : ℕ
  pub owner : Text
  pub name : Text
  pub number : ℕ
  pub head_sha : Text
  pub base_branch : Text

pub data CiOutcome : Type 0 where
  success failure pending : CiOutcome

pub record CiSummary : Type 0 where
  pub outcome : CiOutcome
  pub attempts : ℕ
  pub checks : List RequiredCheckSnapshot

abbrev pub failure_conclusions : List String
failure_conclusions =
    "failure" ∷ "cancelled" ∷ "timed_out" ∷ "action_required" ∷ "startup_failure" ∷ "stale" ∷ []

abbrev pub merge_acceptable_conclusions : List String
merge_acceptable_conclusions = "success" ∷ "neutral" ∷ "skipped" ∷ []

abbrev concluded : List String → RequiredCheckStatus → Option String → Bool
concluded set completed (some conclusion) = contains set conclusion
concluded set _ _ = false

unfoldable pub is_success : RequiredCheckSnapshot → Bool
is_success check = concluded merge_acceptable_conclusions check.status check.conclusion

unfoldable pub is_failure : RequiredCheckSnapshot → Bool
is_failure check = concluded failure_conclusions check.status check.conclusion

pub data Call : Type 0 where
  list_call : CiPullRequestContext → Call
  upsert_call : String → ℕ → RequiredCheckSnapshot → Call
  complete_call : String → Call
  wait_call : ℕ → Call

pub record Ports : Type 0 where
  pub list_required_checks : List Call → Option (List RequiredCheckSnapshot)
  pub upsert_check : List Call → Option (Unit {0})
  pub complete : List Call → Option (Unit {0})
  pub wait : List Call → Option (Unit {0})

pub data ChecksError : Type 0 where
  invalid_options invalid_head_sha port_failed : ChecksError

abbrev pub Step : Type 0 → Type 0
Step A = Eff (List Call) ChecksError A

-- the constructor's options; the interval, whose finite values the checks ask for, is in milliseconds
pub record Options : Type 0 where
  pub max_attempts : ℕ
  pub poll_interval_ms : ℕ

abbrev pub default_options : Options
default_options = record { max_attempts = 6; poll_interval_ms = 5000 }

module _ (ports : Ports) (options : Options) (pull_request : CiPullRequestContext) where
  unfoldable pub upsert_all : List RequiredCheckSnapshot → Step (Unit {0})
  upsert_all [] = pure tt
  upsert_all (check ∷ checks) = do
    attempt port_failed (upsert_call pull_request.task_id pull_request.pull_request_id check)
        ports.upsert_check
    upsert_all checks

  -- `if (attempt < this.maxAttempts) await this.delay.wait(…)`, with the attempts left
  abbrev pub wait_before : ℕ → Step (Unit {0})
  wait_before zero = pure tt
  wait_before (suc left) = attempt port_failed (wait_call options.poll_interval_ms) ports.wait

  abbrev pub all_passed : List RequiredCheckSnapshot → Bool
  all_passed [] = false
  all_passed (check ∷ checks) = all is_success (check ∷ checks)

  -- what an attempt does with the checks it has stored, and what it leaves to the next one
  unfoldable pub conclude : ℕ → List RequiredCheckSnapshot → Step CiSummary → Step CiSummary
  unfolding is_failure is_success
  conclude number latest next =
      if any is_failure latest
      then pure (record { outcome = failure; attempts = number; checks = latest })
      else if all_passed latest
      then (do
        attempt port_failed (complete_call pull_request.task_id) ports.complete
        pure (record { outcome = success; attempts = number; checks = latest }))
      else next

  -- The loop, by the attempts left, the number of the next one and the checks of the last one.
  unfoldable pub attempts_from : ℕ → ℕ → List RequiredCheckSnapshot → Step CiSummary
  unfolding upsert_all conclude
  attempts_from zero number latest =
      pure (record { outcome = pending; attempts = options.max_attempts; checks = latest })
  attempts_from (suc left) number latest = do
    checks ← attempt port_failed (list_call pull_request) ports.list_required_checks
    upsert_all checks
    conclude number checks (do wait_before left; attempts_from left (suc number) checks)

  unfoldable pub observe_required_checks : Step CiSummary
  unfolding attempts_from is_full_sha
  observe_required_checks = do
    require (leb 1 options.max_attempts) invalid_options
    require (is_full_sha pull_request.head_sha) invalid_head_sha
    attempts_from options.max_attempts 1 []
