-- ===== src/Verification/Runner.antt =====
-- `VerificationRunner`: packages/verification/src/verification-runner.ts, over its ports. A port
-- answers by the calls made before; where it throws, so does the run.
pub mod Reports
pub mod Laws
use gram_coding_agent.Base.{
  ℕ, String, Bool, true, false, ◌&&◌, not, List, [], ◌∷◌, Option, none, some, if◌then◌else◌, any,
  all, ◌==◌, string_eq, nat_eq, is_some, ◌++◌,
}
use gram_coding_agent.Base.Effects.{Eff, ◌>>=◌, ◌>>◌, pure, throw, require}
use gram_coding_agent.Base.Steps.{attempt}
use gram_coding_agent.Table.{select_where}
use gram_coding_agent.Policy.Text.{Text, codes, text_eq, trim, is_empty}
use gram_coding_agent.Verification.Evidence.{VerificationSnapshot}
use gram_coding_agent.Verification.Rows.{
  StoredVerificationCheckStatus, pending, pass, fail, skipped, check_status_eq,
}
use gram_coding_agent.Verification.Snapshot.{same_snapshot}
use gram_coding_agent.Verification.Planner.{VerificationCheckKind, command, non_command}

pub record PersistedVerificationCheck : Type 0 where
  pub id : ℕ
  pub name : String
  pub kind : VerificationCheckKind
  pub required : Bool
  pub status : StoredVerificationCheckStatus
  pub command : Option Text
  pub reason : Option Text

pub record PersistedVerificationPlan : Type 0 where
  pub id : ℕ
  pub task_id : String
  pub head_sha : Option Text
  pub checks : List PersistedVerificationCheck

pub record VerificationCommandResult : Type 0 where
  pub command_run_id : ℕ
  pub exit_code : ℕ

-- `VerificationGateResult`, with the paths that a diff review changed
pub record GateResult : Type 0 where
  pub passed : Bool
  pub evidence_ref : Text
  pub reason : Option Text
  pub changed_paths : Option (List Text)

pub record GateEvidence : Type 0 where
  pub status : StoredVerificationCheckStatus
  pub evidence_ref : Text
  pub approved_paths : Option (List Text)
  pub reason : Option Text

pub data RunnerCall : Type 0 where
  captured scanned reviewed browsed : RunnerCall
  ran : Text → RunnerCall
  command_recorded : ℕ → StoredVerificationCheckStatus → ℕ → RunnerCall
  gate_recorded : ℕ → GateEvidence → RunnerCall
  sealed : ℕ → VerificationSnapshot → RunnerCall

pub data RunError : Type 0 where
  foreign_task sealing_missing stale_checks snapshot_mismatch snapshot_changed port_failed :
      RunError
  command_missing : String → RunError

abbrev pub Port : Type 0 → Type 0
Port A = List RunnerCall → Option A

pub record VerificationRunnerOptions : Type 0 where
  pub run_command : Text → Port VerificationCommandResult
  pub record_command : ℕ → StoredVerificationCheckStatus → ℕ → Port (Unit {0})
  pub record_gate : ℕ → GateEvidence → Port (Unit {0})
  pub seal_snapshot : Option (ℕ → VerificationSnapshot → Port (Unit {0}))
  pub scan : Port GateResult
  pub review : Port GateResult
  pub browser : Option (Port GateResult)
  pub capture : Option (Port VerificationSnapshot)

pub record VerificationCheckResult : Type 0 where
  pub id : ℕ
  pub name : String
  pub required : Bool
  pub status : StoredVerificationCheckStatus
  pub reason : Option Text

pub record VerificationResult : Type 0 where
  pub passed : Bool
  pub checks : List VerificationCheckResult

abbrev pub Run : Type 0 → Type 0
Run A = Eff (List RunnerCall) RunError A

abbrev pub result_from :
    PersistedVerificationCheck
    → StoredVerificationCheckStatus
    → Option Text
    → VerificationCheckResult
result_from c status reason = record {
  id = c.id;
  name = c.name;
  required = c.required;
  status = status;
  reason = reason;
}

abbrev pub verdict : Bool → StoredVerificationCheckStatus
verdict true = pass
verdict false = fail

abbrev pub gate_evidence : Option (List Text) → GateResult → GateEvidence
gate_evidence paths result = record {
  status = verdict result.passed;
  evidence_ref = result.evidence_ref;
  approved_paths = paths;
  reason = result.reason;
}

-- the paths of a review that passed
abbrev pub paths_passed : GateResult → Option (List Text)
paths_passed result = if result.passed then result.changed_paths else none

abbrev pub skipped_evidence : Text → Text → GateEvidence
skipped_evidence ref reason = record {
  status = skipped;
  evidence_ref = ref;
  approved_paths = none;
  reason = some reason;
}

unfoldable pub run_browser : Option (Port GateResult) → Run GateEvidence
run_browser none = pure (
    skipped_evidence (codes "browser-verifier:unavailable")
      (codes "Browser verification capability is declared but no verifier is available"))
run_browser (some verify) =
    attempt port_failed browsed verify >>= λ result. pure (gate_evidence none result)

unfoldable pub run_named :
    VerificationRunnerOptions → String → Bool → Bool → Bool → Run GateEvidence
unfolding run_browser
run_named ports name true is_review is_browser =
    attempt port_failed scanned ports.scan >>= λ result. pure (gate_evidence none result)
run_named ports name false true is_browser = attempt port_failed reviewed ports.review >>= λ result.
    pure (gate_evidence (paths_passed result) result)
run_named ports name false false true = run_browser ports.browser
run_named ports name false false false = pure (
    skipped_evidence (codes "verifier:missing:" ++ codes name)
      (codes "No verifier is registered for " ++ codes name))

-- the check is dispatched by its name
unfoldable pub run_gate : VerificationRunnerOptions → String → Run GateEvidence
unfolding run_named
run_gate ports name =
    run_named ports name (name == "secret-scan") (name == "diff-review") (name == "browser")

abbrev pub text_of : String → Option Text → Run Text
text_of name none = throw (command_missing name)
text_of name (some text) = if is_empty (trim text) then throw (command_missing name) else pure text

abbrev pub exit_verdict : ℕ → StoredVerificationCheckStatus
exit_verdict code = verdict (code == 0)

unfoldable pub run_command_check :
    VerificationRunnerOptions → PersistedVerificationCheck → Run VerificationCheckResult
run_command_check ports c = text_of c.name c.command >>= λ text.
    attempt port_failed (ran text) (ports.run_command text) >>= λ done.
    (let status = exit_verdict done.exit_code in
      attempt port_failed (command_recorded c.id status done.command_run_id)
        (ports.record_command c.id status done.command_run_id)
      >>= λ _. pure (result_from c status none))

unfoldable pub run_gate_check :
    VerificationRunnerOptions → PersistedVerificationCheck → Run VerificationCheckResult
unfolding run_gate
run_gate_check ports c = run_gate ports c.name >>= λ gate.
    attempt port_failed (gate_recorded c.id gate) (ports.record_gate c.id gate) >>= λ _.
    pure (result_from c gate.status gate.reason)

unfoldable pub run_kind :
    VerificationRunnerOptions
    → PersistedVerificationCheck
    → VerificationCheckKind
    → Run VerificationCheckResult
unfolding run_command_check run_gate_check
run_kind ports c command = run_command_check ports c
run_kind ports c non_command = run_gate_check ports c

unfoldable pub run_check :
    VerificationRunnerOptions → PersistedVerificationCheck → Run VerificationCheckResult
unfolding run_kind
run_check ports c =
    if c.status == pending then run_kind ports c c.kind else pure (result_from c c.status c.reason)

unfoldable pub run_checks :
    VerificationRunnerOptions → List PersistedVerificationCheck → Run (List VerificationCheckResult)
unfolding run_check
run_checks ports [] = pure []
run_checks ports (c ∷ cs) =
    run_check ports c >>= λ result. run_checks ports cs >>= λ results. pure (result ∷ results)

abbrev pub is_stale : PersistedVerificationCheck → Bool
is_stale c = c.required && not (c.status == pending)

abbrev pub has_head : Option Text → Text → Bool
has_head none sha = false
has_head (some head) sha = sha == head

-- the snapshot before the checks, where snapshots are taken
unfoldable pub take_before :
    VerificationRunnerOptions
    → PersistedVerificationPlan
    → Option (Port VerificationSnapshot)
    → Run (Option VerificationSnapshot)
take_before ports plan none = pure none
take_before ports plan (some capture) =
    require (is_some ports.seal_snapshot) sealing_missing >>= λ _.
    require (not (any is_stale plan.checks)) stale_checks >>= λ _.
    attempt port_failed captured capture >>= λ before.
    require (before.task_id == plan.task_id && has_head plan.head_sha before.head_sha)
      snapshot_mismatch
    >>= λ _. pure (some before)

abbrev pub required_results : List VerificationCheckResult → List VerificationCheckResult
required_results results = select_where (λ r. r.required) results

abbrev pub all_passed : List VerificationCheckResult → Bool
all_passed [] = false
all_passed (r ∷ rs) = all (λ x. x.status == pass) (r ∷ rs)

unfoldable pub seal_with :
    ℕ → VerificationSnapshot → Option (ℕ → VerificationSnapshot → Port (Unit {0})) → Run (Unit {0})
seal_with id before none = pure tt
seal_with id before (some seal) = attempt port_failed (sealed id before) (seal id before)

-- the second snapshot and the seal, where all passed and there is a first snapshot
unfoldable pub seal_after :
    VerificationRunnerOptions
    → ℕ
    → Bool
    → Option VerificationSnapshot
    → Option (Port VerificationSnapshot)
    → Run (Unit {0})
unfolding same_snapshot seal_with
seal_after ports id true (some before) (some capture) =
    attempt port_failed captured capture >>= λ later.
    require (same_snapshot before later) snapshot_changed >>= λ _.
    seal_with id before ports.seal_snapshot
seal_after ports id _ _ _ = pure tt

-- the run, once the task is that of the plan
unfoldable pub run_bound :
    VerificationRunnerOptions → PersistedVerificationPlan → Run VerificationResult
unfolding take_before run_checks seal_after
run_bound ports plan = take_before ports plan ports.capture >>= λ before.
    run_checks ports plan.checks >>= λ results.
    (let passed = all_passed (required_results results) in
      seal_after ports plan.id passed before ports.capture >>= λ _.
      pure (record { passed = passed; checks = results }))

unfoldable pub run :
    VerificationRunnerOptions → PersistedVerificationPlan → String → Run VerificationResult
unfolding run_bound
run ports plan task_id =
    require (task_id == plan.task_id) foreign_task >>= λ _. run_bound ports plan
