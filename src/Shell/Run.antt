-- ===== src/Shell/Run.antt =====
-- `CommandRunner.run`: packages/shell/src/command-runner.ts.
use gram_coding_agent.Base.{
  ℕ, List, [], ◌∷◌, ◌++◌, none, some, if◌then◌else◌, nat_beq, map, ok, err,
}
use gram_coding_agent.Base.Effects.{Eff, ◌>>=◌, ◌>>◌, throw}
use gram_coding_agent.Policy.Text.{Text}
use gram_coding_agent.Policy.Parser.Operations.{PathApi, NormalizedOperation}
use gram_coding_agent.Policy.Engine.{PolicyDecision}
use gram_coding_agent.Policy.Worktree.{Os}
use gram_coding_agent.Table.{find_where}
use gram_coding_agent.Shell.{
  CommandRequest, CommandLine, shell_text, executable, Call, start_call, spawn_call, capture_call,
  finish_call, RunStatus, succeeded, failed, SpawnResult, CapturedOutput, Ports, CommandResult,
  RunError, parse_error, no_operation, port_failed, policy_denied, operations_for, decide,
  is_kind_deny, consume_approvals, check_worktrees,
}

abbrev pub redacted : (Text → Text) → CommandLine → CommandLine
redacted redact (shell_text text) = shell_text (redact text)
redacted redact (executable e args) = executable (redact e) (map redact args)

abbrev pub status_of : ℕ → RunStatus
status_of code = if nat_beq code 0 then succeeded else failed

abbrev Decisions : Type 0
Decisions = List (NormalizedOperation × PolicyDecision)

module _ (paths : PathApi) (os : Os) (ports : Ports) where
  -- `decisions.find((decision) => decision.kind === 'DENY')`
  unfoldable pub refuse_denied : Decisions → Eff (List Call) RunError (Unit {0})
  refuse_denied ds calls = elim (find_where (λ p. is_kind_deny paths os ports p.1.kind) ds) [
    | none ↦ (ok tt, calls)
    | some (op, d) ↦ (err (policy_denied d), calls)
  ]

  -- the steps between the decisions and the start of the run
  unfoldable pub authorise : Text → Decisions → Eff (List Call) RunError (Unit {0})
  unfolding refuse_denied
  authorise task_id ds = do
    refuse_denied ds
    consume_approvals paths os ports task_id ds
    check_worktrees paths os ports task_id ds

  -- the `catch` of the run
  abbrev pub fail_run : ℕ → Eff (List Call) RunError CommandResult
  fail_run id calls = (err port_failed, calls ++ finish_call id failed none none ∷ [])

  unfoldable pub finish_run :
      ℕ → SpawnResult → CapturedOutput → Eff (List Call) RunError CommandResult
  finish_run id raw captured calls =
      let after =
        calls
        ++ finish_call id (status_of raw.exit_code) (some raw.exit_code)
            (some (captured.out_path, captured.error_out_path))
          ∷ [] in
      if ports.finish calls
      then (
        ok (record {
          command_run_id = id;
          exit_code = raw.exit_code;
          stdout = captured.out;
          stderr = captured.error_out;
          stdout_path = captured.out_path;
          stderr_path = captured.error_out_path;
        }),
        after,
      )
      else fail_run id after

  unfoldable pub capture_run : ℕ → SpawnResult → Eff (List Call) RunError CommandResult
  unfolding finish_run
  capture_run id raw calls =
      let after = calls ++ capture_call id ∷ [] in
      elim (ports.capture calls raw) [
        | none ↦ fail_run id after
        | some captured ↦ finish_run id raw captured after
      ]

  -- the `try` block, once the run has its id
  unfoldable pub execute : CommandRequest → ℕ → Eff (List Call) RunError CommandResult
  unfolding capture_run
  execute request id calls =
      let after = calls ++ spawn_call request.line ∷ [] in
      elim (ports.spawn calls request.line) [
        | none ↦ fail_run id after
        | some raw ↦ capture_run id raw after
      ]

  unfoldable pub start_run : CommandRequest → Eff (List Call) RunError ℕ
  start_run request calls =
      let after = calls ++ start_call (redacted ports.redact request.line) ∷ [] in
      elim (ports.start calls) [ none ↦ (err port_failed, after) | some id ↦ (ok id, after) ]

  unfoldable pub run_decided : CommandRequest → Decisions → Eff (List Call) RunError CommandResult
  unfolding authorise start_run execute
  run_decided request ds = do
    authorise request.context.task_id ds
    id ← start_run request
    execute request id

  abbrev pub run_operations :
      CommandRequest → List NormalizedOperation → Eff (List Call) RunError CommandResult
  unfolding run_decided
  run_operations request [] = throw no_operation
  run_operations request (op ∷ ops) =
      run_decided request (map (decide paths os ports request) (op ∷ ops))

  unfoldable pub run : CommandRequest → Eff (List Call) RunError CommandResult
  unfolding run_decided
  run request = elim (operations_for paths os ports request) [
    | err e ↦ throw (parse_error e)
    | ok ops ↦ run_operations request ops
  ]
