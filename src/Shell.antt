-- ===== src/Shell.antt =====
-- `CommandRunner`: packages/shell/src/command-runner.ts. What it is constructed with (approvals, run
-- store, output capture, spawner) answers as a function of the calls made so far, which the model
-- records; parsing and policy are those of `Policy`.
pub mod Run
pub mod Laws
pub mod Authority
mod Tests
use gram_coding_agent.Base.{
  ℕ, zero, suc, Bool, true, false, ◌&&◌, ◌||◌, not, List, [], ◌∷◌, ◌++◌, Option, none, some,
  if◌then◌else◌, any, all, leb, nat_beq, map, Result, ok, err, length, String,
}
use gram_coding_agent.Table.{select_where, find_where}
use gram_coding_agent.Base.Effects.{Eff, ◌>>=◌, ◌>>◌, pure, throw}
use gram_coding_agent.Policy.Text.{Text, is, is_empty}
use gram_coding_agent.Policy.Parser.Operations.{
  PathApi, ParseError, NormalizedOperation, normalize_shell_command, normalize_executable_command,
}
use gram_coding_agent.Policy.Risk.Rules.{
  PolicyContext, PolicyDecisionKind, allow, needs_approval, deny, RuleId, git_worktree_path,
}
use gram_coding_agent.Policy.Engine.{Hashed, PolicyDecision, evaluate}
use gram_coding_agent.Policy.Worktree.{Os, Mode, add, remove, is_task_worktree_target}

pub data CommandLine : Type 0 where
  shell_text : Text → CommandLine
  executable : Text → List Text → CommandLine

pub record CommandRequest : Type 0 where
  pub context : PolicyContext
  pub cwd : Text
  pub category : String
  pub line : CommandLine

pub data RunStatus : Type 0 where
  succeeded failed : RunStatus

-- The calls on the runner's ports, with the answers that matter.
pub data Call : Type 0 where
  consume_call : Text → Text → Bool → Call
  start_call : CommandLine → Call
  spawn_call : CommandLine → Call
  capture_call : ℕ → Call
  -- with the paths of the stored outputs
  finish_call : ℕ → RunStatus → Option ℕ → Option (Text × Text) → Call

pub record SpawnResult : Type 0 where
  pub exit_code : ℕ
  pub stdout : Text
  pub stderr : Text

pub record CapturedOutput : Type 0 where
  pub out : Text
  pub error_out : Text
  pub out_path : Text
  pub error_out_path : Text

-- Each port answers by the calls made before it; `none` and `false` stand for a call that throws.
pub record Ports : Type 0 where
  pub sha256 : Hashed → Text
  pub home_dir : Option Text
  pub redact : Text → Text
  pub consume : List Call → Text → Text → Bool
  pub start : List Call → Option ℕ
  pub spawn : List Call → CommandLine → Option SpawnResult
  pub capture : List Call → SpawnResult → Option CapturedOutput
  pub finish : List Call → Bool

pub record CommandResult : Type 0 where
  pub command_run_id : ℕ
  pub exit_code : ℕ
  pub stdout : Text
  pub stderr : Text
  pub stdout_path : Text
  pub stderr_path : Text

pub data RunError : Type 0 where
  parse_error : ParseError → RunError
  no_operation port_failed : RunError
  policy_denied approval_required : PolicyDecision → RunError

-- `worktreeTargetFor`: the path that a worktree command names
unfoldable pub worktree_target_for : List Text → Option (Mode × Text)
unfolding is
worktree_target_for (w ∷ verb ∷ flag ∷ branch ∷ path ∷ base ∷ []) =
    if is w "worktree"
      && is verb "add"
      && is flag "-b"
      && not (is_empty branch)
      && not (is_empty path)
      && not (is_empty base)
    then some (add, path)
    else none
worktree_target_for (w ∷ verb ∷ flag ∷ path ∷ []) =
    if is w "worktree" && is verb "remove" && is flag "--force" && not (is_empty path)
    then some (remove, path)
    else none
worktree_target_for _ = none

-- `target.split('/').filter(nonempty)`
unfoldable pub split_slash : Text → Text → List Text
split_slash cur [] = if is_empty cur then [] else cur ∷ []
split_slash cur (c ∷ s) =
    let closed = split_slash [] s in
    let longer = split_slash (cur ++ c ∷ []) s in
    if nat_beq c b'/' then (if is_empty cur then closed else cur ∷ closed) else longer

abbrev pub before_last : List Text → Option Text
before_last [] = none
before_last (a ∷ []) = none
before_last (a ∷ b ∷ []) = some a
before_last (a ∷ b ∷ c ∷ l) = before_last (b ∷ c ∷ l)

module _ (paths : PathApi) (os : Os) (ports : Ports) where
  unfoldable pub repo_id_for_worktree_target : Text → Option ℕ
  unfolding split_slash
  repo_id_for_worktree_target target = elim (before_last (split_slash [] target)) [
    | none ↦ none
    | some segment ↦ os.to_positive segment
  ]

  unfoldable pub operations_for : CommandRequest → Result ParseError (List NormalizedOperation)
  operations_for request = elim (request.line) [
    | shell_text text ↦ normalize_shell_command paths text request.cwd
    | executable e args ↦ elim (normalize_executable_command paths e args request.cwd) [
      | ok op ↦ ok (op ∷ [])
      | err e ↦ err e
    ]
  ]

  abbrev pub decide : CommandRequest → NormalizedOperation → NormalizedOperation × PolicyDecision
  decide request op = (op, evaluate ports.sha256 op request.context)

  abbrev pub is_kind_deny : PolicyDecisionKind → Bool
  is_kind_deny deny = true
  is_kind_deny _ = false

  -- the loop over the decisions that need an approval
  unfoldable pub consume_approvals :
      Text → List (NormalizedOperation × PolicyDecision) → Eff (List Call) RunError (Unit {0})
  consume_approvals task_id [] calls = (ok tt, calls)
  consume_approvals task_id ((op, d) ∷ ds) calls =
      let answer = ports.consume calls task_id d.operation_hash in
      let used =
        consume_approvals task_id ds (calls ++ consume_call task_id d.operation_hash answer ∷ []) in
      let passed = consume_approvals task_id ds calls in
      elim (d.kind) [
        | needs_approval ↦ if answer then used else (
          err (approval_required d),
          calls ++ consume_call task_id d.operation_hash answer ∷ [],
        )
        | allow ↦ passed
        | deny ↦ passed
      ]

  -- the check of one decision before the run: only an allowed git worktree command has a path
  unfoldable pub worktree_ok : Text → NormalizedOperation → PolicyDecision → Bool
  unfolding worktree_target_for repo_id_for_worktree_target is
  worktree_ok task_id op d = elim (d.kind) [
    | needs_approval ↦ true
    | deny ↦ true
    | allow ↦ if not (is op.executable "git") then true else elim (worktree_target_for op.args) [
      | none ↦ true
      | some (mode, target) ↦ elim (ports.home_dir) [
        | none ↦ false
        | some home ↦
            not (is_empty home)
            && is_task_worktree_target os home task_id (repo_id_for_worktree_target target) target
                mode
      ]
    ]
  ]

  abbrev pub worktree_denied : PolicyDecision → PolicyDecision
  worktree_denied d = record d { kind = deny; rule_id = git_worktree_path }

  unfoldable pub check_worktrees :
      Text → List (NormalizedOperation × PolicyDecision) → Eff (List Call) RunError (Unit {0})
  unfolding worktree_ok
  check_worktrees task_id [] calls = (ok tt, calls)
  check_worktrees task_id ((op, d) ∷ ds) calls =
      let rest = check_worktrees task_id ds calls in
      if worktree_ok task_id op d then rest else (err (policy_denied (worktree_denied d)), calls)
