-- ===== src/Shell/Tests.antt =====
-- A run of a command with ports that all answer.
use gram_coding_agent.Base.{◌≡◌, refl, true, List, [], none, some, ok, all, map}
use gram_coding_agent.Policy.Text.{codes}
use gram_coding_agent.Policy.Parser.Operations.{PathApi, NormalizedOperation}
use gram_coding_agent.Policy.Worktree.{Os, missing}
use gram_coding_agent.Shell.{CommandRequest, executable, Ports, operations_for, decide}
use gram_coding_agent.Shell.Run.{run, execute}
use gram_coding_agent.Shell.Laws.{IsRecorded, execute-IsRecorded}
use gram_coding_agent.Shell.Authority.{cleared, spawn_needs_authority}

abbrev paths : PathApi
paths = record {
  is_absolute = λ _. true;
  resolve = λ p. p;
  resolve_in = λ _ p. p;
  realpath = λ p. some p;
}

abbrev os : Os
os = record {
  is_absolute = λ _. true;
  resolve = λ _. [];
  join = λ _. [];
  relative = λ _ _. [];
  dirname = λ p. p;
  basename = λ p. p;
  realpath = λ p. some p;
  lstat = λ _. missing;
  to_positive = λ _. none;
  to_text = λ _. [];
}

abbrev answering : Ports
answering = record {
  sha256 = λ _. codes "h";
  home_dir = none;
  redact = λ t. t;
  consume = λ _ _ _. true;
  start = λ _. some 4;
  spawn = λ _ _. some (record { exit_code = 0; stdout = []; stderr = [] });
  capture = λ _ _.
      some (record { out = []; error_out = []; out_path = codes "o"; error_out_path = codes "e" });
  finish = λ _. true;
}

abbrev request : CommandRequest
request = record {
  context = record {
    task_id = codes "t";
    protected_branches = none;
    direct_main_granted = none;
    target_branch = none;
    publish_mode = none;
  };
  cwd = codes "/w";
  category = "DEVELOPMENT";
  line = executable (codes "unknown") [];
}

execute-IsRecorded_example : IsRecorded 4 [] (execute paths os answering request 4 [])
execute-IsRecorded_example = execute-IsRecorded paths os answering request 4 []

spawn_needs_authority_example :
    (ops : List NormalizedOperation) × (operations_for paths os answering request ≡ ok ops)
    × (all
          (cleared paths os answering (codes "t") (run paths os answering request []).1)
          (map (decide paths os answering request) ops)
        ≡ true)
unfolding run operations_for gram_coding_agent.Policy.Parser.Operations.normalize_executable_command
    gram_coding_agent.Policy.Text.trim gram_coding_agent.Policy.Engine.evaluate
    gram_coding_agent.Policy.Risk.Classify.classify_risk gram_coding_agent.Shell.consume_approvals
    gram_coding_agent.Shell.check_worktrees
spawn_needs_authority_example = spawn_needs_authority paths os answering request refl
