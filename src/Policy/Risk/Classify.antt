-- ===== src/Policy/Risk/Classify.antt =====
-- `classifyRisk` and `classifyPackageManager`: packages/policy/src/risk-classifier.ts.
use gram_coding_agent.Base.{Bool, not, ◌&&◌, ◌||◌, List, [], ◌∷◌, if◌then◌else◌, any}
use gram_coding_agent.Policy.Text.{
  Text, codes, is, is_one_of, has_prefix, ends_with, includes_char, is_empty,
}
use gram_coding_agent.Policy.Parser.Operations.{NormalizedOperation}
use gram_coding_agent.Policy.Risk.Rules.{
  PolicyContext, ClassifiedRisk, allowed, approve, denied, dev_package, dev_package_other,
  win_raw_exec, block_device_destructive, rm_root, path_unresolved, rm_recursive, rm_file,
  apt_install, apt_remove, apt_other, dev_normal, wslpath_windows, wslpath_other, unknown_command,
}
use gram_coding_agent.Policy.Risk.Git.{classify_git}

unfoldable pub classify_package_manager : List Text → ClassifiedRisk
unfolding is_one_of
classify_package_manager [] = allowed dev_package
classify_package_manager (action ∷ _) =
    if is_one_of action (
      "install" ∷ "i" ∷ "test" ∷ "build" ∷ "lint" ∷ "typecheck" ∷ "check" ∷ "run" ∷ "exec" ∷ "dlx"
      ∷ [])
    then allowed dev_package
    else approve dev_package_other

-- any argument with an `r` counts as a recursive flag, as `-r` and `-R` do
abbrev pub is_recursive : List Text → Bool
is_recursive args = any (λ a. is a "-r" || is a "-R" || includes_char a b'r') args

abbrev pub is_protected_root : Text → Bool
is_protected_root target = is target "/" || is target "/mnt/c"

unfoldable pub classify_remove : NormalizedOperation → ClassifiedRisk
unfolding is includes_char
classify_remove op =
    if is_recursive op.args && any is_protected_root op.canonical_targets
    then denied rm_root
    else if op.path_resolution_failed
    then approve path_unresolved
    else if is_recursive op.args
    then approve rm_recursive
    else allowed rm_file

unfoldable pub classify_apt : List Text → ClassifiedRisk
unfolding is
classify_apt [] = approve apt_other
classify_apt (action ∷ _) =
    if is action "install"
    then allowed apt_install
    else if is action "remove" || is action "purge"
    then approve apt_remove
    else approve apt_other

unfoldable pub classify_wslpath : List Text → ClassifiedRisk
unfolding is has_prefix
classify_wslpath (flag ∷ path ∷ []) =
    if is flag "-w" && not (is_empty path) && has_prefix path "/"
    then allowed wslpath_windows
    else approve wslpath_other
classify_wslpath _ = approve wslpath_other

unfoldable pub classify_risk : NormalizedOperation → PolicyContext → ClassifiedRisk
unfolding is is_one_of has_prefix ends_with classify_remove classify_package_manager classify_apt
    classify_wslpath
classify_risk op context =
    if is op.executable "powershell.exe"
      || is op.executable "pwsh.exe"
      || is op.executable "cmd.exe"
      || ends_with op.executable (codes ".exe")
    then approve win_raw_exec
    else if is op.executable "mkfs" || has_prefix op.executable "mkfs." || is op.executable "wipefs"
    then denied block_device_destructive
    else if is op.executable "rm" || is op.executable "rmdir"
    then classify_remove op
    else if is op.executable "git"
    then classify_git op.args context
    else if is op.executable "pnpm" || is op.executable "npm" || is op.executable "yarn"
    then classify_package_manager op.args
    else if is op.executable "apt" || is op.executable "apt-get"
    then classify_apt op.args
    else if is_one_of op.executable (
        "echo" ∷ "printf" ∷ "cat" ∷ "grep" ∷ "rg" ∷ "find" ∷ "ls" ∷ "pwd" ∷ "which" ∷ "node" ∷ "npx"
        ∷ "python" ∷ "python3" ∷ "pytest" ∷ "java" ∷ "gradle" ∷ "mvn" ∷ [])
    then allowed dev_normal
    else if is op.executable "wslpath"
    then classify_wslpath op.args
    else approve unknown_command
