-- ===== src/Policy/Parser/Operations.antt =====
-- `canonicalizeTargets`, `normalizeShellCommand` and `normalizeExecutableCommand` of
-- packages/policy/src/command-parser.ts. `node:path` and `realpathSync` are the parameter `paths`.
use gram_coding_agent.Base.{
  ℕ, Bool, true, false, List, [], ◌∷◌, ◌++◌, Option, none, some, if◌then◌else◌, any, get_elem?,
  Result, ok, err,
}
use gram_coding_agent.Base.Results.{◌>>=◌, ◌>>◌, guard}
use gram_coding_agent.Policy.Text.{Text, trim, is_empty}
use gram_coding_agent.Policy.Syntax.{is_supported_shell_syntax}
use gram_coding_agent.Policy.Parser.Split.{Separator, CommandSegment, split_shell_composition}
use gram_coding_agent.Policy.Parser.Words.{
  UnwrappedCommand, tokenize, unwrap_command, requested_path_target_indexes,
}

-- What the code calls of `node:path` and of the file system.
pub record PathApi : Type 0 where
  pub is_absolute : Text → Bool
  -- `resolve(p)`
  pub resolve : Text → Text
  -- `resolve(cwd, p)`
  pub resolve_in : Text → Text → Text
  -- `realpathSync(p)`, `none` where it throws
  pub realpath : Text → Option Text

pub data ParseError : Type 0 where
  unsupported_shell_syntax empty_executable : ParseError

pub record NormalizedOperation : Type 0 where
  pub raw : Text
  pub executable : Text
  pub args : List Text
  pub cwd : Text
  pub preceded_by : Option Separator
  pub requested_targets : List Text
  pub canonical_targets : List Text
  pub path_resolution_failed : Bool

-- `indexes.flatMap((index) => args[index] ?? [])`
abbrev pub at_indexes : List Text → List ℕ → List Text
at_indexes args [] = []
at_indexes args (i ∷ is) = elim (get_elem? args i) [
  | none ↦ at_indexes args is
  | some a ↦ a ∷ at_indexes args is
]

abbrev pub flag_at : List Bool → ℕ → Bool
flag_at flags i = elim (get_elem? flags i) [ none ↦ false | some b ↦ b ]

-- `[executable, ...args].join(' ')`
abbrev pub join : Text → List Text → Text
join e [] = e
join e (a ∷ args) = e ++ 32 ∷ join a args

module _ (paths : PathApi) where
  abbrev pub absolute : Text → Text → Text
  absolute cwd requested =
      if paths.is_absolute requested
      then paths.resolve requested
      else paths.resolve_in cwd requested

  unfoldable pub canonicalize_targets : List Text → Text → List Text × Bool
  canonicalize_targets [] cwd = ([], false)
  canonicalize_targets (r ∷ rs) cwd =
      let (targets, failed) = canonicalize_targets rs cwd in
      elim (paths.realpath (absolute cwd r)) [
        | some real ↦ (real ∷ targets, failed)
        | none ↦ (absolute cwd r ∷ targets, true)
      ]

  abbrev pub operation :
      Text → Text → List Text → Text → Option Separator → List Text → NormalizedOperation
  operation raw executable args cwd preceded_by requested =
      let (canonical, failed) = canonicalize_targets requested cwd in
      record {
        raw = raw;
        executable = executable;
        args = args;
        cwd = cwd;
        preceded_by = preceded_by;
        requested_targets = requested;
        canonical_targets = canonical;
        path_resolution_failed = failed;
      }

  -- the rest of the callback of `flatMap`, for the unwrapped command
  unwrapped_operation :
      CommandSegment → Text → UnwrappedCommand → Result ParseError (List NormalizedOperation)
  unwrapped_operation segment cwd u =
      let indexes = requested_path_target_indexes u.executable u.args in
      if any (flag_at u.arg_pathname_expansion) indexes
      then err unsupported_shell_syntax
      else ok (
          operation segment.text u.executable u.args cwd segment.preceded_by
            (at_indexes u.args indexes)
          ∷ [])

  segment_operation : CommandSegment → Text → Result ParseError (List NormalizedOperation)
  unfolding unwrapped_operation
  segment_operation segment cwd =
      if any (λ t. t.pathname_expansion) (tokenize segment.text)
      then err unsupported_shell_syntax
      else elim (unwrap_command (tokenize segment.text)) [
        | none ↦ ok []
        | some u ↦ unwrapped_operation segment cwd u
      ]

  segment_operations : List CommandSegment → Text → Result ParseError (List NormalizedOperation)
  unfolding segment_operation
  segment_operations [] cwd = ok []
  segment_operations (s ∷ ss) cwd = do
    here ← segment_operation s cwd
    later ← segment_operations ss cwd
    ok (here ++ later)

  unfoldable pub normalize_shell_command :
      Text → Text → Result ParseError (List NormalizedOperation)
  unfolding segment_operations
  normalize_shell_command command cwd = do
    guard (is_supported_shell_syntax command) unsupported_shell_syntax
    segment_operations (split_shell_composition command) (paths.resolve cwd)

  unfoldable pub normalize_executable_command :
      Text → List Text → Text → Result ParseError NormalizedOperation
  normalize_executable_command executable args cwd =
      if is_empty (trim executable)
      then err empty_executable
      else ok (
          operation (join executable args) executable args (paths.resolve cwd) none
            (at_indexes args (requested_path_target_indexes executable args)))
