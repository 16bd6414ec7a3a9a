-- ===== src/Policy/Parser/Words.antt =====
-- `tokenize`, `unwrapCommand` and `requestedPathTargetIndexes`: the words of a simple command.
pub mod Quoting
use gram_coding_agent.Base.{
  ℕ, suc, Bool, true, false, ◌&&◌, ◌||◌, List, [], ◌∷◌, ◌++◌, Option, none, some, if◌then◌else◌,
  nat_beq, not, map, drop,
}
use gram_coding_agent.Policy.Text.{
  Text, is_space, is_empty, is, is_one_of, has_prefix, includes_char,
}
use gram_coding_agent.Policy.Syntax.{Quote, unquoted, single, double, is_dollar}
use gram_coding_agent.Policy.Parser.Split.{closes, is_single}

pub record ShellToken : Type 0 where
  pub value : Text
  pub pathname_expansion : Bool

pub record TokenState : Type 0 where
  pub tokens : List ShellToken
  pub buffer : Text
  pub quote : Quote
  pub escaped : Bool
  pub pathname_expansion : Bool

unfoldable pub flush : TokenState → TokenState
flush s = record s {
  tokens =
      if is_empty s.buffer
      then s.tokens
      else s.tokens ++ record { value = s.buffer; pathname_expansion = s.pathname_expansion } ∷ [];
  buffer = [];
  pathname_expansion = false;
}

abbrev pub put : ℕ → TokenState → TokenState
put c s = record s { buffer = s.buffer ++ c ∷ [] }

abbrev is_double : Quote → Bool
is_double double = true
is_double _ = false

-- `~` at the start of a word, and the characters that the shell expands anywhere
abbrev pub expands : Text → ℕ → Bool
expands buffer c =
    (nat_beq c b'~' && is_empty buffer)
    || nat_beq c b'*'
    || nat_beq c b'?'
    || nat_beq c b'['
    || is_dollar c
    || nat_beq c b'{'

token_unquoted : TokenState → ℕ → TokenState
unfolding flush is_space
token_unquoted s c =
    if nat_beq c 39
    then record s { quote = single }
    else if nat_beq c 34
    then record s { quote = double }
    else if is_space c
    then flush s
    else put c (if expands s.buffer c then record s { pathname_expansion = true } else s)

token_quoted : Quote → TokenState → ℕ → TokenState
unfolding token_unquoted
token_quoted unquoted s c = token_unquoted s c
token_quoted q s c =
    if closes q c
    then record s { quote = unquoted }
    else put c (if is_double q && is_dollar c then record s { pathname_expansion = true } else s)

unfoldable pub token_step : TokenState → ℕ → TokenState
unfolding token_quoted
token_step s c =
    if s.escaped
    then put c (record s { escaped = false })
    else if nat_beq c b'\\' && not (is_single s.quote)
    then record s { escaped = true }
    else token_quoted s.quote s c

unfoldable pub token_from : TokenState → Text → TokenState
unfolding token_step
token_from s [] = s
token_from s (c ∷ rest) = token_from (token_step s c) rest

abbrev pub no_tokens : TokenState
no_tokens = record {
  tokens = [];
  buffer = [];
  quote = unquoted;
  escaped = false;
  pathname_expansion = false;
}

unfoldable pub tokenize : Text → List ShellToken
unfolding token_from flush
tokenize segment = (flush (token_from no_tokens segment)).tokens

-- the options of `sudo`, up to and with a `--`
unfoldable pub skip_sudo_options : List ShellToken → List ShellToken
unfolding is has_prefix
skip_sudo_options [] = []
skip_sudo_options (t ∷ ts) =
    let rest = skip_sudo_options ts in
    if is t.value "--" then ts else if has_prefix t.value "-" then rest else t ∷ ts

-- the options and assignments of `env`, up to and with a `--`
unfoldable pub skip_env_options : List ShellToken → List ShellToken
unfolding is has_prefix includes_char
skip_env_options [] = []
skip_env_options (t ∷ ts) =
    let rest = skip_env_options ts in
    if is t.value "--"
    then ts
    else if has_prefix t.value "-" || includes_char t.value b'='
    then rest
    else t ∷ ts

unfoldable pub after_sudo : List ShellToken → List ShellToken
unfolding skip_sudo_options
after_sudo [] = []
after_sudo (t ∷ ts) = if is t.value "sudo" then skip_sudo_options ts else t ∷ ts

unfoldable pub after_env : List ShellToken → List ShellToken
unfolding skip_env_options
after_env [] = []
after_env (t ∷ ts) = if is t.value "env" then skip_env_options ts else t ∷ ts

pub record UnwrappedCommand : Type 0 where
  pub executable : Text
  pub args : List Text
  pub arg_pathname_expansion : List Bool

abbrev from_tokens : List ShellToken → Option UnwrappedCommand
from_tokens [] = none
from_tokens (t ∷ ts) = some (record {
  executable = t.value;
  args = map (λ x. x.value) ts;
  arg_pathname_expansion = map (λ x. x.pathname_expansion) ts;
})

unfoldable pub unwrap_command : List ShellToken → Option UnwrappedCommand
unfolding after_env after_sudo
unwrap_command tokens = from_tokens (after_env (after_sudo tokens))

-- the positions, counted from i, of the words that are no options
unfoldable pub operand_indexes : ℕ → List Text → List ℕ
unfolding has_prefix
operand_indexes i [] = []
operand_indexes i (a ∷ args) =
    let rest = operand_indexes (suc i) args in if has_prefix a "-" then rest else i ∷ rest

unfoldable pub requested_path_target_indexes : Text → List Text → List ℕ
unfolding operand_indexes is_one_of
requested_path_target_indexes executable args =
    if is_one_of executable ("rm" ∷ "rmdir" ∷ "cp" ∷ "mv" ∷ [])
    then operand_indexes 0 args
    else if is_one_of executable ("chmod" ∷ "chown" ∷ [])
    then operand_indexes 1 (drop 1 args)
    else []
