-- ===== src/Policy/Syntax.antt =====
-- `assertSupportedShellSyntax` of packages/policy/src/command-parser.ts: shell syntax whose effects
-- the parser does not model is refused. The loops of the source walk an index; here each recurs on
-- the code units that are left, with `quote` and `escaped` as its state.
pub mod Laws
use gram_coding_agent.Base.{
  ℕ, Bool, true, false, ◌&&◌, ◌||◌, List, [], ◌∷◌, ◌++◌, if◌then◌else◌, nat_beq, not,
}
use gram_coding_agent.Policy.Text.{Text}

pub data Quote : Type 0 where
  unquoted single double : Quote

abbrev pub is_newline : ℕ → Bool
is_newline c = nat_beq c 10 || nat_beq c 13

abbrev pub is_dollar : ℕ → Bool
is_dollar c = nat_beq c 36

abbrev pub is_backtick : ℕ → Bool
is_backtick c = nat_beq c 96

-- `command[index + 1] === …`
abbrev pub next_is : ℕ → Text → Bool
next_is c [] = false
next_is c (d ∷ _) = nat_beq d c

-- `$(` or a backtick
abbrev pub opens_substitution : ℕ → Text → Bool
opens_substitution c rest = (is_dollar c && next_is b'(' rest) || is_backtick c

-- what one character does: refuse the command, or go on; `skip` also passes over the next one
pub data Verdict : Type 0 where
  refuse : Verdict
  go_on skip : Quote → Bool → Verdict

unquoted_verdict : ℕ → Text → Verdict
unquoted_verdict c rest =
    if nat_beq c b'\\'
    then go_on unquoted true
    else if nat_beq c 39
    then go_on single false
    else if nat_beq c 34
    then go_on double false
    else if is_newline c
    then refuse
    else if nat_beq c b'&'
    then (if next_is b'&' rest then skip unquoted false else refuse)
    else if nat_beq c b'>' || nat_beq c b'<'
    then refuse
    else if opens_substitution c rest
    then refuse
    else go_on unquoted false

double_verdict : ℕ → Text → Verdict
double_verdict c rest =
    if nat_beq c b'\\'
    then go_on double true
    else if nat_beq c 34
    then go_on unquoted false
    else if opens_substitution c rest
    then refuse
    else go_on double false

single_verdict : ℕ → Verdict
single_verdict c = if nat_beq c 39 then go_on unquoted false else go_on single false

unfoldable pub verdict : Quote → Bool → ℕ → Text → Verdict
unfolding unquoted_verdict double_verdict single_verdict
verdict quote true c rest = if is_newline c then refuse else go_on quote false
verdict unquoted false c rest = unquoted_verdict c rest
verdict double false c rest = double_verdict c rest
verdict single false c rest = single_verdict c

-- The loop; `skip` after `&&` is `index += 1`, which passes over the second `&`.
unfoldable pub supported_from : Quote → Bool → Text → Bool
unfolding verdict
supported_from quote escaped [] = true
supported_from quote escaped (c ∷ []) = elim (verdict quote escaped c []) [
  | refuse ↦ false
  | go_on _ _ ↦ true
  | skip _ _ ↦ true
]
supported_from quote escaped (c ∷ d ∷ rest) = elim (verdict quote escaped c (d ∷ rest)) [
  | refuse ↦ false
  | go_on quote' escaped' ↦ supported_from quote' escaped' (d ∷ rest)
  | skip quote' escaped' ↦ supported_from quote' escaped' rest
]

unfoldable pub is_supported_shell_syntax : Text → Bool
unfolding supported_from
is_supported_shell_syntax command = supported_from unquoted false command
