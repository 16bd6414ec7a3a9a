-- ===== src/Policy/Syntax/Laws.antt =====
-- An independent reading of shell quoting, beside the syntax check of packages/policy/src/command-parser.ts.
use gram_coding_agent.Base.{
  ℕ, ◌≡◌, Bool, true, false, ◌||◌, ◌&&◌, not, [], ◌∷◌, if◌then◌else◌, nat_beq,
}
use gram_coding_agent.Policy.Text.{Text}
use gram_coding_agent.Policy.Syntax.{
  Quote, unquoted, single, double, is_newline, next_is, opens_substitution,
}

-- The quoting rules of the shell by themselves: the state after a character, from the state before.
abbrev quote_after : Quote → Bool → ℕ → Quote
quote_after q true c = q
quote_after unquoted false c =
    if nat_beq c 39 then single else if nat_beq c 34 then double else unquoted
quote_after single false c = if nat_beq c 39 then unquoted else single
quote_after double false c = if nat_beq c 34 then unquoted else double

abbrev escaped_after : Quote → Bool → ℕ → Bool
escaped_after q true c = false
escaped_after single false c = false
escaped_after unquoted false c = nat_beq c b'\\'
escaped_after double false c = nat_beq c b'\\'

-- A character that the shell would act on where it stands: a redirection, a line break, a
-- substitution or a lone `&` outside quotes, a substitution in double quotes, an escaped line break.
abbrev is_active : Quote → Bool → ℕ → Text → Bool
is_active q true c rest = is_newline c
is_active unquoted false c rest =
    is_newline c
    || nat_beq c b'>'
    || nat_beq c b'<'
    || opens_substitution c rest
    || (nat_beq c b'&' && not (next_is b'&' rest))
is_active double false c rest = opens_substitution c rest
is_active single false c rest = false

-- the first character of the operator `&&`
abbrev begins_and : Quote → Bool → ℕ → Text → Bool
begins_and unquoted false c rest = nat_beq c b'&' && next_is b'&' rest
begins_and _ _ _ _ = false

-- No character of a text is active, read under the shell's quoting rules; the flag says that the
-- next character ends an operator `&&`.
abbrev pub IsInert : Quote → Bool → Bool → Text → Type 0
IsInert q e ends_and [] = Unit
IsInert q e true (c ∷ rest) = IsInert q e false rest
IsInert q e false (c ∷ rest) =
    (is_active q e c rest ≡ false)
    × IsInert (quote_after q e c) (escaped_after q e c) (begins_and q e c rest) rest
