-- ===== src/Policy/Parser/Split.antt =====
-- `splitShellComposition`: a command as its simple commands and the operators before them.
use gram_coding_agent.Base.{
  ℕ, Bool, true, false, ◌&&◌, List, [], ◌∷◌, ◌++◌, Option, none, some, if◌then◌else◌, nat_beq, not,
}
use gram_coding_agent.Policy.Text.{Text, trim, is_empty}
use gram_coding_agent.Policy.Syntax.{Quote, unquoted, single, double, next_is}

pub data Separator : Type 0 where
  and_and or_or semicolon pipe open_paren close_paren : Separator

pub record CommandSegment : Type 0 where
  pub text : Text
  pub preceded_by : Option Separator

pub record SplitState : Type 0 where
  pub segments : List CommandSegment
  pub buffer : Text
  pub quote : Quote
  pub escaped : Bool
  pub preceded_by : Option Separator

unfoldable pub flush : SplitState → SplitState
unfolding trim
flush s =
    let text = trim s.buffer in
    record s {
      segments =
          if is_empty text
          then s.segments
          else s.segments ++ record { text = text; preceded_by = s.preceded_by } ∷ [];
      buffer = [];
    }

abbrev pub cut : Separator → SplitState → SplitState
cut sep s = record (flush s) { preceded_by = some sep }

abbrev pub keep : ℕ → SplitState → SplitState
keep c s = record s { buffer = s.buffer ++ c ∷ [] }

abbrev pub one_char_separator : ℕ → Option Separator
one_char_separator c =
    if nat_beq c b';'
    then some semicolon
    else if nat_beq c b'|'
    then some pipe
    else if nat_beq c b'('
    then some open_paren
    else if nat_beq c b')'
    then some close_paren
    else none

-- the separator that starts here, and whether it takes the next character too
abbrev pub separator_at : ℕ → Text → Option (Separator × Bool)
separator_at c rest =
    if nat_beq c b'&' && next_is b'&' rest
    then some (and_and, true)
    else if nat_beq c b'|' && next_is b'|' rest
    then some (or_or, true)
    else elim (one_char_separator c) [ none ↦ none | some sep ↦ some (sep, false) ]

abbrev pub closes : Quote → ℕ → Bool
closes unquoted c = false
closes single c = nat_beq c 39
closes double c = nat_beq c 34

split_unquoted : SplitState → ℕ → Text → SplitState × Bool
unfolding flush
split_unquoted s c rest =
    if nat_beq c 39
    then (keep c (record s { quote = single }), false)
    else if nat_beq c 34
    then (keep c (record s { quote = double }), false)
    else elim (separator_at c rest) [
      | some (sep, two) ↦ (cut sep s, two)
      | none ↦ (keep c s, false)
    ]

split_quoted : Quote → SplitState → ℕ → Text → SplitState × Bool
unfolding split_unquoted
split_quoted unquoted s c rest = split_unquoted s c rest
split_quoted q s c rest = (keep c (record s { quote = if closes q c then unquoted else q }), false)

abbrev pub is_single : Quote → Bool
is_single single = true
is_single _ = false

-- One round of the loop; the Boolean says that the next character is passed over.
unfoldable pub split_step : SplitState → ℕ → Text → SplitState × Bool
unfolding split_quoted
split_step s c rest =
    if s.escaped
    then (keep c (record s { escaped = false }), false)
    else if nat_beq c b'\\' && not (is_single s.quote)
    then (keep c (record s { escaped = true }), false)
    else split_quoted s.quote s c rest

unfoldable pub split_from : SplitState → Text → SplitState
unfolding split_step
split_from s [] = s
split_from s (c ∷ []) = (split_step s c []).0
split_from s (c ∷ d ∷ rest) =
    let (s', two) = split_step s c (d ∷ rest) in
    elim two [ true ↦ split_from s' rest | false ↦ split_from s' (d ∷ rest) ]

abbrev pub start : SplitState
start = record { segments = []; buffer = []; quote = unquoted; escaped = false; preceded_by = none }

unfoldable pub split_shell_composition : Text → List CommandSegment
unfolding split_from flush
split_shell_composition command = (flush (split_from start command)).segments
