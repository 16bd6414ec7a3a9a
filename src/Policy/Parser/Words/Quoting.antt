-- ===== src/Policy/Parser/Words/Quoting.antt =====
-- Words in single quotes under the tokenizer of packages/policy/src/command-parser.ts.
use gram_coding_agent.Base.{
  ℕ, ◌≡◌, ◌≢◌, refl, sym, ap, ◌∙◌, false, List, [], ◌∷◌, ◌++◌, append_assoc, append-nil, arith, All,
  map,
}
use gram_coding_agent.Policy.Text.{Text, is_empty}
use gram_coding_agent.Policy.Syntax.{unquoted, single}
use gram_coding_agent.Policy.Parser.Words.{
  ShellToken, TokenState, flush, token_step, token_from, tokenize,
}

-- a word in single quotes, followed by a space
abbrev pub quoted : Text → Text
quoted w = 39 ∷ (w ++ 39 ∷ 32 ∷ [])

abbrev pub quoted_all : List Text → Text
quoted_all [] = []
quoted_all (w ∷ ws) = quoted w ++ quoted_all ws

-- a word that single quotes can hold
abbrev pub IsQuotable : Text → Type 0
IsQuotable w = (is_empty w ≡ false) × All (λ c. c ≢ 39) w

abbrev pub plain : Text → ShellToken
plain w = record { value = w; pathname_expansion = false }

token_from-append :
    (s : TokenState) (t u : Text) → token_from s (t ++ u) ≡ token_from (token_from s t) u
unfolding token_from
token_from-append s [] u = refl
token_from-append s (c ∷ t) u = token_from-append (token_step s c) t u

-- inside single quotes each character is put down as it is
abbrev inside : List ShellToken → Text → TokenState
inside ts b = record {
  tokens = ts;
  buffer = b;
  quote = single;
  escaped = false;
  pathname_expansion = false;
}

abbrev between : List ShellToken → TokenState
between ts = record {
  tokens = ts;
  buffer = [];
  quote = unquoted;
  escaped = false;
  pathname_expansion = false;
}

step_inside :
    (ts : List ShellToken) (b : Text) (c : ℕ)
    → c ≢ 39
    → token_step (inside ts b) c ≡ inside ts (b ++ c ∷ [])
unfolding token_step
step_inside ts b c h = ground arith

read_inside :
    (ts : List ShellToken) (b w : Text)
    → All (λ c. c ≢ 39) w
    → token_from (inside ts b) w ≡ inside ts (b ++ w)
unfolding token_from
read_inside ts b [] h = ap (inside ts) (sym (append-nil b))
read_inside ts b (c ∷ w) (p, h) =
    ap (λ s. token_from s w) (step_inside ts b c p)
    ∙ read_inside ts (b ++ c ∷ []) w h
    ∙ ap (inside ts) (append_assoc b (c ∷ []) w)

read_quoted :
    (ts : List ShellToken) (w : Text)
    → IsQuotable w
    → token_from (between ts) (quoted w) ≡ between (ts ++ plain w ∷ [])
unfolding token_from
read_quoted ts w (filled, h) =
    token_from-append (inside ts []) w (39 ∷ 32 ∷ [])
    ∙ ap (λ s. token_from s (39 ∷ 32 ∷ [])) (read_inside ts [] w h)
    ∙ closed
  where
    closed : token_from (inside ts w) (39 ∷ 32 ∷ []) ≡ between (ts ++ plain w ∷ [])
    closed = rw filled

read-All :
    (ts : List ShellToken) (ws : List Text)
    → All IsQuotable ws
    → token_from (between ts) (quoted_all ws) ≡ between (ts ++ map plain ws)
unfolding token_from
read-All ts [] h = ap between (sym (append-nil ts))
read-All ts (w ∷ ws) (p, h) =
    token_from-append (between ts) (quoted w) (quoted_all ws)
    ∙ ap (λ s. token_from s (quoted_all ws)) (read_quoted ts w p)
    ∙ read-All (ts ++ plain w ∷ []) ws h
    ∙ ap between (append_assoc ts (plain w ∷ []) (map plain ws))

-- Words written in single quotes, none empty or with a quote in it, are read back exactly, and none
-- of them counts as an expansion, whatever characters it holds.
pub tokenize-quoted : (ws : List Text) → All IsQuotable ws → tokenize (quoted_all ws) ≡ map plain ws
unfolding tokenize
tokenize-quoted ws h = ap (λ s. (flush s).tokens) (read-All [] ws h)
