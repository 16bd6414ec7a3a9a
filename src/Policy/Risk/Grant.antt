-- ===== src/Policy/Risk/Grant.antt =====
-- What a push that the classifier allows does to protected branches, by the texts of its arguments:
-- packages/policy/src/risk-classifier.ts.
use mathlib.Core.List.{Memᴰ}
use gram_coding_agent.Base.{◌≡◌, Bool, false, not, List, ◌∷◌, ◌++◌, some, any, drop, nat_beq}
use gram_coding_agent.Table.{select_where}
use gram_coding_agent.Policy.Text.{Text, has_prefix, is_empty}
use gram_coding_agent.Policy.Risk.Git.{parse_git_push_refspec}

-- a short name of a branch
abbrev pub IsBranch : Text → Type 0
IsBranch branch =
    (is_empty branch ≡ false)
    × (any (λ c. nat_beq c b':') branch ≡ false)
    × (has_prefix branch "+" ≡ false)
    × (has_prefix branch "refs/heads/" ≡ false)

-- The refspecs that push to a branch by its short name: the name, the name behind `+`, and the name
-- behind a source and a colon. The source may begin with `+`, and deletes the branch where it is empty.
pub data PushesTo (branch : Text) : Text → Type 0 where
  bare : PushesTo branch branch
  forced : PushesTo branch (b'+' ∷ branch)
  from : (source : Text) → PushesTo branch (source ++ b':' ∷ branch)

-- the arguments after `push` and the remote that are no flags
abbrev pub operands : List Text → List Text
operands args = drop 2 (select_where (λ a. not (has_prefix a "-")) args)

-- what is parsed of a refspec that pushes to a branch
abbrev Parsed : Text → Text → Type 0
Parsed branch raw =
    ((parse_git_push_refspec raw).destination ≡ some branch)
    × ((parse_git_push_refspec raw).force ≡ has_prefix raw "+")
