-- ===== src/Policy/Tests.antt =====
-- Runs of the policy on small commands.
use gram_coding_agent.Base.{some, ◌≡◌, refl, arith, List, [], ◌∷◌, none, All, map, true}
use gram_coding_agent.Policy.Text.{Text, codes}
use gram_coding_agent.Policy.Parser.Words.{tokenize}
use gram_coding_agent.Policy.Parser.Words.Quoting.{IsQuotable, quoted_all, tokenize-quoted, plain}
use gram_coding_agent.Policy.Risk.Rules.{PolicyContext, deny, is_protected}
use gram_coding_agent.Policy.Risk.Git.{
  classify_push, git_push_refspecs, has_arg, is_wildcard, granted, no_refspecs,
}
use gram_coding_agent.Policy.Risk.Push.{protected_destruction_denied}
use mathlib.Core.List.{Memᴰ}

abbrev context : PolicyContext
context = record {
  task_id = codes "t";
  protected_branches = none;
  direct_main_granted = none;
  target_branch = none;
  publish_mode = none;
}

abbrev push_branch : List Text
push_branch = codes "push" ∷ codes "origin" ∷ codes "topic" ∷ []

abbrev force_main : List Text
force_main = codes "push" ∷ codes "origin" ∷ codes "+main" ∷ []

protected_destruction_denied_example : (classify_push force_main context).kind ≡ deny
unfolding gram_coding_agent.Policy.Text.is git_push_refspecs is_protected
    gram_coding_agent.Policy.Risk.Git.strip_heads_prefix
protected_destruction_denied_example = protected_destruction_denied force_main context refl refl

abbrev granted_context : PolicyContext
granted_context = record context { direct_main_granted = some true }

abbrev push_main : List Text
push_main = codes "push" ∷ codes "origin" ∷ codes "HEAD:main" ∷ []

abbrev two_words : List Text
two_words = codes "a b" ∷ codes "$x" ∷ []

two_words-IsQuotable : All IsQuotable two_words
two_words-IsQuotable = ground arith

tokenize-quoted_example : tokenize (quoted_all two_words) ≡ map plain two_words
tokenize-quoted_example = tokenize-quoted two_words two_words-IsQuotable
