-- ===== src/Policy/Risk/Rules.antt =====
-- The rules of packages/policy/src/risk-classifier.ts and the context that they read.
use gram_coding_agent.Base.{Bool, false, List, [], ◌∷◌, Option, none, some, any}
use gram_coding_agent.Policy.Text.{Text, codes, same}
use gram_coding_agent.Task.Database.{PublishMode}

pub data PolicyDecisionKind : Type 0 where
  allow needs_approval deny : PolicyDecisionKind

pub data RuleId : Type 0 where
  git_unknown git_reset_hard git_clean git_mirror git_broad_force git_broad_push : RuleId
  git_push_unresolved git_wildcard_destructive git_wildcard_push git_protected_force : RuleId
  git_protected_delete git_protected_push git_delete git_push git_worktree_task : RuleId
  git_read_normal git_task_mutation git_other dev_package dev_package_other : RuleId
  win_raw_exec block_device_destructive rm_root path_unresolved rm_recursive rm_file : RuleId
  apt_install apt_remove apt_other dev_normal wslpath_windows wslpath_other : RuleId
  unknown_command git_worktree_path : RuleId

pub record PolicyContext : Type 0 where
  pub task_id : Text
  pub protected_branches : Option (List Text)
  pub direct_main_granted : Option Bool
  pub target_branch : Option Text
  pub publish_mode : Option PublishMode

pub record ClassifiedRisk : Type 0 where
  pub kind : PolicyDecisionKind
  pub rule_id : RuleId

abbrev pub allowed : RuleId → ClassifiedRisk
allowed id = record { kind = allow; rule_id = id }

abbrev pub approve : RuleId → ClassifiedRisk
approve id = record { kind = needs_approval; rule_id = id }

abbrev pub denied : RuleId → ClassifiedRisk
denied id = record { kind = deny; rule_id = id }

abbrev pub protected_of : PolicyContext → List Text
protected_of context = elim (context.protected_branches) [
  | none ↦ codes "main" ∷ codes "master" ∷ []
  | some branches ↦ branches
]

unfoldable pub is_protected : Option Text → PolicyContext → Bool
is_protected none context = false
is_protected (some branch) context = any (λ b. same b branch) (protected_of context)
