-- ===== src/Policy/Risk/Git.antt =====
-- `classifyGit` and the refspecs of a push: packages/policy/src/risk-classifier.ts.
use gram_coding_agent.Base.{
  String, Bool, true, false, not, ◌&&◌, ◌||◌, List, [], ◌∷◌, Option, none, some, if◌then◌else◌, any,
  map, drop, nat_beq,
}
use gram_coding_agent.Table.{select_where}
use gram_coding_agent.Policy.Text.{Text, is, is_one_of, has_prefix, includes_char, is_empty, trim}
use gram_coding_agent.Policy.Risk.Rules.{
  PolicyContext, ClassifiedRisk, allowed, approve, denied, is_protected, git_unknown,
  git_reset_hard, git_clean, git_mirror, git_broad_force, git_broad_push, git_push_unresolved,
  git_wildcard_destructive, git_wildcard_push, git_protected_force, git_protected_delete,
  git_protected_push, git_delete, git_push, git_worktree_task, git_read_normal, git_task_mutation,
  git_other,
}

pub record GitPushRefspec : Type 0 where
  pub raw : Text
  pub destination : Option Text
  pub force : Bool
  pub delete : Bool

unfoldable pub strip_heads_prefix : Text → Text
unfolding has_prefix
strip_heads_prefix ref = if has_prefix ref "refs/heads/" then drop 11 ref else ref

-- the parts before and after the last colon, where there is one
unfoldable pub split_last_colon : Text → Option (Text × Text)
split_last_colon [] = none
split_last_colon (c ∷ s) = elim (split_last_colon s) [
  | some (before, after) ↦ some (c ∷ before, after)
  | none ↦ if nat_beq c b':' then some ([], s) else none
]

abbrev pub destination_of : Text → Option Text
destination_of ref = if is_empty ref then none else some (strip_heads_prefix ref)

unfoldable pub parse_git_push_refspec : Text → GitPushRefspec
unfolding has_prefix split_last_colon
parse_git_push_refspec raw =
    let force = has_prefix raw "+" in
    let without_force = if force then drop 1 raw else raw in
    elim (split_last_colon without_force) [
      | none ↦ record {
        raw = raw;
        destination = destination_of without_force;
        force = force;
        delete = false;
      }
      | some (source, ref) ↦ record {
        raw = raw;
        destination = destination_of ref;
        force = force;
        delete = is_empty source;
      }
    ]

unfoldable pub git_push_refspecs : List Text → List GitPushRefspec
unfolding has_prefix parse_git_push_refspec
git_push_refspecs args =
    map parse_git_push_refspec (drop 2 (select_where (λ a. not (has_prefix a "-")) args))

abbrev pub has_arg : List Text → String → Bool
has_arg args w = any (λ a. is a w) args

abbrev pub force_by_flag : List Text → Bool
force_by_flag args =
    any (λ a. is a "-f" || is a "--force" || has_prefix a "--force-with-lease") args

abbrev pub delete_by_flag : List Text → Bool
delete_by_flag args = has_arg args "--delete" || has_arg args "-d"

abbrev pub is_wildcard : GitPushRefspec → Bool
is_wildcard r = elim (r.destination) [ none ↦ false | some d ↦ includes_char d b'*' ]

abbrev pub granted : PolicyContext → Bool
granted context = elim (context.direct_main_granted) [ none ↦ false | some b ↦ b ]

-- The loop over the refspecs: the first one that destroys a protected branch decides.
unfoldable pub destroys_protected :
    PolicyContext → Bool → Bool → List GitPushRefspec → Option ClassifiedRisk
destroys_protected context force delete [] = none
destroys_protected context force delete (r ∷ rs) =
    let rest = destroys_protected context force delete rs in
    let guarded = is_protected r.destination context in
    if guarded && (force || r.force)
    then some (denied git_protected_force)
    else if guarded && (delete || r.delete)
    then some (denied git_protected_delete)
    else rest

abbrev pub no_refspecs : List GitPushRefspec → Bool
no_refspecs [] = true
no_refspecs (_ ∷ _) = false

-- what is left of the push rules once no refspec has a wildcard
unfoldable pub classify_refspecs :
    PolicyContext → Bool → Bool → List GitPushRefspec → ClassifiedRisk
unfolding destroys_protected
classify_refspecs context force delete refspecs =
    elim (destroys_protected context force delete refspecs) [
      | some verdict ↦ verdict
      | none ↦
          if any (λ r. is_protected r.destination context) refspecs && not (granted context)
          then approve git_protected_push
          else if delete || any (λ r. r.delete) refspecs
          then approve git_delete
          else allowed git_push
    ]

unfoldable pub classify_push : List Text → PolicyContext → ClassifiedRisk
unfolding git_push_refspecs classify_refspecs
classify_push args context =
    let refspecs = git_push_refspecs args in
    let force = force_by_flag args in
    let delete = delete_by_flag args in
    let broad = has_arg args "--all" || has_arg args "--mirror" in
    let wildcard = any is_wildcard refspecs in
    if has_arg args "--mirror"
    then denied git_mirror
    else if broad && force
    then denied git_broad_force
    else if broad
    then approve git_broad_push
    else if no_refspecs refspecs
    then approve git_push_unresolved
    else if wildcard
        && (force || any (λ r. r.force) refspecs || delete || any (λ r. r.delete) refspecs)
    then denied git_wildcard_destructive
    else if wildcard
    then approve git_wildcard_push
    else classify_refspecs context force delete refspecs

abbrev pub is_operand : Text → Bool
is_operand a = not (is_empty a) && not (has_prefix a "-")

-- the three shapes of the worktree life cycle
unfoldable pub is_worktree_lifecycle : List Text → Bool
unfolding is has_prefix
is_worktree_lifecycle (w ∷ verb ∷ []) = is verb "prune"
is_worktree_lifecycle (w ∷ verb ∷ flag ∷ path ∷ []) =
    is verb "remove" && is flag "--force" && is_operand path
is_worktree_lifecycle (w ∷ verb ∷ flag ∷ branch ∷ path ∷ base ∷ []) =
    is verb "add" && is flag "-b" && is_operand branch && is_operand path && is_operand base
is_worktree_lifecycle _ = false

unfoldable pub classify_subcommand : Text → List Text → PolicyContext → ClassifiedRisk
unfolding is is_one_of classify_push is_worktree_lifecycle
classify_subcommand subcommand args context =
    if is subcommand "reset" && has_arg args "--hard"
    then approve git_reset_hard
    else if is subcommand "clean" && any (λ a. includes_char a b'f') args
    then approve git_clean
    else if is subcommand "push"
    then classify_push args context
    else if is subcommand "worktree"
        && not (is_empty (trim context.task_id))
        && is_worktree_lifecycle args
    then allowed git_worktree_task
    else if is_one_of subcommand (
        "status" ∷ "diff" ∷ "log" ∷ "blame" ∷ "fetch" ∷ "pull" ∷ "branch" ∷ "show" ∷ "rev-parse"
        ∷ "ls-remote" ∷ [])
    then allowed git_read_normal
    else if is_one_of subcommand ("add" ∷ "commit" ∷ "checkout" ∷ "switch" ∷ [])
    then allowed git_task_mutation
    else approve git_other

unfoldable pub classify_git : List Text → PolicyContext → ClassifiedRisk
unfolding classify_subcommand
classify_git [] context = approve git_unknown
classify_git (subcommand ∷ rest) context =
    classify_subcommand subcommand (subcommand ∷ rest) context
