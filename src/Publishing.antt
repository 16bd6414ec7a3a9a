-- ===== src/Publishing.antt =====
-- `PublishingService`: packages/publishing/src/publishing-service.ts. Its ports (verification, git,
-- persistence, audit, the lock lease and the clock) answer as functions of the calls made so far.
pub mod Laws
mod Tests
use gram_coding_agent.Base.{
  ℕ, Bool, true, false, ◌&&◌, ◌||◌, List, [], ◌∷◌, Option, none, some, all, length, leb, nat_beq,
}
use gram_coding_agent.Base.Effects.{Eff, ◌>>=◌, ◌>>◌, pure, throw, require}
use gram_coding_agent.Base.Steps.{attempt}
use gram_coding_agent.Policy.Text.{Text}

pub record PublishingTaskContext : Type 0 where
  pub task_id : Text
  pub repo_id : ℕ
  pub worktree : Text
  pub branch : Text
  pub paths : List Text
  pub commit_message : Text
  pub remote : Text

pub data Event : Type 0 where
  commit_created : ℕ → Text → Text → Event
  push_started : Text → Text → Text → Event
  remote_push_confirmed : ℕ → Text → Text → Text → Text → Event
  repo_lock_released : ℕ → ℕ → Text → Text → Event

pub data Call : Type 0 where
  assert_passed_call : Text → Call
  commit_call : Text → List Text → Text → Call
  record_call : Text → ℕ → Text → Text → Text → Call
  assert_committed_call : Text → Text → Call
  push_call : Text → Text → Text → Call
  confirm_call : Text → Text → Text → Call
  mark_call : ℕ → Text → Call
  audit_call : Text → Event → Option Text → Call
  release_call : Call

-- `none` stands for a call that throws.
pub record Ports : Type 0 where
  pub assert_passed : List Call → Option (Unit {0})
  pub assert_committed : Option (List Call → Option (Unit {0}))
  pub commit_explicit : List Call → Option Text
  pub push : List Call → Option (Unit {0})
  pub confirm_remote_sha : List Call → Option Bool
  pub record_commit : List Call → Option ℕ
  pub mark_remote_confirmed : List Call → Option (Unit {0})
  pub append : List Call → Option (Unit {0})
  pub release : List Call → Option (Unit {0})
  pub now : List Call → Text

pub record PublishedCommit : Type 0 where
  pub commit_id : ℕ
  pub task_id : Text
  pub repo_id : ℕ
  pub sha : Text
  pub branch : Text
  pub remote : Text
  pub remote_confirmed_at : Text

pub data PublishError : Type 0 where
  port_failed invalid_sha : PublishError
  not_confirmed : Text → Text → Text → PublishError

abbrev is_hex : ℕ → Bool
is_hex c = (leb b'0' c && leb c b'9') || (leb b'a' c && leb c b'f')

-- `/^[0-9a-f]{40}$/`
unfoldable pub is_full_sha : Text → Bool
is_full_sha s = nat_beq (length s) 40 && all is_hex s

abbrev pub Step : Type 0 → Type 0
Step A = Eff (List Call) PublishError A

-- the reading of the clock
abbrev pub read_now : Ports → Step Text
read_now ports calls = pure (ports.now calls) calls

-- the audit row of an event, whose time the repository sets where the caller gives none
abbrev pub audit : Ports → PublishingTaskContext → Event → Option Text → Step (Unit {0})
audit ports context event at =
    attempt port_failed (audit_call context.task_id event at) ports.append

-- `assertCommitted?.(…)`
abbrev pub assert_committed :
    PublishingTaskContext → Option (List Call → Option (Unit {0})) → Text → Step (Unit {0})
assert_committed context none sha = pure tt
assert_committed context (some port) sha =
    attempt port_failed (assert_committed_call context.task_id sha) port

-- from the confirmation of the remote to the result
unfoldable pub after_push : Ports → PublishingTaskContext → Text → ℕ → Step PublishedCommit
after_push ports context sha commit_id = do
  confirmed ←
      attempt port_failed (confirm_call context.remote context.branch sha) ports.confirm_remote_sha
  require confirmed (not_confirmed context.remote context.branch sha)
  at ← read_now ports
  attempt port_failed (mark_call commit_id at) ports.mark_remote_confirmed
  audit ports context (remote_push_confirmed commit_id sha context.branch context.remote at)
      (some at)
  attempt port_failed release_call ports.release
  released_at ← read_now ports
  audit ports context (repo_lock_released context.repo_id commit_id sha at) (some released_at)
  pure (record {
    commit_id = commit_id;
    task_id = context.task_id;
    repo_id = context.repo_id;
    sha = sha;
    branch = context.branch;
    remote = context.remote;
    remote_confirmed_at = at;
  })

-- from the check of the commit to the push
unfoldable pub checked_push :
    Ports
    → PublishingTaskContext
    → Option (List Call → Option (Unit {0}))
    → Text
    → ℕ
    → Step PublishedCommit
unfolding after_push
checked_push ports context check sha commit_id = do
  assert_committed context check sha
  audit ports context (push_started sha context.branch context.remote) none
  attempt port_failed (push_call context.worktree context.branch sha) ports.push
  after_push ports context sha commit_id

-- from the commit to the push
unfoldable pub after_commit : Ports → PublishingTaskContext → Text → Step PublishedCommit
unfolding checked_push
after_commit ports context sha = do
  commit_id ←
      attempt port_failed
        (record_call context.task_id context.repo_id sha context.branch context.remote)
        ports.record_commit
  audit ports context (commit_created commit_id sha context.branch) none
  checked_push ports context ports.assert_committed sha commit_id

unfoldable pub publish : Ports → PublishingTaskContext → Step PublishedCommit
unfolding after_commit is_full_sha
publish ports context = do
  attempt port_failed (assert_passed_call context.task_id) ports.assert_passed
  sha ←
      attempt port_failed (commit_call context.worktree context.paths context.commit_message)
        ports.commit_explicit
  require (is_full_sha sha) invalid_sha
  after_commit ports context sha
