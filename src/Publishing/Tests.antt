-- ===== src/Publishing/Tests.antt =====
-- A run of a publication with ports that all answer.
use gram_coding_agent.Base.{[], ◌∷◌, some, true}
use gram_coding_agent.Base.Steps.{Outcome}
use gram_coding_agent.Policy.Text.{codes}
use gram_coding_agent.Publishing.{PublishingTaskContext, Ports, publish}
use gram_coding_agent.Publishing.Laws.{IsPublished, IsBroken, publish_in_order}

abbrev context : PublishingTaskContext
context = record {
  task_id = codes "t";
  repo_id = 7;
  worktree = codes "/w";
  branch = codes "b";
  paths = codes "a.ts" ∷ [];
  commit_message = codes "m";
  remote = codes "origin";
}

abbrev answering : Ports
answering = record {
  assert_passed = λ _. some tt;
  assert_committed = some (λ _. some tt);
  commit_explicit = λ _. some (codes "0123456789abcdef0123456789abcdef01234567");
  push = λ _. some tt;
  confirm_remote_sha = λ _. some true;
  record_commit = λ _. some 3;
  mark_remote_confirmed = λ _. some tt;
  append = λ _. some tt;
  release = λ _. some tt;
  now = λ _. codes "now";
}

publish_in_order_example :
    Outcome
      (IsPublished context answering answering.assert_committed)
      (IsBroken context answering answering.assert_committed)
      (publish answering context [])
publish_in_order_example = publish_in_order answering context
