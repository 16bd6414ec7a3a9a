-- ===== src/Publishing/Laws.antt =====
-- The order of the steps of a publication: packages/publishing/src/publishing-service.ts.
use gram_coding_agent.Base.{
  ℕ, ◌≡◌, refl, Bool, true, false, List, [], ◌∷◌, Option, none, some, take, any, ap, ◌∙◌, inl, inr,
  ◌⊎◌,
}
use gram_coding_agent.Base.Steps.{attempt_then, require_then, Outcome}
use gram_coding_agent.Policy.Text.{Text}
use gram_coding_agent.Publishing.{
  PublishingTaskContext, commit_created, push_started, remote_push_confirmed, repo_lock_released,
  Call, assert_passed_call, commit_call, record_call, assert_committed_call, push_call,
  confirm_call, mark_call, audit_call, release_call, Ports, PublishedCommit, PublishError,
  is_full_sha, publish, checked_push,
}

abbrev is_release : Call → Bool
is_release release_call = true
is_release _ = false

-- the remote confirmed at one of the calls
abbrev pub IsConfirmed : Ports → List Call → Type 0
IsConfirmed ports calls = (n : ℕ) × (ports.confirm_remote_sha (take n calls) ≡ some true)

module _ (context : PublishingTaskContext) where
  abbrev checked : Option (List Call → Option (Unit {0})) → Text → List Call → List Call
  checked none sha rest = rest
  checked (some port) sha rest = assert_committed_call context.task_id sha ∷ rest

  -- the calls of a whole publication, in order
  abbrev pub publish_calls :
      Option (List Call → Option (Unit {0})) → Text → ℕ → Text → Text → List Call
  publish_calls check sha id at released_at =
      assert_passed_call context.task_id
      ∷ commit_call context.worktree context.paths context.commit_message
      ∷ record_call context.task_id context.repo_id sha context.branch context.remote
      ∷ audit_call context.task_id (commit_created id sha context.branch) none
      ∷ checked check sha (
          audit_call context.task_id (push_started sha context.branch context.remote) none
          ∷ push_call context.worktree context.branch sha
          ∷ confirm_call context.remote context.branch sha
          ∷ mark_call id at
          ∷ audit_call context.task_id
              (remote_push_confirmed id sha context.branch context.remote at) (some at)
          ∷ release_call
          ∷ audit_call context.task_id (repo_lock_released context.repo_id id sha at)
              (some released_at)
          ∷ [])

  -- the calls that a publication made before it threw
  abbrev pub IsBroken :
      Ports → Option (List Call → Option (Unit {0})) → PublishError → List Call → Type 0
  IsBroken ports check e calls =
      (sha : Text) × (id : ℕ) × (at : Text) × (released_at : Text) × (n : ℕ) × (calls
        ≡ take n (publish_calls check sha id at released_at))
      × ((any is_release calls ≡ false) ⊎ IsConfirmed ports calls)

  -- what the result of a publication says, and the calls made for it
  abbrev pub IsPublished :
      Ports → Option (List Call → Option (Unit {0})) → PublishedCommit → List Call → Type 0
  IsPublished ports check commit calls =
      (released_at : Text) × (calls
        ≡ publish_calls check commit.sha commit.commit_id commit.remote_confirmed_at released_at)
      × (is_full_sha commit.sha ≡ true)
      × IsConfirmed ports calls
      × (commit.task_id ≡ context.task_id)
      × (commit.repo_id ≡ context.repo_id)
      × (commit.branch ≡ context.branch)
      × (commit.remote ≡ context.remote)

module _ (ports : Ports) (context : PublishingTaskContext) where
  checked_push_lem :
      (check : Option (List Call → Option (Unit {0}))) (sha : Text) (id : ℕ)
      → is_full_sha sha ≡ true
      → Outcome (IsPublished context ports check) (IsBroken context ports check) (
          checked_push ports context check sha id
            (take 4 (publish_calls context check sha id [] [])))
  unfolding checked_push
  checked_push_lem none sha id full =
      let P = IsPublished context ports none in
      let Q = IsBroken context ports none in
      attempt_then P Q _ _ _ _ _ (sha, id, [], [], 5, refl, inl refl)
        λ _ _.
          attempt_then P Q _ _ _ _ _ (sha, id, [], [], 6, refl, inl refl)
            λ _ _.
              attempt_then P Q _ _ _ _ _ (sha, id, [], [], 7, refl, inl refl)
                λ confirmed answer.
                  require_then P Q _ _ _ _ (sha, id, [], [], 7, refl, inl refl)
                    λ agreed.
                      let at = ports.now (take 7 (publish_calls context none sha id [] [])) in
                      let sure = answer ∙ ap some agreed in
                      attempt_then P Q _ _ _ _ _ (sha, id, at, [], 8, refl, inl refl)
                        λ _ _.
                          attempt_then P Q _ _ _ _ _ (sha, id, at, [], 9, refl, inl refl)
                            λ _ _.
                              attempt_then P Q _ _ _ _ _ (sha, id, at, [], 10, refl, inr (6, sure))
                                λ _ _.
                                  attempt_then P Q _ _ _ _ _
                                    (sha, id, at, _, 11, refl, inr (6, sure))
                                    λ _ _. (_, refl, full, (6, sure), refl, refl, refl, refl)
  checked_push_lem (some port) sha id full =
      let P = IsPublished context ports (some port) in
      let Q = IsBroken context ports (some port) in
      attempt_then P Q _ _ _ _ _ (sha, id, [], [], 5, refl, inl refl)
        λ _ _.
          attempt_then P Q _ _ _ _ _ (sha, id, [], [], 6, refl, inl refl)
            λ _ _.
              attempt_then P Q _ _ _ _ _ (sha, id, [], [], 7, refl, inl refl)
                λ _ _.
                  attempt_then P Q _ _ _ _ _ (sha, id, [], [], 8, refl, inl refl)
                    λ confirmed answer.
                      require_then P Q _ _ _ _ (sha, id, [], [], 8, refl, inl refl)
                        λ agreed.
                          let at =
                            ports.now (take 8 (publish_calls context (some port) sha id [] [])) in
                          let sure = answer ∙ ap some agreed in
                          attempt_then P Q _ _ _ _ _ (sha, id, at, [], 9, refl, inl refl)
                            λ _ _.
                              attempt_then P Q _ _ _ _ _ (sha, id, at, [], 10, refl, inl refl)
                                λ _ _.
                                  attempt_then P Q _ _ _ _ _
                                    (sha, id, at, [], 11, refl, inr (7, sure))
                                    λ _ _.
                                      attempt_then P Q _ _ _ _ _
                                        (sha, id, at, _, 12, refl, inr (7, sure))
                                        λ _ _. (_, refl, full, (7, sure), refl, refl, refl, refl)

  -- A publication makes its calls in the order of `publish_calls`: all of them where it returns, with
  -- a full SHA, the commit's id, the task, repository, branch and remote of its context, and the time
  -- the remote confirmed at; and the first n of them, for some n, where it throws. Where the lock has
  -- been released, the remote had confirmed the commit at one of the calls.
  pub publish_in_order :
      Outcome
        (IsPublished context ports ports.assert_committed)
        (IsBroken context ports ports.assert_committed)
        (publish ports context [])
  unfolding publish
  publish_in_order =
      let P = IsPublished context ports ports.assert_committed in
      let Q = IsBroken context ports ports.assert_committed in
      attempt_then P Q _ _ _ _ _ ([], 0, [], [], 1, refl, inl refl)
        λ _ _.
          attempt_then P Q _ _ _ _ _ ([], 0, [], [], 2, refl, inl refl)
            λ sha _.
              require_then P Q _ _ _ _ ([], 0, [], [], 2, refl, inl refl)
                λ full.
                  attempt_then P Q _ _ _ _ _ (sha, 0, [], [], 3, refl, inl refl)
                    λ id _.
                      attempt_then P Q _ _ _ _ _ (sha, id, [], [], 4, refl, inl refl)
                        λ _ _. checked_push_lem ports.assert_committed sha id full
