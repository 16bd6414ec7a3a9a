-- ===== src/Checks/Laws.antt =====
-- What an observation of the required checks does, attempt by attempt: packages/github/src/checks-service.ts.
use gram_coding_agent.Base.{
  ℕ, zero, suc, ◌+◌, ◌≤◌, ◌≡◌, refl, sym, ap, ◌∙◌, ◌⊎◌, some, append_assoc, Bool, true, false, List,
  [], ◌∷◌, ◌++◌, leb, any, arith, inl, inr, Bool-cases,
}
use gram_coding_agent.Base.Steps.{attempt_last, attempt_then, require_then, then_lem, Outcome}
use gram_coding_agent.Table.{count_where, count_where-append}
use gram_coding_agent.Base.Effects.{◌>>◌, require}
use gram_coding_agent.Publishing.{is_full_sha}
use gram_coding_agent.Checks.{
  port_failed, invalid_options, invalid_head_sha, RequiredCheckSnapshot, CiPullRequestContext,
  CiOutcome, success, failure, pending, CiSummary, is_failure, Call, list_call, upsert_call,
  complete_call, wait_call, Ports, ChecksError, Options, Step, upsert_all, wait_before, all_passed,
  conclude, attempts_from, observe_required_checks,
}

abbrev is_list : Call → Bool
is_list (list_call _) = true
is_list _ = false

abbrev is_complete : Call → Bool
is_complete (complete_call _) = true
is_complete _ = false

abbrev pub lists : List Call → ℕ
lists calls = count_where is_list calls

abbrev pub completions : List Call → ℕ
completions calls = count_where is_complete calls

lists-snoc : (calls : List Call) (c : Call) → lists (calls ++ c ∷ []) ≡ lists calls + lists (c ∷ [])
lists-snoc calls c = count_where-append is_list calls (c ∷ [])

completions-snoc :
    (calls : List Call) (c : Call)
    → completions (calls ++ c ∷ []) ≡ completions calls + completions (c ∷ [])
completions-snoc calls c = count_where-append is_complete calls (c ∷ [])

module _ (ports : Ports) (options : Options) (pull_request : CiPullRequestContext) where
  abbrev Verdict : CiOutcome → ℕ → List RequiredCheckSnapshot → List Call → Type 0
  Verdict success number checks calls =
      (all_passed ports options pull_request checks ≡ true)
      × (any is_failure checks ≡ false)
      × (completions calls ≡ 1)
  Verdict failure number checks calls = (any is_failure checks ≡ true) × (completions calls ≡ 0)
  Verdict pending number checks calls =
      (number ≡ options.max_attempts)
      × (any is_failure checks ≡ false)
      × (all_passed ports options pull_request checks ≡ false)
      × (completions calls ≡ 0)

  -- the last listing among the calls answered with these checks
  abbrev pub IsLastListing : List RequiredCheckSnapshot → List Call → Type 0
  IsLastListing checks calls =
      (earlier : List Call) × (later : List Call) × (calls
        ≡ earlier ++ list_call pull_request ∷ later)
      × (lists later ≡ 0)
      × (ports.list_required_checks earlier ≡ some checks)

  IsLastListing-snoc :
      (checks : List RequiredCheckSnapshot) (calls : List Call) (c : Call)
      → lists (c ∷ []) ≡ 0
      → IsLastListing checks calls
      → IsLastListing checks (calls ++ c ∷ [])
  IsLastListing-snoc checks calls c other (earlier, later, split, none_later, answer) = (
    earlier,
    later ++ c ∷ [],
    ap (λ l. l ++ c ∷ []) split ∙ append_assoc earlier (list_call pull_request ∷ later) (c ∷ []),
    rw (lists-snoc later c) (omega (arith, other, none_later)),
    answer,
  )

  abbrev pub IsObserved : CiSummary → List Call → Type 0
  IsObserved summary calls =
      (lists calls ≡ summary.attempts)
      × (summary.attempts ≤ options.max_attempts)
      × IsLastListing summary.checks calls
      × Verdict summary.outcome summary.attempts summary.checks calls

  abbrev pub IsBroken : ChecksError → List Call → Type 0
  IsBroken e calls = (lists calls ≤ options.max_attempts) × (completions calls ≤ 1)

  -- after so many listings, the last of which answered with these checks
  abbrev IsAt : ℕ → List RequiredCheckSnapshot → Unit {0} → List Call → Type 0
  IsAt number checks _ calls =
      (lists calls ≡ number) × (completions calls ≡ 0) × IsLastListing checks calls

  -- a call that neither lists nor completes
  IsAt-snoc :
      (number : ℕ) (checks : List RequiredCheckSnapshot) (calls : List Call) (c : Call)
      → lists (c ∷ []) ≡ 0
      → completions (c ∷ []) ≡ 0
      → IsAt number checks tt calls
      → IsAt number checks tt (calls ++ c ∷ [])
  IsAt-snoc number checks calls c other other' (listed, completed, last) = (
    ground (arith, lists-snoc calls c),
    ground (arith, completions-snoc calls c),
    IsLastListing-snoc checks calls c other last,
  )

  at-IsBroken :
      (number : ℕ) (checks : List RequiredCheckSnapshot) (e : ChecksError) (calls : List Call)
      → number ≤ options.max_attempts
      → IsAt number checks tt calls
      → IsBroken e calls
  at-IsBroken number checks e calls bound (listed, completed, _) = (ground arith, ground arith)

  upsert_all-IsAt :
      (number : ℕ) (latest : List RequiredCheckSnapshot)
      → number ≤ options.max_attempts
      → (checks : List RequiredCheckSnapshot) (calls : List Call) → IsAt number latest tt calls
      → Outcome (IsAt number latest) IsBroken (upsert_all ports options pull_request checks calls)
  unfolding upsert_all
  upsert_all-IsAt number latest bound [] calls h = h
  upsert_all-IsAt number latest bound (check ∷ checks) calls h =
      let c = upsert_call pull_request.task_id pull_request.pull_request_id check in
      let next = IsAt-snoc number latest calls c refl refl h in
      attempt_then (IsAt number latest) IsBroken _ _ _ _ _
        (at-IsBroken number latest port_failed (calls ++ c ∷ []) bound next)
        λ _ _. upsert_all-IsAt number latest bound checks (calls ++ c ∷ []) next

  wait_before-IsAt :
      (number : ℕ) (latest : List RequiredCheckSnapshot)
      → number ≤ options.max_attempts
      → (left : ℕ) (calls : List Call) → IsAt number latest tt calls
      → Outcome (IsAt number latest) IsBroken (wait_before ports options pull_request left calls)
  wait_before-IsAt number latest bound zero calls h = h
  wait_before-IsAt number latest bound (suc left) calls h =
      let c = wait_call options.poll_interval_ms in
      let next = IsAt-snoc number latest calls c refl refl h in
      attempt_last (IsAt number latest) IsBroken _ _ _ _
        (at-IsBroken number latest port_failed (calls ++ c ∷ []) bound next) (λ _. next)

  -- checks that neither fail nor all pass leave it to the next attempt
  abbrev IsUndecided : List RequiredCheckSnapshot → Type 0
  IsUndecided checks =
      (any is_failure checks ≡ false) × (all_passed ports options pull_request checks ≡ false)

  conclude_lem :
      (number : ℕ)
      → number ≤ options.max_attempts
      → (checks : List RequiredCheckSnapshot) (next : Step CiSummary) (calls : List Call)
      → IsAt number checks tt calls
      → (IsUndecided checks → Outcome IsObserved IsBroken (next calls))
      → Outcome IsObserved IsBroken (conclude ports options pull_request number checks next calls)
  unfolding conclude
  conclude_lem number bound checks next calls (listed, completed, last) later =
      elim (Bool-cases (any is_failure checks)) [
        | inl bad ↦ rw (bad, conclude) (listed, bound, last, (bad, completed))
        | inr fine ↦ elim (Bool-cases (all_passed ports options pull_request checks)) [
          | inl good ↦
              let c = complete_call pull_request.task_id in
              let done = IsLastListing-snoc checks calls c refl last in
              rw (fine, good, conclude)
                (attempt_then IsObserved IsBroken _ _ _ _ _
                  (ground (arith, lists-snoc calls c, completions-snoc calls c))
                  λ _ _. (
                    ground (arith, lists-snoc calls c),
                    bound,
                    done,
                    (good, fine, ground (arith, completions-snoc calls c)),
                  ))
          | inr waiting ↦ rw (fine, waiting, conclude) (later (fine, waiting))
        ]
      ]

  -- before an attempt, no checks were listed, or those listed last decide nothing
  abbrev IsOpen : ℕ → List RequiredCheckSnapshot → List Call → Type 0
  IsOpen done latest calls =
      ((done ≡ 0) × (calls ≡ [])) ⊎ (IsAt done latest tt calls × IsUndecided latest)

  counts-IsOpen :
      (done : ℕ) (latest : List RequiredCheckSnapshot) (calls : List Call)
      → IsOpen done latest calls
      → (lists calls ≡ done) × (completions calls ≡ 0)
  counts-IsOpen done latest calls (inl (first, empty)) =
      (ap lists empty ∙ sym first, ap completions empty)
  counts-IsOpen done latest calls (inr ((listed, completed, _), _)) = (listed, completed)

  listed-IsAt :
      (done : ℕ) (checks : List RequiredCheckSnapshot) (calls : List Call)
      → lists calls ≡ done
      → completions calls ≡ 0
      → ports.list_required_checks calls ≡ some checks
      → IsAt (suc done) checks tt (calls ++ list_call pull_request ∷ [])
  listed-IsAt done checks calls listed completed answer = (
    ground (arith, lists-snoc calls (list_call pull_request)),
    ground (arith, completions-snoc calls (list_call pull_request)),
    (calls, [], refl, refl, answer),
  )

  attempts_from_lem :
      (left done : ℕ) (latest : List RequiredCheckSnapshot) (calls : List Call)
      → done + left ≡ options.max_attempts
      → 1 ≤ options.max_attempts
      → IsOpen done latest calls
      → Outcome IsObserved IsBroken
          (attempts_from ports options pull_request left (suc done) latest calls)
  unfolding attempts_from
  attempts_from_lem zero done latest calls whole some_left (inl (first, _)) =
      let bad : ⊥ = omega arith in absurd bad
  attempts_from_lem zero done latest calls whole some_left
        (inr ((listed, completed, last), unclear)) =
      (omega arith, omega arith, last, (refl, unclear.0, unclear.1, completed))
  attempts_from_lem (suc left) done latest calls whole some_left before =
      let (listed, completed) = counts-IsOpen done latest calls before in
      attempt_then IsObserved IsBroken _ _ _ _ _
        (ground (
          arith,
          lists-snoc calls (list_call pull_request),
          completions-snoc calls (list_call pull_request),
        ))
        λ checks answer.
          then_lem (IsAt (suc done) checks) IsObserved IsBroken _ _
            (upsert_all-IsAt (suc done) checks (omega arith) checks _
              (listed-IsAt done checks calls listed completed answer))
            λ _ s at. conclude_lem (suc done) (omega arith) checks _ s at (λ undecided.
              then_lem (IsAt (suc done) checks) IsObserved IsBroken _ _
                (wait_before-IsAt (suc done) checks (omega arith) left s at)
                λ _ s' at'.
                  attempts_from_lem left (suc done) checks s' (omega arith) some_left
                    (inr (at', undecided)))

  -- An observation that returns has listed the checks once for each attempt it reports, at most
  -- `maxAttempts` times, and the checks it reports are those that the last listing answered. It reports
  -- success only for checks of which there is one, all pass and none fails, and has completed the task
  -- once; it reports failure only where one of the checks fails, and that CI is pending only after all
  -- attempts, where none of the checks fails and not all pass, and has then not completed the task.
  -- One that throws has listed the
  -- checks at most `maxAttempts` times and completed the task at most once.
  pub observe_required_checks_lem :
      Outcome IsObserved IsBroken (observe_required_checks ports options pull_request [])
  unfolding observe_required_checks
  observe_required_checks_lem =
      require_then IsObserved IsBroken (leb 1 options.max_attempts) invalid_options
        (λ _.
          require (is_full_sha pull_request.head_sha) invalid_head_sha
          >> attempts_from ports options pull_request options.max_attempts 1 [])
        [] (omega arith, omega arith)
        λ enough.
          require_then IsObserved IsBroken (is_full_sha pull_request.head_sha) invalid_head_sha
            (λ _. attempts_from ports options pull_request options.max_attempts 1 []) []
            (omega arith, omega arith)
            λ _.
              attempts_from_lem options.max_attempts 0 [] [] (omega arith) (ground arith)
                (inl (refl, refl))
