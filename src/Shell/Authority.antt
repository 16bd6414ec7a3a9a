-- ===== src/Shell/Authority.antt =====
-- What a command has passed before a process runs: packages/shell/src/command-runner.ts.
use gram_coding_agent.Base.{
  ◌≡◌, refl, sym, subst, ◌≢◌, ◌∙◌, Bool, true, false, not, ◌&&◌, ◌||◌, List, [], ◌∷◌, ◌++◌,
  append_assoc, append-nil, not, ◌&&◌, any, any-append, all, map, Result, ok, err, arith,
  Bool-cases, Option-cases, Result-cases, inl, inr, ◌⊎◌, ==-refl,
}
use gram_coding_agent.Base.Effects.{Eff, and_then, ◌>>◌, ◌>>=◌}
use gram_coding_agent.Policy.Text.{Text, same, text_eq}
use gram_coding_agent.Policy.Parser.Operations.{PathApi, NormalizedOperation}
use gram_coding_agent.Policy.Risk.Rules.{PolicyDecisionKind, allow, needs_approval, deny}
use gram_coding_agent.Policy.Engine.{PolicyDecision}
use gram_coding_agent.Policy.Worktree.{Os}
use gram_coding_agent.Shell.{
  CommandRequest, Call, consume_call, start_call, spawn_call, finish_call, Ports, RunError,
  operations_for, decide, is_kind_deny, consume_approvals, check_worktrees, worktree_ok,
}
use gram_coding_agent.Shell.Run.{
  redacted, authorise, refuse_denied, execute, start_run, run_decided, run, run_operations,
}
use gram_coding_agent.Shell.Laws.{execute-IsRecorded}

abbrev pub is_spawn : Call → Bool
is_spawn (spawn_call _) = true
is_spawn _ = false

-- a successful use of an approval for this operation of this task
abbrev pub is_used : Text → Text → Call → Bool
is_used task_id hash (consume_call t h answer) = same t task_id && same h hash && answer
is_used task_id hash _ = false

-- a decision that the calls made so far let run
abbrev pub approved : Text → List Call → PolicyDecision → Bool
approved task_id calls d = elim (d.kind) [
  | needs_approval ↦ any (is_used task_id d.operation_hash) calls
  | allow ↦ true
  | deny ↦ true
]

approved-later :
    (task_id : Text) (calls l : List Call) (d : PolicyDecision)
    → approved task_id calls d ≡ true
    → approved task_id (calls ++ l) d ≡ true
approved-later task_id calls l d h =
    ground (arith, any-append (is_used task_id d.operation_hash) calls l)

true≢false : true ≢ false
true≢false h = cc

kind-cases : (k : PolicyDecisionKind) → (k ≡ allow) ⊎ (k ≡ needs_approval) ⊎ (k ≡ deny)
kind-cases k = ground arith

-- a step that throws ends the computation, another hands its value and state on
and_then-cases :
    {S E A B : Type 0} (f : A → Eff S E B) (o : Result E A × S)
    → ((e : E) × (o.0 ≡ err e) × (and_then f o ≡ (err e, o.1)))
      ⊎ ((a : A) × (o.0 ≡ ok a) × (and_then f o ≡ f a o.1))
and_then-cases f (err e, s) = inl (e, refl, refl)
and_then-cases f (ok a, s) = inr (a, refl, refl)

err≢ok : {A : Type 0} {e : RunError} {a : A} → err e ≢ ok a
err≢ok h = cc

both : {a b : Bool} → a ≡ true → b ≡ true → (a && b) ≡ true
both p q = ground arith

or-true : (a : Bool) → (a || true) ≡ true
or-true a = ground arith

used-approved :
    (task_id : Text) (d : PolicyDecision) (calls l : List Call)
    → d.kind ≡ needs_approval
    → approved task_id (calls ++ consume_call task_id d.operation_hash true ∷ l) d ≡ true
used-approved task_id d calls l e = rw e (
    any-append (is_used task_id d.operation_hash) calls
      (consume_call task_id d.operation_hash true ∷ l)
    ∙ rw (==-refl task_id, ==-refl d.operation_hash) (or-true _))

module _ (paths : PathApi) (os : Os) (ports : Ports) where
  consume_approvals_lem :
      (task_id : Text) (ds : List (NormalizedOperation × PolicyDecision)) (calls : List Call)
      → (l : List Call) × ((consume_approvals paths os ports task_id ds calls).1 ≡ calls ++ l)
        × (any is_spawn l ≡ false)
        × ((consume_approvals paths os ports task_id ds calls).0 ≡ ok tt
            → all (λ p. approved task_id (calls ++ l) p.1) ds ≡ true)
  unfolding consume_approvals
  consume_approvals_lem task_id [] calls = ([], sym (append-nil calls), refl, λ _. refl)
  consume_approvals_lem task_id ((op, d) ∷ ds) calls = elim (kind-cases d.kind) [
    | inl e ↦ rw (e, consume_approvals, approved) (consume_approvals_lem task_id ds calls)
    | inr (inr e) ↦ rw (e, consume_approvals, approved) (consume_approvals_lem task_id ds calls)
    | inr (inl e) ↦ elim (Bool-cases (ports.consume calls task_id d.operation_hash)) [
      | inl used ↦
          let (l, trace, quiet, cleared) =
            consume_approvals_lem task_id ds
              (calls ++ consume_call task_id d.operation_hash true ∷ []) in
          (
            consume_call task_id d.operation_hash true ∷ l,
            rw (e, used, consume_approvals)
                (trace ∙ append_assoc calls (consume_call task_id d.operation_hash true ∷ []) l),
            quiet,
            λ h. both (used-approved task_id d calls l e) (
                subst (λ t. all (λ p. approved task_id t p.1) ds ≡ true)
                  (append_assoc calls (consume_call task_id d.operation_hash true ∷ []) l)
                  (cleared (rw (e, used, consume_approvals) at h))),
          )
      | inr refused ↦ (
        consume_call task_id d.operation_hash false ∷ [],
        rw (e, refused, consume_approvals) refl,
        refl,
        λ h. absurd (err≢ok (rw (e, refused, consume_approvals) at h)),
      )
    ]
  ]

  refuse_denied_lem :
      (ds : List (NormalizedOperation × PolicyDecision)) (calls : List Call)
      → ((refuse_denied paths os ports ds calls).1 ≡ calls)
        × ((refuse_denied paths os ports ds calls).0 ≡ ok tt
            → any (λ p. is_kind_deny paths os ports p.1.kind) ds ≡ false)
  unfolding refuse_denied
  refuse_denied_lem [] calls = (refl, λ _. refl)
  refuse_denied_lem ((op, d) ∷ ds) calls = elim (Bool-cases (is_kind_deny paths os ports d.kind)) [
    | inl e ↦ rw (e, refuse_denied) (refl, λ h. absurd (err≢ok h))
    | inr e ↦ rw (e, refuse_denied) (refuse_denied_lem ds calls)
  ]

  check_worktrees_lem :
      (task_id : Text) (ds : List (NormalizedOperation × PolicyDecision)) (calls : List Call)
      → ((check_worktrees paths os ports task_id ds calls).1 ≡ calls)
        × ((check_worktrees paths os ports task_id ds calls).0 ≡ ok tt
            → all (λ p. worktree_ok paths os ports task_id p.0 p.1) ds ≡ true)
  unfolding check_worktrees
  check_worktrees_lem task_id [] calls = (refl, λ _. refl)
  check_worktrees_lem task_id ((op, d) ∷ ds) calls =
      ground (arith, check_worktrees_lem task_id ds calls)

  unfoldable pub cleared : Text → List Call → NormalizedOperation × PolicyDecision → Bool
  cleared task_id calls p =
      not (is_kind_deny paths os ports p.1.kind)
      && worktree_ok paths os ports task_id p.0 p.1
      && approved task_id calls p.1

  -- What the checks add to the calls: no process is started, and where they pass, all is cleared.
  abbrev IsQuiet :
      Text
      → List (NormalizedOperation × PolicyDecision)
      → List Call
      → Result RunError (Unit {0}) × List Call
      → Type 0
  IsQuiet task_id ds calls (outcome, after) =
      (l : List Call) × (after ≡ calls ++ l)
      × (any is_spawn l ≡ false)
      × (outcome ≡ ok tt → all (cleared task_id (calls ++ l)) ds ≡ true)

  all-cleared :
      (task_id : Text) (calls : List Call) (ds : List (NormalizedOperation × PolicyDecision))
      → any (λ p. is_kind_deny paths os ports p.1.kind) ds ≡ false
      → all (λ p. worktree_ok paths os ports task_id p.0 p.1) ds ≡ true
      → all (λ p. approved task_id calls p.1) ds ≡ true
      → all (cleared task_id calls) ds ≡ true
  unfolding cleared
  all-cleared task_id calls [] f g h = refl
  all-cleared task_id calls (p ∷ ds) f g h = ground (arith, all-cleared task_id calls ds)

  checked_lem :
      (task_id : Text) (ds : List (NormalizedOperation × PolicyDecision)) (calls : List Call)
      → any (λ p. is_kind_deny paths os ports p.1.kind) ds ≡ false
      → IsQuiet task_id ds calls (
          (consume_approvals paths os ports task_id ds >> check_worktrees paths os ports task_id ds)
            calls)
  checked_lem task_id ds calls open_door =
      let (l, trace, quiet, used) = consume_approvals_lem task_id ds calls in
      let (same_calls, worktrees) = check_worktrees_lem task_id ds (calls ++ l) in
      elim (and_then-cases (λ _. check_worktrees paths os ports task_id ds)
        (consume_approvals paths os ports task_id ds calls)) [
          | inl (e, failed_use, stop) ↦ rw stop (l, trace, quiet, λ h. absurd (err≢ok h))
          | inr (_, all_used, next) ↦
              rw (next, trace)
                (
                  l,
                  same_calls,
                  quiet,
                  λ h. all-cleared task_id (calls ++ l) ds open_door (worktrees h) (used all_used),
                )
        ]

  authorise_lem :
      (task_id : Text) (ds : List (NormalizedOperation × PolicyDecision)) (calls : List Call)
      → IsQuiet task_id ds calls (authorise paths os ports task_id ds calls)
  unfolding authorise
  authorise_lem task_id ds calls =
      let (same_calls, open_door) = refuse_denied_lem ds calls in
      elim (and_then-cases
        (λ _.
          consume_approvals paths os ports task_id ds >> check_worktrees paths os ports task_id ds)
        (refuse_denied paths os ports ds calls)) [
          | inl (e, denied, stop) ↦
              rw (stop, authorise)
                ([], same_calls ∙ sym (append-nil calls), refl, λ h. absurd (err≢ok h))
          | inr (_, passed, next) ↦
              rw (next, same_calls, authorise) (checked_lem task_id ds calls (open_door passed))
        ]

  started_grows :
      (request : CommandRequest) (calls : List Call)
      → (l : List Call) × (((start_run paths os ports request >>= execute paths os ports request)
            calls).1
          ≡ calls ++ l)
  unfolding start_run
  started_grows request calls =
      let c = start_call (redacted ports.redact request.line) in
      elim (Option-cases (ports.start calls)) [
        | inl e ↦ rw (e, start_run) (c ∷ [], refl)
        | inr (id, e) ↦
            let (l, s, code, stored, trace, _) =
              execute-IsRecorded paths os ports request id (calls ++ c ∷ []) in
            rw (e, start_run)
              (
                c ∷ (l ++ finish_call id s code stored ∷ []),
                trace ∙ append_assoc calls (c ∷ []) (l ++ finish_call id s code stored ∷ []),
              )
      ]

  cleared-later :
      (task_id : Text) (calls l : List Call) (ds : List (NormalizedOperation × PolicyDecision))
      → all (cleared task_id calls) ds ≡ true
      → all (cleared task_id (calls ++ l)) ds ≡ true
  unfolding cleared
  cleared-later task_id calls l [] h = refl
  cleared-later task_id calls l (p ∷ ds) h =
      ground (arith, cleared-later task_id calls l ds, approved-later task_id calls l p.1)

  run_decided_lem :
      (request : CommandRequest) (ds : List (NormalizedOperation × PolicyDecision))
      → any is_spawn (run_decided paths os ports request ds []).1 ≡ true
      → all (cleared request.context.task_id (run_decided paths os ports request ds []).1) ds ≡ true
  unfolding run_decided
  run_decided_lem request ds h =
      let (l, trace, quiet, passed) = authorise_lem request.context.task_id ds [] in
      elim (and_then-cases
        (λ _. start_run paths os ports request >>= execute paths os ports request)
        (authorise paths os ports request.context.task_id ds [])) [
          | inl (e, refused, stop) ↦
              absurd (true≢false (sym (rw (stop, run_decided, trace) at h) ∙ quiet))
          | inr (_, authorised, next) ↦
              let (m, more) = started_grows request l in
              rw (next, run_decided, trace, more)
                (cleared-later request.context.task_id l m ds (passed authorised))
        ]

  run_operations_lem :
      (request : CommandRequest) (ops : List NormalizedOperation)
      → any is_spawn (run_operations paths os ports request ops []).1 ≡ true
      → all
          (cleared request.context.task_id (run_operations paths os ports request ops []).1)
          (map (decide paths os ports request) ops)
        ≡ true
  unfolding run_decided
  run_operations_lem request [] h = refl
  run_operations_lem request (op ∷ ops) h =
      run_decided_lem request (map (decide paths os ports request) (op ∷ ops)) h

  -- A run that starts a process has parsed its command into operations, none of which the policy denies;
  -- the path of each git worktree command among them that is allowed passes the worktree check, and for
  -- each operation that needs an approval a use of one, by its hash, has succeeded in this run.
  pub spawn_needs_authority :
      (request : CommandRequest)
      → any is_spawn (run paths os ports request []).1 ≡ true
      → (ops : List NormalizedOperation) × (operations_for paths os ports request ≡ ok ops)
        × (all
              (cleared request.context.task_id (run paths os ports request []).1)
              (map (decide paths os ports request) ops)
            ≡ true)
  unfolding run
  spawn_needs_authority request h = elim (Result-cases (operations_for paths os ports request)) [
    | inl (ops, e) ↦ (ops, e, rw (e, run) (run_operations_lem request ops (rw (e, run) at h)))
    | inr (e, bad) ↦ absurd (true≢false (sym (rw (bad, run) at h)))
  ]
