-- ===== src/Shell/Laws.antt =====
-- What is recorded of a run: packages/shell/src/command-runner.ts.
use gram_coding_agent.Base.{
  ℕ, ◌≡◌, ◌↔◌, refl, ◌∙◌, List, [], ◌∷◌, ◌++◌, append_assoc, Option, none, some, Result, ok, err,
  arith, Bool-cases, Option-cases, inl, inr, ◌⊎◌,
}
use gram_coding_agent.Policy.Text.{text_eq}
use gram_coding_agent.Policy.Text.{Text}
use gram_coding_agent.Policy.Parser.Operations.{PathApi}
use gram_coding_agent.Policy.Worktree.{Os}
use gram_coding_agent.Shell.{
  CommandRequest, Call, spawn_call, capture_call, finish_call, RunStatus, succeeded, SpawnResult,
  CapturedOutput, failed, Ports, CommandResult, RunError, port_failed,
}
use gram_coding_agent.Shell.Run.{fail_run, finish_run, capture_run, execute, status_of}

-- What a run adds to the calls: the last one records it as finished, with what its caller gets.
abbrev pub IsRecorded : ℕ → List Call → Result RunError CommandResult × List Call → Type 0
IsRecorded id calls (outcome, after) =
    (l : List Call) × (s : RunStatus) × (code : Option ℕ) × (stored : Option (Text × Text)) × (after
      ≡ calls ++ (l ++ finish_call id s code stored ∷ []))
    × (((res : CommandResult) × (outcome ≡ ok res)
          × (res.command_run_id ≡ id)
          × (code ≡ some res.exit_code)
          × (stored ≡ some (res.stdout_path, res.stderr_path))
          × ((s ≡ succeeded) ↔ (res.exit_code ≡ 0)))
        ⊎ ((outcome ≡ err port_failed) × (s ≡ failed) × (code ≡ none) × (stored ≡ none)))

later-IsRecorded :
    (id : ℕ) (calls : List Call) (c : Call) (o : Result RunError CommandResult × List Call)
    → IsRecorded id (calls ++ c ∷ []) o
    → IsRecorded id calls o
later-IsRecorded id calls c o (l, s, code, stored, e, h) = (
  c ∷ l,
  s,
  code,
  stored,
  e ∙ append_assoc calls (c ∷ []) (l ++ finish_call id s code stored ∷ []),
  h,
)

status_of_lem : (code : ℕ) → (status_of code ≡ succeeded) ↔ (code ≡ 0)
status_of_lem code = ground arith

module _ (paths : PathApi) (os : Os) (ports : Ports) where
  fail_run-IsRecorded :
      (id : ℕ) (calls : List Call) → IsRecorded id calls (fail_run paths os ports id calls)
  fail_run-IsRecorded id calls = ([], failed, none, none, refl, inr (refl, refl, refl, refl))

  finish_run-IsRecorded :
      (id : ℕ) (raw : SpawnResult) (captured : CapturedOutput) (calls : List Call)
      → IsRecorded id calls (finish_run paths os ports id raw captured calls)
  unfolding finish_run
  finish_run-IsRecorded id raw captured calls = elim (Bool-cases (ports.finish calls)) [
    | inl e ↦
        rw (e, finish_run)
          (
            [],
            status_of raw.exit_code,
            some raw.exit_code,
            some (captured.out_path, captured.error_out_path),
            refl,
            inl (_, refl, refl, refl, refl, status_of_lem raw.exit_code),
          )
    | inr e ↦ rw (e, finish_run) (later-IsRecorded id calls _ _ (fail_run-IsRecorded id _))
  ]

  capture_run-IsRecorded :
      (id : ℕ) (raw : SpawnResult) (calls : List Call)
      → IsRecorded id calls (capture_run paths os ports id raw calls)
  unfolding capture_run
  capture_run-IsRecorded id raw calls =
      later-IsRecorded id calls (capture_call id) (capture_run paths os ports id raw calls)
        (elim (Option-cases (ports.capture calls raw)) [
          | inl e ↦ rw (e, capture_run) (fail_run-IsRecorded id _)
          | inr (captured, e) ↦ rw (e, capture_run) (finish_run-IsRecorded id raw captured _)
        ])

  -- A run whose process is tried only adds to the calls, and the last call records it as finished:
  -- as succeeded exactly for exit code 0, with the exit code and the paths of the outputs, where the
  -- caller gets a result, and as failed where the caller gets an error.
  pub execute-IsRecorded :
      (request : CommandRequest) (id : ℕ) (calls : List Call)
      → IsRecorded id calls (execute paths os ports request id calls)
  unfolding execute
  execute-IsRecorded request id calls =
      later-IsRecorded id calls (spawn_call request.line) (execute paths os ports request id calls)
        (elim (Option-cases (ports.spawn calls request.line)) [
          | inl e ↦ rw (e, execute) (fail_run-IsRecorded id _)
          | inr (raw, e) ↦ rw (e, execute) (capture_run-IsRecorded id raw _)
        ])
