-- ===== src/Verification/Runner/Reports.antt =====
-- What each check of a run reports, and that it seals nothing:
-- packages/verification/src/verification-runner.ts.
use gram_coding_agent.Base.{
  subst, if◌then◌else◌, String, ◌≡◌, ◌⊎◌, refl, sym, Bool, true, false, List, [], ◌∷◌, ◌++◌, Option,
  none, some, any, any-append, Bool-cases, inl, inr, arith, ◌==◌, string_eq,
}
use gram_coding_agent.Base.Effects.{and_then, pure}
use gram_coding_agent.Base.Steps.{attempt, attempt_then, then_lem, Outcome}
use gram_coding_agent.Policy.Text.{Text, is_empty, trim, text_eq}
use gram_coding_agent.Verification.Rows.{pending, check_status_eq}
use gram_coding_agent.Verification.Planner.{VerificationCheckKind, command, non_command}
use gram_coding_agent.Verification.Runner.{
  result_from, PersistedVerificationCheck, GateResult, RunnerCall, scanned, reviewed, browsed, ran,
  command_recorded, gate_recorded, sealed, port_failed, Port, VerificationRunnerOptions,
  VerificationCheckResult, Run, run_browser, run_named, run_gate, text_of, exit_verdict,
  run_command_check, run_gate_check, run_kind, run_check, run_checks,
}

abbrev pub is_seal : RunnerCall → Bool
is_seal (sealed _ _) = true
is_seal _ = false

-- no snapshot is sealed in these calls
abbrev pub IsUnsealed : List RunnerCall → Type 0
IsUnsealed calls = any is_seal calls ≡ false

abbrev pub Post : {A : Type 0} → A → List RunnerCall → Type 0
Post _ calls = IsUnsealed calls

-- the result of a check is its own; a check that is not pending keeps its status
abbrev pub IsResultOf : PersistedVerificationCheck → VerificationCheckResult → Type 0
IsResultOf c r =
    (r.id ≡ c.id)
    × ((r.required ≡ c.required) × (((c.status == pending) ≡ true) ⊎ (r.status ≡ c.status)))

-- one result for each check, in order
abbrev pub AreResultsOf : List PersistedVerificationCheck → List VerificationCheckResult → Type 0
AreResultsOf [] [] = Unit
AreResultsOf (c ∷ cs) (r ∷ rs) = IsResultOf c r × AreResultsOf cs rs
AreResultsOf _ _ = false ≡ true

-- the calls seal nothing, and the result of a check is its own
abbrev pub Reports : PersistedVerificationCheck → VerificationCheckResult → List RunnerCall → Type 0
Reports c r calls = IsResultOf c r × IsUnsealed calls

abbrev pub ReportAll :
    List PersistedVerificationCheck → List VerificationCheckResult → List RunnerCall → Type 0
ReportAll cs rs calls = AreResultsOf cs rs × IsUnsealed calls

pub more :
    (c : RunnerCall) (calls : List RunnerCall)
    → is_seal c ≡ false
    → IsUnsealed calls
    → IsUnsealed (calls ++ c ∷ [])
more c calls h k = ground (arith, any-append is_seal calls (c ∷ []), h, k)

module _ {A B : Type 0} (Q : B → List RunnerCall → Type 0) where
  -- a call of a port that seals nothing, and what follows
  calls_then :
      (c : RunnerCall) (port : Port A) (f : A → Run B) (calls : List RunnerCall)
      → is_seal c ≡ false
      → IsUnsealed calls
      → ((a : A) (after : List RunnerCall) → IsUnsealed after → Outcome Q Post (f a after))
      → Outcome Q Post (and_then f (attempt port_failed c port calls))
  calls_then c port f calls h k next =
      attempt_then Q Post port_failed c port f calls (more c calls h k)
        (λ a _. next a (calls ++ c ∷ []) (more c calls h k))

module _ (ports : VerificationRunnerOptions) where
  run_browser-IsUnsealed :
      (o : Option (Port GateResult)) (calls : List RunnerCall)
      → IsUnsealed calls
      → Outcome Post Post (run_browser o calls)
  unfolding run_browser
  run_browser-IsUnsealed none calls h = h
  run_browser-IsUnsealed (some verify) calls h =
      calls_then Post browsed verify _ calls refl h (λ a after k. k)

  run_named-IsUnsealed :
      (name : String) (a b c : Bool) (calls : List RunnerCall)
      → IsUnsealed calls
      → Outcome Post Post (run_named ports name a b c calls)
  unfolding run_named
  run_named-IsUnsealed name true b c calls h =
      calls_then Post scanned ports.scan _ calls refl h (λ a after k. k)
  run_named-IsUnsealed name false true c calls h =
      calls_then Post reviewed ports.review _ calls refl h (λ a after k. k)
  run_named-IsUnsealed name false false true calls h = run_browser-IsUnsealed ports.browser calls h
  run_named-IsUnsealed name false false false calls h = h

  run_gate_check-Reports :
      (c : PersistedVerificationCheck) (calls : List RunnerCall)
      → (c.status == pending) ≡ true
      → IsUnsealed calls
      → Outcome (Reports c) Post (run_gate_check ports c calls)
  unfolding run_gate_check run_gate
  run_gate_check-Reports c calls p h =
      then_lem Post (Reports c) Post _ _
        (run_named-IsUnsealed c.name (c.name == "secret-scan") (c.name == "diff-review")
          (c.name == "browser") calls h)
        (λ gate after k.
          calls_then (Reports c) (gate_recorded c.id gate) (ports.record_gate c.id gate) _ after
            refl k (λ a later m. ((refl, (refl, inl p)), m)))

  run_command_check-Reports :
      (c : PersistedVerificationCheck) (calls : List RunnerCall)
      → (c.status == pending) ≡ true
      → IsUnsealed calls
      → Outcome (Reports c) Post (run_command_check ports c calls)
  unfolding run_command_check
  run_command_check-Reports c calls p h =
      then_lem Post (Reports c) Post _ _ (known c.command) (λ text after k.
        calls_then (Reports c) (ran text) (ports.run_command text) _ after refl k (λ done later m.
          calls_then (Reports c)
            (command_recorded c.id (exit_verdict done.exit_code) done.command_run_id)
            (ports.record_command c.id (exit_verdict done.exit_code) done.command_run_id) _ later
            refl m (λ a last n. ((refl, (refl, inl p)), n))))
    where
      known : (o : Option Text) → Outcome Post Post (text_of c.name o calls)
      known none = h
      known (some text) = elim (Bool-cases (is_empty (trim text))) [
        | inl e ↦ rw e h
        | inr e ↦ rw e h
      ]

  run_kind-Reports :
      (c : PersistedVerificationCheck) (k : VerificationCheckKind) (calls : List RunnerCall)
      → (c.status == pending) ≡ true
      → IsUnsealed calls
      → Outcome (Reports c) Post (run_kind ports c k calls)
  unfolding run_kind
  run_kind-Reports c command calls p h = run_command_check-Reports c calls p h
  run_kind-Reports c non_command calls p h = run_gate_check-Reports c calls p h

  run_check-Reports :
      (c : PersistedVerificationCheck) (calls : List RunnerCall)
      → IsUnsealed calls
      → Outcome (Reports c) Post (run_check ports c calls)
  unfolding run_check
  run_check-Reports c calls h = elim (Bool-cases (c.status == pending)) [
    | inl e ↦
        let kind = run_kind-Reports c c.kind calls e h in
        subst
          (λ b.
            Outcome (Reports c) Post (
              (if b then run_kind ports c c.kind else pure (result_from c c.status c.reason))
                calls))
          (sym e) kind
    | inr e ↦
        subst
          (λ b.
            Outcome (Reports c) Post (
              (if b then run_kind ports c c.kind else pure (result_from c c.status c.reason))
                calls))
          (sym e) ((refl, (refl, inr refl)), h)
  ]

  pub run_checks-ReportAll :
      (cs : List PersistedVerificationCheck) (calls : List RunnerCall)
      → IsUnsealed calls
      → Outcome (ReportAll cs) Post (run_checks ports cs calls)
  unfolding run_checks
  run_checks-ReportAll [] calls h = (tt, h)
  run_checks-ReportAll (c ∷ cs) calls h =
      then_lem (Reports c) (ReportAll (c ∷ cs)) Post _ _ (run_check-Reports c calls h)
        (λ result after (of_check, k).
          then_lem (ReportAll cs) (ReportAll (c ∷ cs)) Post _ _ (run_checks-ReportAll cs after k)
            (λ results later (of_rest, m). ((of_check, of_rest), m)))
