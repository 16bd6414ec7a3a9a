-- ===== src/Task/Store/Evidence.antt =====
-- What `TaskRepository.completeLocalCommand` requires of the stored run, and what it leaves alone.
use mathlib.Core.List.{Memᴰ}
use gram_coding_agent.Base.{
  List, [], ◌∷◌, ap, ap₂, sym, and-true, any-member, ◌==◌, ℕ, ◌≡◌, refl, String, true, Option, none,
  some, any, string_eq, nat_eq, arith, conj-true, is_some, not, Bool-cases, inl, inr, ◌&&◌, ◌⊎◌,
  leb,
}
use gram_coding_agent.Table.Unique.{find_where-update}
use gram_coding_agent.Task.Status.{running, completed, status_eq}
use gram_coding_agent.Task.Database.{Database, Metadata, TaskRow, WorkspaceRow, CommandRunRow}
use gram_coding_agent.Task.Store.{has_id, get, set_status}
use gram_coding_agent.Task.Store.Local.{
  evidence_tests, repo_matches, is_node_manager, sql_eq, args_run, completion_tests,
  complete_local_command, max_safe_integer, completable, is_evidence, exit_is_zero,
}

-- A stored run of the command that the task declares, that ended well in a stored workspace of the
-- task, for its repository.
pub record IsSuccessfulRun (db : Database) (r : TaskRow) (run_id : ℕ) (c : CommandRunRow)
    (w : WorkspaceRow) : Type 0 where
  pub stored : Memᴰ c db.command_runs
  pub workspace : Memᴰ w db.workspaces
  pub run : c.id ≡ run_id
  pub owner : c.task_id ≡ r.id
  pub home : w.task_id ≡ r.id
  pub repository : r.repo_id ≡ some w.repo_id
  pub place : c.cwd ≡ w.linux_path
  pub settled : w.recovery_state ≡ none
  pub development : c.category ≡ "DEVELOPMENT"
  pub plain : c.shell_text ≡ none
  pub succeeded : c.status ≡ "SUCCEEDED"
  pub exit : c.exit_code ≡ some 0
  pub finished : (time : ℕ) × (c.finished_at ≡ some time)
  pub manager : (c.executable ≡ some "npm") ⊎ (c.executable ≡ some "pnpm")
  pub declared :
      (m : Metadata) × (name : String) × (r.metadata ≡ some m)
      × (m.local_command ≡ some name)
      × (m.package_manager ≡ c.executable)
      × (c.args ≡ some ("run" ∷ name ∷ []))

is_zero : (o : Option ℕ) → exit_is_zero o ≡ true → o ≡ some 0
is_zero none h = ground arith
is_zero (some n) h = ground arith

is_none : (o : Option String) → not (is_some o) ≡ true → o ≡ none
is_none none h = refl
is_none (some s) h = ground arith

same_repository : (o : Option ℕ) (n : ℕ) → repo_matches o n ≡ true → o ≡ some n
same_repository none n h = ground arith
same_repository (some m) n h = ap some ((nat_eq.beq_iff m n).0 h)

some_time : (o : Option ℕ) → is_some o ≡ true → (time : ℕ) × (o ≡ some time)
some_time none h = ground arith
some_time (some n) h = (n, refl)

node_manager : (o : Option String) → is_node_manager o ≡ true → (o ≡ some "npm") ⊎ (o ≡ some "pnpm")
node_manager none h = ground arith
node_manager (some m) h = elim (Bool-cases ("npm" == m)) [
  | inl e ↦ inl (ap some (sym ((string_eq.beq_iff "npm" m).0 e)))
  | inr e ↦ inr (ap some (sym ((string_eq.beq_iff "pnpm" m).0 (ground arith))))
]

sql_equal : (a b : Option String) → sql_eq a b ≡ true → b ≡ a
sql_equal (some a) (some b) h = ap some (sym ((string_eq.beq_iff a b).0 h))
sql_equal (some a) none h = ground arith
sql_equal none b h = ground arith

declared_args :
    (args : Option (List String)) (o : Option String)
    → args_run args o ≡ true
    → (name : String) × (o ≡ some name) × (args ≡ some ("run" ∷ name ∷ []))
declared_args (some (a ∷ b ∷ [])) (some name) h =
    let (first, second) = and-true (a == "run") (b == name) h in
    (
      name,
      refl,
      ap₂ (λ x y. some (x ∷ y ∷ [])) ((string_eq.beq_iff a "run").0 first)
          ((string_eq.beq_iff b name).0 second),
    )
declared_args (some (a ∷ b ∷ [])) none h = ground arith
declared_args (some (a ∷ b ∷ c ∷ l)) o h = ground arith
declared_args (some (a ∷ [])) o h = ground arith
declared_args (some []) o h = ground arith
declared_args none o h = ground arith

-- the command that the metadata of a task declares
declared_command :
    (r : TaskRow) (o : Option Metadata) (executable : Option String) (args : Option (List String))
    → r.metadata ≡ o
    → sql_eq executable (elim o [ none ↦ none | some m ↦ m.package_manager ]) ≡ true
    → args_run args (elim o [ none ↦ none | some m ↦ m.local_command ]) ≡ true
    → (m : Metadata) × (name : String) × (r.metadata ≡ some m)
      × (m.local_command ≡ some name)
      × (m.package_manager ≡ executable)
      × (args ≡ some ("run" ∷ name ∷ []))
declared_command r none executable args e h k =
    let (name, bad, _) = declared_args args none k in ground arith
declared_command r (some m) executable args e h k =
    let (name, named, run_args) = declared_args args m.local_command k in
    (m, name, e, named, sql_equal executable m.package_manager h, run_args)

evidence_sound :
    (db : Database) (r : TaskRow) (run_id : ℕ) (c : CommandRunRow) (w : WorkspaceRow)
    → Memᴰ c db.command_runs
    → Memᴰ w db.workspaces
    → is_evidence r run_id c w ≡ true
    → IsSuccessfulRun db r run_id c w
unfolding is_evidence
evidence_sound db r run_id c w in_runs in_workspaces h =
    let (t0, (t1, (t2, (t3, (t4, (t5, (t6, (t7, (t8, (t9, (t10, (t11, (t12, (t13, _)))))))))))))) =
      conj-true (evidence_tests r run_id c w) h in
    record {
      stored = in_runs;
      workspace = in_workspaces;
      run = (nat_eq.beq_iff _ _).0 t0;
      owner = (string_eq.beq_iff _ _).0 t1;
      home = (string_eq.beq_iff _ _).0 t2;
      repository = same_repository r.repo_id w.repo_id t3;
      place = (string_eq.beq_iff _ _).0 t4;
      settled = is_none w.recovery_state t5;
      development = (string_eq.beq_iff _ _).0 t6;
      plain = is_none c.shell_text t7;
      succeeded = (string_eq.beq_iff _ _).0 t8;
      exit = is_zero c.exit_code t9;
      finished = some_time c.finished_at t10;
      manager = node_manager c.executable t12;
      declared = declared_command r r.metadata c.executable c.args refl t11 t13;
    }

completable_sound :
    (db : Database) (id : String) (run_id : ℕ) (r : TaskRow)
    → completable db id run_id r ≡ true
    → (r.id ≡ id)
      × (r.task_type ≡ "LOCAL_COMMAND")
      × (r.status ≡ running)
      × ((c : CommandRunRow) × (w : WorkspaceRow) × IsSuccessfulRun db r run_id c w)
unfolding completable
completable_sound db id run_id r h =
    let k = conj-true (completion_tests db id run_id r) h in
    let (c, in_runs, some_w) =
      any-member (λ c. any (λ w. is_evidence r run_id c w) db.workspaces) db.command_runs
        k.1.1.1.1.0 in
    let (w, in_workspaces, found) =
      any-member (λ w. is_evidence r run_id c w) db.workspaces some_w in
    (
      (string_eq.beq_iff _ _).0 k.0,
      (string_eq.beq_iff _ _).0 k.1.0,
      (status_eq.beq_iff _ _).0 k.1.1.0,
      (c, w, evidence_sound db r run_id c w in_runs in_workspaces found),
    )

-- A stored task that a local completion changes is the named one, a running local command that
-- becomes completed; the tables hold the named run and a workspace of the task, where the run of the
-- package manager's script that the task's metadata declare ended well.
pub complete_local_command_needs_run :
    (id j : String) (run_id now : ℕ) (db : Database) (r : TaskRow)
    → get j db ≡ some r
    → (r' : TaskRow) × (get j (complete_local_command id run_id now db).1 ≡ some r')
      × ((r' ≡ r)
          ⊎ ((r.id ≡ id)
              × (r.task_type ≡ "LOCAL_COMMAND")
              × (r.status ≡ running)
              × (r'.status ≡ completed)
              × ((c : CommandRunRow) × (w : WorkspaceRow) × IsSuccessfulRun db r run_id c w)))
unfolding get complete_local_command
complete_local_command_needs_run id j run_id now db r e =
    let p = completable db id run_id in
    let after = find_where-update (has_id j) p (set_status completed now) (λ x _. refl) db.tasks in
    elim (Bool-cases (leb 1 run_id && leb run_id max_safe_integer)) [
      | inr invalid ↦ (r, rw invalid e, inl refl)
      | inl valid ↦ elim (Bool-cases (p r)) [
        | inr away ↦ (r, ground (arith, after), inl refl)
        | inl hit ↦
            let (same, kind, status, evidence) = completable_sound db id run_id r hit in
            (
              set_status completed now r,
              ground (arith, after),
              inr (same, kind, status, refl, evidence),
            )
      ]
    ]
