-- ===== src/Verification/Planner.antt =====
-- `VerificationPlanner`: packages/verification/src/verification-planner.ts.
pub mod Laws
use gram_coding_agent.Base.{
  ℕ, String, Bool, true, false, ◌&&◌, ◌||◌, not, List, [], ◌∷◌, ◌++◌, if◌then◌else◌, any, map,
  contains, Option, none, some, ◌==◌, string_eq, Result, ok, err,
}
use gram_coding_agent.Base.Results.{◌>>=◌, guard}
use gram_coding_agent.Policy.Text.{Text, is_empty, trim}
use gram_coding_agent.Verification.Evidence.{to_lower}
use gram_coding_agent.Verification.Rows.{StoredVerificationCheckStatus, pending, skipped}
use gram_coding_agent.Verification.Classifier.{
  ChangeClass, documentation, config, frontend_logic, ui, backend, db_migration, ci_workflow, other,
  change_class_eq, ChangeClass-discrete, classify, ends_with_one,
}

pub data VerificationCheckKind : Type 0 where
  command non_command : VerificationCheckKind

pub record PlannedVerificationCheck : Type 0 where
  pub name : String
  pub kind : VerificationCheckKind
  pub required : Bool
  pub status : StoredVerificationCheckStatus
  pub command : Option Text
  pub reason : Option String

pub record VerificationPlan : Type 0 where
  pub change_class : ChangeClass
  pub checks : List PlannedVerificationCheck

pub data CommandName : Type 0 where
  lint test build : CommandName

abbrev pub name_of : CommandName → String
name_of lint = "lint"
name_of test = "test"
name_of build = "build"

pub record RepositoryVerificationProfile : Type 0 where
  pub lint : Option Text
  pub test : Option Text
  pub build : Option Text
  pub browser_verification : Bool

abbrev pub command_of : RepositoryVerificationProfile → CommandName → Option Text
command_of profile CommandName.lint = profile.lint
command_of profile CommandName.test = profile.test
command_of profile CommandName.build = profile.build

pub data PlanError : Type 0 where
  no_changed_paths unverifiable_ui : PlanError
  undeclared_command : CommandName → PlanError

unfoldable pub required_commands : ChangeClass → List CommandName
required_commands documentation = lint ∷ []
required_commands config = lint ∷ build ∷ []
required_commands frontend_logic = lint ∷ test ∷ build ∷ []
required_commands ui = lint ∷ test ∷ build ∷ []
required_commands backend = test ∷ build ∷ []
required_commands db_migration = test ∷ build ∷ []
required_commands ci_workflow = lint ∷ []
required_commands other = lint ∷ test ∷ build ∷ []

abbrev pub command_check : CommandName → Text → PlannedVerificationCheck
command_check name text = record {
  name = name_of name;
  kind = command;
  required = true;
  status = pending;
  command = some text;
  reason = none;
}

abbrev pub gate_check : String → PlannedVerificationCheck
gate_check name = record {
  name = name;
  kind = non_command;
  required = true;
  status = pending;
  command = none;
  reason = none;
}

abbrev pub gates : List PlannedVerificationCheck
gates = gate_check "secret-scan" ∷ gate_check "diff-review" ∷ []

abbrev pub view_endings : List String
view_endings =
    ".css" ∷ ".scss" ∷ ".sass" ∷ ".less" ∷ ".html" ∷ ".svg" ∷ ".jsx" ∷ ".tsx" ∷ ".vue" ∷ ".svelte"
    ∷ ".mdx" ∷ ".astro" ∷ []

-- the test of a view's ending, which takes no notice of the case of a letter
unfoldable pub is_view : Text → Bool
unfolding ends_with_one
is_view path = ends_with_one view_endings (map to_lower path)

unfoldable pub path_class : Text → ChangeClass
unfolding classify
path_class path = classify (path ∷ [])

abbrev pub same_name : CommandName → CommandName → Bool
same_name a b = name_of a == name_of b

-- `requiredCommands.has(name)`
unfoldable pub is_required_by : CommandName → List ChangeClass → Bool
unfolding required_commands
is_required_by name classes = any (λ c. any (same_name name) (required_commands c)) classes

-- a declared command that is not blank
unfoldable pub declared : CommandName → Option Text → Result PlanError Text
unfolding trim
declared name none = err (undeclared_command name)
declared name (some text) = if is_empty (trim text) then err (undeclared_command name) else ok text

abbrev pub with_command :
    CommandName
    → Result PlanError Text
    → Result PlanError (List PlannedVerificationCheck)
    → Result PlanError (List PlannedVerificationCheck)
with_command name text rest = text >>= λ t. rest >>= λ checks. ok (command_check name t ∷ checks)

-- the loop over the three names
unfoldable pub production_checks :
    List ChangeClass
    → RepositoryVerificationProfile
    → List CommandName
    → Result PlanError (List PlannedVerificationCheck)
unfolding is_required_by declared
production_checks classes profile [] = ok []
production_checks classes profile (name ∷ names) =
    let rest = production_checks classes profile names in
    if is_required_by name classes
    then with_command name (declared name (command_of profile name)) rest
    else rest

abbrev pub is_none : {A : Type 0} → List A → Bool
is_none [] = true
is_none (_ ∷ _) = false

unfoldable pub plan_production :
    List Text → RepositoryVerificationProfile → Result PlanError VerificationPlan
unfolding path_class is_view production_checks classify
plan_production paths profile =
    let classes = map path_class paths in
    guard (not (is_none paths)) no_changed_paths >>= λ _.
    guard (not (contains classes ui || any is_view paths)) unverifiable_ui >>= λ _.
    production_checks classes profile (lint ∷ test ∷ build ∷ []) >>= λ checks.
    ok (record { change_class = classify paths; checks = checks ++ gates })

-- the commands that the profile declares
abbrev pub declared_checks :
    RepositoryVerificationProfile → List CommandName → List PlannedVerificationCheck
declared_checks profile [] = []
declared_checks profile (name ∷ names) =
    let rest = declared_checks profile names in
    elim (command_of profile name) [ none ↦ rest | some text ↦ command_check name text ∷ rest ]

abbrev pub browser_check : Bool → PlannedVerificationCheck
browser_check true = gate_check "browser"
browser_check false = record {
  name = "browser";
  kind = non_command;
  required = false;
  status = skipped;
  command = none;
  reason = some "Repository profile does not declare browser verification capability";
}

unfoldable pub browser_checks :
    ChangeClass → RepositoryVerificationProfile → List PlannedVerificationCheck
browser_checks ui profile = browser_check profile.browser_verification ∷ []
browser_checks _ profile = []

unfoldable pub plan : List Text → RepositoryVerificationProfile → VerificationPlan
unfolding classify required_commands browser_checks
plan paths profile =
    let change_class = classify paths in
    record {
      change_class = change_class;
      checks =
          declared_checks profile (required_commands change_class)
          ++ gates
          ++ browser_checks change_class profile;
    }
