-- ===== src/Verification/Planner/Laws.antt =====
-- What a production plan covers: packages/verification/src/verification-planner.ts.
use mathlib.Core.List.{Memᴰ}
use mathlib.Core.List.Memᴰ
use gram_coding_agent.Base.{
  ◌≡◌, ◌≢◌, refl, sym, ap, ◌∙◌, subst, Bool, true, false, ◌||◌, not, List, [], ◌∷◌, ◌++◌, Option,
  none, some, ok, Bool-cases, inl, inr, arith, map, any, contains, ==-refl, ◌==◌, string_eq,
}
use gram_coding_agent.Base.Results.{guard, bind-ok, guard-ok, ok-inj, ok≢err}
use gram_coding_agent.Policy.Text.{Text, is_empty, trim}
use gram_coding_agent.Verification.Classifier.{ChangeClass, ui, change_class_eq}
use gram_coding_agent.Verification.Planner.{
  CommandName, lint, test, build, name_of, command_of, no_changed_paths, unverifiable_ui,
  RepositoryVerificationProfile, PlannedVerificationCheck, VerificationPlan, command_check,
  gate_check, gates, same_name, required_commands, path_class, is_view, is_required_by, declared,
  production_checks, plan_production, is_none,
}

-- a check of the declared command, which is not blank
abbrev pub Covers :
    RepositoryVerificationProfile → List PlannedVerificationCheck → CommandName → Type 0
Covers profile checks name =
    (text : Text) × ((command_of profile name ≡ some text)
      × ((is_empty (trim text) ≡ false) × Memᴰ (command_check name text) checks))

declared-ok :
    (name : CommandName) (o : Option Text) (text : Text)
    → declared name o ≡ ok text
    → (o ≡ some text) × (is_empty (trim text) ≡ false)
unfolding declared
declared-ok name none text h = absurd (ok≢err (sym h))
declared-ok name (some t) text h = elim (Bool-cases (is_empty (trim t))) [
  | inl e ↦ absurd (ok≢err (sym (rw e at h)))
  | inr e ↦
      let same : t ≡ text = ok-inj (rw e at h) in
      (ap some same, subst (λ x. is_empty (trim x) ≡ false) same e)
]

true≢false : true ≢ false
true≢false h = cc

module _ {ℓ} {A : Type ℓ} where
  any-of-Memᴰ : (p : A → Bool) (a : A) (l : List A) → Memᴰ a l → p a ≡ true → any p l ≡ true
  any-of-Memᴰ p a _ (Memᴰ.head {x = x} {xs = xs} e) h = rw (subst (λ y. p y ≡ true) e h) refl
  any-of-Memᴰ p a _ (Memᴰ.tail {x = x} {xs = xs} m) h = ground (arith, any-of-Memᴰ p a xs m h)

  -- no member passes a test that none passes
  none-passes : (p : A → Bool) (a : A) (l : List A) → Memᴰ a l → any p l ≡ false → p a ≡ false
  none-passes p a l m h = elim (Bool-cases (p a)) [
    | inl e ↦ absurd (true≢false (sym (any-of-Memᴰ p a l m e) ∙ h))
    | inr e ↦ e
  ]

not-or : (a b : Bool) → not (a || b) ≡ true → (a ≡ false) × (b ≡ false)
not-or a b h = ground arith

every_name : (name : CommandName) → Memᴰ name (lint ∷ test ∷ build ∷ [])
every_name lint = Memᴰ.head refl
every_name test = Memᴰ.tail (Memᴰ.head refl)
every_name build = Memᴰ.tail (Memᴰ.tail (Memᴰ.head refl))

is_required_by-Memᴰ :
    (name : CommandName) (c : ChangeClass) (classes : List ChangeClass)
    → Memᴰ c classes
    → Memᴰ name (required_commands c)
    → is_required_by name classes ≡ true
unfolding is_required_by
is_required_by-Memᴰ name c classes m k =
    any-of-Memᴰ (λ c. any (same_name name) (required_commands c)) c classes m
      (any-of-Memᴰ (same_name name) name (required_commands c) k (==-refl (name_of name)))

Covers-more :
    (profile : RepositoryVerificationProfile) (before after : List PlannedVerificationCheck)
    (name : CommandName)
    → ((c : PlannedVerificationCheck) → Memᴰ c before → Memᴰ c after)
    → Covers profile before name
    → Covers profile after name
Covers-more profile before after name f (text, (e, (k, m))) =
    (text, (e, (k, f (command_check name text) m)))

production_checks-Covers :
    (name : CommandName) (classes : List ChangeClass) (profile : RepositoryVerificationProfile)
    (names : List CommandName) (checks : List PlannedVerificationCheck)
    → production_checks classes profile names ≡ ok checks
    → Memᴰ name names
    → is_required_by name classes ≡ true
    → Covers profile checks name
unfolding production_checks
production_checks-Covers name classes profile _ checks h (Memᴰ.head {x = x} {xs = xs} e) k =
    let k' : is_required_by x classes ≡ true = subst (λ y. is_required_by y classes ≡ true) e k in
    let (text, (e1, h1)) = bind-ok (declared x (command_of profile x)) _ checks (rw k' at h) in
    let (rest, (e2, h2)) = bind-ok (production_checks classes profile xs) _ checks h1 in
    let (known, full) = declared-ok x (command_of profile x) text e1 in
    let added : Memᴰ (command_check x text) checks =
      subst (Memᴰ (command_check x text)) (ok-inj h2) (Memᴰ.head refl) in
    subst (Covers profile checks) (sym e) (text, (known, (full, added)))
production_checks-Covers name classes profile _ checks h (Memᴰ.tail {x = x} {xs = xs} m) k =
    elim (Bool-cases (is_required_by x classes)) [
      | inl r ↦
          let (text, (e1, h1)) = bind-ok (declared x (command_of profile x)) _ checks (rw r at h) in
          let (rest, (e2, h2)) = bind-ok (production_checks classes profile xs) _ checks h1 in
          Covers-more profile rest checks name (λ c q. subst (Memᴰ c) (ok-inj h2) (Memᴰ.tail q))
            (production_checks-Covers name classes profile xs rest e2 m k)
      | inr r ↦ production_checks-Covers name classes profile xs checks (rw r at h) m k
    ]

-- Where a production plan is made, no path given is of the class UI or has the ending of a view; for
-- each path given and each command that its class requires, the profile declares a command that is
-- not blank and the plan has the required, pending check of it; and it has the two reviews.
pub plan_production-Covers :
    (paths : List Text) (profile : RepositoryVerificationProfile) (p : VerificationPlan)
    (path : Text) (name : CommandName)
    → plan_production paths profile ≡ ok p
    → Memᴰ path paths
    → Memᴰ name (required_commands (path_class path))
    → Covers profile p.checks name
      × ((path_class path ≢ ui)
          × ((is_view path ≡ false)
              × (Memᴰ (gate_check "secret-scan") p.checks
                  × Memᴰ (gate_check "diff-review") p.checks)))
unfolding plan_production
plan_production-Covers paths profile p path name h m k =
    let classes = map path_class paths in
    let (_, (e1, h1)) = bind-ok (guard (not (is_none paths)) no_changed_paths) _ p h in
    let (_, (e2, h2)) =
      bind-ok (guard (not (contains classes ui || any is_view paths)) unverifiable_ui) _ p h1 in
    let (checks, (e3, h3)) =
      bind-ok (production_checks classes profile (lint ∷ test ∷ build ∷ [])) _ p h2 in
    let clear = guard-ok (not (contains classes ui || any is_view paths)) unverifiable_ui _ e2 in
    let (no_ui, no_view) = not-or (contains classes ui) (any is_view paths) clear in
    let of_class : Memᴰ (path_class path) classes = Memᴰ.map path_class m in
    let covered =
      production_checks-Covers name classes profile (lint ∷ test ∷ build ∷ []) checks e3
        (every_name name) (is_required_by-Memᴰ name (path_class path) classes of_class k) in
    subst
      (λ (x : VerificationPlan).
        Covers profile x.checks name
        × ((path_class path ≢ ui)
            × ((is_view path ≡ false)
                × (Memᴰ (gate_check "secret-scan") x.checks
                    × Memᴰ (gate_check "diff-review") x.checks))))
      (ok-inj h3)
      (
        Covers-more profile checks (checks ++ gates) name (λ c q. Memᴰ.append_left gates q) covered,
        (
          λ e. true≢false (
              sym (subst (λ c. (c == ui) ≡ true) (sym e) (==-refl ui))
              ∙ none-passes (λ c. c == ui) (path_class path) classes of_class no_ui),
          (
            none-passes is_view path paths m no_view,
            (
              Memᴰ.append_right checks (Memᴰ.head refl),
              Memᴰ.append_right checks (Memᴰ.tail (Memᴰ.head refl)),
            ),
          ),
        ),
      )
