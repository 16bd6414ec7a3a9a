-- ===== src/Policy/Risk/Push.antt =====
-- The push rules of packages/policy/src/risk-classifier.ts.
use gram_coding_agent.Base.{
  ◌≡◌, ◌≢◌, refl, sym, ◌∙◌, Bool, true, false, not, ◌&&◌, ◌||◌, List, [], ◌∷◌, Option, none, some,
  any, arith, Bool-cases, Option-cases, inl, inr,
}
use gram_coding_agent.Policy.Text.{Text}
use gram_coding_agent.Policy.Risk.Rules.{
  PolicyContext, PolicyDecisionKind, ClassifiedRisk, allow, deny, is_protected,
}
use gram_coding_agent.Policy.Risk.Git.{
  GitPushRefspec, classify_push, classify_refspecs, destroys_protected, git_push_refspecs, has_arg,
  force_by_flag, delete_by_flag, granted, no_refspecs,
}

abbrev is_deny : PolicyDecisionKind → Bool
is_deny deny = true
is_deny _ = false

-- a refspec that overwrites or deletes a protected branch
abbrev pub destroys : PolicyContext → Bool → Bool → GitPushRefspec → Bool
destroys context force delete r =
    is_protected r.destination context && (force || r.force || (delete || r.delete))

abbrev is_denial : Option ClassifiedRisk → Bool
is_denial none = false
is_denial (some v) = is_deny v.kind

destroys_protected-deny :
    (context : PolicyContext) (force delete : Bool) (rs : List GitPushRefspec)
    → is_denial (destroys_protected context force delete rs)
      ≡ any (destroys context force delete) rs
unfolding destroys_protected
destroys_protected-deny context force delete [] = refl
destroys_protected-deny context force delete (r ∷ rs) =
    ground (arith, destroys_protected-deny context force delete rs)

destroys_protected-none :
    (context : PolicyContext) (force delete : Bool) (rs : List GitPushRefspec)
    → any (destroys context force delete) rs ≡ false
    → destroys_protected context force delete rs ≡ none
unfolding destroys_protected
destroys_protected-none context force delete [] h = refl
destroys_protected-none context force delete (r ∷ rs) h =
    ground (arith, destroys_protected-none context force delete rs)

destroys_needs :
    (context : PolicyContext) (force delete : Bool) (rs : List GitPushRefspec)
    → any (destroys context force delete) rs ≡ true
    → (force || any (λ r. r.force) rs || delete || any (λ r. r.delete) rs) ≡ true
destroys_needs context force delete [] h = ground arith
destroys_needs context force delete (r ∷ rs) h =
    ground (arith, destroys_needs context force delete rs)

some_refspec :
    (p : GitPushRefspec → Bool) (rs : List GitPushRefspec)
    → any p rs ≡ true
    → no_refspecs rs ≡ false
some_refspec p [] h = ground arith
some_refspec p (r ∷ rs) h = refl

classify_refspecs-deny :
    (context : PolicyContext) (force delete : Bool) (rs : List GitPushRefspec)
    → any (destroys context force delete) rs ≡ true
    → (classify_refspecs context force delete rs).kind ≡ deny
unfolding classify_refspecs
classify_refspecs-deny context force delete rs h =
    elim (Option-cases (destroys_protected context force delete rs)) [
      | inl e ↦ ground (arith, destroys_protected-deny context force delete rs)
      | inr (v, e) ↦
          rw (e, classify_refspecs)
            (denial v (rw e at (destroys_protected-deny context force delete rs)))
    ]
  where
    denial :
        (v : ClassifiedRisk)
        → is_deny v.kind ≡ any (destroys context force delete) rs
        → v.kind ≡ deny
    denial v k = ground arith

pub classify_refspecs-allow :
    (context : PolicyContext) (force delete : Bool) (rs : List GitPushRefspec)
    → (classify_refspecs context force delete rs).kind ≡ allow
    → (any (destroys context force delete) rs ≡ false)
      × ((any (λ r. is_protected r.destination context) rs && not (granted context)) ≡ false)
      × ((delete || any (λ r. r.delete) rs) ≡ false)
classify_refspecs-allow context force delete rs h =
    elim (Bool-cases (any (destroys context force delete) rs)) [
      | inl e ↦ absurd (allow≢deny (sym h ∙ classify_refspecs-deny context force delete rs e))
      | inr e ↦ let (a, b) = rest (destroys_protected-none context force delete rs e) h in (e, a, b)
    ]
  where
    allow≢deny : ◌≢◌ {A = PolicyDecisionKind} allow deny
    allow≢deny k = cc

    rest :
        destroys_protected context force delete rs ≡ none
        → (classify_refspecs context force delete rs).kind ≡ allow
        → ((any (λ r. is_protected r.destination context) rs && not (granted context)) ≡ false)
          × ((delete || any (λ r. r.delete) rs) ≡ false)
    rest e h = unfold classify_refspecs in ground arith

-- A push without `--all` that forces or deletes a protected branch by a refspec is denied,
-- whatever was granted to the task.
pub protected_destruction_denied :
    (args : List Text) (context : PolicyContext)
    → has_arg args "--all" ≡ false
    → any (destroys context (force_by_flag args) (delete_by_flag args)) (git_push_refspecs args)
      ≡ true
    → (classify_push args context).kind ≡ deny
unfolding classify_push
protected_destruction_denied args context narrow h =
    let refspecs = git_push_refspecs args in
    ground (
      arith,
      destroys_needs context (force_by_flag args) (delete_by_flag args) refspecs,
      some_refspec (destroys context (force_by_flag args) (delete_by_flag args)) refspecs,
      classify_refspecs-deny context (force_by_flag args) (delete_by_flag args) refspecs,
    )
