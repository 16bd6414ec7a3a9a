-- ===== src/Verification/Store/Once.antt =====
-- A check is finished once: `finishCheck` of
-- packages/persistence/src/repositories/verification-repository.ts.
use gram_coding_agent.Base.{
  ℕ, ◌≡◌, refl, sym, true, false, Option, none, some, Result, ok, err, ◌==◌, nat_eq, Bool-cases,
  inl, inr,
}
use gram_coding_agent.Base.Results.{ok≢err}
use gram_coding_agent.Table.{count_where, update_where, find_where-some}
use gram_coding_agent.Table.Unique.{find_where-update}
use gram_coding_agent.Verification.Evidence.{VerificationEvidence, VerificationError, not_pending}
use gram_coding_agent.Verification.Rows.{
  VerificationCheckRow, VerificationStore, pending, check_status_eq,
  StoredVerificationCheckStatus-discrete,
}
use gram_coding_agent.Verification.Store.{get_check, commit, save_evidence, check_is}
use gram_coding_agent.Verification.Store.Assertions.{Node}
use gram_coding_agent.Verification.Store.Finish.{
  FinishedStatus, to_pass, to_fail, to_skipped, to_not_required, stored_status, Finish,
  FinishVerificationCheckInput, finish_check, checked_finish, finished_row, is_pending_check,
  save_finish, save_reviews,
}
use gram_coding_agent.Verification.Store.Laws.{checked_finish-open}

stored_status-done : (o : FinishedStatus) → (stored_status o == pending) ≡ false
unfolding StoredVerificationCheckStatus-discrete
stored_status-done to_pass = refl
stored_status-done to_fail = refl
stored_status-done to_skipped = refl
stored_status-done to_not_required = refl

module _ (id : ℕ) (input : FinishVerificationCheckInput) (now : ℕ) (s : VerificationStore)
    (c : VerificationCheckRow) where
  updated :
      (f : Finish) (o : Option VerificationEvidence)
      → get_check id s ≡ some c
      → (c.status == pending) ≡ true
      → get_check id (
          save_reviews f o (record s {
            checks = update_where (is_pending_check id) (finished_row input now) s.checks;
          }))
        ≡ some (finished_row input now c)
  unfolding get_check save_reviews save_evidence finished_row
  updated f none e p =
      rw
        (
          find_where-update (check_is id) (is_pending_check id) (finished_row input now)
              (λ r h. refl) s.checks,
          e,
        )
        (rw (p, find_where-some (check_is id) s.checks c e) refl)
  updated f (some evidence) e p =
      rw
        (
          find_where-update (check_is id) (is_pending_check id) (finished_row input now)
              (λ r h. refl) s.checks,
          e,
        )
        (rw (p, find_where-some (check_is id) s.checks c e) refl)

  saved :
      (f : Finish)
      → get_check id s ≡ some c
      → (c.status == pending) ≡ true
      → (save_finish id input now f s).0 ≡ ok tt
      → get_check id (save_finish id input now f s).1 ≡ some (finished_row input now c)
  unfolding save_finish
  saved f e p h = elim (Bool-cases (count_where (is_pending_check id) s.checks == 1)) [
    | inl one ↦ rw one (updated f f.evidence e p)
    | inr many ↦ absurd (ok≢err (sym (rw many at h)))
  ]

again-refused :
    (node : Node) (id : ℕ) (input : FinishVerificationCheckInput) (now : ℕ) (t : VerificationStore)
    (c : VerificationCheckRow)
    → get_check id t ≡ some c
    → (c.status == pending) ≡ false
    → (finish_check node id input now t).0 ≡ err (not_pending id)
unfolding finish_check checked_finish
again-refused node id input now t c e p = rw e (rw p refl)

-- A check that `finishCheck` finishes was pending and then holds what it was given; a call that
-- would finish it a second time throws, whatever it is given.
pub finish_check-once :
    (node : Node) (id : ℕ) (input again : FinishVerificationCheckInput) (now later : ℕ)
    (s : VerificationStore)
    → (finish_check node id input now s).0 ≡ ok tt
    → (c : VerificationCheckRow) × ((get_check id s ≡ some c)
        × ((c.status ≡ pending)
            × ((get_check id (finish_check node id input now s).1 ≡ some (finished_row input now c))
                × ((finish_check node id again later (finish_check node id input now s).1).0
                    ≡ err (not_pending id)))))
unfolding finish_check finished_row
finish_check-once node id input again now later s h = go (checked_finish node id input s) refl h
  where
    go :
        (r : Result VerificationError Finish)
        → checked_finish node id input s ≡ r
        → (commit r (save_finish id input now) s).0 ≡ ok tt
        → (c : VerificationCheckRow) × ((get_check id s ≡ some c)
            × ((c.status ≡ pending)
                × ((get_check id (commit r (save_finish id input now) s).1
                      ≡ some (finished_row input now c))
                    × ((finish_check node id again later
                          (commit r (save_finish id input now) s).1).0
                        ≡ err (not_pending id)))))
    go (err e) _ k = absurd (ok≢err (sym k))
    go (ok f) e k =
        let (c, (kept, (p, _))) = checked_finish-open node id input s f e in
        let t = (save_finish id input now f s).1 in
        let now_held = saved id input now s c f kept p k in
        (
          c,
          (
            kept,
            (
              (check_status_eq.beq_iff c.status pending).0 p,
              (
                now_held,
                again-refused node id again later t (finished_row input now c) now_held
                    (stored_status-done input.status),
              ),
            ),
          ),
        )
