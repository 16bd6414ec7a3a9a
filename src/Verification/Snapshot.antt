-- ===== src/Verification/Snapshot.antt =====
-- `isDeepStrictEqual` on verification snapshots, as packages/verification/src/verification-runner.ts
-- and apps/agent/src/verified-publishing.ts call it.
use native.Mathlib.Decide.{ℕ_discrete}
use mathlib.Core.Bool.{false≢true}
use gram_coding_agent.Base.{
  Bool, true, ◌≡◌, ◌↔◌, refl, dec_beq, dec_beq_iff, String, string_eq, false,
}
use gram_coding_agent.Verification.Evidence.{SnapshotEntry, VerificationSnapshot}

unfoldable pub dec_of_iff : {A : Type 0} (b : Bool) → (b ≡ true) ↔ A → Dec A
dec_of_iff true h = yes (h.0 refl)
dec_of_iff false h = no (λ a. false≢true (h.1 a))

unfoldable pub String-discrete : Discrete String
unfolding dec_of_iff
String-discrete a b = dec_of_iff (string_eq.beq a b) (string_eq.beq_iff a b)

unfoldable pub SnapshotEntry-discrete : Discrete SnapshotEntry
SnapshotEntry-discrete = hlevel (ℕ_discrete)

unfoldable pub VerificationSnapshot-discrete : Discrete VerificationSnapshot
VerificationSnapshot-discrete = hlevel (ℕ_discrete, String-discrete, SnapshotEntry-discrete)

unfoldable pub same_snapshot : VerificationSnapshot → VerificationSnapshot → Bool
same_snapshot a b = dec_beq VerificationSnapshot-discrete a b

pub same_snapshot_iff : (a b : VerificationSnapshot) → (same_snapshot a b ≡ true) ↔ (a ≡ b)
unfolding same_snapshot
same_snapshot_iff a b = dec_beq_iff VerificationSnapshot-discrete a b
