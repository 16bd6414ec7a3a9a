-- ===== src/Verification/Evidence.antt =====
-- The evidence that a verification plan carries in its JSON text, and the checks on it:
-- packages/persistence/src/repositories/verification-repository.ts. A JSON text is the value it
-- parses to.
use gram_coding_agent.Base.{
  ℕ, String, Bool, true, false, ◌&&◌, ◌||◌, not, List, [], ◌∷◌, Option, none, some, if◌then◌else◌,
  any, all, length, leb, ltb, nat_beq, contains, Result, ok, err, nat_eq, ◌+◌, map,
}
use gram_coding_agent.Policy.Text.{Text, is, is_empty, trim, text_eq}
use gram_coding_agent.Task.Store.Local.{max_safe_integer}

pub record SnapshotEntry : Type 0 where
  pub path : Text
  pub mode : Text
  pub oid : Option Text

pub record VerificationSnapshot : Type 0 where
  pub version : ℕ
  pub task_id : String
  pub head_sha : Text
  pub entries : List SnapshotEntry

pub record ReviewEvidence : Type 0 where
  pub check_id : ℕ
  pub evidence_ref : Text
  pub approved_paths : List Text

pub record VerificationEvidence : Type 0 where
  pub version : ℕ
  pub command_floor : Option ℕ
  pub reviews : List ReviewEvidence
  pub snapshot : Option VerificationSnapshot

-- the value of `verificationEvidence`: one that lacks the shape of evidence, or one that has it
pub data EvidenceJson : Type 0 where
  shapeless : EvidenceJson
  shaped : VerificationEvidence → EvidenceJson

-- a plan that is an object, with the two keys that the repository reads and the text of the others
pub record PlanObject : Type 0 where
  pub external_reviews : Bool
  pub verification_evidence : Option EvidenceJson
  pub others : Text

pub data PlanJson : Type 0 where
  -- a value that `JSON.stringify` drops, and one that is no object
  unserializable : PlanJson
  other_value : Text → PlanJson
  object : PlanObject → PlanJson

pub data VerificationError : Type 0 where
  reserved_metadata not_serializable plan_not_object invalid_evidence : VerificationError
  task_mismatch plan_sealed plan_not_found already_sealed constraint : VerificationError
  not_pending : ℕ → VerificationError
  evidence_required approved_paths_misplaced invalid_path : VerificationError
  foreign_command command_not_successful command_predates command_consumed : VerificationError
  command_outside_workspace : VerificationError
  snapshot_mismatch foreign_check no_required_checks required_not_passed : VerificationError
  review_mismatch review_missing paths_missing path_absent : VerificationError
  external_mismatch external_snapshot_mismatch workspace_changed : VerificationError

-- UTF-16 order, that of `<` and `sort()` on strings
unfoldable pub text_lt : Text → Text → Bool
text_lt s [] = false
text_lt [] (b ∷ t) = true
text_lt (a ∷ s) (b ∷ t) = ltb a b || (nat_beq a b && text_lt s t)

unfoldable pub text_le : Text → Text → Bool
unfolding text_lt
text_le s t = not (text_lt t s)

abbrev before_first : ℕ → List Text → List Text
before_first c [] = (c ∷ []) ∷ []
before_first c (part ∷ parts) = (c ∷ part) ∷ parts

-- `value.split(separator)`
unfoldable pub split_on : ℕ → Text → List Text
split_on separator [] = [] ∷ []
split_on separator (c ∷ s) =
    let parts = split_on separator s in
    if nat_beq c separator then [] ∷ parts else before_first c parts

-- ASCII letters; no other character has one of `git` as its lower case
abbrev pub to_lower : ℕ → ℕ
to_lower c = if leb b'A' c && leb c b'Z' then c + 32 else c

abbrev starts_badly : Text → Bool
starts_badly [] = false
starts_badly (c ∷ _) = nat_beq c b'-' || nat_beq c b'/'

abbrev is_forbidden : ℕ → Bool
is_forbidden c =
    nat_beq c b'\\'
    || nat_beq c b':'
    || nat_beq c b'*'
    || nat_beq c b'?'
    || nat_beq c b'['
    || nat_beq c b']'
    || ltb c 32
    || nat_beq c 127

abbrev is_plain_part : Text → Bool
is_plain_part part =
    not (is_empty part || is part "." || is part ".." || is (map to_lower part) ".git")

unfoldable pub valid_path : Text → Bool
unfolding split_on is
valid_path path =
    not (is_empty path)
    && not (starts_badly path)
    && not (any is_forbidden path)
    && all is_plain_part (split_on b'/' path)

abbrev is_after : Option Text → Text → Bool
is_after none path = true
is_after (some previous) path = text_lt previous path

-- the paths are valid, each after the one before
unfoldable pub valid_paths_after : Option Text → List Text → Bool
unfolding valid_path text_lt
valid_paths_after previous [] = true
valid_paths_after previous (path ∷ paths) =
    valid_path path && is_after previous path && valid_paths_after (some path) paths

abbrev is_sha : ℕ → Text → Bool
is_sha n s =
    nat_beq (length s) n && all (λ c. (leb b'0' c && leb c b'9') || (leb b'a' c && leb c b'f')) s

-- `/^[a-f0-9]{40}$/` and `/^[a-f0-9]{64}$/`
unfoldable pub is_object_id : Text → Bool
is_object_id s = is_sha 40 s

unfoldable pub is_digest : Text → Bool
is_digest s = is_sha 64 s

unfoldable pub valid_oid : Text → Option Text → Bool
unfolding is is_object_id
valid_oid mode none = is mode "000000"
valid_oid mode (some oid) = (is mode "100644" || is mode "100755") && is_object_id oid

unfoldable pub valid_entries_after : Option Text → List SnapshotEntry → Bool
unfolding valid_path text_lt valid_oid
valid_entries_after previous [] = true
valid_entries_after previous (entry ∷ entries) =
    valid_path entry.path
    && is_after previous entry.path
    && valid_oid entry.mode entry.oid
    && valid_entries_after (some entry.path) entries

unfoldable pub valid_snapshot : VerificationSnapshot → Bool
unfolding is_object_id valid_entries_after
valid_snapshot snapshot =
    nat_beq snapshot.version 1
    && is_object_id snapshot.head_sha
    && valid_entries_after none snapshot.entries

unfoldable pub read_plan_json : PlanJson → Result VerificationError PlanObject
read_plan_json unserializable = err plan_not_object
read_plan_json (other_value _) = err plan_not_object
read_plan_json (object plan) = ok plan

-- the reviews are well formed, and no check has two
unfoldable pub valid_reviews : List ℕ → List ReviewEvidence → Bool
unfolding trim valid_paths_after
valid_reviews ids [] = true
valid_reviews ids (review ∷ reviews) =
    leb review.check_id max_safe_integer
    && ltb 0 review.check_id
    && not (contains ids review.check_id)
    && not (is_empty (trim review.evidence_ref))
    && valid_paths_after none review.approved_paths
    && valid_reviews (review.check_id ∷ ids) reviews

abbrev pub valid_floor : Option ℕ → Bool
valid_floor none = true
valid_floor (some floor) = leb floor max_safe_integer

unfoldable pub valid_sealed : Option VerificationSnapshot → Bool
unfolding valid_snapshot
valid_sealed none = true
valid_sealed (some snapshot) = valid_snapshot snapshot

unfoldable pub valid_evidence : VerificationEvidence → Bool
unfolding valid_reviews valid_sealed
valid_evidence evidence =
    nat_beq evidence.version 1
    && valid_floor evidence.command_floor
    && valid_reviews [] evidence.reviews
    && valid_sealed evidence.snapshot

abbrev pub no_evidence : VerificationEvidence
no_evidence = record { version = 1; command_floor = none; reviews = []; snapshot = none }

unfoldable pub of_json : EvidenceJson → Result VerificationError VerificationEvidence
unfolding valid_evidence
of_json shapeless = err invalid_evidence
of_json (shaped evidence) = if valid_evidence evidence then ok evidence else err invalid_evidence

unfoldable pub of_key : Option EvidenceJson → Result VerificationError VerificationEvidence
unfolding of_json
of_key none = ok no_evidence
of_key (some json) = of_json json

unfoldable pub read_evidence : PlanObject → Result VerificationError VerificationEvidence
unfolding of_key
read_evidence plan = of_key plan.verification_evidence
