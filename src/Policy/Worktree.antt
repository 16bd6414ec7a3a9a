-- ===== src/Policy/Worktree.antt =====
-- `assertTaskWorktreeTarget`: packages/policy/src/worktree-path.ts. `node:path`, the file system and
-- the number conversions of the language are the parameter `os`.
use gram_coding_agent.Base.{
  ℕ, zero, suc, Bool, true, false, ◌&&◌, ◌||◌, not, List, [], ◌∷◌, Option, none, some,
  if◌then◌else◌, any, all, leb, nat_beq,
}
use gram_coding_agent.Policy.Text.{Text, codes, same, is, has_prefix, is_empty}

pub data Lstat : Type 0 where
  -- ENOENT, and any other error
  missing failed : Lstat
  -- whether it is a symbolic link, and whether it is a directory
  found : Bool → Bool → Lstat

pub record Os : Type 0 where
  pub is_absolute : Text → Bool
  pub resolve : List Text → Text
  pub join : List Text → Text
  pub relative : Text → Text → Text
  pub dirname : Text → Text
  pub basename : Text → Text
  pub realpath : Text → Option Text
  pub lstat : Text → Lstat
  -- `Number(s)`, where it is a positive safe integer
  pub to_positive : Text → Option ℕ
  -- `String(n)`
  pub to_text : ℕ → Text

pub data Mode : Type 0 where
  add remove : Mode

abbrev is_word_char : ℕ → Bool
is_word_char c =
    (leb b'A' c && leb c b'Z')
    || (leb b'a' c && leb c b'z')
    || (leb b'0' c && leb c b'9')
    || nat_beq c b'_'
    || nat_beq c b'-'

-- `TASK_ID_RE`
unfoldable pub is_task_id : Text → Bool
is_task_id s = not (is_empty s) && all is_word_char s

module _ (os : Os) where
  -- the nearest existing ancestor in canonical form, and the segments below it; the fuel is the
  -- source's bound of 512 rounds
  unfoldable pub split_to_existing : ℕ → Text → List Text → Option (Text × List Text)
  split_to_existing zero current pending = none
  split_to_existing (suc n) current pending =
      let rest = split_to_existing n (os.dirname current) (os.basename current ∷ pending) in
      elim (os.realpath current) [
        | some real ↦ some (real, pending)
        | none ↦ if same (os.dirname current) current then none else rest
      ]

  abbrev is_dot : Text → Bool
  is_dot s = is_empty s || is s "." || is s ".."

  abbrev no_segments : List Text → Bool
  no_segments [] = true
  no_segments (_ ∷ _) = false

  abbrev join_canonical : Text → List Text → Option Text
  join_canonical base pending =
      if any is_dot pending
      then none
      else some (if no_segments pending then base else os.join (base ∷ pending))

  abbrev canonical_of : Option (Text × List Text) → Option Text
  canonical_of none = none
  canonical_of (some (base, pending)) = join_canonical base pending

  -- `canonicalizeHomePrefix`, and `canonicalizeParent` for `add`
  unfoldable pub canonicalize_nearest : Text → Option Text
  unfolding split_to_existing is
  canonicalize_nearest path = canonical_of (split_to_existing 512 path [])

  unfoldable pub canonicalize_parent : Text → Mode → Option Text
  unfolding canonicalize_nearest
  canonicalize_parent parent remove = os.realpath parent
  canonicalize_parent parent add = canonicalize_nearest parent

  abbrev pub layout : Text → ℕ → List Text
  layout home repo_id = home ∷ codes ".gram-agent" ∷ codes "worktrees" ∷ os.to_text repo_id ∷ []

  abbrev root_of : Text → Text
  root_of home = os.resolve (home ∷ codes ".gram-agent" ∷ codes "worktrees" ∷ [])

  -- the lexical checks, from the absolute target to the relative path below the root
  unfoldable pub is_lexically_contained : Text → Text → ℕ → Text → Bool
  unfolding is has_prefix
  is_lexically_contained home task_id repo_id target =
      let root = root_of home in
      let candidate = os.resolve (target ∷ []) in
      let rel = os.relative root candidate in
      os.is_absolute target
      && has_prefix target "/"
      && same candidate (os.resolve (root ∷ os.to_text repo_id ∷ task_id ∷ []))
      && not (is_empty rel)
      && not (is rel "..")
      && not (has_prefix rel "../")
      && not (os.is_absolute rel)

  abbrev same_path : Option Text → Option Text → Bool
  same_path (some a) (some b) = same a b
  same_path _ _ = false

  -- the canonical directory that must hold the worktree
  abbrev pub expected_parent : Text → ℕ → Option Text
  expected_parent home repo_id = elim (canonicalize_nearest home) [
    | none ↦ none
    | some prefix ↦ some (os.join (layout prefix repo_id))
  ]

  abbrev child_of : Option Text → Text → Option Text
  child_of none task_id = none
  child_of (some parent) task_id = some (os.join (parent ∷ task_id ∷ []))

  -- `add` wants a fresh path, `remove` a directory that is no link and is where it should be
  unfoldable pub mode_check : Mode → Text → Option Text → Text → Bool
  mode_check add task_id parent target = elim (os.lstat (os.resolve (target ∷ []))) [
    | missing ↦ true
    | failed ↦ false
    | found _ _ ↦ false
  ]
  mode_check remove task_id parent target = elim (os.lstat target) [
    | missing ↦ false
    | failed ↦ false
    | found is_link is_directory ↦
        not is_link && is_directory && same_path (os.realpath target) (child_of parent task_id)
  ]

  -- whether the assertion passes; `repo_id` is `none` where it is no positive safe integer
  unfoldable pub is_task_worktree_target : Text → Text → Option ℕ → Text → Mode → Bool
  unfolding canonicalize_parent is_lexically_contained mode_check is_task_id
  is_task_worktree_target home task_id none target mode = false
  is_task_worktree_target home task_id (some repo_id) target mode =
      not (is_empty home)
      && is_task_id task_id
      && not (is_empty target)
      && is_lexically_contained home task_id repo_id target
      && same_path (canonicalize_parent (os.dirname (os.resolve (target ∷ []))) mode)
          (expected_parent home repo_id)
      && mode_check mode task_id (expected_parent home repo_id) target
