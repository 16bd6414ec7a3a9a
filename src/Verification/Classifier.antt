-- ===== src/Verification/Classifier.antt =====
-- `ChangeClassifier`: packages/verification/src/change-classifier.ts. A pattern is tested on the
-- components of a path, which are what its parts between two slashes match.
use gram_coding_agent.Base.{
  ℕ, String, Bool, ◌&&◌, ◌||◌, List, [], ◌∷◌, ◌++◌, if◌then◌else◌, any, all, map, drop, length, leb,
  nat_beq, ◌+◌, Eq, dec_beq, dec_beq_iff,
}
use gram_coding_agent.Policy.Text.{Text, codes, is, is_one_of, has_prefix, ends_with}
use gram_coding_agent.Verification.Evidence.{split_on}

pub data ChangeClass : Type 0 where
  documentation config frontend_logic ui backend db_migration ci_workflow other : ChangeClass

unfoldable pub ChangeClass-discrete : Discrete ChangeClass
ChangeClass-discrete = hlevel

instance abbrev pub change_class_eq : Eq ChangeClass
change_class_eq = record {
  beq = dec_beq ChangeClass-discrete;
  beq_iff = dec_beq_iff ChangeClass-discrete;
}

-- `toLowerCase` of a code unit: the ASCII letters and the two other letters whose lower case has an
-- ASCII letter. The rest is left, since the patterns name ASCII only.
abbrev pub lower_unit : ℕ → Text
lower_unit c =
    if leb b'A' c && leb c b'Z'
    then (c + 32) ∷ []
    else if nat_beq c 8490
    then b'k' ∷ []
    else if nat_beq c 304
    then b'i' ∷ 775 ∷ []
    else c ∷ []

unfoldable pub lower_case : Text → Text
lower_case [] = []
lower_case (c ∷ s) = lower_unit c ++ lower_case s

abbrev pub slashed : ℕ → ℕ
slashed c = if nat_beq c b'\\' then b'/' else c

abbrev pub without_dot : Text → Text
without_dot (c ∷ d ∷ s) = if nat_beq c b'.' && nat_beq d b'/' then s else c ∷ d ∷ s
without_dot s = s

unfoldable pub normalize : Text → Text
unfolding lower_case
normalize path = lower_case (without_dot (map slashed path))

unfoldable pub ends_with_one : List String → Text → Bool
unfolding ends_with
ends_with_one endings path = any (λ ending. ends_with path (codes ending)) endings

-- the components before the last one, and the last one
abbrev pub folders : List Text → List Text
folders [] = []
folders (part ∷ []) = []
folders (part ∷ next ∷ parts) = part ∷ folders (next ∷ parts)

abbrev pub last_part : List Text → Text
last_part [] = []
last_part (part ∷ []) = part
last_part (part ∷ next ∷ parts) = last_part (next ∷ parts)

-- `/(^|\/)(a|b|…)\//`
unfoldable pub in_folder : List String → Text → Bool
unfolding split_on is_one_of
in_folder names path = any (λ part. is_one_of part names) (folders (split_on b'/' path))

unfoldable pub is_documentation : Text → Bool
unfolding has_prefix ends_with_one
is_documentation path = has_prefix path "docs/" || ends_with_one (".md" ∷ ".mdx" ∷ []) path

abbrev pub config_tools : List String
config_tools = "tsconfig" ∷ "eslint" ∷ "prettier" ∷ "vite" ∷ "vitest" ∷ "webpack" ∷ "rollup" ∷ []

abbrev pub config_endings : List String
config_endings = ".json" ∷ ".js" ∷ ".cjs" ∷ ".mjs" ∷ ".ts" ∷ []

-- `/(^|\/)(tool)[^/]*\.(ending)$/`: the last component starts with the tool, an ending follows
unfoldable pub names_tool : Text → Bool
unfolding has_prefix ends_with_one
names_tool part =
    any
      (λ tool.
        has_prefix part tool && ends_with_one config_endings (drop (length (codes tool)) part))
      config_tools

unfoldable pub is_config : Text → Bool
unfolding is has_prefix split_on names_tool ends_with_one
is_config path =
    is path "package.json"
    || is path "pnpm-workspace.yaml"
    || has_prefix path ".config/"
    || names_tool (last_part (split_on b'/' path))
    || ends_with_one (".yaml" ∷ ".yml" ∷ ".toml" ∷ ".ini" ∷ []) path

unfoldable pub is_ui : Text → Bool
unfolding in_folder ends_with_one
is_ui path =
    in_folder ("components" ∷ "pages" ∷ "views" ∷ "ui" ∷ []) path
    && ends_with_one (".tsx" ∷ ".jsx" ∷ ".vue" ∷ ".svelte" ∷ []) path

abbrev pub role_endings : String → List Text
role_endings role =
    map (λ ending. codes role ++ codes ending) (".ts" ∷ ".js" ∷ ".java" ∷ ".kt" ∷ ".py" ∷ [])

-- `/\.(role)\.(ending)$/`
unfoldable pub has_role : Text → Bool
unfolding ends_with
has_role path =
    any (λ role. any (λ ending. ends_with path ending) (role_endings role))
      (".controller" ∷ ".handler" ∷ ".route" ∷ ".service" ∷ [])

unfoldable pub is_backend : Text → Bool
unfolding in_folder has_role
is_backend path =
    in_folder ("server" ∷ "backend" ∷ "controllers" ∷ "handlers" ∷ "routes" ∷ []) path
    || has_role path

-- a `db/migrations/` has a component `migrations`
unfoldable pub is_database_migration : Text → Bool
unfolding in_folder ends_with_one
is_database_migration path =
    in_folder ("migration" ∷ "migrations" ∷ []) path
    || ends_with_one (".up.sql" ∷ ".down.sql" ∷ []) path

unfoldable pub is_ci_workflow : Text → Bool
unfolding has_prefix
is_ci_workflow path = has_prefix path ".github/workflows/" || has_prefix path ".gitlab-ci"

unfoldable pub is_source : Text → Bool
unfolding ends_with_one
is_source path =
    ends_with_one (".ts" ∷ ".tsx" ∷ ".js" ∷ ".jsx" ∷ ".mjs" ∷ ".cjs" ∷ ".java" ∷ ".kt" ∷ ".py" ∷ [])
      path

-- the tests in their order, on normalized paths
unfoldable pub class_of : List Text → ChangeClass
unfolding is_documentation is_ci_workflow is_database_migration is_ui is_backend is_config is_source
class_of [] = other
class_of (p ∷ ps) =
    let paths = p ∷ ps in
    if all is_documentation paths
    then documentation
    else if any is_ci_workflow paths
    then ci_workflow
    else if any is_database_migration paths
    then db_migration
    else if any is_ui paths
    then ui
    else if any is_backend paths
    then backend
    else if all is_config paths
    then config
    else if any is_source paths
    then frontend_logic
    else if any is_config paths
    then config
    else other

unfoldable pub classify : List Text → ChangeClass
unfolding normalize class_of
classify paths = class_of (map normalize paths)
