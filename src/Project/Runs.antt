-- ===== src/Project/Runs.antt =====
-- The identity, the evidence and the surroundings of a run of flows in project_contract.py: what
-- `execute_flows` writes and `check_flow_evidence` reads.
pub mod Execute
pub mod Check
pub mod Fresh
pub mod Passed
pub mod Completed
pub mod Accepted
pub mod Roundtrip
pub mod Genuine
use tugling.Prelude.{
  ℕ, zero, suc, ◌+◌, String, Bool, true, false, not, ◌&&◌, ◌||◌, List, [], ◌∷◌, ◌++◌, Option, none,
  some, any, all, length, elem, ltb, leb, ◌==◌, if◌then◌else◌, str_eq,
}
use Prim.Native.Char.{code}
use tugling.Prelude.Except.{Except, ok, raise, require, ◌>>=◌, ◌>>◌}
use tugling.Prelude.Equality.{Eq, String-discrete, ℤ-discrete}
use native.Mathlib.Decide.{ℕ_discrete}
use tugling.Project.Flows.{Requirement, Mapping, ContractError}
use tugling.Project.Results.{FlowResult, Plan, Summary, EvidenceError}
use tugling.Project.Retention.{Retention, RetentionError, Entry}
use tugling.Project.Schedule.State.{Event}

-- The `github` object of a context has the five variables of `execution_context`, in its order.
pub record Context : Type 0 where
  pub platform : String
  pub machine : String
  pub python : String
  pub environment_sha256 : String
  pub github : Option (List String)

pub record Identity : Type 0 where
  pub project_revision : String
  pub config_sha256 : String
  pub map_sha256 : String
  pub helper_sha256 : String
  pub execution_context : Context

-- `finished_at`: not there yet, the 64 zeros of the largest shape, or a time in microseconds.
pub data Finish : Type 0 where
  missing padding : Finish
  at : ℕ → Finish

pub record Evidence : Type 0 where
  pub schema_version : ℕ
  pub kind : String
  pub run_id : String
  pub identity : Identity
  pub tugling : String
  pub started_at : ℕ
  pub state : String
  pub requested_flows : List String
  pub execution_plan : Option Plan
  pub results : List FlowResult
  pub worktree_unchanged : Bool
  pub requirements : Option (List Requirement)
  pub performance : Option Summary
  pub finished_at : Finish

-- What a run or a check can raise. `still_running` is the model's own: the scheduler's events ran
-- out before its loop did.
pub data RunError : Type 0 where
  not_posix bad_ancestry recursive_execution no_map : RunError
  contract : ContractError → RunError
  not_required_set bad_selection missing_dependencies over_budget duplicate_commands : RunError
  config_outside config_not_committed : RunError
  not_root dirty hidden_files bad_context : RunError
  receipt_too_large store_unavailable receipt_moved : RunError
  retention : RetentionError → RunError
  no_progress still_running : RunError
  timing : EvidenceError → RunError
  bad_path stale bad_times incomplete_requirements incomplete mismatched : RunError
  longer_than_receipt different_summary : RunError

-- What Git says of the project's working tree.
pub record Worktree : Type 0 where
  pub toplevel : String
  pub status : String
  pub flags : List String
  pub head : String

-- The machine, the digests and the variables of the environment that an identity is made of.
-- `config_inside` and `config_committed` say what `is_relative_to` and `committed_file` found.
pub record Host : Type 0 where
  pub root : String
  pub worktree : Worktree
  pub config_inside : Bool
  pub config_committed : Bool
  pub config_sha256 : String
  pub helper_sha256 : String
  pub platform : String
  pub machine : String
  pub python : String
  pub environment_sha256 : String
  pub variables : List (String × String)

-- `report`: the parts of a validated project that a run reads. A verification map comes with the
-- digest of its file.
pub record ProjectReport : Type 0 where
  pub verification : Option (Mapping × String)
  pub budget_seconds : Option ℕ
  pub receipt_retention : Retention
  pub tugling : String

-- `os.environ.get(key)`
unfoldable pub variable : String → List (String × String) → Option String
variable key [] = none
variable key ((k, v) ∷ rest) = if str_eq key k then some v else variable key rest

abbrev pub kind_of : Bool → String
kind_of required = if required then "tugling-required-flows" else "tugling-native-flows"

abbrev pub pass_of : Bool → String
pass_of required = if required then "REQUIRED_PASS" else "FLOWS_PASS"

abbrev pub fail_of : Bool → String
fail_of required = if required then "REQUIRED_FAIL" else "FLOWS_FAIL"

-- `flow_execution_ancestry`: `ancestry` is the decoded variable, if it is a list of strings.
unfoldable pub flow_execution_ancestry :
    String → Option (List String) → Except RunError (List String)
flow_execution_ancestry project none = raise bad_ancestry
flow_execution_ancestry project (some ancestry) = do
  require (ltb (length ancestry) 32) bad_ancestry
  require (not (elem project ancestry)) recursive_execution
  ok (ancestry ++ project ∷ [])

-- `entry[0].islower() or entry[0] == "S"`, for the letters that Git writes there.
unfoldable pub is_hidden : String → Bool
is_hidden String.[] = false
is_hidden (String.◌∷◌ c rest) = (leb b'a' (code c) && leb (code c) b'z') || (code c == b'S')

unfoldable pub clean_revision : String → Worktree → Except RunError String
unfolding is_hidden
clean_revision root tree = do
  require (str_eq tree.toplevel root) not_root
  require (str_eq tree.status "") dirty
  require (not (any is_hidden tree.flags)) hidden_files
  ok tree.head

abbrev pub github_keys : List String
github_keys =
    "GITHUB_REPOSITORY" ∷ "GITHUB_WORKFLOW_REF" ∷ "GITHUB_RUN_ID" ∷ "GITHUB_RUN_ATTEMPT"
    ∷ "GITHUB_SHA" ∷ []

-- The values of the keys, none of them missing or empty.
unfoldable pub present_values : List String → List (String × String) → Except RunError (List String)
unfolding variable
present_values [] variables = ok []
present_values (key ∷ keys) variables = elim (variable key variables) [
  | none ↦ raise bad_context
  | some value ↦ do
    require (not (str_eq value "")) bad_context
    values ← present_values keys variables
    ok (value ∷ values)
]

abbrev pub on_actions : Option String → Bool
on_actions none = false
on_actions (some value) = str_eq value "true"

abbrev pub context_with : Host → Option (List String) → Context
context_with h github = record {
  platform = h.platform;
  machine = h.machine;
  python = h.python;
  environment_sha256 = h.environment_sha256;
  github = github;
}

unfoldable pub github_context : Host → Except RunError Context
unfolding present_values
github_context h = do
  values ← present_values github_keys h.variables
  ok (context_with h (some values))

unfoldable pub execution_context : Host → Except RunError Context
unfolding github_context
execution_context h =
    if on_actions (variable "GITHUB_ACTIONS" h.variables)
    then github_context h
    else ok (context_with h none)

unfoldable pub verification_identity : Host → String → Except RunError Identity
unfolding clean_revision execution_context
verification_identity h map_sha256 = do
  require h.config_inside config_outside
  require h.config_committed config_not_committed
  revision ← clean_revision h.root h.worktree
  context ← execution_context h
  ok (record {
    project_revision = revision;
    config_sha256 = h.config_sha256;
    map_sha256 = map_sha256;
    helper_sha256 = h.helper_sha256;
    execution_context = context;
  })

-- `==` on the parts of evidence.
unfoldable pub Identity-discrete : Discrete Identity
Identity-discrete = hlevel (ℕ_discrete, String-discrete)

unfoldable pub Plan-discrete : Discrete (Option Plan)
Plan-discrete = hlevel (ℕ_discrete, String-discrete)

unfoldable pub Summary-discrete : Discrete (Option Summary)
Summary-discrete = hlevel (ℕ_discrete, String-discrete)

unfoldable pub Requirements-discrete : Discrete (Option (List Requirement))
Requirements-discrete = hlevel (ℕ_discrete, String-discrete)

instance abbrev pub identity_eq : Eq Identity
identity_eq = record { discrete = Identity-discrete }

instance abbrev pub plan_eq : Eq (Option Plan)
plan_eq = record { discrete = Plan-discrete }

instance abbrev pub summary_eq : Eq (Option Summary)
summary_eq = record { discrete = Summary-discrete }

instance abbrev pub requirements_eq : Eq (Option (List Requirement))
requirements_eq = record { discrete = Requirements-discrete }
