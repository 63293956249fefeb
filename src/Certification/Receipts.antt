-- ===== src/Certification/Receipts.antt =====
-- The manifest and the receipts of certification_tasks.py, and the validation of one receipt.
use tugling.Prelude.{
  ℕ, ℤ, pos, negsuc, String, Bool, true, false, ◌&&◌, List, [], ◌∷◌, Option, none, some, all, any,
  elem, keep, ltb, leb, ◌==◌, if◌then◌else◌, str_eq,
}
use tugling.Prelude.Except.{Except, ok, raise, require, ◌>>=◌, ◌>>◌}

pub record Task : Type 0 where
  pub id : String
  pub lane : ℕ
  pub case_id : String
  pub condition : String
  pub trial : ℕ

-- The manifest, as far as receipts and admission read it. `diagnostic` is `is_diagnostic(plan)`.
pub record Plan : Type 0 where
  pub id : String
  pub schema_version : ℕ
  pub synthetic : Bool
  pub diagnostic : Bool
  pub tasks : List Task
  pub max_attempts : ℕ
  pub lanes : ℕ
  pub input_limit : ℕ
  pub output_limit : ℕ

pub record Usage : Type 0 where
  pub input_tokens : ℕ
  pub output_tokens : ℕ
  pub cached_input_tokens : ℕ

pub data State : Type 0 where
  graded task_error infra_error : State

-- The three fields of a failure's evidence about an execution; `diagnostics` is its text.
pub record Execution : Type 0 where
  pub exit_code : ℤ
  pub timed_out : Bool
  pub diagnostics : String

-- A score is in thousandths and a time in milliseconds. The evidence of an installation is its
-- public projection, as text.
pub data Evidence : Type 0 where
  installation : (passed : Bool) (checks : List (String × Bool)) (projection : String) → Evidence
  behavioral :
      (score : ℕ) (critical_pass passed : Bool) (elapsed : ℕ) (checks : List (String × Bool))
      → Evidence
  failure : (stage category : String) (execution : Option Execution) → Evidence

pub data Kind : Type 0 where
  admission : Kind
  result : State → Option Usage → Option Evidence → Kind

pub record Receipt : Type 0 where
  pub schema_version : ℕ
  pub manifest_id : String
  pub task_id : String
  pub attempt : ℕ
  pub kind : Kind

-- What the modelled code of the two files raises; the checks of a result's evidence share a
-- constructor.
pub data TaskError : Type 0 where
  unknown_task foreign_receipt bad_generation bad_usage bad_failure bad_diagnostics : TaskError
  usage_required bad_evidence : TaskError
  multiple_outcomes unadmitted_result : TaskError
  recovery_exhausted already_admitted diagnostic_admitted accounting_blocked budget_blocked :
      TaskError
  bad_round stale_planner : TaskError
  bad_checkpoint duplicate_receipt : TaskError

-- What validation takes from other files: the grader's check names of a case, whether an
-- installation's evidence equals its public projection, and the shape of failure diagnostics.
pub record Grader : Type 0 where
  pub check_names : String → List String
  pub is_projection : Evidence → Bool
  pub valid_diagnostics : String → Bool

abbrev pub tasks_named : String → List Task → List Task
tasks_named task_id tasks = keep (λ t. str_eq t.id task_id) tasks

abbrev pub the_task : List Task → Except TaskError Task
the_task [] = raise unknown_task
the_task (t ∷ []) = ok t
the_task (t ∷ u ∷ rest) = raise unknown_task

unfoldable pub task_for : Plan → String → Except TaskError Task
task_for plan task_id = the_task (tasks_named task_id plan.tasks)

unfoldable pub valid_usage : Usage → Bool
valid_usage u = ltb 0 u.input_tokens && leb u.cached_input_tokens u.input_tokens

abbrev pub stages : List String
stages = "runtime" ∷ "candidate" ∷ "installation" ∷ "evaluation" ∷ []

abbrev pub categories : List String
categories =
    "TaskError" ∷ "CleanRoomError" ∷ "ControllerError" ∷ "EvalError" ∷ "PermissionError"
    ∷ "FileNotFoundError" ∷ "TimeoutExpired" ∷ "BudgetError" ∷ "UsageError" ∷ "CodexExitError"
    ∷ "unexpected" ∷ []

-- `-255 <= code <= 255`
abbrev pub is_exit_code : ℤ → Bool
is_exit_code (pos n) = leb n 255
is_exit_code (negsuc n) = ltb n 255

module _ (g : Grader) where
  unfoldable pub check_execution : String → Option Execution → Except TaskError (Unit {0})
  check_execution stage none = ok tt
  check_execution stage (some x) =
      require
        (str_eq stage "evaluation" && is_exit_code x.exit_code && g.valid_diagnostics x.diagnostics)
        bad_diagnostics

  -- The evidence of a result whose state is not RESULT.
  unfoldable pub check_failure : Option Evidence → Except TaskError (Unit {0})
  unfolding check_execution
  check_failure none = ok tt
  check_failure (some (failure stage category execution)) = do
    require (elem stage stages && elem category categories) bad_failure
    check_execution stage execution
  check_failure (some _) = raise bad_failure

  -- `set(checks) == behavioral_check_names(case_id)`, where `checks` is a dict.
  abbrev pub same_names : List String → List (String × Bool) → Bool
  same_names names checks =
      all (λ n. any (λ c. str_eq c.0 n) checks) names && all (λ c. elem c.0 names) checks

  -- The evidence of a completed verification.
  unfoldable pub check_evidence : Task → Option Evidence → Except TaskError (Unit {0})
  check_evidence task none = raise bad_evidence
  check_evidence task (some e) =
      if str_eq task.case_id "public-install"
      then require (g.is_projection e) bad_evidence
      else elim e [
        | behavioral score critical passed elapsed checks ↦
            require
              (same_names (g.check_names task.case_id) checks
                && leb score 1000
                && leb elapsed 600000)
              bad_evidence
        | installation passed checks projection ↦ raise bad_evidence
        | failure stage category execution ↦ raise bad_evidence
      ]

  abbrev pub usage_known : Option Usage → Bool
  usage_known none = false
  usage_known (some u) = valid_usage u

  unfoldable pub check_kind : Task → Kind → Except TaskError (Unit {0})
  unfolding valid_usage check_failure check_evidence
  check_kind task admission = ok tt
  check_kind task (result state usage evidence) = do
    require (elim usage [ none ↦ true | some u ↦ valid_usage u ]) bad_usage
    elim state [
      | graded ↦ do require (usage_known usage) usage_required; check_evidence task evidence
      | task_error ↦ check_failure evidence
      | infra_error ↦ check_failure evidence
    ]

  unfoldable pub validate_record : Plan → Receipt → Except TaskError (Unit {0})
  unfolding check_kind task_for
  validate_record plan r = do
    require (str_eq r.manifest_id plan.id) foreign_receipt
    task ← task_for plan r.task_id
    require (r.schema_version == plan.schema_version && ltb r.attempt plan.max_attempts)
        bad_generation
    check_kind task r.kind
