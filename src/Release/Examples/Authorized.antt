-- ===== src/Release/Examples/Authorized.antt =====
-- A concrete dispatch of certify_release.py, and the theorem's use on it.
use tugling.Prelude.{pos, String, [], ◌∷◌, ◌≡◌, refl}
use tugling.Prelude.Except.{ok, raise}
use tugling.Release.Gate.Matrix.{ReleaseMatrix}
use tugling.Release.Authorize.{
  PaidRequest, Env, bad_limit, authorize, IsGranted, authorize-IsGranted,
}
use tugling.Release.Examples.{sha_a, sha_c}

abbrev env_with : String → Env
env_with output =
    ("GITHUB_REPOSITORY", "cyyapye/tugling")
    ∷ ("GITHUB_EVENT_NAME", "workflow_dispatch")
    ∷ ("GITHUB_RUN_ATTEMPT", "1")
    ∷ ("CERTIFICATION_ENABLED", "true")
    ∷ ("APPROVE_PAID_RUN", "true")
    ∷ ("CONTROLLER_SHA", sha_a)
    ∷ ("WORKFLOW_SHA", sha_a)
    ∷ ("GITHUB_SHA", sha_a)
    ∷ ("GITHUB_REF_NAME", "controller-v1")
    ∷ ("GITHUB_REF", "refs/tags/controller-v1")
    ∷ ("CANDIDATE_SHA", sha_c)
    ∷ ("BASELINE_SHA", sha_a)
    ∷ ("MAX_INPUT_TOKENS", "5000000")
    ∷ ("APPROVED_INPUT_TOKENS", "4000000")
    ∷ ("MAX_OUTPUT_TOKENS", "90000")
    ∷ ("APPROVED_OUTPUT_TOKENS", output)
    ∷ ("GITHUB_RUN_ID", "17")
    ∷ []

abbrev empty_matrix : ReleaseMatrix
empty_matrix = record {
  schema_version = pos 1;
  minimum_attempts = pos 3;
  conditions = [];
  required_case_ids = [];
  required_skills = [];
  project_types = [];
}

abbrev granted : PaidRequest
granted = record {
  repository = "cyyapye/tugling";
  controller_sha = sha_a;
  candidate_sha = sha_c;
  baseline_sha = sha_a;
  run_id = "17";
  input_limit = 4000000;
  output_limit = 80000;
  diagnostic_case = "";
}

dispatch_granted : authorize (env_with "80000") [] empty_matrix ≡ ok granted
unfolding authorize tugling.Release.Patterns.is_sha tugling.Release.Patterns.is_controller_tag
    tugling.Release.Patterns.is_run_id
dispatch_granted = refl

-- More than the configured maximum is refused.
excess_refused : authorize (env_with "90001") [] empty_matrix ≡ raise bad_limit
unfolding authorize tugling.Release.Patterns.is_sha tugling.Release.Patterns.is_controller_tag
excess_refused = refl

authorize-IsGranted_example : IsGranted granted
authorize-IsGranted_example =
    authorize-IsGranted (env_with "80000") [] empty_matrix granted dispatch_granted
