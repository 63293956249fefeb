-- ===== src/Release/Examples.antt =====
-- A concrete review, certificate and promotion: tests, and each theorem's use on them.
mod Promotion
mod Delivered
mod Authorized
use tugling.Prelude.{
  ℕ, ℤ, pos, String, Bool, true, false, List, [], ◌∷◌, ◌++◌, Option, none, some, ◌≡◌, refl, str_eq,
  if◌then◌else◌,
}
use tugling.Prelude.Except.{Except, ok, raise}
use tugling.Prelude.Equality.{same, String-discrete}
use native.Mathlib.Decide.{ℕ_discrete}
use tugling.Release.Report.{
  PluginIdentity, EvidenceSet, ObservedRuntime, Criteria, Usage, ReviewedAttempt, Review, Report,
  Policy, all_areas, environments, required_limits, extra_limits, report_method, report_scope,
  unmatched_failure,
}
use tugling.Release.Attempts.{validate_report}
use tugling.Prelude.{keep, not, map}
use tugling.Release.Patterns.{is_timestamp}
use tugling.Release.Accepted.{IsReviewed, validate_report-IsReviewed}
use tugling.Release.Certificate.{
  Request, Installation, Certificate, Artifact, Rules, Files, repository_name, codex_cli,
  check_names, install_checks, exact_source, installed_at, validate_request, assemble_certificate,
  check_plugin, verify_certificate, validate_artifact, artifact_of,
}
use tugling.Release.Certified.{assemble-validate_artifact}
use tugling.Release.Bound.{
  IsCertified, verify_certificate-IsCertified, IsBound, validate_artifact-IsBound,
}

abbrev pub digest_b : String
digest_b = "bbbbbbbbbbbbbbbbbbbbbbbbbbbbbbbbbbbbbbbbbbbbbbbbbbbbbbbbbbbbbbbb"

abbrev pub sha_a : String
sha_a = "aaaaaaaaaaaaaaaaaaaaaaaaaaaaaaaaaaaaaaaa"

abbrev pub sha_c : String
sha_c = "cccccccccccccccccccccccccccccccccccccccc"

abbrev pub sample_plugin : PluginIdentity
sample_plugin = record {
  name = "tugling";
  version = "1.2.3";
  content_sha256 = digest_b;
  skills = "setup" ∷ [];
}

abbrev sample_attempt :
    String → List String → String → Criteria → String → String → Option String → ReviewedAttempt
sample_attempt id areas environment criteria outcome kind by = record {
  id = id;
  scenario = "authoring";
  areas = areas;
  runtime = "cli";
  environment = environment;
  evidence_set = "first";
  evidence_sha256 = digest_b;
  task_sha256 = digest_b;
  criteria = criteria;
  outcome = outcome;
  failure_kind = kind;
  resolved_by = by;
  usage = record { input_tokens = pos 10; cached_input_tokens = pos 4; output_tokens = pos 2 };
  timeout_seconds = pos 60;
}

-- A failure that the second attempt repeats, and a pass of every area.
abbrev sample_attempts : List ReviewedAttempt
sample_attempts =
    sample_attempt "one" ("skill-authoring" ∷ []) "workspace-write"
      (record { passed = pos 1; failed = pos 1 }) "failed" "environment" (some "two")
    ∷ sample_attempt "two" ("skill-authoring" ∷ []) "scoped-skill-directory"
        (record { passed = pos 2; failed = pos 0 }) "passed" "none" none
    ∷ sample_attempt "three" all_areas "workspace-write" (record { passed = pos 3; failed = pos 0 })
        "passed" "none" none
    ∷ []

abbrev report_with : List ReviewedAttempt → Report
report_with attempts = record {
  schema_version = pos 1;
  method = report_method;
  scope = report_scope;
  plugin = sample_plugin;
  upstream_revision = sha_a;
  evidence_sets =
      record {
        id = "first";
        manifest_sha256 = digest_b;
        attempt_ids = "one" ∷ "two" ∷ "three" ∷ [];
      }
      ∷ [];
  runtimes =
      record {
        id = "cli";
        codex_version = "codex-cli 0.153.4";
        model = "m1";
        reasoning_effort = "high";
      }
      ∷ [];
  attempts = attempts;
  review = record {
    method = "blind-output-plus-parent-trace";
    reviewer_family = "same-family";
    evidence_sha256 = digest_b;
    trace_audit_sha256 = digest_b;
    unresolved_criteria = pos 0;
  };
  limitations = required_limits ++ extra_limits;
}

abbrev sample_report : Report
sample_report = report_with sample_attempts

abbrev sample_policy : Policy
sample_policy = record {
  schema_version = pos 1;
  method = report_method;
  scope = report_scope;
  required_areas = all_areas;
  allowed_environments = environments;
  required_limitations = required_limits;
  allowed_limitations = required_limits ++ extra_limits;
}

sample_report_accepted :
    validate_report sample_policy sample_report sample_plugin ≡ ok sample_report
unfolding validate_report same String-discrete ℕ_discrete
    tugling.Release.Report.PluginIdentity-discrete tugling.Release.Patterns.is_identifier
    tugling.Release.Patterns.is_sha tugling.Release.Patterns.is_digest
    tugling.Release.Patterns.is_runtime_name tugling.Project.Map.argv_eq
sample_report_accepted = refl

validate_report-IsReviewed_example :
    (sample_report ≡ sample_report) × IsReviewed sample_report sample_plugin
validate_report-IsReviewed_example =
    validate_report-IsReviewed sample_policy sample_report sample_report sample_plugin
      sample_report_accepted

-- Without the later pass, a failure is refused.
abbrev unresolved_report : Report
unresolved_report = record (report_with (keep (λ a. not (str_eq a.id "two")) sample_attempts)) {
  evidence_sets =
      record { id = "first"; manifest_sha256 = digest_b; attempt_ids = "one" ∷ "three" ∷ [] } ∷ [];
}

unresolved_report_refused :
    validate_report sample_policy unresolved_report sample_plugin ≡ raise unmatched_failure
unfolding validate_report same String-discrete ℕ_discrete
    tugling.Release.Report.PluginIdentity-discrete tugling.Release.Patterns.is_identifier
    tugling.Release.Patterns.is_sha tugling.Release.Patterns.is_digest
    tugling.Release.Patterns.is_runtime_name tugling.Project.Map.argv_eq
unresolved_report_refused = refl

abbrev pub sample_rules : Rules
sample_rules = record { policy = sample_policy; sha256 = digest_b }

abbrev pub sample_request : Request
sample_request = record {
  repository = repository_name;
  controller_sha = sha_a;
  candidate_sha = sha_c;
  baseline_sha = sha_a;
  run_id = "17";
  run_attempt = pos 1;
  review_sha256 = digest_b;
}

abbrev sample_install : Installation
sample_install = record {
  passed = true;
  mode = "public-cli";
  plugin = sample_plugin;
  live_ran = some false;
  codex_version = some codex_cli;
  source = some (exact_source sha_c);
  checks = map (λ name. (name, true)) install_checks;
}

abbrev sample_time : String
sample_time = "2026-01-01T00:00:00+00:00"

abbrev pub sample_certificate : Certificate
sample_certificate = record {
  schema_version = pos 2;
  version = "1.2.3";
  created_at = sample_time;
  passed = true;
  checks = map (λ name. (name, true)) check_names;
  plugin = sample_plugin;
  policy_sha256 = digest_b;
  review_sha256 = digest_b;
  review = sample_report;
  behavioral = record {
    method = report_method;
    scope = report_scope;
    evaluated_revision = sha_c;
    released_revision = sha_a;
  };
  clean_room = installed_at sha_c;
}

abbrev sample_files : Files
sample_files = record { digest = λ c. digest_b; size = λ c. 9000; envelope_size = λ e. 700 }

sample_assembled :
    assemble_certificate sample_rules sample_time sample_request sample_report sample_install
    ≡ ok sample_certificate
unfolding assemble_certificate validate_request tugling.Release.Patterns.is_run_id
    tugling.Release.Certificate.InstallSource-discrete validate_report same String-discrete
    ℕ_discrete tugling.Release.Report.PluginIdentity-discrete tugling.Release.Patterns.is_identifier
    tugling.Release.Patterns.is_sha tugling.Release.Patterns.is_digest
    tugling.Release.Patterns.is_runtime_name tugling.Project.Map.argv_eq
sample_assembled = refl

sample_plugin_lawful : check_plugin sample_plugin ≡ ok tt
unfolding check_plugin tugling.Release.Patterns.is_version tugling.Release.Patterns.is_digest
    tugling.Release.Patterns.is_identifier
sample_plugin_lawful = refl

sample_time_lawful : is_timestamp sample_time ≡ true
unfolding is_timestamp
sample_time_lawful = refl

assemble-validate_artifact_example :
    validate_artifact sample_rules
      (artifact_of sample_files sample_request sample_certificate)
      sample_request
      (some sample_plugin)
    ≡ ok sample_certificate
assemble-validate_artifact_example =
    assemble-validate_artifact sample_rules sample_files sample_time sample_request sample_report
      sample_install sample_certificate sample_plugin_lawful sample_time_lawful refl refl
      sample_assembled

sample_validated :
    validate_artifact sample_rules
      (artifact_of sample_files sample_request sample_certificate)
      sample_request
      (some sample_plugin)
    ≡ ok sample_certificate
sample_validated =
    assemble-validate_artifact sample_rules sample_files sample_time sample_request sample_report
      sample_install sample_certificate sample_plugin_lawful sample_time_lawful refl refl
      sample_assembled

abbrev pub sample_artifact : Artifact
sample_artifact = artifact_of sample_files sample_request sample_certificate

validate_artifact-IsBound_example :
    (sample_artifact.certificate ≡ sample_certificate)
    × IsBound sample_rules sample_artifact sample_request sample_plugin sample_certificate
validate_artifact-IsBound_example =
    validate_artifact-IsBound sample_rules sample_artifact sample_request (some sample_plugin)
      sample_certificate sample_validated

pub sample_verified :
    verify_certificate sample_rules (some sample_plugin) sample_certificate ≡ ok sample_certificate
unfolding verify_certificate check_plugin tugling.Release.Patterns.is_version is_timestamp
    tugling.Release.Certificate.CertifiedInstall-discrete validate_report same String-discrete
    ℕ_discrete tugling.Release.Report.PluginIdentity-discrete tugling.Release.Patterns.is_identifier
    tugling.Release.Patterns.is_sha tugling.Release.Patterns.is_digest
    tugling.Release.Patterns.is_runtime_name tugling.Project.Map.argv_eq
sample_verified = refl

verify_certificate-IsCertified_example :
    (sample_certificate ≡ sample_certificate)
    × IsCertified sample_rules sample_plugin sample_certificate
verify_certificate-IsCertified_example =
    verify_certificate-IsCertified sample_rules (some sample_plugin) sample_certificate
      sample_certificate sample_verified
