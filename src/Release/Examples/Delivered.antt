-- ===== src/Release/Examples/Delivered.antt =====
-- A concrete call of `verify_and_promote` of promote_release.py, and the theorem's use on it.
use tugling.Prelude.{
  ℕ, pos, String, true, false, List, [], ◌∷◌, Option, none, some, ◌≡◌, refl, ap, str_eq,
  if◌then◌else◌,
}
use tugling.Prelude.Except.{ok, raise}
use tugling.Prelude.Equality.{same, String-discrete}
use native.Mathlib.Decide.{ℕ_discrete}
use tugling.Release.Controller.{Promoted}
use tugling.Release.Delivery.Protection.{
  Ruleset, ExpectedRuleset, ProtectionRule, Environment, Deployment, ReleasePolicy, Approval, Hub,
  require_protections, not_approved,
}
use tugling.Release.Delivery.{
  WorkflowRun, ListedArtifact, ArchiveEntry, Download, invocation_of, Dispatch, Delivery, Delivered,
  check_delivery, verify_and_promote, protection,
}
use tugling.Release.Delivery.Approved.{IsDelivered, verify_and_promote-IsDelivered}
use tugling.Release.Examples.{
  digest_b, sha_a, sha_c, sample_rules, sample_certificate, sample_artifact,
}
use tugling.Release.Examples.Promotion.{
  sample_site, sample_promoted, sample_push-IsGitPush, pushed_refs,
}

abbrev sample_policy : ReleasePolicy
sample_policy = record {
  rulesets =
      record {
        name = "stable";
        target = "branch";
        enforcement = "active";
        conditions = "c";
        rule_types = "deletion" ∷ [];
        bypass_actors = "[]";
      }
      ∷ [];
  environment_name = "release";
  branch_policy = "tags";
  reviewers = "[u]";
  deployment_policy = "controller-*";
  audit_environment_name = "audit";
}

abbrev closed_environment : String → ℕ → Environment
closed_environment name id = record {
  id = id;
  name = some name;
  can_admins_bypass = some false;
  branch_policy = some "tags";
  rules =
      record {
        type = some "required_reviewers";
        prevent_self_review = some false;
        reviewers = "[u]";
      }
      ∷ [];
}

abbrev hub_with : List Approval → Hub
hub_with approvals = record {
  visibility = some "public";
  listing = (some "stable", 5) ∷ [];
  ruleset_of = λ id. record {
    name = some "stable";
    target = some "branch";
    enforcement = some "active";
    conditions = some "c";
    rule_types = "deletion" ∷ [];
    bypass_actors = some "[]";
  };
  environment = λ name.
      if str_eq name "release"
      then closed_environment "release" 7
      else closed_environment "audit" 8;
  deployment = λ name. record { total_count = some (pos 1); branch_policies = "controller-*" ∷ [] };
  approvals = λ run_id. if str_eq run_id "18" then approvals else [];
}

abbrev sample_approval : Approval
sample_approval = record { state = some "approved"; user_id = some 4515813; environments = 7 ∷ [] }

abbrev run_of : String → String → String → WorkflowRun
run_of sha branch event = record {
  id = some "17";
  run_attempt = some (pos 1);
  event = some event;
  path = some ".github/workflows/certify-release.yml";
  head_sha = some sha;
  status = some "completed";
  conclusion = some "success";
  repository = some "cyyapye/tugling";
  head_repository = some "cyyapye/tugling";
  head_branch = some branch;
}

abbrev sample_download : Download
sample_download = record {
  before = run_of sha_a "controller-v1" "workflow_dispatch";
  total_count = some (pos 1);
  artifacts =
      record {
        name = some "certification-cccccccccccccccccccccccccccccccccccccccc-17-1";
        expired = some false;
        id = some (pos 3);
        size_in_bytes = some (pos 4000);
        run_id = some "17";
        head_sha = some sha_a;
      }
      ∷ [];
  entries =
      record { filename = "certificate.json"; is_plain = true; file_size = 9000 }
      ∷ record { filename = "certification.json"; is_plain = true; file_size = 700 }
      ∷ [];
  attested = λ q.
      if str_eq q.source_ref "refs/tags/controller-v1"
      then some (some (invocation_of "17") ∷ [])
      else none;
  output = sample_artifact;
  after = run_of sha_a "controller-v1" "workflow_dispatch";
  rules = sample_rules;
}

abbrev sample_dispatch : Dispatch
sample_dispatch = record {
  controller = sha_a;
  certification_controller = sha_a;
  candidate = sha_c;
  version = "1.2.3";
  certificate_digest = digest_b;
  run_id = "17";
}

abbrev delivery_with : List Approval → Delivery
delivery_with approvals = record {
  token = "t";
  run_id = "18";
  hub = hub_with approvals;
  policy = sample_policy;
  download = sample_download;
  verify_runs = run_of sha_c "main" "push" ∷ [];
  site = sample_site;
}

sample_checked :
    check_delivery (delivery_with (sample_approval ∷ [])) sample_dispatch true
    ≡ ok sample_certificate
unfolding check_delivery require_protections tugling.Release.Delivery.approve
    tugling.Release.Delivery.Protection.require_approval tugling.Release.Patterns.is_run_id
    tugling.Release.Delivery.fetch_verified tugling.Release.Delivery.require_run
    tugling.Release.Delivery.check_artifact tugling.Release.Delivery.unpack
    tugling.Release.Delivery.verify_attestation tugling.Release.Delivery.check_statements
    tugling.Release.Patterns.is_controller_tag tugling.Release.Patterns.is_sha
    tugling.Release.Patterns.is_digest tugling.Release.Patterns.is_identifier
    tugling.Release.Patterns.is_runtime_name tugling.Release.Patterns.is_timestamp
    tugling.Release.Patterns.is_version tugling.Release.Certificate.artifact_of
    tugling.Release.Certificate.validate_artifact tugling.Release.Certificate.validate_request
    tugling.Release.Certificate.verify_certificate tugling.Release.Certificate.check_plugin
    tugling.Release.Certificate.Request-discrete
    tugling.Release.Certificate.CertifiedInstall-discrete tugling.Release.Attempts.validate_report
    same String-discrete ℕ_discrete tugling.Prelude.Equality.ℤ-discrete
    tugling.Release.Report.PluginIdentity-discrete tugling.Project.Map.argv_eq
sample_checked = refl

sample_pushed :
    (verify_and_promote (delivery_with (sample_approval ∷ [])) sample_dispatch true).pushed
    ≡ some pushed_refs
unfolding verify_and_promote tugling.Release.Certificate.artifact_of
sample_pushed =
    rw (verify_and_promote, sample_checked) (ap (λ (r : Promoted). r.pushed) sample_promoted)

-- Without the maintainer's approval, nothing is pushed.
unapproved_refused :
    verify_and_promote (delivery_with []) sample_dispatch true
    ≡ record { outcome = raise (protection not_approved); pushed = none }
unfolding verify_and_promote check_delivery require_protections tugling.Release.Delivery.approve
    tugling.Release.Delivery.Protection.require_approval tugling.Release.Patterns.is_run_id
unapproved_refused = refl

verify_and_promote-IsDelivered_example :
    IsDelivered (delivery_with (sample_approval ∷ [])) sample_dispatch true pushed_refs
verify_and_promote-IsDelivered_example =
    verify_and_promote-IsDelivered (delivery_with (sample_approval ∷ [])) sample_dispatch true
      pushed_refs sample_push-IsGitPush sample_pushed
