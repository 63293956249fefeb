-- ===== src/Release/Delivery.antt =====
-- The evidence that a promotion fetches, in release_evidence.py, and `verify_and_promote` of
-- promote_release.py. What GitHub answers and the files of the archive are observations.
pub mod Protection
pub mod Fetched
pub mod Approved
use Prim.Native.String.{◌++◌ as join}
use tugling.Prelude.{
  ℕ, ℤ, pos, negsuc, String, Bool, true, false, not, ◌&&◌, ◌||◌, List, [], ◌∷◌, Option, none, some,
  map, keep, all, any, length, ltb, leb, ◌==◌, if◌then◌else◌, str_eq,
}
use tugling.Prelude.Except.{Except, ok, raise, require, ◌>>=◌, ◌>>◌}
use tugling.Release.Patterns.{is_sha, is_run_id, is_controller_tag}
use tugling.Release.Report.{ReviewedReleaseError, same_set, is_int}
use tugling.Release.Certificate.{
  Request, Certificate, Envelope, Artifact, Rules, repository_name, file_names, is_text,
  validate_artifact,
}
use tugling.Release.Controller.{ControllerError, Site, Promotion, State, Refs, Promoted, promote}
use tugling.Release.Delivery.Protection.{
  ProtectionError, Environment, ReleasePolicy, Hub, require_protections, require_approval,
}

pub data DeliveryError : Type 0 where
  no_token bad_run_id bad_run bad_archive unattested other_run bad_listing missing_artifact
        bad_artifact :
      DeliveryError
  bad_baseline legacy other_digest unverified_candidate : DeliveryError
  protection : ProtectionError → DeliveryError
  unbound : ReviewedReleaseError → DeliveryError
  controller : ControllerError → DeliveryError

-- A workflow run of GitHub; ids are in their decimal form.
pub record WorkflowRun : Type 0 where
  pub id : Option String
  pub run_attempt : Option ℤ
  pub event : Option String
  pub path : Option String
  pub head_sha : Option String
  pub status : Option String
  pub conclusion : Option String
  pub repository : Option String
  pub head_repository : Option String
  pub head_branch : Option String

pub record ListedArtifact : Type 0 where
  pub name : Option String
  pub expired : Option Bool
  pub id : Option ℤ
  pub size_in_bytes : Option ℤ
  pub run_id : Option String
  pub head_sha : Option String

-- `is_plain`: a regular file, neither a directory nor encrypted.
pub record ArchiveEntry : Type 0 where
  pub filename : String
  pub is_plain : Bool
  pub file_size : ℕ

-- The options of `gh attestation verify` for a file.
pub record AttestationQuery : Type 0 where
  pub file : String
  pub hostname : String
  pub repo : String
  pub signer_workflow : String
  pub signer_digest : String
  pub source_digest : String
  pub source_ref : String
  pub deny_self_hosted_runners : Bool

-- What is downloaded: the run before and after, the artifacts of that name, the archive, the
-- invocations of the statements that `gh attestation verify` finds, where it succeeds, and the files.
pub record Download : Type 0 where
  pub before : WorkflowRun
  pub total_count : Option ℤ
  pub artifacts : List ListedArtifact
  pub entries : List ArchiveEntry
  pub attested : AttestationQuery → Option (List (Option String))
  pub output : Artifact
  pub after : WorkflowRun
  pub rules : Rules

abbrev certify_workflow : String
certify_workflow = ".github/workflows/certify-release.yml"

abbrev pub is_number : ℕ → Option ℤ → Bool
is_number n none = false
is_number n (some z) = is_int n z

abbrev pub tag_of : Option String → String
tag_of none = ""
tag_of (some tag) = tag

abbrev pub is_certification : WorkflowRun → String → String → Bool
is_certification run run_id pin =
    is_text run_id run.id
    && is_number 1 run.run_attempt
    && is_text "workflow_dispatch" run.event
    && is_text certify_workflow run.path
    && is_text pin run.head_sha
    && is_text "completed" run.status
    && is_text "success" run.conclusion
    && is_text repository_name run.repository
    && is_text repository_name run.head_repository
    && is_controller_tag (tag_of run.head_branch)

unfoldable pub require_run : WorkflowRun → String → String → Except DeliveryError String
require_run run run_id pin = do
  require (is_certification run run_id pin) bad_run
  ok (join "refs/tags/" (tag_of run.head_branch))

unfoldable pub unpack : List ArchiveEntry → Except DeliveryError (Unit {0})
unpack entries = do
  require ((length entries == 2) && same_set (map (λ e. e.filename) entries) file_names) bad_archive
  require (all (λ e. e.is_plain && ltb 0 e.file_size && leb e.file_size 262144) entries) bad_archive

-- `https://github.com/{REPOSITORY}/actions/runs/{run_id}/attempts/1`
abbrev pub invocation_of : String → String
invocation_of run_id =
    join "https://github.com/cyyapye/tugling/actions/runs/" (join run_id "/attempts/1")

abbrev pub query_of : String → String → String → AttestationQuery
query_of file pin source_ref = record {
  file = file;
  hostname = "github.com";
  repo = repository_name;
  signer_workflow = join repository_name (join "/" certify_workflow);
  signer_digest = pin;
  source_digest = pin;
  source_ref = source_ref;
  deny_self_hosted_runners = true;
}

unfoldable pub check_statements :
    Option (List (Option String)) → String → Except DeliveryError (Unit {0})
check_statements none run_id = raise unattested
check_statements (some verified) run_id =
    require (any (is_text (invocation_of run_id)) verified) other_run

unfoldable pub verify_attestation :
    Download → String → String → String → String → Except DeliveryError (Unit {0})
unfolding check_statements
verify_attestation d file pin source_ref run_id =
    check_statements (d.attested (query_of file pin source_ref)) run_id

abbrev is_false : Option Bool → Bool
is_false none = false
is_false (some b) = not b

abbrev is_positive : ℕ → Option ℤ → Bool
is_positive bound none = false
is_positive bound (some (pos n)) = ltb 0 n && leb n bound
is_positive bound (some (negsuc n)) = false

abbrev is_id : Option ℤ → Bool
is_id none = false
is_id (some (pos n)) = ltb 0 n
is_id (some (negsuc n)) = false

-- The one artifact of the name, not expired, in bounds and of the run.
unfoldable pub check_artifact :
    List ListedArtifact → String → String → Except DeliveryError (Unit {0})
check_artifact [] run_id pin = raise missing_artifact
check_artifact (a ∷ b ∷ rest) run_id pin = raise missing_artifact
check_artifact (a ∷ []) run_id pin =
    require
      (is_false a.expired
        && is_id a.id
        && is_positive 614400 a.size_in_bytes
        && is_text run_id a.run_id
        && is_text pin a.head_sha)
      bad_artifact

-- `f"certification-{candidate}-{run_id}-1"`
abbrev pub artifact_name : String → String → String
artifact_name candidate run_id =
    join "certification-" (join candidate (join "-" (join run_id "-1")))

abbrev pub lift_unbound : Except ReviewedReleaseError Certificate → Except DeliveryError Certificate
lift_unbound (ok c) = ok c
lift_unbound (raise error) = raise (unbound error)

abbrev pub request_of : String → String → String → Envelope → Request
request_of run_id pin candidate envelope = record {
  repository = repository_name;
  controller_sha = pin;
  candidate_sha = candidate;
  baseline_sha = envelope.request.baseline_sha;
  run_id = run_id;
  run_attempt = pos 1;
  review_sha256 = envelope.request.review_sha256;
}

-- The certificate of the fetched files.
unfoldable pub fetch_verified :
    Download → String → String → String → String → Except DeliveryError Certificate
fetch_verified d run_id pin candidate digest = do
  require (is_run_id run_id) bad_run_id
  source_ref ← require_run d.before run_id pin
  require (is_number (length d.artifacts) d.total_count && leb (length d.artifacts) 100) bad_listing
  check_artifact (keep (λ a. is_text (artifact_name candidate run_id) a.name) d.artifacts) run_id
      pin
  unpack d.entries
  verify_attestation d "certificate.json" pin source_ref run_id
  verify_attestation d "certification.json" pin source_ref run_id
  require (is_sha d.output.envelope.request.baseline_sha) bad_baseline
  require (is_int 2 d.output.envelope.schema_version) legacy
  certificate ←
      lift_unbound (
        validate_artifact d.rules d.output (request_of run_id pin candidate d.output.envelope) none)
  require (str_eq d.output.envelope.certificate_sha256 digest) other_digest
  again ← require_run d.after run_id pin
  ok certificate

-- The latest push run of `verify.yml`, in `require_successful_verify` of certify_release.py.
abbrev pub is_verified : String → List WorkflowRun → Bool
is_verified candidate [] = false
is_verified candidate (run ∷ runs) =
    is_text candidate run.head_sha
    && is_text "main" run.head_branch
    && is_text "push" run.event
    && is_text "completed" run.status
    && is_text "success" run.conclusion

-- The `request` of `verify_and_promote`; `run_id` is the certification's run.
pub record Dispatch : Type 0 where
  pub controller : String
  pub certification_controller : String
  pub candidate : String
  pub version : String
  pub certificate_digest : String
  pub run_id : String

-- Everything around one call of `verify_and_promote`: the token, the run of the workflow itself, and
-- the site of the promotion that it makes.
pub record Delivery : Type 0 where
  pub token : String
  pub run_id : String
  pub hub : Hub
  pub policy : ReleasePolicy
  pub download : Download
  pub verify_runs : List WorkflowRun
  pub site : Site

abbrev pub lift_protection : {A : Type 0} → Except ProtectionError A → Except DeliveryError A
lift_protection (ok a) = ok a
lift_protection (raise error) = raise (protection error)

abbrev pub lift_controller : Except ControllerError State → Except DeliveryError State
lift_controller (ok state) = ok state
lift_controller (raise error) = raise (controller error)

unfoldable pub approve : Delivery → Bool → Environment → Except DeliveryError (Unit {0})
approve d false environment = ok tt
approve d true environment = lift_protection (require_approval d.hub d.run_id environment)

-- The checks before `promote`.
unfoldable pub check_delivery : Delivery → Dispatch → Bool → Except DeliveryError Certificate
check_delivery d request apply = do
  require (not (str_eq d.token "")) no_token
  environment ← lift_protection (require_protections d.hub d.policy)
  approve d apply environment
  certificate ←
      fetch_verified d.download request.run_id request.certification_controller request.candidate
        request.certificate_digest
  require (is_verified request.candidate d.verify_runs) unverified_candidate
  ok certificate

-- The arguments of `promote`: the certificate is the file that was fetched and unpacked.
abbrev pub promotion_of : Delivery → Dispatch → Bool → Promotion
promotion_of d request apply = record {
  controller = request.controller;
  candidate = request.candidate;
  version = request.version;
  certificate = record {
    is_regular = true;
    bytes = d.download.output.certificate_bytes;
    sha256 = d.download.output.file_sha256;
    content = d.download.output.certificate;
  };
  certificate_digest = request.certificate_digest;
  certification_controller = request.certification_controller;
  apply = apply;
}

-- The result, and the refs of the remote after a push that it took.
pub record Delivered : Type 0 where
  pub outcome : Except DeliveryError State
  pub pushed : Option Refs

unfoldable pub verify_and_promote : Delivery → Dispatch → Bool → Delivered
verify_and_promote d request apply = elim (check_delivery d request apply) [
  | raise error ↦ record { outcome = raise error; pushed = none }
  | ok certificate ↦
      let r = promote d.site (promotion_of d request apply) in
      record { outcome = lift_controller r.outcome; pushed = r.pushed }
]
