-- ===== src/Release/Certificate.antt =====
-- The certificate of pstack_release.py: how it is assembled, verified and bound to its request.
use tugling.Prelude.{
  ◌≡◌, ap, eq_iff, ℕ, ℤ, pos, String, Bool, true, false, not, ◌&&◌, List, [], ◌∷◌, Option, none,
  some, map, all, ltb, leb, str_eq,
}
use tugling.Prelude.Except.{Except, ok, require, ◌>>=◌, ◌>>◌}
use tugling.Prelude.Equality.{Eq, same, String-discrete, ℤ-discrete}
use native.Mathlib.Decide.{ℕ_discrete}
use tugling.Release.Patterns.{is_sha, is_digest, is_version, is_run_id, is_timestamp}
use tugling.Release.Report.{
  PluginIdentity, Report, Policy, ReviewedReleaseError, bad_request, not_installed, stale_policy,
  different_content, unsupported_claim, different_installation, bad_timestamp, unexpected_files,
  unbound_artifact, unbounded_file, report_method, report_scope, same_set, is_int, match,
  identifiers, plugin_eq,
}
use tugling.Release.Attempts.{validate_report}

pub record Request : Type 0 where
  pub repository : String
  pub controller_sha : String
  pub candidate_sha : String
  pub baseline_sha : String
  pub run_id : String
  pub run_attempt : ℤ
  pub review_sha256 : String

pub record InstallSource : Type 0 where
  pub repository : String
  pub requested_revision : String
  pub resolved_revision : String
  pub expected_revision : String

-- The report of the public installation. `live`, `codex` and `source` are there only with exactly
-- the fields that they are compared with.
pub record Installation : Type 0 where
  pub passed : Bool
  pub mode : String
  pub plugin : PluginIdentity
  pub live_ran : Option Bool
  pub codex_version : Option String
  pub source : Option InstallSource
  pub checks : List (String × Bool)

pub record CertifiedScope : Type 0 where
  pub method : String
  pub scope : String
  pub evaluated_revision : String
  pub released_revision : String

pub record CertifiedInstall : Type 0 where
  pub mode : String
  pub revision : String
  pub codex_version : String
  pub model_called : Bool

pub record Certificate : Type 0 where
  pub schema_version : ℤ
  pub version : String
  pub created_at : String
  pub passed : Bool
  pub checks : List (String × Bool)
  pub plugin : PluginIdentity
  pub policy_sha256 : String
  pub review_sha256 : String
  pub review : Report
  pub behavioral : CertifiedScope
  pub clean_room : CertifiedInstall

pub record Envelope : Type 0 where
  pub request : Request
  pub schema_version : ℤ
  pub state : String
  pub created_at : String
  pub certificate_sha256 : String

-- The directory that `certify` writes, with the digest of its certificate's file and the bytes of
-- its two files.
pub record Artifact : Type 0 where
  pub names : List String
  pub certificate : Certificate
  pub envelope : Envelope
  pub file_sha256 : String
  pub certificate_bytes : ℕ
  pub envelope_bytes : ℕ

-- The review policy of this checkout and the digest of its file.
pub record Rules : Type 0 where
  pub policy : Policy
  pub sha256 : String

unfoldable pub Request-discrete : Discrete Request
Request-discrete = hlevel (ℕ_discrete, String-discrete, ℤ-discrete)

unfoldable pub InstallSource-discrete : Discrete (Option InstallSource)
InstallSource-discrete = hlevel (ℕ_discrete, String-discrete)

unfoldable pub CertifiedInstall-discrete : Discrete CertifiedInstall
CertifiedInstall-discrete = hlevel (ℕ_discrete, String-discrete)

instance abbrev pub request_eq : Eq Request
request_eq = record { discrete = Request-discrete }

instance abbrev pub source_eq : Eq (Option InstallSource)
source_eq = record { discrete = InstallSource-discrete }

instance abbrev pub install_eq : Eq CertifiedInstall
install_eq = record { discrete = CertifiedInstall-discrete }

abbrev pub repository_name : String
repository_name = "cyyapye/tugling"

-- `f"codex-cli {legacy.CODEX_VERSION}"`
abbrev pub codex_cli : String
codex_cli = "codex-cli 0.153.4"

-- `sorted(CHECKS)`
abbrev pub check_names : List String
check_names =
    "attributed_sources" ∷ "exact_package" ∷ "fresh_public_install" ∷ "fresh_refs" ∷ "public_policy"
    ∷ "reviewed_controller" ∷ "reviewed_workflows" ∷ "successful_verify" ∷ []

abbrev pub install_checks : List String
install_checks =
    "marketplace_add" ∷ "plugin_add" ∷ "exact_public_revision" ∷ "isolated_install_path"
    ∷ "marketplace_package_matches_candidate" ∷ "installed_plugin_matches_candidate" ∷ []

abbrev pub all_hold : List (String × Bool) → Bool
all_hold checks = all (λ c. c.1) checks

abbrev pub names_of : List (String × Bool) → List String
names_of checks = map (λ c. c.0) checks

unfoldable pub validate_request : Request → Except ReviewedReleaseError (Unit {0})
validate_request request = do
  require (str_eq request.repository repository_name && is_int 1 request.run_attempt) bad_request
  match is_sha request.controller_sha
  match is_sha request.candidate_sha
  match is_sha request.baseline_sha
  match is_digest request.review_sha256
  match is_run_id request.run_id

abbrev pub exact_source : String → InstallSource
exact_source revision = record {
  repository = repository_name;
  requested_revision = revision;
  resolved_revision = revision;
  expected_revision = revision;
}

abbrev pub is_text : String → Option String → Bool
is_text s none = false
is_text s (some t) = str_eq t s

pub is_text-eq : (s : String) (o : Option String) → is_text s o ≡ true → o ≡ some s
is_text-eq s none h = absurd (cc)
is_text-eq s (some t) h = ap some ((eq_iff t s).0 h)

-- `{"ran": False}`
abbrev pub not_run : Option Bool → Bool
not_run none = false
not_run (some ran) = not ran

abbrev pub is_installed : Request → Report → Installation → Bool
is_installed request report install =
    install.passed
    && str_eq install.mode "public-cli"
    && same install.plugin report.plugin
    && not_run install.live_ran
    && is_text codex_cli install.codex_version
    && same install.source (some (exact_source request.candidate_sha))
    && same_set (names_of install.checks) install_checks
    && all_hold install.checks

-- `behavior["evaluated_revision"]` as it was installed.
abbrev pub installed_at : String → CertifiedInstall
installed_at revision = record {
  mode = "public-cli";
  revision = revision;
  codex_version = codex_cli;
  model_called = false;
}

unfoldable pub certificate_of : Rules → String → Request → Report → Certificate
certificate_of rules now request report = record {
  schema_version = pos 2;
  version = report.plugin.version;
  created_at = now;
  passed = true;
  checks = map (λ name. (name, true)) check_names;
  plugin = report.plugin;
  policy_sha256 = rules.sha256;
  review_sha256 = request.review_sha256;
  review = report;
  behavioral = record {
    method = report_method;
    scope = report_scope;
    evaluated_revision = request.candidate_sha;
    released_revision = request.baseline_sha;
  };
  clean_room = installed_at request.candidate_sha;
}

-- `now` is the time as text.
unfoldable pub assemble_certificate :
    Rules → String → Request → Report → Installation → Except ReviewedReleaseError Certificate
unfolding validate_request certificate_of
assemble_certificate rules now request report install = do
  validate_request request
  reviewed ← validate_report rules.policy report report.plugin
  require (is_installed request report install) not_installed
  ok (certificate_of rules now request report)

abbrev pub or_own : Option PluginIdentity → Certificate → PluginIdentity
or_own none certificate = certificate.plugin
or_own (some plugin) certificate = plugin

-- What `verify_certificate` asks of the identity of the plugin.
unfoldable pub check_plugin : PluginIdentity → Except ReviewedReleaseError (Unit {0})
unfolding identifiers
check_plugin plugin = do
  match is_version plugin.version
  match is_digest plugin.content_sha256
  skills ← identifiers none plugin.skills
  require (str_eq plugin.name "tugling") different_content

-- `current` is the identity of the package at `package_source_root`, if that is given.
unfoldable pub verify_certificate :
    Rules → Option PluginIdentity → Certificate → Except ReviewedReleaseError Certificate
verify_certificate rules current certificate = do
  require
      (is_int 2 certificate.schema_version
        && certificate.passed
        && str_eq certificate.policy_sha256 rules.sha256
        && same_set (names_of certificate.checks) check_names
        && all_hold certificate.checks)
      stale_policy
  match is_digest certificate.review_sha256
  check_plugin (or_own current certificate)
  require
      (str_eq certificate.version (or_own current certificate).version
        && same certificate.plugin (or_own current certificate))
      different_content
  reviewed ← validate_report rules.policy certificate.review (or_own current certificate)
  require
      (str_eq certificate.behavioral.method report_method
        && str_eq certificate.behavioral.scope report_scope)
      unsupported_claim
  match is_sha certificate.behavioral.evaluated_revision
  match is_sha certificate.behavioral.released_revision
  require (same certificate.clean_room (installed_at certificate.behavioral.evaluated_revision))
      different_installation
  require (is_timestamp certificate.created_at) bad_timestamp
  ok certificate

abbrev pub file_names : List String
file_names = "certificate.json" ∷ "certification.json" ∷ []

-- `read_json` of a regular file of so many bytes, whose text is the JSON of `a`.
abbrev pub read_json : {A : Type 0} → ℕ → A → Except ReviewedReleaseError A
read_json bytes a = do require (ltb 0 bytes && leb bytes 262144) unbounded_file; ok a

abbrev pub binds : String → Envelope → Certificate → Request → Bool
binds file_sha256 envelope certificate request =
    is_int 2 envelope.schema_version
    && str_eq envelope.state "CERTIFIED"
    && same envelope.request request
    && str_eq envelope.certificate_sha256 file_sha256
    && str_eq envelope.created_at certificate.created_at
    && str_eq certificate.review_sha256 request.review_sha256
    && str_eq certificate.behavioral.evaluated_revision request.candidate_sha
    && str_eq certificate.behavioral.released_revision request.baseline_sha

unfoldable pub validate_artifact :
    Rules → Artifact → Request → Option PluginIdentity → Except ReviewedReleaseError Certificate
validate_artifact rules output request current = do
  validate_request request
  require (same_set output.names file_names) unexpected_files
  read ← read_json output.certificate_bytes output.certificate
  certificate ← verify_certificate rules current read
  envelope ← read_json output.envelope_bytes output.envelope
  require (binds output.file_sha256 envelope certificate request) unbound_artifact
  ok certificate

-- The JSON of a value as a file: its digest and its size.
pub record Files : Type 0 where
  pub digest : Certificate → String
  pub size : Certificate → ℕ
  pub envelope_size : Envelope → ℕ

-- The envelope that `certify` writes.
abbrev pub envelope_of : Files → Request → Certificate → Envelope
envelope_of files request certificate = record {
  request = request;
  schema_version = pos 2;
  state = "CERTIFIED";
  created_at = certificate.created_at;
  certificate_sha256 = files.digest certificate;
}

-- The two files that `certify` writes.
unfoldable pub artifact_of : Files → Request → Certificate → Artifact
artifact_of files request certificate = record {
  names = file_names;
  certificate = certificate;
  envelope = envelope_of files request certificate;
  file_sha256 = files.digest certificate;
  certificate_bytes = files.size certificate;
  envelope_bytes = files.envelope_size (envelope_of files request certificate);
}
