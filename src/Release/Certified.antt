-- ===== src/Release/Certified.antt =====
-- Certificates of pstack_release.py that are assembled, and what a verified one shows.
use tugling.Prelude.{String, true, ◌&&◌, Option, some, str_eq}
use tugling.Prelude.Except.{ok}
use tugling.Release.Patterns.{is_sha, is_digest, is_timestamp}
use tugling.Release.Report.{
  PluginIdentity, Report, Policy, ReviewedReleaseError, bad_request, not_installed, stale_policy,
  different_content, unsupported_claim, different_installation, bad_timestamp, unexpected_files,
  unbound_artifact, unbounded_file, report_method, report_scope, same_set, is_int, match,
  identifiers, plugin_eq,
}
use tugling.Release.Attempts.{validate_report}
use tugling.Prelude.{◌≡◌, sym, ap, ◌∙◌, subst, eq_refl}
use tugling.Prelude.Except.{require-eq-ok, >>-eq-ok, >>=-ok-then, ok-inj}
use tugling.Prelude.Equality.{same_refl}
use tugling.Release.Accepted.{validate_report-IsReviewed}
use tugling.Release.Certificate.{
  Request, Installation, Certificate, Rules, Files, request_eq, source_eq, install_eq,
  validate_request, is_installed, installed_at, certificate_of, assemble_certificate, check_plugin,
  verify_certificate, read_json, validate_artifact, envelope_of, artifact_of, repository_name,
}

-- What `validate_request` has checked.
record IsRequest (request : Request) : Type 0 where
  candidate : is_sha request.candidate_sha ≡ true
  baseline : is_sha request.baseline_sha ≡ true
  review : is_digest request.review_sha256 ≡ true

request-IsRequest : (request : Request) → validate_request request ≡ ok tt → IsRequest request
unfolding validate_request
request-IsRequest request h =
    let (_, h1) =
      require-eq-ok (str_eq request.repository repository_name && is_int 1 request.run_attempt)
        bad_request _ h in
    let (_, h2) =
      require-eq-ok (is_sha request.controller_sha) tugling.Release.Report.bad_match _ h1 in
    let (candidate, h3) =
      require-eq-ok (is_sha request.candidate_sha) tugling.Release.Report.bad_match _ h2 in
    let (baseline, h4) =
      require-eq-ok (is_sha request.baseline_sha) tugling.Release.Report.bad_match _ h3 in
    let (review, h5) =
      require-eq-ok (is_digest request.review_sha256) tugling.Release.Report.bad_match _ h4 in
    record { candidate = candidate; baseline = baseline; review = review }

-- A certificate that `certificate_of` makes of a valid report is verified.
certificate_of-verified :
    (rules : Rules) (now : String) (request : Request) (report : Report)
    → IsRequest request
    → validate_report rules.policy report report.plugin ≡ ok report
    → check_plugin report.plugin ≡ ok tt
    → is_timestamp now ≡ true
    → verify_certificate rules (some report.plugin) (certificate_of rules now request report)
      ≡ ok (certificate_of rules now request report)
unfolding verify_certificate certificate_of
certificate_of-verified rules now request report r reviewed plugin time = simp (
  eq_refl rules.sha256,
  r.review,
  plugin,
  eq_refl report.plugin.version,
  same_refl report.plugin,
  reviewed,
  r.candidate,
  r.baseline,
  same_refl (installed_at request.candidate_sha),
  time,
)

report-same :
    (policy : Policy) (report accepted : Report)
    → validate_report policy report report.plugin ≡ ok accepted
    → validate_report policy report report.plugin ≡ ok report
report-same policy report accepted h =
    h ∙ ap ok (sym (validate_report-IsReviewed policy report accepted report.plugin h).0)

artifact-validated :
    (rules : Rules) (files : Files) (request : Request) (current : Option PluginIdentity)
    (c : Certificate)
    → validate_request request ≡ ok tt
    → verify_certificate rules current c ≡ ok c
    → read_json (files.size c) c ≡ ok c
    → read_json (files.envelope_size (envelope_of files request c)) (envelope_of files request c)
      ≡ ok (envelope_of files request c)
    → str_eq c.review_sha256 request.review_sha256 ≡ true
    → str_eq c.behavioral.evaluated_revision request.candidate_sha ≡ true
    → str_eq c.behavioral.released_revision request.baseline_sha ≡ true
    → validate_artifact rules (artifact_of files request c) request current ≡ ok c
unfolding validate_artifact artifact_of
artifact-validated rules files request current c valid verified small short review candidate
      baseline =
    simp (
      valid,
      small,
      verified,
      short,
      same_refl request,
      eq_refl (files.digest c),
      eq_refl c.created_at,
      review,
      candidate,
      baseline,
    )

-- The checks before a certificate is made, and what is made of them.
assemble-facts :
    (rules : Rules) (now : String) (request : Request) (report : Report) (install : Installation)
    (c : Certificate)
    → assemble_certificate rules now request report install ≡ ok c
    → (validate_request request ≡ ok tt)
      × (validate_report rules.policy report report.plugin ≡ ok report)
      × (is_installed request report install ≡ true)
      × (certificate_of rules now request report ≡ c)
unfolding assemble_certificate
assemble-facts rules now request report install c h =
    let (valid, h1) = >>-eq-ok (validate_request request) _ h in
    >>=-ok-then (validate_report rules.policy report report.plugin) _ h1 (λ accepted reviewed h2.
      let (installed, h3) =
        require-eq-ok (is_installed request report install) not_installed _ h2 in
      (valid, report-same rules.policy report accepted reviewed, installed, ok-inj h3))

-- A certificate that `assemble_certificate` makes is validated from the files that `certify` writes,
-- for the same request and package: where the package has a lawful identity, the time its form, and
-- the two files are not empty and within 256 KiB.
pub assemble-validate_artifact :
    (rules : Rules) (files : Files) (now : String) (request : Request) (report : Report)
    (install : Installation) (c : Certificate)
    → check_plugin report.plugin ≡ ok tt
    → is_timestamp now ≡ true
    → read_json (files.size c) c ≡ ok c
    → read_json (files.envelope_size (envelope_of files request c)) (envelope_of files request c)
      ≡ ok (envelope_of files request c)
    → assemble_certificate rules now request report install ≡ ok c
    → validate_artifact rules (artifact_of files request c) request (some report.plugin) ≡ ok c
unfolding certificate_of
assemble-validate_artifact rules files now request report install c plugin time small short h =
    let (valid, reviewed, installed, made) = assemble-facts rules now request report install c h in
    let verified =
      certificate_of-verified rules now request report (request-IsRequest request valid) reviewed
        plugin time in
    artifact-validated rules files request (some report.plugin) c valid
      (subst (λ x. verify_certificate rules (some report.plugin) x ≡ ok x) made verified) small
      short
      (subst (λ x. str_eq x.review_sha256 request.review_sha256 ≡ true) made
        (eq_refl request.review_sha256))
      (subst (λ x. str_eq x.behavioral.evaluated_revision request.candidate_sha ≡ true) made
        (eq_refl request.candidate_sha))
      (subst (λ x. str_eq x.behavioral.released_revision request.baseline_sha ≡ true) made
        (eq_refl request.baseline_sha))
