-- ===== src/Release/Bound.antt =====
-- What a certificate and an artifact that pstack_release.py accepts show.
use tugling.Prelude.{ℕ, String, true, ◌&&◌, Option, ltb, leb, str_eq}
use tugling.Prelude.Except.{ok}
use tugling.Prelude.Equality.{same}
use tugling.Release.Patterns.{is_sha, is_digest, is_timestamp}
use tugling.Release.Report.{
  PluginIdentity, stale_policy, different_content, unsupported_claim, different_installation,
  bad_timestamp, unexpected_files, unbound_artifact, unbounded_file, report_method, report_scope,
  same_set, is_int, plugin_eq,
}
use tugling.Release.Attempts.{validate_report}
use tugling.Prelude.{◌≡◌, ap, ◌∙◌, subst, arith, eq_iff}
use tugling.Prelude.Except.{require-eq-ok, >>-eq-ok, >>=-ok-then, ok-inj}
use tugling.Prelude.Equality.{same-eq}
use tugling.Release.Report.{bad_match}
use tugling.Release.Accepted.{IsReviewed, validate_report-IsReviewed}
use tugling.Release.Certificate.{
  Request, CertifiedInstall, Certificate, Envelope, Artifact, Rules, request_eq, source_eq,
  install_eq, check_names, all_hold, names_of, validate_request, installed_at, check_plugin,
  verify_certificate, read_json, validate_artifact, binds, or_own, file_names,
}

-- A certificate of the plugin: every check held, under the present policy, of a report reviewed for
-- this plugin, and of an installation of the revision that was evaluated.
pub record IsCertified (rules : Rules) (plugin : PluginIdentity) (c : Certificate) : Type 0 where
  pub current : c.plugin ≡ plugin
  pub version : c.version ≡ plugin.version
  pub policy : c.policy_sha256 ≡ rules.sha256
  pub passed : all_hold c.checks ≡ true
  pub complete : same_set (names_of c.checks) check_names ≡ true
  pub reviewed : IsReviewed c.review plugin
  pub installed : c.clean_room ≡ installed_at c.behavioral.evaluated_revision
  pub evaluated : is_sha c.behavioral.evaluated_revision ≡ true
  pub released : is_sha c.behavioral.released_revision ≡ true

-- A certificate that is verified is the one given and a certificate of the package's plugin, or of
-- its own where no package is given: every check held under the present policy, its report was
-- reviewed for that plugin, and the revision that was evaluated was installed.
pub verify_certificate-IsCertified :
    (rules : Rules) (current : Option PluginIdentity) (c verified : Certificate)
    → verify_certificate rules current c ≡ ok verified
    → (c ≡ verified) × IsCertified rules (or_own current c) c
unfolding verify_certificate
verify_certificate-IsCertified rules current c verified h =
    let plugin : PluginIdentity = or_own current c in
    let (shape, h1) =
      require-eq-ok
        (is_int 2 c.schema_version
          && c.passed
          && str_eq c.policy_sha256 rules.sha256
          && same_set (names_of c.checks) check_names
          && all_hold c.checks)
        stale_policy _ h in
    let (_, h2) = require-eq-ok (is_digest c.review_sha256) bad_match _ h1 in
    let (_, h3) = >>-eq-ok (check_plugin plugin) _ h2 in
    let (content, h4) =
      require-eq-ok (str_eq c.version plugin.version && same c.plugin plugin) different_content _
        h3 in
    >>=-ok-then (validate_report rules.policy c.review plugin) _ h4 (λ accepted reviewed h5.
      let (_, h6) =
        require-eq-ok
          (str_eq c.behavioral.method report_method && str_eq c.behavioral.scope report_scope)
          unsupported_claim _ h5 in
      let (evaluated, h7) = require-eq-ok (is_sha c.behavioral.evaluated_revision) bad_match _ h6 in
      let (released, h8) = require-eq-ok (is_sha c.behavioral.released_revision) bad_match _ h7 in
      let (installed, h9) =
        require-eq-ok (same c.clean_room (installed_at c.behavioral.evaluated_revision))
          different_installation _ h8 in
      let (_, h10) = require-eq-ok (is_timestamp c.created_at) bad_timestamp _ h9 in
      (
        ok-inj h10,
        record {
          current = same-eq c.plugin plugin (ground arith);
          version = (eq_iff c.version plugin.version).0 (ground arith);
          policy = (eq_iff c.policy_sha256 rules.sha256).0 (ground arith);
          passed = ground arith;
          complete = ground arith;
          reviewed = (validate_report-IsReviewed rules.policy c.review accepted plugin reviewed).1;
          installed = same-eq c.clean_room (installed_at c.behavioral.evaluated_revision) installed;
          evaluated = evaluated;
          released = released;
        },
      ))

-- What an artifact shows of the request that it is for.
pub record IsBound (rules : Rules) (output : Artifact) (request : Request) (plugin : PluginIdentity)
    (c : Certificate) : Type 0 where
  pub certified : IsCertified rules plugin c
  pub candidate : c.behavioral.evaluated_revision ≡ request.candidate_sha
  pub installed : c.clean_room.revision ≡ request.candidate_sha
  pub baseline : c.behavioral.released_revision ≡ request.baseline_sha
  pub review : c.review_sha256 ≡ request.review_sha256
  pub named : output.envelope.request ≡ request
  pub digest : output.envelope.certificate_sha256 ≡ output.file_sha256

-- What the last test of `validate_artifact` shows.
record Binding (file_sha256 : String) (envelope : Envelope) (c : Certificate) (request : Request)
    : Type 0 where
  named : envelope.request ≡ request
  digest : envelope.certificate_sha256 ≡ file_sha256
  review : c.review_sha256 ≡ request.review_sha256
  candidate : c.behavioral.evaluated_revision ≡ request.candidate_sha
  baseline : c.behavioral.released_revision ≡ request.baseline_sha

binds-Binding :
    (file_sha256 : String) (envelope : Envelope) (c : Certificate) (request : Request)
    → binds file_sha256 envelope c request ≡ true
    → Binding file_sha256 envelope c request
binds-Binding file_sha256 envelope c request h = record {
  named = same-eq envelope.request request (ground arith);
  digest = (eq_iff envelope.certificate_sha256 file_sha256).0 (ground arith);
  review = (eq_iff c.review_sha256 request.review_sha256).0 (ground arith);
  candidate = (eq_iff c.behavioral.evaluated_revision request.candidate_sha).0 (ground arith);
  baseline = (eq_iff c.behavioral.released_revision request.baseline_sha).0 (ground arith);
}

-- An artifact that is validated holds a certificate of the package's plugin, bound to the request:
-- the candidate was evaluated and installed, against the request's baseline and reviewed report,
-- and the envelope names the request and the digest of the certificate's file.
pub validate_artifact-IsBound :
    (rules : Rules) (output : Artifact) (request : Request) (current : Option PluginIdentity)
    (c : Certificate)
    → validate_artifact rules output request current ≡ ok c
    → (output.certificate ≡ c) × IsBound rules output request (or_own current c) c
unfolding validate_artifact
validate_artifact-IsBound rules output request current c h =
    let (_, h1) = >>-eq-ok (validate_request request) _ h in
    let (_, h2) = require-eq-ok (same_set output.names file_names) unexpected_files _ h1 in
    >>=-ok-then (read_json output.certificate_bytes output.certificate) _ h2 (λ read found h3.
      >>=-ok-then (verify_certificate rules current read) _ h3 (λ verified fine h4.
        >>=-ok-then (read_json output.envelope_bytes output.envelope) _ h4 (λ envelope enveloped h5.
          let (bound, h6) =
            require-eq-ok (binds output.file_sha256 envelope verified request) unbound_artifact _
              h5 in
          let b = binds-Binding output.file_sha256 envelope verified request bound in
          let same_certificate : verified ≡ c = ok-inj h6 in
          let (whole, certified) =
            verify_certificate-IsCertified rules current read verified fine in
          let original = read-same output.certificate_bytes output.certificate read found in
          let enveloped_same = read-same output.envelope_bytes output.envelope envelope enveloped in
          let evaluated = b.candidate in
          (
            original ∙ whole ∙ same_certificate,
            subst (λ x. IsBound rules output request (or_own current x) x) same_certificate
                (record {
                  certified = subst (λ x. IsCertified rules (or_own current x) x) whole certified;
                  candidate = evaluated;
                  installed =
                      ap (λ (x : CertifiedInstall). x.revision)
                        (subst
                          (λ (x : Certificate).
                            x.clean_room ≡ installed_at x.behavioral.evaluated_revision)
                          whole certified.installed)
                      ∙ evaluated;
                  baseline = b.baseline;
                  review = b.review;
                  named = ap (λ (x : Envelope). x.request) enveloped_same ∙ b.named;
                  digest = ap (λ (x : Envelope). x.certificate_sha256) enveloped_same ∙ b.digest;
                }),
          ))))
  where
    read-same : {A : Type 0} (bytes : ℕ) (a b : A) → read_json bytes a ≡ ok b → a ≡ b
    read-same bytes a b h =
        let (_, k) = require-eq-ok (ltb 0 bytes && leb bytes 262144) unbounded_file (ok a) h in
        ok-inj k
