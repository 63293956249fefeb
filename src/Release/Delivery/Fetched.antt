-- ===== src/Release/Delivery/Fetched.antt =====
-- What `fetch_verified` of release_evidence.py has found where it returns a certificate.
use tugling.Prelude.{
  String, true, ◌&&◌, Option, none, some, keep, any, length, leb, str_eq, eq_iff, ◌≡◌, List, refl,
  sym, ap, ◌∙◌, subst,
}
use Prim.Native.String.{◌++◌ as join}
use tugling.Prelude.Except.{
  Except, ok, raise, require-eq-ok, require-ok, >>-eq-ok, >>=-ok-then, ok-inj,
}
use tugling.Release.Patterns.{is_sha, is_run_id}
use tugling.Release.Report.{ReviewedReleaseError, is_int}
use tugling.Release.Certificate.{Certificate, Request, is_text, validate_artifact}
use tugling.Release.Bound.{IsBound, validate_artifact-IsBound}
use tugling.Release.Delivery.{
  DeliveryError, no_token, bad_run, other_run, bad_baseline, legacy, other_digest,
  unverified_candidate, protection, WorkflowRun, Download, is_certification, require_run, unpack,
  invocation_of, verify_attestation, check_artifact, artifact_name, lift_unbound, request_of,
  fetch_verified, is_verified, Delivery, lift_protection, lift_controller, approve, check_delivery,
  Delivered, verify_and_promote, is_number, tag_of, query_of, check_statements, Dispatch,
  promotion_of,
}

-- GitHub's attestation of a file: signed by the certification workflow at the pinned commit, from
-- the pinned commit at the tag, not on a self-hosted runner, by the first attempt of the run.
pub record IsAttested (d : Download) (file pin tag run_id : String) : Type 0 where
  pub statements : List (Option String)
  pub verified :
      d.attested (record {
        file = file;
        hostname = "github.com";
        repo = "cyyapye/tugling";
        signer_workflow = "cyyapye/tugling/.github/workflows/certify-release.yml";
        signer_digest = pin;
        source_digest = pin;
        source_ref = join "refs/tags/" tag;
        deny_self_hosted_runners = true;
      })
      ≡ some statements
  pub own : any (is_text (invocation_of run_id)) statements ≡ true

-- A certificate fetched from a certification run of the controller: a successful first attempt also
-- after the download, both files attested for it, and the artifact bound to the candidate.
pub record IsFetched (d : Download) (run_id pin candidate digest : String) (c : Certificate)
    : Type 0 where
  pub before : is_certification d.before run_id pin ≡ true
  pub after : is_certification d.after run_id pin ≡ true
  pub certificate : IsAttested d "certificate.json" pin (tag_of d.before.head_branch) run_id
  pub envelope : IsAttested d "certification.json" pin (tag_of d.before.head_branch) run_id
  pub content : d.output.certificate ≡ c
  pub bound :
      IsBound d.rules d.output (request_of run_id pin candidate d.output.envelope) c.plugin c
  pub digest_ : d.output.file_sha256 ≡ digest

run-is_certification :
    (run : WorkflowRun) (run_id pin ref : String)
    → require_run run run_id pin ≡ ok ref
    → (is_certification run run_id pin ≡ true) × (join "refs/tags/" (tag_of run.head_branch) ≡ ref)
unfolding require_run
run-is_certification run run_id pin ref h =
    let (certified, named) = require-eq-ok (is_certification run run_id pin) bad_run _ h in
    (certified, ok-inj named)

statements-any :
    (o : Option (List (Option String))) (run_id : String)
    → check_statements o run_id ≡ ok tt
    → (verified : List (Option String)) × (o ≡ some verified)
      × (any (is_text (invocation_of run_id)) verified ≡ true)
unfolding check_statements
statements-any none run_id h = absurd (cc)
statements-any (some verified) run_id h = (verified, refl, require-ok _ other_run h)

attestation-IsAttested :
    (d : Download) (file pin tag ref run_id : String)
    → join "refs/tags/" tag ≡ ref
    → verify_attestation d file pin ref run_id ≡ ok tt
    → IsAttested d file pin tag run_id
unfolding verify_attestation
attestation-IsAttested d file pin tag ref run_id named h =
    let (verified, found, own) =
      statements-any (d.attested (query_of file pin (join "refs/tags/" tag))) run_id (
        subst (λ r. check_statements (d.attested (query_of file pin r)) run_id ≡ ok tt) (sym named)
          h) in
    record { statements = verified; verified = found; own = own }

unbound-ok :
    (m : Except ReviewedReleaseError Certificate) (c : Certificate)
    → lift_unbound m ≡ ok c
    → m ≡ ok c
unbound-ok (ok a) c h = ap ok (ok-inj h)
unbound-ok (raise error) c h = absurd (cc)

pub fetch_verified-IsFetched :
    (d : Download) (run_id pin candidate digest : String) (c : Certificate)
    → fetch_verified d run_id pin candidate digest ≡ ok c
    → IsFetched d run_id pin candidate digest c
unfolding fetch_verified
fetch_verified-IsFetched d run_id pin candidate digest c h =
    let request : Request = request_of run_id pin candidate d.output.envelope in
    let (_, h1) = require-eq-ok (is_run_id run_id) tugling.Release.Delivery.bad_run_id _ h in
    >>=-ok-then (require_run d.before run_id pin) _ h1 (λ source_ref before h2.
      let (_, h3) =
        require-eq-ok (is_number (length d.artifacts) d.total_count && leb (length d.artifacts) 100)
          tugling.Release.Delivery.bad_listing _ h2 in
      let (_, h4) =
        >>-eq-ok
          (check_artifact (keep (λ a. is_text (artifact_name candidate run_id) a.name) d.artifacts)
            run_id pin)
          _ h3 in
      let (_, h5) = >>-eq-ok (unpack d.entries) _ h4 in
      let (first, h6) =
        >>-eq-ok (verify_attestation d "certificate.json" pin source_ref run_id) _ h5 in
      let (second, h7) =
        >>-eq-ok (verify_attestation d "certification.json" pin source_ref run_id) _ h6 in
      let (_, h8) =
        require-eq-ok (is_sha d.output.envelope.request.baseline_sha) bad_baseline _ h7 in
      let (_, h9) = require-eq-ok (is_int 2 d.output.envelope.schema_version) legacy _ h8 in
      >>=-ok-then (lift_unbound (validate_artifact d.rules d.output request none)) _ h9
        (λ fetched valid h10.
          let (named, h11) =
            require-eq-ok (str_eq d.output.envelope.certificate_sha256 digest) other_digest _ h10 in
          >>=-ok-then (require_run d.after run_id pin) _ h11 (λ again after h12.
            let same_certificate : fetched ≡ c = ok-inj h12 in
            let named_ref = (run-is_certification d.before run_id pin source_ref before).1 in
            let (content, bound) =
              validate_artifact-IsBound d.rules d.output request none fetched
                (unbound-ok _ fetched valid) in
            record {
              before = (run-is_certification d.before run_id pin source_ref before).0;
              after = (run-is_certification d.after run_id pin again after).0;
              certificate =
                  attestation-IsAttested d "certificate.json" pin _ source_ref run_id named_ref
                    first;
              envelope =
                  attestation-IsAttested d "certification.json" pin _ source_ref run_id named_ref
                    second;
              content = content ∙ same_certificate;
              bound =
                  subst (λ (x : Certificate). IsBound d.rules d.output request x.plugin x)
                    same_certificate bound;
              digest_ =
                  sym bound.digest ∙ (eq_iff d.output.envelope.certificate_sha256 digest).0 named;
            })))
