-- ===== src/Release/Controller/Gates.antt =====
-- What holds when `promote` of release_controller.py moves a ref.
use tugling.Prelude.{
  Bool, true, false, ◌&&◌, ◌≡◌, refl, sym, ap, ◌∙◌, subst, arith, inl, inr, Option, none, some, leb,
  str_eq, eq_iff, Bool-cases, if_true, if_false, if◌then◌else◌,
}
use tugling.Prelude.Except.{
  Except, ok, raise, require-eq-ok, require-ok, >>-eq-ok, >>=-ok-then, ok-inj,
}
use tugling.Release.Patterns.{is_sha}
use tugling.Release.Report.{ReviewedReleaseError, is_int}
use tugling.Release.Certificate.{Certificate, verify_certificate, is_text, is_text-eq}
use tugling.Release.Bound.{IsCertified, verify_certificate-IsCertified}
use tugling.Release.Controller.{
  ControllerError, bad_controller, bad_file, main_moved, ruler_changed, not_ancestor, modes_differ,
  different_digest, bad_package, legacy, other_version, bad_baseline, other_candidate, stable_moved,
  Site, Promotion, State, ready, ref_of, same_ruler, same_modes, materialize_data, validate_request,
  check_candidate, verified, check_certificate, has_tag, is_released, decide, review,
}

-- What the checks of the commit and package show.
pub record IsReviewedCandidate (site : Site) (p : Promotion) : Type 0 where
  pub main : site.fetched_main ≡ p.candidate
  pub ruler : same_ruler site p.controller p.candidate ≡ true
  pub certified_ruler : same_ruler site p.certification_controller p.candidate ≡ true
  pub forward : site.is_ancestor p.controller p.candidate ≡ true
  pub certified_forward : site.is_ancestor p.certification_controller p.candidate ≡ true
  pub modes : same_modes site p.certification_controller p.candidate ≡ true

candidate-IsReviewedCandidate :
    (site : Site) (p : Promotion) → check_candidate site p ≡ ok tt → IsReviewedCandidate site p
unfolding check_candidate
candidate-IsReviewedCandidate site p h =
    let (_, h1) =
      >>-eq-ok (validate_request p.controller p.candidate p.version p.certificate_digest) _ h in
    let (_, h2) = require-eq-ok (is_sha p.certification_controller) bad_controller _ h1 in
    let (_, h3) =
      require-eq-ok (p.certificate.is_regular && leb p.certificate.bytes 262144) bad_file _ h2 in
    let (main, h4) = require-eq-ok (str_eq site.fetched_main p.candidate) main_moved _ h3 in
    let (ruler, h5) = require-eq-ok (same_ruler site p.controller p.candidate) ruler_changed _ h4 in
    let (certified, h6) =
      require-eq-ok (same_ruler site p.certification_controller p.candidate) ruler_changed _ h5 in
    let (forward, h7) =
      require-eq-ok (site.is_ancestor p.controller p.candidate) not_ancestor _ h6 in
    let (certified_forward, h8) =
      require-eq-ok (site.is_ancestor p.certification_controller p.candidate) not_ancestor _ h7 in
    >>=-ok-then (materialize_data site p.candidate) _ h8 (λ entries _ h9. record {
      main = (eq_iff site.fetched_main p.candidate).0 main;
      ruler = ruler;
      certified_ruler = certified;
      forward = forward;
      certified_forward = certified_forward;
      modes = require-ok (same_modes site p.certification_controller p.candidate) modes_differ h9;
    })

-- What the checks of the certificate show: it is of this candidate and version, and its baseline
-- is behind the candidate.
pub record IsCandidateCertificate (site : Site) (p : Promotion) : Type 0 where
  pub digest : p.certificate.sha256 ≡ p.certificate_digest
  pub certified : IsCertified site.rules site.plugin p.certificate.content
  pub version : p.certificate.content.version ≡ p.version
  pub evaluated : p.certificate.content.behavioral.evaluated_revision ≡ p.candidate
  pub forward :
      site.is_ancestor p.certificate.content.behavioral.released_revision p.candidate ≡ true

verified-ok :
    (m : Except ReviewedReleaseError Certificate) (c : Certificate) → verified m ≡ ok c → m ≡ ok c
verified-ok (ok d) c h = ap ok (ok-inj h)
verified-ok (raise error) c h = absurd (cc)

certificate-IsCandidateCertificate :
    (site : Site) (p : Promotion) (c : Certificate)
    → check_certificate site p ≡ ok c
    → (p.certificate.content ≡ c) × IsCandidateCertificate site p
unfolding check_certificate
certificate-IsCandidateCertificate site p c h =
    let (digest, h1) =
      require-eq-ok (str_eq p.certificate.sha256 p.certificate_digest) different_digest _ h in
    let (_, h2) = require-eq-ok site.package_accepted bad_package _ h1 in
    let (_, h3) = require-eq-ok (is_int 2 p.certificate.content.schema_version) legacy _ h2 in
    >>=-ok-then (verified (verify_certificate site.rules (some site.plugin) p.certificate.content))
      _ h3
      (λ d fine h4.
        let (version, h5) = require-eq-ok (str_eq d.version p.version) other_version _ h4 in
        let (_, h6) = require-eq-ok (is_sha d.behavioral.released_revision) bad_baseline _ h5 in
        let (candidate, h7) =
          require-eq-ok
            (str_eq d.behavioral.evaluated_revision p.candidate
              && str_eq d.clean_room.revision p.candidate)
            other_candidate _ h6 in
        let (forward, h8) =
          require-eq-ok (site.is_ancestor d.behavioral.released_revision p.candidate) not_ancestor _
            h7 in
        let (same_certificate, certified) =
          verify_certificate-IsCertified site.rules (some site.plugin) p.certificate.content d
            (verified-ok _ d fine) in
        let back : d ≡ p.certificate.content = sym same_certificate in
        (
          same_certificate ∙ ok-inj h8,
          record {
            digest = (eq_iff p.certificate.sha256 p.certificate_digest).0 digest;
            certified = certified;
            version =
                ap (λ (x : Certificate). x.version) same_certificate
                ∙ (eq_iff d.version p.version).0 version;
            evaluated =
                ap (λ (x : Certificate). x.behavioral.evaluated_revision) same_certificate
                ∙ (eq_iff d.behavioral.evaluated_revision p.candidate).0 (ground arith);
            forward =
                subst
                  (λ (x : Certificate).
                    site.is_ancestor x.behavioral.released_revision p.candidate ≡ true)
                  back forward;
          },
        ))

-- Every gate before the push.
pub record IsPromotable (site : Site) (p : Promotion) : Type 0 where
  pub candidate : IsReviewedCandidate site p
  pub certificate : IsCandidateCertificate site p
  pub main : ref_of "refs/heads/main" site.refs ≡ some p.candidate
  pub untagged : has_tag p site.refs ≡ false
  pub stable :
      ref_of "refs/heads/stable" site.refs ≡ some p.certificate.content.behavioral.released_revision
  pub applied : p.apply ≡ true

decide-none :
    (site : Site) (p : Promotion) (c : Certificate)
    → decide site p c ≡ ok none
    → (ref_of "refs/heads/main" site.refs ≡ some p.candidate)
      × (has_tag p site.refs ≡ false)
      × (ref_of "refs/heads/stable" site.refs ≡ some c.behavioral.released_revision)
      × (p.apply ≡ true)
unfolding decide
decide-none site p c h =
    let (main, h1) =
      require-eq-ok (is_text p.candidate (ref_of "refs/heads/main" site.refs)) main_moved _ h in
    elim (Bool-cases (has_tag p site.refs)) [
      | inl tagged ↦ absurd (elim (Bool-cases (is_released p site.refs)) [
        | inl released ↦
            let k = sym (if_true _ _ _ released) ∙ sym (if_true _ _ _ tagged) ∙ h1 in cc
        | inr other ↦ let k = sym (if_false _ _ _ other) ∙ sym (if_true _ _ _ tagged) ∙ h1 in cc
      ])
      | inr untagged ↦
          let (stable, h2) =
            require-eq-ok
              (is_text c.behavioral.released_revision (ref_of "refs/heads/stable" site.refs))
              stable_moved _ (sym (if_false _ _ _ untagged) ∙ h1) in
          (
            is_text-eq p.candidate _ main,
            untagged,
            is_text-eq c.behavioral.released_revision _ stable,
            applied p.apply h2,
          )
    ]
  where
    applied :
        (b : Bool)
        → Path
            (Except ControllerError (Option State))
            (ok (if b then none else some ready))
            (ok none)
        → b ≡ true
    applied true k = refl
    applied false k = absurd (let q = ok-inj k in cc)

pub review-IsPromotable :
    (site : Site) (p : Promotion) → review site p ≡ ok none → IsPromotable site p
unfolding review
review-IsPromotable site p h =
    let (checked, h1) = >>-eq-ok (check_candidate site p) _ h in
    >>=-ok-then (check_certificate site p) _ h1 (λ c certified h2.
      let (same_certificate, certificate) = certificate-IsCandidateCertificate site p c certified in
      let (main, untagged, stable, applied) = decide-none site p c h2 in
      record {
        candidate = candidate-IsReviewedCandidate site p checked;
        certificate = certificate;
        main = main;
        untagged = untagged;
        stable =
            subst
              (λ (x : Certificate).
                ref_of "refs/heads/stable" site.refs ≡ some x.behavioral.released_revision)
              (sym same_certificate) stable;
        applied = applied;
      })
