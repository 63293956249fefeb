-- ===== src/Release/Delivery/Approved.antt =====
-- What holds when `verify_and_promote` of promote_release.py moves a ref.
use tugling.Prelude.{
  String, true, not, Option, none, some, keep, any, length, ltb, str_eq, ◌≡◌, Bool, refl, ap, subst,
}
use tugling.Prelude.Except.{
  Except, ok, raise, require-eq-ok, require-ok, >>-eq-ok, >>=-ok-then, ok-inj,
}
use tugling.Release.Patterns.{is_run_id}
use tugling.Release.Certificate.{Certificate, is_text}
use tugling.Release.Controller.{Refs, promote}
use tugling.Release.Controller.Forward.{IsGitPush, IsForward, promote-IsForward}
use tugling.Release.Delivery.Protection.{
  ProtectionError, not_public, bad_listing, can_be_bypassed, no_approval_rule, other_branches,
  audit_open, audit_branches, bad_run_id, not_approved, Environment, ReleasePolicy, Hub,
  check_rulesets, is_closed, one_reviewer_rule, only_policy, require_protections, approves,
  require_approval,
}
use tugling.Release.Delivery.Fetched.{IsFetched, fetch_verified-IsFetched}
use tugling.Release.Delivery.{
  DeliveryError, no_token, unverified_candidate, fetch_verified, is_verified, Delivery,
  lift_protection, lift_controller, approve, check_delivery, Delivered, verify_and_promote,
  Dispatch, promotion_of,
}

-- An environment of the policy that administrators cannot bypass and that asks for its reviewers,
-- and an approval of the run for it.
pub record IsApproved (hub : Hub) (policy : ReleasePolicy) (run_id : String)
    (environment : Environment) : Type 0 where
  pub named : hub.environment policy.environment_name ≡ environment
  pub rulesets : check_rulesets hub policy.rulesets ≡ ok tt
  pub closed : is_closed policy policy.environment_name environment ≡ true
  pub reviewed :
      one_reviewer_rule policy (keep (λ r. is_text "required_reviewers" r.type) environment.rules)
      ≡ true
  pub approved : any (approves environment) (hub.approvals run_id) ≡ true

protection-ok :
    {A : Type 0} (m : Except ProtectionError A) (a : A) → lift_protection m ≡ ok a → m ≡ ok a
protection-ok (ok b) a h = ap ok (ok-inj h)
protection-ok (raise error) a h = absurd (cc)

approval-any :
    (hub : Hub) (run_id : String) (environment : Environment)
    → require_approval hub run_id environment ≡ ok tt
    → any (approves environment) (hub.approvals run_id) ≡ true
unfolding require_approval
approval-any hub run_id environment h =
    let (_, h1) = require-eq-ok (is_run_id run_id) bad_run_id _ h in
    require-ok (any (approves environment) (hub.approvals run_id)) not_approved h1

protections-IsApproved :
    (hub : Hub) (policy : ReleasePolicy) (run_id : String) (environment : Environment)
    → require_protections hub policy ≡ ok environment
    → any (approves environment) (hub.approvals run_id) ≡ true
    → IsApproved hub policy run_id environment
unfolding require_protections
protections-IsApproved hub policy run_id environment h approved =
    let e = hub.environment policy.environment_name in
    let (_, h1) = require-eq-ok (is_text "public" hub.visibility) not_public _ h in
    let (_, h2) = require-eq-ok (ltb (length hub.listing) 100) bad_listing _ h1 in
    let (rulesets, h3) = >>-eq-ok (check_rulesets hub policy.rulesets) _ h2 in
    let (closed, h4) =
      require-eq-ok (is_closed policy policy.environment_name e) can_be_bypassed _ h3 in
    let (reviewed, h5) =
      require-eq-ok
        (one_reviewer_rule policy (keep (λ r. is_text "required_reviewers" r.type) e.rules))
        no_approval_rule _ h4 in
    let (_, h6) =
      require-eq-ok (only_policy policy (hub.deployment policy.environment_name)) other_branches _
        h5 in
    let (_, h7) =
      require-eq-ok
        (is_closed policy policy.audit_environment_name
          (hub.environment policy.audit_environment_name))
        audit_open _ h6 in
    let (_, h8) =
      require-eq-ok (only_policy policy (hub.deployment policy.audit_environment_name))
        audit_branches _ h7 in
    let same_environment : e ≡ environment = ok-inj h8 in
    record {
      named = same_environment;
      rulesets = rulesets;
      closed =
          subst (λ x. is_closed policy policy.environment_name x ≡ true) same_environment closed;
      reviewed =
          subst
            (λ (x : Environment).
              one_reviewer_rule policy (keep (λ r. is_text "required_reviewers" r.type) x.rules)
              ≡ true)
            same_environment reviewed;
      approved = approved;
    }

-- What has been checked before a ref moves.
pub record IsDelivered (d : Delivery) (request : Dispatch) (apply : Bool) (refs' : Refs)
    : Type 0 where
  pub environment : Environment
  pub approved : IsApproved d.hub d.policy d.run_id environment
  pub certificate : Certificate
  pub fetched :
      IsFetched d.download request.run_id request.certification_controller request.candidate
        request.certificate_digest certificate
  pub verified : is_verified request.candidate d.verify_runs ≡ true
  pub forward : IsForward d.site (promotion_of d request apply) refs'

delivery-facts :
    (d : Delivery) (request : Dispatch) (apply : Bool) (refs' : Refs) (c : Certificate)
    → check_delivery d request apply ≡ ok c
    → IsForward d.site (promotion_of d request apply) refs'
    → IsDelivered d request apply refs'
unfolding check_delivery approve
delivery-facts d request apply refs' c h forward =
    let (_, h1) = require-eq-ok (not (str_eq d.token "")) no_token _ h in
    >>=-ok-then (lift_protection (require_protections d.hub d.policy)) _ h1
      (λ environment protected h2.
        let (approval, h3) = >>-eq-ok (approve d apply environment) _ h2 in
        >>=-ok-then
          (fetch_verified d.download request.run_id request.certification_controller
            request.candidate request.certificate_digest)
          _ h3
          (λ fetched found h4.
            let (verified, _) =
              require-eq-ok (is_verified request.candidate d.verify_runs) unverified_candidate _
                h4 in
            let asked =
              subst (λ b. approve d b environment ≡ ok tt) forward.gates.applied approval in
            record {
              environment = environment;
              approved =
                  protections-IsApproved d.hub d.policy d.run_id environment
                    (protection-ok _ environment protected)
                    (approval-any d.hub d.run_id environment (protection-ok _ tt asked));
              certificate = fetched;
              fetched =
                  fetch_verified-IsFetched d.download request.run_id
                    request.certification_controller request.candidate request.certificate_digest
                    fetched found;
              verified = verified;
              forward = forward;
            }))

-- Where Git pushes as it documents, a call that changes the remote has the maintainer's approval of
-- its own run for a protected environment; certification files that GitHub attests, for the controller's
-- tag and commit, to the first attempt of one successful run of the certification, and which are
-- bound to the candidate and the reviewed digest; a passed Verify run of the candidate; and all that
-- `promote` asks for, of the certificate in those files.
pub verify_and_promote-IsDelivered :
    (d : Delivery) (request : Dispatch) (apply : Bool) (refs' : Refs)
    → IsGitPush d.site.push
    → (verify_and_promote d request apply).pushed ≡ some refs'
    → IsDelivered d request apply refs'
unfolding verify_and_promote
verify_and_promote-IsDelivered d request apply refs' git h =
    known (check_delivery d request apply) refl h
  where
    known :
        (v : Except DeliveryError Certificate)
        → check_delivery d request apply ≡ v
        → Path
            (Option Refs)
            (elim v as (λ x. Delivered) [
              | raise error ↦ record { outcome = raise error; pushed = none }
              | ok certificate ↦
                  let r = promote d.site (promotion_of d request apply) in
                  record { outcome = lift_controller r.outcome; pushed = r.pushed }
            ]).pushed
            (some refs')
        → IsDelivered d request apply refs'
    known (raise error) e k = absurd (cc)
    known (ok c) e k =
        delivery-facts d request apply refs' c e
          (promote-IsForward d.site (promotion_of d request apply) refs' git k)
