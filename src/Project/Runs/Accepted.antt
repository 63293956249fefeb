-- ===== src/Project/Runs/Accepted.antt =====
-- What makes `check_flow_evidence` of project_contract.py accept a receipt.
use tugling.Prelude.{
  ℕ, ◌+◌, ◌-◌, String, Bool, true, ◌&&◌, ◌≡◌, sym, ap, ◌∙◌, arith, none, some, leb,
}
use tugling.Prelude.Except.{Except, ok, raise, require-eq-ok, ok-inj, >>=-ok-then}
use tugling.Prelude.Equality.{same, same-eq, same_refl}
use tugling.Project.Flows.{Mapping}
use tugling.Project.Results.{
  FlowResult, Plan, Summary, execution_plan, performance_summary, validate_execution_timing,
}
use tugling.Project.Runs.{Evidence, RunError, Host, ProjectReport, verification_identity}
use tugling.Project.Runs.Execute.{lift, budget_for}
use tugling.Project.Runs.Passed.{found_map}
use tugling.Project.Runs.Check.{
  check_times_of, check_requirements_of, is_complete, all_match, check_flow_evidence,
}
use tugling.Project.Runs.{no_map, timing}
use tugling.Project.Runs.{
  identity_eq, plan_eq, summary_eq, requirements_eq, stale, bad_path, incomplete, mismatched,
  longer_than_receipt, different_summary,
}

-- Everything `check_flow_evidence` asks of evidence `e` at `now`.
pub record IsAccepted (host : Host) (report : ProjectReport) (e : Evidence) (now : ℕ)
    (required : Bool) : Type 0 where
  pub mapping : Mapping
  pub sha : String
  pub reported : report.verification ≡ some (mapping, sha)
  pub identified : verification_identity host sha ≡ ok e.identity
  pub finished : ℕ
  pub ended : check_times_of e now report.receipt_retention.max_age_seconds ≡ ok finished
  pub covered : check_requirements_of mapping e required ≡ ok tt
  pub complete : is_complete mapping e required ≡ true
  pub matches : all_match mapping e.requested_flows e.results ≡ true
  pub summary : Summary
  pub summed : performance_summary e.results (budget_for report required) ≡ ok summary
  pub timed : validate_execution_timing e.results (execution_plan mapping e.requested_flows) ≡ ok tt
  pub lasted : leb summary.active (finished - e.started_at + 100000) ≡ true
  pub recorded : e.performance ≡ some summary
  pub in_budget : summary.within_budget ≡ true

pub check-of-IsAccepted :
    (host : Host) (report : ProjectReport) (e : Evidence) (now : ℕ) (required : Bool)
    → IsAccepted host report e now required
    → check_flow_evidence host report true e now required ≡ ok e
unfolding check_flow_evidence
check-of-IsAccepted host report e now required a = simp (
  a.reported,
  a.identified,
  same_refl e.identity,
  a.ended,
  a.covered,
  a.complete,
  a.matches,
  a.summed,
  a.timed,
  a.lasted,
  a.recorded,
  same_refl (some a.summary),
  a.in_budget,
)

lift-ok :
    {A : Type 0} (m : Except tugling.Project.Results.EvidenceError A) (a : A)
    → Path (Except RunError A) (lift timing m) (ok a)
    → m ≡ ok a
lift-ok (ok b) a h = ap ok (ok-inj h)
lift-ok (raise error) a h = absurd (cc)

pub check-IsAccepted :
    (host : Host) (report : ProjectReport) (path_ok : Bool) (e e' : Evidence) (now : ℕ)
    (required : Bool)
    → check_flow_evidence host report path_ok e now required ≡ ok e'
    → (e ≡ e') × (path_ok ≡ true) × IsAccepted host report e now required
unfolding check_flow_evidence
check-IsAccepted host report path_ok e e' now required h =
    >>=-ok-then
      (elim report.verification as (λ o. Except RunError (Mapping × String)) [
        | none ↦ raise no_map
        | some m ↦ ok m
      ])
      _ h
      (λ found located h1.
        let (path, h2) = require-eq-ok path_ok bad_path _ h1 in
        >>=-ok-then (verification_identity host found.1) _ h2 (λ i identified h3.
          let (equal_, h4) = require-eq-ok (same e.identity i) stale _ h3 in
          >>=-ok-then (check_times_of e now report.receipt_retention.max_age_seconds) _ h4
            (λ finished ended h5.
              >>=-ok-then (check_requirements_of found.0 e required) _ h5 (λ u covered h6.
                let (complete, h7) =
                  require-eq-ok (is_complete found.0 e required) incomplete _ h6 in
                let (matches, h8) =
                  require-eq-ok (all_match found.0 e.requested_flows e.results) mismatched _ h7 in
                >>=-ok-then
                  (lift timing (performance_summary e.results (budget_for report required))) _ h8
                  (λ summary summed h9.
                    >>=-ok-then
                      (lift timing (
                        validate_execution_timing e.results
                          (execution_plan found.0 e.requested_flows)))
                      _ h9
                      (λ v timed h10.
                        let (lasted, h11) =
                          require-eq-ok (leb summary.active (finished - e.started_at + 100000))
                            longer_than_receipt _ h10 in
                        let (kept, h12) =
                          require-eq-ok (same e.performance (some summary) && summary.within_budget)
                            different_summary _ h11 in
                        (
                          ok-inj h12,
                          path,
                          record {
                            mapping = found.0;
                            sha = found.1;
                            reported = found_map report.verification found located;
                            identified = identified ∙ ap ok (sym (same-eq e.identity i equal_));
                            finished = finished;
                            ended = ended;
                            covered = covered;
                            complete = complete;
                            matches = matches;
                            summary = summary;
                            summed = lift-ok _ summary summed;
                            timed = lift-ok _ tt timed;
                            lasted = lasted;
                            recorded = same-eq e.performance (some summary) (ground arith);
                            in_budget = ground arith;
                          },
                        )))))))
