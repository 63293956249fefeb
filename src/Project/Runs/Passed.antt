-- ===== src/Project/Runs/Passed.antt =====
-- What holds when `execute_flows` of project_contract.py ends with evidence that passed.
use tugling.Prelude.{
  if_true, if_false, String, Bool, true, false, ◌&&◌, List, ◌≡◌, refl, sym, ap, ◌∙◌, subst, arith,
  Option, none, some, inl, inr, length, ◌==◌, eq_iff, Bool-cases,
}
use tugling.Prelude.Except.{Except, ok, raise, require-eq-ok, ok-inj, >>=-ok-then}
use tugling.Project.Flows.{Mapping}
use tugling.Project.Results.{
  FlowResult, Plan, Summary, execution_plan, performance_summary, validate_execution_timing,
}
use tugling.Project.Runs.{
  Identity, Evidence, RunError, ProjectReport, pass_of, fail_of, verification_identity,
  flow_execution_ancestry,
}
use tugling.Project.Runs.Execute.{
  Site, lift, check_selection, check_required, first_evidence, prepare, plan_run, reserve,
  all_passed, judge,
}
use tugling.Project.Runs.{
  no_map, not_posix, receipt_too_large, store_unavailable, timing, retention,
}
use tugling.Project.Retention.{prune_receipts}

-- What has been checked when the run starts.
pub record IsPrepared (site : Site) (report : ProjectReport) (selected : List String)
    (required : Bool) (mapping : Mapping) (e : Evidence) : Type 0 where
  pub sha : String
  pub identity : Identity
  pub reported : report.verification ≡ some (mapping, sha)
  pub complete : check_required mapping selected required ≡ ok tt
  pub valid : check_selection mapping selected ≡ ok tt
  pub identified : verification_identity site.host sha ≡ ok identity
  pub evidence : first_evidence site report mapping identity selected required ≡ e

pub found_map :
    (o : Option (Mapping × String)) (m : Mapping × String)
    → Path
        (Except RunError (Mapping × String))
        (elim o [ none ↦ raise no_map | some m ↦ ok m ])
        (ok m)
    → o ≡ some m
found_map none m h = absurd (cc)
found_map (some n) m h = ap some (ok-inj h)

plan_run-facts :
    (site : Site) (report : ProjectReport) (selected : List String) (required : Bool)
    (mapping : Mapping) (identity : Identity)
    → plan_run site report selected required ≡ ok (mapping, identity)
    → (sha : String) × (report.verification ≡ some (mapping, sha))
      × (check_required mapping selected required ≡ ok tt)
      × (check_selection mapping selected ≡ ok tt)
      × (verification_identity site.host sha ≡ ok identity)
unfolding plan_run
plan_run-facts site report selected required mapping identity h =
    let (_, h1) = require-eq-ok site.posix not_posix _ h in
    >>=-ok-then (flow_execution_ancestry site.host.root site.ancestry) _ h1 (λ ancestry _ h2.
      >>=-ok-then
        (elim report.verification as (λ o. Except RunError (Mapping × String)) [
          | none ↦ raise no_map
          | some m ↦ ok m
        ])
        _ h2
        (λ found located h3.
          >>=-ok-then (check_required found.0 selected required) _ h3 (λ u complete h4.
            >>=-ok-then (check_selection found.0 selected) _ h4 (λ v valid h5.
              >>=-ok-then (verification_identity site.host found.1) _ h5 (λ i identified h6.
                let same_map : found.0 ≡ mapping = ap (λ p. p.0) (ok-inj h6) in
                let same_identity : i ≡ identity = ap (λ p. p.1) (ok-inj h6) in
                (
                  found.1,
                  found_map report.verification found located
                      ∙ ap (λ m. some (m, found.1)) same_map,
                  subst (λ m. check_required m selected required ≡ ok tt) same_map complete,
                  subst (λ m. check_selection m selected ≡ ok tt) same_map valid,
                  subst (λ j. verification_identity site.host found.1 ≡ ok j) same_identity
                      identified,
                ))))))

reserve-same :
    (site : Site) (report : ProjectReport) (mapping : Mapping) (selected : List String)
    (e e' : Evidence)
    → reserve site report mapping selected e ≡ ok e'
    → e ≡ e'
unfolding reserve
reserve-same site report mapping selected e e' h =
    let (_, h1) = require-eq-ok _ receipt_too_large _ h in
    let (_, h2) = require-eq-ok site.store.opens store_unavailable _ h1 in
    >>=-ok-then
      (lift retention
        (prune_receipts report.receipt_retention site.store.now true site.store.entries))
      _ h2
      (λ pruned _ h3. let (_, h4) = require-eq-ok site.claims store_unavailable _ h3 in ok-inj h4)

pub prepare-IsPrepared :
    (site : Site) (report : ProjectReport) (selected : List String) (required : Bool)
    (mapping : Mapping) (e : Evidence)
    → prepare site report selected required ≡ ok (mapping, e)
    → IsPrepared site report selected required mapping e
unfolding prepare
prepare-IsPrepared site report selected required mapping e h =
    >>=-ok-then (plan_run site report selected required) _ h (λ planned checked h1.
      >>=-ok-then
        (reserve site report planned.0 selected
          (first_evidence site report planned.0 planned.1 selected required))
        _ h1
        (λ e' reserved h2.
          let same_map : planned.0 ≡ mapping = ap (λ p. p.0) (ok-inj h2) in
          let made : first_evidence site report planned.0 planned.1 selected required ≡ e =
            reserve-same site report planned.0 selected _ e' reserved ∙ ap (λ p. p.1) (ok-inj h2) in
          let (sha, reported, complete, valid, identified) =
            plan_run-facts site report selected required mapping planned.1
              (checked ∙ ap (λ m. ok (m, planned.1)) same_map) in
          record {
            sha = sha;
            identity = planned.1;
            reported = reported;
            complete = complete;
            valid = valid;
            identified = identified;
            evidence =
                subst (λ m. first_evidence site report m planned.1 selected required ≡ e) same_map
                  made;
          }))

pass_ne_fail : (required : Bool) → pass_of required ≡ fail_of required → ⊥
pass_ne_fail true h = let e = (eq_iff "REQUIRED_PASS" "REQUIRED_FAIL").1 h in cc
pass_ne_fail false h = let e = (eq_iff "FLOWS_PASS" "FLOWS_FAIL").1 h in cc

-- What a verdict of passing rests on.
pub record HasPassed (plan : Plan) (selected : List String) (required : Bool) (summary : Summary)
    (e e' : Evidence) : Type 0 where
  pub counted : (length e.results == length selected) ≡ true
  pub unchanged : e.worktree_unchanged ≡ true
  pub in_budget : summary.within_budget ≡ true
  pub passed : all_passed e.results ≡ true
  pub timed : validate_execution_timing e.results plan ≡ ok tt
  pub final : record e { state = pass_of required } ≡ e'

pub judge-HasPassed :
    (plan : Plan) (selected : List String) (required : Bool) (summary : Summary) (e e' : Evidence)
    → judge plan selected required summary e ≡ (e', none)
    → e.state ≡ fail_of required
    → e'.state ≡ pass_of required
    → HasPassed plan selected required summary e e'
unfolding judge
judge-HasPassed plan selected required summary e e' h fails passes =
    elim (Bool-cases (
      (length e.results == length selected)
      && e.worktree_unchanged
      && summary.within_budget
      && all_passed e.results)) [
        | inr not_all ↦
            let k : (e, none) ≡ (e', none) = sym (if_false _ _ _ not_all) ∙ h in
            absurd (
              pass_ne_fail required
                (sym passes ∙ ap (λ (x : Evidence). x.state) (sym (ap (λ p. p.0) k)) ∙ fails))
        | inl all_good ↦
            let k = sym (if_true _ _ _ all_good) ∙ h in
            let (valid, final) = verdict (validate_execution_timing e.results plan) refl k in
            record {
              counted = ground arith;
              unchanged = ground arith;
              in_budget = ground arith;
              passed = ground arith;
              timed = valid;
              final = final;
            }
      ]
  where
    verdict :
        (v : Except tugling.Project.Results.EvidenceError (Unit {0}))
        → validate_execution_timing e.results plan ≡ v
        → Path
            (Evidence × Option RunError)
            (elim v [
              | ok u ↦ (record e { state = pass_of required }, none)
              | raise error ↦ (e, some (timing error))
            ])
            (e', none)
        → (validate_execution_timing e.results plan ≡ ok tt)
          × (record e { state = pass_of required } ≡ e')
    verdict (ok u) known k = (known, ap (λ p. p.0) k)
    verdict (raise error) known k =
        absurd (let q = ap (λ (p : Evidence × Option RunError). p.1) k in cc)
