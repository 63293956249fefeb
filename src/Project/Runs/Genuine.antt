-- ===== src/Project/Runs/Genuine.antt =====
-- What a receipt that `check_flow_evidence` of project_contract.py accepts shows.
use tugling.Prelude.{
  is_zero, negsuc, ℕ, ◌+◌, ◌-◌, ◌*◌, ◌≤◌, ℤ, pos, String, Bool, true, false, ◌&&◌, List, [], ◌∷◌,
  ◌≡◌, refl, sym, ap, ◌∙◌, arith, Option, none, some, map, All, leb, str_eq, eq_iff, and-eq-true,
}
use tugling.Prelude.Except.{Except, ok, raise, require, ◌>>=◌, require-eq-ok, require-ok, ok-inj}
use tugling.Prelude.Equality.{same}
use tugling.Project.Flows.{Mapping}
use tugling.Project.Required.{required_flow_ids}
use tugling.Project.Map.{argv_eq}
use tugling.Project.Results.{
  FlowResult, Plan, Summary, execution_plan, performance_summary, validate_execution_timing,
}
use tugling.Project.Timing.{validate_execution_timing-exact}
use tugling.Project.Schedule.{argv_of}
use tugling.Project.Runs.{
  Finish, missing, padding, at, Evidence, RunError, Host, ProjectReport, verification_identity,
}
use tugling.Project.Runs.Execute.{lift, same_ids, budget_for}
use tugling.Project.Runs.Check.{
  check_times_of, check_requirements_of, has_passed, all_match, check_flow_evidence,
}
use tugling.Project.Runs.{contract}
use tugling.Project.Runs.Accepted.{check-IsAccepted}
use tugling.Project.Results.{PlannedFlow}
use tugling.Project.Timing.{FitsPlan}
use tugling.Project.Runs.Roundtrip.{planned-ids}
use tugling.Project.Runs.{
  bad_times, incomplete_requirements, identity_eq, plan_eq, summary_eq, requirements_eq,
}

-- A result with the command of its flow, exit code 0, no failure and no cleanup by force.
abbrev pub IsSuccess : Mapping → FlowResult → Type 0
IsSuccess mapping r =
    (r.argv ≡ argv_of mapping.flows r.id)
    × (r.exit_code ≡ some (pos 0))
    × (r.failure ≡ none)
    × (r.forced_cleanup ≡ false)

-- A receipt of the present project, complete, not too old, of a plan carried out with success.
pub record IsGenuine (host : Host) (report : ProjectReport) (e : Evidence) (now : ℕ)
    (required : Bool) : Type 0 where
  pub mapping : Mapping
  pub sha : String
  pub reported : report.verification ≡ some (mapping, sha)
  pub identified : verification_identity host sha ≡ ok e.identity
  pub finished : ℕ
  pub ended : e.finished_at ≡ at finished
  pub forwards : e.started_at ≤ finished
  pub past : finished ≤ now
  pub young : now - e.started_at ≤ report.receipt_retention.max_age_seconds * 1000000
  pub covered : required ≡ true → required_flow_ids mapping ≡ ok e.requested_flows
  pub ran : map (λ r. r.id) e.results ≡ e.requested_flows
  pub fits : FitsPlan e.results (execution_plan mapping e.requested_flows)
  pub succeeded : All (IsSuccess mapping) e.results
  pub summary : Summary
  pub summed : performance_summary e.results (budget_for report required) ≡ ok summary
  pub in_budget : summary.within_budget ≡ true
  pub lasted : summary.active ≤ finished - e.started_at + 100000

argv_eq-eq : (xs ys : List String) → argv_eq xs ys ≡ true → xs ≡ ys
unfolding argv_eq
argv_eq-eq [] [] h = refl
argv_eq-eq [] (y ∷ ys) h = absurd (cc)
argv_eq-eq (x ∷ xs) [] h = absurd (cc)
argv_eq-eq (x ∷ xs) (y ∷ ys) h =
    let (first, rest) = and-eq-true (str_eq x y) (argv_eq xs ys) h in
    let here : x ≡ y = (eq_iff x y).0 first in let tail = argv_eq-eq xs ys rest in cc

has_passed-IsSuccess :
    (mapping : Mapping) (x : String) (r : FlowResult)
    → has_passed mapping x r ≡ true
    → IsSuccess mapping r
has_passed-IsSuccess mapping x r h =
    let same_id : r.id ≡ x = (eq_iff r.id x).0 (ground arith) in
    let argv : r.argv ≡ argv_of mapping.flows x =
      argv_eq-eq r.argv (argv_of mapping.flows x) (ground arith) in
    (
      argv ∙ ap (argv_of mapping.flows) (sym same_id),
      zero_of r.exit_code (ground arith),
      none_of r.failure (ground arith),
      ground arith,
    )
  where
    zero_of :
        (o : Option ℤ)
        → elim o [ none ↦ false | some code ↦ is_zero code ] ≡ true
        → o ≡ some (pos 0)
    zero_of none h = absurd (cc)
    zero_of (some (pos n)) h = ground (arith, h)
    zero_of (some (negsuc n)) h = absurd (cc)

    none_of :
        (o : Option tugling.Project.Results.Failure)
        → elim o [ none ↦ true | some f ↦ false ] ≡ true
        → o ≡ none
    none_of none h = refl
    none_of (some f) h = absurd (cc)

all_match-All :
    (mapping : Mapping) (xs : List String) (rs : List FlowResult)
    → map (λ r. r.id) rs ≡ xs
    → all_match mapping xs rs ≡ true
    → All (IsSuccess mapping) rs
unfolding all_match
all_match-All mapping xs [] ids h = tt
all_match-All mapping [] (r ∷ rs) ids h = absurd (cc)
all_match-All mapping (x ∷ xs) (r ∷ rs) ids h =
    let (first, rest) = and-eq-true (has_passed mapping x r) (all_match mapping xs rs) h in
    (has_passed-IsSuccess mapping x r first, all_match-All mapping xs rs (cc) rest)

-- The ids of results that passed the validation against the plan of a selection are the selection.
FitsPlan-ids :
    (mapping : Mapping) (xs : List String) (results : List FlowResult)
    → FitsPlan results (execution_plan mapping xs)
    → map (λ (r : FlowResult). r.id) results ≡ xs
FitsPlan-ids mapping xs results fit = fit.same_ids ∙ planned-ids mapping xs

times_of :
    (e : Evidence) (now max_age finished : ℕ)
    → check_times_of e now max_age ≡ ok finished
    → (e.finished_at ≡ at finished)
      × (e.started_at ≤ finished)
      × (finished ≤ now)
      × (now - e.started_at ≤ max_age * 1000000)
unfolding check_times_of
times_of e now max_age finished h = known e.finished_at refl h
  where
    known :
        (o : Finish)
        → e.finished_at ≡ o
        → Path
            (Except RunError ℕ)
            (elim o [
              | missing ↦ raise bad_times
              | padding ↦ raise bad_times
              | at f ↦
                  require
                    (leb e.started_at f
                      && leb f now
                      && leb (now - e.started_at) (max_age * 1000000))
                    bad_times
                  >>= λ u. ok f
            ])
            (ok finished)
        → (e.finished_at ≡ at finished)
          × (e.started_at ≤ finished)
          × (finished ≤ now)
          × (now - e.started_at ≤ max_age * 1000000)
    known missing is h = absurd (cc)
    known padding is h = absurd (cc)
    known (at f) is h =
        let (fine, k) =
          require-eq-ok
            (leb e.started_at f && leb f now && leb (now - e.started_at) (max_age * 1000000))
            bad_times (ok f) h in
        let same_time : f ≡ finished = ok-inj k in
        (is ∙ ap at same_time, ground arith, ground arith, ground arith)

covered_of :
    (mapping : Mapping) (e : Evidence) (required : Bool)
    → check_requirements_of mapping e required ≡ ok tt
    → required ≡ true
    → required_flow_ids mapping ≡ ok e.requested_flows
unfolding check_requirements_of
covered_of mapping e false h is = absurd (cc)
covered_of mapping e true h is = known (required_flow_ids mapping) refl h
  where
    known :
        (v : Except tugling.Project.Flows.ContractError (List String))
        → required_flow_ids mapping ≡ v
        → Path
            (Except RunError (Unit {0}))
            (lift contract v >>= λ ids.
              require
                (same_ids e.requested_flows ids && same e.requirements mapping.requirements)
                incomplete_requirements)
            (ok tt)
        → required_flow_ids mapping ≡ ok e.requested_flows
    known (ok ids) found h =
        let both : same_ids e.requested_flows ids && same e.requirements mapping.requirements
            ≡ true =
          require-ok _ incomplete_requirements h in
        found ∙ ap ok (sym (argv_eq-eq e.requested_flows ids (ground arith)))
    known (raise error) found h = absurd (cc)

-- A receipt that is accepted is the one that was read, and genuine: of the present identity of the
-- project, not too old, for a required check of exactly the required flows, with one success for
-- each flow asked for, in order, that fit the plan and the budget within the receipt's own time.
pub check_flow_evidence-IsGenuine :
    (host : Host) (report : ProjectReport) (path_ok : Bool) (e e' : Evidence) (now : ℕ)
    (required : Bool)
    → check_flow_evidence host report path_ok e now required ≡ ok e'
    → (e ≡ e') × (path_ok ≡ true) × IsGenuine host report e now required
check_flow_evidence-IsGenuine host report path_ok e e' now required h =
    let (read, path, a) = check-IsAccepted host report path_ok e e' now required h in
    let fit =
      (validate_execution_timing-exact e.results (execution_plan a.mapping e.requested_flows)).0
        a.timed in
    let ids = FitsPlan-ids a.mapping e.requested_flows e.results fit in
    let (ended, forwards, past, young) = times_of e now _ a.finished a.ended in
    let lasted = a.lasted in
    (
      read,
      path,
      record {
        mapping = a.mapping;
        sha = a.sha;
        reported = a.reported;
        identified = a.identified;
        finished = a.finished;
        ended = ended;
        forwards = forwards;
        past = past;
        young = young;
        covered = covered_of a.mapping e required a.covered;
        ran = ids;
        fits = fit;
        succeeded = all_match-All a.mapping e.requested_flows e.results ids a.matches;
        summary = a.summary;
        summed = a.summed;
        in_budget = a.in_budget;
        lasted = ground arith;
      },
    )
