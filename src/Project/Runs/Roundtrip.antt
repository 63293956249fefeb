-- ===== src/Project/Runs/Roundtrip.antt =====
-- The evidence that `execute_flows` of project_contract.py ends with as passed is accepted by
-- `check_flow_evidence`.
use tugling.Prelude.{
  ℕ, ◌+◌, ◌-◌, ◌*◌, ◌≤◌, String, Bool, true, false, not, ◌&&◌, List, [], ◌∷◌, ◌≡◌, refl, sym, ap,
  ◌∙◌, subst, arith, Option, some, map, all, length, elem, distinct, leb, ◌==◌, str_eq, eq_iff,
  eq_refl,
}
use tugling.Prelude.Except.{Except, ok, raise, require-eq-ok, require-ok, ok-inj, >>=-ok-then}
use tugling.Prelude.Equality.{same_refl}
use tugling.Project.Flows.{Mapping}
use tugling.Project.Required.{flow_ids, required_flow_ids}
use tugling.Project.Results.{FlowResult, Summary, execution_plan, validate_execution_timing}
use tugling.Project.Timing.{validate_execution_timing-exact}
use tugling.Project.Schedule.State.{Sched, returned, is_nil}
use tugling.Project.Schedule.{config_of, execute_flow_plan, in_order}
use tugling.Project.Schedule.Codes.{IsHonest, execute-AreHonest}
use tugling.Project.Runs.{
  Identity, Evidence, RunError, ProjectReport, kind_of, pass_of, clean_revision,
}
use tugling.Project.Rounding.{round_ms}
use tugling.Project.Runs.Execute.{
  Site, lift, same_ids, check_selection, check_required, first_evidence, unchanged, budget_for,
  execute_flows,
}
use tugling.Project.Runs.Check.{
  check_times_of, check_requirements_of, is_complete, check_flow_evidence,
}
use tugling.Project.Runs.{contract, bad_selection}
use tugling.Project.Runs.Passed.{IsPrepared}
use tugling.Project.Runs.Completed.{passed_evidence, IsCompleted, execute-IsCompleted}
use tugling.Project.Runs.Accepted.{IsAccepted, check-of-IsAccepted}
use tugling.Project.Runs.Fresh.{identity_again, all_match-honest}
use tugling.Project.Results.{PlannedFlow}
use tugling.Project.Runs.{not_required_set, identity_eq, plan_eq, summary_eq, requirements_eq}
use tugling.Project.Schedule.Summaries.{execute-summary, in_order-All}

pub planned-ids :
    (mapping : Mapping) (xs : List String)
    → map (λ (f : PlannedFlow). f.id) (execution_plan mapping xs).flows ≡ xs
unfolding execution_plan
planned-ids mapping [] = refl
planned-ids mapping (x ∷ xs) = ap (λ ys. x ∷ ys) (planned-ids mapping xs)

max_parallel_of :
    (mapping : Mapping) (budget : Option ℕ)
    → 1 ≤ mapping.max_parallel
    → 1 ≤ (config_of mapping budget).max_parallel
unfolding config_of
max_parallel_of mapping budget h = h

-- The checks before the run are those of the receipt.
record IsValid (mapping : Mapping) (selected : List String) : Type 0 where
  some_ : not (is_nil selected) ≡ true
  unique : distinct selected ≡ true
  known : all (λ x. elem x (flow_ids mapping.flows)) selected ≡ true

selection-IsValid :
    (mapping : Mapping) (selected : List String)
    → check_selection mapping selected ≡ ok tt
    → IsValid mapping selected
unfolding check_selection
selection-IsValid mapping selected h =
    let (all_of, _) =
      require-eq-ok
        (not (is_nil selected)
          && distinct selected
          && all (λ x. elem x (flow_ids mapping.flows)) selected)
        bad_selection _ h in
    record { some_ = ground arith; unique = ground arith; known = ground arith }

covers :
    (site : Site) (report : ProjectReport) (mapping : Mapping) (i : Identity)
    (selected : List String) (required : Bool) (results : List FlowResult) (summary : Summary)
    → check_required mapping selected required ≡ ok tt
    → check_requirements_of mapping
        (passed_evidence site required
          (first_evidence site report mapping i selected required)
          results
          summary)
        required
      ≡ ok tt
unfolding check_requirements_of check_required first_evidence
covers site report mapping i selected false results summary h = refl
covers site report mapping i selected true results summary h =
    >>=-ok-then (lift contract (required_flow_ids mapping)) _ h (λ ids found k.
      let equal_ : same_ids selected ids ≡ true =
        require-ok (same_ids selected ids) not_required_set k in
      simp (found, equal_, same_refl mapping.requirements))

completes :
    (site : Site) (report : ProjectReport) (mapping : Mapping) (i : Identity)
    (selected : List String) (required : Bool) (results : List FlowResult) (summary : Summary)
    → IsValid mapping selected
    → (length results == length selected) ≡ true
    → is_complete mapping
        (passed_evidence site required
          (first_evidence site report mapping i selected required)
          results
          summary)
        required
      ≡ true
unfolding first_evidence
completes site report mapping i selected required results summary v counted = simp (
  eq_refl (kind_of required),
  eq_refl (pass_of required),
  v.some_,
  v.unique,
  v.known,
  same_refl (some (execution_plan mapping selected)),
  counted,
)

in_time :
    (site : Site) (report : ProjectReport) (mapping : Mapping) (i : Identity)
    (selected : List String) (required : Bool) (results : List FlowResult) (summary : Summary)
    (now max_age : ℕ)
    → site.started_at ≤ site.finished_at
    → site.finished_at ≤ now
    → now - site.started_at ≤ max_age * 1000000
    → check_times_of
        (passed_evidence site required
          (first_evidence site report mapping i selected required)
          results
          summary)
        now
        max_age
      ≡ ok site.finished_at
unfolding check_times_of first_evidence
in_time site report mapping i selected required results summary now max_age a b c =
    ground (arith, a, b, c)

-- The ids of results that passed the validation of their timing.
pub timed-ids :
    (mapping : Mapping) (selected : List String) (results : List FlowResult)
    → validate_execution_timing results (execution_plan mapping selected) ≡ ok tt
    → map (λ (r : FlowResult). r.id) results ≡ selected
timed-ids mapping selected results timed =
    ((validate_execution_timing-exact results (execution_plan mapping selected)).0 timed).same_ids
    ∙ planned-ids mapping selected

clean_again :
    (site : Site) (i : Identity) (e : Evidence)
    → unchanged site (record e { identity = i }) ≡ true
    → clean_revision site.host.root site.worktree_after ≡ ok i.project_revision
clean_again site i e h = known (clean_revision site.host.root site.worktree_after) refl h
  where
    known :
        (v : Except RunError String)
        → clean_revision site.host.root site.worktree_after ≡ v
        → elim v [ ok revision ↦ str_eq revision i.project_revision | raise error ↦ false ] ≡ true
        → clean_revision site.host.root site.worktree_after ≡ ok i.project_revision
    known (ok revision) found h = found ∙ ap ok ((eq_iff revision i.project_revision).0 h)
    known (raise error) found h = absurd (cc)

-- What `check_flow_evidence` asks of the evidence of a completed run that was prepared.
completed-IsAccepted :
    (site : Site) (report : ProjectReport) (selected : List String) (required : Bool) (now : ℕ)
    (mapping : Mapping) (first e : Evidence)
    → 1 ≤ mapping.max_parallel
    → site.started_at ≤ site.finished_at
    → site.finished_at ≤ now
    → now - site.started_at ≤ report.receipt_retention.max_age_seconds * 1000000
    → IsPrepared site report selected required mapping first
    → (c : IsCompleted site report mapping selected required first e)
    → round_ms c.sched.clock ≤ site.finished_at - site.started_at + 100000
    → IsAccepted (record (site.host) { worktree = site.worktree_after }) report e now required
unfolding first_evidence
completed-IsAccepted site report selected required now mapping first e parallel forwards past young
      p c lasted =
    let budget = budget_for report required in
    let cfg = config_of mapping budget in
    let results = in_order selected c.sched.completed in
    let made : Evidence = first_evidence site report mapping p.identity selected required in
    let valid = selection-IsValid mapping selected p.valid in
    let (summary, summed, active) =
      execute-summary cfg selected site.events c.sched budget
        (max_parallel_of mapping budget parallel) c.ran in
    let same_summary : summary ≡ c.summary = ok-inj (sym summed ∙ c.summed) in
    let honest =
      in_order-All (IsHonest cfg) selected c.sched.completed
        (execute-AreHonest cfg selected site.events c.sched c.ran) in
    subst
      (λ x.
        IsAccepted (record (site.host) { worktree = site.worktree_after }) report x now required)
      (ap (λ x. passed_evidence site required x results c.summary) p.evidence ∙ c.final)
      (record {
        mapping = mapping;
        sha = p.sha;
        reported = p.reported;
        identified = identity_again site.host site.worktree_after p.sha p.identity p.identified (
            clean_again site p.identity made
              (subst (λ x. unchanged site x ≡ true) (sym p.evidence) c.clean));
        finished = site.finished_at;
        ended =
            in_time site report mapping p.identity selected required results c.summary now _
              forwards past young;
        covered =
            covers site report mapping p.identity selected required results c.summary p.complete;
        complete =
            completes site report mapping p.identity selected required results c.summary valid
              c.counted;
        matches =
            all_match-honest mapping budget selected results
              (timed-ids mapping selected results c.timed) honest c.passed;
        summary = c.summary;
        summed = c.summed;
        timed = c.timed;
        lasted =
            lasts c.summary.active (round_ms c.sched.clock)
              (subst (λ q. q.active ≤ round_ms c.sched.clock) same_summary active) lasted;
        recorded = refl;
        in_budget = c.in_budget;
      })
  where
    lasts :
        (active clock : ℕ)
        → active ≤ clock
        → clock ≤ site.finished_at - site.started_at + 100000
        → leb active (site.finished_at - site.started_at + 100000) ≡ true
    lasts active clock a b = ground (arith, a, b)

-- Evidence of a pass that `execute_flows` returns is accepted by `check_flow_evidence` on the same
-- machine until it is too old: where at least one flow may run, the receipt's times do not run
-- backwards, and the scheduler's clock, rounded to milliseconds, is at most 0.1 s ahead of the
-- receipt's.
pub execute-check_flow_evidence :
    (site : Site) (report : ProjectReport) (selected : List String) (required : Bool) (e : Evidence)
    (now : ℕ)
    → ((mapping : Mapping) (sha : String)
        → report.verification ≡ some (mapping, sha)
        → (1 ≤ mapping.max_parallel)
          × ((s : Sched)
              → execute_flow_plan
                  (config_of mapping (budget_for report required))
                  selected
                  site.events
                ≡ returned s
              → round_ms s.clock ≤ site.finished_at - site.started_at + 100000))
    → site.started_at ≤ site.finished_at
    → site.finished_at ≤ now
    → now - site.started_at ≤ report.receipt_retention.max_age_seconds * 1000000
    → (execute_flows site report selected required).outcome ≡ ok e
    → e.state ≡ pass_of required
    → check_flow_evidence
        (record (site.host) { worktree = site.worktree_after })
        report
        true
        e
        now
        required
      ≡ ok e
execute-check_flow_evidence site report selected required e now clocks forwards past young ended
      passes =
    let (mapping, first, p, c) = execute-IsCompleted site report selected required e ended passes in
    let (parallel, lasted) = clocks mapping p.sha p.reported in
    check-of-IsAccepted _ report e now required (
      completed-IsAccepted site report selected required now mapping first e parallel forwards past
        young p c (lasted c.sched c.ran))
