-- ===== src/Project/Runs/Completed.antt =====
-- The run behind evidence that `execute_flows` of project_contract.py returns as passed.
use tugling.Prelude.{
  if_true, if_false, String, Bool, true, false, not, List, [], ◌∷◌, ◌≡◌, refl, sym, ap, ◌∙◌, Option,
  none, some, inl, inr, length, ◌==◌, Bool-cases,
}
use tugling.Prelude.Except.{Except, ok, raise, require-eq-ok, ok-inj, >>=-ok-then}
use tugling.Project.Flows.{Mapping}
use tugling.Project.Results.{
  FlowResult, Plan, Summary, execution_plan, performance_summary, validate_execution_timing,
}
use tugling.Project.Schedule.State.{Sched, Outcome, returned, raised, unfinished}
use tugling.Project.Schedule.{config_of, execute_flow_plan, in_order}
use tugling.Project.Runs.{Identity, at, Evidence, RunError, ProjectReport, pass_of, fail_of}
use tugling.Project.Runs.Execute.{
  Site, lift, first_evidence, fits_receipt, prepare, Attempt, unchanged, all_passed, judge,
  budget_for, summarise, attempt, Ran, conclude, execute_flows,
}
use tugling.Project.Runs.{
  store_unavailable, receipt_moved, timing, no_progress, still_running, retention,
}
use tugling.Project.Retention.{prune_receipts}
use tugling.Project.Runs.Passed.{IsPrepared, prepare-IsPrepared, judge-HasPassed}
use tugling.Project.Runs.Execute.{attempt_of, outcome_of}

-- The evidence of a run that passed, from its first evidence, its results and their summary.
abbrev pub passed_evidence : Site → Bool → Evidence → List FlowResult → Summary → Evidence
passed_evidence site required e results summary = record e {
  results = results;
  worktree_unchanged = true;
  performance = some summary;
  state = pass_of required;
  finished_at = at site.finished_at;
}

-- `e` is the evidence of a run that returned with results that all passed, from `first`.
pub record IsCompleted (site : Site) (report : ProjectReport) (mapping : Mapping)
    (selected : List String) (required : Bool) (first e : Evidence) : Type 0 where
  pub sched : Sched
  pub ran :
      execute_flow_plan (config_of mapping (budget_for report required)) selected site.events
      ≡ returned sched
  pub summary : Summary
  pub summed :
      performance_summary (in_order selected sched.completed) (budget_for report required)
      ≡ ok summary
  pub clean : unchanged site first ≡ true
  pub counted : (length (in_order selected sched.completed) == length selected) ≡ true
  pub in_budget : summary.within_budget ≡ true
  pub passed : all_passed (in_order selected sched.completed) ≡ true
  pub timed :
      validate_execution_timing
        (in_order selected sched.completed)
        (execution_plan mapping selected)
      ≡ ok tt
  pub final : passed_evidence site required first (in_order selected sched.completed) summary ≡ e

first_evidence-state :
    (site : Site) (report : ProjectReport) (mapping : Mapping) (i : Identity)
    (selected : List String) (required : Bool)
    → (first_evidence site report mapping i selected required).state ≡ fail_of required
unfolding first_evidence
first_evidence-state site report mapping i selected required = refl

conclude-ok :
    (site : Site) (report : ProjectReport) (a : Attempt) (e : Evidence)
    → (conclude site report a).outcome ≡ ok e
    → (a.error ≡ none) × (record (a.evidence) { finished_at = at site.finished_at } ≡ e)
unfolding conclude
conclude-ok site report a e h =
    elim (Bool-cases
      (fits_receipt site (record (a.evidence) { finished_at = at site.finished_at }))) [
        | inr large ↦
            absurd (let k = sym (ap (λ (r : Ran). r.outcome) (if_false _ _ _ large)) ∙ h in cc)
        | inl fits ↦
            let k = sym (ap (λ (r : Ran). r.outcome) (if_true _ _ _ fits)) ∙ h in
            let (_, h1) = require-eq-ok site.store_after.opens store_unavailable _ k in
            let (_, h2) = require-eq-ok (not site.moved) receipt_moved _ h1 in
            >>=-ok-then
              (lift retention (
                prune_receipts report.receipt_retention site.store_after.now false
                  site.store_after.entries))
              _ h2 (λ pruned _ h3. no_error a.error _ h3)
      ]
  where
    no_error :
        (o : Option RunError) (e' : Evidence) → outcome_of o e' ≡ ok e → (o ≡ none) × (e' ≡ e)
    no_error none e' h = (refl, ok-inj h)
    no_error (some error) e' h = absurd (cc)

summarise-ok :
    (site : Site) (report : ProjectReport) (mapping : Mapping) (selected : List String)
    (required : Bool) (first e : Evidence) (results : List FlowResult)
    → summarise site report mapping selected required first results ≡ (e, none)
    → (summary : Summary) × (performance_summary results (budget_for report required) ≡ ok summary)
      × (judge (execution_plan mapping selected) selected required summary (record first {
        results = results;
        worktree_unchanged = unchanged site first;
        performance = some summary;
      })
          ≡ (e, none))
unfolding summarise
summarise-ok site report mapping selected required first e results h =
    known (performance_summary results (budget_for report required)) refl h
  where
    known :
        (v : Except tugling.Project.Results.EvidenceError Summary)
        → performance_summary results (budget_for report required) ≡ v
        → Path
            (Evidence × Option RunError)
            (elim v [
              | raise error ↦ (
                record first { results = results; worktree_unchanged = unchanged site first },
                some (timing error),
              )
              | ok summary ↦
                  judge (execution_plan mapping selected) selected required summary (record first {
                    results = results;
                    worktree_unchanged = unchanged site first;
                    performance = some summary;
                  })
            ])
            (e, none)
        → (summary : Summary) × (performance_summary results (budget_for report required)
            ≡ ok summary)
          × (judge (execution_plan mapping selected) selected required summary (record first {
            results = results;
            worktree_unchanged = unchanged site first;
            performance = some summary;
          })
              ≡ (e, none))
    known (ok summary) found h = (summary, found, h)
    known (raise error) found h =
        absurd (let q = ap (λ (p : Evidence × Option RunError). p.1) h in cc)

attempt-ok :
    (site : Site) (report : ProjectReport) (mapping : Mapping) (selected : List String)
    (required : Bool) (first : Evidence) (a : Attempt)
    → attempt site report mapping selected required first ≡ a
    → a.error ≡ none
    → (s : Sched) × (execute_flow_plan
          (config_of mapping (budget_for report required))
          selected
          site.events
        ≡ returned s)
      × (summarise site report mapping selected required first (in_order selected s.completed)
          ≡ (a.evidence, none))
unfolding attempt
attempt-ok site report mapping selected required first a h fine =
    elim (Bool-cases (fits_receipt site first)) [
      | inr large ↦
          absurd
            (let k = ap (λ (b : Attempt). b.error) (sym (if_false _ _ _ large) ∙ h) ∙ fine in cc)
      | inl fits ↦
          known
            (execute_flow_plan (config_of mapping (budget_for report required)) selected
              site.events)
            refl (sym (if_true _ _ _ fits) ∙ h)
    ]
  where
    known :
        (o : Outcome)
        → execute_flow_plan (config_of mapping (budget_for report required)) selected site.events
          ≡ o
        → Path Attempt
            (elim o [
              | returned s ↦ attempt_of (first ∷ []) (
                  summarise site report mapping selected required first
                    (in_order selected s.completed))
              | raised s ↦ attempt_of (first ∷ []) (first, some no_progress)
              | unfinished s ↦ attempt_of (first ∷ []) (first, some still_running)
            ])
            a
        → (s : Sched) × (execute_flow_plan
              (config_of mapping (budget_for report required))
              selected
              site.events
            ≡ returned s)
          × (summarise site report mapping selected required first (in_order selected s.completed)
              ≡ (a.evidence, none))
    known (returned s) ran h =
        let r =
          summarise site report mapping selected required first (in_order selected s.completed) in
        let evidence : r.0 ≡ a.evidence = ap (λ (b : Attempt). b.evidence) h in
        let error : r.1 ≡ none = ap (λ (b : Attempt). b.error) h ∙ fine in
        (s, ran, λ i. (evidence i, error i))
    known (raised s) ran h = absurd (let k = ap (λ (b : Attempt). b.error) h ∙ fine in cc)
    known (unfinished s) ran h = absurd (let k = ap (λ (b : Attempt). b.error) h ∙ fine in cc)

attempt-IsCompleted :
    (site : Site) (report : ProjectReport) (mapping : Mapping) (selected : List String)
    (required : Bool) (first e : Evidence) (a : Attempt)
    → attempt site report mapping selected required first ≡ a
    → a.error ≡ none
    → record (a.evidence) { finished_at = at site.finished_at } ≡ e
    → first.state ≡ fail_of required
    → e.state ≡ pass_of required
    → IsCompleted site report mapping selected required first e
attempt-IsCompleted site report mapping selected required first e a made fine ended_ fails passes =
    let (s, ran, summarised) = attempt-ok site report mapping selected required first a made fine in
    let results = in_order selected s.completed in
    let (summary, summed, judged) =
      summarise-ok site report mapping selected required first a.evidence results summarised in
    let before : Evidence = record first {
      results = results;
      worktree_unchanged = unchanged site first;
      performance = some summary;
    } in
    let verdict =
      judge-HasPassed (execution_plan mapping selected) selected required summary before a.evidence
        judged fails (ap (λ (x : Evidence). x.state) ended_ ∙ passes) in
    record {
      sched = s;
      ran = ran;
      summary = summary;
      summed = summed;
      clean = verdict.unchanged;
      counted = verdict.counted;
      in_budget = verdict.in_budget;
      passed = verdict.passed;
      timed = verdict.timed;
      final =
          ap
            (λ b. record (passed_evidence site required first results summary) {
              worktree_unchanged = b;
            })
            (sym verdict.unchanged)
          ∙ ap (λ (x : Evidence). record x { finished_at = at site.finished_at }) verdict.final
          ∙ ended_;
    }

-- A call that returns evidence of a pass has checked everything before the run, and its run completed.
pub execute-IsCompleted :
    (site : Site) (report : ProjectReport) (selected : List String) (required : Bool) (e : Evidence)
    → (execute_flows site report selected required).outcome ≡ ok e
    → e.state ≡ pass_of required
    → (mapping : Mapping) × (first : Evidence) × IsPrepared site report selected required mapping
        first
      × IsCompleted site report mapping selected required first e
unfolding execute_flows
execute-IsCompleted site report selected required e h passes =
    known (prepare site report selected required) refl h
  where
    known :
        (v : Except RunError (Mapping × Evidence))
        → prepare site report selected required ≡ v
        → Path
            (Except RunError Evidence)
            (elim v as (λ w. Ran) [
              | raise error ↦ record { outcome = raise error; written = [] }
              | ok found ↦
                  conclude site report (attempt site report found.0 selected required found.1)
            ]).outcome
            (ok e)
        → (mapping : Mapping) × (first : Evidence) × IsPrepared site report selected required
            mapping first
          × IsCompleted site report mapping selected required first e
    known (raise error) made h = absurd (cc)
    known (ok (mapping, first)) made h =
        let prepared = prepare-IsPrepared site report selected required mapping first made in
        let a = attempt site report mapping selected required first in
        let (fine, ended_) = conclude-ok site report a e h in
        let fails : first.state ≡ fail_of required =
          ap (λ (x : Evidence). x.state) (sym prepared.evidence)
          ∙ first_evidence-state site report mapping prepared.identity selected required in
        (
          mapping,
          first,
          prepared,
          attempt-IsCompleted site report mapping selected required first e a refl fine ended_ fails
              passes,
        )
