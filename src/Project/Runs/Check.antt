-- ===== src/Project/Runs/Check.antt =====
-- `check_flow_evidence` of project_contract.py: what it asks of a receipt.
use tugling.Prelude.{
  ℕ, ◌+◌, ◌-◌, ◌*◌, is_zero, String, Bool, true, false, not, ◌&&◌, List, [], ◌∷◌, Option, none,
  some, all, length, elem, distinct, leb, ◌==◌, if◌then◌else◌, str_eq,
}
use tugling.Prelude.Except.{Except, ok, raise, require, ◌>>=◌, ◌>>◌}
use tugling.Prelude.Equality.{same}
use tugling.Project.Flows.{Mapping}
use tugling.Project.Required.{flow_ids, required_flow_ids}
use tugling.Project.Map.{argv_eq}
use tugling.Project.Results.{
  FlowResult, Plan, execution_plan, performance_summary, validate_execution_timing,
}
use tugling.Project.Schedule.{argv_of}
use tugling.Project.Schedule.State.{is_nil}
use tugling.Project.Runs.{
  missing, padding, at, Evidence, RunError, no_map, contract, timing, bad_path, stale, bad_times,
  incomplete_requirements, incomplete, mismatched, longer_than_receipt, different_summary, Host,
  ProjectReport, kind_of, pass_of, verification_identity, identity_eq, plan_eq, summary_eq,
  requirements_eq,
}
use tugling.Project.Runs.Execute.{lift, same_ids, budget_for}

-- `started <= finished <= now`, and no older than the retention; the time at which it finished.
unfoldable pub check_times_of : Evidence → ℕ → ℕ → Except RunError ℕ
check_times_of e now max_age_seconds = elim e.finished_at [
  | missing ↦ raise bad_times
  | padding ↦ raise bad_times
  | at finished ↦ do
    require
        (leb e.started_at finished
          && leb finished now
          && leb (now - e.started_at) (max_age_seconds * 1000000))
        bad_times
    ok finished
]

-- `execution_plan(mapping, selected)`, or None where an id is not in the map.
abbrev pub plan_for : Mapping → List String → Option Plan
plan_for mapping selected =
    if all (λ x. elem x (flow_ids mapping.flows)) selected
    then some (execution_plan mapping selected)
    else none

unfoldable pub check_requirements_of : Mapping → Evidence → Bool → Except RunError (Unit {0})
check_requirements_of mapping e false = ok tt
check_requirements_of mapping e true = do
  ids ← lift contract (required_flow_ids mapping)
  require (same_ids e.requested_flows ids && same e.requirements mapping.requirements)
      incomplete_requirements

-- The evidence is that of a complete selection that passed.
abbrev pub is_complete : Mapping → Evidence → Bool → Bool
is_complete mapping e required =
    (e.schema_version == 1)
    && str_eq e.kind (kind_of required)
    && str_eq e.state (pass_of required)
    && e.worktree_unchanged
    && same e.execution_plan (plan_for mapping e.requested_flows)
    && not (is_nil e.requested_flows)
    && all (λ x. elem x (flow_ids mapping.flows)) e.requested_flows
    && distinct e.requested_flows
    && (length e.results == length e.requested_flows)

abbrev pub has_passed : Mapping → String → FlowResult → Bool
has_passed mapping x r =
    str_eq r.id x
    && argv_eq r.argv (argv_of mapping.flows x)
    && elim r.exit_code [ none ↦ false | some code ↦ is_zero code ]
    && elim r.failure [ none ↦ true | some f ↦ false ]
    && not r.forced_cleanup

-- `for flow_id, result in zip(selected, results)`
unfoldable pub all_match : Mapping → List String → List FlowResult → Bool
unfolding argv_of
all_match mapping [] results = true
all_match mapping (x ∷ xs) [] = true
all_match mapping (x ∷ xs) (r ∷ rs) = has_passed mapping x r && all_match mapping xs rs

unfoldable pub check_flow_evidence :
    Host → ProjectReport → Bool → Evidence → ℕ → Bool → Except RunError Evidence
unfolding check_times_of check_requirements_of all_match performance_summary
    validate_execution_timing
check_flow_evidence host report path_ok e now required = do
  found ← elim report.verification [ none ↦ raise no_map | some m ↦ ok m ]
  require path_ok bad_path
  identity ← verification_identity host found.1
  require (same e.identity identity) stale
  finished ← check_times_of e now report.receipt_retention.max_age_seconds
  check_requirements_of found.0 e required
  require (is_complete found.0 e required) incomplete
  require (all_match found.0 e.requested_flows e.results) mismatched
  performance ← lift timing (performance_summary e.results (budget_for report required))
  lift timing (validate_execution_timing e.results (execution_plan found.0 e.requested_flows))
  require (leb performance.active (finished - e.started_at + 100000)) longer_than_receipt
  require (same e.performance (some performance) && performance.within_budget) different_summary
  ok e
