-- ===== src/Project/Runs/Execute.antt =====
-- `execute_flows` of project_contract.py: the checks before a run, the run, and the two receipts.
use tugling.Prelude.{
  ℕ, negsuc, String, Bool, true, false, not, ◌&&◌, List, [], ◌∷◌, ◌++◌, Option, none, some, map,
  any, all, sum_of, length, elem, distinct, leb, ◌==◌, if◌then◌else◌, str_eq,
}
use tugling.Prelude.Except.{Except, ok, raise, require, ◌>>=◌, ◌>>◌}
use tugling.Project.Flows.{Flow, Mapping}
use tugling.Project.Required.{flow_ids, depends_on, required_flow_ids}
use tugling.Project.Map.{argv_eq}
use tugling.Project.Results.{
  FlowResult, native_cleanup_incomplete, Plan, Summary, execution_plan, performance_summary,
  validate_execution_timing,
}
use tugling.Project.Retention.{Entry, max_receipt_bytes, prune_receipts}
use tugling.Project.Schedule.State.{Event, returned, raised, unfinished, is_nil}
use tugling.Project.Schedule.{flow_of, argv_of, config_of, execute_flow_plan, in_order}
use tugling.Project.Runs.{
  Identity, missing, padding, at, Evidence, RunError, not_posix, no_map, contract, not_required_set,
  bad_selection, missing_dependencies, over_budget, duplicate_commands, receipt_too_large,
  store_unavailable, receipt_moved, retention, no_progress, still_running, timing, Worktree, Host,
  ProjectReport, kind_of, pass_of, fail_of, flow_execution_ancestry, clean_revision,
  verification_identity,
}

-- What `receipt_store` and `prune_receipts` find: whether the store opens, the time in nanoseconds
-- and the entries of its directory.
pub record Store : Type 0 where
  pub opens : Bool
  pub now : ℕ
  pub entries : List Entry

-- Everything outside the program during one call of `execute_flows`. `size` is the length of a
-- receipt in JSON, and `claims` says that the new receipt's file was made and locked.
pub record Site : Type 0 where
  pub posix : Bool
  pub ancestry : Option (List String)
  pub host : Host
  pub worktree_after : Worktree
  pub run_id : String
  pub started_at : ℕ
  pub finished_at : ℕ
  pub size : Evidence → ℕ
  pub store : Store
  pub claims : Bool
  pub store_after : Store
  pub moved : Bool
  pub events : List Event

abbrev pub lift : {E F A : Type 0} → (E → F) → Except E A → Except F A
lift f (ok a) = ok a
lift f (raise e) = raise (f e)

-- Equality of two lists of ids.
abbrev pub same_ids : List String → List String → Bool
same_ids xs ys = argv_eq xs ys

-- `len(commands) == len(set(commands))`
unfoldable pub distinct_commands : List (List String) → Bool
distinct_commands [] = true
distinct_commands (c ∷ cs) = not (any (argv_eq c) cs) && distinct_commands cs

-- `by_id[flow_id]["timeout_seconds"]`
unfoldable pub seconds_of : List Flow → String → ℕ
unfolding flow_of
seconds_of flows x = elim (flow_of flows x) [ none ↦ 0 | some f ↦ f.timeout_seconds ]

-- The checks of the selected flows.
unfoldable pub check_selection : Mapping → List String → Except RunError (Unit {0})
unfolding distinct_commands seconds_of argv_of
check_selection mapping selected = do
  require
      (not (is_nil selected)
        && distinct selected
        && all (λ x. elem x (flow_ids mapping.flows)) selected)
      bad_selection
  require (all (λ x. all (λ d. elem d selected) (depends_on mapping.flows x)) selected)
      missing_dependencies
  require (leb (sum_of (seconds_of mapping.flows) selected) 7200) over_budget
  require (distinct_commands (map (argv_of mapping.flows) selected)) duplicate_commands

-- `required` asks for the complete set of required flows.
unfoldable pub check_required : Mapping → List String → Bool → Except RunError (Unit {0})
check_required mapping selected false = ok tt
check_required mapping selected true = do
  ids ← lift contract (required_flow_ids mapping)
  require (same_ids selected ids) not_required_set

-- The evidence before the run.
unfoldable pub first_evidence :
    Site → ProjectReport → Mapping → Identity → List String → Bool → Evidence
first_evidence site report mapping identity selected required = record {
  schema_version = 1;
  kind = kind_of required;
  run_id = site.run_id;
  identity = identity;
  tugling = report.tugling;
  started_at = site.started_at;
  state = fail_of required;
  requested_flows = selected;
  execution_plan = some (execution_plan mapping selected);
  results = [];
  worktree_unchanged = false;
  requirements = if required then mapping.requirements else none;
  performance = none;
  finished_at = missing;
}

-- The largest result of a flow, in microseconds.
abbrev largest_result : Mapping → String → FlowResult
largest_result mapping x = record {
  id = x;
  argv = argv_of mapping.flows x;
  exit_code = some (negsuc 9999999998);
  failure = some native_cleanup_incomplete;
  forced_cleanup = false;
  started = 9999999999999000;
  finished = 9999999999999000;
  duration = 9999999999999000;
}

abbrev largest : Mapping → List String → Evidence → Evidence
largest mapping selected e = record e {
  finished_at = padding;
  results = map (largest_result mapping) selected;
}

abbrev pub fits_receipt : Site → Evidence → Bool
fits_receipt site e = leb (site.size e) max_receipt_bytes

-- The checks before the evidence is made: the map and the identity.
unfoldable pub plan_run :
    Site → ProjectReport → List String → Bool → Except RunError (Mapping × Identity)
unfolding check_required check_selection
plan_run site report selected required = do
  require site.posix not_posix
  ancestry ← flow_execution_ancestry site.host.root site.ancestry
  found ← elim report.verification [ none ↦ raise no_map | some m ↦ ok m ]
  check_required found.0 selected required
  check_selection found.0 selected
  identity ← verification_identity site.host found.1
  ok (found.0, identity)

-- The room for the receipt and its file.
unfoldable pub reserve :
    Site → ProjectReport → Mapping → List String → Evidence → Except RunError Evidence
unfolding prune_receipts
reserve site report mapping selected e = do
  require (fits_receipt site (largest mapping selected e)) receipt_too_large
  require site.store.opens store_unavailable
  pruned ←
      lift retention
        (prune_receipts report.receipt_retention site.store.now true site.store.entries)
  require site.claims store_unavailable
  ok e

-- Everything before the descriptor of the receipt is there.
unfoldable pub prepare :
    Site → ProjectReport → List String → Bool → Except RunError (Mapping × Evidence)
unfolding plan_run first_evidence reserve
prepare site report selected required = do
  planned ← plan_run site report selected required
  e ←
      reserve site report planned.0 selected
        (first_evidence site report planned.0 planned.1 selected required)
  ok (planned.0, e)

-- A body of the `try` that may raise: the evidence as it stands, the error, the receipts written.
pub record Attempt : Type 0 where
  pub evidence : Evidence
  pub error : Option RunError
  pub written : List Evidence

abbrev pub unchanged : Site → Evidence → Bool
unchanged site e = elim (clean_revision site.host.root site.worktree_after) [
  | ok revision ↦ str_eq revision e.identity.project_revision
  | raise error ↦ false
]

abbrev pub all_passed : List FlowResult → Bool
all_passed results = all (λ r. elim r.failure [ none ↦ true | some f ↦ false ]) results

-- The verdict on results with their summary.
unfoldable pub judge : Plan → List String → Bool → Summary → Evidence → Evidence × Option RunError
judge plan selected required summary e =
    let passed : Evidence × Option RunError = elim (validate_execution_timing e.results plan) [
      | ok u ↦ (record e { state = pass_of required }, none)
      | raise error ↦ (e, some (timing error))
    ] in
    if (length e.results == length selected)
      && e.worktree_unchanged
      && summary.within_budget
      && all_passed e.results
    then passed
    else (e, none)

abbrev pub budget_for : ProjectReport → Bool → Option ℕ
budget_for report required = if required then report.budget_seconds else none

unfoldable pub summarise :
    Site
    → ProjectReport
    → Mapping
    → List String
    → Bool
    → Evidence
    → List FlowResult
    → Evidence × Option RunError
unfolding judge performance_summary
summarise site report mapping selected required e results =
    let e₁ = record e { results = results; worktree_unchanged = unchanged site e } in
    elim (performance_summary results (budget_for report required)) [
      | raise error ↦ (e₁, some (timing error))
      | ok summary ↦
          judge (execution_plan mapping selected) selected required summary
            (record e₁ { performance = some summary })
    ]

abbrev pub attempt_of : List Evidence → Evidence × Option RunError → Attempt
attempt_of written r = record { evidence = r.0; error = r.1; written = written }

-- The body of the `try` from the first receipt on.
unfoldable pub attempt : Site → ProjectReport → Mapping → List String → Bool → Evidence → Attempt
unfolding summarise execute_flow_plan
attempt site report mapping selected required e =
    let cfg = config_of mapping (budget_for report required) in
    let ran : Attempt = elim (execute_flow_plan cfg selected site.events) [
      | returned s ↦
          attempt_of (e ∷ [])
            (summarise site report mapping selected required e (in_order selected s.completed))
      | raised s ↦ attempt_of (e ∷ []) (e, some no_progress)
      | unfinished s ↦ attempt_of (e ∷ []) (e, some still_running)
    ] in
    if fits_receipt site e then ran else attempt_of [] (e, some receipt_too_large)

-- What a call does: its result, and the receipts that it wrote into its file, the first one first.
pub record Ran : Type 0 where
  pub outcome : Except RunError Evidence
  pub written : List Evidence

abbrev pub outcome_of : Option RunError → Evidence → Except RunError Evidence
outcome_of none e = ok e
outcome_of (some error) e = raise error

-- The `finally`: an error of its own takes the place of one of the body.
unfoldable pub conclude : Site → ProjectReport → Attempt → Ran
unfolding prune_receipts
conclude site report a =
    let e = record a.evidence { finished_at = at site.finished_at } in
    let checked : Except RunError Evidence = do
      require site.store_after.opens store_unavailable
      require (not site.moved) receipt_moved
      pruned ← lift retention (
          prune_receipts report.receipt_retention site.store_after.now false
            site.store_after.entries)
      outcome_of a.error e
    in if fits_receipt site e
      then record { outcome = checked; written = a.written ++ e ∷ [] }
      else record { outcome = raise receipt_too_large; written = a.written }

unfoldable pub execute_flows : Site → ProjectReport → List String → Bool → Ran
unfolding prepare attempt conclude
execute_flows site report selected required = elim (prepare site report selected required) [
  | raise error ↦ record { outcome = raise error; written = [] }
  | ok found ↦ conclude site report (attempt site report found.0 selected required found.1)
]
