-- ===== src/Project/Examples.antt =====
-- Concrete maps, runs and results of project_contract.py: tests, and each theorem's use on them.
mod Runs
use tugling.Prelude.{
  ℕ, ◌+◌, ◌-◌, ◌≤◌, ◌<◌, ◌↔◌, pos, String, true, false, List, [], ◌∷◌, ◌≡◌, ◌≢◌, refl, arith, none,
  some, elem, if◌then◌else◌, str_eq, eq_iff, Bool-cases, inl, inr, count_of,
}
use tugling.Project.Flows.{
  Flow, Requirement, missing_flow, Mapping, ContractError, ok, raise, cycle,
}
use tugling.Project.Required.{flow_ids, depends_on, required_from, required_flow_ids}
use tugling.Project.Required.Closure.{required_from_order}
use tugling.Project.Required.Named.{IsRequired, required_flow_ids-exact, required_flow_ids_total}
use tugling.Project.Cycles.{visit_all}
use tugling.Project.Cycles.Sound.{Chain, visit_all-acyclic}
use tugling.Project.Cycles.Complete.{visit_all-Cyclic}
use tugling.Project.Map.{Checkout, validate_verification_map}
use tugling.Project.Map.Accepted.{IsWellFormed, validate-IsWellFormed}
use tugling.Project.Map.Refused.{validate-cycle}
use tugling.Project.Schedule.Summaries.{execute-summary}
use tugling.Project.Results.{
  Summary, performance_summary, FlowResult, running_at, validate_execution_timing,
}
use tugling.Project.Rounding.{round_ms}
use tugling.Project.Timing.{FitsPlan, validate_execution_timing-exact}
use tugling.Project.Schedule.State.{
  Config, Running, Sched, Stop, Round, Event, Outcome, round, returned, raised, is_done,
}
use tugling.Project.Schedule.{execute_flow_plan, in_order, config_of}
use tugling.Project.Schedule.Outcomes.{execute_bounds}
use tugling.Project.Schedule.Progress.{execute-ne-raised, execute_succeeds}
use tugling.Project.Schedule.Evidence.{plan_of, execute-validates}

abbrev flow : String → List String → Flow
flow id deps = record {
  id = id;
  description = "checks";
  argv = "make" ∷ id ∷ [];
  timeout_seconds = 60;
  sources = "Makefile" ∷ [];
  runtime = none;
  depends_on = deps;
}

abbrev pub sample_flows : List Flow
sample_flows = flow "build" [] ∷ flow "lint" [] ∷ flow "test" ("build" ∷ []) ∷ []

abbrev pub sample_requirement : Requirement
sample_requirement = record {
  id = "rule";
  description = "tested";
  sources = "POLICY" ∷ [];
  flows = "test" ∷ [];
}

abbrev pub sample_map : Mapping
sample_map = record {
  schema_version = 1;
  flows = sample_flows;
  requirements = some (sample_requirement ∷ []);
  max_parallel = 2;
}

abbrev looped_flows : List Flow
looped_flows = flow "a" ("b" ∷ []) ∷ flow "b" ("a" ∷ []) ∷ []

abbrev looped_map : Mapping
looped_map = record {
  schema_version = 1;
  flows = looped_flows;
  requirements = none;
  max_parallel = 1;
}

abbrev sample_checkout : Checkout
sample_checkout = record { is_blank = λ s. str_eq s ""; is_committed = λ s. true }

sample_map_accepted : validate_verification_map sample_checkout sample_map ≡ ok sample_map
unfolding validate_verification_map visit_all tugling.Project.Cycles.visit_each
    tugling.Project.Cycles.visit depends_on tugling.Project.Required.required_of required_from
    tugling.Project.Required.close tugling.Project.Required.named_by
    tugling.Project.Required.push_each
sample_map_accepted = refl

looped_map_refused : validate_verification_map sample_checkout looped_map ≡ raise cycle
unfolding validate_verification_map visit_all tugling.Project.Cycles.visit_each
    tugling.Project.Cycles.visit depends_on
looped_map_refused = refl

sample_required : required_flow_ids sample_map ≡ ok ("build" ∷ "test" ∷ [])
unfolding required_flow_ids required_from tugling.Project.Required.close
    tugling.Project.Required.named_by tugling.Project.Required.push_each depends_on
sample_required = refl

-- The only dependency of the sample is that of `test` on `build`.
sample_depends :
    (x d : String)
    → elem d (depends_on sample_flows x) ≡ true
    → (str_eq x "test" ≡ true) × (str_eq d "build" ≡ true)
unfolding depends_on
sample_depends x d h = elim (Bool-cases (str_eq x "test")) [
  | inl e ↦ (e, let same : x ≡ "test" = (eq_iff x "test").0 e in ground arith)
  | inr ne ↦ absurd (ground arith)
]

sample_known :
    (x d : String)
    → elem d (depends_on sample_flows x) ≡ true
    → elem d (flow_ids sample_flows) ≡ true
sample_known x d h = let (_, e) = sample_depends x d h in ground (arith, eq_iff d "build")

validate-IsWellFormed_example : (sample_map ≡ sample_map) × IsWellFormed sample_map
validate-IsWellFormed_example =
    validate-IsWellFormed sample_checkout sample_map sample_map sample_map_accepted

validate-cycle_example :
    (Path ContractError cycle cycle) × ((x : String) × Chain (depends_on looped_flows) x x)
validate-cycle_example = validate-cycle sample_checkout looped_map cycle looped_map_refused refl

sample_search :
    visit_all 4 (depends_on sample_flows) (flow_ids sample_flows)
    ≡ ok ("test" ∷ "lint" ∷ "build" ∷ [])
unfolding visit_all tugling.Project.Cycles.visit_each tugling.Project.Cycles.visit depends_on
sample_search = refl

visit_all-acyclic_example : ¬ Chain (depends_on sample_flows) "test" "test"
visit_all-acyclic_example =
    visit_all-acyclic (depends_on sample_flows) 4 (flow_ids sample_flows)
      ("test" ∷ "lint" ∷ "build" ∷ []) "test" sample_search refl

looped_search : visit_all 3 (depends_on looped_flows) (flow_ids looped_flows) ≡ raise cycle
unfolding visit_all tugling.Project.Cycles.visit_each tugling.Project.Cycles.visit depends_on
looped_search = refl

looped_closed :
    (x d : String)
    → elem x (flow_ids looped_flows) ≡ true
    → elem d (depends_on looped_flows x) ≡ true
    → elem d (flow_ids looped_flows) ≡ true
unfolding depends_on
looped_closed x d m h = elim (Bool-cases (str_eq x "a")) [
  | inl e ↦ let same : x ≡ "a" = (eq_iff x "a").0 e in ground arith
  | inr ne ↦ elim (Bool-cases (str_eq x "b")) [
    | inl e ↦ let same : x ≡ "b" = (eq_iff x "b").0 e in ground arith
    | inr ne' ↦ absurd (ground arith)
  ]
]

visit_all-Cyclic_example :
    (Path ContractError cycle cycle) × ((x : String) × Chain (depends_on looped_flows) x x)
visit_all-Cyclic_example =
    visit_all-Cyclic (depends_on looped_flows) (flow_ids looped_flows) looped_closed 3 cycle
      (omega arith) looped_search

sample_closure : required_from sample_flows ("test" ∷ []) ≡ ok ("build" ∷ "test" ∷ [])
unfolding required_from tugling.Project.Required.close tugling.Project.Required.push_each depends_on
sample_closure = refl

sample_closure_again :
    required_from sample_flows ("test" ∷ "test" ∷ []) ≡ ok ("build" ∷ "test" ∷ [])
unfolding required_from tugling.Project.Required.close tugling.Project.Required.push_each depends_on
sample_closure_again = refl

required_flow_ids-exact_example :
    (elem "build" ("build" ∷ "test" ∷ []) ≡ true)
    ↔ ((elem "build" (flow_ids sample_flows) ≡ true) × IsRequired sample_map "build")
required_flow_ids-exact_example =
    required_flow_ids-exact sample_map ("build" ∷ "test" ∷ []) "build" sample_required

required_flow_ids_total_example : (ids : List String) × (required_flow_ids sample_map ≡ ok ids)
required_flow_ids_total_example =
    required_flow_ids_total sample_map sample_requirement [] refl sample_known
      (λ x h. ground (arith, eq_iff x "test"))

-- A requirement that names no flow of the map would be a KeyError.
ghost_missing : required_from sample_flows ("ghost" ∷ []) ≡ raise missing_flow
unfolding required_from tugling.Project.Required.close tugling.Project.Required.push_each depends_on
ghost_missing = refl

required_from_order_example : Path (List String) ("build" ∷ "test" ∷ []) ("build" ∷ "test" ∷ [])
required_from_order_example =
    required_from_order sample_flows ("test" ∷ []) ("test" ∷ "test" ∷ []) ("build" ∷ "test" ∷ [])
      ("build" ∷ "test" ∷ []) (λ x. (λ h. ground arith, λ h. ground arith)) sample_closure
      sample_closure_again

-- Runs: every process starts, ends with the given code, and leaves nothing behind.
abbrev pub quiet : (String → ℕ) → Event
quiet code = round (record {
  budget_delay = 1000;
  starts = λ x. true;
  launch_delay = λ x. 1000;
  poll_delay = 5000;
  exit_code = λ x. some (pos (code x));
  group_alive = λ x. false;
  finish_delay = λ x. 1000;
  stop = record {
    cleanup_fails = false;
    forced = λ x. false;
    exit_code = λ x. none;
    delay = λ x. 1000;
  };
})

abbrev sample_config : Config
sample_config = record {
  deps = depends_on sample_flows;
  argv = λ x. "make" ∷ x ∷ [];
  timeout = λ x. 60000000;
  max_parallel = 2;
  budget = some 600000000;
}

abbrev state_of : Outcome → Sched
state_of (returned s) = s
state_of (raised s) = s
state_of (tugling.Project.Schedule.State.unfinished s) = s

abbrev pub passed : String → ℕ → ℕ → FlowResult
passed id started finished = record {
  id = id;
  argv = "make" ∷ id ∷ [];
  exit_code = some (pos 0);
  failure = none;
  forced_cleanup = false;
  started = started;
  finished = finished;
  duration = finished - started;
}

abbrev sample_results : List FlowResult
sample_results =
    passed "build" 2000 9000 ∷ passed "lint" 3000 10000 ∷ passed "test" 12000 18000 ∷ []

abbrev sample_end : Sched
sample_end = record {
  clock = 18000;
  pending = [];
  active = [];
  completed = sample_results;
  failed = false;
}

abbrev two_rounds : List Event
two_rounds = quiet (λ x. 0) ∷ quiet (λ x. 0) ∷ []

sample_runs :
    execute_flow_plan sample_config (flow_ids sample_flows) two_rounds ≡ returned sample_end
unfolding execute_flow_plan tugling.Project.Schedule.run tugling.Project.Schedule.step
    tugling.Project.Schedule.after_launch tugling.Project.Schedule.poll_active
    tugling.Project.Schedule.settle tugling.Project.Schedule.poll_each
    tugling.Project.Schedule.Launch.launch tugling.Project.Schedule.Launch.start depends_on
    tugling.Project.Schedule.State.find_result
sample_runs = refl

execute_bounds_example :
    (Path (List Running) [] [])
    × ((x : String)
        → count_of (str_eq x) [] + count_of (λ (r : FlowResult). str_eq x r.id) sample_results
          ≡ (if elem x (flow_ids sample_flows) then 1 else 0))
    × ((t : ℕ) → running_at t sample_results ≤ 2)
execute_bounds_example =
    execute_bounds sample_config (flow_ids sample_flows) two_rounds sample_end (omega arith) refl
      refl sample_runs

abbrev sample_rank : String → ℕ
sample_rank x = if str_eq x "test" then 1 else 0

sample_falls :
    (x d : String)
    → elem x (flow_ids sample_flows) ≡ true
    → elem d (depends_on sample_flows x) ≡ true
    → (elem d (flow_ids sample_flows) ≡ true) × (sample_rank d < sample_rank x)
sample_falls x d m h =
    let (t, b) = sample_depends x d h in
    let same : d ≡ "build" = (eq_iff d "build").0 b in
    (sample_known x d h, rw (t, same) (omega arith))

execute-ne-raised_example :
    execute_flow_plan sample_config (flow_ids sample_flows) two_rounds ≢ raised sample_end
execute-ne-raised_example =
    execute-ne-raised sample_config (flow_ids sample_flows) sample_rank sample_falls two_rounds
      sample_end (omega arith)

execute_succeeds_example : is_done sample_results "test" ≡ true
execute_succeeds_example =
    execute_succeeds sample_config (flow_ids sample_flows) two_rounds sample_end "test"
      (omega arith) sample_runs refl refl

execute-validates_example :
    validate_execution_timing
      (in_order (flow_ids sample_flows) sample_results)
      (plan_of sample_config (flow_ids sample_flows))
    ≡ ok tt
execute-validates_example =
    execute-validates sample_config (flow_ids sample_flows) two_rounds sample_end (omega arith) refl
      (λ x d m h. sample_known x d h) sample_runs refl

validate_execution_timing-exact_example :
    (validate_execution_timing sample_results (plan_of sample_config (flow_ids sample_flows))
      ≡ ok tt)
    ↔ FitsPlan sample_results (plan_of sample_config (flow_ids sample_flows))
validate_execution_timing-exact_example =
    validate_execution_timing-exact sample_results (plan_of sample_config (flow_ids sample_flows))

execute-summary_example :
    (summary : Summary) × (performance_summary
        (in_order (flow_ids sample_flows) sample_results)
        (some 1)
      ≡ ok summary)
    × (summary.active ≤ round_ms 18000)
execute-summary_example =
    execute-summary sample_config (flow_ids sample_flows) two_rounds sample_end (some 1)
      (omega arith) sample_runs

-- A command that fails stops the others, and the run returns with the failure.
failing_run :
    (state_of
      (execute_flow_plan sample_config (flow_ids sample_flows) (quiet (λ x. 1) ∷ []))).failed
    ≡ true
unfolding execute_flow_plan tugling.Project.Schedule.run tugling.Project.Schedule.step
    tugling.Project.Schedule.after_launch tugling.Project.Schedule.poll_active
    tugling.Project.Schedule.settle tugling.Project.Schedule.poll_each
    tugling.Project.Schedule.Launch.launch tugling.Project.Schedule.Launch.start depends_on
    tugling.Project.Schedule.State.find_result
failing_run = refl
