-- ===== src/Project/Schedule.antt =====
-- `execute_flow_plan` of project_contract.py: the loop that runs a dependency graph of commands
-- with bounded parallelism. The processes, signals and clock are what the rounds report.
pub mod State
pub mod Launch
pub mod Invariant
pub mod Keeps
pub mod Waits
pub mod Outcomes
pub mod Progress
pub mod Evidence
pub mod Codes
pub mod Summaries
use tugling.Prelude.{
  ℕ, zero, suc, ◌+◌, ◌-◌, ◌*◌, ℤ, is_zero, String, Bool, true, false, not, ◌&&◌, ◌||◌, List, [],
  ◌∷◌, ◌++◌, Option, none, some, map, length, all, elem, ltb, leb, if◌then◌else◌, str_eq,
}
use tugling.Project.Flows.{Flow, Mapping}
use tugling.Project.Required.{depends_on}
use tugling.Project.Rounding.{round_ms}
use tugling.Project.Results.{
  Failure, FlowResult, could_not_start, command_failed, timeout, native_cleanup_incomplete,
  cancelled_after_failure, budget_exceeded, interrupted, cleanup_failed,
}
use tugling.Project.Schedule.State.{
  Config, Running, Sched, Stop, Round, find_result, succeeded, is_done, Verdict, exit_failure,
  or_incomplete, override, remove, Polled, Next, Event, Outcome, is_nil, is_some, is_over, running,
  cancel, ended, go_on, leave, no_progress, round, interrupt, returned, raised, unfinished,
}
use tugling.Project.Schedule.Launch.{
  next_ready, ended_flow, stop_each, cancel_active, start, launch,
}

-- The variables before the loop.
unfoldable pub initial : List String → Sched
initial selected = record {
  clock = 0;
  pending = selected;
  active = [];
  completed = [];
  failed = false;
}

module _ (cfg : Config) where
  unfoldable pub poll : Round → ℕ → Running → Verdict
  poll e now r = elim (e.exit_code r.id) [
    | none ↦ if leb (cfg.timeout r.id) (now - r.started) then cancel timeout else running
    | some code ↦
        if e.group_alive r.id
        then cancel (or_incomplete (exit_failure code))
        else ended code (exit_failure code)
  ]

  unfoldable pub poll_step : Round → Polled → Running → Verdict → Polled
  unfolding ended_flow
  poll_step e p r running = record p {
    sched = record p.sched { active = p.sched.active ++ r ∷ [] };
  }
  poll_step e p r (cancel f) = record p {
    sched = record p.sched { active = p.sched.active ++ r ∷ [] };
    reasons = p.reasons ++ (r.id, f) ∷ [];
  }
  poll_step e p r (ended code failure) =
      let later = p.sched.clock + e.finish_delay r.id in
      record p {
        sched = record p.sched {
          clock = later;
          completed = p.sched.completed ++ ended_flow cfg r later (some code) failure false ∷ [];
        };
        failure_found = p.failure_found || is_some failure;
      }

  -- `for flow_id, ... in list(active.items())`
  unfoldable pub poll_each : Round → ℕ → Polled → List Running → Polled
  unfolding poll poll_step
  poll_each e now p [] = p
  poll_each e now p (r ∷ rs) = poll_each e now (poll_step e p r (poll e now r)) rs

  -- What follows the loop over `active`.
  unfoldable pub settle : Round → Polled → Sched
  unfolding cancel_active
  settle e p =
      if not (is_nil p.reasons)
      then cancel_active cfg e.stop cancelled_after_failure p.reasons p.sched
      else if p.failure_found
      then cancel_active cfg e.stop cancelled_after_failure [] p.sched
      else p.sched

  unfoldable pub poll_active : Round → Sched → Sched
  unfolding poll_each settle
  poll_active e s =
      let now = s.clock + e.poll_delay in
      settle e (
        poll_each e now
          (record {
            sched = record s { clock = now; active = [] };
            reasons = [];
            failure_found = false;
          })
          s.active)

  -- The part of a round behind the launches.
  unfoldable pub after_launch : Round → Sched → Next
  unfolding poll_active
  after_launch e s =
      if s.failed
      then leave s
      else if is_nil s.active
      then (if is_nil s.pending then leave s else no_progress s)
      else go_on (poll_active e s)

  -- The branch on an exceeded budget with nothing active: the first pending flow is reported.
  unfoldable pub expire : Round → List String → Sched → Sched
  unfolding ended_flow
  expire e [] s = s
  expire e (x ∷ xs) s =
      let now = s.clock + e.launch_delay x in
      let later = now + e.finish_delay x in
      record s {
        clock = later;
        pending = xs;
        completed =
            s.completed
            ++ ended_flow cfg (record { id = x; started = now }) later none (some budget_exceeded)
                false
              ∷ [];
        failed = true;
      }

  abbrev pub budget_spent : ℕ → Bool
  budget_spent now = elim cfg.budget [ none ↦ false | some budget ↦ leb budget now ]

  -- The body of `while pending or active`.
  unfoldable pub step : Round → Sched → Next
  unfolding launch after_launch cancel_active expire
  step e s =
      let now = s.clock + e.budget_delay in
      let s' = record s { clock = now } in
      if budget_spent now
      then (if is_nil s.active
          then leave (expire e s.pending s')
          else leave (cancel_active cfg e.stop budget_exceeded [] s'))
      else after_launch e (launch cfg (length s.pending) e s')

  unfoldable pub run : List Event → Sched → Outcome
  unfolding step
  run [] s = if is_over s then returned s else unfinished s
  run (interrupt st ∷ es) s =
      if is_over s then returned s else returned (cancel_active cfg st interrupted [] s)
  run (round e ∷ es) s = elim (is_over s) [
    | true ↦ returned s
    | false ↦ elim (step e s) [
      | go_on s' ↦ run es s'
      | leave s' ↦ returned s'
      | no_progress s' ↦ raised s'
    ]
  ]

  unfoldable pub execute_flow_plan : List String → List Event → Outcome
  unfolding run initial
  execute_flow_plan selected events = run events (initial selected)

-- The three times of `flow_result`, each rounded for itself.
abbrev pub flow_result : FlowResult → FlowResult
flow_result r = record r {
  started = round_ms r.started;
  finished = round_ms r.finished;
  duration = round_ms (r.finished - r.started);
}

abbrev pub put_first : Option FlowResult → List FlowResult → List FlowResult
put_first none rest = rest
put_first (some r) rest = flow_result r ∷ rest

-- `[completed[flow_id] for flow_id in selected if flow_id in completed]`
unfoldable pub in_order : List String → List FlowResult → List FlowResult
unfolding find_result
in_order [] completed = []
in_order (x ∷ xs) completed = put_first (find_result x completed) (in_order xs completed)

-- `by_id.get(flow_id)`, where `by_id` keeps the last flow of an id.
unfoldable pub flow_of : List Flow → String → Option Flow
flow_of [] x = none
flow_of (f ∷ flows) x =
    let later = flow_of flows x in
    elim later [ some g ↦ some g | none ↦ if str_eq x f.id then some f else none ]

-- `by_id[flow_id]["argv"]` and `["timeout_seconds"]`, in microseconds; the map has every id.
unfoldable pub argv_of : List Flow → String → List String
unfolding flow_of
argv_of flows x = elim (flow_of flows x) [ none ↦ [] | some f ↦ f.argv ]

unfoldable pub timeout_of : List Flow → String → ℕ
unfolding flow_of
timeout_of flows x = elim (flow_of flows x) [ none ↦ 0 | some f ↦ f.timeout_seconds * 1000000 ]

-- What the loop reads of a mapping and of the budget in seconds.
unfoldable pub config_of : Mapping → Option ℕ → Config
config_of mapping budget = record {
  deps = depends_on mapping.flows;
  argv = argv_of mapping.flows;
  timeout = timeout_of mapping.flows;
  max_parallel = mapping.max_parallel;
  budget = elim budget [ none ↦ none | some seconds ↦ some (seconds * 1000000) ];
}
