-- ===== src/Project/Schedule/Launch.antt =====
-- `execute_flow_plan` of project_contract.py: results, cancellation and launches.
use tugling.Prelude.{
  ℕ, zero, suc, ◌+◌, ◌-◌, ℤ, String, Bool, true, false, not, ◌&&◌, ◌||◌, List, [], ◌∷◌, ◌++◌,
  Option, none, some, length, all, ltb, if◌then◌else◌,
}
use tugling.Project.Results.{
  Failure, FlowResult, could_not_start, cancelled_after_failure, cleanup_failed,
}
use tugling.Project.Schedule.State.{Config, Running, Sched, Stop, Round, is_done, override, remove}

module _ (cfg : Config) where
  -- The key of the `next(...)` over `pending`.
  unfoldable pub next_ready : List FlowResult → List String → Option String
  next_ready completed [] = none
  next_ready completed (x ∷ xs) =
      if all (is_done completed) (cfg.deps x) then some x else next_ready completed xs

  -- `flow_result` at the clock's new reading, before its times are rounded: the loop reads the
  -- results' ids and failures only, and `in_order` rounds the times.
  unfoldable pub ended_flow : Running → ℕ → Option ℤ → Option Failure → Bool → FlowResult
  ended_flow r finished exit_code failure forced = record {
    id = r.id;
    argv = cfg.argv r.id;
    exit_code = exit_code;
    failure = failure;
    forced_cleanup = forced;
    started = r.started;
    finished = finished;
    duration = finished - r.started;
  }

  -- The result of one flow that `cancel_active` stopped.
  unfoldable pub stop_one : Stop → Failure → List (String × Failure) → Sched → Running → Sched
  unfolding ended_flow
  stop_one stop reason overrides s r =
      let now = s.clock + stop.delay r.id in
      let failure = if stop.cleanup_fails then cleanup_failed else override r.id overrides reason in
      let forced = stop.cleanup_fails || stop.forced r.id in
      let result = ended_flow r now (stop.exit_code r.id) (some failure) forced in
      record s { clock = now; completed = s.completed ++ result ∷ [] }

  unfoldable pub stop_each : Stop → Failure → List (String × Failure) → Sched → List Running → Sched
  unfolding stop_one
  stop_each stop reason overrides s [] = s
  stop_each stop reason overrides s (r ∷ rs) =
      stop_each stop reason overrides (stop_one stop reason overrides s r) rs

  unfoldable pub cancel_active : Stop → Failure → List (String × Failure) → Sched → Sched
  unfolding stop_each
  cancel_active stop reason overrides s =
      stop_each stop reason overrides (record s { active = []; failed = true }) s.active

  -- The `except OSError` of a launch, before it cancels the rest.
  unfoldable pub report_start : Round → String → Sched → Sched
  unfolding remove ended_flow
  report_start e x s =
      let now = s.clock + e.launch_delay x in
      let later = now + e.finish_delay x in
      let r : Running = record { id = x; started = now } in
      record s {
        clock = later;
        pending = remove x s.pending;
        completed = s.completed ++ ended_flow r later none (some could_not_start) false ∷ [];
      }

  -- One flow that is ready: its process starts, or the run is cancelled.
  unfoldable pub start : Round → String → Sched → Sched
  unfolding report_start cancel_active
  start e x s =
      let now = s.clock + e.launch_delay x in
      let r : Running = record { id = x; started = now } in
      if e.starts x
      then record s { clock = now; pending = remove x s.pending; active = s.active ++ r ∷ [] }
      else cancel_active e.stop cancelled_after_failure [] (report_start e x s)

  -- `while not failed and len(active) < max_parallel`; each round takes one of `pending`.
  unfoldable pub launch : ℕ → Round → Sched → Sched
  unfolding start next_ready
  launch zero e s = s
  launch (suc n) e s = elim (not s.failed && ltb (length s.active) cfg.max_parallel) [
    | false ↦ s
    | true ↦ elim (next_ready s.completed s.pending) [
      | none ↦ s
      | some x ↦ launch n e (start e x s)
    ]
  ]
