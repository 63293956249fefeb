-- ===== src/Project/Schedule/Summaries.antt =====
-- The results of `execute_flow_plan` of project_contract.py in its `performance_summary`.
use tugling.Prelude.{
  ℕ, ◌-◌, ◌≤◌, String, List, [], ◌∷◌, ◌≡◌, refl, subst, arith, Option, All, All-mono, Option-cases,
  inl, inr, sym, map, sum_of,
}
use tugling.Project.Results.{
  FlowResult, Summary, ok, check_times, check_all_times, latest_finish, fits, by_duration,
  performance_summary,
}
use tugling.Project.Schedule.State.{Config, Sched, Event, find_result, returned}
use tugling.Project.Schedule.{execute_flow_plan, in_order, put_first, flow_result}
use tugling.Project.Rounding.{round_ms, round_ms_le, round_ms_twice}
use tugling.Project.Summary.{HasTimes}
use tugling.Project.Schedule.Evidence.{find_result-All}
use tugling.Project.Schedule.Outcomes.{OutcomeInv, execute-OutcomeInv}

pub in_order-All :
    (P : FlowResult → Type 0) (xs : List String) (rs : List FlowResult)
    → All (λ r. P (flow_result r)) rs
    → All P (in_order xs rs)
unfolding in_order
in_order-All P [] rs h = tt
in_order-All P (x ∷ xs) rs h = elim (Option-cases (find_result x rs)) [
  | inl missing ↦
      subst (λ o. All P (put_first o (in_order xs rs))) (sym missing) (in_order-All P xs rs h)
  | inr (r, found) ↦
      subst (λ o. All P (put_first o (in_order xs rs))) (sym found)
        (find_result-All (λ q. P (flow_result q)) x rs r h found, in_order-All P xs rs h)
]

check_all_times_total : (rs : List FlowResult) → All HasTimes rs → check_all_times rs ≡ ok tt
unfolding check_all_times check_times
check_all_times_total [] h = refl
check_all_times_total (r ∷ rs) ((le, near), h) =
    ground (arith, le, near, check_all_times_total rs h)

-- The rounding of a result's three times keeps within the two milliseconds.
flow_result-HasTimes :
    (r : FlowResult)
    → (r.started ≤ r.finished) × (r.duration ≡ r.finished - r.started)
    → HasTimes (flow_result r)
unfolding round_ms
flow_result-HasTimes r (le, exact) = (round_ms_le r.started r.finished le, omega (arith, le))

latest_finish-le :
    (rs : List FlowResult) (m : ℕ) → All (λ r. r.finished ≤ m) rs → latest_finish rs ≤ m
unfolding latest_finish
latest_finish-le [] m h = omega arith
latest_finish-le (r ∷ rs) m (le, h) = omega (arith, le, latest_finish-le rs m h)

-- Where at least one flow may run, each run that returns, also one that failed or was interrupted,
-- has results whose rounded times `performance_summary` accepts with any budget, and the active time
-- of the summary is no later than the end of the run, rounded to milliseconds.
pub execute-summary :
    (cfg : Config) (selected : List String) (events : List Event) (s : Sched) (budget : Option ℕ)
    → 1 ≤ cfg.max_parallel
    → execute_flow_plan cfg selected events ≡ returned s
    → (summary : Summary) × (performance_summary (in_order selected s.completed) budget
        ≡ ok summary)
      × (summary.active ≤ round_ms s.clock)
unfolding performance_summary
execute-summary cfg selected events s budget pos e =
    let (inv, _) = subst (OutcomeInv cfg selected) e (execute-OutcomeInv cfg selected events pos) in
    let results = in_order selected s.completed in
    let timed = check_all_times_total results (
      in_order-All HasTimes selected s.completed (
        All-mono _ (λ r. HasTimes (flow_result r)) s.completed flow_result-HasTimes
          inv.sound.forwards)) in
    let past = latest_finish-le results (round_ms s.clock) (
      in_order-All (λ r. r.finished ≤ round_ms s.clock) selected s.completed
        (All-mono _ (λ r. round_ms r.finished ≤ round_ms s.clock) s.completed
          (λ r h. round_ms_le r.finished s.clock h) inv.sound.past_finishes)) in
    let summary : Summary = record {
      active = round_ms (latest_finish results);
      budget = budget;
      within_budget = fits budget (round_ms (latest_finish results));
      total = round_ms (sum_of (λ r. r.duration) results);
      slowest = map (λ r. (r.id, r.duration)) (by_duration results);
    } in
    let last : summary.active ≤ round_ms s.clock =
      subst (λ n. summary.active ≤ n) (round_ms_twice s.clock)
        (round_ms_le (latest_finish results) (round_ms s.clock) past) in
    (summary, rw timed, last)
