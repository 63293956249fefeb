-- ===== src/Project/Results.antt =====
-- The results of flows in project_contract.py and what is computed from them: `execution_plan`,
-- `performance_summary` and `validate_execution_timing`. Times are in microseconds.
pub use tugling.Prelude.Except.{ok, raise, ◌>>=◌, ◌>>◌, require, require-eq-ok, >>-eq-ok}
use tugling.Prelude.Except.{Except}
use tugling.Prelude.{
  ℕ, ◌+◌, ◌-◌, ◌*◌, max, ℤ, String, Bool, true, false, ◌&&◌, List, [], ◌∷◌, Option, none, some, map,
  all, sum_of, count_of, ltb, leb, if◌then◌else◌, str_eq,
}
use tugling.Project.Flows.{Mapping}
use tugling.Project.Required.{depends_on}
use tugling.Project.Rounding.{round_ms}

-- The `failure` strings of a flow's result.
pub data Failure : Type 0 where
  could_not_start command_failed timeout native_cleanup_incomplete : Failure
  cancelled_after_failure budget_exceeded interrupted cleanup_failed : Failure

pub record FlowResult : Type 0 where
  pub id : String
  pub argv : List String
  pub exit_code : Option ℤ
  pub failure : Option Failure
  pub forced_cleanup : Bool
  pub started : ℕ
  pub finished : ℕ
  pub duration : ℕ

-- Why a list of results is refused. That times are finite and not negative is in their type.
pub data EvidenceError : Type 0 where
  finishes_before_start duration_differs differs_from_plan overlaps_dependency : EvidenceError
  exceeds_parallel : EvidenceError

abbrev pub Checked {ℓ} : Type ℓ → Type ℓ
Checked A = Except EvidenceError A

pub record PlannedFlow : Type 0 where
  pub id : String
  pub depends_on : List String

pub record Plan : Type 0 where
  pub max_parallel : ℕ
  pub flows : List PlannedFlow

unfoldable pub execution_plan : Mapping → List String → Plan
execution_plan mapping selected = record {
  max_parallel = mapping.max_parallel;
  flows =
      map (λ flow_id. record { id = flow_id; depends_on = depends_on mapping.flows flow_id })
        selected;
}

pub record Summary : Type 0 where
  pub active : ℕ
  pub budget : Option ℕ
  pub within_budget : Bool
  pub total : ℕ
  pub slowest : List (String × ℕ)

-- `abs(a - b)`
abbrev pub dist : ℕ → ℕ → ℕ
dist a b = (a - b) + (b - a)

-- The checks of the first loop, on one result: at most two milliseconds off.
unfoldable pub check_times : FlowResult → Checked (Unit {0})
check_times r = do
  require (leb r.started r.finished) finishes_before_start
  require (leb (dist (round_ms (r.finished - r.started)) r.duration) 2000) duration_differs

unfoldable pub check_all_times : List FlowResult → Checked (Unit {0})
unfolding check_times
check_all_times [] = ok tt
check_all_times (r ∷ rs) = check_times r >> check_all_times rs

-- `max(..., default=0)` of the offsets at which results finish.
unfoldable pub latest_finish : List FlowResult → ℕ
latest_finish [] = 0
latest_finish (r ∷ rs) = max r.finished (latest_finish rs)

-- `sorted(..., key=duration, reverse=True)`, which keeps the order of equal keys.
unfoldable pub insert_slow : FlowResult → List FlowResult → List FlowResult
insert_slow r [] = r ∷ []
insert_slow r (s ∷ rs) = if leb s.duration r.duration then r ∷ s ∷ rs else s ∷ insert_slow r rs

unfoldable pub by_duration : List FlowResult → List FlowResult
unfolding insert_slow
by_duration [] = []
by_duration (r ∷ rs) = insert_slow r (by_duration rs)

-- `budget is None or active <= budget`, with a budget in seconds.
unfoldable pub fits : Option ℕ → ℕ → Bool
fits none active = true
fits (some seconds) active = leb active (seconds * 1000000)

unfoldable pub performance_summary : List FlowResult → Option ℕ → Checked Summary
unfolding check_all_times fits latest_finish by_duration
performance_summary results budget = do
  check_all_times results
  ok (record {
    active = round_ms (latest_finish results);
    budget = budget;
    within_budget = fits budget (round_ms (latest_finish results));
    total = round_ms (sum_of (λ r. r.duration) results);
    slowest = map (λ r. (r.id, r.duration)) (by_duration results);
  })

abbrev pub or_else {ℓ} : {A : Type ℓ} → Option A → Option A → Option A
or_else (some a) o = some a
or_else none o = o

-- `by_id[...]`, where the last result of an id is kept.
unfoldable pub result_of : String → List FlowResult → Option FlowResult
result_of flow_id [] = none
result_of flow_id (r ∷ rs) =
    or_else (result_of flow_id rs) (if str_eq flow_id r.id then some r else none)

-- Whether the dependency has a result, which finishes no later than `started`.
unfoldable pub is_before : List FlowResult → ℕ → String → Bool
unfolding result_of
is_before results started dependency = elim (result_of dependency results) [
  | none ↦ false
  | some s ↦ leb s.finished started
]

-- A planned flow with no result would be a KeyError; the ids are compared before.
unfoldable pub starts_after : List FlowResult → List String → Option FlowResult → Bool
unfolding is_before
starts_after results dependencies none = false
starts_after results dependencies (some r) = all (is_before results r.started) dependencies

unfoldable pub check_dependencies : List FlowResult → List PlannedFlow → Checked (Unit {0})
unfolding starts_after
check_dependencies results [] = ok tt
check_dependencies results (f ∷ planned) = do
  require (starts_after results f.depends_on (result_of f.id results)) overlaps_dependency
  check_dependencies results planned

-- Whether a result's flow ran at an instant: the interval holds its start and not its finish.
abbrev pub is_running : ℕ → FlowResult → Bool
is_running t r = leb r.started t && ltb t r.finished

-- `sum(other["started"] <= t < other["finished"] for other in results)`
abbrev pub running_at : ℕ → List FlowResult → ℕ
running_at t results = count_of (is_running t) results

-- The loop that computes `peak` over the starts of `rs`.
unfoldable pub peak : List FlowResult → List FlowResult → ℕ
peak results [] = 0
peak results (r ∷ rs) = max (running_at r.started results) (peak results rs)

-- Equality of two lists of ids.
unfoldable pub ids_eq : List String → List String → Bool
ids_eq [] [] = true
ids_eq [] (y ∷ ys) = false
ids_eq (x ∷ xs) [] = false
ids_eq (x ∷ xs) (y ∷ ys) = str_eq x y && ids_eq xs ys

unfoldable pub validate_execution_timing : List FlowResult → Plan → Checked (Unit {0})
unfolding ids_eq check_dependencies peak
validate_execution_timing results plan = do
  require (ids_eq (map (λ r. r.id) results) (map (λ f. f.id) plan.flows)) differs_from_plan
  check_dependencies results plan.flows
  require (leb (peak results results) plan.max_parallel) exceeds_parallel
