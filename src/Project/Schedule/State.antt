-- ===== src/Project/Schedule/State.antt =====
-- The variables of `execute_flow_plan` of project_contract.py, and what a round of its loop sees of
-- the processes, the signals and the clock.
use tugling.Prelude.{
  ℕ, ℤ, is_zero, String, Bool, true, false, ◌&&◌, List, [], ◌∷◌, Option, none, some, if◌then◌else◌,
  str_eq,
}
use tugling.Project.Results.{Failure, FlowResult, command_failed, native_cleanup_incomplete}

-- What the loop reads of a plan: `by_id`, `max_parallel` and `active_budget` in microseconds.
pub record Config : Type 0 where
  pub deps : String → List String
  pub argv : String → List String
  pub timeout : String → ℕ
  pub max_parallel : ℕ
  pub budget : Option ℕ

-- A value of the dict `active`, with its key.
pub record Running : Type 0 where
  pub id : String
  pub started : ℕ

-- The variables of the loop, and the monotonic clock since `run_started`. The dict `completed` is
-- in the order of assignment.
pub record Sched : Type 0 where
  pub clock : ℕ
  pub pending : List String
  pub active : List Running
  pub completed : List FlowResult
  pub failed : Bool

-- What `stop_process_groups` reports: that it raised, or the flows whose group it had to stop; and
-- what `process.poll()` says afterwards. Each reading of the clock is later by a delay.
pub record Stop : Type 0 where
  pub cleanup_fails : Bool
  pub forced : String → Bool
  pub exit_code : String → Option ℤ
  pub delay : String → ℕ

-- What one round of the loop sees outside: `Popen` may fail, a process may have ended, its group
-- may be alive.
pub record Round : Type 0 where
  pub budget_delay : ℕ
  pub starts : String → Bool
  pub launch_delay : String → ℕ
  pub poll_delay : ℕ
  pub exit_code : String → Option ℤ
  pub group_alive : String → Bool
  pub finish_delay : String → ℕ
  pub stop : Stop

-- `completed.get(flow_id)`. No id is assigned twice.
unfoldable pub find_result : String → List FlowResult → Option FlowResult
find_result flow_id [] = none
find_result flow_id (r ∷ rs) = if str_eq flow_id r.id then some r else find_result flow_id rs

abbrev pub succeeded : Option FlowResult → Bool
succeeded none = false
succeeded (some r) = elim r.failure [ none ↦ true | some f ↦ false ]

-- `dependency in completed and completed[dependency]["failure"] is None`
abbrev pub is_done : List FlowResult → String → Bool
is_done completed d = succeeded (find_result d completed)

-- What polling an active flow finds.
pub data Verdict : Type 0 where
  running : Verdict
  cancel : Failure → Verdict
  ended : ℤ → Option Failure → Verdict

abbrev pub exit_failure : ℤ → Option Failure
exit_failure code = if is_zero code then none else some command_failed

-- `failure or "native-cleanup-incomplete"`
abbrev pub or_incomplete : Option Failure → Failure
or_incomplete none = native_cleanup_incomplete
or_incomplete (some f) = f

-- `(overrides or {}).get(flow_id, reason)`
abbrev pub override : String → List (String × Failure) → Failure → Failure
override flow_id [] reason = reason
override flow_id ((x, f) ∷ rest) reason =
    if str_eq flow_id x then f else override flow_id rest reason

-- `pending.remove(flow_id)`
unfoldable pub remove : String → List String → List String
remove x [] = []
remove x (y ∷ ys) = if str_eq x y then ys else y ∷ remove x ys

-- The loop over `active` so far: the flows still active stand in `sched.active`.
pub record Polled : Type 0 where
  pub sched : Sched
  pub reasons : List (String × Failure)
  pub failure_found : Bool

-- How a round leaves the loop: on, by `break`, or by the error that no progress can be made.
pub data Next : Type 0 where
  go_on leave no_progress : Sched → Next

-- A round, or a `KeyboardInterrupt` between rounds.
pub data Event : Type 0 where
  round : Round → Event
  interrupt : Stop → Event

-- `unfinished` is the model's own: the events ran out before the loop did.
pub data Outcome : Type 0 where
  returned raised unfinished : Sched → Outcome

abbrev pub is_nil {ℓ} : {A : Type ℓ} → List A → Bool
is_nil [] = true
is_nil (x ∷ xs) = false

abbrev pub is_some {ℓ} : {A : Type ℓ} → Option A → Bool
is_some none = false
is_some (some a) = true

-- `not (pending or active)`
abbrev pub is_over : Sched → Bool
is_over s = is_nil s.pending && is_nil s.active
