-- ===== src/Project/Summary/Examples.antt =====
-- A summary of project_contract.py on concrete results.
use tugling.Prelude.{ℕ, ◌-◌, String, true, false, List, [], ◌∷◌, ◌≡◌, refl, none, some}
use tugling.Prelude.Except.{ok, raise}
use tugling.Project.Results.{FlowResult, Summary, performance_summary, finishes_before_start}
use tugling.Project.Rounding.{round_ms}
use tugling.Project.Summary.{IsFaithful, performance_summary-IsFaithful}

abbrev timed : String → ℕ → ℕ → FlowResult
timed id started finished = record {
  id = id;
  argv = [];
  exit_code = none;
  failure = none;
  forced_cleanup = false;
  started = started;
  finished = finished;
  duration = round_ms (finished - started);
}

abbrev three : List FlowResult
three = timed "a" 0 700000 ∷ timed "b" 0 900000 ∷ timed "c" 900000 2000400 ∷ []

-- The last flow finishes 0.4 ms after the budget, which the rounding forgives.
abbrev three_summary : Summary
three_summary = record {
  active = 2000000;
  budget = some 2;
  within_budget = true;
  total = 2700000;
  slowest = ("c", 1100000) ∷ ("b", 900000) ∷ ("a", 700000) ∷ [];
}

sums_up : performance_summary three (some 2) ≡ ok three_summary
unfolding performance_summary round_ms
sums_up = refl

refuses_reversed_times : performance_summary (timed "a" 5 2 ∷ []) none ≡ raise finishes_before_start
unfolding performance_summary
refuses_reversed_times = refl

performance_summary-IsFaithful_example : IsFaithful three (some 2) three_summary
performance_summary-IsFaithful_example =
    performance_summary-IsFaithful three (some 2) three_summary sums_up

-- An exact half goes to the even millisecond.
halves : (round_ms 1500 ≡ 2000) × (round_ms 2500 ≡ 2000) × (round_ms 2501 ≡ 3000)
unfolding round_ms
halves = (refl, refl, refl)

-- The rounded offsets of one flow may differ by more than its rounded duration.
offsets_differ : (round_ms 2501 - round_ms 499 ≡ 3000) × (round_ms (2501 - 499) ≡ 2000)
unfolding round_ms
offsets_differ = (refl, refl)
