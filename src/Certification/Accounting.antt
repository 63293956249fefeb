-- ===== src/Certification/Accounting.antt =====
-- `accounting` and `accepted` of certification_tasks.py.
use tugling.Prelude.{
  ℕ, Bool, true, false, not, ◌&&◌, List, [], ◌∷◌, ◌++◌, Option, none, some, all, any, sum_of,
  count_of, ◌==◌, if◌then◌else◌, str_eq,
}
use tugling.Prelude.Except.{Except, ok, require, ◌>>=◌, ◌>>◌}
use tugling.Certification.Receipts.{
  Task, Plan, Usage, admission, result, Receipt, TaskError, task_for, unadmitted_result,
}

-- `(r["task_id"], r["attempt"])` equal.
abbrev pub same_key : Receipt → Receipt → Bool
same_key r q = str_eq r.task_id q.task_id && (r.attempt == q.attempt)

abbrev pub is_admission : Receipt → Bool
is_admission r = elim r.kind [ admission ↦ true | result s u e ↦ false ]

abbrev pub is_result : Receipt → Bool
is_result r = not (is_admission r)

abbrev pub usage_of : Receipt → Option Usage
usage_of r = elim r.kind [ admission ↦ none | result s u e ↦ u ]

-- `[r for r in records if lane is None or task_for(plan, r["task_id"])["lane"] == lane]`
abbrev in_lane : Option ℕ → Task → Bool
in_lane none task = true
in_lane (some lane) task = task.lane == lane

unfoldable pub choose : Plan → Option ℕ → List Receipt → Except TaskError (List Receipt)
choose plan none records = ok records
choose plan (some lane) [] = ok []
choose plan (some lane) (r ∷ rs) = do
  task ← task_for plan r.task_id
  rest ← choose plan (some lane) rs
  ok (if in_lane (some lane) task then r ∷ rest else rest)

-- Adds a key to the set `admissions`.
abbrev pub add_key : Receipt → List Receipt → List Receipt
add_key r rs = if any (same_key r) rs then rs else rs ++ r ∷ []

-- `outcomes[key] = r`
abbrev pub put : Receipt → List Receipt → List Receipt
put r [] = r ∷ []
put r (q ∷ qs) = let rest = put r qs in if same_key r q then r ∷ qs else q ∷ rest

unfoldable pub admissions_of : List Receipt → List Receipt → List Receipt
admissions_of acc [] = acc
admissions_of acc (r ∷ rs) = admissions_of (if is_admission r then add_key r acc else acc) rs

unfoldable pub outcomes_of : List Receipt → List Receipt → List Receipt
outcomes_of acc [] = acc
outcomes_of acc (r ∷ rs) = outcomes_of (if is_result r then put r acc else acc) rs

abbrev pub tokens : (Usage → ℕ) → Receipt → ℕ
tokens field r = elim (usage_of r) [ none ↦ 0 | some u ↦ field u ]

-- `key not in outcomes or outcomes[key]["usage"] is None`
abbrev pub is_known : List Receipt → Receipt → Bool
is_known outcomes a =
    any (λ r. same_key a r && elim (usage_of r) [ none ↦ false | some u ↦ true ]) outcomes

pub record Totals : Type 0 where
  pub usage : Usage
  pub open usage use *
  pub unaccounted_attempts : ℕ

unfoldable pub totals_of : List Receipt → List Receipt → Totals
totals_of admissions outcomes = record {
  usage = record {
    input_tokens = sum_of (tokens (λ u. u.input_tokens)) outcomes;
    output_tokens = sum_of (tokens (λ u. u.output_tokens)) outcomes;
    cached_input_tokens = sum_of (tokens (λ u. u.cached_input_tokens)) outcomes;
  };
  unaccounted_attempts = count_of (λ a. not (is_known outcomes a)) admissions;
}

unfoldable pub account : List Receipt → Except TaskError Totals
unfolding admissions_of outcomes_of totals_of
account chosen = do
  require (all (λ r. any (same_key r) (admissions_of [] chosen)) (outcomes_of [] chosen))
      unadmitted_result
  ok (totals_of (admissions_of [] chosen) (outcomes_of [] chosen))

unfoldable pub accounting : Plan → List Receipt → Option ℕ → Except TaskError Totals
unfolding choose account
accounting plan records lane = do chosen ← choose plan lane records; account chosen
