-- ===== src/Certification/Examples.antt =====
-- A concrete plan and receipts of certification_tasks.py: tests, and each theorem's use on them.
use tugling.Prelude.{
  ℕ, ◌+◌, ◌/◌, ◌≤◌, String, true, false, List, [], ◌∷◌, ◌≡◌, refl, arith, Option, none, some, All,
}
use tugling.Prelude.Except.{ok, raise}
use tugling.Certification.Receipts.{
  Task, Plan, Usage, State, task_error, Kind, admission, result, Receipt, TaskError, Grader,
  task_for, already_admitted, accounting_blocked, budget_blocked,
}
use tugling.Certification.Accounting.{Totals, accounting}
use tugling.Certification.Admission.{admit, admission_record, recovery, accepted}
use tugling.Certification.Admitted.{IsAdmissible, admit-IsAdmissible}
use tugling.Certification.Recovering.{recovery_admits}
use tugling.Certification.Lanes.{emit_checkpoint, History, empty, admits, finishes}
use tugling.Certification.Overrun.{overrun_le}

abbrev first_task : Task
first_task = record {
  id = "t000";
  lane = 0;
  case_id = "public-install";
  condition = "candidate";
  trial = 1;
}

abbrev second_task : Task
second_task = record {
  id = "t002";
  lane = 0;
  case_id = "fix-bug";
  condition = "control";
  trial = 1;
}

abbrev sample_plan : Plan
sample_plan = record {
  id = "abc";
  schema_version = 2;
  synthetic = false;
  diagnostic = false;
  tasks = first_task ∷ second_task ∷ [];
  max_attempts = 3;
  lanes = 2;
  input_limit = 1000;
  output_limit = 400;
}

abbrev no_grader : Grader
no_grader = record {
  check_names = λ s. [];
  is_projection = λ e. true;
  valid_diagnostics = λ s. true;
}

abbrev admitted : String → ℕ → Receipt
admitted id attempt = record {
  schema_version = 2;
  manifest_id = "abc";
  task_id = id;
  attempt = attempt;
  kind = admission;
}

abbrev lost : String → ℕ → Option Usage → Receipt
lost id attempt usage = record {
  schema_version = 2;
  manifest_id = "abc";
  task_id = id;
  attempt = attempt;
  kind = result tugling.Certification.Receipts.infra_error usage none;
}

abbrev sample_usage : Usage
sample_usage = record { input_tokens = 600; output_tokens = 10; cached_input_tokens = 0 }

admits_first : admit sample_plan [] "t000" 0 ≡ ok (some (admitted "t000" 0))
unfolding admit accepted accounting
admits_first = refl

never_replays : admit sample_plan (admitted "t000" 0 ∷ []) "t000" 0 ≡ raise already_admitted
unfolding admit accepted accounting
never_replays = refl

blocks_on_unknown_usage :
    admit sample_plan (admitted "t000" 0 ∷ []) "t002" 0 ≡ raise accounting_blocked
unfolding admit accepted accounting
blocks_on_unknown_usage = refl

blocks_on_budget :
    admit sample_plan (admitted "t000" 0 ∷ lost "t000" 0 (some sample_usage) ∷ []) "t002" 0
    ≡ raise budget_blocked
unfolding admit accepted accounting
blocks_on_budget = refl

admit-IsAdmissible_example :
    IsAdmissible sample_plan [] "t000" 0
    × (admitted "t000" 0 ≡ admission_record sample_plan "t000" 0)
admit-IsAdmissible_example =
    admit-IsAdmissible sample_plan [] "t000" 0 (admitted "t000" 0) admits_first

abbrev one_failed : List Receipt
one_failed =
    admitted "t000" 0
    ∷ lost "t000" 0
        (some (record { input_tokens = 50; output_tokens = 10; cached_input_tokens = 0 }))
    ∷ []

recovers_both : recovery sample_plan one_failed 1 ≡ ok (first_task ∷ second_task ∷ [])
unfolding recovery accounting task_for
recovers_both = refl

recovery_admits_example :
    All
      (λ (t : Task).
        admit sample_plan one_failed t.id 1 ≡ ok (some (admission_record sample_plan t.id 1)))
      (first_task ∷ second_task ∷ [])
unfolding task_for
recovery_admits_example =
    recovery_admits sample_plan one_failed 1 (first_task ∷ second_task ∷ []) refl
      ((refl, omega arith), ((refl, omega arith), tt)) recovers_both

emits_first :
    emit_checkpoint no_grader sample_plan (admitted "t000" 0 ∷ []) 0 ≡ ok (admitted "t000" 0 ∷ [])
unfolding emit_checkpoint accounting task_for tugling.Certification.Receipts.validate_record
emits_first = refl

emits_second : emit_checkpoint no_grader sample_plan one_failed 0 ≡ ok one_failed
unfolding emit_checkpoint accounting task_for tugling.Certification.Receipts.validate_record
emits_second = refl

sample_lane : History no_grader sample_plan 0 one_failed
unfolding task_for
sample_lane =
    finishes
      (lost "t000" 0
        (some (record { input_tokens = 50; output_tokens = 10; cached_input_tokens = 0 })))
      (admits "t000" 0 first_task (admitted "t000" 0) empty refl refl admits_first emits_first) refl
      emits_second

overrun_le_example :
    (totals : Totals) × (accounting sample_plan one_failed (some 0) ≡ ok totals)
    × (totals.unaccounted_attempts ≤ 1)
    × (totals.input_tokens ≤ 1000 / 2 + 60)
    × (totals.output_tokens ≤ 400 / 2 + 20)
overrun_le_example = overrun_le no_grader sample_plan 0 60 20 one_failed refl sample_lane refl
