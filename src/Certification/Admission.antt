-- ===== src/Certification/Admission.antt =====
-- `accepted`, `admit` and `recovery` of certification_tasks.py, and the lane checkpoints of
-- certification_jobs.py.
use tugling.Prelude.{
  ℕ, zero, suc, ◌/◌, String, Bool, true, false, not, ◌&&◌, ◌||◌, List, [], ◌∷◌, ◌++◌, Option, none,
  some, all, any, keep, ltb, leb, ◌==◌, if◌then◌else◌, str_eq, ℤ, pos, negsuc,
}
use tugling.Prelude.Except.{Except, ok, raise, require, ◌>>=◌, ◌>>◌}
use tugling.Certification.Receipts.{
  Task, Plan, Usage, State, graded, task_error, infra_error, Evidence, installation, behavioral,
  failure, Execution, Kind, admission, result, Receipt, TaskError, task_for, multiple_outcomes,
  recovery_exhausted, already_admitted, diagnostic_admitted, accounting_blocked, budget_blocked,
  bad_round, stale_planner,
}
use tugling.Certification.Accounting.{
  Totals, accounting, is_admission, is_result, usage_of, same_key,
}

-- Equality of two receipts, field by field.
abbrev int_eq : ℤ → ℤ → Bool
int_eq (pos a) (pos b) = a == b
int_eq (negsuc a) (negsuc b) = a == b
int_eq _ _ = false

abbrev bool_eq : Bool → Bool → Bool
bool_eq true b = b
bool_eq false b = not b

abbrev option_eq : {A : Type 0} → (A → A → Bool) → Option A → Option A → Bool
option_eq eq none none = true
option_eq eq (some a) (some b) = eq a b
option_eq eq _ _ = false

-- Equality of two dictionaries, whose names are distinct, in whatever order.
abbrev checks_eq : List (String × Bool) → List (String × Bool) → Bool
checks_eq xs ys = all (λ x. any (same_check x) ys) xs && all (λ y. any (same_check y) xs) ys
  where
    same_check : String × Bool → String × Bool → Bool
    same_check (n, b) (m, c) = str_eq n m && bool_eq b c

abbrev usage_eq : Usage → Usage → Bool
usage_eq u v =
    (u.input_tokens == v.input_tokens)
    && (u.output_tokens == v.output_tokens)
    && (u.cached_input_tokens == v.cached_input_tokens)

abbrev execution_eq : Execution → Execution → Bool
execution_eq x y =
    int_eq x.exit_code y.exit_code
    && bool_eq x.timed_out y.timed_out
    && str_eq x.diagnostics y.diagnostics

abbrev evidence_eq : Evidence → Evidence → Bool
evidence_eq (installation p c t) (installation p' c' t') =
    bool_eq p p' && checks_eq c c' && str_eq t t'
evidence_eq (behavioral s k p t c) (behavioral s' k' p' t' c') =
    (s == s') && bool_eq k k' && bool_eq p p' && (t == t') && checks_eq c c'
evidence_eq (failure s c x) (failure s' c' x') =
    str_eq s s' && str_eq c c' && option_eq execution_eq x x'
evidence_eq _ _ = false

abbrev state_eq : State → State → Bool
state_eq graded graded = true
state_eq task_error task_error = true
state_eq infra_error infra_error = true
state_eq _ _ = false

abbrev kind_eq : Kind → Kind → Bool
kind_eq admission admission = true
kind_eq (result s u e) (result s' u' e') =
    state_eq s s' && option_eq usage_eq u u' && option_eq evidence_eq e e'
kind_eq _ _ = false

unfoldable pub receipt_eq : Receipt → Receipt → Bool
receipt_eq r q =
    (r.schema_version == q.schema_version)
    && str_eq r.manifest_id q.manifest_id
    && same_key r q
    && kind_eq r.kind q.kind

-- `item["kind"] == "result" and item["state"] != "INFRA_ERROR"`
abbrev pub is_terminal : Receipt → Bool
is_terminal r = elim r.kind [
  | admission ↦ false
  | result s u e ↦ elim s [ infra_error ↦ false | graded ↦ true | task_error ↦ true ]
]

-- The dict `results` of `accepted`, one receipt for a task.
unfoldable pub accepted_from : List Receipt → List Receipt → Except TaskError (List Receipt)
unfolding receipt_eq
accepted_from results [] = ok results
accepted_from results (r ∷ rs) =
    let same_task = λ (q : Receipt). str_eq r.task_id q.task_id in
    let conflict = any (λ q. same_task q && not (receipt_eq q r)) results in
    let next =
      if is_terminal r && not (any same_task results) then results ++ r ∷ [] else results in
    let rest = accepted_from next rs in
    if is_terminal r && conflict then raise multiple_outcomes else rest

unfoldable pub accepted : List Receipt → Except TaskError (List Receipt)
unfolding accepted_from
accepted records = accepted_from [] records

abbrev pub has_task : String → List Receipt → Bool
has_task task_id rs = any (λ r. str_eq r.task_id task_id) rs

unfoldable pub admission_record : Plan → String → ℕ → Receipt
admission_record plan task_id attempt = record {
  schema_version = plan.schema_version;
  manifest_id = plan.id;
  task_id = task_id;
  attempt = attempt;
  kind = admission;
}

-- The lane's half of the limits is used up.
abbrev pub over_budget : Plan → Totals → Bool
over_budget plan usage =
    leb (plan.input_limit / plan.lanes) usage.input_tokens
    || leb (plan.output_limit / plan.lanes) usage.output_tokens

-- `admit`, of a valid manifest. The result is `none` where the task has its outcome.
unfoldable pub admit : Plan → List Receipt → String → ℕ → Except TaskError (Option Receipt)
unfolding task_for accepted admission_record
admit plan records task_id attempt = do
  task ← task_for plan task_id
  done ← accepted records
  let rest : Except TaskError (Option Receipt) = do
    require (ltb attempt plan.max_attempts) recovery_exhausted
    require (not (any (λ r. str_eq r.task_id task_id && (r.attempt == attempt)) records))
        already_admitted
    require (not (plan.diagnostic && any is_admission records)) diagnostic_admitted
    usage ← accounting plan records (some task.lane)
    require (usage.unaccounted_attempts == 0 || plan.synthetic) accounting_blocked
    require (not (over_budget plan usage)) budget_blocked
    ok (some (admission_record plan task_id attempt))
  if has_task task_id done then ok none else rest

-- `range(n)`
abbrev pub count_down : ℕ → List ℕ
count_down zero = []
count_down (suc n) = count_down n ++ n ∷ []

-- The lanes that may admit nothing more.
unfoldable pub blocked_lanes : Plan → List Receipt → List ℕ → Except TaskError (List ℕ)
blocked_lanes plan records [] = ok []
blocked_lanes plan records (lane ∷ lanes) = do
  usage ← accounting plan records (some lane)
  rest ← blocked_lanes plan records lanes
  ok (
      if (not (usage.unaccounted_attempts == 0) && not plan.synthetic) || over_budget plan usage
      then lane ∷ rest
      else rest)

-- `results.get(attempt)`, where the last result of an attempt is kept.
abbrev pub last_result : ℕ → List Receipt → Option Receipt
last_result attempt [] = none
last_result attempt (r ∷ rs) =
    let later = last_result attempt rs in
    let this = if is_result r && (r.attempt == attempt) then some r else none in
    elim later [ some q ↦ some q | none ↦ this ]

abbrev pub reports : Option Receipt → Bool
reports none = false
reports (some q) = elim (usage_of q) [ none ↦ false | some u ↦ true ]

-- An attempt with no result, or whose result does not report its usage.
abbrev pub is_unreported : List Receipt → Receipt → Bool
is_unreported prior r = is_admission r && not (reports (last_result r.attempt prior))

-- Whether `recovery` skips a task that has no outcome in a lane that is open.
abbrev pub skips : Plan → List Receipt → Bool
skips plan prior =
    (plan.diagnostic && any is_admission prior)
    || (not plan.synthetic && any is_admission prior && any (is_unreported prior) prior)

unfoldable pub pending_tasks : Plan → List Receipt → List Receipt → List ℕ → List Task → List Task
pending_tasks plan records done blocked [] = []
pending_tasks plan records done blocked (t ∷ ts) =
    let prior = keep (λ r. str_eq r.task_id t.id) records in
    let rest = pending_tasks plan records done blocked ts in
    if has_task t.id done || any (λ lane. lane == t.lane) blocked || skips plan prior
    then rest
    else t ∷ rest

-- `recovery`, of a valid manifest. Its second test for a stale planner, in the loop over the tasks,
-- can only fail: the first one looks at every receipt.
unfoldable pub recovery : Plan → List Receipt → ℕ → Except TaskError (List Task)
unfolding accepted blocked_lanes pending_tasks
recovery plan records attempt = do
  require (leb 1 attempt && ltb attempt plan.max_attempts) bad_round
  require (not (any (λ r. leb attempt r.attempt) records)) stale_planner
  done ← accepted records
  blocked ← blocked_lanes plan records (count_down plan.lanes)
  ok (pending_tasks plan records done blocked plan.tasks)
