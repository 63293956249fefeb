-- ===== src/Certification/Admitted.antt =====
-- What a receipt that `admit` of certification_tasks.py returns has passed.
use tugling.Prelude.{
  ℕ, ◌/◌, ◌<◌, String, true, false, not, ◌&&◌, ◌||◌, List, ◌≡◌, arith, some, any, ltb, ◌==◌, str_eq,
  Bool-cases, inl, inr, ◌⊎◌,
}
use tugling.Prelude.Except.{ok, >>=-eq-ok, require-eq-ok, ok-inj}
use tugling.Certification.Receipts.{Task, Plan, Receipt, task_for}
use tugling.Certification.Accounting.{Totals, is_admission, accounting}
use tugling.Certification.Admission.{accepted, admit, over_budget, has_task, admission_record}

-- The gates of an admission of an attempt, with the receipts that its task has an outcome in.
pub record IsAdmissible (plan : Plan) (records : List Receipt) (task_id : String) (attempt : ℕ)
    : Type 0 where
  pub task : Task
  pub done : List Receipt
  pub totals : Totals
  pub task_found : task_for plan task_id ≡ ok task
  pub outcomes : accepted records ≡ ok done
  pub no_outcome : has_task task_id done ≡ false
  pub in_limit : attempt < plan.max_attempts
  pub is_new : any (λ r. str_eq r.task_id task_id && (r.attempt == attempt)) records ≡ false
  pub one_diagnostic : (plan.diagnostic && any is_admission records) ≡ false
  pub accounted : accounting plan records (some task.lane) ≡ ok totals
  pub usage_known : (totals.unaccounted_attempts ≡ 0) ⊎ (plan.synthetic ≡ true)
  pub input_left : totals.input_tokens < plan.input_limit / plan.lanes
  pub output_left : totals.output_tokens < plan.output_limit / plan.lanes

-- An attempt that `admit` admits has its task in the plan, no outcome, an attempt number below the
-- limit and no receipt yet, is the only one of a diagnostic plan, and its lane has all its usage
-- known (unless the plan is synthetic) and tokens left; the receipt is the attempt's admission.
pub admit-IsAdmissible :
    (plan : Plan) (records : List Receipt) (task_id : String) (attempt : ℕ) (r : Receipt)
    → admit plan records task_id attempt ≡ ok (some r)
    → IsAdmissible plan records task_id attempt × (r ≡ admission_record plan task_id attempt)
unfolding admit
admit-IsAdmissible plan records task_id attempt r h =
    let (task, found, h1) = >>=-eq-ok (task_for plan task_id) _ h in
    let (done, outcomes, h2) = >>=-eq-ok (accepted records) _ h1 in
    elim (Bool-cases (has_task task_id done)) [
      | inl has ↦ absurd (let e = ok-inj (rw has at h2) in cc)
      | inr no_outcome ↦
          let (low, h3) = require-eq-ok (ltb attempt plan.max_attempts) _ _ (rw no_outcome at h2) in
          let (new, h4) =
            require-eq-ok
              (not (any (λ r. str_eq r.task_id task_id && (r.attempt == attempt)) records)) _ _
              h3 in
          let (one, h5) =
            require-eq-ok (not (plan.diagnostic && any is_admission records)) _ _ h4 in
          let (totals, accounted, h6) = >>=-eq-ok (accounting plan records (some task.lane)) _ h5 in
          let (known, h7) =
            require-eq-ok (totals.unaccounted_attempts == 0 || plan.synthetic) _ _ h6 in
          let (left, h8) = require-eq-ok (not (over_budget plan totals)) _ _ h7 in
          (
            record {
              task = task;
              done = done;
              totals = totals;
              task_found = found;
              outcomes = outcomes;
              no_outcome = no_outcome;
              in_limit = ground arith;
              is_new = ground arith;
              one_diagnostic = ground arith;
              accounted = accounted;
              usage_known = ground arith;
              input_left = ground arith;
              output_left = ground arith;
            },
            ground arith,
          )
    ]

-- An attempt that satisfies all gates of an admission is admitted, with the admission as the
-- receipt.
pub admit_complete :
    (plan : Plan) (records : List Receipt) (task_id : String) (attempt : ℕ)
    → IsAdmissible plan records task_id attempt
    → admit plan records task_id attempt ≡ ok (some (admission_record plan task_id attempt))
unfolding admit
admit_complete plan records task_id attempt p =
    rw (p.task_found, p.outcomes, p.no_outcome, p.accounted)
      (ground
        (arith, p.in_limit, p.is_new, p.one_diagnostic, p.usage_known, p.input_left, p.output_left))
