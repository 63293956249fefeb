-- ===== src/Certification/Lanes.antt =====
-- The checkpoints of certification_jobs.py: what `emit_checkpoint` writes, what
-- `validate_checkpoint` accepts, and the histories of one serial lane.
use tugling.Prelude.{
  ℕ, String, Bool, true, not, ◌&&◌, ◌||◌, List, [], ◌∷◌, ◌++◌, ◌≡◌, some, length, any, ltb, leb,
  ◌==◌, str_eq,
}
use tugling.Prelude.Except.{Except, ok, require, ◌>>=◌, ◌>>◌}
use tugling.Certification.Receipts.{
  Task, Plan, Receipt, TaskError, task_for, bad_checkpoint, duplicate_receipt, Grader,
  validate_record,
}
use tugling.Certification.Accounting.{is_admission, is_result, same_key, choose, accounting}
use tugling.Certification.Admission.{accepted, admit}

pub record Checkpoint : Type 0 where
  pub schema_version : ℕ
  pub manifest_id : String
  pub lane : ℕ
  pub generation : ℕ
  pub records : List Receipt

-- `MAX_RECORDS`: 91 tasks, three attempts, two receipts each.
abbrev pub max_records : ℕ
max_records = 546

unfoldable pub checkpoint : Plan → List Receipt → ℕ → Except TaskError Checkpoint
checkpoint plan records lane = do
  chosen ← choose plan (some lane) records
  ok (record {
    schema_version = 1;
    manifest_id = plan.id;
    lane = lane;
    generation = length chosen;
    records = chosen;
  })

-- `(task_id, attempt, kind)` equal.
abbrev pub same_identity : Receipt → Receipt → Bool
same_identity r q =
    same_key r q && ((is_admission r && is_admission q) || (is_result r && is_result q))

module _ (g : Grader) where
  -- The loop over the records; `seen` holds those before.
  unfoldable pub check_records :
      Plan → ℕ → List Receipt → List Receipt → Except TaskError (Unit {0})
  check_records plan lane seen [] = ok tt
  check_records plan lane seen (r ∷ rs) = do
    validate_record g plan r
    task ← task_for plan r.task_id
    require (not (any (same_identity r) seen) && (task.lane == lane)) duplicate_receipt
    check_records plan lane (seen ++ r ∷ []) rs

  unfoldable pub validate_checkpoint : Plan → Checkpoint → ℕ → Except TaskError (List Receipt)
  unfolding check_records accepted
  validate_checkpoint plan value lane = do
    require
        (ltb lane plan.lanes
          && (value.schema_version == 1)
          && str_eq value.manifest_id plan.id
          && (value.lane == lane)
          && leb (length value.records) max_records
          && (value.generation == length value.records))
        bad_checkpoint
    check_records plan lane [] value.records
    totals ← accounting plan value.records (some lane)
    outcomes ← accepted value.records
    ok value.records

  -- `emit_checkpoint`: the records that the lane goes on with.
  unfoldable pub emit_checkpoint : Plan → List Receipt → ℕ → Except TaskError (List Receipt)
  unfolding checkpoint validate_checkpoint
  emit_checkpoint plan records lane = do
    value ← checkpoint plan records lane
    validate_checkpoint plan value lane

  -- The histories of a lane: a job `admit`s an attempt of a task of the lane, or `finish`es one
  -- with the result of a worker, and writes the checkpoint.
  pub data History (plan : Plan) (lane : ℕ) : List Receipt → Type 0 where
    empty : History plan lane []
    admits :
        {rs rs' : List Receipt} (task_id : String) (attempt : ℕ) (task : Task) (r : Receipt)
        → History plan lane rs
        → task_for plan task_id ≡ ok task
        → task.lane ≡ lane
        → admit plan rs task_id attempt ≡ ok (some r)
        → emit_checkpoint plan (rs ++ r ∷ []) lane ≡ ok rs'
        → History plan lane rs'
    finishes :
        {rs rs' : List Receipt} (r : Receipt)
        → History plan lane rs
        → is_result r ≡ true
        → emit_checkpoint plan (rs ++ r ∷ []) lane ≡ ok rs'
        → History plan lane rs'
