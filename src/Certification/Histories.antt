-- ===== src/Certification/Histories.antt =====
-- The receipts that a serial lane of certification_jobs.py can come to, and what they spend.
use tugling.Prelude.{
  ℕ, Bool, true, false, not, ◌&&◌, List, [], ◌∷◌, ◌++◌, ◌≡◌, refl, sym, subst, ◌∙◌, ap, arith, some,
  all, any, ◌==◌, Bool-cases, inl, inr, ◌⊎◌,
}
use tugling.Prelude.Except.{ok, >>=-eq-ok, require-eq-ok, >>-eq-ok, ok-inj}
use tugling.Certification.Receipts.{Plan, Receipt, task_for, Grader, validate_record}
use tugling.Certification.Accounting.{
  Totals, same_key, is_result, choose, admissions_of, outcomes_of, totals_of, account, accounting,
}
use tugling.Certification.Admission.{accepted}
use tugling.Certification.Lanes.{
  checkpoint, check_records, validate_checkpoint, emit_checkpoint, same_identity,
}
use tugling.Certification.Keys.{any-append, outcomes_of-any}

pub choose-append :
    (plan : Plan) (lane : ℕ) (rs : List Receipt) (r : Receipt) {rs' : List Receipt}
    → choose plan (some lane) (rs ++ r ∷ []) ≡ ok rs'
    → (chosen : List Receipt) × (choose plan (some lane) rs ≡ ok chosen)
      × ((rs' ≡ chosen ++ r ∷ []) ⊎ (rs' ≡ chosen))
unfolding choose
choose-append plan lane [] r h =
    let (task, found, h1) = >>=-eq-ok (task_for plan r.task_id) _ h in
    (
      [],
      refl,
      elim (Bool-cases (task.lane == lane)) [
        | inl here ↦ inl (sym (ok-inj (rw here at h1)))
        | inr away ↦ inr (sym (ok-inj (rw away at h1)))
      ],
    )
choose-append plan lane (x ∷ rs) r h =
    let (task, found, h1) = >>=-eq-ok (task_for plan x.task_id) _ h in
    let (rest, more, h2) = >>=-eq-ok (choose plan (some lane) (rs ++ r ∷ [])) _ h1 in
    let (chosen, before, ends) = choose-append plan lane rs r more in
    elim (Bool-cases (task.lane == lane)) [
      | inl here ↦ (
        x ∷ chosen,
        rw (found, before, here),
        elim ends [
          | inl longer ↦ inl (sym (ok-inj (rw here at h2)) ∙ ap (λ l. x ∷ l) longer)
          | inr same ↦ inr (sym (ok-inj (rw here at h2)) ∙ ap (λ l. x ∷ l) same)
        ],
      )
      | inr away ↦ (
        chosen,
        rw (found, before, away),
        elim ends [
          | inl longer ↦ inl (sym (ok-inj (rw away at h2)) ∙ longer)
          | inr same ↦ inr (sym (ok-inj (rw away at h2)) ∙ same)
        ],
      )
    ]

module _ (g : Grader) (plan : Plan) (lane : ℕ) where
  pub check_records-chosen :
      (seen rs : List Receipt)
      → check_records g plan lane seen rs ≡ ok tt
      → choose plan (some lane) rs ≡ ok rs
  unfolding check_records choose
  check_records-chosen seen [] h = refl
  check_records-chosen seen (r ∷ rs) h =
      let (valid, h1) = >>-eq-ok (validate_record g plan r) _ h in
      let (task, found, h2) = >>=-eq-ok (task_for plan r.task_id) _ h1 in
      let (fresh, h3) =
        require-eq-ok (not (any (same_identity r) seen) && (task.lane == lane)) _ _ h2 in
      let here : (task.lane == lane) ≡ true = ground arith in
      rw (found, check_records-chosen (seen ++ r ∷ []) rs h3, here)

  pub check_records-fresh :
      (seen rs : List Receipt) (r : Receipt)
      → check_records g plan lane seen (rs ++ r ∷ []) ≡ ok tt
      → (any (same_identity r) seen ≡ false) × (any (same_identity r) rs ≡ false)
  unfolding check_records
  check_records-fresh seen [] r h =
      let (valid, h1) = >>-eq-ok (validate_record g plan r) _ h in
      let (task, found, h2) = >>=-eq-ok (task_for plan r.task_id) _ h1 in
      let (fresh, h3) =
        require-eq-ok (not (any (same_identity r) seen) && (task.lane == lane)) _ _ h2 in
      (ground arith, refl)
  check_records-fresh seen (x ∷ rs) r h =
      let (valid, h1) = >>-eq-ok (validate_record g plan x) _ h in
      let (task, found, h2) = >>=-eq-ok (task_for plan x.task_id) _ h1 in
      let (fresh, h3) =
        require-eq-ok (not (any (same_identity x) seen) && (task.lane == lane)) _ _ h2 in
      let (before, after) = check_records-fresh (seen ++ x ∷ []) rs r h3 in
      let split = any-append (same_identity r) seen (x ∷ []) in (ground arith, ground arith)

  -- What a checkpoint that was written has passed.
  pub emit-eq-ok :
      (rs : List Receipt) {rs' : List Receipt}
      → emit_checkpoint g plan rs lane ≡ ok rs'
      → (choose plan (some lane) rs ≡ ok rs')
        × (check_records g plan lane [] rs' ≡ ok tt)
        × (totals : Totals) × (accounting plan rs' (some lane) ≡ ok totals)
  unfolding emit_checkpoint checkpoint validate_checkpoint
  emit-eq-ok rs {rs'} h =
      let (value, made, h1) = >>=-eq-ok (checkpoint plan rs lane) _ h in
      let (chosen, picked, h2) = >>=-eq-ok (choose plan (some lane) rs) _ made in
      let (guard, h3) = require-eq-ok _ _ _ h1 in
      let (checked, h4) = >>-eq-ok (check_records g plan lane [] value.records) _ h3 in
      let (totals, counted, h5) = >>=-eq-ok (accounting plan value.records (some lane)) _ h4 in
      let (outcomes, accepts, h6) = >>=-eq-ok (accepted value.records) _ h5 in
      let same : value.records ≡ rs' = ok-inj h6 in
      let kept : chosen ≡ value.records = ap (λ v. v.records) (ok-inj h2) in
      (
        rw (picked, kept, same),
        subst (λ l. check_records g plan lane [] l ≡ ok tt) same checked,
        totals,
        subst (λ l. accounting plan l (some lane) ≡ ok totals) same counted,
      )

pub account-eq-ok :
    (rs : List Receipt) {totals : Totals}
    → account rs ≡ ok totals
    → (all (λ r. any (same_key r) (admissions_of [] rs)) (outcomes_of [] rs) ≡ true)
      × (totals ≡ totals_of (admissions_of [] rs) (outcomes_of [] rs))
unfolding account
account-eq-ok rs h =
    let (admitted, h1) =
      require-eq-ok (all (λ r. any (same_key r) (admissions_of [] rs)) (outcomes_of [] rs)) _ _ h in
    (admitted, sym (ok-inj h1))

pub account-accounting :
    (plan : Plan) (lane : ℕ) (rs : List Receipt)
    → choose plan (some lane) rs ≡ ok rs
    → accounting plan rs (some lane) ≡ account rs
unfolding accounting
account-accounting plan lane rs h = rw h

pub all-last :
    (p : Receipt → Bool) (rs : List Receipt) (r : Receipt)
    → all p (rs ++ r ∷ []) ≡ true
    → (all p rs ≡ true) × (p r ≡ true)
all-last p [] r h = ground arith
all-last p (x ∷ rs) r h = ground (arith, all-last p rs r)

pub result_identity :
    (r : Receipt) (rs : List Receipt)
    → is_result r ≡ true
    → any (same_identity r) rs ≡ false
    → any (λ q. same_key r q && is_result q) rs ≡ false
result_identity r [] res h = refl
result_identity r (q ∷ rs) res h = ground (arith, result_identity r rs res)

pub outcomes_of-fresh :
    (r : Receipt) (rs : List Receipt)
    → any (λ q. same_key r q && is_result q) rs ≡ false
    → any (same_key r) (outcomes_of [] rs) ≡ false
outcomes_of-fresh r rs h = elim (Bool-cases (any (same_key r) (outcomes_of [] rs))) [
  | inl seen ↦ elim (outcomes_of-any r [] rs seen) [ inl e ↦ absurd (cc) | inr e ↦ absurd (cc) ]
  | inr fresh ↦ fresh
]
