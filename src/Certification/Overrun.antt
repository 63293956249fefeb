-- ===== src/Certification/Overrun.antt =====
-- How far the receipts of a lane can pass its half of the approved tokens of certification_tasks.py.
use tugling.Prelude.{
  ℕ, ◌+◌, ◌/◌, ◌≤◌, String, Bool, true, false, ◌&&◌, List, [], ◌∷◌, ◌++◌, ◌≡◌, refl, sym, subst,
  ◌∙◌, ap, arith, some, all, any, leb, inl, inr, ◌⊎◌,
}
use tugling.Prelude.Except.{ok, ok-inj}
use tugling.Certification.Receipts.{Task, Plan, Receipt, task_for, Grader}
use tugling.Certification.Accounting.{
  Totals, same_key, is_admission, is_result, choose, admissions_of, outcomes_of, tokens, totals_of,
  account, accounting,
}
use tugling.Certification.Admission.{admit}
use tugling.Certification.Lanes.{
  check_records, emit_checkpoint, History, empty, admits, finishes, same_identity,
}
use tugling.Certification.Admission.{admission_record}
use tugling.Certification.Admitted.{admit-IsAdmissible}
use tugling.Certification.Spending.{
  outcomes_of-result, admissions_of-result, Bounded, Bounded-admission, Bounded-result, unknown,
  spent,
}
use tugling.Certification.Histories.{
  choose-append, account-eq-ok, account-accounting, all-last, result_identity, outcomes_of-fresh,
  check_records-chosen, check_records-fresh, emit-eq-ok,
}

-- No receipt reports more than so many tokens.
abbrev pub is_small : ℕ → ℕ → Receipt → Bool
is_small most_in most_out r =
    leb (tokens (λ u. u.input_tokens) r) most_in && leb (tokens (λ u. u.output_tokens) r) most_out

module _ (g : Grader) (plan : Plan) (lane : ℕ) (most_in most_out : ℕ) where
  record Inv (rs : List Receipt) : Type 0 where
    chosen : choose plan (some lane) rs ≡ ok rs
    totals : Totals
    accounted : account rs ≡ ok totals
    bounded :
        all (is_small most_in most_out) rs ≡ true
        → Bounded (λ u. u.input_tokens) (plan.input_limit / plan.lanes) most_in rs
          × Bounded (λ u. u.output_tokens) (plan.output_limit / plan.lanes) most_out rs

  empty-Inv : Inv []
  unfolding choose account admissions_of outcomes_of totals_of
  empty-Inv = record {
    chosen = refl;
    totals = totals_of [] [];
    accounted = refl;
    bounded = λ _. (
      (ground arith, λ h. absurd (ground arith), ground arith),
      (ground arith, λ h. absurd (ground arith), ground arith),
    );
  }

  -- The receipts after a checkpoint: the new one is there, or is that of another lane.
  emit-cases :
      (rs rs' : List Receipt) (r : Receipt)
      → Inv rs
      → emit_checkpoint g plan (rs ++ r ∷ []) lane ≡ ok rs'
      → (rs' ≡ rs ++ r ∷ []) ⊎ (rs' ≡ rs)
  emit-cases rs rs' r i h =
      let (picked, checked, totals, counted) = emit-eq-ok g plan lane (rs ++ r ∷ []) h in
      let (before, known, ends) = choose-append plan lane rs r picked in
      let same : before ≡ rs = ok-inj (sym known ∙ i.chosen) in
      elim ends [ inl e ↦ inl (e ∙ ap (λ l. l ++ r ∷ []) same) | inr e ↦ inr (e ∙ same) ]

  emit-Inv :
      (rs rs' : List Receipt) (r : Receipt)
      → Inv rs
      → emit_checkpoint g plan (rs ++ r ∷ []) lane ≡ ok rs'
      → ((totals : Totals)
          → account (rs ++ r ∷ []) ≡ ok totals
          → any (same_identity r) rs ≡ false
          → all (is_small most_in most_out) (rs ++ r ∷ []) ≡ true
          → Bounded (λ u. u.input_tokens) (plan.input_limit / plan.lanes) most_in (rs ++ r ∷ [])
            × Bounded
                (λ u. u.output_tokens)
                (plan.output_limit / plan.lanes)
                most_out
                (rs ++ r ∷ []))
      → Inv rs'
  emit-Inv rs rs' r i h step = elim (emit-cases rs rs' r i h) [
    | inl longer ↦
        let (picked, checked, totals, counted) = emit-eq-ok g plan lane (rs ++ r ∷ []) h in
        let checked' = subst (λ l. check_records g plan lane [] l ≡ ok tt) longer checked in
        let chosen' = check_records-chosen g plan lane [] (rs ++ r ∷ []) checked' in
        let counted' : account (rs ++ r ∷ []) ≡ ok totals =
          sym (account-accounting plan lane (rs ++ r ∷ []) chosen')
          ∙ subst (λ l. accounting plan l (some lane) ≡ ok totals) longer counted in
        subst Inv (sym longer) (record {
          chosen = chosen';
          totals = totals;
          accounted = counted';
          bounded = step totals counted' (check_records-fresh g plan lane [] rs r checked').1;
        })
    | inr same ↦ subst Inv (sym same) i
  ]

  totals-spent :
      (rs : List Receipt) (totals : Totals)
      → account rs ≡ ok totals
      → (totals.unaccounted_attempts ≡ unknown rs)
        × (totals.input_tokens ≡ spent (λ u. u.input_tokens) rs)
        × (totals.output_tokens ≡ spent (λ u. u.output_tokens) rs)
  unfolding totals_of
  totals-spent rs totals h =
      let e = (account-eq-ok rs h).1 in
      (ap (λ t. t.unaccounted_attempts) e, ap (λ t. t.input_tokens) e, ap (λ t. t.output_tokens) e)

  admits-Inv :
      (rs rs' : List Receipt) (task_id : String) (attempt : ℕ) (task : Task) (r : Receipt)
      → plan.synthetic ≡ false
      → Inv rs
      → task_for plan task_id ≡ ok task
      → task.lane ≡ lane
      → admit plan rs task_id attempt ≡ ok (some r)
      → emit_checkpoint g plan (rs ++ r ∷ []) lane ≡ ok rs'
      → Inv rs'
  unfolding admission_record
  admits-Inv rs rs' task_id attempt task r real i found here granted h =
      let (p, made) = admit-IsAdmissible plan rs task_id attempt r granted in
      let lanes : p.task.lane ≡ lane =
        ap (λ t. t.lane) (ok-inj (sym p.task_found ∙ found)) ∙ here in
      let known : p.totals.unaccounted_attempts ≡ 0 = elim p.usage_known [
        | inl e ↦ e
        | inr e ↦ absurd (cc)
      ] in
      let counted : account rs ≡ ok p.totals =
        sym (account-accounting plan lane rs i.chosen)
        ∙ subst (λ l. accounting plan rs (some l) ≡ ok p.totals) lanes p.accounted in
      let (none_left, in_eq, out_eq) = totals-spent rs p.totals counted in
      let adm : is_admission r ≡ true = ap is_admission made in
      emit-Inv rs rs' r i h (λ totals e fresh small. (
        Bounded-admission (λ u. u.input_tokens) _ most_in rs r adm (sym none_left ∙ known)
            (omega (arith, in_eq, p.input_left)),
        Bounded-admission (λ u. u.output_tokens) _ most_out rs r adm (sym none_left ∙ known)
            (omega (arith, out_eq, p.output_left)),
      ))

  finishes-Inv :
      (rs rs' : List Receipt) (r : Receipt)
      → Inv rs
      → is_result r ≡ true
      → emit_checkpoint g plan (rs ++ r ∷ []) lane ≡ ok rs'
      → Inv rs'
  finishes-Inv rs rs' r i res h = emit-Inv rs rs' r i h (λ totals e fresh small.
      let none_before = outcomes_of-fresh r rs (result_identity r rs res fresh) in
      let not_admission : is_admission r ≡ false = ground arith in
      let (earlier, last) = all-last (is_small most_in most_out) rs r small in
      let admitted =
        subst (λ os. all (λ o. any (same_key o) (admissions_of [] (rs ++ r ∷ []))) os ≡ true)
          (outcomes_of-result rs r not_admission none_before) (account-eq-ok (rs ++ r ∷ []) e).0 in
      let own =
        subst (λ l. any (same_key r) l ≡ true) (admissions_of-result rs r not_admission)
          (all-last _ (outcomes_of [] rs) r admitted).1 in
      let (low_in, low_out) = i.bounded earlier in
      (
        Bounded-result (λ u. u.input_tokens) _ most_in rs r not_admission none_before own
            (ground arith) low_in,
        Bounded-result (λ u. u.output_tokens) _ most_out rs r not_admission none_before own
            (ground arith) low_out,
      ))

  History-Inv : (rs : List Receipt) → plan.synthetic ≡ false → History g plan lane rs → Inv rs
  History-Inv rs real empty = empty-Inv
  History-Inv rs real (admits {rs = before} id attempt task r past found here granted h) =
      admits-Inv before rs id attempt task r real (History-Inv before real past) found here granted
        h
  History-Inv rs real (finishes {rs = before} r past res h) =
      finishes-Inv before rs r (History-Inv before real past) res h

  -- Whatever the jobs of a lane of a plan that is not synthetic admit and finish, the lane's
  -- receipts are always in order for `accounting`, at most one attempt is without its usage, and the
  -- tokens that are reported pass the lane's share of the limits by no more than the tokens of a
  -- single receipt: where none reports more input tokens than `most_in` and more output tokens
  -- than `most_out`, the total is at most the share and that number.
  pub overrun_le :
      (rs : List Receipt)
      → plan.synthetic ≡ false
      → History g plan lane rs
      → all (is_small most_in most_out) rs ≡ true
      → (totals : Totals) × (accounting plan rs (some lane) ≡ ok totals)
        × (totals.unaccounted_attempts ≤ 1)
        × (totals.input_tokens ≤ plan.input_limit / plan.lanes + most_in)
        × (totals.output_tokens ≤ plan.output_limit / plan.lanes + most_out)
  overrun_le rs real past small =
      let i = History-Inv rs real past in
      let (lost, in_eq, out_eq) = totals-spent rs i.totals i.accounted in
      let ((one, _, low_in), (_, _, low_out)) = i.bounded small in
      (
        i.totals,
        account-accounting plan lane rs i.chosen ∙ i.accounted,
        omega (arith, lost, one),
        omega (arith, in_eq, low_in),
        omega (arith, out_eq, low_out),
      )
