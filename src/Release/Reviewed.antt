-- ===== src/Release/Reviewed.antt =====
-- What a report that `validate_report` of pstack_release.py accepts shows: its attempts.
use tugling.Prelude.{
  ℕ, ◌+◌, ℤ, pos, negsuc, String, true, false, not, ◌&&◌, List, [], some, elem, ltb, ◌==◌, str_eq,
}
use tugling.Prelude.Except.{ok}
use tugling.Release.Patterns.{is_digest, is_identifier}
use tugling.Release.Report.{
  PluginIdentity, EvidenceSet, Criteria, Usage, ReviewedAttempt, Review, Report, Policy,
  ReviewedReleaseError, duplicate_attempt, outside_set, no_criteria, bad_usage, relabelled,
  unresolved, unsupported_outcome, bad_evidence_set, unused_runtime, unmatched_failure,
  missing_repeat_limits, uncovered, incomplete_review, bad_match, all_areas, environments,
  extra_limits, is_subset, same_set, is_int, integer, match, identifiers, policy, check_claims,
  collect_sets, collect_runtimes,
}
use tugling.Prelude.{
  ◌≡◌, sym, ap, ◌∙◌, subst, arith, ◌⊎◌, inl, inr, Bool-cases, if_true, if_false, eq_iff, ltb,
}
use tugling.Prelude.Except.{require-eq-ok, >>-eq-ok, >>=-ok-then, ok-inj}
use tugling.Release.Attempts.{
  ids_of, in_set, is_none, check_outcome, check_usage, check_criteria, check_attempt, count,
}

-- A pass has no failed criteria and at least one that passed.
pub record IsPass (a : ReviewedAttempt) : Type 0 where
  pub outcome : a.outcome ≡ "passed"
  pub failed : a.criteria.failed ≡ pos 0
  pub passed : ltb 0 (count a.criteria.passed) ≡ true

-- Any other attempt failed, in criteria and by its environment.
pub record IsFailure (a : ReviewedAttempt) : Type 0 where
  pub outcome : a.outcome ≡ "failed"
  pub failed : ltb 0 (count a.criteria.failed) ≡ true
  pub kind : a.failure_kind ≡ "environment"

integer-ok : (low high n : ℕ) (z : ℤ) → integer low high z ≡ ok n → z ≡ pos n
unfolding integer
integer-ok low high n (negsuc m) h = absurd (cc)
integer-ok low high n (pos m) h =
    let (_, k) = require-eq-ok _ tugling.Release.Report.bad_count _ h in ap pos (ok-inj k)

criteria-ok :
    (c : Criteria) (failed : ℕ)
    → check_criteria c ≡ ok failed
    → (passed : ℕ) × (c.passed ≡ pos passed)
      × (c.failed ≡ pos failed)
      × (not (passed + failed == 0) ≡ true)
unfolding check_criteria
criteria-ok c failed h = >>=-ok-then (integer 0 1000 c.passed) _ h (λ p is_p h1.
    >>=-ok-then (integer 0 1000 c.failed) _ h1 (λ f is_f h2.
      let (some_, h3) = require-eq-ok (not (p + f == 0)) no_criteria _ h2 in
      let same_count : f ≡ failed = ok-inj h3 in
      (
        p,
        integer-ok 0 1000 p c.passed is_p,
        integer-ok 0 1000 f c.failed is_f ∙ ap pos same_count,
        subst (λ x. not (p + x == 0) ≡ true) same_count some_,
      )))

abbrev pub Verdict : ReviewedAttempt → List String → Type 0
Verdict a covered = (IsPass a × (covered ≡ a.areas)) ⊎ (IsFailure a × (covered ≡ []))

outcome-Verdict :
    (a : ReviewedAttempt) (passed failed : ℕ) (covered : List String)
    → a.criteria.passed ≡ pos passed
    → a.criteria.failed ≡ pos failed
    → not (passed + failed == 0) ≡ true
    → check_outcome a failed ≡ ok covered
    → Verdict a covered
unfolding check_outcome
outcome-Verdict a passed failed covered is_p is_f some_ h =
    elim (Bool-cases (str_eq a.outcome "passed")) [
      | inl yes_ ↦
          let (fine, k) =
            require-eq-ok ((failed == 0) && str_eq a.failure_kind "none" && is_none a.resolved_by)
              relabelled _ (sym (if_true _ _ _ yes_) ∙ h) in
          let zero_ : failed ≡ 0 = ground arith in
          let none_ : ltb 0 passed ≡ true = ground (arith, some_, zero_) in
          inl (
            record {
              outcome = (eq_iff a.outcome "passed").0 yes_;
              failed = is_f ∙ ap pos zero_;
              passed = subst (λ z. ltb 0 (count z) ≡ true) (sym is_p) none_;
            },
            sym (ok-inj k),
          )
      | inr no_ ↦ elim (Bool-cases (str_eq a.outcome "failed")) [
        | inl yes_ ↦
            let (bad, k) =
              require-eq-ok (not (failed == 0) && str_eq a.failure_kind "environment") unresolved _
                (sym (if_true _ _ _ yes_) ∙ sym (if_false _ _ _ no_) ∙ h) in
            let (_, k') = >>-eq-ok _ (ok []) k in
            let some_failed : ltb 0 failed ≡ true = ground arith in
            inr (
              record {
                outcome = (eq_iff a.outcome "failed").0 yes_;
                failed = subst (λ z. ltb 0 (count z) ≡ true) (sym is_f) some_failed;
                kind = (eq_iff a.failure_kind "environment").0 (ground arith);
              },
              sym (ok-inj k'),
            )
        | inr other ↦
            absurd (let k = sym (if_false _ _ _ other) ∙ sym (if_false _ _ _ no_) ∙ h in cc)
      ]
    ]

-- What the first loop has checked of an attempt.
pub record IsChecked (sets : List EvidenceSet) (runtimes : List String)
    (seen : List ReviewedAttempt) (a : ReviewedAttempt) (covered : List String) : Type 0 where
  pub fresh : elem a.id (ids_of seen) ≡ false
  pub ran : elem a.runtime runtimes ≡ true
  pub bound : in_set sets a.evidence_set a.id ≡ true
  pub verdict : Verdict a covered

pub attempt-IsChecked :
    (sets : List EvidenceSet) (runtimes : List String) (seen : List ReviewedAttempt)
    (a : ReviewedAttempt) (covered : List String)
    → check_attempt sets runtimes seen a ≡ ok covered
    → IsChecked sets runtimes seen a covered
unfolding check_attempt
attempt-IsChecked sets runtimes seen a covered h =
    >>=-ok-then (integer 1 600 a.timeout_seconds) _ h (λ t _ h1.
      let (_, h2) = require-eq-ok (is_identifier a.id) bad_match _ h1 in
      let (_, h3) = require-eq-ok (is_identifier a.scenario) bad_match _ h2 in
      let (known, h4) =
        require-eq-ok
          (not (elem a.id (ids_of seen))
            && elem a.runtime runtimes
            && elem a.environment environments)
          duplicate_attempt _ h3 in
      let (bound, h5) = require-eq-ok (in_set sets a.evidence_set a.id) outside_set _ h4 in
      >>=-ok-then (identifiers (some all_areas) a.areas) _ h5 (λ areas _ h6.
        let (_, h7) = require-eq-ok (is_digest a.evidence_sha256) bad_match _ h6 in
        let (_, h8) = require-eq-ok (is_digest a.task_sha256) bad_match _ h7 in
        >>=-ok-then (check_criteria a.criteria) _ h8 (λ failed counted h9.
          let (_, h10) = >>-eq-ok (check_usage a.usage) (check_outcome a failed) h9 in
          let (passed, is_p, is_f, some_) = criteria-ok a.criteria failed counted in
          record {
            fresh = ground arith;
            ran = ground arith;
            bound = bound;
            verdict = outcome-Verdict a passed failed covered is_p is_f some_ h10;
          })))
