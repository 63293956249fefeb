-- ===== src/Release/Accepted.antt =====
-- What `validate_report` of pstack_release.py accepts.
use tugling.Prelude.{
  ℕ, ◌+◌, ℤ, pos, negsuc, is_zero, String, Bool, true, false, not, ◌&&◌, ◌||◌, List, [], ◌∷◌, ◌++◌,
  Option, none, some, map, all, any, length, elem, distinct, leb, ltb, ◌==◌, if◌then◌else◌, str_eq,
}
use tugling.Prelude.Except.{ok}
use tugling.Release.Report.{
  PluginIdentity, EvidenceSet, Criteria, Usage, ReviewedAttempt, Review, Report, Policy,
  ReviewedReleaseError, duplicate_attempt, outside_set, no_criteria, bad_usage, relabelled,
  unresolved, unsupported_outcome, bad_evidence_set, unused_runtime, unmatched_failure,
  missing_repeat_limits, uncovered, incomplete_review, bad_match, all_areas, environments,
  extra_limits, is_subset, same_set, is_int, integer, match, identifiers, policy, check_claims,
  collect_sets, collect_runtimes,
}
use tugling.Prelude.{
  ◌≡◌, refl, sym, ap, ◌∙◌, subst, arith, ◌⊎◌, inl, inr, All, Bool-cases, and-eq-true, ltb,
}
use tugling.Prelude.Except.{require-eq-ok, >>-eq-ok, >>=-ok-then, ok-inj}
use tugling.Prelude.Equality.{same, same-eq}
use tugling.Release.Report.{plugin_eq}
use tugling.Release.Attempts.{
  ids_of, in_set, check_attempts, check_failures, check_review, check_inventory, validate_report,
}
use tugling.Release.Reviewed.{IsPass, IsFailure}
use tugling.Release.Coverage.{attempts-AreChecked, CoveredBy, attempts-cover}
use tugling.Release.Resolved.{Resolved, failures-Resolved}

-- A review of the plugin's present content: frozen attempts with distinct ids, each a pass or an
-- environment failure that a later pass repeats, passes for every area, and nothing unresolved.
pub record IsReviewed (report : Report) (plugin : PluginIdentity) : Type 0 where
  pub current : report.plugin ≡ plugin
  pub unique : distinct (ids_of report.attempts) ≡ true
  pub frozen :
      All
        (λ a. (in_set report.evidence_sets a.evidence_set a.id ≡ true) × (IsPass a ⊎ IsFailure a))
        report.attempts
  pub covered : (area : String) → elem area all_areas ≡ true → CoveredBy report.attempts area
  pub resolved : Resolved report.attempts
  pub settled : report.review.unresolved_criteria ≡ pos 0

claims-current :
    (rules : Policy) (report : Report) (plugin : PluginIdentity)
    → check_claims rules report plugin ≡ ok tt
    → report.plugin ≡ plugin
unfolding check_claims
claims-current rules report plugin h =
    let (_, h1) =
      require-eq-ok
        (is_int 1 report.schema_version
          && str_eq report.method rules.method
          && str_eq report.scope rules.scope)
        tugling.Release.Report.unsupported_method _ h in
    let (same_plugin, _) =
      require-eq-ok (same report.plugin plugin) tugling.Release.Report.different_plugin _ h1 in
    same-eq report.plugin plugin same_plugin

review-settled :
    (review : Review) → check_review review ≡ ok tt → review.unresolved_criteria ≡ pos 0
unfolding check_review
review-settled review h =
    let (all_of, _) =
      require-eq-ok
        (str_eq review.method "blind-output-plus-parent-trace"
          && str_eq review.reviewer_family "same-family"
          && is_int 0 review.unresolved_criteria)
        incomplete_review _ h in
    zero_of review.unresolved_criteria (ground arith)
  where
    zero_of : (z : ℤ) → is_int 0 z ≡ true → z ≡ pos 0
    zero_of (pos n) h = ground (arith, h)
    zero_of (negsuc n) h = absurd (cc)

all_areas-of :
    (covered : List String) (area : String)
    → same_set covered all_areas ≡ true
    → elem area all_areas ≡ true
    → elem area covered ≡ true
all_areas-of covered area same_areas known = subset-elem all_areas covered (ground arith) area known
  where
    subset-elem :
        (xs ys : List String)
        → is_subset xs ys ≡ true
        → (x : String) → elem x xs ≡ true
        → elem x ys ≡ true
    subset-elem [] ys h x e = absurd (cc)
    subset-elem (y ∷ xs) ys h x e = elim (Bool-cases (str_eq x y)) [
      | inl here ↦
          subst (λ z. elem z ys ≡ true) (sym ((tugling.Prelude.eq_iff x y).0 here)) (ground arith)
      | inr there ↦ subset-elem xs ys (ground arith) x (ground arith)
    ]

inventory-facts :
    (report : Report) (declared runtimes covered : List String)
    → check_inventory report declared runtimes covered ≡ ok tt
    → (check_failures report.attempts report.attempts ≡ ok tt)
      × (same_set covered all_areas ≡ true)
      × (check_review report.review ≡ ok tt)
unfolding check_inventory
inventory-facts report declared runtimes covered h =
    let (_, h1) =
      require-eq-ok
        (same_set declared (ids_of report.attempts) && (length declared == length report.attempts))
        bad_evidence_set _ h in
    let (_, h2) =
      require-eq-ok (same_set runtimes (map (λ a. a.runtime) report.attempts)) unused_runtime _
        h1 in
    let (failures, h3) = >>-eq-ok (check_failures report.attempts report.attempts) _ h2 in
    let (_, h4) =
      require-eq-ok
        (not (any (λ a. str_eq a.environment "scoped-skill-directory") report.attempts)
          || is_subset extra_limits report.limitations)
        missing_repeat_limits _ h3 in
    let (areas, h5) =
      require-eq-ok (same_set covered all_areas) tugling.Release.Report.uncovered
        (check_review report.review) h4 in
    (failures, areas, h5)

-- A report that is accepted is the one given, and reviewed: of the given plugin, its attempts
-- distinct and frozen, each a pass or an environment failure, a pass for each of the areas, each
-- failure repeated by a later pass of the same scenario, runtime and task, and nothing unresolved.
pub validate_report-IsReviewed :
    (policy_file : Policy) (report accepted : Report) (plugin : PluginIdentity)
    → validate_report policy_file report plugin ≡ ok accepted
    → (report ≡ accepted) × IsReviewed report plugin
unfolding validate_report
validate_report-IsReviewed policy_file report accepted plugin h =
    >>=-ok-then (policy policy_file) _ h (λ rules _ h1.
      let (claims, h2) = >>-eq-ok (check_claims rules report plugin) _ h1 in
      >>=-ok-then (collect_sets [] [] report.evidence_sets) _ h2 (λ declared _ h3.
        >>=-ok-then (collect_runtimes [] report.runtimes) _ h3 (λ runtimes _ h4.
          >>=-ok-then (check_attempts report.evidence_sets runtimes [] [] report.attempts) _ h4
            (λ covered attempted h5.
              let (inventory, h6) =
                >>-eq-ok (check_inventory report declared runtimes covered) (ok report) h5 in
              let (failures, areas, reviewed) =
                inventory-facts report declared runtimes covered inventory in
              let checked =
                attempts-AreChecked report.evidence_sets runtimes [] [] report.attempts covered
                  attempted in
              (
                ok-inj h6,
                record {
                  current = claims-current rules report plugin claims;
                  unique = checked.unique;
                  frozen = checked.each;
                  covered = λ area known.
                      elim (attempts-cover report.evidence_sets runtimes [] [] report.attempts
                        covered area attempted (all_areas-of covered area areas known)) [
                          | inl none_ ↦ absurd (cc)
                          | inr by ↦ by
                        ];
                  resolved =
                      failures-Resolved report.attempts report.attempts (λ b m. m) checked.unique
                        failures;
                  settled = review-settled report.review reviewed;
                },
              )))))
