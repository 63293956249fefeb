-- ===== src/Release/Attempts.antt =====
-- The attempts of a report in `validate_report` of pstack_release.py, and the whole of it.
use tugling.Prelude.{
  ℕ, ◌+◌, ℤ, pos, negsuc, String, Bool, true, false, not, ◌&&◌, ◌||◌, List, [], ◌∷◌, ◌++◌, Option,
  none, some, map, any, length, elem, leb, ◌==◌, if◌then◌else◌, str_eq,
}
use tugling.Prelude.Except.{Except, ok, raise, require, ◌>>=◌, ◌>>◌}
use tugling.Release.Patterns.{is_digest, is_identifier}
use tugling.Project.Map.{argv_eq}
use tugling.Release.Report.{
  PluginIdentity, EvidenceSet, Criteria, Usage, ReviewedAttempt, Review, Report, Policy,
  ReviewedReleaseError, duplicate_attempt, outside_set, no_criteria, bad_usage, relabelled,
  unresolved, unsupported_outcome, bad_evidence_set, unused_runtime, unmatched_failure,
  missing_repeat_limits, uncovered, incomplete_review, bad_match, all_areas, environments,
  extra_limits, is_subset, same_set, is_int, integer, match, identifiers, policy, check_claims,
  collect_sets, collect_runtimes,
}

abbrev pub ids_of : List ReviewedAttempt → List String
ids_of attempts = map (λ a. a.id) attempts

-- `identity in sets[name]`, false where there is no such set.
unfoldable pub in_set : List EvidenceSet → String → String → Bool
in_set [] name identity = false
in_set (s ∷ sets) name identity =
    let later = in_set sets name identity in
    if str_eq name s.id then elem identity s.attempt_ids else later

-- `attempts.get(name)`
unfoldable pub find_attempt : Option String → List ReviewedAttempt → Option ReviewedAttempt
find_attempt none attempts = none
find_attempt (some name) [] = none
find_attempt (some name) (a ∷ attempts) =
    let later = find_attempt (some name) attempts in if str_eq name a.id then some a else later

abbrev pub is_none : Option String → Bool
is_none none = true
is_none (some s) = false

abbrev match_some : (String → Bool) → Option String → Except ReviewedReleaseError (Unit {0})
match_some pattern none = raise bad_match
match_some pattern (some s) = match pattern s

-- The areas that an attempt with so many failed criteria covers.
unfoldable pub check_outcome : ReviewedAttempt → ℕ → Except ReviewedReleaseError (List String)
check_outcome a failed =
    let passes : Except ReviewedReleaseError (List String) = do
      require ((failed == 0) && str_eq a.failure_kind "none" && is_none a.resolved_by) relabelled
      ok a.areas
    in let fails : Except ReviewedReleaseError (List String) = do
      require (not (failed == 0) && str_eq a.failure_kind "environment") unresolved
      match_some is_identifier a.resolved_by
      ok []
      in if str_eq a.outcome "passed"
        then passes
        else if str_eq a.outcome "failed"
        then fails
        else raise unsupported_outcome

unfoldable pub check_usage : Usage → Except ReviewedReleaseError (Unit {0})
unfolding integer
check_usage usage = do
  input ← integer 0 100000000 usage.input_tokens
  cached ← integer 0 100000000 usage.cached_input_tokens
  output ← integer 0 100000000 usage.output_tokens
  require (not (input == 0) && leb cached input) bad_usage

-- The criteria that failed, of those that passed and failed.
unfoldable pub check_criteria : Criteria → Except ReviewedReleaseError ℕ
unfolding integer
check_criteria criteria = do
  passed ← integer 0 1000 criteria.passed
  failed ← integer 0 1000 criteria.failed
  require (not (passed + failed == 0)) no_criteria
  ok failed

-- The body of the first loop over the attempts: the areas it covers.
unfoldable pub check_attempt :
    List EvidenceSet
    → List String
    → List ReviewedAttempt
    → ReviewedAttempt
    → Except ReviewedReleaseError (List String)
unfolding integer identifiers in_set check_criteria check_usage check_outcome
check_attempt sets runtimes seen a = do
  timeout ← integer 1 600 a.timeout_seconds
  match is_identifier a.id
  match is_identifier a.scenario
  require
      (not (elem a.id (ids_of seen)) && elem a.runtime runtimes && elem a.environment environments)
      duplicate_attempt
  require (in_set sets a.evidence_set a.id) outside_set
  areas ← identifiers (some all_areas) a.areas
  match is_digest a.evidence_sha256
  match is_digest a.task_sha256
  failed ← check_criteria a.criteria
  check_usage a.usage
  check_outcome a failed

-- `seen` are the attempts so far and `covered` their areas.
unfoldable pub check_attempts :
    List EvidenceSet
    → List String
    → List ReviewedAttempt
    → List String
    → List ReviewedAttempt
    → Except ReviewedReleaseError (List String)
unfolding check_attempt
check_attempts sets runtimes seen covered [] = ok covered
check_attempts sets runtimes seen covered (a ∷ attempts) = do
  areas ← check_attempt sets runtimes seen a
  check_attempts sets runtimes (seen ++ a ∷ []) (covered ++ areas) attempts

-- A count that has passed `integer`.
abbrev pub count : ℤ → ℕ
count (pos n) = n
count (negsuc n) = 0

-- `resolution`, the attempt that a failure names, is among the later ones and repeats it with
-- success in the wider environment.
abbrev pub is_resolved_by : List ReviewedAttempt → ReviewedAttempt → ReviewedAttempt → Bool
is_resolved_by later a resolution =
    elem resolution.id (ids_of later)
    && str_eq resolution.outcome "passed"
    && str_eq resolution.scenario a.scenario
    && str_eq resolution.runtime a.runtime
    && str_eq resolution.task_sha256 a.task_sha256
    && argv_eq resolution.areas a.areas
    && str_eq a.environment "workspace-write"
    && str_eq resolution.environment "scoped-skill-directory"
    && (count a.criteria.passed + count a.criteria.failed == count resolution.criteria.passed)

-- The second loop: `attempts` are all, and the last argument those not looked at.
unfoldable pub check_failures :
    List ReviewedAttempt → List ReviewedAttempt → Except ReviewedReleaseError (Unit {0})
unfolding find_attempt
check_failures attempts [] = ok tt
check_failures attempts (a ∷ later) = do
  require
      (not (str_eq a.outcome "failed") || elim (find_attempt a.resolved_by attempts) [
        | none ↦ false
        | some r ↦ is_resolved_by later a r
      ])
      unmatched_failure
  check_failures attempts later

unfoldable pub check_review : Review → Except ReviewedReleaseError (Unit {0})
check_review review = do
  require
      (str_eq review.method "blind-output-plus-parent-trace"
        && str_eq review.reviewer_family "same-family"
        && is_int 0 review.unresolved_criteria)
      incomplete_review
  match is_digest review.evidence_sha256
  match is_digest review.trace_audit_sha256

-- What follows the loop over the attempts.
unfoldable pub check_inventory :
    Report → List String → List String → List String → Except ReviewedReleaseError (Unit {0})
unfolding check_failures check_review
check_inventory report declared runtimes covered = do
  require
      (same_set declared (ids_of report.attempts) && (length declared == length report.attempts))
      bad_evidence_set
  require (same_set runtimes (map (λ a. a.runtime) report.attempts)) unused_runtime
  check_failures report.attempts report.attempts
  require
      (not (any (λ a. str_eq a.environment "scoped-skill-directory") report.attempts)
        || is_subset extra_limits report.limitations)
      missing_repeat_limits
  require (same_set covered all_areas) uncovered
  check_review report.review

unfoldable pub validate_report :
    Policy → Report → PluginIdentity → Except ReviewedReleaseError Report
unfolding policy check_claims collect_sets collect_runtimes check_attempts check_inventory
validate_report policy_file report plugin = do
  rules ← policy policy_file
  check_claims rules report plugin
  declared ← collect_sets [] [] report.evidence_sets
  runtimes ← collect_runtimes [] report.runtimes
  covered ← check_attempts report.evidence_sets runtimes [] [] report.attempts
  check_inventory report declared runtimes covered
  ok report
