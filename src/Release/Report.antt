-- ===== src/Release/Report.antt =====
-- The reviewed report of pstack_release.py: its shape and the smaller checks of `validate_report`.
-- A record has the fields that `fields` asks for. Counts are whole numbers of either sign.
use tugling.Prelude.{
  ℕ, ℤ, pos, negsuc, String, Bool, true, false, not, ◌&&◌, List, [], ◌∷◌, ◌++◌, Option, none, some,
  map, all, length, elem, distinct, leb, ltb, ◌==◌, str_eq,
}
use tugling.Prelude.Except.{Except, ok, raise, require, ◌>>=◌, ◌>>◌}
use tugling.Prelude.Equality.{Eq, same, String-discrete}
use native.Mathlib.Decide.{ℕ_discrete}
use tugling.Release.Patterns.{is_sha, is_digest, is_identifier, is_runtime_name}
use text.Mathlib.Text.{starts_with}

pub record PluginIdentity : Type 0 where
  pub name : String
  pub version : String
  pub content_sha256 : String
  pub skills : List String

pub record EvidenceSet : Type 0 where
  pub id : String
  pub manifest_sha256 : String
  pub attempt_ids : List String

pub record ObservedRuntime : Type 0 where
  pub id : String
  pub codex_version : String
  pub model : String
  pub reasoning_effort : String

pub record Criteria : Type 0 where
  pub passed : ℤ
  pub failed : ℤ

pub record Usage : Type 0 where
  pub input_tokens : ℤ
  pub cached_input_tokens : ℤ
  pub output_tokens : ℤ

pub record ReviewedAttempt : Type 0 where
  pub id : String
  pub scenario : String
  pub areas : List String
  pub runtime : String
  pub environment : String
  pub evidence_set : String
  pub evidence_sha256 : String
  pub task_sha256 : String
  pub criteria : Criteria
  pub outcome : String
  pub failure_kind : String
  pub resolved_by : Option String
  pub usage : Usage
  pub timeout_seconds : ℤ

pub record Review : Type 0 where
  pub method : String
  pub reviewer_family : String
  pub evidence_sha256 : String
  pub trace_audit_sha256 : String
  pub unresolved_criteria : ℤ

pub record Report : Type 0 where
  pub schema_version : ℤ
  pub method : String
  pub scope : String
  pub plugin : PluginIdentity
  pub upstream_revision : String
  pub evidence_sets : List EvidenceSet
  pub runtimes : List ObservedRuntime
  pub attempts : List ReviewedAttempt
  pub review : Review
  pub limitations : List String

-- The file of `POLICY`.
pub record Policy : Type 0 where
  pub schema_version : ℤ
  pub method : String
  pub scope : String
  pub required_areas : List String
  pub allowed_environments : List String
  pub required_limitations : List String
  pub allowed_limitations : List String

-- `ReviewedReleaseError`, a constructor for each message.
pub data ReviewedReleaseError : Type 0 where
  bad_count bad_match bad_identifiers duplicate_identifiers unsupported_policy unsupported_method :
      ReviewedReleaseError
  different_plugin missing_limitations bad_inventory duplicate_set bad_runtime :
      ReviewedReleaseError
  duplicate_attempt outside_set no_criteria bad_usage relabelled unresolved unsupported_outcome :
      ReviewedReleaseError
  bad_evidence_set unused_runtime unmatched_failure missing_repeat_limits uncovered
        incomplete_review :
      ReviewedReleaseError
  bad_request not_installed stale_policy different_content unsupported_claim : ReviewedReleaseError
  different_installation bad_timestamp unexpected_files unbound_artifact unbounded_file :
      ReviewedReleaseError

abbrev pub report_method : String
report_method = "pstack-eval"

abbrev pub report_scope : String
report_scope = "codex-port-compatibility"

abbrev pub all_areas : List String
all_areas =
    "discovery-and-setup" ∷ "planning-scope" ∷ "repair-and-regression" ∷ "verification-honesty"
    ∷ "capability-fallbacks" ∷ "history-scope" ∷ "skill-authoring" ∷ "idle-scope" ∷ []

abbrev pub environments : List String
environments = "workspace-write" ∷ "scoped-skill-directory" ∷ []

abbrev pub required_limits : List String
required_limits =
    "same-family-review" ∷ "development-tasks-not-holdouts" ∷ "not-full-catalog-behavior"
    ∷ "not-enhancement-evidence" ∷ "builder-usage-only" ∷ []

abbrev pub extra_limits : List String
extra_limits = "authoring-requires-explicit-directory-grant" ∷ "repeat-used-longer-timeout" ∷ []

abbrev efforts : List String
efforts = "none" ∷ "minimal" ∷ "low" ∷ "medium" ∷ "high" ∷ "xhigh" ∷ "max" ∷ "ultra" ∷ []

-- `set(xs) <= set(ys)` and `set(xs) == set(ys)`
abbrev pub is_subset : List String → List String → Bool
is_subset xs ys = all (λ x. elem x ys) xs

abbrev pub same_set : List String → List String → Bool
same_set xs ys = is_subset xs ys && is_subset ys xs

-- `value == n`
abbrev pub is_int : ℕ → ℤ → Bool
is_int n (pos m) = m == n
is_int n (negsuc m) = false

unfoldable pub integer : ℕ → ℕ → ℤ → Except ReviewedReleaseError ℕ
integer minimum maximum (pos n) = do require (leb minimum n && leb n maximum) bad_count; ok n
integer minimum maximum (negsuc n) = raise bad_count

-- `match`, with the pattern as a test.
abbrev pub match : (String → Bool) → String → Except ReviewedReleaseError (Unit {0})
match pattern value = require (pattern value) bad_match

unfoldable pub match_each : (String → Bool) → List String → Except ReviewedReleaseError (Unit {0})
match_each pattern [] = ok tt
match_each pattern (x ∷ xs) = match pattern x >> match_each pattern xs

unfoldable pub identifiers :
    Option (List String) → List String → Except ReviewedReleaseError (List String)
unfolding match_each
identifiers allowed value = do
  require (ltb 0 (length value) && leb (length value) 100) bad_identifiers
  match_each is_identifier value
  require (distinct value && elim allowed [ none ↦ true | some names ↦ is_subset value names ])
      duplicate_identifiers
  ok value

unfoldable pub policy : Policy → Except ReviewedReleaseError Policy
unfolding identifiers
policy value = do
  require
      (is_int 1 value.schema_version
        && str_eq value.method report_method
        && str_eq value.scope report_scope)
      unsupported_policy
  areas ← identifiers none value.required_areas
  require (same_set areas all_areas) unsupported_policy
  allowed ← identifiers none value.allowed_environments
  require (same_set allowed environments) unsupported_policy
  limits ← identifiers none value.required_limitations
  require (same_set limits required_limits) unsupported_policy
  others ← identifiers none value.allowed_limitations
  require (same_set others (required_limits ++ extra_limits)) unsupported_policy
  ok value

unfoldable pub PluginIdentity-discrete : Discrete PluginIdentity
PluginIdentity-discrete = hlevel (ℕ_discrete, String-discrete)

instance abbrev pub plugin_eq : Eq PluginIdentity
plugin_eq = record { discrete = PluginIdentity-discrete }

-- The checks of the whole report before its items.
unfoldable pub check_claims :
    Policy → Report → PluginIdentity → Except ReviewedReleaseError (Unit {0})
unfolding identifiers
check_claims rules report plugin = do
  require
      (is_int 1 report.schema_version
        && str_eq report.method rules.method
        && str_eq report.scope rules.scope)
      unsupported_method
  require (same report.plugin plugin) different_plugin
  match is_sha report.upstream_revision
  limits ← identifiers (some (required_limits ++ extra_limits)) report.limitations
  require (is_subset rules.required_limitations limits) missing_limitations
  require
      (ltb 0 (length report.evidence_sets)
        && leb (length report.evidence_sets) 20
        && ltb 0 (length report.runtimes)
        && leb (length report.runtimes) 20
        && ltb 0 (length report.attempts)
        && leb (length report.attempts) 100)
      bad_inventory

-- `sets` is the list of the sets seen, and `declared` the ids of their attempts.
unfoldable pub collect_sets :
    List EvidenceSet → List String → List EvidenceSet → Except ReviewedReleaseError (List String)
unfolding identifiers
collect_sets seen declared [] = ok declared
collect_sets seen declared (item ∷ items) = do
  match is_identifier item.id
  match is_digest item.manifest_sha256
  require (not (elem item.id (map (λ s. s.id) seen))) duplicate_set
  ids ← identifiers none item.attempt_ids
  collect_sets (seen ++ item ∷ []) (declared ++ ids) items

unfoldable pub collect_runtimes :
    List String → List ObservedRuntime → Except ReviewedReleaseError (List String)
collect_runtimes seen [] = ok seen
collect_runtimes seen (item ∷ items) = do
  match is_identifier item.id
  match is_runtime_name item.codex_version
  match is_runtime_name item.model
  require
      (starts_with item.codex_version "codex-cli "
        && elem item.reasoning_effort efforts
        && not (elem item.id seen))
      bad_runtime
  collect_runtimes (seen ++ item.id ∷ []) items
