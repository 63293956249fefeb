-- ===== src/Release/Gate.antt =====
-- The certificates of version 1 in release_gate.py: the matrix that they are of, how one is assembled
-- from the proofs and how it is verified. A field that is missing or of another type is `none`.
pub mod Matrix
pub mod Verified
pub mod Releasable
pub mod Pairs
mod Examples
use tugling.Prelude.{
  codes, ℕ, ◌+◌, ℤ, pos, negsuc, is_zero, String, Bool, true, false, not, ◌&&◌, ◌||◌, List, [], ◌∷◌,
  ◌++◌, Option, none, some, map, all, any, length, elem, leb, ◌==◌, if◌then◌else◌, str_eq,
}
use tugling.Prelude.Except.{Except, ok, raise, require, ◌>>=◌, ◌>>◌}
use tugling.Prelude.Equality.{same}
use tugling.Project.Map.{argv_eq}
use tugling.Release.Patterns.{is_sha}
use tugling.Release.Report.{PluginIdentity, plugin_eq, same_set, is_int}
use tugling.Release.Certificate.{is_text, all_hold}
use tugling.Release.Gate.Matrix.{
  Case, ReleaseMatrix, ReleaseGateError, local_path, package_only, bad_shape, not_passed,
  other_plugin, other_version, uncovered_catalog, stale_attempts, stale_cases, bad_revision,
  not_ancestor, unknown_ref, stable_moved, not_forward, Pair, check_pairs, validate_matrix,
  release_covered,
}

-- The behavioral proof. `metrics` is its object as text.
pub record BehavioralProof : Type 0 where
  pub passed : Bool
  pub candidate_version : Option String
  pub candidate_content : Option String
  pub candidate_revision : Option String
  pub released_revision : Option String
  pub conditions : Option (List String)
  pub attempts : Option ℤ
  pub case_ids : Option (List String)
  pub model : Option String
  pub reasoning_effort : Option String
  pub per_case : Option (List (Option Pair))
  pub metrics : String
  pub promotion_passed : Bool
  pub released_regressions : Option ℤ
  pub privacy_passed : Bool
  pub policy_configured : Bool
  pub policy_passed : Bool
  pub pattern_file_sha256 : Option String
  pub permissions_changed : Option Bool
  pub hooks_changed : Option Bool
  pub file_sha256 : String

pub record CleanRoomProof : Type 0 where
  pub passed : Bool
  pub mode : Option String
  pub repository : Option String
  pub requested_revision : Option String
  pub resolved_revision : Option String
  pub plugin : Option PluginIdentity
  pub codex_version : Option String
  pub model : Option String
  pub reasoning_effort : Option String
  pub live_ran : Bool
  pub repository_unchanged : Bool
  pub skill_read_observed : Option Bool
  pub selected_skill : Option String
  pub verification_order : Option String
  pub file_sha256 : String

pub record RecordedBehavior : Type 0 where
  pub evaluated_revision : Option String
  pub released_revision : Option String
  pub model : Option String
  pub reasoning_effort : Option String
  pub attempts : Option ℤ
  pub case_ids : Option (List String)
  pub metrics : String
  pub policy_pattern_file_sha256 : Option String
  pub proof_sha256 : String

pub record RecordedRoom : Type 0 where
  pub mode : Option String
  pub repository : Option String
  pub revision : Option String
  pub codex_version : Option String
  pub model : Option String
  pub reasoning_effort : Option String
  pub selected_skill : Option String
  pub verification_order : Option String
  pub skill_read_observed : Option Bool
  pub repository_unchanged : Bool
  pub proof_sha256 : String

pub record RecordedMatrix : Type 0 where
  pub minimum_attempts : ℤ
  pub conditions : List String
  pub required_case_ids : List String
  pub required_skills : List String
  pub project_types : List (String × List String)

-- A certificate of version 1; `names` are the keys of its object.
pub record GateCertificate : Type 0 where
  pub names : List String
  pub schema_version : ℤ
  pub version : String
  pub created_at : String
  pub passed : Bool
  pub checks : List (String × Bool)
  pub plugin : PluginIdentity
  pub behavioral : RecordedBehavior
  pub clean_room : RecordedRoom
  pub matrix : RecordedMatrix

-- The checkout: its suite and matrix, the identity of the package, and what Git says of HEAD.
-- `dumps` is `json.dumps`.
pub record Checkout : Type 0 where
  pub cases : List Case
  pub matrix : ReleaseMatrix
  pub plugin : PluginIdentity
  pub created_at : String
  pub dumps : GateCertificate → String
  pub rev_parse : String → Option String
  pub is_ancestor : String → Bool

abbrev pub certificate_names : List String
certificate_names =
    "schema_version" ∷ "version" ∷ "created_at" ∷ "passed" ∷ "checks" ∷ "plugin" ∷ "behavioral"
    ∷ "clean_room" ∷ "matrix" ∷ []

abbrev prefix : List ℕ → List ℕ → Bool
prefix [] cs = true
prefix (p ∷ ps) [] = false
prefix (p ∷ ps) (c ∷ cs) = (p == c) && prefix ps cs

abbrev occurs : List ℕ → List ℕ → Bool
occurs ps [] = prefix ps []
occurs ps (c ∷ cs) = prefix ps (c ∷ cs) || occurs ps cs

-- `any(value in serialized for value in ("/private/", "/tmp/", "auth.json"))`
unfoldable pub is_local : String → Bool
is_local serialized =
    any (λ value. occurs (codes value) (codes serialized))
      ("/private/" ∷ "/tmp/" ∷ "auth.json" ∷ [])

abbrev is_revision : Option String → Bool
is_revision none = false
is_revision (some s) = is_sha s

abbrev is_names : List String → Option (List String) → Bool
is_names names none = false
is_names names (some others) = argv_eq others names

-- `a >= b`
abbrev int_le : ℤ → ℤ → Bool
int_le (pos m) (pos n) = leb m n
int_le (pos m) (negsuc n) = false
int_le (negsuc m) (pos n) = true
int_le (negsuc m) (negsuc n) = leb n m

abbrev pub int_eq : ℤ → ℤ → Bool
int_eq (pos m) n = is_int m n
int_eq (negsuc m) (pos n) = false
int_eq (negsuc m) (negsuc n) = m == n

abbrev reaches : ℤ → Option ℤ → Bool
reaches minimum none = false
reaches minimum (some attempts) = int_le minimum attempts

-- The end of `range(1, attempts + 1)`.
abbrev range_end : ℤ → ℕ
range_end (pos n) = n
range_end (negsuc n) = 0

abbrev complete_pairs : ReleaseMatrix → BehavioralProof → Bool
complete_pairs matrix b = elim b.attempts [
  | none ↦ false
  | some attempts ↦
      is_names matrix.required_case_ids b.case_ids
      && check_pairs b.per_case matrix.required_case_ids (range_end attempts)
]

abbrev is_zero_of : Option ℤ → Bool
is_zero_of none = false
is_zero_of (some z) = is_zero z

abbrev is_false : Option Bool → Bool
is_false none = false
is_false (some b) = not b

abbrev is_plugin : PluginIdentity → Option PluginIdentity → Bool
is_plugin plugin none = false
is_plugin plugin (some other) = same other plugin

-- `a == b` of two values that may be missing.
abbrev same_text : Option String → Option String → Bool
same_text none none = true
same_text none (some t) = false
same_text (some s) o = is_text s o

-- The dictionary `checks`.
unfoldable pub checks_of :
    Checkout → String → BehavioralProof → CleanRoomProof → List (String × Bool)
unfolding check_pairs release_covered
checks_of checkout version b r =
    ("version_matches_manifest", str_eq version checkout.plugin.version)
    ∷ ("behavioral_proof_passed", b.passed)
    ∷ ("behavioral_candidate_version", is_text version b.candidate_version)
    ∷ ("behavioral_plugin_matches", is_text checkout.plugin.content_sha256 b.candidate_content)
    ∷ ("released_baseline_present", is_revision b.released_revision)
    ∷ ("candidate_revision_present", is_revision b.candidate_revision)
    ∷ ("required_conditions", is_names checkout.matrix.conditions b.conditions)
    ∷ ("minimum_attempts", reaches checkout.matrix.minimum_attempts b.attempts)
    ∷ ("full_case_matrix", is_names checkout.matrix.required_case_ids b.case_ids)
    ∷ (
      "full_catalog_behavioral_coverage",
      release_covered checkout.plugin.skills checkout.matrix.required_skills,
    )
    ∷ ("complete_attempt_pairs", complete_pairs checkout.matrix b)
    ∷ ("promotion_gate", b.promotion_passed)
    ∷ ("no_released_regressions", is_zero_of b.released_regressions)
    ∷ ("privacy_scan", b.privacy_passed)
    ∷ ("policy_scan", b.policy_configured && b.policy_passed)
    ∷ ("skills_only_surface", is_false b.permissions_changed && is_false b.hooks_changed)
    ∷ ("clean_room_proof_passed", r.passed)
    ∷ ("clean_room_live_mode", is_text "public-cli-live" r.mode)
    ∷ (
      "clean_room_exact_candidate",
      same_text r.requested_revision b.candidate_revision
          && same_text r.resolved_revision b.candidate_revision,
    )
    ∷ ("clean_room_plugin_matches", is_plugin checkout.plugin r.plugin)
    ∷ (
      "clean_room_fresh_task",
      r.live_ran
          && r.repository_unchanged
          && is_text "principle-prove-it-works" r.selected_skill
          && is_text "repository-native-first" r.verification_order,
    )
    ∷ []

unfoldable pub gate_certificate :
    Checkout → String → BehavioralProof → CleanRoomProof → GateCertificate
unfolding checks_of
gate_certificate checkout version b r = record {
  names = certificate_names;
  schema_version = pos 1;
  version = version;
  created_at = checkout.created_at;
  passed = all_hold (checks_of checkout version b r);
  checks = checks_of checkout version b r;
  plugin = checkout.plugin;
  behavioral = record {
    evaluated_revision = b.candidate_revision;
    released_revision = b.released_revision;
    model = b.model;
    reasoning_effort = b.reasoning_effort;
    attempts = b.attempts;
    case_ids = b.case_ids;
    metrics = b.metrics;
    policy_pattern_file_sha256 = b.pattern_file_sha256;
    proof_sha256 = b.file_sha256;
  };
  clean_room = record {
    mode = r.mode;
    repository = r.repository;
    revision = r.resolved_revision;
    codex_version = r.codex_version;
    model = r.model;
    reasoning_effort = r.reasoning_effort;
    selected_skill = r.selected_skill;
    verification_order = r.verification_order;
    skill_read_observed = r.skill_read_observed;
    repository_unchanged = r.repository_unchanged;
    proof_sha256 = r.file_sha256;
  };
  matrix = record {
    minimum_attempts = checkout.matrix.minimum_attempts;
    conditions = checkout.matrix.conditions;
    required_case_ids = checkout.matrix.required_case_ids;
    required_skills = checkout.matrix.required_skills;
    project_types = checkout.matrix.project_types;
  };
}

unfoldable pub assemble_certificate :
    Checkout → String → BehavioralProof → CleanRoomProof → Except ReleaseGateError GateCertificate
unfolding gate_certificate is_local
assemble_certificate checkout version b r = do
  matrix ← validate_matrix checkout.cases checkout.matrix
  require (not (is_local (checkout.dumps (gate_certificate checkout version b r)))) local_path
  ok (gate_certificate checkout version b r)

-- `stable_ref`, `require_ancestry`, and whether `package_source_root` is the checkout.
pub record Asked : Type 0 where
  pub stable_ref : Option String
  pub require_ancestry : Bool
  pub own_package : Bool

unfoldable pub check_ancestry :
    Checkout → Bool → GateCertificate → Except ReleaseGateError (Unit {0})
check_ancestry checkout false c = ok tt
check_ancestry checkout true c = elim c.behavioral.evaluated_revision [
  | none ↦ raise bad_revision
  | some evaluated ↦ do
    require (is_sha evaluated) bad_revision
    require (checkout.is_ancestor evaluated) not_ancestor
]

-- What `git rev-parse` gives for the stable ref.
unfoldable pub check_baseline :
    Checkout → Option String → GateCertificate → Except ReleaseGateError (Unit {0})
check_baseline checkout none c = raise unknown_ref
check_baseline checkout (some stable) c = do
  require (is_text stable c.behavioral.released_revision) stable_moved
  require (checkout.is_ancestor stable) not_forward

-- `if stable_ref:`, where an empty name is no ref.
abbrev pub names_ref : Option String → Bool
names_ref none = false
names_ref (some name) = not (str_eq name "")

unfoldable pub check_stable :
    Checkout → Option String → GateCertificate → Except ReleaseGateError (Unit {0})
unfolding check_baseline
check_stable checkout none c = ok tt
check_stable checkout (some name) c =
    if str_eq name "" then ok tt else check_baseline checkout (checkout.rev_parse name) c

-- `verify_certificate` of a certificate that is not of version 2.
unfoldable pub verify_certificate :
    Checkout → Asked → GateCertificate → Except ReleaseGateError GateCertificate
unfolding check_ancestry check_stable
verify_certificate checkout asked c = do
  require (asked.own_package || not (asked.require_ancestry || names_ref asked.stable_ref))
      package_only
  require (same_set c.names certificate_names && is_int 1 c.schema_version) bad_shape
  require (c.passed && all_hold c.checks) not_passed
  matrix ← validate_matrix checkout.cases checkout.matrix
  require (same c.plugin checkout.plugin) other_plugin
  require (str_eq c.version checkout.plugin.version) other_version
  require (release_covered checkout.plugin.skills matrix.required_skills) uncovered_catalog
  require (int_eq c.matrix.minimum_attempts matrix.minimum_attempts) stale_attempts
  require (argv_eq c.matrix.required_case_ids matrix.required_case_ids) stale_cases
  require (not (is_local (checkout.dumps c))) local_path
  check_ancestry checkout asked.require_ancestry c
  check_stable checkout asked.stable_ref c
  ok c
