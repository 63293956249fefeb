-- ===== src/Release/Gate/Examples.antt =====
-- A concrete suite, its proofs and a certificate of version 1 of release_gate.py.
use tugling.Prelude.{
  pos, String, true, false, List, [], ◌∷◌, Option, none, some, elem, ◌≡◌, ◌≤◌, ◌↔◌, refl,
}
use tugling.Prelude.Except.{ok, raise}
use tugling.Prelude.Equality.{same, String-discrete}
use tugling.Release.Report.{PluginIdentity}
use tugling.Release.Gate.Matrix.{
  Case, ReleaseMatrix, conditions, Pair, observed_pairs, has_pair, check_pairs, validate_matrix,
  stable_moved,
}
use tugling.Release.Gate.{
  BehavioralProof, CleanRoomProof, GateCertificate, Checkout, gate_certificate,
  assemble_certificate, Asked, check_ancestry, check_stable, verify_certificate,
}
use tugling.Release.Gate.Verified.{assemble-verify_certificate}
use tugling.Release.Gate.Releasable.{IsReleasable, verify_certificate-IsReleasable}
use tugling.Release.Gate.Pairs.{check_pairs-exact}

abbrev case_of : String → String → String → Case
case_of id skill kind = record { id = id; skill = skill; project_type = some kind }

abbrev sample_cases : List Case
sample_cases =
    case_of "c1" "prove" "python-cli"
    ∷ case_of "c2" "plan" "python-service"
    ∷ case_of "c3" "prove" "typescript-worker"
    ∷ case_of "c4" "plan" "react-ui"
    ∷ []

abbrev sample_ids : List String
sample_ids = "c1" ∷ "c2" ∷ "c3" ∷ "c4" ∷ []

abbrev sample_matrix : ReleaseMatrix
sample_matrix = record {
  schema_version = pos 1;
  minimum_attempts = pos 3;
  conditions = conditions;
  required_case_ids = sample_ids;
  required_skills = "plan" ∷ "prove" ∷ [];
  project_types =
      ("python-cli", "c1" ∷ [])
      ∷ ("python-service", "c2" ∷ [])
      ∷ ("typescript-worker", "c3" ∷ [])
      ∷ ("react-ui", "c4" ∷ [])
      ∷ [];
}

sample_matrix_accepted : validate_matrix sample_cases sample_matrix ≡ ok sample_matrix
unfolding validate_matrix tugling.Project.Map.argv_eq
sample_matrix_accepted = refl

abbrev revision : String
revision = "aaaaaaaaaaaaaaaaaaaaaaaaaaaaaaaaaaaaaaaa"

abbrev sample_plugin : PluginIdentity
sample_plugin = record {
  name = "tugling";
  version = "1.2.3";
  content_sha256 = "x";
  skills = "prove" ∷ "plan" ∷ [];
}

abbrev sample_pairs : List (Option Pair)
sample_pairs =
    some ("c1", 1)
    ∷ some ("c1", 2)
    ∷ some ("c1", 3)
    ∷ some ("c2", 1)
    ∷ some ("c2", 2)
    ∷ some ("c2", 3)
    ∷ some ("c3", 1)
    ∷ some ("c3", 2)
    ∷ some ("c3", 3)
    ∷ some ("c4", 1)
    ∷ some ("c4", 2)
    ∷ some ("c4", 3)
    ∷ []

abbrev sample_behavior : BehavioralProof
sample_behavior = record {
  passed = true;
  candidate_version = some "1.2.3";
  candidate_content = some "x";
  candidate_revision = some revision;
  released_revision = some revision;
  conditions = some conditions;
  attempts = some (pos 3);
  case_ids = some sample_ids;
  model = none;
  reasoning_effort = none;
  per_case = some sample_pairs;
  metrics = "{}";
  promotion_passed = true;
  released_regressions = some (pos 0);
  privacy_passed = true;
  policy_configured = true;
  policy_passed = true;
  pattern_file_sha256 = none;
  permissions_changed = some false;
  hooks_changed = some false;
  file_sha256 = "p";
}

abbrev sample_room : CleanRoomProof
sample_room = record {
  passed = true;
  mode = some "public-cli-live";
  repository = none;
  requested_revision = some revision;
  resolved_revision = some revision;
  plugin = some sample_plugin;
  codex_version = none;
  model = none;
  reasoning_effort = none;
  live_ran = true;
  repository_unchanged = true;
  skill_read_observed = none;
  selected_skill = some "principle-prove-it-works";
  verification_order = some "repository-native-first";
  file_sha256 = "r";
}

abbrev sample_checkout : Checkout
sample_checkout = record {
  cases = sample_cases;
  matrix = sample_matrix;
  plugin = sample_plugin;
  created_at = "now";
  dumps = λ c. "{}";
  rev_parse = λ name. some revision;
  is_ancestor = λ r. true;
}

abbrev asked_all : Asked
asked_all = record {
  stable_ref = some "origin/stable";
  require_ancestry = true;
  own_package = true;
}

abbrev sample_certificate : GateCertificate
sample_certificate = gate_certificate sample_checkout "1.2.3" sample_behavior sample_room

sample_assembled :
    assemble_certificate sample_checkout "1.2.3" sample_behavior sample_room ≡ ok sample_certificate
unfolding assemble_certificate validate_matrix tugling.Project.Map.argv_eq
sample_assembled = refl

sample_passed : sample_certificate.passed ≡ true
unfolding gate_certificate tugling.Release.Patterns.is_sha tugling.Project.Map.argv_eq same
    tugling.Release.Report.PluginIdentity-discrete String-discrete
sample_passed = refl

sample_ancestry : check_ancestry sample_checkout true sample_certificate ≡ ok tt
unfolding gate_certificate check_ancestry tugling.Release.Patterns.is_sha
sample_ancestry = refl

sample_stable : check_stable sample_checkout (some "origin/stable") sample_certificate ≡ ok tt
unfolding gate_certificate check_stable
sample_stable = refl

assemble-verify_certificate_example :
    verify_certificate sample_checkout asked_all sample_certificate ≡ ok sample_certificate
assemble-verify_certificate_example =
    assemble-verify_certificate sample_checkout "1.2.3" sample_behavior sample_room asked_all
      sample_certificate refl sample_assembled sample_passed sample_ancestry sample_stable

sample_verified :
    verify_certificate sample_checkout asked_all sample_certificate ≡ ok sample_certificate
unfolding verify_certificate gate_certificate tugling.Release.Patterns.is_sha
    tugling.Project.Map.argv_eq same tugling.Release.Report.PluginIdentity-discrete String-discrete
    validate_matrix tugling.Release.Gate.is_local
sample_verified = refl

verify_certificate-IsReleasable_example :
    (sample_certificate ≡ sample_certificate)
    × IsReleasable sample_checkout asked_all sample_certificate
verify_certificate-IsReleasable_example =
    verify_certificate-IsReleasable sample_checkout asked_all sample_certificate sample_certificate
      sample_verified

-- When stable moves, the certificate is refused.
abbrev moved_checkout : Checkout
moved_checkout = record sample_checkout { rev_parse = λ name. some "b" }

stable_moves : verify_certificate moved_checkout asked_all sample_certificate ≡ raise stable_moved
unfolding verify_certificate gate_certificate tugling.Release.Patterns.is_sha
    tugling.Project.Map.argv_eq same tugling.Release.Report.PluginIdentity-discrete String-discrete
    validate_matrix tugling.Release.Gate.is_local
stable_moves = refl

sample_pairs_accepted : check_pairs (some sample_pairs) sample_ids 3 ≡ true
unfolding check_pairs
sample_pairs_accepted = refl

check_pairs-exact_example :
    (has_pair ("c2", 3) (observed_pairs sample_pairs) ≡ true)
    ↔ ((elem "c2" sample_ids ≡ true) × (1 ≤ 3) × (3 ≤ 3))
check_pairs-exact_example = check_pairs-exact sample_pairs sample_ids 3 "c2" 3 sample_pairs_accepted
