-- ===== src/Release/Authorize.antt =====
-- `authorize` of certify_release.py: the request and the token limits that a dispatch asks for.
use Prim.Native.String.{◌++◌ as join}
use tugling.Prelude.{
  codes, ℕ, ◌+◌, ◌-◌, ◌*◌, ◌≤◌, String, Bool, true, false, not, ◌&&◌, ◌||◌, List, [], ◌∷◌, all,
  length, elem, leb, if◌then◌else◌, str_eq, ◌≡◌, subst, arith,
}
use tugling.Prelude.Except.{
  Except, ok, raise, require, ◌>>=◌, ◌>>◌, require-eq-ok, >>-eq-ok, >>=-ok-then, ok-inj,
}
use tugling.Release.Patterns.{is_sha, is_run_id, is_controller_tag}
use tugling.Release.Certificate.{repository_name}
use tugling.Release.Gate.Matrix.{Case, ReleaseMatrix, ReleaseGateError, validate_matrix}

pub data CertificationError : Type 0 where
  not_dispatched bad_pin bad_tag bad_revisions bad_diagnostic bad_limit bad_run : CertificationError
  gate : ReleaseGateError → CertificationError

-- `diagnostic_case` is empty where the request has none.
pub record PaidRequest : Type 0 where
  pub repository : String
  pub controller_sha : String
  pub candidate_sha : String
  pub baseline_sha : String
  pub run_id : String
  pub input_limit : ℕ
  pub output_limit : ℕ
  pub diagnostic_case : String

abbrev pub Env : Type 0
Env = List (String × String)

-- `env.get(key, "")`
unfoldable pub get : String → Env → String
get key [] = ""
get key ((k, v) ∷ env) = let later = get key env in if str_eq key k then v else later

abbrev pub decimal : ℕ → List ℕ → ℕ
decimal n [] = n
decimal n (c ∷ cs) = decimal (n * 10 + (c - 48)) cs

-- `[1-9][0-9]{0,9}`
abbrev pub is_positive : List ℕ → Bool
is_positive [] = false
is_positive (c ∷ cs) =
    leb b'1' c && leb c b'9' && all (λ d. leb b'0' d && leb d b'9') cs && leb (length cs) 9

unfoldable pub positive_integer : String → ℕ → Except CertificationError ℕ
positive_integer value ceiling = do
  require (is_positive (codes value) && leb (decimal 0 (codes value)) ceiling) bad_limit
  ok (decimal 0 (codes value))

abbrev least : ℕ → ℕ → ℕ
least m n = if leb m n then m else n

-- The limit of one kind of tokens, with the names of its two variables.
unfoldable pub limit_of : Env → String → String → ℕ → ℕ → String → Except CertificationError ℕ
unfolding positive_integer
limit_of env maximum approved ceiling diagnostic case_id = do
  configured ← positive_integer (get maximum env) ceiling
  positive_integer (get approved env)
      (if str_eq case_id "" then configured else least configured diagnostic)

-- `f"{REPOSITORY}/.github/workflows/diagnose-case.yml@{env['GITHUB_REF']}"`
abbrev diagnostic_workflow : Env → String
diagnostic_workflow env =
    join "cyyapye/tugling/.github/workflows/diagnose-case.yml@" (get "GITHUB_REF" env)

abbrev lift_gate : Except ReleaseGateError ReleaseMatrix → Except CertificationError ReleaseMatrix
lift_gate (ok m) = ok m
lift_gate (raise error) = raise (gate error)

-- The matrix is read only where the workflow is the diagnostic one.
unfoldable pub check_diagnostic :
    Env → List Case → ReleaseMatrix → Except CertificationError (Unit {0})
check_diagnostic env cases matrix =
    let case_id = get "DIAGNOSTIC_CASE" env in
    let is_diagnostic = str_eq (get "GITHUB_WORKFLOW_REF" env) (diagnostic_workflow env) in
    let checked : Except CertificationError (Unit {0}) = do
      require is_diagnostic bad_diagnostic
      valid ← lift_gate (validate_matrix cases matrix)
      require (elem case_id valid.required_case_ids) bad_diagnostic
    in if not (str_eq case_id "") || is_diagnostic then checked else ok tt

unfoldable pub check_dispatch : Env → Except CertificationError (Unit {0})
unfolding get
check_dispatch env = do
  require
      (str_eq (get "GITHUB_REPOSITORY" env) repository_name
        && str_eq (get "GITHUB_EVENT_NAME" env) "workflow_dispatch"
        && str_eq (get "GITHUB_RUN_ATTEMPT" env) "1"
        && str_eq (get "CERTIFICATION_ENABLED" env) "true"
        && str_eq (get "APPROVE_PAID_RUN" env) "true")
      not_dispatched
  require
      (is_sha (get "CONTROLLER_SHA" env)
        && str_eq (get "WORKFLOW_SHA" env) (get "CONTROLLER_SHA" env))
      bad_pin
  require
      (str_eq (get "GITHUB_SHA" env) (get "CONTROLLER_SHA" env)
        && is_controller_tag (get "GITHUB_REF_NAME" env)
        && str_eq (get "GITHUB_REF" env) (join "refs/tags/" (get "GITHUB_REF_NAME" env)))
      bad_tag
  require (is_sha (get "CANDIDATE_SHA" env) && is_sha (get "BASELINE_SHA" env)) bad_revisions

unfoldable pub authorize : Env → List Case → ReleaseMatrix → Except CertificationError PaidRequest
unfolding check_dispatch check_diagnostic limit_of
authorize env cases matrix = do
  check_dispatch env
  check_diagnostic env cases matrix
  input ←
      limit_of env "MAX_INPUT_TOKENS" "APPROVED_INPUT_TOKENS" 100000000 100000
        (get "DIAGNOSTIC_CASE" env)
  output ←
      limit_of env "MAX_OUTPUT_TOKENS" "APPROVED_OUTPUT_TOKENS" 10000000 5000
        (get "DIAGNOSTIC_CASE" env)
  require (is_run_id (get "GITHUB_RUN_ID" env)) bad_run
  ok (record {
    repository = repository_name;
    controller_sha = get "CONTROLLER_SHA" env;
    candidate_sha = get "CANDIDATE_SHA" env;
    baseline_sha = get "BASELINE_SHA" env;
    run_id = get "GITHUB_RUN_ID" env;
    input_limit = input;
    output_limit = output;
    diagnostic_case = get "DIAGNOSTIC_CASE" env;
  })

decimal-grows : (n : ℕ) (cs : List ℕ) → n ≤ decimal n cs
decimal-grows n [] = omega arith
decimal-grows n (c ∷ cs) = omega (arith, decimal-grows (n * 10 + (c - 48)) cs)

positive-decimal : (cs : List ℕ) → is_positive cs ≡ true → 1 ≤ decimal 0 cs
positive-decimal [] h = absurd (cc)
positive-decimal (c ∷ cs) h =
    let digit : 49 ≤ c = ground arith in omega (arith, digit, decimal-grows (0 * 10 + (c - 48)) cs)

positive_integer-bounds :
    (value : String) (ceiling n : ℕ)
    → positive_integer value ceiling ≡ ok n
    → (1 ≤ n) × (n ≤ ceiling)
unfolding positive_integer
positive_integer-bounds value ceiling n h =
    let (fine, k) =
      require-eq-ok (is_positive (codes value) && leb (decimal 0 (codes value)) ceiling) bad_limit _
        h in
    let low = positive-decimal (codes value) (ground arith) in
    let high : decimal 0 (codes value) ≤ ceiling = ground arith in
    subst (λ m. (1 ≤ m) × (m ≤ ceiling)) (ok-inj k) (low, high)

limit-bounds :
    (env : Env) (maximum approved : String) (ceiling diagnostic n : ℕ) (case_id : String)
    → limit_of env maximum approved ceiling diagnostic case_id ≡ ok n
    → (1 ≤ n) × (n ≤ ceiling) × (str_eq case_id "" ≡ false → n ≤ diagnostic)
unfolding limit_of
limit-bounds env maximum approved ceiling diagnostic n case_id h =
    >>=-ok-then (positive_integer (get maximum env) ceiling) _ h (λ configured is k.
      let (_, within) = positive_integer-bounds (get maximum env) ceiling configured is in
      let (low, high) = positive_integer-bounds (get approved env) _ n k in
      (
        low,
        below case_id configured within high,
        λ diagnosed. narrow case_id configured high diagnosed,
      ))
  where
    below :
        (case_id : String) (configured : ℕ)
        → configured ≤ ceiling
        → n ≤ (if str_eq case_id "" then configured else least configured diagnostic)
        → n ≤ ceiling
    below case_id configured within high = ground (arith, within, high)

    narrow :
        (case_id : String) (configured : ℕ)
        → n ≤ (if str_eq case_id "" then configured else least configured diagnostic)
        → str_eq case_id "" ≡ false
        → n ≤ diagnostic
    narrow case_id configured high diagnosed = ground (arith, high, diagnosed)

-- What a dispatch is granted.
pub record IsGranted (r : PaidRequest) : Type 0 where
  pub input : (1 ≤ r.input_limit) × (r.input_limit ≤ 100000000)
  pub output : (1 ≤ r.output_limit) × (r.output_limit ≤ 10000000)
  pub diagnostic :
      str_eq r.diagnostic_case "" ≡ false → (r.input_limit ≤ 100000) × (r.output_limit ≤ 5000)

-- A request that is authorized has positive token limits, of at most 100,000,000 input and 10,000,000
-- output tokens, and with a diagnostic case at most 100,000 and 5,000.
pub authorize-IsGranted :
    (env : Env) (cases : List Case) (matrix : ReleaseMatrix) (r : PaidRequest)
    → authorize env cases matrix ≡ ok r
    → IsGranted r
unfolding authorize
authorize-IsGranted env cases matrix r h =
    let case_id = get "DIAGNOSTIC_CASE" env in
    let (_, h1) = >>-eq-ok (check_dispatch env) _ h in
    let (_, h2) = >>-eq-ok (check_diagnostic env cases matrix) _ h1 in
    >>=-ok-then (limit_of env "MAX_INPUT_TOKENS" "APPROVED_INPUT_TOKENS" 100000000 100000 case_id) _
      h2
      (λ input in_ h3.
        >>=-ok-then
          (limit_of env "MAX_OUTPUT_TOKENS" "APPROVED_OUTPUT_TOKENS" 10000000 5000 case_id) _ h3
          (λ output out_ h4.
            let (_, h5) = require-eq-ok (is_run_id (get "GITHUB_RUN_ID" env)) bad_run _ h4 in
            let (low, high, narrow) =
              limit-bounds env "MAX_INPUT_TOKENS" "APPROVED_INPUT_TOKENS" 100000000 100000 input
                case_id in_ in
            let (low', high', narrow') =
              limit-bounds env "MAX_OUTPUT_TOKENS" "APPROVED_OUTPUT_TOKENS" 10000000 5000 output
                case_id out_ in
            subst IsGranted (ok-inj h5) (record {
              input = (low, high);
              output = (low', high');
              diagnostic = λ diagnosed. (narrow diagnosed, narrow' diagnosed);
            })))
