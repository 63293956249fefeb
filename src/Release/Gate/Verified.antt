-- ===== src/Release/Gate/Verified.antt =====
-- Certificates of version 1 of release_gate.py that are assembled, and what a verified one shows.
use tugling.Prelude.{
  ℤ, pos, negsuc, String, Bool, true, false, not, ◌&&◌, ◌||◌, List, [], ◌∷◌, ◌≡◌, refl, sym, ap,
  ◌∙◌, subst, arith, All, str_eq, map,
}
use tugling.Prelude.Except.{ok, require-eq-ok, >>=-ok-then, ok-inj}
use tugling.Prelude.Equality.{same_refl}
use tugling.Project.Map.{argv_eq}
use tugling.Project.Runs.Fresh.{argv_eq_refl}
use tugling.Release.Report.{plugin_eq, same_set, is_int, is_subset}
use tugling.Release.Certificate.{all_hold}
use tugling.Release.Gate.Matrix.{
  Case, ReleaseMatrix, bad_schema, too_few_attempts, bad_conditions, different_cases,
  different_skills, no_project_types, different_project_types, no_breadth, local_path, conditions,
  sorted_set, by_type, same_groups, has_groups, is_at_least, required_breadth, validate_matrix,
  release_covered,
}
use tugling.Release.Gate.{
  BehavioralProof, CleanRoomProof, GateCertificate, Checkout, certificate_names, is_local, int_eq,
  checks_of, gate_certificate, assemble_certificate, Asked, names_ref, check_ancestry, check_stable,
  verify_certificate,
}

-- What the matrix of the checkout has, where it is accepted.
pub record IsCurrentMatrix (cases : List Case) (matrix : ReleaseMatrix) : Type 0 where
  pub attempts : is_at_least 3 matrix.minimum_attempts ≡ true
  pub conditions_ : argv_eq matrix.conditions conditions ≡ true
  pub every_case : argv_eq matrix.required_case_ids (map (λ c. c.id) cases) ≡ true
  pub every_skill : argv_eq matrix.required_skills (sorted_set (map (λ c. c.skill) cases)) ≡ true
  pub breadth : is_subset required_breadth (map (λ g. g.0) matrix.project_types) ≡ true

pub matrix-IsCurrentMatrix :
    (cases : List Case) (matrix accepted : ReleaseMatrix)
    → validate_matrix cases matrix ≡ ok accepted
    → (matrix ≡ accepted) × IsCurrentMatrix cases matrix
unfolding validate_matrix
matrix-IsCurrentMatrix cases matrix accepted h =
    let (_, h1) = require-eq-ok (is_int 1 matrix.schema_version) bad_schema _ h in
    let (attempts, h2) =
      require-eq-ok (is_at_least 3 matrix.minimum_attempts) too_few_attempts _ h1 in
    let (three, h3) = require-eq-ok (argv_eq matrix.conditions conditions) bad_conditions _ h2 in
    let (every_case, h4) =
      require-eq-ok (argv_eq matrix.required_case_ids (map (λ c. c.id) cases)) different_cases _
        h3 in
    let (every_skill, h5) =
      require-eq-ok (argv_eq matrix.required_skills (sorted_set (map (λ c. c.skill) cases)))
        different_skills _ h4 in
    let (_, h6) = require-eq-ok (has_groups matrix.project_types) no_project_types _ h5 in
    >>=-ok-then (by_type [] cases) _ h6 (λ actual _ h7.
      let (_, h8) =
        require-eq-ok (same_groups matrix.project_types actual) different_project_types _ h7 in
      let (breadth, h9) =
        require-eq-ok (is_subset required_breadth (map (λ g. g.0) matrix.project_types)) no_breadth
          _ h8 in
      (
        ok-inj h9,
        record {
          attempts = attempts;
          conditions_ = three;
          every_case = every_case;
          every_skill = every_skill;
          breadth = breadth;
        },
      ))

pub all-All :
    (checks : List (String × Bool)) → all_hold checks ≡ true → All (λ c. c.1 ≡ true) checks
all-All [] h = tt
all-All (c ∷ checks) h = (ground arith, all-All checks (ground arith))

-- Two of the checks of a certificate that passed.
passed-current :
    (checkout : Checkout) (version : String) (b : BehavioralProof) (r : CleanRoomProof)
    → all_hold (checks_of checkout version b r) ≡ true
    → (str_eq version checkout.plugin.version ≡ true)
      × (release_covered checkout.plugin.skills checkout.matrix.required_skills ≡ true)
unfolding checks_of
passed-current checkout version b r h =
    let each = all-All (checks_of checkout version b r) h in (each.0, each.1.1.1.1.1.1.1.1.1.0)

int_eq_refl : (z : ℤ) → int_eq z z ≡ true
int_eq_refl (pos n) = ground arith
int_eq_refl (negsuc n) = ground arith

-- A certificate that meets each condition of `verify_certificate`.
record IsLawful (checkout : Checkout) (asked : Asked) (c : GateCertificate) : Type 0 where
  allowed : (asked.own_package || not (asked.require_ancestry || names_ref asked.stable_ref)) ≡ true
  shape : (same_set c.names certificate_names && is_int 1 c.schema_version) ≡ true
  passed : (c.passed && all_hold c.checks) ≡ true
  plugin : c.plugin ≡ checkout.plugin
  version : str_eq c.version checkout.plugin.version ≡ true
  covered : release_covered checkout.plugin.skills checkout.matrix.required_skills ≡ true
  attempts : int_eq c.matrix.minimum_attempts checkout.matrix.minimum_attempts ≡ true
  cases : argv_eq c.matrix.required_case_ids checkout.matrix.required_case_ids ≡ true
  clean : is_local (checkout.dumps c) ≡ false
  ancestry : check_ancestry checkout asked.require_ancestry c ≡ ok tt
  stable : check_stable checkout asked.stable_ref c ≡ ok tt

lawful-verified :
    (checkout : Checkout) (asked : Asked) (c : GateCertificate)
    → validate_matrix checkout.cases checkout.matrix ≡ ok checkout.matrix
    → IsLawful checkout asked c
    → verify_certificate checkout asked c ≡ ok c
unfolding verify_certificate
lawful-verified checkout asked c matrix l = simp (
  l.allowed,
  l.shape,
  l.passed,
  matrix,
  l.plugin,
  same_refl checkout.plugin,
  l.version,
  l.covered,
  l.attempts,
  l.cases,
  l.clean,
  l.ancestry,
  l.stable,
)

-- A certificate that `assemble_certificate` makes and that passed is verified for the same package
-- and matrix, where the ancestry and the stable ref that are asked for are as it says.
pub assemble-verify_certificate :
    (checkout : Checkout) (version : String) (b : BehavioralProof) (r : CleanRoomProof)
    (asked : Asked) (c : GateCertificate)
    → (asked.own_package || not (asked.require_ancestry || names_ref asked.stable_ref)) ≡ true
    → assemble_certificate checkout version b r ≡ ok c
    → c.passed ≡ true
    → check_ancestry checkout asked.require_ancestry c ≡ ok tt
    → check_stable checkout asked.stable_ref c ≡ ok tt
    → verify_certificate checkout asked c ≡ ok c
unfolding assemble_certificate gate_certificate
assemble-verify_certificate checkout version b r asked c allowed made passed ancestry stable =
    >>=-ok-then (validate_matrix checkout.cases checkout.matrix) _ made (λ matrix valid h.
      let (clean, h1) =
        require-eq-ok (not (is_local (checkout.dumps (gate_certificate checkout version b r))))
          local_path _ h in
      let whole : gate_certificate checkout version b r ≡ c = ok-inj h1 in
      let held : all_hold (checks_of checkout version b r) ≡ true =
        ap (λ (x : GateCertificate). x.passed) whole ∙ passed in
      let (named, covered) = passed-current checkout version b r held in
      let same_matrix = (matrix-IsCurrentMatrix checkout.cases checkout.matrix matrix valid).0 in
      lawful-verified checkout asked c (valid ∙ ap ok (sym same_matrix)) (record {
        allowed = allowed;
        shape =
            subst
              (λ (x : GateCertificate).
                (same_set x.names certificate_names && is_int 1 x.schema_version) ≡ true)
              whole refl;
        passed =
            both c.passed (all_hold c.checks) passed
              (subst (λ (x : GateCertificate). all_hold x.checks ≡ true) whole held);
        plugin = ap (λ (x : GateCertificate). x.plugin) (sym whole);
        version =
            subst (λ (x : GateCertificate). str_eq x.version checkout.plugin.version ≡ true) whole
              named;
        covered = covered;
        attempts =
            subst
              (λ (x : GateCertificate).
                int_eq x.matrix.minimum_attempts checkout.matrix.minimum_attempts ≡ true)
              whole (int_eq_refl checkout.matrix.minimum_attempts);
        cases =
            subst
              (λ (x : GateCertificate).
                argv_eq x.matrix.required_case_ids checkout.matrix.required_case_ids ≡ true)
              whole (argv_eq_refl checkout.matrix.required_case_ids);
        clean = subst (λ x. is_local (checkout.dumps x) ≡ false) whole (falsely _ clean);
        ancestry = ancestry;
        stable = stable;
      }))
  where
    both : (a d : Bool) → a ≡ true → d ≡ true → (a && d) ≡ true
    both a d p q = ground arith

    falsely : (a : Bool) → not a ≡ true → a ≡ false
    falsely a p = ground arith
