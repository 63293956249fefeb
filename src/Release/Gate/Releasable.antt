-- ===== src/Release/Gate/Releasable.antt =====
-- What a certificate of version 1 that release_gate.py verifies shows.
use tugling.Prelude.{
  String, Bool, true, false, not, ◌&&◌, ◌||◌, Option, none, some, ◌≡◌, refl, sym, subst, arith, All,
  str_eq, eq_iff, if_false, ◌∙◌,
}
use tugling.Prelude.Except.{
  Except, ok, raise, require, ◌>>◌, require-eq-ok, require-ok, >>-eq-ok, >>=-ok-then, ok-inj,
}
use tugling.Prelude.Equality.{same, same-eq}
use tugling.Project.Map.{argv_eq}
use tugling.Release.Patterns.{is_sha}
use tugling.Release.Report.{plugin_eq, same_set, is_int}
use tugling.Release.Certificate.{is_text, is_text-eq, all_hold}
use tugling.Release.Gate.Matrix.{
  ReleaseMatrix, ReleaseGateError, local_path, package_only, bad_shape, not_passed, other_plugin,
  other_version, uncovered_catalog, stale_attempts, stale_cases, bad_revision, not_ancestor,
  stable_moved, not_forward, validate_matrix, release_covered,
}
use tugling.Release.Gate.{
  GateCertificate, Checkout, certificate_names, is_local, int_eq, Asked, names_ref, check_ancestry,
  check_baseline, check_stable, verify_certificate,
}
use tugling.Release.Gate.Verified.{IsCurrentMatrix, matrix-IsCurrentMatrix, all-All}

-- A certificate of the present package and matrix, every check of which held; its evaluated revision
-- and the stable ref are behind HEAD where that is asked for.
pub record IsReleasable (checkout : Checkout) (asked : Asked) (c : GateCertificate) : Type 0 where
  pub matrix : IsCurrentMatrix checkout.cases checkout.matrix
  pub passed : All (λ k. k.1 ≡ true) c.checks
  pub plugin : c.plugin ≡ checkout.plugin
  pub version : c.version ≡ checkout.plugin.version
  pub covered : release_covered checkout.plugin.skills checkout.matrix.required_skills ≡ true
  pub cases : argv_eq c.matrix.required_case_ids checkout.matrix.required_case_ids ≡ true
  pub ancestry :
      asked.require_ancestry ≡ true
      → (evaluated : String) × (c.behavioral.evaluated_revision ≡ some evaluated)
        × (is_sha evaluated ≡ true)
        × (checkout.is_ancestor evaluated ≡ true)
  pub stable :
      (name : String)
      → asked.stable_ref ≡ some name
      → str_eq name "" ≡ false
      → (stable : String) × (checkout.rev_parse name ≡ some stable)
        × (c.behavioral.released_revision ≡ some stable)
        × (checkout.is_ancestor stable ≡ true)

ancestry-facts :
    (checkout : Checkout) (c : GateCertificate) (asks : Bool)
    → check_ancestry checkout asks c ≡ ok tt
    → asks ≡ true
    → (evaluated : String) × (c.behavioral.evaluated_revision ≡ some evaluated)
      × (is_sha evaluated ≡ true)
      × (checkout.is_ancestor evaluated ≡ true)
unfolding check_ancestry
ancestry-facts checkout c false h is = absurd (cc)
ancestry-facts checkout c true h is = known c.behavioral.evaluated_revision refl h
  where
    known :
        (o : Option String)
        → c.behavioral.evaluated_revision ≡ o
        → Path
            (Except ReleaseGateError (Unit {0}))
            (elim o [
              | none ↦ raise bad_revision
              | some evaluated ↦
                  require (is_sha evaluated) bad_revision
                  >> require (checkout.is_ancestor evaluated) not_ancestor
            ])
            (ok tt)
        → (evaluated : String) × (c.behavioral.evaluated_revision ≡ some evaluated)
          × (is_sha evaluated ≡ true)
          × (checkout.is_ancestor evaluated ≡ true)
    known none e k = absurd (cc)
    known (some evaluated) e k =
        let (sha, k1) =
          require-eq-ok (is_sha evaluated) bad_revision
            (require (checkout.is_ancestor evaluated) not_ancestor) k in
        (evaluated, e, sha, require-ok (checkout.is_ancestor evaluated) not_ancestor k1)

baseline-facts :
    (checkout : Checkout) (c : GateCertificate) (o : Option String)
    → check_baseline checkout o c ≡ ok tt
    → (stable : String) × (o ≡ some stable)
      × (c.behavioral.released_revision ≡ some stable)
      × (checkout.is_ancestor stable ≡ true)
unfolding check_baseline
baseline-facts checkout c none h = absurd (cc)
baseline-facts checkout c (some stable) h =
    let (recorded, k1) =
      require-eq-ok (is_text stable c.behavioral.released_revision) stable_moved
        (require (checkout.is_ancestor stable) not_forward) h in
    (
      stable,
      refl,
      is_text-eq stable _ recorded,
      require-ok (checkout.is_ancestor stable) not_forward k1,
    )

stable-facts :
    (checkout : Checkout) (c : GateCertificate) (asked : Option String)
    → check_stable checkout asked c ≡ ok tt
    → (name : String) → asked ≡ some name
    → str_eq name "" ≡ false
    → (stable : String) × (checkout.rev_parse name ≡ some stable)
      × (c.behavioral.released_revision ≡ some stable)
      × (checkout.is_ancestor stable ≡ true)
unfolding check_stable
stable-facts checkout c asked h name is full = baseline-facts checkout c (checkout.rev_parse name) (
    sym (if_false (str_eq name "") (ok tt) _ full)
    ∙ subst (λ o. check_stable checkout o c ≡ ok tt) is h)

-- A certificate of version 1 that is verified is the one given, of the present package and of the
-- present, accepted matrix, and each of its checks held; where ancestry is asked for, its evaluated
-- revision is behind HEAD, and where a stable ref is named, which is not empty, the ref is the recorded baseline and
-- behind HEAD.
pub verify_certificate-IsReleasable :
    (checkout : Checkout) (asked : Asked) (c verified : GateCertificate)
    → verify_certificate checkout asked c ≡ ok verified
    → (c ≡ verified) × IsReleasable checkout asked c
unfolding verify_certificate
verify_certificate-IsReleasable checkout asked c verified h =
    let (_, h1) =
      require-eq-ok
        (asked.own_package || not (asked.require_ancestry || names_ref asked.stable_ref))
        package_only _ h in
    let (_, h2) =
      require-eq-ok (same_set c.names certificate_names && is_int 1 c.schema_version) bad_shape _
        h1 in
    let (passed, h3) = require-eq-ok (c.passed && all_hold c.checks) not_passed _ h2 in
    >>=-ok-then (validate_matrix checkout.cases checkout.matrix) _ h3 (λ matrix valid h4.
      let (plugin, h5) = require-eq-ok (same c.plugin checkout.plugin) other_plugin _ h4 in
      let (version, h6) =
        require-eq-ok (str_eq c.version checkout.plugin.version) other_version _ h5 in
      let (covered, h7) =
        require-eq-ok (release_covered checkout.plugin.skills matrix.required_skills)
          uncovered_catalog _ h6 in
      let (_, h8) =
        require-eq-ok (int_eq c.matrix.minimum_attempts matrix.minimum_attempts) stale_attempts _
          h7 in
      let (cases, h9) =
        require-eq-ok (argv_eq c.matrix.required_case_ids matrix.required_case_ids) stale_cases _
          h8 in
      let (_, h10) = require-eq-ok (not (is_local (checkout.dumps c))) local_path _ h9 in
      let (ancestry, h11) = >>-eq-ok (check_ancestry checkout asked.require_ancestry c) _ h10 in
      let (stable, h12) = >>-eq-ok (check_stable checkout asked.stable_ref c) (ok c) h11 in
      let (same_matrix, current) =
        matrix-IsCurrentMatrix checkout.cases checkout.matrix matrix valid in
      (
        ok-inj h12,
        record {
          matrix = current;
          passed = all-All c.checks (ground arith);
          plugin = same-eq c.plugin checkout.plugin plugin;
          version = (eq_iff c.version checkout.plugin.version).0 version;
          covered =
              subst
                (λ (m : ReleaseMatrix).
                  release_covered checkout.plugin.skills m.required_skills ≡ true)
                (sym same_matrix) covered;
          cases =
              subst
                (λ (m : ReleaseMatrix).
                  argv_eq c.matrix.required_case_ids m.required_case_ids ≡ true)
                (sym same_matrix) cases;
          ancestry = ancestry-facts checkout c asked.require_ancestry ancestry;
          stable = stable-facts checkout c asked.stable_ref stable;
        },
      ))
