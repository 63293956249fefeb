-- ===== src/Release/Examples/Promotion.antt =====
-- A concrete promotion of release_controller.py, and the theorems' use on it.
use tugling.Prelude.{
  String, true, List, [], ◌∷◌, Option, none, some, ◌≡◌, inl, inr, refl, sym, ap, ◌∙◌, subst, str_eq,
  if◌then◌else◌, Bool-cases, if_true, if_false,
}
use tugling.Prelude.Except.{ok}
use tugling.Prelude.Equality.{same, String-discrete}
use native.Mathlib.Decide.{ℕ_discrete}
use tugling.Release.Certificate.{verify_certificate, check_plugin}
use tugling.Release.Attempts.{validate_report}
use tugling.Release.Patterns.{is_timestamp}
use tugling.Release.Controller.{
  TreeEntry, Refs, CertificateFile, Site, Promotion, State, already_promoted, ready, promoted,
  Promoted, promote, ref_of, is_released, tag_name, peeled, stable_moved,
}
use Prim.Native.String.{◌++◌ as join}
use tugling.Release.Certificate.{is_text, is_text-eq}
use tugling.Release.Controller.{PushSource, commit, annotated_tag, Refspec, Push}
use tugling.Prelude.{Bool, false, ◌&&◌, all, elem, and-eq-true, arith}
use tugling.Release.Controller.Forward.{touched, is_shown, IsGitPush, IsForward, promote-IsForward}
use tugling.Release.Controller.Again.{promote-again}
use tugling.Release.Examples.{
  digest_b, sha_a, sha_c, sample_plugin, sample_rules, sample_certificate,
}

abbrev sample_tree : List TreeEntry
sample_tree =
    record { name = "Makefile"; mode = "100644"; oid = "m" }
    ∷ record { name = "plugins/tugling/skills/setup/SKILL.md"; mode = "100644"; oid = "s" }
    ∷ []

abbrev sample_refs : Refs
sample_refs = ("refs/heads/main", sha_c) ∷ ("refs/heads/stable", sha_a) ∷ []

abbrev or_empty : Option String → String
or_empty none = ""
or_empty (some s) = s

-- The refs after a push of these.
abbrev pub write : PushSource → String → Refs → Refs
write (commit oid) name refs = (name, oid) ∷ refs
write (annotated_tag oid target) name refs = (name, oid) ∷ (join name "^{}", target) ∷ refs

unfoldable pub overlay : List Refspec → Refs → Refs
overlay [] refs = refs
overlay (r ∷ rs) refs = write r.source r.destination (overlay rs refs)

abbrev pub keeps_lease : Option (String × String) → Refs → Bool
keeps_lease none refs = true
keeps_lease (some (name, oid)) refs = is_text oid (ref_of name refs)

-- A remote that takes a push where the lease holds and no destination is written twice.
abbrev pub takes : Push → Refs → Bool
takes q refs = keeps_lease q.lease refs && all (is_shown (overlay q.refspecs refs)) q.refspecs

abbrev pub sample_push : Push → Refs → Option Refs
sample_push q refs = if takes q refs then some (overlay q.refspecs refs) else none

abbrev pub sample_site : Site
sample_site = record {
  tree = λ revision. sample_tree;
  size = λ oid. 100;
  is_ancestor = λ a b. true;
  fetched_main = sha_c;
  package_accepted = true;
  plugin = sample_plugin;
  rules = sample_rules;
  refs = sample_refs;
  at_push = sample_refs;
  tag_object = "t";
  push = sample_push;
  later = λ refs. refs;
}

abbrev pub sample_promotion : Promotion
sample_promotion = record {
  controller = sha_a;
  candidate = sha_c;
  version = "1.2.3";
  certificate = record {
    is_regular = true;
    bytes = 9000;
    sha256 = digest_b;
    content = sample_certificate;
  };
  certificate_digest = digest_b;
  certification_controller = sha_a;
  apply = true;
}

abbrev pub pushed_refs : Refs
pushed_refs =
    ("refs/heads/stable", sha_c)
    ∷ ("refs/tags/v1.2.3", "t")
    ∷ ("refs/tags/v1.2.3^{}", sha_c)
    ∷ sample_refs

pub sample_promoted :
    promote sample_site sample_promotion
    ≡ record { outcome = ok promoted; pushed = some pushed_refs }
unfolding promote verify_certificate check_plugin tugling.Release.Patterns.is_version is_timestamp
    tugling.Release.Certificate.CertifiedInstall-discrete validate_report same String-discrete
    ℕ_discrete tugling.Release.Report.PluginIdentity-discrete tugling.Release.Patterns.is_identifier
    tugling.Release.Patterns.is_sha tugling.Release.Patterns.is_digest
    tugling.Release.Patterns.is_runtime_name tugling.Project.Map.argv_eq
    tugling.Release.Controller.review tugling.Release.Controller.check_candidate
    tugling.Release.Controller.validate_request tugling.Release.Controller.same_ruler
    tugling.Release.Controller.same_modes tugling.Release.Controller.materialize_data
    tugling.Release.Controller.check_certificate tugling.Release.Controller.decide
    tugling.Release.Controller.publish tugling.Release.Controller.push_of overlay is_shown
sample_promoted = refl

write-other :
    (source : PushSource) (destination : String) (refs : Refs) (name : String)
    → str_eq name destination ≡ false
    → str_eq name (join destination "^{}") ≡ false
    → ref_of name (write source destination refs) ≡ ref_of name refs
unfolding ref_of
write-other (commit oid) d refs name n m = ground arith
write-other (annotated_tag oid target) d refs name n m = ground arith

overlay-others :
    (rs : List Refspec) (refs : Refs) (name : String)
    → elem name (touched rs) ≡ false
    → ref_of name (overlay rs refs) ≡ ref_of name refs
unfolding overlay ref_of touched
overlay-others [] refs name h = refl
overlay-others (r ∷ rs) refs name h =
    write-other r.source r.destination (overlay rs refs) name (ground arith) (ground arith)
    ∙ overlay-others rs refs name (ground arith)

pub sample_push-IsGitPush : IsGitPush sample_push
sample_push-IsGitPush = record {
  lease = λ q name oid refs refs' leased taken. inl (
      is_text-eq oid (ref_of name refs) (
        subst (λ l. keeps_lease l refs ≡ true) leased
          (and-eq-true (keeps_lease q.lease refs) _ (taken_at q refs refs' taken).0).0));
  written = λ q refs refs' atomic taken.
      let (holds, after) = taken_at q refs refs' taken in
      subst (λ r. all (is_shown r) q.refspecs ≡ true) after
        (and-eq-true (keeps_lease q.lease refs) _ holds).1;
  others = λ q name refs refs' taken n.
      subst (λ r. ref_of name r ≡ ref_of name refs) (taken_at q refs refs' taken).1
        (overlay-others q.refspecs refs name n);
}
  where
    some-inj : {a b : Refs} → Path (Option Refs) (some a) (some b) → a ≡ b
    some-inj h = cc

    taken_at :
        (q : Push) (refs refs' : Refs)
        → sample_push q refs ≡ some refs'
        → (takes q refs ≡ true) × (overlay q.refspecs refs ≡ refs')
    taken_at q refs refs' h = elim (Bool-cases (takes q refs)) [
      | inl yes_ ↦ (yes_, some-inj (sym (if_true _ _ _ yes_) ∙ h))
      | inr no_ ↦ absurd (let k = sym (if_false _ _ _ no_) ∙ h in cc)
    ]

promote-IsForward_example : IsForward sample_site sample_promotion pushed_refs
promote-IsForward_example =
    promote-IsForward sample_site sample_promotion pushed_refs sample_push-IsGitPush
      (ap (λ (r : Promoted). r.pushed) sample_promoted)

pushed_main : ref_of "refs/heads/main" pushed_refs ≡ some sha_c
unfolding ref_of
pushed_main = refl

pushed_released : is_released sample_promotion pushed_refs ≡ true
unfolding ref_of
pushed_released = refl

promote-again_example :
    promote (record sample_site { refs = pushed_refs }) sample_promotion
    ≡ record { outcome = ok already_promoted; pushed = none }
promote-again_example =
    promote-again sample_site sample_promotion pushed_refs pushed_refs
      (ap (λ (r : Promoted). r.pushed) sample_promoted) pushed_main pushed_released
