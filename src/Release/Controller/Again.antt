-- ===== src/Release/Controller/Again.antt =====
-- A second call of `promote` of release_controller.py after one that ended as promoted.
use tugling.Prelude.{
  ℕ, ◌+◌, String, true, not, ◌&&◌, ◌||◌, List, [], ◌∷◌, ◌≡◌, refl, ap, arith, Option, none, some,
  leb, str_eq,
}
use tugling.Prelude.Except.{ok, require, ◌>>◌, >>-eq-ok, >>=-ok-then}
use tugling.Release.Certificate.{Certificate, is_text}
use tugling.Release.Controller.{
  Refs, Site, Promotion, already_promoted, ref_of, same_ruler, same_modes, materialize_data,
  check_candidate, check_certificate, tag_name, peeled, has_tag, is_released, decide, review,
  promote,
}
use tugling.Release.Controller.Forward.{pushed-facts}
use text.Mathlib.Text.{starts_with}
use tugling.Release.Controller.{TreeEntry, not_regular, too_large, check_entries, is_data, part_up}
use tugling.Prelude.{codes, keep, eq_refl}
use tugling.Project.Schedule.State.{is_some}

module _ (site : Site) (after : Refs) where
  abbrev later_site : Site
  later_site = record site { refs = after }

  check_entries-refs :
      (total : ℕ) (entries : List TreeEntry)
      → check_entries later_site total entries ≡ check_entries site total entries
  unfolding check_entries
  check_entries-refs total [] = refl
  check_entries-refs total (e ∷ entries) =
      ap
        (λ rest.
          require
            ((str_eq e.mode "100644" || str_eq e.mode "100755")
              && not (starts_with e.name "/")
              && not (part_up [] (codes e.name)))
            not_regular
          >> (require (leb (total + site.size e.oid) 16777216) too_large >> rest))
        (check_entries-refs (total + site.size e.oid) entries)

  materialize_data-refs :
      (candidate : String) → materialize_data later_site candidate ≡ materialize_data site candidate
  unfolding materialize_data
  materialize_data-refs candidate =
      rw (check_entries-refs 0 (keep is_data (site.tree candidate))) refl

  check_candidate-refs :
      (p : Promotion) → check_candidate site p ≡ ok tt → check_candidate later_site p ≡ ok tt
  unfolding check_candidate same_ruler same_modes
  check_candidate-refs p h = rw (materialize_data-refs p.candidate) h

  check_certificate-refs :
      (p : Promotion) (c : Certificate)
      → check_certificate site p ≡ ok c
      → check_certificate later_site p ≡ ok c
  unfolding check_certificate
  check_certificate-refs p c h = h

  review-already :
      (p : Promotion)
      → ref_of "refs/heads/main" after ≡ some p.candidate
      → is_released p after ≡ true
      → review site p ≡ ok none
      → review later_site p ≡ ok (some already_promoted)
  unfolding review decide
  review-already p main released h =
      let (checked, h1) = >>-eq-ok (check_candidate site p) _ h in
      >>=-ok-then (check_certificate site p) _ h1 (λ c certified _.
        let again = check_candidate-refs p checked in
        let certified_again = check_certificate-refs p c certified in
        let tagged : has_tag p after ≡ true = peeled_tag (ref_of (peeled p) after) (ground arith) in
        rw (again, certified_again, main, eq_refl p.candidate, tagged, released) refl)
    where
      peeled_tag :
          (o : Option String)
          → is_text p.candidate o ≡ true
          → (is_some o || is_some (ref_of (tag_name p) after)) ≡ true
      peeled_tag none k = absurd (cc)
      peeled_tag (some t) k = refl

-- Where a call has changed the remote, and the remote's refs later show the candidate as stable, as
-- the tag's commit and as main, the same call again reports that it is promoted and pushes nothing.
pub promote-again :
    (site : Site) (p : Promotion) (refs' after : Refs)
    → (promote site p).pushed ≡ some refs'
    → ref_of "refs/heads/main" after ≡ some p.candidate
    → is_released p after ≡ true
    → promote (record site { refs = after }) p
      ≡ record { outcome = ok already_promoted; pushed = none }
unfolding promote
promote-again site p refs' after h main released =
    let (reviewed, _) = pushed-facts site p refs' h in
    rw (promote, review-already site after p main released reviewed) refl
