-- ===== src/Release/Controller/Forward.antt =====
-- How the refs of the remote move in `promote` of release_controller.py.
use tugling.Prelude.{
  String, Bool, true, false, ◌&&◌, List, [], ◌∷◌, ◌≡◌, ◌∙◌, refl, arith, ◌⊎◌, inl, inr, Option,
  none, some, all, elem, if◌then◌else◌,
}
use Prim.Native.String.{◌++◌ as join}
use tugling.Release.Certificate.{is_text, is_text-eq}
use tugling.Prelude.Except.{Except, ok, raise}
use tugling.Release.Controller.{
  ControllerError, push_failed, unconfirmed, Refs, Site, Promotion, State, promoted, Promoted,
  commit, annotated_tag, Refspec, Push, push_of, ref_of, tag_name, peeled, is_released, publish,
  review, promote,
}
use tugling.Release.Controller.Gates.{IsPromotable, review-IsPromotable}

-- The names that a push may write: its destinations, and what stands for the commits of tags there.
unfoldable pub touched : List Refspec → List String
touched [] = []
touched (r ∷ rs) = r.destination ∷ join r.destination "^{}" ∷ touched rs

-- The refs list what was sent to one destination.
unfoldable pub is_shown : Refs → Refspec → Bool
unfolding ref_of
is_shown refs r = elim r.source [
  | commit oid ↦ is_text oid (ref_of r.destination refs)
  | annotated_tag oid target ↦
      is_text oid (ref_of r.destination refs)
      && is_text target (ref_of (join r.destination "^{}") refs)
]

-- What Git documents of any push that is taken: a ref with a lease had the object id that was
-- expected, or did not change; an atomic push has written each of its destinations; and a ref that
-- is not among the destinations does not change.
pub record IsGitPush (push : Push → Refs → Option Refs) : Type 0 where
  pub lease :
      (q : Push) (name oid : String) (refs refs' : Refs)
      → q.lease ≡ some (name, oid)
      → push q refs ≡ some refs'
      → (ref_of name refs ≡ some oid) ⊎ (ref_of name refs ≡ ref_of name refs')
  pub written :
      (q : Push) (refs refs' : Refs)
      → q.atomic ≡ true
      → push q refs ≡ some refs'
      → all (is_shown refs') q.refspecs ≡ true
  pub others :
      (q : Push) (name : String) (refs refs' : Refs)
      → push q refs ≡ some refs'
      → elem name (touched q.refspecs) ≡ false
      → ref_of name refs' ≡ ref_of name refs

publish-pushed :
    (site : Site) (p : Promotion) (refs' : Refs)
    → (publish site p).pushed ≡ some refs'
    → site.push (push_of site p) site.at_push ≡ some refs'
unfolding publish
publish-pushed site p refs' h = known (site.push (push_of site p) site.at_push) h
  where
    known :
        (o : Option Refs)
        → Path
            (Option Refs)
            (elim o as (λ x. Promoted) [
              | none ↦ record { outcome = raise push_failed; pushed = none }
              | some refs ↦ record {
                outcome =
                    if is_released p (site.later refs) then ok promoted else raise unconfirmed;
                pushed = some refs;
              }
            ]).pushed
            (some refs')
        → o ≡ some refs'
    known none k = absurd (cc)
    known (some refs) k = k

pub pushed-facts :
    (site : Site) (p : Promotion) (refs' : Refs)
    → (promote site p).pushed ≡ some refs'
    → (review site p ≡ ok none) × (site.push (push_of site p) site.at_push ≡ some refs')
unfolding promote
pushed-facts site p refs' h = known (review site p) refl h
  where
    known :
        (v : Except ControllerError (Option State))
        → review site p ≡ v
        → Path
            (Option Refs)
            (elim v as (λ x. Promoted) [
              | raise error ↦ record { outcome = raise error; pushed = none }
              | ok (some state) ↦ record { outcome = ok state; pushed = none }
              | ok none ↦ publish site p
            ]).pushed
            (some refs')
        → (review site p ≡ ok none) × (site.push (push_of site p) site.at_push ≡ some refs')
    known (raise error) e k = absurd (cc)
    known (ok (some state)) e k = absurd (cc)
    known (ok none) e k = (e, publish-pushed site p refs' k)

-- How the refs of the remote have moved: stable from the certificate's baseline, which is behind
-- the candidate, or from the candidate itself, to the candidate; the tag's commit to the candidate;
-- and nothing else.
pub record IsForward (site : Site) (p : Promotion) (refs' : Refs) : Type 0 where
  pub gates : IsPromotable site p
  pub from_ :
      (ref_of "refs/heads/stable" site.at_push
        ≡ some p.certificate.content.behavioral.released_revision)
      ⊎ (ref_of "refs/heads/stable" site.at_push ≡ some p.candidate)
  pub to : ref_of "refs/heads/stable" refs' ≡ some p.candidate
  pub tagged : ref_of (peeled p) refs' ≡ some p.candidate
  pub others :
      (name : String)
      → elem name ("refs/heads/stable" ∷ "refs/heads/stable^{}" ∷ tag_name p ∷ peeled p ∷ [])
        ≡ false
      → ref_of name refs' ≡ ref_of name site.at_push

pushed-shown :
    (site : Site) (p : Promotion) (refs' : Refs)
    → all (is_shown refs') (push_of site p).refspecs ≡ true
    → (ref_of "refs/heads/stable" refs' ≡ some p.candidate)
      × (ref_of (peeled p) refs' ≡ some p.candidate)
unfolding push_of is_shown
pushed-shown site p refs' h = (
  is_text-eq p.candidate (ref_of "refs/heads/stable" refs') (ground arith),
  is_text-eq p.candidate (ref_of (peeled p) refs') (ground arith),
)

-- Where Git pushes as it documents, a call that changes the remote, also one that ends with an
-- error, has passed every gate: the reviewed machinery and modes, a current main, a certificate of
-- this candidate and version with the reviewed digest, a new tag, a stable still at the baseline,
-- and the request to apply. Stable moves to the candidate from the baseline, which is behind it, or
-- is there already, the tag's commit is the candidate, and no other ref moves.
pub promote-IsForward :
    (site : Site) (p : Promotion) (refs' : Refs)
    → IsGitPush site.push
    → (promote site p).pushed ≡ some refs'
    → IsForward site p refs'
unfolding push_of touched
promote-IsForward site p refs' git h =
    let (reviewed, taken) = pushed-facts site p refs' h in
    let q = push_of site p in
    let (to, tagged) = pushed-shown site p refs' (git.written q site.at_push refs' refl taken) in
    record {
      gates = review-IsPromotable site p reviewed;
      from_ =
          elim (git.lease q "refs/heads/stable" p.certificate.content.behavioral.released_revision
            site.at_push refs' refl taken) [
              | inl expected ↦ inl expected
              | inr unmoved ↦ inr (unmoved ∙ to)
            ];
      to = to;
      tagged = tagged;
      others = λ name n. git.others q name site.at_push refs' taken n;
    }
