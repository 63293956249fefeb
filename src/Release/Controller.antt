-- ===== src/Release/Controller.antt =====
-- `promote` of release_controller.py: the checks of a candidate and its certificate, and the push.
-- What Git and the remote answer, and the files' digests, are observations of a `Site`.
pub mod Gates
pub mod Forward
pub mod Again
use tugling.Prelude.{
  codes, ℕ, ◌+◌, String, Bool, true, false, not, ◌&&◌, ◌||◌, List, [], ◌∷◌, ◌++◌, Option, none,
  some, map, keep, all, any, length, ltb, leb, ◌==◌, if◌then◌else◌, str_eq,
}
use tugling.Prelude.Except.{Except, ok, raise, require, ◌>>=◌, ◌>>◌}
use Prim.Native.String.{◌++◌ as join}
use tugling.Project.Schedule.State.{is_some}
use tugling.Release.Patterns.{is_sha, is_digest, is_version}
use text.Mathlib.Text.{starts_with}
use tugling.Release.Report.{PluginIdentity, ReviewedReleaseError, is_int}
use tugling.Release.Certificate.{
  Certificate, CertifiedScope, CertifiedInstall, Rules, verify_certificate, is_text,
}

pub data ControllerError : Type 0 where
  bad_shas bad_version bad_controller bad_file main_moved ruler_changed not_ancestor :
      ControllerError
  no_package not_regular too_large modes_differ different_digest bad_package legacy :
      ControllerError
  unverified : ReviewedReleaseError → ControllerError
  other_version bad_baseline other_candidate tag_exists stable_moved push_failed unconfirmed :
      ControllerError

-- An entry of `git ls-tree -r`.
pub record TreeEntry : Type 0 where
  pub name : String
  pub mode : String
  pub oid : String

-- The refs that `git ls-remote` lists: names with object ids.
abbrev pub Refs : Type 0
Refs = List (String × String)

pub record CertificateFile : Type 0 where
  pub is_regular : Bool
  pub bytes : ℕ
  pub sha256 : String
  pub content : Certificate

-- What `git push` sends to a ref: a commit, or the object of an annotated tag of a commit.
pub data PushSource : Type 0 where
  commit : String → PushSource
  annotated_tag : String → String → PushSource

pub record Refspec : Type 0 where
  pub source : PushSource
  pub destination : String

-- The arguments of `git push`; `lease` is the ref of `--force-with-lease` with the object id that is
-- expected there.
pub record Push : Type 0 where
  pub atomic : Bool
  pub lease : Option (String × String)
  pub refspecs : List Refspec

-- The objects that were fetched, the verifier's own rules, the package as it was extracted, and the
-- remote: when it is listed, when a push arrives and how it answers it, and when it is listed again.
-- `tag_object` is the tag's object that `git tag --annotate` makes.
pub record Site : Type 0 where
  pub tree : String → List TreeEntry
  pub size : String → ℕ
  pub is_ancestor : String → String → Bool
  pub fetched_main : String
  pub package_accepted : Bool
  pub plugin : PluginIdentity
  pub rules : Rules
  pub refs : Refs
  pub at_push : Refs
  pub tag_object : String
  pub push : Push → Refs → Option Refs
  pub later : Refs → Refs

-- The arguments of `promote`.
pub record Promotion : Type 0 where
  pub controller : String
  pub candidate : String
  pub version : String
  pub certificate : CertificateFile
  pub certificate_digest : String
  pub certification_controller : String
  pub apply : Bool

pub data State : Type 0 where
  already_promoted ready promoted : State

-- A result, and the refs of the remote after the push, if there was one that it took.
pub record Promoted : Type 0 where
  pub outcome : Except ControllerError State
  pub pushed : Option Refs

unfoldable pub ref_of : String → Refs → Option String
ref_of name [] = none
ref_of name ((n, oid) ∷ refs) =
    let later = ref_of name refs in if str_eq name n then some oid else later

unfoldable pub ruler_path : String → Bool
ruler_path name =
    str_eq name "Makefile"
    || starts_with name ".github/"
    || starts_with name ".agents/"
    || starts_with name "scripts/"
    || starts_with name "tests/"
    || (starts_with name "evals/" && not (starts_with name "evals/releases/"))

abbrev same_entry : TreeEntry → TreeEntry → Bool
same_entry a b = str_eq a.name b.name && str_eq a.mode b.mode && str_eq a.oid b.oid

-- Equality of dictionaries by name, whose keys are distinct.
abbrev pub same_by : {A : Type 0} → (A → A → Bool) → List A → List A → Bool
same_by eq xs ys = all (λ x. any (eq x) ys) xs && all (λ y. any (eq y) xs) ys

unfoldable pub same_ruler : Site → String → String → Bool
unfolding ruler_path
same_ruler site controller candidate =
    same_by same_entry (keep (λ e. ruler_path e.name) (site.tree controller))
      (keep (λ e. ruler_path e.name) (site.tree candidate))

abbrev require_reviewed_ruler : Site → String → String → Except ControllerError (Unit {0})
require_reviewed_ruler site controller candidate =
    require (same_ruler site controller candidate) ruler_changed

abbrev same_mode : TreeEntry → TreeEntry → Bool
same_mode a b = str_eq a.name b.name && str_eq a.mode b.mode

unfoldable pub same_modes : Site → String → String → Bool
same_modes site approved candidate =
    same_by same_mode (keep (λ e. starts_with e.name "plugins/tugling/") (site.tree approved))
      (keep (λ e. starts_with e.name "plugins/tugling/") (site.tree candidate))

abbrev is_up : List ℕ → Bool
is_up (a ∷ b ∷ []) = (a == b'.') && (b == b'.')
is_up other = false

-- `".." in relative.parts`, from the part so far and the codes behind it.
unfoldable pub part_up : List ℕ → List ℕ → Bool
part_up part [] = is_up part
part_up part (c ∷ cs) =
    let next = part_up [] cs in
    let same_part = part_up (part ++ c ∷ []) cs in
    if c == b'/' then is_up part || next else same_part

abbrev pub is_data : TreeEntry → Bool
is_data e =
    starts_with e.name "plugins/tugling/" || str_eq e.name ".agents/plugins/marketplace.json"

-- The loop of `materialize_data` with the bytes so far.
unfoldable pub check_entries : Site → ℕ → List TreeEntry → Except ControllerError (Unit {0})
unfolding part_up
check_entries site total [] = ok tt
check_entries site total (e ∷ entries) = do
  require
      ((str_eq e.mode "100644" || str_eq e.mode "100755")
        && not (starts_with e.name "/")
        && not (part_up [] (codes e.name)))
      not_regular
  require (leb (total + site.size e.oid) 16777216) too_large
  check_entries site (total + site.size e.oid) entries

-- `materialize_data`, the entries that it extracts.
unfoldable pub materialize_data : Site → String → Except ControllerError (List TreeEntry)
unfolding check_entries
materialize_data site candidate = do
  let entries = keep is_data (site.tree candidate)
  require (ltb 0 (length entries) && leb (length entries) 2000) no_package
  check_entries site 0 entries
  ok entries

unfoldable pub validate_request :
    String → String → String → String → Except ControllerError (Unit {0})
validate_request controller candidate version certificate_digest = do
  require (is_sha controller && is_sha candidate) bad_shas
  require (is_version version && is_digest certificate_digest) bad_version

-- The checks of the candidate's commit and package.
unfoldable pub check_candidate : Site → Promotion → Except ControllerError (Unit {0})
check_candidate site p = do
  validate_request p.controller p.candidate p.version p.certificate_digest
  require (is_sha p.certification_controller) bad_controller
  require (p.certificate.is_regular && leb p.certificate.bytes 262144) bad_file
  require (str_eq site.fetched_main p.candidate) main_moved
  require_reviewed_ruler site p.controller p.candidate
  require_reviewed_ruler site p.certification_controller p.candidate
  require (site.is_ancestor p.controller p.candidate) not_ancestor
  require (site.is_ancestor p.certification_controller p.candidate) not_ancestor
  entries ← materialize_data site p.candidate
  require (same_modes site p.certification_controller p.candidate) modes_differ

abbrev verified : Except ReviewedReleaseError Certificate → Except ControllerError Certificate
verified (ok c) = ok c
verified (raise error) = raise (unverified error)

-- The checks of the certificate's file; a certificate of this candidate.
unfoldable pub check_certificate : Site → Promotion → Except ControllerError Certificate
check_certificate site p = do
  require (str_eq p.certificate.sha256 p.certificate_digest) different_digest
  require site.package_accepted bad_package
  require (is_int 2 p.certificate.content.schema_version) legacy
  c ← verified (verify_certificate site.rules (some site.plugin) p.certificate.content)
  require (str_eq c.version p.version) other_version
  require (is_sha c.behavioral.released_revision) bad_baseline
  require
      (str_eq c.behavioral.evaluated_revision p.candidate
        && str_eq c.clean_room.revision p.candidate)
      other_candidate
  require (site.is_ancestor c.behavioral.released_revision p.candidate) not_ancestor
  ok c

abbrev pub tag_name : Promotion → String
tag_name p = join "refs/tags/v" p.version

-- The commit that an annotated tag points to is listed behind its name and this suffix.
abbrev pub peeled : Promotion → String
peeled p = join (tag_name p) "^{}"

-- `refs.get(f"{tag}^{{}}", refs.get(tag))`, if it is there.
abbrev pub has_tag : Promotion → Refs → Bool
has_tag p refs = is_some (ref_of (peeled p) refs) || is_some (ref_of (tag_name p) refs)

-- Whether the refs show the candidate as stable and as the tag's commit.
abbrev pub is_released : Promotion → Refs → Bool
is_released p refs =
    is_text p.candidate (ref_of "refs/heads/stable" refs)
    && is_text p.candidate (ref_of (peeled p) refs)

-- The decision on the refs of the remote: a state to report, or none where the push follows.
unfoldable pub decide : Site → Promotion → Certificate → Except ControllerError (Option State)
unfolding ref_of
decide site p c = do
  require (is_text p.candidate (ref_of "refs/heads/main" site.refs)) main_moved
  let tagged : Except ControllerError (Option State) =
      if is_released p site.refs then ok (some already_promoted) else raise tag_exists
  let untagged : Except ControllerError (Option State) = do
    require (is_text c.behavioral.released_revision (ref_of "refs/heads/stable" site.refs))
        stable_moved
    ok (if p.apply then none else some ready)
  if has_tag p site.refs then tagged else untagged

-- The arguments of the push. The baseline is that of the certificate, which
-- `verify_certificate` returns as it was read.
unfoldable pub push_of : Site → Promotion → Push
push_of site p = record {
  atomic = true;
  lease = some ("refs/heads/stable", p.certificate.content.behavioral.released_revision);
  refspecs =
      record { source = commit p.candidate; destination = "refs/heads/stable" }
      ∷ record { source = annotated_tag site.tag_object p.candidate; destination = tag_name p }
      ∷ [];
}

-- The push, and the refs that are listed after it.
unfoldable pub publish : Site → Promotion → Promoted
publish site p = elim (site.push (push_of site p) site.at_push) [
  | none ↦ record { outcome = raise push_failed; pushed = none }
  | some refs ↦ record {
    outcome = if is_released p (site.later refs) then ok promoted else raise unconfirmed;
    pushed = some refs;
  }
]

-- Everything before the push.
unfoldable pub review : Site → Promotion → Except ControllerError (Option State)
review site p = do check_candidate site p; c ← check_certificate site p; decide site p c

unfoldable pub promote : Site → Promotion → Promoted
promote site p = elim (review site p) [
  | raise error ↦ record { outcome = raise error; pushed = none }
  | ok (some state) ↦ record { outcome = ok state; pushed = none }
  | ok none ↦ publish site p
]
