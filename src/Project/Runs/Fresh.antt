-- ===== src/Project/Runs/Fresh.antt =====
-- Evidence that `execute_flows` of project_contract.py ends with as passed, in `check_flow_evidence`.
use tugling.Prelude.{
  ℕ, pos, String, true, false, List, [], ◌∷◌, ◌≡◌, refl, sym, ap, ◌∙◌, arith, Option, none, some,
  map, All, eq_refl,
}
use tugling.Prelude.Except.{ok, >>=-eq-ok, require-eq-ok, ok-inj}
use tugling.Project.Flows.{Mapping}
use tugling.Project.Map.{argv_eq}
use tugling.Project.Results.{
  FlowResult, Plan, Summary, execution_plan, performance_summary, validate_execution_timing,
}
use tugling.Project.Schedule.{argv_of, config_of}
use tugling.Project.Schedule.Codes.{IsHonest}
use tugling.Project.Runs.{
  Identity, Context, Host, Worktree, clean_revision, execution_context, github_context,
  verification_identity, config_outside, config_not_committed,
}
use tugling.Project.Runs.Execute.{all_passed}
use tugling.Project.Runs.Check.{has_passed, all_match}

abbrev identity_with : Host → String → String → Context → Identity
identity_with h sha revision context = record {
  project_revision = revision;
  config_sha256 = h.config_sha256;
  map_sha256 = sha;
  helper_sha256 = h.helper_sha256;
  execution_context = context;
}

verification_identity_at :
    (h : Host) (tree : Worktree) (sha revision : String) (context : Context)
    → h.config_inside ≡ true
    → h.config_committed ≡ true
    → clean_revision h.root tree ≡ ok revision
    → execution_context h ≡ ok context
    → verification_identity (record h { worktree = tree }) sha
      ≡ ok (identity_with h sha revision context)
unfolding verification_identity execution_context github_context
verification_identity_at h tree sha revision context inside committed clean known =
    simp (inside, committed, clean, known)

-- The identity of a project whose tree is clean at the same revision later is the same.
pub identity_again :
    (h : Host) (tree : Worktree) (sha : String) (i : Identity)
    → verification_identity h sha ≡ ok i
    → clean_revision h.root tree ≡ ok i.project_revision
    → verification_identity (record h { worktree = tree }) sha ≡ ok i
unfolding verification_identity
identity_again h tree sha i made again =
    let (inside, h1) = require-eq-ok h.config_inside config_outside _ made in
    let (committed, h2) = require-eq-ok h.config_committed config_not_committed _ h1 in
    let (revision, clean, h3) = >>=-eq-ok (clean_revision h.root h.worktree) _ h2 in
    let (context, known, h4) = >>=-eq-ok (execution_context h) _ h3 in
    let whole : identity_with h sha revision context ≡ i = ok-inj h4 in
    verification_identity_at h tree sha revision context inside committed
      (again ∙ ap ok (sym (ap (λ j. j.project_revision) whole))) known
    ∙ ap ok whole

pub argv_eq_refl : (xs : List String) → argv_eq xs xs ≡ true
unfolding argv_eq
argv_eq_refl [] = refl
argv_eq_refl (x ∷ xs) = ground (arith, eq_refl x, argv_eq_refl xs)

-- Results that are honest and passed match the flows of their ids.
pub all_match-honest :
    (mapping : Mapping) (budget : Option ℕ) (xs : List String) (rs : List FlowResult)
    → map (λ r. r.id) rs ≡ xs
    → All (IsHonest (config_of mapping budget)) rs
    → all_passed rs ≡ true
    → all_match mapping xs rs ≡ true
unfolding all_match config_of
all_match-honest mapping budget [] rs ids honest passed = refl
all_match-honest mapping budget (x ∷ xs) [] ids honest passed = refl
all_match-honest mapping budget (x ∷ xs) (r ∷ rs) ids ((command, clean), honest) passed =
    let first : r.id ≡ x = cc in
    let rest : map (λ (q : FlowResult). q.id) rs ≡ xs = cc in
    let fine : r.failure ≡ none = none_of r.failure (ground arith) in
    let (code, forced) = clean fine in
    let argv : r.argv ≡ argv_of mapping.flows x = command ∙ ap (argv_of mapping.flows) first in
    let here : has_passed mapping x r ≡ true = shown x r first argv code fine forced in
    rw here (all_match-honest mapping budget xs rs rest honest (ground arith))
  where
    none_of :
        (o : Option tugling.Project.Results.Failure)
        → elim o [ none ↦ true | some f ↦ false ] ≡ true
        → o ≡ none
    none_of none h = refl
    none_of (some f) h = absurd (cc)

    shown :
        (x : String) (r : FlowResult)
        → r.id ≡ x
        → r.argv ≡ argv_of mapping.flows x
        → r.exit_code ≡ some (pos 0)
        → r.failure ≡ none
        → r.forced_cleanup ≡ false
        → has_passed mapping x r ≡ true
    shown x r first argv code fine forced =
        simp (first, argv, code, fine, forced, eq_refl, argv_eq_refl)
