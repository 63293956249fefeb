-- ===== src/Project/Map/Accepted.antt =====
-- What it means that `validate_verification_map` of project_contract.py accepts a map.
use tugling.Prelude.{
  suc, ◌≤◌, String, true, false, not, List, [], ◌∷◌, ◌≡◌, refl, arith, length, elem, all, any,
  distinct, eq_iff, eq_refl, Option, none, some, ◌&&◌, and-eq-true, ◌==◌, leb,
}
use tugling.Project.Flows.{
  Flow, Mapping, Requirement, ok, require-eq-ok, >>-eq-ok, >>=-eq-ok, bad_schema_version,
  bad_flow_count, bad_parallel, bad_dependency, self_dependency, duplicate_command, bad_flow_id,
}
use tugling.Project.Cycles.{visit_all}
use tugling.Project.Cycles.Sound.{Chain, elem-of_all, visit_all-acyclic}
use tugling.Project.Required.{flow_ids, depends_on, required_flow_ids, required_of}
use tugling.Project.Map.{
  Checkout, validate_verification_map, check_flows, check_flow, check_links, check_policy,
  check_budget, budget_of, argv_eq, required_seconds,
}

-- No two flows run the same command.
abbrev pub HasDistinctCommands : List (List String) → List Flow → Type 0
HasDistinctCommands commands [] = Unit
HasDistinctCommands commands (f ∷ flows) =
    (any (argv_eq f.argv) commands ≡ false) × HasDistinctCommands (f.argv ∷ commands) flows

-- A map that can be executed.
pub record IsWellFormed (m : Mapping) : Type 0 where
  pub distinct_ids : distinct (flow_ids m.flows) ≡ true
  pub known :
      (x d : String) → elem d (depends_on m.flows x) ≡ true → elem d (flow_ids m.flows) ≡ true
  pub acyclic : (x : String) → elem x (flow_ids m.flows) ≡ true → ¬ Chain (depends_on m.flows) x x
  pub distinct_commands : HasDistinctCommands [] m.flows
  pub parallel : (1 ≤ m.max_parallel) × (m.max_parallel ≤ 8)
  pub budget :
      (required : List String)
      → required_flow_ids m ≡ ok required
      → required_seconds m.flows required ≤ 7200

budget_of-le :
    (flows : List Flow) (o : Option (List Requirement)) (required : List String)
    → budget_of flows o ≡ ok tt
    → required_of flows o ≡ ok required
    → required_seconds flows required ≤ 7200
unfolding budget_of
budget_of-le flows none required h r = absurd (unfold required_of in cc)
budget_of-le flows (some []) required h r = absurd (unfold required_of in cc)
budget_of-le flows (some (rule ∷ rest)) required h r = ground arith

check_budget-le :
    (m : Mapping) (required : List String)
    → check_budget m ≡ ok tt
    → required_flow_ids m ≡ ok required
    → required_seconds m.flows required ≤ 7200
unfolding check_budget required_flow_ids
check_budget-le m required h r = budget_of-le m.flows m.requirements required h r

module _ (c : Checkout) where
  check_flow-fresh :
      (seen : List String) (f : Flow) → check_flow c seen f ≡ ok tt → elem f.id seen ≡ false
  unfolding check_flow
  check_flow-fresh seen f h =
      let (a, k) = require-eq-ok _ bad_flow_id _ h in
      let (b, d) = and-eq-true _ (not (elem f.id seen)) a in ground arith

  check_flows-fresh :
      (seen : List String) (flows : List Flow) (x : String)
      → check_flows c seen flows ≡ ok tt
      → elem x (flow_ids flows) ≡ true
      → elem x seen ≡ false
  unfolding check_flows
  check_flows-fresh seen [] x h m = absurd (cc)
  check_flows-fresh seen (f ∷ flows) x h m =
      let (p, q) = >>-eq-ok (check_flow c seen f) _ h in
      let a = check_flow-fresh seen f p in
      ground (arith, eq_iff x f.id, check_flows-fresh (f.id ∷ seen) flows x q)

  check_flows-distinct :
      (seen : List String) (flows : List Flow)
      → check_flows c seen flows ≡ ok tt
      → distinct (flow_ids flows) ≡ true
  unfolding check_flows
  check_flows-distinct seen [] h = refl
  check_flows-distinct seen (f ∷ flows) h =
      let (p, q) = >>-eq-ok (check_flow c seen f) _ h in
      ground (
        arith,
        eq_refl f.id,
        check_flows-fresh (f.id ∷ seen) flows f.id q,
        check_flows-distinct (f.id ∷ seen) flows q,
      )

  pub check_links-known :
      (seen : List String) (commands : List (List String)) (flows : List Flow) (x d : String)
      → check_links c seen commands flows ≡ ok tt
      → elem d (depends_on flows x) ≡ true
      → elem d seen ≡ true
  unfolding check_links depends_on
  check_links-known seen commands [] x d h m = absurd (cc)
  check_links-known seen commands (f ∷ flows) x d h m =
      let (a, k₁) =
        require-eq-ok (all (λ d. elem d seen) f.depends_on && distinct f.depends_on) bad_dependency
          _ h in
      let (b, k₂) = require-eq-ok (not (elem f.id f.depends_on)) self_dependency _ k₁ in
      let (e, k₃) = require-eq-ok (not (any (argv_eq f.argv) commands)) duplicate_command _ k₂ in
      let (all_known, _) = and-eq-true _ _ a in
      ground (
        arith,
        elem-of_all d seen f.depends_on all_known,
        check_links-known seen (f.argv ∷ commands) flows x d k₃,
      )

  check_links-commands :
      (seen : List String) (commands : List (List String)) (flows : List Flow)
      → check_links c seen commands flows ≡ ok tt
      → HasDistinctCommands commands flows
  unfolding check_links
  check_links-commands seen commands [] h = tt
  check_links-commands seen commands (f ∷ flows) h =
      let (a, k₁) =
        require-eq-ok (all (λ d. elem d seen) f.depends_on && distinct f.depends_on) bad_dependency
          _ h in
      let (b, k₂) = require-eq-ok (not (elem f.id f.depends_on)) self_dependency _ k₁ in
      let (e, k₃) = require-eq-ok (not (any (argv_eq f.argv) commands)) duplicate_command _ k₂ in
      (ground arith, check_links-commands seen (f.argv ∷ commands) flows k₃)

  -- An accepted map is returned unchanged and can be executed: its ids and commands are distinct,
  -- every dependency names a flow, no flow depends on itself through any number of steps, 1 to 8
  -- flows may run at once, and the timeouts of the flows that `required_flow_ids` gives sum to at
  -- most 7200 seconds.
  pub validate-IsWellFormed :
      (m m' : Mapping) → validate_verification_map c m ≡ ok m' → (m ≡ m') × IsWellFormed m
  unfolding validate_verification_map
  validate-IsWellFormed m m' h =
      let (_, k₁) = require-eq-ok (m.schema_version == 1) bad_schema_version _ h in
      let (_, k₂) =
        require-eq-ok (leb 1 (length m.flows) && leb (length m.flows) 32) bad_flow_count _ k₁ in
      let (flows, k₃) = >>-eq-ok (check_flows c [] m.flows) _ k₂ in
      let (links, k₄) = >>-eq-ok (check_links c (flow_ids m.flows) [] m.flows) _ k₃ in
      let (v, search, k₅) =
        >>=-eq-ok (visit_all (suc (length m.flows)) (depends_on m.flows) (flow_ids m.flows)) _ k₄ in
      let (bounds, k₆) =
        require-eq-ok (leb 1 m.max_parallel && leb m.max_parallel 8) bad_parallel _ k₅ in
      let (_, k₇) = >>-eq-ok (check_policy c (flow_ids m.flows) m.requirements) _ k₆ in
      let (budget, k₈) = >>-eq-ok (check_budget m) _ k₇ in
      (
        cc,
        record {
          distinct_ids = check_flows-distinct [] m.flows flows;
          known = λ x d e. check_links-known (flow_ids m.flows) [] m.flows x d links e;
          acyclic = λ x e. visit_all-acyclic (depends_on m.flows) _ (flow_ids m.flows) v x search e;
          distinct_commands = check_links-commands (flow_ids m.flows) [] m.flows links;
          parallel = ground arith;
          budget = λ required. check_budget-le m required budget;
        },
      )
