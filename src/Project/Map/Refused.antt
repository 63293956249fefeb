-- ===== src/Project/Map/Refused.antt =====
-- When `validate_verification_map` of project_contract.py refuses a map for its dependency graph.
use tugling.Prelude.{
  suc, String, Bool, true, false, List, [], ◌∷◌, ◌≡◌, refl, subst, arith, length, elem, inl, inr,
  Option, none, some, length-map, ◌&&◌, ◌==◌, leb,
}
use tugling.Project.Flows.{
  Flow, Mapping, Requirement, Result, ok, raise, require, cycle, out_of_fuel, ContractError, ◌>>◌,
  >>=-eq-err, bad_schema_version, bad_flow_count, bad_parallel,
}
use tugling.Project.Cycles.{visit_all}
use tugling.Project.Cycles.Sound.{Chain}
use tugling.Project.Cycles.Complete.{visit_all-Cyclic}
use tugling.Project.Required.{flow_ids, depends_on, required_of, named_by}
use tugling.Project.Required.Closure.{required_from_outcome}
use tugling.Project.Map.{
  Checkout, validate_verification_map, check_flows, check_flow, check_links, check_policy,
  check_budget, budget_of, check_requirements,
}
use tugling.Project.Map.Accepted.{check_links-known}

-- The errors of the two graph searches.
abbrev pub is_graph_error : ContractError → Bool
is_graph_error cycle = true
is_graph_error out_of_fuel = true
is_graph_error _ = false

-- A check that never fails with a graph error.
abbrev IsPlain {ℓ} : {A : Type ℓ} → Result A → Type ℓ
IsPlain r = (e : ContractError) → r ≡ raise e → is_graph_error e ≡ false

-- The steps that never fail with a graph error have succeeded where one is raised.
skip :
    (m : Result (Unit {0})) (k : Result Mapping) (e : ContractError)
    → IsPlain m
    → (m >> k) ≡ raise e
    → is_graph_error e ≡ true
    → (m ≡ ok tt) × (k ≡ raise e)
skip (ok u) k e pm h g = (refl, h)
skip (raise e') k e pm h g = let p = pm e (cc) in absurd (cc)

IsPlain-require : (b : Bool) (e : ContractError) → is_graph_error e ≡ false → IsPlain (require b e)
IsPlain-require true e p e' h = cc
IsPlain-require false e p e' h = let q : e ≡ e' = cc in subst (λ z. is_graph_error z ≡ false) q p

IsPlain->> {ℓ} :
    {B : Type ℓ} (m : Result (Unit {0})) (k : Result B) → IsPlain m → IsPlain k → IsPlain (m >> k)
IsPlain->> (ok u) k pm pk e h = pk e h
IsPlain->> (raise e') k pm pk e h = pm e (cc)

-- Where every dependency names a flow, the budget check is total.
budget_of-IsPlain :
    (flows : List Flow) (o : Option (List Requirement))
    → ((x d : String) → elem d (depends_on flows x) ≡ true → elem d (flow_ids flows) ≡ true)
    → IsPlain (budget_of flows o)
unfolding budget_of required_of
budget_of-IsPlain flows none known e h = cc
budget_of-IsPlain flows (some []) known e h = cc
budget_of-IsPlain flows (some (r ∷ rest)) known e h =
    elim (required_from_outcome flows (named_by (r ∷ rest) []) known) [
      | inl (ids, p) ↦ ground arith
      | inr p ↦ ground arith
    ]

module _ (c : Checkout) where
  IsPlain-flow : (seen : List String) (f : Flow) → IsPlain (check_flow c seen f)
  unfolding check_flow
  IsPlain-flow seen f e h = ground arith

  IsPlain-flows : (seen : List String) (flows : List Flow) → IsPlain (check_flows c seen flows)
  unfolding check_flows
  IsPlain-flows seen [] e h = cc
  IsPlain-flows seen (f ∷ flows) e h =
      IsPlain->> (check_flow c seen f) (check_flows c (f.id ∷ seen) flows) (IsPlain-flow seen f)
        (IsPlain-flows (f.id ∷ seen) flows) e h

  IsPlain-links :
      (seen : List String) (commands : List (List String)) (flows : List Flow)
      → IsPlain (check_links c seen commands flows)
  unfolding check_links
  IsPlain-links seen commands [] e h = cc
  IsPlain-links seen commands (f ∷ flows) e h =
      ground (arith, IsPlain-links seen (f.argv ∷ commands) flows e)

  IsPlain-requirements :
      (seen rules : List String) (rs : List Requirement)
      → IsPlain (check_requirements c seen rules rs)
  unfolding check_requirements
  IsPlain-requirements seen rules [] e h = cc
  IsPlain-requirements seen rules (r ∷ rs) e h =
      ground (arith, IsPlain-requirements seen (r.id ∷ rules) rs e)

  IsPlain-policy :
      (seen : List String) (o : Option (List Requirement)) → IsPlain (check_policy c seen o)
  unfolding check_policy
  IsPlain-policy seen none e h = cc
  IsPlain-policy seen (some rules) e h = ground (arith, IsPlain-requirements seen [] rules e)

  check_budget-IsPlain :
      (m : Mapping) → check_links c (flow_ids m.flows) [] m.flows ≡ ok tt → IsPlain (check_budget m)
  unfolding check_budget
  check_budget-IsPlain m links e h =
      budget_of-IsPlain m.flows m.requirements
        (λ x d k. check_links-known c (flow_ids m.flows) [] m.flows x d links k) e h

  -- Where the validation of a map ends in an error of a graph search (a cycle, or no fuel left),
  -- the error is that of a cycle and there is a flow that depends on itself through one step or
  -- more.
  pub validate-cycle :
      (m : Mapping) (e : ContractError)
      → validate_verification_map c m ≡ raise e
      → is_graph_error e ≡ true
      → (e ≡ cycle) × ((x : String) × Chain (depends_on m.flows) x x)
  unfolding validate_verification_map
  validate-cycle m e h g =
      let ids = flow_ids m.flows in
      let deps = depends_on m.flows in
      let (_, k₁) =
        skip (require (m.schema_version == 1) bad_schema_version) _ e
          (IsPlain-require (m.schema_version == 1) bad_schema_version refl) h g in
      let sized = leb 1 (length m.flows) && leb (length m.flows) 32 in
      let (_, k₂) =
        skip (require sized bad_flow_count) _ e (IsPlain-require sized bad_flow_count refl) k₁ g in
      let (_, k₃) = skip (check_flows c [] m.flows) _ e (IsPlain-flows [] m.flows) k₂ g in
      let (links, k₄) =
        skip (check_links c ids [] m.flows) _ e (IsPlain-links ids [] m.flows) k₃ g in
      elim (>>=-eq-err (visit_all (suc (length m.flows)) deps ids) _ k₄) [
        | inl search ↦
            visit_all-Cyclic deps ids (λ x d n k. check_links-known c ids [] m.flows x d links k)
              (suc (length m.flows)) e (omega (arith, length-map m.flows (λ f. f.id))) search
        | inr (v, _, k₅) ↦
            let bounded = leb 1 m.max_parallel && leb m.max_parallel 8 in
            let (_, k₆) =
              skip (require bounded bad_parallel) _ e (IsPlain-require bounded bad_parallel refl) k₅
                g in
            let (_, k₇) =
              skip (check_policy c ids m.requirements) _ e (IsPlain-policy ids m.requirements) k₆
                g in
            let (_, k₈) = skip (check_budget m) _ e (check_budget-IsPlain m links) k₇ g in
            absurd (cc)
      ]
