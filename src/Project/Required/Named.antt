-- ===== src/Project/Required/Named.antt =====
-- The flows that `required_flow_ids` of project_contract.py gives for a map and its requirements.
use tugling.Prelude.{
  ◌↔◌, String, true, ◌||◌, List, [], ◌∷◌, ◌≡◌, refl, sym, ◌∙◌, subst, arith, Option, some, none,
  any, elem, eq_iff,
}
use tugling.Project.Flows.{Requirement, Mapping, ok}
use tugling.Project.Required.{
  flow_ids, depends_on, add_each, named_by, required_of, required_flow_ids,
}
use tugling.Project.Required.Closing.{IsNeeded, named, depended}
use tugling.Project.Required.Closure.{required_from-exact, required_from_total}

-- A flow that a requirement names, or that a required flow depends on.
pub data IsRequired (m : Mapping) : String → Type 0 where
  asked :
      {x : String} {rules : List Requirement}
      → m.requirements ≡ some rules
      → any (λ r. elem x r.flows) rules ≡ true
      → IsRequired m x
  depended_on :
      {x d : String} → IsRequired m x → elem d (depends_on m.flows x) ≡ true → IsRequired m d

elem-add_each :
    (xs acc : List String) (x : String) → elem x (add_each xs acc) ≡ (elem x xs || elem x acc)
unfolding add_each
elem-add_each [] acc x = refl
elem-add_each (y ∷ xs) acc x =
    ground (arith, eq_iff x y, elem-add_each xs acc x, elem-add_each xs (y ∷ acc) x)

elem-named_by :
    (rules : List Requirement) (acc : List String) (x : String)
    → elem x (named_by rules acc) ≡ (any (λ r. elem x r.flows) rules || elem x acc)
unfolding named_by
elem-named_by [] acc x = refl
elem-named_by (r ∷ rules) acc x =
    ground (arith, elem-named_by rules (add_each r.flows acc) x, elem-add_each r.flows acc x)

elem-named :
    (rules : List Requirement) (x : String)
    → elem x (named_by rules []) ≡ any (λ r. elem x r.flows) rules
elem-named rules x = ground (arith, elem-named_by rules [] x)

module _ (m : Mapping) (rules : List Requirement) (has : m.requirements ≡ some rules) where
  IsNeeded→IsRequired :
      (x : String) → IsNeeded (depends_on m.flows) (named_by rules []) x → IsRequired m x
  IsNeeded→IsRequired x (named h) = asked has (sym (elem-named rules x) ∙ h)
  IsNeeded→IsRequired x (depended {x = y} n h) = depended_on (IsNeeded→IsRequired y n) h

  IsRequired→IsNeeded :
      (x : String) → IsRequired m x → IsNeeded (depends_on m.flows) (named_by rules []) x
  IsRequired→IsNeeded x (asked {rules = others} is h) =
      let same : others ≡ rules = cc in
      named (elem-named rules x ∙ subst (λ rs. any (λ r. elem x r.flows) rs ≡ true) same h)
  IsRequired→IsNeeded x (depended_on {x = y} n h) = depended (IsRequired→IsNeeded y n) h

required_of-exact :
    (m : Mapping) (ids : List String) (x : String) (o : Option (List Requirement))
    → m.requirements ≡ o
    → required_of m.flows o ≡ ok ids
    → (elem x ids ≡ true) ↔ ((elem x (flow_ids m.flows) ≡ true) × IsRequired m x)
unfolding required_of
required_of-exact m ids x none e k = absurd (cc)
required_of-exact m ids x (some []) e k = absurd (cc)
required_of-exact m ids x (some (r ∷ rest)) e k =
    let both = required_from-exact m.flows (named_by (r ∷ rest) []) ids x k in
    (
      λ there. let (a, n) = both.0 there in (a, IsNeeded→IsRequired m (r ∷ rest) e x n),
      λ (a, n). both.1 (a, IsRequired→IsNeeded m (r ∷ rest) e x n),
    )

-- Where `required_flow_ids` returns, a name is among the result if and only if it is a flow's id and
-- is required: a requirement names it, or a required flow depends on it.
pub required_flow_ids-exact :
    (m : Mapping) (ids : List String) (x : String)
    → required_flow_ids m ≡ ok ids
    → (elem x ids ≡ true) ↔ ((elem x (flow_ids m.flows) ≡ true) × IsRequired m x)
unfolding required_flow_ids
required_flow_ids-exact m ids x h = required_of-exact m ids x m.requirements refl h

-- Of a map with a requirement, whose dependencies and requirements name only its flows,
-- `required_flow_ids` returns the ids of flows: its loop ends and finds no name missing.
pub required_flow_ids_total :
    (m : Mapping) (r : Requirement) (rest : List Requirement)
    → m.requirements ≡ some (r ∷ rest)
    → ((x d : String) → elem d (depends_on m.flows x) ≡ true → elem d (flow_ids m.flows) ≡ true)
    → ((x : String)
        → any (λ q. elem x q.flows) (r ∷ rest) ≡ true
        → elem x (flow_ids m.flows) ≡ true)
    → (ids : List String) × (required_flow_ids m ≡ ok ids)
unfolding required_flow_ids required_of
required_flow_ids_total m r rest has links here =
    let (ids, p) =
      required_from_total m.flows (named_by (r ∷ rest) []) links
        (λ x h. here x (sym (elem-named (r ∷ rest) x) ∙ h)) in
    (ids, rw has p)
