-- ===== src/Project/Required.antt =====
-- `required_flow_ids` of project_contract.py: the flows that the requirements name, with all that
-- they depend on.
pub mod Closing
pub mod Closure
pub mod Named
use tugling.Prelude.{
  ℕ, zero, suc, ◌+◌, String, Bool, true, false, not, List, [], ◌∷◌, Option, none, some, map, length,
  elem, keep, if◌then◌else◌, str_eq,
}
use tugling.Project.Flows.{
  Flow, Requirement, Mapping, Result, ok, raise, no_requirements, missing_flow, out_of_fuel, ◌>>=◌,
}

abbrev pub flow_ids : List Flow → List String
flow_ids flows = map (λ f. f.id) flows

-- `by_id[flow_id].get("depends_on", [])`, where `by_id` keeps the last flow of an id, and none of an
-- id that no flow has: `close` looks for the id first.
unfoldable pub depends_on : List Flow → String → List String
depends_on [] flow_id = []
depends_on (f ∷ flows) flow_id =
    let later = depends_on flows flow_id in
    if elem flow_id (flow_ids flows)
    then later
    else if str_eq flow_id f.id
    then f.depends_on
    else []

-- Adds each name that a set does not have yet.
unfoldable pub add_each : List String → List String → List String
add_each [] acc = acc
add_each (x ∷ xs) acc = add_each xs (if elem x acc then acc else x ∷ acc)

-- `{flow_id for rule in mapping["requirements"] for flow_id in rule["flows"]}`, as a list.
unfoldable pub named_by : List Requirement → List String → List String
unfolding add_each
named_by [] acc = acc
named_by (r ∷ rules) acc = named_by rules (add_each r.flows acc)

-- `for dependency in ...`: the set `required`, and `pending` with its end first.
unfoldable pub push_each : List String → List String → List String → List String × List String
push_each [] required pending = (required, pending)
push_each (d ∷ ds) required pending =
    let known = elem d required in
    push_each ds (if known then required else d ∷ required) (if known then pending else d ∷ pending)

-- `while pending:`, where `known` are the keys of `by_id`. The result is the set `required`.
unfoldable pub close :
    ℕ → (String → Bool) → (String → List String) → List String → List String → Result (List String)
close fuel known deps required [] = ok required
close zero known deps required (x ∷ pending) = raise out_of_fuel
close (suc fuel) known deps required (x ∷ pending) =
    let (required', pending') = push_each (deps x) required pending in
    let rest = close fuel known deps required' pending' in
    if known x then rest else raise missing_flow

-- The loop from a first set of names, in whatever order `list(required)` gives them.
unfoldable pub required_from : List Flow → List String → Result (List String)
required_from flows first =
    close (suc (length flows + length first)) (λ x. elem x (flow_ids flows)) (depends_on flows)
      first first
    >>= λ required. ok (keep (λ x. elem x required) (flow_ids flows))

-- `mapping.get("requirements")` is `none` where the key is missing.
unfoldable pub required_of : List Flow → Option (List Requirement) → Result (List String)
required_of flows none = raise no_requirements
required_of flows (some []) = raise no_requirements
required_of flows (some (r ∷ rest)) = required_from flows (named_by (r ∷ rest) [])

unfoldable pub required_flow_ids : Mapping → Result (List String)
unfolding required_of
required_flow_ids mapping = required_of mapping.flows mapping.requirements
