-- ===== src/Project/Cycles.antt =====
-- The depth-first search of `validate_verification_map` that rejects cyclic `depends_on`.
pub mod Sound
pub mod Complete
use tugling.Prelude.{ℕ, zero, suc, String, Bool, true, false, List, [], ◌∷◌, elem, if◌then◌else◌}
use tugling.Project.Flows.{Result, ok, raise, cycle, out_of_fuel, ◌>>=◌}

-- `for dependency in ...: visit(dependency)`, handing on the set `visited`.
unfoldable pub visit_each :
    (List String → String → Result (List String)) → List String → List String → Result (List String)
visit_each go visited [] = ok visited
visit_each go visited (d ∷ ds) = go visited d >>= λ visited'. visit_each go visited' ds

-- `visit`: the sets `visiting` and `visited` are lists, latest first. `dependencies[flow_id]` is
-- `deps flow_id`. The fuel bounds the depth of the calls.
unfoldable pub visit :
    ℕ → (String → List String) → List String → List String → String → Result (List String)
visit zero deps visiting visited flow_id = raise out_of_fuel
visit (suc fuel) deps visiting visited flow_id =
    let rest = visit_each (visit fuel deps (flow_id ∷ visiting)) visited (deps flow_id) in
    if elem flow_id visiting
    then raise cycle
    else if elem flow_id visited
    then ok visited
    else (rest >>= λ visited'. ok (flow_id ∷ visited'))

-- `for flow in flows: visit(flow["id"])`
unfoldable pub visit_all : ℕ → (String → List String) → List String → Result (List String)
visit_all fuel deps ids = visit_each (visit fuel deps []) [] ids
