-- ===== src/Project/Map.antt =====
-- `validate_verification_map` of project_contract.py on a decoded map: every check, in its order.
pub mod Accepted
pub mod Refused
use tugling.Prelude.{
  codes, ℕ, zero, suc, String, Bool, true, false, not, ◌&&◌, ◌||◌, List, [], ◌∷◌, Option, none,
  some, map, length, all, any, elem, distinct, sum_of, keep, leb, ◌==◌, if◌then◌else◌, str_eq,
}
use tugling.Project.Flows.{
  Runtime, Flow, Requirement, Mapping, Result, ok, raise, require, ◌>>=◌, ◌>>◌, bad_schema_version,
  bad_flow_count, bad_flow_id, no_description, bad_argv, bad_timeout, no_sources, bad_source,
  bad_owner, bad_runtime, bad_dependency, self_dependency, duplicate_command, bad_parallel,
  bad_requirement_count, bad_requirement_id, bad_requirement_text, bad_requirement_flows,
  over_budget,
}
use tugling.Project.Cycles.{visit_all}
use tugling.Project.Required.{flow_ids, depends_on, required_of}

-- What the checks ask of code outside the repository: `not s.strip()` of Python's `str`, and
-- whether `committed_file` finds a regular, tracked project file.
pub record Checkout : Type 0 where
  pub is_blank : String → Bool
  pub is_committed : String → Bool

is_lower : ℕ → Bool
is_lower c = leb b'a' c && leb c b'z'

is_name_char : ℕ → Bool
unfolding is_lower
is_name_char c = is_lower c || (leb b'0' c && leb c b'9') || c == b'-'

is_name_codes : List ℕ → Bool
unfolding is_name_char
is_name_codes [] = false
is_name_codes (c ∷ cs) = is_lower c && all is_name_char cs && leb (length cs) 63

-- `re.fullmatch(r"[a-z][a-z0-9-]{0,63}", s)`
unfoldable pub is_name : String → Bool
unfolding is_name_codes
is_name s = is_name_codes (codes s)

-- `"\0" in s`
unfoldable pub has_nul : String → Bool
has_nul s = any (λ c. c == 0) (codes s)

-- Equality of the tuples of two argument arrays.
unfoldable pub argv_eq : List String → List String → Bool
argv_eq [] [] = true
argv_eq [] (y ∷ ys) = false
argv_eq (x ∷ xs) [] = false
argv_eq (x ∷ xs) (y ∷ ys) = str_eq x y && argv_eq xs ys

abbrev pub is_empty {ℓ} : {A : Type ℓ} → List A → Bool
is_empty [] = true
is_empty (x ∷ xs) = false

-- `sum(flow["timeout_seconds"] for flow in flows if flow["id"] in required)`
abbrev pub required_seconds : List Flow → List String → ℕ
required_seconds flows required =
    sum_of (λ f. f.timeout_seconds) (keep (λ f. elem f.id required) flows)

-- `if requirements:` the timeouts of the required flows are bounded.
unfoldable pub budget_of : List Flow → Option (List Requirement) → Result (Unit {0})
budget_of flows none = ok tt
budget_of flows (some []) = ok tt
budget_of flows (some (r ∷ rest)) = do
  required ← required_of flows (some (r ∷ rest))
  require (leb (required_seconds flows required) 7200) over_budget

unfoldable pub check_budget : Mapping → Result (Unit {0})
unfolding budget_of
check_budget m = budget_of m.flows m.requirements

module _ (c : Checkout) where
  open c use {is_blank, is_committed}

  unfoldable pub check_runtime : Option Runtime → Result (Unit {0})
  check_runtime none = ok tt
  check_runtime (some r) = do
    require (str_eq r.owner "native-command") bad_owner
    require (not (is_blank r.launch) && not (is_blank r.health) && not (is_blank r.cleanup))
        bad_runtime

  -- The body of the first `for flow in flows`; `seen` is the set of earlier ids.
  unfoldable pub check_flow : List String → Flow → Result (Unit {0})
  unfolding is_name has_nul check_runtime
  check_flow seen flow = do
    require (is_name flow.id && not (elem flow.id seen)) bad_flow_id
    require (not (is_blank flow.description)) no_description
    require
        (not (is_empty flow.argv)
          && all (λ part. not (is_blank part) && not (has_nul part)) flow.argv)
        bad_argv
    require (leb 1 flow.timeout_seconds && leb flow.timeout_seconds 3600) bad_timeout
    require (not (is_empty flow.sources)) no_sources
    require (all is_committed flow.sources) bad_source
    check_runtime flow.runtime

  unfoldable pub check_flows : List String → List Flow → Result (Unit {0})
  unfolding check_flow
  check_flows seen [] = ok tt
  check_flows seen (flow ∷ flows) = check_flow seen flow >> check_flows (flow.id ∷ seen) flows

  -- The body of the second `for flow in flows`; `commands` holds the keys of that dict.
  unfoldable pub check_links : List String → List (List String) → List Flow → Result (Unit {0})
  unfolding argv_eq
  check_links seen commands [] = ok tt
  check_links seen commands (flow ∷ flows) = do
    require (all (λ d. elem d seen) flow.depends_on && distinct flow.depends_on) bad_dependency
    require (not (elem flow.id flow.depends_on)) self_dependency
    require (not (any (argv_eq flow.argv) commands)) duplicate_command
    check_links seen (flow.argv ∷ commands) flows

  -- The loop over the requirements; `rules` is the set `requirement_ids`.
  unfoldable pub check_requirements :
      List String → List String → List Requirement → Result (Unit {0})
  unfolding is_name
  check_requirements seen rules [] = ok tt
  check_requirements seen rules (r ∷ rest) = do
    require (is_name r.id && not (elem r.id rules)) bad_requirement_id
    require (not (is_blank r.description)) bad_requirement_text
    require (not (is_empty r.sources)) no_sources
    require (all is_committed r.sources) bad_source
    require (not (is_empty r.flows) && all (λ f. elem f seen) r.flows && distinct r.flows)
        bad_requirement_flows
    check_requirements seen (r.id ∷ rules) rest

  -- `if "requirements" in mapping`; a map without the key is `none`.
  unfoldable pub check_policy : List String → Option (List Requirement) → Result (Unit {0})
  unfolding check_requirements
  check_policy seen none = ok tt
  check_policy seen (some rules) = do
    require (leb 1 (length rules) && leb (length rules) 64) bad_requirement_count
    check_requirements seen [] rules

  unfoldable pub validate_verification_map : Mapping → Result Mapping
  unfolding check_flows check_links check_policy check_budget
  validate_verification_map m = do
    require (m.schema_version == 1) bad_schema_version
    require (leb 1 (length m.flows) && leb (length m.flows) 32) bad_flow_count
    check_flows [] m.flows
    check_links (flow_ids m.flows) [] m.flows
    visited ← visit_all (suc (length m.flows)) (depends_on m.flows) (flow_ids m.flows)
    require (leb 1 m.max_parallel && leb m.max_parallel 8) bad_parallel
    check_policy (flow_ids m.flows) m.requirements
    check_budget m
    ok m
