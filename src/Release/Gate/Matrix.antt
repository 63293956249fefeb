-- ===== src/Release/Gate/Matrix.antt =====
-- `validate_matrix` and `check_pairs` of release_gate.py, and `release_covered` of
-- catalog_coverage.py.
use tugling.Prelude.{
  codes, ℕ, zero, suc, ℤ, pos, negsuc, String, Bool, true, false, not, ◌&&◌, ◌||◌, List, [], ◌∷◌,
  ◌++◌, Option, none, some, map, all, any, length, ltb, leb, ◌==◌, if◌then◌else◌, str_eq,
}
use tugling.Prelude.Except.{Except, ok, raise, require, ◌>>=◌, ◌>>◌}
use tugling.Project.Map.{argv_eq}
use tugling.Release.Report.{is_subset, same_set, is_int}

-- A behavioral case of the suite.
pub record Case : Type 0 where
  pub id : String
  pub skill : String
  pub project_type : Option String

pub record ReleaseMatrix : Type 0 where
  pub schema_version : ℤ
  pub minimum_attempts : ℤ
  pub conditions : List String
  pub required_case_ids : List String
  pub required_skills : List String
  pub project_types : List (String × List String)

-- `ReleaseGateError`, a constructor for each message.
pub data ReleaseGateError : Type 0 where
  bad_schema too_few_attempts bad_conditions different_cases different_skills no_project_types :
      ReleaseGateError
  no_project_type different_project_types no_breadth : ReleaseGateError
  local_path package_only bad_shape not_passed other_plugin other_version uncovered_catalog :
      ReleaseGateError
  stale_attempts stale_cases bad_revision not_ancestor unknown_ref stable_moved not_forward :
      ReleaseGateError

abbrev pub conditions : List String
conditions = "control" ∷ "released" ∷ "candidate" ∷ []

abbrev is_below : List ℕ → List ℕ → Bool
is_below [] [] = false
is_below [] (d ∷ ds) = true
is_below (c ∷ cs) [] = false
is_below (c ∷ cs) (d ∷ ds) = ltb c d || ((c == d) && is_below cs ds)

insert_name : String → List String → List String
insert_name x [] = x ∷ []
insert_name x (y ∷ ys) =
    let later = insert_name x ys in
    if str_eq x y then y ∷ ys else if is_below (codes x) (codes y) then x ∷ y ∷ ys else y ∷ later

-- `sorted(set(names))`
unfoldable pub sorted_set : List String → List String
unfolding insert_name
sorted_set [] = []
sorted_set (x ∷ xs) = insert_name x (sorted_set xs)

-- `groups.setdefault(key, []).append(x)`
unfoldable pub add_to : String → String → List (String × List String) → List (String × List String)
add_to key x [] = (key, x ∷ []) ∷ []
add_to key x ((k, xs) ∷ groups) =
    let later = add_to key x groups in
    if str_eq key k then (k, xs ++ x ∷ []) ∷ groups else (k, xs) ∷ later

-- `actual_by_type`, from the groups so far.
unfoldable pub by_type :
    List (String × List String) → List Case → Except ReleaseGateError (List (String × List String))
unfolding add_to
by_type groups [] = ok groups
by_type groups (c ∷ cases) = elim c.project_type [
  | none ↦ raise no_project_type
  | some kind ↦ do
    require (not (str_eq kind "")) no_project_type
    by_type (add_to kind c.id groups) cases
]

abbrev same_group : String × List String → String × List String → Bool
same_group g h = str_eq g.0 h.0 && argv_eq g.1 h.1

-- Equality of dictionaries, whose keys are distinct.
abbrev pub same_groups : List (String × List String) → List (String × List String) → Bool
same_groups gs hs = all (λ g. any (same_group g) hs) gs && all (λ h. any (same_group h) gs) hs

abbrev pub required_breadth : List String
required_breadth = "python-cli" ∷ "python-service" ∷ "typescript-worker" ∷ "react-ui" ∷ []

abbrev pub is_at_least : ℕ → ℤ → Bool
is_at_least n (pos m) = leb n m
is_at_least n (negsuc m) = false

abbrev pub has_groups : List (String × List String) → Bool
has_groups [] = false
has_groups (g ∷ gs) = true

-- The suite is the list of its cases.
unfoldable pub validate_matrix : List Case → ReleaseMatrix → Except ReleaseGateError ReleaseMatrix
unfolding sorted_set by_type
validate_matrix cases matrix = do
  require (is_int 1 matrix.schema_version) bad_schema
  require (is_at_least 3 matrix.minimum_attempts) too_few_attempts
  require (argv_eq matrix.conditions conditions) bad_conditions
  require (argv_eq matrix.required_case_ids (map (λ c. c.id) cases)) different_cases
  require (argv_eq matrix.required_skills (sorted_set (map (λ c. c.skill) cases))) different_skills
  require (has_groups matrix.project_types) no_project_types
  actual ← by_type [] cases
  require (same_groups matrix.project_types actual) different_project_types
  require (is_subset required_breadth (map (λ g. g.0) matrix.project_types)) no_breadth
  ok matrix

-- A pair of a case and an attempt; `none` stands for an entry that is no such object.
abbrev pub Pair : Type 0
Pair = String × ℕ

abbrev pub same_pair : Pair → Pair → Bool
same_pair p q = str_eq p.0 q.0 && (p.1 == q.1)

abbrev pub has_pair : Pair → List Pair → Bool
has_pair p ps = any (same_pair p) ps

-- The pairs of one case with the attempts from 1 to n.
unfoldable pub pairs_of : String → ℕ → List Pair
pairs_of x zero = []
pairs_of x (suc n) = (x, suc n) ∷ pairs_of x n

unfoldable pub expected_pairs : List String → ℕ → List Pair
unfolding pairs_of
expected_pairs [] n = []
expected_pairs (x ∷ xs) n = pairs_of x n ++ expected_pairs xs n

-- The set of a list, each pair once.
unfoldable pub pair_set : List Pair → List Pair
pair_set [] = []
pair_set (p ∷ ps) = let rest = pair_set ps in if has_pair p ps then rest else p ∷ rest

unfoldable pub observed_pairs : List (Option Pair) → List Pair
observed_pairs [] = []
observed_pairs (none ∷ items) = observed_pairs items
observed_pairs (some p ∷ items) = p ∷ observed_pairs items

unfoldable pub check_pairs : Option (List (Option Pair)) → List String → ℕ → Bool
unfolding expected_pairs pair_set observed_pairs
check_pairs none case_ids attempts = false
check_pairs (some per_case) case_ids attempts =
    let observed = observed_pairs per_case in
    let expected = expected_pairs case_ids attempts in
    all (λ p. has_pair p expected) observed
    && all (λ p. has_pair p observed) expected
    && (length per_case == length (pair_set expected))

abbrev pub is_nonempty : List String → Bool
is_nonempty [] = false
is_nonempty (x ∷ xs) = true

-- `release_covered` of catalog_coverage.py
unfoldable pub release_covered : List String → List String → Bool
release_covered catalog required_skills = is_nonempty catalog && same_set catalog required_skills
