-- ===== src/Project/Flows.antt =====
-- The verification map of project_contract.py after it is decoded from JSON, the errors that its
-- checks raise, and the sequencing of fallible checks.
pub use tugling.Prelude.Except.{
  ok, raise, ◌>>=◌, ◌>>◌, require, >>=-eq-ok, require-eq-ok, >>-eq-ok, >>=-eq-err,
}
use tugling.Prelude.Except.{Except}
use tugling.Prelude.{ℕ, String, List, Option}

-- The keys of a flow's `runtime` object, when it is not null.
pub record Runtime : Type 0 where
  pub owner : String
  pub launch : String
  pub health : String
  pub cleanup : String

pub record Flow : Type 0 where
  pub id : String
  pub description : String
  pub argv : List String
  pub timeout_seconds : ℕ
  pub sources : List String
  pub runtime : Option Runtime
  -- `flow.get("depends_on", [])`
  pub depends_on : List String

pub record Requirement : Type 0 where
  pub id : String
  pub description : String
  pub sources : List String
  pub flows : List String

-- `mapping.get("execution", {"max_parallel": 1})` is resolved to its number.
pub record Mapping : Type 0 where
  pub schema_version : ℕ
  pub flows : List Flow
  pub requirements : Option (List Requirement)
  pub max_parallel : ℕ

-- What a check raises: checks of the same thing in flows and in requirements share a constructor.
-- `missing_flow` is the KeyError of `by_id`; `out_of_fuel` is the model's own.
pub data ContractError : Type 0 where
  bad_schema_version bad_flow_count bad_flow_id no_description bad_argv bad_timeout : ContractError
  no_sources bad_source bad_owner bad_runtime : ContractError
  bad_dependency self_dependency duplicate_command cycle : ContractError
  bad_parallel bad_requirement_count bad_requirement_id bad_requirement_text : ContractError
  bad_requirement_flows over_budget no_requirements : ContractError
  missing_flow out_of_fuel : ContractError

abbrev pub Result {ℓ} : Type ℓ → Type ℓ
Result A = Except ContractError A
