-- ===== src/Release/Delivery/Protection.antt =====
-- `require_protections` and `require_approval` of release_protection.py. Objects of GitHub's answers
-- that are only compared are texts; a field that is missing is `none`.
use tugling.Prelude.{
  ℕ, ℤ, String, Bool, true, false, not, ◌&&◌, List, [], ◌∷◌, Option, none, some, keep, any, length,
  ltb, ◌==◌, str_eq,
}
use tugling.Prelude.Except.{Except, ok, raise, require, ◌>>◌}
use tugling.Release.Patterns.{is_run_id}
use tugling.Release.Report.{same_set, is_int}
use tugling.Release.Certificate.{is_text}

pub data ProtectionError : Type 0 where
  not_public bad_listing missing_ruleset drifted rules_drifted hidden_actors actors_changed :
      ProtectionError
  can_be_bypassed no_approval_rule other_branches audit_open audit_branches bad_run_id
        not_approved :
      ProtectionError

pub record Ruleset : Type 0 where
  pub name : Option String
  pub target : Option String
  pub enforcement : Option String
  pub conditions : Option String
  pub rule_types : List String
  pub bypass_actors : Option String

pub record ExpectedRuleset : Type 0 where
  pub name : String
  pub target : String
  pub enforcement : String
  pub conditions : String
  pub rule_types : List String
  pub bypass_actors : String

-- A protection rule of an environment; `reviewers` are the types and ids.
pub record ProtectionRule : Type 0 where
  pub type : Option String
  pub prevent_self_review : Option Bool
  pub reviewers : String

pub record Environment : Type 0 where
  pub id : ℕ
  pub name : Option String
  pub can_admins_bypass : Option Bool
  pub branch_policy : Option String
  pub rules : List ProtectionRule

-- `branch_policies` are the names and types of the list.
pub record Deployment : Type 0 where
  pub total_count : Option ℤ
  pub branch_policies : List String

-- The file of `POLICY`.
pub record ReleasePolicy : Type 0 where
  pub rulesets : List ExpectedRuleset
  pub environment_name : String
  pub branch_policy : String
  pub reviewers : String
  pub deployment_policy : String
  pub audit_environment_name : String

pub record Approval : Type 0 where
  pub state : Option String
  pub user_id : Option ℕ
  pub environments : List ℕ

-- What the requests to GitHub answer; `approvals` are those of a run.
pub record Hub : Type 0 where
  pub visibility : Option String
  pub listing : List (Option String × ℕ)
  pub ruleset_of : ℕ → Ruleset
  pub environment : String → Environment
  pub deployment : String → Deployment
  pub approvals : String → List Approval

abbrev is_false : Option Bool → Bool
is_false none = false
is_false (some b) = not b

unfoldable pub check_ruleset :
    Hub → ExpectedRuleset → List (Option String × ℕ) → Except ProtectionError (Unit {0})
check_ruleset hub expected [] = raise missing_ruleset
check_ruleset hub expected (a ∷ b ∷ rest) = raise missing_ruleset
check_ruleset hub expected (item ∷ []) = do
  let actual = hub.ruleset_of item.1
  require
      (is_text expected.name actual.name
        && is_text expected.target actual.target
        && is_text expected.enforcement actual.enforcement
        && is_text expected.conditions actual.conditions)
      drifted
  require (same_set actual.rule_types expected.rule_types) rules_drifted
  require (elim actual.bypass_actors [ none ↦ false | some actors ↦ true ]) hidden_actors
  require (is_text expected.bypass_actors actual.bypass_actors) actors_changed

unfoldable pub check_rulesets : Hub → List ExpectedRuleset → Except ProtectionError (Unit {0})
unfolding check_ruleset
check_rulesets hub [] = ok tt
check_rulesets hub (expected ∷ rest) = do
  check_ruleset hub expected (keep (λ item. is_text expected.name item.0) hub.listing)
  check_rulesets hub rest

-- An environment of that name that administrators cannot bypass, for the policy's branches.
abbrev pub is_closed : ReleasePolicy → String → Environment → Bool
is_closed policy name environment =
    is_text name environment.name
    && is_false environment.can_admins_bypass
    && is_text policy.branch_policy environment.branch_policy

abbrev pub one_reviewer_rule : ReleasePolicy → List ProtectionRule → Bool
one_reviewer_rule policy [] = false
one_reviewer_rule policy (a ∷ b ∷ rest) = false
one_reviewer_rule policy (r ∷ []) =
    is_false r.prevent_self_review && str_eq r.reviewers policy.reviewers

abbrev pub only_policy : ReleasePolicy → Deployment → Bool
only_policy policy d =
    elim d.total_count [ none ↦ false | some n ↦ is_int 1 n ] && is_one d.branch_policies
  where
    is_one : List String → Bool
    is_one [] = false
    is_one (a ∷ b ∷ rest) = false
    is_one (a ∷ []) = str_eq a policy.deployment_policy

-- The environment that approves releases.
unfoldable pub require_protections : Hub → ReleasePolicy → Except ProtectionError Environment
unfolding check_rulesets
require_protections hub policy = do
  require (is_text "public" hub.visibility) not_public
  require (ltb (length hub.listing) 100) bad_listing
  check_rulesets hub policy.rulesets
  let environment = hub.environment policy.environment_name
  require (is_closed policy policy.environment_name environment) can_be_bypassed
  require
      (one_reviewer_rule policy (keep (λ r. is_text "required_reviewers" r.type) environment.rules))
      no_approval_rule
  require (only_policy policy (hub.deployment policy.environment_name)) other_branches
  require
      (is_closed policy policy.audit_environment_name
        (hub.environment policy.audit_environment_name))
      audit_open
  require (only_policy policy (hub.deployment policy.audit_environment_name)) audit_branches
  ok environment

abbrev is_id : ℕ → Option ℕ → Bool
is_id n none = false
is_id n (some m) = m == n

abbrev pub approves : Environment → Approval → Bool
approves environment a =
    is_text "approved" a.state
    && is_id 4515813 a.user_id
    && any (λ n. n == environment.id) a.environments

unfoldable pub require_approval : Hub → String → Environment → Except ProtectionError (Unit {0})
require_approval hub run_id environment = do
  require (is_run_id run_id) bad_run_id
  require (any (approves environment) (hub.approvals run_id)) not_approved
