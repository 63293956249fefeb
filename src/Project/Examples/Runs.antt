-- ===== src/Project/Examples/Runs.antt =====
-- A concrete run of `execute_flows` of project_contract.py, its evidence, and the theorems' use on it.
use tugling.Prelude.{
  ◌≤◌, String, Bool, true, false, List, [], ◌∷◌, ◌≡◌, refl, sym, ap, ◌∙◌, subst, arith, Option,
  none, some,
}
use tugling.Prelude.Except.{ok, raise}
use tugling.Prelude.Equality.{same, String-discrete}
use native.Mathlib.Decide.{ℕ_discrete}
use tugling.Project.Flows.{Mapping}
use tugling.Project.Rounding.{round_ms}
use tugling.Project.Results.{Summary, execution_plan, performance_summary}
use tugling.Project.Schedule.State.{Sched, returned}
use tugling.Project.Schedule.{execute_flow_plan, config_of}
use tugling.Project.Runs.{
  Context, Identity, Finish, missing, at, Evidence, Worktree, Host, ProjectReport,
  verification_identity, stale,
}
use tugling.Project.Runs.Execute.{Store, Site, execute_flows}
use tugling.Project.Runs.Check.{check_flow_evidence}
use tugling.Project.Runs.Roundtrip.{execute-check_flow_evidence}
use tugling.Project.Runs.Genuine.{IsGenuine, check_flow_evidence-IsGenuine}
use tugling.Project.Examples.{sample_map, quiet, passed}

abbrev sample_tree : Worktree
sample_tree = record { toplevel = "/p"; status = ""; flags = "H Makefile" ∷ []; head = "c1" }

abbrev sample_host : Host
sample_host = record {
  root = "/p";
  worktree = sample_tree;
  config_inside = true;
  config_committed = true;
  config_sha256 = "k";
  helper_sha256 = "h";
  platform = "linux";
  machine = "x";
  python = "3";
  environment_sha256 = "v";
  variables = [];
}

abbrev sample_report : ProjectReport
sample_report = record {
  verification = some (sample_map, "m");
  budget_seconds = some 600;
  receipt_retention = record { max_age_seconds = 10; max_files = 2; max_bytes = 524288 };
  tugling = "1.0.0";
}

abbrev empty_store : Store
empty_store = record { opens = true; now = 0; entries = [] }

abbrev sample_site : Site
sample_site = record {
  posix = true;
  ancestry = some [];
  host = sample_host;
  worktree_after = sample_tree;
  run_id = "r";
  started_at = 1000;
  finished_at = 1100;
  size = λ e. 500;
  store = empty_store;
  claims = true;
  store_after = empty_store;
  moved = false;
  events = quiet (λ x. 0) ∷ quiet (λ x. 0) ∷ [];
}

abbrev sample_selected : List String
sample_selected = "build" ∷ "test" ∷ []

abbrev sample_evidence : Evidence
sample_evidence = record {
  schema_version = 1;
  kind = "tugling-required-flows";
  run_id = "r";
  identity = record {
    project_revision = "c1";
    config_sha256 = "k";
    map_sha256 = "m";
    helper_sha256 = "h";
    execution_context = record {
      platform = "linux";
      machine = "x";
      python = "3";
      environment_sha256 = "v";
      github = none;
    };
  };
  tugling = "1.0.0";
  started_at = 1000;
  state = "REQUIRED_PASS";
  requested_flows = sample_selected;
  execution_plan = some (execution_plan sample_map sample_selected);
  results = passed "build" 2000 8000 ∷ passed "test" 10000 16000 ∷ [];
  worktree_unchanged = true;
  requirements = sample_map.requirements;
  performance = some (record {
    active = 16000;
    budget = some 600;
    within_budget = true;
    total = 12000;
    slowest = ("build", 6000) ∷ ("test", 6000) ∷ [];
  });
  finished_at = at 1100;
}

sample_run_passes :
    (execute_flows sample_site sample_report sample_selected true).outcome ≡ ok sample_evidence
unfolding execute_flows performance_summary tugling.Project.Runs.flow_execution_ancestry
    tugling.Project.Required.required_flow_ids tugling.Project.Required.required_from
    tugling.Project.Required.close tugling.Project.Required.named_by
    tugling.Project.Required.push_each tugling.Project.Required.depends_on
    tugling.Project.Map.argv_eq verification_identity config_of
    tugling.Project.Schedule.State.find_result tugling.Project.Schedule.in_order
    tugling.Project.Results.validate_execution_timing execution_plan
    tugling.Project.Rounding.round_ms
sample_run_passes = refl

abbrev sample_end : Sched
sample_end = record {
  clock = 16000;
  pending = [];
  active = [];
  completed = sample_evidence.results;
  failed = false;
}

sample_schedule :
    execute_flow_plan (config_of sample_map (some 600)) sample_selected sample_site.events
    ≡ returned sample_end
unfolding execute_flow_plan tugling.Project.Required.depends_on config_of
    tugling.Project.Schedule.State.find_result tugling.Project.Schedule.argv_of
sample_schedule = refl

-- The map of the report, and the clock of its run.
sample_clocks :
    (mapping : Mapping) (sha : String)
    → sample_report.verification ≡ some (mapping, sha)
    → (1 ≤ mapping.max_parallel)
      × ((s : Sched)
          → execute_flow_plan (config_of mapping (some 600)) sample_selected sample_site.events
            ≡ returned s
          → round_ms s.clock ≤ 100100)
sample_clocks mapping sha reported =
    let same_map : sample_map ≡ mapping = ap (λ p. p.0) (some-inj reported) in
    subst
      (λ m.
        (1 ≤ m.max_parallel)
        × ((s : Sched)
            → execute_flow_plan (config_of m (some 600)) sample_selected sample_site.events
              ≡ returned s
            → round_ms s.clock ≤ 100100))
      same_map
      (
        omega arith,
        λ s ran.
            let ends = returned-inj (sym sample_schedule ∙ ran) in
            subst (λ t. round_ms t.clock ≤ 100100) ends (unfold round_ms in omega arith),
      )
  where
    some-inj : {a b : Mapping × String} → Path (Option (Mapping × String)) (some a) (some b) → a ≡ b
    some-inj h = cc

    returned-inj :
        {a b : Sched}
        → Path tugling.Project.Schedule.State.Outcome (returned a) (returned b)
        → a ≡ b
    returned-inj h = cc

execute-check_flow_evidence_example :
    check_flow_evidence sample_host sample_report true sample_evidence 2000 true
    ≡ ok sample_evidence
execute-check_flow_evidence_example =
    execute-check_flow_evidence sample_site sample_report sample_selected true sample_evidence 2000
      sample_clocks (omega arith) (omega arith) (omega arith) sample_run_passes refl

sample_checked :
    check_flow_evidence sample_host sample_report true sample_evidence 2000 true
    ≡ ok sample_evidence
sample_checked =
    execute-check_flow_evidence sample_site sample_report sample_selected true sample_evidence 2000
      sample_clocks (omega arith) (omega arith) (omega arith) sample_run_passes refl

check_flow_evidence-IsGenuine_example :
    (sample_evidence ≡ sample_evidence)
    × Path Bool true true
    × IsGenuine sample_host sample_report sample_evidence 2000 true
check_flow_evidence-IsGenuine_example =
    check_flow_evidence-IsGenuine sample_host sample_report true sample_evidence sample_evidence
      2000 true sample_checked

-- A commit later, the evidence is stale.
abbrev next_host : Host
next_host = record sample_host { worktree = record sample_tree { head = "c2" } }

sample_becomes_stale :
    check_flow_evidence next_host sample_report true sample_evidence 2000 true ≡ raise stale
unfolding check_flow_evidence verification_identity same String-discrete ℕ_discrete
    tugling.Project.Runs.Identity-discrete
sample_becomes_stale = refl
