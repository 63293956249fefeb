-- ===== src/Project/Schedule/Invariant.antt =====
-- The invariant of the loop of `execute_flow_plan` in project_contract.py, and that each change of
-- its variables keeps it.
use tugling.Prelude.{
  ℕ, ◌+◌, ◌-◌, ◌≤◌, ◌<◌, ℤ, String, Bool, true, false, List, [], ◌∷◌, ◌++◌, ◌≡◌, refl, arith,
  Option, none, some, length, elem, All, All-append, All-split, All-mono, count_of, count_of-append,
  count_of-zero, count_of-le-length, length-append, leb, str_eq, eq_iff, Bool-cases, inl, inr,
}
use tugling.Project.Results.{Failure, FlowResult, is_running}
use tugling.Project.Schedule.State.{Config, Running, find_result, remove}
use tugling.Project.Schedule.Launch.{ended_flow}

-- The flow has succeeded, and finished no later than `t`.
abbrev pub FinishedBy : List FlowResult → ℕ → String → Type 0
FinishedBy completed t d =
    (s : FlowResult) × (find_result d completed ≡ some s) × (s.failure ≡ none) × (s.finished ≤ t)

-- All dependencies of a flow had succeeded when it started.
abbrev pub DepsDone : Config → List FlowResult → String → ℕ → Type 0
DepsDone cfg completed x t = All (FinishedBy completed t) (cfg.deps x)

pub record IsSound (cfg : Config) (selected : List String) (clock : ℕ) (pending : List String)
    (active : List Running) (completed : List FlowResult) : Type 0 where
  -- Each selected flow is pending, active or completed, as often as it was selected.
  pub partition :
      (x : String)
      → count_of (str_eq x) pending
          + count_of (λ a. str_eq x a.id) active
          + count_of (λ r. str_eq x r.id) completed
        ≡ count_of (str_eq x) selected
  pub parallel : length active ≤ cfg.max_parallel
  pub active_deps : All (λ a. DepsDone cfg completed a.id a.started) active
  pub done_deps : All (λ r. r.failure ≡ none → DepsDone cfg completed r.id r.started) completed
  pub past_starts : All (λ a. a.started ≤ clock) active
  pub past_finishes : All (λ r. r.finished ≤ clock) completed
  pub forwards :
      All (λ r. (r.started ≤ r.finished) × (r.duration ≡ r.finished - r.started)) completed
  -- At no instant have more flows run than allowed.
  pub bounded :
      (t : ℕ)
      → count_of (is_running t) completed + count_of (λ a. leb a.started t) active
        ≤ cfg.max_parallel

-- A result that is there stays there.
find_result-append :
    (x : String) (rs more : List FlowResult) (s : FlowResult)
    → find_result x rs ≡ some s
    → find_result x (rs ++ more) ≡ some s
unfolding find_result
find_result-append x [] more s h = absurd (cc)
find_result-append x (r ∷ rs) more s h = ground (arith, find_result-append x rs more s)

DepsDone-append :
    (cfg : Config) (rs more : List FlowResult) (x : String) (t : ℕ)
    → DepsDone cfg rs x t
    → DepsDone cfg (rs ++ more) x t
DepsDone-append cfg rs more x t h =
    All-mono _ _ (cfg.deps x) (λ d (s, e, ok, le). (s, find_result-append d rs more s e, ok, le)) h

-- Nothing completed runs at the clock or later.
none_running :
    (t clock : ℕ) (rs : List FlowResult)
    → clock ≤ t
    → All (λ r. r.finished ≤ clock) rs
    → count_of (is_running t) rs ≡ 0
none_running t clock rs le h = count_of-zero _ rs (All-mono _ _ rs (λ r fin. ground arith) h)

module _ (cfg : Config) (selected : List String) where
  pub tick :
      {clock : ℕ} {pending : List String} {active : List Running} {completed : List FlowResult}
      (delay : ℕ)
      → IsSound cfg selected clock pending active completed
      → IsSound cfg selected (clock + delay) pending active completed
  tick {active = active} {completed = completed} delay inv = record {
    partition = inv.partition;
    parallel = inv.parallel;
    active_deps = inv.active_deps;
    done_deps = inv.done_deps;
    past_starts = All-mono _ _ active (λ a h. omega arith) inv.past_starts;
    past_finishes = All-mono _ _ completed (λ r h. omega arith) inv.past_finishes;
    forwards = inv.forwards;
    bounded = inv.bounded;
  }

  -- An active flow gets its result.
  pub finish :
      {clock : ℕ} {pending : List String} (kept rest : List Running) {completed : List FlowResult}
      (r : Running) (delay : ℕ) (code : Option ℤ) (failure : Option Failure) (forced : Bool)
      → IsSound cfg selected clock pending (kept ++ r ∷ rest) completed
      → IsSound cfg selected
          (clock + delay)
          pending
          (kept ++ rest)
          (completed ++ ended_flow cfg r (clock + delay) code failure forced ∷ [])
  unfolding ended_flow
  finish {clock} {pending} kept rest {completed} r delay code failure forced inv =
      let new = ended_flow cfg r (clock + delay) code failure forced in
      let (kept_deps, (r_deps, rest_deps)) = All-split _ kept (r ∷ rest) inv.active_deps in
      let (kept_past, (r_past, rest_past)) = All-split _ kept (r ∷ rest) inv.past_starts in
      let grow = λ (a : Running). DepsDone-append cfg completed (new ∷ []) a.id a.started in
      record {
        partition = λ x. omega (
          arith,
          inv.partition x,
          count_of-append (λ (a : Running). str_eq x a.id) kept (r ∷ rest),
          count_of-append (λ (a : Running). str_eq x a.id) kept rest,
          count_of-append (λ (q : FlowResult). str_eq x q.id) completed (new ∷ []),
        );
        parallel =
            omega (arith, inv.parallel, length-append kept (r ∷ rest), length-append kept rest);
        active_deps =
            All-append _ kept rest (All-mono _ _ kept grow kept_deps)
              (All-mono _ _ rest grow rest_deps);
        done_deps =
            All-append _ completed (new ∷ [])
              (All-mono _ _ completed
                (λ q h fine. DepsDone-append cfg completed (new ∷ []) q.id q.started (h fine))
                inv.done_deps)
              (λ fine. DepsDone-append cfg completed (new ∷ []) r.id r.started r_deps, tt);
        past_starts =
            All-mono _ _ (kept ++ rest) (λ a h. omega arith)
              (All-append _ kept rest kept_past rest_past);
        past_finishes =
            All-append _ completed (new ∷ [])
              (All-mono _ _ completed (λ q h. omega arith) inv.past_finishes) (omega arith, tt);
        forwards = All-append _ completed (new ∷ []) inv.forwards ((omega arith, refl), tt);
        bounded = λ t. ground (
          arith,
          inv.bounded t,
          count_of-append (is_running t) completed (new ∷ []),
          count_of-append (λ (a : Running). leb a.started t) kept (r ∷ rest),
          count_of-append (λ (a : Running). leb a.started t) kept rest,
        );
      }

  count-remove :
      (x y : String) (xs : List String)
      → elem x xs ≡ true
      → count_of (str_eq y) (remove x xs) + count_of (str_eq y) (x ∷ []) ≡ count_of (str_eq y) xs
  unfolding remove
  count-remove x y [] h = absurd (cc)
  count-remove x y (z ∷ xs) h = ground (arith, eq_iff x z, count-remove x y xs)

  -- A pending flow whose dependencies are done starts, below the bound.
  pub begin :
      {clock : ℕ} {pending : List String} {active : List Running} {completed : List FlowResult}
      (x : String) (delay : ℕ)
      → IsSound cfg selected clock pending active completed
      → elem x pending ≡ true
      → All (FinishedBy completed clock) (cfg.deps x)
      → length active < cfg.max_parallel
      → IsSound cfg selected
          (clock + delay)
          (remove x pending)
          (active ++ record { id = x; started = clock + delay } ∷ [])
          completed
  begin {clock} {pending} {active} {completed} x delay inv m deps room =
      let r : Running = record { id = x; started = clock + delay } in
      record {
        partition = λ y. omega (
          arith,
          inv.partition y,
          count-remove x y pending m,
          count_of-append (λ (a : Running). str_eq y a.id) active (r ∷ []),
        );
        parallel = omega (arith, length-append active (r ∷ []));
        active_deps =
            All-append _ active (r ∷ []) inv.active_deps (
              All-mono _ _ (cfg.deps x) (λ d (s, e, fine, le). (s, e, fine, omega arith)) deps,
              tt,
            );
        done_deps = inv.done_deps;
        past_starts =
            All-append _ active (r ∷ []) (All-mono _ _ active (λ a h. omega arith) inv.past_starts)
              (omega arith, tt);
        past_finishes = All-mono _ _ completed (λ q h. omega arith) inv.past_finishes;
        forwards = inv.forwards;
        bounded = λ t. elim (Bool-cases (leb (clock + delay) t)) [
          | inl later ↦ ground (
            arith,
            none_running t clock completed (ground arith) inv.past_finishes,
            count_of-append (λ (a : Running). leb a.started t) active (r ∷ []),
            count_of-le-length (λ (a : Running). leb a.started t) active,
          )
          | inr earlier ↦ ground (
            arith,
            inv.bounded t,
            count_of-append (λ (a : Running). leb a.started t) active (r ∷ []),
          )
        ];
      }

  -- A pending flow is reported with a failure and never becomes active.
  pub report :
      {clock : ℕ} {pending : List String} {active : List Running} {completed : List FlowResult}
      (x : String) (wait delay : ℕ) (failure : Failure)
      → IsSound cfg selected clock pending active completed
      → elem x pending ≡ true
      → length active < cfg.max_parallel
      → IsSound cfg selected (clock + wait + delay) (remove x pending) active (
          completed
          ++ ended_flow cfg
              (record { id = x; started = clock + wait })
              (clock + wait + delay)
              none
              (some failure)
              false
            ∷ [])
  unfolding ended_flow
  report {clock} {pending} {active} {completed} x wait delay failure inv m room =
      let new =
        ended_flow cfg (record { id = x; started = clock + wait }) (clock + wait + delay) none
          (some failure) false in
      record {
        partition = λ y. omega (
          arith,
          inv.partition y,
          count-remove x y pending m,
          count_of-append (λ (q : FlowResult). str_eq y q.id) completed (new ∷ []),
        );
        parallel = inv.parallel;
        active_deps =
            All-mono _ _ active (λ a. DepsDone-append cfg completed (new ∷ []) a.id a.started)
              inv.active_deps;
        done_deps =
            All-append _ completed (new ∷ [])
              (All-mono _ _ completed
                (λ q h fine. DepsDone-append cfg completed (new ∷ []) q.id q.started (h fine))
                inv.done_deps)
              (λ fine. absurd (cc), tt);
        past_starts = All-mono _ _ active (λ a h. omega arith) inv.past_starts;
        past_finishes =
            All-append _ completed (new ∷ [])
              (All-mono _ _ completed (λ q h. omega arith) inv.past_finishes) (omega arith, tt);
        forwards = All-append _ completed (new ∷ []) inv.forwards ((omega arith, refl), tt);
        bounded = λ t. elim (Bool-cases (leb (clock + wait) t)) [
          | inl later ↦ ground (
            arith,
            none_running t clock completed (ground arith) inv.past_finishes,
            count_of-append (is_running t) completed (new ∷ []),
            count_of-le-length (λ (a : Running). leb a.started t) active,
          )
          | inr earlier ↦
              ground (arith, inv.bounded t, count_of-append (is_running t) completed (new ∷ []))
        ];
      }
