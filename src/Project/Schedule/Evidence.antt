-- ===== src/Project/Schedule/Evidence.antt =====
-- The results that `execute_flow_plan` of project_contract.py returns from a run without failures
-- pass `validate_execution_timing` and the time checks of `performance_summary`.
use tugling.Prelude.{
  ℕ, ◌+◌, ◌≤◌, ◌∙◌, ap, String, Bool, true, false, List, [], ◌∷◌, ◌≡◌, refl, subst, sym, arith,
  Option, none, some, map, elem, distinct, All, count_of, str_eq, eq_iff, eq_refl, Bool-cases, inl,
  inr, Option-cases,
}
use tugling.Project.Results.{FlowResult, Plan, ok, is_running, result_of, validate_execution_timing}
use tugling.Project.Timing.{FitsPlan, RespectsDependencies, validate_execution_timing-exact}
use tugling.Project.Schedule.State.{Config, Sched, find_result, is_done, succeeded, Event, returned}
use tugling.Project.Schedule.{execute_flow_plan, in_order, flow_result}
use tugling.Project.Rounding.{round_ms, round_ms_le, last_of, leb-round_ms, ltb-round_ms}
use tugling.Project.Schedule.Invariant.{FinishedBy, DepsDone}
use tugling.Project.Schedule.Keeps.{Inv}
use tugling.Project.Schedule.Outcomes.{execute-OutcomeInv, OutcomeInv}
use tugling.Project.Schedule.Progress.{execute_succeeds}

find_result-id :
    (x : String) (c : List FlowResult) (r : FlowResult) → find_result x c ≡ some r → x ≡ r.id
unfolding find_result
find_result-id x [] r h = absurd (cc)
find_result-id x (q ∷ c) r h = ground (arith, eq_iff x q.id, find_result-id x c r)

pub find_result-All {κ} :
    (P : FlowResult → Type κ) (x : String) (c : List FlowResult) (r : FlowResult)
    → All P c
    → find_result x c ≡ some r
    → P r
unfolding find_result
find_result-All P x [] r h e = absurd (cc)
find_result-All P x (q ∷ c) r h e = elim (Bool-cases (str_eq x q.id)) [
  | inl same ↦ let k : q ≡ r = ground arith in subst P k h.0
  | inr other ↦ find_result-All P x c r h.1 (rw other at e)
]

done-result :
    (c : List FlowResult) (x : String)
    → is_done c x ≡ true
    → (r : FlowResult) × (find_result x c ≡ some r) × (r.failure ≡ none)
done-result c x h = go (find_result x c) refl h
  where
    go :
        (o : Option FlowResult)
        → find_result x c ≡ o
        → succeeded o ≡ true
        → (r : FlowResult) × (find_result x c ≡ some r) × (r.failure ≡ none)
    go none e k = absurd (cc)
    go (some r) e k = (r, e, ground arith)

-- Each name of the list has a success.
abbrev AllDone : List FlowResult → List String → Type 0
AllDone c xs = All (λ x. is_done c x ≡ true) xs

in_order-ids :
    (c : List FlowResult) (xs : List String) → AllDone c xs → map (λ r. r.id) (in_order xs c) ≡ xs
unfolding in_order
in_order-ids c [] h = refl
in_order-ids c (x ∷ xs) h =
    let (r, e, _) = done-result c x h.0 in
    let i = find_result-id x c r e in rw (e, in_order) (cc (in_order-ids c xs h.1))

-- The result with its times rounded, if there is one.
abbrev rounded : Option FlowResult → Option FlowResult
rounded none = none
rounded (some r) = some (flow_result r)

in_order-absent :
    (c : List FlowResult) (xs : List String) (x : String)
    → elem x xs ≡ false
    → result_of x (in_order xs c) ≡ none
unfolding in_order result_of
in_order-absent c [] x h = refl
in_order-absent c (y ∷ xs) x h =
    let ih = in_order-absent c xs x (ground arith) in
    elim (Option-cases (find_result y c)) [
      | inl missing ↦ rw missing ih
      | inr (r, e) ↦ rw (e, ih) (ground (arith, find_result-id y c r e))
    ]

in_order-find :
    (c : List FlowResult) (xs : List String) (x : String)
    → elem x xs ≡ true
    → is_done c x ≡ true
    → result_of x (in_order xs c) ≡ rounded (find_result x c)
unfolding in_order result_of
in_order-find c [] x m h = absurd (cc)
in_order-find c (y ∷ xs) x m h = elim (Bool-cases (elem x xs)) [
  | inl later ↦
      let ih = in_order-find c xs x later h in
      let (r, e, _) = done-result c x h in
      elim (Option-cases (find_result y c)) [
        | inl missing ↦ rw missing ih
        | inr (q, k) ↦ rw (k, ih, e) refl
      ]
  | inr here ↦
      let same = (eq_iff x y).0 (ground arith) in
      let (r, e, _) = done-result c x h in
      let i = find_result-id x c r e in
      rw (← same, e, in_order-absent c xs x here) (ground (arith, eq_iff x r.id))
]

in_order-skip :
    (r : FlowResult) (c : List FlowResult) (xs : List String)
    → elem r.id xs ≡ false
    → in_order xs (r ∷ c) ≡ in_order xs c
unfolding in_order find_result
in_order-skip r c [] h = refl
in_order-skip r c (x ∷ xs) h =
    let out : str_eq x r.id ≡ false = ground (arith, eq_iff x r.id, eq_iff r.id x) in
    rw (out, in_order-skip r c xs (ground arith)) refl

in_order-count_le :
    (p : FlowResult → Bool) (c : List FlowResult) (xs : List String) (x : String)
    → count_of p (in_order xs c) ≤ count_of p (in_order (x ∷ xs) c)
unfolding in_order
in_order-count_le p c xs x = ground arith

-- Put in the order of distinct names, no more results run at an instant than were recorded.
in_order-count_cons :
    (p : FlowResult → Bool) (r : FlowResult) (c : List FlowResult) (xs : List String)
    → distinct xs ≡ true
    → count_of p (in_order xs (r ∷ c))
      ≤ count_of p (flow_result r ∷ []) + count_of p (in_order xs c)
unfolding in_order find_result
in_order-count_cons p r c [] d = omega arith
in_order-count_cons p r c (x ∷ xs) d = elim (Bool-cases (str_eq x r.id)) [
  | inr other ↦ elim (Option-cases (find_result x c)) [
    | inl missing ↦ rw (other, missing) (in_order-count_cons p r c xs (ground arith))
    | inr (q, e) ↦ rw (other, e) (omega (arith, in_order-count_cons p r c xs (ground arith)))
  ]
  | inl same ↦ rw same (
      let e = in_order-skip r c xs (ground (arith, eq_iff x r.id)) in
      rw e (omega (arith, in_order-count_le p c xs x)))
]

in_order-empty : (xs : List String) → in_order xs [] ≡ []
unfolding in_order find_result
in_order-empty [] = refl
in_order-empty (x ∷ xs) = in_order-empty xs

in_order-count :
    (p : FlowResult → Bool) (c : List FlowResult) (xs : List String)
    → distinct xs ≡ true
    → count_of p (in_order xs c) ≤ count_of (λ r. p (flow_result r)) c
unfolding in_order find_result
in_order-count p [] xs d = rw (in_order-empty xs) (omega arith)
in_order-count p (r ∷ c) xs d =
    omega (arith, in_order-count_cons p r c xs d, in_order-count p c xs d)

-- A flow runs by its rounded times exactly where it runs by its own times at another instant.
running-rounded :
    (t : ℕ) (c : List FlowResult)
    → count_of (λ r. is_running t (flow_result r)) c ≡ count_of (is_running (last_of t)) c
running-rounded t [] = refl
running-rounded t (r ∷ c) =
    let from_ = leb-round_ms r.started t in
    let to = ltb-round_ms r.finished t in rw (from_, to, running-rounded t c) refl

-- The plan of the selected flows.
abbrev pub plan_of : Config → List String → Plan
plan_of cfg selected = record {
  max_parallel = cfg.max_parallel;
  flows = map (λ x. record { id = x; depends_on = cfg.deps x }) selected;
}

planned-ids : (cfg : Config) (xs : List String) → map (λ f. f.id) (plan_of cfg xs).flows ≡ xs
planned-ids cfg [] = refl
planned-ids cfg (x ∷ xs) = ap (λ (l : List String). x ∷ l) (planned-ids cfg xs)

module _ (cfg : Config) (selected : List String) (s : Sched) (inv : Inv cfg selected s)
    (fresh : s.failed ≡ false)
    (done : (x : String) → elem x selected ≡ true → is_done s.completed x ≡ true)
    (closed : (x d : String)
      → elem x selected ≡ true
      → elem d (cfg.deps x) ≡ true
      → elem d selected ≡ true) where
  abbrev results : List FlowResult
  results = in_order selected s.completed

  each_known :
      (r : FlowResult) (ds : List String)
      → ((d : String) → elem d ds ≡ true → elem d selected ≡ true)
      → All (FinishedBy s.completed r.started) ds
      → All
          (λ d.
            (q : FlowResult) × (result_of d results ≡ some q) × (q.finished ≤ round_ms r.started))
          ds
  each_known r [] known h = tt
  each_known r (d ∷ ds) known ((q, e, fine, le), rest) =
      let m = known d (ground (arith, eq_refl d)) in
      (
        (
          flow_result q,
          in_order-find s.completed selected d m (done d m) ∙ ap rounded e,
          round_ms_le q.finished r.started le,
        ),
        each_known r ds (λ x k. known x (ground arith)) rest,
      )

  respects :
      (xs : List String)
      → ((x : String) → elem x xs ≡ true → elem x selected ≡ true)
      → RespectsDependencies results (plan_of cfg xs).flows
  respects [] known = tt
  respects (x ∷ xs) known =
      let m = known x (ground (arith, eq_refl x)) in
      let (r, e, fine) = done-result s.completed x (done x m) in
      let same = find_result-id x s.completed r e in
      let deps = find_result-All _ x s.completed r inv.sound.done_deps e fine in
      let deps' = subst (λ y. DepsDone cfg s.completed y r.started) (sym same) deps in
      (
        (
          flow_result r,
          in_order-find s.completed selected x m (done x m) ∙ ap rounded e,
          each_known r (cfg.deps x) (λ d k. closed x d m k) deps',
        ),
        respects xs (λ y k. known y (ground arith)),
      )

  each_done :
      (xs : List String)
      → ((x : String) → elem x xs ≡ true → elem x selected ≡ true)
      → AllDone s.completed xs
  each_done [] known = tt
  each_done (x ∷ xs) known =
      (done x (known x (ground (arith, eq_refl x))), each_done xs (λ y k. known y (ground arith)))

  success-FitsPlan : distinct selected ≡ true → FitsPlan results (plan_of cfg selected)
  success-FitsPlan d = record {
    same_ids =
        in_order-ids s.completed selected (each_done selected (λ x k. k))
        ∙ sym (planned-ids cfg selected);
    dependencies = respects selected (λ x k. k);
    bounded = λ t. omega (
      arith,
      in_order-count (is_running t) s.completed selected d,
      running-rounded t s.completed,
      inv.sound.bounded (last_of t),
    );
  }

-- Where at least one flow may run, the selected flows are distinct and their dependencies are
-- selected, a run that returns without a failure has results, in the selected order, that
-- `validate_execution_timing` accepts for the plan of that run, whatever the processes, the clock
-- and the order of events.
pub execute-validates :
    (cfg : Config) (selected : List String) (events : List Event) (s : Sched)
    → 1 ≤ cfg.max_parallel
    → distinct selected ≡ true
    → ((x d : String)
        → elem x selected ≡ true
        → elem d (cfg.deps x) ≡ true
        → elem d selected ≡ true)
    → execute_flow_plan cfg selected events ≡ returned s
    → s.failed ≡ false
    → validate_execution_timing (in_order selected s.completed) (plan_of cfg selected) ≡ ok tt
execute-validates cfg selected events s pos d closed e fresh =
    let (inv, _) = subst (OutcomeInv cfg selected) e (execute-OutcomeInv cfg selected events pos) in
    (validate_execution_timing-exact (in_order selected s.completed) (plan_of cfg selected)).1 (
      success-FitsPlan cfg selected s inv fresh
        (λ x m. execute_succeeds cfg selected events s x pos e fresh m) closed d)
