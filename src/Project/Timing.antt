-- ===== src/Project/Timing.antt =====
-- What `validate_execution_timing` of project_contract.py guarantees of the results it accepts.
use tugling.Prelude.{
  ℕ, ◌≤◌, ◌↔◌, ◌⊎◌, inl, inr, String, Bool, true, List, [], ◌∷◌, ◌≡◌, refl, arith, all, All,
  All-mono, leb→le, le→leb, subst, count_of, map, leb, Bool-cases, none, some, Option, eq_iff,
  and-eq-true,
}
use tugling.Project.Results.{
  FlowResult, Plan, PlannedFlow, ok, require-eq-ok, >>-eq-ok, is_running, running_at, peak, ids_eq,
  check_dependencies, is_before, starts_after, result_of, validate_execution_timing,
  differs_from_plan, overlaps_dependency,
}

peak-ge :
    (results rs : List FlowResult) (m : ℕ)
    → peak results rs ≤ m
    → All (λ r. running_at r.started results ≤ m) rs
unfolding peak
peak-ge results [] m h = tt
peak-ge results (r ∷ rs) m h = (omega arith, peak-ge results rs m (omega arith))

peak-le :
    (results rs : List FlowResult) (m : ℕ)
    → ((t : ℕ) → running_at t results ≤ m)
    → peak results rs ≤ m
unfolding peak
peak-le results [] m h = omega arith
peak-le results (r ∷ rs) m h = omega (arith, h r.started, peak-le results rs m h)

idle :
    (rs : List FlowResult) (t s : ℕ)
    → running_at t rs ≡ 0
    → All (λ r. is_running t r ≡ true → r.started ≤ s) rs
idle [] t s h = tt
idle (r ∷ rs) t s h = (ground arith, idle rs t s (ground arith))

-- Of the flows running at an instant one started last.
last_start :
    (results rs : List FlowResult) (m t : ℕ)
    → All (λ r. running_at r.started results ≤ m) rs
    → (running_at t rs ≡ 0)
      ⊎ ((s : ℕ) × (s ≤ t)
          × (running_at s results ≤ m)
          × All (λ r. is_running t r ≡ true → r.started ≤ s) rs)
last_start results [] m t h = inl refl
last_start results (r ∷ rs) m t h = elim (Bool-cases (is_running t r)) [
  | inr out ↦ elim (last_start results rs m t h.1) [
    | inl none_running ↦ inl (ground arith)
    | inr (s, le, low, latest) ↦ inr (s, le, low, (ground arith, latest))
  ]
  | inl running ↦ elim (last_start results rs m t h.1) [
    | inl none_running ↦
        inr (r.started, ground arith, h.0, (λ _. omega arith, idle rs t r.started none_running))
    | inr (s, le, low, latest) ↦ elim (Bool-cases (leb r.started s)) [
      | inl early ↦ inr (s, le, low, (λ _. leb→le r.started s early, latest))
      | inr late ↦ inr (
        r.started,
        ground arith,
        h.0,
        (λ _. omega arith, All-mono _ _ rs (λ o before run. ground (arith, before run)) latest),
      )
    ]
  ]
]

count_of_mono :
    (p q : FlowResult → Bool) (rs : List FlowResult)
    → All (λ r. p r ≡ true → q r ≡ true) rs
    → count_of p rs ≤ count_of q rs
count_of_mono p q [] h = omega arith
count_of_mono p q (r ∷ rs) h = ground (arith, h.0, count_of_mono p q rs h.1)

-- The starts are the only instants to look at.
pub running-le_peak :
    (results : List FlowResult) (m t : ℕ) → peak results results ≤ m → running_at t results ≤ m
running-le_peak results m t h =
    elim (last_start results results m t (peak-ge results results m h)) [
      | inl none_running ↦ omega arith
      | inr (s, le, low, latest) ↦
          let more =
            count_of_mono (is_running t) (is_running s) results
              (All-mono _ _ results (λ r before run. ground (arith, before run)) latest) in
          omega arith
    ]

-- Every planned flow has a result that starts when its dependencies have finished.
abbrev pub RespectsDependencies : List FlowResult → List PlannedFlow → Type 0
RespectsDependencies results = All (λ f.
    (r : FlowResult) × (result_of f.id results ≡ some r)
    × All (λ d. (s : FlowResult) × (result_of d results ≡ some s) × (s.finished ≤ r.started))
        f.depends_on)

is_before-All :
    (results : List FlowResult) (started : ℕ) (ds : List String)
    → (all (is_before results started) ds ≡ true)
      ↔ All (λ d. (s : FlowResult) × (result_of d results ≡ some s) × (s.finished ≤ started)) ds
unfolding is_before
is_before-All results started [] = (λ h. tt, λ h. refl)
is_before-All results started (d ∷ ds) =
    let ih = is_before-All results started ds in
    (
      λ h. let (a, b) = and-eq-true _ _ h in (found (result_of d results) refl a, ih.0 b),
      λ ((s, e, le), rest). rw (e, is_before) (ground (arith, ih.1 rest)),
    )
  where
    found :
        (o : Option FlowResult)
        → result_of d results ≡ o
        → is_before results started d ≡ true
        → (s : FlowResult) × (result_of d results ≡ some s) × (s.finished ≤ started)
    found none e h = absurd (ground arith)
    found (some s) e h = (s, e, ground arith)

starts_after-All :
    (results : List FlowResult) (ds : List String) (o : Option FlowResult)
    → (starts_after results ds o ≡ true) ↔ (
        (r : FlowResult) × (o ≡ some r)
        × All
            (λ d. (s : FlowResult) × (result_of d results ≡ some s) × (s.finished ≤ r.started))
            ds)
unfolding starts_after
starts_after-All results ds none = (λ h. absurd (cc), λ (r, e, _). absurd (cc))
starts_after-All results ds (some r) = (
  λ h. (r, refl, (is_before-All results r.started ds).0 h),
  λ (r', e, each).
      let same : r' ≡ r = cc in
      (is_before-All results r.started ds).1 (
        subst
          (λ q.
            All (λ d. (s : FlowResult) × (result_of d results ≡ some s) × (s.finished ≤ q.started))
              ds)
          same each),
)

check_dependencies-exact :
    (results : List FlowResult) (planned : List PlannedFlow)
    → (check_dependencies results planned ≡ ok tt) ↔ RespectsDependencies results planned
unfolding check_dependencies
check_dependencies-exact results [] = (λ h. tt, λ h. refl)
check_dependencies-exact results (f ∷ planned) =
    let ih = check_dependencies-exact results planned in
    let iff = starts_after-All results f.depends_on (result_of f.id results) in
    (
      λ h.
          let (a, k) =
            require-eq-ok (starts_after results f.depends_on (result_of f.id results))
              overlaps_dependency (check_dependencies results planned) h in
          (iff.0 a, ih.0 k),
      λ (first, rest). rw (iff.1 first) (ih.1 rest),
    )

ids_eq_iff : (xs ys : List String) → (ids_eq xs ys ≡ true) ↔ (xs ≡ ys)
unfolding ids_eq
ids_eq_iff [] [] = (λ h. refl, λ h. refl)
ids_eq_iff [] (y ∷ ys) = (λ h. absurd (cc), λ h. absurd (cc))
ids_eq_iff (x ∷ xs) [] = (λ h. absurd (cc), λ h. absurd (cc))
ids_eq_iff (x ∷ xs) (y ∷ ys) =
    let ih = ids_eq_iff xs ys in
    (λ h. ground (arith, eq_iff x y, ih.0), λ h. ground (arith, eq_iff x y, ih.1))

-- What it means that results fit an execution plan.
pub record FitsPlan (results : List FlowResult) (plan : Plan) : Type 0 where
  pub same_ids : map (λ r. r.id) results ≡ map (λ f. f.id) plan.flows
  pub dependencies : RespectsDependencies results plan.flows
  pub bounded : (t : ℕ) → running_at t results ≤ plan.max_parallel

-- The validation accepts exactly the results that fit the plan: the planned ids in order, each
-- flow started when its dependencies had finished, and at no instant more flows running than
-- allowed. That the loop looks only at the starts loses nothing.
pub validate_execution_timing-exact :
    (results : List FlowResult) (plan : Plan)
    → (validate_execution_timing results plan ≡ ok tt) ↔ FitsPlan results plan
unfolding validate_execution_timing
validate_execution_timing-exact results plan =
    let xs = map (λ (r : FlowResult). r.id) results in
    let ys = map (λ (f : PlannedFlow). f.id) plan.flows in
    (
      λ h.
          let (a, k) = require-eq-ok (ids_eq xs ys) differs_from_plan _ h in
          let (b, k₂) = >>-eq-ok (check_dependencies results plan.flows) _ k in
          record {
            same_ids = (ids_eq_iff xs ys).0 a;
            dependencies = (check_dependencies-exact results plan.flows).0 b;
            bounded = λ t. running-le_peak results plan.max_parallel t (ground arith);
          },
      λ fit. rw (
        (ids_eq_iff xs ys).1 fit.same_ids,
        (check_dependencies-exact results plan.flows).1 fit.dependencies,
        le→leb _ _ (peak-le results results plan.max_parallel fit.bounded),
      ),
    )
