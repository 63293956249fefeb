-- ===== src/Project/Schedule/Progress.antt =====
-- `execute_flow_plan` of project_contract.py never reports that it cannot make progress on a plan
-- without cycles, and without a failure it runs everything.
use tugling.Prelude.{
  ℕ, zero, suc, ◌≤◌, ◌<◌, String, true, false, List, [], ◌∷◌, ◌≡◌, ◌≢◌, refl, subst, sym, arith,
  none, all, elem, All, count_of, str_eq, eq_iff, eq_refl, Bool-cases, inl, inr,
}
use tugling.Project.Results.{FlowResult}
use tugling.Project.Schedule.State.{
  Config, Running, Sched, find_result, is_done, Event, is_nil, returned, raised,
}
use tugling.Project.Schedule.Launch.{next_ready}
use tugling.Project.Schedule.{execute_flow_plan}
use tugling.Project.Schedule.Keeps.{Inv}
use tugling.Project.Schedule.Outcomes.{execute-OutcomeInv, OutcomeInv}

count-pos_of_elem : (x : String) (xs : List String) → elem x xs ≡ true → 0 < count_of (str_eq x) xs
count-pos_of_elem x [] h = absurd (cc)
count-pos_of_elem x (y ∷ xs) h = ground (arith, count-pos_of_elem x xs)

elem-of_count : (x : String) (xs : List String) → 0 < count_of (str_eq x) xs → elem x xs ≡ true
elem-of_count x [] h = absurd (omega arith)
elem-of_count x (y ∷ xs) h = ground (arith, elem-of_count x xs)

count_of-not_elem : (x : String) (xs : List String) → elem x xs ≡ false → count_of (str_eq x) xs ≡ 0
count_of-not_elem x [] h = refl
count_of-not_elem x (y ∷ xs) h = ground (arith, count_of-not_elem x xs)

-- A completed flow is done if all results are successes.
done_of_count :
    (x : String) (rs : List FlowResult)
    → All (λ r. r.failure ≡ none) rs
    → 0 < count_of (λ r. str_eq x r.id) rs
    → is_done rs x ≡ true
unfolding find_result
done_of_count x [] fine h = absurd (omega arith)
done_of_count x (r ∷ rs) fine h = elim (Bool-cases (str_eq x r.id)) [
  | inl same ↦ rw (same, fine.0) refl
  | inr other ↦ rw other (done_of_count x rs fine.1 (ground arith))
]

-- A list of dependencies that are not all done has one that is not.
not_done :
    (rs : List FlowResult) (ds : List String)
    → all (is_done rs) ds ≡ false
    → (d : String) × (elem d ds ≡ true) × (is_done rs d ≡ false)
not_done rs [] h = absurd (cc)
not_done rs (d ∷ ds) h = elim (Bool-cases (is_done rs d)) [
  | inr out ↦ (d, ground (arith, eq_refl d), out)
  | inl done ↦ let (e, m, out) = not_done rs ds (ground arith) in (e, ground arith, out)
]

none_ready :
    (cfg : Config) (rs : List FlowResult) (xs : List String) (x : String)
    → next_ready cfg rs xs ≡ none
    → elem x xs ≡ true
    → all (is_done rs) (cfg.deps x) ≡ false
unfolding next_ready
none_ready cfg rs [] x h m = absurd (cc)
none_ready cfg rs (y ∷ xs) x h m = elim (Bool-cases (str_eq x y)) [
  | inl same ↦
      subst (λ z. all (is_done rs) (cfg.deps z) ≡ false) (sym ((eq_iff x y).0 same)) (ground arith)
  | inr other ↦ none_ready cfg rs xs x (ground arith) (ground arith)
]

module _ (cfg : Config) (selected : List String) (rank : String → ℕ)
    (falls : (x d : String)
      → elem x selected ≡ true
      → elem d (cfg.deps x) ≡ true
      → (elem d selected ≡ true) × (rank d < rank x)) where
  -- With nothing active and no failure, a pending flow waits for a pending flow of smaller rank.
  not_stuck :
      (s : Sched) (n : ℕ) (x : String)
      → Inv cfg selected s
      → s.failed ≡ false
      → s.active ≡ []
      → next_ready cfg s.completed s.pending ≡ none
      → rank x < n
      → ¬ (elem x s.pending ≡ true)
  not_stuck s zero x inv fresh idle waits lt m = omega arith
  not_stuck s (suc n) x inv fresh idle waits lt m =
      let blocked = none_ready cfg s.completed s.pending x waits m in
      let (d, dep, undone) = not_done s.completed (cfg.deps x) blocked in
      let here = count-pos_of_elem x s.pending m in
      let x_selected = elem-of_count x selected (omega (arith, inv.sound.partition x)) in
      let (d_selected, less) = falls x d x_selected dep in
      let somewhere = count-pos_of_elem d selected d_selected in
      elim (Bool-cases (elem d s.pending)) [
        | inl pending ↦ not_stuck s n d inv fresh idle waits (omega arith) pending
        | inr gone ↦
            let p = count_of-not_elem d s.pending gone in
            let q : count_of (λ (a : Running). str_eq d a.id) s.active ≡ 0 = rw idle refl in
            let done =
              done_of_count d s.completed (inv.clean fresh)
                (omega (arith, inv.sound.partition d)) in
            absurd (cc)
      ]

  nonempty : (xs : List String) → is_nil xs ≡ false → (x : String) × (elem x xs ≡ true)
  nonempty [] h = absurd (cc)
  nonempty (x ∷ xs) h = (x, ground (arith, eq_refl x))

  -- Where at least one flow may run, and the dependencies of each selected flow are selected and of
  -- smaller rank, no sequence of rounds and interrupts makes the loop raise that it cannot make
  -- progress.
  pub execute-ne-raised :
      (events : List Event) (s : Sched)
      → 1 ≤ cfg.max_parallel
      → execute_flow_plan cfg selected events ≢ raised s
  execute-ne-raised events s pos e =
      let (inv, fresh, idle, waiting, waits) =
        subst (OutcomeInv cfg selected) e (execute-OutcomeInv cfg selected events pos) in
      let (x, m) = nonempty s.pending waiting in
      not_stuck s (suc (rank x)) x inv fresh idle waits (omega arith) m

-- Where at least one flow may run, each selected flow of a run that returns without a failure has a
-- result that succeeded.
pub execute_succeeds :
    (cfg : Config) (selected : List String) (events : List Event) (s : Sched) (x : String)
    → 1 ≤ cfg.max_parallel
    → execute_flow_plan cfg selected events ≡ returned s
    → s.failed ≡ false
    → elem x selected ≡ true
    → is_done s.completed x ≡ true
execute_succeeds cfg selected events s x pos e fresh m =
    let (inv, finished) =
      subst (OutcomeInv cfg selected) e (execute-OutcomeInv cfg selected events pos) in
    let p : count_of (str_eq x) s.pending ≡ 0 = rw (finished.exhausted fresh) refl in
    let q : count_of (λ (a : Running). str_eq x a.id) s.active ≡ 0 = rw finished.idle refl in
    let here = count-pos_of_elem x selected m in
    done_of_count x s.completed (inv.clean fresh) (omega (arith, inv.sound.partition x))
