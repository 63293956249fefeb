-- ===== src/Project/Schedule/Outcomes.antt =====
-- What `execute_flow_plan` of project_contract.py guarantees when it ends.
use tugling.Prelude.{
  ℕ, ◌+◌, ◌≤◌, String, true, false, List, [], ◌∷◌, ◌≡◌, refl, subst, arith, none, length, elem,
  str_eq, eq_refl, eq_iff, Bool, all, distinct, if◌then◌else◌, Bool-cases, count_of, if_ind, inl,
  inr, and-eq-true,
}
use tugling.Project.Results.{running_at, Failure, budget_exceeded, interrupted}
use tugling.Project.Schedule.State.{
  Config, Running, Sched, Stop, Round, remove, Next, Event, Outcome, is_nil, is_over, go_on, leave,
  no_progress, round, interrupt, returned, raised, unfinished,
}
use tugling.Project.Schedule.Launch.{next_ready, stop_one, stop_each, cancel_active, launch}
use tugling.Project.Schedule.{
  after_launch, expire, step, run, execute_flow_plan, initial, budget_spent,
}
use tugling.Project.Schedule.Invariant.{IsSound, tick, report}
use tugling.Project.Schedule.Waits.{launched_wait}
use tugling.Project.Schedule.Keeps.{Inv, launch-Inv, cancel_active-Inv, poll_active-Inv}

-- The loop is over: nothing runs, and without a failure nothing is left to run.
pub record IsFinished (s : Sched) : Type 0 where
  pub idle : s.active ≡ []
  pub exhausted : s.failed ≡ false → s.pending ≡ []

module _ (cfg : Config) (selected : List String) where
  -- What a round leaves behind.
  abbrev StepInv : Next → Type 0
  StepInv (go_on s) = Inv cfg selected s
  StepInv (leave s) = Inv cfg selected s × IsFinished s
  StepInv (no_progress s) =
      Inv cfg selected s
      × (s.failed ≡ false)
      × (s.active ≡ [])
      × (is_nil s.pending ≡ false)
      × (next_ready cfg s.completed s.pending ≡ none)

  nil_of : {A : Type 0} (xs : List A) → is_nil xs ≡ true → xs ≡ []
  nil_of [] h = refl
  nil_of (x ∷ xs) h = absurd (cc)

  after_launch-StepInv :
      (e : Round) (s : Sched)
      → Inv cfg selected s
      → (s.failed ≡ false → s.active ≡ [] → next_ready cfg s.completed s.pending ≡ none)
      → StepInv (after_launch cfg e s)
  unfolding after_launch
  after_launch-StepInv e s inv stuck =
      if_ind StepInv s.failed _ _
        (λ failed. (inv, record { idle = inv.stopped failed; exhausted = λ h. absurd (cc) }))
        (λ fresh.
          if_ind StepInv (is_nil s.active) _ _
            (λ idle.
              if_ind StepInv (is_nil s.pending) _ _
                (λ empty. (
                  inv,
                  record { idle = nil_of s.active idle; exhausted = λ _. nil_of s.pending empty },
                ))
                (λ waiting.
                  let none_active = nil_of s.active idle in
                  (inv, fresh, none_active, waiting, stuck fresh none_active)))
            (λ busy. poll_active-Inv cfg selected e s inv fresh))

  expire-Inv :
      (e : Round) (xs : List String) (s : Sched)
      → 1 ≤ cfg.max_parallel
      → s.pending ≡ xs
      → s.active ≡ []
      → is_nil xs ≡ false
      → Inv cfg selected s
      → Inv cfg selected (expire cfg e xs s) × IsFinished (expire cfg e xs s)
  unfolding expire
  expire-Inv e [] s pos eq idle full inv = absurd (cc)
  expire-Inv e (x ∷ xs) s pos eq idle full inv =
      let m : elem x s.pending ≡ true = rw eq (ground (arith, eq_refl x)) in
      let popped : remove x s.pending ≡ xs = rw eq (unfold remove in rw (eq_refl x)) in
      let after =
        report cfg selected x (e.launch_delay x) (e.finish_delay x) budget_exceeded inv.sound m
          (rw idle (omega arith)) in
      let t = expire cfg e (x ∷ xs) s in
      (
        record {
          sound = subst (λ l. IsSound cfg selected t.clock l t.active t.completed) popped after;
          clean = λ h. absurd (cc);
          stopped = λ h. idle;
        },
        record { idle = idle; exhausted = λ h. absurd (cc) },
      )

  stop_each-failed :
      (st : Stop) (reason : Failure) (overrides : List (String × Failure)) (rs : List Running)
      (s : Sched)
      → (stop_each cfg st reason overrides s rs).failed ≡ s.failed
  unfolding stop_each
  stop_each-failed st reason overrides [] s = refl
  stop_each-failed st reason overrides (r ∷ rs) s =
      stop_each-failed st reason overrides rs (stop_one cfg st reason overrides s r)

  cancelled :
      (st : Stop) (reason : Failure) (s : Sched)
      → IsSound cfg selected s.clock s.pending s.active s.completed
      → Inv cfg selected (cancel_active cfg st reason [] s)
        × IsFinished (cancel_active cfg st reason [] s)
  unfolding cancel_active
  cancelled st reason s sound =
      let inv = cancel_active-Inv cfg selected st reason [] s sound in
      let failed =
        stop_each-failed st reason [] s.active (record s { active = []; failed = true }) in
      (inv, record { idle = inv.stopped failed; exhausted = λ h. absurd (cc) })

  step-StepInv :
      (e : Round) (s : Sched)
      → 1 ≤ cfg.max_parallel
      → is_over s ≡ false
      → Inv cfg selected s
      → StepInv (step cfg e s)
  unfolding step
  step-StepInv e s pos open_ inv =
      let s' = record s { clock = s.clock + e.budget_delay } in
      let inv' : Inv cfg selected s' = record {
        sound = tick cfg selected e.budget_delay inv.sound;
        clean = inv.clean;
        stopped = inv.stopped;
      } in
      if_ind StepInv (budget_spent cfg (s.clock + e.budget_delay)) _ _
        (λ spent.
          if_ind StepInv (is_nil s.active) _ _
            (λ idle. expire-Inv e s.pending s' pos refl (nil_of s.active idle) (ground arith) inv')
            (λ busy. cancelled e.stop budget_exceeded s' inv'.sound))
        (λ in_time.
          after_launch-StepInv e (launch cfg (length s.pending) e s')
            (launch-Inv cfg selected (length s.pending) e s' inv')
            (λ fresh idle. launched_wait cfg e s' fresh (rw idle pos)))

  -- What is known of the state in which the loop ends.
  abbrev pub OutcomeInv : Outcome → Type 0
  OutcomeInv (returned s) = Inv cfg selected s × IsFinished s
  OutcomeInv (raised s) =
      Inv cfg selected s
      × (s.failed ≡ false)
      × (s.active ≡ [])
      × (is_nil s.pending ≡ false)
      × (next_ready cfg s.completed s.pending ≡ none)
  OutcomeInv (unfinished s) = Inv cfg selected s

  over : (s : Sched) → is_over s ≡ true → IsFinished s
  over s h =
      let (a, b) = and-eq-true (is_nil s.pending) (is_nil s.active) h in
      record { idle = nil_of s.active b; exhausted = λ _. nil_of s.pending a }

  run-OutcomeInv :
      (events : List Event) (s : Sched)
      → 1 ≤ cfg.max_parallel
      → Inv cfg selected s
      → OutcomeInv (run cfg events s)
  unfolding run
  run-OutcomeInv [] s pos inv = if_ind OutcomeInv (is_over s) _ _ (λ h. (inv, over s h)) (λ h. inv)
  run-OutcomeInv (interrupt st ∷ es) s pos inv =
      if_ind OutcomeInv (is_over s) _ _ (λ h. (inv, over s h))
        (λ h. cancelled st interrupted s inv.sound)
  run-OutcomeInv (round e ∷ es) s pos inv = elim (Bool-cases (is_over s)) [
    | inl h ↦ rw (h, run) (inv, over s h)
    | inr open_ ↦
        rw (open_, run)
          (next (λ s' i. run-OutcomeInv es s' pos i) (step cfg e s)
            (step-StepInv e s pos open_ inv))
  ]
    where
      next :
          ((s' : Sched) → Inv cfg selected s' → OutcomeInv (run cfg es s'))
          → (n : Next) → StepInv n
          → OutcomeInv (elim n [
            | go_on s' ↦ run cfg es s'
            | leave s' ↦ returned s'
            | no_progress s' ↦ raised s'
          ])
      next rest (go_on s') h = rest s' h
      next rest (leave s') h = h
      next rest (no_progress s') h = h

  initial-Inv : Inv cfg selected (initial selected)
  unfolding initial
  initial-Inv = record {
    sound = record {
      partition = λ x. omega arith;
      parallel = omega arith;
      active_deps = tt;
      done_deps = tt;
      past_starts = tt;
      past_finishes = tt;
      forwards = tt;
      bounded = λ t. omega arith;
    };
    clean = λ h. tt;
    stopped = λ h. refl;
  }

  pub execute-OutcomeInv :
      (events : List Event)
      → 1 ≤ cfg.max_parallel
      → OutcomeInv (execute_flow_plan cfg selected events)
  unfolding execute_flow_plan
  execute-OutcomeInv events pos = run-OutcomeInv events (initial selected) pos initial-Inv

count_of-distinct :
    (xs : List String) (x : String)
    → distinct xs ≡ true
    → count_of (str_eq x) xs ≡ (if elem x xs then 1 else 0)
count_of-distinct [] x h = refl
count_of-distinct (y ∷ xs) x h = ground (arith, eq_iff x y, count_of-distinct xs x)

-- No interrupt comes.
abbrev pub is_round : Event → Bool
is_round (round e) = true
is_round (interrupt st) = false

-- Where at least one flow may run, the selected flows are distinct, no interrupt comes and the loop
-- returns, nothing is active, each selected flow is either pending or completed, once, and no other
-- name is, and by the results' times at no instant did more flows run than the limit.
pub execute_bounds :
    (cfg : Config) (selected : List String) (events : List Event) (s : Sched)
    → 1 ≤ cfg.max_parallel
    → distinct selected ≡ true
    → all is_round events ≡ true
    → execute_flow_plan cfg selected events ≡ returned s
    → (s.active ≡ [])
      × ((x : String)
          → count_of (str_eq x) s.pending + count_of (λ r. str_eq x r.id) s.completed
            ≡ (if elem x selected then 1 else 0))
      × ((t : ℕ) → running_at t s.completed ≤ cfg.max_parallel)
execute_bounds cfg selected events s pos once rounds e =
    let (inv, finished) =
      subst (OutcomeInv cfg selected) e (execute-OutcomeInv cfg selected events pos) in
    (
      finished.idle,
      λ x.
          let q : count_of (λ (a : Running). str_eq x a.id) s.active ≡ 0 = rw finished.idle refl in
          omega (arith, inv.sound.partition x, count_of-distinct selected x once),
      λ t. omega (arith, inv.sound.bounded t),
    )
