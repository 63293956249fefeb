-- ===== src/Project/Schedule/Waits.antt =====
-- What is left pending after the launches of a round of `execute_flow_plan` in
-- project_contract.py.
use tugling.Prelude.{
  ℕ, zero, suc, ◌≤◌, ◌<◌, String, true, false, not, ◌&&◌, List, [], ◌∷◌, ◌≡◌, refl, arith, none,
  length, elem, ltb, Bool-cases, if_ind, inl, inr, Option-cases,
}
use tugling.Project.Results.{Failure, cancelled_after_failure}
use tugling.Project.Schedule.State.{Config, Running, Sched, Stop, Round, remove}
use tugling.Project.Schedule.Launch.{
  next_ready, report_start, stop_one, stop_each, cancel_active, start, launch,
}
use tugling.Project.Schedule.Keeps.{next_ready-ready}

module _ (cfg : Config) where
  stop_each-pending :
      (st : Stop) (reason : Failure) (overrides : List (String × Failure)) (rs : List Running)
      (s : Sched)
      → (stop_each cfg st reason overrides s rs).pending ≡ s.pending
  unfolding stop_each
  stop_each-pending st reason overrides [] s = refl
  stop_each-pending st reason overrides (r ∷ rs) s =
      stop_each-pending st reason overrides rs (stop_one cfg st reason overrides s r)

  start-pending :
      (e : Round) (x : String) (s : Sched) → (start cfg e x s).pending ≡ remove x s.pending
  unfolding start cancel_active
  start-pending e x s =
      if_ind (λ (t : Sched). t.pending ≡ remove x s.pending) (e.starts x) _ _ (λ h. refl)
        (λ h.
          let t = report_start cfg e x s in
          stop_each-pending e.stop cancelled_after_failure [] t.active
            (record t { active = []; failed = true }))

  length-remove :
      (x : String) (xs : List String) → elem x xs ≡ true → length (remove x xs) < length xs
  unfolding remove
  length-remove x [] h = absurd (cc)
  length-remove x (y ∷ xs) h = ground (arith, length-remove x xs)

  -- There is no room, there was a failure, or no flow is ready.
  abbrev pub Waits : Sched → Type 0
  Waits s =
      s.failed ≡ false
      → length s.active < cfg.max_parallel
      → next_ready cfg s.completed s.pending ≡ none

  no_pending : (s : Sched) (xs : List String) → length xs ≤ 0 → next_ready cfg s.completed xs ≡ none
  unfolding next_ready
  no_pending s [] h = refl
  no_pending s (x ∷ xs) h = absurd (omega arith)

  launch-Waits : (n : ℕ) (e : Round) (s : Sched) → length s.pending ≤ n → Waits (launch cfg n e s)
  unfolding launch
  launch-Waits zero e s short = λ fresh room. no_pending s s.pending short
  launch-Waits (suc n) e s short =
      elim (Bool-cases (not s.failed && ltb (length s.active) cfg.max_parallel)) [
        | inr closed ↦ rw (closed, launch) (λ fresh room. absurd (ground arith))
        | inl open_ ↦ elim (Option-cases (next_ready cfg s.completed s.pending)) [
          | inl waits ↦ rw (open_, waits, launch) (λ fresh room. waits)
          | inr (x, ready) ↦
              let (m, done) = next_ready-ready cfg [] s.completed s.pending x ready in
              let shorter = length-remove x s.pending m in
              rw (open_, ready, launch)
                (launch-Waits n e (start cfg e x s) (rw (start-pending e x s) (omega arith)))
        ]
      ]

  -- The launches of a round stop only when there is no room, after a failure, or when no flow is
  -- ready.
  pub launched_wait : (e : Round) (s : Sched) → Waits (launch cfg (length s.pending) e s)
  launched_wait e s = launch-Waits (length s.pending) e s (omega arith)
