-- ===== src/Project/Schedule/Codes.antt =====
-- What each result of `execute_flow_plan` of project_contract.py shows of its command.
use tugling.Prelude.{
  ℕ, zero, suc, ◌+◌, ℤ, pos, negsuc, String, Bool, true, false, not, ◌&&◌, List, [], ◌∷◌, ◌≡◌, refl,
  subst, sym, arith, Option, none, some, length, All, All-append, ltb, leb, Bool-cases,
  Option-cases, if_ind, inl, inr, ap, ◌∙◌,
}
use tugling.Project.Results.{
  Failure, FlowResult, could_not_start, cancelled_after_failure, budget_exceeded, interrupted,
}
use tugling.Project.Schedule.State.{
  Config, Running, Sched, Stop, Round, Polled, Verdict, Next, Event, Outcome, exit_failure, is_nil,
  is_over, running, cancel, ended, go_on, leave, no_progress, round, interrupt, returned, raised,
  unfinished,
}
use tugling.Project.Schedule.Launch.{
  next_ready, ended_flow, stop_one, stop_each, cancel_active, report_start, start, launch,
}
use tugling.Project.Schedule.{
  initial, poll, poll_step, poll_each, settle, poll_active, after_launch, expire, budget_spent,
  step, run, execute_flow_plan,
}

module _ (cfg : Config) where
  -- A result has its flow's command; one with no failure has exit code 0 and needed no cleanup.
  abbrev pub IsHonest : FlowResult → Type 0
  IsHonest r =
      (r.argv ≡ cfg.argv r.id)
      × (r.failure ≡ none → (r.exit_code ≡ some (pos 0)) × (r.forced_cleanup ≡ false))

  abbrev pub AreHonest : Sched → Type 0
  AreHonest s = All IsHonest s.completed

  failed-IsHonest :
      (r : Running) (t : ℕ) (code : Option ℤ) (f : Failure) (forced : Bool)
      → IsHonest (ended_flow cfg r t code (some f) forced)
  unfolding ended_flow
  failed-IsHonest r t code f forced = (refl, λ h. absurd (cc))

  stop_each-AreHonest :
      (stop : Stop) (reason : Failure) (overrides : List (String × Failure)) (s : Sched)
      (rs : List Running)
      → AreHonest s
      → AreHonest (stop_each cfg stop reason overrides s rs)
  unfolding stop_each
  stop_each-AreHonest stop reason overrides s [] h = h
  stop_each-AreHonest stop reason overrides s (r ∷ rs) h =
      stop_each-AreHonest stop reason overrides (stop_one cfg stop reason overrides s r) rs (
        All-append IsHonest s.completed _ h
          (failed-IsHonest r (s.clock + stop.delay r.id) _ _ _, tt))

  cancel_active-AreHonest :
      (stop : Stop) (reason : Failure) (overrides : List (String × Failure)) (s : Sched)
      → AreHonest s
      → AreHonest (cancel_active cfg stop reason overrides s)
  unfolding cancel_active
  cancel_active-AreHonest stop reason overrides s h =
      stop_each-AreHonest stop reason overrides (record s { active = []; failed = true }) s.active h

  start-AreHonest : (e : Round) (x : String) (s : Sched) → AreHonest s → AreHonest (start cfg e x s)
  unfolding start
  start-AreHonest e x s h =
      if_ind AreHonest (e.starts x) _ _ (λ yes_. h)
        (λ no_. cancel_active-AreHonest e.stop cancelled_after_failure [] (report_start cfg e x s) (
          All-append IsHonest s.completed _ h (
            failed-IsHonest (record { id = x; started = s.clock + e.launch_delay x })
                (s.clock + e.launch_delay x + e.finish_delay x) none could_not_start false,
            tt,
          )))

  launch-AreHonest : (n : ℕ) (e : Round) (s : Sched) → AreHonest s → AreHonest (launch cfg n e s)
  unfolding launch
  launch-AreHonest zero e s h = h
  launch-AreHonest (suc n) e s h =
      elim (Bool-cases (not s.failed && ltb (length s.active) cfg.max_parallel)) [
        | inr shut ↦ rw (shut, launch) h
        | inl room ↦ elim (Option-cases (next_ready cfg s.completed s.pending)) [
          | inl waits ↦ rw (room, waits, launch) h
          | inr (x, ready) ↦
              rw (room, ready, launch)
                (launch-AreHonest n e (start cfg e x s) (start-AreHonest e x s h))
        ]
      ]

  code_zero : (code : ℤ) → exit_failure code ≡ none → code ≡ pos 0
  code_zero (pos n) h = ground arith
  code_zero (negsuc n) h = absurd (cc)

  -- A verdict of `poll` says `ended` with the failure of its code.
  abbrev IsVerdict : Verdict → Type 0
  IsVerdict running = Unit
  IsVerdict (cancel f) = Unit
  IsVerdict (ended code failure) = failure ≡ exit_failure code

  poll-IsVerdict : (e : Round) (now : ℕ) (r : Running) → IsVerdict (poll cfg e now r)
  unfolding poll
  poll-IsVerdict e now r = elim (Option-cases (e.exit_code r.id)) [
    | inl alive ↦
        rw (alive, poll)
          (if_ind IsVerdict (leb (cfg.timeout r.id) _) _ _ (λ late. tt) (λ in_time. tt))
    | inr (code, gone) ↦
        rw (gone, poll) (if_ind IsVerdict (e.group_alive r.id) _ _ (λ left. tt) (λ clean. refl))
  ]

  poll_step-AreHonest :
      (e : Round) (p : Polled) (r : Running) (v : Verdict)
      → IsVerdict v
      → AreHonest p.sched
      → AreHonest (poll_step cfg e p r v).sched
  unfolding poll_step
  poll_step-AreHonest e p r running w h = h
  poll_step-AreHonest e p r (cancel f) w h = h
  poll_step-AreHonest e p r (ended code failure) w h =
      All-append IsHonest p.sched.completed _ h
        (unfold ended_flow in (refl, λ fine. (ap some (code_zero code (sym w ∙ fine)), refl)), tt)

  poll_each-AreHonest :
      (e : Round) (now : ℕ) (rs : List Running) (p : Polled)
      → AreHonest p.sched
      → AreHonest (poll_each cfg e now p rs).sched
  unfolding poll_each
  poll_each-AreHonest e now [] p h = h
  poll_each-AreHonest e now (r ∷ rs) p h =
      poll_each-AreHonest e now rs (poll_step cfg e p r (poll cfg e now r))
        (poll_step-AreHonest e p r (poll cfg e now r) (poll-IsVerdict e now r) h)

  settle-AreHonest : (e : Round) (p : Polled) → AreHonest p.sched → AreHonest (settle cfg e p)
  unfolding settle
  settle-AreHonest e p h =
      if_ind AreHonest (not (is_nil p.reasons)) _ _
        (λ some_. cancel_active-AreHonest e.stop cancelled_after_failure p.reasons p.sched h)
        (λ none_.
          if_ind AreHonest p.failure_found _ _
            (λ found. cancel_active-AreHonest e.stop cancelled_after_failure [] p.sched h)
            (λ fine. h))

  poll_active-AreHonest : (e : Round) (s : Sched) → AreHonest s → AreHonest (poll_active cfg e s)
  unfolding poll_active
  poll_active-AreHonest e s h =
      let p : Polled = record {
        sched = record s { clock = s.clock + e.poll_delay; active = [] };
        reasons = [];
        failure_found = false;
      } in
      settle-AreHonest e (poll_each cfg e (s.clock + e.poll_delay) p s.active)
        (poll_each-AreHonest e (s.clock + e.poll_delay) s.active p h)

  abbrev NextHonest : Next → Type 0
  NextHonest (go_on s) = AreHonest s
  NextHonest (leave s) = AreHonest s
  NextHonest (no_progress s) = AreHonest s

  expire-AreHonest :
      (e : Round) (xs : List String) (s : Sched) → AreHonest s → AreHonest (expire cfg e xs s)
  unfolding expire
  expire-AreHonest e [] s h = h
  expire-AreHonest e (x ∷ xs) s h = All-append IsHonest s.completed _ h (
    failed-IsHonest (record { id = x; started = s.clock + e.launch_delay x })
        (s.clock + e.launch_delay x + e.finish_delay x) none budget_exceeded false,
    tt,
  )

  after_launch-NextHonest :
      (e : Round) (s : Sched) → AreHonest s → NextHonest (after_launch cfg e s)
  unfolding after_launch
  after_launch-NextHonest e s h =
      if_ind NextHonest s.failed _ _ (λ failed. h)
        (λ fresh.
          if_ind NextHonest (is_nil s.active) _ _
            (λ idle. if_ind NextHonest (is_nil s.pending) _ _ (λ a. h) (λ b. h))
            (λ busy. poll_active-AreHonest e s h))

  step-NextHonest : (e : Round) (s : Sched) → AreHonest s → NextHonest (step cfg e s)
  unfolding step
  step-NextHonest e s h =
      let s' = record s { clock = s.clock + e.budget_delay } in
      if_ind NextHonest (budget_spent cfg (s.clock + e.budget_delay)) _ _
        (λ spent.
          if_ind NextHonest (is_nil s.active) _ _ (λ idle. expire-AreHonest e s.pending s' h)
            (λ busy. cancel_active-AreHonest e.stop budget_exceeded [] s' h))
        (λ in_time.
          after_launch-NextHonest e (launch cfg (length s.pending) e s')
            (launch-AreHonest (length s.pending) e s' h))

  abbrev OutcomeHonest : Outcome → Type 0
  OutcomeHonest (returned s) = AreHonest s
  OutcomeHonest (raised s) = AreHonest s
  OutcomeHonest (unfinished s) = AreHonest s

  continue_with :
      (es : List Event)
      → ((s : Sched) → AreHonest s → OutcomeHonest (run cfg es s))
      → (n : Next) → NextHonest n
      → OutcomeHonest
          (elim n [ go_on s ↦ run cfg es s | leave s ↦ returned s | no_progress s ↦ raised s ])
  continue_with es rest (go_on s) h = rest s h
  continue_with es rest (leave s) h = h
  continue_with es rest (no_progress s) h = h

  run-OutcomeHonest : (es : List Event) (s : Sched) → AreHonest s → OutcomeHonest (run cfg es s)
  unfolding run
  run-OutcomeHonest [] s h = if_ind OutcomeHonest (is_over s) _ _ (λ o. h) (λ o. h)
  run-OutcomeHonest (interrupt st ∷ es) s h =
      if_ind OutcomeHonest (is_over s) _ _ (λ o. h)
        (λ o. cancel_active-AreHonest st interrupted [] s h)
  run-OutcomeHonest (round e ∷ es) s h = elim (Bool-cases (is_over s)) [
    | inl o ↦ rw (o, run) h
    | inr open_ ↦
        rw (open_, run)
          (continue_with es (λ s' k. run-OutcomeHonest es s' k) (step cfg e s)
            (step-NextHonest e s h))
  ]

  -- Each result of a run that returns has the command of its flow, and one with no failure has exit
  -- code 0 and needed no cleanup by force.
  pub execute-AreHonest :
      (selected : List String) (events : List Event) (s : Sched)
      → execute_flow_plan cfg selected events ≡ returned s
      → AreHonest s
  unfolding execute_flow_plan initial
  execute-AreHonest selected events s e =
      subst OutcomeHonest e (run-OutcomeHonest events (initial selected) tt)
