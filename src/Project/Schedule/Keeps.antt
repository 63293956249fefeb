-- ===== src/Project/Schedule/Keeps.antt =====
-- Every round of the loop of `execute_flow_plan` in project_contract.py keeps the invariant.
use tugling.Prelude.{
  ℕ, zero, suc, ◌+◌, ◌≤◌, ◌<◌, String, true, false, not, ◌&&◌, List, [], ◌∷◌, ◌++◌, ◌≡◌, refl,
  subst, sym, arith, Option, none, some, length, all, elem, All, All-append, ltb, ltb→lt, str_eq,
  eq_refl, Bool-cases, inl, inr, Option-cases, and-eq-true,
}
use tugling.Project.Results.{Failure, FlowResult, could_not_start, cancelled_after_failure}
use tugling.Project.Schedule.State.{
  Config, Running, Sched, Stop, Round, find_result, is_done, Verdict, Polled, is_nil, is_some,
  running, cancel, ended,
}
use tugling.Project.Schedule.Launch.{
  next_ready, ended_flow, report_start, stop_one, stop_each, cancel_active, start, launch,
}
use tugling.Project.Schedule.{poll, poll_step, poll_each, settle, poll_active}
use tugling.Project.Schedule.Invariant.{FinishedBy, IsSound, tick, finish, begin, report}
use mathlib.Core.List.{append_assoc, append-nil}

-- What is known of the state between rounds.
pub record Inv (cfg : Config) (selected : List String) (s : Sched) : Type 0 where
  pub sound : IsSound cfg selected s.clock s.pending s.active s.completed
  -- Before a failure every result is a success; after one nothing is active.
  pub clean : s.failed ≡ false → All (λ r. r.failure ≡ none) s.completed
  pub stopped : s.failed ≡ true → s.active ≡ []

module _ (cfg : Config) (selected : List String) where
  stop_each-Inv :
      (stop : Stop) (reason : Failure) (overrides : List (String × Failure)) (s : Sched)
      (rs : List Running)
      → s.active ≡ []
      → s.failed ≡ true
      → IsSound cfg selected s.clock s.pending rs s.completed
      → Inv cfg selected (stop_each cfg stop reason overrides s rs)
  unfolding stop_each
  stop_each-Inv stop reason overrides s [] idle failed inv = record {
    sound = subst (λ l. IsSound cfg selected s.clock s.pending l s.completed) (sym idle) inv;
    clean = λ h. absurd (cc);
    stopped = λ h. idle;
  }
  stop_each-Inv stop reason overrides s (r ∷ rs) idle failed inv =
      stop_each-Inv stop reason overrides (stop_one cfg stop reason overrides s r) rs idle failed
        (finish cfg selected [] rs r (stop.delay r.id) (stop.exit_code r.id) _ _ inv)

  pub cancel_active-Inv :
      (stop : Stop) (reason : Failure) (overrides : List (String × Failure)) (s : Sched)
      → IsSound cfg selected s.clock s.pending s.active s.completed
      → Inv cfg selected (cancel_active cfg stop reason overrides s)
  unfolding cancel_active
  cancel_active-Inv stop reason overrides s inv =
      stop_each-Inv stop reason overrides (record s { active = []; failed = true }) s.active refl
        refl inv

  is_done-FinishedBy :
      (rs : List FlowResult) (clock : ℕ) (d : String)
      → All (λ r. r.finished ≤ clock) rs
      → is_done rs d ≡ true
      → FinishedBy rs clock d
  unfolding find_result
  is_done-FinishedBy [] clock d past h = absurd (cc)
  is_done-FinishedBy (r ∷ rs) clock d past h = elim (Bool-cases (str_eq d r.id)) [
    | inl same ↦ (r, rw same refl, ground arith, past.0)
    | inr other ↦
        let (s, e, fine, le) = is_done-FinishedBy rs clock d past.1 (rw other at h) in
        (s, rw other e, fine, le)
  ]

  all_done :
      (rs : List FlowResult) (clock : ℕ) (ds : List String)
      → All (λ r. r.finished ≤ clock) rs
      → all (is_done rs) ds ≡ true
      → All (FinishedBy rs clock) ds
  all_done rs clock [] past h = tt
  all_done rs clock (d ∷ ds) past h =
      let (a, b) = and-eq-true (is_done rs d) (all (is_done rs) ds) h in
      (is_done-FinishedBy rs clock d past a, all_done rs clock ds past b)

  pub next_ready-ready :
      (rs : List FlowResult) (xs : List String) (x : String)
      → next_ready cfg rs xs ≡ some x
      → (elem x xs ≡ true) × (all (is_done rs) (cfg.deps x) ≡ true)
  unfolding next_ready
  next_ready-ready rs [] x h = absurd (cc)
  next_ready-ready rs (y ∷ xs) x h = elim (Bool-cases (all (is_done rs) (cfg.deps y))) [
    | inl ready ↦
        let e : y ≡ x = ground arith in
        subst (λ z. (elem z (y ∷ xs) ≡ true) × (all (is_done rs) (cfg.deps z) ≡ true)) e
          (ground (arith, eq_refl y), ready)
    | inr waits ↦ ground (arith, next_ready-ready rs xs x)
  ]

  start-Inv :
      (e : Round) (x : String) (s : Sched)
      → Inv cfg selected s
      → s.failed ≡ false
      → length s.active < cfg.max_parallel
      → next_ready cfg s.completed s.pending ≡ some x
      → Inv cfg selected (start cfg e x s)
  unfolding start
  start-Inv e x s inv fresh room ready =
      let (m, done) = next_ready-ready s.completed s.pending x ready in
      elim (Bool-cases (e.starts x)) [
        | inl starts ↦
            let deps = all_done s.completed s.clock (cfg.deps x) inv.sound.past_finishes done in
            rw starts (record {
              sound = begin cfg selected x (e.launch_delay x) inv.sound m deps room;
              clean = inv.clean;
              stopped = λ h. absurd (cc);
            })
        | inr fails ↦ rw fails (
            cancel_active-Inv e.stop cancelled_after_failure [] (report_start cfg e x s) (
              report cfg selected x (e.launch_delay x) (e.finish_delay x) could_not_start inv.sound
                m room))
      ]

  pub launch-Inv :
      (n : ℕ) (e : Round) (s : Sched) → Inv cfg selected s → Inv cfg selected (launch cfg n e s)
  unfolding launch
  launch-Inv zero e s inv = inv
  launch-Inv (suc n) e s inv =
      let room = ltb (length s.active) cfg.max_parallel in
      elim (Bool-cases (not s.failed && room)) [
        | inr closed ↦ rw (closed, launch) inv
        | inl open_ ↦ elim (Option-cases (next_ready cfg s.completed s.pending)) [
          | inl waits ↦ rw (open_, waits, launch) inv
          | inr (x, ready) ↦
              let fresh = and-eq-true (not s.failed) room open_ in
              rw (open_, ready, launch)
                (launch-Inv n e (start cfg e x s)
                  (start-Inv e x s inv (ground arith) (ltb→lt _ _ fresh.1) ready))
        ]
      ]

  -- While the active flows are polled: `rest` is still to be looked at, and nothing has failed.
  record PollInv (p : Polled) (rest : List Running) : Type 0 where
    sound :
        IsSound cfg selected p.sched.clock p.sched.pending
          (p.sched.active ++ rest)
          p.sched.completed
    fresh : p.sched.failed ≡ false
    clean : p.failure_found ≡ false → All (λ r. r.failure ≡ none) p.sched.completed

  poll_step-PollInv :
      (e : Round) (p : Polled) (r : Running) (rest : List Running) (v : Verdict)
      → PollInv p (r ∷ rest)
      → PollInv (poll_step cfg e p r v) rest
  unfolding poll_step
  poll_step-PollInv e p r rest running inv = record {
    sound =
        subst (λ l. IsSound cfg selected p.sched.clock p.sched.pending l p.sched.completed)
          (sym (append_assoc p.sched.active (r ∷ []) rest)) inv.sound;
    fresh = inv.fresh;
    clean = inv.clean;
  }
  poll_step-PollInv e p r rest (cancel f) inv = record {
    sound =
        subst (λ l. IsSound cfg selected p.sched.clock p.sched.pending l p.sched.completed)
          (sym (append_assoc p.sched.active (r ∷ []) rest)) inv.sound;
    fresh = inv.fresh;
    clean = inv.clean;
  }
  poll_step-PollInv e p r rest (ended code failure) inv = record {
    sound =
        finish cfg selected p.sched.active rest r (e.finish_delay r.id) (some code) failure false
          inv.sound;
    fresh = inv.fresh;
    clean = λ h.
        All-append _ p.sched.completed _ (inv.clean (ground arith))
          (unfold ended_flow in none_of failure (ground arith), tt);
  }
    where
      none_of : (o : Option Failure) → is_some o ≡ false → o ≡ none
      none_of none h = refl
      none_of (some f) h = absurd (cc)

  poll_each-PollInv :
      (e : Round) (now : ℕ) (rs : List Running) (p : Polled)
      → PollInv p rs
      → PollInv (poll_each cfg e now p rs) []
  unfolding poll_each
  poll_each-PollInv e now [] p inv = inv
  poll_each-PollInv e now (r ∷ rs) p inv =
      poll_each-PollInv e now rs (poll_step cfg e p r (poll cfg e now r))
        (poll_step-PollInv e p r rs (poll cfg e now r) inv)

  settle-Inv : (e : Round) (p : Polled) → PollInv p [] → Inv cfg selected (settle cfg e p)
  unfolding settle
  settle-Inv e p inv =
      let whole =
        subst (λ l. IsSound cfg selected p.sched.clock p.sched.pending l p.sched.completed)
          (append-nil p.sched.active) inv.sound in
      elim (Bool-cases (is_nil p.reasons)) [
        | inr some_reasons ↦
            rw some_reasons
              (cancel_active-Inv e.stop cancelled_after_failure p.reasons p.sched whole)
        | inl no_reasons ↦ elim (Bool-cases p.failure_found) [
          | inl found ↦
              rw (no_reasons, found)
                (cancel_active-Inv e.stop cancelled_after_failure [] p.sched whole)
          | inr fine ↦
              rw (no_reasons, fine)
                (record {
                  sound = whole;
                  clean = λ _. inv.clean fine;
                  stopped = λ h. absurd (let f = inv.fresh in cc);
                })
        ]
      ]

  pub poll_active-Inv :
      (e : Round) (s : Sched)
      → Inv cfg selected s
      → s.failed ≡ false
      → Inv cfg selected (poll_active cfg e s)
  unfolding poll_active
  poll_active-Inv e s inv fresh = settle-Inv e _ (
      poll_each-PollInv e (s.clock + e.poll_delay) s.active _ (record {
        sound = tick cfg selected e.poll_delay inv.sound;
        fresh = fresh;
        clean = λ _. inv.clean fresh;
      }))
