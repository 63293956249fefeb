-- ===== src/Certification/Recovering.antt =====
-- The tasks that `recovery` of certification_tasks.py plans, and their admission by `admit`.
use tugling.Prelude.{
  ℕ, zero, suc, ◌<◌, String, Bool, true, false, not, ◌&&◌, ◌||◌, List, [], ◌∷◌, ◌++◌, ◌≡◌, refl, ap,
  ◌∙◌, subst, arith, some, any, keep, All, ltb, leb, ◌==◌, if◌then◌else◌, str_eq, Bool-cases, inl,
  inr, ◌⊎◌, if_ind, All-mono,
}
use tugling.Prelude.Except.{ok, >>=-eq-ok, require-eq-ok, ok-inj}
use tugling.Certification.Receipts.{Task, Plan, Receipt, task_for}
use tugling.Certification.Accounting.{Totals, accounting}
use tugling.Certification.Admission.{
  accepted, admit, over_budget, has_task, admission_record, count_down, blocked_lanes,
  pending_tasks, skips, recovery,
}
use tugling.Certification.Admitted.{admit_complete}

abbrev blocks : Plan → Totals → Bool
blocks plan usage =
    (not (usage.unaccounted_attempts == 0) && not plan.synthetic) || over_budget plan usage

abbrev is_listed : ℕ → List ℕ → Bool
is_listed lane lanes = any (λ l. l == lane) lanes

is_listed-last :
    (n lane : ℕ) (xs : List ℕ)
    → (is_listed lane xs ≡ true) ⊎ ((n == lane) ≡ true)
    → is_listed lane (xs ++ n ∷ []) ≡ true
is_listed-last n lane [] h = ground arith
is_listed-last n lane (x ∷ xs) h = elim (Bool-cases (x == lane)) [
  | inl e ↦ ground arith
  | inr ne ↦
      ground
        (arith, is_listed-last n lane xs (elim h [ inl m ↦ inl (ground arith) | inr e ↦ inr e ]))
]

count_down-lt : (n lane : ℕ) → lane < n → is_listed lane (count_down n) ≡ true
count_down-lt zero lane h = absurd (omega (arith, h))
count_down-lt (suc n) lane h = is_listed-last n lane (count_down n) (elim (Bool-cases (n == lane)) [
  | inl e ↦ inr e
  | inr ne ↦ inl (count_down-lt n lane (ground arith))
])

if_free :
    (lane l : ℕ) (rest : List ℕ) (b : Bool)
    → is_listed lane (if b then l ∷ rest else rest) ≡ false
    → is_listed lane rest ≡ false
if_free lane l rest true e = ground arith
if_free lane l rest false e = e

-- A lane that was looked at and is not blocked has its accounts, which do not block it.
blocked_lanes-open :
    (plan : Plan) (records : List Receipt) (lane : ℕ) (lanes : List ℕ) {blocked : List ℕ}
    → blocked_lanes plan records lanes ≡ ok blocked
    → is_listed lane lanes ≡ true
    → is_listed lane blocked ≡ false
    → (usage : Totals) × (accounting plan records (some lane) ≡ ok usage)
      × (blocks plan usage ≡ false)
unfolding blocked_lanes
blocked_lanes-open plan records lane [] h m free = absurd (cc)
blocked_lanes-open plan records lane (l ∷ lanes) {blocked} h m free =
    let (usage, counted, h1) = >>=-eq-ok (accounting plan records (some l)) _ h in
    let (rest, later, h2) = >>=-eq-ok (blocked_lanes plan records lanes) _ h1 in
    let ends : (if blocks plan usage then l ∷ rest else rest) ≡ blocked = ok-inj h2 in
    let free' : is_listed lane (if blocks plan usage then l ∷ rest else rest) ≡ false =
      ap (is_listed lane) ends ∙ free in
    elim (Bool-cases (l == lane)) [
      | inl here ↦
          let same : l ≡ lane = ground arith in
          (
            usage,
            subst (λ n. accounting plan records (some n) ≡ ok usage) same counted,
            elim (Bool-cases (blocks plan usage)) [
              | inl bad ↦ absurd (let e = rw bad at free' in ground arith)
              | inr good ↦ good
            ],
          )
      | inr away ↦
          blocked_lanes-open plan records lane lanes later (ground arith)
            (if_free lane l rest (blocks plan usage) free')
    ]

no_later :
    (attempt : ℕ) (id : String) (records : List Receipt)
    → any (λ r. leb attempt r.attempt) records ≡ false
    → any (λ r. str_eq r.task_id id && (r.attempt == attempt)) records ≡ false
no_later attempt id [] h = refl
no_later attempt id (r ∷ rs) h = ground (arith, no_later attempt id rs)

-- What holds of each task holds of each pending one, which also passed the tests of the loop.
pending_tasks-All :
    (plan : Plan) (records done : List Receipt) (blocked : List ℕ) (P : Task → Type 0)
    (tasks : List Task)
    → All P tasks
    → All
        (λ t. P t × (has_task t.id done ≡ false) × (is_listed t.lane blocked ≡ false))
        (pending_tasks plan records done blocked tasks)
unfolding pending_tasks
pending_tasks-All plan records done blocked P [] h = tt
pending_tasks-All plan records done blocked P (t ∷ tasks) h =
    let rest = pending_tasks-All plan records done blocked P tasks h.1 in
    if_ind (All (λ t. P t × (has_task t.id done ≡ false) × (is_listed t.lane blocked ≡ false)))
      (has_task t.id done
        || is_listed t.lane blocked
        || skips plan (keep (λ r. str_eq r.task_id t.id) records))
      _ _ (λ out. rest) (λ here. ((h.0, ground arith, ground arith), rest))

-- In a plan that is no diagnostic one, knows its tasks by their ids and has them on its lanes,
-- `admit` would at once admit each task that `recovery` plans for a round, for that round and on
-- the same receipts.
pub recovery_admits :
    (plan : Plan) (records : List Receipt) (attempt : ℕ) (tasks : List Task)
    → plan.diagnostic ≡ false
    → All (λ t. (task_for plan t.id ≡ ok t) × (t.lane < plan.lanes)) plan.tasks
    → recovery plan records attempt ≡ ok tasks
    → All
        (λ t. admit plan records t.id attempt ≡ ok (some (admission_record plan t.id attempt)))
        tasks
unfolding recovery
recovery_admits plan records attempt tasks plain known h =
    let (round, h1) = require-eq-ok (leb 1 attempt && ltb attempt plan.max_attempts) _ _ h in
    let (fresh, h2) = require-eq-ok (not (any (λ r. leb attempt r.attempt) records)) _ _ h1 in
    let (done, outcomes, h3) = >>=-eq-ok (accepted records) _ h2 in
    let (blocked, open_lanes, h4) =
      >>=-eq-ok (blocked_lanes plan records (count_down plan.lanes)) _ h3 in
    subst (All _) (ok-inj h4) (
      All-mono _ _ (pending_tasks plan records done blocked plan.tasks)
        (λ t p.
          let (usage, counted, free) =
            blocked_lanes-open plan records t.lane (count_down plan.lanes) open_lanes
              (count_down-lt plan.lanes t.lane p.0.1) p.2 in
          admit_complete plan records t.id attempt (record {
            task = t;
            done = done;
            totals = usage;
            task_found = p.0.0;
            outcomes = outcomes;
            no_outcome = p.1;
            in_limit = ground arith;
            is_new = no_later attempt t.id records (ground arith);
            one_diagnostic = ground arith;
            accounted = counted;
            usage_known = ground arith;
            input_left = ground arith;
            output_left = ground arith;
          }))
        (pending_tasks-All plan records done blocked _ plan.tasks known))
