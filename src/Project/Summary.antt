-- ===== src/Project/Summary.antt =====
-- What `performance_summary` of project_contract.py says of the results that it accepts.
mod Examples
use tugling.Prelude.{
  ℕ, suc, ◌+◌, ◌-◌, ◌*◌, ◌≤◌, max, String, Bool, true, false, not, ◌&&◌, ◌||◌, List, [], ◌∷◌, ◌≡◌,
  refl, sym, ap, ◌∙◌, subst, arith, ◌⊎◌, inl, inr, Option, none, some, map, all, any, sum_of,
  count_of, All, ltb, leb, ◌==◌, if◌then◌else◌, Bool-cases, if_ind,
}
use tugling.Prelude.Except.{ok, raise, >>=-eq-ok, >>-eq-ok, require-eq-ok, ok-inj, ◌>>=◌, ◌>>◌}
use tugling.Project.Rounding.{round_ms, round_ms_le, leb-round_ms}
use tugling.Project.Results.{
  FlowResult, EvidenceError, Summary, dist, check_times, check_all_times, latest_finish,
  insert_slow, by_duration, fits, performance_summary, finishes_before_start, duration_differs,
}

-- The times fall, from the front.
abbrev pub IsDescending : List (String × ℕ) → Type 0
IsDescending [] = Unit
IsDescending (x ∷ xs) = All (λ y. y.1 ≤ x.1) xs × IsDescending xs

-- A result finishes after its start, and its duration is that of its times, rounded, up to two
-- milliseconds.
abbrev pub HasTimes : FlowResult → Type 0
HasTimes r = (r.started ≤ r.finished) × (dist (round_ms (r.finished - r.started)) r.duration ≤ 2000)

check_all_times-All : (rs : List FlowResult) → check_all_times rs ≡ ok tt → All HasTimes rs
unfolding check_all_times check_times
check_all_times-All [] h = tt
check_all_times-All (r ∷ rs) h =
    let (first, rest) = >>-eq-ok (check_times r) (check_all_times rs) h in
    let (a, k) = require-eq-ok (leb r.started r.finished) finishes_before_start _ first in
    let b : leb (dist (round_ms (r.finished - r.started)) r.duration) 2000 ≡ true = ground arith in
    ((ground arith, ground arith), check_all_times-All rs rest)

latest_finish-ge :
    (rs : List FlowResult) (m : ℕ)
    → latest_finish rs ≤ m
    → All (λ r. round_ms r.finished ≤ round_ms m) rs
unfolding latest_finish
latest_finish-ge [] m h = tt
latest_finish-ge (r ∷ rs) m h =
    (round_ms_le r.finished m (omega (arith, h)), latest_finish-ge rs m (omega (arith, h)))

or_right : (a b : Bool) → b ≡ true → (a || b) ≡ true
or_right a b h = ground arith

latest_finish-any :
    (rs : List FlowResult)
    → (latest_finish rs ≡ 0) ⊎ (any (λ r. r.finished == latest_finish rs) rs ≡ true)
unfolding latest_finish
latest_finish-any [] = inl refl
latest_finish-any (r ∷ rs) = elim (Bool-cases (leb (latest_finish rs) r.finished)) [
  | inl here ↦ inr (ground arith)
  | inr later ↦
      let m : max r.finished (latest_finish rs) ≡ latest_finish rs = ground arith in
      elim (latest_finish-any rs) [
        | inl zero_time ↦ inl (ground arith)
        | inr found ↦ inr (
            or_right _ _
              (subst (λ n. any (λ (x : FlowResult). x.finished == n) rs ≡ true) (sym m) found))
      ]
]

any_rounded :
    (n : ℕ) (rs : List FlowResult)
    → any (λ r. r.finished == n) rs ≡ true
    → any (λ r. round_ms r.finished == round_ms n) rs ≡ true
any_rounded n [] h = absurd (cc)
any_rounded n (r ∷ rs) h = elim (Bool-cases (r.finished == n)) [
  | inl here ↦
      let same : r.finished ≡ n = ground arith in
      let equal_ : (round_ms r.finished == round_ms n) ≡ true = rw same (ground arith) in
      ground arith
  | inr other ↦ or_right _ _ (any_rounded n rs (ground arith))
]

fits-all :
    (budget : Option ℕ) (rs : List FlowResult)
    → fits budget (round_ms (latest_finish rs)) ≡ all (λ r. fits budget (round_ms r.finished)) rs
unfolding fits latest_finish
fits-all none [] = refl
fits-all none (r ∷ rs) = fits-all none rs
fits-all (some n) [] = unfold round_ms in ground arith
fits-all (some n) (r ∷ rs) =
    let bound = n * 1000000 in
    let first = leb-round_ms r.finished bound in
    let rest = leb-round_ms (latest_finish rs) bound in
    let whole = leb-round_ms (max r.finished (latest_finish rs)) bound in
    ground (arith, fits-all (some n) rs, first, rest, whole)

abbrev pub slow_pairs : List FlowResult → List (String × ℕ)
slow_pairs rs = map (λ r. (r.id, r.duration)) rs

insert_slow-All :
    (d : ℕ) (r : FlowResult) (rs : List FlowResult)
    → r.duration ≤ d
    → All (λ y. y.1 ≤ d) (slow_pairs rs)
    → All (λ y. y.1 ≤ d) (slow_pairs (insert_slow r rs))
unfolding insert_slow
insert_slow-All d r [] le h = (le, tt)
insert_slow-All d r (s ∷ rs) le (a, h) =
    if_ind (λ l. All (λ y. y.1 ≤ d) (slow_pairs l)) (leb s.duration r.duration) _ _
      (λ fast. (le, (a, h))) (λ slow. (a, insert_slow-All d r rs le h))

All-weaken :
    (c d : ℕ) (xs : List (String × ℕ)) → c ≤ d → All (λ y. y.1 ≤ c) xs → All (λ y. y.1 ≤ d) xs
All-weaken c d [] le h = tt
All-weaken c d (x ∷ xs) le (a, h) = (omega (arith, a, le), All-weaken c d xs le h)

insert_slow-IsDescending :
    (r : FlowResult) (rs : List FlowResult)
    → IsDescending (slow_pairs rs)
    → IsDescending (slow_pairs (insert_slow r rs))
unfolding insert_slow
insert_slow-IsDescending r [] h = (tt, tt)
insert_slow-IsDescending r (s ∷ rs) (a, h) =
    if_ind (λ l. IsDescending (slow_pairs l)) (leb s.duration r.duration) _ _
      (λ fast.
        ((ground arith, All-weaken s.duration r.duration (slow_pairs rs) (ground arith) a), (a, h)))
      (λ slow. (insert_slow-All s.duration r rs (ground arith) a, insert_slow-IsDescending r rs h))

by_duration-IsDescending : (rs : List FlowResult) → IsDescending (slow_pairs (by_duration rs))
unfolding by_duration
by_duration-IsDescending [] = tt
by_duration-IsDescending (r ∷ rs) =
    insert_slow-IsDescending r (by_duration rs) (by_duration-IsDescending rs)

insert_slow-count :
    (q : String × ℕ → Bool) (r : FlowResult) (rs : List FlowResult)
    → count_of q (slow_pairs (insert_slow r rs)) ≡ count_of q (slow_pairs (r ∷ rs))
unfolding insert_slow
insert_slow-count q r [] = refl
insert_slow-count q r (s ∷ rs) =
    if_ind (λ l. count_of q (slow_pairs l) ≡ count_of q (slow_pairs (r ∷ s ∷ rs)))
      (leb s.duration r.duration) _ _ (λ fast. refl)
      (λ slow. omega (arith, insert_slow-count q r rs))

by_duration-count :
    (q : String × ℕ → Bool) (rs : List FlowResult)
    → count_of q (slow_pairs (by_duration rs)) ≡ count_of q (slow_pairs rs)
unfolding by_duration
by_duration-count q [] = refl
by_duration-count q (r ∷ rs) =
    omega (arith, insert_slow-count q r (by_duration rs), by_duration-count q rs)

-- What a summary says truly.
pub record IsFaithful (results : List FlowResult) (budget : Option ℕ) (s : Summary) : Type 0 where
  pub times : All HasTimes results
  pub latest : All (λ r. round_ms r.finished ≤ s.active) results
  pub reached : (s.active ≡ 0) ⊎ (any (λ r. round_ms r.finished == s.active) results ≡ true)
  pub within : s.within_budget ≡ all (λ r. fits budget (round_ms r.finished)) results
  pub descending : IsDescending s.slowest
  pub listed : (q : String × ℕ → Bool) → count_of q s.slowest ≡ count_of q (slow_pairs results)

-- Where a summary is made, each result finishes after its start and has the duration of its times,
-- rounded, up to two milliseconds; the active time is the latest finish, rounded to milliseconds, or
-- 0; the run is within its budget if and only if each flow's finish, so rounded, is; and the slowest
-- flows are all flows, with their durations, in descending order.
pub performance_summary-IsFaithful :
    (results : List FlowResult) (budget : Option ℕ) (s : Summary)
    → performance_summary results budget ≡ ok s
    → IsFaithful results budget s
unfolding performance_summary
performance_summary-IsFaithful results budget s h =
    let (checked, k) = >>-eq-ok (check_all_times results) _ h in
    subst (IsFaithful results budget) (ok-inj k) (record {
      times = check_all_times-All results checked;
      latest = latest_finish-ge results (latest_finish results) (omega arith);
      reached = elim (latest_finish-any results) [
        | inl none_ ↦ inl (unfold round_ms in rw none_ refl)
        | inr found ↦ inr (any_rounded (latest_finish results) results found)
      ];
      within = fits-all budget results;
      descending = by_duration-IsDescending results;
      listed = λ q. by_duration-count q results;
    })
