-- ===== src/Release/Resolved.antt =====
-- The failed attempts of a report that `validate_report` of pstack_release.py accepts.
use tugling.Prelude.{
  ◌+◌, String, true, false, not, ◌||◌, List, [], ◌∷◌, Option, none, some, elem, distinct, str_eq,
}
use tugling.Prelude.Except.{ok}
use tugling.Release.Report.{ReviewedAttempt, unmatched_failure}
use tugling.Prelude.{
  ◌≡◌, refl, sym, ap, ◌∙◌, subst, arith, inl, inr, Bool-cases, if_true, if_false, eq_iff,
}
use tugling.Prelude.Except.{require-eq-ok}
use mathlib.Core.List.{Memᴰ}
use mathlib.Core.List.Memᴰ
use tugling.Release.Attempts.{ids_of, find_attempt, count, is_resolved_by, check_failures}

find_attempt-id :
    (name : String) (attempts : List ReviewedAttempt) (r : ReviewedAttempt)
    → find_attempt (some name) attempts ≡ some r
    → Memᴰ r attempts × (r.id ≡ name)
unfolding find_attempt
find_attempt-id name [] r h = absurd (cc)
find_attempt-id name (a ∷ attempts) r h = elim (Bool-cases (str_eq name a.id)) [
  | inl here ↦
      let k : Path (Option ReviewedAttempt) (some a) (some r) = sym (if_true _ _ _ here) ∙ h in
      let same_attempt : a ≡ r = cc in
      (
        Memᴰ.head (sym same_attempt),
        subst (λ x. x.id ≡ name) same_attempt (sym ((eq_iff name a.id).0 here)),
      )
  | inr later ↦
      let (member, named) = find_attempt-id name attempts r (sym (if_false _ _ _ later) ∙ h) in
      (Memᴰ.tail member, named)
]

elem-of_member :
    (r : ReviewedAttempt) (attempts : List ReviewedAttempt)
    → Memᴰ r attempts
    → elem r.id (ids_of attempts) ≡ true
elem-of_member r [] m = absurd (Memᴰ.not-nil m)
elem-of_member r (a ∷ attempts) m = elim (Memᴰ.cases_cons m) [
  | inl here ↦
      let k : str_eq r.id a.id ≡ true =
        (eq_iff r.id a.id).1 (ap (λ (x : ReviewedAttempt). x.id) here) in
      ground arith
  | inr later ↦ let k = elem-of_member r attempts later in ground arith
]

-- With distinct ids, an attempt whose id a part of the list has is in that part.
member_of-part :
    (attempts part : List ReviewedAttempt) (r : ReviewedAttempt)
    → ((b : ReviewedAttempt) → Memᴰ b part → Memᴰ b attempts)
    → distinct (ids_of attempts) ≡ true
    → Memᴰ r attempts
    → elem r.id (ids_of part) ≡ true
    → Memᴰ r part
member_of-part attempts [] r inside unique m e = absurd (cc)
member_of-part attempts (b ∷ part) r inside unique m e = elim (Bool-cases (str_eq r.id b.id)) [
  | inl here ↦
      Memᴰ.head (one attempts r b unique m (inside b (Memᴰ.head refl)) ((eq_iff r.id b.id).0 here))
  | inr there ↦
      Memᴰ.tail
        (member_of-part attempts part r (λ c k. inside c (Memᴰ.tail k)) unique m (ground arith))
]
  where
    one :
        (xs : List ReviewedAttempt) (r b : ReviewedAttempt)
        → distinct (ids_of xs) ≡ true
        → Memᴰ r xs
        → Memᴰ b xs
        → r.id ≡ b.id
        → r ≡ b
    one [] r b unique m k e = absurd (Memᴰ.not-nil m)
    one (x ∷ xs) r b unique m k e = elim (Memᴰ.cases_cons m) [
      | inl r_here ↦ elim (Memᴰ.cases_cons k) [
        | inl b_here ↦ r_here ∙ sym b_here
        | inr b_later ↦
            let c = elem-of_member b xs b_later in
            let c' : elem x.id (ids_of xs) ≡ true =
              subst (λ n. elem n (ids_of xs) ≡ true)
                (sym e ∙ ap (λ (y : ReviewedAttempt). y.id) r_here) c in
            absurd (ground arith)
      ]
      | inr r_later ↦ elim (Memᴰ.cases_cons k) [
        | inl b_here ↦
            let c = elem-of_member r xs r_later in
            let c' : elem x.id (ids_of xs) ≡ true =
              subst (λ n. elem n (ids_of xs) ≡ true) (e ∙ ap (λ (y : ReviewedAttempt). y.id) b_here)
                c in
            absurd (ground arith)
        | inr b_later ↦ one xs r b (ground arith) r_later b_later e
      ]
    ]

-- A passed attempt that repeats a failed one later, in the wider environment.
pub record IsRepeat (later : List ReviewedAttempt) (a r : ReviewedAttempt) : Type 0 where
  pub named : a.resolved_by ≡ some r.id
  pub behind : Memᴰ r later
  pub outcome : r.outcome ≡ "passed"
  pub scenario : r.scenario ≡ a.scenario
  pub runtime : r.runtime ≡ a.runtime
  pub task : r.task_sha256 ≡ a.task_sha256
  pub narrow : a.environment ≡ "workspace-write"
  pub wide : r.environment ≡ "scoped-skill-directory"
  pub criteria : count a.criteria.passed + count a.criteria.failed ≡ count r.criteria.passed

-- Each failed attempt has a repeat among those behind it.
abbrev pub Resolved : List ReviewedAttempt → Type 0
Resolved [] = Unit
Resolved (a ∷ later) =
    (a.outcome ≡ "failed" → (r : ReviewedAttempt) × IsRepeat later a r) × Resolved later

resolution-IsRepeat :
    (attempts later : List ReviewedAttempt) (a : ReviewedAttempt) (o : Option String)
    → a.resolved_by ≡ o
    → ((b : ReviewedAttempt) → Memᴰ b later → Memᴰ b attempts)
    → distinct (ids_of attempts) ≡ true
    → elim (find_attempt o attempts) [ none ↦ false | some r ↦ is_resolved_by later a r ] ≡ true
    → (r : ReviewedAttempt) × IsRepeat later a r
unfolding find_attempt
resolution-IsRepeat attempts later a none named inside unique h = absurd (cc)
resolution-IsRepeat attempts later a (some name) named inside unique h =
    known (find_attempt (some name) attempts) refl h
  where
    known :
        (o : Option ReviewedAttempt)
        → find_attempt (some name) attempts ≡ o
        → elim o [ none ↦ false | some r ↦ is_resolved_by later a r ] ≡ true
        → (r : ReviewedAttempt) × IsRepeat later a r
    known none found h = absurd (cc)
    known (some r) found h =
        let (member, id) = find_attempt-id name attempts r found in
        (
          r,
          record {
            named = named ∙ ap some (sym id);
            behind = member_of-part attempts later r inside unique member (ground arith);
            outcome = (eq_iff r.outcome "passed").0 (ground arith);
            scenario = (eq_iff r.scenario a.scenario).0 (ground arith);
            runtime = (eq_iff r.runtime a.runtime).0 (ground arith);
            task = (eq_iff r.task_sha256 a.task_sha256).0 (ground arith);
            narrow = (eq_iff a.environment "workspace-write").0 (ground arith);
            wide = (eq_iff r.environment "scoped-skill-directory").0 (ground arith);
            criteria = ground arith;
          },
        )

pub failures-Resolved :
    (attempts part : List ReviewedAttempt)
    → ((b : ReviewedAttempt) → Memᴰ b part → Memᴰ b attempts)
    → distinct (ids_of attempts) ≡ true
    → check_failures attempts part ≡ ok tt
    → Resolved part
unfolding check_failures
failures-Resolved attempts [] inside unique h = tt
failures-Resolved attempts (a ∷ later) inside unique h =
    let (here, h1) =
      require-eq-ok
        (not (str_eq a.outcome "failed") || elim (find_attempt a.resolved_by attempts) [
          | none ↦ false
          | some r ↦ is_resolved_by later a r
        ])
        unmatched_failure (check_failures attempts later) h in
    (
      λ failed.
          let f : str_eq a.outcome "failed" ≡ true = (eq_iff a.outcome "failed").1 failed in
          resolution-IsRepeat attempts later a a.resolved_by refl (λ b m. inside b (Memᴰ.tail m))
            unique (ground arith),
      failures-Resolved attempts later (λ b m. inside b (Memᴰ.tail m)) unique h1,
    )
