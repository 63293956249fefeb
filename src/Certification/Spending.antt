-- ===== src/Certification/Spending.antt =====
-- How far the receipts of a lane can pass its half of the approved tokens in certification_tasks.py.
use tugling.Prelude.{
  ℕ, suc, ◌+◌, ◌≤◌, ◌<◌, Bool, true, false, not, ◌&&◌, ◌||◌, List, [], ◌∷◌, ◌++◌, ◌≡◌, ◌∙◌, arith,
  none, some, any, sum_of, count_of, count_of-append, sum_of-append, Bool-cases, inl, inr,
}
use tugling.Certification.Receipts.{Usage, Receipt}
use tugling.Certification.Accounting.{
  same_key, is_admission, usage_of, add_key, admissions_of, outcomes_of, tokens, is_known,
}
use tugling.Certification.Keys.{
  same_key-sym, same_key_trans, admissions_of-append, outcomes_of-append, put_new,
}
use tugling.Prelude.{Bool-cases}

-- The attempts without usage, and the tokens of those with it.
abbrev pub unknown : List Receipt → ℕ
unknown rs = count_of (λ a. not (is_known (outcomes_of [] rs) a)) (admissions_of [] rs)

abbrev pub spent : (Usage → ℕ) → List Receipt → ℕ
spent field rs = sum_of (tokens field) (outcomes_of [] rs)

abbrev has_usage : Receipt → Bool
has_usage r = elim (usage_of r) [ none ↦ false | some u ↦ true ]

is_known-append :
    (outs : List Receipt) (r a : Receipt)
    → is_known (outs ++ r ∷ []) a ≡ (is_known outs a || (same_key a r && has_usage r))
is_known-append [] r a = ground arith
is_known-append (o ∷ outs) r a = ground (arith, is_known-append outs r a)

-- A known key is one of the outcomes'.
is_known-any :
    (outs : List Receipt) (r a : Receipt)
    → same_key a r ≡ true
    → is_known outs a ≡ true
    → any (same_key r) outs ≡ true
is_known-any [] r a same h = ground arith
is_known-any (o ∷ outs) r a same h = elim (Bool-cases (same_key a o)) [
  | inl eq ↦ ground (arith, same_key_trans r a o (same_key-sym r a ∙ same) eq)
  | inr ne ↦ ground (arith, is_known-any outs r a same)
]

-- One more outcome never adds an attempt without usage.
unknown_falls :
    (outs adms : List Receipt) (r : Receipt)
    → count_of (λ a. not (is_known (outs ++ r ∷ []) a)) adms
      ≤ count_of (λ a. not (is_known outs a)) adms
unknown_falls outs [] r = omega arith
unknown_falls outs (a ∷ adms) r =
    ground (arith, unknown_falls outs adms r, is_known-append outs r a)

-- The outcome of an admitted attempt that reports its usage settles that attempt.
unknown_falls_strictly :
    (outs adms : List Receipt) (r : Receipt)
    → any (same_key r) adms ≡ true
    → any (same_key r) outs ≡ false
    → has_usage r ≡ true
    → count_of (λ a. not (is_known (outs ++ r ∷ []) a)) adms
      < count_of (λ a. not (is_known outs a)) adms
unknown_falls_strictly outs [] r adm fresh known = absurd (cc)
unknown_falls_strictly outs (a ∷ adms) r adm fresh known = elim (Bool-cases (same_key a r)) [
  | inl eq ↦ elim (Bool-cases (is_known outs a)) [
    | inl k ↦ absurd (ground (arith, is_known-any outs r a eq k))
    | inr n ↦ ground (arith, unknown_falls outs adms r, is_known-append outs r a)
  ]
  | inr ne ↦
      ground (arith, unknown_falls_strictly outs adms r, is_known-append outs r a, same_key-sym r a)
]

-- At most one attempt has no usage, with what was spent below the share while there is one.
abbrev pub Bounded : (Usage → ℕ) → ℕ → ℕ → List Receipt → Type 0
Bounded field share m rs =
    (unknown rs ≤ 1) × (1 ≤ unknown rs → spent field rs < share) × (spent field rs ≤ share + m)

outcomes_of-admission :
    (rs : List Receipt) (r : Receipt)
    → is_admission r ≡ true
    → outcomes_of [] (rs ++ r ∷ []) ≡ outcomes_of [] rs
unfolding outcomes_of
outcomes_of-admission rs r h = rw (outcomes_of-append [] rs (r ∷ []), h)

pub admissions_of-result :
    (rs : List Receipt) (r : Receipt)
    → is_admission r ≡ false
    → admissions_of [] (rs ++ r ∷ []) ≡ admissions_of [] rs
unfolding admissions_of
admissions_of-result rs r h = rw (admissions_of-append [] rs (r ∷ []), h)

pub outcomes_of-result :
    (rs : List Receipt) (r : Receipt)
    → is_admission r ≡ false
    → any (same_key r) (outcomes_of [] rs) ≡ false
    → outcomes_of [] (rs ++ r ∷ []) ≡ outcomes_of [] rs ++ r ∷ []
unfolding outcomes_of
outcomes_of-result rs r h fresh =
    rw (outcomes_of-append [] rs (r ∷ []), h, put_new r (outcomes_of [] rs) fresh)

add_key-count :
    (p : Receipt → Bool) (r : Receipt) (rs : List Receipt)
    → count_of p (add_key r rs) ≤ suc (count_of p rs)
add_key-count p r rs = elim (Bool-cases (any (same_key r) rs)) [
  | inl h ↦ rw (h) (omega arith)
  | inr h ↦ rw (h, count_of-append p rs (r ∷ [])) (ground arith)
]

unknown-admission :
    (rs : List Receipt) (r : Receipt)
    → is_admission r ≡ true
    → unknown (rs ++ r ∷ []) ≤ suc (unknown rs)
unfolding admissions_of
unknown-admission rs r h =
    rw (outcomes_of-admission rs r h, admissions_of-append [] rs (r ∷ []), h)
      (add_key-count (λ a. not (is_known (outcomes_of [] rs) a)) r (admissions_of [] rs))

pub Bounded-admission :
    (field : Usage → ℕ) (share m : ℕ) (rs : List Receipt) (r : Receipt)
    → is_admission r ≡ true
    → unknown rs ≡ 0
    → spent field rs < share
    → Bounded field share m (rs ++ r ∷ [])
Bounded-admission field share m rs r adm settled low =
    let same : spent field (rs ++ r ∷ []) ≡ spent field rs = rw (outcomes_of-admission rs r adm) in
    (
      omega (arith, unknown-admission rs r adm, settled),
      λ _. omega (arith, same, low),
      omega (arith, same, low),
    )

tokens-unknown : (field : Usage → ℕ) (r : Receipt) → has_usage r ≡ false → tokens field r ≡ 0
tokens-unknown field r h = ground arith

pub Bounded-result :
    (field : Usage → ℕ) (share m : ℕ) (rs : List Receipt) (r : Receipt)
    → is_admission r ≡ false
    → any (same_key r) (outcomes_of [] rs) ≡ false
    → any (same_key r) (admissions_of [] rs) ≡ true
    → tokens field r ≤ m
    → Bounded field share m rs
    → Bounded field share m (rs ++ r ∷ [])
Bounded-result field share m rs r res fresh adm small (one, low, within) =
    let outs = outcomes_of [] rs in
    let adms = admissions_of [] rs in
    let grow : spent field (rs ++ r ∷ []) ≡ spent field rs + tokens field r =
      rw (outcomes_of-result rs r res fresh, sum_of-append (tokens field) outs (r ∷ []))
        (omega arith) in
    let left : unknown (rs ++ r ∷ []) ≡ count_of (λ a. not (is_known (outs ++ r ∷ []) a)) adms =
      rw (outcomes_of-result rs r res fresh, admissions_of-result rs r res) in
    elim (Bool-cases (has_usage r)) [
      | inl known ↦
          let fall = unknown_falls_strictly outs adms r adm fresh known in
          let below = low (omega (arith, fall)) in
          (
            omega (arith, fall, left, one),
            λ h. absurd (omega (arith, fall, left, one, h)),
            omega (arith, grow, below, small),
          )
      | inr lost ↦
          let fall = unknown_falls outs adms r in
          let none_spent = tokens-unknown field r lost in
          (
            omega (arith, fall, left, one),
            λ h. omega (arith, grow, none_spent, low (omega (arith, fall, left, h))),
            omega (arith, grow, none_spent, within),
          )
    ]
