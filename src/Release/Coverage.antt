-- ===== src/Release/Coverage.antt =====
-- What a report that `validate_report` of pstack_release.py accepts shows of all its attempts.
use tugling.Prelude.{String, true, false, ◌||◌, List, [], ◌∷◌, ◌++◌, elem, distinct, str_eq}
use tugling.Prelude.Except.{ok}
use tugling.Release.Report.{EvidenceSet, ReviewedAttempt}
use tugling.Prelude.{
  ◌≡◌, refl, sym, ap, ◌∙◌, subst, arith, ◌⊎◌, inl, inr, All, Bool-cases, eq_iff, elem-append,
}
use tugling.Prelude.Except.{>>=-ok-then, ok-inj}
use mathlib.Core.List.{Memᴰ}
use tugling.Release.Attempts.{ids_of, in_set, check_attempt, check_attempts}
use tugling.Release.Reviewed.{IsPass, IsFailure, Verdict, attempt-IsChecked}

ids_of-append : (xs ys : List ReviewedAttempt) → ids_of (xs ++ ys) ≡ ids_of xs ++ ids_of ys
ids_of-append [] ys = refl
ids_of-append (x ∷ xs) ys = ap (λ zs. x.id ∷ zs) (ids_of-append xs ys)

-- What the first loop has checked: each attempt bound to its frozen set, passed or failed, and the
-- ids new and distinct.
pub record AreChecked (sets : List EvidenceSet) (seen attempts : List ReviewedAttempt)
    : Type 0 where
  pub each : All (λ a. (in_set sets a.evidence_set a.id ≡ true) × (IsPass a ⊎ IsFailure a)) attempts
  pub fresh : All (λ a. elem a.id (ids_of seen) ≡ false) attempts
  pub unique : distinct (ids_of attempts) ≡ true

split_fresh :
    (seen : List ReviewedAttempt) (a : ReviewedAttempt) (attempts : List ReviewedAttempt)
    → All (λ b. elem b.id (ids_of (seen ++ a ∷ [])) ≡ false) attempts
    → All (λ b. elem b.id (ids_of seen) ≡ false) attempts × (elem a.id (ids_of attempts) ≡ false)
split_fresh seen a [] h = (tt, refl)
split_fresh seen a (b ∷ attempts) (first, h) =
    let (others, new) = split_fresh seen a attempts h in
    let both : (elem b.id (ids_of seen) || (str_eq b.id a.id || false)) ≡ false =
      sym (elem-append b.id (ids_of seen) (a.id ∷ []))
      ∙ ap (elem b.id) (sym (ids_of-append seen (a ∷ [])))
      ∙ first in
    let apart : str_eq a.id b.id ≡ false = differs a.id b.id (ground arith) in
    ((ground arith, others), ground arith)
  where
    differs : (x y : String) → str_eq y x ≡ false → str_eq x y ≡ false
    differs x y h = elim (Bool-cases (str_eq x y)) [
      | inr no_ ↦ no_
      | inl yes_ ↦
          let back : str_eq y x ≡ true = (eq_iff y x).1 (sym ((eq_iff x y).0 yes_)) in absurd (cc)
    ]

passed_or_failed :
    {a : ReviewedAttempt} {covered : List String} → Verdict a covered → IsPass a ⊎ IsFailure a
passed_or_failed (inl (p, _)) = inl p
passed_or_failed (inr (f, _)) = inr f

pub attempts-AreChecked :
    (sets : List EvidenceSet) (runtimes : List String) (seen : List ReviewedAttempt)
    (covered : List String) (attempts : List ReviewedAttempt) (total : List String)
    → check_attempts sets runtimes seen covered attempts ≡ ok total
    → AreChecked sets seen attempts
unfolding check_attempts
attempts-AreChecked sets runtimes seen covered [] total h = record {
  each = tt;
  fresh = tt;
  unique = refl;
}
attempts-AreChecked sets runtimes seen covered (a ∷ attempts) total h =
    >>=-ok-then (check_attempt sets runtimes seen a) _ h (λ areas checked h1.
      let here = attempt-IsChecked sets runtimes seen a areas checked in
      let later =
        attempts-AreChecked sets runtimes (seen ++ a ∷ []) (covered ++ areas) attempts total h1 in
      let (others, new) = split_fresh seen a attempts later.fresh in
      let distinct_ = later.unique in
      record {
        each = ((here.bound, passed_or_failed here.verdict), later.each);
        fresh = (here.fresh, others);
        unique = ground arith;
      })

-- An area that one of the attempts covers by passing.
abbrev pub CoveredBy : List ReviewedAttempt → String → Type 0
CoveredBy attempts area =
    (a : ReviewedAttempt) × Memᴰ a attempts × IsPass a × (elem area a.areas ≡ true)

covered-later :
    (a : ReviewedAttempt) (attempts : List ReviewedAttempt) (area : String)
    → CoveredBy attempts area
    → CoveredBy (a ∷ attempts) area
covered-later a attempts area (b, member, pass, in_area) = (b, Memᴰ.tail member, pass, in_area)

pub attempts-cover :
    (sets : List EvidenceSet) (runtimes : List String) (seen : List ReviewedAttempt)
    (covered : List String) (attempts : List ReviewedAttempt) (total : List String) (area : String)
    → check_attempts sets runtimes seen covered attempts ≡ ok total
    → elem area total ≡ true
    → (elem area covered ≡ true) ⊎ CoveredBy attempts area
unfolding check_attempts
attempts-cover sets runtimes seen covered [] total area h k = inl (ap (elem area) (ok-inj h) ∙ k)
attempts-cover sets runtimes seen covered (a ∷ attempts) total area h k =
    >>=-ok-then (check_attempt sets runtimes seen a) _ h (λ areas checked h1.
      elim (attempts-cover sets runtimes (seen ++ a ∷ []) (covered ++ areas) attempts total area h1
        k) [
          | inr later ↦ inr (covered-later a attempts area later)
          | inl now ↦
              among areas (attempt-IsChecked sets runtimes seen a areas checked).verdict
                (sym (elem-append area covered areas) ∙ now)
        ])
  where
    among :
        (areas : List String)
        → Verdict a areas
        → (elem area covered || elem area areas) ≡ true
        → (elem area covered ≡ true) ⊎ CoveredBy (a ∷ attempts) area
    among areas (inl (p, same_areas)) e = elim (Bool-cases (elem area covered)) [
      | inl before ↦ inl before
      | inr not_before ↦
          inr (a, Memᴰ.head refl, p, subst (λ xs. elem area xs ≡ true) same_areas (ground arith))
    ]
    among areas (inr (f, nothing)) e =
        let e' = subst (λ xs. (elem area covered || elem area xs) ≡ true) nothing e in
        inl (ground arith)
