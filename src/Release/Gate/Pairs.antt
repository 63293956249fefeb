-- ===== src/Release/Gate/Pairs.antt =====
-- What `check_pairs` of release_gate.py accepts.
use tugling.Prelude.{
  ℕ, zero, suc, ◌≤◌, String, Bool, true, ◌&&◌, ◌||◌, List, [], ◌∷◌, ◌++◌, Option, some, all, elem,
  leb, str_eq, ◌≡◌, refl, sym, ◌∙◌, subst, arith, eq_iff, Bool-cases, inl, inr, ◌↔◌,
}
use tugling.Release.Gate.Matrix.{
  Pair, same_pair, has_pair, pairs_of, expected_pairs, observed_pairs, check_pairs,
}

has_pair-append :
    (p : Pair) (xs ys : List Pair) → has_pair p (xs ++ ys) ≡ (has_pair p xs || has_pair p ys)
has_pair-append p [] ys = refl
has_pair-append p (x ∷ xs) ys = ground (arith, has_pair-append p xs ys)

abbrev is_attempt : ℕ → ℕ → Bool
is_attempt k n = leb 1 k && leb k n

has_pair-pairs_of :
    (x y : String) (k n : ℕ) → has_pair (x, k) (pairs_of y n) ≡ (str_eq x y && is_attempt k n)
unfolding pairs_of
has_pair-pairs_of x y k zero = ground arith
has_pair-pairs_of x y k (suc n) = ground (arith, has_pair-pairs_of x y k n)

has_pair-expected_pairs :
    (x : String) (k : ℕ) (ids : List String) (n : ℕ)
    → has_pair (x, k) (expected_pairs ids n) ≡ (elem x ids && is_attempt k n)
unfolding expected_pairs
has_pair-expected_pairs x k [] n = refl
has_pair-expected_pairs x k (y ∷ ids) n = ground (
  arith,
  has_pair-append (x, k) (pairs_of y n) (expected_pairs ids n),
  has_pair-pairs_of x y k n,
  has_pair-expected_pairs x k ids n,
)

same_pair-eq : (p q : Pair) → same_pair p q ≡ true → p ≡ q
same_pair-eq (x, k) (y, n) h =
    let first : x ≡ y = (eq_iff x y).0 (ground arith) in
    let second : k ≡ n = ground arith in λ i. (first i, second i)

has_pair-subset :
    (p : Pair) (xs ys : List Pair)
    → all (λ q. has_pair q ys) xs ≡ true
    → has_pair p xs ≡ true
    → has_pair p ys ≡ true
has_pair-subset p [] ys h e = absurd (cc)
has_pair-subset p (x ∷ xs) ys h e = elim (Bool-cases (same_pair p x)) [
  | inl here ↦ subst (λ q. has_pair q ys ≡ true) (sym (same_pair-eq p x here)) (ground arith)
  | inr there ↦ has_pair-subset p xs ys (ground arith) (ground arith)
]

-- The results that `check_pairs` accepts name exactly the pairs of a required case with an attempt
-- from 1 to the number of attempts.
pub check_pairs-exact :
    (per_case : List (Option Pair)) (case_ids : List String) (attempts : ℕ) (x : String) (k : ℕ)
    → check_pairs (some per_case) case_ids attempts ≡ true
    → (has_pair (x, k) (observed_pairs per_case) ≡ true)
      ↔ ((elem x case_ids ≡ true) × (1 ≤ k) × (k ≤ attempts))
unfolding check_pairs
check_pairs-exact per_case case_ids attempts x k h =
    let observed = observed_pairs per_case in
    let expected = expected_pairs case_ids attempts in
    let into : all (λ p. has_pair p expected) observed ≡ true = ground arith in
    let onto : all (λ p. has_pair p observed) expected ≡ true = ground arith in
    let test = has_pair-expected_pairs x k case_ids attempts in
    (
      λ e.
          let found : (elem x case_ids && is_attempt k attempts) ≡ true =
            sym test ∙ has_pair-subset (x, k) observed expected into e in
          (ground arith, ground arith, ground arith),
      λ (known, low, high).
          has_pair-subset (x, k) expected observed onto (test ∙ ground (arith, known, low, high)),
    )
