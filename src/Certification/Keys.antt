-- ===== src/Certification/Keys.antt =====
-- The sets of keys that `accounting` of certification_tasks.py builds from the receipts.
use tugling.Prelude.{
  Bool, true, false, ◌&&◌, ◌||◌, List, [], ◌∷◌, ◌++◌, ◌≡◌, refl, arith, any, if◌then◌else◌, eq_iff,
  eq_refl, Bool-cases, inl, inr, ◌⊎◌,
}
use tugling.Certification.Receipts.{Receipt}
use tugling.Certification.Accounting.{
  same_key, is_admission, is_result, add_key, put, admissions_of, outcomes_of,
}

pub same_key_refl : (r : Receipt) → same_key r r ≡ true
same_key_refl r = ground (arith, eq_refl r.task_id)

pub same_key-sym : (r q : Receipt) → same_key r q ≡ same_key q r
same_key-sym r q = ground (arith, eq_iff r.task_id q.task_id, eq_iff q.task_id r.task_id)

pub same_key_trans :
    (r q p : Receipt) → same_key r q ≡ true → same_key q p ≡ true → same_key r p ≡ true
same_key_trans r q p h k =
    ground
      (arith, eq_iff r.task_id q.task_id, eq_iff q.task_id p.task_id, eq_iff r.task_id p.task_id)

pub admissions_of-append :
    (acc xs ys : List Receipt)
    → admissions_of acc (xs ++ ys) ≡ admissions_of (admissions_of acc xs) ys
unfolding admissions_of
admissions_of-append acc [] ys = refl
admissions_of-append acc (x ∷ xs) ys =
    admissions_of-append (if is_admission x then add_key x acc else acc) xs ys

pub outcomes_of-append :
    (acc xs ys : List Receipt) → outcomes_of acc (xs ++ ys) ≡ outcomes_of (outcomes_of acc xs) ys
unfolding outcomes_of
outcomes_of-append acc [] ys = refl
outcomes_of-append acc (x ∷ xs) ys =
    outcomes_of-append (if is_result x then put x acc else acc) xs ys

pub put_new :
    (r : Receipt) (rs : List Receipt) → any (same_key r) rs ≡ false → put r rs ≡ rs ++ r ∷ []
put_new r [] h = refl
put_new r (q ∷ rs) h = ground (arith, put_new r rs)

pub any-append :
    (p : Receipt → Bool) (xs ys : List Receipt) → any p (xs ++ ys) ≡ (any p xs || any p ys)
any-append p [] ys = refl
any-append p (x ∷ xs) ys = ground (arith, any-append p xs ys)

pub any-put :
    (r q : Receipt) (rs : List Receipt)
    → any (same_key q) (put r rs) ≡ true
    → (same_key q r ≡ true) ⊎ (any (same_key q) rs ≡ true)
any-put r q [] h = ground arith
any-put r q (p ∷ rs) h = ground (arith, any-put r q rs)

-- A key among the outcomes is that of a result.
pub outcomes_of-any :
    (q : Receipt) (acc rs : List Receipt)
    → any (same_key q) (outcomes_of acc rs) ≡ true
    → (any (same_key q) acc ≡ true) ⊎ (any (λ r. same_key q r && is_result r) rs ≡ true)
unfolding outcomes_of
outcomes_of-any q acc [] h = inl h
outcomes_of-any q acc (r ∷ rs) h = elim (Bool-cases (is_result r)) [
  | inl res ↦ elim (outcomes_of-any q (put r acc) rs (rw res at h)) [
    | inl old ↦ elim (any-put r q acc old) [ inl same ↦ inr (ground arith) | inr older ↦ inl older ]
    | inr new ↦ inr (ground arith)
  ]
  | inr adm ↦ elim (outcomes_of-any q acc rs (rw adm at h)) [
    | inl old ↦ inl old
    | inr new ↦ inr (ground arith)
  ]
]
