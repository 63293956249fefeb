-- ===== src/Project/Retention/Bounds.antt =====
-- What `prune_receipts` of project_contract.py leaves in the store of receipts and what it deletes.
use tugling.Prelude.{
  ℕ, suc, ◌+◌, ◌-◌, ◌≤◌, Bool, true, false, ◌&&◌, ◌||◌, List, [], ◌∷◌, ◌≡◌, refl, subst, arith, ◌⊎◌,
  inl, inr, length, sum_of, count_of, All, Bool-cases,
}
use tugling.Prelude.Except.{ok, >>=-eq-ok, >>-eq-ok, ok-inj, ◌>>=◌}
use tugling.Project.Retention.{
  Retention, unchanged, Entry, insert_old, by_age, cost, Pruned, fits, is_young, look_again,
  prune_each, keeping, removing,
}

insert_old-sum :
    (w : Entry → ℕ) (f : Entry) (fs : List Entry) → sum_of w (insert_old f fs) ≡ w f + sum_of w fs
unfolding insert_old
insert_old-sum w f [] = refl
insert_old-sum w f (g ∷ fs) = ground (arith, insert_old-sum w f fs)

pub by_age-sum : (w : Entry → ℕ) (fs : List Entry) → sum_of w (by_age fs) ≡ sum_of w fs
unfolding by_age
by_age-sum w [] = refl
by_age-sum w (f ∷ fs) = omega (arith, insert_old-sum w f (by_age fs), by_age-sum w fs)

insert_old-count :
    (q : Entry → Bool) (f : Entry) (fs : List Entry)
    → count_of q (insert_old f fs) ≡ count_of q (f ∷ fs)
unfolding insert_old
insert_old-count q f [] = refl
insert_old-count q f (g ∷ fs) = ground (arith, insert_old-count q f fs)

pub by_age-count : (q : Entry → Bool) (fs : List Entry) → count_of q (by_age fs) ≡ count_of q fs
unfolding by_age
by_age-count q [] = refl
by_age-count q (f ∷ fs) = omega (arith, insert_old-count q f (by_age fs), by_age-count q fs)

insert_old-length : (f : Entry) (fs : List Entry) → length (insert_old f fs) ≡ suc (length fs)
unfolding insert_old
insert_old-length f [] = refl
insert_old-length f (g ∷ fs) = ground (arith, insert_old-length f fs)

pub by_age-length : (fs : List Entry) → length (by_age fs) ≡ length fs
unfolding by_age
by_age-length [] = refl
by_age-length (f ∷ fs) = omega (arith, insert_old-length f (by_age fs), by_age-length fs)

-- How the loop divides receipts, and what its two counters then say.
pub record Split (policy : Retention) (now count budgeted : ℕ) (fs : List Entry) (p : Pruned)
    : Type 0 where
  pub files : p.count + length p.removed ≡ count
  pub bytes : p.budgeted + sum_of (λ f. f.size) p.removed ≡ budgeted
  pub lengths : length p.kept + length p.removed ≡ length fs
  pub costs : sum_of cost p.kept + sum_of (λ f. f.size) p.removed ≡ sum_of cost fs
  pub sizes : sum_of (λ f. f.size) p.kept + sum_of (λ f. f.size) p.removed ≡ sum_of (λ f. f.size) fs
  pub parts : (q : Entry → Bool) → count_of q p.kept + count_of q p.removed ≡ count_of q fs
  pub deleted : All (λ f. (f.active ≡ false) × (f.look ≡ unchanged)) p.removed
  pub left : All (λ f. (f.active ≡ true) ⊎ (is_young policy now f ≡ true)) p.kept

pub look_again-eq-ok : (f : Entry) → look_again f ≡ ok tt → f.look ≡ unchanged
look_again-eq-ok f h = ground arith

keeps : Retention → ℕ → ℕ → ℕ → Entry → Bool
keeps policy now count budgeted f =
    f.active || (is_young policy now f && fits policy count budgeted)

module _ (policy : Retention) (now : ℕ) where
  pub prune_each-Split :
      (count budgeted : ℕ) (fs : List Entry) (p : Pruned)
      → length fs ≤ count
      → sum_of cost fs ≤ budgeted
      → prune_each policy now count budgeted fs ≡ ok p
      → Split policy now count budgeted fs p
  unfolding prune_each
  prune_each-Split count budgeted [] p c b h =
      subst (Split policy now count budgeted []) (ok-inj h) (record {
        files = omega arith;
        bytes = omega arith;
        lengths = refl;
        costs = refl;
        sizes = refl;
        parts = λ q. refl;
        deleted = tt;
        left = tt;
      })
  prune_each-Split count budgeted (f ∷ fs) p c b h =
      elim (Bool-cases (f.active || (is_young policy now f && fits policy count budgeted))) [
        | inl stays ↦
            let (r, run, e) =
              >>=-eq-ok (prune_each policy now count budgeted fs) (λ p. ok (keeping f p))
                (rw (prune_each, stays) at h) in
            let s =
              prune_each-Split count budgeted fs r (omega (arith, c)) (omega (arith, b)) run in
            subst (Split policy now count budgeted (f ∷ fs)) (ok-inj e) (record {
              files = s.files;
              bytes = s.bytes;
              lengths = omega (arith, s.lengths);
              costs = omega (arith, s.costs);
              sizes = omega (arith, s.sizes);
              parts = λ q. omega (arith, s.parts q);
              deleted = s.deleted;
              left = (ground arith, s.left);
            })
        | inr goes ↦
            let inactive : f.active ≡ false = ground arith in
            let (looked, h1) =
              >>-eq-ok (look_again f)
                (prune_each policy now (count - 1) (budgeted - f.size) fs >>= λ p.
                  ok (removing f p))
                (rw (prune_each, goes) at h) in
            let (r, run, e) =
              >>=-eq-ok (prune_each policy now (count - 1) (budgeted - f.size) fs)
                (λ p. ok (removing f p)) h1 in
            let own : cost f ≡ f.size = rw inactive in
            let s =
              prune_each-Split (count - 1) (budgeted - f.size) fs r (omega (arith, c))
                (omega (arith, b, own)) run in
            subst (Split policy now count budgeted (f ∷ fs)) (ok-inj e) (record {
              files = omega (arith, s.files, c);
              bytes = omega (arith, s.bytes, b, own);
              lengths = omega (arith, s.lengths);
              costs = omega (arith, s.costs, own);
              sizes = omega (arith, s.sizes);
              parts = λ q. omega (arith, s.parts q);
              deleted = ((inactive, look_again-eq-ok f looked), s.deleted);
              left = s.left;
            })
      ]
