-- ===== src/Project/Retention/Total.antt =====
-- When `prune_receipts` of project_contract.py succeeds.
use tugling.Prelude.{
  if_true, if_false, ℕ, ◌+◌, ◌-◌, ◌*◌, ◌≤◌, Bool, true, false, ◌&&◌, ◌||◌, List, [], ◌∷◌, ◌≡◌, refl,
  sym, ap, ◌∙◌, subst, arith, inl, inr, length, sum_of, All, leb, Bool-cases, if_ind,
}
use tugling.Prelude.Except.{ok, >>=-eq-ok, >>-eq-ok, require-eq-ok, ok-inj, ◌>>=◌}
use tugling.Project.Retention.{
  max_receipt_bytes, Retention, receipt_retention, unchanged, Entry, scan, is_older, insert_old,
  by_age, cost, Pruned, fits, is_young, look_again, prune_each, Report, report_of, reserved,
  prune_receipts, keeping, removing, receipt_entries,
}
use tugling.Project.Retention.Bounds.{prune_each-Split, by_age-sum, by_age-length}

-- A file that nobody holds or touches.
abbrev pub IsQuiet : Entry → Type 0
IsQuiet f = (f.active ≡ false) × (f.look ≡ unchanged) × (f.swapped ≡ false)

scan_total :
    (fs : List Entry)
    → All IsQuiet fs
    → (receipts : List Entry) × (scan fs ≡ ok receipts) × All IsQuiet receipts
unfolding scan
scan_total [] h = ([], refl, tt)
scan_total (f ∷ fs) ((a, l, w), more) =
    let (rest, found, quiet) = scan_total fs more in
    elim (Bool-cases f.is_receipt) [
      | inl one ↦ (f ∷ rest, if_true f.is_receipt _ _ one ∙ rw (w, found), ((a, l, w), quiet))
      | inr other ↦ (rest, if_false f.is_receipt _ _ other ∙ found, quiet)
    ]

insert_old-All :
    (P : Entry → Type 0) (f : Entry) (fs : List Entry) → P f → All P fs → All P (insert_old f fs)
unfolding insert_old
insert_old-All P f [] p h = (p, tt)
insert_old-All P f (g ∷ fs) p (q, more) =
    if_ind (All P) (is_older f g) _ _ (λ older. (p, (q, more)))
      (λ younger. (q, insert_old-All P f fs p more))

by_age-All : (P : Entry → Type 0) (fs : List Entry) → All P fs → All P (by_age fs)
unfolding by_age
by_age-All P [] h = tt
by_age-All P (f ∷ fs) (p, more) = insert_old-All P f (by_age fs) p (by_age-All P fs more)

module _ (policy : Retention) (now : ℕ) where
  prune_each_total :
      (count budgeted : ℕ) (fs : List Entry)
      → All IsQuiet fs
      → (p : Pruned) × (prune_each policy now count budgeted fs ≡ ok p)
  unfolding prune_each
  prune_each_total count budgeted [] h = (_, refl)
  prune_each_total count budgeted (f ∷ fs) ((a, l, w), more) =
      elim (Bool-cases (f.active || (is_young policy now f && fits policy count budgeted))) [
        | inl stays ↦
            let (r, run) = prune_each_total count budgeted fs more in
            (keeping f r, rw (prune_each, stays, run))
        | inr goes ↦
            let (r, run) = prune_each_total (count - 1) (budgeted - f.size) fs more in
            (removing f r, rw (prune_each, goes, l, run))
      ]

  -- Where the counters end above a limit, the loop has left nothing.
  prune_each_unfit :
      (count budgeted : ℕ) (fs : List Entry) (p : Pruned)
      → All IsQuiet fs
      → length fs ≤ count
      → sum_of cost fs ≤ budgeted
      → prune_each policy now count budgeted fs ≡ ok p
      → fits policy p.count p.budgeted ≡ false
      → (length p.kept ≡ 0) × (sum_of cost p.kept ≡ 0)
  unfolding prune_each
  prune_each_unfit count budgeted [] p q c b h bad =
      let e : Path Pruned _ p = ok-inj h in
      (ap (λ x. length x.kept) (sym e), ap (λ x. sum_of cost x.kept) (sym e))
  prune_each_unfit count budgeted (f ∷ fs) p ((a, l, w), more) c b h bad =
      elim (Bool-cases (f.active || (is_young policy now f && fits policy count budgeted))) [
        | inl stays ↦
            let s = prune_each-Split policy now count budgeted (f ∷ fs) p c b h in
            absurd (ground (arith, s.files, s.bytes))
        | inr goes ↦
            let (looked, h1) =
              >>-eq-ok (look_again f)
                (prune_each policy now (count - 1) (budgeted - f.size) fs >>= λ p.
                  ok (removing f p))
                (rw (prune_each, goes) at h) in
            let (r, run, e) =
              >>=-eq-ok (prune_each policy now (count - 1) (budgeted - f.size) fs)
                (λ p. ok (removing f p)) h1 in
            let own : cost f ≡ f.size = rw a in
            let same : removing f r ≡ p = ok-inj e in
            let (x, y) =
              prune_each_unfit (count - 1) (budgeted - f.size) fs r more (omega (arith, c))
                (omega (arith, b, own)) run
                (subst (λ z. fits policy z.count z.budgeted ≡ false) (sym same) bad) in
            (ap (λ z. length z.kept) (sym same) ∙ x, ap (λ z. sum_of cost z.kept) (sym same) ∙ y)
      ]

abbrev count_fits : Retention → Pruned → Bool
count_fits policy p = fits policy p.count p.budgeted

within :
    (policy : Retention) (now : ℕ) (reserve : Bool) (receipts : List Entry) (p : Pruned)
    → 1 ≤ policy.max_files
    → 262144 ≤ policy.max_bytes
    → All IsQuiet (by_age receipts)
    → prune_each policy now
        (length receipts + reserved reserve)
        (sum_of cost receipts + reserved reserve * max_receipt_bytes)
        (by_age receipts)
      ≡ ok p
    → count_fits policy p ≡ true
within policy now reserve receipts p some_files some_bytes sorted run =
    elim (Bool-cases (count_fits policy p)) [
      | inl good ↦ good
      | inr bad ↦
          let c : length (by_age receipts) ≤ length receipts + reserved reserve =
            omega (arith, by_age-length receipts) in
          let b : sum_of cost (by_age receipts)
              ≤ sum_of cost receipts + reserved reserve * max_receipt_bytes =
            omega (arith, by_age-sum cost receipts) in
          let (x, y) = prune_each_unfit policy now _ _ (by_age receipts) p sorted c b run bad in
          let s = prune_each-Split policy now _ _ (by_age receipts) p c b run in
          let one : reserved reserve ≤ 1 =
            if_ind (λ n. n ≤ 1) reserve 1 0 (λ _. omega arith) (λ _. omega arith) in
          let few : p.count ≤ 1 =
            omega (arith, s.files, s.lengths, by_age-length receipts, x, one) in
          let little : p.budgeted ≤ 262144 =
            omega (arith, s.bytes, s.costs, by_age-sum cost receipts, y, one) in
          absurd (ground arith)
    ]

-- With an accepted policy, a directory of at most 1024 entries, and no entry that another process
-- holds or changes, pruning succeeds, also with one receipt reserved.
pub prune_receipts_total :
    (given policy : Retention) (now : ℕ) (reserve : Bool) (entries : List Entry)
    → receipt_retention given ≡ ok policy
    → length entries ≤ 1024
    → All IsQuiet entries
    → (report : Report) × (p : Pruned) × (prune_receipts policy now reserve entries
        ≡ ok (report, p))
unfolding receipt_retention prune_receipts receipt_entries
prune_receipts_total given policy now reserve entries accepted few quiet =
    let (_, h1) =
      require-eq-ok (leb 1 given.max_age_seconds && leb given.max_age_seconds 31536000) _ _
        accepted in
    let (files, h2) = require-eq-ok (leb 1 given.max_files && leb given.max_files 256) _ _ h1 in
    let (bytes, h3) =
      require-eq-ok (leb max_receipt_bytes given.max_bytes && leb given.max_bytes 67108864) _ _
        h2 in
    let same : given ≡ policy = ok-inj h3 in
    let some_files : 1 ≤ policy.max_files = subst (λ g. 1 ≤ g.max_files) same (ground arith) in
    let some_bytes : 262144 ≤ policy.max_bytes =
      subst (λ g. 262144 ≤ g.max_bytes) same (ground arith) in
    let (receipts, found, calm) = scan_total entries quiet in
    let count = length receipts + reserved reserve in
    let budgeted = sum_of cost receipts + reserved reserve * max_receipt_bytes in
    let sorted = by_age-All IsQuiet receipts calm in
    let (p, run) = prune_each_total policy now count budgeted (by_age receipts) sorted in
    let low : count_fits policy p ≡ true =
      within policy now reserve receipts p some_files some_bytes sorted run in
    let bounded : leb (length entries) 1024 ≡ true = ground arith in
    (report_of receipts p, p, rw (bounded, found, run, low))
