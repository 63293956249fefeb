-- ===== src/Project/Retention/Pruning.antt =====
-- What `prune_receipts` of project_contract.py guarantees of the store, and when it succeeds.
use tugling.Prelude.{
  if_true, if_false, ℕ, ◌+◌, ◌*◌, ◌≤◌, Bool, true, false, not, leb, List, [], ◌∷◌, ◌≡◌, sym, ap,
  ◌∙◌, subst, arith, ◌⊎◌, inl, inr, length, sum_of, count_of, All, Bool-cases,
}
use tugling.Prelude.Except.{ok, >>=-eq-ok, require-eq-ok, ok-inj, ◌>>=◌}
use tugling.Project.Retention.{
  max_receipt_bytes, Retention, unchanged, Entry, scan, by_age, cost, Pruned, fits, is_young,
  prune_each, Report, report_of, reserved, prune_receipts, receipt_changed, exhausted,
  receipt_entries, max_receipt_entries, too_many_entries,
}
use tugling.Prelude.{keep}
use tugling.Project.Retention.Bounds.{prune_each-Split, by_age-sum, by_age-count, by_age-length}

scan-eq-ok :
    (fs receipts : List Entry) → scan fs ≡ ok receipts → receipts ≡ keep (λ f. f.is_receipt) fs
unfolding scan
scan-eq-ok [] receipts h = sym (ok-inj h)
scan-eq-ok (f ∷ fs) receipts h = elim (Bool-cases f.is_receipt) [
  | inl one ↦
      let (same, h1) =
        require-eq-ok (not f.swapped) receipt_changed (scan fs >>= λ rest. ok (f ∷ rest))
          (sym (if_true f.is_receipt _ _ one) ∙ h) in
      let (rest, more, e) = >>=-eq-ok (scan fs) (λ rest. ok (f ∷ rest)) h1 in
      sym (ok-inj e)
      ∙ ap (λ l. f ∷ l) (scan-eq-ok fs rest more)
      ∙ sym (if_true f.is_receipt _ _ one)
  | inr other ↦
      scan-eq-ok fs receipts (sym (if_false f.is_receipt _ _ other) ∙ h)
      ∙ sym (if_false f.is_receipt _ _ other)
]

entries-eq-ok :
    (entries listing : List Entry) → receipt_entries entries ≡ ok listing → entries ≡ listing
unfolding receipt_entries
entries-eq-ok entries listing h =
    ok-inj (require-eq-ok (leb (length entries) max_receipt_entries) too_many_entries _ h).1

-- What a pruned store is like.
pub record IsWithin (policy : Retention) (now : ℕ) (reserve : Bool) (entries : List Entry)
    (report : Report) (p : Pruned) : Type 0 where
  pub files : length p.kept + reserved reserve ≤ policy.max_files
  pub bytes : sum_of cost p.kept + reserved reserve * max_receipt_bytes ≤ policy.max_bytes
  pub retained_files : report.retained_files ≡ length p.kept
  pub retained_bytes : report.retained_bytes ≡ sum_of (λ f. f.size) p.kept
  pub budgeted : report.budgeted_bytes ≡ sum_of cost p.kept + reserved reserve * max_receipt_bytes
  pub parts :
      (q : Entry → Bool)
      → count_of q p.kept + count_of q p.removed ≡ count_of q (keep (λ f. f.is_receipt) entries)
  pub deleted : All (λ f. (f.active ≡ false) × (f.look ≡ unchanged)) p.removed
  pub left : All (λ f. (f.active ≡ true) ⊎ (is_young policy now f ≡ true)) p.kept

-- Where pruning succeeds, the receipts are divided into those it left and those it deleted, the
-- ones left and the reserved one are within both limits, with an active one counted at its full
-- size, the report has their true number and bytes, only inactive receipts that did not change were
-- deleted, and each one left is active or young.
pub prune_receipts-IsWithin :
    (policy : Retention) (now : ℕ) (reserve : Bool) (entries : List Entry) (report : Report)
    (p : Pruned)
    → prune_receipts policy now reserve entries ≡ ok (report, p)
    → IsWithin policy now reserve entries report p
unfolding prune_receipts
prune_receipts-IsWithin policy now reserve entries report p h =
    let (listing, listed_all, h0) = >>=-eq-ok (receipt_entries entries) _ h in
    let (receipts, scanned, h1) = >>=-eq-ok (scan listing) _ h0 in
    let found =
      subst (λ l. scan l ≡ ok receipts) (sym (entries-eq-ok entries listing listed_all)) scanned in
    let (q, run, h2) =
      >>=-eq-ok
        (prune_each policy now (length receipts + reserved reserve)
          (sum_of cost receipts + reserved reserve * max_receipt_bytes) (by_age receipts))
        _ h1 in
    let (within, h3) =
      require-eq-ok (fits policy q.count q.budgeted) exhausted (ok (report_of receipts q, q)) h2 in
    let same : q ≡ p = ap (λ x. x.1) (ok-inj h3) in
    let told : report_of receipts q ≡ report = ap (λ x. x.0) (ok-inj h3) in
    let listed = scan-eq-ok entries receipts found in
    let s =
      prune_each-Split policy now _ _ (by_age receipts) q (omega (arith, by_age-length receipts))
        (omega (arith, by_age-sum cost receipts)) run in
    let low_files : q.count ≤ policy.max_files = ground arith in
    let low_bytes : q.budgeted ≤ policy.max_bytes = ground arith in
    let total : sum_of (λ (f : Entry). f.size) q.kept + sum_of (λ (f : Entry). f.size) q.removed
        ≡ sum_of (λ (f : Entry). f.size) receipts =
      s.sizes ∙ by_age-sum (λ f. f.size) receipts in
    let sized : length q.kept + length q.removed ≡ length receipts =
      s.lengths ∙ by_age-length receipts in
    let priced : sum_of cost q.kept + sum_of (λ (f : Entry). f.size) q.removed
        ≡ sum_of cost receipts =
      s.costs ∙ by_age-sum cost receipts in
    subst (λ r. IsWithin policy now reserve entries r p) told
      (subst (λ x. IsWithin policy now reserve entries (report_of receipts q) x) same
        (record {
          files = omega (arith, s.files, sized, low_files);
          bytes = omega (arith, s.bytes, priced, low_bytes);
          retained_files = omega (arith, sized);
          retained_bytes = omega (arith, total);
          budgeted = omega (arith, s.bytes, priced);
          parts = λ t. s.parts t ∙ by_age-count t receipts ∙ ap (count_of t) listed;
          deleted = s.deleted;
          left = s.left;
        }))
