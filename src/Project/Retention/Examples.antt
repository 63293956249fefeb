-- ===== src/Project/Retention/Examples.antt =====
-- A concrete store of receipts of project_contract.py: tests, and each theorem's use on it.
use tugling.Prelude.{arith, ℕ, zero, suc, ◌*◌, Bool, true, false, List, [], ◌∷◌, ◌≡◌, refl}
use tugling.Prelude.Except.{ok, raise}
use tugling.Project.Retention.{
  Retention, receipt_retention, unchanged, Entry, Pruned, Report, prune_receipts, exhausted,
  too_many_entries,
}
use tugling.Project.Retention.Pruning.{IsWithin, prune_receipts-IsWithin}
use tugling.Project.Retention.Total.{prune_receipts_total}

abbrev policy : Retention
policy = record { max_age_seconds = 10; max_files = 2; max_bytes = 524288 }

abbrev receipt : ℕ → ℕ → Bool → Entry
receipt name seconds active = record {
  name = name;
  is_receipt = true;
  mtime = seconds * 1000000000;
  size = 1000;
  active = active;
  swapped = false;
  look = unchanged;
}

-- At second 20: one receipt is too old, one is in the way of the reserved one.
abbrev store : List Entry
store = receipt 1 15 false ∷ receipt 2 5 false ∷ receipt 3 16 false ∷ []

abbrev pruned : Pruned
pruned = record {
  count = 2;
  budgeted = 263144;
  kept = receipt 3 16 false ∷ [];
  removed = receipt 2 5 false ∷ receipt 1 15 false ∷ [];
}

abbrev report : Report
report = record {
  removed_files = 2;
  removed_bytes = 2000;
  retained_files = 1;
  retained_bytes = 1000;
  active_files = 0;
  budgeted_bytes = 263144;
}

prunes_two : prune_receipts policy 20000000000 true store ≡ ok (report, pruned)
unfolding prune_receipts
prunes_two = refl

abbrev copies : ℕ → List Entry
copies zero = []
copies (suc n) = receipt 1 15 false ∷ copies n

-- A directory of more than 1024 entries is not scanned.
full_directory_refused :
    prune_receipts policy 20000000000 true (copies 1025) ≡ raise too_many_entries
unfolding prune_receipts
full_directory_refused = refl

-- Active receipts are never deleted, so they can leave no room.
active_receipts_stay :
    prune_receipts policy 20000000000 true (receipt 1 15 true ∷ receipt 2 5 true ∷ [])
    ≡ raise exhausted
unfolding prune_receipts
active_receipts_stay = refl

prune_receipts-IsWithin_example : IsWithin policy 20000000000 true store report pruned
prune_receipts-IsWithin_example =
    prune_receipts-IsWithin policy 20000000000 true store report pruned prunes_two

policy_accepted : receipt_retention policy ≡ ok policy
unfolding receipt_retention
policy_accepted = refl

prune_receipts_total_example :
    (r : Report) × (p : Pruned) × (prune_receipts policy 20000000000 true store ≡ ok (r, p))
prune_receipts_total_example =
    prune_receipts_total policy policy 20000000000 true store policy_accepted (omega arith)
      ((refl, refl, refl), ((refl, refl, refl), ((refl, refl, refl), tt)))
