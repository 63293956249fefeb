-- ===== src/Project/Retention.antt =====
-- The retention of verification receipts in project_contract.py: `receipt_retention` and
-- `prune_receipts`, which deletes old receipts so that the store keeps within its limits.
pub mod Bounds
pub mod Pruning
pub mod Total
mod Examples
use tugling.Prelude.{
  ℕ, zero, suc, ◌+◌, ◌-◌, ◌*◌, max, String, Bool, true, false, not, ◌&&◌, ◌||◌, List, [], ◌∷◌,
  Option, none, some, length, all, keep, sum_of, count_of, ltb, leb, ◌==◌, if◌then◌else◌, str_eq,
}
use tugling.Prelude.Except.{Except, ok, raise, require, ◌>>=◌, ◌>>◌}

abbrev pub max_receipt_bytes : ℕ
max_receipt_bytes = 262144

pub record Retention : Type 0 where
  pub max_age_seconds : ℕ
  pub max_files : ℕ
  pub max_bytes : ℕ

pub data RetentionError : Type 0 where
  bad_age bad_files bad_bytes : RetentionError
  too_many_entries receipt_changed became_active exhausted : RetentionError

-- `receipt_retention`, of an object with the three keys.
unfoldable pub receipt_retention : Retention → Except RetentionError Retention
receipt_retention policy = do
  require (leb 1 policy.max_age_seconds && leb policy.max_age_seconds 31536000) bad_age
  require (leb 1 policy.max_files && leb policy.max_files 256) bad_files
  require (leb max_receipt_bytes policy.max_bytes && leb policy.max_bytes 67108864) bad_bytes
  ok policy

-- What the second look at a file finds, before it is deleted.
pub data Look : Type 0 where
  unchanged now_active changed : Look

-- A directory entry. `is_receipt` says that it has the name of a receipt and is a regular file of the
-- user with one link. The name is a number, in the order of names; times are in nanoseconds;
-- `swapped` says that the file that was opened is not the one that was listed.
pub record Entry : Type 0 where
  pub name : ℕ
  pub is_receipt : Bool
  pub mtime : ℕ
  pub size : ℕ
  pub active : Bool
  pub swapped : Bool
  pub look : Look

abbrev pub max_receipt_entries : ℕ
max_receipt_entries = 1024

-- The bounded scan of the directory.
unfoldable pub receipt_entries : List Entry → Except RetentionError (List Entry)
receipt_entries entries = do
  require (leb (length entries) max_receipt_entries) too_many_entries
  ok entries

-- The first loop: the receipts of the store.
unfoldable pub scan : List Entry → Except RetentionError (List Entry)
scan [] = ok []
scan (f ∷ fs) =
    let rest = scan fs in
    if f.is_receipt
    then (do require (not f.swapped) receipt_changed; receipts ← rest; ok (f ∷ receipts))
    else rest

-- The order of the keys `(st_mtime_ns, name)`.
abbrev pub is_older : Entry → Entry → Bool
is_older f g = ltb f.mtime g.mtime || ((f.mtime == g.mtime) && leb f.name g.name)

unfoldable pub insert_old : Entry → List Entry → List Entry
insert_old f [] = f ∷ []
insert_old f (g ∷ gs) = if is_older f g then f ∷ g ∷ gs else g ∷ insert_old f gs

-- `sorted(receipts, key=...)`
unfoldable pub by_age : List Entry → List Entry
unfolding insert_old
by_age [] = []
by_age (f ∷ fs) = insert_old f (by_age fs)

-- What a receipt counts for: an active one may still grow to the full size.
abbrev pub cost : Entry → ℕ
cost f = if f.active then max f.size max_receipt_bytes else f.size

-- The variables of the deleting loop, with the receipts it left and those it deleted.
pub record Pruned : Type 0 where
  pub count : ℕ
  pub budgeted : ℕ
  pub kept : List Entry
  pub removed : List Entry

abbrev pub fits : Retention → ℕ → ℕ → Bool
fits policy count budgeted = leb count policy.max_files && leb budgeted policy.max_bytes

-- `info.st_mtime > cutoff`
abbrev pub is_young : Retention → ℕ → Entry → Bool
is_young policy now f = ltb now (f.mtime + policy.max_age_seconds * 1000000000)

abbrev pub look_again : Entry → Except RetentionError (Unit {0})
look_again f = elim f.look [
  | unchanged ↦ ok tt
  | now_active ↦ raise became_active
  | changed ↦ raise receipt_changed
]

abbrev pub keeping : Entry → Pruned → Pruned
keeping f p = record p { kept = f ∷ p.kept }

abbrev pub removing : Entry → Pruned → Pruned
removing f p = record p { removed = f ∷ p.removed }

-- The loop over the sorted receipts.
unfoldable pub prune_each : Retention → ℕ → ℕ → ℕ → List Entry → Except RetentionError Pruned
prune_each policy now count budgeted [] =
    ok (record { count = count; budgeted = budgeted; kept = []; removed = [] })
prune_each policy now count budgeted (f ∷ fs) =
    elim (f.active || (is_young policy now f && fits policy count budgeted)) [
      | true ↦ do p ← prune_each policy now count budgeted fs; ok (keeping f p)
      | false ↦ do
        look_again f
        p ← prune_each policy now (count - 1) (budgeted - f.size) fs
        ok (removing f p)
    ]

pub record Report : Type 0 where
  pub removed_files : ℕ
  pub removed_bytes : ℕ
  pub retained_files : ℕ
  pub retained_bytes : ℕ
  pub active_files : ℕ
  pub budgeted_bytes : ℕ

abbrev pub report_of : List Entry → Pruned → Report
report_of receipts p = record {
  removed_files = length p.removed;
  removed_bytes = sum_of (λ f. f.size) p.removed;
  retained_files = length receipts - length p.removed;
  retained_bytes = sum_of (λ f. f.size) receipts - sum_of (λ f. f.size) p.removed;
  active_files = count_of (λ f. f.active) receipts;
  budgeted_bytes = p.budgeted;
}

-- `int(reserve)`
abbrev pub reserved : Bool → ℕ
reserved reserve = if reserve then 1 else 0

-- `prune_receipts`: its report, and the receipts it left and deleted.
unfoldable pub prune_receipts :
    Retention → ℕ → Bool → List Entry → Except RetentionError (Report × Pruned)
unfolding receipt_entries scan by_age prune_each
prune_receipts policy now reserve entries = do
  names ← receipt_entries entries
  receipts ← scan names
  p ←
      prune_each policy now (length receipts + reserved reserve)
        (sum_of cost receipts + reserved reserve * max_receipt_bytes) (by_age receipts)
  require (fits policy p.count p.budgeted) exhausted
  ok (report_of receipts p, p)
