-- ===== src/Prelude/Names.antt =====
-- Lists of names: membership, distinctness, and a measure on the names not yet seen.
use Prim.Native.Nat.{ℕ, ◌≤◌, ◌<◌}
use Prim.Native.String.{String}
use mathlib.Core.Path.{◌≡◌, refl}
use mathlib.Core.Bool.{Bool, true, false, not, ◌&&◌, ◌||◌}
use mathlib.Core.List.{List, [], ◌∷◌, ◌++◌}
use native.Mathlib.Omega.{arith}
use text.Mathlib.Text.{◌==◌ as str_eq}
use text.Mathlib.TextEquality.{eq_iff}
use text.Mathlib.TextPositions.{eq_refl}
use tugling.Prelude.Lists.{length, count_of}

-- `x in xs`
abbrev pub elem : String → List String → Bool
elem x [] = false
elem x (y ∷ ys) = str_eq x y || elem x ys

-- `len(set(xs)) == len(xs)`
abbrev pub distinct : List String → Bool
distinct [] = true
distinct (x ∷ xs) = not (elem x xs) && distinct xs

pub elem-append : (x : String) (xs ys : List String) → elem x (xs ++ ys) ≡ (elem x xs || elem x ys)
elem-append x [] ys = refl
elem-append x (y ∷ xs) ys = ground (arith, elem-append x xs ys)

-- How many of `ids` are not in `seen`.
abbrev pub unseen : List String → List String → ℕ
unseen seen = count_of (λ x. not (elem x seen))

pub unseen-cons_le : (x : String) (seen ids : List String) → unseen (x ∷ seen) ids ≤ unseen seen ids
unseen-cons_le x seen [] = omega arith
unseen-cons_le x seen (y ∷ ids) = ground (arith, unseen-cons_le x seen ids)

-- To see one more of the names leaves fewer unseen.
pub unseen-cons_lt :
    (x : String) (seen ids : List String)
    → elem x ids ≡ true
    → elem x seen ≡ false
    → unseen (x ∷ seen) ids < unseen seen ids
unseen-cons_lt x seen [] m h = ground arith
unseen-cons_lt x seen (y ∷ ids) m h =
    ground (
      arith,
      eq_iff x y,
      eq_iff y x,
      eq_refl x,
      unseen-cons_le x seen ids,
      unseen-cons_lt x seen ids,
    )

pub unseen-le-length : (seen ids : List String) → unseen seen ids ≤ length ids
unseen-le-length seen [] = omega arith
unseen-le-length seen (x ∷ ids) = ground (arith, unseen-le-length seen ids)
