-- ===== src/Prelude/Equality.antt =====
-- `==` of Python on values that compare by their parts, from decidable equality.

use Prim.Native.String.{String}
use mathlib.Core.Path.{◌≡◌, refl}
use mathlib.Core.Logic.{◌↔◌}
use mathlib.Core.Bool.{Bool, true, false}
use native.Mathlib.Decide.{ℕ_discrete}
use native.Mathlib.Omega.{arith}
use text.Mathlib.Text.{◌==◌ as str_eq}
use text.Mathlib.TextEquality.{eq_iff}
use tugling.Prelude.Int.{ℤ}

unfoldable pub String-discrete : Discrete String
String-discrete s t = from_test (str_eq s t) (eq_iff s t)
  where
    from_test : (b : Bool) → (b ≡ true) ↔ (s ≡ t) → Dec (s ≡ t)
    from_test true h = yes (h.0 refl)
    from_test false h = no (λ e. cc (h.1 e))

unfoldable pub ℤ-discrete : Discrete ℤ
ℤ-discrete = hlevel ℕ_discrete

-- A type with the equality test of its values.
pub record Eq {ℓ} (A : Type ℓ) : Type ℓ where
  pub discrete : Discrete A

unfoldable pub same {ℓ} : {A : Type ℓ} ⦃e : Eq A⦄ → A → A → Bool
same ⦃e⦄ a b = elim (e.discrete a b) [ yes h ↦ true | no h ↦ false ]

pub same-eq {ℓ} : {A : Type ℓ} ⦃e : Eq A⦄ (a b : A) → same a b ≡ true → a ≡ b
unfolding same
same-eq ⦃e⦄ a b h = elim (e.discrete a b) [ yes p ↦ p | no n ↦ absurd (ground arith) ]

pub same_refl {ℓ} : {A : Type ℓ} ⦃e : Eq A⦄ (a : A) → same a a ≡ true
unfolding same
same_refl ⦃e⦄ a = elim (e.discrete a a) as (λ d. elim d [ yes h ↦ true | no h ↦ false ] ≡ true) [
  | yes p ↦ refl
  | no n ↦ absurd (n refl)
]
