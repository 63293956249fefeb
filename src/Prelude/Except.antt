-- ===== src/Prelude/Except.antt =====
-- Fallible computations over a type of errors: a `raise` is a value, and `do` blocks sequence.
use mathlib.Core.Path.{◌≡◌, refl}
use mathlib.Core.Logic.{◌⊎◌, inl, inr}
use mathlib.Core.Bool.{Bool, true, false}

pub data Except {ℓ} (E : Type 0) (A : Type ℓ) : Type ℓ where
  ok : A → Except E A
  raise : E → Except E A

infixl 5 ◌>>=◌ ◌>>◌
abbrev pub ◌>>=◌ {ℓ κ} :
    {E : Type 0} {A : Type ℓ} {B : Type κ} → Except E A → (A → Except E B) → Except E B
ok a >>= f = f a
raise e >>= f = raise e

abbrev pub ◌>>◌ {ℓ} : {E : Type 0} {B : Type ℓ} → Except E (Unit {0}) → Except E B → Except E B
m >> k = m >>= λ _. k

-- `if not b: raise ...`
abbrev pub require : {E : Type 0} → Bool → E → Except E (Unit {0})
require true e = ok tt
require false e = raise e

pub >>=-eq-ok {ℓ κ} :
    {E : Type 0} {A : Type ℓ} {B : Type κ} (run : Except E A) (k : A → Except E B) {b : B}
    → (run >>= k) ≡ ok b
    → (a : A) × (run ≡ ok a) × (k a ≡ ok b)
>>=-eq-ok (ok a) k h = (a, refl, h)
>>=-eq-ok (raise e) k h = cc

pub require-eq-ok {ℓ} :
    {E : Type 0} {B : Type ℓ} (b : Bool) (e : E) (k : Except E B) {r : B}
    → (require b e >> k) ≡ ok r
    → (b ≡ true) × (k ≡ ok r)
require-eq-ok true e k h = (refl, h)
require-eq-ok false e k h = absurd (cc)

pub require-ok :
    {E : Type 0} (b : Bool) (e : E) → Path (Except E (Unit {0})) (require b e) (ok tt) → b ≡ true
require-ok true e h = refl
require-ok false e h = absurd (cc)

pub >>-eq-ok {ℓ} :
    {E : Type 0} {B : Type ℓ} (m : Except E (Unit {0})) (k : Except E B) {r : B}
    → (m >> k) ≡ ok r
    → (m ≡ ok tt) × (k ≡ ok r)
>>-eq-ok (ok u) k h = (refl, h)
>>-eq-ok (raise e) k h = absurd (cc)

-- A sequence that fails holds a step that fails.
pub >>=-eq-err {ℓ κ} :
    {E : Type 0} {A : Type ℓ} {B : Type κ} (m : Except E A) (f : A → Except E B) {e : E}
    → (m >>= f) ≡ raise e
    → (m ≡ raise e) ⊎ ((a : A) × (m ≡ ok a) × (f a ≡ raise e))
>>=-eq-err (ok a) f h = inr (a, refl, h)
>>=-eq-err (raise e) f h = inl (cc)

pub ok-inj {ℓ} : {E : Type 0} {A : Type ℓ} {a b : A} → Path (Except E A) (ok a) (ok b) → a ≡ b
ok-inj h = cc

-- The inversions with a continuation, which sees the parts as variables.
pub >>=-ok-then {ℓ κ μ} :
    {E : Type 0} {A : Type ℓ} {B : Type κ} {P : Type μ} (run : Except E A) (k : A → Except E B)
    {b : B}
    → (run >>= k) ≡ ok b
    → ((a : A) → run ≡ ok a → k a ≡ ok b → P)
    → P
>>=-ok-then (ok a) k h then_ = then_ a refl h
>>=-ok-then (raise e) k h then_ = absurd (cc)
