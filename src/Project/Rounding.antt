-- ===== src/Project/Rounding.antt =====
-- `round(seconds, 3)` of project_contract.py, of times in microseconds.
use Prim.Native.Nat.{◌%◌}
use tugling.Prelude.{ℕ, ◌+◌, ◌-◌, ◌*◌, ◌/◌, ◌≤◌, ◌≡◌, arith, leb, ltb}

-- The nearest millisecond; an exact half goes to the even one.
unfoldable pub round_ms : ℕ → ℕ
round_ms t = (t + 499 + (t / 1000) % 2) / 1000 * 1000

-- The last time that is rounded to `t` or less.
abbrev pub last_of : ℕ → ℕ
last_of t = t / 1000 * 1000 + 500 - (t / 1000) % 2

pub round_ms_le : (s t : ℕ) → s ≤ t → round_ms s ≤ round_ms t
unfolding round_ms
round_ms_le s t h = omega (arith, h)

pub round_ms_twice : (t : ℕ) → round_ms (round_ms t) ≡ round_ms t
unfolding round_ms
round_ms_twice t = omega arith

pub leb-round_ms : (s t : ℕ) → leb (round_ms s) t ≡ leb s (last_of t)
unfolding round_ms
leb-round_ms s t = ground arith

pub ltb-round_ms : (s t : ℕ) → ltb t (round_ms s) ≡ ltb (last_of t) s
unfolding round_ms
ltb-round_ms s t = ground arith
