-- ===== src/Prelude/Words.antt =====
-- `usize` on a 64-bit target: saturating and wrapping operations.
use native.Mathlib.Omega.{arith}
use Prim.Native.Nat.{◌≤◌, ℕ, ◌+◌, ◌-◌, ◌*◌, ◌%◌, ◌^◌, min}

abbrev pub word : ℕ
word = 2 ^ 64

abbrev pub usize_max : ℕ
usize_max = 2 ^ 64 - 1

-- `a.saturating_add(b)`, `a.saturating_mul(b)`.
abbrev pub sat_add : ℕ → ℕ → ℕ
sat_add a b = min (a + b) usize_max

abbrev pub sat_mul : ℕ → ℕ → ℕ
sat_mul a b = min (a * b) usize_max

-- Plain `+` and `*`, which wrap in a release build.
abbrev pub wrap : ℕ → ℕ
wrap n = n % word

pub le_mul : (a b n : ℕ) → a ≤ b → a * n ≤ b * n
le_mul a b n h = grind arith
