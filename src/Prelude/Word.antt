-- ===== src/Prelude/Word.antt =====
-- `unsigned int` of 32 bits: arithmetic wraps round.
use izem.Prelude.{ℕ, ◌+◌, ◌-◌, ◌%◌, ◌^◌, ◌≤◌, ◌<◌, ◌≡◌, arith}

abbrev pub u32_mod : ℕ
u32_mod = 2 ^ 32

abbrev pub u32 : ℕ → ℕ
u32 n = n % 2 ^ 32

-- `a - b` of two words.
abbrev pub sub32 : ℕ → ℕ → ℕ
sub32 a b = (a + 2 ^ 32 - b) % 2 ^ 32

-- Counts that are less than a full turn apart are equal if their words are.
pub u32_injective : (a b : ℕ) → a ≤ b → b < a + 2 ^ 32 → u32 a ≡ u32 b → a ≡ b
u32_injective a b le lt e = omega arith

pub sub32_lem : (a b : ℕ) → b ≤ a → a < b + 2 ^ 32 → sub32 (u32 a) (u32 b) ≡ a - b
sub32_lem a b le lt = omega arith
