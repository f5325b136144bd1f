-- ===== src/Prelude/Words.antt =====
-- The saturating operations of Rust's unsigned integers. A value is a plain number; its range is
-- stated where a property needs it.
use Prim.Native.Nat.{ℕ, ◌+◌, ◌*◌, ◌^◌, min}

abbrev pub u32_max : ℕ
u32_max = 4294967295

abbrev pub u64_max : ℕ
u64_max = 18446744073709551615

-- `a.saturating_add(b)` and `a.saturating_mul(b)` at a type whose largest value is `top`.
abbrev pub saturating_add : ℕ → ℕ → ℕ → ℕ
saturating_add top a b = min (a + b) top

abbrev pub saturating_mul : ℕ → ℕ → ℕ → ℕ
saturating_mul top a b = min (a * b) top

-- `2.saturating_pow(n)`.
abbrev pub saturating_pow2 : ℕ → ℕ → ℕ
saturating_pow2 top n = min (2 ^ n) top
