-- ===== src/Mem/Bits.antt =====
-- The bit operations of the macro roundup32 of src/engine/base/idarray.h.
use ats.Base.{ℕ, zero, suc, ◌+◌, ◌/◌, ◌≤◌, arith}
use Prim.Native.Nat.{max, bit_or, digits, bit_or-bitwise}

-- The recursion over binary digits that `bit_or` stands for has the bounds, with digits enough.
digits_bounds :
    (n a b : ℕ) → a ≤ n → (a ≤ digits (λ b. b) max n a b) × (digits (λ b. b) max n a b ≤ a + b)
digits_bounds zero zero b h = (omega arith, omega arith)
digits_bounds zero (suc a) b h = absurd (omega arith)
digits_bounds (suc n) zero b h = (omega arith, omega arith)
digits_bounds (suc n) (suc a) b h =
    let (lo, hi) = digits_bounds n (suc a / 2) (b / 2) (omega arith) in
    (omega (arith, lo), omega (arith, hi))

-- An or has at least the bits of its first argument, and no more than a sum.
pub bit_or_bounds : (a b : ℕ) → (a ≤ bit_or a b) × (bit_or a b ≤ a + b)
bit_or_bounds a b =
    let (lo, hi) = digits_bounds a a b (omega arith) in
    (omega (arith, bit_or-bitwise a b, lo), omega (arith, bit_or-bitwise a b, hi))
