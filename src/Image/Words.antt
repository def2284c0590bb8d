-- ===== src/Image/Words.antt =====
-- Casts between words and signed values, and single bits of a byte.
use native.Mathlib.Nat.{one-le-pow}
use ros2_wavemakers.Base.{
  IsSigned, ap, arith, clear_bit, false, negsuc, or_bit, pos, signed, test_bit, true, wrap, ℕ, ℤ,
  ◌+◌, ◌-◌, ◌/◌, ◌<◌, ◌^◌, ◌≡◌, ◌≤◌,
}

-- `static_cast<intN_t>(static_cast<uintN_t>(v))` is `v` for a value of `intN_t`.
pub signed-wrap8 : (v : ℤ) → IsSigned 256 v → signed 256 (wrap 256 v) ≡ v
signed-wrap8 (pos n) h = ground arith
signed-wrap8 (negsuc n) h = ground arith

pub signed-wrap16 : (v : ℤ) → IsSigned (2 ^ 16) v → signed (2 ^ 16) (wrap (2 ^ 16) v) ≡ v
signed-wrap16 (pos n) h = ground arith
signed-wrap16 (negsuc n) h = ground arith

pub signed-wrap32 : (v : ℤ) → IsSigned (2 ^ 32) v → signed (2 ^ 32) (wrap (2 ^ 32) v) ≡ v
signed-wrap32 (pos n) h = ground arith
signed-wrap32 (negsuc n) h = ground arith

pub wrap_lt : (m : ℕ) (v : ℤ) → 0 < m → wrap m v < m
wrap_lt m (pos n) h = grind arith
wrap_lt m (negsuc n) h = omega arith

add-div : (x p : ℕ) → 0 < p → (x + p) / p ≡ x / p + 1
add-div x p h = grind arith

sub-div : (x p : ℕ) → 0 < p → p ≤ x → (x - p) / p + 1 ≡ x / p
sub-div x p h k = rw (← add-div (x - p) p h) (ap (λ (t : ℕ). t / p) (omega arith))

-- After `| (1 << k)` the bit reads as set.
pub test_bit-or_bit : (x k : ℕ) → test_bit (or_bit x k) k ≡ true
test_bit-or_bit x k = ground (arith, add-div x (2 ^ k), one-le-pow k 2)

-- After `& ~(1 << k)` it reads as clear.
pub test_bit-clear_bit : (x k : ℕ) → test_bit (clear_bit x k) k ≡ false
test_bit-clear_bit x k = ground (arith, sub-div x (2 ^ k), one-le-pow k 2)
