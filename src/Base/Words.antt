-- ===== src/Base/Words.antt =====
-- Fixed-width words as native numbers: wrap by `%`, shift by `/` and `*`, and the bit operations
-- that the program makes, in the form that arithmetic reads. The tables at the end compare these
-- with the native bit operations on every byte.
use Prim.Native.Nat.{ℕ, zero, suc, ◌+◌, ◌-◌, ◌*◌, ◌/◌, ◌%◌, ◌^◌, ◌<◌, bit_and, bit_or, bit_xor}
use mathlib.Core.Path.{◌≡◌, refl}
use mathlib.Core.Bool.{Bool, true, ◌&&◌}
use ros2_wavemakers.Base.Tests.{ltb, ◌==◌, if◌then◌else◌}
use ros2_wavemakers.Base.Int.{ℤ, pos, negsuc}

abbrev pub u8 : ℕ → ℕ
u8 n = n % 256

abbrev pub u16 : ℕ → ℕ
u16 n = n % 65536

abbrev pub u32 : ℕ → ℕ
u32 n = n % 2 ^ 32

abbrev pub u64 : ℕ → ℕ
u64 n = n % 2 ^ 64

-- The high and low byte of a 16-bit word, and the word of two bytes.
abbrev pub hi_byte : ℕ → ℕ
hi_byte v = v / 256 % 256

abbrev pub lo_byte : ℕ → ℕ
lo_byte v = v % 256

abbrev pub word : ℕ → ℕ → ℕ
word hi lo = hi * 256 + lo

-- `(x >> k) & 1`.
abbrev pub bit_at : ℕ → ℕ → ℕ
bit_at x k = x / 2 ^ k % 2

abbrev pub test_bit : ℕ → ℕ → Bool
test_bit x k = bit_at x k == 1

-- `x | (1 << k)` and `x & ~(1 << k)`.
abbrev pub or_bit : ℕ → ℕ → ℕ
or_bit x k = if test_bit x k then x else x + 2 ^ k

abbrev pub clear_bit : ℕ → ℕ → ℕ
clear_bit x k = if test_bit x k then x - 2 ^ k else x

-- `x & mask` where the mask is `width` ones from bit `low` on.
abbrev pub mask_field : ℕ → ℕ → ℕ → ℕ
mask_field x low width = x / 2 ^ low % 2 ^ width * 2 ^ low

-- `static_cast<uintN_t>` of a signed value, with `m` = 2 ^ N.
abbrev pub wrap : ℕ → ℤ → ℕ
wrap m (pos n) = n % m
wrap m (negsuc n) = m - 1 - n % m

-- `static_cast<intN_t>` of a word below `m` = 2 ^ N.
abbrev pub signed : ℕ → ℕ → ℤ
signed m w = if ltb (2 * w) m then pos w else negsuc (m - 1 - w)

-- The values of `intN_t`.
abbrev pub IsSigned : ℕ → ℤ → Type 0
IsSigned m (pos n) = 2 * n < m
IsSigned m (negsuc n) = 2 * n < m

all_below : ℕ → (ℕ → Bool) → Bool
all_below zero p = true
all_below (suc n) p = p n && all_below n p

bit_tables :
    all_below 8 (λ k. all_below 256 (λ x.
      or_bit x k == bit_or x (2 ^ k)
      && clear_bit x k == bit_and x (bit_xor 255 (2 ^ k))
      && bit_at x k == bit_and (x / 2 ^ k) 1
      && mask_field x k 2 == bit_and x (3 * 2 ^ k)))
    ≡ true
unfolding all_below
bit_tables = refl

word_table : all_below 256 (λ x. word x 0x5a == bit_or (x * 256) 0x5a) ≡ true
unfolding all_below
word_table = refl
