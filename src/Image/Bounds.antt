-- ===== src/Image/Bounds.antt =====
-- Bounds checks, the size of the area and the range of its bytes.
use ros2_wavemakers.Base.{
  ap, arith, length, le→ltb-false, ok, refl, suc, u64, zero, ℕ, ◌+◌, ◌<◌, ◌^◌, ◌↔◌, ◌≡◌, ◌≤◌,
}
use ros2_wavemakers.Image.Access.{ProcessImage, access, check}
use ros2_wavemakers.Image.Order.{u64_to_be}

-- `len` bytes from `off` on lie in the area, whose size is a `size_t`.
pub record Fits (buf : ProcessImage) (off len : ℕ) : Type 0 where
  pub inside : off + len ≤ length buf
  pub size : length buf < 2 ^ 64

pub check-Fits : {buf : ProcessImage} {off len : ℕ} → Fits buf off len → check buf off len ≡ ok tt
unfolding check
check-Fits {buf} {off} {len} f = rw (le→ltb-false _ _ below)
  where
    below : u64 (off + len) ≤ length buf
    below = omega arith

pub access-Fits : {buf : ProcessImage} {off len : ℕ} → Fits buf off len → access buf off len ≡ ok tt
unfolding access
access-Fits f = rw (check-Fits f, le→ltb-false _ _ f.inside)

-- Where `off + len` does not wrap, the check passes exactly for the accesses inside the area.
pub check_iff :
    (buf : ProcessImage) (off len : ℕ)
    → off + len < 2 ^ 64
    → (check buf off len ≡ ok tt) ↔ (off + len ≤ length buf)
unfolding check
check_iff buf off len h = ground arith

-- Where the sum wraps, the check passes for every offset below 2 ^ 64 and every length up to the
-- size of the area, although the access runs past 2 ^ 64.
pub check_wraps :
    (buf : ProcessImage) (off len : ℕ)
    → off < 2 ^ 64
    → len ≤ length buf
    → 2 ^ 64 ≤ off + len
    → check buf off len ≡ ok tt
unfolding check
check_wraps buf off len h fits wraps = rw (le→ltb-false _ _ below)
  where
    below : u64 (off + len) ≤ length buf
    below = omega arith

pub length-u64_to_be : (v n : ℕ) → length (u64_to_be v n) ≡ n
unfolding u64_to_be
length-u64_to_be v zero = refl
length-u64_to_be v (suc n) = ap suc (length-u64_to_be v n)
