-- ===== src/Image/RoundTrip.antt =====
-- Reading back what was written.
use ros2_wavemakers.Base.{
  arith, length, length-overwrite, ok, overwrite, slice, slice-overwrite_self, subst, ℕ, ◌<◌, ◌^◌,
  ◌∙◌, ◌≡◌,
}
use ros2_wavemakers.Image.Access.{ProcessImage, get_be, set_be}
use ros2_wavemakers.Image.Bounds.{Fits, access-Fits, length-u64_to_be}
use ros2_wavemakers.Image.Involution.{IsPaired, length-reorder, reorder-reorder}
use ros2_wavemakers.Image.Order.{ByteOrder, be_to_u64, reorder, u64_to_be}

be_two : (v : ℕ) → v < 2 ^ 16 → be_to_u64 (u64_to_be v 2) ≡ v
unfolding be_to_u64 u64_to_be
be_two v h = omega arith

be_four : (v : ℕ) → v < 2 ^ 32 → be_to_u64 (u64_to_be v 4) ≡ v
unfolding be_to_u64 u64_to_be
be_four v h = omega arith

be_eight : (v : ℕ) → v < 2 ^ 64 → be_to_u64 (u64_to_be v 8) ≡ v
unfolding be_to_u64 u64_to_be
be_eight v h = omega arith

-- The image after a setter of `n` bytes.
abbrev laid : ProcessImage → ℕ → ℕ → ℕ → ByteOrder → ProcessImage
laid buf off n v o = overwrite off (reorder o (u64_to_be v n)) buf

set_be-laid :
    (buf : ProcessImage) (off n v : ℕ) (o : ByteOrder)
    → Fits buf off n
    → set_be buf off n v o ≡ ok (laid buf off n v o)
unfolding set_be
set_be-laid buf off n v o f = rw (access-Fits f)

slice-laid :
    (buf : ProcessImage) (off n v : ℕ) (o : ByteOrder)
    → Fits buf off n
    → IsPaired (u64_to_be v n)
    → slice off n (laid buf off n v o) ≡ reorder o (u64_to_be v n)
slice-laid buf off n v o f p =
    subst (λ k. slice off k (laid buf off n v o) ≡ reorder o (u64_to_be v n)) count
      (slice-overwrite_self off (reorder o (u64_to_be v n)) buf (rw count f.inside))
  where
    count : length (reorder o (u64_to_be v n)) ≡ n
    count = length-reorder o (u64_to_be v n) p ∙ length-u64_to_be v n

get_be-laid :
    (buf : ProcessImage) (off n v : ℕ) (o : ByteOrder)
    → Fits buf off n
    → IsPaired (u64_to_be v n)
    → be_to_u64 (u64_to_be v n) ≡ v
    → get_be (laid buf off n v o) off n o ≡ ok v
unfolding get_be
get_be-laid buf off n v o f p e =
    rw (access-Fits still, slice-laid buf off n v o f p, reorder-reorder o (u64_to_be v n) p, e)
  where
    still : Fits (laid buf off n v o) off n
    still =
        let same = length-overwrite off (reorder o (u64_to_be v n)) buf in
        record { inside = rw same f.inside; size = rw same f.size }

-- What a setter of two, four or eight bytes stored, the getter at the same place and in the same
-- order reads, whatever the order.
pub get_be-set_be_two :
    (buf : ProcessImage) (off v : ℕ) (o : ByteOrder)
    → Fits buf off 2
    → v < 2 ^ 16
    → (buf' : ProcessImage) × (set_be buf off 2 v o ≡ ok buf') × (get_be buf' off 2 o ≡ ok v)
get_be-set_be_two buf off v o f h = (
  _,
  set_be-laid buf off 2 v o f,
  get_be-laid buf off 2 v o f (unfold u64_to_be in tt) (be_two v h),
)

pub get_be-set_be_four :
    (buf : ProcessImage) (off v : ℕ) (o : ByteOrder)
    → Fits buf off 4
    → v < 2 ^ 32
    → (buf' : ProcessImage) × (set_be buf off 4 v o ≡ ok buf') × (get_be buf' off 4 o ≡ ok v)
get_be-set_be_four buf off v o f h = (
  _,
  set_be-laid buf off 4 v o f,
  get_be-laid buf off 4 v o f (unfold u64_to_be in tt) (be_four v h),
)

pub get_be-set_be_eight :
    (buf : ProcessImage) (off v : ℕ) (o : ByteOrder)
    → Fits buf off 8
    → v < 2 ^ 64
    → (buf' : ProcessImage) × (set_be buf off 8 v o ≡ ok buf') × (get_be buf' off 8 o ≡ ok v)
get_be-set_be_eight buf off v o f h = (
  _,
  set_be-laid buf off 8 v o f,
  get_be-laid buf off 8 v o f (unfold u64_to_be in tt) (be_eight v h),
)
