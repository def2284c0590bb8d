-- ===== src/Image/Tests.antt =====
-- The process image's theorems at concrete areas and tags.
use ros2_wavemakers.Base.{
  [], arith, inr, length, negsuc, ok, refl, ◌+◌, ◌-◌, ◌^◌, ◌↔◌, ◌∷◌, ◌≡◌, ◌≤◌,
}
use ros2_wavemakers.Image.Access.{ProcessImage, check}
use ros2_wavemakers.Image.Bounds.{check_iff, check_wraps}
use ros2_wavemakers.Image.Frame.{get_int-set_int-Disjoint}
use ros2_wavemakers.Image.Involution.{reorder-reorder}
use ros2_wavemakers.Image.Order.{ByteOrder, reorder}
use ros2_wavemakers.Image.RegisterTrip.{store-load}
use ros2_wavemakers.Image.Registers.{load_from_registers, store_to_registers}
use ros2_wavemakers.Image.Samples.{fixed_point, small_area, small_area-Fits, speed, word_tag}
use ros2_wavemakers.Image.TagTrip.{get_int-set_int}
use ros2_wavemakers.Image.Tags.{get_int, set_int}
use ros2_wavemakers.Image.Types.{size_bytes}

speed-trip :
    (buf' : ProcessImage) × (set_int fixed_point small_area speed (negsuc 2) ≡ ok buf')
    × (get_int fixed_point buf' speed ≡ ok (negsuc 2))
unfolding size_bytes
speed-trip =
    get_int-set_int fixed_point small_area speed (negsuc 2) small_area-Fits (omega arith)
      (omega arith)

abbrev spun : ProcessImage
spun = 1 ∷ 2 ∷ 0xFF ∷ 0xFD ∷ 0xFF ∷ 0xFF ∷ []

store_speed : set_int fixed_point small_area speed (negsuc 2) ≡ ok spun
unfolding set_int
store_speed = refl

speed-spares :
    (length spun ≡ length small_area)
    × (get_int fixed_point spun word_tag ≡ get_int fixed_point small_area word_tag)
unfolding size_bytes
speed-spares =
    get_int-set_int-Disjoint fixed_point small_area speed word_tag (negsuc 2) small_area-Fits
      (record { inside = omega arith; size = omega arith }) store_speed (inr (omega arith))

check_inside : (check small_area 3 3 ≡ ok tt) ↔ (3 + 3 ≤ 6)
check_inside = check_iff small_area 3 3 (omega arith)

check_overflow : check small_area (2 ^ 64 - 2) 4 ≡ ok tt
check_overflow = check_wraps small_area (2 ^ 64 - 2) 4 (omega arith) (omega arith) (omega arith)

reorder_twice :
    reorder ByteOrder.big_endian_swap (reorder ByteOrder.big_endian_swap (1 ∷ 2 ∷ 3 ∷ 4 ∷ []))
    ≡ 1 ∷ 2 ∷ 3 ∷ 4 ∷ []
reorder_twice = reorder-reorder ByteOrder.big_endian_swap (1 ∷ 2 ∷ 3 ∷ 4 ∷ []) tt

registers_trip :
    (buf' : ProcessImage) × (load_from_registers small_area (0x1234 ∷ 0xABCD ∷ []) 2 ≡ ok buf')
    × (store_to_registers buf' 2 2 ≡ ok (0x1234 ∷ 0xABCD ∷ []))
registers_trip =
    store-load small_area (0x1234 ∷ 0xABCD ∷ []) 2 small_area-Fits (omega arith, (omega arith, tt))
