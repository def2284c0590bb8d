-- ===== src/Image/Scaled.antt =====
-- The scaled and Boolean accessors have the frame of the integer ones, and a scaled value is
-- the integer taken through `raw * scale + bias`.
use ros2_wavemakers.Base.{Bool, ok, refl, ◌≡◌}
use ros2_wavemakers.Image.Access.{ProcessImage}
use ros2_wavemakers.Image.Frame.{IsWrite, set_be-IsWrite, set_bit-IsWrite, set_int-IsWrite}
use ros2_wavemakers.Image.Order.{u64_to_be}
use ros2_wavemakers.Image.Tags.{set_bool, set_bool_as, set_scaled, set_unscaled}
use ros2_wavemakers.Image.Types.{DataType, FloatOps, Tag, size_bytes}

module _ (fp : FloatOps) where
  open fp use {Double}

  set_unscaled-IsWrite :
      (ty : DataType) (buf : ProcessImage) (t : Tag Double) (x : Double) {buf' : ProcessImage}
      → t.type ≡ ty
      → set_unscaled fp ty buf t x ≡ ok buf'
      → IsWrite t.byte_offset (size_bytes t) buf buf'
  unfolding set_unscaled u64_to_be size_bytes
  set_unscaled-IsWrite DataType.f32 buf t x e h =
      rw e (set_be-IsWrite buf t.byte_offset 4 _ t.order tt h)
  set_unscaled-IsWrite DataType.f64 buf t x e h =
      rw e (set_be-IsWrite buf t.byte_offset 8 _ t.order tt h)
  set_unscaled-IsWrite _ buf t x e h = set_int-IsWrite fp buf t _ h

  -- Staging an engineering value replaces the bytes of the tag and no other.
  pub set_scaled-IsWrite :
      (buf : ProcessImage) (t : Tag Double) (x : Double) {buf' : ProcessImage}
      → set_scaled fp buf t x ≡ ok buf'
      → IsWrite t.byte_offset (size_bytes t) buf buf'
  unfolding set_scaled
  set_scaled-IsWrite buf t x h = set_unscaled-IsWrite t.type buf t _ refl h

  set_bool_as-IsWrite :
      (ty : DataType) (buf : ProcessImage) (t : Tag Double) (v : Bool) {buf' : ProcessImage}
      → t.type ≡ ty
      → set_bool_as fp ty buf t v ≡ ok buf'
      → IsWrite t.byte_offset (size_bytes t) buf buf'
  unfolding set_bool_as size_bytes
  set_bool_as-IsWrite DataType.bit buf t v e h = rw e (set_bit-IsWrite buf t.byte_offset t.bit _ h)
  set_bool_as-IsWrite _ buf t v e h = set_int-IsWrite fp buf t _ h

  pub set_bool-IsWrite :
      (buf : ProcessImage) (t : Tag Double) (v : Bool) {buf' : ProcessImage}
      → set_bool fp buf t v ≡ ok buf'
      → IsWrite t.byte_offset (size_bytes t) buf buf'
  unfolding set_bool
  set_bool-IsWrite buf t v h = set_bool_as-IsWrite t.type buf t v refl h
