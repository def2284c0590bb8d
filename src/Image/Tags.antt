-- ===== src/Image/Tags.antt =====
-- Tag-oriented access: the `switch` over the data type, and the engineering scaling.
use ros2_wavemakers.Base.{
  Bool, Outcome, err, if◌then◌else◌, is_zero, no_integer, not, ok, pos, wrap, ℤ, ◌>>=◌, ◌^◌,
}
use ros2_wavemakers.Image.Access.{
  ProcessImage, get_bit, get_f32, get_f64, get_i16, get_i32, get_i8, get_u16, get_u32, get_u8,
  set_bit, set_f32, set_f64, set_i16, set_i32, set_i8, set_u16, set_u32, set_u8,
}
use ros2_wavemakers.Image.Types.{DataType, FloatOps, Tag}

module _ (fp : FloatOps) where
  open fp use {
    Double, widen, narrow, f32_to_int, f32_of_int, f64_to_int, f64_of_int, llround, add, sub, mul,
    div, eq, decimal,
  }

  unfoldable pub get_int_as : DataType → ProcessImage → Tag Double → Outcome ℤ
  unfolding get_bit get_u8 get_i8 get_u16 get_i16 get_u32 get_i32 get_f32 get_f64
  get_int_as DataType.bit buf t = do
    b ← get_bit buf t.byte_offset t.bit
    ok (pos (if b then 1 else 0))
  get_int_as DataType.u8 buf t = do v ← get_u8 buf t.byte_offset; ok (pos v)
  get_int_as DataType.i8 buf t = get_i8 buf t.byte_offset
  get_int_as DataType.u16 buf t = do v ← get_u16 buf t.byte_offset t.order; ok (pos v)
  get_int_as DataType.i16 buf t = get_i16 buf t.byte_offset t.order
  get_int_as DataType.u32 buf t = do v ← get_u32 buf t.byte_offset t.order; ok (pos v)
  get_int_as DataType.i32 buf t = get_i32 buf t.byte_offset t.order
  get_int_as DataType.f32 buf t = do x ← get_f32 fp buf t.byte_offset t.order; ok (f32_to_int x)
  get_int_as DataType.f64 buf t = do x ← get_f64 fp buf t.byte_offset t.order; ok (f64_to_int x)
  get_int_as DataType.raw buf t = err (no_integer t.name)

  unfoldable pub get_int : ProcessImage → Tag Double → Outcome ℤ
  unfolding get_int_as
  get_int buf t = get_int_as t.type buf t

  unfoldable pub get_unscaled : DataType → ProcessImage → Tag Double → Outcome Double
  unfolding get_int get_f32 get_f64
  get_unscaled DataType.f32 buf t = do x ← get_f32 fp buf t.byte_offset t.order; ok (widen x)
  get_unscaled DataType.f64 buf t = get_f64 fp buf t.byte_offset t.order
  get_unscaled _ buf t = do v ← get_int buf t; ok (f64_of_int v)

  unfoldable pub get_scaled : ProcessImage → Tag Double → Outcome Double
  unfolding get_unscaled
  get_scaled buf t = do raw ← get_unscaled t.type buf t; ok (add (mul raw t.scale) t.bias)

  unfoldable pub get_bool_as : DataType → ProcessImage → Tag Double → Outcome Bool
  unfolding get_int get_bit
  get_bool_as DataType.bit buf t = get_bit buf t.byte_offset t.bit
  get_bool_as _ buf t = do v ← get_int buf t; ok (not (is_zero v))

  unfoldable pub get_bool : ProcessImage → Tag Double → Outcome Bool
  unfolding get_bool_as
  get_bool buf t = get_bool_as t.type buf t

  unfoldable pub set_int_as : DataType → ProcessImage → Tag Double → ℤ → Outcome ProcessImage
  unfolding set_bit set_u8 set_i8 set_u16 set_i16 set_u32 set_i32 set_f32 set_f64
  set_int_as DataType.bit buf t v = set_bit buf t.byte_offset t.bit (not (is_zero v))
  set_int_as DataType.u8 buf t v = set_u8 buf t.byte_offset (wrap 256 v)
  set_int_as DataType.i8 buf t v = set_i8 buf t.byte_offset v
  set_int_as DataType.u16 buf t v = set_u16 buf t.byte_offset (wrap (2 ^ 16) v) t.order
  set_int_as DataType.i16 buf t v = set_i16 buf t.byte_offset v t.order
  set_int_as DataType.u32 buf t v = set_u32 buf t.byte_offset (wrap (2 ^ 32) v) t.order
  set_int_as DataType.i32 buf t v = set_i32 buf t.byte_offset v t.order
  set_int_as DataType.f32 buf t v = set_f32 fp buf t.byte_offset (f32_of_int v) t.order
  set_int_as DataType.f64 buf t v = set_f64 fp buf t.byte_offset (f64_of_int v) t.order
  set_int_as DataType.raw buf t v = err (no_integer t.name)

  unfoldable pub set_int : ProcessImage → Tag Double → ℤ → Outcome ProcessImage
  unfolding set_int_as
  set_int buf t v = set_int_as t.type buf t v

  unfoldable pub set_unscaled : DataType → ProcessImage → Tag Double → Double → Outcome ProcessImage
  unfolding set_int set_f32 set_f64
  set_unscaled DataType.f32 buf t x = set_f32 fp buf t.byte_offset (narrow x) t.order
  set_unscaled DataType.f64 buf t x = set_f64 fp buf t.byte_offset x t.order
  set_unscaled _ buf t x = set_int buf t (llround x)

  unfoldable pub set_scaled : ProcessImage → Tag Double → Double → Outcome ProcessImage
  unfolding set_unscaled
  set_scaled buf t engineering_value = set_unscaled t.type buf t (
      if not (eq t.scale (decimal (pos 0) 0))
      then div (sub engineering_value t.bias) t.scale
      else decimal (pos 0) 0)

  unfoldable pub set_bool_as : DataType → ProcessImage → Tag Double → Bool → Outcome ProcessImage
  unfolding set_int set_bit
  set_bool_as DataType.bit buf t v = set_bit buf t.byte_offset t.bit v
  set_bool_as _ buf t v = set_int buf t (pos (if v then 1 else 0))

  unfoldable pub set_bool : ProcessImage → Tag Double → Bool → Outcome ProcessImage
  unfolding set_bool_as
  set_bool buf t v = set_bool_as t.type buf t v
