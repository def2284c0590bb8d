-- ===== src/Image/Samples.antt =====
-- Concrete data for the tests: a stand-in for floating point, and a small area with its tags.
use ros2_wavemakers.Base.{
  String, [], arith, ltb, min, negsuc, pos, u32, u64, ℕ, ℤ, ◌*◌, ◌+◌, ◌-◌, ◌/◌, ◌==◌, ◌^◌, ◌∷◌,
}
use ros2_wavemakers.Image.Access.{ProcessImage}
use ros2_wavemakers.Image.Bounds.{Fits}
use ros2_wavemakers.Image.Order.{ByteOrder}
use ros2_wavemakers.Image.Types.{Area, DataType, FloatOps, Tag}

abbrev unsigned : ℤ → ℕ
unsigned (pos n) = n
unsigned (negsuc n) = 0

abbrev whole : ℤ → ℕ
whole v = unsigned v * 10000

-- Numbers from 0 up with four decimal digits, kept in units of 1 / 10000.
abbrev pub fixed_point : FloatOps
fixed_point = record {
  Float = ℕ;
  Double = ℕ;
  f32_bits = u32;
  f32_of_bits = λ n. n;
  f64_bits = u64;
  f64_of_bits = λ n. n;
  widen = λ x. x;
  narrow = λ x. x;
  f32_to_int = λ x. pos (x / 10000);
  f32_of_int = whole;
  f64_to_int = λ x. pos (x / 10000);
  f64_of_int = whole;
  llround = λ x. pos ((x + 5000) / 10000);
  add = ◌+◌;
  sub = ◌-◌;
  mul = λ x y. x * y / 10000;
  div = λ x y. x * 10000 / y;
  fabs = λ x. x;
  lt = ltb;
  eq = ◌==◌;
  fmin = min;
  decimal = λ m k. unsigned m * 10000 / 10 ^ k;
}

abbrev pub plain_tag : String → Area → DataType → ℕ → ByteOrder → Tag ℕ
plain_tag name area ty off order = record {
  name = name;
  area = area;
  type = ty;
  byte_offset = off;
  bit = 0;
  raw_len = 0;
  order = order;
  scale = 10000;
  bias = 0;
  unit = "";
}

abbrev pub speed : Tag ℕ
speed = plain_tag "speed" Area.output DataType.i32 2 ByteOrder.big_endian_swap

abbrev pub word_tag : Tag ℕ
word_tag = plain_tag "word" Area.output DataType.u16 0 ByteOrder.little_endian

abbrev pub small_area : ProcessImage
small_area = 1 ∷ 2 ∷ 3 ∷ 4 ∷ 5 ∷ 6 ∷ []

pub small_area-Fits : Fits small_area 2 4
small_area-Fits = record { inside = omega arith; size = omega arith }
