-- ===== src/Image/Types.antt =====
-- Areas, data types and tags; and the floating-point operations, which the program takes from
-- the processor. They are a parameter: a type for `float` and one for `double` with the casts,
-- the copies of the bit pattern and the arithmetic that the program uses.
use ros2_wavemakers.Base.{Bool, String, ℕ, ℤ, ◌<◌, ◌^◌, ◌≡◌}
use ros2_wavemakers.Image.Order.{ByteOrder}

pub data Area : Type 0 where
  input output : Area

pub data DataType : Type 0 where
  bit u8 i8 u16 i16 u32 i32 f32 f64 raw : DataType

unfoldable pub type_size : DataType → ℕ → ℕ
type_size bit raw_len = 1
type_size u8 raw_len = 1
type_size i8 raw_len = 1
type_size u16 raw_len = 2
type_size i16 raw_len = 2
type_size u32 raw_len = 4
type_size i32 raw_len = 4
type_size f32 raw_len = 4
type_size f64 raw_len = 8
type_size raw raw_len = raw_len

pub record FloatOps : Type 1 where
  pub Float : Type 0
  pub Double : Type 0
  pub f32_bits : Float → ℕ
  pub f32_of_bits : ℕ → Float
  pub f64_bits : Double → ℕ
  pub f64_of_bits : ℕ → Double
  pub widen : Float → Double
  pub narrow : Double → Float
  pub f32_to_int : Float → ℤ
  pub f32_of_int : ℤ → Float
  pub f64_to_int : Double → ℤ
  pub f64_of_int : ℤ → Double
  pub llround : Double → ℤ
  pub add : Double → Double → Double
  pub sub : Double → Double → Double
  pub mul : Double → Double → Double
  pub div : Double → Double → Double
  pub fabs : Double → Double
  pub lt : Double → Double → Bool
  pub eq : Double → Double → Bool
  pub fmin : Double → Double → Double
  -- A literal: `decimal m k` is m / 10 ^ k.
  pub decimal : ℤ → ℕ → Double

-- A bit pattern has the width of its type, and copying it out and back changes nothing.
pub record IsBitCopy (fp : FloatOps) : Type 0 where
  pub f32_width : (x : fp.Float) → fp.f32_bits x < 2 ^ 32
  pub f64_width : (x : fp.Double) → fp.f64_bits x < 2 ^ 64
  pub f32_copy : (x : fp.Float) → fp.f32_of_bits (fp.f32_bits x) ≡ x
  pub f64_copy : (x : fp.Double) → fp.f64_of_bits (fp.f64_bits x) ≡ x

-- `Double` is the type of the scale and the bias. The comment field is never read.
pub record Tag (Double : Type 0) : Type 0 where
  pub name : String
  pub area : Area
  pub type : DataType
  pub byte_offset : ℕ
  pub bit : ℕ
  pub raw_len : ℕ
  pub order : ByteOrder
  pub scale : Double
  pub bias : Double
  pub unit : String

unfoldable pub size_bytes : {D : Type 0} → Tag D → ℕ
unfolding type_size
size_bytes t = type_size t.type t.raw_len
