-- ===== src/Image/Access.antt =====
-- Typed access by byte offset. An image is the list of its bytes; a getter may throw, a setter
-- returns the new image or throws.
use ros2_wavemakers.Base.{
  Bool, List, Outcome, [], bad_bit_index, clear_bit, get_or, if◌then◌else◌, length, ltb, ok, or_bit,
  out_of_area, overwrite, signed, slice, test_bit, throw_if, u16, u32, u64, wrap, ℕ, ℤ, ◌+◌, ◌>>=◌,
  ◌>>◌, ◌^◌, ◌∷◌, undefined_access,
}
use ros2_wavemakers.Image.Order.{ByteOrder, be_to_u64, reorder, u64_to_be}
use ros2_wavemakers.Image.Types.{FloatOps}

abbrev pub ProcessImage : Type 0
ProcessImage = List ℕ

-- `off + len` is a `size_t` sum, which wraps.
unfoldable pub check : ProcessImage → ℕ → ℕ → Outcome (Unit {0})
check buf off len = throw_if (ltb (length buf) (u64 (off + len))) (out_of_area off len (length buf))

-- The check before every access, and the access. Where the sum of the check wraps, the source accesses
-- memory outside of the area, which has no defined behaviour; here that ends in an error of its own.
unfoldable pub access : ProcessImage → ℕ → ℕ → Outcome (Unit {0})
unfolding check
access buf off len = do check buf off len; throw_if (ltb (length buf) (off + len)) undefined_access

unfoldable pub get_bit : ProcessImage → ℕ → ℕ → Outcome Bool
unfolding access
get_bit buf off k = do
  access buf off 1
  throw_if (ltb 7 k) bad_bit_index
  ok (test_bit (get_or buf off 0) k)

unfoldable pub get_u8 : ProcessImage → ℕ → Outcome ℕ
unfolding access
get_u8 buf off = do access buf off 1; ok (get_or buf off 0)

unfoldable pub get_i8 : ProcessImage → ℕ → Outcome ℤ
unfolding get_u8
get_i8 buf off = do v ← get_u8 buf off; ok (signed 256 v)

-- The common body of the multi-byte getters: check, reorder into `tmp`, read `tmp`.
unfoldable pub get_be : ProcessImage → ℕ → ℕ → ByteOrder → Outcome ℕ
unfolding access reorder be_to_u64
get_be buf off n o = do access buf off n; ok (be_to_u64 (reorder o (slice off n buf)))

unfoldable pub get_u16 : ProcessImage → ℕ → ByteOrder → Outcome ℕ
unfolding get_be
get_u16 buf off o = do v ← get_be buf off 2 o; ok (u16 v)

unfoldable pub get_i16 : ProcessImage → ℕ → ByteOrder → Outcome ℤ
unfolding get_u16
get_i16 buf off o = do v ← get_u16 buf off o; ok (signed (2 ^ 16) v)

unfoldable pub get_u32 : ProcessImage → ℕ → ByteOrder → Outcome ℕ
unfolding get_be
get_u32 buf off o = do v ← get_be buf off 4 o; ok (u32 v)

unfoldable pub get_i32 : ProcessImage → ℕ → ByteOrder → Outcome ℤ
unfolding get_u32
get_i32 buf off o = do v ← get_u32 buf off o; ok (signed (2 ^ 32) v)

unfoldable pub get_raw : ProcessImage → ℕ → ℕ → Outcome (List ℕ)
unfolding access
get_raw buf off len = do access buf off len; ok (slice off len buf)

unfoldable pub set_bit : ProcessImage → ℕ → ℕ → Bool → Outcome ProcessImage
unfolding access
set_bit buf off k v = do
  access buf off 1
  throw_if (ltb 7 k) bad_bit_index
  let b = get_or buf off 0
  ok (overwrite off ((if v then or_bit b k else clear_bit b k) ∷ []) buf)

unfoldable pub set_u8 : ProcessImage → ℕ → ℕ → Outcome ProcessImage
unfolding access
set_u8 buf off v = do access buf off 1; ok (overwrite off (v ∷ []) buf)

unfoldable pub set_i8 : ProcessImage → ℕ → ℤ → Outcome ProcessImage
unfolding set_u8
set_i8 buf off v = set_u8 buf off (wrap 256 v)

-- The common body of the multi-byte setters: check, lay out big endian, reorder into the buffer.
unfoldable pub set_be : ProcessImage → ℕ → ℕ → ℕ → ByteOrder → Outcome ProcessImage
unfolding access reorder u64_to_be
set_be buf off n v o = do access buf off n; ok (overwrite off (reorder o (u64_to_be v n)) buf)

unfoldable pub set_u16 : ProcessImage → ℕ → ℕ → ByteOrder → Outcome ProcessImage
unfolding set_be
set_u16 buf off v o = set_be buf off 2 v o

unfoldable pub set_i16 : ProcessImage → ℕ → ℤ → ByteOrder → Outcome ProcessImage
unfolding set_u16
set_i16 buf off v o = set_u16 buf off (wrap (2 ^ 16) v) o

unfoldable pub set_u32 : ProcessImage → ℕ → ℕ → ByteOrder → Outcome ProcessImage
unfolding set_be
set_u32 buf off v o = set_be buf off 4 v o

unfoldable pub set_i32 : ProcessImage → ℕ → ℤ → ByteOrder → Outcome ProcessImage
unfolding set_u32
set_i32 buf off v o = set_u32 buf off (wrap (2 ^ 32) v) o

unfoldable pub set_raw : ProcessImage → ℕ → List ℕ → Outcome ProcessImage
unfolding access
set_raw buf off src = do access buf off (length src); ok (overwrite off src buf)

module _ (fp : FloatOps) where
  open fp use {Float, Double, f32_bits, f32_of_bits, f64_bits, f64_of_bits}

  unfoldable pub get_f32 : ProcessImage → ℕ → ByteOrder → Outcome Float
  unfolding get_u32
  get_f32 buf off o = do bits ← get_u32 buf off o; ok (f32_of_bits bits)

  unfoldable pub get_f64 : ProcessImage → ℕ → ByteOrder → Outcome Double
  unfolding get_be
  get_f64 buf off o = do bits ← get_be buf off 8 o; ok (f64_of_bits bits)

  unfoldable pub set_f32 : ProcessImage → ℕ → Float → ByteOrder → Outcome ProcessImage
  unfolding set_u32
  set_f32 buf off v o = set_u32 buf off (f32_bits v) o

  unfoldable pub set_f64 : ProcessImage → ℕ → Double → ByteOrder → Outcome ProcessImage
  unfolding set_be
  set_f64 buf off v o = set_be buf off 8 (f64_bits v) o
