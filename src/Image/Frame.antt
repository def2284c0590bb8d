-- ===== src/Image/Frame.antt =====
-- What a setter leaves alone: the size of the area and every byte outside the tag.
use ros2_wavemakers.Base.{
  >>=-eq-ok, Bool, List, [], bad_bit_index, clear_bit, get_or, get_or-slice, if◌then◌else◌, inl,
  inr, length, length-overwrite, ltb, ok, or_bit, overwrite, refl, slice, slice-overwrite_after,
  slice-overwrite_before, throw_if, ℕ, ℤ, ◌+◌, ◌∙◌, ◌∷◌, ◌≡◌, ◌≤◌, ◌⊎◌,
}
use ros2_wavemakers.Image.Access.{
  ProcessImage, access, check, get_be, get_bit, get_u8, set_be, set_bit, set_u8,
}
use ros2_wavemakers.Image.Bounds.{length-u64_to_be, Fits}
use ros2_wavemakers.Image.Involution.{IsPaired, length-reorder}
use ros2_wavemakers.Image.Order.{ByteOrder, reorder, u64_to_be}
use ros2_wavemakers.Image.Tags.{get_int, get_int_as, set_int, set_int_as}
use ros2_wavemakers.Image.Types.{DataType, FloatOps, Tag, size_bytes, type_size}

-- `buf'` is `buf` with `size` bytes from `off` on replaced.
pub record IsWrite (off size : ℕ) (buf buf' : ProcessImage) : Type 0 where
  pub bytes : List ℕ
  pub count : length bytes ≡ size
  pub result : buf' ≡ overwrite off bytes buf

-- Two areas of one size that agree on `size` bytes from `off` on.
pub record AgreesOn (off size : ℕ) (buf buf' : ProcessImage) : Type 0 where
  pub same_length : length buf ≡ length buf'
  pub same_bytes : slice off size buf ≡ slice off size buf'

pub IsWrite-length :
    {off size : ℕ} {buf buf' : ProcessImage} → IsWrite off size buf buf' → length buf' ≡ length buf
IsWrite-length {off} {buf} w = rw w.result (length-overwrite off w.bytes buf)

pub IsWrite-AgreesOn :
    {off size : ℕ} {buf buf' : ProcessImage} (p n : ℕ)
    → IsWrite off size buf buf'
    → (p + n ≤ off) ⊎ (off + size ≤ p)
    → AgreesOn p n buf' buf
IsWrite-AgreesOn {off} {size} {buf} {buf'} p n w (inl h) = record {
  same_length = IsWrite-length w;
  same_bytes = rw w.result (slice-overwrite_before p n off w.bytes buf h);
}
IsWrite-AgreesOn {off} {size} {buf} {buf'} p n w (inr h) = record {
  same_length = IsWrite-length w;
  same_bytes = rw w.result (slice-overwrite_after p n off w.bytes buf (rw w.count h));
}

access-same :
    (buf buf' : ProcessImage) (off len : ℕ)
    → length buf ≡ length buf'
    → access buf off len ≡ access buf' off len
unfolding access check
access-same buf buf' off len e = rw e

pub set_be-IsWrite :
    (buf : ProcessImage) (off n v : ℕ) (o : ByteOrder) {buf' : ProcessImage}
    → IsPaired (u64_to_be v n)
    → set_be buf off n v o ≡ ok buf'
    → IsWrite off n buf buf'
unfolding set_be
set_be-IsWrite buf off n v o p h = record {
  bytes = reorder o (u64_to_be v n);
  count = length-reorder o (u64_to_be v n) p ∙ length-u64_to_be v n;
  result = let (u, c, e) = >>=-eq-ok (access buf off n) _ h in cc;
}

set_u8-IsWrite :
    (buf : ProcessImage) (off v : ℕ) {buf' : ProcessImage}
    → set_u8 buf off v ≡ ok buf'
    → IsWrite off 1 buf buf'
unfolding set_u8
set_u8-IsWrite buf off v h = record {
  bytes = v ∷ [];
  count = refl;
  result = let (u, c, e) = >>=-eq-ok (access buf off 1) _ h in cc;
}

pub set_bit-IsWrite :
    (buf : ProcessImage) (off k : ℕ) (v : Bool) {buf' : ProcessImage}
    → set_bit buf off k v ≡ ok buf'
    → IsWrite off 1 buf buf'
unfolding set_bit
set_bit-IsWrite buf off k v h = record {
  bytes = (if v then or_bit (get_or buf off 0) k else clear_bit (get_or buf off 0) k) ∷ [];
  count = refl;
  result =
      let (u, c, e) = >>=-eq-ok (access buf off 1) _ h in
      let (u', c', e') = >>=-eq-ok (throw_if (ltb 7 k) bad_bit_index) _ e in cc;
}

get_be-local :
    {buf buf' : ProcessImage} (off n : ℕ) (o : ByteOrder)
    → AgreesOn off n buf buf'
    → get_be buf off n o ≡ get_be buf' off n o
unfolding get_be
get_be-local {buf} {buf'} off n o a = rw (access-same buf buf' off n a.same_length, a.same_bytes)

get_u8-local :
    {buf buf' : ProcessImage} (off : ℕ) → AgreesOn off 1 buf buf' → get_u8 buf off ≡ get_u8 buf' off
unfolding get_u8
get_u8-local {buf} {buf'} off a = rw (
  access-same buf buf' off 1 a.same_length,
  get_or-slice off 0 buf,
  get_or-slice off 0 buf',
  a.same_bytes,
)

get_bit-local :
    {buf buf' : ProcessImage} (off k : ℕ)
    → AgreesOn off 1 buf buf'
    → get_bit buf off k ≡ get_bit buf' off k
unfolding get_bit
get_bit-local {buf} {buf'} off k a = rw (
  access-same buf buf' off 1 a.same_length,
  get_or-slice off 0 buf,
  get_or-slice off 0 buf',
  a.same_bytes,
)

module _ (fp : FloatOps) where
  open fp use {Double}

  set_int_as-IsWrite :
      (ty : DataType) (buf : ProcessImage) (t : Tag Double) (v : ℤ) {buf' : ProcessImage}
      → set_int_as fp ty buf t v ≡ ok buf'
      → IsWrite t.byte_offset (type_size ty t.raw_len) buf buf'
  unfolding set_int_as type_size u64_to_be
  set_int_as-IsWrite DataType.bit buf t v h = set_bit-IsWrite buf t.byte_offset t.bit _ h
  set_int_as-IsWrite DataType.u8 buf t v h = set_u8-IsWrite buf t.byte_offset _ h
  set_int_as-IsWrite DataType.i8 buf t v h = set_u8-IsWrite buf t.byte_offset _ h
  set_int_as-IsWrite DataType.u16 buf t v h = set_be-IsWrite buf t.byte_offset 2 _ t.order tt h
  set_int_as-IsWrite DataType.i16 buf t v h = set_be-IsWrite buf t.byte_offset 2 _ t.order tt h
  set_int_as-IsWrite DataType.u32 buf t v h = set_be-IsWrite buf t.byte_offset 4 _ t.order tt h
  set_int_as-IsWrite DataType.i32 buf t v h = set_be-IsWrite buf t.byte_offset 4 _ t.order tt h
  set_int_as-IsWrite DataType.f32 buf t v h = set_be-IsWrite buf t.byte_offset 4 _ t.order tt h
  set_int_as-IsWrite DataType.f64 buf t v h = set_be-IsWrite buf t.byte_offset 8 _ t.order tt h
  set_int_as-IsWrite DataType.raw buf t v h = absurd (cc)

  pub set_int-IsWrite :
      (buf : ProcessImage) (t : Tag Double) (v : ℤ) {buf' : ProcessImage}
      → set_int fp buf t v ≡ ok buf'
      → IsWrite t.byte_offset (size_bytes t) buf buf'
  unfolding set_int size_bytes
  set_int-IsWrite buf t v h = set_int_as-IsWrite t.type buf t v h

  get_int_as-local :
      (ty : DataType) {buf buf' : ProcessImage} (t : Tag Double)
      → AgreesOn t.byte_offset (type_size ty t.raw_len) buf buf'
      → get_int_as fp ty buf t ≡ get_int_as fp ty buf' t
  unfolding get_int_as type_size
  get_int_as-local DataType.bit t a = rw (get_bit-local t.byte_offset t.bit a)
  get_int_as-local DataType.u8 t a = rw (get_u8-local t.byte_offset a)
  get_int_as-local DataType.i8 t a = rw (get_u8-local t.byte_offset a)
  get_int_as-local DataType.u16 t a = rw (get_be-local t.byte_offset 2 t.order a)
  get_int_as-local DataType.i16 t a = rw (get_be-local t.byte_offset 2 t.order a)
  get_int_as-local DataType.u32 t a = rw (get_be-local t.byte_offset 4 t.order a)
  get_int_as-local DataType.i32 t a = rw (get_be-local t.byte_offset 4 t.order a)
  get_int_as-local DataType.f32 t a = rw (get_be-local t.byte_offset 4 t.order a)
  get_int_as-local DataType.f64 t a = rw (get_be-local t.byte_offset 8 t.order a)
  get_int_as-local DataType.raw t a = refl

  pub get_int-local :
      {buf buf' : ProcessImage} (t : Tag Double)
      → AgreesOn t.byte_offset (size_bytes t) buf buf'
      → get_int fp buf t ≡ get_int fp buf' t
  unfolding get_int size_bytes
  get_int-local t a = get_int_as-local t.type t a

  abbrev pub Disjoint : Tag Double → Tag Double → Type 0
  Disjoint t u =
      (t.byte_offset + size_bytes t ≤ u.byte_offset)
      ⊎ (u.byte_offset + size_bytes u ≤ t.byte_offset)

  -- A store to one tag inside the area, of any type, changes neither the size of the area nor what
  -- any other tag inside the area with no byte in common reads as.
  pub get_int-set_int-Disjoint :
      (buf : ProcessImage) (t u : Tag Double) (v : ℤ) {buf' : ProcessImage}
      → Fits buf t.byte_offset (size_bytes t)
      → Fits buf u.byte_offset (size_bytes u)
      → set_int fp buf t v ≡ ok buf'
      → Disjoint t u
      → (length buf' ≡ length buf) × (get_int fp buf' u ≡ get_int fp buf u)
  get_int-set_int-Disjoint buf t u v here there h (inl d) =
      let w = set_int-IsWrite buf t v h in
      (IsWrite-length w, get_int-local u (IsWrite-AgreesOn _ _ w (inr d)))
  get_int-set_int-Disjoint buf t u v here there h (inr d) =
      let w = set_int-IsWrite buf t v h in
      (IsWrite-length w, get_int-local u (IsWrite-AgreesOn _ _ w (inl d)))
