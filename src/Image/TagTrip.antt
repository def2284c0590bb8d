-- ===== src/Image/TagTrip.antt =====
-- Round trips of tags: the integers that each data type can hold come back unchanged.
use native.Mathlib.Nat.{mod-eq_of_lt}
use ros2_wavemakers.Base.{
  Bool, IsSigned, [], ap, arith, clear_bit, false, get_or, get_or-overwrite_self, if◌then◌else◌,
  length, length-overwrite, le→ltb-false, negsuc, ok, or_bit, overwrite, pos, suc, test_bit, true,
  wrap, zero, ℕ, ℤ, ◌<◌, ◌^◌, ◌∷◌, ◌≡◌, ◌≤◌,
}
use ros2_wavemakers.Image.Access.{ProcessImage, get_bit, get_f64, get_u8, set_bit, set_f64, set_u8}
use ros2_wavemakers.Image.Bounds.{Fits, access-Fits}
use ros2_wavemakers.Image.Order.{ByteOrder}
use ros2_wavemakers.Image.RoundTrip.{get_be-set_be_eight, get_be-set_be_four, get_be-set_be_two}
use ros2_wavemakers.Image.Tags.{get_int, get_int_as, set_int, set_int_as}
use ros2_wavemakers.Image.Types.{DataType, FloatOps, IsBitCopy, Tag, size_bytes, type_size}
use ros2_wavemakers.Image.Words.{
  signed-wrap16, signed-wrap32, signed-wrap8, test_bit-clear_bit, test_bit-or_bit, wrap_lt,
}

abbrev pub IsUnsigned : ℕ → ℤ → Type 0
IsUnsigned m (pos n) = n < m
IsUnsigned m (negsuc n) = ⊥

-- The integers that a tag of the type stores exactly. The floating types round, and a raw tag
-- holds none.
abbrev pub Holds : DataType → ℤ → Type 0
Holds DataType.bit v = IsUnsigned 2 v
Holds DataType.u8 v = IsUnsigned 256 v
Holds DataType.i8 v = IsSigned 256 v
Holds DataType.u16 v = IsUnsigned (2 ^ 16) v
Holds DataType.i16 v = IsSigned (2 ^ 16) v
Holds DataType.u32 v = IsUnsigned (2 ^ 32) v
Holds DataType.i32 v = IsSigned (2 ^ 32) v
Holds _ v = ⊥

overwrite-Fits :
    (buf src : ProcessImage) (off p n : ℕ) → Fits buf p n → Fits (overwrite off src buf) p n
overwrite-Fits buf src off p n f =
    let same = length-overwrite off src buf in
    record { inside = rw same f.inside; size = rw same f.size }

set_u8-get_u8 :
    (buf : ProcessImage) (off v : ℕ)
    → Fits buf off 1
    → (buf' : ProcessImage) × (set_u8 buf off v ≡ ok buf') × (get_u8 buf' off ≡ ok v)
unfolding set_u8 get_u8
set_u8-get_u8 buf off v f = (
  overwrite off (v ∷ []) buf,
  rw (access-Fits f),
  rw (
    access-Fits (overwrite-Fits buf (v ∷ []) off off 1 f),
    get_or-overwrite_self off v 0 buf in_area,
  ),
)
  where
    in_area : off < length buf
    in_area = omega arith

set_bit-get_bit :
    (buf : ProcessImage) (off k : ℕ) (v : Bool)
    → Fits buf off 1
    → k ≤ 7
    → (buf' : ProcessImage) × (set_bit buf off k v ≡ ok buf') × (get_bit buf' off k ≡ ok v)
unfolding set_bit get_bit
set_bit-get_bit buf off k v f h = (
  overwrite off (x ∷ []) buf,
  rw (access-Fits f, le→ltb-false 7 k h),
  rw
      (
        access-Fits (overwrite-Fits buf (x ∷ []) off off 1 f),
        le→ltb-false 7 k h,
        get_or-overwrite_self off x 0 buf in_area,
      )
      (ap (λ b. ok b) (reads v)),
)
  where
    x : ℕ
    x = if v then or_bit (get_or buf off 0) k else clear_bit (get_or buf off 0) k

    in_area : off < length buf
    in_area = omega arith

    reads :
        (w : Bool)
        → test_bit (if w then or_bit (get_or buf off 0) k else clear_bit (get_or buf off 0) k) k ≡ w
    reads true = test_bit-or_bit (get_or buf off 0) k
    reads false = test_bit-clear_bit (get_or buf off 0) k

module _ (fp : FloatOps) where
  open fp use {Double}

  -- The statement for one data type.
  abbrev Trip : DataType → ProcessImage → Tag Double → ℤ → Type 0
  Trip ty buf t v =
      (buf' : ProcessImage) × (set_int_as fp ty buf t v ≡ ok buf')
      × (get_int_as fp ty buf' t ≡ ok v)

  Trip-Holds :
      (ty : DataType) (buf : ProcessImage) (t : Tag Double) (v : ℤ)
      → Fits buf t.byte_offset (type_size ty t.raw_len)
      → t.bit ≤ 7
      → Holds ty v
      → Trip ty buf t v
  unfolding set_int_as get_int_as type_size
  Trip-Holds DataType.bit buf t (pos zero) f b h =
      let (buf', w, r) = set_bit-get_bit buf t.byte_offset t.bit false f b in (buf', w, rw r)
  Trip-Holds DataType.bit buf t (pos (suc zero)) f b h =
      let (buf', w, r) = set_bit-get_bit buf t.byte_offset t.bit true f b in (buf', w, rw r)
  Trip-Holds DataType.bit buf t (pos (suc (suc n))) f b h = absurd (omega arith)
  Trip-Holds DataType.bit buf t (negsuc n) f b h = absurd h
  Trip-Holds DataType.u8 buf t (pos n) f b h =
      let (buf', w, r) = set_u8-get_u8 buf t.byte_offset (wrap 256 (pos n)) f in
      (buf', w, rw r (ap (λ k. ok (pos k)) (omega arith)))
  Trip-Holds DataType.u8 buf t (negsuc n) f b h = absurd h
  Trip-Holds DataType.i8 buf t v f b h =
      let (buf', w, r) = set_u8-get_u8 buf t.byte_offset (wrap 256 v) f in
      (buf', w, rw r (ap (λ k. ok k) (signed-wrap8 v h)))
  Trip-Holds DataType.u16 buf t (pos n) f b h =
      let (buf', w, r) =
        get_be-set_be_two buf t.byte_offset (wrap (2 ^ 16) (pos n)) t.order f (omega arith) in
      (buf', w, rw r (ap (λ k. ok (pos k)) (omega arith)))
  Trip-Holds DataType.u16 buf t (negsuc n) f b h = absurd h
  Trip-Holds DataType.i16 buf t v f b h =
      let small = wrap_lt (2 ^ 16) v (omega arith) in
      let (buf', w, r) = get_be-set_be_two buf t.byte_offset (wrap (2 ^ 16) v) t.order f small in
      (buf', w, rw (r, mod-eq_of_lt small) (ap (λ k. ok k) (signed-wrap16 v h)))
  Trip-Holds DataType.u32 buf t (pos n) f b h =
      let (buf', w, r) =
        get_be-set_be_four buf t.byte_offset (wrap (2 ^ 32) (pos n)) t.order f (omega arith) in
      (buf', w, rw r (ap (λ k. ok (pos k)) (omega arith)))
  Trip-Holds DataType.u32 buf t (negsuc n) f b h = absurd h
  Trip-Holds DataType.i32 buf t v f b h =
      let small = wrap_lt (2 ^ 32) v (omega arith) in
      let (buf', w, r) = get_be-set_be_four buf t.byte_offset (wrap (2 ^ 32) v) t.order f small in
      (buf', w, rw (r, mod-eq_of_lt small) (ap (λ k. ok k) (signed-wrap32 v h)))
  Trip-Holds DataType.f32 buf t v f b h = absurd h
  Trip-Holds DataType.f64 buf t v f b h = absurd h
  Trip-Holds DataType.raw buf t v f b h = absurd h

  -- For every tag of an integer or bit type inside an area of less than 2 ^ 64 bytes, with a bit
  -- index of at most 7, every byte order and every integer that the tag's type holds: the store
  -- succeeds, and reading the tag from the new image gives the integer back.
  pub get_int-set_int :
      (buf : ProcessImage) (t : Tag Double) (v : ℤ)
      → Fits buf t.byte_offset (size_bytes t)
      → t.bit ≤ 7
      → Holds t.type v
      → (buf' : ProcessImage) × (set_int fp buf t v ≡ ok buf') × (get_int fp buf' t ≡ ok v)
  unfolding set_int get_int size_bytes
  get_int-set_int buf t v f b h = Trip-Holds t.type buf t v f b h

  -- A tag of type `double` inside the area with a copied bit pattern: what is staged is read back.
  pub get_f64-set_f64 :
      IsBitCopy fp
      → (buf : ProcessImage) (off : ℕ) (x : Double) (o : ByteOrder) → Fits buf off 8
      → (buf' : ProcessImage) × (set_f64 fp buf off x o ≡ ok buf') × (get_f64 fp buf' off o ≡ ok x)
  unfolding set_f64 get_f64
  get_f64-set_f64 laws buf off x o f =
      let (buf', w, r) = get_be-set_be_eight buf off (fp.f64_bits x) o f (laws.f64_width x) in
      (buf', w, rw r (ap (λ k. ok k) (laws.f64_copy x)))
