-- ===== src/Image/RegisterTrip.antt =====
-- Registers and bytes are two views of one buffer.
use ros2_wavemakers.Base.{
  All, List, [], ap₂, arith, length, length-overwrite, ok, overwrite, refl, slice,
  slice-overwrite_self, subst, ℕ, ◌*◌, ◌<◌, ◌∷◌, ◌≡◌,
}
use ros2_wavemakers.Image.Access.{ProcessImage}
use ros2_wavemakers.Image.Bounds.{Fits, access-Fits}
use ros2_wavemakers.Image.Involution.{IsPaired}
use ros2_wavemakers.Image.Registers.{
  bytes_of, load_from_registers, registers_of, store_to_registers,
}

abbrev pub IsByte : ℕ → Type 0
IsByte b = b < 256

abbrev pub IsWord : ℕ → Type 0
IsWord r = r < 65536

pub length-bytes_of : (rs : List ℕ) → length (bytes_of rs) ≡ length rs * 2
unfolding bytes_of
length-bytes_of [] = refl
length-bytes_of (r ∷ rs) = omega (arith, length-bytes_of rs)

pub registers_of-bytes_of : (rs : List ℕ) → All IsWord rs → registers_of (bytes_of rs) ≡ rs
unfolding registers_of bytes_of
registers_of-bytes_of [] h = refl
registers_of-bytes_of (r ∷ rs) h = ap₂ ◌∷◌ (omega arith) (registers_of-bytes_of rs h.1)

pub bytes_of-registers_of :
    (bs : List ℕ) → IsPaired bs → All IsByte bs → bytes_of (registers_of bs) ≡ bs
unfolding registers_of bytes_of
bytes_of-registers_of [] p h = refl
bytes_of-registers_of (a ∷ []) p h = absurd p
bytes_of-registers_of (a ∷ b ∷ rest) p h =
    ap₂ ◌∷◌ (omega arith) (ap₂ ◌∷◌ (omega arith) (bytes_of-registers_of rest p h.1.1))

-- Registers laid into the buffer at an offset where they fit are stored back unchanged.
pub store-load :
    (buf : ProcessImage) (rs : List ℕ) (off : ℕ)
    → Fits buf off (length rs * 2)
    → All IsWord rs
    → (buf' : ProcessImage) × (load_from_registers buf rs off ≡ ok buf')
      × (store_to_registers buf' (length rs) off ≡ ok rs)
unfolding load_from_registers store_to_registers
store-load buf rs off f h = (
  overwrite off (bytes_of rs) buf,
  rw (access-Fits f),
  rw (access-Fits still, back, registers_of-bytes_of rs h),
)
  where
    still : Fits (overwrite off (bytes_of rs) buf) off (length rs * 2)
    still =
        let same = length-overwrite off (bytes_of rs) buf in
        record { inside = rw same f.inside; size = rw same f.size }

    back : slice off (length rs * 2) (overwrite off (bytes_of rs) buf) ≡ bytes_of rs
    back =
        subst (λ k. slice off k (overwrite off (bytes_of rs) buf) ≡ bytes_of rs)
          (length-bytes_of rs)
          (slice-overwrite_self off (bytes_of rs) buf (rw length-bytes_of f.inside))
