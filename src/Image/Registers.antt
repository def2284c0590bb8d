-- ===== src/Image/Registers.antt =====
-- Modbus registers to and from the byte buffer, high byte first.
use ros2_wavemakers.Base.{
  List, Outcome, [], hi_byte, length, lo_byte, ok, overwrite, slice, word, ℕ, ◌*◌, ◌>>◌, ◌∷◌,
}
use ros2_wavemakers.Image.Access.{ProcessImage, access}

-- The bytes that the loop of `load_from_registers` lays down.
unfoldable pub bytes_of : List ℕ → List ℕ
bytes_of [] = []
bytes_of (r ∷ rs) = hi_byte r ∷ lo_byte r ∷ bytes_of rs

-- The registers that the loop of `store_to_registers` reads.
unfoldable pub registers_of : List ℕ → List ℕ
registers_of [] = []
registers_of (a ∷ []) = []
registers_of (a ∷ b ∷ rest) = word a b ∷ registers_of rest

unfoldable pub load_from_registers : ProcessImage → List ℕ → ℕ → Outcome ProcessImage
unfolding access bytes_of
load_from_registers buf regs byte_offset = do
  access buf byte_offset (length regs * 2)
  ok (overwrite byte_offset (bytes_of regs) buf)

unfoldable pub store_to_registers : ProcessImage → ℕ → ℕ → Outcome (List ℕ)
unfolding access registers_of
store_to_registers buf count byte_offset = do
  access buf byte_offset (count * 2)
  ok (registers_of (slice byte_offset (count * 2) buf))
