-- ===== src/Modbus/Wire.antt =====
-- Frames and request PDUs as bytes.
use ros2_wavemakers.Base.{
  Bool, List, Option, [], get_or, hi_byte, if◌then◌else◌, length, lo_byte, ltb, none, not, slice,
  some, u16, u8, word, ℕ, ◌&&◌, ◌*◌, ◌+◌, ◌==◌, ◌||◌, ◌∷◌,
}
use ros2_wavemakers.Image.Registers.{bytes_of, registers_of}

-- The MBAP header with the PDU behind it, as `transact` lays it out.
unfoldable pub frame : ℕ → ℕ → List ℕ → List ℕ
frame tid unit_id pdu =
    hi_byte tid
    ∷ lo_byte tid
    ∷ 0
    ∷ 0
    ∷ hi_byte (u16 (length pdu + 1))
    ∷ lo_byte (u16 (length pdu + 1))
    ∷ unit_id
    ∷ pdu

-- What `transact` reads from the seven bytes of a header.
pub record Header : Type 0 where
  pub rtid : ℕ
  pub proto : ℕ
  pub rlen : ℕ

unfoldable pub parse_header : List ℕ → Header
parse_header hdr = record {
  rtid = word (get_or hdr 0 0) (get_or hdr 1 0);
  proto = word (get_or hdr 2 0) (get_or hdr 3 0);
  rlen = word (get_or hdr 4 0) (get_or hdr 5 0);
}

-- `proto != 0 || rlen < 2 || rlen > 254` is the complement.
unfoldable pub acceptable : Header → Bool
acceptable h = h.proto == 0 && not (ltb h.rlen 2) && not (ltb 254 h.rlen)

unfoldable pub read_pdu : ℕ → ℕ → ℕ → List ℕ
read_pdu fc addr count = fc ∷ hi_byte addr ∷ lo_byte addr ∷ hi_byte count ∷ lo_byte count ∷ []

unfoldable pub write_single_pdu : ℕ → ℕ → List ℕ
write_single_pdu addr value =
    0x06 ∷ hi_byte addr ∷ lo_byte addr ∷ hi_byte value ∷ lo_byte value ∷ []

unfoldable pub write_multiple_pdu : ℕ → List ℕ → List ℕ
write_multiple_pdu addr src =
    0x10
    ∷ hi_byte addr
    ∷ lo_byte addr
    ∷ hi_byte (length src)
    ∷ lo_byte (length src)
    ∷ u8 (length src * 2)
    ∷ bytes_of src

unfoldable pub read_write_pdu : ℕ → ℕ → ℕ → List ℕ → List ℕ
read_write_pdu read_addr read_count write_addr src =
    0x17
    ∷ hi_byte read_addr
    ∷ lo_byte read_addr
    ∷ hi_byte read_count
    ∷ lo_byte read_count
    ∷ hi_byte write_addr
    ∷ lo_byte write_addr
    ∷ hi_byte (length src)
    ∷ lo_byte (length src)
    ∷ u8 (length src * 2)
    ∷ bytes_of src

-- The body of a reply to a read: its byte count is checked, then `count` registers are decoded.
unfoldable pub decode_registers : ℕ → List ℕ → Option (List ℕ)
decode_registers count resp =
    if ltb (length resp) (1 + count * 2) || not (get_or resp 0 0 == count * 2)
    then none
    else some (registers_of (slice 1 (count * 2) resp))
