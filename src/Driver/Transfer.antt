-- ===== src/Driver/Transfer.antt =====
-- The chunked transfers of a run of registers.
use ros2_wavemakers.Base.{
  List, [], drop, if◌then◌else◌, length, min, not, suc, take, u16, zero, ℕ, ◌++◌, ◌+◌, ◌-◌, ◌∷◌,
}
use ros2_wavemakers.Modbus.Client.{Reply}
use ros2_wavemakers.Modbus.Names.{Result, succeeded, success}
use ros2_wavemakers.Modbus.Port.{ModbusPort}

abbrev pub max_read_regs : ℕ
max_read_regs = 125

abbrev pub max_write_regs : ℕ
max_write_regs = 123

module _ {C : Type 0} (port : ModbusPort C) where
  -- One request of the loop: a single register goes by FC 6.
  unfoldable pub send_chunk : ℕ → List ℕ → C → Result × C
  send_chunk addr [] c = port.write_multiple addr [] c
  send_chunk addr (r ∷ []) c = port.write_single addr r c
  send_chunk addr (r ∷ s ∷ rest) c = port.write_multiple addr (r ∷ s ∷ rest) c

  -- The send loop: `addr` is the address of the first register that is left. Each round sends
  -- one register at least, so as many rounds as registers are enough.
  unfoldable pub send_loop : ℕ → ℕ → List ℕ → C → Result × C
  send_loop fuel addr [] c = (success, c)
  send_loop zero addr (r ∷ rs) c = (success, c)
  send_loop (suc fuel) addr (r ∷ rs) c =
      let left = r ∷ rs in
      let chunk = min max_write_regs (length left) in
      let (result, c') = send_chunk (u16 addr) (take chunk left) c in
      let next = send_loop fuel (addr + chunk) (drop chunk left) c' in
      if not (succeeded result) then (result, c') else next

module _ {C : Type 0} where
  -- The read loop of `read_inputs` and `read_status`: `left` registers are still wanted.
  unfoldable pub read_loop : (ℕ → ℕ → C → Reply × C) → ℕ → ℕ → ℕ → List ℕ → C → Reply × C
  read_loop reader fuel addr zero got c = ((success, got), c)
  read_loop reader zero addr (suc left) got c = ((success, got), c)
  read_loop reader (suc fuel) addr (suc left) got c =
      let chunk = min max_read_regs (suc left) in
      let (reply, c') = reader (u16 addr) chunk c in
      let next = read_loop reader fuel (addr + chunk) (suc left - chunk) (got ++ reply.1) c' in
      if not (succeeded reply.0) then ((reply.0, []), c') else next
