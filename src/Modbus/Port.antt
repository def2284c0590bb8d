-- ===== src/Modbus/Port.antt =====
-- What the cyclic driver uses of a Modbus client: the interface, and the TCP client as its
-- implementation.
use ros2_wavemakers.Base.{
  Bool, List, String, false, get_or, if◌then◌else◌, leb, length, ltb, true, ℕ, ◌&&◌, ◌+◌, ◌-◌, ◌<◌,
  ◌==◌, ◌≡◌, ◌≢◌, ◌≤◌, ◌⊎◌, EachBelow,
}
use ros2_wavemakers.Modbus.Client.{
  Client, Reply, connect, disconnect, is_connected, read_holding_registers, read_input_registers,
  set_timeout, set_unit_id, write_multiple_registers, write_single_register,
}
use ros2_wavemakers.Modbus.Names.{Result, succeeded}
use ros2_wavemakers.Modbus.Socket.{SocketOps}

pub record ModbusPort (C : Type 0) : Type 0 where
  pub connected : C → Bool
  pub open_connection : String → ℕ → ℕ → C → Result × C
  pub close_connection : C → C
  pub set_unit : ℕ → C → C
  pub set_transaction_timeout : ℕ → C → C
  -- FC 4 and FC 3: address and count.
  pub read_input : ℕ → ℕ → C → Reply × C
  pub read_holding : ℕ → ℕ → C → Reply × C
  -- FC 6 and FC 16.
  pub write_single : ℕ → ℕ → C → Result × C
  pub write_multiple : ℕ → List ℕ → C → Result × C

-- `ModbusTcpClient` over the operating system's socket.
abbrev pub tcp_port : {W : Type 0} → SocketOps W → ModbusPort (Client W)
tcp_port os = record {
  connected = is_connected os;
  open_connection = connect os;
  close_connection = disconnect os;
  set_unit = set_unit_id os;
  set_transaction_timeout = set_timeout os;
  read_input = read_input_registers os;
  read_holding = read_holding_registers os;
  write_single = write_single_register os;
  write_multiple = write_multiple_registers os;
}

-- What Modbus says of a device's registers, as far as the driver relies on it, for addresses and
-- values of 16 bits, which are all that a request can carry. `register` is the device's memory as it
-- stands behind the client. An accepted write of 16-bit words at addresses below 65536 sets the
-- addressed registers to the words sent; a write at such addresses, accepted or not, changes no other
-- register, and a read changes none; a closed connection is not connected.
pub record IsDevice {C : Type 0} (port : ModbusPort C) : Type 0 where
  pub register : C → ℕ → ℕ
  pub writes_single :
      (addr value : ℕ) (c : C)
      → addr < 65536
      → value < 65536
      → succeeded (port.write_single addr value c).0 ≡ true
      → (a : ℕ)
      → register (port.write_single addr value c).1 a ≡ (if a == addr then value else register c a)
  pub writes_multiple :
      (addr : ℕ) (src : List ℕ) (c : C)
      → addr + length src ≤ 65536
      → EachBelow 65536 src
      → succeeded (port.write_multiple addr src c).0 ≡ true
      → (a : ℕ)
      → register (port.write_multiple addr src c).1 a ≡ (
          if leb addr a && ltb a (addr + length src) then get_or src (a - addr) 0 else register c a)
  pub single_spares :
      (addr value : ℕ) (c : C) (a : ℕ)
      → addr < 65536
      → a ≢ addr
      → register (port.write_single addr value c).1 a ≡ register c a
  pub multiple_spares :
      (addr : ℕ) (src : List ℕ) (c : C) (a : ℕ)
      → addr + length src ≤ 65536
      → (a < addr) ⊎ (addr + length src ≤ a)
      → register (port.write_multiple addr src c).1 a ≡ register c a
  pub input_spares :
      (addr n : ℕ) (c : C) (a : ℕ) → register (port.read_input addr n c).1 a ≡ register c a
  pub holding_spares :
      (addr n : ℕ) (c : C) (a : ℕ) → register (port.read_holding addr n c).1 a ≡ register c a
  pub closes : (c : C) → port.connected (port.close_connection c) ≡ false
