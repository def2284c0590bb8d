-- ===== src/Driver/Samples.antt =====
-- A concrete gateway and drivers on it.
use text.Mathlib.Text.{◌==◌ as str_eq}
use ros2_wavemakers.Base.{
  Bool, Bool-cases, [], arith, false, get_or, if◌then◌else◌, inl, inr, leb, length, ltb, refl,
  replicate, suc, true, zero, ℕ, ◌&&◌, ◌+◌, ◌-◌, ◌<◌, ◌==◌, ◌∷◌, ◌≡◌, ◌≢◌, ◌≤◌, ◌⊎◌, EachBelow,
}
use ros2_wavemakers.Driver.Keep.{IsTagged}
use ros2_wavemakers.Driver.Registry.{area_of, lookup}
use ros2_wavemakers.Driver.State.{Driver, GatewayConfig, no_stats}
use ros2_wavemakers.Driver.Sync.{IsSized, IsSynced}
use ros2_wavemakers.Image.Samples.{word_tag}
use ros2_wavemakers.Image.Types.{size_bytes}
use ros2_wavemakers.Modbus.Names.{success}
use ros2_wavemakers.Modbus.Port.{IsDevice, ModbusPort}

pub record Gateway : Type 0 where
  pub up : Bool
  pub memory : ℕ → ℕ

abbrev pub gateway : ModbusPort Gateway
gateway = record {
  connected = λ c. c.up;
  open_connection = λ host port ms c. (success, record c { up = true });
  close_connection = λ c. record c { up = false };
  set_unit = λ id c. c;
  set_transaction_timeout = λ ms c. c;
  read_input = λ addr n c. ((success, replicate n 0xC002), c);
  read_holding = λ addr n c. ((success, replicate n 0xC002), c);
  write_single =
      λ addr value c. (success, record c { memory = λ a. if a == addr then value else c.memory a });
  write_multiple = λ addr src c. (
    success,
    record c {
      memory = λ a.
          if leb addr a && ltb a (addr + length src) then get_or src (a - addr) 0 else c.memory a;
    },
  );
}

pub elsewhere : (a addr x y : ℕ) → a ≢ addr → (if a == addr then x else y) ≡ y
elsewhere a addr x y h = ground arith

pub outside :
    (addr n a x y : ℕ)
    → (a < addr) ⊎ (addr + n ≤ a)
    → (if leb addr a && ltb a (addr + n) then x else y) ≡ y
outside addr n a x y h = ground arith

abbrev pub gateway_device : IsDevice gateway
gateway_device = record {
  register = λ c. c.memory;
  writes_single = λ addr value c fits word h a. refl;
  writes_multiple = λ addr src c fits words h a. refl;
  single_spares = λ addr value c a fits h. elsewhere a addr value (c.memory a) h;
  multiple_spares =
      λ addr src c a fits h. outside addr (length src) a (get_or src (a - addr) 0) (c.memory a) h;
  input_spares = λ addr n c a. refl;
  holding_spares = λ addr n c a. refl;
  closes = λ c. refl;
}

-- Six words of output, twelve bytes, kept at register 2048.
abbrev pub small_config : GatewayConfig
small_config = record {
  host = "192.168.127.254";
  port = 502;
  unit_id = 1;
  input_base_reg = 0;
  input_word_count = 7;
  output_base_reg = 2048;
  output_word_count = 6;
  input_uses_fc4 = true;
  status_base_reg = 768;
  status_word_count = 3;
  status_uses_fc4 = true;
  poll_interval_ms = 10;
  timeout_ms = 500;
  reconnect_ms = 1000;
  write_only_dirty = true;
}

-- One tag, and two bytes staged that the gateway does not hold yet.
abbrev pub small_driver : Driver ℕ Gateway
small_driver = record {
  cfg = small_config;
  client = record { up = true; memory = λ a. 0 };
  tags = ("word", word_tag) ∷ [];
  inputs = replicate 14 0;
  outputs = 0x34 ∷ 0x12 ∷ replicate 10 0;
  status = 3 ∷ replicate 2 0;
  dirty_lo = 0;
  dirty_hi = 2;
  running = true;
  online = true;
  have_data = true;
  stats = no_stats;
}

pub small_driver-IsSized : IsSized small_driver
small_driver-IsSized = record { area = refl; space = omega arith; dirty = omega arith }

pub small_driver-IsTagged : IsTagged small_driver
unfolding lookup size_bytes area_of
small_driver-IsTagged name t found = elim (Bool-cases (str_eq "word" name)) [
  | inl same ↦
      let e : word_tag ≡ t = cc (rw same at found) in
      rw (← e) (record { some_bytes = omega arith; inside = omega arith })
  | inr other ↦ absurd (let e = rw other at found in cc)
]

pub small_driver-IsSynced : IsSynced gateway gateway_device small_driver
small_driver-IsSynced zero k clean = absurd (omega arith)
small_driver-IsSynced (suc zero) k clean = refl
small_driver-IsSynced (suc (suc zero)) k clean = refl
small_driver-IsSynced (suc (suc (suc zero))) k clean = refl
small_driver-IsSynced (suc (suc (suc (suc zero)))) k clean = refl
small_driver-IsSynced (suc (suc (suc (suc (suc zero))))) k clean = refl
small_driver-IsSynced (suc (suc (suc (suc (suc (suc i)))))) k clean = absurd (omega arith)

zeros-bytes : (n : ℕ) → EachBelow 256 (replicate n 0)
zeros-bytes zero i = omega arith
zeros-bytes (suc n) zero = omega arith
zeros-bytes (suc n) (suc i) = zeros-bytes n i

pub small_driver-bytes : EachBelow 256 small_driver.outputs
small_driver-bytes zero = omega arith
small_driver-bytes (suc zero) = omega arith
small_driver-bytes (suc (suc i)) = zeros-bytes 10 i
