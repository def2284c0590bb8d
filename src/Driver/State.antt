-- ===== src/Driver/State.antt =====
-- Configuration and state of the driver. Each locked region of the source is one function here;
-- `Driver` holds the fields that the mutexes guard and the atomics.
use ros2_wavemakers.Base.{
  Bool, List, String, [], false, if◌then◌else◌, not, replicate, true, ℕ, ◌*◌,
}
use ros2_wavemakers.Image.Access.{ProcessImage}
use ros2_wavemakers.Image.Types.{Tag}
use ros2_wavemakers.Modbus.Port.{ModbusPort}

pub record GatewayConfig : Type 0 where
  pub host : String
  pub port : ℕ
  pub unit_id : ℕ
  pub input_base_reg : ℕ
  pub input_word_count : ℕ
  pub output_base_reg : ℕ
  pub output_word_count : ℕ
  pub input_uses_fc4 : Bool
  pub status_base_reg : ℕ
  pub status_word_count : ℕ
  pub status_uses_fc4 : Bool
  pub poll_interval_ms : ℕ
  pub timeout_ms : ℕ
  pub reconnect_ms : ℕ
  pub write_only_dirty : Bool

pub record DriverStats : Type 0 where
  pub cycles : ℕ
  pub read_errors : ℕ
  pub write_errors : ℕ
  pub reconnects : ℕ
  pub last_cycle_us : ℕ
  pub last_error : String

-- `D` is the type of `double`, `C` that of the Modbus client. `tags` is the `std::map`.
pub record Driver (D C : Type 0) : Type 0 where
  pub cfg : GatewayConfig
  pub client : C
  pub tags : List (String × Tag D)
  pub inputs : ProcessImage
  pub outputs : ProcessImage
  pub status : List ℕ
  pub dirty_lo : ℕ
  pub dirty_hi : ℕ
  pub running : Bool
  pub online : Bool
  pub have_data : Bool
  pub stats : DriverStats

abbrev pub no_stats : DriverStats
no_stats = record {
  cycles = 0;
  read_errors = 0;
  write_errors = 0;
  reconnects = 0;
  last_cycle_us = 0;
  last_error = "";
}

module _ {D C : Type 0} (port : ModbusPort C) where
  -- The constructor.
  unfoldable pub make : GatewayConfig → C → Driver D C
  make cfg c = record {
    cfg = cfg;
    client = port.set_transaction_timeout cfg.timeout_ms (port.set_unit cfg.unit_id c);
    tags = [];
    inputs = replicate (cfg.input_word_count * 2) 0;
    outputs = replicate (cfg.output_word_count * 2) 0;
    status = replicate cfg.status_word_count 0;
    dirty_lo = 0;
    dirty_hi = 0;
    running = false;
    online = false;
    have_data = false;
    stats = no_stats;
  }

  -- `start` sets `running_` and begins the poll thread; a second call does nothing.
  unfoldable pub start : Driver D C → Driver D C
  start d = if d.running then d else record d { running = true }

  -- `stop` waits for the thread, whose last stores are those below `poll_loop`'s loop.
  unfoldable pub stop : Driver D C → Driver D C
  stop d = if not d.running then d else record d {
    running = false;
    client = port.close_connection d.client;
    online = false;
    have_data = false;
  }
