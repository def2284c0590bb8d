-- ===== src/Actuator/Config.antt =====
-- The constructor: its checks in their order, and the configurations it makes.
use text.Mathlib.Text.{◌==◌ as str_eq}
use ros2_wavemakers.Actuator.Types.{
  Actuator, Checked, Parameters, Refusal, Settings, accepted, bad_drive_type, bad_hold_velocity,
  bad_lead, bad_limits, bad_periods, bad_profibus_address, bad_registers, denied, no_address,
}
use ros2_wavemakers.Base.{
  Bool, Outcome, false, if◌then◌else◌, leb, ltb, negsuc, not, ok, pos, true, ℕ, ℤ, ◌&&◌, ◌>>=◌,
  ◌||◌, signed, wrap, ◌^◌,
}
use ros2_wavemakers.Drive.Types.{IndraDriveConfig, make_drive}
use ros2_wavemakers.Driver.State.{GatewayConfig, make}
use ros2_wavemakers.Image.Types.{FloatOps}
use ros2_wavemakers.Modbus.Port.{ModbusPort}

-- What is left of the `int64_t` that `as_int` gives in an `int` of 32 bits.
unfoldable pub as_int : ℤ → ℤ
as_int v = signed (2 ^ 32) (wrap (2 ^ 32) v)

-- `lo <= v && v <= hi`.
unfoldable pub in_range : ℕ → ℕ → ℤ → Bool
in_range lo hi (pos n) = leb lo n && leb n hi
in_range lo hi (negsuc n) = false

-- `v > 0`.
unfoldable pub is_positive : ℤ → Bool
is_positive (pos n) = ltb 0 n
is_positive (negsuc n) = false

-- The value of a checked integer.
unfoldable pub magnitude : ℤ → ℕ
magnitude (pos n) = n
magnitude (negsuc n) = 0

unfoldable pub refuse_if : {A : Type 0} → Bool → Refusal → Checked A → Checked A
refuse_if true r rest = denied r
refuse_if false r rest = rest

module _ {D : Type 0} where
  unfoldable pub is_angular : Parameters D → Bool
  is_angular p = str_eq p.actuator_drive_type "angular"

  unfoldable pub registers_valid : Parameters D → Bool
  unfolding in_range as_int
  registers_valid p =
      in_range 1 65535 (as_int p.driver_port)
      && in_range 0 255 (as_int p.driver_unit_id)
      && in_range 0 65535 (as_int p.input_base_reg)
      && in_range 1 65535 (as_int p.input_word_count)
      && in_range 0 65535 (as_int p.output_base_reg)
      && in_range 1 65535 (as_int p.output_word_count)
      && in_range 0 65535 (as_int p.status_base_reg)
      && in_range 0 65535 (as_int p.status_word_count)

  unfoldable pub periods_valid : Parameters D → Bool
  unfolding is_positive as_int
  periods_valid p =
      is_positive (as_int p.poll_interval_ms)
      && is_positive (as_int p.timeout_ms)
      && is_positive (as_int p.reconnect_ms)

  unfoldable pub gateway_config : Parameters D → GatewayConfig
  unfolding magnitude as_int
  gateway_config p = record {
    host = p.driver_address;
    port = magnitude (as_int p.driver_port);
    unit_id = magnitude (as_int p.driver_unit_id);
    input_base_reg = magnitude (as_int p.input_base_reg);
    input_word_count = magnitude (as_int p.input_word_count);
    output_base_reg = magnitude (as_int p.output_base_reg);
    output_word_count = magnitude (as_int p.output_word_count);
    input_uses_fc4 = p.input_uses_fc4;
    status_base_reg = magnitude (as_int p.status_base_reg);
    status_word_count = magnitude (as_int p.status_word_count);
    status_uses_fc4 = p.status_uses_fc4;
    poll_interval_ms = magnitude (as_int p.poll_interval_ms);
    timeout_ms = magnitude (as_int p.timeout_ms);
    reconnect_ms = magnitude (as_int p.reconnect_ms);
    write_only_dirty = p.write_only_dirty;
  }

  unfoldable pub drive_config : Parameters D → IndraDriveConfig D
  unfolding magnitude as_int is_angular
  drive_config p = record {
    name_prefix = "Drv.";
    profibus_address = magnitude (as_int p.profibus_address);
    min_position = if is_angular p then p.min_position_deg else p.min_position_m;
    max_position = if is_angular p then p.max_position_deg else p.max_position_m;
    max_velocity_rpm = p.max_velocity_rpm;
    in_position_tol_deg = p.in_position_tol_deg;
    step_timeout_ms = magnitude (as_int p.step_timeout_ms);
  }

module _ (fp : FloatOps) where
  open fp use {Double, lt, eq, decimal}

  -- `a <= b`.
  abbrev pub at_most : Double → Double → Bool
  at_most a b = lt a b || eq a b

  abbrev pub nothing : Double
  nothing = decimal (pos 0) 0

  unfoldable pub limits_invalid : Parameters Double → Bool
  unfolding drive_config is_positive as_int
  limits_invalid p =
      let c = drive_config p in
      at_most c.max_position c.min_position
      || at_most c.max_velocity_rpm nothing
      || lt c.in_position_tol_deg nothing
      || not (is_positive (as_int p.step_timeout_ms))

  unfoldable pub configure : Parameters Double → Checked (Settings Double)
  configure p =
      refuse_if (not (str_eq p.actuator_drive_type "linear") && not (is_angular p)) bad_drive_type (
        refuse_if (is_angular p && at_most p.actuator_lead_m_per_degree nothing) bad_lead (
          refuse_if (str_eq p.driver_address "") no_address (
            refuse_if (not (registers_valid p)) bad_registers (
              refuse_if (not (in_range 0 125 (as_int p.profibus_address))) bad_profibus_address (
                refuse_if (not (periods_valid p)) bad_periods (
                  refuse_if (limits_invalid p) bad_limits (
                    refuse_if
                      (not (lt nothing p.hold_velocity_rpm)
                        || lt (drive_config p).max_velocity_rpm p.hold_velocity_rpm)
                      bad_hold_velocity
                      (accepted (record {
                        gateway = gateway_config p;
                        drive = drive_config p;
                        drive_type = p.actuator_drive_type;
                        lead_m_per_degree = p.actuator_lead_m_per_degree;
                        upright_angle_deg = p.actuator_upright_angle_deg;
                        position_offset_m = p.wavemaker_upright_position_m;
                        hold_velocity_rpm = p.hold_velocity_rpm;
                      })))))))))

  -- The end of the constructor: the driver and the drive on it.
  unfoldable pub make_actuator :
      {C : Type 0} → ModbusPort C → C → ℕ → Settings Double → Outcome (Actuator Double C)
  make_actuator port c now s = do
    drive ← make_drive fp s.drive now (make port s.gateway c)
    ok (record { drive = drive; settings = s; last_target = nothing; has_target = false })
