-- ===== src/Actuator/Tests.antt =====
-- The actuator's theorems at a concrete set of parameters.
use ros2_wavemakers.Actuator.Commands.{clamp, halt_actuator, hold_target}
use ros2_wavemakers.Actuator.Config.{
  configure, drive_config, gateway_config, in_range, is_angular, is_positive, limits_invalid,
  magnitude, periods_valid, refuse_if, registers_valid, as_int,
}
use ros2_wavemakers.Actuator.Holding.{IsIrreflexive, halt_actuator-Moved}
use ros2_wavemakers.Actuator.Types.{Actuator, Parameters, Settings, accepted}
use ros2_wavemakers.Actuator.Valid.{IsValid, configure-IsValid}
use ros2_wavemakers.Base.{Outcome, arith, err, false, ok, pos, refl, true, ℕ, ◌+◌, ◌≡◌}
use ros2_wavemakers.Drive.Commands.{move_to, write_tag}
use ros2_wavemakers.Drive.Enabling.{Moved}
use ros2_wavemakers.Drive.Samples.{plain_formats, running_drive, tick}
use ros2_wavemakers.Drive.Types.{IndraDrive, drive_tag, drive_tags}
use ros2_wavemakers.Driver.Registry.{lookup, same_area, tag, tag_checked}
use ros2_wavemakers.Driver.Samples.{Gateway, gateway, small_config}
use ros2_wavemakers.Driver.Staging.{stage, touch, write}
use ros2_wavemakers.Image.Samples.{fixed_point}
use ros2_wavemakers.Image.Tags.{set_scaled}
use ros2_wavemakers.Image.Types.{size_bytes}

abbrev linear_parameters : Parameters ℕ
linear_parameters = record {
  driver_address = "192.168.127.254";
  driver_port = pos 502;
  driver_unit_id = pos 1;
  input_base_reg = pos 0;
  input_word_count = pos 7;
  output_base_reg = pos 2048;
  output_word_count = pos 6;
  input_uses_fc4 = true;
  status_base_reg = pos 768;
  status_word_count = pos 3;
  status_uses_fc4 = true;
  poll_interval_ms = pos 50;
  timeout_ms = pos 1000;
  reconnect_ms = pos 2000;
  write_only_dirty = false;
  profibus_address = pos 2;
  min_position_deg = 0;
  max_position_deg = 5000000;
  min_position_m = 1000;
  max_position_m = 10000;
  max_velocity_rpm = 1000000;
  hold_velocity_rpm = 100000;
  in_position_tol_deg = 1000;
  step_timeout_ms = pos 100;
  actuator_drive_type = "linear";
  actuator_lead_m_per_degree = 0;
  actuator_upright_angle_deg = 0;
  wavemaker_upright_position_m = 0;
}

abbrev linear_settings : Settings ℕ
linear_settings = record {
  gateway = record small_config {
    poll_interval_ms = 50;
    timeout_ms = 1000;
    reconnect_ms = 2000;
    write_only_dirty = false;
  };
  drive = record (running_drive.cfg) { min_position = 1000; max_position = 10000 };
  drive_type = "linear";
  lead_m_per_degree = 0;
  upright_angle_deg = 0;
  position_offset_m = 0;
  hold_velocity_rpm = 100000;
}

configures : configure fixed_point linear_parameters ≡ accepted linear_settings
unfolding configure refuse_if is_angular registers_valid periods_valid limits_invalid in_range
    as_int is_positive gateway_config drive_config magnitude
configures = refl

linear-IsValid : IsValid fixed_point linear_settings
linear-IsValid = configure-IsValid fixed_point linear_parameters configures

abbrev wait_on : ℕ → IndraDrive ℕ Gateway → IndraDrive ℕ Gateway
wait_on ms s = record s { now = s.now + ms }

abbrev moving : Actuator ℕ Gateway
moving = record {
  drive = record running_drive { enabled = true; cfg = linear_settings.drive };
  settings = linear_settings;
  last_target = 20000;
  has_target = true;
}

abbrev settled : Outcome (Actuator ℕ Gateway) → Actuator ℕ Gateway
settled (ok a) = a
settled (err e) = moving

irreflexive : IsIrreflexive fixed_point plain_formats gateway tick wait_on
irreflexive x = ground arith

abbrev held_actuator : Actuator ℕ Gateway
held_actuator = settled (halt_actuator fixed_point plain_formats gateway tick wait_on moving)

halts : halt_actuator fixed_point plain_formats gateway tick wait_on moving ≡ ok held_actuator
unfolding halt_actuator hold_target clamp move_to write_tag write tag_checked tag lookup same_area
    set_scaled stage touch size_bytes drive_tags drive_tag
halts = refl

halt_moves :
    (target : ℕ) × Moved fixed_point plain_formats tick target linear_settings.hold_velocity_rpm
      moving.drive true held_actuator.drive
halt_moves =
    halt_actuator-Moved fixed_point plain_formats gateway tick wait_on moving irreflexive
      linear-IsValid refl refl refl halts
