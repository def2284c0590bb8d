-- ===== src/Actuator/Types.antt =====
-- The node's parameters, the settings made of them, and the actuator's state.
use ros2_wavemakers.Base.{Bool, String, ℤ}
use ros2_wavemakers.Drive.Types.{IndraDrive, IndraDriveConfig}
use ros2_wavemakers.Driver.State.{GatewayConfig}

pub record Parameters (D : Type 0) : Type 0 where
  pub driver_address : String
  pub driver_port : ℤ
  pub driver_unit_id : ℤ
  pub input_base_reg : ℤ
  pub input_word_count : ℤ
  pub output_base_reg : ℤ
  pub output_word_count : ℤ
  pub input_uses_fc4 : Bool
  pub status_base_reg : ℤ
  pub status_word_count : ℤ
  pub status_uses_fc4 : Bool
  pub poll_interval_ms : ℤ
  pub timeout_ms : ℤ
  pub reconnect_ms : ℤ
  pub write_only_dirty : Bool
  pub profibus_address : ℤ
  pub min_position_deg : D
  pub max_position_deg : D
  pub min_position_m : D
  pub max_position_m : D
  pub max_velocity_rpm : D
  pub hold_velocity_rpm : D
  pub in_position_tol_deg : D
  pub step_timeout_ms : ℤ
  pub actuator_drive_type : String
  pub actuator_lead_m_per_degree : D
  pub actuator_upright_angle_deg : D
  pub wavemaker_upright_position_m : D

-- The `invalid_argument`s of the constructor.
pub data Refusal : Type 0 where
  bad_drive_type : Refusal
  bad_lead : Refusal
  no_address : Refusal
  bad_registers : Refusal
  bad_profibus_address : Refusal
  bad_periods : Refusal
  bad_limits : Refusal
  bad_hold_velocity : Refusal

pub data Checked (A : Type 0) : Type 0 where
  denied : Refusal → Checked A
  accepted : A → Checked A

-- What the constructor keeps, with the two configurations that it passes on.
pub record Settings (D : Type 0) : Type 0 where
  pub gateway : GatewayConfig
  pub drive : IndraDriveConfig D
  pub drive_type : String
  pub lead_m_per_degree : D
  pub upright_angle_deg : D
  pub position_offset_m : D
  pub hold_velocity_rpm : D

-- The object behind its two pointers, which the constructor sets and nothing resets.
pub record Actuator (D C : Type 0) : Type 0 where
  pub drive : IndraDrive D C
  pub settings : Settings D
  pub last_target : D
  pub has_target : Bool

pub record ActuatorSetpoint (D : Type 0) : Type 0 where
  pub position : D
  pub velocity : D
