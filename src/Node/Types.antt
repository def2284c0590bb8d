-- ===== src/Node/Types.antt =====
-- The actuator that the node works with, the state of the node and what it gives to the outside.
use ros2_wavemakers.Actuator.Types.{ActuatorSetpoint}
use ros2_wavemakers.Base.{
  Bool, Error, List, Option, Outcome, String, err, false, if◌then◌else◌, ok, ℕ, ◌==◌, ◌∷◌,
}
use ros2_wavemakers.Image.Types.{FloatOps}
use ros2_wavemakers.Wave.Math.{Analysis}
use ros2_wavemakers.Wave.Trajectory.{PregeneratedWave, WaveTrajectory}

-- The class `WavemakerActuator`: `A` is the state of an actuator. A call gives the state that it
-- leaves, also where it throws.
pub record ActuatorOps (D A : Type 0) : Type 0 where
  pub start : A → Outcome Bool × A
  pub halt : A → Outcome (Unit {0}) × A
  pub stop : A → Outcome (Unit {0}) × A
  pub is_live : A → Bool
  pub faulted : A → Bool
  pub fault_reason : A → String
  pub actual_position_m : A → Outcome D
  pub to_actuator_setpoint : D → D → A → ActuatorSetpoint D
  pub write_setpoint : ActuatorSetpoint D → A → Outcome Bool × A
  pub max_velocity_mps : A → D
  pub update_period_ms : A → ℕ

-- The parameters of the node that `on_configure` reads.
pub record NodeParameters (D : Type 0) : Type 0 where
  pub wavemaker_type : String
  pub driver_address : String
  pub wavemaker_id : String
  pub wavemaker_upright_position_m : D
  pub wavemaker_upright_is_minimum : Bool
  pub wavemaker_mode_pregenerated : Bool
  pub water_depth : D
  pub wavemaker_transfer_gain : D
  pub wavemaker_transfer_gain_periods : List D
  pub wavemaker_transfer_gain_values : List D
  pub flap_attachment_height : D
  pub hinge_height : D
  pub actuator_upright_angle_deg : D
  pub actuator_drive_type : String
  pub actuator_lead_m_per_degree : D
  pub min_position_deg : D
  pub max_position_deg : D
  pub wavemaker_minimum : D
  pub wavemaker_maximum : D
  pub return_to_upright_max_velocity_mps : D
  pub return_to_upright_min_duration_s : D
  pub return_to_upright_default_tolerance_m : D
  pub return_to_upright_timeout_margin_s : D
  pub positioning_velocity_margin : D
  pub soft_stop_timeout_ns : ℕ

-- What the node keeps of them.
pub record NodeSettings (D : Type 0) : Type 0 where
  pub parameters : NodeParameters D
  pub goal_position_minimum : D
  pub goal_position_maximum : D

-- A goal of the action, as it is sent.
pub record Goal (D : Type 0) : Type 0 where
  pub height : D
  pub period : D
  pub positions : List D
  pub sample_interval : D

-- What the action server says of a goal: whether it is still active, and whether its cancellation
-- was accepted.
pub record GoalStatus : Type 0 where
  pub is_active : Bool
  pub is_canceling : Bool

pub data CallbackReturn : Type 0 where
  returns_success returns_failure returns_error : CallbackReturn

pub data ReturnStatus : Type 0 where
  at_upright timed_out faulty position_invalid interrupted : ReturnStatus

-- The status numbers of `ReturnToUpright::Response` and of `CancelAllGoals::Response`.
pub data ResponseStatus : Type 0 where
  reply_success reply_timeout reply_busy invalid_position controller_inactive : ResponseStatus
  actuator_fault actuator_not_ready : ResponseStatus
  server_unavailable request_rejected no_active_goals request_accepted : ResponseStatus

-- What the worker thread runs.
pub data Work (D : Type 0) : Type 0 where
  execute : ℕ → Work D
  return_upright : ℕ → D → Work D

-- A goal is named by a number, a service call by that of its request. `replied` carries the
-- position of the answer, if it is a number.
pub data NodeEffect (D : Type 0) : Type 0 where
  setpoint : D → NodeEffect D
  velocity : D → NodeEffect D
  measured : D → NodeEffect D
  actuator_setpoint : D → NodeEffect D
  goal_executes : ℕ → NodeEffect D
  goal_feedback : ℕ → D → D → D → NodeEffect D
  goal_canceled : ℕ → String → NodeEffect D
  goal_aborted : ℕ → String → NodeEffect D
  goal_succeeded : ℕ → String → NodeEffect D
  replied_upright : ℕ → ResponseStatus → Option D → String → NodeEffect D
  replied_cancel : ℕ → ResponseStatus → ℕ → String → NodeEffect D
  cancels_all : ℕ → NodeEffect D
  triggers_deactivate : NodeEffect D
  bond_up : NodeEffect D
  bond_down : NodeEffect D

-- `actuator` has a meaning only where `has_actuator`, `resources` is whether what `on_configure`
-- creates is there, `worker` is what the execution thread still runs, and `final_position` the
-- variable of a return to upright. `soft_stop_timeout_ns` is the parameter `soft_stop_timeout_s`
-- after its conversion. Times are nanoseconds of the
-- steady clock; `effects` has the latest first.
pub record WavemakerNode (D A : Type 0) : Type 0 where
  pub settings : NodeSettings D
  pub trajectory : WaveTrajectory D
  pub pregenerated : PregeneratedWave D
  pub goal_velocity_cap_mps : D
  pub control_period_ms : ℕ
  pub has_actuator : Bool
  pub actuator : A
  pub resources : Bool
  pub bond : Bool
  pub accepting_goals : Bool
  pub goal_pending : Bool
  pub returning_to_upright : Bool
  pub goal_handle : Option ℕ
  pub goals : ℕ → GoalStatus
  pub stop_execution : Bool
  pub worker : Option (Work D)
  pub final_position : Option D
  pub soft_stopped : Bool
  pub soft_stop_last_msg_ns : ℕ
  pub soft_stop_configured_ns : ℕ
  pub soft_stop_missing_logged : Bool
  pub soft_stop_silent_logged : Bool
  pub fault_pending : Bool
  pub fault_transition_pending : Bool
  pub pending_fault_reason : String
  pub now : ℕ
  pub effects : List (NodeEffect D)

-- What a function of the node that may throw gives.
abbrev pub Tried : (D A X : Type 0) → Type 0
Tried D A X = Outcome X × WavemakerNode D A

module _ {D A : Type 0} where
  abbrev pub note : NodeEffect D → WavemakerNode D A → WavemakerNode D A
  note e n = record n { effects = e ∷ n.effects }

  -- A goal comes to one of its ends: it is neither active nor canceling any more.
  unfoldable pub finish_goal : ℕ → NodeEffect D → WavemakerNode D A → WavemakerNode D A
  finish_goal g e n = record n {
    goals =
        λ g'. if g' == g then record { is_active = false; is_canceling = false } else n.goals g';
    effects = e ∷ n.effects;
  }

  abbrev pub and_then :
      {X Y : Type 0} → Tried D A X → (X → WavemakerNode D A → Tried D A Y) → Tried D A Y
  and_then (err e, n) next = (err e, n)
  and_then (ok x, n) next = next x n

  -- `try { … } catch (...) { … }`.
  abbrev pub on_throw :
      {X : Type 0} → Tried D A X → (Error → WavemakerNode D A → Tried D A X) → Tried D A X
  on_throw (err e, n) handler = handler e n
  on_throw (ok x, n) handler = (ok x, n)

  -- A call of the actuator.
  abbrev pub call_actuator : {X : Type 0} → (A → Outcome X × A) → WavemakerNode D A → Tried D A X
  call_actuator call n = let r = call n.actuator in (r.0, record n { actuator = r.1 })

-- What the node stands on besides floating point: the actuator, the texts of exceptions, whether the
-- context is still up (`rclcpp::ok`), what the execution thread does until it ends while another
-- thread joins it, and what happens while the execution thread sleeps.
pub record NodeEnv (fp : FloatOps) (A : Type 0) : Type 0 where
  pub analysis : Analysis (fp.Double)
  pub isfinite : fp.Double → Bool
  pub ops : ActuatorOps (fp.Double) A
  pub what : Error → String
  pub context_ok : WavemakerNode (fp.Double) A → Bool
  pub join : WavemakerNode (fp.Double) A → WavemakerNode (fp.Double) A
  pub sleep : WavemakerNode (fp.Double) A → WavemakerNode (fp.Double) A
