-- ===== src/Node/Tests.antt =====
-- A piston in the mode of pregenerated files on a simple actuator, which goes to every setpoint.
use ros2_wavemakers.Base.{
  Bool, [], false, inl, inr, none, ok, refl, some, true, ℕ, ◌+◌, ◌/◌, ◌∷◌, ◌≡◌,
}
use ros2_wavemakers.Image.Samples.{fixed_point}
use ros2_wavemakers.Node.Acceptance.{Prepared, goal_callback-Accepted}
use ros2_wavemakers.Node.Activity.{IsWorkerEnd, Quiet, process_driver_fault-fails}
use ros2_wavemakers.Node.Claims.{
  Exclusive, Regions, Regions-Exclusive, asks, begins, claims, follows, takes,
}
use ros2_wavemakers.Node.Config.{
  angular_invalid, any_of, check_parameters, drive_invalid, gains_invalid, geometry_invalid,
  linear_invalid, minimum_invalid, not_ascending, numbers_invalid, returns_invalid, scales_invalid,
  settings_of, upright_outside,
}
use ros2_wavemakers.Node.Endings.{goal_loop-Over, goal_loop-halts}
use ros2_wavemakers.Node.Execute.{
  abort_active_goal, abort_goal, clamp_between, goal_loop, goal_round, publish_and_write_setpoint,
  release_handle, sample_goal,
}
use ros2_wavemakers.Node.Goals.{
  accept_peak_velocity, goal_callback, prepare_from, prepare_goal, prepare_positions,
  prepare_pregenerated, soft_stop_active, start_outside, velocity_cap, within_speed_limit,
}
use ros2_wavemakers.Node.Lifecycle.{on_deactivate, process_driver_fault, stop_activity}
use ros2_wavemakers.Node.Preparation.{Ready}
use ros2_wavemakers.Node.Release.{AtRest, Over}
use ros2_wavemakers.Node.Returning.{Near, move_to_upright-Near}
use ros2_wavemakers.Node.Types.{
  ActuatorOps, Goal, NodeEnv, NodeParameters, NodeSettings, WavemakerNode, actuator_setpoint,
  execute, finish_goal, measured, returns_error, setpoint, velocity,
}
use ros2_wavemakers.Node.Upright.{move_to_upright, upright_loop, upright_motion, upright_round}
use ros2_wavemakers.Node.Valid.{IsConfigured, check_parameters-IsConfigured}
use ros2_wavemakers.Node.Workers.{claim_return, join_worker, stop_execution, take_goal}
use ros2_wavemakers.Wave.Math.{Analysis, last_of, quintic_blend}
use ros2_wavemakers.Wave.Peak.{configure_wave_file, peak_velocity_file, segment_peak}
use ros2_wavemakers.Wave.Trajectory.{
  sample_index, sample_pregenerated, sample_wave_file, wave_duration,
}

abbrev plain_analysis : Analysis ℕ
plain_analysis = record {
  sqrt = λ x. x;
  exp = λ x. x;
  pow = λ x y. x;
  tanh = λ x. x;
  sinh = λ x. x;
  cosh = λ x. x;
  sin = λ x. x;
  cos = λ x. x;
  pi = 31416;
  to_index = λ x. x / 10000;
}

abbrev plain_ops : ActuatorOps ℕ ℕ
plain_ops = record {
  start = λ a. (ok true, a);
  halt = λ a. (ok tt, a);
  stop = λ a. (ok tt, a);
  is_live = λ a. true;
  faulted = λ a. false;
  fault_reason = λ a. "";
  actual_position_m = λ a. ok a;
  to_actuator_setpoint = λ x v a. record { position = x; velocity = v };
  write_setpoint = λ x a. (ok true, x.position);
  max_velocity_mps = λ a. 100000;
  update_period_ms = λ a. 20;
}

abbrev all_finite : ℕ → Bool
all_finite x = true

-- The thread sleeps for five seconds.
abbrev plain_env : NodeEnv fixed_point ℕ
plain_env = record {
  analysis = plain_analysis;
  isfinite = all_finite;
  ops = plain_ops;
  what = λ e. "exception";
  context_ok = λ n. true;
  join = λ n. n;
  sleep = λ n. record n { now = n.now + 5000000000 };
}

abbrev piston_parameters : NodeParameters ℕ
piston_parameters = record {
  wavemaker_type = "piston";
  driver_address = "";
  wavemaker_id = "";
  wavemaker_upright_position_m = 10000;
  wavemaker_upright_is_minimum = false;
  wavemaker_mode_pregenerated = true;
  water_depth = 6000;
  wavemaker_transfer_gain = 10000;
  wavemaker_transfer_gain_periods = 10000 ∷ 20000 ∷ [];
  wavemaker_transfer_gain_values = 9000 ∷ 11000 ∷ [];
  flap_attachment_height = 0;
  hinge_height = 0;
  actuator_upright_angle_deg = 0;
  actuator_drive_type = "linear";
  actuator_lead_m_per_degree = 0;
  min_position_deg = 0;
  max_position_deg = 0;
  wavemaker_minimum = 1000;
  wavemaker_maximum = 10000;
  return_to_upright_max_velocity_mps = 1000;
  return_to_upright_min_duration_s = 10000;
  return_to_upright_default_tolerance_m = 20;
  return_to_upright_timeout_margin_s = 20000;
  positioning_velocity_margin = 12000;
  soft_stop_timeout_ns = 200000000000;
}

abbrev piston_settings : NodeSettings ℕ
piston_settings = record {
  parameters = piston_parameters;
  goal_position_minimum = 1000;
  goal_position_maximum = 10000;
}

piston-IsConfigured : IsConfigured fixed_point all_finite piston_parameters piston_settings
unfolding check_parameters numbers_invalid drive_invalid angular_invalid linear_invalid
    upright_outside minimum_invalid geometry_invalid gains_invalid scales_invalid returns_invalid
    any_of not_ascending settings_of
piston-IsConfigured = check_parameters-IsConfigured fixed_point all_finite piston_parameters refl

abbrev piston_node : WavemakerNode ℕ ℕ
piston_node = record {
  settings = piston_settings;
  trajectory = record {
    upright_position = 0;
    upright_is_minimum = false;
    amplitude = 0;
    omega = 0;
    start_position = 0;
    startup_duration = 0;
  };
  pregenerated = record {
    first = 4000;
    rest = 6000 ∷ [];
    sample_interval = 10000;
    start_position = 3000;
    blend_duration = 18750;
  };
  goal_velocity_cap_mps = 2400;
  control_period_ms = 20;
  has_actuator = true;
  actuator = 3000;
  resources = true;
  bond = true;
  accepting_goals = true;
  goal_pending = false;
  returning_to_upright = false;
  goal_handle = none;
  goals = λ g. record { is_active = true; is_canceling = false };
  stop_execution = false;
  worker = none;
  final_position = none;
  soft_stopped = false;
  soft_stop_last_msg_ns = 1000;
  soft_stop_configured_ns = 0;
  soft_stop_missing_logged = false;
  soft_stop_silent_logged = false;
  fault_pending = false;
  fault_transition_pending = false;
  pending_fault_reason = "";
  now = 1000;
  effects = [];
}

abbrev file_goal : Goal ℕ
file_goal = record { height = 0; period = 0; positions = 4000 ∷ 6000 ∷ []; sample_interval = 10000 }

abbrev pending_node : WavemakerNode ℕ ℕ
pending_node = record piston_node { goal_pending = true }

goal_accepted :
    Ready fixed_point plain_env piston_node
    × (true ≡ true)
    × (origin : ℕ) × (ok 3000 ≡ ok origin)
    × (start_outside fixed_point plain_env origin piston_node ≡ false)
    × Prepared fixed_point plain_env piston_node pending_node
unfolding goal_callback soft_stop_active prepare_goal prepare_from start_outside
    prepare_pregenerated prepare_positions any_of configure_wave_file wave_duration
    accept_peak_velocity within_speed_limit velocity_cap peak_velocity_file segment_peak
goal_accepted =
    goal_callback-Accepted fixed_point plain_env file_goal piston_node {n' = pending_node} refl

abbrev written_node : WavemakerNode ℕ ℕ
written_node = record piston_node {
  actuator = 10000;
  effects = actuator_setpoint 10000 ∷ measured 3000 ∷ velocity 300 ∷ setpoint 10000 ∷ [];
}

abbrev running_node : WavemakerNode ℕ ℕ
running_node = record piston_node { goal_handle = some 1 }

abbrev ended_node : WavemakerNode ℕ ℕ
ended_node = (goal_loop fixed_point plain_env 5 1 1000 running_node).1

goal-Over :
    Over fixed_point plain_env 1 ended_node × AtRest fixed_point plain_env ended_node.actuator
unfolding goal_loop goal_round sample_goal sample_wave_file sample_pregenerated quintic_blend
    wave_duration sample_index last_of publish_and_write_setpoint clamp_between soft_stop_active
    release_handle finish_goal
goal-Over = goal_loop-Over fixed_point plain_env 5 1 1000 running_node refl

abbrev soft_node : WavemakerNode ℕ ℕ
soft_node = record running_node { soft_stopped = true }

soft_stop_halts :
    (n' : WavemakerNode ℕ ℕ) × (goal_loop fixed_point plain_env 4 1 1000 soft_node ≡ (ok true, n'))
    × (n'.actuator ≡ 3000)
    × Over fixed_point plain_env 1 n'
unfolding soft_stop_active
soft_stop_halts = goal_loop-halts fixed_point plain_env 3 1 1000 soft_node (inr (inl refl)) refl

abbrev faulty_node : WavemakerNode ℕ ℕ
faulty_node = record running_node { fault_pending = true; worker = some (execute 1) }

abbrev left_node : WavemakerNode ℕ ℕ
left_node =
    (on_deactivate fixed_point plain_env
      (process_driver_fault fixed_point plain_env true faulty_node)).1

plain-IsWorkerEnd : IsWorkerEnd fixed_point plain_env
plain-IsWorkerEnd = record {
  accepting = λ n h. h;
  handle = λ n h. h;
  pending = λ n h. h;
  flags = λ n. (refl, refl);
}

fault_fails :
    (returns_error ≡ returns_error)
    × Quiet fixed_point plain_env left_node
    × (left_node.fault_transition_pending ≡ false)
unfolding on_deactivate process_driver_fault stop_activity abort_active_goal abort_goal finish_goal
    stop_execution join_worker
fault_fails =
    process_driver_fault-fails fixed_point plain_env faulty_node plain-IsWorkerEnd refl refl

abbrev upright_node : WavemakerNode ℕ ℕ
upright_node = (move_to_upright fixed_point plain_env 8 20 piston_node).1

upright_reached :
    Near fixed_point plain_env 10000 20 upright_node
    × AtRest fixed_point plain_env upright_node.actuator
unfolding move_to_upright upright_motion start_outside velocity_cap upright_loop upright_round
    quintic_blend publish_and_write_setpoint clamp_between soft_stop_active
upright_reached = move_to_upright-Near fixed_point plain_env 8 20 piston_node refl

abbrev taken_node : WavemakerNode ℕ ℕ
taken_node = take_goal fixed_point plain_env 1 pending_node

abbrev claimed_node : WavemakerNode ℕ ℕ
claimed_node = (claim_return fixed_point plain_env 20 taken_node).1

-- A goal is accepted and taken, and a return asked for.
goal_then_return : Regions fixed_point plain_env piston_node claimed_node
unfolding goal_callback soft_stop_active prepare_goal prepare_from start_outside
    prepare_pregenerated prepare_positions any_of configure_wave_file wave_duration
    accept_peak_velocity within_speed_limit velocity_cap peak_velocity_file segment_peak
goal_then_return =
    follows (follows (follows begins (asks file_goal true {n' = pending_node} refl)) (takes 1))
      (claims 20)

claimed-Exclusive : Exclusive fixed_point plain_env claimed_node
unfolding goal_then_return
claimed-Exclusive =
    Regions-Exclusive fixed_point plain_env refl refl goal_then_return (((tt, tt), inl refl), tt)
