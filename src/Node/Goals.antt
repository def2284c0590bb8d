-- ===== src/Node/Goals.antt =====
-- Which goals are accepted.
use ros2_wavemakers.Base.{
  Bool, List, Option, [], err, false, if◌then◌else◌, ltb, none, not, ok, some, true, ℕ, ◌-◌, ◌||◌,
  ◌∷◌,
}
use ros2_wavemakers.Image.Types.{FloatOps}
use ros2_wavemakers.Node.Config.{any_of, le, zero_m}
use ros2_wavemakers.Node.Types.{
  Goal, GoalStatus, NodeEnv, NodeSettings, Tried, WavemakerNode, and_then,
}
use ros2_wavemakers.Wave.Math.{interpolate_gain}
use ros2_wavemakers.Wave.Peak.{
  configure_wave_file, larger_of, peak_factor, peak_velocity, peak_velocity_file,
}
use ros2_wavemakers.Wave.Trajectory.{
  WavemakerGeometry, configure_wave, required_maximum, required_minimum, wave_duration,
}

module _ (fp : FloatOps) {A : Type 0} (env : NodeEnv fp A) where
  open fp use {Double, lt, eq, add, sub, mul, div, fabs, decimal}
  open env use {analysis, isfinite, ops}

  unfoldable pub soft_stop_active : WavemakerNode Double A → Bool
  soft_stop_active n =
      n.soft_stopped
      || ltb n.settings.parameters.soft_stop_timeout_ns (n.now - n.soft_stop_last_msg_ns)

  -- `std::min(a, b)`.
  abbrev pub smaller : Double → Double → Double
  smaller a b = if lt b a then b else a

  unfoldable pub velocity_cap : Double → WavemakerNode Double A → Double
  velocity_cap peak n =
      smaller (mul peak n.settings.parameters.positioning_velocity_margin)
        (ops.max_velocity_mps n.actuator)

  unfoldable pub within_speed_limit : Double → WavemakerNode Double A → Bool
  within_speed_limit peak n = not (not (isfinite peak) || lt (ops.max_velocity_mps n.actuator) peak)

  unfoldable pub accept_peak_velocity :
      Double → WavemakerNode Double A → Bool × WavemakerNode Double A
  accept_peak_velocity peak n =
      if within_speed_limit peak n
      then (true, record n { goal_velocity_cap_mps = velocity_cap peak n })
      else (false, n)

  -- The test on the position that a motion starts at; the tolerance is allowed outside the limits.
  unfoldable pub start_outside : Double → WavemakerNode Double A → Bool
  start_outside origin n =
      let s = n.settings in
      let tolerance = s.parameters.return_to_upright_default_tolerance_m in
      not (isfinite origin)
      || lt origin (sub s.goal_position_minimum tolerance)
      || lt (add s.goal_position_maximum tolerance) origin

  abbrev pub outside_limits : NodeSettings Double → Double → Bool
  outside_limits s x =
      not (isfinite x) || lt x s.goal_position_minimum || lt s.goal_position_maximum x

  abbrev pub peak_time : Double → NodeSettings Double → Double
  peak_time distance s =
      larger_of fp analysis
        (div (mul (peak_factor fp analysis) distance)
          s.parameters.return_to_upright_max_velocity_mps)
        s.parameters.return_to_upright_min_duration_s

  -- The blend goes from the paddle position to the first position of the file.
  abbrev pub blend_time : Double → NodeSettings Double → Double
  blend_time distance s =
      if le fp isfinite distance s.parameters.return_to_upright_default_tolerance_m
      then zero_m fp isfinite
      else peak_time distance s

  unfoldable pub prepare_positions :
      (origin first : Double) (rest : List Double) (sample_interval : Double)
      → WavemakerNode Double A
      → Bool × WavemakerNode Double A
  prepare_positions origin first rest sample_interval n =
      let wave =
        configure_wave_file fp analysis first rest sample_interval origin
          (blend_time (fabs (sub first origin)) n.settings) in
      let n1 = record n { pregenerated = wave } in
      if not (isfinite sample_interval) || le fp isfinite sample_interval (zero_m fp isfinite)
      then (false, n)
      else if any_of fp isfinite (outside_limits n.settings) (first ∷ rest)
      then (false, n)
      else if not (isfinite (wave_duration fp analysis wave))
      then (false, n1)
      else accept_peak_velocity (peak_velocity_file fp analysis wave) n1

  unfoldable pub prepare_pregenerated :
      Double → Goal Double → WavemakerNode Double A → Bool × WavemakerNode Double A
  prepare_pregenerated origin goal n = elim goal.positions [
    | [] ↦ (false, n)
    | first ∷ rest ↦ prepare_positions origin first rest goal.sample_interval n
  ]

  -- The gain for the period: that of the table, where there is one. The two lists of the table are of
  -- one length.
  unfoldable pub gain_of : Double → Double → List Double → List Double → Double
  gain_of period plain [] values = plain
  gain_of period plain (p0 ∷ ps) [] = plain
  gain_of period plain (p0 ∷ ps) (v0 ∷ vs) = (interpolate_gain fp analysis p0 ps v0 vs period).gain

  abbrev pub gain_for : Double → NodeSettings Double → Double
  gain_for period s =
      let p = s.parameters in
      gain_of period p.wavemaker_transfer_gain p.wavemaker_transfer_gain_periods
        p.wavemaker_transfer_gain_values

  abbrev pub geometry_of : Double → NodeSettings Double → WavemakerGeometry Double
  geometry_of gain s =
      let p = s.parameters in
      record {
        type = p.wavemaker_type;
        water_depth = p.water_depth;
        flap_attachment_height = p.flap_attachment_height;
        upright_position = p.wavemaker_upright_position_m;
        upright_is_minimum = p.wavemaker_upright_is_minimum;
        transfer_gain = gain;
        hinge_height = p.hinge_height;
      }

  abbrev pub wave_invalid : Goal Double → Bool
  wave_invalid goal =
      not (isfinite goal.height)
      || not (isfinite goal.period)
      || le fp isfinite goal.height (zero_m fp isfinite)
      || le fp isfinite goal.period (zero_m fp isfinite)

  unfoldable pub prepare_wave :
      Double → Goal Double → WavemakerNode Double A → Bool × WavemakerNode Double A
  prepare_wave origin goal n =
      let s = n.settings in
      let wave =
        configure_wave fp analysis (geometry_of (gain_for goal.period s) s) goal.height goal.period
          origin in
      let n1 = record n { trajectory = wave } in
      if not (isfinite goal.height)
        || not (isfinite goal.period)
        || le fp isfinite goal.height (zero_m fp isfinite)
        || le fp isfinite goal.period (zero_m fp isfinite)
      then (false, n)
      else if lt (required_minimum fp analysis wave) s.goal_position_minimum
          || lt s.goal_position_maximum (required_maximum fp analysis wave)
      then (false, n1)
      else accept_peak_velocity (peak_velocity fp analysis wave) n1

  abbrev pub has_positions : Goal Double → Bool
  has_positions goal = elim goal.positions [ [] ↦ false | _ ∷ _ ↦ true ]

  -- From the position that the actuator reports.
  unfoldable pub prepare_from :
      Double → Goal Double → WavemakerNode Double A → Bool × WavemakerNode Double A
  prepare_from origin goal n =
      if start_outside origin n
      then (false, n)
      else if n.settings.parameters.wavemaker_mode_pregenerated
      then prepare_pregenerated origin goal n
      else if has_positions goal
      then (false, n)
      else prepare_wave origin goal n

  unfoldable pub prepare_goal : Goal Double → WavemakerNode Double A → Tried Double A Bool
  prepare_goal goal n = elim (ops.actual_position_m n.actuator) [
    | err e ↦ (err e, n)
    | ok origin ↦ let (good, n1) = prepare_from origin goal n in (ok good, n1)
  ]

  abbrev pub active_in : Option ℕ → (ℕ → GoalStatus) → Bool
  active_in none goals = false
  active_in (some g) goals = (goals g).is_active

  abbrev pub goal_active : WavemakerNode Double A → Bool
  goal_active n = active_in n.goal_handle n.goals

  -- `true` is ACCEPT_AND_DEFER, `false` is REJECT.
  unfoldable pub goal_callback : Goal Double → WavemakerNode Double A → Tried Double A Bool
  goal_callback goal n =
      if not n.accepting_goals
      then (ok false, n)
      else if ops.faulted n.actuator || not (ops.is_live n.actuator)
      then (ok false, n)
      else if soft_stop_active n
      then (ok false, n)
      else if n.goal_pending || n.returning_to_upright || goal_active n
      then (ok false, n)
      else and_then (prepare_goal goal n)
          (λ good n1. if good then (ok true, record n1 { goal_pending = true }) else (ok false, n1))
