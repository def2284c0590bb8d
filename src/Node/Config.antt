-- ===== src/Node/Config.antt =====
-- The checks of `on_configure` on the parameters, in their order.
use text.Mathlib.Text.{◌==◌ as str_eq}
use ros2_wavemakers.Base.{
  Bool, List, Option, [], false, if◌then◌else◌, length, none, not, pos, some, true, ◌&&◌, ◌==◌,
  ◌||◌, ◌∷◌,
}
use ros2_wavemakers.Image.Types.{FloatOps}
use ros2_wavemakers.Node.Types.{NodeParameters, NodeSettings}

-- Every failed check has the same result, so that neighbouring ones stand in one test.
module _ (fp : FloatOps) (isfinite : fp.Double → Bool) where
  open fp use {Double, lt, eq, add, sub, mul, fabs, decimal}

  abbrev pub le : Double → Double → Bool
  le a b = lt a b || eq a b

  abbrev pub zero_m : Double
  zero_m = decimal (pos 0) 1

  abbrev pub not_finite_positive : Double → Bool
  not_finite_positive v = not (isfinite v) || le v zero_m

  unfoldable pub any_of : (Double → Bool) → List Double → Bool
  any_of p [] = false
  any_of p (x ∷ xs) = let rest = any_of p xs in if p x then true else rest

  -- `std::adjacent_find` with `>=`: whether it finds a pair.
  unfoldable pub not_ascending : List Double → Bool
  not_ascending [] = false
  not_ascending (x ∷ []) = false
  not_ascending (x ∷ y ∷ ys) = let rest = not_ascending (y ∷ ys) in if le y x then true else rest

  abbrev pub is_flap : NodeParameters Double → Bool
  is_flap p = str_eq p.wavemaker_type "flap"

  abbrev pub angular : NodeParameters Double → Bool
  angular p = str_eq p.actuator_drive_type "angular"

  unfoldable pub angular_invalid : NodeParameters Double → Bool
  angular_invalid p =
      not (isfinite p.actuator_lead_m_per_degree)
      || le p.actuator_lead_m_per_degree zero_m
      || not (isfinite p.min_position_deg)
      || not (isfinite p.max_position_deg)
      || le p.max_position_deg p.min_position_deg
      || lt p.actuator_upright_angle_deg p.min_position_deg
      || lt p.max_position_deg p.actuator_upright_angle_deg

  unfoldable pub linear_invalid : NodeParameters Double → Bool
  linear_invalid p =
      not (isfinite p.wavemaker_minimum)
      || not (isfinite p.wavemaker_maximum)
      || le p.wavemaker_maximum p.wavemaker_minimum

  unfoldable pub upright_outside : NodeParameters Double → Bool
  upright_outside p =
      lt p.wavemaker_upright_position_m p.wavemaker_minimum
      || lt p.wavemaker_maximum p.wavemaker_upright_position_m

  -- The position in metres of an angle.
  abbrev pub metres_of : NodeParameters Double → Double → Double
  metres_of p angle =
      add p.wavemaker_upright_position_m
        (mul (sub angle p.actuator_upright_angle_deg) p.actuator_lead_m_per_degree)

  unfoldable pub settings_of : NodeParameters Double → NodeSettings Double
  settings_of p = record {
    parameters = p;
    goal_position_minimum =
        if angular p then metres_of p p.min_position_deg else p.wavemaker_minimum;
    goal_position_maximum =
        if angular p then metres_of p p.max_position_deg else p.wavemaker_maximum;
  }

  unfoldable pub numbers_invalid : NodeParameters Double → Bool
  numbers_invalid p =
      not (isfinite p.wavemaker_upright_position_m)
      || not (isfinite p.water_depth)
      || not (isfinite p.flap_attachment_height)
      || not (isfinite p.actuator_upright_angle_deg)

  unfoldable pub geometry_invalid : NodeParameters Double → Bool
  geometry_invalid p =
      (is_flap p
        && (le p.flap_attachment_height zero_m || lt p.flap_attachment_height p.water_depth))
      || (is_flap p && not (le zero_m p.hinge_height && lt p.hinge_height p.water_depth))
      || (not (is_flap p) && not (str_eq p.wavemaker_type "piston"))

  unfoldable pub gains_invalid : NodeParameters Double → Bool
  gains_invalid p =
      let periods = p.wavemaker_transfer_gain_periods in
      let values = p.wavemaker_transfer_gain_values in
      not (length periods == length values)
      || (length periods == 1)
      || any_of not_finite_positive periods
      || any_of not_finite_positive values
      || not_ascending periods

  unfoldable pub returns_invalid : NodeParameters Double → Bool
  returns_invalid p = any_of not_finite_positive (
      p.return_to_upright_max_velocity_mps ∷ p.return_to_upright_min_duration_s
      ∷ p.return_to_upright_default_tolerance_m ∷ p.return_to_upright_timeout_margin_s ∷ [])

  unfoldable pub drive_invalid : NodeParameters Double → Bool
  drive_invalid p =
      (not (angular p) && not (str_eq p.actuator_drive_type "linear"))
      || (angular p && angular_invalid p)
      || (not (angular p) && linear_invalid p)
      || (not (angular p) && upright_outside p)

  -- Where the upright position is to be the minimum, the two may differ by 1e-9.
  unfoldable pub minimum_invalid : NodeParameters Double → Bool
  minimum_invalid p =
      p.wavemaker_upright_is_minimum
      && lt (decimal (pos 1) 9)
          (fabs (sub p.wavemaker_upright_position_m (settings_of p).goal_position_minimum))

  unfoldable pub scales_invalid : NodeParameters Double → Bool
  scales_invalid p =
      le p.water_depth zero_m
      || le p.wavemaker_transfer_gain zero_m
      || not (isfinite p.wavemaker_transfer_gain)
      || not (isfinite p.positioning_velocity_margin)
      || lt p.positioning_velocity_margin (decimal (pos 10) 1)

  -- The checks before the actuator is made, in the order of the source.
  unfoldable pub check_parameters : NodeParameters Double → Option (NodeSettings Double)
  check_parameters p =
      if numbers_invalid p
        || drive_invalid p
        || minimum_invalid p
        || geometry_invalid p
        || gains_invalid p
        || scales_invalid p
        || returns_invalid p
      then none
      else some (settings_of p)
