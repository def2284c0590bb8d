-- ===== src/Node/Valid.antt =====
-- What a configuration that passes the checks has.
use text.Mathlib.Text.{◌==◌ as str_eq}
use ros2_wavemakers.Base.{
  Bool, Bool-cases, List, Option, [], arith, false, if◌then◌else◌, inl, inr, length, none, pos,
  refl, some, true, ◌||◌, ◌∷◌, ◌≡◌, ◌≢◌, ◌⊎◌,
}
use ros2_wavemakers.Drive.Waiting.{passed}
use ros2_wavemakers.Image.Types.{FloatOps}
use ros2_wavemakers.Node.Config.{
  angular, angular_invalid, any_of, check_parameters, drive_invalid, gains_invalid,
  geometry_invalid, is_flap, le, linear_invalid, minimum_invalid, not_ascending,
  not_finite_positive, numbers_invalid, returns_invalid, scales_invalid, settings_of,
  upright_outside, zero_m,
}
use ros2_wavemakers.Node.Types.{NodeParameters, NodeSettings}

-- A test that refuses was not true where something came out.
not_refused {ℓ} :
    {B : Type ℓ} (b : Bool) (x : Option B) {y : B}
    → (if b then none else x) ≡ some y
    → (b ≡ false) × (x ≡ some y)
not_refused true x h = absurd (cc)
not_refused false x h = (refl, h)

module _ (fp : FloatOps) (isfinite : fp.Double → Bool) where
  open fp use {Double, lt, sub, fabs, decimal}

  abbrev pub IsPositive : Double → Type 0
  IsPositive x = (isfinite x ≡ true) × (le fp isfinite x (zero_m fp isfinite) ≡ false)

  abbrev pub AllPositive : List Double → Type 0
  AllPositive [] = Unit
  AllPositive (x ∷ xs) = IsPositive x × AllPositive xs

  -- Every entry but the last is less than the next one.
  abbrev pub Ascending : List Double → Type 0
  Ascending [] = Unit
  Ascending (x ∷ []) = Unit
  Ascending (x ∷ y ∷ ys) = (le fp isfinite y x ≡ false) × Ascending (y ∷ ys)

  any_of-AllPositive :
      (xs : List Double)
      → any_of fp isfinite (not_finite_positive fp isfinite) xs ≡ false
      → AllPositive xs
  unfolding any_of
  any_of-AllPositive [] h = tt
  any_of-AllPositive (x ∷ xs) h =
      ((ground arith, ground arith), any_of-AllPositive xs (ground arith))

  not_ascending-Ascending : (xs : List Double) → not_ascending fp isfinite xs ≡ false → Ascending xs
  unfolding not_ascending
  not_ascending-Ascending [] h = tt
  not_ascending-Ascending (x ∷ []) h = tt
  not_ascending-Ascending (x ∷ y ∷ ys) h =
      (ground arith, not_ascending-Ascending (y ∷ ys) (ground arith))

  -- The limits of an angular drive, in degrees, with the angle that is upright between them.
  pub record AngularLimits (p : NodeParameters Double) : Type 0 where
    pub lead : IsPositive p.actuator_lead_m_per_degree
    pub finite : (isfinite p.min_position_deg ≡ true) × (isfinite p.max_position_deg ≡ true)
    pub ordered : le fp isfinite p.max_position_deg p.min_position_deg ≡ false
    pub above : lt p.actuator_upright_angle_deg p.min_position_deg ≡ false
    pub below : lt p.max_position_deg p.actuator_upright_angle_deg ≡ false

  -- The limits of a linear drive, in metres, with the upright position between them.
  pub record LinearLimits (p : NodeParameters Double) (s : NodeSettings Double) : Type 0 where
    pub type : str_eq p.actuator_drive_type "linear" ≡ true
    pub finite :
        (isfinite s.goal_position_minimum ≡ true) × (isfinite s.goal_position_maximum ≡ true)
    pub ordered : le fp isfinite s.goal_position_maximum s.goal_position_minimum ≡ false
    pub above : lt p.wavemaker_upright_position_m s.goal_position_minimum ≡ false
    pub below : lt s.goal_position_maximum p.wavemaker_upright_position_m ≡ false

  -- A flap is attached above the water and hinged under it.
  pub record FlapGeometry (p : NodeParameters Double) : Type 0 where
    pub attached : le fp isfinite p.flap_attachment_height (zero_m fp isfinite) ≡ false
    pub above_water : lt p.flap_attachment_height p.water_depth ≡ false
    pub hinged : le fp isfinite (zero_m fp isfinite) p.hinge_height ≡ true
    pub under_water : lt p.hinge_height p.water_depth ≡ true

  -- A table of gains has no or several points, positive ones in ascending order of the period.
  pub record GainTable (periods values : List Double) : Type 0 where
    pub sizes : length periods ≡ length values
    pub several : length periods ≢ 1
    pub periods_positive : AllPositive periods
    pub values_positive : AllPositive values
    pub ascending : Ascending periods

  pub record IsConfigured (p : NodeParameters Double) (s : NodeSettings Double) : Type 0 where
    pub parameters : s.parameters ≡ p
    pub limits :
        ((angular fp isfinite p ≡ true) × AngularLimits p)
        ⊎ ((angular fp isfinite p ≡ false) × LinearLimits p s)
    pub shape :
        ((is_flap fp isfinite p ≡ true) × FlapGeometry p)
        ⊎ (str_eq p.wavemaker_type "piston" ≡ true)
    pub finite :
        (isfinite p.wavemaker_upright_position_m ≡ true)
        × (isfinite p.flap_attachment_height ≡ true)
        × (isfinite p.actuator_upright_angle_deg ≡ true)
    pub depth : IsPositive p.water_depth
    pub least :
        p.wavemaker_upright_is_minimum ≡ true
        → lt (decimal (pos 1) 9) (fabs (sub p.wavemaker_upright_position_m s.goal_position_minimum))
          ≡ false
    pub gain : IsPositive p.wavemaker_transfer_gain
    pub table : GainTable p.wavemaker_transfer_gain_periods p.wavemaker_transfer_gain_values
    pub margin :
        (isfinite p.positioning_velocity_margin ≡ true)
        × (lt p.positioning_velocity_margin (decimal (pos 10) 1) ≡ false)
    pub speed : IsPositive p.return_to_upright_max_velocity_mps
    pub duration : IsPositive p.return_to_upright_min_duration_s
    pub tolerance : IsPositive p.return_to_upright_default_tolerance_m
    pub timeout : IsPositive p.return_to_upright_timeout_margin_s

  gains-Table :
      (p : NodeParameters Double)
      → gains_invalid fp isfinite p ≡ false
      → GainTable p.wavemaker_transfer_gain_periods p.wavemaker_transfer_gain_values
  unfolding gains_invalid
  gains-Table p h = record {
    sizes = ground arith;
    several = ground arith;
    periods_positive = any_of-AllPositive _ (ground arith);
    values_positive = any_of-AllPositive _ (ground arith);
    ascending = not_ascending-Ascending _ (ground arith);
  }

  scales-Positive :
      (p : NodeParameters Double)
      → scales_invalid fp isfinite p ≡ false
      → (le fp isfinite p.water_depth (zero_m fp isfinite) ≡ false)
        × IsPositive p.wavemaker_transfer_gain
        × (isfinite p.positioning_velocity_margin ≡ true)
        × (lt p.positioning_velocity_margin (decimal (pos 10) 1) ≡ false)
  unfolding scales_invalid
  scales-Positive p h = (ground arith, (ground arith, ground arith), ground arith, ground arith)

  numbers-finite :
      (p : NodeParameters Double)
      → numbers_invalid fp isfinite p ≡ false
      → (isfinite p.wavemaker_upright_position_m ≡ true)
        × (isfinite p.water_depth ≡ true)
        × (isfinite p.flap_attachment_height ≡ true)
        × (isfinite p.actuator_upright_angle_deg ≡ true)
  unfolding numbers_invalid
  numbers-finite p h = (ground arith, ground arith, ground arith, ground arith)

  minimum-near :
      (p : NodeParameters Double)
      → minimum_invalid fp isfinite p ≡ false
      → p.wavemaker_upright_is_minimum ≡ true
      → lt (decimal (pos 1) 9) (
          fabs
            (sub p.wavemaker_upright_position_m (settings_of fp isfinite p).goal_position_minimum))
        ≡ false
  unfolding minimum_invalid
  minimum-near p h wanted = ground arith

  returns-Positive :
      (p : NodeParameters Double)
      → returns_invalid fp isfinite p ≡ false
      → AllPositive (
          p.return_to_upright_max_velocity_mps ∷ p.return_to_upright_min_duration_s
          ∷ p.return_to_upright_default_tolerance_m ∷ p.return_to_upright_timeout_margin_s ∷ [])
  unfolding returns_invalid
  returns-Positive p h = any_of-AllPositive _ h

  shape-of :
      (p : NodeParameters Double)
      → geometry_invalid fp isfinite p ≡ false
      → ((is_flap fp isfinite p ≡ true) × FlapGeometry p)
        ⊎ (str_eq p.wavemaker_type "piston" ≡ true)
  unfolding geometry_invalid
  shape-of p h = elim (Bool-cases (is_flap fp isfinite p)) [
    | inl flap ↦ inl (
      flap,
      record {
        attached = ground arith;
        above_water = ground arith;
        hinged = ground arith;
        under_water = ground arith;
      },
    )
    | inr other ↦ inr (ground arith)
  ]

  settings_of-parameters : (p : NodeParameters Double) → (settings_of fp isfinite p).parameters ≡ p
  unfolding settings_of
  settings_of-parameters p = refl

  limits-of :
      (p : NodeParameters Double)
      → drive_invalid fp isfinite p ≡ false
      → ((angular fp isfinite p ≡ true) × AngularLimits p)
        ⊎ ((angular fp isfinite p ≡ false) × LinearLimits p (settings_of fp isfinite p))
  unfolding drive_invalid angular_invalid linear_invalid upright_outside settings_of
  limits-of p h = elim (Bool-cases (angular fp isfinite p)) [
    | inl turns ↦ inl (
      turns,
      record {
        lead = (ground arith, ground arith);
        finite = (ground arith, ground arith);
        ordered = ground arith;
        above = ground arith;
        below = ground arith;
      },
    )
    | inr slides ↦ inr (
      slides,
      record {
        type = ground arith;
        finite = rw slides (ground arith, ground arith);
        ordered = rw slides (ground arith);
        above = rw slides (ground arith);
        below = rw slides (ground arith);
      },
    )
  ]

  -- Parameters that pass the checks give settings with these parameters: a linear or an angular drive
  -- with finite limits, the greater not at or below the less, and the upright position not beyond them
  -- (for an angular drive as angles, with a finite positive lead), and near the minimum where it is to
  -- be the minimum; a flap whose height and hinge fit the water by their comparisons, or a piston; a
  -- finite upright position, attachment height and upright angle; a finite positive depth and gain; a
  -- table of gains without or with several points, each finite and positive, with the periods
  -- ascending; a finite velocity margin not below 1; and four finite positive values for the return to
  -- upright.
  pub check_parameters-IsConfigured :
      (p : NodeParameters Double) {s : NodeSettings Double}
      → check_parameters fp isfinite p ≡ some s
      → IsConfigured p s
  unfolding check_parameters
  check_parameters-IsConfigured p {s} h =
      let (passed, h1) =
        not_refused
          (numbers_invalid fp isfinite p
            || drive_invalid fp isfinite p
            || minimum_invalid fp isfinite p
            || geometry_invalid fp isfinite p
            || gains_invalid fp isfinite p
            || scales_invalid fp isfinite p
            || returns_invalid fp isfinite p)
          (some (settings_of fp isfinite p)) h in
      let same : settings_of fp isfinite p ≡ s = cc in
      let (upright, water, attachment, angle) = numbers-finite p (ground arith) in
      let (depth, gain, margin, least_margin) = scales-Positive p (ground arith) in
      let returns = returns-Positive p (ground arith) in
      record {
        parameters = rw (← same) (settings_of-parameters p);
        limits = rw (← same) (limits-of p (ground arith));
        shape = shape-of p (ground arith);
        finite = (upright, attachment, angle);
        depth = (water, depth);
        least = rw (← same) (minimum-near p (ground arith));
        gain = gain;
        table = gains-Table p (ground arith);
        margin = (margin, least_margin);
        speed = returns.0;
        duration = returns.1.0;
        tolerance = returns.1.1.0;
        timeout = returns.1.1.1.0;
      }
