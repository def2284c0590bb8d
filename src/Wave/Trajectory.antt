-- ===== src/Wave/Trajectory.antt =====
-- Regular waves and pregenerated ones as functions of the time.
use text.Mathlib.Text.{◌==◌ as str_eq}
use ros2_wavemakers.Base.{
  Bool, List, String, false, get_or, if◌then◌else◌, length, min, pos, true, u64, ℕ, ◌&&◌, ◌+◌, ◌-◌,
  ◌^◌, ◌||◌, ◌∷◌,
}
use ros2_wavemakers.Image.Types.{FloatOps}
use ros2_wavemakers.Wave.Math.{Analysis, compute_stroke, last_of, quintic_blend, solve_dispersion}

pub record WavemakerGeometry (D : Type 0) : Type 0 where
  pub type : String
  pub water_depth : D
  pub flap_attachment_height : D
  pub upright_position : D
  pub upright_is_minimum : Bool
  pub transfer_gain : D
  pub hinge_height : D

pub record WaveTrajectory (D : Type 0) : Type 0 where
  pub upright_position : D
  pub upright_is_minimum : Bool
  pub amplitude : D
  pub omega : D
  pub start_position : D
  pub startup_duration : D

-- A position and a velocity.
pub record Sample (D : Type 0) : Type 0 where
  pub position : D
  pub velocity : D

-- The positions are the first and the rest, since there is one at least.
pub record PregeneratedWave (D : Type 0) : Type 0 where
  pub first : D
  pub rest : List D
  pub sample_interval : D
  pub start_position : D
  pub blend_duration : D

module _ (fp : FloatOps) (an : Analysis (fp.Double)) where
  open fp use {Double, lt, eq, add, sub, mul, div, fabs, decimal, f64_of_int}
  open an use {sin, cos, pi, to_index}

  abbrev unit : Double
  unit = decimal (pos 10) 1

  abbrev double : Double
  double = decimal (pos 20) 1

  unfoldable pub configure_wave :
      WavemakerGeometry Double → Double → Double → Double → WaveTrajectory Double
  configure_wave g wave_height period start_position =
      let omega = div (mul double pi) period in
      let mu = solve_dispersion fp an omega g.water_depth (decimal (pos 981) 2) in
      let flap = str_eq g.type "flap" in
      let hinge = if flap then g.hinge_height else decimal (pos 0) 1 in
      let stroke =
        div (compute_stroke fp an mu wave_height g.type (div hinge g.water_depth))
          g.transfer_gain in
      let half = div stroke double in
      record {
        upright_position = g.upright_position;
        upright_is_minimum = g.upright_is_minimum;
        amplitude =
            if flap
            then mul half (div (sub g.flap_attachment_height hinge) (sub g.water_depth hinge))
            else half;
        omega = omega;
        start_position = start_position;
        startup_duration = period;
      }

  unfoldable pub required_minimum : WaveTrajectory Double → Double
  required_minimum w =
      if w.upright_is_minimum then w.upright_position else sub w.upright_position w.amplitude

  unfoldable pub required_maximum : WaveTrajectory Double → Double
  required_maximum w =
      add w.upright_position (mul w.amplitude (if w.upright_is_minimum then double else unit))

  -- The wave without its blend.
  unfoldable pub wave_at : WaveTrajectory Double → Double → Sample Double
  wave_at w t =
      let phase = mul w.omega t in
      if w.upright_is_minimum
      then record {
        position = add w.upright_position (mul w.amplitude (sub unit (cos phase)));
        velocity = mul (mul w.amplitude w.omega) (sin phase);
      }
      else record {
        position = add w.upright_position (mul w.amplitude (sin phase));
        velocity = mul (mul w.amplitude w.omega) (cos phase);
      }

  unfoldable pub sample_wave : WaveTrajectory Double → Double → Sample Double
  sample_wave w elapsed =
      let early = lt elapsed w.startup_duration in
      let wave =
        wave_at w
          (if w.upright_is_minimum && early then elapsed else sub elapsed w.startup_duration) in
      let b = quintic_blend fp an elapsed w.startup_duration in
      let off = sub wave.position w.start_position in
      if early
      then record {
        position = add w.start_position (mul b.s off);
        velocity = add (mul b.ds off) (mul b.s wave.velocity);
      }
      else wave

  abbrev pub positions_of : PregeneratedWave Double → List Double
  positions_of w = w.first ∷ w.rest

  unfoldable pub wave_duration : PregeneratedWave Double → Double
  wave_duration w =
      add w.blend_duration (mul w.sample_interval (f64_of_int (pos (length (positions_of w) - 1))))

  -- The index of the sample in front of the time, kept in range. The difference of sizes wraps.
  unfoldable pub sample_index : ℕ → Double → ℕ
  sample_index size sample = min (to_index sample) (u64 (size + 2 ^ 64 - 2))

  -- The end, position and velocity of the sampled part.
  unfoldable pub sample_pregenerated :
      PregeneratedWave Double → Double → Double → Bool × Sample Double
  sample_pregenerated w elapsed duration =
      let positions = positions_of w in
      let sample = div elapsed w.sample_interval in
      let index = sample_index (length positions) sample in
      let fraction = sub sample (f64_of_int (pos index)) in
      let here = get_or positions index w.first in
      let delta = sub (get_or positions (index + 1) w.first) here in
      if lt duration elapsed || eq duration elapsed
      then (true, record { position = last_of fp an w.first w.rest; velocity = decimal (pos 0) 1 })
      else (
        false,
        record { position = add here (mul fraction delta); velocity = div delta w.sample_interval },
      )

  unfoldable pub sample_wave_file : PregeneratedWave Double → Double → Bool × Sample Double
  sample_wave_file w elapsed =
      let b = quintic_blend fp an elapsed w.blend_duration in
      let delta = sub w.first w.start_position in
      if lt elapsed w.blend_duration
      then (
        false,
        record { position = add w.start_position (mul b.s delta); velocity = mul b.ds delta },
      )
      else sample_pregenerated w (sub elapsed w.blend_duration)
          (sub (wave_duration w) w.blend_duration)
