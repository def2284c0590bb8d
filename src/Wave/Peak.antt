-- ===== src/Wave/Peak.antt =====
-- The peak speeds of the two trajectories.
use ros2_wavemakers.Base.{List, [], if◌then◌else◌, pos, suc, zero, ℕ, ◌∷◌}
use ros2_wavemakers.Image.Types.{FloatOps}
use ros2_wavemakers.Wave.Math.{Analysis}
use ros2_wavemakers.Wave.Trajectory.{PregeneratedWave, WaveTrajectory, sample_wave}

module _ (fp : FloatOps) (an : Analysis (fp.Double)) where
  open fp use {Double, lt, add, mul, div, sub, fabs, decimal, f64_of_int}

  abbrev pub larger_of : Double → Double → Double
  larger_of a b = if lt a b then b else a

  abbrev pub peak_factor : Double
  peak_factor = decimal (pos 1875) 3

  -- The samples 0 to `n - 1` of the 10001 in the blend; the next one is sample `n`.
  unfoldable pub blend_peak : ℕ → WaveTrajectory Double → Double
  blend_peak zero w = mul w.amplitude (w.omega)
  blend_peak (suc n) w =
      let peak = blend_peak n w in
      larger_of peak (
        fabs
          (sample_wave fp an w
            (div (mul w.startup_duration (f64_of_int (pos n))) (f64_of_int (pos 10000)))).velocity)

  unfoldable pub peak_velocity : WaveTrajectory Double → Double
  peak_velocity w = mul (blend_peak 10001 w) (add (decimal (pos 10) 1) (decimal (pos 1) 4))

  unfoldable pub configure_wave_file :
      (first : Double) (rest : List Double) (sample_interval start_position blend_duration : Double)
      → PregeneratedWave Double
  configure_wave_file first rest sample_interval start_position blend_duration = record {
    first = first;
    rest = rest;
    sample_interval = sample_interval;
    start_position = start_position;
    blend_duration = blend_duration;
  }

  -- The loop over the pairs of neighbours, from the one in front.
  unfoldable pub segment_peak : Double → Double → Double → List Double → Double
  segment_peak interval peak before [] = peak
  segment_peak interval peak before (x ∷ xs) =
      segment_peak interval (larger_of peak (div (fabs (sub x before)) interval)) x xs

  unfoldable pub peak_velocity_file : PregeneratedWave Double → Double
  peak_velocity_file w =
      let blend =
        if lt (decimal (pos 0) 1) w.blend_duration
        then div (mul peak_factor (fabs (sub w.first w.start_position))) w.blend_duration
        else decimal (pos 0) 1 in
      segment_peak w.sample_interval blend w.first w.rest
