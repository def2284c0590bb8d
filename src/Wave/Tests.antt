-- ===== src/Wave/Tests.antt =====
-- The lookups at concrete tables.
use ros2_wavemakers.Base.{[], arith, refl, ℕ, ◌+◌, ◌/◌, ◌<◌, ◌∷◌}
use ros2_wavemakers.Image.Samples.{fixed_point}
use ros2_wavemakers.Wave.Lookup.{sample_index-bounds, Interpolated, interpolate_gain-Interpolated}
use ros2_wavemakers.Wave.Math.{Analysis, last_of, interpolate_gain}
use ros2_wavemakers.Wave.Trajectory.{sample_index}

abbrev flat : Analysis ℕ
flat = record {
  sqrt = λ x. x;
  exp = λ x. x;
  pow = λ x y. x;
  tanh = λ x. x;
  sinh = λ x. x;
  cosh = λ x. x;
  sin = λ x. x;
  cos = λ x. x;
  pi = 31416;
  to_index = λ x. x / 10000;
}

finds :
    Interpolated fixed_point flat 10000 12000 (20000 ∷ 30000 ∷ []) (14000 ∷ 15000 ∷ []) 25000 (
      interpolate_gain fixed_point flat 10000 (20000 ∷ 30000 ∷ []) 12000 (14000 ∷ 15000 ∷ []) 25000)
unfolding last_of
finds =
    interpolate_gain-Interpolated fixed_point flat 10000 12000 (20000 ∷ 30000 ∷ [])
      (14000 ∷ 15000 ∷ []) 25000 refl

stays : sample_index fixed_point flat 3 990000 + 1 < 3
stays = sample_index-bounds fixed_point flat 3 990000 (omega arith) (omega arith)
