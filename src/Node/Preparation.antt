-- ===== src/Node/Preparation.antt =====
-- The limits of the trajectory that is made for a goal.
use ros2_wavemakers.Base.{List, [], arith, false, inl, inr, not, refl, true, ◌||◌, ◌∷◌, ◌≡◌, ◌⊎◌}
use ros2_wavemakers.Drive.Waiting.{if_cases}
use ros2_wavemakers.Image.Types.{FloatOps}
use ros2_wavemakers.Node.Config.{any_of, le, zero_m}
use ros2_wavemakers.Node.Goals.{
  accept_peak_velocity, blend_time, gain_for, geometry_of, goal_active, outside_limits,
  prepare_positions, prepare_pregenerated, prepare_wave, soft_stop_active, velocity_cap,
  wave_invalid, within_speed_limit,
}
use ros2_wavemakers.Node.Types.{Goal, NodeEnv, NodeSettings, WavemakerNode}
use ros2_wavemakers.Wave.Peak.{configure_wave_file, peak_velocity, peak_velocity_file}
use ros2_wavemakers.Wave.Trajectory.{
  WaveTrajectory, configure_wave, positions_of, required_maximum, required_minimum, wave_duration,
}

list_cases {ℓ} :
    {A : Type ℓ} (xs : List A) → (xs ≡ []) ⊎ ((x : A) × (rest : List A) × (xs ≡ x ∷ rest))
list_cases [] = inl refl
list_cases (x ∷ xs) = inr (x, xs, refl)

module _ (fp : FloatOps) {A : Type 0} (env : NodeEnv fp A) where
  open fp use {Double, lt, mul, sub, fabs}
  open env use {analysis, isfinite, ops}

  -- What does not compare as beyond the limits, and is finite for a file: every position of a file, or
  -- the range of a regular wave. The blend from the start position is not part of it.
  abbrev pub Inside : NodeSettings Double → Double → Type 0
  Inside s x =
      (isfinite x ≡ true)
      × (lt x s.goal_position_minimum ≡ false)
      × (lt s.goal_position_maximum x ≡ false)

  abbrev pub AllInside : NodeSettings Double → List Double → Type 0
  AllInside s [] = Unit
  AllInside s (x ∷ xs) = Inside s x × AllInside s xs

  pub record WaveInside (s : NodeSettings Double) (w : WaveTrajectory Double) : Type 0 where
    pub above : lt (required_minimum fp analysis w) s.goal_position_minimum ≡ false
    pub below : lt s.goal_position_maximum (required_maximum fp analysis w) ≡ false

  -- The speed that the drive gets as its limit is that of the peak with its margin, or the drive's own
  -- limit where that is less; the peak is a number that the drive allows.
  pub record Paced (peak : Double) (n n' : WavemakerNode Double A) : Type 0 where
    pub finite : isfinite peak ≡ true
    pub slow : lt (ops.max_velocity_mps n.actuator) peak ≡ false
    pub capped : n'.goal_velocity_cap_mps ≡ velocity_cap fp env peak n

  pub record Ready (n : WavemakerNode Double A) : Type 0 where
    pub accepting : n.accepting_goals ≡ true
    pub calm : ops.faulted n.actuator ≡ false
    pub live : ops.is_live n.actuator ≡ true
    pub released : soft_stop_active fp env n ≡ false
    pub no_goal : n.goal_pending ≡ false
    pub no_return : n.returning_to_upright ≡ false
    pub none_active : goal_active fp env n ≡ false

  any_of-AllInside :
      (s : NodeSettings Double) (xs : List Double)
      → any_of fp isfinite (outside_limits fp env s) xs ≡ false
      → AllInside s xs
  unfolding any_of
  any_of-AllInside s [] h = tt
  any_of-AllInside s (x ∷ xs) h =
      ((ground arith, ground arith, ground arith), any_of-AllInside s xs (ground arith))

  accept_peak_velocity-Paced :
      (peak : Double) (n : WavemakerNode Double A) {n' : WavemakerNode Double A}
      → accept_peak_velocity fp env peak n ≡ (true, n')
      → Paced peak n n' × (n'.trajectory ≡ n.trajectory) × (n'.pregenerated ≡ n.pregenerated)
  unfolding accept_peak_velocity within_speed_limit
  accept_peak_velocity-Paced peak n {n'} h =
      elim (if_cases (not (not (isfinite peak) || lt (ops.max_velocity_mps n.actuator) peak)) _ _
        h) [
          | inl (fine, e) ↦
              let same : record n { goal_velocity_cap_mps = velocity_cap fp env peak n } ≡ n' =
                cc in
              rw (← same)
                (record { finite = ground arith; slow = ground arith; capped = refl }, refl, refl)
          | inr (bad, e) ↦ absurd (cc)
        ]

  pub prepare_wave-Inside :
      (origin : Double) (goal : Goal Double) (n : WavemakerNode Double A)
      {n' : WavemakerNode Double A}
      → prepare_wave fp env origin goal n ≡ (true, n')
      → WaveInside n.settings n'.trajectory × Paced (peak_velocity fp analysis n'.trajectory) n n'
  unfolding prepare_wave velocity_cap
  prepare_wave-Inside origin goal n {n'} h =
      let s = n.settings in
      let wave =
        configure_wave fp analysis (geometry_of fp env (gain_for fp env goal.period s) s)
          goal.height goal.period origin in
      let n1 : WavemakerNode Double A = record n { trajectory = wave } in
      elim (if_cases (wave_invalid fp env goal) _ _ h) [
        | inl (bad, e) ↦ absurd (cc)
        | inr (good, e) ↦
            elim (if_cases
              (lt (required_minimum fp analysis wave) s.goal_position_minimum
                || lt s.goal_position_maximum (required_maximum fp analysis wave))
              _ _ e) [
                | inl (bad, e1) ↦ absurd (cc)
                | inr (inside, e1) ↦
                    let (paced, same, other) =
                      accept_peak_velocity-Paced (peak_velocity fp analysis wave) n1 e1 in
                    rw same (
                      record { above = ground arith; below = ground arith },
                      record { finite = paced.finite; slow = paced.slow; capped = paced.capped },
                    )
              ]
      ]

  prepare_positions-Inside :
      (origin first : Double) (rest : List Double) (sample_interval : Double)
      (n : WavemakerNode Double A) {n' : WavemakerNode Double A}
      → prepare_positions fp env origin first rest sample_interval n ≡ (true, n')
      → AllInside n.settings (positions_of fp analysis n'.pregenerated)
        × Paced (peak_velocity_file fp analysis n'.pregenerated) n n'
  unfolding prepare_positions velocity_cap configure_wave_file
  prepare_positions-Inside origin first rest sample_interval n {n'} h =
      let wave =
        configure_wave_file fp analysis first rest sample_interval origin
          (blend_time fp env (fabs (sub first origin)) n.settings) in
      let n1 : WavemakerNode Double A = record n { pregenerated = wave } in
      elim (if_cases
        (not (isfinite sample_interval) || le fp isfinite sample_interval (zero_m fp isfinite)) _ _
        h) [
          | inl (bad, e) ↦ absurd (cc)
          | inr (good, e) ↦
              elim (if_cases (any_of fp isfinite (outside_limits fp env n.settings) (first ∷ rest))
                _ _ e) [
                  | inl (bad, e1) ↦ absurd (cc)
                  | inr (inside, e1) ↦
                      elim (if_cases (not (isfinite (wave_duration fp analysis wave))) _ _ e1) [
                        | inl (bad, e2) ↦ absurd (cc)
                        | inr (lasts, e2) ↦
                            let (paced, other, same) =
                              accept_peak_velocity-Paced (peak_velocity_file fp analysis wave) n1
                                e2 in
                            rw same (
                              any_of-AllInside n.settings (first ∷ rest) inside,
                              record {
                                finite = paced.finite;
                                slow = paced.slow;
                                capped = paced.capped;
                              },
                            )
                      ]
                ]
        ]

  pub prepare_pregenerated-Inside :
      (origin : Double) (goal : Goal Double) (n : WavemakerNode Double A)
      {n' : WavemakerNode Double A}
      → prepare_pregenerated fp env origin goal n ≡ (true, n')
      → AllInside n.settings (positions_of fp analysis n'.pregenerated)
        × Paced (peak_velocity_file fp analysis n'.pregenerated) n n'
  unfolding prepare_pregenerated
  prepare_pregenerated-Inside origin goal n h = elim (list_cases goal.positions) [
    | inl empty ↦ absurd (let h' = rw empty at h in cc)
    | inr (first, rest, is) ↦
        prepare_positions-Inside origin first rest goal.sample_interval n (rw is at h)
  ]
