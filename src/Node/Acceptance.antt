-- ===== src/Node/Acceptance.antt =====
-- What a goal that is accepted has.
use ros2_wavemakers.Base.{
  Bool, List, Outcome-cases, [], ap, arith, false, if◌then◌else◌, inl, inr, not, ok, refl, true,
  ◌||◌, ◌∷◌, ◌≡◌, ◌⊎◌,
}
use ros2_wavemakers.Drive.Waiting.{if_cases}
use ros2_wavemakers.Image.Types.{FloatOps}
use ros2_wavemakers.Node.Goals.{
  goal_active, goal_callback, has_positions, prepare_from, prepare_goal, soft_stop_active,
  start_outside,
}
use ros2_wavemakers.Node.Preparation.{
  AllInside, Paced, Ready, WaveInside, prepare_pregenerated-Inside, prepare_wave-Inside,
}
use ros2_wavemakers.Node.Types.{Goal, NodeEnv, Tried, WavemakerNode, and_then}
use ros2_wavemakers.Wave.Peak.{peak_velocity, peak_velocity_file}
use ros2_wavemakers.Wave.Trajectory.{positions_of}

list_cases {ℓ} :
    {A : Type ℓ} (xs : List A) → (xs ≡ []) ⊎ ((x : A) × (rest : List A) × (xs ≡ x ∷ rest))
list_cases [] = inl refl
list_cases (x ∷ xs) = inr (x, xs, refl)

module _ (fp : FloatOps) {A : Type 0} (env : NodeEnv fp A) where
  open fp use {Double, lt, mul, sub, fabs}
  open env use {analysis, isfinite, ops}

  -- What `prepare_goal` has made of a goal that it takes.
  pub data Prepared (n n' : WavemakerNode Double A) : Type 0 where
    regular :
        n.settings.parameters.wavemaker_mode_pregenerated ≡ false
        → WaveInside fp env n.settings n'.trajectory
        → Paced fp env (peak_velocity fp analysis n'.trajectory) n n'
        → Prepared n n'
    from_file :
        n.settings.parameters.wavemaker_mode_pregenerated ≡ true
        → AllInside fp env n.settings (positions_of fp analysis n'.pregenerated)
        → Paced fp env (peak_velocity_file fp analysis n'.pregenerated) n n'
        → Prepared n n'

  prepare_from-Prepared :
      (origin : Double) (goal : Goal Double) (n : WavemakerNode Double A)
      {n' : WavemakerNode Double A}
      → prepare_from fp env origin goal n ≡ (true, n')
      → (start_outside fp env origin n ≡ false) × Prepared n n'
  unfolding prepare_from
  prepare_from-Prepared origin goal n h = elim (if_cases (start_outside fp env origin n) _ _ h) [
    | inl (bad, e) ↦ absurd (cc)
    | inr (near, e) ↦ elim (if_cases n.settings.parameters.wavemaker_mode_pregenerated _ _ e) [
      | inl (file, e1) ↦
          let (inside, paced) = prepare_pregenerated-Inside fp env origin goal n e1 in
          (near, from_file file inside paced)
      | inr (wave, e1) ↦ elim (if_cases (has_positions fp env goal) _ _ e1) [
        | inl (bad, e2) ↦ absurd (cc)
        | inr (plain, e2) ↦
            let (inside, paced) = prepare_wave-Inside fp env origin goal n e2 in
            (near, regular wave inside paced)
      ]
    ]
  ]

  -- The end of `goal_callback`.
  abbrev marked : Tried Double A Bool → Tried Double A Bool
  marked r =
      and_then r
        (λ good n1. if good then (ok true, record n1 { goal_pending = true }) else (ok false, n1))

  pending-Prepared :
      (n n1 : WavemakerNode Double A)
      → Prepared n n1
      → Prepared n (record n1 { goal_pending = true })
  pending-Prepared n n1 (regular mode inside paced) =
      regular mode inside
        (record { finite = paced.finite; slow = paced.slow; capped = paced.capped })
  pending-Prepared n n1 (from_file mode inside paced) =
      from_file mode inside
        (record { finite = paced.finite; slow = paced.slow; capped = paced.capped })

  marked-Prepared :
      (goal : Goal Double) (n : WavemakerNode Double A) {n' : WavemakerNode Double A}
      → marked (prepare_goal fp env goal n) ≡ (ok true, n')
      → (n'.goal_pending ≡ true)
        × (origin : Double) × (ops.actual_position_m n.actuator ≡ ok origin)
        × (start_outside fp env origin n ≡ false)
        × Prepared n n'
  unfolding prepare_goal
  marked-Prepared goal n {n'} h = elim (Outcome-cases (ops.actual_position_m n.actuator)) [
    | inl (thrown, e) ↦ absurd (let h1 = rw (prepare_goal, e) at h in cc)
    | inr (origin, e) ↦
        let r = prepare_from fp env origin goal n in
        elim (if_cases r.0 (ok true, record (r.1) { goal_pending = true }) (ok false, r.1)
          (rw (prepare_goal, e) at h)) [
            | inl (good, e1) ↦
                let same : record (r.1) { goal_pending = true } ≡ n' = cc in
                let (near, prepared) =
                  prepare_from-Prepared origin goal n (ap (λ b. (b, r.1)) good) in
                rw (← same) (refl, origin, e, near, pending-Prepared n r.1 prepared)
            | inr (bad, e1) ↦ absurd (cc)
          ]
  ]

  -- A goal is accepted only by a node that accepts goals, whose actuator is live and without fault,
  -- whose soft stop is released and which has no goal and no return; the position that it starts from
  -- is not too far outside the limits for its check; the range of the regular wave that is made then
  -- does not compare as beyond the limits, nor does any position of a file (the blend from the start
  -- position to the wave or to the first of them is not part of either); the speed limit for the
  -- drive is set from a peak speed that the drive allows, and the goal is marked as pending.
  pub goal_callback-Accepted :
      (goal : Goal Double) (n : WavemakerNode Double A) {n' : WavemakerNode Double A}
      → goal_callback fp env goal n ≡ (ok true, n')
      → Ready fp env n
        × (n'.goal_pending ≡ true)
        × (origin : Double) × (ops.actual_position_m n.actuator ≡ ok origin)
        × (start_outside fp env origin n ≡ false)
        × Prepared n n'
  unfolding goal_callback
  goal_callback-Accepted goal n {n'} h = elim (if_cases (not n.accepting_goals) _ _ h) [
    | inl (bad, e) ↦ absurd (cc)
    | inr (open_, e1) ↦
        elim (if_cases (ops.faulted n.actuator || not (ops.is_live n.actuator)) _ _ e1) [
          | inl (bad, e) ↦ absurd (cc)
          | inr (sane, e2) ↦ elim (if_cases (soft_stop_active fp env n) _ _ e2) [
            | inl (bad, e) ↦ absurd (cc)
            | inr (free, e3) ↦
                elim (if_cases (n.goal_pending || n.returning_to_upright || goal_active fp env n) _
                  _ e3) [
                    | inl (bad, e) ↦ absurd (cc)
                    | inr (idle_now, e4) ↦
                        let (pending, origin, at_, near, prepared) = marked-Prepared goal n e4 in
                        (
                          record {
                            accepting = ground arith;
                            calm = ground arith;
                            live = ground arith;
                            released = free;
                            no_goal = ground arith;
                            no_return = ground arith;
                            none_active = ground arith;
                          },
                          pending,
                          origin,
                          at_,
                          near,
                          prepared,
                        )
                  ]
          ]
        ]
  ]
