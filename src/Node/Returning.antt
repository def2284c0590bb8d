-- ===== src/Node/Returning.antt =====
-- What a return to upright that reports success has reached.
use ros2_wavemakers.Base.{
  Option, Option-cases, Outcome-cases, ap, arith, if◌then◌else◌, inl, inr, none, not, ok, refl,
  some, suc, sym, true, zero, ℕ, ◌&&◌, ◌-◌, ◌∙◌, ◌≡◌, ◌⊎◌,
}
use ros2_wavemakers.Drive.Waiting.{if_cases}
use ros2_wavemakers.Image.Types.{FloatOps}
use ros2_wavemakers.Node.Config.{le}
use ros2_wavemakers.Node.Execute.{publish_and_write_setpoint, seconds}
use ros2_wavemakers.Node.Goals.{soft_stop_active, start_outside}
use ros2_wavemakers.Node.Release.{AtRest, and_then-ok, call-ok}
use ros2_wavemakers.Node.Types.{
  NodeEnv, ReturnStatus, Tried, WavemakerNode, at_upright, faulty, interrupted, timed_out,
}
use ros2_wavemakers.Node.Upright.{
  Motion, halted, move_to_upright, upright_loop, upright_motion, upright_round,
}
use ros2_wavemakers.Wave.Math.{quintic_blend}

module _ (fp : FloatOps) {A : Type 0} (env : NodeEnv fp A) where
  open fp use {Double, add, sub, mul, fabs}
  open env use {analysis, isfinite, ops, context_ok, sleep}

  -- The actuator was halted right after its position was measured as `here`; that is the position which
  -- is reported, and it is as near to the target as the tolerance says, in whichever order the
  -- difference is taken.
  pub record Near (target tolerance : Double) (n : WavemakerNode Double A) : Type 0 where
    pub here : Double
    pub before : A
    pub measured : ops.actual_position_m before ≡ ok here
    pub halted_then : ops.halt before ≡ (ok tt, n.actuator)
    pub reported : n.final_position ≡ some here
    pub within :
        (le fp isfinite (fabs (sub here target)) tolerance ≡ true)
        ⊎ (le fp isfinite (fabs (sub target here)) tolerance ≡ true)

  halted-ok :
      (status : ReturnStatus) (n : WavemakerNode Double A) {s : Option ReturnStatus}
      {n' : WavemakerNode Double A}
      → halted fp env status n ≡ (ok s, n')
      → (s ≡ some status)
        × (n'.final_position ≡ n.final_position)
        × (ops.halt n.actuator ≡ (ok tt, n'.actuator))
  halted-ok status n {s} {n'} h =
      let (u, a, e, e1) = call-ok fp env ops.halt n _ h in
      let same : record n { actuator = a } ≡ n' = ap (λ t. t.1) e1 in
      let is : some status ≡ s = cc in rw (← same) (sym is, refl, e)

  -- The end of a round whose setpoint was written and whose position was measured.
  abbrev arriving :
      Motion fp env
      → Double
      → Double
      → WavemakerNode Double A
      → Tried Double A (Option ReturnStatus)
  arriving m t x n2 =
      if le fp isfinite m.duration t && le fp isfinite (fabs (sub x m.target)) m.tolerance
      then halted fp env at_upright n2
      else if le fp isfinite m.deadline t
      then halted fp env timed_out n2
      else (ok none, n2)

  arriving-Near :
      (m : Motion fp env) (t x : Double) (n : WavemakerNode Double A) {n' : WavemakerNode Double A}
      → ops.actual_position_m n.actuator ≡ ok x
      → arriving m t x (record n { final_position = some x }) ≡ (ok (some at_upright), n')
      → Near m.target m.tolerance n' × AtRest fp env n'.actuator
  arriving-Near m t x n seen h =
      let n2 : WavemakerNode Double A = record n { final_position = some x } in
      elim (if_cases
        (le fp isfinite m.duration t && le fp isfinite (fabs (sub x m.target)) m.tolerance) _ _ h) [
          | inl (there_now, h1) ↦
              let (s, kept, e) = halted-ok at_upright n2 h1 in
              (
                record {
                  here = x;
                  before = n.actuator;
                  measured = seen;
                  halted_then = e;
                  reported = kept;
                  within = inl (ground arith);
                },
                inl (n2.actuator, e),
              )
          | inr (away, h1) ↦ elim (if_cases (le fp isfinite m.deadline t) _ _ h1) [
            | inl (late, h2) ↦ absurd (let (s, kept, e) = halted-ok timed_out n2 h2 in cc)
            | inr (early, h2) ↦ absurd (cc)
          ]
        ]

  upright_round-Near :
      (m : Motion fp env) (n : WavemakerNode Double A) {n' : WavemakerNode Double A}
      → upright_round fp env m n ≡ (ok (some at_upright), n')
      → Near m.target m.tolerance n' × AtRest fp env n'.actuator
  unfolding upright_round
  upright_round-Near m n h = elim (if_cases (soft_stop_active fp env n) _ _ h) [
    | inl (soft, h1) ↦ absurd (let (s, kept, e) = halted-ok interrupted n h1 in cc)
    | inr (free, h1) ↦ elim (if_cases (ops.faulted n.actuator) _ _ h1) [
      | inl (bad, h2) ↦ absurd (let (s, kept, e) = halted-ok faulty n h2 in cc)
      | inr (calm, h2) ↦
          let b = quintic_blend fp analysis (seconds fp env (n.now - m.began)) m.duration in
          let (good, n1, e, h3) =
            and_then-ok fp env
              (publish_and_write_setpoint fp env (add m.from_position (mul b.s m.delta))
                (mul b.ds m.delta) m.limit n)
              _ h2 in
          elim (if_cases (not good) _ _ h3) [
            | inl (bad, h4) ↦ absurd (let (s, kept, e1) = halted-ok faulty n1 h4 in cc)
            | inr (fine, h4) ↦ elim (Outcome-cases (ops.actual_position_m n1.actuator)) [
              | inl (thrown, e1) ↦ absurd (let h5 = rw e1 at h4 in cc)
              | inr (x, e1) ↦
                  arriving-Near m (seconds fp env (n.now - m.began)) x n1 e1 (rw e1 at h4)
            ]
          ]
    ]
  ]

  upright_loop-Near :
      (rounds : ℕ) (m : Motion fp env) (n : WavemakerNode Double A) {n' : WavemakerNode Double A}
      → upright_loop fp env rounds m n ≡ (ok (some at_upright), n')
      → Near m.target m.tolerance n' × AtRest fp env n'.actuator
  unfolding upright_loop
  upright_loop-Near zero m n h = absurd (cc)
  upright_loop-Near (suc k) m n {n'} h =
      elim (if_cases (context_ok n && not n.stop_execution) _ _ h) [
        | inr (down, h1) ↦ absurd (let (s, kept, e) = halted-ok interrupted n h1 in cc)
        | inl (up, h1) ↦
            let (status, n1, e, h2) = and_then-ok fp env (upright_round fp env m n) _ h1 in
            elim (Option-cases status) [
              | inl goes_on ↦ upright_loop-Near k m (sleep n1) (rw goes_on at h2)
              | inr (s, ends_now) ↦
                  let h3 = rw ends_now at h2 in
                  let same : n1 ≡ n' = ap (λ t. t.1) h3 in
                  let is : status ≡ some at_upright = ends_now ∙ cc in
                  rw (← same) (upright_round-Near m n (e ∙ ap (λ b. (ok b, n1)) is))
            ]
      ]

  -- A return that reports success has halted the actuator right after measuring its position; that
  -- measured position is the one it reports, and it is within the tolerance of upright.
  pub move_to_upright-Near :
      (rounds : ℕ) (tolerance : Double) (n : WavemakerNode Double A) {n' : WavemakerNode Double A}
      → move_to_upright fp env rounds tolerance n ≡ (ok (some at_upright), n')
      → Near n.settings.parameters.wavemaker_upright_position_m tolerance n'
        × AtRest fp env n'.actuator
  unfolding move_to_upright upright_motion
  move_to_upright-Near rounds tolerance n {n'} h =
      elim (Outcome-cases (ops.actual_position_m n.actuator)) [
        | inl (thrown, e) ↦ absurd (let h1 = rw (move_to_upright, e) at h in cc)
        | inr (origin, e) ↦
            let n1 : WavemakerNode Double A = record n { final_position = some origin } in
            let m = upright_motion fp env origin tolerance n1 in
            elim (if_cases (start_outside fp env origin n1) _ _ (rw (move_to_upright, e) at h)) [
              | inl (far, h1) ↦ absurd (cc)
              | inr (inside, h1) ↦
                  elim (if_cases (le fp isfinite (fabs m.delta) tolerance) _ _ h1) [
                    | inl (there_now, h2) ↦
                        let (s, kept, e1) = halted-ok at_upright n1 h2 in
                        (
                          record {
                            here = origin;
                            before = n.actuator;
                            measured = e;
                            halted_then = e1;
                            reported = kept;
                            within = inr there_now;
                          },
                          inl (n1.actuator, e1),
                        )
                    | inr (away, h2) ↦ upright_loop-Near rounds m n1 h2
                  ]
            ]
      ]
