-- ===== src/Node/Upright.antt =====
-- The return to upright: the checks of the service, the motion and its reply.
use ros2_wavemakers.Base.{
  Bool, Option, String, err, false, if◌then◌else◌, is_some, none, not, ok, some, suc, true, zero, ℕ,
  ◌&&◌, ◌-◌, ◌||◌,
}
use ros2_wavemakers.Image.Types.{FloatOps}
use ros2_wavemakers.Node.Config.{le, zero_m}
use ros2_wavemakers.Node.Execute.{publish_and_write_setpoint, seconds, shielded}
use ros2_wavemakers.Node.Goals.{soft_stop_active, start_outside, velocity_cap}
use ros2_wavemakers.Node.Types.{
  NodeEnv, ResponseStatus, ReturnStatus, Tried, WavemakerNode, actuator_fault, actuator_not_ready,
  and_then, at_upright, call_actuator, controller_inactive, faulty, interrupted, invalid_position,
  note, on_throw, position_invalid, replied_upright, reply_busy, reply_success, reply_timeout,
  timed_out,
}
use ros2_wavemakers.Wave.Math.{quintic_blend}
use ros2_wavemakers.Wave.Peak.{larger_of, peak_factor}

module _ (fp : FloatOps) {A : Type 0} (env : NodeEnv fp A) where
  open fp use {Double, lt, eq, add, sub, mul, div, fabs, decimal}
  open env use {analysis, isfinite, ops, context_ok, sleep}

  unfoldable pub upright_tolerance : Double → WavemakerNode Double A → Double
  upright_tolerance tolerance n =
      if eq tolerance (zero_m fp isfinite)
      then n.settings.parameters.return_to_upright_default_tolerance_m
      else tolerance

  -- Why the service refuses a request, if it does.
  unfoldable pub upright_refusal :
      Double → WavemakerNode Double A → Option (ResponseStatus × String)
  upright_refusal tolerance n =
      if not n.accepting_goals
      then some (controller_inactive, "Controller not active or not accepting goals")
      else if soft_stop_active fp env n
      then some (controller_inactive, "Controller soft stopped")
      else if not (isfinite tolerance) || lt tolerance (zero_m fp isfinite)
      then some (invalid_position, "invalid tolerance")
      else if n.goal_pending || n.returning_to_upright || is_some n.goal_handle
      then some (reply_busy, "Controller is busy")
      else if ops.faulted n.actuator
      then some (actuator_fault, ops.fault_reason n.actuator)
      else if not (ops.is_live n.actuator)
      then some (actuator_not_ready, "Actuator not ready")
      else none

  -- A halt, and the status that follows it.
  abbrev pub halted : ReturnStatus → WavemakerNode Double A → Tried Double A (Option ReturnStatus)
  halted status n = and_then (call_actuator ops.halt n) (λ _ n1. (ok (some status), n1))

  -- The motion's constants.
  pub record Motion : Type 0 where
    pub from_position : Double
    pub target : Double
    pub delta : Double
    pub duration : Double
    pub deadline : Double
    pub limit : Double
    pub tolerance : Double
    pub began : ℕ

  unfoldable pub upright_motion : Double → Double → WavemakerNode Double A → Motion
  upright_motion origin tolerance n =
      let p = n.settings.parameters in
      let delta = sub p.wavemaker_upright_position_m origin in
      let way = mul (peak_factor fp analysis) (fabs delta) in
      let duration =
        larger_of fp analysis (div way p.return_to_upright_max_velocity_mps)
          p.return_to_upright_min_duration_s in
      record {
        from_position = origin;
        target = p.wavemaker_upright_position_m;
        delta = delta;
        duration = duration;
        deadline = add duration p.return_to_upright_timeout_margin_s;
        limit = velocity_cap fp env (div way duration) n;
        tolerance = tolerance;
        began = n.now;
      }

  -- One round of the loop; `none` is that it goes on.
  unfoldable pub upright_round :
      Motion → WavemakerNode Double A → Tried Double A (Option ReturnStatus)
  upright_round m n =
      let t = seconds fp env (n.now - m.began) in
      let b = quintic_blend fp analysis t m.duration in
      if soft_stop_active fp env n
      then halted interrupted n
      else if ops.faulted n.actuator
      then halted faulty n
      else and_then
          (publish_and_write_setpoint fp env (add m.from_position (mul b.s m.delta))
            (mul b.ds m.delta) m.limit n)
          (λ good n1.
            if not good then halted faulty n1 else elim (ops.actual_position_m n1.actuator) [
              | err e ↦ (err e, n1)
              | ok x ↦
                  let n2 = record n1 { final_position = some x } in
                  if le fp isfinite m.duration t
                    && le fp isfinite (fabs (sub x m.target)) m.tolerance
                  then halted at_upright n2
                  else if le fp isfinite m.deadline t
                  then halted timed_out n2
                  else (ok none, n2)
            ])

  unfoldable pub upright_loop :
      ℕ → Motion → WavemakerNode Double A → Tried Double A (Option ReturnStatus)
  upright_loop zero m n = (ok none, n)
  upright_loop (suc k) m n =
      if context_ok n && not n.stop_execution
      then and_then (upright_round m n) (λ status n1.
        let rest = upright_loop k m (sleep n1) in
        elim status [ none ↦ rest | some s ↦ (ok (some s), n1) ])
      else halted interrupted n

  -- On fuel for the rounds; `none` is that the fuel did not last.
  unfoldable pub move_to_upright :
      ℕ → Double → WavemakerNode Double A → Tried Double A (Option ReturnStatus)
  move_to_upright rounds tolerance n = elim (ops.actual_position_m n.actuator) [
    | err e ↦ (err e, n)
    | ok origin ↦
        let n1 = record n { final_position = some origin } in
        let m = upright_motion origin tolerance n1 in
        if start_outside fp env origin n1
        then (ok (some position_invalid), n1)
        else if le fp isfinite (fabs m.delta) tolerance
        then halted at_upright n1
        else upright_loop rounds m n1
  ]

  unfoldable pub upright_reply : ReturnStatus → WavemakerNode Double A → ResponseStatus × String
  upright_reply at_upright n = (reply_success, "At upright")
  upright_reply timed_out n = (reply_timeout, "Timed out before reaching upright")
  upright_reply position_invalid n = (invalid_position, "Current position is invalid")
  upright_reply faulty n = (actuator_fault, ops.fault_reason n.actuator)
  upright_reply interrupted n = (controller_inactive, "Interrupted by lifecycle transition")

  -- The end of what the execution thread runs for a request: the claim is given up, then the reply.
  unfoldable pub finish_return : ℕ → ReturnStatus → WavemakerNode Double A → WavemakerNode Double A
  finish_return request status n =
      let n1 = record n { returning_to_upright = false } in
      let (number, text) = upright_reply status n1 in
      note (replied_upright request number n1.final_position text) n1

  -- What the execution thread runs for a request; an exception is a fault, after a halt that may throw
  -- as well. The result is whether it came to its end.
  unfoldable pub run_return : ℕ → ℕ → Double → WavemakerNode Double A → Tried Double A Bool
  run_return rounds request tolerance n =
      and_then
        (on_throw (move_to_upright rounds tolerance (record n { final_position = none }))
          (λ e n1. (ok (some faulty), shielded fp env (call_actuator ops.halt n1))))
        (λ status n2. elim status [
          | none ↦ (ok false, n2)
          | some s ↦ (ok true, finish_return request s n2)
        ])
