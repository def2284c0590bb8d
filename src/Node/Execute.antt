-- ===== src/Node/Execute.antt =====
-- The setpoints, and the loop of the execution thread that runs a goal.
use Prim.Native.String.{◌++◌ as ◌+++◌}
use text.Mathlib.Text.{◌==◌ as str_eq}
use ros2_wavemakers.Base.{
  Bool, String, err, false, if◌then◌else◌, none, not, ok, pos, some, suc, true, zero, ℕ, ◌&&◌, ◌-◌,
  ◌==◌,
}
use ros2_wavemakers.Image.Types.{FloatOps}
use ros2_wavemakers.Node.Goals.{soft_stop_active}
use ros2_wavemakers.Node.Types.{
  NodeEnv, Tried, WavemakerNode, actuator_setpoint, and_then, call_actuator, finish_goal,
  goal_aborted, goal_canceled, goal_executes, goal_feedback, goal_succeeded, measured, note,
  on_throw, setpoint, velocity,
}
use ros2_wavemakers.Wave.Trajectory.{Sample, sample_wave, sample_wave_file}

module _ (fp : FloatOps) {A : Type 0} (env : NodeEnv fp A) where
  open fp use {Double, lt, div, decimal, f64_of_int}
  open env use {analysis, isfinite, ops, what, context_ok, sleep}

  -- `std::clamp(v, lo, hi)`.
  unfoldable pub clamp_between : Double → Double → Double → Double
  clamp_between v lo hi = if lt v lo then lo else if lt hi v then hi else v

  unfoldable pub publish_and_write_setpoint :
      Double → Double → Double → WavemakerNode Double A → Tried Double A Bool
  publish_and_write_setpoint position velocity_mps limit n =
      let s = n.settings in
      let target = clamp_between position s.goal_position_minimum s.goal_position_maximum in
      let n1 = note (velocity velocity_mps) (note (setpoint target) n) in
      elim (ops.actual_position_m n.actuator) [
        | err e ↦ (err e, n1)
        | ok x ↦
            let sent = ops.to_actuator_setpoint target limit n.actuator in
            call_actuator (ops.write_setpoint sent)
              (note (actuator_setpoint sent.position) (note (measured x) n1))
      ]

  -- The handle and the pending flag are given up where they are those of the goal.
  unfoldable pub release_handle : ℕ → WavemakerNode Double A → WavemakerNode Double A
  release_handle g n = elim n.goal_handle [
    | none ↦ n
    | some h ↦ if h == g then record n { goal_handle = none; goal_pending = false } else n
  ]

  unfoldable pub abort_goal : ℕ → String → WavemakerNode Double A → WavemakerNode Double A
  abort_goal g text n = if (n.goals g).is_active then finish_goal g (goal_aborted g text) n else n

  unfoldable pub abort_active_goal : WavemakerNode Double A → WavemakerNode Double A
  abort_active_goal n =
      let n1 = record n { goal_handle = none; goal_pending = false } in
      elim n.goal_handle [
        | none ↦ n1
        | some g ↦ abort_goal g "Goal aborted by lifecycle transition" n1
      ]

  unfoldable pub handle_driver_fault : String → WavemakerNode Double A → WavemakerNode Double A
  handle_driver_fault reason n = record n {
    pending_fault_reason = if n.fault_pending then n.pending_fault_reason else reason;
    fault_pending = true;
  }

  -- What a `catch (...)` that only logs makes of a call.
  abbrev pub shielded : Tried Double A (Unit {0}) → WavemakerNode Double A
  shielded r = r.1

  unfoldable pub release_goal : ℕ → String → WavemakerNode Double A → WavemakerNode Double A
  release_goal g text n =
      let n1 = if n.has_actuator then shielded (call_actuator ops.halt n) else n in
      abort_goal g text (release_handle g n1)

  -- A time in seconds.
  abbrev pub seconds : ℕ → Double
  seconds ns = div (f64_of_int (pos ns)) (decimal (pos 1000000000) 0)

  unfoldable pub sample_goal : Double → WavemakerNode Double A → Bool × Sample Double
  sample_goal t n =
      if n.settings.parameters.wavemaker_mode_pregenerated
      then sample_wave_file fp analysis n.pregenerated t
      else (false, sample_wave fp analysis n.trajectory t)

  -- The end of a goal whose setpoint was refused.
  unfoldable pub setpoint_refused : ℕ → WavemakerNode Double A → Tried Double A (Unit {0})
  setpoint_refused g n =
      let reason = ops.fault_reason n.actuator in
      let text =
        if str_eq reason ""
        then "Actuator rejected setpoint"
        else "Actuator rejected setpoint: " +++ reason in
      let n1 = release_handle g (record n { accepting_goals = false }) in
      and_then (call_actuator ops.stop (handle_driver_fault text n1))
        (λ _ n2. (ok tt, abort_goal g text n2))

  -- One round of the loop; `true` is that it goes on.
  unfoldable pub goal_round : ℕ → ℕ → WavemakerNode Double A → Tried Double A Bool
  goal_round g started n =
      let t = seconds (n.now - started) in
      let (complete, x) = sample_goal t n in
      if (n.goals g).is_canceling
      then and_then (call_actuator ops.halt n) (λ _ n1. (
        ok false,
        finish_goal g (goal_canceled g "Goal canceled; actuator halted and remains enabled")
            (release_handle g n1),
      ))
      else if soft_stop_active fp env n
      then and_then (call_actuator ops.halt n) (λ _ n1. (
        ok false,
        abort_goal g "Soft stop engaged; actuator halted and remains enabled" (release_handle g n1),
      ))
      else and_then (publish_and_write_setpoint x.position x.velocity n.goal_velocity_cap_mps n)
          (λ good n1.
            if not good
            then and_then (setpoint_refused g n1) (λ _ n2. (ok false, n2))
            else elim (ops.actual_position_m n1.actuator) [
              | err e ↦ (err e, n1)
              | ok actual ↦
                  let n2 = note (goal_feedback g x.position actual t) n1 in
                  if complete
                  then and_then (call_actuator ops.halt n2) (λ _ n3. (
                    ok false,
                    release_handle g
                        (finish_goal g (goal_succeeded g "Pregenerated trajectory completed") n3),
                  ))
                  else (ok true, n2)
            ])

  -- After the loop.
  unfoldable pub goal_stopped : ℕ → WavemakerNode Double A → Tried Double A Bool
  goal_stopped g n =
      and_then (call_actuator ops.halt n)
        (λ _ n1. (ok true, abort_goal g "Goal stopped" (release_handle g n1)))

  -- The loop on fuel, one unit for each round; the result is whether it came to its end.
  unfoldable pub goal_loop : ℕ → ℕ → ℕ → WavemakerNode Double A → Tried Double A Bool
  goal_loop zero g started n = (ok false, n)
  goal_loop (suc k) g started n =
      if context_ok n && not n.stop_execution
      then and_then (goal_round g started n) (λ more n1.
        let rest = goal_loop k g started (sleep n1) in if more then rest else (ok true, n1))
      else goal_stopped g n

  unfoldable pub execute_goal : ℕ → ℕ → WavemakerNode Double A → Tried Double A Bool
  execute_goal rounds g n = goal_loop rounds g n.now (note (goal_executes g) n)

  -- What the execution thread runs for a goal.
  unfoldable pub run_goal : ℕ → ℕ → WavemakerNode Double A → Tried Double A Bool
  run_goal rounds g n =
      on_throw (execute_goal rounds g n)
        (λ e n1. (ok true, release_goal g ("Goal execution failed: " +++ what e) n1))
