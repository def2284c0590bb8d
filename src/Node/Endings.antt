-- ===== src/Node/Endings.antt =====
-- How the work of the execution thread on a goal ends.
use Prim.Native.String.{◌++◌ as ◌+++◌}
use text.Mathlib.Text.{◌==◌ as str_eq}
use ros2_wavemakers.Base.{
  Bool, Bool-cases, Outcome-cases, String, ap, arith, err, false, if◌then◌else◌, inl, inr, not, ok,
  refl, suc, true, zero, ℕ, ◌&&◌, ◌-◌, ◌∙◌, ◌≡◌, ◌⊎◌,
}
use ros2_wavemakers.Drive.Waiting.{if_cases}
use ros2_wavemakers.Image.Types.{FloatOps}
use ros2_wavemakers.Node.Execute.{
  abort_goal, goal_loop, goal_round, goal_stopped, handle_driver_fault, publish_and_write_setpoint,
  release_handle, sample_goal, seconds, setpoint_refused,
}
use ros2_wavemakers.Node.Goals.{soft_stop_active}
use ros2_wavemakers.Node.Release.{
  AtRest, Over, abort_goal-ended, abort_goal-rest, aborted-AtRest, aborted-Over, and_then-ok,
  call-ok, finished-AtRest, finished-Over, release_handle-released, release_handle-rest,
  succeeded-Over,
}
use ros2_wavemakers.Node.Types.{
  NodeEffect, NodeEnv, Tried, WavemakerNode, and_then, call_actuator, finish_goal, goal_canceled,
  goal_feedback, goal_succeeded, note,
}

module _ (fp : FloatOps) {A : Type 0} (env : NodeEnv fp A) where
  open fp use {Double}
  open env use {analysis, isfinite, ops, what, context_ok, sleep}

  setpoint_refused-Over :
      (g : ℕ) (n : WavemakerNode Double A) {n' : WavemakerNode Double A}
      → setpoint_refused fp env g n ≡ (ok tt, n')
      → Over fp env g n' × AtRest fp env n'.actuator
  unfolding setpoint_refused handle_driver_fault
  setpoint_refused-Over g n {n'} h =
      let (u, a, e, e1) = call-ok fp env ops.stop _ _ h in
      let reason = ops.fault_reason n.actuator in
      let text : String =
        if str_eq reason ""
        then "Actuator rejected setpoint"
        else "Actuator rejected setpoint: " +++ reason in
      let n0 : WavemakerNode Double A = record n { accepting_goals = false } in
      let n1 : WavemakerNode Double A =
        record (handle_driver_fault fp env text (release_handle fp env g n0)) { actuator = a } in
      let same : abort_goal fp env g text n1 ≡ n' = ap (λ t. t.1) e1 in
      rw (← same) (
        record {
          released = rw (abort_goal-rest fp env g text n1).1 (release_handle-released fp env g n0);
          ended = abort_goal-ended fp env g text n1;
        },
        rw (abort_goal-rest fp env g text n1).0 (inr (_, e)),
      )

  -- What a round does once its setpoint is written, if it is.
  abbrev written : ℕ → Double → Bool → Double → Bool → WavemakerNode Double A → Tried Double A Bool
  written g t complete x good n1 =
      if not good
      then and_then (setpoint_refused fp env g n1) (λ _ n2. (ok false, n2))
      else elim (ops.actual_position_m n1.actuator) [
        | err e ↦ (err e, n1)
        | ok actual ↦
            let n2 = note (goal_feedback g x actual t) n1 in
            if complete
            then and_then (call_actuator ops.halt n2) (λ _ n3. (
              ok false,
              release_handle fp env g
                  (finish_goal g (goal_succeeded g "Pregenerated trajectory completed") n3),
            ))
            else (ok true, n2)
      ]

  written-Over :
      (g : ℕ) (t : Double) (complete : Bool) (x : Double) (good : Bool) (n : WavemakerNode Double A)
      {n' : WavemakerNode Double A}
      → written g t complete x good n ≡ (ok false, n')
      → Over fp env g n' × AtRest fp env n'.actuator
  written-Over g t complete x false n {n'} h =
      let (u, n2, e, e1) = and_then-ok fp env (setpoint_refused fp env g n) _ h in
      let same : n2 ≡ n' = ap (λ t. t.1) e1 in rw (← same) (setpoint_refused-Over g n e)
  written-Over g t complete x true n {n'} h =
      elim (Outcome-cases (ops.actual_position_m n.actuator)) [
        | inl (thrown, e) ↦ absurd (let h1 = rw e at h in cc)
        | inr (actual, e) ↦
            let n2 : WavemakerNode Double A = note (goal_feedback g x actual t) n in
            elim (if_cases complete _ (ok true, n2) (rw e at h)) [
              | inl (complete_now, h1) ↦
                  let (u, a, e1, e2) = call-ok fp env ops.halt n2 _ h1 in
                  let n3 : WavemakerNode Double A = record n2 { actuator = a } in
                  let same : release_handle fp env g
                        (finish_goal g (goal_succeeded g "Pregenerated trajectory completed") n3)
                      ≡ n' =
                    ap (λ t. t.1) e2 in
                  rw (← same) (succeeded-Over fp env g _ n3 (inl (n2.actuator, e1)))
              | inr (more, h1) ↦ absurd (cc)
            ]
      ]

  -- A round after which the loop does not go on.
  goal_round-Over :
      (g began : ℕ) (n : WavemakerNode Double A) {n' : WavemakerNode Double A}
      → goal_round fp env g began n ≡ (ok false, n')
      → Over fp env g n' × AtRest fp env n'.actuator
  unfolding goal_round
  goal_round-Over g began n {n'} h =
      let t = seconds fp env (n.now - began) in
      let (complete, x) = sample_goal fp env t n in
      elim (if_cases (n.goals g).is_canceling _ _ h) [
        | inl (cancels, h1) ↦
            let (u, a, e, e1) = call-ok fp env ops.halt n _ h1 in
            let n1 : WavemakerNode Double A = record n { actuator = a } in
            let ev : NodeEffect Double =
              goal_canceled g "Goal canceled; actuator halted and remains enabled" in
            let same : finish_goal g ev (release_handle fp env g n1) ≡ n' = ap (λ t. t.1) e1 in
            rw (← same)
              (finished-Over fp env g ev n1, finished-AtRest fp env g ev n1 (inl (n.actuator, e)))
        | inr (goes_on, h1) ↦ elim (if_cases (soft_stop_active fp env n) _ _ h1) [
          | inl (soft, h2) ↦
              let (u, a, e, e1) = call-ok fp env ops.halt n _ h2 in
              let n1 : WavemakerNode Double A = record n { actuator = a } in
              let text : String = "Soft stop engaged; actuator halted and remains enabled" in
              let same : abort_goal fp env g text (release_handle fp env g n1) ≡ n' =
                ap (λ t. t.1) e1 in
              rw (← same) (
                aborted-Over fp env g text n1,
                aborted-AtRest fp env g text n1 (inl (n.actuator, e)),
              )
          | inr (free, h2) ↦
              let (good, n1, e, e1) =
                and_then-ok fp env
                  (publish_and_write_setpoint fp env x.position x.velocity n.goal_velocity_cap_mps
                    n)
                  _ h2 in
              written-Over g t complete x.position good n1 e1
        ]
      ]

  goal_stopped-Over :
      (g : ℕ) (n : WavemakerNode Double A) {n' : WavemakerNode Double A}
      → goal_stopped fp env g n ≡ (ok true, n')
      → Over fp env g n' × AtRest fp env n'.actuator
  unfolding goal_stopped
  goal_stopped-Over g n {n'} h =
      let (u, a, e, e1) = call-ok fp env ops.halt n _ h in
      let n1 : WavemakerNode Double A = record n { actuator = a } in
      let same : abort_goal fp env g "Goal stopped" (release_handle fp env g n1) ≡ n' =
        ap (λ t. t.1) e1 in
      rw (← same) (
        aborted-Over fp env g "Goal stopped" n1,
        aborted-AtRest fp env g "Goal stopped" n1 (inl (n.actuator, e)),
      )

  -- Whatever happens between the rounds and however many rounds it takes: where the work on a goal
  -- came to its end without an exception, the goal is over, the node does not hold it, and the last
  -- call that changed the actuator was a halt or a stop that came back.
  pub goal_loop-Over :
      (rounds g began : ℕ) (n : WavemakerNode Double A) {n' : WavemakerNode Double A}
      → goal_loop fp env rounds g began n ≡ (ok true, n')
      → Over fp env g n' × AtRest fp env n'.actuator
  unfolding goal_loop
  goal_loop-Over zero g began n h = absurd (cc)
  goal_loop-Over (suc k) g began n {n'} h =
      elim (if_cases (context_ok n && not n.stop_execution) _ _ h) [
        | inl (up, h1) ↦
            let (more, n1, e, e1) = and_then-ok fp env (goal_round fp env g began n) _ h1 in
            elim (if_cases more _ _ e1) [
              | inl (goes_on, e2) ↦ goal_loop-Over k g began (sleep n1) e2
              | inr (done_now, e2) ↦
                  let same : n1 ≡ n' = ap (λ t. t.1) e2 in
                  let ended : goal_round fp env g began n ≡ (ok false, n1) =
                    e ∙ ap (λ b. (ok b, n1)) done_now in
                  rw (← same) (goal_round-Over g began n ended)
            ]
        | inr (down, h1) ↦ goal_stopped-Over g n h1
      ]

  stopped_now :
      (g : ℕ) (text : String) (n : WavemakerNode Double A) {a : A}
      → ops.halt n.actuator ≡ (ok tt, a)
      → (abort_goal fp env g text (release_handle fp env g (record n { actuator = a }))).actuator
        ≡ a
  stopped_now g text n {a} e =
      (abort_goal-rest fp env g text _).0
      ∙ (release_handle-rest fp env g (record n { actuator = a })).0

  -- A cancellation, an engaged soft stop or a request to stop the execution ends the work on a goal in
  -- the next round, where the halt does not throw: the actuator is halted and nothing else is asked
  -- of it.
  pub goal_loop-halts :
      (rounds g began : ℕ) (n : WavemakerNode Double A) {a : A}
      → ((n.goals g).is_canceling ≡ true)
        ⊎ (soft_stop_active fp env n ≡ true)
        ⊎ (n.stop_execution ≡ true)
      → ops.halt n.actuator ≡ (ok tt, a)
      → (n' : WavemakerNode Double A) × (goal_loop fp env (suc rounds) g began n ≡ (ok true, n'))
        × (n'.actuator ≡ a)
        × Over fp env g n'
  unfolding goal_loop goal_round goal_stopped finish_goal
  goal_loop-halts rounds g began n {a} asked e =
      let n1 : WavemakerNode Double A = record n { actuator = a } in
      let by : String → WavemakerNode Double A =
        λ text. abort_goal fp env g text (release_handle fp env g n1) in
      let ev : NodeEffect Double =
        goal_canceled g "Goal canceled; actuator halted and remains enabled" in
      elim (Bool-cases (context_ok n && not n.stop_execution)) [
        | inr down ↦ (
          by "Goal stopped",
          rw (down, e) refl,
          stopped_now g "Goal stopped" n e,
          aborted-Over fp env g "Goal stopped" n1,
        )
        | inl up ↦ elim (Bool-cases (n.goals g).is_canceling) [
          | inl cancels ↦ (
            finish_goal g ev (release_handle fp env g n1),
            rw (up, cancels, e) refl,
            (release_handle-rest fp env g n1).0,
            finished-Over fp env g ev n1,
          )
          | inr goes_on ↦
              let soft : soft_stop_active fp env n ≡ true = ground arith in
              (
                by "Soft stop engaged; actuator halted and remains enabled",
                rw (up, goes_on, soft, e) refl,
                stopped_now g _ n e,
                aborted-Over fp env g _ n1,
              )
        ]
      ]
