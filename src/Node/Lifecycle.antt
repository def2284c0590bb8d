-- ===== src/Node/Lifecycle.antt =====
-- The lifecycle callbacks, the soft stop and the faults of the driver.
use ros2_wavemakers.Base.{
  Bool, Option, false, if◌then◌else◌, ltb, max, none, not, ok, some, true, ◌-◌, ◌==◌, ◌||◌, ◌∷◌,
}
use ros2_wavemakers.Image.Types.{FloatOps}
use ros2_wavemakers.Node.Config.{check_parameters}
use ros2_wavemakers.Node.Execute.{abort_active_goal, shielded}
use ros2_wavemakers.Node.Types.{
  CallbackReturn, NodeEnv, NodeParameters, Tried, WavemakerNode, and_then, bond_down, bond_up,
  call_actuator, note, returns_error, returns_failure, returns_success, triggers_deactivate,
}
use ros2_wavemakers.Node.Workers.{stop_execution}

module _ (fp : FloatOps) {A : Type 0} (env : NodeEnv fp A) where
  open fp use {Double, lt}
  open env use {isfinite, ops}

  unfoldable pub stop_activity : WavemakerNode Double A → Tried Double A (Unit {0})
  stop_activity n =
      let n1 =
        stop_execution fp env (abort_active_goal fp env (record n { accepting_goals = false })) in
      and_then (if n1.has_actuator then call_actuator ops.stop n1 else (ok tt, n1)) (λ _ n2. (
        ok tt,
        record n2 {
          bond = false;
          effects = if n2.bond then bond_down ∷ n2.effects else n2.effects;
        },
      ))

  unfoldable pub release_resources : WavemakerNode Double A → WavemakerNode Double A
  release_resources n = record n { resources = false; has_actuator = false }

  -- `built` is the actuator that the factory makes, or none where making it throws. What a refused
  -- configuration has written already is left out: the next one writes it again.
  unfoldable pub on_configure :
      NodeParameters Double → Option A → WavemakerNode Double A → Tried Double A CallbackReturn
  on_configure p built n = elim (check_parameters fp isfinite p) [
    | none ↦ (ok returns_failure, n)
    | some settings ↦
        let n1 = record n {
          settings = settings;
          soft_stop_configured_ns = n.now;
          soft_stop_missing_logged = false;
        } in
        elim built [
          | none ↦ and_then (stop_activity n1) (λ _ n2. (ok returns_failure, release_resources n2))
          | some a ↦
              let n2 = record n1 {
                has_actuator = true;
                actuator = a;
                control_period_ms = max 1 (ops.update_period_ms a);
              } in
              if lt (ops.max_velocity_mps a) p.return_to_upright_max_velocity_mps
              then (ok returns_failure, release_resources n2)
              else (
                ok returns_success,
                record n2 {
                  resources = true;
                  soft_stopped = true;
                  soft_stop_last_msg_ns = 0;
                  soft_stop_silent_logged = false;
                },
              )
        ]
  ]

  -- `bonded` is that making and starting the bond does not throw.
  unfoldable pub on_activate : Bool → WavemakerNode Double A → Tried Double A CallbackReturn
  on_activate bonded n =
      if not n.has_actuator
      then (ok returns_failure, n)
      else and_then (call_actuator ops.start n) (λ good n1.
        if not good
        then (ok returns_failure, n1)
        else if bonded
        then (ok returns_success, note bond_up (record n1 { bond = true; accepting_goals = true }))
        else and_then (call_actuator ops.stop n1)
            (λ _ n2. (ok returns_failure, record n2 { bond = false })))

  unfoldable pub on_deactivate : WavemakerNode Double A → Tried Double A CallbackReturn
  on_deactivate n = and_then (stop_activity n) (λ _ n1. (
    ok (if n1.fault_transition_pending then returns_error else returns_success),
    record n1 { fault_transition_pending = false },
  ))

  unfoldable pub on_cleanup : WavemakerNode Double A → Tried Double A CallbackReturn
  on_cleanup n = and_then (stop_activity n) (λ _ n1. (ok returns_success, release_resources n1))

  unfoldable pub on_error : WavemakerNode Double A → Tried Double A CallbackReturn
  on_error n = and_then (stop_activity n) (λ _ n1. (ok returns_success, release_resources n1))

  unfoldable pub on_shutdown : WavemakerNode Double A → Tried Double A CallbackReturn
  on_shutdown n = and_then (stop_activity n) (λ _ n1. (ok returns_success, release_resources n1))

  -- The destructor.
  unfoldable pub destroy : WavemakerNode Double A → WavemakerNode Double A
  destroy n =
      let n1 = stop_execution fp env (abort_active_goal fp env n) in
      if n1.has_actuator then shielded fp env (call_actuator ops.stop n1) else n1

  unfoldable pub soft_stop_callback : Bool → WavemakerNode Double A → WavemakerNode Double A
  soft_stop_callback engaged n = record n { soft_stop_last_msg_ns = n.now; soft_stopped = engaged }

  -- The two flags only keep the log from repeating itself.
  unfoldable pub check_soft_stop_liveness : WavemakerNode Double A → WavemakerNode Double A
  check_soft_stop_liveness n =
      if n.soft_stop_last_msg_ns == 0
      then record n {
        soft_stop_missing_logged =
            n.soft_stop_missing_logged || ltb 5000000000 (n.now - n.soft_stop_configured_ns);
      }
      else record n {
        soft_stop_silent_logged =
            ltb n.settings.parameters.soft_stop_timeout_ns (n.now - n.soft_stop_last_msg_ns);
      }

  -- `primary_active` is that the lifecycle state of the node is active. The transition that is
  -- triggered runs `on_deactivate`.
  unfoldable pub process_driver_fault : Bool → WavemakerNode Double A → WavemakerNode Double A
  process_driver_fault primary_active n =
      let n1 = record n {
        fault_pending = false;
        pending_fault_reason = "";
        accepting_goals = false;
      } in
      if not n.fault_pending
      then n
      else if not primary_active
      then n1
      else note triggers_deactivate
          (record (abort_active_goal fp env n1) { fault_transition_pending = true })
