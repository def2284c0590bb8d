-- ===== src/Node/Activity.antt =====
-- What is left running after `stop_activity`, and the end of a driver fault.
use ros2_wavemakers.Actuator.Config.{nothing}
use ros2_wavemakers.Base.{
  Bool, ap, arith, false, if-holds, if◌then◌else◌, inl, inr, is_some, none, ok, refl, sym, true,
  ◌∙◌, ◌∷◌, ◌≡◌,
}
use ros2_wavemakers.Drive.Waiting.{if_cases}
use ros2_wavemakers.Image.Types.{FloatOps}
use ros2_wavemakers.Node.Execute.{abort_active_goal, abort_goal}
use ros2_wavemakers.Node.Lifecycle.{on_deactivate, process_driver_fault, stop_activity}
use ros2_wavemakers.Node.Release.{and_then-ok}
use ros2_wavemakers.Node.Types.{
  CallbackReturn, NodeEnv, Tried, WavemakerNode, bond_down, call_actuator, finish_goal,
  returns_error, returns_success,
}
use ros2_wavemakers.Node.Workers.{join_worker, stop_execution}

module _ (fp : FloatOps) {A : Type 0} (env : NodeEnv fp A) where
  open fp use {Double}
  open env use {ops, join}

  -- What the execution thread still does while it is joined takes up no goal, and leaves the flags of
  -- the other threads.
  pub record IsWorkerEnd : Type 0 where
    pub accepting :
        (n : WavemakerNode Double A) → n.accepting_goals ≡ false → (join n).accepting_goals ≡ false
    pub handle : (n : WavemakerNode Double A) → n.goal_handle ≡ none → (join n).goal_handle ≡ none
    pub pending :
        (n : WavemakerNode Double A) → n.goal_pending ≡ false → (join n).goal_pending ≡ false
    pub flags :
        (n : WavemakerNode Double A)
        → ((join n).stop_execution ≡ n.stop_execution)
          × ((join n).fault_transition_pending ≡ n.fault_transition_pending)

  -- No goal is held, wanted or taken, the execution thread is joined and the bond is gone.
  pub record Quiet (n : WavemakerNode Double A) : Type 0 where
    pub closed : n.accepting_goals ≡ false
    pub no_handle : n.goal_handle ≡ none
    pub not_pending : n.goal_pending ≡ false
    pub joined : n.worker ≡ none
    pub halts : n.stop_execution ≡ true
    pub unbonded : n.bond ≡ false

  pub abort_active_goal-rest :
      (n : WavemakerNode Double A)
      → let n' = abort_active_goal fp env n in
        (n'.goal_handle ≡ none)
        × (n'.goal_pending ≡ false)
        × (n'.accepting_goals ≡ n.accepting_goals)
        × (n'.fault_transition_pending ≡ n.fault_transition_pending)
  unfolding abort_active_goal abort_goal finish_goal
  abort_active_goal-rest n = (ground arith, ground arith, ground arith, ground arith)

  -- Before the actuator is stopped.
  pub record Joined (flag : Bool) (n : WavemakerNode Double A) : Type 0 where
    pub closed : n.accepting_goals ≡ false
    pub no_handle : n.goal_handle ≡ none
    pub not_pending : n.goal_pending ≡ false
    pub joined : n.worker ≡ none
    pub halts : n.stop_execution ≡ true
    pub kept : n.fault_transition_pending ≡ flag

  stop_execution-Joined :
      (n : WavemakerNode Double A)
      → IsWorkerEnd
      → n.accepting_goals ≡ false
      → n.goal_handle ≡ none
      → n.goal_pending ≡ false
      → Joined n.fault_transition_pending (stop_execution fp env n)
  unfolding stop_execution join_worker
  stop_execution-Joined n w closed no_handle idle_now =
      let n1 : WavemakerNode Double A = record n { stop_execution = true } in
      if-holds (Joined n.fault_transition_pending) (is_some n.worker)
        (record (join n1) { worker = none }) n1
        (λ busy_now. record {
          closed = w.accepting n1 closed;
          no_handle = w.handle n1 no_handle;
          not_pending = w.pending n1 idle_now;
          joined = refl;
          halts = (w.flags n1).0;
          kept = (w.flags n1).1;
        })
        (λ free. record {
          closed = closed;
          no_handle = no_handle;
          not_pending = idle_now;
          joined = ground arith;
          halts = refl;
          kept = refl;
        })

  Joined-stopped :
      (n : WavemakerNode Double A) {flag : Bool} {n' : WavemakerNode Double A}
      → Joined flag n
      → (if n.has_actuator then call_actuator ops.stop n else (ok tt, n)) ≡ (ok tt, n')
      → Joined flag n'
  Joined-stopped n {flag} {n'} i h =
      elim (if_cases n.has_actuator (call_actuator ops.stop n) (ok tt, n) h) [
        | inl (there_is, e) ↦
            let same : record n { actuator = (ops.stop n.actuator).1 } ≡ n' = ap (λ t. t.1) e in
            rw (← same) (record {
              closed = i.closed;
              no_handle = i.no_handle;
              not_pending = i.not_pending;
              joined = i.joined;
              halts = i.halts;
              kept = i.kept;
            })
        | inr (nothing, e) ↦ let same : n ≡ n' = ap (λ t. t.1) e in rw (← same) i
      ]

  -- Where the stop of the actuator does not throw, nothing of a goal or a return is left after
  -- `stop_activity`, and a fault that waits for its transition still waits.
  stop_activity-Quiet :
      (n : WavemakerNode Double A) {n' : WavemakerNode Double A}
      → IsWorkerEnd
      → stop_activity fp env n ≡ (ok tt, n')
      → Quiet n' × (n'.fault_transition_pending ≡ n.fault_transition_pending)
  unfolding stop_activity
  stop_activity-Quiet n {n'} w h =
      let n0 : WavemakerNode Double A = record n { accepting_goals = false } in
      let (no_handle, idle_now, closed, same_flag) = abort_active_goal-rest n0 in
      let n1 = abort_active_goal fp env n0 in
      let j = stop_execution-Joined n1 w closed no_handle idle_now in
      let n2 = stop_execution fp env n1 in
      let (u, n3, e, h1) =
        and_then-ok fp env (if n2.has_actuator then call_actuator ops.stop n2 else (ok tt, n2)) _
          h in
      let i3 = Joined-stopped n2 j e in
      let same : record n3 {
        bond = false;
        effects = if n3.bond then bond_down ∷ n3.effects else n3.effects;
      }
          ≡ n' =
        ap (λ t. t.1) h1 in
      rw (← same) (
        record {
          closed = i3.closed;
          no_handle = i3.no_handle;
          not_pending = i3.not_pending;
          joined = i3.joined;
          halts = i3.halts;
          unbonded = refl;
        },
        i3.kept ∙ same_flag,
      )

  -- The end of `on_deactivate`.
  abbrev leave : WavemakerNode Double A → Tried Double A CallbackReturn
  leave n = (
    ok (if n.fault_transition_pending then returns_error else returns_success),
    record n { fault_transition_pending = false },
  )

  leave-fails :
      (n : WavemakerNode Double A) {r : CallbackReturn} {n' : WavemakerNode Double A}
      → Quiet n
      → n.fault_transition_pending ≡ true
      → leave n ≡ (ok r, n')
      → (r ≡ returns_error) × Quiet n' × (n'.fault_transition_pending ≡ false)
  leave-fails n {r} {n'} quiet flag h =
      let same : record n { fault_transition_pending = false } ≡ n' = ap (λ t. t.1) h in
      let result : (if n.fault_transition_pending then returns_error else returns_success) ≡ r =
        cc in
      (
        sym result ∙ ap (λ b. if b then returns_error else returns_success) flag,
        rw (← same) (record {
          closed = quiet.closed;
          no_handle = quiet.no_handle;
          not_pending = quiet.not_pending;
          joined = quiet.joined;
          halts = quiet.halts;
          unbonded = quiet.unbonded;
        }),
        rw (← same) refl,
      )

  on_deactivate-fails :
      (n : WavemakerNode Double A) {r : CallbackReturn} {n' : WavemakerNode Double A}
      → IsWorkerEnd
      → n.fault_transition_pending ≡ true
      → on_deactivate fp env n ≡ (ok r, n')
      → (r ≡ returns_error) × Quiet n' × (n'.fault_transition_pending ≡ false)
  unfolding on_deactivate
  on_deactivate-fails n w flag h =
      let (u, n1, e, h1) = and_then-ok fp env (stop_activity fp env n) _ h in
      let (quiet, kept) = stop_activity-Quiet n w e in leave-fails n1 quiet (kept ∙ flag) h1

  process_driver_fault-flag :
      (n : WavemakerNode Double A)
      → n.fault_pending ≡ true
      → (process_driver_fault fp env true n).fault_transition_pending ≡ true
  unfolding process_driver_fault
  process_driver_fault-flag n reported = rw reported refl

  -- A fault that the driver has reported to an active node: the transition that it triggers ends in an
  -- error, not in the inactive state, and leaves nothing of a goal; where the actuator's stop does not
  -- throw, and what the execution thread still does while it is joined takes up no goal.
  pub process_driver_fault-fails :
      (n : WavemakerNode Double A) {r : CallbackReturn} {n' : WavemakerNode Double A}
      → IsWorkerEnd
      → n.fault_pending ≡ true
      → on_deactivate fp env (process_driver_fault fp env true n) ≡ (ok r, n')
      → (r ≡ returns_error) × Quiet n' × (n'.fault_transition_pending ≡ false)
  process_driver_fault-fails n w reported h =
      on_deactivate-fails (process_driver_fault fp env true n) w
        (process_driver_fault-flag n reported) h
