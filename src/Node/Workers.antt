-- ===== src/Node/Workers.antt =====
-- The execution thread, and the callbacks that start it.
use ros2_wavemakers.Base.{
  Bool, Option, String, false, if◌then◌else◌, is_some, none, not, some, true, ℕ, ◌%◌, ◌==◌, ◌^◌,
  ◌||◌,
}
use ros2_wavemakers.Image.Types.{FloatOps}
use ros2_wavemakers.Node.Execute.{abort_goal}
use ros2_wavemakers.Node.Types.{
  NodeEnv, ResponseStatus, WavemakerNode, Work, cancels_all, controller_inactive, execute,
  no_active_goals, note, replied_cancel, replied_upright, request_accepted, request_rejected,
  return_upright, server_unavailable,
}
use ros2_wavemakers.Node.Upright.{upright_refusal, upright_tolerance}

module _ (fp : FloatOps) {A : Type 0} (env : NodeEnv fp A) where
  open fp use {Double}
  open env use {join}

  -- `join` where the thread is joinable.
  unfoldable pub join_worker : WavemakerNode Double A → WavemakerNode Double A
  join_worker n = if is_some n.worker then record (join n) { worker = none } else n

  unfoldable pub stop_execution : WavemakerNode Double A → WavemakerNode Double A
  stop_execution n = join_worker (record n { stop_execution = true })

  unfoldable pub start_execution :
      Work Double → WavemakerNode Double A → Bool × WavemakerNode Double A
  start_execution work n =
      let n1 = stop_execution n in
      if n1.accepting_goals
      then (true, record n1 { stop_execution = false; worker = some work })
      else (false, n1)

  -- The first region of `handle_accepted_callback` under the mutex.
  unfoldable pub take_goal : ℕ → WavemakerNode Double A → WavemakerNode Double A
  take_goal g n = record n {
    goal_handle = if n.accepting_goals then some g else n.goal_handle;
    goal_pending = false;
  }

  -- The region of the service under the mutex: what it refuses, or the claim of the controller.
  unfoldable pub claim_return :
      Double → WavemakerNode Double A → Option (ResponseStatus × String) × WavemakerNode Double A
  claim_return allowed n =
      let refusal = upright_refusal fp env allowed n in
      (
        refusal,
        record n {
          returning_to_upright = if is_some refusal then n.returning_to_upright else true;
        },
      )

  unfoldable pub handle_accepted_callback : ℕ → WavemakerNode Double A → WavemakerNode Double A
  handle_accepted_callback g n =
      let text : String = "Goal rejected because the node is no longer active" in
      let n1 = take_goal g n in
      let (started, n2) = start_execution (execute g) n1 in
      let n3 = record n2 {
        goal_handle = elim n2.goal_handle [
          | none ↦ none
          | some h ↦ if h == g then none else some h
        ];
      } in
      if not n.accepting_goals
      then abort_goal fp env g text n1
      else if started
      then n2
      else abort_goal fp env g text n3

  unfoldable pub return_to_upright : ℕ → Double → WavemakerNode Double A → WavemakerNode Double A
  return_to_upright request tolerance n =
      let allowed = upright_tolerance fp env tolerance n in
      let (refusal, n1) = claim_return allowed n in
      let (started, n2) = start_execution (return_upright request allowed) n1 in
      elim refusal [
        | some (number, text) ↦ note (replied_upright request number none text) n1
        | none ↦
            if started
            then n2
            else note
                (replied_upright request controller_inactive none
                  "Controller not active or not accepting goals")
                (record n2 { returning_to_upright = false })
      ]

  -- The service that cancels all goals; `ready` is what `action_server_is_ready` returns.
  unfoldable pub cancel_all_goals : ℕ → Bool → WavemakerNode Double A → WavemakerNode Double A
  cancel_all_goals request ready n =
      if not n.resources || not ready
      then note (replied_cancel request server_unavailable 0 "Action server is unavailable") n
      else note (cancels_all request) n

  -- The reply to it; `good` is that the return code is `ERROR_NONE`.
  unfoldable pub cancel_all_reply : ℕ → Bool → ℕ → WavemakerNode Double A → WavemakerNode Double A
  cancel_all_reply request good size n =
      let count = size % 2 ^ 32 in
      if not good
      then note
          (replied_cancel request request_rejected count "Action server rejected cancellation") n
      else if count == 0
      then note (replied_cancel request no_active_goals 0 "No active goals") n
      else note (replied_cancel request request_accepted count "Cancellation accepted") n
