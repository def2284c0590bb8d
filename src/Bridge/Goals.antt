-- ===== src/Bridge/Goals.antt =====
-- Start, stop and the answers of the action server. `ready` is what `action_server_is_ready`
-- returns.
use Prim.Native.String.{◌++◌ as ◌+++◌}
use ros2_wavemakers.Base.{
  Bool, Option, String, false, if◌then◌else◌, is_some, none, not, pos, some, true, ℕ, ◌%◌, ◌&&◌,
  ◌*◌, ◌+◌, ◌-◌, ◌==◌, ◌^◌, ◌||◌,
}
use ros2_wavemakers.Bridge.Reports.{
  abandon_goal, answer, finish_stop, idle_unless_inactive, publish_state, report,
}
use ros2_wavemakers.Bridge.Types.{
  ResultCode, WavemakerBridge, all_cancelled, emit, goal_cancelled, goal_sent, is_idle, is_moving,
  mark, result_message, running, starting, state_name, stop_timeout_s, stopping,
}
use ros2_wavemakers.Image.Types.{FloatOps}

module _ {D : Type 0} where
  -- The function object of a stop is kept until the goal ends; the timer is made once.
  unfoldable pub keep_request : Option ℕ → WavemakerBridge D → WavemakerBridge D
  keep_request done s = record s {
    stop_done = elim done [ none ↦ s.stop_done | some request ↦ some request ];
    stop_timeout = elim s.stop_timeout [
      | none ↦ some (s.now + stop_timeout_s * 1000000000)
      | some t ↦ some t
    ];
  }

  abbrev pub has_goal : WavemakerBridge D → Bool
  has_goal s = s.goal_requested || is_some s.goal_handle

  unfoldable pub stop : String → Option ℕ → Bool → WavemakerBridge D → WavemakerBridge D
  stop reason done ready s =
      let s1 = record s {
        cancel_on_accept = if s.goal_requested then true else s.cancel_on_accept;
      } in
      let ours = has_goal s in
      let s2 = if ours then keep_request done (publish_state stopping reason s1) else s1 in
      if not s2.action_client || not ready
      then (if ours
          then abandon_goal "Move Wavemaker action is not available" s2
          else answer done false "Move Wavemaker action is not available"
              (report "Stop: Move Wavemaker action is not available" s2))
      else emit (all_cancelled done ours) s2

  -- The callback of `async_cancel_all_goals` with what it captured. `good` is that the return code
  -- is `ERROR_NONE`, `canceling` the number of goals that are cancelled.
  unfoldable pub cancel_response :
      Option ℕ → Bool → Bool → ℕ → WavemakerBridge D → WavemakerBridge D
  cancel_response done ours good canceling s =
      if ours
      then s
      else answer done good (if canceling == 0 then "Nothing running" else "Cancel accepted") s

  unfoldable pub on_goal_response : Option ℕ → WavemakerBridge D → WavemakerBridge D
  on_goal_response none s =
      let s1 = record s { goal_requested = false; cancel_on_accept = false } in
      finish_stop true "stopped"
        (publish_state (idle_unless_inactive s1) "Goal rejected by controller (see its log)" s1)
  on_goal_response (some handle) s =
      let s1 = record s { goal_requested = false; goal_handle = some handle } in
      if s1.cancel_on_accept
      then emit (goal_cancelled handle) (record s1 { cancel_on_accept = false })
      else publish_state running "Wave running" s1

  -- The callback that a goal is sent with: its answer.
  unfoldable pub goal_response : ℕ → Option ℕ → WavemakerBridge D → WavemakerBridge D
  goal_response generation handle s =
      if not (generation == s.goal_generation)
      then elim handle [ none ↦ s | some h ↦ emit (goal_cancelled h) s ]
      else on_goal_response handle s

  unfoldable pub on_goal_result : ResultCode → WavemakerBridge D → WavemakerBridge D
  on_goal_result code s =
      let s1 = record s { goal_handle = none } in
      let message = result_message code in
      finish_stop true message (publish_state (idle_unless_inactive s1) message s1)

  -- The callback that a goal is sent with: its result.
  unfoldable pub goal_result : ℕ → ResultCode → WavemakerBridge D → WavemakerBridge D
  goal_result generation code s =
      if generation == s.goal_generation then on_goal_result code s else s

module _ (fp : FloatOps) (isfinite : fp.Double → Bool)
    (starting_text : fp.Double → fp.Double → String) where
  open fp use {Double, lt, mul, decimal, f64_of_int}

  -- A difference of two times against a duration in seconds, in nanoseconds as doubles.
  unfoldable pub heartbeat_alive : WavemakerBridge Double → Bool
  heartbeat_alive s =
      s.heartbeat_seen
      && lt (f64_of_int (pos (s.now - s.last_heartbeat)))
          (mul s.heartbeat_timeout (decimal (pos 1000000000) 0))

  -- The first test of `watch`.
  unfoldable pub watch_heartbeat : Bool → WavemakerBridge Double → WavemakerBridge Double
  watch_heartbeat ready s =
      if is_moving s.state && not (heartbeat_alive s)
      then stop "Stopped: client heartbeat (LabVIEW or web page) lost" none ready s
      else s

  unfoldable pub watch : Bool → WavemakerBridge Double → WavemakerBridge Double
  watch ready s =
      let s1 = watch_heartbeat ready s in
      let s2 = record s1 { watch_ticks = (s1.watch_ticks + 1) % 2 ^ 32 } in
      if s2.watch_ticks % 10 == 0 then publish_state s2.state s2.last_message s2 else s2

  -- The end of `start`: the two callbacks are kept by the client under the new generation.
  unfoldable pub send_goal : WavemakerBridge Double → WavemakerBridge Double
  send_goal s =
      let generation = (s.goal_generation + 1) % 2 ^ 64 in
      let s1 = record s { goal_generation = generation; goal_requested = true } in
      let s2 = publish_state starting (starting_text s.height s.period) s1 in
      emit (goal_sent generation s.height s.period) (record s2 {
        callbacks = record (s2.callbacks) {
          responses = mark generation true s2.callbacks.responses;
        };
      })

  abbrev pub positive_finite : Double → Bool
  positive_finite x = lt (decimal (pos 0) 0) x && isfinite x

  unfoldable pub start : Bool → WavemakerBridge Double → WavemakerBridge Double
  start ready s =
      if not (is_idle s.state)
      then report ("start refused: wave is " +++ state_name s.state +++ "; stop it first") s
      else if not (lt (decimal (pos 0) 0) s.height)
          || not (lt (decimal (pos 0) 0) s.period)
          || not (isfinite s.height)
          || not (isfinite s.period)
      then report "start refused: height and period must be positive and finite" s
      else if not (heartbeat_alive s)
      then report "start refused: no client heartbeat (LabVIEW or web page)" s
      else if not s.action_client || not ready
      then report "start refused: action server not available" s
      else send_goal s
