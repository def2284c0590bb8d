-- ===== src/Bridge/Tests.antt =====
-- A bridge that is configured, activated, given a heartbeat and values, and started.
use ros2_wavemakers.Base.{Bool, String, arith, none, refl, some, true, ℕ, ◌+◌, ◌∷◌, ◌≡◌, ◌≤◌}
use ros2_wavemakers.Bridge.Answers.{Guards}
use ros2_wavemakers.Bridge.Events.{
  Reach, Step, activates, active, beats, configured, configures, deactivates, later, made, passes,
  requests_stop, sets_height, sets_period, starts, take_response,
}
use ros2_wavemakers.Bridge.Goals.{
  goal_response, heartbeat_alive, keep_request, send_goal, start, stop, watch,
}
use ros2_wavemakers.Bridge.Holding.{Held}
use ros2_wavemakers.Bridge.Invariant.{Reach-Held}
use ros2_wavemakers.Bridge.Lifecycle.{
  break_bond, cleanup_helper, heartbeat_callback, height_callback, on_activate, on_configure,
  on_deactivate, period_callback, start_callback, stop_request,
}
use ros2_wavemakers.Bridge.Replies.{
  Reach-answers, answers, reactivated-cancels, stop_request-forgets,
}
use ros2_wavemakers.Bridge.Reports.{abandon_goal, answer, finish_stop, publish_state}
use ros2_wavemakers.Bridge.Safety.{Halting, Step-Started, abandon_goal-cancels_late, watch-Halting}
use ros2_wavemakers.Bridge.Types.{WavemakerBridge, emit, goal_cancelled, make_bridge, starting}
use ros2_wavemakers.Image.Samples.{fixed_point}

abbrev any_finite : ℕ → Bool
any_finite x = true

abbrev plain_text : ℕ → ℕ → String
plain_text h p = "Starting wave"

abbrev fresh : WavemakerBridge ℕ
fresh = make_bridge 0 10000

abbrev configured_bridge : WavemakerBridge ℕ
configured_bridge = on_configure fresh

abbrev active_bridge : WavemakerBridge ℕ
active_bridge = on_activate 40000 10000 configured_bridge

abbrev beating : WavemakerBridge ℕ
beating = heartbeat_callback active_bridge

abbrev ready_bridge : WavemakerBridge ℕ
ready_bridge = period_callback 20000 (height_callback 1000 beating)

abbrev started_bridge : WavemakerBridge ℕ
started_bridge = start_callback fixed_point any_finite plain_text true true ready_bridge

abbrev asked_bridge : WavemakerBridge ℕ
asked_bridge = stop_request 7 true started_bridge

abbrev late_bridge : WavemakerBridge ℕ
late_bridge = record started_bridge { now = started_bridge.now + 2000000000 }

abbrev left_bridge : WavemakerBridge ℕ
left_bridge = on_deactivate true started_bridge

ready_path : Reach fixed_point any_finite plain_text 5 active ready_bridge
unfolding make_bridge on_configure on_activate heartbeat_callback height_callback period_callback
    publish_state emit
ready_path =
    later
      (later
        (later (later (later (made 0 10000) (configures refl)) (activates 40000 10000 refl))
          (beats refl))
        (sets_height 1000 refl))
      (sets_period 20000 refl)

start_step : Step fixed_point any_finite plain_text active ready_bridge active started_bridge
unfolding make_bridge on_configure on_activate heartbeat_callback height_callback period_callback
    publish_state emit
start_step = starts true true refl

started_path : Reach fixed_point any_finite plain_text 6 active started_bridge
started_path = later ready_path start_step

late_path : Reach fixed_point any_finite plain_text 7 active late_bridge
late_path = later started_path (passes 2000000000)

asked_path : Reach fixed_point any_finite plain_text 7 active asked_bridge
unfolding make_bridge on_configure on_activate heartbeat_callback height_callback period_callback
    publish_state emit start_callback start send_goal heartbeat_alive
asked_path = later started_path (requests_stop 7 true refl)

left_path : Reach fixed_point any_finite plain_text 7 configured left_bridge
left_path = later started_path (deactivates true refl)

bridge_holds : Held 6 active started_bridge
bridge_holds = Reach-Held fixed_point any_finite plain_text (omega arith) started_path

only_start_sends :
    (ready : Bool) × Guards fixed_point any_finite plain_text ready ready_bridge
    × (started_bridge ≡ send_goal fixed_point any_finite plain_text ready_bridge)
unfolding make_bridge on_configure on_activate heartbeat_callback height_callback period_callback
    publish_state emit start_callback start send_goal heartbeat_alive
only_start_sends = Step-Started fixed_point any_finite plain_text 1 start_step refl refl

lost_heartbeat_stops :
    Halting true late_bridge (watch fixed_point any_finite plain_text true late_bridge)
unfolding make_bridge on_configure on_activate heartbeat_callback height_callback period_callback
    publish_state emit start_callback start send_goal heartbeat_alive
lost_heartbeat_stops =
    watch-Halting fixed_point any_finite plain_text true (omega arith) late_path refl refl

call_answered :
    (due : ℕ) × (asked_bridge.stop_timeout ≡ some due)
    × (u t : WavemakerBridge ℕ) × Step fixed_point any_finite plain_text active asked_bridge active
        u
    × (due ≤ u.now)
    × Step fixed_point any_finite plain_text active u active t
    × (answers 7 t.effects ≡ answers 7 asked_bridge.effects + 1)
    × (t.stop_done ≡ none)
unfolding make_bridge on_configure on_activate heartbeat_callback height_callback period_callback
    publish_state emit start_callback start send_goal heartbeat_alive stop_request stop keep_request
call_answered = Reach-answers fixed_point any_finite plain_text 7 (omega arith) asked_path refl

first_call_forgotten :
    let t = stop_request 8 true asked_bridge in
    (t.stop_done ≡ some 8) × (answers 7 t.effects ≡ answers 7 asked_bridge.effects)
unfolding make_bridge on_configure on_activate heartbeat_callback height_callback period_callback
    publish_state emit start_callback start send_goal heartbeat_alive stop_request stop keep_request
first_call_forgotten = stop_request-forgets 7 8 asked_bridge refl refl refl

late_acceptance_cancelled :
    let t = abandon_goal "No result from the controller" asked_bridge in
    let u = goal_response 1 (some 1) (take_response 1 true t) in
    (u.state ≡ t.state) × (u.effects ≡ goal_cancelled 1 ∷ t.effects)
unfolding make_bridge on_configure on_activate heartbeat_callback height_callback period_callback
    publish_state emit start_callback start send_goal heartbeat_alive stop_request stop keep_request
    abandon_goal finish_stop answer
late_acceptance_cancelled =
    abandon_goal-cancels_late 1 "No result from the controller" (omega arith)
      (Reach-Held fixed_point any_finite plain_text (omega arith) asked_path) refl

next_goal_cancelled :
    let u = start fixed_point any_finite plain_text true (on_activate 40000 10000 left_bridge) in
    let g = u.goal_generation in
    let v = goal_response g (some g) (take_response g true u) in
    (v.effects ≡ goal_cancelled g ∷ u.effects) × (v.state ≡ starting)
unfolding make_bridge on_configure on_activate heartbeat_callback height_callback period_callback
    publish_state emit start_callback start send_goal heartbeat_alive on_deactivate cleanup_helper
    stop keep_request finish_stop answer break_bond
next_goal_cancelled =
    reactivated-cancels fixed_point any_finite plain_text 40000 10000 (omega arith) left_path refl
      (record {
        at_rest = refl;
        height = refl;
        period = refl;
        live = refl;
        client = refl;
        server = refl;
      })
