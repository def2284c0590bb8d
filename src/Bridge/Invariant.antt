-- ===== src/Bridge/Invariant.antt =====
-- What holds in every state that the bridge can reach.
use ros2_wavemakers.Base.{Bool, String, arith, false, none, refl, some, true, ℕ, ◌+◌, ◌<◌, ◌^◌, ◌≡◌}
use ros2_wavemakers.Bridge.Answers.{
  goal_response-Sound, goal_result-Sound, start-Sound, watch-Sound,
}
use ros2_wavemakers.Bridge.Events.{
  Phase, Reach, Step, activates, beats, cleans_up, configured, configures, confirms, deactivates,
  ends, ends_context, fails, finalized, later, made, passes, requests_stop, responds, sets_height,
  sets_period, shuts_down, starts, stops, times_out, unconfigured, watches,
}
use ros2_wavemakers.Bridge.Goals.{send_goal, start, watch, watch_heartbeat}
use ros2_wavemakers.Bridge.Holding.{
  Held, busy, cleanup_helper-Held, on_activate-Held, on_cleanup-Held, on_configure-Held, still,
}
use ros2_wavemakers.Bridge.Lifecycle.{
  break_bond, heartbeat_callback, height_callback, on_activate, on_cleanup, on_configure,
  on_deactivate, on_error, on_shutdown, period_callback, pre_shutdown, start_callback,
  stop_callback, stop_request,
}
use ros2_wavemakers.Bridge.Phases.{
  abandon_goal-inputs, abandon_goal-phase, cancel_response-Sound, cancel_response-phase,
  goal_response-inputs, goal_response-phase, goal_result-inputs, goal_result-phase, stop-active,
}
use ros2_wavemakers.Bridge.Reports.{abandon_goal, publish_state, report}
use ros2_wavemakers.Bridge.Sound.{IsSound-later, abandon_goal-Sound, stop-Sound}
use ros2_wavemakers.Bridge.Types.{WavemakerBridge, emit, is_inactive, make_bridge}
use ros2_wavemakers.Image.Types.{FloatOps}
use ros2_wavemakers.Node.Config.{zero_m}

module _ (fp : FloatOps) (isfinite : fp.Double → Bool)
    (starting_text : fp.Double → fp.Double → String) where
  open fp use {Double}

  start-active :
      (ready : Bool) (s : WavemakerBridge Double)
      → is_inactive s.state ≡ false
      → is_inactive (start fp isfinite starting_text ready s).state ≡ false
  unfolding start report publish_state send_goal emit
  start-active ready s on = ground arith

  watch-active :
      (ready : Bool) (s : WavemakerBridge Double)
      → is_inactive s.state ≡ false
      → is_inactive (watch fp isfinite starting_text ready s).state ≡ false
  unfolding watch watch_heartbeat publish_state
  watch-active ready s on =
      let stopped =
        stop-active "Stopped: client heartbeat (LabVIEW or web page) lost" none ready s on in
      ground arith

  Step-Held :
      {n : ℕ} {p q : Phase} {s t : WavemakerBridge Double}
      → n + 1 < 2 ^ 64
      → Step fp isfinite starting_text p s q t
      → Held n p s
      → Held (n + 1) q t
  unfolding on_configure on_activate publish_state emit on_deactivate on_shutdown on_error
      on_cleanup heartbeat_callback height_callback period_callback stop_callback start_callback
      stop_request pre_shutdown break_bond
  Step-Held {n} {s = s} few (configures e) i = on_configure-Held e i
  Step-Held {n} {s = s} few (activates bond heartbeat e) i = on_activate-Held bond heartbeat i
  Step-Held {n} {s = s} few (deactivates ready e) i =
      cleanup_helper-Held n configured _ ready s few refl i.sound
  Step-Held {n} {s = s} few (cleans_up e) i = on_cleanup-Held e i
  Step-Held {n} {s = s} few (shuts_down ready e) i =
      cleanup_helper-Held n finalized _ ready s few refl i.sound
  Step-Held {n} {s = s} few (fails ready e) i =
      cleanup_helper-Held n unconfigured _ ready s few refl i.sound
  Step-Held {s = s} few (beats h) i = still i (IsSound-later i.sound) refl refl
  Step-Held {s = s} few (sets_height x h) i = still i (IsSound-later i.sound) refl refl
  Step-Held {s = s} few (sets_period x h) i = still i (IsSound-later i.sound) refl refl
  Step-Held {n} {s = s} few (stops true ready h) i =
      busy i (λ x. x.stop_subscription) refl h (stop-Sound n _ none ready s few i.sound)
        (stop-active _ none ready s)
  Step-Held {s = s} few (stops false ready h) i = still i (IsSound-later i.sound) refl refl
  Step-Held {n} {s = s} few (starts true ready h) i =
      busy i (λ x. x.start_subscription) refl h
        (start-Sound fp isfinite starting_text n ready s few i.sound) (start-active ready s)
  Step-Held {s = s} few (starts false ready h) i = still i (IsSound-later i.sound) refl refl
  Step-Held {n} {s = s} few (requests_stop request ready h) i =
      busy i (λ x. x.stop_service) refl h (stop-Sound n _ (some request) ready s few i.sound)
        (stop-active _ (some request) ready s)
  Step-Held {n} {s = s} few (ends_context ready h) i =
      busy i (λ x. x.pre_shutdown_callback) refl h (stop-Sound n _ none ready s few i.sound)
        (stop-active _ none ready s)
  Step-Held {n} {s = s} few (watches ready h) i =
      busy i (λ x. x.watch_timer) refl h
        (watch-Sound fp isfinite starting_text n ready s few i.sound) (watch-active ready s)
  Step-Held {n} {s = s} few (times_out t e h) i =
      still {t = abandon_goal "No result from the controller" s} i
        (abandon_goal-Sound n _ s few i.sound) (abandon_goal-phase _ s) (abandon_goal-inputs _ s)
  Step-Held {n} {s = s} few (responds g taken h) i =
      still i (IsSound-later (goal_response-Sound n g taken _ s i.sound))
        (goal_response-phase n g taken s i.sound h) (goal_response-inputs g _ _)
  Step-Held {n} {s = s} few (ends g code h) i =
      still i (IsSound-later (goal_result-Sound n g code s i.sound)) (goal_result-phase g code s)
        (goal_result-inputs g code s)
  Step-Held {n} {s = s} few (confirms asked ours good canceling h) i =
      still i (cancel_response-Sound n asked ours good canceling s i.sound)
        (cancel_response-phase asked ours good canceling s).0
        (cancel_response-phase asked ours good canceling s).1
  Step-Held {n} {s = s} few (passes d) i = still i (IsSound-later i.sound) refl refl

  -- In every state that fewer than 2 ^ 64 steps reach, in any order of the events: the bridge
  -- reports inactive, and has none of its subscriptions, timer and service, exactly outside the
  -- active phase; a starting or running wave has a goal that is asked for or accepted; a cancellation
  -- on acceptance is planned only for a goal that waits for its answer, and always for such a goal
  -- outside the active phase; a stop call that waits has its timer, and a timer has a goal; and no
  -- goal waits for its answer under a later generation than the present one, nor under that one
  -- unless the bridge asks for it.
  pub Reach-Held :
      {n : ℕ} {p : Phase} {s : WavemakerBridge Double}
      → n < 2 ^ 64
      → Reach fp isfinite starting_text n p s
      → Held n p s
  unfolding make_bridge
  Reach-Held few (made zero_m one_s) = record {
    sound = record {
      counted = omega arith;
      past = λ g h. absurd (cc);
      owed = λ h. absurd (cc);
      cancels = λ h. absurd (cc);
      timed = λ h. h;
      pending = λ h. absurd (cc);
      moving = λ h. absurd (cc);
      quiet = λ e h. absurd (cc);
    };
    on = λ h. absurd (cc);
    off = λ _. refl;
    bare = λ _. refl;
  }
  Reach-Held few (later r st) = Step-Held few st (Reach-Held (omega arith) r)
