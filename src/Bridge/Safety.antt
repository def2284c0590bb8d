-- ===== src/Bridge/Safety.antt =====
-- When goals are sent, and when they are stopped.
use ros2_wavemakers.Base.{
  Bool, Bool-cases, Option, String, arith, false, if-holds, inl, inr, is_some, none, not, refl,
  some, true, ℕ, ◌%◌, ◌+◌, ◌<◌, ◌==◌, ◌^◌, ◌||◌, ◌∷◌, ◌≡◌, List, [], ap, ◌∙◌, ◌&&◌, if◌then◌else◌,
}
use ros2_wavemakers.Bridge.Answers.{Guards, Started, mark-unset, refused, sent, start-Started}
use ros2_wavemakers.Bridge.Events.{
  Phase, Reach, Step, activates, beats, cleans_up, configures, confirms, deactivates, ends,
  ends_context, fails, passes, requests_stop, responds, sets_height, sets_period, shuts_down,
  starts, stops, take_response, take_result, times_out, watches,
}
use ros2_wavemakers.Bridge.Goals.{
  cancel_response, goal_response, goal_result, has_goal, heartbeat_alive, keep_request,
  on_goal_response, on_goal_result, send_goal, stop, watch, watch_heartbeat,
}
use ros2_wavemakers.Bridge.Holding.{Held}
use ros2_wavemakers.Bridge.Invariant.{Reach-Held}
use ros2_wavemakers.Bridge.Lifecycle.{
  break_bond, cleanup_helper, heartbeat_callback, height_callback, on_activate, on_cleanup,
  on_configure, on_deactivate, on_error, on_shutdown, period_callback, pre_shutdown, start_callback,
  stop_callback, stop_request,
}
use ros2_wavemakers.Bridge.Reports.{abandon_goal, answer, finish_stop, publish_state, report}
use ros2_wavemakers.Bridge.Sound.{Cancels, idle_unless_inactive-moving, next_generation}
use ros2_wavemakers.Bridge.Types.{
  Effect, ResultCode, State, WavemakerBridge, all_cancelled, emit, goal_cancelled, is_moving,
  stopping,
}
use ros2_wavemakers.Image.Types.{FloatOps}

module _ {D : Type 0} where
  stop-callbacks :
      (reason : String) (asked : Option ℕ) (ready : Bool) (s : WavemakerBridge D)
      → (stop reason asked ready s).callbacks ≡ s.callbacks
  unfolding stop emit answer report publish_state keep_request abandon_goal finish_stop
  stop-callbacks reason asked ready s = ground arith

  goal_response-callbacks :
      (g : ℕ) (handle : Option ℕ) (s : WavemakerBridge D)
      → (goal_response g handle s).callbacks ≡ s.callbacks
  unfolding goal_response on_goal_response emit publish_state finish_stop answer
  goal_response-callbacks g handle s = ground arith

  goal_result-callbacks :
      (g : ℕ) (code : ResultCode) (s : WavemakerBridge D)
      → (goal_result g code s).callbacks ≡ s.callbacks
  unfolding goal_result on_goal_result publish_state finish_stop answer
  goal_result-callbacks g code s = ground arith

  cancel_response-callbacks :
      (asked : Option ℕ) (ours good : Bool) (canceling : ℕ) (s : WavemakerBridge D)
      → (cancel_response asked ours good canceling s).callbacks ≡ s.callbacks
  unfolding cancel_response answer
  cancel_response-callbacks asked ours good canceling s = ground arith

  cleanup_helper-callbacks :
      (reason : String) (ready : Bool) (s : WavemakerBridge D)
      → (cleanup_helper reason ready s).callbacks ≡ s.callbacks
  unfolding cleanup_helper break_bond publish_state finish_stop answer
  cleanup_helper-callbacks reason ready s = stop-callbacks reason none ready s

  -- Right after a goal is given up, the acceptance of any goal that still waits for its answer is
  -- answered by cancelling that goal, and the state does not change.
  pub abandon_goal-cancels_late :
      {n : ℕ} {p : Phase} {s : WavemakerBridge D} (g : ℕ) (reason : String)
      → n + 1 < 2 ^ 64
      → Held n p s
      → let t = abandon_goal reason s in
        t.callbacks.responses g ≡ true
        → let u = goal_response g (some g) (take_response g true t) in
          (u.state ≡ t.state) × (u.effects ≡ goal_cancelled g ∷ t.effects)
  unfolding goal_response abandon_goal finish_stop answer publish_state emit
  abandon_goal-cancels_late {s = s} g reason few i h =
      let next = next_generation _ s few i.sound in
      let old = i.sound.past g h in
      let stale : (g == ((s.goal_generation + 1) % 2 ^ 64)) ≡ false = ground arith in
      rw stale (refl, refl)

  -- How often the cancellation of all goals, with a goal of the bridge among them, was asked for.
  abbrev pub cancellations : List (Effect D) → ℕ
  cancellations [] = 0
  cancellations (all_cancelled asked true ∷ es) = cancellations es + 1
  cancellations (_ ∷ es) = cancellations es

  -- How a stop of a goal of the bridge in `s` ends. With the client and the action server there, the
  -- cancellation of all goals is asked for once and the timer runs; otherwise it is not asked for, and
  -- the goal is given up.
  pub data Halting (ready : Bool) (s t : WavemakerBridge D) : Type 0 where
    cancelling :
        (s.action_client && ready) ≡ true
        → t.state ≡ stopping
        → cancellations t.effects ≡ cancellations s.effects + 1
        → is_some t.stop_timeout ≡ true
        → Cancels t
        → Halting ready s t
    given_up :
        (s.action_client && ready) ≡ false
        → is_moving t.state ≡ false
        → has_goal t ≡ false
        → t.stop_done ≡ none
        → cancellations t.effects ≡ cancellations s.effects
        → Halting ready s t

  publish-cancellations :
      (state : State) (text : String) (s : WavemakerBridge D)
      → cancellations (publish_state state text s).effects ≡ cancellations s.effects
  unfolding publish_state
  publish-cancellations state text s = ground arith

  abandon_goal-cancellations :
      (reason : String) (s : WavemakerBridge D)
      → cancellations (abandon_goal reason s).effects ≡ cancellations s.effects
  unfolding publish_state abandon_goal finish_stop answer
  abandon_goal-cancellations reason s = ground arith

  abandon_goal-Halting :
      (reason : String) (ready : Bool) (s t : WavemakerBridge D)
      → (s.action_client && ready) ≡ false
      → cancellations t.effects ≡ cancellations s.effects
      → Halting ready s (abandon_goal reason t)
  unfolding abandon_goal finish_stop answer publish_state
  abandon_goal-Halting reason ready s t gone same =
      given_up gone (idle_unless_inactive-moving _) refl refl
        (abandon_goal-cancellations reason t ∙ same)

  stop-Halting :
      (reason : String) (asked : Option ℕ) (ready : Bool) (s : WavemakerBridge D)
      → has_goal s ≡ true
      → Halting ready s (stop reason asked ready s)
  unfolding stop emit keep_request publish_state
  stop-Halting reason asked ready s ours =
      let s0 : WavemakerBridge D = record s {
        cancel_on_accept = if s.goal_requested then true else s.cancel_on_accept;
      } in
      let s2 = keep_request asked (publish_state stopping reason s0) in
      let told : cancellations s2.effects ≡ cancellations s.effects =
        publish-cancellations stopping reason s0 in
      elim (Bool-cases (not s.action_client || not ready)) [
        | inl gone ↦
            rw (ours, gone)
              (abandon_goal-Halting "Move Wavemaker action is not available" ready s s2
                (ground arith) told)
        | inr there ↦
            rw (ours, there)
              (cancelling (ground arith) refl (ap (λ x. x + 1) told) (ground arith) (ground arith))
      ]

  Halting-tick :
      {ready : Bool} {s t : WavemakerBridge D} (n : ℕ)
      → Halting ready s t
      → Halting ready s (record t { watch_ticks = n })
  Halting-tick n (cancelling there a b c d) = cancelling there a b c d
  Halting-tick n (given_up gone a b c d) = given_up gone a b c d

  Halting-publish :
      (ready : Bool) (text : String) (s t : WavemakerBridge D)
      → Halting ready s t
      → Halting ready s (publish_state t.state text t)
  unfolding publish_state
  Halting-publish ready text s t (cancelling there a b c d) =
      cancelling there a (publish-cancellations t.state text t ∙ b) c d
  Halting-publish ready text s t (given_up gone a b c d) =
      given_up gone a b c (publish-cancellations t.state text t ∙ d)

module _ (fp : FloatOps) (isfinite : fp.Double → Bool)
    (starting_text : fp.Double → fp.Double → String) where
  open fp use {Double}

  watch-callbacks :
      (ready : Bool) (s : WavemakerBridge Double)
      → (watch fp isfinite starting_text ready s).callbacks ≡ s.callbacks
  unfolding watch watch_heartbeat publish_state
  watch-callbacks ready s =
      let same =
        stop-callbacks "Stopped: client heartbeat (LabVIEW or web page) lost" none ready s in
      ground arith

  start-sends :
      (g : ℕ) (ready : Bool) (s : WavemakerBridge Double) {t : WavemakerBridge Double}
      → s.callbacks.responses g ≡ false
      → Started fp isfinite starting_text ready s t
      → t.callbacks.responses g ≡ true
      → (ready' : Bool) × Guards fp isfinite starting_text ready' s
        × (t ≡ send_goal fp isfinite starting_text s)
  unfolding report publish_state
  start-sends g ready s before (refused text) after = absurd (cc)
  start-sends g ready s before (sent guards) after = (ready, guards, refl)

  -- A goal is sent by `start` alone: in a step after which the bridge waits for the answer to a goal
  -- that it did not wait for before, the bridge was idle, the height and the period were positive
  -- and finite, the heartbeat was alive and the client was there.
  pub Step-Started :
      {p q : Phase} {s t : WavemakerBridge Double} (g : ℕ)
      → Step fp isfinite starting_text p s q t
      → s.callbacks.responses g ≡ false
      → t.callbacks.responses g ≡ true
      → (ready : Bool) × Guards fp isfinite starting_text ready s
        × (t ≡ send_goal fp isfinite starting_text s)
  unfolding on_configure on_activate publish_state emit on_deactivate on_shutdown on_error
      on_cleanup heartbeat_callback height_callback period_callback stop_callback start_callback
      stop_request pre_shutdown break_bond abandon_goal finish_stop answer
  Step-Started g (configures e) b a = absurd (cc)
  Step-Started g (activates bond heartbeat e) b a = absurd (cc)
  Step-Started {s = s} g (deactivates ready e) b a =
      absurd (let same = cleanup_helper-callbacks "Bridge is deactivating" ready s in cc)
  Step-Started g (cleans_up e) b a = absurd (cc)
  Step-Started {s = s} g (shuts_down ready e) b a =
      absurd (let same = cleanup_helper-callbacks "Bridge is shutting down" ready s in cc)
  Step-Started {s = s} g (fails ready e) b a =
      absurd (let same = cleanup_helper-callbacks "Bridge error" ready s in cc)
  Step-Started g (beats h) b a = absurd (cc)
  Step-Started g (sets_height x h) b a = absurd (cc)
  Step-Started g (sets_period x h) b a = absurd (cc)
  Step-Started {s = s} g (stops true ready h) b a =
      absurd (let same = stop-callbacks "Operator pressed stop" none ready s in cc)
  Step-Started g (stops false ready h) b a = absurd (cc)
  Step-Started {s = s} g (starts true ready h) b a =
      start-sends g ready s b (start-Started fp isfinite starting_text ready s) a
  Step-Started g (starts false ready h) b a = absurd (cc)
  Step-Started {s = s} g (requests_stop request ready h) b a =
      absurd (let same = stop-callbacks "Stopped by stop service" (some request) ready s in cc)
  Step-Started {s = s} g (ends_context ready h) b a =
      absurd (let same = stop-callbacks "Bridge is shutting down" none ready s in cc)
  Step-Started {s = s} g (watches ready h) b a = absurd (let same = watch-callbacks ready s in cc)
  Step-Started g (times_out t e h) b a = absurd (cc)
  Step-Started {s = s} g (responds g' taken h) b a = absurd (
      let a' = rw (goal_response-callbacks g' _ (take_response g' taken s)) at a in
      let before = (mark-unset g' g s.callbacks.responses a').0 in cc)
  Step-Started {s = s} g (ends g' code h) b a =
      absurd (let a' = rw (goal_result-callbacks g' code (take_result g' s)) at a in cc)
  Step-Started {s = s} g (confirms asked ours good canceling h) b a =
      absurd (let same = cancel_response-callbacks asked ours good canceling s in cc)
  Step-Started g (passes d) b a = absurd (cc)

  -- Once the heartbeat is lost, the next tick of the watch timer stops a wave that is starting or
  -- running: with the client and the action server there, the cancellation of all goals is asked for
  -- once and the timer of the stop runs; otherwise nothing is asked for, the goal is given up, and no
  -- call of the stop service waits.
  pub watch-Halting :
      {n : ℕ} {p : Phase} {s : WavemakerBridge Double} (ready : Bool)
      → n < 2 ^ 64
      → Reach fp isfinite starting_text n p s
      → is_moving s.state ≡ true
      → heartbeat_alive fp isfinite starting_text s ≡ false
      → Halting ready s (watch fp isfinite starting_text ready s)
  unfolding watch watch_heartbeat publish_state
  watch-Halting {s = s} ready few path moves lost_beat =
      let i = Reach-Held fp isfinite starting_text few path in
      let h =
        stop-Halting "Stopped: client heartbeat (LabVIEW or web page) lost" none ready s
          (i.sound.moving moves) in
      let s1 = stop "Stopped: client heartbeat (LabVIEW or web page) lost" none ready s in
      let ticks = (s1.watch_ticks + 1) % 2 ^ 32 in
      let s2 : WavemakerBridge Double = record s1 { watch_ticks = ticks } in
      rw (lost_beat, moves)
        (if-holds (Halting ready s) (s2.watch_ticks % 10 == 0)
          (publish_state s2.state s2.last_message s2) s2
          (λ _. Halting-publish ready s2.last_message s s2 (Halting-tick ticks h))
          (λ _. Halting-tick ticks h))
