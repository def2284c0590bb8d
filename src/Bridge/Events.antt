-- ===== src/Bridge/Events.antt =====
-- What can happen to the bridge, in any order: the lifecycle manager, the operator's topics and
-- stop service, the timers, and the callbacks of the action client. The executor has one thread, so
-- that every callback is one step.
use ros2_wavemakers.Base.{
  Bool, List, Option, String, false, if◌then◌else◌, none, some, true, ℕ, ◌+◌, ◌∷◌, ◌≡◌, ◌≤◌,
}
use ros2_wavemakers.Bridge.Goals.{cancel_response, goal_response, goal_result, watch}
use ros2_wavemakers.Bridge.Lifecycle.{
  heartbeat_callback, height_callback, on_activate, on_cleanup, on_configure, on_deactivate,
  on_error, on_shutdown, period_callback, pre_shutdown, start_callback, stop_callback, stop_request,
}
use ros2_wavemakers.Bridge.Reports.{abandon_goal}
use ros2_wavemakers.Bridge.Types.{
  Effect, ResultCode, WavemakerBridge, all_cancelled, make_bridge, mark,
}
use ros2_wavemakers.Image.Types.{FloatOps}

-- The lifecycle state of the node, which `rclcpp_lifecycle` keeps: `configured` is its "inactive".
pub data Phase : Type 0 where
  unconfigured configured active finalized : Phase

abbrev pub is_active : Phase → Bool
is_active active = true
is_active _ = false

abbrev pub is_final : Phase → Bool
is_final finalized = true
is_final _ = false

pub data Logged {D : Type 0} (e : Effect D) : List (Effect D) → Type 0 where
  newest : {es : List (Effect D)} → Logged e (e ∷ es)
  older : {e' : Effect D} {es : List (Effect D)} → Logged e es → Logged e (e' ∷ es)

module _ {D : Type 0} where
  -- The client gives up the callback that it calls; an accepted goal waits for its result.
  abbrev pub take_response : ℕ → Bool → WavemakerBridge D → WavemakerBridge D
  take_response g taken s = record s {
    callbacks = record {
      responses = mark g false s.callbacks.responses;
      results = if taken then mark g true s.callbacks.results else s.callbacks.results;
    };
  }

  abbrev pub take_result : ℕ → WavemakerBridge D → WavemakerBridge D
  take_result g s = record s {
    callbacks = record (s.callbacks) { results = mark g false s.callbacks.results };
  }

module _ (fp : FloatOps) (isfinite : fp.Double → Bool)
    (starting_text : fp.Double → fp.Double → String) where
  open fp use {Double}

  pub data Step (p : Phase) (s : WavemakerBridge Double)
      : Phase → WavemakerBridge Double → Type 0 where
    configures : p ≡ unconfigured → Step p s configured (on_configure s)
    activates :
        (bond heartbeat : Double) → p ≡ configured → Step p s active (on_activate bond heartbeat s)
    deactivates : (ready : Bool) → p ≡ active → Step p s configured (on_deactivate ready s)
    cleans_up : p ≡ configured → Step p s unconfigured (on_cleanup s)
    shuts_down : (ready : Bool) → is_final p ≡ false → Step p s finalized (on_shutdown ready s)
    fails : (ready : Bool) → is_final p ≡ false → Step p s unconfigured (on_error ready s)
    beats : s.inputs.heartbeat_subscription ≡ true → Step p s p (heartbeat_callback s)
    sets_height :
        (x : Double) → s.inputs.height_subscription ≡ true → Step p s p (height_callback x s)
    sets_period :
        (x : Double) → s.inputs.period_subscription ≡ true → Step p s p (period_callback x s)
    stops :
        (value ready : Bool)
        → s.inputs.stop_subscription ≡ true
        → Step p s p (stop_callback value ready s)
    starts :
        (value ready : Bool)
        → s.inputs.start_subscription ≡ true
        → Step p s p (start_callback fp isfinite starting_text value ready s)
    requests_stop :
        (request : ℕ) (ready : Bool)
        → s.inputs.stop_service ≡ true
        → Step p s p (stop_request request ready s)
    ends_context :
        (ready : Bool) → s.inputs.pre_shutdown_callback ≡ true → Step p s p (pre_shutdown ready s)
    watches :
        (ready : Bool)
        → s.inputs.watch_timer ≡ true
        → Step p s p (watch fp isfinite starting_text ready s)
    times_out :
        (t : ℕ)
        → s.stop_timeout ≡ some t
        → t ≤ s.now
        → Step p s p (abandon_goal "No result from the controller" s)
    responds :
        (g : ℕ) (taken : Bool)
        → s.callbacks.responses g ≡ true
        → Step p s p (goal_response g (if taken then some g else none) (take_response g taken s))
    ends :
        (g : ℕ) (code : ResultCode)
        → s.callbacks.results g ≡ true
        → Step p s p (goal_result g code (take_result g s))
    confirms :
        (done : Option ℕ) (ours good : Bool) (canceling : ℕ)
        → Logged (all_cancelled done ours) s.effects
        → Step p s p (cancel_response done ours good canceling s)
    passes : (d : ℕ) → Step p s p (record s { now = s.now + d })

  -- In `n` steps from the object as it is made.
  pub data Reach : ℕ → Phase → WavemakerBridge Double → Type 0 where
    made : (zero_m one_s : Double) → Reach 0 unconfigured (make_bridge zero_m one_s)
    later :
        {n : ℕ} {p q : Phase} {s t : WavemakerBridge Double}
        → Reach n p s
        → Step p s q t
        → Reach (n + 1) q t
