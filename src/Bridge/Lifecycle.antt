-- ===== src/Bridge/Lifecycle.antt =====
-- The lifecycle callbacks and the callbacks of the subscriptions.
use ros2_wavemakers.Base.{Bool, String, false, if◌then◌else◌, none, some, true, ℕ, ◌∷◌}
use ros2_wavemakers.Bridge.Goals.{start, stop}
use ros2_wavemakers.Bridge.Reports.{finish_stop, publish_state}
use ros2_wavemakers.Bridge.Types.{
  WavemakerBridge, all_inputs, bond_broken, bond_started, emit, idle, inactive, no_callbacks,
}
use ros2_wavemakers.Image.Types.{FloatOps}

module _ {D : Type 0} where
  unfoldable pub on_configure : WavemakerBridge D → WavemakerBridge D
  on_configure s = publish_state inactive "configured" (record s {
    action_client = true;
    callbacks = no_callbacks;
    state_publisher = true;
    message_publisher = true;
  })

  -- `bond_timeout` and `heartbeat_timeout` are the parameters of those names.
  unfoldable pub on_activate : D → D → WavemakerBridge D → WavemakerBridge D
  on_activate bond_timeout heartbeat_timeout s = publish_state idle "ready" (
      emit (bond_started bond_timeout)
        (record s { bond = true; heartbeat_timeout = heartbeat_timeout; inputs = all_inputs true }))

  unfoldable pub break_bond : WavemakerBridge D → WavemakerBridge D
  break_bond s = record s {
    bond = false;
    effects = if s.bond then bond_broken ∷ s.effects else s.effects;
  }

  unfoldable pub pre_shutdown : Bool → WavemakerBridge D → WavemakerBridge D
  pre_shutdown ready s = break_bond (stop "Bridge is shutting down" none ready s)

  unfoldable pub cleanup_helper : String → Bool → WavemakerBridge D → WavemakerBridge D
  cleanup_helper reason ready s =
      let s1 = finish_stop false "Bridge is no longer active" (stop reason none ready s) in
      publish_state inactive reason (break_bond (record s1 { inputs = all_inputs false }))

  unfoldable pub on_deactivate : Bool → WavemakerBridge D → WavemakerBridge D
  on_deactivate = cleanup_helper "Bridge is deactivating"

  -- The client goes, and the callbacks that it held with it.
  unfoldable pub on_cleanup : WavemakerBridge D → WavemakerBridge D
  on_cleanup s = record s {
    action_client = false;
    callbacks = no_callbacks;
    state_publisher = false;
    message_publisher = false;
  }

  unfoldable pub on_shutdown : Bool → WavemakerBridge D → WavemakerBridge D
  on_shutdown = cleanup_helper "Bridge is shutting down"

  unfoldable pub on_error : Bool → WavemakerBridge D → WavemakerBridge D
  on_error = cleanup_helper "Bridge error"

  unfoldable pub heartbeat_callback : WavemakerBridge D → WavemakerBridge D
  heartbeat_callback s = record s { last_heartbeat = s.now; heartbeat_seen = true }

  unfoldable pub height_callback : D → WavemakerBridge D → WavemakerBridge D
  height_callback value s = record s { height = value }

  unfoldable pub period_callback : D → WavemakerBridge D → WavemakerBridge D
  period_callback value s = record s { period = value }

  unfoldable pub stop_callback : Bool → Bool → WavemakerBridge D → WavemakerBridge D
  stop_callback value ready s = if value then stop "Operator pressed stop" none ready s else s

  unfoldable pub stop_request : ℕ → Bool → WavemakerBridge D → WavemakerBridge D
  stop_request request = stop "Stopped by stop service" (some request)

module _ (fp : FloatOps) (isfinite : fp.Double → Bool)
    (starting_text : fp.Double → fp.Double → String) where
  open fp use {Double}

  unfoldable pub start_callback : Bool → Bool → WavemakerBridge Double → WavemakerBridge Double
  start_callback value ready s = if value then start fp isfinite starting_text ready s else s
