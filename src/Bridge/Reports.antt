-- ===== src/Bridge/Reports.antt =====
-- Publishing the state, ending a stop, giving up on a goal.
use Prim.Native.String.{◌++◌ as ◌+++◌}
use ros2_wavemakers.Base.{
  Bool, Option, String, false, if◌then◌else◌, none, some, ℕ, ◌%◌, ◌+◌, ◌^◌, ◌∷◌,
}
use ros2_wavemakers.Bridge.Types.{
  State, WavemakerBridge, idle, inactive, published_message, published_state, replied, state_name,
}
use ros2_wavemakers.Modbus.Names.{message}

module _ {D : Type 0} where
  unfoldable pub publish_state : State → String → WavemakerBridge D → WavemakerBridge D
  publish_state state message s =
      let e1 =
        if s.state_publisher then published_state (state_name state) ∷ s.effects else s.effects in
      let e2 = if s.message_publisher then published_message message ∷ e1 else e1 in
      record s { state = state; last_message = message; effects = e2 }

  unfoldable pub report : String → WavemakerBridge D → WavemakerBridge D
  report message s = publish_state s.state message s

  unfoldable pub idle_unless_inactive : WavemakerBridge D → State
  idle_unless_inactive s = elim s.state [ inactive ↦ inactive | _ ↦ idle ]

  -- The function object that a stop was given, if any, is called.
  unfoldable pub answer : Option ℕ → Bool → String → WavemakerBridge D → WavemakerBridge D
  answer done good message s = record s {
    effects = elim done [
      | none ↦ s.effects
      | some request ↦ replied request good message ∷ s.effects
    ];
  }

  unfoldable pub finish_stop : Bool → String → WavemakerBridge D → WavemakerBridge D
  finish_stop good message s =
      answer s.stop_done good message (record s { stop_timeout = none; stop_done = none })

  unfoldable pub abandon_goal : String → WavemakerBridge D → WavemakerBridge D
  abandon_goal reason s =
      let s1 = record s {
        goal_generation = (s.goal_generation + 1) % 2 ^ 64;
        goal_handle = none;
        goal_requested = false;
        cancel_on_accept = false;
      } in
      let message = reason +++ "; stop not confirmed by controller, verify" in
      finish_stop false message (publish_state (idle_unless_inactive s1) message s1)
