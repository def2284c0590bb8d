-- ===== src/Bridge/Types.antt =====
-- The state of the bridge and what it does to the outside.
use Prim.Native.String.{◌++◌ as ◌+++◌}
use ros2_wavemakers.Base.{
  Bool, List, Option, String, [], false, if◌then◌else◌, none, true, ℕ, ◌==◌, ◌∷◌,
}
use ros2_wavemakers.Node.Config.{zero_m}

pub data State : Type 0 where
  inactive idle starting running stopping : State

unfoldable pub state_name : State → String
state_name inactive = "inactive"
state_name idle = "idle"
state_name starting = "starting"
state_name running = "running"
state_name stopping = "stopping"

-- The tests `state_ == State::Starting || state_ == State::Running` and `state_ == State::Idle`.
abbrev pub is_moving : State → Bool
is_moving starting = true
is_moving running = true
is_moving _ = false

abbrev pub is_inactive : State → Bool
is_inactive inactive = true
is_inactive _ = false

abbrev pub is_idle : State → Bool
is_idle idle = true
is_idle _ = false

-- `rclcpp_action::ResultCode`; an aborted goal comes with the message of its result.
pub data ResultCode : Type 0 where
  canceled succeeded unknown : ResultCode
  aborted : String → ResultCode

unfoldable pub result_message : ResultCode → String
result_message canceled = "Stopped, holding position."
result_message succeeded = "Wave finished successfully"
result_message (aborted text) = "Wave aborted: " +++ text
result_message unknown = "Wave ended"

-- What the node gives to the outside. A goal is named by its generation, and so is its handle; a
-- stop request by the number of its service call. `all_cancelled` carries what the callback of the
-- call captures, `done` and `ours`.
pub data Effect (D : Type 0) : Type 0 where
  published_state : String → Effect D
  published_message : String → Effect D
  goal_sent : ℕ → D → D → Effect D
  goal_cancelled : ℕ → Effect D
  all_cancelled : Option ℕ → Bool → Effect D
  replied : ℕ → Bool → String → Effect D
  bond_started : D → Effect D
  bond_broken : Effect D

-- What `on_activate` creates and `cleanup_helper` resets, by whether it is there.
pub record Inputs : Type 0 where
  pub watch_timer : Bool
  pub stop_service : Bool
  pub heartbeat_subscription : Bool
  pub stop_subscription : Bool
  pub start_subscription : Bool
  pub period_subscription : Bool
  pub height_subscription : Bool
  pub pre_shutdown_callback : Bool

abbrev pub all_inputs : Bool → Inputs
all_inputs there = record {
  watch_timer = there;
  stop_service = there;
  heartbeat_subscription = there;
  stop_subscription = there;
  start_subscription = there;
  period_subscription = there;
  height_subscription = there;
  pre_shutdown_callback = there;
}

-- The callbacks that the action client still holds, by the generation that they captured: those
-- that wait for the answer to a goal, and those that wait for the result of an accepted one.
pub record Callbacks : Type 0 where
  pub responses : ℕ → Bool
  pub results : ℕ → Bool

abbrev pub no_callbacks : Callbacks
no_callbacks = record { responses = λ _. false; results = λ _. false }

abbrev pub mark : ℕ → Bool → (ℕ → Bool) → ℕ → Bool
mark g there marks g' = if g' == g then there else marks g'

-- `stop_timeout` holds the time at which the timer fires. Times are in nanoseconds; `effects` has
-- the latest first.
pub record WavemakerBridge (D : Type 0) : Type 0 where
  pub action_client : Bool
  pub callbacks : Callbacks
  pub inputs : Inputs
  pub state_publisher : Bool
  pub message_publisher : Bool
  pub goal_handle : Option ℕ
  pub heartbeat_seen : Bool
  pub goal_requested : Bool
  pub cancel_on_accept : Bool
  pub last_heartbeat : ℕ
  pub heartbeat_timeout : D
  pub watch_ticks : ℕ
  pub goal_generation : ℕ
  pub stop_done : Option ℕ
  pub stop_timeout : Option ℕ
  pub state : State
  pub last_message : String
  pub bond : Bool
  pub height : D
  pub period : D
  pub now : ℕ
  pub effects : List (Effect D)

abbrev pub stop_timeout_s : ℕ
stop_timeout_s = 2

module _ {D : Type 0} where
  unfoldable pub emit : Effect D → WavemakerBridge D → WavemakerBridge D
  emit e s = record s { effects = e ∷ s.effects }

  -- The object before `on_configure`.
  unfoldable pub make_bridge : D → D → WavemakerBridge D
  make_bridge zero_m one_s = record {
    action_client = false;
    callbacks = no_callbacks;
    inputs = all_inputs false;
    state_publisher = false;
    message_publisher = false;
    goal_handle = none;
    heartbeat_seen = false;
    goal_requested = false;
    cancel_on_accept = false;
    last_heartbeat = 0;
    heartbeat_timeout = one_s;
    watch_ticks = 0;
    goal_generation = 0;
    stop_done = none;
    stop_timeout = none;
    state = inactive;
    last_message = "";
    bond = false;
    height = zero_m;
    period = zero_m;
    now = 0;
    effects = [];
  }
