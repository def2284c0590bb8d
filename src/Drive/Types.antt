-- ===== src/Drive/Types.antt =====
-- Configuration, constants and state of the drive object.
use Prim.Native.String.{◌++◌ as ◌+++◌}
use ros2_wavemakers.Base.{Bool, List, Outcome, String, [], false, ok, pos, true, ℕ, ◌>>=◌, ◌^◌, ◌∷◌}
use ros2_wavemakers.Driver.Registry.{add_tags}
use ros2_wavemakers.Driver.State.{Driver}
use ros2_wavemakers.Image.Order.{ByteOrder}
use ros2_wavemakers.Image.Types.{Area, DataType, FloatOps, Tag}

-- The bits of the control word and of the status word, by number, and the values of its fields.
abbrev pub operating_mode : ℕ
operating_mode = 2 ^ 1

abbrev pub clear_errors_bit : ℕ
clear_errors_bit = 5

abbrev pub drive_start : ℕ
drive_start = 2 ^ 13

abbrev pub drive_on : ℕ
drive_on = 2 ^ 15

abbrev pub in_standstill : ℕ
in_standstill = 3

abbrev pub target_reached : ℕ
target_reached = 4

abbrev pub not_following : ℕ
not_following = 7

abbrev pub class2_warning : ℕ
class2_warning = 12

abbrev pub class1_error : ℕ
class1_error = 13

abbrev pub ready_ab : ℕ
ready_ab = 0x8000

abbrev pub ready_af : ℕ
ready_af = 0xC000

pub record IndraDriveConfig (D : Type 0) : Type 0 where
  pub name_prefix : String
  pub profibus_address : ℕ
  pub min_position : D
  pub max_position : D
  pub max_velocity_rpm : D
  pub in_position_tol_deg : D
  pub step_timeout_ms : ℕ

-- The object with the driver it stands on. `callbacks` are the arguments of the calls of the
-- fault callback so far, the latest first; `now` is the steady clock in milliseconds.
pub record IndraDrive (D C : Type 0) : Type 0 where
  pub driver : Driver D C
  pub cfg : IndraDriveConfig D
  pub enabled : Bool
  pub fault : Bool
  pub abort : Bool
  pub fault_reason : String
  pub last_error : String
  pub has_callback : Bool
  pub callbacks : List String
  pub now : ℕ

-- The texts that `snprintf` makes, one field for each call.
pub record Formats (D : Type 0) : Type 0 where
  pub drive_error : ℕ → ℕ → String
  pub timeout_waiting : String → ℕ → String
  pub outside_position : D → D → D → String
  pub outside_velocity : D → D → String
  pub status_line :
      (sw : ℕ) (mode ready error warn inpos : String) (position velocity : D) (diag_hi diag_lo : ℕ)
      (slave : String)
      → String

module _ {D C : Type 0} where
  abbrev pub tag_name : IndraDrive D C → String → String
  tag_name s what = s.cfg.name_prefix +++ what

  unfoldable pub set_fault_callback : Bool → IndraDrive D C → IndraDrive D C
  set_fault_callback given s = record s { has_callback = given }

  unfoldable pub request_abort : IndraDrive D C → IndraDrive D C
  request_abort s = record s { abort = true }

module _ (fp : FloatOps) where
  open fp use {Double, decimal}

  -- The tags of the cyclic layout, all of one byte order.
  unfoldable pub drive_tag : String → String → Area → DataType → ℕ → Double → String → Tag Double
  drive_tag prefix what area ty off scale unit = record {
    name = prefix +++ what;
    area = area;
    type = ty;
    byte_offset = off;
    bit = 0;
    raw_len = 0;
    order = ByteOrder.big_endian;
    scale = scale;
    bias = decimal (pos 0) 0;
    unit = unit;
  }

  unfoldable pub drive_tags : String → List (Tag Double)
  drive_tags prefix =
      let one = decimal (pos 10) 1 in
      let fine = decimal (pos 1) 4 in
      drive_tag prefix "StatusWord" Area.input DataType.u16 0 one ""
      ∷ drive_tag prefix "Position" Area.input DataType.i32 2 fine "deg"
      ∷ drive_tag prefix "Velocity" Area.input DataType.i32 6 fine "rpm"
      ∷ drive_tag prefix "DiagNumber" Area.input DataType.u32 10 one ""
      ∷ drive_tag prefix "ControlWord" Area.output DataType.u16 0 one ""
      ∷ drive_tag prefix "TargetPosition" Area.output DataType.i32 2 fine "deg"
      ∷ drive_tag prefix "PosVelocity" Area.output DataType.i32 6 fine "rpm"
      ∷ drive_tag prefix "Override" Area.output DataType.u16 10 (decimal (pos 1) 2) "%"
      ∷ []

  -- The constructor. Its last line gives `on_cycle` to the driver as the cycle callback.
  unfoldable pub make_drive :
      {C : Type 0} → IndraDriveConfig Double → ℕ → Driver Double C → Outcome (IndraDrive Double C)
  make_drive cfg now d = do
    d' ← add_tags (drive_tags cfg.name_prefix) d
    ok (record {
      driver = d';
      cfg = cfg;
      enabled = false;
      fault = false;
      abort = false;
      fault_reason = "";
      last_error = "";
      has_callback = false;
      callbacks = [];
      now = now;
    })
