-- ===== src/Drive/Samples.antt =====
-- Concrete drives: one whose status word says that it runs, and one that reports an error.
use ros2_wavemakers.Base.{[], arith, false, map, refl, replicate, true, ℕ, ◌+◌, ◌∷◌}
use ros2_wavemakers.Drive.Ready.{IsReady}
use ros2_wavemakers.Drive.Types.{Formats, IndraDrive, drive_tag, drive_tags}
use ros2_wavemakers.Driver.Registry.{lookup, same_area, tag, tag_checked}
use ros2_wavemakers.Driver.Samples.{Gateway, small_driver}
use ros2_wavemakers.Driver.State.{Driver}
use ros2_wavemakers.Image.Samples.{fixed_point}
use ros2_wavemakers.Image.Types.{Area, DataType, Tag, size_bytes}

abbrev pub plain_formats : Formats ℕ
plain_formats = record {
  drive_error = λ hi lo. "drive error";
  timeout_waiting = λ what sw. "timeout";
  outside_position = λ p lo hi. "outside";
  outside_velocity = λ v m. "too fast";
  status_line = λ sw mode ready error warn inpos position velocity hi lo slave. mode;
}

abbrev pub tick : IndraDrive ℕ Gateway → IndraDrive ℕ Gateway
tick s = record s { now = s.now + 20 }

abbrev pub drive_driver : Driver ℕ Gateway
unfolding drive_tags drive_tag
drive_driver = record small_driver {
  tags = map (λ (t : Tag ℕ). (t.name, t)) (drive_tags fixed_point "Drv.");
  inputs = 0xC0 ∷ 0x02 ∷ replicate 12 0;
  outputs = replicate 12 0;
  status = 3 ∷ 0x0400 ∷ 0 ∷ [];
  dirty_hi = 0;
}

abbrev pub running_drive : IndraDrive ℕ Gateway
running_drive = record {
  driver = drive_driver;
  cfg = record {
    name_prefix = "Drv.";
    profibus_address = 2;
    min_position = 0;
    max_position = 5000000;
    max_velocity_rpm = 1000000;
    in_position_tol_deg = 1000;
    step_timeout_ms = 100;
  };
  enabled = false;
  fault = false;
  abort = false;
  fault_reason = "";
  last_error = "";
  has_callback = true;
  callbacks = [];
  now = 0;
}

-- Enabled, online and live, with the class 1 error bit set.
abbrev pub broken_drive : IndraDrive ℕ Gateway
broken_drive = record running_drive {
  enabled = true;
  driver = record drive_driver { inputs = 0xE0 ∷ 0x02 ∷ replicate 12 0 };
}

abbrev control_tag : Tag ℕ
unfolding drive_tag
control_tag = drive_tag fixed_point "Drv." "ControlWord" Area.output DataType.u16 0 10000 ""

pub broken_drive-IsReady : IsReady fixed_point plain_formats broken_drive
unfolding tag_checked tag lookup same_area size_bytes drive_tags drive_tag
broken_drive-IsReady = record {
  control = control_tag;
  found = refl;
  type = refl;
  bit = omega arith;
  fits = record { inside = omega arith; size = omega arith };
}
