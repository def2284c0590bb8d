-- ===== src/Drive/Ready.antt =====
-- Staging a control word.
use ros2_wavemakers.Base.{ok, pos, ℕ, ◌<◌, ◌∙◌, ◌≡◌, ◌≤◌}
use ros2_wavemakers.Drive.Control.{set_control, staged_control}
use ros2_wavemakers.Drive.Types.{Formats, IndraDrive, tag_name}
use ros2_wavemakers.Driver.ReadBack.{tag_checked-same, write_int-Wrote}
use ros2_wavemakers.Driver.Registry.{tag_checked}
use ros2_wavemakers.Driver.State.{Driver}
use ros2_wavemakers.Image.Bounds.{Fits}
use ros2_wavemakers.Image.TagTrip.{Holds}
use ros2_wavemakers.Image.Types.{Area, DataType, FloatOps, Tag, size_bytes}

module _ (fp : FloatOps) (fmt : Formats (fp.Double)) {C : Type 0} where
  open fp use {Double}

  -- The control word is a registered 16-bit output tag inside the output image.
  pub record IsReady (s : IndraDrive Double C) : Type 0 where
    pub control : Tag Double
    pub found : tag_checked (tag_name s "ControlWord") Area.output s.driver ≡ ok control
    pub type : control.type ≡ DataType.u16
    pub bit : control.bit ≤ 7
    pub fits : Fits s.driver.outputs control.byte_offset (size_bytes control)

  -- From `s`, the control word `cw` has been staged, and nothing else changed that the drive
  -- object looks at.
  pub record Commanded (cw : ℕ) (s : IndraDrive Double C) : Type 0 where
    pub driver : Driver Double C
    pub returns : set_control fp fmt cw s ≡ ok (record s { driver = driver })
    pub control : staged_control fp fmt (record s { driver = driver }) ≡ ok (pos cw)
    pub ready : IsReady (record s { driver = driver })
    pub same_inputs : driver.inputs ≡ s.driver.inputs
    pub same_online : driver.online ≡ s.driver.online
    pub same_status : driver.status ≡ s.driver.status

  -- On a ready object every 16-bit control word is staged without an exception, is read back as
  -- staged, and leaves the object ready and its inputs, online flag and status as they were.
  pub set_control-Commanded :
      (cw : ℕ) (s : IndraDrive Double C) → IsReady s → cw < 65536 → Commanded cw s
  set_control-Commanded cw s r h =
      let holds : Holds r.control.type (pos cw) = rw r.type h in
      let w =
        write_int-Wrote fp (tag_name s "ControlWord") (pos cw) s.driver r.found r.fits r.bit
          holds in
      record {
        driver = w.after;
        returns = unfold set_control in rw w.returns;
        control = unfold staged_control in w.reads;
        ready = record {
          control = r.control;
          found = tag_checked-same _ Area.output s.driver w.after w.same_tags ∙ r.found;
          type = r.type;
          bit = r.bit;
          fits = record {
            inside = rw w.same_length r.fits.inside;
            size = rw w.same_length r.fits.size;
          };
        };
        same_inputs = w.same_inputs;
        same_online = w.same_online;
        same_status = w.same_status;
      }
