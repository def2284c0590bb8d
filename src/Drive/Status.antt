-- ===== src/Drive/Status.antt =====
-- What the drive and the gateway report: the status word and its predicates, and the live list.
use ros2_wavemakers.Base.{
  Bool, List, Outcome, String, false, get_or, hi_byte, if◌then◌else◌, leb, length, lo_byte,
  mask_field, not, ok, test_bit, wrap, ℕ, ◌%◌, ◌+◌, ◌/◌, ◌==◌, ◌>>=◌, ◌^◌, ◌||◌,
}
use ros2_wavemakers.Drive.Types.{
  Formats, IndraDrive, class1_error, class2_warning, in_standstill, not_following, ready_ab,
  ready_af, tag_name, target_reached,
}
use ros2_wavemakers.Driver.Staging.{read, read_int}
use ros2_wavemakers.Image.Types.{FloatOps}

unfoldable pub in_operating_mode : ℕ → Bool
in_operating_mode sw = mask_field sw 0 2 == 2

unfoldable pub power_ready : ℕ → Bool
power_ready sw = leb ready_ab (mask_field sw 14 2)

unfoldable pub with_torque : ℕ → Bool
with_torque sw = mask_field sw 14 2 == ready_af

unfoldable pub without_torque : ℕ → Bool
without_torque sw = not (mask_field sw 14 2 == ready_af)

unfoldable pub following : ℕ → Bool
following sw = not (test_bit sw not_following)

unfoldable pub standstill : ℕ → Bool
standstill sw = test_bit sw in_standstill

unfoldable pub no_error : ℕ → Bool
no_error sw = not (test_bit sw class1_error)

-- The names of the four values of the ready bits.
unfoldable pub ready_name : ℕ → String
ready_name k = if k == 0 then "--" else if k == 1 then "bb" else if k == 2 then "Ab" else "AF"

-- The bit of the gateway's live list.
unfoldable pub live_bit : ℕ → List ℕ → Bool
live_bit address st =
    let b = 2 + address / 8 in
    let reg = b / 2 in
    if leb (length st) reg
    then false
    else let byte = if b % 2 == 0 then hi_byte (get_or st reg 0) else lo_byte (get_or st reg 0) in
      test_bit byte (address % 8)

module _ {D C : Type 0} where
  unfoldable pub slave_live : IndraDrive D C → Bool
  slave_live s =
      if not s.driver.online
      then false
      else if length s.driver.status == 0 || not (mask_field (get_or s.driver.status 0 0) 0 2 == 3)
      then false
      else live_bit s.cfg.profibus_address s.driver.status

module _ (fp : FloatOps) {C : Type 0} where
  open fp use {Double}

  unfoldable pub status_word : IndraDrive Double C → Outcome ℕ
  status_word s = do v ← read_int fp (tag_name s "StatusWord") s.driver; ok (wrap (2 ^ 16) v)

  unfoldable pub position_deg : IndraDrive Double C → Outcome Double
  position_deg s = read fp (tag_name s "Position") s.driver

  unfoldable pub velocity_rpm : IndraDrive Double C → Outcome Double
  velocity_rpm s = read fp (tag_name s "Velocity") s.driver

  unfoldable pub diag_number : IndraDrive Double C → Outcome ℕ
  diag_number s = do v ← read_int fp (tag_name s "DiagNumber") s.driver; ok (wrap (2 ^ 32) v)

  unfoldable pub describe : Formats Double → IndraDrive Double C → Outcome String
  describe fmt s = do
    sw ← status_word s
    diag ← diag_number s
    position ← position_deg s
    velocity ← velocity_rpm s
    ok (
        fmt.status_line sw (if in_operating_mode sw then "OM" else "PM")
          (ready_name (sw / 2 ^ 14 % 4)) (if test_bit sw class1_error then " ERROR" else "")
          (if test_bit sw class2_warning then " warn" else "")
          (if test_bit sw target_reached then " inpos" else "") position velocity
          (diag / 2 ^ 16 % 16) (diag % 2 ^ 16) (if slave_live s then "live" else "DOWN"))
