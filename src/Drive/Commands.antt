-- ===== src/Drive/Commands.antt =====
-- The blocking commands. `elapse` is what happens while a command sleeps between two rounds.
use Prim.Native.String.{◌++◌ as ◌+++◌}
use ros2_wavemakers.Base.{
  Bool, Outcome, String, clear_bit, false, if◌then◌else◌, leb, not, ok, or_bit, pos, suc, test_bit,
  true, wrap, zero, ℕ, ◌&&◌, ◌+◌, ◌/◌, ◌>>=◌, ◌^◌, ◌||◌,
}
use ros2_wavemakers.Drive.Control.{fail, set_control, wait_for}
use ros2_wavemakers.Drive.Status.{
  describe, following, in_operating_mode, no_error, position_deg, power_ready, slave_live,
  standstill, status_word, with_torque, without_torque,
}
use ros2_wavemakers.Drive.Types.{
  Formats, IndraDrive, class1_error, clear_errors_bit, drive_on, drive_start, operating_mode,
  tag_name, target_reached,
}
use ros2_wavemakers.Driver.Staging.{read_output, read_output_int, write}
use ros2_wavemakers.Image.Types.{FloatOps}

module _ (fp : FloatOps) (fmt : Formats (fp.Double)) {C : Type 0}
    (elapse : IndraDrive (fp.Double) C → IndraDrive (fp.Double) C) where
  open fp use {Double, lt, eq, sub, fabs, fmin, decimal}

  unfoldable pub clear_errors : IndraDrive Double C → Outcome (Bool × IndraDrive Double C)
  clear_errors s = do
    v ← read_output_int fp (tag_name s "ControlWord") s.driver
    let base = clear_bit (wrap (2 ^ 16) v) clear_errors_bit
    s1 ← set_control fp fmt (or_bit base clear_errors_bit) s
    waited ← wait_for fp fmt elapse "errors to clear" 3000 no_error true s1
    s2 ← set_control fp fmt base waited.1
    ok (waited.0, s2)

  unfoldable pub write_tag : String → Double → IndraDrive Double C → Outcome (IndraDrive Double C)
  write_tag what v s = do d ← write fp (tag_name s what) v s.driver; ok (record s { driver = d })

  -- `abort_enable(false)`.
  unfoldable pub abort_enable : IndraDrive Double C → Outcome (Bool × IndraDrive Double C)
  abort_enable s = do
    s1 ← set_control fp fmt operating_mode (record s { enabled = false })
    ok (false, s1)

  -- A step of `enable`: the wait, and what follows where it succeeds.
  unfoldable pub enable_step :
      String
      → (ℕ → Bool)
      → (IndraDrive Double C → Outcome (Bool × IndraDrive Double C))
      → IndraDrive Double C
      → Outcome (Bool × IndraDrive Double C)
  enable_step what pred next s = do
    waited ← wait_for fp fmt elapse what s.cfg.step_timeout_ms pred true s
    (if not waited.0 then abort_enable waited.1 else next waited.1)

  -- The command values are parked on the current position before anything else.
  unfoldable pub park : IndraDrive Double C → Outcome (IndraDrive Double C)
  park s = do
    s1 ← write_tag "Override" (decimal (pos 1000) 1) s
    s2 ← write_tag "PosVelocity" (fmin (decimal (pos 100) 1) s1.cfg.max_velocity_rpm) s1
    position ← position_deg fp s2
    write_tag "TargetPosition" position s2

  unfoldable pub enable_follow : IndraDrive Double C → Outcome (Bool × IndraDrive Double C)
  enable_follow s = do
    position ← position_deg fp s
    s1 ← write_tag "TargetPosition" position s
    s2 ← set_control fp fmt (operating_mode + drive_on + drive_start) s1
    enable_step "drive to follow command values" following (λ r. ok (true, r)) s2

  unfoldable pub enable_torque : IndraDrive Double C → Outcome (Bool × IndraDrive Double C)
  enable_torque s = do
    s1 ← set_control fp fmt (operating_mode + drive_on) (record s { enabled = true })
    enable_step "drive ON (AF)" with_torque enable_follow s1

  unfoldable pub enable : IndraDrive Double C → Outcome (Bool × IndraDrive Double C)
  enable s =
      if not s.driver.online
      then fail fp fmt "gateway offline" s
      else if not (slave_live s)
      then fail fp fmt "drive is not in PROFIBUS data exchange" s
      else let s0 = record s { fault_reason = ""; fault = false } in
        (do
          sw ← status_word fp s0
          (if test_bit sw class1_error
              then (do
                text ← describe fp fmt s0
                fail fp fmt
                    ("drive has an active error (" +++ text +++ "), call clear_errors() first") s0)
              else (do
                s1 ← park s0
                s2 ← set_control fp fmt operating_mode s1
                enable_step "operating mode" in_operating_mode
                    (enable_step "power section ready (Ab) - is mains/DC bus on?" power_ready
                      enable_torque)
                    s2)))

  unfoldable pub move_to :
      Double → Double → IndraDrive Double C → Outcome (Bool × IndraDrive Double C)
  move_to position velocity s =
      if not s.enabled || s.fault
      then fail fp fmt
          ("move_to: drive not enabled"
            +++ (if s.fault then " (" +++ s.fault_reason +++ ")" else ""))
          s
      else if lt position s.cfg.min_position || lt s.cfg.max_position position
      then fail fp fmt (fmt.outside_position position s.cfg.min_position s.cfg.max_position) s
      else if not (lt (decimal (pos 0) 0) velocity) || lt s.cfg.max_velocity_rpm velocity
      then fail fp fmt (fmt.outside_velocity velocity s.cfg.max_velocity_rpm) s
      else (do
        s1 ← write_tag "PosVelocity" velocity s
        s2 ← write_tag "TargetPosition" position s1
        ok (true, s2))

  -- One round of the loop of `wait_in_position`.
  unfoldable pub position_round :
      Double
      → IndraDrive Double C
      → Outcome (Bool × IndraDrive Double C)
      → Outcome (Bool × IndraDrive Double C)
  position_round target s retry =
      if s.abort
      then fail fp fmt "aborted while moving" s
      else if s.fault
      then fail fp fmt ("fault while moving: " +++ s.fault_reason) s
      else if not s.driver.online
      then fail fp fmt "gateway offline while moving" s
      else (do
        sw ← status_word fp s
        (if not (test_bit sw target_reached) then retry else do
          position ← position_deg fp s
          let off = fabs (sub position target)
          (if lt off s.cfg.in_position_tol_deg || eq off s.cfg.in_position_tol_deg
              then ok (true, s)
              else retry)))

  unfoldable pub position_loop :
      Double → ℕ → ℕ → IndraDrive Double C → Outcome (Bool × IndraDrive Double C)
  position_loop target deadline zero s =
      position_round target s (fail fp fmt "timeout waiting for target position" s)
  position_loop target deadline (suc n) s =
      let rest = position_loop target deadline n (elapse s) in
      position_round target s
        (if leb deadline s.now then fail fp fmt "timeout waiting for target position" s else rest)

  unfoldable pub wait_in_position : ℕ → IndraDrive Double C → Outcome (Bool × IndraDrive Double C)
  wait_in_position timeout_ms s = do
    target ← read_output fp (tag_name s "TargetPosition") s.driver
    position_loop target (s.now + timeout_ms) (timeout_ms / 20 + 1) s

  -- `gap` is what the other threads do between the test of the flag and the write.
  unfoldable pub halt_with :
      (IndraDrive Double C → IndraDrive Double C)
      → IndraDrive Double C
      → Outcome (IndraDrive Double C)
  halt_with gap s =
      if s.enabled then set_control fp fmt (operating_mode + drive_on) (gap s) else ok s

  unfoldable pub halt : IndraDrive Double C → Outcome (IndraDrive Double C)
  halt s = halt_with (λ r. r) s

  -- Drive Halt, where the drive is on: decelerate and hold.
  unfoldable pub stop_motion : IndraDrive Double C → Outcome (Bool × IndraDrive Double C)
  stop_motion s =
      if s.enabled && s.driver.online
      then (do
        s1 ← set_control fp fmt (operating_mode + drive_on) s
        wait_for fp fmt elapse "standstill" s1.cfg.step_timeout_ms standstill false s1)
      else ok (true, s)

  unfoldable pub disable : IndraDrive Double C → Outcome (Bool × IndraDrive Double C)
  disable s = do
    stopped ← stop_motion s
    s1 ← set_control fp fmt operating_mode (record (stopped.1) { enabled = false })
    (if not s1.driver.online then ok (stopped.0, s1) else do
      waited ← wait_for fp fmt elapse "torque off" s1.cfg.step_timeout_ms without_torque false s1
      ok (waited.0 && stopped.0, waited.1))

  unfoldable pub shutdown : IndraDrive Double C → Outcome (IndraDrive Double C)
  shutdown s = set_control fp fmt 0 (record s { enabled = false })
