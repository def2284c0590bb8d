-- ===== src/Actuator/Commands.antt =====
-- The actuator's operations. `elapse` is what happens while a drive command sleeps; `pause ms` is
-- the same for the sleeps of `start` itself.
use text.Mathlib.Text.{◌==◌ as str_eq}
use ros2_wavemakers.Actuator.Types.{Actuator, ActuatorSetpoint}
use ros2_wavemakers.Base.{
  Bool, Outcome, String, false, if◌then◌else◌, leb, ltb, not, ok, pos, suc, true, zero, ℕ, ◌&&◌,
  ◌*◌, ◌+◌, ◌/◌, ◌>>=◌,
}
use ros2_wavemakers.Drive.Commands.{disable, enable, move_to}
use ros2_wavemakers.Drive.Status.{describe, position_deg, slave_live}
use ros2_wavemakers.Drive.Types.{Formats, IndraDrive}
use ros2_wavemakers.Driver.State.{DriverStats, start, stop}
use ros2_wavemakers.Image.Types.{FloatOps}
use ros2_wavemakers.Modbus.Port.{ModbusPort}

module _ (fp : FloatOps) (fmt : Formats (fp.Double)) {C : Type 0} (port : ModbusPort C)
    (elapse : IndraDrive (fp.Double) C → IndraDrive (fp.Double) C)
    (pause : ℕ → IndraDrive (fp.Double) C → IndraDrive (fp.Double) C) where
  open fp use {Double, lt, add, sub, mul, div, fabs, decimal}

  -- `std::clamp(v, lo, hi)`.
  unfoldable pub clamp : Double → Double → Double → Double
  clamp v lo hi = if lt v lo then lo else if lt hi v then hi else v

  -- `std::max(a, b)`.
  unfoldable pub larger : Double → Double → Double
  larger a b = if lt a b then b else a

  -- The loop of `wait_for_data`, which looks every 5 ms.
  unfoldable pub data_loop : ℕ → ℕ → IndraDrive Double C → Bool × IndraDrive Double C
  data_loop zero deadline s = (s.driver.have_data, s)
  data_loop (suc n) deadline s =
      let rest = data_loop n deadline (pause 5 s) in
      if leb deadline s.now
      then (s.driver.have_data, s)
      else if s.driver.have_data
      then (true, s)
      else if not s.driver.running
      then (false, s)
      else rest

  unfoldable pub wait_for_data : ℕ → IndraDrive Double C → Bool × IndraDrive Double C
  wait_for_data timeout_ms s = data_loop (timeout_ms / 5 + 1) (s.now + timeout_ms) s

  unfoldable pub stop_driver : IndraDrive Double C → IndraDrive Double C
  stop_driver s = record s { driver = stop port s.driver }

  -- The tests on the two statistics.
  unfoldable pub polling_healthy : ℕ → DriverStats → DriverStats → Bool
  polling_healthy poll_interval_ms first second =
      ltb first.cycles second.cycles
      && leb second.read_errors first.read_errors
      && leb second.write_errors first.write_errors
      && str_eq second.last_error ""
      && ltb second.last_cycle_us (poll_interval_ms * 1000)

  unfoldable pub start_actuator : Actuator Double C → Outcome (Bool × Actuator Double C)
  start_actuator a =
      let begun = record (a.drive) { driver = start port a.drive.driver } in
      let (ready, s1) = wait_for_data 5000 begun in
      let s2 = pause 200 s1 in
      let gone = λ (s : IndraDrive Double C).
        ok (false, record a { drive = stop_driver s; has_target = false }) in
      if not ready
      then gone s1
      else if not
          (polling_healthy a.settings.gateway.poll_interval_ms s1.driver.stats s2.driver.stats)
      then gone s2
      else if not (slave_live s2)
      then gone s2
      else (do
        enabled ← enable fp fmt elapse s2
        (if not enabled.0
            then gone enabled.1
            else ok (true, record a { drive = enabled.1; has_target = false })))

  unfoldable pub hold_target : Actuator Double C → Outcome Double
  hold_target a = do
    target ← (if a.has_target then ok a.last_target else position_deg fp a.drive)
    ok (clamp target a.settings.drive.min_position a.settings.drive.max_position)

  unfoldable pub halt_actuator : Actuator Double C → Outcome (Actuator Double C)
  halt_actuator a = if a.drive.fault then ok a else (do
    target ← hold_target a
    done ← move_to fp fmt elapse target a.settings.hold_velocity_rpm a.drive
    ok (record a { drive = done.1 }))

  unfoldable pub stop_actuator : Actuator Double C → Outcome (Actuator Double C)
  stop_actuator a = do
    disabled ← disable fp fmt elapse a.drive
    ok (record a { drive = stop_driver disabled.1; has_target = false })

  unfoldable pub write_setpoint :
      ActuatorSetpoint Double → Actuator Double C → Outcome (Bool × Actuator Double C)
  write_setpoint setpoint a = do
    let velocity_rpm =
        larger (decimal (pos 1) 1) (div (fabs setpoint.velocity) (decimal (pos 60) 1))
    done ← move_to fp fmt elapse setpoint.position velocity_rpm a.drive
    (if not done.0
        then ok (false, record a { drive = done.1 })
        else ok
            (true, record a { drive = done.1; last_target = setpoint.position; has_target = true }))

  unfoldable pub update_period_ms : Actuator Double C → ℕ
  update_period_ms a = a.settings.gateway.poll_interval_ms

  unfoldable pub has_angle : Actuator Double C → Bool
  has_angle a = str_eq a.settings.drive_type "angular"

  unfoldable pub max_velocity_mps : Actuator Double C → Double
  max_velocity_mps a =
      let units_per_s = mul a.settings.drive.max_velocity_rpm (decimal (pos 60) 1) in
      if has_angle a then mul units_per_s a.settings.lead_m_per_degree else units_per_s

  unfoldable pub is_live : Actuator Double C → Bool
  is_live a = slave_live a.drive

  unfoldable pub faulted : Actuator Double C → Bool
  faulted a = a.drive.fault

  unfoldable pub why_faulted : Actuator Double C → String
  why_faulted a = if a.drive.fault then a.drive.fault_reason else a.drive.last_error

  unfoldable pub status_text : Actuator Double C → Outcome String
  status_text a = describe fp fmt a.drive

  unfoldable pub actual_position_m : Actuator Double C → Outcome Double
  actual_position_m a = do
    position ← position_deg fp a.drive
    let s = a.settings
    ok (
        if has_angle a
        then add s.position_offset_m (mul (sub position s.upright_angle_deg) s.lead_m_per_degree)
        else position)

  unfoldable pub to_actuator_setpoint :
      Double → Double → Actuator Double C → ActuatorSetpoint Double
  to_actuator_setpoint position_m velocity_mps a =
      let s = a.settings in
      if has_angle a
      then record {
        position =
            add s.upright_angle_deg (div (sub position_m s.position_offset_m) s.lead_m_per_degree);
        velocity = div velocity_mps s.lead_m_per_degree;
      }
      else record { position = position_m; velocity = velocity_mps }
