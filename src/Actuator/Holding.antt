-- ===== src/Actuator/Holding.antt =====
-- `halt` holds the position by a move that the drive takes.
use ros2_wavemakers.Actuator.Commands.{clamp, halt_actuator, hold_target}
use ros2_wavemakers.Actuator.Types.{Actuator}
use ros2_wavemakers.Actuator.Valid.{IsValid}
use ros2_wavemakers.Base.{
  >>=-eq-ok, Bool, Bool-cases, arith, false, if◌then◌else◌, inl, inr, not, ok, ok-injective, pos,
  true, ℕ, ◌||◌, ◌≡◌,
}
use ros2_wavemakers.Drive.Commands.{move_to, write_tag}
use ros2_wavemakers.Drive.Enabling.{Moved, NotBeyond, moved}
use ros2_wavemakers.Drive.Status.{position_deg}
use ros2_wavemakers.Drive.Types.{Formats, IndraDrive}
use ros2_wavemakers.Drive.Waiting.{if_cases}
use ros2_wavemakers.Image.Types.{FloatOps}
use ros2_wavemakers.Modbus.Port.{ModbusPort}

module _ (fp : FloatOps) (fmt : Formats (fp.Double)) {C : Type 0} (port : ModbusPort C)
    (elapse : IndraDrive (fp.Double) C → IndraDrive (fp.Double) C)
    (pause : ℕ → IndraDrive (fp.Double) C → IndraDrive (fp.Double) C) where
  open fp use {Double, lt, decimal}

  -- No value is less than itself, a NaN included.
  abbrev pub IsIrreflexive : Type 0
  IsIrreflexive = (x : Double) → lt x x ≡ false

  clamp-within :
      (v lo hi : Double)
      → IsIrreflexive
      → lt hi lo ≡ false
      → let x = clamp fp fmt port elapse pause v lo hi in (lt x lo ≡ false) × (lt hi x ≡ false)
  unfolding clamp
  clamp-within v lo hi irr h = elim (Bool-cases (lt v lo)) [
    | inl below ↦ rw below (irr lo, h)
    | inr enough ↦ elim (Bool-cases (lt hi v)) [
      | inl above ↦ rw (enough, above) (h, irr hi)
      | inr fine ↦ rw (enough, fine) (enough, fine)
    ]
  ]

  move_to-within :
      (position velocity : Double) (s : IndraDrive Double C)
      → s.enabled ≡ true
      → s.fault ≡ false
      → NotBeyond fp fmt elapse position velocity s
      → {good : Bool} {s' : IndraDrive Double C}
      → move_to fp fmt elapse position velocity s ≡ ok (good, s')
      → Moved fp fmt elapse position velocity s true s'
  unfolding move_to
  move_to-within position velocity s on calm w {good} {s'} h =
      elim (if_cases (not s.enabled || s.fault) _ _ h) [
        | inl (off, e) ↦ absurd (ground arith)
        | inr (fine, h1) ↦
            elim (if_cases (lt position s.cfg.min_position || lt s.cfg.max_position position) _ _
              h1) [
                | inl (out, e) ↦ absurd (ground (arith, w.above, w.below))
                | inr (near, h2) ↦
                    elim (if_cases
                      (not (lt (decimal (pos 0) 0) velocity) || lt s.cfg.max_velocity_rpm velocity)
                      _ _ h2) [
                        | inl (fast, e) ↦ absurd (ground (arith, w.moving, w.slow))
                        | inr (slow, h3) ↦
                            let (s1, a, h4) =
                              >>=-eq-ok (write_tag fp fmt elapse "PosVelocity" velocity s) _ h3 in
                            let (s2, b, h5) =
                              >>=-eq-ok (write_tag fp fmt elapse "TargetPosition" position s1) _
                                h4 in
                            let same : s2 ≡ s' = cc in moved s1 s' on calm w a (rw same at b)
                      ]
              ]
      ]

  -- On an actuator with valid settings whose drive has those limits and is enabled and without
  -- fault, and with a comparison by which nothing is less than itself, a halt that returns has staged
  -- the hold velocity and then a target that does not compare as beyond the limits (one that is not a
  -- number does not either): the drive never refuses it.
  pub halt_actuator-Moved :
      (a : Actuator Double C) {a' : Actuator Double C}
      → IsIrreflexive
      → IsValid fp a.settings
      → a.drive.cfg ≡ a.settings.drive
      → a.drive.enabled ≡ true
      → a.drive.fault ≡ false
      → halt_actuator fp fmt port elapse pause a ≡ ok a'
      → (target : Double) × Moved fp fmt elapse target a.settings.hold_velocity_rpm a.drive true
          a'.drive
  unfolding halt_actuator hold_target
  halt_actuator-Moved a {a'} irr valid same on calm h =
      let c = a.settings.drive in
      elim (if_cases a.drive.fault _ _ h) [
        | inl (bad, e) ↦ absurd (cc)
        | inr (fine, h1) ↦
            let (x, t, h2) = >>=-eq-ok (hold_target fp fmt port elapse pause a) _ h1 in
            let (m, d, h3) =
              >>=-eq-ok (move_to fp fmt elapse x a.settings.hold_velocity_rpm a.drive) _ h2 in
            let (v, from, t1) =
              >>=-eq-ok (if a.has_target then ok a.last_target else position_deg fp a.drive) _ t in
            let (lo, hi) =
              clamp-within v c.min_position c.max_position irr (ground (arith, valid.limits)) in
            let here = ok-injective t1 in
            let within : NotBeyond fp fmt elapse x a.settings.hold_velocity_rpm a.drive = record {
              above = rw (same, ← here) lo;
              below = rw (same, ← here) hi;
              moving = valid.holds.0;
              slow = rw same valid.holds.1;
            } in
            (
              x,
              rw (← ok-injective h3)
                  (move_to-within x a.settings.hold_velocity_rpm a.drive on calm within d),
            )
      ]
