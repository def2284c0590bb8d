-- ===== src/Drive/Races.antt =====
-- `halt` tests the enabled flag and then writes; the poll thread may latch a fault in between.
use ros2_wavemakers.Base.{arith, false, ok, ok-injective, pos, sym, true, ◌+◌, ◌∙◌, ◌≡◌}
use ros2_wavemakers.Drive.Commands.{halt_with}
use ros2_wavemakers.Drive.Control.{on_cycle, staged_control}
use ros2_wavemakers.Drive.Ready.{IsReady, set_control-Commanded}
use ros2_wavemakers.Drive.Safety.{on_cycle-lost}
use ros2_wavemakers.Drive.Types.{Formats, IndraDrive, drive_on, operating_mode}
use ros2_wavemakers.Image.Types.{FloatOps}

module _ (fp : FloatOps) (fmt : Formats (fp.Double)) {C : Type 0}
    (elapse : IndraDrive (fp.Double) C → IndraDrive (fp.Double) C) where
  open fp use {Double}

  -- From an enabled, ready drive whose link fails: after `on_cycle` ran in the gap of `halt`,
  -- the fault is latched and the drive counts as disabled, but the control word that is staged
  -- when `halt` returns has operating mode and drive ON set.
  pub halt-revives :
      (s s1 : IndraDrive Double C) (gap : IndraDrive Double C → IndraDrive Double C)
      → IsReady fp fmt s
      → s.enabled ≡ true
      → on_cycle fp fmt false s ≡ ok s1
      → gap s ≡ s1
      → (s2 : IndraDrive Double C) × (halt_with fp fmt elapse gap s ≡ ok s2)
        × (s2.fault ≡ true)
        × (s2.enabled ≡ false)
        × (staged_control fp fmt s2 ≡ ok (pos (operating_mode + drive_on)))
  unfolding halt_with
  halt-revives s s1 gap r on ran same =
      let (s1', e, secured) = on_cycle-lost fp fmt s r in
      let l = secured.latched on in
      let there : s1' ≡ s1 = ok-injective (sym e ∙ ran) in
      let w = set_control-Commanded fp fmt (operating_mode + drive_on) s1' l.ready (omega arith) in
      (
        record s1' { driver = w.driver },
        rw (same, sym there, w.returns, on),
        l.latched,
        l.off,
        w.control,
      )
