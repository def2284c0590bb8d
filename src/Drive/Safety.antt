-- ===== src/Drive/Safety.antt =====
-- The cycle callback forces the control word to 0.
use ros2_wavemakers.Base.{
  Bool, Bool-cases, String, arith, false, inl, inr, ok, pos, test_bit, true, ℕ, ◌%◌, ◌/◌, ◌^◌, ◌∙◌,
  ◌∷◌, ◌≡◌, ◌⊎◌,
}
use ros2_wavemakers.Drive.Control.{latch_fault, latch_flags, on_cycle, staged_control}
use ros2_wavemakers.Drive.Ready.{IsReady, set_control-Commanded}
use ros2_wavemakers.Drive.Status.{diag_number, slave_live, status_word}
use ros2_wavemakers.Drive.Types.{Formats, IndraDrive, class1_error}
use ros2_wavemakers.Image.Types.{FloatOps}

abbrev dropped_out : String
dropped_out = "drive dropped out of PROFIBUS data exchange"

module _ (fp : FloatOps) (fmt : Formats (fp.Double)) {C : Type 0} where
  open fp use {Double}

  -- What `latch_fault` left of `s`: the drive is commanded off; the fault is latched; the first
  -- fault since the last `enable` gives the reason and calls the callback, once.
  pub record Latched (s s' : IndraDrive Double C) : Type 0 where
    pub off : s'.enabled ≡ false
    pub control : staged_control fp fmt s' ≡ ok (pos 0)
    pub latched : s'.fault ≡ true
    pub ready : IsReady fp fmt s'
    pub again : s.fault ≡ true → (s'.fault_reason ≡ s.fault_reason) × (s'.callbacks ≡ s.callbacks)
    pub first :
        s.fault ≡ false → s.has_callback ≡ true → s'.callbacks ≡ s'.fault_reason ∷ s.callbacks

  latch_flags-driver :
      (why : String) (s : IndraDrive Double C) → (latch_flags fp fmt why s).driver ≡ s.driver
  unfolding latch_flags
  latch_flags-driver why s = ground arith

  latch_flags-cfg :
      (why : String) (s : IndraDrive Double C) → (latch_flags fp fmt why s).cfg ≡ s.cfg
  unfolding latch_flags
  latch_flags-cfg why s = ground arith

  staged_control-same :
      (s s' : IndraDrive Double C)
      → s'.driver ≡ s.driver
      → s'.cfg ≡ s.cfg
      → staged_control fp fmt s' ≡ staged_control fp fmt s
  unfolding staged_control
  staged_control-same s s' d c = rw (d, c)

  IsReady-same :
      (s s' : IndraDrive Double C)
      → s'.driver ≡ s.driver
      → s'.cfg ≡ s.cfg
      → IsReady fp fmt s
      → IsReady fp fmt s'
  IsReady-same s s' d c r = record {
    control = r.control;
    found = rw (d, c) r.found;
    type = r.type;
    bit = r.bit;
    fits = rw d r.fits;
  }

  latch_flags-fault :
      (why : String) (s : IndraDrive Double C)
      → let e = latch_flags fp fmt why s in
        (e.enabled ≡ false)
        × (e.fault ≡ true)
        × (s.fault ≡ true → (e.fault_reason ≡ s.fault_reason) × (e.callbacks ≡ s.callbacks))
        × (s.fault ≡ false → s.has_callback ≡ true → e.callbacks ≡ e.fault_reason ∷ s.callbacks)
  unfolding latch_flags
  latch_flags-fault why s = ground arith

  pub latch_fault-Latched :
      (why : String) (s : IndraDrive Double C)
      → IsReady fp fmt s
      → (s' : IndraDrive Double C) × (latch_fault fp fmt why s ≡ ok s') × Latched s s'
  unfolding latch_fault
  latch_fault-Latched why s r =
      let w = set_control-Commanded fp fmt 0 s r (omega arith) in
      let s1 : IndraDrive Double C = record s { driver = w.driver } in
      let (a, b, c, d) = latch_flags-fault why s1 in
      (
        latch_flags fp fmt why s1,
        rw w.returns,
        record {
          off = a;
          control =
              staged_control-same s1 (latch_flags fp fmt why s1) (latch_flags-driver why s1)
                (latch_flags-cfg why s1)
              ∙ w.control;
          latched = b;
          ready =
              IsReady-same s1 (latch_flags fp fmt why s1) (latch_flags-driver why s1)
                (latch_flags-cfg why s1) w.ready;
          again = c;
          first = d;
        },
      )

  -- The cycle is a reason to switch off: it failed, or the drive is commanded on and has left
  -- the live list or reports a class 1 error.
  abbrev pub IsAlarm : Bool → IndraDrive Double C → Type 0
  IsAlarm good s =
      (good ≡ false)
      ⊎ ((s.enabled ≡ true)
          × ((slave_live s ≡ false)
              ⊎ ((sw : ℕ) × (status_word fp s ≡ ok sw) × (test_bit sw class1_error ≡ true))))

  -- What `on_cycle` left of `s` on an alarm.
  pub record Secured (s s' : IndraDrive Double C) : Type 0 where
    pub off : s'.enabled ≡ false
    pub control : staged_control fp fmt s' ≡ ok (pos 0)
    pub latched : s.enabled ≡ true → Latched s s'

  Latched-Secured : {s s' : IndraDrive Double C} → Latched s s' → Secured s s'
  Latched-Secured l = record { off = l.off; control = l.control; latched = λ _. l }

  pub on_cycle-lost :
      (s : IndraDrive Double C)
      → IsReady fp fmt s
      → (s' : IndraDrive Double C) × (on_cycle fp fmt false s ≡ ok s') × Secured s s'
  unfolding on_cycle
  on_cycle-lost s r =
      let w = set_control-Commanded fp fmt 0 s r (omega arith) in
      let s1 : IndraDrive Double C = record s { driver = w.driver } in
      elim (Bool-cases s.enabled) [
        | inl on ↦
            let (s', e, l) = latch_fault-Latched "Modbus link to gateway lost" s1 w.ready in
            (
              s',
              rw (w.returns, e, on),
              record {
                off = l.off;
                control = l.control;
                latched = λ _. record {
                  off = l.off;
                  control = l.control;
                  latched = l.latched;
                  ready = l.ready;
                  again = l.again;
                  first = l.first;
                };
              },
            )
        | inr off ↦ (
          s1,
          rw (w.returns, off),
          record { off = off; control = w.control; latched = λ on. absurd (cc) },
        )
      ]

  -- On a ready object with a readable diagnosis number, `on_cycle` throws nothing on an alarm:
  -- the drive is commanded off with control word 0 staged, and where it was commanded on, the
  -- fault is latched, with one call of the callback for a fault that is new.
  pub on_cycle-Secured :
      (good : Bool) (s : IndraDrive Double C) {diag : ℕ}
      → IsReady fp fmt s
      → diag_number fp s ≡ ok diag
      → IsAlarm good s
      → (s' : IndraDrive Double C) × (on_cycle fp fmt good s ≡ ok s') × Secured s s'
  unfolding on_cycle
  on_cycle-Secured false s r readable alarm = on_cycle-lost s r
  on_cycle-Secured true s r readable (inl bad) = absurd (cc)
  on_cycle-Secured true s r readable (inr (on, inl dead)) =
      let (s', e, l) = latch_fault-Latched dropped_out s r in
      (s', rw (dead, e, on), Latched-Secured l)
  on_cycle-Secured true s {diag} r readable (inr (on, inr (sw, seen, bad))) =
      elim (Bool-cases (slave_live s)) [
        | inl live ↦
            let (s', e, l) =
              latch_fault-Latched (fmt.drive_error (diag / 2 ^ 16 % 16) (diag % 2 ^ 16)) s r in
            (s', rw (live, seen, bad, readable, e, on), Latched-Secured l)
        | inr dead ↦
            let (s', e, l) = latch_fault-Latched dropped_out s r in
            (s', rw (dead, e, on), Latched-Secured l)
      ]
