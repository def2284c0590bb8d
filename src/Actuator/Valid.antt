-- ===== src/Actuator/Valid.antt =====
-- What the constructor's checks establish.
use ros2_wavemakers.Actuator.Config.{
  at_most, configure, drive_config, gateway_config, in_range, is_positive, limits_invalid,
  magnitude, nothing, periods_valid, refuse_if, registers_valid, as_int,
}
use ros2_wavemakers.Actuator.Types.{Checked, Parameters, Refusal, Settings, accepted}
use ros2_wavemakers.Base.{
  Bool, arith, false, negsuc, pos, refl, true, ℕ, ℤ, ◌<◌, ◌≡◌, ◌≤◌, Bool-cases, inl, inr, ltb, wrap,
  ◌^◌, ◌*◌, ◌&&◌,
}
use ros2_wavemakers.Image.Types.{FloatOps}

refuse_if-accepted :
    {A : Type 0} (b : Bool) (r : Refusal) (rest : Checked A) {a : A}
    → refuse_if b r rest ≡ accepted a
    → (b ≡ false) × (rest ≡ accepted a)
unfolding refuse_if
refuse_if-accepted true r rest h = absurd (cc)
refuse_if-accepted false r rest h = (refl, h)

accepted-injective : {A : Type 0} {a b : A} → accepted a ≡ accepted b → a ≡ b
accepted-injective h = cc

in_range-magnitude :
    (lo hi : ℕ) (v : ℤ) → in_range lo hi v ≡ true → (lo ≤ magnitude v) × (magnitude v ≤ hi)
unfolding in_range magnitude
in_range-magnitude lo hi (pos n) h = ground arith
in_range-magnitude lo hi (negsuc n) h = absurd (cc)

is_positive-magnitude : (v : ℤ) → is_positive v ≡ true → 1 ≤ magnitude v
unfolding is_positive magnitude
is_positive-magnitude (pos n) h = ground arith
is_positive-magnitude (negsuc n) h = absurd (cc)

as_int-magnitude : (v : ℤ) → magnitude (as_int v) < 2 ^ 31
unfolding as_int magnitude
as_int-magnitude v = elim (Bool-cases (ltb (2 * wrap (2 ^ 32) v) (2 ^ 32))) [
  | inl low ↦ rw low (ground arith)
  | inr high ↦ rw high (omega arith)
]

-- A wait that is positive as an `int`.
abbrev pub IsWait : ℕ → Type 0
IsWait ms = (1 ≤ ms) × (ms < 2 ^ 31)

as_int-IsWait : (v : ℤ) → is_positive (as_int v) ≡ true → IsWait (magnitude (as_int v))
as_int-IsWait v h = (is_positive-magnitude (as_int v) h, as_int-magnitude v)

eight-parts :
    (a b c d e f g h : Bool)
    → (a && b && c && d && e && f && g && h) ≡ true
    → (a ≡ true)
      × (b ≡ true)
      × (c ≡ true)
      × (d ≡ true)
      × (e ≡ true)
      × (f ≡ true)
      × (g ≡ true)
      × (h ≡ true)
eight-parts a b c d e f g h all = ground arith

module _ (fp : FloatOps) where
  open fp use {Double, lt}

  -- The integers lie in the ranges of the gateway's fields, whose narrowing casts then change
  -- nothing; the waits are positive and fit an `int`; the least position does not compare as at or
  -- above the greatest; the hold velocity is one that
  -- `move_to` takes.
  pub record IsValid (s : Settings Double) : Type 0 where
    pub port : (1 ≤ s.gateway.port) × (s.gateway.port < 65536)
    pub unit : s.gateway.unit_id < 256
    pub input :
        (s.gateway.input_base_reg < 65536)
        × (1 ≤ s.gateway.input_word_count)
        × (s.gateway.input_word_count < 65536)
    pub output :
        (s.gateway.output_base_reg < 65536)
        × (1 ≤ s.gateway.output_word_count)
        × (s.gateway.output_word_count < 65536)
    pub status : (s.gateway.status_base_reg < 65536) × (s.gateway.status_word_count < 65536)
    pub address : s.drive.profibus_address ≤ 125
    pub periods :
        IsWait s.gateway.poll_interval_ms
        × IsWait s.gateway.timeout_ms
        × IsWait s.gateway.reconnect_ms
        × IsWait s.drive.step_timeout_ms
    pub limits : at_most fp s.drive.max_position s.drive.min_position ≡ false
    pub holds :
        (lt (nothing fp) s.hold_velocity_rpm ≡ true)
        × (lt s.drive.max_velocity_rpm s.hold_velocity_rpm ≡ false)

  module _ (p : Parameters Double) where
    registers_valid-parts :
        registers_valid p ≡ true
        → (in_range 1 65535 (as_int p.driver_port) ≡ true)
          × (in_range 0 255 (as_int p.driver_unit_id) ≡ true)
          × (in_range 0 65535 (as_int p.input_base_reg) ≡ true)
          × (in_range 1 65535 (as_int p.input_word_count) ≡ true)
          × (in_range 0 65535 (as_int p.output_base_reg) ≡ true)
          × (in_range 1 65535 (as_int p.output_word_count) ≡ true)
          × (in_range 0 65535 (as_int p.status_base_reg) ≡ true)
          × (in_range 0 65535 (as_int p.status_word_count) ≡ true)
    unfolding registers_valid
    registers_valid-parts h = eight-parts _ _ _ _ _ _ _ _ h

    periods_valid-parts :
        periods_valid p ≡ true
        → (is_positive (as_int p.poll_interval_ms) ≡ true)
          × (is_positive (as_int p.timeout_ms) ≡ true)
          × (is_positive (as_int p.reconnect_ms) ≡ true)
    unfolding periods_valid
    periods_valid-parts h = ground arith

    limits_invalid-parts :
        limits_invalid fp p ≡ false
        → (at_most fp (drive_config p).max_position (drive_config p).min_position ≡ false)
          × (is_positive (as_int p.step_timeout_ms) ≡ true)
    unfolding limits_invalid
    limits_invalid-parts h = ground arith

    -- Parameters that the constructor accepts give valid settings: every integer, as narrowed to
    -- an `int`, lies in the range of the field it goes to, the waits are positive and below 2 ^ 31,
    -- the greatest position does not compare as at most the least, and the hold velocity is one that `move_to` takes.
    pub configure-IsValid : {s : Settings Double} → configure fp p ≡ accepted s → IsValid s
    unfolding configure gateway_config drive_config
    configure-IsValid {s} h =
        let (_, h1) = refuse_if-accepted _ _ _ h in
        let (_, h2) = refuse_if-accepted _ _ _ h1 in
        let (_, h3) = refuse_if-accepted _ _ _ h2 in
        let (regs, h4) = refuse_if-accepted _ _ _ h3 in
        let (addr, h5) = refuse_if-accepted _ _ _ h4 in
        let (waits, h6) = refuse_if-accepted _ _ _ h5 in
        let (lims, h7) = refuse_if-accepted _ _ _ h6 in
        let (hold, h8) = refuse_if-accepted _ _ _ h7 in
        let (r1, r2, r3, r4, r5, r6, r7, r8) = registers_valid-parts (ground arith) in
        let (w1, w2, w3) = periods_valid-parts (ground arith) in
        let (l1, l2) = limits_invalid-parts lims in
        let a1 = in_range-magnitude 1 65535 (as_int p.driver_port) r1 in
        let a2 = in_range-magnitude 0 255 (as_int p.driver_unit_id) r2 in
        let a3 = in_range-magnitude 0 65535 (as_int p.input_base_reg) r3 in
        let a4 = in_range-magnitude 1 65535 (as_int p.input_word_count) r4 in
        let a5 = in_range-magnitude 0 65535 (as_int p.output_base_reg) r5 in
        let a6 = in_range-magnitude 1 65535 (as_int p.output_word_count) r6 in
        let a7 = in_range-magnitude 0 65535 (as_int p.status_base_reg) r7 in
        let a8 = in_range-magnitude 0 65535 (as_int p.status_word_count) r8 in
        let a9 = in_range-magnitude 0 125 (as_int p.profibus_address) (ground arith) in
        rw (← accepted-injective h8) (record {
          port = omega arith;
          unit = omega arith;
          input = omega arith;
          output = omega arith;
          status = omega arith;
          address = omega arith;
          periods = (
            as_int-IsWait p.poll_interval_ms w1,
            as_int-IsWait p.timeout_ms w2,
            as_int-IsWait p.reconnect_ms w3,
            as_int-IsWait p.step_timeout_ms l2,
          );
          limits = l1;
          holds = ground arith;
        })
