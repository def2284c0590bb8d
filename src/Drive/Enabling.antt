-- ===== src/Drive/Enabling.antt =====
-- How the commands end: `enable`, `move_to` and `disable`.
use ros2_wavemakers.Base.{
  >>=-eq-ok, Bool, Outcome, String, ap, arith, false, inl, inr, not, ok, ok-injective, pos, refl,
  test_bit, true, word, ℕ, ◌||◌, ◌∙◌, ◌≡◌,
}
use ros2_wavemakers.Drive.Commands.{
  abort_enable, enable, enable_follow, enable_step, enable_torque, move_to, park, write_tag,
}
use ros2_wavemakers.Drive.Control.{fail, set_control, wait_for}
use ros2_wavemakers.Drive.Status.{
  describe, following, in_operating_mode, position_deg, power_ready, slave_live, status_word,
  with_torque,
}
use ros2_wavemakers.Drive.Types.{Formats, IndraDrive, class1_error, operating_mode, tag_name}
use ros2_wavemakers.Drive.Waiting.{Reached, if_cases, wait_for-Reached}
use ros2_wavemakers.Driver.Staging.{write_int}
use ros2_wavemakers.Image.Types.{FloatOps}

module _ (fp : FloatOps) (fmt : Formats (fp.Double)) {C : Type 0}
    (elapse : IndraDrive (fp.Double) C → IndraDrive (fp.Double) C) where
  open fp use {Double, lt, decimal}

  -- The enabled flag was cleared and then the control word staged.
  abbrev pub Released : IndraDrive Double C → Type 0
  Released s' =
      (s0 : IndraDrive Double C) × (set_control fp fmt operating_mode
          (record s0 { enabled = false })
        ≡ ok s')

  set_control-enabled :
      (cw : ℕ) (s : IndraDrive Double C) {s' : IndraDrive Double C}
      → set_control fp fmt cw s ≡ ok s'
      → s'.enabled ≡ s.enabled
  unfolding set_control
  set_control-enabled cw s h =
      let (d, w, e) = >>=-eq-ok (write_int fp (tag_name s "ControlWord") (pos cw) s.driver) _ h in
      rw (← ok-injective e)

  -- What a step of `enable` may end as.
  pub record Stepped (good : Bool) (s' : IndraDrive Double C) : Type 0 where
    pub reached : good ≡ true → Reached fp fmt elapse following true s'
    pub released : good ≡ false → Released s' × (s'.enabled ≡ false)

  abort_enable-Stepped :
      (s : IndraDrive Double C) {good : Bool} {s' : IndraDrive Double C}
      → abort_enable fp fmt elapse s ≡ ok (good, s')
      → Stepped good s'
  unfolding abort_enable
  abort_enable-Stepped s {good} {s'} h =
      let s0 : IndraDrive Double C = record s { enabled = false } in
      let (s1, w, e) = >>=-eq-ok (set_control fp fmt operating_mode s0) _ h in
      let same : s1 ≡ s' = cc in
      let bad : good ≡ false = cc in
      record {
        reached = λ g. absurd (cc);
        released =
            λ _. let w' = rw same at w in ((s, w'), set_control-enabled operating_mode s0 w');
      }

  enable_step-Stepped :
      (what : String) (pred : ℕ → Bool)
      (next : IndraDrive Double C → Outcome (Bool × IndraDrive Double C)) (s : IndraDrive Double C)
      {good : Bool} {s' : IndraDrive Double C}
      → ((r : IndraDrive Double C)
          → Reached fp fmt elapse pred true r
          → next r ≡ ok (good, s')
          → Stepped good s')
      → enable_step fp fmt elapse what pred next s ≡ ok (good, s')
      → Stepped good s'
  unfolding enable_step
  enable_step-Stepped what pred next s follow h =
      let (w, waited, h1) =
        >>=-eq-ok (wait_for fp fmt elapse what s.cfg.step_timeout_ms pred true s) _ h in
      elim (if_cases (not w.0) _ _ h1) [
        | inl (bad, e) ↦ abort_enable-Stepped w.1 e
        | inr (good', e) ↦
            let true' : w.0 ≡ true = ground arith in
            let waited' : wait_for fp fmt elapse what s.cfg.step_timeout_ms pred true s
                ≡ ok (true, w.1) =
              waited ∙ ap (λ b. ok (b, w.1)) true' in
            follow w.1
              (wait_for-Reached fp fmt elapse what s.cfg.step_timeout_ms pred true s waited') e
      ]

  enable_follow-Stepped :
      (s : IndraDrive Double C) {good : Bool} {s' : IndraDrive Double C}
      → enable_follow fp fmt elapse s ≡ ok (good, s')
      → Stepped good s'
  unfolding enable_follow
  enable_follow-Stepped s {good} {s'} h =
      let (x, a, h1) = >>=-eq-ok (position_deg fp s) _ h in
      let (s1, b, h2) = >>=-eq-ok (write_tag fp fmt elapse "TargetPosition" x s) _ h1 in
      let (s2, c, h3) = >>=-eq-ok (set_control fp fmt _ s1) _ h2 in
      enable_step-Stepped _ following _ s2
        (λ r seen e.
          let same : r ≡ s' = cc in
          record { reached = λ _. rw (← same) seen; released = λ bad. absurd (cc) })
        h3

  enable_torque-Stepped :
      (s : IndraDrive Double C) {good : Bool} {s' : IndraDrive Double C}
      → enable_torque fp fmt elapse s ≡ ok (good, s')
      → Stepped good s'
  unfolding enable_torque
  enable_torque-Stepped s h =
      let (s1, c, h1) = >>=-eq-ok (set_control fp fmt _ _) _ h in
      enable_step-Stepped _ with_torque _ s1 (λ r seen e. enable_follow-Stepped r e) h1

  -- The ends of `enable`: a refusal before anything is staged, or the end of a step.
  pub data Enabled (s : IndraDrive Double C) : Bool → IndraDrive Double C → Type 0 where
    turned_away :
        (s' : IndraDrive Double C)
        → s'.driver ≡ s.driver
        → s'.enabled ≡ s.enabled
        → Enabled s false s'
    stepped : (good : Bool) (s' : IndraDrive Double C) → Stepped good s' → Enabled s good s'

  -- The answer of a command that fails with a message.
  fail-answer :
      (why : String) (s : IndraDrive Double C) {good : Bool} {s' : IndraDrive Double C}
      → fail fp fmt why s ≡ ok (good, s')
      → (good ≡ false) × (s'.driver ≡ s.driver) × (s'.enabled ≡ s.enabled)
  unfolding fail
  fail-answer why s {good} {s'} h =
      let same : record s { last_error = why } ≡ s' = cc in (cc, rw (← same), rw (← same))

  refusal :
      (why : String) (s s0 : IndraDrive Double C) {good : Bool} {s' : IndraDrive Double C}
      → s0.driver ≡ s.driver
      → s0.enabled ≡ s.enabled
      → fail fp fmt why s0 ≡ ok (good, s')
      → Enabled s good s'
  refusal why s s0 {good} {s'} d e h =
      let (bad, d', e') = fail-answer why s0 h in rw bad (turned_away s' (d' ∙ d) (e' ∙ e))

  -- Whatever the other threads do while it sleeps: if `enable` reports success, it ended online,
  -- with no abort and no fault, and with a status word that says the drive follows its command
  -- values. If it reports failure, either it staged nothing and left the enabled flag alone, or
  -- it cleared the enabled flag and then staged the control word without drive ON.
  pub enable-Enabled :
      (s : IndraDrive Double C) {good : Bool} {s' : IndraDrive Double C}
      → enable fp fmt elapse s ≡ ok (good, s')
      → Enabled s good s'
  unfolding enable
  enable-Enabled s {good} {s'} h = elim (if_cases (not s.driver.online) _ _ h) [
    | inl (off, e) ↦ refusal _ s s refl refl e
    | inr (on, h1) ↦ elim (if_cases (not (slave_live s)) _ _ h1) [
      | inl (dead, e) ↦ refusal _ s s refl refl e
      | inr (live, h2) ↦
          let s0 : IndraDrive Double C = record s { fault_reason = ""; fault = false } in
          let (sw, word, h3) = >>=-eq-ok (status_word fp s0) _ h2 in
          elim (if_cases (test_bit sw class1_error) _ _ h3) [
            | inl (bad, h4) ↦
                let (text, d, e) = >>=-eq-ok (describe fp fmt s0) _ h4 in refusal _ s s0 refl refl e
            | inr (fine, h4) ↦
                let (s1, a, h5) = >>=-eq-ok (park fp fmt elapse s0) _ h4 in
                let (s2, b, h6) = >>=-eq-ok (set_control fp fmt operating_mode s1) _ h5 in
                stepped good s' (
                  enable_step-Stepped _ in_operating_mode _ s2
                    (λ r seen e.
                      enable_step-Stepped _ power_ready _ r
                        (λ r' seen' e'. enable_torque-Stepped r' e') e)
                    h6)
          ]
    ]
  ]

  -- The target compares neither below the least nor above the greatest position, and the velocity is
  -- positive and compares not above the greatest; a target that is not a number compares so.
  pub record NotBeyond (position velocity : Double) (s : IndraDrive Double C) : Type 0 where
    pub above : lt position s.cfg.min_position ≡ false
    pub below : lt s.cfg.max_position position ≡ false
    pub moving : lt (decimal (pos 0) 0) velocity ≡ true
    pub slow : lt s.cfg.max_velocity_rpm velocity ≡ false

  -- The ends of `move_to`.
  pub data Moved (position velocity : Double) (s : IndraDrive Double C)
      : Bool → IndraDrive Double C → Type 0 where
    unmoved :
        (s' : IndraDrive Double C)
        → s'.driver ≡ s.driver
        → s'.enabled ≡ s.enabled
        → Moved position velocity s false s'
    moved :
        (s1 s' : IndraDrive Double C)
        → s.enabled ≡ true
        → s.fault ≡ false
        → NotBeyond position velocity s
        → write_tag fp fmt elapse "PosVelocity" velocity s ≡ ok s1
        → write_tag fp fmt elapse "TargetPosition" position s1 ≡ ok s'
        → Moved position velocity s true s'

  unmoved-fail :
      (why : String) (position velocity : Double) (s : IndraDrive Double C) {good : Bool}
      {s' : IndraDrive Double C}
      → fail fp fmt why s ≡ ok (good, s')
      → Moved position velocity s good s'
  unmoved-fail why position velocity s {good} {s'} h =
      let (bad, d, e) = fail-answer why s h in rw bad (unmoved s' d e)

  -- `move_to` stages either nothing, and reports failure, or the velocity and after it the
  -- target; the latter only on a drive that is enabled and without fault, for a target that does
  -- not compare as beyond the limits (one that is not a number does not either) and a velocity that
  -- is positive and does not compare as above its limit.
  pub move_to-Moved :
      (position velocity : Double) (s : IndraDrive Double C) {good : Bool}
      {s' : IndraDrive Double C}
      → move_to fp fmt elapse position velocity s ≡ ok (good, s')
      → Moved position velocity s good s'
  unfolding move_to
  move_to-Moved position velocity s {good} {s'} h =
      elim (if_cases (not s.enabled || s.fault) _ _ h) [
        | inl (off, e) ↦ unmoved-fail _ position velocity s e
        | inr (on, h1) ↦
            elim (if_cases (lt position s.cfg.min_position || lt s.cfg.max_position position) _ _
              h1) [
                | inl (out, e) ↦ unmoved-fail _ position velocity s e
                | inr (near, h2) ↦
                    elim (if_cases
                      (not (lt (decimal (pos 0) 0) velocity) || lt s.cfg.max_velocity_rpm velocity)
                      _ _ h2) [
                        | inl (fast, e) ↦ unmoved-fail _ position velocity s e
                        | inr (slow, h3) ↦
                            let (s1, a, h4) =
                              >>=-eq-ok (write_tag fp fmt elapse "PosVelocity" velocity s) _ h3 in
                            let (s2, b, h5) =
                              >>=-eq-ok (write_tag fp fmt elapse "TargetPosition" position s1) _
                                h4 in
                            let good' : good ≡ true = cc in
                            let same : s2 ≡ s' = cc in
                            rw good' (
                              moved s1 s' (ground arith) (ground arith)
                                (record {
                                  above = ground arith;
                                  below = ground arith;
                                  moving = ground arith;
                                  slow = ground arith;
                                })
                                a (rw same at b))
                      ]
              ]
      ]
