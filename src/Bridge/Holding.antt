-- ===== src/Bridge/Holding.antt =====
-- The invariant of the bridge, and the lifecycle transitions that keep it.
use ros2_wavemakers.Base.{
  Bool, Bool-cases, String, arith, false, inl, inr, none, refl, true, ℕ, ◌+◌, ◌<◌, ◌^◌, ◌∙◌, ◌≡◌,
}
use ros2_wavemakers.Bridge.Events.{Phase, active, configured, is_active, unconfigured}
use ros2_wavemakers.Bridge.Goals.{has_goal, stop}
use ros2_wavemakers.Bridge.Lifecycle.{
  break_bond, cleanup_helper, on_activate, on_cleanup, on_configure,
}
use ros2_wavemakers.Bridge.Phases.{stop-Cancels}
use ros2_wavemakers.Bridge.Reports.{answer, finish_stop, publish_state}
use ros2_wavemakers.Bridge.Sound.{
  Cancels, IsSound-later, Sound, finish_stop-Sound, publish-Sound, stop-Sound,
}
use ros2_wavemakers.Bridge.Types.{
  Inputs, State, WavemakerBridge, all_inputs, emit, idle, inactive, is_inactive, is_moving,
  no_callbacks,
}

module _ {D : Type 0} where
  pub record Held (n : ℕ) (p : Phase) (s : WavemakerBridge D) : Type 0 where
    pub sound : Sound n s
    pub on : is_active p ≡ true → is_inactive s.state ≡ false
    pub off : is_active p ≡ false → is_inactive s.state ≡ true
    pub bare : is_active p ≡ false → s.inputs ≡ all_inputs false

  -- A step that leaves the phase, the inputs and the state's activity.
  pub still :
      {n : ℕ} {p : Phase} {s t : WavemakerBridge D}
      → Held n p s
      → Sound (n + 1) t
      → is_inactive t.state ≡ is_inactive s.state
      → t.inputs ≡ s.inputs
      → Held (n + 1) p t
  still i sound same inputs = record {
    sound = sound;
    on = λ h. same ∙ i.on h;
    off = λ h. same ∙ i.off h;
    bare = λ h. inputs ∙ i.bare h;
  }

  -- A step of what is there only in the active phase.
  pub busy :
      {n : ℕ} {p : Phase} {s t : WavemakerBridge D}
      → Held n p s
      → (b : Inputs → Bool) → b (all_inputs false) ≡ false
      → b s.inputs ≡ true
      → Sound (n + 1) t
      → (is_inactive s.state ≡ false → is_inactive t.state ≡ false)
      → Held (n + 1) p t
  busy {p} i b without present sound lively = elim (Bool-cases (is_active p)) [
    | inl on ↦ record {
      sound = sound;
      on = λ _. lively (i.on on);
      off = λ h. absurd (cc);
      bare = λ h. absurd (cc);
    }
    | inr off ↦ absurd (let e = i.bare off in cc)
  ]

  pub cleanup_helper-Held :
      (n : ℕ) (q : Phase) (reason : String) (ready : Bool) (s : WavemakerBridge D)
      → n + 1 < 2 ^ 64
      → is_active q ≡ false
      → Sound n s
      → Held (n + 1) q (cleanup_helper reason ready s)
  unfolding cleanup_helper break_bond publish_state finish_stop answer
  cleanup_helper-Held n q reason ready s few off i =
      let s1 = stop reason none ready s in
      let s2 = finish_stop false "Bridge is no longer active" s1 in
      let stopped : Sound (n + 1) s2 =
        finish_stop-Sound (n + 1) false "Bridge is no longer active" s1
          (stop-Sound n reason none ready s few i) in
      record {
        sound =
            publish-Sound (n + 1) inactive reason s2 stopped (λ h. absurd (cc))
              (λ _. stop-Cancels reason none ready s);
        on = λ h. absurd (cc);
        off = λ _. refl;
        bare = λ _. refl;
      }

  no_responses :
      {n : ℕ} (s : WavemakerBridge D) (state : State)
      → Sound n s
      → (is_moving state ≡ true → has_goal s ≡ true)
      → (is_inactive state ≡ true → Cancels s)
      → Sound (n + 1) (record s { state = state; callbacks = no_callbacks })
  no_responses s state i moves quiets = record {
    counted = omega (arith, i.counted);
    past = λ g h. absurd (cc);
    owed = λ h. absurd (cc);
    cancels = i.cancels;
    timed = i.timed;
    pending = i.pending;
    moving = moves;
    quiet = quiets;
  }

  pub on_configure-Held :
      {n : ℕ} {p : Phase} {s : WavemakerBridge D}
      → p ≡ unconfigured
      → Held n p s
      → Held (n + 1) configured (on_configure s)
  unfolding on_configure publish_state
  on_configure-Held {p = p} {s = s} e i =
      let off : is_active p ≡ false = rw e refl in
      record {
        sound = no_responses s inactive i.sound (λ h. absurd (cc)) (λ _. i.sound.quiet (i.off off));
        on = λ h. absurd (cc);
        off = λ _. refl;
        bare = λ _. i.bare off;
      }

  pub on_cleanup-Held :
      {n : ℕ} {p : Phase} {s : WavemakerBridge D}
      → p ≡ configured
      → Held n p s
      → Held (n + 1) unconfigured (on_cleanup s)
  unfolding on_cleanup
  on_cleanup-Held {p = p} {s = s} e i =
      let off : is_active p ≡ false = rw e refl in
      record {
        sound = no_responses s s.state i.sound i.sound.moving i.sound.quiet;
        on = λ h. absurd (cc);
        off = λ _. i.off off;
        bare = λ _. i.bare off;
      }

  pub on_activate-Held :
      {n : ℕ} {p : Phase} {s : WavemakerBridge D} (bond heartbeat : D)
      → Held n p s
      → Held (n + 1) active (on_activate bond heartbeat s)
  unfolding on_activate emit publish_state
  on_activate-Held {n} {s = s} bond heartbeat i = record {
    sound =
        publish-Sound (n + 1) idle "ready" s (IsSound-later i.sound) (λ h. absurd (cc))
          (λ h. absurd (cc));
    on = λ _. refl;
    off = λ h. absurd (cc);
    bare = λ h. absurd (cc);
  }
