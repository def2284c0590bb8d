-- ===== src/Bridge/Phases.antt =====
-- What the answers and the stops leave of the phase and of the subscriptions.
use ros2_wavemakers.Base.{
  ==_iff, Bool, Bool-cases, Option, String, arith, false, if◌then◌else◌, inl, inr, none, refl, some,
  true, ℕ, ◌+◌, ◌==◌, ◌≡◌,
}
use ros2_wavemakers.Bridge.Events.{take_response, take_result}
use ros2_wavemakers.Bridge.Goals.{
  cancel_response, goal_response, goal_result, keep_request, on_goal_response, on_goal_result, stop,
}
use ros2_wavemakers.Bridge.Reports.{
  abandon_goal, answer, finish_stop, idle_unless_inactive, publish_state, report,
}
use ros2_wavemakers.Bridge.Sound.{Cancels, IsSound-later, Sound}
use ros2_wavemakers.Bridge.Types.{ResultCode, WavemakerBridge, emit, is_inactive}

module _ {D : Type 0} where
  pub stop-Cancels :
      (reason : String) (asked : Option ℕ) (ready : Bool) (s : WavemakerBridge D)
      → Cancels (stop reason asked ready s)
  unfolding stop emit answer report publish_state keep_request abandon_goal finish_stop
  stop-Cancels reason asked ready s = λ h. ground arith

  pub stop-active :
      (reason : String) (asked : Option ℕ) (ready : Bool) (s : WavemakerBridge D)
      → is_inactive s.state ≡ false
      → is_inactive (stop reason asked ready s).state ≡ false
  unfolding stop emit answer report publish_state keep_request abandon_goal finish_stop
      idle_unless_inactive
  stop-active reason asked ready s on = ground arith

  pub abandon_goal-phase :
      (reason : String) (s : WavemakerBridge D)
      → is_inactive (abandon_goal reason s).state ≡ is_inactive s.state
  unfolding publish_state abandon_goal finish_stop idle_unless_inactive answer
  abandon_goal-phase reason s = ground arith

  pub goal_result-phase :
      (g : ℕ) (code : ResultCode) (s : WavemakerBridge D)
      → is_inactive (goal_result g code (take_result g s)).state ≡ is_inactive s.state
  unfolding goal_result on_goal_result publish_state finish_stop answer idle_unless_inactive
  goal_result-phase g code s = ground arith

  pub goal_response-phase :
      (n g : ℕ) (taken : Bool) (s : WavemakerBridge D)
      → Sound n s
      → s.callbacks.responses g ≡ true
      → is_inactive
          (goal_response g (if taken then some g else none) (take_response g taken s)).state
        ≡ is_inactive s.state
  unfolding goal_response on_goal_response emit publish_state finish_stop answer
      idle_unless_inactive
  goal_response-phase n g taken s i waits = elim (Bool-cases (g == s.goal_generation)) [
    | inl same ↦
        let e = (==_iff g s.goal_generation).0 same in
        let req = i.owed (rw (← e) waits) in ground (arith, i.quiet, req)
    | inr other ↦ ground arith
  ]

  pub goal_response-inputs :
      (g : ℕ) (handle : Option ℕ) (s : WavemakerBridge D)
      → (goal_response g handle s).inputs ≡ s.inputs
  unfolding goal_response on_goal_response emit publish_state finish_stop answer
  goal_response-inputs g handle s = ground arith

  pub abandon_goal-inputs :
      (reason : String) (s : WavemakerBridge D) → (abandon_goal reason s).inputs ≡ s.inputs
  unfolding publish_state abandon_goal finish_stop answer
  abandon_goal-inputs reason s = refl

  pub goal_result-inputs :
      (g : ℕ) (code : ResultCode) (s : WavemakerBridge D)
      → (goal_result g code (take_result g s)).inputs ≡ s.inputs
  unfolding goal_result on_goal_result publish_state finish_stop answer
  goal_result-inputs g code s = ground arith

  pub cancel_response-Sound :
      (n : ℕ) (asked : Option ℕ) (ours good : Bool) (canceling : ℕ) (s : WavemakerBridge D)
      → Sound n s
      → Sound (n + 1) (cancel_response asked ours good canceling s)
  unfolding cancel_response answer
  cancel_response-Sound n asked true good canceling s i = IsSound-later i
  cancel_response-Sound n asked false good canceling s i = IsSound-later i

  pub cancel_response-phase :
      (asked : Option ℕ) (ours good : Bool) (canceling : ℕ) (s : WavemakerBridge D)
      → let t = cancel_response asked ours good canceling s in
        (is_inactive t.state ≡ is_inactive s.state) × (t.inputs ≡ s.inputs)
  unfolding cancel_response answer
  cancel_response-phase asked true good canceling s = (refl, refl)
  cancel_response-phase asked false good canceling s = (refl, refl)
  -- The state is inactive, and nothing of what activation creates is there, exactly outside the
