-- ===== src/Bridge/Replies.antt =====
-- The replies to the calls of the stop service, and what a deactivation leaves for the next goal.
use ros2_wavemakers.Base.{
  ==_iff, Bool, List, Option-cases, String, [], ap, arith, false, if◌then◌else◌, inl, inr, none,
  refl, some, true, ℕ, ◌%◌, ◌+◌, ◌<◌, ◌==◌, ◌^◌, ◌∙◌, ◌∷◌, ◌≡◌, ◌≤◌,
}
use ros2_wavemakers.Bridge.Answers.{Guards}
use ros2_wavemakers.Bridge.Events.{Phase, Reach, configured, passes, take_response, times_out, Step}
use ros2_wavemakers.Bridge.Goals.{
  goal_response, has_goal, keep_request, on_goal_response, send_goal, start, stop,
}
use ros2_wavemakers.Bridge.Invariant.{Reach-Held}
use ros2_wavemakers.Bridge.Lifecycle.{on_activate, stop_request}
use ros2_wavemakers.Bridge.Reports.{abandon_goal, answer, finish_stop, publish_state}
use ros2_wavemakers.Bridge.Sound.{Sound}
use ros2_wavemakers.Bridge.Types.{
  Effect, State, WavemakerBridge, emit, goal_cancelled, replied, starting,
}
use ros2_wavemakers.Image.Types.{FloatOps}

-- How often the call was answered.
unfoldable pub answers : {D : Type 0} → ℕ → List (Effect D) → ℕ
answers request [] = 0
answers request (replied r good text ∷ es) =
    let rest = answers request es in if r == request then rest + 1 else rest
answers request (_ ∷ es) = answers request es

module _ {D : Type 0} where
  answers-publish :
      (r : ℕ) (state : State) (text : String) (s : WavemakerBridge D)
      → answers r (publish_state state text s).effects ≡ answers r s.effects
  unfolding answers publish_state
  answers-publish r state text s = ground arith

  answers-finish :
      (r : ℕ) (good : Bool) (text : String) (s : WavemakerBridge D)
      → s.stop_done ≡ some r
      → answers r (finish_stop good text s).effects ≡ answers r s.effects + 1
  unfolding answers finish_stop answer
  answers-finish r good text s h = rw h (ground arith)

  abandon_goal-answers :
      (r : ℕ) (reason : String) (s : WavemakerBridge D)
      → s.stop_done ≡ some r
      → answers r (abandon_goal reason s).effects ≡ answers r s.effects + 1
  unfolding abandon_goal publish_state
  abandon_goal-answers r reason s h =
      let s1 : WavemakerBridge D = record s {
        goal_generation = (s.goal_generation + 1) % 2 ^ 64;
        goal_handle = none;
        goal_requested = false;
        cancel_on_accept = false;
      } in
      answers-finish r false _ (publish_state _ _ s1) h ∙ ap (λ x. x + 1) (answers-publish r _ _ s1)

  abandon_goal-done :
      (reason : String) (s : WavemakerBridge D) → (abandon_goal reason s).stop_done ≡ none
  unfolding abandon_goal finish_stop answer
  abandon_goal-done reason s = refl

  waits_until :
      {n : ℕ} {r : ℕ} (s : WavemakerBridge D)
      → Sound n s
      → s.stop_done ≡ some r
      → (due : ℕ) × (s.stop_timeout ≡ some due)
  waits_until s i h = elim (Option-cases s.stop_timeout) [
    | inl e ↦ absurd (let armed = i.timed in ground (arith, i.timed))
    | inr x ↦ x
  ]

  -- A second call of the service before the first is answered, while a goal runs and the client is
  -- there: the first call is forgotten without an answer, and only the second is kept.
  pub stop_request-forgets :
      (first second : ℕ) (s : WavemakerBridge D)
      → s.stop_done ≡ some first
      → has_goal s ≡ true
      → s.action_client ≡ true
      → let t = stop_request second true s in
        (t.stop_done ≡ some second) × (answers first t.effects ≡ answers first s.effects)
  unfolding stop_request stop emit keep_request answers publish_state
  stop_request-forgets first second s h ours client = rw (ours, client) (refl, ground arith)

module _ (fp : FloatOps) (isfinite : fp.Double → Bool)
    (starting_text : fp.Double → fp.Double → String) where
  open fp use {Double}

  -- In every reachable state with a call that waits for its answer the timer is armed, and two steps
  -- that can follow answer the call once, after which none waits: time passes until the timer is due,
  -- and the timer runs out.
  pub Reach-answers :
      {n : ℕ} {p : Phase} {s : WavemakerBridge Double} (r : ℕ)
      → n < 2 ^ 64
      → Reach fp isfinite starting_text n p s
      → s.stop_done ≡ some r
      → (due : ℕ) × (s.stop_timeout ≡ some due)
        × (u t : WavemakerBridge Double) × Step fp isfinite starting_text p s p u
        × (due ≤ u.now)
        × Step fp isfinite starting_text p u p t
        × (answers r t.effects ≡ answers r s.effects + 1)
        × (t.stop_done ≡ none)
  Reach-answers {n} {p} {s} r few path h =
      let (due, e) = waits_until s (Reach-Held fp isfinite starting_text few path).sound h in
      let s1 : WavemakerBridge Double = record s { now = s.now + due } in
      let t = abandon_goal "No result from the controller" s1 in
      (
        due,
        e,
        s1,
        t,
        passes due,
        omega arith,
        times_out due e (omega arith),
        abandon_goal-answers r "No result from the controller" s1 h,
        abandon_goal-done _ s1,
      )

  start-sent :
      (s : WavemakerBridge Double)
      → Guards fp isfinite starting_text true s
      → start fp isfinite starting_text true s ≡ send_goal fp isfinite starting_text s
  unfolding start
  start-sent s guards =
      rw (guards.live, guards.client, guards.at_rest) (ground (arith, guards.height, guards.period))

  -- A bridge that was deactivated while a goal waited for its answer and is activated again before
  -- that answer came: a goal that is then sent, before anything else happens, is cancelled when the
  -- controller accepts it next, and the state does not become running.
  pub reactivated-cancels :
      {n : ℕ} {s : WavemakerBridge Double} (bond heartbeat : Double)
      → n < 2 ^ 64
      → Reach fp isfinite starting_text n configured s
      → s.goal_requested ≡ true
      → let t = on_activate bond heartbeat s in
        Guards fp isfinite starting_text true t
        → let u = start fp isfinite starting_text true t in
          let g = u.goal_generation in
          let v = goal_response g (some g) (take_response g true u) in
          (v.effects ≡ goal_cancelled g ∷ u.effects) × (v.state ≡ starting)
  unfolding goal_response on_goal_response on_activate emit publish_state send_goal
  reactivated-cancels {s = s} bond heartbeat few path requested guards =
      let i = Reach-Held fp isfinite starting_text few path in
      let flag = i.sound.quiet (i.off refl) requested in
      let g = (s.goal_generation + 1) % 2 ^ 64 in
      rw (start-sent (on_activate bond heartbeat s) guards)
        (rw ((==_iff g g).1 refl, flag) (refl, refl))
