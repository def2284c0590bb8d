-- ===== src/Bridge/Answers.antt =====
-- The answers of the action server, and `start`, keep what holds of the flags.
use ros2_wavemakers.Base.{
  ==_iff, Bool, Option, String, arith, false, if-holds, inl, inr, none, not, pos, refl, some, sym,
  true, ℕ, ◌%◌, ◌&&◌, ◌+◌, ◌<◌, ◌==◌, ◌^◌, ◌||◌, ◌≡◌, ◌≢◌, ◌⊎◌,
}
use ros2_wavemakers.Bridge.Events.{take_response, take_result}
use ros2_wavemakers.Bridge.Goals.{
  goal_response, goal_result, heartbeat_alive, on_goal_response, on_goal_result, positive_finite,
  send_goal, start, stop, watch, watch_heartbeat,
}
use ros2_wavemakers.Bridge.Reports.{
  answer, finish_stop, idle_unless_inactive, publish_state, report,
}
use ros2_wavemakers.Bridge.Sound.{IsSound, IsSound-later, Sound, flags, next_generation, stop-Sound}
use ros2_wavemakers.Bridge.Types.{ResultCode, WavemakerBridge, emit, is_idle, is_moving, mark}
use ros2_wavemakers.Image.Types.{FloatOps}

pub mark-unset :
    (g g' : ℕ) (marks : ℕ → Bool) → mark g false marks g' ≡ true → (marks g' ≡ true) × (g' ≢ g)
mark-unset g g' marks h = ground arith

mark-set :
    (g g' : ℕ) (marks : ℕ → Bool) → mark g true marks g' ≡ true → (marks g' ≡ true) ⊎ (g' ≡ g)
mark-set g g' marks h = ground arith

module _ {D : Type 0} where
  on_goal_response-Sound :
      (n : ℕ) (s : WavemakerBridge D)
      → IsSound n (flags s)
      → ¬ (s.callbacks.responses s.goal_generation ≡ true)
      → (handle : Option ℕ) → Sound n (on_goal_response handle s)
  unfolding on_goal_response emit publish_state finish_stop answer idle_unless_inactive
  on_goal_response-Sound n s i gone none = record {
    counted = i.counted;
    past = i.past;
    owed = λ h. absurd (gone h);
    cancels = λ h. absurd (cc);
    timed = λ h. h;
    pending = λ h. absurd (cc);
    moving = ground arith;
    quiet = λ e h. absurd (cc);
  }
  on_goal_response-Sound n s i gone (some handle) =
      if-holds (Sound n) s.cancel_on_accept _ _
        (λ cancelled. record {
          counted = i.counted;
          past = i.past;
          owed = λ h. absurd (gone h);
          cancels = λ h. absurd (cc);
          timed = i.timed;
          pending = λ h. refl;
          moving = λ h. refl;
          quiet = λ e h. absurd (cc);
        })
        (λ fine. record {
          counted = i.counted;
          past = i.past;
          owed = λ h. absurd (gone h);
          cancels = λ h. absurd (cc);
          timed = i.timed;
          pending = λ h. refl;
          moving = λ h. refl;
          quiet = λ e h. absurd (cc);
        })

  take_response-Sound :
      (n g : ℕ) (taken : Bool) (s : WavemakerBridge D)
      → Sound n s
      → Sound n (take_response g taken s)
  take_response-Sound n g taken s i = record {
    counted = i.counted;
    past = λ g' h. i.past g' (mark-unset g g' s.callbacks.responses h).0;
    owed = λ h. i.owed (mark-unset g s.goal_generation s.callbacks.responses h).0;
    cancels = i.cancels;
    timed = i.timed;
    pending = i.pending;
    moving = i.moving;
    quiet = i.quiet;
  }

  -- Any answer to any goal, of a client that waits for it or not.
  pub goal_response-Sound :
      (n g : ℕ) (taken : Bool) (handle : Option ℕ) (s : WavemakerBridge D)
      → Sound n s
      → Sound n (goal_response g handle (take_response g taken s))
  unfolding goal_response emit
  goal_response-Sound n g taken none s i =
      let i' = take_response-Sound n g taken s i in
      if-holds (Sound n) (not (g == s.goal_generation)) _ _ (λ _. i')
        (λ same.
          on_goal_response-Sound n _ i'
            (λ h.
              (mark-unset g s.goal_generation s.callbacks.responses h).1
                (sym ((==_iff g s.goal_generation).0 (ground arith))))
            none)
  goal_response-Sound n g taken (some h) s i =
      let i' = take_response-Sound n g taken s i in
      if-holds (Sound n) (not (g == s.goal_generation)) _ _ (λ _. i')
        (λ same.
          on_goal_response-Sound n _ i'
            (λ h.
              (mark-unset g s.goal_generation s.callbacks.responses h).1
                (sym ((==_iff g s.goal_generation).0 (ground arith))))
            (some h))

  pub goal_result-Sound :
      (n g : ℕ) (code : ResultCode) (s : WavemakerBridge D)
      → Sound n s
      → Sound n (goal_result g code (take_result g s))
  unfolding goal_result on_goal_result publish_state finish_stop answer idle_unless_inactive
  goal_result-Sound n g code s i =
      if-holds (Sound n) (g == s.goal_generation) _ _
        (λ same. record {
          counted = i.counted;
          past = i.past;
          owed = i.owed;
          cancels = i.cancels;
          timed = λ h. h;
          pending = λ h. absurd (cc);
          moving = ground arith;
          quiet = ground (arith, i.quiet);
        })
        (λ other. i)

module _ (fp : FloatOps) (isfinite : fp.Double → Bool)
    (starting_text : fp.Double → fp.Double → String) where
  open fp use {Double, lt, decimal}

  -- What `start` asks for before it sends a goal.
  pub record Guards (ready : Bool) (s : WavemakerBridge Double) : Type 0 where
    pub at_rest : is_idle s.state ≡ true
    pub height : positive_finite fp isfinite starting_text s.height ≡ true
    pub period : positive_finite fp isfinite starting_text s.period ≡ true
    pub live : heartbeat_alive fp isfinite starting_text s ≡ true
    pub client : s.action_client ≡ true
    pub server : ready ≡ true

  -- What `start` may do: a report that changes nothing, or a goal.
  pub data Started (ready : Bool) (s : WavemakerBridge Double)
      : WavemakerBridge Double → Type 0 where
    refused : (text : String) → Started ready s (report text s)
    sent : Guards ready s → Started ready s (send_goal fp isfinite starting_text s)

  pub start-Started :
      (ready : Bool) (s : WavemakerBridge Double)
      → Started ready s (start fp isfinite starting_text ready s)
  unfolding start
  start-Started ready s =
      if-holds (Started ready s) (not (is_idle s.state)) _ _ (λ _. refused _)
        (λ at_rest.
          if-holds (Started ready s)
            (not (lt (decimal (pos 0) 0) s.height)
              || not (lt (decimal (pos 0) 0) s.period)
              || not (isfinite s.height)
              || not (isfinite s.period))
            _ _ (λ _. refused _)
            (λ fine.
              if-holds (Started ready s) (not (heartbeat_alive fp isfinite starting_text s)) _ _
                (λ _. refused _)
                (λ live.
                  if-holds (Started ready s) (not s.action_client || not ready) _ _ (λ _. refused _)
                    (λ there. sent (record {
                      at_rest = ground arith;
                      height = ground arith;
                      period = ground arith;
                      live = ground arith;
                      client = ground arith;
                      server = ground arith;
                    })))))

  send_goal-Sound :
      (n : ℕ) (s : WavemakerBridge Double)
      → n + 1 < 2 ^ 64
      → Sound n s
      → Sound (n + 1) (send_goal fp isfinite starting_text s)
  unfolding send_goal emit publish_state
  send_goal-Sound n s few i =
      let next = next_generation n s few i in
      record {
        counted = rw next (omega (arith, i.counted));
        past = λ g h. elim (mark-set _ g s.callbacks.responses h) [
          | inl old ↦ omega (arith, next, i.past g old)
          | inr new ↦ omega arith
        ];
        owed = λ h. refl;
        cancels = λ h. refl;
        timed = i.timed;
        pending = λ h. refl;
        moving = λ h. refl;
        quiet = λ e h. absurd (cc);
      }

  Started-Sound :
      (n : ℕ) (ready : Bool) (s : WavemakerBridge Double) {t : WavemakerBridge Double}
      → n + 1 < 2 ^ 64
      → Sound n s
      → Started ready s t
      → Sound (n + 1) t
  unfolding report publish_state
  Started-Sound n ready s few i (refused text) = IsSound-later i
  Started-Sound n ready s few i (sent guards) = send_goal-Sound n s few i

  pub start-Sound :
      (n : ℕ) (ready : Bool) (s : WavemakerBridge Double)
      → n + 1 < 2 ^ 64
      → Sound n s
      → Sound (n + 1) (start fp isfinite starting_text ready s)
  start-Sound n ready s few i = Started-Sound n ready s few i (start-Started ready s)

  watch_heartbeat-Sound :
      (n : ℕ) (ready : Bool) (s : WavemakerBridge Double)
      → n + 1 < 2 ^ 64
      → Sound n s
      → Sound (n + 1) (watch_heartbeat fp isfinite starting_text ready s)
  unfolding watch_heartbeat
  watch_heartbeat-Sound n ready s few i =
      if-holds (Sound (n + 1))
        (is_moving s.state && not (heartbeat_alive fp isfinite starting_text s))
        (stop "Stopped: client heartbeat (LabVIEW or web page) lost" none ready s) s
        (λ _. stop-Sound n _ none ready s few i) (λ _. IsSound-later i)

  pub watch-Sound :
      (n : ℕ) (ready : Bool) (s : WavemakerBridge Double)
      → n + 1 < 2 ^ 64
      → Sound n s
      → Sound (n + 1) (watch fp isfinite starting_text ready s)
  unfolding watch publish_state
  watch-Sound n ready s few i =
      let before = watch_heartbeat-Sound n ready s few i in
      let s1 = watch_heartbeat fp isfinite starting_text ready s in
      let s2 : WavemakerBridge Double = record s1 { watch_ticks = (s1.watch_ticks + 1) % 2 ^ 32 } in
      if-holds (Sound (n + 1)) (s2.watch_ticks % 10 == 0)
        (publish_state s2.state s2.last_message s2) s2 (λ _. before) (λ _. before)
