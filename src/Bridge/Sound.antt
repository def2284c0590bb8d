-- ===== src/Bridge/Sound.antt =====
-- What holds between the goal's flags, the timer and the callbacks of the client.
use ros2_wavemakers.Base.{
  Bool, Bool-cases, Option, String, arith, false, if-holds, if◌then◌else◌, inl, inr, is_some, not,
  true, ℕ, ◌%◌, ◌+◌, ◌<◌, ◌^◌, ◌||◌, ◌≡◌, ◌≤◌,
}
use ros2_wavemakers.Bridge.Goals.{has_goal, keep_request, stop}
use ros2_wavemakers.Bridge.Reports.{
  abandon_goal, answer, finish_stop, idle_unless_inactive, publish_state, report,
}
use ros2_wavemakers.Bridge.Types.{State, WavemakerBridge, emit, is_inactive, is_moving, stopping}

-- The part of the state that the invariant is about.
pub record Flags : Type 0 where
  pub responses : ℕ → Bool
  pub goal_handle : Option ℕ
  pub goal_requested : Bool
  pub cancel_on_accept : Bool
  pub goal_generation : ℕ
  pub stop_done : Option ℕ
  pub stop_timeout : Option ℕ
  pub state : State

-- `n` bounds the number of goals that were counted.
pub record IsSound (n : ℕ) (f : Flags) : Type 0 where
  pub counted : f.goal_generation ≤ n
  pub past : (g : ℕ) → f.responses g ≡ true → g ≤ f.goal_generation
  pub owed : f.responses f.goal_generation ≡ true → f.goal_requested ≡ true
  pub cancels : f.cancel_on_accept ≡ true → f.goal_requested ≡ true
  pub timed : is_some f.stop_done ≡ true → is_some f.stop_timeout ≡ true
  pub pending : is_some f.stop_timeout ≡ true → (f.goal_requested || is_some f.goal_handle) ≡ true
  pub moving : is_moving f.state ≡ true → (f.goal_requested || is_some f.goal_handle) ≡ true
  pub quiet : is_inactive f.state ≡ true → f.goal_requested ≡ true → f.cancel_on_accept ≡ true

pub IsSound-later : {n : ℕ} {f : Flags} → IsSound n f → IsSound (n + 1) f
IsSound-later i = record {
  counted = omega (arith, i.counted);
  past = i.past;
  owed = i.owed;
  cancels = i.cancels;
  timed = i.timed;
  pending = i.pending;
  moving = i.moving;
  quiet = i.quiet;
}

module _ {D : Type 0} where
  abbrev pub flags : WavemakerBridge D → Flags
  flags s = record {
    responses = s.callbacks.responses;
    goal_handle = s.goal_handle;
    goal_requested = s.goal_requested;
    cancel_on_accept = s.cancel_on_accept;
    goal_generation = s.goal_generation;
    stop_done = s.stop_done;
    stop_timeout = s.stop_timeout;
    state = s.state;
  }

  abbrev pub Sound : ℕ → WavemakerBridge D → Type 0
  Sound n s = IsSound n (flags s)

  abbrev pub Cancels : WavemakerBridge D → Type 0
  Cancels s = s.goal_requested ≡ true → s.cancel_on_accept ≡ true

  pub publish-Sound :
      (n : ℕ) (state : State) (text : String) (s : WavemakerBridge D)
      → Sound n s
      → (is_moving state ≡ true → has_goal s ≡ true)
      → (is_inactive state ≡ true → Cancels s)
      → Sound n (publish_state state text s)
  unfolding publish_state
  publish-Sound n state text s i moves quiets = record {
    counted = i.counted;
    past = i.past;
    owed = i.owed;
    cancels = i.cancels;
    timed = i.timed;
    pending = i.pending;
    moving = moves;
    quiet = quiets;
  }

  pub finish_stop-Sound :
      (n : ℕ) (good : Bool) (text : String) (s : WavemakerBridge D)
      → Sound n s
      → Sound n (finish_stop good text s)
  unfolding finish_stop answer
  finish_stop-Sound n good text s i = record {
    counted = i.counted;
    past = i.past;
    owed = i.owed;
    cancels = i.cancels;
    timed = λ h. h;
    pending = λ h. absurd (cc);
    moving = i.moving;
    quiet = i.quiet;
  }

  not_past :
      (n : ℕ) (s : WavemakerBridge D)
      → Sound n s
      → s.callbacks.responses (s.goal_generation + 1) ≡ false
  not_past n s i = elim (Bool-cases (s.callbacks.responses (s.goal_generation + 1))) [
    | inl h ↦ absurd (omega (arith, i.past (s.goal_generation + 1) h))
    | inr h ↦ h
  ]

  pub next_generation :
      (n : ℕ) (s : WavemakerBridge D)
      → n + 1 < 2 ^ 64
      → Sound n s
      → (s.goal_generation + 1) % 2 ^ 64 ≡ s.goal_generation + 1
  next_generation n s few i = omega (arith, i.counted)

  pub idle_unless_inactive-moving :
      (s : WavemakerBridge D) → is_moving (idle_unless_inactive s) ≡ false
  unfolding idle_unless_inactive
  idle_unless_inactive-moving s = ground arith

  pub abandon_goal-Sound :
      (n : ℕ) (reason : String) (s : WavemakerBridge D)
      → n + 1 < 2 ^ 64
      → Sound n s
      → Sound (n + 1) (abandon_goal reason s)
  unfolding abandon_goal finish_stop answer publish_state idle_unless_inactive
  abandon_goal-Sound n reason s few i =
      let next = next_generation n s few i in
      record {
        counted = rw next (omega (arith, i.counted));
        past = λ g h. omega (arith, i.past g h, next);
        owed = rw next (λ h. absurd (let fresh = not_past n s i in cc));
        cancels = λ h. absurd (cc);
        timed = λ h. h;
        pending = λ h. absurd (cc);
        moving = λ h. ground arith;
        quiet = λ e h. absurd (cc);
      }

  -- The beginning of `stop`.
  begun-Sound :
      (n : ℕ) (reason : String) (asked : Option ℕ) (s : WavemakerBridge D)
      → Sound n s
      → has_goal s ≡ true
      → Sound n (
          keep_request asked (
            publish_state stopping reason (record s {
              cancel_on_accept = if s.goal_requested then true else s.cancel_on_accept;
            })))
  unfolding keep_request publish_state
  begun-Sound n reason asked s i ours = record {
    counted = i.counted;
    past = i.past;
    owed = i.owed;
    cancels = ground arith;
    timed = ground arith;
    pending = ground arith;
    moving = ground arith;
    quiet = ground arith;
  }

  begun-none :
      (n : ℕ) (s : WavemakerBridge D)
      → Sound n s
      → has_goal s ≡ false
      → Sound n
          (record s { cancel_on_accept = if s.goal_requested then true else s.cancel_on_accept })
  begun-none n s i ours = record {
    counted = i.counted;
    past = i.past;
    owed = i.owed;
    cancels = ground (arith, i.cancels);
    timed = i.timed;
    pending = i.pending;
    moving = i.moving;
    quiet = ground (arith, i.quiet);
  }

  pub stop-Sound :
      (n : ℕ) (reason : String) (asked : Option ℕ) (ready : Bool) (s : WavemakerBridge D)
      → n + 1 < 2 ^ 64
      → Sound n s
      → Sound (n + 1) (stop reason asked ready s)
  unfolding stop emit answer report publish_state keep_request
  stop-Sound n reason asked ready s few i = elim (Bool-cases (has_goal s)) [
    | inl ours ↦
        let b = begun-Sound n reason asked s i ours in
        rw ours (
          if-holds (Sound (n + 1)) (not s.action_client || not ready) _ _
            (λ _. abandon_goal-Sound n _ _ few b) (λ _. IsSound-later b))
    | inr none_ours ↦
        let b = IsSound-later (begun-none n s i none_ours) in
        rw none_ours
          (if-holds (Sound (n + 1)) (not s.action_client || not ready) _ _ (λ _. b) (λ _. b))
  ]
