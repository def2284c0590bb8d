-- ===== src/Node/Claims.antt =====
-- A goal and a return to upright exclude each other. The regions under `goal_mutex_` are the steps, in
-- any order of the threads that run them.
use ros2_wavemakers.Base.{
  Bool, Bool-cases, Outcome-cases, ap, ap₂, arith, err, false, if◌then◌else◌, inl, inr, is_some, ok,
  refl, sym, true, ℕ, ◌||◌, ◌∙◌, ◌≡◌, ◌⊎◌,
}
use ros2_wavemakers.Image.Types.{FloatOps}
use ros2_wavemakers.Node.Activity.{abort_active_goal-rest}
use ros2_wavemakers.Node.Execute.{abort_active_goal, release_handle}
use ros2_wavemakers.Node.Goals.{
  accept_peak_velocity, active_in, goal_active, goal_callback, prepare_from, prepare_goal,
  prepare_positions, prepare_pregenerated, prepare_wave,
}
use ros2_wavemakers.Node.Types.{
  Goal, NodeEffect, NodeEnv, Tried, WavemakerNode, and_then, finish_goal,
}
use ros2_wavemakers.Node.Upright.{upright_refusal}
use ros2_wavemakers.Node.Workers.{claim_return, take_goal}

module _ (fp : FloatOps) {A : Type 0} (env : NodeEnv fp A) where
  open fp use {Double, sub, fabs}
  open env use {analysis, ops}

  -- At most one of: a goal that was accepted and is not taken yet, an active goal, a return.
  pub record Exclusive (n : WavemakerNode Double A) : Type 0 where
    pub pending_alone :
        n.goal_pending ≡ true → (n.returning_to_upright ≡ false) × (goal_active fp env n ≡ false)
    pub return_alone :
        n.returning_to_upright ≡ true → (n.goal_pending ≡ false) × (goal_active fp env n ≡ false)

  -- Any region can run at any time, and so can what leaves the claims alone.
  pub data Region (n : WavemakerNode Double A) : WavemakerNode Double A → Type 0 where
    asks :
        (goal : Goal Double) (good : Bool) {n' : WavemakerNode Double A}
        → goal_callback fp env goal n ≡ (ok good, n')
        → Region n n'
    takes : (g : ℕ) → Region n (take_goal fp env g n)
    claims : (tolerance : Double) → Region n (claim_return fp env tolerance n).1
    returned : Region n (record n { returning_to_upright = false })
    lets_go : (g : ℕ) → Region n (release_handle fp env g n)
    finishes : (g : ℕ) (e : NodeEffect Double) → Region n (finish_goal g e n)
    stops_all : Region n (abort_active_goal fp env (record n { accepting_goals = false }))
    opens : Region n (record n { accepting_goals = true })
    closes : Region n (record n { accepting_goals = false })
    leaves :
        {n' : WavemakerNode Double A}
        → n'.goal_pending ≡ n.goal_pending
        → n'.returning_to_upright ≡ n.returning_to_upright
        → n'.goal_handle ≡ n.goal_handle
        → n'.goals ≡ n.goals
        → Region n n'

  -- A goal is taken while it is pending, or after the node stopped accepting goals.
  abbrev Timely : {n n' : WavemakerNode Double A} → Region n n' → Type 0
  Timely {n} (takes g) = (n.goal_pending ≡ true) ⊎ (n.accepting_goals ≡ false)
  Timely r = Unit

  pub data Regions (n0 : WavemakerNode Double A) : WavemakerNode Double A → Type 0 where
    begins : Regions n0 n0
    follows : {n n' : WavemakerNode Double A} → Regions n0 n → Region n n' → Regions n0 n'

  -- Every goal of the run is taken timely.
  abbrev pub InTime : {n0 n : WavemakerNode Double A} → Regions n0 n → Type 0
  InTime begins = Unit
  InTime (follows run step) = InTime run × Timely step

  prepare_from-frame :
      (origin : Double) (goal : Goal Double) (n : WavemakerNode Double A)
      → let n' = (prepare_from fp env origin goal n).1 in
        (n'.goal_pending ≡ n.goal_pending)
        × (n'.returning_to_upright ≡ n.returning_to_upright)
        × (goal_active fp env n' ≡ goal_active fp env n)
  unfolding prepare_from prepare_pregenerated prepare_positions prepare_wave accept_peak_velocity
  prepare_from-frame origin goal n = (ground arith, ground arith, ground arith)

  finish_goal-active :
      (g : ℕ) (e : NodeEffect Double) (n : WavemakerNode Double A)
      → goal_active fp env n ≡ false
      → goal_active fp env (finish_goal g e n) ≡ false
  unfolding finish_goal
  finish_goal-active g e n idle_now = ground arith

  release_handle-active :
      (g : ℕ) (n : WavemakerNode Double A)
      → goal_active fp env n ≡ false
      → goal_active fp env (release_handle fp env g n) ≡ false
  unfolding release_handle
  release_handle-active g n idle_now = ground arith

  prepare_goal-frame :
      (goal : Goal Double) (n : WavemakerNode Double A)
      → let n' = (prepare_goal fp env goal n).1 in
        (n'.goal_pending ≡ n.goal_pending)
        × (n'.returning_to_upright ≡ n.returning_to_upright)
        × (goal_active fp env n' ≡ goal_active fp env n)
  unfolding prepare_goal
  prepare_goal-frame goal n = elim (Outcome-cases (ops.actual_position_m n.actuator)) [
    | inl (thrown, e) ↦ rw (prepare_goal, e) (refl, refl, refl)
    | inr (origin, e) ↦ rw (prepare_goal, e) (prepare_from-frame origin goal n)
  ]

  marked-frame :
      (n : WavemakerNode Double A) (r : Tried Double A Bool)
      → (r.1.goal_pending ≡ n.goal_pending)
        × (r.1.returning_to_upright ≡ n.returning_to_upright)
        × (goal_active fp env r.1 ≡ goal_active fp env n)
      → let n' =
          (and_then r (λ good n1.
            if good then (ok true, record n1 { goal_pending = true }) else (ok false, n1))).1 in
        (n'.returning_to_upright ≡ n.returning_to_upright)
        × (goal_active fp env n' ≡ goal_active fp env n)
  marked-frame n (err e, n1) h = (h.1, h.2)
  marked-frame n (ok true, n1) h = (h.1, h.2)
  marked-frame n (ok false, n1) h = (h.1, h.2)

  goal_callback-frame :
      (goal : Goal Double) (n : WavemakerNode Double A)
      → let n' = (goal_callback fp env goal n).1 in
        (n'.returning_to_upright ≡ n.returning_to_upright)
        × (goal_active fp env n' ≡ goal_active fp env n)
  unfolding goal_callback
  goal_callback-frame goal n =
      let kept = marked-frame n (prepare_goal fp env goal n) (prepare_goal-frame goal n) in
      (ground (arith, kept.0), ground (arith, kept.1))

  -- Accepting a goal takes a node without a goal and without a return; refusing one changes nothing of
  -- these.
  goal_callback-free :
      (goal : Goal Double) (n : WavemakerNode Double A)
      → Exclusive n
      → (goal_callback fp env goal n).1.goal_pending ≡ true
      → (n.returning_to_upright ≡ false) × (goal_active fp env n ≡ false)
  unfolding goal_callback
  goal_callback-free goal n i h =
      elim (Bool-cases (n.goal_pending || n.returning_to_upright || goal_active fp env n)) [
        | inl busy ↦ i.pending_alone (ground arith)
        | inr free ↦ (ground arith, ground arith)
      ]

  upright_refusal-free :
      (tolerance : Double) (n : WavemakerNode Double A)
      → is_some (upright_refusal fp env tolerance n) ≡ false
      → (n.goal_pending ≡ false) × (goal_active fp env n ≡ false)
  unfolding upright_refusal
  upright_refusal-free tolerance n free = (ground arith, ground arith)

  release_handle-flags :
      (g : ℕ) (n : WavemakerNode Double A)
      → ((release_handle fp env g n).returning_to_upright ≡ n.returning_to_upright)
        × ((release_handle fp env g n).goal_pending ≡ true → n.goal_pending ≡ true)
  unfolding release_handle
  release_handle-flags g n = (ground arith, ground arith)

  release_handle-pending :
      (g : ℕ) (n : WavemakerNode Double A)
      → n.goal_pending ≡ false
      → (release_handle fp env g n).goal_pending ≡ false
  unfolding release_handle
  release_handle-pending g n h = ground arith

  Region-Exclusive :
      {n n' : WavemakerNode Double A} (step : Region n n')
      → Timely step
      → Exclusive n
      → Exclusive n'
  unfolding take_goal claim_return finish_goal
  Region-Exclusive {n} {n'} (asks goal good e) timely i =
      let (same_return, same_active) = goal_callback-frame goal n in
      let same : (goal_callback fp env goal n).1 ≡ n' = ap (λ t. t.1) e in
      rw (← same) (record {
        pending_alone =
            λ h. let (a, b) = goal_callback-free goal n i h in (same_return ∙ a, same_active ∙ b);
        return_alone = λ h.
            let (p, b) = i.return_alone (sym same_return ∙ h) in
            elim (Bool-cases (goal_callback fp env goal n).1.goal_pending) [
              | inl wanted ↦ absurd (
                  let free = goal_callback-free goal n i wanted in
                  let held = sym same_return ∙ h in cc)
              | inr unwanted ↦ (unwanted, same_active ∙ b)
            ];
      })
  Region-Exclusive {n} (takes g) known i = record {
    pending_alone = λ h. absurd (cc);
    return_alone = λ h. elim known [
      | inl pending ↦ absurd (let alone = i.pending_alone pending in cc)
      | inr closed ↦ (refl, rw closed (i.return_alone h).1)
    ];
  }
  Region-Exclusive {n} (claims tolerance) timely i = record {
    pending_alone = λ h.
        let (a, b) = i.pending_alone h in
        elim (Bool-cases (is_some (upright_refusal fp env tolerance n))) [
          | inl refused_now ↦ (rw refused_now a, b)
          | inr free ↦ absurd (let (c, d) = upright_refusal-free tolerance n free in cc)
        ];
    return_alone = λ h. elim (Bool-cases (is_some (upright_refusal fp env tolerance n))) [
      | inl refused_now ↦ i.return_alone (rw refused_now at h)
      | inr free ↦ upright_refusal-free tolerance n free
    ];
  }
  Region-Exclusive {n} returned timely i = record {
    pending_alone = λ h. (refl, (i.pending_alone h).1);
    return_alone = λ h. absurd (cc);
  }
  Region-Exclusive {n} (lets_go g) timely i = record {
    pending_alone = λ h.
        let (same, was) = release_handle-flags g n in
        let (a, b) = i.pending_alone (was h) in (same ∙ a, release_handle-active g n b);
    return_alone = λ h.
        let (same, was) = release_handle-flags g n in
        let (a, b) = i.return_alone (sym same ∙ h) in
        (release_handle-pending g n a, release_handle-active g n b);
  }
  Region-Exclusive {n} (finishes g e) timely i = record {
    pending_alone = λ h. let (a, b) = i.pending_alone h in (a, finish_goal-active g e n b);
    return_alone = λ h. let (a, b) = i.return_alone h in (a, finish_goal-active g e n b);
  }
  Region-Exclusive {n} stops_all timely i = record {
    pending_alone = λ h.
        absurd
          (let rest = abort_active_goal-rest fp env (record n { accepting_goals = false }) in cc);
    return_alone = λ h.
        let (no_handle, unwanted, closed, flag) =
          abort_active_goal-rest fp env (record n { accepting_goals = false }) in
        (unwanted, rw no_handle refl);
  }
  Region-Exclusive {n} opens timely i = record {
    pending_alone = i.pending_alone;
    return_alone = i.return_alone;
  }
  Region-Exclusive {n} closes timely i = record {
    pending_alone = i.pending_alone;
    return_alone = i.return_alone;
  }
  Region-Exclusive {n} {n'} (leaves a b c d) timely i =
      let active : goal_active fp env n' ≡ goal_active fp env n = ap₂ (active_in fp env) c d in
      record {
        pending_alone = λ h. let (x, y) = i.pending_alone (sym a ∙ h) in (b ∙ x, active ∙ y);
        return_alone = λ h. let (x, y) = i.return_alone (sym b ∙ h) in (a ∙ x, active ∙ y);
      }

  -- In any order of the regions under the mutex in which each goal is taken while it is pending, or
  -- after the node stopped accepting goals, from a node with no goal and no return: at most one of
  -- these is there in the end, a goal that was accepted and is not taken yet, an active goal that is
  -- held, a return to upright.
  pub Regions-Exclusive :
      {n0 n : WavemakerNode Double A}
      → n0.goal_pending ≡ false
      → n0.returning_to_upright ≡ false
      → (run : Regions n0 n) → InTime run
      → Exclusive n
  Regions-Exclusive {n0} unwanted none_returns begins timely = record {
    pending_alone = λ h. absurd (cc);
    return_alone = λ h. absurd (cc);
  }
  Regions-Exclusive unwanted none_returns (follows run step) (earlier, now) =
      Region-Exclusive step now (Regions-Exclusive unwanted none_returns run earlier)
