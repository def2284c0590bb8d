-- ===== src/Node/Release.antt =====
-- Giving up the handle of a goal, ending it, and the calls of the actuator in between.
use ros2_wavemakers.Base.{
  Outcome, String, ap, arith, err, false, ok, refl, some, subst, sym, ℕ, ◌≡◌, ◌≢◌, ◌⊎◌,
}
use ros2_wavemakers.Image.Types.{FloatOps}
use ros2_wavemakers.Node.Execute.{abort_goal, release_handle}
use ros2_wavemakers.Node.Types.{
  NodeEffect, NodeEnv, Tried, WavemakerNode, and_then, call_actuator, finish_goal,
}

module _ (fp : FloatOps) {A : Type 0} (env : NodeEnv fp A) where
  open fp use {Double}
  open env use {analysis, isfinite, ops, what, context_ok, sleep}

  -- The last call that changed the actuator was a halt or a stop that came back.
  abbrev pub AtRest : A → Type 0
  AtRest a = ((b : A) × (ops.halt b ≡ (ok tt, a))) ⊎ ((b : A) × (ops.stop b ≡ (ok tt, a)))

  -- The goal is over and the node does not hold it any more.
  pub record Over (g : ℕ) (n : WavemakerNode Double A) : Type 0 where
    pub released : n.goal_handle ≢ some g
    pub ended : (n.goals g).is_active ≡ false

  pub release_handle-released :
      (g : ℕ) (n : WavemakerNode Double A) → (release_handle fp env g n).goal_handle ≢ some g
  unfolding release_handle
  release_handle-released g n h = ground arith

  pub abort_goal-ended :
      (g : ℕ) (text : String) (n : WavemakerNode Double A)
      → ((abort_goal fp env g text n).goals g).is_active ≡ false
  unfolding abort_goal finish_goal
  abort_goal-ended g text n = ground arith

  pub abort_goal-rest :
      (g : ℕ) (text : String) (n : WavemakerNode Double A)
      → ((abort_goal fp env g text n).actuator ≡ n.actuator)
        × ((abort_goal fp env g text n).goal_handle ≡ n.goal_handle)
  unfolding abort_goal finish_goal
  abort_goal-rest g text n = (ground arith, ground arith)

  pub release_handle-rest :
      (g : ℕ) (n : WavemakerNode Double A)
      → ((release_handle fp env g n).actuator ≡ n.actuator)
        × ((release_handle fp env g n).goals ≡ n.goals)
  unfolding release_handle
  release_handle-rest g n = (ground arith, ground arith)

  -- Where a sequence came back, its parts did.
  pub and_then-ok :
      {X Y : Type 0} (r : Tried Double A X) (next : X → WavemakerNode Double A → Tried Double A Y)
      {y : Y} {n' : WavemakerNode Double A}
      → and_then r next ≡ (ok y, n')
      → (x : X) × (n1 : WavemakerNode Double A) × (r ≡ (ok x, n1)) × (next x n1 ≡ (ok y, n'))
  and_then-ok (err e, n) next h = absurd (cc)
  and_then-ok (ok x, n) next h = (x, n, refl, h)

  pub call-ok :
      {X Y : Type 0} (call : A → Outcome X × A) (n : WavemakerNode Double A)
      (next : X → WavemakerNode Double A → Tried Double A Y) {y : Y} {n' : WavemakerNode Double A}
      → and_then (call_actuator call n) next ≡ (ok y, n')
      → (x : X) × (a : A) × (call n.actuator ≡ (ok x, a))
        × (next x (record n { actuator = a }) ≡ (ok y, n'))
  call-ok call n next {y} {n'} h =
      let (x, n1, e, e1) = and_then-ok (call_actuator call n) next h in
      let same : record n { actuator = (call n.actuator).1 } ≡ n1 = ap (λ t. t.1) e in
      (
        x,
        (call n.actuator).1,
        ap (λ o. (o, (call n.actuator).1)) (ap (λ t. t.0) e),
        subst (λ m. next x m ≡ (ok y, n')) (sym same) e1,
      )

  -- The two ways in which the handle is given up and the goal ended.
  pub aborted-Over :
      (g : ℕ) (text : String) (n : WavemakerNode Double A)
      → Over g (abort_goal fp env g text (release_handle fp env g n))
  aborted-Over g text n = record {
    released =
        rw (abort_goal-rest g text (release_handle fp env g n)).1 (release_handle-released g n);
    ended = abort_goal-ended g text (release_handle fp env g n);
  }

  pub finished-Over :
      (g : ℕ) (e : NodeEffect Double) (n : WavemakerNode Double A)
      → Over g (finish_goal g e (release_handle fp env g n))
  unfolding finish_goal
  finished-Over g e n = record { released = release_handle-released g n; ended = ground arith }

  pub aborted-AtRest :
      (g : ℕ) (text : String) (n : WavemakerNode Double A)
      → AtRest n.actuator
      → AtRest (abort_goal fp env g text (release_handle fp env g n)).actuator
  aborted-AtRest g text n rest =
      rw ((abort_goal-rest g text (release_handle fp env g n)).0, (release_handle-rest g n).0) rest

  pub finished-AtRest :
      (g : ℕ) (e : NodeEffect Double) (n : WavemakerNode Double A)
      → AtRest n.actuator
      → AtRest (finish_goal g e (release_handle fp env g n)).actuator
  unfolding finish_goal
  finished-AtRest g e n rest = rw (release_handle-rest g n).0 rest

  -- A goal that is finished before its handle is given up.
  pub succeeded-Over :
      (g : ℕ) (e : NodeEffect Double) (n : WavemakerNode Double A)
      → AtRest n.actuator
      → let n' = release_handle fp env g (finish_goal g e n) in Over g n' × AtRest n'.actuator
  unfolding finish_goal
  succeeded-Over g e n rest =
      let r = finish_goal g e n in
      let (same_actuator, same_goals) = release_handle-rest g r in
      (
        record { released = release_handle-released g r; ended = rw same_goals (ground arith) },
        rw same_actuator rest,
      )
