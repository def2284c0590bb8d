-- ===== src/Drive/Waiting.antt =====
-- The waiting loop: its fuel, and what it has seen when it reports success.
use ros2_wavemakers.Base.{
  >>=-eq-ok, Bool, Bool-cases, Outcome, String, arith, false, if◌then◌else◌, inl, inr, leb, not, ok,
  refl, suc, true, word, zero, ℕ, ◌&&◌, ◌*◌, ◌+◌, ◌/◌, ◌≡◌, ◌≤◌, ◌⊎◌,
}
use ros2_wavemakers.Drive.Control.{fail, wait_for, wait_loop, wait_round}
use ros2_wavemakers.Drive.Status.{status_word}
use ros2_wavemakers.Drive.Types.{Formats, IndraDrive}
use ros2_wavemakers.Image.Types.{FloatOps}

-- A test that the code passed on its way to a success.
pub passed {ℓ} :
    {S : Type ℓ} (b : Bool) (t : S) (m : Outcome (Bool × S)) {s : S}
    → (if b then ok (false, t) else m) ≡ ok (true, s)
    → (b ≡ false) × (m ≡ ok (true, s))
passed true t m h = absurd (cc)
passed false t m h = (refl, h)

pub if_cases {ℓ} :
    {A : Type ℓ} (b : Bool) (x y : A) {z : A}
    → (if b then x else y) ≡ z
    → ((b ≡ true) × (x ≡ z)) ⊎ ((b ≡ false) × (y ≡ z))
if_cases true x y h = inl (refl, h)
if_cases false x y h = inr (refl, h)

module _ (fp : FloatOps) (fmt : Formats (fp.Double)) {C : Type 0}
    (elapse : IndraDrive (fp.Double) C → IndraDrive (fp.Double) C) where
  open fp use {Double}

  -- `sleep_for` blocks for at least the time given, so the steady clock is that much later.
  abbrev pub Sleeps : Type 0
  Sleeps = (s : IndraDrive Double C) → s.now + 20 ≤ (elapse s).now

  late :
      (what : String) (pred : ℕ → Bool) (stoppable : Bool) (deadline n : ℕ)
      (s : IndraDrive Double C)
      → deadline ≤ s.now
      → wait_loop fp fmt elapse what pred stoppable deadline n s
        ≡ wait_loop fp fmt elapse what pred stoppable deadline 0 s
  unfolding wait_loop
  late what pred stoppable deadline zero s h = refl
  late what pred stoppable deadline (suc n) s h =
      let past : leb deadline s.now ≡ true = ground arith in rw past

  loop-fuel :
      (what : String) (pred : ℕ → Bool) (stoppable : Bool) (deadline n k : ℕ)
      (s : IndraDrive Double C)
      → Sleeps
      → deadline ≤ s.now + 20 * n
      → wait_loop fp fmt elapse what pred stoppable deadline (n + k) s
        ≡ wait_loop fp fmt elapse what pred stoppable deadline n s
  unfolding wait_loop
  loop-fuel what pred stoppable deadline zero k s sleeps h =
      late what pred stoppable deadline (0 + k) s (omega (arith, h))
  loop-fuel what pred stoppable deadline (suc n) k s sleeps h =
      let step : suc n + k ≡ suc (n + k) = omega arith in
      let next =
        loop-fuel what pred stoppable deadline n k (elapse s) sleeps (omega (arith, h, sleeps s)) in
      rw (step, next)

  -- If every sleep lasts at least 20 ms, the fuel of `wait_for` is never what ends it: with any
  -- more fuel its loop gives the same.
  pub wait_for-fuel :
      (what : String) (timeout_ms : ℕ) (pred : ℕ → Bool) (stoppable : Bool) (k : ℕ)
      (s : IndraDrive Double C)
      → Sleeps
      → wait_loop fp fmt elapse what pred stoppable (s.now + timeout_ms) (timeout_ms / 20 + 1 + k) s
        ≡ wait_for fp fmt elapse what timeout_ms pred stoppable s
  unfolding wait_for
  wait_for-fuel what timeout_ms pred stoppable k s sleeps =
      loop-fuel what pred stoppable (s.now + timeout_ms) (timeout_ms / 20 + 1) k s sleeps
        (omega arith)

  -- The state in which a wait ended well: online, with a status word that satisfies the
  -- predicate, and, where the wait heeds them, without abort and without fault.
  pub record Reached (pred : ℕ → Bool) (stoppable : Bool) (s' : IndraDrive Double C) : Type 0 where
    pub word : ℕ
    pub read : status_word fp s' ≡ ok word
    pub holds : pred word ≡ true
    pub online : s'.driver.online ≡ true
    pub not_stopped : stoppable ≡ true → (s'.abort ≡ false) × (s'.fault ≡ false)

  round-Reached :
      (what : String) (pred : ℕ → Bool) (stoppable : Bool) (s : IndraDrive Double C)
      (retry : ℕ → Outcome (Bool × IndraDrive Double C)) {s' : IndraDrive Double C}
      → ((sw : ℕ) → retry sw ≡ ok (true, s') → Reached pred stoppable s')
      → wait_round fp fmt what pred stoppable s retry ≡ ok (true, s')
      → Reached pred stoppable s'
  unfolding wait_round fail
  round-Reached what pred stoppable s retry {s'} again h =
      let (a, h1) = passed (stoppable && s.abort) _ _ h in
      let (f, h2) = passed (stoppable && s.fault) _ _ h1 in
      let (on, h3) = passed (not s.driver.online) _ _ h2 in
      let (sw, word, h4) = >>=-eq-ok (status_word fp s) _ h3 in
      elim (if_cases (pred sw) _ _ h4) [
        | inr (else_, e) ↦ again sw e
        | inl (sure, e) ↦
            let same : s ≡ s' = cc in
            rw (← same) (record {
              word = sw;
              read = word;
              holds = sure;
              online = ground arith;
              not_stopped = λ st. ground arith;
            })
      ]

  loop-Reached :
      (what : String) (pred : ℕ → Bool) (stoppable : Bool) (deadline n : ℕ)
      (s : IndraDrive Double C) {s' : IndraDrive Double C}
      → wait_loop fp fmt elapse what pred stoppable deadline n s ≡ ok (true, s')
      → Reached pred stoppable s'
  unfolding wait_loop fail
  loop-Reached what pred stoppable deadline zero s h =
      round-Reached what pred stoppable s _ (λ sw e. absurd (cc)) h
  loop-Reached what pred stoppable deadline (suc n) s h =
      round-Reached what pred stoppable s _
        (λ sw e. elim (Bool-cases (leb deadline s.now)) [
          | inl past ↦ absurd (let f = rw past at e in cc)
          | inr early ↦ loop-Reached what pred stoppable deadline n (elapse s) (rw early at e)
        ])
        h

  -- Whatever the other threads do during the sleeps, a wait that reports success ended online
  -- with a status word of the kind waited for, and a wait that may be stopped ended with no
  -- abort requested and no fault latched.
  pub wait_for-Reached :
      (what : String) (timeout_ms : ℕ) (pred : ℕ → Bool) (stoppable : Bool)
      (s : IndraDrive Double C) {s' : IndraDrive Double C}
      → wait_for fp fmt elapse what timeout_ms pred stoppable s ≡ ok (true, s')
      → Reached pred stoppable s'
  unfolding wait_for
  wait_for-Reached what timeout_ms pred stoppable s h =
      loop-Reached what pred stoppable (s.now + timeout_ms) (timeout_ms / 20 + 1) s h
