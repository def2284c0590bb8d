-- ===== src/Wave/Lookup.antt =====
-- The lookups in the tables: what they find, and that their reads stay in range.
use ros2_wavemakers.Base.{
  Bool-cases, List, [], arith, false, get_or, inl, inr, length, suc, true, zero, ℕ, ◌+◌, ◌-◌, ◌<◌,
  ◌^◌, ◌||◌, ◌∷◌, ◌≡◌, ◌≤◌, ap, refl,
}
use ros2_wavemakers.Image.Types.{FloatOps}
use ros2_wavemakers.Wave.Math.{Analysis, last_of, upper_bound, interpolate_gain, GainLookup}
use ros2_wavemakers.Wave.Trajectory.{sample_index}

module _ (fp : FloatOps) (an : Analysis (fp.Double)) where
  open fp use {Double, lt, eq, add, sub, mul, div}

  -- The entry found is the first that is greater, and neither the first nor behind the last.
  pub record Between (periods : List Double) (period d : Double) : Type 0 where
    pub inside : upper_bound fp an periods period < length periods
    pub above : lt period (get_or periods (upper_bound fp an periods period) d) ≡ true
    pub positive : 0 < upper_bound fp an periods period
    pub below : lt period (get_or periods (upper_bound fp an periods period - 1) d) ≡ false

  before :
      (p : Double) (rest : List Double) (x d : Double) (k : ℕ)
      → lt x p ≡ false
      → (0 < k → lt x (get_or rest (k - 1) d) ≡ false)
      → lt x (get_or (p ∷ rest) (suc k - 1) d) ≡ false
  before p rest x d zero more below = more
  before p rest x d (suc k) more below =
      let e : suc (suc k) - 1 ≡ suc (suc k - 1) = omega arith in rw e (below (omega arith))

  upper_bound-finds :
      (p : Double) (ps : List Double) (x d : Double)
      → lt x (last_of fp an p ps) ≡ true
      → (upper_bound fp an (p ∷ ps) x < length (p ∷ ps))
        × (lt x (get_or (p ∷ ps) (upper_bound fp an (p ∷ ps) x) d) ≡ true)
        × (0 < upper_bound fp an (p ∷ ps) x
            → lt x (get_or (p ∷ ps) (upper_bound fp an (p ∷ ps) x - 1) d) ≡ false)
  unfolding upper_bound last_of
  upper_bound-finds p [] x d h = rw h (omega arith, h, λ z. absurd (omega arith))
  upper_bound-finds p (q ∷ qs) x d h =
      let (inside, above, below) = upper_bound-finds q qs x d h in
      elim (Bool-cases (lt x p)) [
        | inl less ↦ rw less (omega arith, less, λ z. absurd (omega arith))
        | inr more ↦ rw more (
          omega (arith, inside),
          above,
          λ z. before p (q ∷ qs) x d (upper_bound fp an (q ∷ qs) x) more below,
        )
      ]

  search_moves :
      (p : Double) (ps : List Double) (x : Double)
      → lt x p ≡ false
      → 0 < upper_bound fp an (p ∷ ps) x
  unfolding upper_bound
  search_moves p ps x h = rw h (omega arith)

  upper_bound-Between :
      (p : Double) (ps : List Double) (period : Double)
      → lt period (last_of fp an p ps) ≡ true
      → lt period p ≡ false
      → Between (p ∷ ps) period p
  upper_bound-Between p ps period back first =
      let (inside, above, below) = upper_bound-finds p ps period p back in
      let some' = search_moves p ps period first in
      record { inside = inside; above = above; positive = some'; below = below some' }

  -- What a lookup gives: below the table its first gain, behind the table its last one, with the mark
  -- that the period was clamped unless it is that of the end; and in between the line through two
  -- neighbouring points, the period not less than that of the first and less than that of the second.
  pub data Interpolated (p v : Double) (ps vs : List Double) (period : Double)
      : GainLookup Double → Type 0 where
    low :
        (lt period p || eq period p) ≡ true
        → Interpolated p v ps vs period (record { gain = v; clamped = lt period p })
    high :
        (lt period p || eq period p) ≡ false
        → (lt (last_of fp an p ps) period || eq period (last_of fp an p ps)) ≡ true
        → Interpolated p v ps vs period
            (record { gain = last_of fp an v vs; clamped = lt (last_of fp an p ps) period })
    between :
        (k : ℕ) (p1 p2 v1 v2 : Double)
        → k + 1 < length (p ∷ ps)
        → get_or (p ∷ ps) k p ≡ p1
        → get_or (p ∷ ps) (k + 1) p ≡ p2
        → get_or (v ∷ vs) k v ≡ v1
        → get_or (v ∷ vs) (k + 1) v ≡ v2
        → lt period p1 ≡ false
        → lt period p2 ≡ true
        → Interpolated p v ps vs period (record {
          gain = add v1 (mul (div (sub period p1) (sub p2 p1)) (sub v2 v1));
          clamped = false;
        })

  -- For every table with a point and every period that compares with the period of the last point, the
  -- lookup gives what is described: an end of the table, marked as clamped where the period is beyond
  -- it, or the line between the two neighbouring points around the period.
  pub interpolate_gain-Interpolated :
      (p v : Double) (ps vs : List Double) (period : Double)
      → (lt period (last_of fp an p ps)
          || (lt (last_of fp an p ps) period || eq period (last_of fp an p ps)))
        ≡ true
      → Interpolated p v ps vs period (interpolate_gain fp an p ps v vs period)
  unfolding interpolate_gain
  interpolate_gain-Interpolated p v ps vs period comparable =
      elim (Bool-cases (lt period p || eq period p)) [
        | inl first ↦ rw first (low first)
        | inr later_on ↦
            elim (Bool-cases (lt (last_of fp an p ps) period || eq period (last_of fp an p ps))) [
              | inl last ↦ rw (later_on, last) (high later_on last)
              | inr inner ↦
                  let b = upper_bound-Between p ps period (ground arith) (ground arith) in
                  let k = upper_bound fp an (p ∷ ps) period - 1 in
                  let next : k + 1 ≡ upper_bound fp an (p ∷ ps) period =
                    omega (arith, b.positive) in
                  rw (later_on, inner)
                    (between k _ _ _ _ (omega (arith, b.inside, next)) refl
                      (ap (λ i. get_or (p ∷ ps) i p) next) refl (ap (λ i. get_or (v ∷ vs) i v) next)
                      b.below b.above)
            ]
      ]

-- With two samples at least, the sample behind the index that is read exists too, whatever the
-- quotient of the times is.
pub sample_index-bounds :
    (fp : FloatOps) (an : Analysis (fp.Double)) (size : ℕ) (sample : fp.Double)
    → 2 ≤ size
    → size < 2 ^ 64
    → sample_index fp an size sample + 1 < size
unfolding sample_index
sample_index-bounds fp an size sample h k = omega arith
