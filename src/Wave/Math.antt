-- ===== src/Wave/Math.antt =====
-- The blend, the dispersion relation, the stroke and the gain table. `Analysis` has what the
-- standard library computes; the numbers are those of the source.
use text.Mathlib.Text.{◌==◌ as str_eq}
use ros2_wavemakers.Base.{
  Bool, List, String, [], false, get_or, if◌then◌else◌, pos, suc, ℕ, ◌-◌, ◌||◌, ◌∷◌,
}
use ros2_wavemakers.Image.Types.{FloatOps}

pub record Analysis (D : Type 0) : Type 0 where
  pub sqrt : D → D
  pub exp : D → D
  pub pow : D → D → D
  pub tanh : D → D
  pub sinh : D → D
  pub cosh : D → D
  pub sin : D → D
  pub cos : D → D
  pub pi : D
  -- `static_cast<std::size_t>`.
  pub to_index : D → ℕ

pub record Blend (D : Type 0) : Type 0 where
  pub s : D
  pub ds : D

pub record GainLookup (D : Type 0) : Type 0 where
  pub gain : D
  pub clamped : Bool

module _ (fp : FloatOps) (an : Analysis (fp.Double)) where
  open fp use {Double, lt, eq, add, sub, mul, div, decimal}
  open an use {sqrt, exp, pow, tanh, sinh, cosh}

  abbrev whole : ℕ → Double
  whole n = decimal (pos n) 0

  unfoldable pub quintic_blend : Double → Double → Blend Double
  quintic_blend elapsed duration =
      let r = div elapsed duration in
      let u = if lt r (whole 0) then whole 0 else if lt (whole 1) r then whole 1 else r in
      let u2 = mul u u in
      let u3 = mul u2 u in
      let u4 = mul u3 u in
      let u5 = mul u4 u in
      record {
        s = add (sub (mul (whole 10) u3) (mul (whole 15) u4)) (mul (whole 6) u5);
        ds = div (add (sub (mul (whole 30) u2) (mul (whole 60) u3)) (mul (whole 30) u4)) duration;
      }

  unfoldable pub solve_dispersion : Double → Double → Double → Double
  solve_dispersion omega depth g =
      let mu0 = div (mul (mul omega omega) depth) g in
      let mu_a = div mu0 (sqrt (tanh mu0)) in
      let exponent =
        add (add (decimal (pos 155) 2) (mul (decimal (pos 130) 2) mu0))
          (mul (mul (decimal (pos 216) 3) mu0) mu0) in
      let fc = mul (pow mu0 (decimal (pos 109) 2)) (exp (sub (whole 0) exponent)) in
      mul mu_a (add (whole 1) fc)

  unfoldable pub compute_stroke : Double → Double → String → Double → Double
  compute_stroke mu target_height type hinge_fraction =
      let below = add (sinh (mul (whole 2) mu)) (mul (whole 2) mu) in
      let hinge_mu = mul mu hinge_fraction in
      let bracket = add (sinh mu) (div (sub (cosh hinge_mu) (cosh mu)) (sub mu hinge_mu)) in
      div target_height (
        if str_eq type "piston"
        then div (mul (mul (whole 4) (sinh mu)) (sinh mu)) below
        else div (mul (mul (whole 4) (sinh mu)) bracket) below)

  -- `std::upper_bound` as the standard describes its result on an ascending table, which the
  -- parameter checks require: the number of entries in front of the first that is greater.
  unfoldable pub upper_bound : List Double → Double → ℕ
  upper_bound [] x = 0
  upper_bound (p ∷ ps) x = if lt x p then 0 else suc (upper_bound ps x)

  -- The table, which the source requires to have two points at least, is given by its first
  -- point and the rest.
  unfoldable pub last_of : Double → List Double → Double
  last_of x [] = x
  last_of x (y ∷ ys) = last_of y ys

  unfoldable pub interpolate_gain :
      Double → List Double → Double → List Double → Double → GainLookup Double
  interpolate_gain p0 ps v0 vs period =
      let periods = p0 ∷ ps in
      let values = v0 ∷ vs in
      let back = last_of p0 ps in
      let i = upper_bound periods period in
      let low = get_or periods (i - 1) p0 in
      let base = get_or values (i - 1) v0 in
      if lt period p0 || eq period p0
      then record { gain = v0; clamped = lt period p0 }
      else if lt back period || eq period back
      then record { gain = last_of v0 vs; clamped = lt back period }
      else record {
        gain =
            let fraction = div (sub period low) (sub (get_or periods i p0) low) in
            add base (mul fraction (sub (get_or values i v0) base));
        clamped = false;
      }
