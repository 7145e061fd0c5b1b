-- ===== src/Ui/Durations/Whole.antt =====
-- The minutes and hours of `formatAge`, which float64 does not round up.
use native.Mathlib.Nat.{div-add-mod', mod-lt}
use inbox.Prelude.{arith, ℕ, ◌+◌, ◌*◌, ◌/◌, ◌%◌, ◌≤◌, ◌<◌, ◌≡◌, ◌⊎◌, inl, inr}
use inbox.Ui.Durations.{quotient, whole_units}
use inbox.Ui.Durations.Bounds.{
  scale, le-factor, quotient-lower, quotient-upper, quotient-half, quotient-full, floor-lower,
  floor-below,
}

apart : (m n : ℕ) → (m < n) ⊎ (n ≤ m)
apart m n = ground arith

-- a float64 that is at most 60 has a large unit
large-unit : (num den : ℕ) → 0 < den → num ≤ 60 * den → 70368744177664 ≤ (quotient num den).unit
large-unit num den some_den h = elim (quotient-full den some_den num) [
  | inr large ↦ omega arith
  | inl full ↦
      let u = (quotient num den).unit in
      let most = scale num (60 * den) (quotient num den).unit h in
      let below : 75059993789508 * den < (u + 1) * den = omega arith in
      let large = le-factor 75059993789508 u den some_den below in omega arith
]

-- The sum of `whole` units and a part that is less than one by a nanosecond stays below the next.
-- `m / u` is the part, and `big / v` the sum.
module _ (per whole rest m u big v : ℕ) where
  stays-below :
      per ≤ 3600000000000
      → 70368744177664 ≤ u
      → 70368744177664 ≤ v
      → rest + 1 ≤ per
      → 2 * (m * per) ≤ 2 * rest * u + per
      → 2 * (big * u) ≤ 2 * (whole * u + m) * v + u
      → big < (whole + 1) * v
  stays-below small large large' part half half' = elim (apart big ((whole + 1) * v)) [
    | inl below ↦ below
    | inr above ↦
        let wide = scale (16 * per) u v (omega arith) in
        let wide' = scale (16 * per) v u (omega arith) in
        let part' = scale (rest + 1) per u part in
        let part'' = scale ((rest + 1) * u) (per * u) v part' in
        let half'' = scale (2 * (m * per)) (2 * rest * u + per) v half in
        let most = scale (2 * (big * u)) (2 * (whole * u + m) * v + u) per half' in
        let least = scale ((whole + 1) * v) big (u * per) above in absurd (omega arith)
  ]

module _ (per d : ℕ) where
  -- The whole minutes or hours, up to 60 of them, are those of the duration.
  pub whole_units-eq : 0 < per → per ≤ 3600000000000 → d < 60 * per → whole_units per d ≡ d / per
  unfolding whole_units
  whole_units-eq some_per small short =
      let parts = div-add-mod' d per in
      let part = mod-lt d some_per in
      let rest = quotient (d % per) per in
      let large = large-unit (d % per) per some_per (omega arith) in
      let some_unit : 0 < rest.unit = omega arith in
      let num = d / per * rest.unit + rest.mantissa in
      let sum = quotient num rest.unit in
      let few : d / per + 1 ≤ 60 =
        let short' : (d / per + 1) * per < (60 + 1) * per = omega arith in
        le-factor (d / per + 1) 60 per some_per short' in
      let at_most = quotient-upper per some_per (d % per) 1 (omega arith) in
      let few' = scale (d / per + 1) 60 rest.unit few in
      let large' = large-unit num rest.unit some_unit (omega arith) in
      let below =
        stays-below per (d / per) (d % per) rest.mantissa rest.unit sum.mantissa sum.unit small
          large large' (omega arith) (quotient-half per some_per (d % per))
          (quotient-half rest.unit some_unit num) in
      let least = quotient-lower rest.unit some_unit num (d / per) (omega arith) in
      let some_unit' : 0 < sum.unit = omega arith in
      let low = floor-lower sum.mantissa sum.unit (d / per) some_unit' least in
      let high = floor-below sum.mantissa sum.unit (d / per + 1) some_unit' below in omega arith
