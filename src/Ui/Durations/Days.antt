-- ===== src/Ui/Durations/Days.antt =====
-- How far the days of `formatAge`, which float64 rounds, are from the whole days of a duration.
use native.Mathlib.Nat.{mod-lt}
use inbox.Prelude.{arith, ℕ, ◌+◌, ◌*◌, ◌/◌, ◌%◌, ◌≤◌, ◌<◌, ◌≡◌}
use inbox.Ui.Durations.{hour, quotient, in_units, whole_days}
use inbox.Ui.Durations.Bounds.{
  scale, quotient-lower, quotient-upper, quotient-unit, quotient-below, floor-lower, floor-below,
}

module _ (d : ℕ) where
  -- the hours in float64 are from the whole hours to the next
  in_units-Bounds :
      (16 ≤ (in_units hour d).unit)
      × (d / hour * (in_units hour d).unit ≤ (in_units hour d).mantissa)
      × ((in_units hour d).mantissa ≤ (d / hour + 1) * (in_units hour d).unit)
  unfolding in_units
  in_units-Bounds =
      let some_hour : 0 < hour = omega arith in
      let rest = quotient (d % hour) hour in
      let part = mod-lt d some_hour in
      let small : rest.mantissa ≤ 1 * rest.unit =
        quotient-upper hour some_hour (d % hour) 1 (omega arith) in
      let large : 16 ≤ rest.unit = quotient-unit hour some_hour (d % hour) in
      let num = d / hour * rest.unit + rest.mantissa in
      let some_unit : 0 < rest.unit = omega arith in
      (
        quotient-unit rest.unit some_unit num,
        quotient-lower rest.unit some_unit num (d / hour) (omega arith),
        quotient-upper rest.unit some_unit num (d / hour + 1) (omega arith),
      )

  abbrev pub per_day : ℕ
  per_day = d / hour / 24

  -- The days are the whole days, or one more in the last hour of a day.
  pub whole_days-Bounds :
      (per_day ≤ whole_days d)
      × (whole_days d ≤ per_day + 1)
      × ((d / hour + 1 < 24 * (per_day + 1)) → whole_days d ≡ per_day)
  unfolding whole_days
  whole_days-Bounds =
      let (large, low, high) = in_units-Bounds in
      let h = in_units hour d in
      let den = 24 * h.unit in
      let some_den : 0 < 24 * h.unit = omega arith in
      let days = quotient h.mantissa (24 * h.unit) in
      let large' : 16 ≤ days.unit = quotient-unit (24 * h.unit) some_den h.mantissa in
      let some_unit : 0 < days.unit = omega arith in
      let scaled : 24 * per_day * h.unit ≤ d / hour * h.unit =
        scale (24 * per_day) (d / hour) h.unit (omega arith) in
      let scaled' : (d / hour + 1) * h.unit ≤ 24 * (per_day + 1) * h.unit =
        scale (d / hour + 1) (24 * (per_day + 1)) h.unit (omega arith) in
      let least = quotient-lower (24 * h.unit) some_den h.mantissa per_day (omega arith) in
      let most = quotient-upper (24 * h.unit) some_den h.mantissa (per_day + 1) (omega arith) in
      let below = floor-below days.mantissa days.unit (per_day + 2) some_unit (omega arith) in
      (
        floor-lower days.mantissa days.unit per_day some_unit least,
        omega arith,
        λ early.
            let scaled'' : (d / hour + 2) * h.unit ≤ 24 * (per_day + 1) * h.unit =
              scale (d / hour + 2) (24 * (per_day + 1)) h.unit (omega arith) in
            let tight =
              quotient-below (24 * h.unit) some_den h.mantissa (per_day + 1) (omega arith) in
            let at_most = floor-below days.mantissa days.unit (per_day + 1) some_unit tight in
            let at_least = floor-lower days.mantissa days.unit per_day some_unit least in
            omega arith,
      )
