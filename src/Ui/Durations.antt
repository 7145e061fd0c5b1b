-- ===== src/Ui/Durations.antt =====
-- `Minutes` and `Hours` of `time.Duration`, and the days of `formatAge` in ui/helpers.go, in the arithmetic of float64.
pub mod Bounds
pub mod Days
pub mod Whole
use inbox.Prelude.{ℕ, zero, suc, ◌+◌, ◌*◌, ◌/◌, ◌%◌, ltb, leb, nat_eq, if◌then◌else◌}

abbrev pub hour : ℕ
hour = 3600000000000

-- the natural number nearest to a quotient, the even one of two
unfoldable pub nearest : ℕ → ℕ → ℕ
nearest num den =
    let q = num / den in
    let twice = 2 * (num % den) in
    if ltb twice den
    then q
    else if ltb den twice
    then q + 1
    else if nat_eq (q % 2) 0
    then q
    else q + 1

-- A float64 that is not negative: `mantissa / unit`, for a power of 2.
pub record Float : Type 0 where
  pub mantissa : ℕ
  pub unit : ℕ

-- The unit is doubled until the mantissa has 53 bits. The fuel that is left at the end is for
-- smaller quotients; a quotient of 0 uses all of it.
unfoldable pub rounded : ℕ → ℕ → ℕ → ℕ → Float
unfolding nearest
rounded zero unit num den = record { mantissa = nearest num den; unit = unit }
rounded (suc fuel) unit num den =
    let rest = rounded fuel (2 * unit) (2 * num) den in
    if leb (4503599627370496 * den) num
    then record { mantissa = nearest num den; unit = unit }
    else rest

-- The float64 nearest to `num / den`, for quotients below 2^49, where a unit of 16 is not too small,
-- and above 2^-47 or 0. Those of durations are below 2^22, and the smallest is a nanosecond in hours.
unfoldable pub quotient : ℕ → ℕ → Float
unfolding rounded
quotient num den = rounded 96 16 (16 * num) den

-- `d.Minutes()` or `d.Hours()`, by the nanoseconds of the unit: the whole units, and the rest divided
-- by the unit, are added.
unfoldable pub in_units : ℕ → ℕ → Float
unfolding quotient
in_units per d =
    let rest = quotient (d % per) per in quotient (d / per * rest.unit + rest.mantissa) rest.unit

-- `int(d.Minutes())` or `int(d.Hours())`
unfoldable pub whole_units : ℕ → ℕ → ℕ
unfolding in_units
whole_units per d = let units = in_units per d in units.mantissa / units.unit

-- `int(d.Hours()/24)`
unfoldable pub whole_days : ℕ → ℕ
unfolding in_units quotient
whole_days d =
    let hours = in_units hour d in
    let days = quotient hours.mantissa (24 * hours.unit) in days.mantissa / days.unit
