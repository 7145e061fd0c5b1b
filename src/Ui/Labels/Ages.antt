-- ===== src/Ui/Labels/Ages.antt =====
-- The numbers in the ages that `formatAge` of ui/helpers.go shows.
use inbox.Prelude.{
  arith, ℕ, ◌*◌, ◌+◌, ◌/◌, ◌≤◌, ◌<◌, ltb, true, false, Bool-cases, inl, inr, ◌≡◌, ◌⊎◌,
}
use inbox.Proto.{Time}
use inbox.Ui.Durations.{hour, whole_units, whole_days}
use inbox.Ui.Durations.Whole.{whole_units-eq}
use inbox.Ui.Durations.Days.{per_day, whole_days-Bounds}
use inbox.Ui.Labels.{since, minute, Age, just_now, minutes, hours, days, format_age}

-- An age that is shown for a duration `d`: the number is the whole units in `d`, below the next unit.
-- For days, which are rounded in float64, it may be one more in the last hour before the next day.
abbrev pub Fits : Time → Age → Type 0
Fits d just_now = d < minute
Fits d (minutes n) = (0 < n) × (n < 60) × (n * minute ≤ d) × (d < (n + 1) * minute)
Fits d (hours n) = (0 < n) × (n < 24) × (n * hour ≤ d) × (d < (n + 1) * hour)
Fits d (days n) = (0 < n) × (n * (24 * hour) ≤ d + hour) × (d < (n + 1) * (24 * hour))

below : (m n : ℕ) → ltb m n ≡ true → m < n
below m n h = ground arith

from : (m n : ℕ) → ltb m n ≡ false → n ≤ m
from m n h = ground arith

ℕ-cases : (m n : ℕ) → (m < n) ⊎ (n ≤ m)
ℕ-cases m n = ground arith

minutes-Fits : (d : Time) → minute ≤ d → d < hour → Fits d (minutes (whole_units minute d))
minutes-Fits d low high =
    let same = whole_units-eq minute d (omega arith) (omega arith) (omega arith) in
    (omega arith, omega arith, omega arith, omega arith)

hours-Fits : (d : Time) → hour ≤ d → d < 24 * hour → Fits d (hours (whole_units hour d))
hours-Fits d low high =
    let same = whole_units-eq hour d (omega arith) (omega arith) (omega arith) in
    (omega arith, omega arith, omega arith, omega arith)

days-Fits : (d : Time) → 24 * hour ≤ d → Fits d (days (whole_days d))
days-Fits d low =
    let (least, most, exact) = whole_days-Bounds d in
    elim (ℕ-cases (d / hour + 1) (24 * (per_day d + 1))) [
      | inl early ↦ let same = exact early in (omega arith, omega arith, omega arith)
      | inr last ↦ (omega arith, omega arith, omega arith)
    ]

-- The age of a time, of which at most 2^63 - 1 nanoseconds count, shows whole minutes from 1 to 59,
-- whole hours from 1 to 23 or whole days from 1, rounded down, and "just now" for less than a minute.
-- The days may be one more in the last hour before that many days are over.
pub format_age-Fits : (now t : Time) → Fits (since now t) (format_age now t)
unfolding format_age
format_age-Fits now t = elim (Bool-cases (ltb (since now t) minute)) [
  | inl new ↦ rw new (below (since now t) minute new)
  | inr old ↦ elim (Bool-cases (ltb (since now t) hour)) [
    | inl short ↦
        rw (old, short)
          (minutes-Fits (since now t) (from (since now t) minute old)
            (below (since now t) hour short))
    | inr long ↦ elim (Bool-cases (ltb (since now t) (24 * hour))) [
      | inl today ↦
          rw (old, long, today)
            (hours-Fits (since now t) (from (since now t) hour long)
              (below (since now t) (24 * hour) today))
      | inr before ↦
          rw (old, long, before) (days-Fits (since now t) (from (since now t) (24 * hour) before))
    ]
  ]
]
