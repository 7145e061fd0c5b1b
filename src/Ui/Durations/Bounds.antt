-- ===== src/Ui/Durations/Bounds.antt =====
-- How far a float64 is from the quotient that it rounds.
use native.Mathlib.Nat.{div-add-mod', mod-lt, lt_of_mul-lt-mul_left, mul-le-mul_left}
use inbox.Prelude.{
  true, arith, ℕ, zero, suc, ◌+◌, ◌*◌, ◌/◌, ◌%◌, ◌≤◌, ◌<◌, ◌≡◌, refl, ◌⊎◌, inl, inr, Bool-cases,
  leb,
}
use inbox.Ui.Durations.{nearest, rounded, quotient}

nearest-cases :
    (num den : ℕ)
    → (nearest num den ≡ num / den) ⊎ ((nearest num den ≡ num / den + 1) × (den ≤ 2 * (num % den)))
unfolding nearest
nearest-cases num den = ground arith

pub scale : (a b u : ℕ) → a ≤ b → a * u ≤ b * u
scale a b u h = omega (arith, mul-le-mul_left u h)

leb-le : (m n : ℕ) → leb m n ≡ true → m ≤ n
leb-le m n h = ground arith

-- a unit that is doubled as often as the fuel is used
abbrev doubled : ℕ → ℕ → ℕ
doubled zero unit = unit
doubled (suc fuel) unit = doubled fuel (2 * unit)

-- cancel a factor
pub le-factor : (a b den : ℕ) → 0 < den → a * den < (b + 1) * den → a ≤ b
le-factor a b den some_den h =
    let h' : den * a < den * (b + 1) = ground arith in
    let below : a < b + 1 = lt_of_mul-lt-mul_left den h' in omega arith

module _ (num den : ℕ) (some_den : 0 < den) where
  nearest-lower : (c : ℕ) → c * den ≤ num → c ≤ nearest num den
  nearest-lower c h =
      let parts = div-add-mod' num den in
      let rest = mod-lt num some_den in
      let below : c * den < (num / den + 1) * den = omega arith in
      let whole = le-factor c (num / den) den some_den below in
      elim (nearest-cases num den) [ inl e ↦ omega arith | inr (e, _) ↦ omega arith ]

  nearest-half : 2 * (nearest num den * den) ≤ 2 * num + den
  nearest-half =
      let parts = div-add-mod' num den in
      elim (nearest-cases num den) [ inl e ↦ rw e (omega arith) | inr (e, up) ↦ rw e (omega arith) ]

  nearest-upper : (c : ℕ) → num ≤ c * den → nearest num den ≤ c
  nearest-upper c h =
      let half = nearest-half in
      let below : nearest num den * den < (c + 1) * den = omega arith in
      le-factor (nearest num den) c den some_den below

  -- a quotient that is less than `b * unit` by a 24th of the unit, where the unit is more than 12
  nearest-below :
      (b unit : ℕ)
      → 16 ≤ unit
      → 24 * num + unit * den ≤ 24 * (b * unit * den)
      → nearest num den < b * unit
  nearest-below b unit large h =
      let half = nearest-half in
      let wide : 16 * den ≤ unit * den = omega (arith, mul-le-mul_left den large) in
      let below : (nearest num den + 1) * den < (b * unit + 1) * den = omega arith in
      let next = le-factor (nearest num den + 1) (b * unit) den some_den below in omega arith

module _ (den : ℕ) (some_den : 0 < den) where
  half-unit : (unit num : ℕ) → 2 * unit * (nearest num den * den) ≤ 2 * num * unit + unit * den
  half-unit unit num =
      let half =
        scale (2 * (nearest num den * den)) (2 * num + den) unit (nearest-half num den some_den) in
      omega arith

  rounded-unit : (fuel unit num : ℕ) → 16 ≤ unit → 16 ≤ (rounded fuel unit num den).unit
  unfolding rounded
  rounded-unit zero unit num h = h
  rounded-unit (suc fuel) unit num h = elim (Bool-cases (leb (4503599627370496 * den) num)) [
    | inl fits ↦ rw fits h
    | inr small ↦ rw small (rounded-unit fuel (2 * unit) (2 * num) (omega arith))
  ]

  rounded-lower :
      (fuel unit num c : ℕ)
      → c * unit * den ≤ num
      → c * (rounded fuel unit num den).unit ≤ (rounded fuel unit num den).mantissa
  unfolding rounded
  rounded-lower zero unit num c h = nearest-lower num den some_den (c * unit) h
  rounded-lower (suc fuel) unit num c h = elim (Bool-cases (leb (4503599627370496 * den) num)) [
    | inl fits ↦ rw fits (nearest-lower num den some_den (c * unit) h)
    | inr small ↦ rw small (rounded-lower fuel (2 * unit) (2 * num) c (omega arith))
  ]

  rounded-upper :
      (fuel unit num c : ℕ)
      → num ≤ c * unit * den
      → (rounded fuel unit num den).mantissa ≤ c * (rounded fuel unit num den).unit
  unfolding rounded
  rounded-upper zero unit num c h = nearest-upper num den some_den (c * unit) h
  rounded-upper (suc fuel) unit num c h = elim (Bool-cases (leb (4503599627370496 * den) num)) [
    | inl fits ↦ rw fits (nearest-upper num den some_den (c * unit) h)
    | inr small ↦ rw small (rounded-upper fuel (2 * unit) (2 * num) c (omega arith))
  ]

  rounded-below :
      (fuel unit num b : ℕ)
      → 16 ≤ unit
      → 24 * num + unit * den ≤ 24 * (b * unit * den)
      → (rounded fuel unit num den).mantissa < b * (rounded fuel unit num den).unit
  unfolding rounded
  rounded-below zero unit num b large h = nearest-below num den some_den b unit large h
  rounded-below (suc fuel) unit num b large h =
      elim (Bool-cases (leb (4503599627370496 * den) num)) [
        | inl fits ↦ rw fits (nearest-below num den some_den b unit large h)
        | inr small ↦
            rw small (rounded-below fuel (2 * unit) (2 * num) b (omega arith) (omega arith))
      ]

  -- half a unit is the most that is rounded
  rounded-half :
      (fuel unit num : ℕ)
      → 2 * unit * ((rounded fuel unit num den).mantissa * den)
        ≤ 2 * num * (rounded fuel unit num den).unit + unit * den
  unfolding rounded
  rounded-half zero unit num = half-unit unit num
  rounded-half (suc fuel) unit num = elim (Bool-cases (leb (4503599627370496 * den) num)) [
    | inl fits ↦ rw fits (half-unit unit num)
    | inr small ↦ rw small (let rest = rounded-half fuel (2 * unit) (2 * num) in omega arith)
  ]

  -- The mantissa has 53 bits, unless the fuel was used.
  rounded-full :
      (fuel unit num : ℕ)
      → (4503599627370496 * den * unit ≤ num * (rounded fuel unit num den).unit)
        ⊎ ((rounded fuel unit num den).unit ≡ doubled fuel unit)
  unfolding rounded
  rounded-full zero unit num = inr refl
  rounded-full (suc fuel) unit num = elim (Bool-cases (leb (4503599627370496 * den) num)) [
    | inl fits ↦
        rw fits
          (inl (scale (4503599627370496 * den) num unit (leb-le (4503599627370496 * den) num fits)))
    | inr small ↦ rw small (elim (rounded-full fuel (2 * unit) (2 * num)) [
      | inl full ↦ inl (omega arith)
      | inr used ↦ inr used
    ])
  ]

  module _ (num : ℕ) where
    pub quotient-half :
        2 * ((quotient num den).mantissa * den) ≤ 2 * num * (quotient num den).unit + den
    unfolding quotient
    quotient-half = let half = rounded-half 96 16 (16 * num) in omega arith

    pub quotient-full :
        (4503599627370496 * den ≤ num * (quotient num den).unit)
        ⊎ (4503599627370496 ≤ (quotient num den).unit)
    unfolding quotient
    quotient-full = elim (rounded-full 96 16 (16 * num)) [
      | inl full ↦ inl (omega arith)
      | inr used ↦ inr (omega arith)
    ]

    pub quotient-unit : 16 ≤ (quotient num den).unit
    unfolding quotient
    quotient-unit = rounded-unit 96 16 (16 * num) (omega arith)

    pub quotient-lower :
        (c : ℕ) → c * den ≤ num → c * (quotient num den).unit ≤ (quotient num den).mantissa
    unfolding quotient
    quotient-lower c h = rounded-lower 96 16 (16 * num) c (omega arith)

    pub quotient-upper :
        (c : ℕ) → num ≤ c * den → (quotient num den).mantissa ≤ c * (quotient num den).unit
    unfolding quotient
    quotient-upper c h = rounded-upper 96 16 (16 * num) c (omega arith)

    pub quotient-below :
        (b : ℕ)
        → 24 * num + den ≤ 24 * (b * den)
        → (quotient num den).mantissa < b * (quotient num den).unit
    unfolding quotient
    quotient-below b h = rounded-below 96 16 (16 * num) b (omega arith) (omega arith)

-- the quotient of a float64
pub floor-lower : (n u c : ℕ) → 0 < u → c * u ≤ n → c ≤ n / u
floor-lower n u c some_unit h =
    let parts = div-add-mod' n u in
    let rest = mod-lt n some_unit in
    let below : c * u < (n / u + 1) * u = omega arith in le-factor c (n / u) u some_unit below

pub floor-below : (n u c : ℕ) → 0 < u → n < c * u → n / u < c
floor-below n u c some_unit h =
    let parts = div-add-mod' n u in
    let below : (n / u + 1) * u < (c + 1) * u = omega arith in
    let next = le-factor (n / u + 1) c u some_unit below in omega arith
