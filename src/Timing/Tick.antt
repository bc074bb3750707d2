-- ===== src/Timing/Tick.antt =====
-- How often a reporter reports, for an exposure of any length that an `int` of ticks can hold.
use native.Mathlib.Nat.{le-div_iff_mul-le, div-lt_iff_lt-mul}
use andor2k.Base.{
  ltb_ℤ, ℕ, ◌*◌, ◌/◌, ◌^◌, ◌≤◌, ◌<◌, ◌≡◌, ◌∙◌, ap, arith, ℤ, pos, ◌/ℤ◌, to_int32, to_int32_of_small,
  Bool-cases, inl, inr,
}
use andor2k.Timing.{exp2tick_every, long_tick}

-- Milliseconds of which an `int` can hold the five thousandth part.
abbrev pub max_exposure : ℕ
max_exposure = 5000 * 2 ^ 31

small : (t : ℕ) → t < 2 ^ 31 → to_int32 (pos t) ≡ pos t
small t h = to_int32_of_small (pos t) (omega arith) (omega arith)

-- n / nr for nr = n / 5000.
quotient_bounds :
    (n : ℕ) → 300000 ≤ n → (60 ≤ n / 5000) × (5000 ≤ n / (n / 5000)) × (n / (n / 5000) < 5084)
quotient_bounds n h =
    let nr = n / 5000 in
    let many : 60 ≤ nr = omega arith in
    (
      many,
      (le-div_iff_mul-le (omega arith)).1 (omega arith),
      (div-lt_iff_lt-mul (omega arith)).1 (omega arith),
    )

long_tick_bounds :
    (n : ℕ)
    → 300000 ≤ n
    → n < max_exposure
    → (t : ℕ) × (long_tick (pos n) ≡ pos t) × (5000 ≤ t) × (t < 5084)
unfolding long_tick
long_tick_bounds n lo hi =
    let (many, least, most) = quotient_bounds n lo in
    (
      n / (n / 5000),
      ap (λ nr. to_int32 (pos n /ℤ nr)) (small (n / 5000) (omega arith))
          ∙ small (n / (n / 5000)) (omega (arith, most)),
      least,
      most,
    )

-- A tick of a quarter of a second at least and less than fifteen, at most half the exposure.
abbrev pub IsTick : ℕ → ℤ → Type 0
IsTick n z = (t : ℕ) × (z ≡ pos t) × (250 ≤ t) × (t < 15000) × (2 * t ≤ n)

part :
    (n d : ℕ)
    → (250 ≤ n / d) × (n / d < 15000) × (2 * (n / d) ≤ n)
    → IsTick n (to_int32 (pos n /ℤ pos d))
part n d (lo, hi, half) = (n / d, small (n / d) (omega arith), lo, hi, half)

long_part : (n : ℕ) → 300000 ≤ n → n < max_exposure → IsTick n (long_tick (pos n))
long_part n lo hi =
    let (t, e, least, most) = long_tick_bounds n lo hi in
    (t, e, omega arith, omega arith, omega arith)

-- For an exposure of half a second at least, up to the greatest for which the number of ticks is an
-- `int`, the tick is in [250, 15000) milliseconds and at most half the exposure.
pub exp2tick_every-IsTick : (n : ℕ) → 500 ≤ n → n < max_exposure → IsTick n (exp2tick_every (pos n))
unfolding exp2tick_every
exp2tick_every-IsTick n lo hi = elim (Bool-cases (ltb_ℤ (pos n) (pos 500))) [
  | inl t ↦ absurd (ground arith)
  | inr f1 ↦ elim (Bool-cases (ltb_ℤ (pos n) (pos 2000))) [
    | inl t ↦ rw (f1, t, exp2tick_every) (part n 2 (ground arith))
    | inr f2 ↦ elim (Bool-cases (ltb_ℤ (pos n) (pos 5000))) [
      | inl t ↦ rw (f1, f2, t, exp2tick_every) (part n 3 (ground arith))
      | inr f3 ↦ elim (Bool-cases (ltb_ℤ (pos n) (pos 10000))) [
        | inl t ↦ rw (f1, f2, f3, t, exp2tick_every) (part n 4 (ground arith))
        | inr f4 ↦ elim (Bool-cases (ltb_ℤ (pos n) (pos 20000))) [
          | inl t ↦ rw (f1, f2, f3, f4, t, exp2tick_every) (part n 6 (ground arith))
          | inr f5 ↦ elim (Bool-cases (ltb_ℤ (pos n) (pos 60000))) [
            | inl t ↦ rw (f1, f2, f3, f4, f5, t, exp2tick_every) (part n 10 (ground arith))
            | inr f6 ↦ elim (Bool-cases (ltb_ℤ (pos n) (pos 120000))) [
              | inl t ↦ rw (f1, f2, f3, f4, f5, f6, t, exp2tick_every) (part n 15 (ground arith))
              | inr f7 ↦ elim (Bool-cases (ltb_ℤ (pos n) (pos 300000))) [
                | inl t ↦
                    rw (f1, f2, f3, f4, f5, f6, f7, t, exp2tick_every) (part n 20 (ground arith))
                | inr f8 ↦
                    rw (f1, f2, f3, f4, f5, f6, f7, f8, exp2tick_every)
                      (long_part n (ground arith) hi)
              ]
            ]
          ]
        ]
      ]
    ]
  ]
]
