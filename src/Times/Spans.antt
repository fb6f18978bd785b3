-- ===== src/Times/Spans.antt =====
-- What the printed ages and durations say of the number of seconds.
use industry_dashboard.Base.{
  ℕ, ◌+◌, ◌*◌, ◌/◌, ◌%◌, ◌≤◌, ◌<◌, ◌≡◌, refl, ap, inl, inr, ltb, pos, arith, Bool-cases,
}
use industry_dashboard.Times.{
  Measure, second, minute, hour, day, ago, uptime, floor_div, remainder, is_below,
}

-- the seconds of a unit
abbrev pub size : Measure → ℕ
size second = 1
size minute = 60
size hour = 3600
size day = 86400

-- a number of seconds is written in the largest unit that it fills
abbrev pub IsLargest : ℕ → Measure → Type 0
IsLargest s second = s < 60
IsLargest s minute = (60 ≤ s) × (s < 3600)
IsLargest s hour = (3600 ≤ s) × (s < 86400)
IsLargest s day = 86400 ≤ s

-- An age that is not negative is printed as a number of the largest unit that it fills, rounded down.
pub ago-IsLargest :
    (s : ℕ)
    → let a = ago (pos s) in
      IsLargest s a.measure
      × ((n : ℕ) × (a.count ≡ pos n) × (n * size a.measure ≤ s) × (s < (n + 1) * size a.measure))
unfolding ago floor_div is_below
ago-IsLargest s = elim (Bool-cases (ltb s 60)) [
  | inl few ↦
      let h : s < 60 = ground (arith, few) in rw few (h, (s, refl, omega arith, omega (arith)))
  | inr many ↦
      let m60 : 60 ≤ s = ground (arith, many) in
      elim (Bool-cases (ltb (s / 60) 60)) [
        | inl few_minutes ↦
            let h : s / 60 < 60 = ground (arith, few_minutes) in
            rw (many, few_minutes)
              ((m60, omega (arith, h)), (s / 60, refl, omega arith, omega arith))
        | inr hours_long ↦
            let h60 : 60 ≤ s / 60 = ground (arith, hours_long) in
            elim (Bool-cases (ltb (s / 60 / 60) 24)) [
              | inl few_hours ↦
                  let h : s / 60 / 60 < 24 = ground (arith, few_hours) in
                  rw (many, hours_long, few_hours)
                    (
                      (omega (arith, h60), omega (arith, h)),
                      (s / 60 / 60, refl, omega arith, omega arith),
                    )
              | inr days_long ↦
                  let h : 24 ≤ s / 60 / 60 = ground (arith, days_long) in
                  rw (many, hours_long, days_long)
                    (omega (arith, h), (s / 60 / 60 / 24, refl, omega arith, omega arith))
            ]
      ]
]

-- The days, the hours and the minutes of an uptime that is not negative are its mixed-radix digits: hours
-- below 24, minutes below 60, and together the number of whole minutes.
pub uptime_lem :
    (s : ℕ)
    → let u = uptime (pos s) in
      (d h m : ℕ) × (u.days ≡ pos d)
      × (u.hours ≡ pos h)
      × (u.minutes ≡ pos m)
      × (h < 24)
      × (m < 60)
      × (d * 86400 + (h * 3600 + m * 60) ≤ s)
      × (s < d * 86400 + (h * 3600 + m * 60) + 60)
unfolding uptime floor_div remainder
uptime_lem s = (
  s / 86400,
  s % 86400 / 3600,
  s % 86400 % 3600 / 60,
  refl,
  refl,
  ap (λ k. pos (k / 60)) (omega arith),
  omega arith,
  omega arith,
  omega arith,
  omega arith,
)
