-- ===== src/Widgets/Countdown.antt =====
-- The countdown of frontend/src/components/widgets/PollingCountdown.tsx, in milliseconds: the component divides
-- them by 1000 and shows seconds.
use industry_dashboard.Base.{
  ℕ, zero, suc, ◌+◌, ◌*◌, ◌-◌, ◌≤◌, ◌<◌, ◌≡◌, inl, inr, leb, arith, if◌then◌else◌, Bool-cases, List,
  Option, Codes, subst, sym,
}
use industry_dashboard.Settings.RefreshInterval
use industry_dashboard.Settings.RefreshInterval.{mount, run-IsProvider}

-- the function that the timer passes to `setRemaining`
unfoldable pub tick : ℕ → ℕ → ℕ
tick interval remaining = if leb remaining 1000 then interval else remaining - 1000

-- what remains so many seconds after the effect set it to the interval
unfoldable pub remaining : ℕ → ℕ → ℕ
unfolding tick
remaining interval zero = interval
remaining interval (suc seconds) = tick interval (remaining interval seconds)

-- Seconds are whole rounds of an interval and a part of one; what remains is the rest of that part.
abbrev pub IsRest : ℕ → ℕ → ℕ → Type 0
IsRest n seconds rest =
    (rounds : ℕ) × (part : ℕ) × (seconds ≡ rounds * n + part)
    × (part < n)
    × (rest + 1000 * part ≡ 1000 * n)

whole_round :
    (n rounds part seconds : ℕ)
    → seconds ≡ rounds * n + part
    → suc part ≡ n
    → suc seconds ≡ suc rounds * n + 0
whole_round n rounds part seconds s e = ground (arith, s, e)

tick-IsRest :
    (n seconds rest : ℕ) → IsRest n seconds rest → IsRest n (suc seconds) (tick (1000 * n) rest)
unfolding tick
tick-IsRest n seconds rest (rounds, part, s, l, r) = elim (Bool-cases (leb rest 1000)) [
  | inl e ↦
      let h : rest ≤ 1000 = ground (arith, e) in
      rw e (
        suc rounds,
        0,
        whole_round n rounds part seconds s (omega (arith, h, r, l)),
        omega (arith, l),
        omega arith,
      )
  | inr e ↦
      let h : 1000 < rest = ground (arith, e) in
      rw e (rounds, suc part, omega (arith, s), omega (arith, h, r, l), omega (arith, h, r, l))
]

remaining-IsRest : (n seconds : ℕ) → 0 < n → IsRest n seconds (remaining (1000 * n) seconds)
unfolding remaining
remaining-IsRest n zero h = (0, 0, omega arith, h, omega arith)
remaining-IsRest n (suc seconds) h =
    tick-IsRest n seconds (remaining (1000 * n) seconds) (remaining-IsRest n seconds h)

-- Where the refresh interval that the provider shows, however it was set and loaded, is a number of whole seconds,
-- the countdown shows, any number of seconds after it started, the seconds to the end of the interval that is under
-- way: the whole interval at its start, and one second, never none, before the next starts.
pub interval-IsRest :
    (stored : Option Codes) (es : List RefreshInterval.Event) (n seconds : ℕ)
    → (RefreshInterval.run es (mount stored)).interval ≡ 1000 * n
    → IsRest n seconds (remaining (RefreshInterval.run es (mount stored)).interval seconds)
interval-IsRest stored es n seconds h =
    let low = (run-IsProvider stored es).0 in
    let given : 0 < n = omega (arith, low, h) in
    subst (λ i. IsRest n seconds (remaining i seconds)) (sym h) (remaining-IsRest n seconds given)
