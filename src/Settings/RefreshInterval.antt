-- ===== src/Settings/RefreshInterval.antt =====
-- frontend/src/lib/refresh-interval.tsx. The entry of `localStorage` is `none` where there is none.
use industry_dashboard.Base.{
  ℕ, ◌≤◌, ◌≡◌, refl, max, leb, List, [], ◌∷◌, Option, none, some, Codes, is_empty, ℤ, pos, negsuc,
  arith, if◌then◌else◌,
}
use industry_dashboard.Settings.Decimal.{
  print_nat, parse_int, parse_int-print_nat, is_empty-print_nat,
}

abbrev default_interval : ℕ
default_interval = 30000

abbrev min_interval : ℕ
min_interval = 5000

-- `if (val >= 5000) return val`; NaN is not
accept : Option ℤ → ℕ
accept none = default_interval
accept (some (pos n)) = if leb min_interval n then n else default_interval
accept (some (negsuc n)) = default_interval

-- `loadInterval`
unfoldable pub load_interval : Option Codes → ℕ
unfolding accept parse_int
load_interval none = default_interval
load_interval (some s) = if is_empty s then default_interval else accept (parse_int s)

pub record Provider : Type 0 where
  pub interval : ℕ
  pub stored : Option Codes

-- the provider is mounted anew when the page is loaded
pub mount : Option Codes → Provider
unfolding load_interval
mount stored = record { interval = load_interval stored; stored = stored }

-- `Math.max(ms, 5000)`
abbrev clamp : ℤ → ℕ
clamp (pos n) = max n min_interval
clamp (negsuc n) = min_interval

set_interval : ℤ → Provider → Provider
unfolding print_nat
set_interval ms p = record { interval = clamp ms; stored = some (print_nat (clamp ms)) }

pub data Event : Type 0 where
  set : (ms : ℤ) → Event
  reload : Event

unfoldable pub run : List Event → Provider → Provider
unfolding mount set_interval
run [] p = p
run (set ms ∷ es) p = run es (set_interval ms p)
run (reload ∷ es) p = run es (mount p.stored)

-- What the provider shows is what is stored, and it is not too short.
abbrev pub IsProvider : Provider → Type 0
IsProvider p = (min_interval ≤ p.interval) × (load_interval p.stored ≡ p.interval)

min-accept : (v : Option ℤ) → min_interval ≤ accept v
unfolding accept
min-accept none = omega arith
min-accept (some (pos n)) = ground arith
min-accept (some (negsuc n)) = omega arith

min-load_interval : (stored : Option Codes) → min_interval ≤ load_interval stored
unfolding load_interval
min-load_interval none = omega arith
min-load_interval (some s) = ground (arith, min-accept (parse_int s))

min-clamp : (ms : ℤ) → min_interval ≤ clamp ms
min-clamp (pos n) = omega arith
min-clamp (negsuc n) = omega arith

load_interval-print : (n : ℕ) → min_interval ≤ n → load_interval (some (print_nat n)) ≡ n
unfolding load_interval accept
load_interval-print n h = rw (is_empty-print_nat n, parse_int-print_nat n) (ground (arith, h))

-- However intervals are set and the page is loaded again, from a mount over any stored entry: the
-- interval is 5000 milliseconds or more, and reading the store gives the interval that is shown.
pub run-IsProvider : (stored : Option Codes) (es : List Event) → IsProvider (run es (mount stored))
unfolding run
run-IsProvider stored es = from es (mount stored) (min-load_interval stored, refl)
  where
    from : (es : List Event) (p : Provider) → IsProvider p → IsProvider (run es p)
    from [] p i = i
    from (set ms ∷ es) p i =
        from es (set_interval ms p) (min-clamp ms, load_interval-print (clamp ms) (min-clamp ms))
    from (reload ∷ es) p i = from es (mount p.stored) (min-load_interval p.stored, refl)
