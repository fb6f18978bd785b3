-- ===== src/Times.antt =====
-- The ages and durations that the client prints: `timeAgo` of frontend/src/components/admin/WorkerTable.tsx
-- and WorkerDetail.tsx, `formatUptime` of the latter, `relativeTime` of pages/DashboardPage.tsx,
-- pages/dashboards/DashboardListPage.tsx and components/widgets/AlertListWidget.tsx. The instants are
-- milliseconds; a clock that runs behind the server's gives a negative age.
pub mod Spans
mod Tests
use industry_dashboard.Base.{
  ℕ, zero, suc, ◌+◌, ◌-◌, ◌*◌, ◌/◌, ◌%◌, Bool, true, false, ◌++◌, Codes, codes, String, ltb, leb, ℤ,
  pos, negsuc, if◌then◌else◌,
}
use industry_dashboard.Settings.Decimal.{print_int}

-- `Math.floor(a / n)`
pub floor_div : ℤ → ℕ → ℤ
floor_div (pos a) n = pos (a / n)
floor_div (negsuc a) n = negsuc (a / n)

-- the negative of a number
negated : ℕ → ℤ
negated zero = pos zero
negated (suc n) = negsuc n

-- `a % n`, which has the sign of `a`
pub remainder : ℤ → ℕ → ℤ
unfolding negated
remainder (pos a) n = pos (a % n)
remainder (negsuc a) n = negated (suc a % n)

-- `a < n`
pub is_below : ℤ → ℕ → Bool
is_below (pos a) n = ltb a n
is_below (negsuc a) n = true

difference : ℕ → ℕ → ℤ
unfolding negated
difference now start = if leb start now then pos (now - start) else negated (start - now)

-- `Math.floor((Date.now() - new Date(dateStr).getTime()) / 1000)`
unfoldable pub seconds_since : ℕ → ℕ → ℤ
unfolding difference floor_div
seconds_since now start = floor_div (difference now start) 1000

-- What is printed of an age: a number of units.
pub data Measure : Type 0 where
  second minute hour day : Measure

pub record Span : Type 0 where
  pub count : ℤ
  pub measure : Measure

-- the chain of tests that `timeAgo` and `relativeTime` share
unfoldable pub ago : ℤ → Span
unfolding floor_div is_below
ago seconds =
    let minutes = floor_div seconds 60 in
    let hours = floor_div minutes 60 in
    if is_below seconds 60
    then record { count = seconds; measure = second }
    else if is_below minutes 60
    then record { count = minutes; measure = minute }
    else if is_below hours 24
    then record { count = hours; measure = hour }
    else record { count = floor_div hours 24; measure = day }

abbrev short_name : Measure → Codes
short_name second = codes "s ago"
short_name minute = codes "m ago"
short_name hour = codes "h ago"
short_name day = codes "d ago"

abbrev long_name : Measure → Codes
long_name second = codes " sec ago"
long_name minute = codes " min ago"
long_name hour = codes " hr ago"
long_name day = codes " day ago"

-- `timeAgo`
unfoldable pub time_ago : ℤ → Codes
unfolding ago print_int
time_ago seconds = let s = ago seconds in print_int s.count ++ short_name s.measure

-- `relativeTime`
unfoldable pub relative_time : ℤ → Codes
unfolding ago print_int
relative_time seconds = let s = ago seconds in print_int s.count ++ long_name s.measure

-- the three numbers of `formatUptime`
pub record Uptime : Type 0 where
  pub days : ℤ
  pub hours : ℤ
  pub minutes : ℤ

unfoldable pub uptime : ℤ → Uptime
unfolding floor_div remainder
uptime seconds = record {
  days = floor_div seconds 86400;
  hours = floor_div (remainder seconds 86400) 3600;
  minutes = floor_div (remainder seconds 3600) 60;
}

-- `formatUptime`
unfoldable pub format_uptime : ℤ → Codes
unfolding uptime print_int
format_uptime seconds =
    let u = uptime seconds in
    print_int u.days
    ++ (codes "d " ++ (print_int u.hours ++ (codes "h " ++ (print_int u.minutes ++ codes "m"))))
