-- ===== src/Times/Tests.antt =====
-- Ages and durations at given numbers of seconds.
use industry_dashboard.Base.{ℕ, ◌+◌, ◌*◌, ◌≤◌, ◌<◌, ◌≡◌, refl, codes, pos, negsuc}
use industry_dashboard.Times.{ago, time_ago, relative_time, seconds_since, format_uptime}
use industry_dashboard.Times.Spans.{size, IsLargest, ago-IsLargest}

hours_test : time_ago (pos 7300) ≡ codes "2h ago"
unfolding time_ago
hours_test = refl

ahead_test : relative_time (seconds_since 1000 3500) ≡ codes "-3 sec ago"
unfolding relative_time seconds_since
ahead_test = refl

uptime_test : format_uptime (pos 93784) ≡ codes "1d 2h 3m"
unfolding format_uptime
uptime_test = refl

negative_test : format_uptime (negsuc 59) ≡ codes "-1d -1h -1m"
unfolding format_uptime
negative_test = refl

ago-IsLargest_example :
    let a = ago (pos 7300) in
    IsLargest 7300 a.measure
    × ((n : ℕ) × (a.count ≡ pos n)
        × (n * size a.measure ≤ 7300)
        × (7300 < (n + 1) * size a.measure))
ago-IsLargest_example = ago-IsLargest 7300
