-- ===== src/WorkerConfig/Validation.antt =====
-- The validation helpers of frontend/src/pages/admin/WorkerConfigEditPage.tsx. A port and a slave id
-- are integers: they are read by `parseInt` or come from integer columns.
pub mod Accepted
use industry_dashboard.Base.{
  ℕ, ◌≡◌, Bool, true, false, ◌&&◌, ◌||◌, List, [], ◌∷◌, Codes, trim, is_empty, leb, ◌==◌, nat_eq, ℤ,
  is_between, if◌then◌else◌,
}
use industry_dashboard.WorkerConfig.Pattern.{
  Regex, class, seq, star, plus, one_to_three, three, test,
}

-- `\d`
abbrev pub is_digit : ℕ → Bool
is_digit c = leb b'0' c && leb c b'9'

-- `[smh]`
abbrev pub is_unit : ℕ → Bool
is_unit c = c == b's' || c == b'm' || c == b'h'

-- `[a-zA-Z0-9]`
abbrev pub is_alnum : ℕ → Bool
is_alnum c = (leb b'a' c && leb c b'z') || (leb b'A' c && leb c b'Z') || is_digit c

-- `[a-zA-Z0-9._-]`
abbrev pub is_host_char : ℕ → Bool
is_host_char c = is_alnum c || c == b'.' || c == b'_' || c == b'-'

abbrev pub poll_pattern : Regex
poll_pattern = seq (plus (class is_digit)) (class is_unit)

abbrev pub ip_part : Regex
ip_part = one_to_three (class is_digit)

abbrev pub ip_pattern : Regex
ip_pattern = seq (three (seq ip_part (class (λ c. c == b'.')))) ip_part

abbrev pub host_pattern : Regex
host_pattern = seq (class is_alnum) (star (class is_host_char))

-- `isValidPollInterval`
unfoldable pub is_valid_poll_interval : Codes → Bool
unfolding test trim
is_valid_poll_interval v = test poll_pattern (trim v)

-- `isValidHost`
unfoldable pub is_valid_host : Codes → Bool
unfolding test
is_valid_host v = if is_empty v then false else test ip_pattern v || test host_pattern v

-- `isValidPort`
unfoldable pub is_valid_port : ℤ → Bool
unfolding is_between
is_valid_port v = is_between 1 65535 v

-- `isValidSlaveId`
unfoldable pub is_valid_slave_id : ℤ → Bool
unfolding is_between
is_valid_slave_id v = is_between 1 247 v
