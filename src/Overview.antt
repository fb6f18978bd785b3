-- ===== src/Overview.antt =====
-- frontend/src/pages/DashboardPage.tsx: the counts of the machines of a line, the cards and the latest alerts;
-- and the list of alerts of frontend/src/components/widgets/AlertListWidget.tsx.
mod Tests
use industry_dashboard.Base.{
  ℕ, ◌+◌, ◌*◌, ◌≤◌, ◌≡◌, refl, ap, ◌∙◌, ◌⊎◌, inl, inr, Bool, true, false, not, List, [], ◌∷◌, ◌++◌,
  map, filter, length, Option, none, some, String, Codes, codes, ltb, ◌==◌, nat_eq, codes_eq, arith,
  if◌then◌else◌, Bool-cases, eq_of_==,
}
use industry_dashboard.Settings.Decimal.{print_nat}
use industry_dashboard.Times.{seconds_since, relative_time}
use industry_dashboard.Hooks.SearchParams.{Params}

pub record Counts : Type 0 where
  pub running : ℕ
  pub offline : ℕ
  pub error : ℕ

abbrev pub no_counts : Counts
no_counts = record { running = 0; offline = 0; error = 0 }

-- `if (s in counts) counts[s]++`
count_one : Codes → Counts → Counts
count_one s c =
    if s == codes "running"
    then record c { running = c.running + 1 }
    else if s == codes "offline"
    then record c { offline = c.offline + 1 }
    else if s == codes "error"
    then record c { error = c.error + 1 }
    else c

-- the loop over the statuses of the machines
unfoldable pub count_all : List Codes → Counts → Counts
unfolding count_one
count_all [] c = c
count_all (s ∷ ss) c = count_all ss (count_one s c)

or_nothing : Option (List Codes) → List Codes
or_nothing none = []
or_nothing (some ss) = ss

unfoldable pub counts : Option (List Codes) → Counts
unfolding count_all or_nothing
counts statuses = count_all (or_nothing statuses) no_counts

-- `{counts.running > 0 && ...}`
count_part : String → ℕ → List (String × ℕ)
count_part key n = if ltb 0 n then (key, n) ∷ [] else []

-- what `LineStatusRow` shows for the statuses: a message, or the counts that are not 0
unfoldable pub status_row : Option (List Codes) → List (String × ℕ)
unfolding counts count_part or_nothing
status_row statuses =
    let c = counts statuses in
    if ltb 0 (length (or_nothing statuses))
    then count_part "dashboard.running" c.running
      ++ (count_part "dashboard.offline" c.offline ++ count_part "dashboard.error" c.error)
    else ("dashboard.noMachines", 0) ∷ []

abbrev pub number_of : String → List Codes → ℕ
number_of s ss = length (filter (λ x. x == codes s) ss)

count_all_lem :
    (ss : List Codes) (c : Counts)
    → let r = count_all ss c in
      (r.running ≡ c.running + number_of "running" ss)
      × (r.offline ≡ c.offline + number_of "offline" ss)
      × (r.error ≡ c.error + number_of "error" ss)
      × (number_of "running" ss + number_of "offline" ss + number_of "error" ss ≤ length ss)
unfolding count_all count_one
count_all_lem [] c = (omega arith, omega arith, omega arith, omega arith)
count_all_lem (s ∷ ss) c = elim (Bool-cases (s == codes "running")) [
  | inl is_running ↦
      let e : s ≡ codes "running" = eq_of_== s (codes "running") is_running in
      let (r, o, x, l) = count_all_lem ss (count_one (codes "running") c) in
      rw e (omega (arith, r), omega (arith, o), omega (arith, x), omega (arith, l))
  | inr not_running ↦ elim (Bool-cases (s == codes "offline")) [
    | inl is_offline ↦
        let e : s ≡ codes "offline" = eq_of_== s (codes "offline") is_offline in
        let (r, o, x, l) = count_all_lem ss (count_one (codes "offline") c) in
        rw e (omega (arith, r), omega (arith, o), omega (arith, x), omega (arith, l))
    | inr not_offline ↦ elim (Bool-cases (s == codes "error")) [
      | inl is_error ↦
          let e : s ≡ codes "error" = eq_of_== s (codes "error") is_error in
          let (r, o, x, l) = count_all_lem ss (count_one (codes "error") c) in
          rw e (omega (arith, r), omega (arith, o), omega (arith, x), omega (arith, l))
      | inr not_error ↦
          let same : count_one s c ≡ c = rw (not_running, not_offline, not_error) refl in
          let (r, o, x, l) = count_all_lem ss (count_one s c) in
          rw (not_running, not_offline, not_error)
            (
              r ∙ ap (λ d. d.running + number_of "running" ss) same,
              o ∙ ap (λ d. d.offline + number_of "offline" ss) same,
              x ∙ ap (λ d. d.error + number_of "error" ss) same,
              omega (arith, l),
            )
    ]
  ]
]

-- The counts of a line are, for each of the three statuses, the number of its machines with that status; together
-- they are at most the number of its machines.
pub counts_lem :
    (ss : List Codes)
    → let c = counts (some ss) in
      (c.running ≡ number_of "running" ss)
      × (c.offline ≡ number_of "offline" ss)
      × (c.error ≡ number_of "error" ss)
      × (c.running + c.offline + c.error ≤ length ss)
unfolding counts or_nothing
counts_lem ss =
    let (r, o, x, l) = count_all_lem ss no_counts in
    (omega (arith, r), omega (arith, o), omega (arith, x), omega (arith, r, o, x, l))

-- an alert event, as the two lists show it
pub record AlertEvent : Type 0 where
  pub severity : Codes
  pub machine_name : Codes
  pub alert_name : Codes
  pub triggered_at : ℕ

-- `(severityStyles[severity] || severityStyles.info).label`
severity_label : Codes → String
severity_label s =
    if s == codes "critical" then "CRIT" else if s == codes "warning" then "WARN" else "INFO"

pub record AlertRow : Type 0 where
  pub label : String
  pub text : Codes
  pub age : Codes

unfoldable pub alert_row : ℕ → AlertEvent → AlertRow
unfolding severity_label seconds_since relative_time
alert_row now e = record {
  label = severity_label e.severity;
  text = e.machine_name ++ (codes " — " ++ e.alert_name);
  age = relative_time (seconds_since now e.triggered_at);
}

-- the rows of either list, or its message
pub alert_rows : String → ℕ → Option (List AlertEvent) → List AlertRow ⊎ String
alert_rows empty now none = inr empty
alert_rows empty now (some []) = inr empty
alert_rows empty now (some (e ∷ es)) = inl (map (alert_row now) (e ∷ es))

or_five : Option ℕ → ℕ
or_five none = 5
or_five (some n) = if n == 0 then 5 else n

-- the parameters of the query of `AlertListWidget`, for the limit of its configuration
pub alert_list_params : Option ℕ → Params
unfolding or_five print_nat
alert_list_params limit =
    (codes "limit", print_nat (or_five limit))
    ∷ (codes "sort_by", codes "triggered_at")
    ∷ (codes "sort_order", codes "desc")
    ∷ []
