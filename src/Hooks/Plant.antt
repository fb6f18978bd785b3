-- ===== src/Hooks/Plant.antt =====
-- Queries of frontend/src/lib/hooks.ts about the sites, the lines, the machines and the alerts.
use industry_dashboard.Base.{
  ℕ, not, ◌&&◌, [], ◌∷◌, ◌++◌, Option, none, some, Codes, codes, is_empty, string_eq,
}
use industry_dashboard.Hooks.{
  Query, text, rows, object, page_of_rows, values, is_given, shown, id_part, params_part, key_named,
}
use industry_dashboard.Hooks.SearchParams.{Params, site_params}

-- `siteId ?? ''`
abbrev pub or_empty : Option Codes → Codes
or_empty none = []
or_empty (some s) = s

-- `...undefined` spreads nothing
abbrev pub or_no_params : Option Params → Params
or_no_params none = []
or_no_params (some ps) = ps

abbrev pub datapoints_path : Option Codes → Codes → Codes → Codes
datapoints_path machine_id metric time_range =
    codes "/datapoints?machine_id="
    ++ (shown machine_id ++ (codes "&metric=" ++ (metric ++ (codes "&range=" ++ time_range))))

unfoldable pub use_site_lines : Option Codes → Query
use_site_lines site_id = record {
  query_key = key_named "lines" ∷ id_part site_id ∷ [];
  path = codes "/sites/" ++ (shown site_id ++ codes "/lines");
  enabled = is_given site_id;
  refetch_interval = none;
  result = rows;
}

unfoldable pub use_line_machines : Option Codes → Query
use_line_machines line_id = record {
  query_key = key_named "machines" ∷ id_part line_id ∷ [];
  path = codes "/lines/" ++ (shown line_id ++ codes "/machines");
  enabled = is_given line_id;
  refetch_interval = none;
  result = rows;
}

unfoldable pub use_site_summary : ℕ → Option Codes → Query
use_site_summary ri site_id = record {
  query_key = key_named "site-summary" ∷ id_part site_id ∷ [];
  path = codes "/sites/" ++ (shown site_id ++ codes "/summary");
  enabled = is_given site_id;
  refetch_interval = some ri;
  result = object;
}

unfoldable pub use_alerts : Option Codes → Option Params → Query
unfolding site_params
use_alerts site_id params = record {
  query_key = key_named "alerts" ∷ id_part site_id ∷ params_part params ∷ [];
  path = codes "/alerts?" ++ site_params (or_empty site_id) (or_no_params params);
  enabled = is_given site_id;
  refetch_interval = none;
  result = rows;
}

unfoldable pub use_alert_events : ℕ → Option Codes → Option Params → Query
unfolding site_params
use_alert_events ri site_id params = record {
  query_key = key_named "alert-events" ∷ id_part site_id ∷ params_part params ∷ [];
  path = codes "/alert-events?" ++ site_params (or_empty site_id) (or_no_params params);
  enabled = is_given site_id;
  refetch_interval = some ri;
  result = page_of_rows;
}

unfoldable pub use_site_machines : Option Codes → Query
use_site_machines site_id = record {
  query_key = key_named "site-machines" ∷ id_part site_id ∷ [];
  path = codes "/site-machines?site_id=" ++ shown site_id;
  enabled = is_given site_id;
  refetch_interval = none;
  result = rows;
}

unfoldable pub use_machine_metrics : Option Codes → Query
use_machine_metrics machine_id = record {
  query_key = key_named "machine-register-metrics" ∷ id_part machine_id ∷ [];
  path = codes "/machines/" ++ (shown machine_id ++ codes "/register-metrics");
  enabled = is_given machine_id;
  refetch_interval = none;
  result = rows;
}

unfoldable pub use_data_points : Option Codes → Codes → Codes → Query
use_data_points machine_id metric time_range = record {
  query_key = key_named "datapoints" ∷ id_part machine_id ∷ text metric ∷ text time_range ∷ [];
  path = datapoints_path machine_id metric time_range;
  enabled = is_given machine_id && not (is_empty metric);
  refetch_interval = none;
  result = rows;
}

unfoldable pub use_latest_values : ℕ → Option Codes → Query
use_latest_values ri machine_id = record {
  query_key = key_named "machine-latest" ∷ id_part machine_id ∷ [];
  path = codes "/machines/" ++ (shown machine_id ++ codes "/latest");
  enabled = is_given machine_id;
  refetch_interval = some ri;
  result = values;
}
