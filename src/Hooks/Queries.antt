-- ===== src/Hooks/Queries.antt =====
-- All queries of the client, by the hook or the component that asks: what a query key says of the answer.
use industry_dashboard.Base.{ℕ, String, Option, Codes, codes_eq, string_eq}
use industry_dashboard.Hooks.{Query}
use industry_dashboard.Hooks.SearchParams.{Params}
use industry_dashboard.Hooks.Plant.{
  use_site_lines, use_line_machines, use_site_summary, use_alerts, use_alert_events,
  use_site_machines, use_machine_metrics, use_data_points, use_latest_values,
}
use industry_dashboard.Hooks.Accounts.{
  use_users, use_roles, use_permissions, use_role_permissions, use_audit_logs, use_api_keys,
  use_dashboards, use_dashboard, use_widget_types, use_dashboard_access,
}
use industry_dashboard.Hooks.Workers.{
  use_admin_sites, use_site_detail, use_workers, use_worker_detail, use_worker_running_config,
  use_worker_configs, use_worker_config, use_machine_registers,
}
use industry_dashboard.Hooks.Widgets.{
  machine_detail_metrics_query, machine_detail_latest_query, picker_metrics_query,
  indicator_latest_query, line_chart_points_query, bar_chart_average_query, pie_chart_latest_query,
  db_env_query,
}

pub data Hook : Type 0 where
  site_lines : Option Codes → Hook
  line_machines : Option Codes → Hook
  site_summary : Option Codes → Hook
  alerts : Option Codes → Option Params → Hook
  alert_events : Option Codes → Option Params → Hook
  site_machines : Option Codes → Hook
  machine_metrics : Option Codes → Hook
  data_points : Option Codes → Codes → Codes → Hook
  latest_values : Option Codes → Hook
  users : Hook
  roles : Hook
  permissions : Hook
  role_permissions : Option Codes → Hook
  audit_logs : Option Params → Hook
  api_keys : Hook
  dashboards : Option Codes → Hook
  dashboard : Option Codes → Hook
  widget_types : Hook
  dashboard_access : Option Codes → Hook
  admin_sites : Hook
  site_detail : Option Codes → Hook
  workers : Hook
  worker_detail : Option Codes → Hook
  worker_running_config : Option Codes → Hook
  worker_configs : Hook
  worker_config : Option Codes → Hook
  machine_registers : Option Codes → Hook
  machine_detail_metrics : Option Codes → Hook
  machine_detail_latest : Option Codes → Hook
  picker_metrics : Codes → Hook
  indicator_latest : Option Codes → Hook
  line_chart_points : Codes → Codes → Codes → Hook
  bar_chart_average : Codes → Codes → Codes → Hook
  pie_chart_latest : Codes → Codes → Hook
  db_env : String → Hook

-- the query of a hook while the refresh interval is `ri`
unfoldable pub query_of : ℕ → Hook → Query
unfolding use_site_lines use_line_machines use_site_summary use_alerts use_alert_events
    use_site_machines use_machine_metrics use_data_points use_latest_values use_users use_roles
    use_permissions use_role_permissions use_audit_logs use_api_keys use_dashboards use_dashboard
    use_widget_types use_dashboard_access use_admin_sites use_site_detail use_workers
    use_worker_detail use_worker_running_config use_worker_configs use_worker_config
    use_machine_registers machine_detail_metrics_query machine_detail_latest_query
    picker_metrics_query indicator_latest_query line_chart_points_query bar_chart_average_query
    pie_chart_latest_query db_env_query
query_of ri (site_lines a) = use_site_lines a
query_of ri (line_machines a) = use_line_machines a
query_of ri (site_summary a) = use_site_summary ri a
query_of ri (alerts a b) = use_alerts a b
query_of ri (alert_events a b) = use_alert_events ri a b
query_of ri (site_machines a) = use_site_machines a
query_of ri (machine_metrics a) = use_machine_metrics a
query_of ri (data_points a b c) = use_data_points a b c
query_of ri (latest_values a) = use_latest_values ri a
query_of ri users = use_users
query_of ri roles = use_roles
query_of ri permissions = use_permissions
query_of ri (role_permissions a) = use_role_permissions a
query_of ri (audit_logs a) = use_audit_logs a
query_of ri api_keys = use_api_keys
query_of ri (dashboards a) = use_dashboards a
query_of ri (dashboard a) = use_dashboard a
query_of ri widget_types = use_widget_types
query_of ri (dashboard_access a) = use_dashboard_access a
query_of ri admin_sites = use_admin_sites
query_of ri (site_detail a) = use_site_detail a
query_of ri workers = use_workers ri
query_of ri (worker_detail a) = use_worker_detail ri a
query_of ri (worker_running_config a) = use_worker_running_config ri a
query_of ri worker_configs = use_worker_configs
query_of ri (worker_config a) = use_worker_config a
query_of ri (machine_registers a) = use_machine_registers a
query_of ri (machine_detail_metrics a) = machine_detail_metrics_query a
query_of ri (machine_detail_latest a) = machine_detail_latest_query a
query_of ri (picker_metrics a) = picker_metrics_query a
query_of ri (indicator_latest a) = indicator_latest_query a
query_of ri (line_chart_points a b c) = line_chart_points_query a b c
query_of ri (bar_chart_average a b c) = bar_chart_average_query a b c
query_of ri (pie_chart_latest a b) = pie_chart_latest_query a b
query_of ri (db_env a) = db_env_query a
