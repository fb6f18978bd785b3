-- ===== src/Hooks/Keys.antt =====
-- What a query key says of the query: the path that it asks for.
use industry_dashboard.Base.{
  ℕ, ◌≡◌, refl, sym, ap, ◌∙◌, List, [], ◌∷◌, ◌++◌, Option, none, some, Codes, codes, ◌==◌, codes_eq,
  string_eq, if◌then◌else◌,
}
use industry_dashboard.Hooks.{Part, text, fields, undefined, shown, id_part, params_part}
use industry_dashboard.Hooks.SearchParams.{Params, search_params, site_params}
use industry_dashboard.Hooks.Plant.{
  use_site_lines, use_line_machines, use_site_summary, use_alerts, use_alert_events,
  use_site_machines, use_machine_metrics, use_data_points, use_latest_values, or_no_params,
  datapoints_path, or_empty,
}
use industry_dashboard.Hooks.Accounts.{
  use_users, use_roles, use_permissions, use_role_permissions, use_audit_logs, use_api_keys,
  use_dashboards, use_dashboard, use_widget_types, use_dashboard_access,
}
use industry_dashboard.Hooks.Workers.{
  use_admin_sites, use_site_detail, use_workers, use_worker_detail, use_worker_running_config,
  use_worker_configs, use_worker_config, use_machine_registers,
}
use industry_dashboard.Hooks.Widgets.{
  machine_detail_metrics_query, machine_detail_latest_query, picker_metrics_query,
  indicator_latest_query, line_chart_points_query, bar_chart_average_query, pie_chart_latest_query,
  db_env_query,
}
use industry_dashboard.Hooks.Queries.{
  Hook, query_of, site_lines, line_machines, site_summary, alerts, alert_events, site_machines,
  machine_metrics, data_points, latest_values, users, roles, permissions, role_permissions,
  audit_logs, api_keys, dashboards, dashboard, widget_types, dashboard_access, admin_sites,
  site_detail, workers, worker_detail, worker_running_config, worker_configs, worker_config,
  machine_registers, machine_detail_metrics, machine_detail_latest, picker_metrics,
  indicator_latest, line_chart_points, bar_chart_average, pie_chart_latest, db_env,
}

-- the id that a part of a key stands for, and its parameters
id_of : Part → Option Codes
id_of undefined = none
id_of (text s) = some s
id_of (fields ps) = none

params_of : Part → Option Params
params_of undefined = none
params_of (text s) = none
params_of (fields ps) = some ps

id_of-id_part : (o : Option Codes) → id_of (id_part o) ≡ o
unfolding id_of
id_of-id_part none = refl
id_of-id_part (some s) = refl

params_of-params_part : (o : Option Params) → params_of (params_part o) ≡ o
unfolding params_of
params_of-params_part none = refl
params_of-params_part (some ps) = refl

-- the path of a query whose key has one part, or the part `id` after its name
fixed_path : Codes → Codes
fixed_path name =
    if name == codes "users"
    then codes "/users"
    else if name == codes "roles"
    then codes "/rbac/roles"
    else if name == codes "permissions"
    then codes "/rbac/permissions"
    else if name == codes "api-keys"
    then codes "/llm/keys"
    else if name == codes "widget-types"
    then codes "/widget-types"
    else if name == codes "admin-sites"
    then codes "/admin/sites"
    else if name == codes "workers"
    then codes "/workers"
    else if name == codes "worker-configs"
    then codes "/worker-configs"
    else if name == codes "system-db-env"
    then codes "/system/db-env"
    else []

id_path : Codes → Option Codes → Codes
id_path name id =
    if name == codes "lines"
    then codes "/sites/" ++ (shown id ++ codes "/lines")
    else if name == codes "machines"
    then codes "/lines/" ++ (shown id ++ codes "/machines")
    else if name == codes "site-summary"
    then codes "/sites/" ++ (shown id ++ codes "/summary")
    else if name == codes "site-machines"
    then codes "/site-machines?site_id=" ++ shown id
    else if name == codes "machine-register-metrics"
    then codes "/machines/" ++ (shown id ++ codes "/register-metrics")
    else if name == codes "machine-latest"
    then codes "/machines/" ++ (shown id ++ codes "/latest")
    else if name == codes "role-permissions"
    then codes "/rbac/roles/" ++ (shown id ++ codes "/permissions")
    else if name == codes "dashboards"
    then codes "/dashboards?site_id=" ++ shown id
    else if name == codes "dashboard"
    then codes "/dashboards/" ++ shown id
    else if name == codes "dashboard-access"
    then codes "/dashboards/" ++ (shown id ++ codes "/access")
    else if name == codes "site-detail"
    then codes "/sites/" ++ (shown id ++ codes "/detail")
    else if name == codes "worker-detail"
    then codes "/workers/" ++ shown id
    else if name == codes "worker-running-config"
    then codes "/workers/" ++ (shown id ++ codes "/config")
    else if name == codes "worker-config"
    then codes "/worker-configs/" ++ shown id
    else if name == codes "machine-registers"
    then codes "/machines/" ++ (shown id ++ codes "/registers")
    else if name == codes "machine-metrics"
    then codes "/machines/" ++ (shown id ++ codes "/metrics")
    else []

-- the path that a query with the given key asks for
path_of_key : List Part → Codes
unfolding id_of params_of fixed_path id_path
path_of_key (text name ∷ []) = fixed_path name
path_of_key (text name ∷ p ∷ []) =
    if name == codes "audit-logs"
    then codes "/audit-logs?" ++ search_params (or_no_params (params_of p))
    else id_path name (id_of p)
path_of_key (text name ∷ p ∷ q ∷ []) =
    if name == codes "alerts"
    then codes "/alerts?" ++ site_params (or_empty (id_of p)) (or_no_params (params_of q))
    else if name == codes "alert-events"
    then codes "/alert-events?" ++ site_params (or_empty (id_of p)) (or_no_params (params_of q))
    else codes "/machines/" ++ (shown (id_of p) ++ codes "/latest")
path_of_key (text name ∷ p ∷ text metric ∷ text time_range ∷ []) =
    datapoints_path (id_of p) metric time_range
path_of_key _ = []

path-query_of : (ri : ℕ) (h : Hook) → path_of_key (query_of ri h).query_key ≡ (query_of ri h).path
unfolding query_of path_of_key use_site_lines use_line_machines use_site_summary use_alerts
    use_alert_events use_site_machines use_machine_metrics use_data_points use_latest_values
    use_users use_roles use_permissions use_role_permissions use_audit_logs use_api_keys
    use_dashboards use_dashboard use_widget_types use_dashboard_access use_admin_sites
    use_site_detail use_workers use_worker_detail use_worker_running_config use_worker_configs
    use_worker_config use_machine_registers machine_detail_metrics_query machine_detail_latest_query
    picker_metrics_query indicator_latest_query line_chart_points_query bar_chart_average_query
    pie_chart_latest_query db_env_query
path-query_of ri (site_lines a) = rw (id_of-id_part a) refl
path-query_of ri (line_machines a) = rw (id_of-id_part a) refl
path-query_of ri (site_summary a) = rw (id_of-id_part a) refl
path-query_of ri (alerts a b) = rw (id_of-id_part a, params_of-params_part b) refl
path-query_of ri (alert_events a b) = rw (id_of-id_part a, params_of-params_part b) refl
path-query_of ri (site_machines a) = rw (id_of-id_part a) refl
path-query_of ri (machine_metrics a) = rw (id_of-id_part a) refl
path-query_of ri (data_points a b c) = rw (id_of-id_part a) refl
path-query_of ri (latest_values a) = rw (id_of-id_part a) refl
path-query_of ri users = refl
path-query_of ri roles = refl
path-query_of ri permissions = refl
path-query_of ri (role_permissions a) = rw (id_of-id_part a) refl
path-query_of ri (audit_logs a) = rw (params_of-params_part a) refl
path-query_of ri api_keys = refl
path-query_of ri (dashboards a) = rw (id_of-id_part a) refl
path-query_of ri (dashboard a) = rw (id_of-id_part a) refl
path-query_of ri widget_types = refl
path-query_of ri (dashboard_access a) = rw (id_of-id_part a) refl
path-query_of ri admin_sites = refl
path-query_of ri (site_detail a) = rw (id_of-id_part a) refl
path-query_of ri workers = refl
path-query_of ri (worker_detail a) = rw (id_of-id_part a) refl
path-query_of ri (worker_running_config a) = rw (id_of-id_part a) refl
path-query_of ri worker_configs = refl
path-query_of ri (worker_config a) = rw (id_of-id_part a) refl
path-query_of ri (machine_registers a) = rw (id_of-id_part a) refl
path-query_of ri (machine_detail_metrics a) = rw (id_of-id_part a) refl
path-query_of ri (machine_detail_latest a) = rw (id_of-id_part a) refl
path-query_of ri (picker_metrics a) = refl
path-query_of ri (indicator_latest a) = rw (id_of-id_part a) refl
path-query_of ri (line_chart_points a b c) = refl
path-query_of ri (bar_chart_average a b c) = refl
path-query_of ri (pie_chart_latest a b) = refl
path-query_of ri (db_env a) = refl

pub path_of_same_key :
    (ri : ℕ) (g h : Hook)
    → (query_of ri g).query_key ≡ (query_of ri h).query_key
    → (query_of ri g).path ≡ (query_of ri h).path
path_of_same_key ri g h e = sym (path-query_of ri g) ∙ (ap path_of_key e ∙ path-query_of ri h)
