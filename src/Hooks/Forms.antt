-- ===== src/Hooks/Forms.antt =====
-- What a query key says of the query: the form of its result.
use industry_dashboard.Base.{
  ℕ, ◌≡◌, ◌⊎◌, inl, inr, refl, sym, ap, ◌∙◌, List, [], ◌∷◌, Option, none, some, Codes, codes,
  codes_eq, string_eq, if◌then◌else◌, includes,
}
use industry_dashboard.Hooks.{
  Part, Result, text, rows, object, page_of_rows, values, texts, source_value, key_named,
}
use industry_dashboard.Hooks.Plant.{
  use_site_lines, use_line_machines, use_site_summary, use_alerts, use_alert_events,
  use_site_machines, use_machine_metrics, use_data_points, use_latest_values,
}
use industry_dashboard.Hooks.Accounts.{
  use_users, use_roles, use_permissions, use_role_permissions, use_audit_logs, use_api_keys,
  use_dashboards, use_dashboard, use_widget_types, use_dashboard_access,
}
use industry_dashboard.Hooks.Workers.{
  use_admin_sites, use_site_detail, use_workers, use_worker_detail, use_worker_running_config,
  use_worker_configs, use_worker_config, use_machine_registers,
}
use industry_dashboard.Hooks.Widgets.{
  machine_detail_metrics_query, machine_detail_latest_query, picker_metrics_query,
  indicator_latest_query, line_chart_points_query, bar_chart_average_query, pie_chart_latest_query,
  db_env_query,
}
use industry_dashboard.Hooks.Queries.{
  Hook, query_of, site_lines, line_machines, site_summary, alerts, alert_events, site_machines,
  machine_metrics, data_points, latest_values, users, roles, permissions, role_permissions,
  audit_logs, api_keys, dashboards, dashboard, widget_types, dashboard_access, admin_sites,
  site_detail, workers, worker_detail, worker_running_config, worker_configs, worker_config,
  machine_registers, machine_detail_metrics, machine_detail_latest, picker_metrics,
  indicator_latest, line_chart_points, bar_chart_average, pie_chart_latest, db_env,
}
use industry_dashboard.Hooks.Keys.{path_of_same_key}

abbrev pub first_part : List Part → Option Part
first_part [] = none
first_part (p ∷ ps) = some p

-- the name in front of a key
name_of : Option Part → Codes
name_of (some (text name)) = name
name_of _ = []

-- what a query with the given key resolves to, if its name is not `datapoints`
result_of_name : Codes → Result
result_of_name name =
    if includes name (
      codes "site-summary"
      ∷ codes "dashboard"
      ∷ codes "site-detail"
      ∷ codes "worker-detail"
      ∷ codes "worker-running-config"
      ∷ codes "worker-config"
      ∷ codes "machine-registers"
      ∷ codes "system-db-env"
      ∷ [])
    then object
    else if includes name (codes "alert-events" ∷ codes "audit-logs" ∷ [])
    then page_of_rows
    else if includes name (codes "machine-latest" ∷ [])
    then values
    else if includes name (codes "machine-metrics" ∷ [])
    then texts
    else if includes name (codes "datapoints-latest-avg" ∷ codes "datapoints-latest" ∷ [])
    then source_value
    else rows

result-query_of :
    (ri : ℕ) (h : Hook)
    → ((query_of ri h).result ≡ result_of_name (name_of (first_part (query_of ri h).query_key)))
      ⊎ (first_part (query_of ri h).query_key ≡ some (key_named "datapoints"))
unfolding query_of name_of result_of_name use_site_lines use_line_machines use_site_summary
    use_alerts use_alert_events use_site_machines use_machine_metrics use_data_points
    use_latest_values use_users use_roles use_permissions use_role_permissions use_audit_logs
    use_api_keys use_dashboards use_dashboard use_widget_types use_dashboard_access use_admin_sites
    use_site_detail use_workers use_worker_detail use_worker_running_config use_worker_configs
    use_worker_config use_machine_registers machine_detail_metrics_query machine_detail_latest_query
    picker_metrics_query indicator_latest_query line_chart_points_query bar_chart_average_query
    pie_chart_latest_query db_env_query
result-query_of ri (site_lines a) = inl refl
result-query_of ri (line_machines a) = inl refl
result-query_of ri (site_summary a) = inl refl
result-query_of ri (alerts a b) = inl refl
result-query_of ri (alert_events a b) = inl refl
result-query_of ri (site_machines a) = inl refl
result-query_of ri (machine_metrics a) = inl refl
result-query_of ri (data_points a b c) = inr refl
result-query_of ri (latest_values a) = inl refl
result-query_of ri users = inl refl
result-query_of ri roles = inl refl
result-query_of ri permissions = inl refl
result-query_of ri (role_permissions a) = inl refl
result-query_of ri (audit_logs a) = inl refl
result-query_of ri api_keys = inl refl
result-query_of ri (dashboards a) = inl refl
result-query_of ri (dashboard a) = inl refl
result-query_of ri widget_types = inl refl
result-query_of ri (dashboard_access a) = inl refl
result-query_of ri admin_sites = inl refl
result-query_of ri (site_detail a) = inl refl
result-query_of ri workers = inl refl
result-query_of ri (worker_detail a) = inl refl
result-query_of ri (worker_running_config a) = inl refl
result-query_of ri worker_configs = inl refl
result-query_of ri (worker_config a) = inl refl
result-query_of ri (machine_registers a) = inl refl
result-query_of ri (machine_detail_metrics a) = inl refl
result-query_of ri (machine_detail_latest a) = inl refl
result-query_of ri (picker_metrics a) = inl refl
result-query_of ri (indicator_latest a) = inl refl
result-query_of ri (line_chart_points a b c) = inr refl
result-query_of ri (bar_chart_average a b c) = inl refl
result-query_of ri (pie_chart_latest a b) = inl refl
result-query_of ri (db_env a) = inl refl

-- Two queries of the client with the same key, of whatever hook or component, ask for the same path, and
-- what they resolve to has the same form, or the key is one of `datapoints`.
pub query_of_same_key :
    (ri : ℕ) (g h : Hook)
    → (query_of ri g).query_key ≡ (query_of ri h).query_key
    → ((query_of ri g).path ≡ (query_of ri h).path)
      × (((query_of ri g).result ≡ (query_of ri h).result)
          ⊎ (first_part (query_of ri g).query_key ≡ some (key_named "datapoints")))
query_of_same_key ri g h e = (path_of_same_key ri g h e, same_result)
  where
    same_result :
        ((query_of ri g).result ≡ (query_of ri h).result)
        ⊎ (first_part (query_of ri g).query_key ≡ some (key_named "datapoints"))
    same_result = elim (result-query_of ri g) [
      | inr points ↦ inr points
      | inl left ↦ elim (result-query_of ri h) [
        | inr points ↦ inr (ap first_part e ∙ points)
        | inl right ↦ inl (left ∙ (ap (λ k. result_of_name (name_of (first_part k))) e ∙ sym right))
      ]
    ]
