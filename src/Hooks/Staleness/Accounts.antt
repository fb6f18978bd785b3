-- ===== src/Hooks/Staleness/Accounts.antt =====
-- The marks on the pages of the accounts, the dashboards and the workers.
use industry_dashboard.Base.{ℕ, ◌≡◌, refl, true, not, codes_eq, Codes}
use industry_dashboard.Hooks.Queries.{Hook, query_of}
use industry_dashboard.Hooks.Mutations.{Action, mutation_of}
use industry_dashboard.Hooks.Pages
use industry_dashboard.Hooks.Pages.{Page, Shown, Offered}
use industry_dashboard.Hooks.Facts.{touches}
use industry_dashboard.Hooks.Workers.{
  use_admin_sites, use_machine_registers, use_site_detail, use_worker_config, use_worker_configs,
  use_worker_detail, use_worker_running_config, use_workers,
}
use industry_dashboard.Hooks.Accounts.{
  use_api_keys, use_dashboard, use_dashboard_access, use_dashboards, use_permissions,
  use_role_permissions, use_roles, use_users, use_widget_types,
}
use industry_dashboard.Hooks.Actions.{
  use_assign_role, use_create_api_key, use_create_dashboard, use_create_role, use_delete_dashboard,
  use_remove_role_assignment, use_revoke_api_key, use_save_widgets, use_set_dashboard_access,
  use_update_dashboard,
}
use industry_dashboard.Hooks.Sent.{
  use_delete_worker_config, use_send_worker_command, use_set_config_machines,
  use_set_machine_registers, use_update_worker_config,
}
use industry_dashboard.Hooks.Staleness.{
  QueryClient, is_left, is_stale, stale_first, stale_second, not_stale,
}

module _ (client : QueryClient) {N : Type 0} (print : N → Codes) (ri : ℕ) where
  pub api_keys_page-marks :
      (h : Hook) (a : Action N)
      → Shown Pages.api_keys_page h
      → Offered N Pages.api_keys_page a
      → touches a h ≡ true
      → is_stale client (mutation_of print a) (query_of ri h) ≡ not (is_left a h)
  unfolding touches query_of mutation_of use_dashboards use_api_keys use_create_api_key
      use_revoke_api_key
  api_keys_page-marks h a Pages.api_keys_api_keys Pages.api_keys_create_api_key t =
      stale_first client _ _ _ refl refl
  api_keys_page-marks h a Pages.api_keys_api_keys Pages.api_keys_revoke_api_key t =
      stale_first client _ _ _ refl refl
  api_keys_page-marks h a Pages.api_keys_sidebar Pages.api_keys_create_api_key t = cc
  api_keys_page-marks h a Pages.api_keys_sidebar Pages.api_keys_revoke_api_key t = cc

  pub roles_page-marks :
      {role_id : Codes}
      → (h : Hook) (a : Action N) → Shown (Pages.roles_page role_id) h
      → Offered N (Pages.roles_page role_id) a
      → touches a h ≡ true
      → is_stale client (mutation_of print a) (query_of ri h) ≡ not (is_left a h)
  unfolding touches query_of mutation_of use_dashboards use_create_role use_permissions
      use_role_permissions use_roles
  roles_page-marks h a Pages.roles_roles Pages.roles_create_role t =
      stale_first client _ _ _ refl refl
  roles_page-marks h a Pages.roles_permissions Pages.roles_create_role t = cc
  roles_page-marks h a Pages.roles_role_permissions Pages.roles_create_role t = cc
  roles_page-marks h a Pages.roles_sidebar Pages.roles_create_role t = cc

  pub users_page-marks :
      (h : Hook) (a : Action N)
      → Shown Pages.users_page h
      → Offered N Pages.users_page a
      → touches a h ≡ true
      → is_stale client (mutation_of print a) (query_of ri h) ≡ not (is_left a h)
  unfolding touches query_of mutation_of use_dashboards use_assign_role use_remove_role_assignment
      use_roles use_users
  users_page-marks h a Pages.users_users Pages.users_assign_role t =
      stale_first client _ _ _ refl refl
  users_page-marks h a Pages.users_users Pages.users_remove_role_assignment t =
      stale_first client _ _ _ refl refl
  users_page-marks h a Pages.users_roles Pages.users_assign_role t = cc
  users_page-marks h a Pages.users_roles Pages.users_remove_role_assignment t = cc
  users_page-marks h a Pages.users_sidebar Pages.users_assign_role t =
      not_stale client _ _ refl refl refl
  users_page-marks h a Pages.users_sidebar Pages.users_remove_role_assignment t =
      not_stale client _ _ refl refl refl

  pub dashboards_page-marks :
      {site_id id : Codes}
      → (h : Hook) (a : Action N) → Shown (Pages.dashboards_page site_id id) h
      → Offered N (Pages.dashboards_page site_id id) a
      → touches a h ≡ true
      → is_stale client (mutation_of print a) (query_of ri h) ≡ not (is_left a h)
  unfolding touches query_of mutation_of use_create_dashboard use_dashboard_access use_dashboards
      use_delete_dashboard use_roles use_set_dashboard_access use_update_dashboard
  dashboards_page-marks h a Pages.dashboards_dashboards Pages.dashboards_create_dashboard t =
      stale_first client _ _ _ refl refl
  dashboards_page-marks h a Pages.dashboards_dashboards Pages.dashboards_update_dashboard t =
      stale_first client _ _ _ refl refl
  dashboards_page-marks h a Pages.dashboards_dashboards Pages.dashboards_delete_dashboard t =
      stale_first client _ _ _ refl refl
  dashboards_page-marks h a Pages.dashboards_dashboards Pages.dashboards_set_dashboard_access t =
      not_stale client _ _ refl refl refl
  dashboards_page-marks h a Pages.dashboards_dashboard_access Pages.dashboards_create_dashboard t =
      cc
  dashboards_page-marks h a Pages.dashboards_dashboard_access Pages.dashboards_update_dashboard t =
      cc
  dashboards_page-marks h a Pages.dashboards_dashboard_access Pages.dashboards_delete_dashboard t =
      not_stale client _ _ refl refl refl
  dashboards_page-marks h a Pages.dashboards_dashboard_access Pages.dashboards_set_dashboard_access
        t =
      stale_first client _ _ _ refl refl
  dashboards_page-marks h a Pages.dashboards_roles Pages.dashboards_create_dashboard t = cc
  dashboards_page-marks h a Pages.dashboards_roles Pages.dashboards_update_dashboard t = cc
  dashboards_page-marks h a Pages.dashboards_roles Pages.dashboards_delete_dashboard t = cc
  dashboards_page-marks h a Pages.dashboards_roles Pages.dashboards_set_dashboard_access t = cc
  dashboards_page-marks h a Pages.dashboards_sidebar Pages.dashboards_create_dashboard t =
      stale_first client _ _ _ refl refl
  dashboards_page-marks h a Pages.dashboards_sidebar Pages.dashboards_update_dashboard t =
      stale_first client _ _ _ refl refl
  dashboards_page-marks h a Pages.dashboards_sidebar Pages.dashboards_delete_dashboard t =
      stale_first client _ _ _ refl refl
  dashboards_page-marks h a Pages.dashboards_sidebar Pages.dashboards_set_dashboard_access t =
      not_stale client _ _ refl refl refl

  pub editor_page-marks :
      {id : Codes}
      → (h : Hook) (a : Action N) → Shown (Pages.editor_page id) h
      → Offered N (Pages.editor_page id) a
      → touches a h ≡ true
      → is_stale client (mutation_of print a) (query_of ri h) ≡ not (is_left a h)
  unfolding touches query_of mutation_of use_dashboard use_dashboard_access use_roles
      use_set_dashboard_access use_save_widgets use_widget_types
  editor_page-marks h a Pages.editor_dashboard Pages.editor_save_widgets t =
      stale_first client _ _ _ refl refl
  editor_page-marks h a Pages.editor_widget_types Pages.editor_save_widgets t = cc
  editor_page-marks h a Pages.editor_dashboard_access Pages.editor_save_widgets t = cc
  editor_page-marks h a Pages.editor_roles Pages.editor_save_widgets t = cc
  editor_page-marks h a Pages.editor_dashboard Pages.editor_set_dashboard_access t =
      not_stale client _ _ refl refl refl
  editor_page-marks h a Pages.editor_widget_types Pages.editor_set_dashboard_access t = cc
  editor_page-marks h a Pages.editor_dashboard_access Pages.editor_set_dashboard_access t =
      stale_first client _ _ _ refl refl
  editor_page-marks h a Pages.editor_roles Pages.editor_set_dashboard_access t = cc
  editor_page-marks h a Pages.editor_alert_events Pages.editor_save_widgets t = cc
  editor_page-marks h a Pages.editor_alert_events Pages.editor_set_dashboard_access t = cc
  editor_page-marks h a Pages.editor_latest_values Pages.editor_save_widgets t = cc
  editor_page-marks h a Pages.editor_latest_values Pages.editor_set_dashboard_access t = cc
  editor_page-marks h a Pages.editor_indicator_latest Pages.editor_save_widgets t = cc
  editor_page-marks h a Pages.editor_indicator_latest Pages.editor_set_dashboard_access t = cc
  editor_page-marks h a Pages.editor_line_machines Pages.editor_save_widgets t = cc
  editor_page-marks h a Pages.editor_line_machines Pages.editor_set_dashboard_access t = cc
  editor_page-marks h a Pages.editor_site_lines Pages.editor_save_widgets t = cc
  editor_page-marks h a Pages.editor_site_lines Pages.editor_set_dashboard_access t = cc
  editor_page-marks h a Pages.editor_picker_metrics Pages.editor_save_widgets t = cc
  editor_page-marks h a Pages.editor_picker_metrics Pages.editor_set_dashboard_access t = cc
  editor_page-marks h a Pages.editor_line_chart_points Pages.editor_save_widgets t = cc
  editor_page-marks h a Pages.editor_line_chart_points Pages.editor_set_dashboard_access t = cc
  editor_page-marks h a Pages.editor_bar_chart_average Pages.editor_save_widgets t = cc
  editor_page-marks h a Pages.editor_bar_chart_average Pages.editor_set_dashboard_access t = cc
  editor_page-marks h a Pages.editor_pie_chart_latest Pages.editor_save_widgets t = cc
  editor_page-marks h a Pages.editor_pie_chart_latest Pages.editor_set_dashboard_access t = cc

  pub workers_page-marks :
      {worker_id : Codes}
      → (h : Hook) (a : Action N) → Shown (Pages.workers_page worker_id) h
      → Offered N (Pages.workers_page worker_id) a
      → touches a h ≡ true
      → is_stale client (mutation_of print a) (query_of ri h) ≡ not (is_left a h)
  unfolding touches query_of mutation_of use_dashboards use_send_worker_command use_worker_detail
      use_worker_running_config use_workers
  workers_page-marks h a Pages.workers_workers Pages.workers_send_worker_command t = cc
  workers_page-marks h a Pages.workers_worker_detail Pages.workers_send_worker_command t =
      stale_second client _ _ _ refl refl
  workers_page-marks h a Pages.workers_worker_running_config Pages.workers_send_worker_command t =
      cc
  workers_page-marks h a Pages.workers_sidebar Pages.workers_send_worker_command t = cc

  pub worker_configs_page-marks :
      (h : Hook) (a : Action N)
      → Shown Pages.worker_configs_page h
      → Offered N Pages.worker_configs_page a
      → touches a h ≡ true
      → is_stale client (mutation_of print a) (query_of ri h) ≡ not (is_left a h)
  unfolding touches query_of mutation_of use_dashboards use_delete_worker_config use_worker_configs
  worker_configs_page-marks h a Pages.worker_configs_worker_configs
        Pages.worker_configs_delete_worker_config t =
      stale_first client _ _ _ refl refl
  worker_configs_page-marks h a Pages.worker_configs_sidebar
        Pages.worker_configs_delete_worker_config t =
      cc

  pub worker_config_page-marks :
      {id site_id machine_id : Codes}
      → (h : Hook) (a : Action N) → Shown (Pages.worker_config_page id site_id machine_id) h
      → Offered N (Pages.worker_config_page id site_id machine_id) a
      → touches a h ≡ true
      → is_stale client (mutation_of print a) (query_of ri h) ≡ not (is_left a h)
  unfolding touches query_of mutation_of use_dashboards use_admin_sites use_machine_registers
      use_set_config_machines use_set_machine_registers use_site_detail use_update_worker_config
      use_worker_config
  worker_config_page-marks h a Pages.worker_config_worker_config
        Pages.worker_config_update_worker_config t =
      stale_second client _ _ _ refl refl
  worker_config_page-marks h a Pages.worker_config_worker_config
        Pages.worker_config_set_config_machines t =
      stale_first client _ _ _ refl refl
  worker_config_page-marks h a Pages.worker_config_worker_config
        Pages.worker_config_set_machine_registers t =
      not_stale client _ _ refl refl refl
  worker_config_page-marks h a Pages.worker_config_admin_sites
        Pages.worker_config_update_worker_config t =
      cc
  worker_config_page-marks h a Pages.worker_config_admin_sites
        Pages.worker_config_set_config_machines t =
      cc
  worker_config_page-marks h a Pages.worker_config_admin_sites
        Pages.worker_config_set_machine_registers t =
      cc
  worker_config_page-marks h a Pages.worker_config_site_detail
        Pages.worker_config_update_worker_config t =
      cc
  worker_config_page-marks h a Pages.worker_config_site_detail
        Pages.worker_config_set_config_machines t =
      cc
  worker_config_page-marks h a Pages.worker_config_site_detail
        Pages.worker_config_set_machine_registers t =
      cc
  worker_config_page-marks h a Pages.worker_config_machine_registers
        Pages.worker_config_update_worker_config t =
      cc
  worker_config_page-marks h a Pages.worker_config_machine_registers
        Pages.worker_config_set_config_machines t =
      cc
  worker_config_page-marks h a Pages.worker_config_machine_registers
        Pages.worker_config_set_machine_registers t =
      stale_first client _ _ _ refl refl
  worker_config_page-marks h a Pages.worker_config_sidebar Pages.worker_config_update_worker_config
        t =
      cc
  worker_config_page-marks h a Pages.worker_config_sidebar Pages.worker_config_set_config_machines
        t =
      cc
  worker_config_page-marks h a Pages.worker_config_sidebar Pages.worker_config_set_machine_registers
        t =
      cc
  worker_config_page-marks h a Pages.worker_config_db_env Pages.worker_config_update_worker_config
        t =
      cc
  worker_config_page-marks h a Pages.worker_config_db_env Pages.worker_config_set_config_machines
        t =
      cc
  worker_config_page-marks h a Pages.worker_config_db_env Pages.worker_config_set_machine_registers
        t =
      cc

  pub new_worker_config_page-marks :
      {site_id : Codes}
      → (h : Hook) (a : Action N) → Shown (Pages.new_worker_config_page site_id) h
      → Offered N (Pages.new_worker_config_page site_id) a
      → touches a h ≡ true
      → is_stale client (mutation_of print a) (query_of ri h) ≡ not (is_left a h)
  unfolding touches
  new_worker_config_page-marks h a Pages.new_worker_config_admin_sites
        Pages.new_worker_config_create_worker_config t =
      cc
  new_worker_config_page-marks h a Pages.new_worker_config_site_detail
        Pages.new_worker_config_create_worker_config t =
      cc
  new_worker_config_page-marks h a Pages.new_worker_config_sidebar
        Pages.new_worker_config_create_worker_config t =
      cc
