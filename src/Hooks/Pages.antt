-- ===== src/Hooks/Pages.antt =====
-- What the pages of frontend/src/pages and their dialogs show and offer.
use industry_dashboard.Base.{Option, none, some, Codes, String}
use industry_dashboard.Hooks.SearchParams.{Params}
use industry_dashboard.Hooks.Json.{Elements, Fields}
use industry_dashboard.Hooks.Queries
use industry_dashboard.Hooks.Queries.{Hook}
use industry_dashboard.Hooks.Mutations
use industry_dashboard.Hooks.Mutations.{Action}

-- A page with the ids of what it shows; the dialogs and the table of registers belong to
-- the page that holds them. Pages that offer no mutation are left out.
pub data Page : Type 0 where
  sites_page : Codes → Page
  alert_rules_page : Codes → Codes → Page
  alerts_page : Codes → Page
  api_keys_page : Page
  roles_page : Codes → Page
  users_page : Page
  dashboards_page : Codes → Codes → Page
  editor_page : Codes → Page
  workers_page : Codes → Page
  worker_configs_page : Page
  worker_config_page : Codes → Codes → Codes → Page
  new_worker_config_page : Codes → Page

-- The queries that a page has mounted, with those of the widgets that the editor draws and of their settings. On
-- every page but the editor, which stands outside `AppShell`, the bar at the side lists the dashboards of the
-- current site, `undefined` where there is none. A page for a new worker configuration asks for none.
pub data Shown : Page → Hook → Type 0 where
  sites_admin_sites : {site_id : Codes} → Shown (sites_page site_id) Queries.admin_sites
  sites_site_detail :
      {site_id : Codes} → Shown (sites_page site_id) (Queries.site_detail (some site_id))
  alert_rules_alerts :
      {site_id machine_id : Codes}
      → Shown (alert_rules_page site_id machine_id) (Queries.alerts (some site_id) none)
  alert_rules_site_machines :
      {site_id machine_id : Codes}
      → Shown (alert_rules_page site_id machine_id) (Queries.site_machines (some site_id))
  alert_rules_machine_metrics :
      {site_id machine_id : Codes}
      → Shown (alert_rules_page site_id machine_id) (Queries.machine_metrics (some machine_id))
  alerts_alert_events :
      {site_id : Codes}
      → {ps : Option Params} → Shown (alerts_page site_id) (Queries.alert_events (some site_id) ps)
  alerts_site_lines :
      {site_id : Codes} → Shown (alerts_page site_id) (Queries.site_lines (some site_id))
  alerts_site_machines :
      {site_id : Codes} → Shown (alerts_page site_id) (Queries.site_machines (some site_id))
  api_keys_api_keys : Shown api_keys_page Queries.api_keys
  roles_roles : {role_id : Codes} → Shown (roles_page role_id) Queries.roles
  roles_permissions : {role_id : Codes} → Shown (roles_page role_id) Queries.permissions
  roles_role_permissions :
      {role_id : Codes} → Shown (roles_page role_id) (Queries.role_permissions (some role_id))
  users_users : Shown users_page Queries.users
  users_roles : Shown users_page Queries.roles
  dashboards_dashboards :
      {site_id id : Codes} → Shown (dashboards_page site_id id) (Queries.dashboards (some site_id))
  dashboards_dashboard_access :
      {site_id id : Codes} → Shown (dashboards_page site_id id) (Queries.dashboard_access (some id))
  dashboards_roles : {site_id id : Codes} → Shown (dashboards_page site_id id) Queries.roles
  editor_dashboard : {id : Codes} → Shown (editor_page id) (Queries.dashboard (some id))
  editor_widget_types : {id : Codes} → Shown (editor_page id) Queries.widget_types
  workers_workers : {worker_id : Codes} → Shown (workers_page worker_id) Queries.workers
  workers_worker_detail :
      {worker_id : Codes} → Shown (workers_page worker_id) (Queries.worker_detail (some worker_id))
  workers_worker_running_config :
      {worker_id : Codes}
      → Shown (workers_page worker_id) (Queries.worker_running_config (some worker_id))
  worker_configs_worker_configs : Shown worker_configs_page Queries.worker_configs
  worker_config_worker_config :
      {id site_id machine_id : Codes}
      → Shown (worker_config_page id site_id machine_id) (Queries.worker_config (some id))
  worker_config_admin_sites :
      {id site_id machine_id : Codes}
      → Shown (worker_config_page id site_id machine_id) Queries.admin_sites
  worker_config_site_detail :
      {id site_id machine_id : Codes}
      → Shown (worker_config_page id site_id machine_id) (Queries.site_detail (some site_id))
  worker_config_machine_registers :
      {id site_id machine_id : Codes}
      → Shown
          (worker_config_page id site_id machine_id)
          (Queries.machine_registers (some machine_id))
  sites_sidebar :
      {site_id : Codes}
      → {current : Option Codes} → Shown (sites_page site_id) (Queries.dashboards current)
  alert_rules_sidebar :
      {site_id machine_id : Codes}
      → {current : Option Codes}
      → Shown (alert_rules_page site_id machine_id) (Queries.dashboards current)
  alerts_sidebar :
      {site_id : Codes}
      → {current : Option Codes} → Shown (alerts_page site_id) (Queries.dashboards current)
  api_keys_sidebar : {current : Option Codes} → Shown api_keys_page (Queries.dashboards current)
  roles_sidebar :
      {role_id : Codes}
      → {current : Option Codes} → Shown (roles_page role_id) (Queries.dashboards current)
  users_sidebar : {current : Option Codes} → Shown users_page (Queries.dashboards current)
  dashboards_sidebar :
      {site_id id : Codes}
      → {current : Option Codes} → Shown (dashboards_page site_id id) (Queries.dashboards current)
  workers_sidebar :
      {worker_id : Codes}
      → {current : Option Codes} → Shown (workers_page worker_id) (Queries.dashboards current)
  worker_configs_sidebar :
      {current : Option Codes} → Shown worker_configs_page (Queries.dashboards current)
  worker_config_sidebar :
      {id site_id machine_id : Codes}
      → {current : Option Codes}
      → Shown (worker_config_page id site_id machine_id) (Queries.dashboards current)
  editor_dashboard_access :
      {id : Codes} → Shown (editor_page id) (Queries.dashboard_access (some id))
  editor_roles : {id : Codes} → Shown (editor_page id) Queries.roles
  editor_alert_events :
      {id : Codes}
      → {site : Option Codes} {ps : Option Params}
      → Shown (editor_page id) (Queries.alert_events site ps)
  editor_latest_values :
      {id : Codes}
      → {machine : Option Codes} → Shown (editor_page id) (Queries.latest_values machine)
  editor_indicator_latest :
      {id : Codes}
      → {machine : Option Codes} → Shown (editor_page id) (Queries.indicator_latest machine)
  editor_line_machines :
      {id : Codes} → {line : Option Codes} → Shown (editor_page id) (Queries.line_machines line)
  editor_site_lines :
      {id : Codes} → {site : Option Codes} → Shown (editor_page id) (Queries.site_lines site)
  editor_picker_metrics :
      {id : Codes} → {machine : Codes} → Shown (editor_page id) (Queries.picker_metrics machine)
  editor_line_chart_points :
      {id : Codes} → {a b c : Codes} → Shown (editor_page id) (Queries.line_chart_points a b c)
  editor_bar_chart_average :
      {id : Codes} → {a b c : Codes} → Shown (editor_page id) (Queries.bar_chart_average a b c)
  editor_pie_chart_latest :
      {id : Codes} → {a b : Codes} → Shown (editor_page id) (Queries.pie_chart_latest a b)
  worker_config_db_env :
      {id site_id machine_id : Codes}
      → {step : String} → Shown (worker_config_page id site_id machine_id) (Queries.db_env step)
  new_worker_config_admin_sites :
      {site_id : Codes} → Shown (new_worker_config_page site_id) Queries.admin_sites
  new_worker_config_site_detail :
      {site_id : Codes}
      → Shown (new_worker_config_page site_id) (Queries.site_detail (some site_id))
  new_worker_config_sidebar :
      {site_id : Codes}
      → {current : Option Codes}
      → Shown (new_worker_config_page site_id) (Queries.dashboards current)

-- The mutations that a page offers. The language in the bar at the top, which changes none of the parts that
-- pages show, is left out.
pub data Offered (N : Type 0) : Page → Action N → Type 0 where
  sites_create_site :
      {site_id : Codes} → {a : Fields N} → Offered N (sites_page site_id) (Mutations.create_site a)
  sites_update_site :
      {site_id : Codes}
      → {a : Codes} {b : Fields N} → Offered N (sites_page site_id) (Mutations.update_site a b)
  sites_delete_site :
      {site_id : Codes} → Offered N (sites_page site_id) (Mutations.delete_site site_id)
  sites_create_line :
      {site_id : Codes}
      → {a : Codes} {b : Fields N} → Offered N (sites_page site_id) (Mutations.create_line a b)
  sites_update_line :
      {site_id : Codes}
      → {a : Codes} {b : Fields N} → Offered N (sites_page site_id) (Mutations.update_line a b)
  sites_delete_line :
      {site_id : Codes} → {a : Codes} → Offered N (sites_page site_id) (Mutations.delete_line a)
  sites_create_machine :
      {site_id : Codes}
      → {a : Codes} {b : Fields N} → Offered N (sites_page site_id) (Mutations.create_machine a b)
  sites_update_machine :
      {site_id : Codes}
      → {a : Codes} {b : Fields N} → Offered N (sites_page site_id) (Mutations.update_machine a b)
  sites_delete_machine :
      {site_id : Codes} → {a : Codes} → Offered N (sites_page site_id) (Mutations.delete_machine a)
  alert_rules_create_alert :
      {site_id machine_id : Codes}
      → {a : Codes} {b : Fields N}
      → Offered N (alert_rules_page site_id machine_id) (Mutations.create_alert a b)
  alert_rules_update_alert :
      {site_id machine_id : Codes}
      → {a : Codes} {b : Codes} {c : Fields N}
      → Offered N (alert_rules_page site_id machine_id) (Mutations.update_alert a b c)
  alert_rules_delete_alert :
      {site_id machine_id : Codes}
      → {a : Codes} {b : Codes}
      → Offered N (alert_rules_page site_id machine_id) (Mutations.delete_alert a b)
  alert_rules_bulk_alert_action :
      {site_id machine_id : Codes}
      → {a : Codes} {b : Fields N}
      → Offered N (alert_rules_page site_id machine_id) (Mutations.bulk_alert_action a b)
  alerts_acknowledge_alert :
      {site_id : Codes}
      → {a : Codes} → Offered N (alerts_page site_id) (Mutations.acknowledge_alert a)
  alerts_acknowledge_all_info :
      {site_id : Codes}
      → {a : Codes} → Offered N (alerts_page site_id) (Mutations.acknowledge_all_info a)
  api_keys_create_api_key : {a : Fields N} → Offered N api_keys_page (Mutations.create_api_key a)
  api_keys_revoke_api_key : {a : Codes} → Offered N api_keys_page (Mutations.revoke_api_key a)
  roles_create_role :
      {role_id : Codes} → {a : Fields N} → Offered N (roles_page role_id) (Mutations.create_role a)
  users_assign_role : {a : Fields N} → Offered N users_page (Mutations.assign_role a)
  users_remove_role_assignment :
      {a : Codes} → Offered N users_page (Mutations.remove_role_assignment a)
  dashboards_create_dashboard :
      {site_id id : Codes}
      → {a : Fields N} → Offered N (dashboards_page site_id id) (Mutations.create_dashboard a)
  dashboards_update_dashboard :
      {site_id id : Codes}
      → {a : Codes} {b : Codes}
      → Offered N (dashboards_page site_id id) (Mutations.update_dashboard a b)
  dashboards_delete_dashboard :
      {site_id id : Codes}
      → {a : Codes} → Offered N (dashboards_page site_id id) (Mutations.delete_dashboard a)
  dashboards_set_dashboard_access :
      {site_id id : Codes}
      → {b : Elements N}
      → Offered N (dashboards_page site_id id) (Mutations.set_dashboard_access id b)
  editor_save_widgets :
      {id : Codes} → {b : Elements N} → Offered N (editor_page id) (Mutations.save_widgets id b)
  editor_set_dashboard_access :
      {id : Codes}
      → {b : Elements N} → Offered N (editor_page id) (Mutations.set_dashboard_access id b)
  workers_send_worker_command :
      {worker_id : Codes}
      → {a : Codes} {b : Codes}
      → Offered N (workers_page worker_id) (Mutations.send_worker_command a b)
  worker_configs_delete_worker_config :
      {a : Codes} → Offered N worker_configs_page (Mutations.delete_worker_config a)
  worker_config_update_worker_config :
      {id site_id machine_id : Codes}
      → {b : Fields N}
      → Offered N (worker_config_page id site_id machine_id) (Mutations.update_worker_config id b)
  worker_config_set_config_machines :
      {id site_id machine_id : Codes}
      → {b : Elements N}
      → Offered N (worker_config_page id site_id machine_id) (Mutations.set_config_machines id b)
  worker_config_set_machine_registers :
      {id site_id machine_id : Codes}
      → {b : Elements N}
      → Offered N
          (worker_config_page id site_id machine_id)
          (Mutations.set_machine_registers machine_id b)
  new_worker_config_create_worker_config :
      {site_id : Codes}
      → {a : Fields N}
      → Offered N (new_worker_config_page site_id) (Mutations.create_worker_config a)
