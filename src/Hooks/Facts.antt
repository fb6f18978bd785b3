-- ===== src/Hooks/Facts.antt =====
-- What the handlers of the server read for a query and write for a mutation (internal/site, internal/alert, internal/rbac, internal/llmauth,
-- internal/dashboard, internal/worker_api and internal/worker_config).
use industry_dashboard.Base.{Bool, true, false, List, [], ◌∷◌, any}
use industry_dashboard.Hooks.Queries
use industry_dashboard.Hooks.Queries.{Hook}
use industry_dashboard.Hooks.Mutations
use industry_dashboard.Hooks.Mutations.{Action}

-- The parts of the database that the pages show: which rows there are, what they hold, and counts and marks.
pub data Fact : Type 0 where
  site_set site_rows line_counts machine_counts line_rows machine_rows alert_rules event_marks
        role_assignments role_rows key_rows dashboard_rows share_marks widget_rows access_rows
        config_rows config_machines registers command_rows :
      Fact

-- The parts that the answer to a query is made of. An assignment of a role has what the role permits.
pub reads : Hook → Fact → Bool
reads Queries.admin_sites site_set = true
reads Queries.admin_sites site_rows = true
reads Queries.admin_sites line_counts = true
reads Queries.admin_sites machine_counts = true
reads (Queries.site_detail _) site_rows = true
reads (Queries.site_detail _) line_rows = true
reads (Queries.site_detail _) machine_rows = true
reads (Queries.alerts _ _) alert_rules = true
reads (Queries.alerts _ _) machine_rows = true
reads (Queries.alerts _ _) line_rows = true
reads (Queries.site_lines _) line_rows = true
reads (Queries.line_machines _) machine_rows = true
reads (Queries.site_machines _) machine_rows = true
reads (Queries.site_machines _) registers = true
reads (Queries.alert_events _ _) event_marks = true
reads (Queries.alert_events _ _) alert_rules = true
reads (Queries.alert_events _ _) machine_rows = true
reads (Queries.alert_events _ _) line_rows = true
reads Queries.users role_assignments = true
reads Queries.users role_rows = true
reads Queries.users site_rows = true
reads Queries.roles role_rows = true
reads Queries.api_keys key_rows = true
reads (Queries.dashboards _) dashboard_rows = true
reads (Queries.dashboards _) share_marks = true
reads (Queries.dashboards _) access_rows = true
reads (Queries.dashboards _) role_assignments = true
reads (Queries.dashboard _) dashboard_rows = true
reads (Queries.dashboard _) share_marks = true
reads (Queries.dashboard _) widget_rows = true
reads (Queries.dashboard_access _) access_rows = true
reads (Queries.dashboard_access _) role_rows = true
reads Queries.worker_configs config_rows = true
reads Queries.worker_configs config_machines = true
reads Queries.worker_configs site_rows = true
reads (Queries.worker_config _) config_rows = true
reads (Queries.worker_config _) config_machines = true
reads (Queries.worker_config _) machine_rows = true
reads (Queries.worker_config _) line_rows = true
reads (Queries.worker_config _) site_rows = true
reads (Queries.worker_config _) registers = true
reads (Queries.machine_registers _) registers = true
reads (Queries.machine_metrics _) registers = true
reads (Queries.worker_detail _) command_rows = true
reads _ _ = false

-- what goes with a machine that is deleted, as the foreign keys of migrations/ say
abbrev of_machines : List Fact
of_machines =
    machine_rows ∷ machine_counts ∷ alert_rules ∷ event_marks ∷ registers ∷ config_machines ∷ []

-- the parts that a mutation changes, with what the foreign keys delete
pub writes : {N : Type 0} → Action N → List Fact
writes (Mutations.create_site _) = site_set ∷ []
writes (Mutations.update_site _ _) = site_rows ∷ []
writes (Mutations.delete_site _) =
    site_set ∷ site_rows ∷ line_rows ∷ line_counts ∷ role_assignments ∷ dashboard_rows ∷ widget_rows
    ∷ access_rows ∷ config_rows ∷ of_machines
writes (Mutations.create_line _ _) = line_rows ∷ line_counts ∷ []
writes (Mutations.update_line _ _) = line_rows ∷ []
writes (Mutations.delete_line _) = line_rows ∷ line_counts ∷ of_machines
writes (Mutations.create_machine _ _) = machine_rows ∷ machine_counts ∷ []
writes (Mutations.update_machine _ _) = machine_rows ∷ []
writes (Mutations.delete_machine _) = of_machines
writes (Mutations.create_alert _ _) = alert_rules ∷ []
writes (Mutations.update_alert _ _ _) = alert_rules ∷ []
writes (Mutations.delete_alert _ _) = alert_rules ∷ []
writes (Mutations.bulk_alert_action _ _) = alert_rules ∷ []
writes (Mutations.acknowledge_alert _) = event_marks ∷ []
writes (Mutations.acknowledge_all_info _) = event_marks ∷ []
writes (Mutations.create_api_key _) = key_rows ∷ []
writes (Mutations.revoke_api_key _) = key_rows ∷ []
writes (Mutations.create_role _) = role_rows ∷ []
writes (Mutations.assign_role _) = role_assignments ∷ []
writes (Mutations.remove_role_assignment _) = role_assignments ∷ []
writes (Mutations.create_dashboard _) = dashboard_rows ∷ []
writes (Mutations.update_dashboard _ _) = dashboard_rows ∷ []
writes (Mutations.delete_dashboard _) = dashboard_rows ∷ widget_rows ∷ access_rows ∷ []
writes (Mutations.save_widgets _ _) = widget_rows ∷ dashboard_rows ∷ []
writes (Mutations.set_dashboard_access _ _) = access_rows ∷ share_marks ∷ dashboard_rows ∷ []
writes (Mutations.update_locale _) = []
writes (Mutations.send_worker_command _ _) = command_rows ∷ []
writes (Mutations.create_worker_config _) = config_rows ∷ []
writes (Mutations.update_worker_config _ _) = config_rows ∷ []
writes (Mutations.delete_worker_config _) = config_rows ∷ config_machines ∷ []
writes (Mutations.set_config_machines _ _) = config_machines ∷ []
writes (Mutations.set_machine_registers _ _) = registers ∷ []
writes (Mutations.import_registers_csv _ _) = []

unfoldable pub touches : {N : Type 0} → Action N → Hook → Bool
unfolding reads writes
touches a h = any (reads h) (writes a)
