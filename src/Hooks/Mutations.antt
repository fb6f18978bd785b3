-- ===== src/Hooks/Mutations.antt =====
-- All mutations of frontend/src/lib/hooks.ts, by the hook and its variables.
use industry_dashboard.Base.{Codes}
use industry_dashboard.Hooks.{Mutation}
use industry_dashboard.Hooks.Json.{Elements, Fields}
use industry_dashboard.Hooks.Actions.{
  use_acknowledge_alert, use_create_alert, use_update_alert, use_delete_alert,
  use_bulk_alert_action, use_acknowledge_all_info, use_create_api_key, use_revoke_api_key,
  use_create_role, use_assign_role, use_remove_role_assignment, use_create_dashboard,
  use_update_dashboard, use_delete_dashboard, use_save_widgets, use_set_dashboard_access,
  use_update_locale,
}
use industry_dashboard.Hooks.Sent.{
  use_create_site, use_update_site, use_delete_site, use_create_line, use_update_line,
  use_delete_line, use_create_machine, use_update_machine, use_delete_machine,
  use_send_worker_command, use_create_worker_config, use_update_worker_config,
  use_delete_worker_config, use_set_config_machines, use_set_machine_registers,
  use_import_registers_csv,
}

pub data Action (N : Type 0) : Type 0 where
  acknowledge_alert : Codes → Action N
  create_alert : Codes → Fields N → Action N
  update_alert : Codes → Codes → Fields N → Action N
  delete_alert : Codes → Codes → Action N
  bulk_alert_action : Codes → Fields N → Action N
  acknowledge_all_info : Codes → Action N
  create_api_key : Fields N → Action N
  revoke_api_key : Codes → Action N
  create_role : Fields N → Action N
  assign_role : Fields N → Action N
  remove_role_assignment : Codes → Action N
  create_dashboard : Fields N → Action N
  update_dashboard : Codes → Codes → Action N
  delete_dashboard : Codes → Action N
  save_widgets : Codes → Elements N → Action N
  set_dashboard_access : Codes → Elements N → Action N
  update_locale : Codes → Action N
  create_site : Fields N → Action N
  update_site : Codes → Fields N → Action N
  delete_site : Codes → Action N
  create_line : Codes → Fields N → Action N
  update_line : Codes → Fields N → Action N
  delete_line : Codes → Action N
  create_machine : Codes → Fields N → Action N
  update_machine : Codes → Fields N → Action N
  delete_machine : Codes → Action N
  send_worker_command : Codes → Codes → Action N
  create_worker_config : Fields N → Action N
  update_worker_config : Codes → Fields N → Action N
  delete_worker_config : Codes → Action N
  set_config_machines : Codes → Elements N → Action N
  set_machine_registers : Codes → Elements N → Action N
  import_registers_csv : Codes → Codes → Action N

unfoldable pub mutation_of : {N : Type 0} → (N → Codes) → Action N → Mutation
unfolding use_acknowledge_alert use_create_alert use_update_alert use_delete_alert
    use_bulk_alert_action use_acknowledge_all_info use_create_api_key use_revoke_api_key
    use_create_role use_assign_role use_remove_role_assignment use_create_dashboard
    use_update_dashboard use_delete_dashboard use_save_widgets use_set_dashboard_access
    use_update_locale use_create_site use_update_site use_delete_site use_create_line
    use_update_line use_delete_line use_create_machine use_update_machine use_delete_machine
    use_send_worker_command use_create_worker_config use_update_worker_config
    use_delete_worker_config use_set_config_machines use_set_machine_registers
    use_import_registers_csv
mutation_of print (acknowledge_alert a) = use_acknowledge_alert print a
mutation_of print (create_alert a b) = use_create_alert print a b
mutation_of print (update_alert a b c) = use_update_alert print a b c
mutation_of print (delete_alert a b) = use_delete_alert print a b
mutation_of print (bulk_alert_action a b) = use_bulk_alert_action print a b
mutation_of print (acknowledge_all_info a) = use_acknowledge_all_info print a
mutation_of print (create_api_key a) = use_create_api_key print a
mutation_of print (revoke_api_key a) = use_revoke_api_key print a
mutation_of print (create_role a) = use_create_role print a
mutation_of print (assign_role a) = use_assign_role print a
mutation_of print (remove_role_assignment a) = use_remove_role_assignment print a
mutation_of print (create_dashboard a) = use_create_dashboard print a
mutation_of print (update_dashboard a b) = use_update_dashboard print a b
mutation_of print (delete_dashboard a) = use_delete_dashboard print a
mutation_of print (save_widgets a b) = use_save_widgets print a b
mutation_of print (set_dashboard_access a b) = use_set_dashboard_access print a b
mutation_of print (update_locale a) = use_update_locale print a
mutation_of print (create_site a) = use_create_site print a
mutation_of print (update_site a b) = use_update_site print a b
mutation_of print (delete_site a) = use_delete_site print a
mutation_of print (create_line a b) = use_create_line print a b
mutation_of print (update_line a b) = use_update_line print a b
mutation_of print (delete_line a) = use_delete_line print a
mutation_of print (create_machine a b) = use_create_machine print a b
mutation_of print (update_machine a b) = use_update_machine print a b
mutation_of print (delete_machine a) = use_delete_machine print a
mutation_of print (send_worker_command a b) = use_send_worker_command print a b
mutation_of print (create_worker_config a) = use_create_worker_config print a
mutation_of print (update_worker_config a b) = use_update_worker_config print a b
mutation_of print (delete_worker_config a) = use_delete_worker_config print a
mutation_of print (set_config_machines a b) = use_set_config_machines print a b
mutation_of print (set_machine_registers a b) = use_set_machine_registers print a b
mutation_of print (import_registers_csv a b) = use_import_registers_csv print a b
