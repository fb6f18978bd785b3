-- ===== src/Hooks/Staleness/Plant.antt =====
-- The marks on the pages of the sites and of the alerts.
use industry_dashboard.Base.{ℕ, ◌≡◌, refl, true, not, codes_eq, Codes}
use industry_dashboard.Hooks.Queries.{Hook, query_of}
use industry_dashboard.Hooks.Mutations.{Action, mutation_of}
use industry_dashboard.Hooks.Pages
use industry_dashboard.Hooks.Pages.{Page, Shown, Offered}
use industry_dashboard.Hooks.Facts.{touches}
use industry_dashboard.Hooks.Workers.{use_admin_sites, use_site_detail}
use industry_dashboard.Hooks.Accounts.{use_dashboards}
use industry_dashboard.Hooks.Plant.{
  use_alert_events, use_alerts, use_machine_metrics, use_site_lines, use_site_machines,
}
use industry_dashboard.Hooks.Actions.{
  use_acknowledge_alert, use_acknowledge_all_info, use_bulk_alert_action, use_create_alert,
  use_delete_alert, use_update_alert,
}
use industry_dashboard.Hooks.Sent.{
  use_create_line, use_create_machine, use_create_site, use_delete_line, use_delete_machine,
  use_delete_site, use_update_line, use_update_machine, use_update_site,
}
use industry_dashboard.Hooks.Staleness.{
  QueryClient, is_left, is_stale, stale_first, stale_second, not_stale,
}

module _ (client : QueryClient) {N : Type 0} (print : N → Codes) (ri : ℕ) where
  pub sites_page-marks :
      {site_id : Codes}
      → (h : Hook) (a : Action N) → Shown (Pages.sites_page site_id) h
      → Offered N (Pages.sites_page site_id) a
      → touches a h ≡ true
      → is_stale client (mutation_of print a) (query_of ri h) ≡ not (is_left a h)
  unfolding touches query_of mutation_of use_dashboards use_admin_sites use_create_line
      use_create_machine use_create_site use_delete_line use_delete_machine use_delete_site
      use_site_detail use_update_line use_update_machine use_update_site
  sites_page-marks h a Pages.sites_admin_sites Pages.sites_create_site t =
      stale_first client _ _ _ refl refl
  sites_page-marks h a Pages.sites_admin_sites Pages.sites_update_site t =
      stale_first client _ _ _ refl refl
  sites_page-marks h a Pages.sites_admin_sites Pages.sites_delete_site t =
      stale_first client _ _ _ refl refl
  sites_page-marks h a Pages.sites_admin_sites Pages.sites_create_line t =
      not_stale client _ _ refl refl refl
  sites_page-marks h a Pages.sites_admin_sites Pages.sites_update_line t = cc
  sites_page-marks h a Pages.sites_admin_sites Pages.sites_delete_line t =
      stale_second client _ _ _ refl refl
  sites_page-marks h a Pages.sites_admin_sites Pages.sites_create_machine t =
      not_stale client _ _ refl refl refl
  sites_page-marks h a Pages.sites_admin_sites Pages.sites_update_machine t = cc
  sites_page-marks h a Pages.sites_admin_sites Pages.sites_delete_machine t =
      stale_second client _ _ _ refl refl
  sites_page-marks h a Pages.sites_site_detail Pages.sites_create_site t = cc
  sites_page-marks h a Pages.sites_site_detail Pages.sites_update_site t =
      stale_second client _ _ _ refl refl
  sites_page-marks h a Pages.sites_site_detail Pages.sites_delete_site t =
      not_stale client _ _ refl refl refl
  sites_page-marks h a Pages.sites_site_detail Pages.sites_create_line t =
      stale_first client _ _ _ refl refl
  sites_page-marks h a Pages.sites_site_detail Pages.sites_update_line t =
      stale_first client _ _ _ refl refl
  sites_page-marks h a Pages.sites_site_detail Pages.sites_delete_line t =
      stale_first client _ _ _ refl refl
  sites_page-marks h a Pages.sites_site_detail Pages.sites_create_machine t =
      stale_first client _ _ _ refl refl
  sites_page-marks h a Pages.sites_site_detail Pages.sites_update_machine t =
      stale_first client _ _ _ refl refl
  sites_page-marks h a Pages.sites_site_detail Pages.sites_delete_machine t =
      stale_first client _ _ _ refl refl
  sites_page-marks h a Pages.sites_sidebar Pages.sites_create_site t = cc
  sites_page-marks h a Pages.sites_sidebar Pages.sites_update_site t = cc
  sites_page-marks h a Pages.sites_sidebar Pages.sites_delete_site t =
      not_stale client _ _ refl refl refl
  sites_page-marks h a Pages.sites_sidebar Pages.sites_create_line t = cc
  sites_page-marks h a Pages.sites_sidebar Pages.sites_update_line t = cc
  sites_page-marks h a Pages.sites_sidebar Pages.sites_delete_line t = cc
  sites_page-marks h a Pages.sites_sidebar Pages.sites_create_machine t = cc
  sites_page-marks h a Pages.sites_sidebar Pages.sites_update_machine t = cc
  sites_page-marks h a Pages.sites_sidebar Pages.sites_delete_machine t = cc

  pub alert_rules_page-marks :
      {site_id machine_id : Codes}
      → (h : Hook) (a : Action N) → Shown (Pages.alert_rules_page site_id machine_id) h
      → Offered N (Pages.alert_rules_page site_id machine_id) a
      → touches a h ≡ true
      → is_stale client (mutation_of print a) (query_of ri h) ≡ not (is_left a h)
  unfolding touches query_of mutation_of use_dashboards use_alerts use_bulk_alert_action
      use_create_alert use_delete_alert use_machine_metrics use_site_machines use_update_alert
  alert_rules_page-marks h a Pages.alert_rules_alerts Pages.alert_rules_create_alert t =
      stale_first client _ _ _ refl refl
  alert_rules_page-marks h a Pages.alert_rules_alerts Pages.alert_rules_update_alert t =
      stale_first client _ _ _ refl refl
  alert_rules_page-marks h a Pages.alert_rules_alerts Pages.alert_rules_delete_alert t =
      stale_first client _ _ _ refl refl
  alert_rules_page-marks h a Pages.alert_rules_alerts Pages.alert_rules_bulk_alert_action t =
      stale_first client _ _ _ refl refl
  alert_rules_page-marks h a Pages.alert_rules_site_machines Pages.alert_rules_create_alert t = cc
  alert_rules_page-marks h a Pages.alert_rules_site_machines Pages.alert_rules_update_alert t = cc
  alert_rules_page-marks h a Pages.alert_rules_site_machines Pages.alert_rules_delete_alert t = cc
  alert_rules_page-marks h a Pages.alert_rules_site_machines Pages.alert_rules_bulk_alert_action t =
      cc
  alert_rules_page-marks h a Pages.alert_rules_machine_metrics Pages.alert_rules_create_alert t = cc
  alert_rules_page-marks h a Pages.alert_rules_machine_metrics Pages.alert_rules_update_alert t = cc
  alert_rules_page-marks h a Pages.alert_rules_machine_metrics Pages.alert_rules_delete_alert t = cc
  alert_rules_page-marks h a Pages.alert_rules_machine_metrics Pages.alert_rules_bulk_alert_action
        t =
      cc
  alert_rules_page-marks h a Pages.alert_rules_sidebar Pages.alert_rules_create_alert t = cc
  alert_rules_page-marks h a Pages.alert_rules_sidebar Pages.alert_rules_update_alert t = cc
  alert_rules_page-marks h a Pages.alert_rules_sidebar Pages.alert_rules_delete_alert t = cc
  alert_rules_page-marks h a Pages.alert_rules_sidebar Pages.alert_rules_bulk_alert_action t = cc

  pub alerts_page-marks :
      {site_id : Codes}
      → (h : Hook) (a : Action N) → Shown (Pages.alerts_page site_id) h
      → Offered N (Pages.alerts_page site_id) a
      → touches a h ≡ true
      → is_stale client (mutation_of print a) (query_of ri h) ≡ not (is_left a h)
  unfolding touches query_of mutation_of use_dashboards use_acknowledge_alert
      use_acknowledge_all_info use_alert_events use_site_lines use_site_machines
  alerts_page-marks h a Pages.alerts_alert_events Pages.alerts_acknowledge_alert t =
      stale_first client _ _ _ refl refl
  alerts_page-marks h a Pages.alerts_alert_events Pages.alerts_acknowledge_all_info t =
      stale_first client _ _ _ refl refl
  alerts_page-marks h a Pages.alerts_site_lines Pages.alerts_acknowledge_alert t = cc
  alerts_page-marks h a Pages.alerts_site_lines Pages.alerts_acknowledge_all_info t = cc
  alerts_page-marks h a Pages.alerts_site_machines Pages.alerts_acknowledge_alert t = cc
  alerts_page-marks h a Pages.alerts_site_machines Pages.alerts_acknowledge_all_info t = cc
  alerts_page-marks h a Pages.alerts_sidebar Pages.alerts_acknowledge_alert t = cc
  alerts_page-marks h a Pages.alerts_sidebar Pages.alerts_acknowledge_all_info t = cc
