-- ===== src/Hooks/Staleness/Marks.antt =====
-- Which queries of a page are marked as stale after a mutation of the page.
use industry_dashboard.Base.{ℕ, ◌≡◌, true, not, codes_eq, Codes}
use industry_dashboard.Hooks.Queries.{Hook, query_of}
use industry_dashboard.Hooks.Mutations.{Action, mutation_of}
use industry_dashboard.Hooks.Pages
use industry_dashboard.Hooks.Pages.{Page, Shown, Offered}
use industry_dashboard.Hooks.Facts.{touches}
use industry_dashboard.Hooks.Staleness.{QueryClient, is_left, is_stale}
use industry_dashboard.Hooks.Staleness.Plant.{
  sites_page-marks, alert_rules_page-marks, alerts_page-marks,
}
use industry_dashboard.Hooks.Staleness.Accounts.{
  api_keys_page-marks, roles_page-marks, users_page-marks, dashboards_page-marks, editor_page-marks,
  workers_page-marks, worker_configs_page-marks, worker_config_page-marks,
  new_worker_config_page-marks,
}

module _ (client : QueryClient) {N : Type 0} (print : N → Codes) (ri : ℕ) where
  -- On each page that offers mutations, a mounted query that reads what an offered mutation writes is marked as
  -- stale after it, except the counts in the list of sites after a new line or a new machine, the detail of a site
  -- and the access to a dashboard that is deleted, the list of dashboards after the deletion of a site, the
  -- assignment of a role and its removal, that list and the dashboard itself after a change of the access, and a
  -- worker configuration, which counts registers, after a change of the registers of a machine; those are not marked.
  pub is_stale-touches :
      (p : Page) (h : Hook) (a : Action N)
      → Shown p h
      → Offered N p a
      → touches a h ≡ true
      → is_stale client (mutation_of print a) (query_of ri h) ≡ not (is_left a h)
  is_stale-touches (Pages.sites_page _) h a s o t = sites_page-marks client print ri h a s o t
  is_stale-touches (Pages.alert_rules_page _ _) h a s o t =
      alert_rules_page-marks client print ri h a s o t
  is_stale-touches (Pages.alerts_page _) h a s o t = alerts_page-marks client print ri h a s o t
  is_stale-touches Pages.api_keys_page h a s o t = api_keys_page-marks client print ri h a s o t
  is_stale-touches (Pages.roles_page _) h a s o t = roles_page-marks client print ri h a s o t
  is_stale-touches Pages.users_page h a s o t = users_page-marks client print ri h a s o t
  is_stale-touches (Pages.dashboards_page _ _) h a s o t =
      dashboards_page-marks client print ri h a s o t
  is_stale-touches (Pages.editor_page _) h a s o t = editor_page-marks client print ri h a s o t
  is_stale-touches (Pages.workers_page _) h a s o t = workers_page-marks client print ri h a s o t
  is_stale-touches Pages.worker_configs_page h a s o t =
      worker_configs_page-marks client print ri h a s o t
  is_stale-touches (Pages.worker_config_page _ _ _) h a s o t =
      worker_config_page-marks client print ri h a s o t
  is_stale-touches (Pages.new_worker_config_page _) h a s o t =
      new_worker_config_page-marks client print ri h a s o t
