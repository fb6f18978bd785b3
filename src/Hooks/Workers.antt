-- ===== src/Hooks/Workers.antt =====
-- Queries of frontend/src/lib/hooks.ts about the administration of sites and workers.
use industry_dashboard.Base.{ℕ, true, [], ◌∷◌, ◌++◌, Option, none, some, Codes, codes, string_eq}
use industry_dashboard.Hooks.{Query, rows, object, is_given, shown, id_part, key_named}

unfoldable pub use_admin_sites : Query
use_admin_sites = record {
  query_key = key_named "admin-sites" ∷ [];
  path = codes "/admin/sites";
  enabled = true;
  refetch_interval = none;
  result = rows;
}

unfoldable pub use_site_detail : Option Codes → Query
use_site_detail site_id = record {
  query_key = key_named "site-detail" ∷ id_part site_id ∷ [];
  path = codes "/sites/" ++ (shown site_id ++ codes "/detail");
  enabled = is_given site_id;
  refetch_interval = none;
  result = object;
}

unfoldable pub use_workers : ℕ → Query
use_workers ri = record {
  query_key = key_named "workers" ∷ [];
  path = codes "/workers";
  enabled = true;
  refetch_interval = some ri;
  result = rows;
}

unfoldable pub use_worker_detail : ℕ → Option Codes → Query
use_worker_detail ri worker_id = record {
  query_key = key_named "worker-detail" ∷ id_part worker_id ∷ [];
  path = codes "/workers/" ++ shown worker_id;
  enabled = is_given worker_id;
  refetch_interval = some ri;
  result = object;
}

unfoldable pub use_worker_running_config : ℕ → Option Codes → Query
use_worker_running_config ri worker_id = record {
  query_key = key_named "worker-running-config" ∷ id_part worker_id ∷ [];
  path = codes "/workers/" ++ (shown worker_id ++ codes "/config");
  enabled = is_given worker_id;
  refetch_interval = some ri;
  result = object;
}

unfoldable pub use_worker_configs : Query
use_worker_configs = record {
  query_key = key_named "worker-configs" ∷ [];
  path = codes "/worker-configs";
  enabled = true;
  refetch_interval = none;
  result = rows;
}

unfoldable pub use_worker_config : Option Codes → Query
use_worker_config id = record {
  query_key = key_named "worker-config" ∷ id_part id ∷ [];
  path = codes "/worker-configs/" ++ shown id;
  enabled = is_given id;
  refetch_interval = none;
  result = object;
}

unfoldable pub use_machine_registers : Option Codes → Query
use_machine_registers machine_id = record {
  query_key = key_named "machine-registers" ∷ id_part machine_id ∷ [];
  path = codes "/machines/" ++ (shown machine_id ++ codes "/registers");
  enabled = is_given machine_id;
  refetch_interval = none;
  result = object;
}
