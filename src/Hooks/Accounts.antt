-- ===== src/Hooks/Accounts.antt =====
-- Queries of frontend/src/lib/hooks.ts about users, roles, keys and dashboards.
use industry_dashboard.Base.{true, [], ◌∷◌, ◌++◌, Option, none, Codes, codes, string_eq}
use industry_dashboard.Hooks.{
  Query, rows, object, page_of_rows, is_given, shown, id_part, params_part, key_named,
}
use industry_dashboard.Hooks.SearchParams.{Params, search_params}
use industry_dashboard.Hooks.Plant.{or_no_params}

unfoldable pub use_users : Query
use_users = record {
  query_key = key_named "users" ∷ [];
  path = codes "/users";
  enabled = true;
  refetch_interval = none;
  result = rows;
}

unfoldable pub use_roles : Query
use_roles = record {
  query_key = key_named "roles" ∷ [];
  path = codes "/rbac/roles";
  enabled = true;
  refetch_interval = none;
  result = rows;
}

unfoldable pub use_permissions : Query
use_permissions = record {
  query_key = key_named "permissions" ∷ [];
  path = codes "/rbac/permissions";
  enabled = true;
  refetch_interval = none;
  result = rows;
}

unfoldable pub use_role_permissions : Option Codes → Query
use_role_permissions role_id = record {
  query_key = key_named "role-permissions" ∷ id_part role_id ∷ [];
  path = codes "/rbac/roles/" ++ (shown role_id ++ codes "/permissions");
  enabled = is_given role_id;
  refetch_interval = none;
  result = rows;
}

unfoldable pub use_audit_logs : Option Params → Query
unfolding search_params
use_audit_logs params = record {
  query_key = key_named "audit-logs" ∷ params_part params ∷ [];
  path = codes "/audit-logs?" ++ search_params (or_no_params params);
  enabled = true;
  refetch_interval = none;
  result = page_of_rows;
}

unfoldable pub use_api_keys : Query
use_api_keys = record {
  query_key = key_named "api-keys" ∷ [];
  path = codes "/llm/keys";
  enabled = true;
  refetch_interval = none;
  result = rows;
}

unfoldable pub use_dashboards : Option Codes → Query
use_dashboards site_id = record {
  query_key = key_named "dashboards" ∷ id_part site_id ∷ [];
  path = codes "/dashboards?site_id=" ++ shown site_id;
  enabled = is_given site_id;
  refetch_interval = none;
  result = rows;
}

unfoldable pub use_dashboard : Option Codes → Query
use_dashboard id = record {
  query_key = key_named "dashboard" ∷ id_part id ∷ [];
  path = codes "/dashboards/" ++ shown id;
  enabled = is_given id;
  refetch_interval = none;
  result = object;
}

unfoldable pub use_widget_types : Query
use_widget_types = record {
  query_key = key_named "widget-types" ∷ [];
  path = codes "/widget-types";
  enabled = true;
  refetch_interval = none;
  result = rows;
}

unfoldable pub use_dashboard_access : Option Codes → Query
use_dashboard_access id = record {
  query_key = key_named "dashboard-access" ∷ id_part id ∷ [];
  path = codes "/dashboards/" ++ (shown id ++ codes "/access");
  enabled = is_given id;
  refetch_interval = none;
  result = rows;
}
