-- ===== src/Hooks/Widgets.antt =====
-- The queries that components pass to `useQuery` and `useQueries` themselves: those of
-- frontend/src/pages/MachineDetailPage.tsx and pages/admin/WorkerConfigEditPage.tsx, of the pickers in
-- components/widget-config/CommonFields.tsx, and of the indicator and the charts in components/widgets.
use industry_dashboard.Base.{
  not, ◌&&◌, [], ◌∷◌, ◌++◌, String, Option, none, some, Codes, codes, is_empty, ◌==◌, string_eq,
}
use industry_dashboard.Hooks.{
  Query, text, object, values, texts, series, source_value, is_given, shown, id_part, key_named,
}
use industry_dashboard.Hooks.Plant.{datapoints_path}

unfoldable pub machine_detail_metrics_query : Option Codes → Query
machine_detail_metrics_query machine_id = record {
  query_key = key_named "machine-metrics" ∷ id_part machine_id ∷ [];
  path = codes "/machines/" ++ (shown machine_id ++ codes "/metrics");
  enabled = is_given machine_id;
  refetch_interval = none;
  result = texts;
}

unfoldable pub machine_detail_latest_query : Option Codes → Query
machine_detail_latest_query machine_id = record {
  query_key = key_named "machine-latest" ∷ id_part machine_id ∷ [];
  path = codes "/machines/" ++ (shown machine_id ++ codes "/latest");
  enabled = is_given machine_id;
  refetch_interval = some 30000;
  result = values;
}

unfoldable pub picker_metrics_query : Codes → Query
picker_metrics_query machine_id = record {
  query_key = key_named "machine-metrics" ∷ text machine_id ∷ [];
  path = codes "/machines/" ++ (machine_id ++ codes "/metrics");
  enabled = not (is_empty machine_id);
  refetch_interval = none;
  result = texts;
}

unfoldable pub indicator_latest_query : Option Codes → Query
indicator_latest_query machine_id = record {
  query_key = key_named "machine-latest" ∷ id_part machine_id ∷ [];
  path = codes "/machines/" ++ (shown machine_id ++ codes "/latest");
  enabled = is_given machine_id;
  refetch_interval = some 5000;
  result = values;
}

unfoldable pub line_chart_points_query : Codes → Codes → Codes → Query
line_chart_points_query machine_id metric time_range = record {
  query_key = key_named "datapoints" ∷ text machine_id ∷ text metric ∷ text time_range ∷ [];
  path = datapoints_path (some machine_id) metric time_range;
  enabled = not (is_empty machine_id) && not (is_empty metric);
  refetch_interval = some 30000;
  result = series;
}

unfoldable pub bar_chart_average_query : Codes → Codes → Codes → Query
bar_chart_average_query machine_id metric time_range = record {
  query_key =
      key_named "datapoints-latest-avg" ∷ text machine_id ∷ text metric ∷ text time_range ∷ [];
  path = datapoints_path (some machine_id) metric time_range;
  enabled = not (is_empty machine_id) && not (is_empty metric);
  refetch_interval = some 30000;
  result = source_value;
}

unfoldable pub pie_chart_latest_query : Codes → Codes → Query
pie_chart_latest_query machine_id metric = record {
  query_key = key_named "datapoints-latest" ∷ text machine_id ∷ text metric ∷ [];
  path = codes "/machines/" ++ (machine_id ++ codes "/latest");
  enabled = not (is_empty machine_id) && not (is_empty metric);
  refetch_interval = some 30000;
  result = source_value;
}

unfoldable pub db_env_query : String → Query
db_env_query active_step = record {
  query_key = key_named "system-db-env" ∷ [];
  path = codes "/system/db-env";
  enabled = active_step == "deploy";
  refetch_interval = none;
  result = object;
}
