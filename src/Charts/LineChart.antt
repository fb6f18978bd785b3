-- ===== src/Charts/LineChart.antt =====
-- The data of frontend/src/components/widgets/LineChartWidget.tsx: the sources of a configuration, the
-- queries and the merge of their points. A field that is missing is `none`. `merge` has the rows in the order
-- of their first points, `chart_data` of `Ordered` in the order of their times.
pub mod Merge
pub mod Shared
pub mod Ordered
use industry_dashboard.Base.{
  ℕ, suc, ◌+◌, ◌%◌, ◌≡◌, Bool, true, false, not, ◌&&◌, ◌||◌, String, List, [], ◌∷◌, ◌++◌, map,
  length, get_elem?, Option, none, some, Codes, codes, ◌==◌, codes_eq, string_eq, nat_eq,
  if◌then◌else◌,
}
use industry_dashboard.Settings.Decimal.{print_nat}

pub record DataSource : Type 0 where
  pub id : Codes
  pub machine_id : String
  pub metric : String
  pub color : String
  pub label : String

pub record Config : Type 0 where
  pub data_sources : Option (List DataSource)
  -- the older format
  pub machine_id : Option String
  pub metrics : Option (List String)
  -- the colour of each metric that has a style
  pub metric_styles : Option (List (String × String))

-- `DEFAULT_COLORS`
abbrev default_colors : List String
default_colors = "#3b82f6" ∷ "#22c55e" ∷ "#f59e0b" ∷ "#ef4444" ∷ "#8b5cf6" ∷ "#06b6d4" ∷ []

abbrev style_color : String → List (String × String) → Option String
style_color metric [] = none
style_color metric ((m, c) ∷ styles) =
    let rest = style_color metric styles in if m == metric then some c else rest

abbrev pub or_empty {ℓ} : {A : Type ℓ} → Option (List A) → List A
or_empty none = []
or_empty (some xs) = xs

abbrev pub or_default : Option String → Option String → String
or_default none none = ""
or_default none (some b) = b
or_default (some a) none = a
or_default (some a) (some b) = if a == "" then b else a

-- the callback of `metrics.map`
legacy_source : String → List (String × String) → String → ℕ → DataSource
unfolding print_nat
legacy_source machine_id styles metric i = record {
  id = codes "legacy-" ++ print_nat i;
  machine_id = machine_id;
  metric = metric;
  color =
      or_default (style_color metric styles) (get_elem? default_colors (i % length default_colors));
  label = metric;
}

legacy_from : String → List (String × String) → ℕ → List String → List DataSource
unfolding legacy_source
legacy_from machine_id styles i [] = []
legacy_from machine_id styles i (m ∷ ms) =
    legacy_source machine_id styles m i ∷ legacy_from machine_id styles (suc i) ms

-- `!machineId` gives no sources
abbrev legacy : Option String → Config → List DataSource
unfolding legacy_from
legacy none c = []
legacy (some machine_id) c =
    if machine_id == ""
    then []
    else legacy_from machine_id (or_empty c.metric_styles) 0 (or_empty c.metrics)

-- `resolveDataSources`
unfoldable pub resolve_data_sources : Config → List DataSource
unfolding legacy
resolve_data_sources c =
    if length (or_empty c.data_sources) == 0 then legacy c.machine_id c else or_empty c.data_sources

-- a query's key, but for its first part and the range, which all queries of a chart share
abbrev pub Key : Type 0
Key = String × String

abbrev pub query_key : DataSource → Key
query_key ds = (ds.machine_id, ds.metric)

pub record Point (V : Type 0) : Type 0 where
  pub time : String
  pub value : V

-- what a query function returns: its source and the points
abbrev pub Result : Type 0 → Type 0
Result V = DataSource × List (Point V)

-- The values of a row by the ids of the sources; its time stands beside it. The ids are made by `crypto.randomUUID`
-- or begin with `legacy-`, so none is `time`.
abbrev pub Row : Type 0 → Type 0
Row V = List (Codes × V)

module _ {V : Type 0} where
  -- a query without data is passed over
  add_result : Option (Result V) → List (Result V) → List (Result V)
  add_result none rest = rest
  add_result (some r) rest = r ∷ rest

  -- `allData`: what the cache has for the keys of the sources
  pub all_data : (Key → Option (Result V)) → List DataSource → List (Result V)
  unfolding add_result
  all_data entry [] = []
  all_data entry (ds ∷ rest) = add_result (entry (query_key ds)) (all_data entry rest)

  -- `row[id] = v`
  unfoldable pub set : Codes → V → Row V → Row V
  set id v [] = (id, v) ∷ []
  set id v ((j, u) ∷ fs) = let rest = set id v fs in if j == id then (j, v) ∷ fs else (j, u) ∷ rest

  unfoldable pub get : Codes → Row V → Option V
  get id [] = none
  get id ((j, u) ∷ fs) = let rest = get id fs in if j == id then some u else rest

  -- the body of the inner loop
  pub put : Codes → Point V → List (String × Row V) → List (String × Row V)
  unfolding set
  put id p [] = (p.time, set id p.value []) ∷ []
  put id p ((t, row) ∷ rows) =
      let rest = put id p rows in
      if t == p.time then (t, set id p.value row) ∷ rows else (t, row) ∷ rest

  pub put_all : Codes → List (Point V) → List (String × Row V) → List (String × Row V)
  unfolding put
  put_all id [] rows = rows
  put_all id (p ∷ ps) rows = put_all id ps (put id p rows)

  -- the loops that fill `mergedMap`
  unfoldable pub merge : List (Result V) → List (String × Row V) → List (String × Row V)
  unfolding put_all
  merge [] rows = rows
  merge ((ds, data_) ∷ rest) rows = merge rest (put_all ds.id data_ rows)

  -- the value of a line at a time
  pub value_at : String → Codes → List (String × Row V) → Option V
  unfolding get
  value_at t id [] = none
  value_at t id ((u, row) ∷ rows) =
      let rest = value_at t id rows in if u == t then get id row else rest
