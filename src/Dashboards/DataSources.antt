-- ===== src/Dashboards/DataSources.antt =====
-- `DataSourceList` and its items of CommonFields.tsx, and legend-utils.ts. `crypto.randomUUID` is an
-- argument where a source is made. A name that is missing is `none`.
use industry_dashboard.Base.{
  ℕ, ◌≤◌, ◌<◌, ◌≡◌, refl, Bool, true, false, not, ◌&&◌, String, List, [], ◌∷◌, ◌++◌, map, find?,
  find?_complete, length, length-map, length-filter-le, any, all, includes, remove, includes-remove,
  Distinct, remove_at, modify_at, leb, Option, none, some, Codes, codes, is_empty, join, ◌==◌,
  string_eq, ==_iff, arith, if◌then◌else◌, Bool-cases, inl, inr,
}

pub record DataSource : Type 0 where
  pub id : String
  pub machine_id : String
  pub metric : Codes
  pub color : String
  pub label : Codes
  pub site_name : Option Codes
  pub line_name : Option Codes
  pub machine_name : Option Codes

-- `DS_COLORS`
abbrev ds_colors : List String
ds_colors =
    "#3b82f6" ∷ "#22c55e" ∷ "#f59e0b" ∷ "#ef4444" ∷ "#8b5cf6" ∷ "#06b6d4" ∷ "#ec4899" ∷ "#f97316"
    ∷ "#14b8a6" ∷ "#6366f1" ∷ []

abbrev pub colors : List DataSource → List String
colors existing = map (λ ds. ds.color) existing

-- `find(...) || DS_COLORS[0]`
abbrev or_first : Option String → String
or_first none = "#3b82f6"
or_first (some c) = c

-- `newDataSource`
unfoldable pub new_data_source : String → List DataSource → DataSource
new_data_source uuid existing = record {
  id = uuid;
  machine_id = "";
  metric = [];
  color = or_first (find? (λ c. not (includes c (colors existing))) ds_colors);
  label = [];
  site_name = none;
  line_name = none;
  machine_name = none;
}

-- `items`
unfoldable pub items : String → List DataSource → List DataSource
unfolding new_data_source
items uuid [] = new_data_source uuid [] ∷ []
items uuid (ds ∷ rest) = ds ∷ rest

-- `a?.name || ''` and `a?.name || b || ''`
abbrev pub or_blank : Option Codes → Codes
or_blank none = []
or_blank (some s) = s

abbrev or_else_blank : Option Codes → Option Codes → Codes
or_else_blank a b = if is_empty (or_blank a) then or_blank b else or_blank a

-- the names that stand on the screen of an item: of the site, the line and the machine
pub record Names : Type 0 where
  pub site : Option Codes
  pub line : Option Codes
  pub machine : Option Codes

pub data Change : Type 0 where
  pick_line : Change
  -- with the name of the machine that was picked
  pick_machine : (id : String) → (name : Option Codes) → Change
  pick_metric : Codes → Change
  type_label : Codes → Change
  pick_color : String → Change

-- the callbacks of `DataSourceItem`
pub change : Names → Change → DataSource → DataSource
change n pick_line ds = record ds {
  machine_id = "";
  metric = [];
  machine_name = some [];
  line_name = some [];
}
change n (pick_machine id name) ds = record ds {
  machine_id = id;
  metric = [];
  machine_name = some (or_blank name);
  line_name = some (or_blank n.line);
  site_name = some (or_blank n.site);
}
change n (pick_metric m) ds = record ds {
  metric = m;
  machine_name = some (or_else_blank n.machine ds.machine_name);
  line_name = some (or_else_blank n.line ds.line_name);
  site_name = some (or_else_blank n.site ds.site_name);
}
change n (type_label s) ds = record ds { label = s }
change n (pick_color c) ds = record ds { color = c }

pub data Event : Type 0 where
  update : (index : ℕ) → Names → Change → Event
  -- the button is there for a list of several sources
  remove_item : (index : ℕ) → Event
  add_item : (uuid : String) → Event

-- An event in a list in the mode `multiple`; `shown` is the id of the source that stands for an empty
-- list.
unfoldable pub step : String → Event → List DataSource → List DataSource
unfolding items change new_data_source remove_at modify_at
step shown (update index n c) ds = modify_at index (change n c) (items shown ds)
step shown (remove_item index) ds =
    if leb (length (items shown ds)) 1 then ds else remove_at index (items shown ds)
step shown (add_item uuid) ds = items shown ds ++ new_data_source uuid (items shown ds) ∷ []

-- `LegendDisplay`
pub record LegendDisplay : Type 0 where
  pub show_site : Bool
  pub show_line : Bool
  pub show_machine : Bool

abbrev pub part : Bool → Option Codes → List Codes
part shown name = if shown && not (is_empty (or_blank name)) then or_blank name ∷ [] else []

-- `buildLegendLabel`; without a display no name is shown
unfoldable pub build_legend_label : DataSource → Option LegendDisplay → Codes
unfolding join
build_legend_label ds none = if is_empty ds.label then ds.metric else ds.label
build_legend_label ds (some d) =
    if is_empty ds.label
    then join (codes " : ") (
        part d.show_site ds.site_name
        ++ (part d.show_line ds.line_name
            ++ (part d.show_machine ds.machine_name ++ ds.metric ∷ [])))
    else ds.label

length-remove :
    (k : String) (xs : List String) → includes k xs ≡ true → length (remove k xs) < length xs
length-remove k [] h = absurd cc
length-remove k (x ∷ xs) h =
    ground (arith, h, length-filter-le (λ y. not (y == k)) xs, length-remove k xs)

all-remove :
    (x : String) (xs used : List String)
    → includes x xs ≡ false
    → all (λ c. includes c used) xs ≡ true
    → all (λ c. includes c (remove x used)) xs ≡ true
all-remove x [] used out h = refl
all-remove x (y ∷ xs) used out h =
    ground (arith, out, h, all-remove x xs used, includes-remove y x used, ==_iff y x)

-- Different colours that all are used are no more than the uses.
length-used :
    (xs used : List String)
    → Distinct xs
    → all (λ c. includes c used) xs ≡ true
    → length xs ≤ length used
length-used [] used d h = omega arith
length-used (x ∷ xs) used d h =
    let shorter = length-remove x used (ground (arith, h)) in
    let rest = length-used xs (remove x used) d.1 (all-remove x xs used d.0 (ground (arith, h))) in
    omega (arith, shorter, rest)

all-any : (f : String → Bool) (xs : List String) → any (λ c. not (f c)) xs ≡ false → all f xs ≡ true
all-any f [] h = refl
all-any f (x ∷ xs) h = ground (arith, h, all-any f xs)

-- More colours than are used: one of them is not.
pigeonhole :
    (xs used : List String)
    → Distinct xs
    → length used < length xs
    → (c : String) × (find? (λ c. not (includes c used)) xs ≡ some c)
      × (not (includes c used) ≡ true)
pigeonhole xs used d h = elim (Bool-cases (any (λ c. not (includes c used)) xs)) [
  | inl free ↦ find?_complete (λ c. not (includes c used)) xs free
  | inr full ↦
      let few = length-used xs used d (all-any (λ c. includes c used) xs full) in
      absurd (omega (arith, h, few))
]

ds_colors-Distinct : Distinct ds_colors
ds_colors-Distinct =
    (refl, (refl, (refl, (refl, (refl, (refl, (refl, (refl, (refl, (refl, tt))))))))))

-- A source that is added to fewer than ten has a colour that none of them has.
pub new_data_source-colors :
    (uuid : String) (existing : List DataSource)
    → length existing < 10
    → includes (new_data_source uuid existing).color (colors existing) ≡ false
unfolding new_data_source
new_data_source-colors uuid existing h =
    let (c, found, free) =
      pigeonhole ds_colors (colors existing) ds_colors-Distinct
        (rw (length-map (λ ds. ds.color) existing) h) in
    rw found (ground (arith, free))
