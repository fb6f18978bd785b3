-- ===== src/Alerts/Events.antt =====
-- The state of frontend/src/pages/AlertsPage.tsx: filters, sorting and paging of alert events. The
-- total is what the server last counted for the current query.
pub mod Pages
pub mod Sorting
use industry_dashboard.Base.{
  ℕ, ◌+◌, ◌-◌, ◌*◌, ◌/◌, ◌%◌, max, Bool, true, false, not, ◌&&◌, ◌||◌, String, List, [], ◌∷◌, ◌++◌,
  map, filter, length, find?, Option, none, some, ◌==◌, string_eq, nat_eq, leb, if◌then◌else◌,
}
use industry_dashboard.Alerts.Rule.{Machine}

pub data Order : Type 0 where
  asc desc : Order

pub record Page : Type 0 where
  pub severity : String
  pub status : String
  pub line_id : String
  pub machine_id : String
  pub sort_by : String
  pub sort_order : Order
  pub page : ℕ

abbrev pub page_size : ℕ
page_size = 20

-- the first state; a line may be named in the address
abbrev pub initial : String → Page
initial line_id = record {
  severity = "";
  status = "";
  line_id = line_id;
  machine_id = "";
  sort_by = "triggered_at";
  sort_order = desc;
  page = 0;
}

-- the numbers of the query, before they are printed
unfoldable pub offset : Page → ℕ
offset p = p.page * page_size

abbrev given : String → String → List (String × String)
given key v = if v == "" then [] else (key, v) ∷ []

-- the filters of `params`
unfoldable pub filters : Page → List (String × String)
filters p =
    given "severity" p.severity
    ++ (given "status" p.status ++ (given "line_id" p.line_id ++ given "machine_id" p.machine_id))

-- `Math.max(1, Math.ceil(total / PAGE_SIZE))`
pub total_pages : ℕ → ℕ
total_pages total = max 1 ((total + (page_size - 1)) / page_size)

abbrev pub flip : Order → Order
flip asc = desc
flip desc = asc

-- `handleSort`
pub handle_sort : String → Page → Page
handle_sort col p =
    if p.sort_by == col then record p { sort_order = flip p.sort_order; page = 0 } else record p {
      sort_by = col;
      sort_order = if col == "triggered_at" then desc else asc;
      page = 0;
    }

pub data Icon : Type 0 where
  none_icon up_icon down_icon : Icon

pub sort_icon : String → Page → Icon
sort_icon col p =
    if not (p.sort_by == col)
    then none_icon
    else elim p.sort_order [ asc ↦ up_icon | desc ↦ down_icon ]

pub data Event : Type 0 where
  pick_severity pick_status pick_line pick_machine : String → Event
  -- the button of the banner
  clear_line : Event
  sort : String → Event
  -- the buttons under the table, with the total that stands on the page
  prev next : (total : ℕ) → Event

-- A button that is not shown or disabled does nothing.
unfoldable pub step : Event → Page → Page
unfolding handle_sort total_pages
step (pick_severity v) p = record p { severity = v; page = 0 }
step (pick_status v) p = record p { status = v; page = 0 }
step (pick_line v) p = record p { line_id = v; page = 0; machine_id = "" }
step (pick_machine v) p = record p { machine_id = v; page = 0 }
step clear_line p = record p { line_id = ""; machine_id = "" }
step (sort col) p = handle_sort col p
step (prev total) p =
    if leb (total_pages total) 1 || p.page == 0 then p else record p { page = p.page - 1 }
step (next total) p =
    if leb (total_pages total) 1 || leb (total_pages total - 1) p.page
    then p
    else record p { page = p.page + 1 }

-- The machines that the filter offers: those of the chosen line.
unfoldable filtered_machines : Page → List Machine → List Machine
filtered_machines p machines =
    if p.line_id == "" then machines else filter (λ m. m.line_id == p.line_id) machines

-- one event of the table; `none` is `null`
pub record AlertEvent : Type 0 where
  pub id : String
  pub severity : String
  pub resolved_at : Option String
  pub acknowledged_by : Option String

-- a field that an `if` takes for true
abbrev is_set : Option String → Bool
is_set none = false
is_set (some s) = not (s == "")

pub data Status : Type 0 where
  resolved acknowledged open_status : Status

-- the badge of a row
pub status_of : AlertEvent → Status
status_of e =
    if is_set e.resolved_at
    then resolved
    else if is_set e.acknowledged_by
    then acknowledged
    else open_status

-- whether a row has the button that acknowledges it
pub can_acknowledge : AlertEvent → Bool
can_acknowledge e = not (is_set e.resolved_at) && not (is_set e.acknowledged_by)

-- `unresolvedInfoCount`
pub unresolved_info_count : List AlertEvent → ℕ
unresolved_info_count events = length (
    filter
      (λ e. e.severity == "info" && (not (is_set e.resolved_at) && not (is_set e.acknowledged_by)))
      events)
