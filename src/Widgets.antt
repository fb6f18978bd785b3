-- ===== src/Widgets.antt =====
-- The frame of a widget, frontend/src/components/widgets/WidgetRenderer.tsx, the sheet with its form,
-- components/widget-config/WidgetConfigSheet.tsx, and the widgets that list the machines of a line,
-- DataTableWidget.tsx and MachineStatusWidget.tsx.
pub mod Countdown
pub mod Kinds
mod Tests
use industry_dashboard.Base.{
  ℕ, Bool, true, false, not, List, [], ◌∷◌, map, String, Option, none, some, Codes, codes, is_empty,
  ◌==◌, codes_eq, if◌then◌else◌,
}

pub data Component : Type 0 where
  status_card gauge line_chart bar_chart pie_chart data_table alert_list machine_status : Component
  text_widget indicator : Component

pub data ConfigForm : Type 0 where
  status_card_form line_chart_form bar_chart_form machine_status_form alert_list_form : ConfigForm
  text_form indicator_form : ConfigForm

-- an object literal, looked up by a key
pub table : {A : Type 0} → Codes → List (String × A) → Option A
table key [] = none
table key ((name, a) ∷ entries) =
    let rest = table key entries in if codes name == key then some a else rest

-- `WIDGETS`
abbrev pub widgets : List (String × Component)
widgets =
    ("status_card", status_card)
    ∷ ("gauge", gauge)
    ∷ ("line_chart", line_chart)
    ∷ ("bar_chart", bar_chart)
    ∷ ("pie_chart", pie_chart)
    ∷ ("data_table", data_table)
    ∷ ("alert_list", alert_list)
    ∷ ("machine_status", machine_status)
    ∷ ("text_markdown", text_widget)
    ∷ ("indicator", indicator)
    ∷ []

-- `DEFAULT_LABELS`
abbrev pub default_labels : List (String × String)
default_labels =
    ("status_card", "Status Card")
    ∷ ("gauge", "Gauge")
    ∷ ("line_chart", "Line Chart")
    ∷ ("bar_chart", "Bar Chart")
    ∷ ("pie_chart", "Pie Chart")
    ∷ ("data_table", "Data Table")
    ∷ ("alert_list", "Alerts")
    ∷ ("machine_status", "Machine Status")
    ∷ ("text_markdown", "Text")
    ∷ ("indicator", "Indicator")
    ∷ []

-- `CONFIG_FORMS`
abbrev pub config_forms : List (String × ConfigForm)
config_forms =
    ("status_card", status_card_form)
    ∷ ("gauge", status_card_form)
    ∷ ("line_chart", line_chart_form)
    ∷ ("bar_chart", bar_chart_form)
    ∷ ("pie_chart", bar_chart_form)
    ∷ ("data_table", machine_status_form)
    ∷ ("alert_list", alert_list_form)
    ∷ ("machine_status", machine_status_form)
    ∷ ("text_markdown", text_form)
    ∷ ("indicator", indicator_form)
    ∷ []

unfoldable pub component_of : Codes → Option Component
unfolding table
component_of widget_type = table widget_type widgets

unfoldable pub form_of : Codes → Option ConfigForm
unfolding table
form_of widget_type = table widget_type config_forms

-- the fields of a configuration that the frame reads
pub record Config : Type 0 where
  pub title : Option Codes
  pub title_color : Option Codes
  pub show_countdown : Option Bool
  pub widget_style : Option Codes
  pub accent_color : Option Codes

pub record Frame : Type 0 where
  pub title : Codes
  pub title_color : Option Codes
  pub card_class : String
  pub border_left_color : Option Codes
  pub countdown : Bool
  pub content : Component

pub data View : Type 0 where
  unknown_widget : Codes → View
  framed : Frame → View

-- `getCardClass`
card_class : Codes → String
card_class style =
    if style == codes "minimal"
    then "rounded-lg p-3"
    else if style == codes "accent"
    then "rounded-lg border-l-4 bg-white p-3 shadow-sm"
    else "rounded-lg border bg-white p-3 shadow-sm"

abbrev or_text : Option Codes → Codes → Codes
or_text none d = d
or_text (some s) d = if is_empty s then d else s

-- `s || undefined`
abbrev or_undefined : Option Codes → Option Codes
or_undefined none = none
or_undefined (some s) = if is_empty s then none else some s

abbrev is_not_false : Option Bool → Bool
is_not_false none = true
is_not_false (some b) = b

label_of : Codes → Option String → Codes
label_of widget_type none = widget_type
label_of widget_type (some label) = codes label

framed_as : Codes → Config → Option Component → View
unfolding table card_class label_of
framed_as widget_type c none = unknown_widget widget_type
framed_as widget_type c (some content) = framed (record {
  title = or_text c.title (label_of widget_type (table widget_type default_labels));
  title_color = or_undefined c.title_color;
  card_class = card_class (or_text c.widget_style (codes "default"));
  border_left_color =
      if or_text c.widget_style (codes "default") == codes "accent"
      then some (or_text c.accent_color (codes "#3b82f6"))
      else none;
  countdown = is_not_false c.show_countdown;
  content = content;
})

-- `WidgetRenderer`
unfoldable pub widget_renderer : Codes → Config → View
unfolding framed_as component_of
widget_renderer widget_type c = framed_as widget_type c (component_of widget_type)

pub record Machine : Type 0 where
  pub id : Codes
  pub name : Codes
  pub model : Codes
  pub status : Codes

abbrev or_no_machines : Option (List Machine) → List Machine
or_no_machines none = []
or_no_machines (some ms) = ms

-- the rows of `DataTableWidget`, none where it says that there is no data
unfoldable pub table_rows : Option (List Machine) → List (Codes × Codes × Codes)
table_rows machines = map (λ m. (m.name, m.model, m.status)) (or_no_machines machines)

-- `STATUS_COLOR[m.status] || 'bg-slate-50'`
status_color : Codes → String
status_color s =
    if s == codes "running"
    then "bg-green-100 text-green-800"
    else if s == codes "offline"
    then "bg-slate-100 text-slate-600"
    else if s == codes "error"
    then "bg-red-100 text-red-800"
    else "bg-slate-50"

-- the tiles of `MachineStatusWidget`
unfoldable pub status_tiles : Option (List Machine) → List (Codes × Codes × String)
unfolding status_color
status_tiles machines =
    map (λ m. (m.name, m.status, status_color m.status)) (or_no_machines machines)
