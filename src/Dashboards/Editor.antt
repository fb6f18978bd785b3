-- ===== src/Dashboards/Editor.antt =====
-- The state and the handlers of `DashboardEditorPage`. A configuration is any value of a type that has
-- an empty one. `Date.now()` as it is printed is an argument where a widget is made; a mutation's answer
-- is `true` if it is resolved.
pub mod Runs
use industry_dashboard.Base.{
  ℕ, zero, suc, Bool, true, false, not, String, List, [], ◌∷◌, ◌++◌, map, filter, find?, Option,
  none, some, Codes, codes, ◌==◌, codes_eq, string_eq, if◌then◌else◌,
}

-- `Infinity` is the row of a widget that the grid has not placed yet.
pub data Row : Type 0 where
  at : ℕ → Row
  infinity : Row

module _ (C : Type 0) where
  pub record WidgetItem : Type 0 where
    pub id : Codes
    pub widget_type : String
    pub position_x : ℕ
    pub position_y : Row
    pub width : ℕ
    pub height : ℕ
    pub config : C

  pub record Page : Type 0 where
    pub widgets : List WidgetItem
    pub config_widget : Option WidgetItem
    pub share_open : Bool
    -- whether `navigate` went to the dashboard
    pub left : Bool

  abbrev pub initial : Page
  initial = record { widgets = []; config_widget = none; share_open = false; left = false }

-- a type of widgets, with the numbers of its `default_config` that there are
pub record WidgetType : Type 0 where
  pub name : String
  pub width : Option ℕ
  pub height : Option ℕ

-- an item of the grid's layout
pub record LayoutItem : Type 0 where
  pub i : Codes
  pub x : ℕ
  pub y : Row
  pub w : ℕ
  pub h : ℕ

-- `defaults.width || 4`
abbrev pub or_number : Option ℕ → ℕ → ℕ
or_number none b = b
or_number (some zero) b = b
or_number (some (suc n)) b = suc n

abbrev width_of : Option WidgetType → Option ℕ
width_of none = none
width_of (some t) = t.width

abbrev height_of : Option WidgetType → Option ℕ
height_of none = none
height_of (some t) = t.height

pub data Event (C : Type 0) : Type 0 where
  loaded : Option (List (WidgetItem C)) → Event C
  add : (now : Codes) → List WidgetType → (type : String) → Event C
  remove : Codes → Event C
  change_layout : List LayoutItem → Event C
  open_config : WidgetItem C → Event C
  save_config : C → Event C
  close_config : Event C
  share : Bool → Event C
  save : (answer : Bool) → Event C

module _ {C : Type 0} where
  -- `newWidget`
  unfoldable pub new_widget : C → Codes → List WidgetType → String → WidgetItem C
  new_widget empty now types type = record {
    id = codes "new-" ++ now;
    widget_type = type;
    position_x = 0;
    position_y = infinity;
    width = or_number (width_of (find? (λ t. t.name == type) types)) 4;
    height = or_number (height_of (find? (λ t. t.name == type) types)) 3;
    config = empty;
  }

  -- `addWidget`
  unfoldable pub add_widget : C → Codes → List WidgetType → String → Page C → Page C
  unfolding new_widget
  add_widget empty now types type p = record p {
    widgets = p.widgets ++ new_widget empty now types type ∷ [];
    config_widget = some (new_widget empty now types type);
  }

  -- `removeWidget`
  remove_widget : Codes → Page C → Page C
  remove_widget id p = record p { widgets = filter (λ w. not (w.id == id)) p.widgets }

  -- the callback of `map` in `onLayoutChange`
  place : Option LayoutItem → WidgetItem C → WidgetItem C
  place none w = w
  place (some l) w = record w { position_x = l.x; position_y = l.y; width = l.w; height = l.h }

  -- `onLayoutChange`
  pub on_layout_change : List LayoutItem → Page C → Page C
  unfolding place
  on_layout_change layout p = record p {
    widgets = map (λ w. place (find? (λ l. l.i == w.id) layout) w) p.widgets;
  }

  -- `handleConfigSave`
  configure : Option (WidgetItem C) → C → Page C → Page C
  configure none config p = p
  configure (some target) config p = record p {
    widgets = map (λ w. if w.id == target.id then record w { config = config } else w) p.widgets;
    config_widget = none;
  }

  unfoldable pub handle_config_save : C → Page C → Page C
  unfolding configure
  handle_config_save config p = configure p.config_widget config p

  -- an item of `layout`, without the least sizes, which are constants
  abbrev pub layout_item : WidgetItem C → LayoutItem
  layout_item w = record { i = w.id; x = w.position_x; y = w.position_y; w = w.width; h = w.height }

  -- `layout`
  pub layout : Page C → List LayoutItem
  layout p = map layout_item p.widgets

  -- `handleSave`; the dashboard's id is `none` where the address has none
  handle_save : Option String → Bool → Page C → Page C × Option (String × List (WidgetItem C))
  handle_save none answer p = (p, none)
  handle_save (some id) answer p =
      (if answer then record p { left = true } else p, some (id, p.widgets))

  -- the effect on a dashboard that is loaded; its widgets are `none` where it has none
  load : Option (List (WidgetItem C)) → Page C → Page C
  load none p = p
  load (some ws) p = record p { widgets = ws }

  unfoldable pub step :
      C → Option String → Event C → Page C → Page C × Option (String × List (WidgetItem C))
  unfolding load add_widget remove_widget on_layout_change handle_config_save handle_save
  step empty id (loaded ws) p = (load ws p, none)
  step empty id (add now types type) p = (add_widget empty now types type p, none)
  step empty id (remove w) p = (remove_widget w p, none)
  step empty id (change_layout l) p = (on_layout_change l p, none)
  step empty id (open_config w) p = (record p { config_widget = some w }, none)
  step empty id (save_config c) p = (handle_config_save c p, none)
  step empty id close_config p = (record p { config_widget = none }, none)
  step empty id (share open_) p = (record p { share_open = open_ }, none)
  step empty id (save answer) p = handle_save id answer p
