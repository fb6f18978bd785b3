-- ===== src/Indicators/Sheet.antt =====
-- The form for an indicator, frontend/src/components/widget-config/IndicatorConfig.tsx. Of a data source it has
-- the two fields that the form reads; the fields of a configuration that the form does not know are of any type.
pub mod Reopened
use industry_dashboard.Base.{
  ℕ, Bool, true, false, not, ◌&&◌, List, [], ◌∷◌, ◌++◌, String, Option, none, some, Codes, codes,
  is_empty, length, filter, ◌==◌, nat_eq, remove_at, modify_at, ltb, if◌then◌else◌,
}
use industry_dashboard.Indicators.{
  Animation, no_animation, blink, marquee, warning, ValueMapping, Source,
}

pub record Stored (R : Type 0) : Type 0 where
  pub title : Option Codes
  pub title_color : Option Codes
  pub show_countdown : Option Bool
  pub widget_style : Option Codes
  pub accent_color : Option Codes
  pub data_sources : Option (List Source)
  pub mappings : Option (List ValueMapping)
  pub default_text : Option Codes
  pub default_color : Option Codes
  pub default_animation : Option Animation
  pub font_size : Option Codes
  pub font_weight : Option Codes
  pub others : R

pub record Form : Type 0 where
  pub title : Codes
  pub title_color : Codes
  pub show_countdown : Bool
  pub widget_style : Codes
  pub accent_color : Codes
  pub data_sources : List Source
  pub mappings : List ValueMapping
  pub default_text : Codes
  pub default_color : Codes
  pub default_animation : Animation
  pub font_size : Codes
  pub font_weight : Codes

-- `newMapping`
new_mapping : Codes → ValueMapping
new_mapping uuid = record {
  id = uuid;
  value = [];
  text = [];
  color = codes "#22c55e";
  animation = no_animation;
}

-- `config.field || d`
abbrev pub or_text : Option Codes → Codes → Codes
or_text none d = d
or_text (some s) d = if is_empty s then d else s

-- `config.show_countdown !== false`
abbrev is_not_false : Option Bool → Bool
is_not_false none = true
is_not_false (some b) = b

abbrev or_sources : Option (List Source) → List Source
or_sources none = []
or_sources (some xs) = xs

-- an empty array is not replaced
abbrev or_one_mapping : Codes → Option (List ValueMapping) → List ValueMapping
or_one_mapping uuid none = new_mapping uuid ∷ []
or_one_mapping uuid (some ms) = ms

abbrev or_no_animation : Option Animation → Animation
or_no_animation none = no_animation
or_no_animation (some a) = a

-- the form when it is mounted
unfoldable pub opened : {R : Type 0} → Codes → Stored R → Form
unfolding new_mapping
opened uuid c = record {
  title = or_text c.title [];
  title_color = or_text c.title_color [];
  show_countdown = is_not_false c.show_countdown;
  widget_style = or_text c.widget_style (codes "default");
  accent_color = or_text c.accent_color (codes "#3b82f6");
  data_sources = or_sources c.data_sources;
  mappings = or_one_mapping uuid c.mappings;
  default_text = or_text c.default_text (codes "N/A");
  default_color = or_text c.default_color (codes "#94a3b8");
  default_animation = or_no_animation c.default_animation;
  font_size = or_text c.font_size (codes "3xl");
  font_weight = or_text c.font_weight (codes "bold");
}

-- a change of one field of a mapping
pub data Change : Type 0 where
  value_to text_to color_to : Codes → Change
  animation_to : Animation → Change

change : Change → ValueMapping → ValueMapping
change (value_to v) m = record m { value = v }
change (text_to v) m = record m { text = v }
change (color_to v) m = record m { color = v }
change (animation_to a) m = record m { animation = a }

pub data Event : Type 0 where
  type_title pick_title_color : Codes → Event
  check_countdown : Bool → Event
  pick_style pick_accent pick_size pick_weight type_default pick_default_color : Codes → Event
  change_sources : List Source → Event
  pick_default_animation : Animation → Event
  add_mapping : Codes → Event
  update_mapping : ℕ → Change → Event
  remove_mapping : ℕ → Event

-- `removeMapping`, whose button is there while there is more than one mapping
without : ℕ → List ValueMapping → List ValueMapping
unfolding remove_at
without i ms = if ltb 1 (length ms) then remove_at i ms else ms

unfoldable pub step : Event → Form → Form
unfolding new_mapping change without modify_at
step (type_title v) f = record f { title = v }
step (pick_title_color v) f = record f { title_color = v }
step (check_countdown b) f = record f { show_countdown = b }
step (pick_style v) f = record f { widget_style = v }
step (pick_accent v) f = record f { accent_color = v }
step (pick_size v) f = record f { font_size = v }
step (pick_weight v) f = record f { font_weight = v }
step (type_default v) f = record f { default_text = v }
step (pick_default_color v) f = record f { default_color = v }
step (change_sources ds) f = record f { data_sources = ds }
step (pick_default_animation a) f = record f { default_animation = a }
step (add_mapping uuid) f = record f { mappings = f.mappings ++ new_mapping uuid ∷ [] }
step (update_mapping i c) f = record f { mappings = modify_at i (change c) f.mappings }
step (remove_mapping i) f = record f { mappings = without i f.mappings }

unfoldable pub run : List Event → Form → Form
unfolding step
run [] f = f
run (e ∷ es) f = run es (step e f)

-- `ds.machine_id && ds.metric`
unfoldable pub is_valid : Source → Bool
is_valid ds = not (is_empty ds.machine_id) && not (is_empty ds.metric)

-- what `onSave` is called with
unfoldable pub saved : {R : Type 0} → Stored R → Form → Stored R
saved c f = record {
  title = some f.title;
  title_color = some f.title_color;
  show_countdown = some f.show_countdown;
  widget_style = some f.widget_style;
  accent_color = some f.accent_color;
  data_sources = some f.data_sources;
  mappings = some f.mappings;
  default_text = some f.default_text;
  default_color = some f.default_color;
  default_animation = some f.default_animation;
  font_size = some f.font_size;
  font_weight = some f.font_weight;
  others = c.others;
}

-- the button Apply, which is disabled without a valid source
unfoldable pub apply : {R : Type 0} → Stored R → Form → Option (Stored R)
unfolding is_valid saved
apply c f = if length (filter is_valid f.data_sources) == 0 then none else some (saved c f)
