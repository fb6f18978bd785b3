-- ===== src/Indicators/Tests.antt =====
-- The indicator on numbers that are natural numbers.
use industry_dashboard.Base.{
  ℕ, ◌≡◌, refl, false, List, [], ◌∷◌, Option, none, some, codes, String, is_space, trim, ltb, leb,
  ℤ, pos, filter, length, ◌==◌, nat_eq,
}
use industry_dashboard.Settings.Decimal.{print_nat, parse_int}
use industry_dashboard.Indicators.{blink, warning, ValueMapping, Source, Numbers}
use industry_dashboard.Indicators.Ranges.{range_match}
use industry_dashboard.Indicators.Matching.{
  Config, shown, loading, waiting, answered, match_mapping, indicator_widget,
}
use industry_dashboard.Indicators.Matching.First.{IsFirst, match_mapping-IsFirst}
use industry_dashboard.Indicators.Sheet.{
  Stored, Event, type_default, pick_size, add_mapping, update_mapping, remove_mapping, text_to,
  change_sources, opened, run, is_valid, apply,
}
use industry_dashboard.Indicators.Sheet.Reopened.{reopened, opened-apply}

abbrev natural_of : Option ℤ → Option ℕ
natural_of (some (pos n)) = some n
natural_of _ = none

abbrev natural_numbers : Numbers ℕ
natural_numbers = record {
  show = print_nat;
  read = λ s. natural_of (parse_int s);
  less = ltb;
  at_most = leb;
}

abbrev mapping : String → String → ValueMapping
mapping value text = record {
  id = codes value;
  value = codes value;
  text = codes text;
  color = codes "#22c55e";
  animation = blink;
}

abbrev mappings : List ValueMapping
mappings = mapping ">=20" "High" ∷ mapping " 10 - 15 " "Middle" ∷ mapping "<5" "Low" ∷ []

negative_range_test : range_match (codes "-1.5--0.5") ≡ some (codes "-1.5", codes "-0.5")
unfolding range_match is_space
negative_range_test = refl

high_test : match_mapping natural_numbers (some 20) mappings ≡ some (mapping ">=20" "High")
unfolding match_mapping print_nat parse_int range_match is_space trim
high_test = refl

middle_test : match_mapping natural_numbers (some 15) mappings ≡ some (mapping " 10 - 15 " "Middle")
unfolding match_mapping print_nat parse_int range_match is_space trim
middle_test = refl

gap_test : match_mapping natural_numbers (some 7) mappings ≡ none
unfolding match_mapping print_nat parse_int range_match is_space trim
gap_test = refl

abbrev source : Source
source = record { machine_id = codes "m1"; metric = codes "speed" }

abbrev config : Config
config = record {
  data_sources = some (source ∷ []);
  mappings = some mappings;
  default_text = some [];
  default_color = none;
  default_animation = some warning;
  font_size = some (codes "9xl");
  font_weight = none;
}

loading_test : indicator_widget natural_numbers config waiting ≡ loading
unfolding indicator_widget
loading_test = refl

shown_test :
    indicator_widget natural_numbers config (answered ((codes "speed", 7) ∷ []))
    ≡ shown (record {
      text = codes "N/A";
      color = codes "#94a3b8";
      size_class = "text-3xl";
      weight_class = "font-bold";
      animation_class = "indicator-warning";
      title = some (codes "Raw: 7");
    })
unfolding indicator_widget match_mapping range_match is_space trim print_nat parse_int
shown_test = refl

match_mapping-IsFirst_example :
    IsFirst natural_numbers 15 mappings (match_mapping natural_numbers (some 15) mappings)
match_mapping-IsFirst_example = match_mapping-IsFirst natural_numbers 15 mappings

abbrev stored : Stored ℕ
stored = record {
  title = none;
  title_color = none;
  show_countdown = some false;
  widget_style = none;
  accent_color = none;
  data_sources = none;
  mappings = none;
  default_text = none;
  default_color = none;
  default_animation = none;
  font_size = none;
  font_weight = none;
  others = 7;
}

abbrev events : List Event
events =
    change_sources (source ∷ [])
    ∷ pick_size (codes "xl")
    ∷ add_mapping (codes "u2")
    ∷ update_mapping 1 (text_to (codes "Off"))
    ∷ remove_mapping 0
    ∷ type_default []
    ∷ []

is_applied :
    (length (filter is_valid (run events (opened (codes "u1") stored)).data_sources) == 0) ≡ false
unfolding run opened is_valid
is_applied = refl

opened-apply_example :
    (c' : Stored ℕ) × ((apply stored (run events (opened (codes "u1") stored)) ≡ some c')
      × ((c'.others ≡ 7)
          × (opened (codes "u3") c' ≡ reopened (run events (opened (codes "u1") stored)))))
opened-apply_example =
    opened-apply (codes "u1") (codes "u3") stored events (tt, (refl, (tt, (tt, (tt, (tt, tt))))))
      is_applied
