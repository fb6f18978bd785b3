-- ===== src/Dashboards/Tests.antt =====
-- Data sources and an editor at concrete values, and the theorems at them. A configuration is a text.
use industry_dashboard.Base.{
  ◌≡◌, refl, true, false, List, [], ◌∷◌, ◌++◌, none, some, Codes, codes, join, string_eq, codes_eq,
}
use industry_dashboard.Dashboards.DataSources.{
  DataSource, colors, new_data_source, items, step, add_item, build_legend_label,
}
use industry_dashboard.Dashboards.Editor.{
  WidgetItem, Page, WidgetType, at, infinity, initial, new_widget, add_widget, handle_config_save,
}
use industry_dashboard.Base.{All, map, Distinct, trim, is_space, pos, false}
use industry_dashboard.Dashboards.Share
use industry_dashboard.Dashboards.Share.{shown_level, loaded_map, sent_access, is_access}
use industry_dashboard.Dashboards.Share.Saved.{shown_level-saved}
use industry_dashboard.Dashboards.Listing
use industry_dashboard.Dashboards.Listing.{Dashboard, card}
use industry_dashboard.Dashboards.Listing.Asked.{IsAsked, IsShared, run-IsAsked}

abbrev sources : List DataSource
unfolding step items new_data_source
sources = step "a" (add_item "b") []

colors_test : colors sources ≡ "#3b82f6" ∷ "#22c55e" ∷ []
unfolding sources
colors_test = refl

legend_test :
    build_legend_label
      (record (new_data_source "a" []) { metric = codes "temp"; line_name = some (codes "Line 1") })
      (some (record { show_site = true; show_line = true; show_machine = false }))
    ≡ codes "Line 1 : temp"
unfolding build_legend_label new_data_source join
legend_test = refl

abbrev gauge : WidgetItem Codes
gauge = record {
  id = codes "w1";
  widget_type = "gauge";
  position_x = 2;
  position_y = at 1;
  width = 4;
  height = 3;
  config = [];
}

abbrev page : Page Codes
page = record (initial Codes) {
  widgets = gauge ∷ record gauge { id = codes "w2"; position_y = infinity } ∷ [];
}

abbrev types : List WidgetType
types = record { name = "text"; width = some 6; height = none } ∷ []

add_test :
    (handle_config_save (codes "hello") (add_widget [] (codes "17") types "text" page)).widgets
    ≡ page.widgets
      ++ record (new_widget [] (codes "17") types "text") { config = codes "hello" } ∷ []
unfolding handle_config_save add_widget new_widget
add_test = refl

abbrev shared : List Share.Event
shared =
    Share.load (record { role_id = codes "r1"; access_level = Share.view } ∷ [])
    ∷ Share.pick (codes "r2") (some Share.edit)
    ∷ Share.pick (codes "r1") none
    ∷ []

shared_test :
    sent_access (Share.run shared Share.initial).access_map
    ≡ record { role_id = codes "r2"; access_level = Share.edit } ∷ []
unfolding sent_access Share.run Share.step loaded_map
shared_test = refl

shown_level-saved_example :
    let m = (Share.run shared Share.initial).access_map in
    Distinct (map (λ a. a.role_id) (sent_access m))
    × All (λ a. is_access a.access_level ≡ true) (sent_access m)
    × ((r : Codes) → shown_level r (loaded_map (sent_access m)) ≡ shown_level r m)
shown_level-saved_example = shown_level-saved shared

abbrev press : Dashboard
press = record {
  id = codes "d1";
  title = codes "Press";
  owner_id = codes "u1";
  is_shared = false;
  access_level = codes "edit";
  age = pos 7300;
}

abbrev renamed : List Listing.Event
renamed =
    Listing.click_rename press
    ∷ Listing.type_rename (codes " Press 2 ")
    ∷ Listing.submit_rename
    ∷ Listing.click_share press
    ∷ []

renamed_test :
    (Listing.run (some (codes "u1")) none renamed Listing.initial).1
    ≡ none ∷ none ∷ some (Listing.rename (codes "d1") (codes "Press 2")) ∷ none ∷ []
unfolding Listing.run trim is_space
renamed_test = refl

-- Enter does not wait for the answer to the first creation.
abbrev twice : List Listing.Event
twice = Listing.type_title (codes "A") ∷ Listing.press_create ∷ Listing.press_create ∷ []

twice_test :
    (Listing.run none (some (codes "s1")) twice Listing.initial).1
    ≡ none
      ∷ some (Listing.create (codes "A") (codes "s1"))
      ∷ some (Listing.create (codes "A") (codes "s1"))
      ∷ []
unfolding Listing.run
twice_test = refl

card_test : card none press ≡ record {
  title = codes "Press";
  owner_badge = "dashboardList.shared";
  shared_badge = "dashboardList.private";
  updated = codes "2 hr ago";
  actions =
      "dashboardList.view" ∷ "dashboardList.edit" ∷ "dashboardList.rename" ∷ "dashboardList.delete"
      ∷ [];
}
unfolding card
card_test = refl

run-IsAsked_example :
    All (IsAsked none renamed) (Listing.run (some (codes "u1")) none renamed Listing.initial).1
    × IsShared
        (some (codes "u1"))
        renamed
        (Listing.run (some (codes "u1")) none renamed Listing.initial).0.share_target_id
run-IsAsked_example = run-IsAsked (some (codes "u1")) none renamed
