-- ===== src/Widgets/Tests.antt =====
-- Frames, a countdown and rows at concrete values.
use industry_dashboard.Base.{◌*◌, ◌≡◌, refl, true, List, [], ◌∷◌, none, some, codes, pos}
use industry_dashboard.Settings.RefreshInterval
use industry_dashboard.Settings.RefreshInterval.{mount}
use industry_dashboard.Widgets.{
  Config, gauge, framed, unknown_widget, widget_renderer, status_tiles,
}
use industry_dashboard.Widgets.Countdown.{remaining, IsRest, interval-IsRest}

abbrev plain : Config
plain = record {
  title = some [];
  title_color = none;
  show_countdown = none;
  widget_style = some (codes "accent");
  accent_color = none;
}

frame_test :
    widget_renderer (codes "gauge") plain
    ≡ framed (record {
      title = codes "Gauge";
      title_color = none;
      card_class = "rounded-lg border-l-4 bg-white p-3 shadow-sm";
      border_left_color = some (codes "#3b82f6");
      countdown = true;
      content = gauge;
    })
unfolding widget_renderer
frame_test = refl

unknown_test : widget_renderer (codes "map") plain ≡ unknown_widget (codes "map")
unfolding widget_renderer
unknown_test = refl

tiles_test :
    status_tiles (
      some (
        record { id = codes "m1"; name = codes "Press"; model = codes "P2"; status = codes "error" }
        ∷ []))
    ≡ (codes "Press", codes "error", "bg-red-100 text-red-800") ∷ []
unfolding status_tiles
tiles_test = refl

last_second_test : remaining 5000 4 ≡ 1000
unfolding remaining
last_second_test = refl

abbrev changes : List RefreshInterval.Event
changes = RefreshInterval.set (pos 10000) ∷ []

is_ten : (RefreshInterval.run changes (mount none)).interval ≡ 1000 * 10
unfolding RefreshInterval.run
is_ten = refl

interval-IsRest_example :
    IsRest 10 23 (remaining (RefreshInterval.run changes (mount none)).interval 23)
interval-IsRest_example = interval-IsRest none changes 10 23 is_ten
