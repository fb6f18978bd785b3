-- ===== src/Alerts/Tests.antt =====
-- Runs of the alert pages, and the theorems at concrete rules, forms and events. Thresholds are
-- numbers here.
use industry_dashboard.Base.{
  ℕ, ◌<◌, ◌≡◌, ◌≢◌, ◌⊎◌, refl, Bool, true, false, String, List, [], ◌∷◌, All, any, includes, arith,
  Option, none, some, ==_iff, string_eq, nat_eq,
}
use industry_dashboard.Alerts.Rule.{AlertRule, render_condition, on_off}
use industry_dashboard.Alerts.Rules
use industry_dashboard.Alerts.Rules.{
  Action, disable, delete, bulk, Command, bulk_action, delete_alert, select, select_all, ask_delete,
  confirm_delete, filtered, ids, all_selected, toggle_all, toggle_select, handle_delete, run, step,
  pick_severity,
}
use industry_dashboard.Alerts.Rules.Selection.{toggle_all_twice}
use industry_dashboard.Alerts.Rules.Confirmation.{
  IsClean, is_delete, run-initial-IsClean, run-is_delete,
}
use industry_dashboard.Alerts.Dialog.{Metric, Form, update, is_coil, open_dialog, command, press}
use industry_dashboard.Alerts.Dialog.Submit.{
  stored, IsPressed, command-open_dialog, render_condition-command, press-IsPressed,
}
use industry_dashboard.Alerts.Events
use industry_dashboard.Alerts.Events.{
  desc, asc, flip, next, sort, pick_line, page_size, total_pages, offset, handle_sort, sort_icon,
  none_icon, filters,
}
use industry_dashboard.Alerts.Events.Pages
use industry_dashboard.Alerts.Events.Pages.{total_pages-cover, Reads, run-offset-lt}

abbrev rule : String → String → Bool → AlertRule ℕ
rule id severity active = record {
  id = id;
  name = "too hot";
  machine_id = "m1";
  metric_name = "temp";
  condition = ">";
  threshold = 80;
  severity = severity;
  is_active = active;
}

abbrev rules : List (AlertRule ℕ)
rules = rule "a" "info" true ∷ rule "b" "critical" false ∷ rule "c" "info" false ∷ []

abbrev start : Rules.Page ℕ
start = Rules.initial ℕ

select_test :
    (run "s" (pick_severity "info" ∷ select_all (some rules) ∷ bulk disable true ∷ []) start).1
    ≡ none ∷ none ∷ some (bulk_action "s" ("a" ∷ "c" ∷ []) disable) ∷ []
unfolding run filtered
select_test = refl

some_rules : rules ≢ []
some_rules = cc

none_selected : all_selected start rules ≡ false
unfolding all_selected
none_selected = refl

toggle_all_twice_example :
    ((j : String) → includes j (toggle_all rules start).selected_ids ≡ includes j (ids rules))
    × (all_selected (toggle_all rules start) rules ≡ true)
    × ((toggle_all rules (toggle_all rules start)).selected_ids ≡ [])
toggle_all_twice_example = toggle_all_twice rules start some_rules none_selected

run-initial-IsClean_example :
    All (IsClean "s") (run "s" (select "a" ∷ bulk delete true ∷ confirm_delete true ∷ []) start).1
run-initial-IsClean_example =
    run-initial-IsClean {N = ℕ} "s" (select "a" ∷ bulk delete true ∷ confirm_delete true ∷ [])

run-is_delete_example :
    any is_delete (run "s" (select "a" ∷ bulk delete true ∷ ask_delete "a" ∷ []) start).1 ≡ false
run-is_delete_example =
    run-is_delete "s" (select "a" ∷ bulk delete true ∷ ask_delete "a" ∷ []) start refl

abbrev asking : Rules.Page ℕ
asking = record start {
  selected_ids = "a" ∷ [];
  delete_target = some (record { ids = "a" ∷ []; bulk = false });
}

abbrev metrics : Option (List Metric)
metrics = some (
    record { name = "temp"; type = "analog"; register_type = "holding" }
    ∷ record { name = "door"; type = "coil"; register_type = "coil" }
    ∷ [])

abbrev blank : Form ℕ
blank = record {
  name = "";
  machine_id = "";
  metric_name = "";
  condition = ">";
  threshold = 0;
  severity = "warning";
  coil_value = true;
  error = "";
}

temp_coherent :
    is_coil metrics "temp" ≡ true
    → (◌≡◌ {A = String} ">" "==") × ((◌≡◌ {A = ℕ} 80 0) ⊎ (◌≡◌ {A = ℕ} 80 1))
unfolding is_coil
temp_coherent h = cc

command-open_dialog_example :
    command 0 1 "s"
      (some (rule "a" "info" true))
      metrics
      (open_dialog 0 1 (some (rule "a" "info" true)) blank)
    ≡ update (record {
      id = "a";
      site_id = "s";
      name = "too hot";
      metric_name = "temp";
      condition = ">";
      threshold = 80;
      severity = "info";
      is_active = true;
    })
command-open_dialog_example =
    command-open_dialog 0 1 "s" (rule "a" "info" true) metrics blank temp_coherent

abbrev door_form : Form ℕ
door_form = record blank {
  name = "door";
  machine_id = "m1";
  metric_name = "door";
  condition = "<";
  threshold = 7;
}

zero_one : ◌≢◌ {A = ℕ} 0 1
zero_one = omega arith

door_coil : is_coil metrics "door" ≡ true
unfolding is_coil
door_coil = refl

render_condition-command_example :
    render_condition 0 1 (stored 0 1 "r" "m" (command 0 1 "s" none metrics door_form))
    ≡ on_off "door" "ON"
render_condition-command_example =
    render_condition-command 0 1 "r" "m" "s" none metrics door_form zero_one door_coil

press-IsPressed_example :
    IsPressed 0 1 (some "") door_form (press 0 1 "s" none metrics false (some "") door_form)
press-IsPressed_example = press-IsPressed 0 1 "s" none metrics false (some "") door_form

press_test :
    (press 0 1 "s" none metrics false (some "") door_form).form.error ≡ "Failed to save alert rule"
unfolding press is_coil
press_test = refl

abbrev clicks : List Events.Event
clicks = next 45 ∷ next 45 ∷ next 45 ∷ []

clicks_test : offset (Pages.run clicks (Events.initial "")) ≡ 40
unfolding Pages.run offset Events.step
clicks_test = refl

run-offset-lt_example :
    (offset (Pages.run clicks (Events.initial "")) < 45)
    ⊎ (offset (Pages.run clicks (Events.initial "")) ≡ 0)
run-offset-lt_example = run-offset-lt 45 "" clicks (refl, (refl, (refl, tt)))

severity_ne_time : ◌≢◌ {A = String} "severity" "triggered_at"
severity_ne_time = ground (arith, ==_iff {K = String} "severity" "triggered_at")
