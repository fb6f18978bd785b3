-- ===== src/WorkerConfig/Tests.antt =====
-- The validation at some texts, a run of the wizard, and the theorems at them.
use industry_dashboard.Base.{
  ◌≡◌, ◌≢◌, ◌↔◌, refl, true, false, List, [], ◌∷◌, All, Option, none, some, Codes, codes, trim, ℤ,
  pos, string_eq,
}
use industry_dashboard.WorkerConfig.Validation.{is_valid_poll_interval, is_valid_host}
use industry_dashboard.WorkerConfig.Validation.Accepted.{
  IsInterval, IsHostName, is_valid_poll_interval_iff, is_valid_host_iff,
}
use industry_dashboard.WorkerConfig.State.{
  Machine, Page, machines, complete, step_eq, Event, set_machines, resolved, save_machines, check,
  type_port, click_step, next, initial,
}
use industry_dashboard.WorkerConfig.Wizard.{get_step_status, run}
use industry_dashboard.WorkerConfig.Wizard.Machines.{IsConnection, get_step_status-machines_iff}
use industry_dashboard.WorkerConfig.Wizard.Runs.{IsPage, IsSent, run-IsSent}

intervals_test :
    (is_valid_poll_interval (codes " 15m\n") ≡ true)
    × (is_valid_poll_interval (codes "5") ≡ false)
    × (is_valid_poll_interval (codes "5sm") ≡ false)
    × (is_valid_poll_interval (codes "h") ≡ false)
unfolding is_valid_poll_interval
intervals_test = (refl, refl, refl, refl)

hosts_test :
    (is_valid_host (codes "192.168.1.1") ≡ true)
    × (is_valid_host (codes "999.999.999.999") ≡ true)
    × (is_valid_host (codes "plc-3.local") ≡ true)
    × (is_valid_host (codes "-a") ≡ false)
    × (is_valid_host (codes "a b") ≡ false)
    × (is_valid_host (codes "") ≡ false)
unfolding is_valid_host
hosts_test = (refl, refl, refl, refl, refl, refl)

is_valid_poll_interval_iff_example :
    (is_valid_poll_interval (codes " 15m") ≡ true) ↔ IsInterval (trim (codes " 15m"))
is_valid_poll_interval_iff_example = is_valid_poll_interval_iff (codes " 15m")

is_valid_host_iff_example :
    (is_valid_host (codes "plc-3.local") ≡ true) ↔ IsHostName (codes "plc-3.local")
is_valid_host_iff_example = is_valid_host_iff (codes "plc-3.local")

abbrev drill : Machine
drill = record {
  id = "m1";
  name = "Press";
  model = none;
  host = some (codes "10.0.0.7");
  port = none;
  slave_id = some (pos 3);
}

abbrev at_machines : Page
at_machines = record initial { active_step = machines; name = "Line A"; site_id = "s1" }

get_step_status-machines_iff_example : (get_step_status machines initial ≡ complete) ↔ (
    (step_eq machines initial.active_step ≡ false)
    × (initial.selected_machines ≢ [])
    × All IsConnection initial.selected_machines)
get_step_status-machines_iff_example = get_step_status-machines_iff initial

abbrev no_number : Codes → Option ℤ
no_number s = none

abbrev events : List Event
events =
    click_step machines
    ∷ check drill "Line 1"
    ∷ type_port "m1" (codes "x")
    ∷ save_machines (resolved "w1")
    ∷ next
    ∷ []

events_test :
    (run no_number (some "w1") events at_machines).1
    ≡ none
      ∷ none
      ∷ none
      ∷ some (
          set_machines "w1" (
            record { machine_id = "m1"; host = codes "10.0.0.7"; port = pos 502; slave_id = pos 3 }
            ∷ []))
      ∷ none
      ∷ []
unfolding run
events_test = refl

run-IsSent_example :
    IsPage (some "w1") (run no_number (some "w1") events at_machines).0
    × All (IsSent (some "w1")) (run no_number (some "w1") events at_machines).1
run-IsSent_example =
    run-IsSent no_number (some "w1") events at_machines (tt, (tt, (tt, (tt, (tt, tt)))))
      (tt, λ e. absurd cc)
