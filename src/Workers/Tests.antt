-- ===== src/Workers/Tests.antt =====
-- The table of workers and a running configuration on small inputs.
use industry_dashboard.Base.{◌≡◌, refl, true, false, List, [], ◌∷◌, All, none, some, codes, negsuc}
use industry_dashboard.Workers.{Worker}
use industry_dashboard.Workers.Table
use industry_dashboard.Workers.Table.{Event, Command, initial, row, run}
use industry_dashboard.Workers.Commands.{IsClicked, run-IsClicked}
use industry_dashboard.Workers.Config.{RunningConfig}

abbrev plc : Worker
plc = record {
  id = codes "w1";
  name = codes "plc";
  status = codes "online";
  hostname = codes "edge";
  ip_address = codes "10.0.0.2";
  machine_count = none;
  heartbeat_at = some 1000;
}

abbrev stop_it : List Event
stop_it = Table.click plc Table.stop ∷ Table.confirm ∷ Table.confirm ∷ Table.settled ∷ []

-- the second press of the button finds it disabled
once_test :
    (run stop_it initial).1
    ≡ none ∷ some (record { worker_id = codes "w1"; command = codes "stop" }) ∷ none ∷ none ∷ []
unfolding run
once_test = refl

row_test : row 62000 initial plc ≡ record {
  key = codes "w1";
  expanded = false;
  name = codes "plc";
  badge = "admin.onlineStatus";
  host = codes "edge / 10.0.0.2";
  machines = 0;
  heartbeat = codes "1m ago";
  stale = true;
  disabled = false;
}
unfolding row
row_test = refl

run-IsClicked_example : All (IsClicked stop_it) (run stop_it initial).1
run-IsClicked_example = run-IsClicked stop_it

abbrev two_lines : RunningConfig
two_lines = record {
  poll_interval = none;
  site_name = none;
  timezone = none;
  lines =
      record { name = codes "B"; display_order = none; machines = [] }
      ∷ record { name = codes "A"; display_order = some (negsuc 0); machines = [] }
      ∷ [];
}
