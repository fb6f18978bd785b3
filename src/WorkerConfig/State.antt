-- ===== src/WorkerConfig/State.antt =====
-- The state of `WorkerConfigEditPage`, and what happens to it. `id` is `none` for a new configuration;
-- the answer of an awaited mutation is part of the event.
use industry_dashboard.Base.{Bool, true, false, String, List, [], Option, none, Codes, codes, ℤ}

pub record SelectedMachine : Type 0 where
  pub machine_id : String
  pub machine_name : String
  pub model : String
  pub line_name : String
  pub host : Codes
  pub port : ℤ
  pub slave_id : ℤ

pub data StepKey : Type 0 where
  basic machines registers deploy : StepKey

abbrev pub step_eq : StepKey → StepKey → Bool
step_eq basic basic = true
step_eq machines machines = true
step_eq registers registers = true
step_eq deploy deploy = true
step_eq _ _ = false

pub data Status : Type 0 where
  complete warning active pending : Status

-- a machine of `siteDetail`; `none` is a field that is missing or `null`
pub record Machine : Type 0 where
  pub id : String
  pub name : String
  pub model : Option String
  pub host : Option Codes
  pub port : Option ℤ
  pub slave_id : Option ℤ

pub record Config : Type 0 where
  pub name : String
  pub site_id : String
  pub poll_interval : Option Codes
  pub machines : Option (List SelectedMachine)

pub record Page : Type 0 where
  pub active_step : StepKey
  pub name : String
  pub site_id : String
  pub poll_interval : Codes
  pub save_error : String
  pub save_success : Bool
  pub selected_machines : List SelectedMachine
  pub expanded_machines : List String
  pub machines_save_error : String
  pub machines_save_success : Bool
  -- where `navigate` went
  pub location : Option String

abbrev pub initial : Page
initial = record {
  active_step = basic;
  name = "";
  site_id = "";
  poll_interval = codes "5s";
  save_error = "";
  save_success = false;
  selected_machines = [];
  expanded_machines = [];
  machines_save_error = "";
  machines_save_success = false;
  location = none;
}

-- the mutations, with what they send of a machine
pub record Connection : Type 0 where
  pub machine_id : String
  pub host : Codes
  pub port : ℤ
  pub slave_id : ℤ

pub data Command : Type 0 where
  create_config : (name site_id : String) (poll_interval : Codes) → Command
  update_config : (id name site_id : String) (poll_interval : Codes) → Command
  set_machines : (config_id : String) → List Connection → Command

-- a resolved mutation has the id of the configuration, a rejected one a message
pub data Answer : Type 0 where
  resolved rejected : String → Answer

pub data Event : Type 0 where
  loaded : Config → Event
  type_name pick_site : String → Event
  type_interval : Codes → Event
  save_basic save_machines : Answer → Event
  check : Machine → (line_name : String) → Event
  type_host type_port type_slave_id : (machine_id : String) → Codes → Event
  expand : (machine_id : String) → Event
  -- a step of the stepper, and the buttons that lead from one step to another
  click_step : StepKey → Event
  next back : Event
