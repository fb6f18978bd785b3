-- ===== src/WorkerConfig/Wizard.antt =====
-- The state and the handlers of `WorkerConfigEditPage`. `id` is `none` for a new configuration. The
-- answer of an awaited mutation is an argument; `parse_int` is `parseInt`, `none` where it is NaN.
pub mod Machines
pub mod Runs
use industry_dashboard.Base.{
  ℕ, Bool, true, false, not, ◌&&◌, ◌||◌, String, List, [], ◌∷◌, ◌++◌, map, filter, any, find?,
  length, toggle, Option, none, some, Codes, codes, is_empty, ◌==◌, nat_eq, string_eq, ℤ, pos,
  or_else, if◌then◌else◌,
}
use industry_dashboard.WorkerConfig.State.{
  SelectedMachine, StepKey, basic, machines, registers, deploy, step_eq, Status, complete, warning,
  active, pending, Machine, Config, Page, initial, Connection, Command, create_config,
  update_config, set_machines, Answer, resolved, rejected, Event, loaded, type_name, pick_site,
  type_interval, save_basic, save_machines, check, type_host, type_port, type_slave_id, expand,
  click_step, next, back,
}
use industry_dashboard.WorkerConfig.Validation.{
  is_valid_poll_interval, is_valid_host, is_valid_port, is_valid_slave_id,
}

-- `a || ''`, `a || b` on a number that may be missing, and `e.message || 'Unknown error'`
abbrev pub or_blank : Option String → String
or_blank none = ""
or_blank (some s) = s

abbrev or_no_host : Option Codes → Codes
or_no_host none = []
or_no_host (some s) = s

abbrev pub or_number : Option ℤ → ℕ → ℤ
unfolding or_else
or_number none b = pos b
or_number (some a) b = or_else a b

abbrev pub or_unknown : String → String
or_unknown m = if m == "" then "Unknown error" else m

-- the two effects on a configuration that is loaded
pub prefill : Config → Page → Page
prefill c p = record p {
  name = c.name;
  site_id = c.site_id;
  poll_interval = elim c.poll_interval [ none ↦ codes "5s" | some v ↦ v ];
  selected_machines = elim c.machines [ none ↦ p.selected_machines | some ms ↦ ms ];
}

-- `isBasicComplete`
pub is_basic_complete : Page → Bool
unfolding is_valid_poll_interval
is_basic_complete p =
    not (p.name == "") && not (p.site_id == "") && is_valid_poll_interval p.poll_interval

-- the test of `machinesWithBadConn`
pub has_bad_conn : SelectedMachine → Bool
unfolding is_valid_host is_valid_port is_valid_slave_id
has_bad_conn m =
    not (is_valid_host m.host) || not (is_valid_port m.port) || not (is_valid_slave_id m.slave_id)

-- `isMachinesComplete` and `isMachinesValid`
abbrev pub is_machines_complete : Page → Bool
is_machines_complete p = not (length p.selected_machines == 0)

pub is_machines_valid : Page → Bool
unfolding has_bad_conn
is_machines_valid p =
    is_machines_complete p && length (filter has_bad_conn p.selected_machines) == 0

-- `getStepStatus`
pub get_step_status : StepKey → Page → Status
unfolding is_basic_complete is_machines_valid
get_step_status key p = if step_eq key p.active_step then active else elim key [
  | basic ↦ if is_basic_complete p then complete else warning
  | machines ↦
      if not (is_machines_complete p)
      then pending
      else if is_machines_valid p
      then complete
      else warning
  | registers ↦ pending
  | deploy ↦ pending
]

abbrev pub is_machine_selected : String → List SelectedMachine → Bool
is_machine_selected id ms = any (λ m. m.machine_id == id) ms

-- `getMachineConn`
unfoldable get_machine_conn : String → Page → Option SelectedMachine
get_machine_conn id p = find? (λ m. m.machine_id == id) p.selected_machines

pub selection_of : Machine → String → SelectedMachine
unfolding or_number
selection_of m line_name = record {
  machine_id = m.id;
  machine_name = m.name;
  model = or_blank m.model;
  line_name = line_name;
  host = or_no_host m.host;
  port = or_number m.port 502;
  slave_id = or_number m.slave_id 1;
}

-- `toggleMachine`
pub toggle_machine : Machine → String → Page → Page
unfolding selection_of
toggle_machine m line_name p =
    if is_machine_selected m.id p.selected_machines
    then record p {
      selected_machines = filter (λ s. not (s.machine_id == m.id)) p.selected_machines;
    }
    else record p { selected_machines = p.selected_machines ++ selection_of m line_name ∷ [] }

-- `updateMachineField`
pub update_machine : String → (SelectedMachine → SelectedMachine) → Page → Page
update_machine id f p = record p {
  selected_machines = map (λ m. if m.machine_id == id then f m else m) p.selected_machines;
}

-- `handleSaveBasic`
pub handle_save_basic : Option String → Answer → Page → Page × Option Command
handle_save_basic none answer p = (
  elim answer [
    | resolved id ↦ record p { save_error = ""; save_success = false; location = some id }
    | rejected m ↦ record p { save_error = or_unknown m; save_success = false }
  ],
  some (create_config p.name p.site_id p.poll_interval),
)
handle_save_basic (some id) answer p = (
  elim answer [
    | resolved _ ↦ record p { save_error = ""; save_success = true }
    | rejected m ↦ record p { save_error = or_unknown m; save_success = false }
  ],
  some (update_config id p.name p.site_id p.poll_interval),
)

abbrev pub connection_of : SelectedMachine → Connection
connection_of m = record {
  machine_id = m.machine_id;
  host = m.host;
  port = m.port;
  slave_id = m.slave_id;
}

-- `handleSaveMachines`
pub handle_save_machines : Option String → Answer → Page → Page × Option Command
handle_save_machines none answer p = (p, none)
handle_save_machines (some id) answer p = (
  elim answer [
    | resolved _ ↦ record p { machines_save_error = ""; machines_save_success = true }
    | rejected m ↦ record p { machines_save_error = or_unknown m; machines_save_success = false }
  ],
  some (set_machines id (map connection_of p.selected_machines)),
)

module _ (parse_int : Codes → Option ℤ) where
  abbrev on_basic : Option String → Event → Page → Page × Option Command
  unfolding handle_save_basic is_basic_complete
  on_basic id (type_name v) p = (record p { name = v }, none)
  on_basic id (pick_site v) p = (record p { site_id = v }, none)
  on_basic id (type_interval v) p = (record p { poll_interval = v }, none)
  on_basic id (save_basic answer) p =
      if is_basic_complete p then handle_save_basic id answer p else (p, none)
  on_basic (some id) next p =
      (if is_basic_complete p then record p { active_step = machines } else p, none)
  on_basic id _ p = (p, none)

  abbrev on_machines : Option String → Event → Page → Page × Option Command
  unfolding toggle_machine update_machine handle_save_machines or_number
  on_machines id (check m line_name) p = (toggle_machine m line_name p, none)
  on_machines id (type_host m v) p = (update_machine m (λ s. record s { host = v }) p, none)
  on_machines id (type_port m v) p =
      (update_machine m (λ s. record s { port = or_number (parse_int v) 502 }) p, none)
  on_machines id (type_slave_id m v) p =
      (update_machine m (λ s. record s { slave_id = or_number (parse_int v) 1 }) p, none)
  on_machines id (save_machines answer) p =
      if is_machines_complete p then handle_save_machines id answer p else (p, none)
  on_machines id next p =
      (if is_machines_complete p then record p { active_step = registers } else p, none)
  on_machines id _ p = (p, none)

  abbrev on_registers : Event → Page → Page × Option Command
  unfolding toggle
  on_registers (expand m) p = (record p { expanded_machines = toggle m p.expanded_machines }, none)
  on_registers next p =
      (if is_machines_complete p then record p { active_step = deploy } else p, none)
  on_registers back p =
      (if is_machines_complete p then p else record p { active_step = machines }, none)
  on_registers _ p = (p, none)

  -- what stands on the screen at a step; of a new configuration only the first step does
  abbrev on_screen : Option String → StepKey → Event → Page → Page × Option Command
  unfolding on_basic on_machines on_registers
  on_screen id basic e p = on_basic id e p
  on_screen (some id) machines e p = on_machines (some id) e p
  on_screen (some id) registers e p = on_registers e p
  on_screen id _ e p = (p, none)

  unfoldable pub step : Option String → Event → Page → Page × Option Command
  unfolding prefill on_screen
  step id (loaded c) p = (elim id [ none ↦ p | some _ ↦ prefill c p ], none)
  step none (click_step basic) p = (record p { active_step = basic }, none)
  step none (click_step _) p = (p, none)
  step (some id) (click_step key) p = (record p { active_step = key }, none)
  step id e p = on_screen id p.active_step e p

  unfoldable pub run : Option String → List Event → Page → Page × List (Option Command)
  unfolding step
  run id [] p = (p, [])
  run id (e ∷ es) p = let (q, c) = step id e p in let (r, cs) = run id es q in (r, c ∷ cs)
