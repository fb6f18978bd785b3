-- ===== src/Workers/Config.antt =====
-- frontend/src/components/admin/WorkerDetail.tsx: what it shows of a worker and of its running configuration.
-- How a duration of nanoseconds is printed is the parameter `format_nanoseconds`.
use industry_dashboard.Base.{
  ℕ, Bool, List, [], ◌∷◌, ◌++◌, map, take, Option, none, some, String, Codes, codes, toggle,
  includes, ◌==◌, codes_eq, ℤ, pos, if◌then◌else◌,
}
use industry_dashboard.Base.Sorting.{sort_by, IsSorted, sort_by-perm, sort_by-IsSorted}
use industry_dashboard.Settings.Decimal.{print_nat}
use industry_dashboard.Times.{seconds_since, time_ago, format_uptime}
use industry_dashboard.Workers.{or_dash}
use mathlib.Core.List.{Perm}

pub record Command : Type 0 where
  pub id : Codes
  pub command : Codes
  pub status : Codes
  pub created_at : Option ℕ

pub record AssignedMachine : Type 0 where
  pub id : Codes
  pub name : Codes
  pub status : Codes

-- the answer to `/workers/${workerId}`
pub record Worker : Type 0 where
  pub version : Option Codes
  pub os : Option Codes
  pub pid : Option ℕ
  pub started_at : Option ℕ
  pub machines : List AssignedMachine
  pub recent_commands : Option (List Command)

-- the cells of a register are texts, as they are printed
pub record Register : Type 0 where
  pub name : Codes
  pub fake : Bool
  pub kind : Codes
  pub address : Codes
  pub data_type : Codes
  pub byte_order : Codes
  pub scale : Codes

pub record Connection : Type 0 where
  pub host : Codes
  pub port : ℕ
  pub slave_id : ℕ
  pub timeout : Option ℕ

pub record Machine : Type 0 where
  pub name : Codes
  pub model : Option Codes
  pub connection : Option Connection
  pub registers : List Register

pub record Line : Type 0 where
  pub name : Codes
  pub display_order : Option ℤ
  pub machines : List Machine

-- the answer to `/workers/${workerId}/config`
pub record RunningConfig : Type 0 where
  pub poll_interval : Option ℕ
  pub site_name : Option Codes
  pub timezone : Option Codes
  pub lines : List Line

-- `machineStatusDot[m.status] ?? 'bg-slate-500'`
machine_status_dot : Codes → String
machine_status_dot s =
    if s == codes "running"
    then "bg-green-500"
    else if s == codes "error"
    then "bg-red-500"
    else "bg-slate-500"

-- `commandStatusBadge[cmd.status] ?? ...`
command_status_badge : Codes → String
command_status_badge s =
    if s == codes "completed"
    then "bg-green-500/20 text-green-500"
    else if s == codes "failed"
    then "bg-red-500/20 text-red-500"
    else if s == codes "pending"
    then "bg-yellow-500/20 text-yellow-500"
    else if s == codes "in_progress"
    then "bg-blue-500/20 text-blue-500"
    else "bg-slate-500/20 text-slate-400"

-- `commandStatusKey[cmd.status] ?? 'admin.commandPending'`
command_status_key : Codes → String
command_status_key s =
    if s == codes "completed"
    then "admin.commandCompleted"
    else if s == codes "failed"
    then "admin.commandFailed"
    else if s == codes "pending"
    then "admin.commandPending"
    else if s == codes "in_progress"
    then "admin.commandInProgress"
    else "admin.commandPending"

or_no_commands : Option (List Command) → List Command
or_no_commands none = []
or_no_commands (some cs) = cs

-- `recentCommands`
unfoldable pub recent_commands : Worker → List Command
unfolding or_no_commands
recent_commands w = take 3 (or_no_commands w.recent_commands)

uptime_text : ℕ → Option ℕ → Codes
unfolding seconds_since format_uptime
uptime_text now none = codes "—"
uptime_text now (some t) = format_uptime (seconds_since now t)

pid_text : Option ℕ → Codes
unfolding print_nat
pid_text none = codes "—"
pid_text (some n) = print_nat n

-- the grid of metadata: labels with their values
pub metadata : ℕ → Worker → List (String × Codes)
unfolding uptime_text pid_text
metadata now w =
    ("admin.versionLabel", or_dash w.version)
    ∷ ("admin.osLabel", or_dash w.os)
    ∷ ("admin.pidLabel", pid_text w.pid)
    ∷ ("admin.uptimeLabel", uptime_text now w.started_at)
    ∷ []

-- a machine of the worker: the colour of its dot, and its name
pub machine_badge : AssignedMachine → String × Codes
unfolding machine_status_dot
machine_badge m = (machine_status_dot m.status, m.name)

pub record CommandRow : Type 0 where
  pub command : Codes
  pub badge : String
  pub status : String
  pub age : Codes

age_text : ℕ → Option ℕ → Codes
unfolding seconds_since time_ago
age_text now none = codes "—"
age_text now (some t) = time_ago (seconds_since now t)

command_row : ℕ → Command → CommandRow
unfolding command_status_badge command_status_key age_text
command_row now c = record {
  command = c.command;
  badge = command_status_badge c.status;
  status = command_status_key c.status;
  age = age_text now c.created_at;
}

pub command_rows : ℕ → Worker → List CommandRow
unfolding command_row
command_rows now w = map (command_row now) (recent_commands w)

-- `a.display_order ?? 0`
pub order_of : Line → ℤ
order_of l = elim l.display_order [ none ↦ pos 0 | some z ↦ z ]

-- the lines in the order in which they are shown
unfoldable pub sorted_lines : RunningConfig → List Line
unfolding sort_by
sorted_lines c = sort_by order_of c.lines

-- The lines of the running configuration are shown by their place, smallest first, where no place counts as 0;
-- each line is shown, and no line twice.
pub sorted_lines_lem :
    (c : RunningConfig) → IsSorted order_of (sorted_lines c) × Perm (sorted_lines c) c.lines
unfolding sorted_lines
sorted_lines_lem c = (sort_by-IsSorted order_of c.lines, sort_by-perm order_of c.lines)

-- `machineKey`
machine_key : Line → Machine → Codes
machine_key l m = l.name ++ (codes "::" ++ m.name)

-- `toggleMachine`
pub toggle_machine : Codes → List Codes → List Codes
unfolding toggle
toggle_machine key expanded = toggle key expanded

-- the card of a machine; the details are shown where it is expanded
pub record MachineCard : Type 0 where
  pub key : Codes
  pub name : Codes
  pub model : Option Codes
  pub registers : List (Codes × Bool)
  pub details : Option (Option (List (String × Codes)) × List (List Codes))

-- a row of the table of registers
register_row : Register → List Codes
register_row r = r.name ∷ r.kind ∷ r.address ∷ r.data_type ∷ r.byte_order ∷ r.scale ∷ []

module _ (format_nanoseconds : Option ℕ → Codes) where
  connection_grid : Connection → List (String × Codes)
  unfolding print_nat
  connection_grid c =
      ("admin.hostAddress", c.host)
      ∷ ("admin.portLabel", print_nat c.port)
      ∷ ("admin.slaveIdLabel", print_nat c.slave_id)
      ∷ ("admin.timeout", format_nanoseconds c.timeout)
      ∷ []

  shown_connection : Option Connection → Option (List (String × Codes))
  unfolding connection_grid
  shown_connection none = none
  shown_connection (some c) = some (connection_grid c)

  machine_card : List Codes → Line → Machine → MachineCard
  unfolding machine_key shown_connection register_row
  machine_card expanded l m = record {
    key = machine_key l m;
    name = m.name;
    model = m.model;
    registers = map (λ r. (r.name, r.fake)) m.registers;
    details =
        if includes (machine_key l m) expanded
        then some (shown_connection m.connection, map register_row m.registers)
        else none;
  }

  -- the cards of the lines, with the name of the line
  pub line_cards : List Codes → RunningConfig → List (Codes × List MachineCard)
  unfolding machine_card
  line_cards expanded c =
      map (λ l. (l.name, map (machine_card expanded l) l.machines)) (sorted_lines c)

  -- the bar above the lines
  pub summary : RunningConfig → List (String × Codes)
  summary c =
      ("admin.pollInterval", format_nanoseconds c.poll_interval)
      ∷ ("admin.siteLabel", or_dash c.site_name)
      ∷ ("admin.timezone", or_dash c.timezone)
      ∷ []
