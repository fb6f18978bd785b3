-- ===== src/Workers/Table.antt =====
-- frontend/src/components/admin/WorkerTable.tsx with the dialog of CommandConfirmDialog.tsx.
use industry_dashboard.Base.{
  ℕ, Bool, true, false, not, List, [], ◌∷◌, ◌++◌, map, Option, none, some, String, Codes, codes,
  ◌==◌, codes_eq, if◌then◌else◌,
}
use industry_dashboard.Times.{seconds_since, is_below, time_ago}
use industry_dashboard.Workers.{Worker, or_zero}

pub data Order : Type 0 where
  stop restart : Order

-- what is written for the order in the request
abbrev pub order_name : Order → Codes
order_name stop = codes "stop"
order_name restart = codes "restart"

pub record Dialog : Type 0 where
  pub worker_id : Codes
  pub worker_name : Codes
  pub order : Order

-- the variables of `sendCommand.mutate`
pub record Command : Type 0 where
  pub worker_id : Codes
  pub command : Codes

-- `pending` is `sendCommand.isPending`
pub record Table : Type 0 where
  pub expanded_id : Option Codes
  pub dialog : Option Dialog
  pub pending : Bool

abbrev pub initial : Table
initial = record { expanded_id = none; dialog = none; pending = false }

pub data Event : Type 0 where
  toggle : Codes → Event
  click : Worker → Order → Event
  confirm : Event
  settled : Event
  close : Event

abbrev pub is_online : Worker → Bool
is_online w = w.status == codes "online"

is_expanded : Option Codes → Codes → Bool
is_expanded none id = false
is_expanded (some e) id = e == id

-- `handleCommandClick`
abbrev pub dialog_for : Worker → Order → Dialog
dialog_for w c = record { worker_id = w.id; worker_name = w.name; order = c }

-- `handleConfirm`; its button is disabled while a command is pending
unfoldable pub handle_confirm : Option Dialog → Table → Table × Option Command
handle_confirm none t = (t, none)
handle_confirm (some d) t = if t.pending then (t, none) else (
  record t { pending = true },
  some (record { worker_id = d.worker_id; command = order_name d.order }),
)

unfoldable pub step : Event → Table → Table × Option Command
unfolding is_expanded handle_confirm
step (toggle id) t =
    (record t { expanded_id = if is_expanded t.expanded_id id then none else some id }, none)
step (click w c) t = (if is_online w then record t { dialog = some (dialog_for w c) } else t, none)
step confirm t = handle_confirm t.dialog t
step settled t = (record t { dialog = none; pending = false }, none)
step close t = (record t { dialog = none }, none)

-- the table after a run of events, and what was sent
unfoldable pub run : List Event → Table → Table × List (Option Command)
unfolding step
run [] t = (t, [])
run (e ∷ es) t = let (t', sent) = step e t in let (t'', more) = run es t' in (t'', sent ∷ more)

-- a row of the table; the age of the heartbeat is red if it is stale
pub record Row : Type 0 where
  pub key : Codes
  pub expanded : Bool
  pub name : Codes
  pub badge : String
  pub host : Codes
  pub machines : ℕ
  pub heartbeat : Codes
  pub stale : Bool
  pub disabled : Bool

-- `hbAge !== null && hbAge > 60`, with `heartbeatAge`
is_stale : ℕ → Option ℕ → Bool
unfolding seconds_since
is_stale now none = false
is_stale now (some seen) = not (is_below (seconds_since now seen) 61)

heartbeat_text : ℕ → Option ℕ → Codes
unfolding seconds_since time_ago
heartbeat_text now none = codes "—"
heartbeat_text now (some seen) = time_ago (seconds_since now seen)

unfoldable pub row : ℕ → Table → Worker → Row
unfolding is_expanded is_stale heartbeat_text
row now t w = record {
  key = w.id;
  expanded = is_expanded t.expanded_id w.id;
  name = w.name;
  badge = if is_online w then "admin.onlineStatus" else "admin.offlineStatus";
  host = w.hostname ++ (codes " / " ++ w.ip_address);
  machines = or_zero w.machine_count;
  heartbeat = heartbeat_text now w.heartbeat_at;
  stale = is_stale now w.heartbeat_at;
  disabled = not (is_online w);
}

-- the body of the table: a message, or the rows
pub data Body : Type 0 where
  message : String → Body
  rows : List Row → Body

pub body : Bool → ℕ → Table → List Worker → Body
unfolding row
body true now t ws = message "common.loading"
body false now t [] = message "admin.noWorkers"
body false now t (w ∷ ws) = rows (map (row now t) (w ∷ ws))

-- the title of `CommandConfirmDialog` and its button
pub record Prompt : Type 0 where
  pub title : String
  pub name : Codes
  pub button : String
  pub disabled : Bool

pub prompt : Bool → Dialog → Prompt
prompt loading d = elim d.order [
  | restart ↦ record {
    title = "admin.restartConfirm";
    name = d.worker_name;
    button = "admin.restartWorker";
    disabled = loading;
  }
  | stop ↦ record {
    title = "admin.stopConfirm";
    name = d.worker_name;
    button = "admin.stopWorker";
    disabled = loading;
  }
]
