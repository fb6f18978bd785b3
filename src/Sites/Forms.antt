-- ===== src/Sites/Forms.antt =====
-- The forms of frontend/src/components/admin: SiteDialog.tsx, LineDialog.tsx and MachineDialog.tsx.
-- `toUpperCase` is the parameter `upper`. A form sends the mutation of its hook.
pub mod Sent
use industry_dashboard.Base.{
  ℕ, Bool, true, false, not, ◌||◌, String, [], ◌∷◌, Option, none, some, Codes, codes, is_empty, ℤ,
  pos, if◌then◌else◌,
}
use industry_dashboard.Settings.Decimal.{parse_int, print_int}
use industry_dashboard.Hooks.{shown}
use industry_dashboard.Hooks.Json
use industry_dashboard.Hooks.Json.{Json, Fields, number, no_fields, field}
use industry_dashboard.Hooks.Mutations.{
  Action, create_site, update_site, create_line, update_line, create_machine, update_machine,
}
use industry_dashboard.Sites.{Answer, done, refused, Machine, Line, Detail}

-- `x ?? ''`
abbrev pub or_empty : Option Codes → Codes
or_empty none = []
or_empty (some s) = s

-- `s || undefined` as the last field of an object; a field that is `undefined` is not printed
abbrev last_field : String → Codes → Fields ℤ
last_field k s = if is_empty s then no_fields else field k (Json.text s) no_fields

-- `e.message || 'Unknown error'`
abbrev message_of : Codes → Codes
message_of m = if is_empty m then codes "Unknown error" else m

pub record SiteForm : Type 0 where
  pub name : Codes
  pub code : Codes
  pub timezone : Codes
  pub address : Codes
  pub error : Codes

abbrev pub new_site_form : SiteForm
new_site_form = record { name = []; code = []; timezone = codes "UTC"; address = []; error = [] }

-- `site?.timezone ?? 'UTC'`
abbrev or_utc : Option Codes → Codes
or_utc none = codes "UTC"
or_utc (some s) = s

-- what a submit does: the mutation that it sends, the form after its answer, and whether `onClose` is called
pub record Submitted (F : Type 0) : Type 0 where
  pub sent : Option (Action ℤ)
  pub form : F
  pub closed : Bool

abbrev pub nothing : {F : Type 0} → F → Submitted F
nothing f = record { sent = none; form = f; closed = false }

-- the effect of `SiteDialog`, which runs when `open` or the site changes
abbrev pub fill_site : Bool → Option Detail → SiteForm → SiteForm
fill_site false site f = f
fill_site true none f = record new_site_form { error = f.error }
fill_site true (some d) f = record {
  name = or_empty d.name;
  code = or_empty d.code;
  timezone = or_utc d.timezone;
  address = or_empty d.address;
  error = f.error;
}

-- what is sent for the site that is edited, or for a new one
site_action : Option Detail → SiteForm → Action ℤ
site_action (some d) f = update_site (shown d.id) (
    field "name" (Json.text f.name)
      (field "timezone" (Json.text f.timezone) (last_field "address" f.address)))
site_action none f = create_site (
    field "name" (Json.text f.name) (
      field "code" (Json.text f.code)
        (field "timezone" (Json.text f.timezone) (last_field "address" f.address))))

settle_site : Answer → SiteForm → Submitted SiteForm → Submitted SiteForm
settle_site done f r = record r { form = record f { error = [] }; closed = true }
settle_site (refused m) f r = record r { form = record f { error = message_of m } }

-- `handleSubmit` of `SiteDialog`
unfoldable pub submit_site : Option Detail → Answer → SiteForm → Submitted SiteForm
unfolding site_action settle_site
submit_site site answer f =
    if is_empty f.name || is_empty f.code || is_empty f.timezone
    then nothing f
    else settle_site answer f (record (nothing f) { sent = some (site_action site f) })

-- what is typed into the form; the field of the code is disabled while a site is edited
pub data SiteInput : Type 0 where
  type_name type_code type_address : Codes → SiteInput
  pick_timezone : Option Codes → SiteInput

unfoldable pub type_site : (Codes → Codes) → Option Detail → SiteInput → SiteForm → SiteForm
type_site upper site (type_name v) f = record f { name = v }
type_site upper none (type_code v) f = record f { code = upper v }
type_site upper (some d) (type_code v) f = f
type_site upper site (type_address v) f = record f { address = v }
type_site upper site (pick_timezone v) f = record f { timezone = or_utc v }

pub record EditLine : Type 0 where
  pub id : Codes
  pub name : Codes
  pub display_order : ℤ

pub record LineForm : Type 0 where
  pub name : Codes
  pub display_order : Codes

-- the effect of `LineDialog`
pub fill_line : Bool → Option EditLine → LineForm → LineForm
fill_line false line f = f
fill_line true none f = record { name = []; display_order = print_int (pos 1) }
fill_line true (some l) f = record { name = l.name; display_order = print_int l.display_order }

pub line_fields : Codes → ℤ → Fields ℤ
line_fields name order =
    field "name" (Json.text name) (field "display_order" (number order) no_fields)

pub line_action : Codes → Option EditLine → Codes → ℤ → Action ℤ
unfolding line_fields
line_action site_id (some l) name order = update_line l.id (line_fields name order)
line_action site_id none name order = create_line site_id (line_fields name order)

abbrev pub is_done : Answer → Bool
is_done done = true
is_done (refused m) = false

pub send_line : Codes → Option EditLine → Answer → LineForm → Option ℤ → Submitted LineForm
unfolding line_action
send_line site_id line answer f none = nothing f
send_line site_id line answer f (some order) = record {
  sent = some (line_action site_id line f.name order);
  form = f;
  closed = is_done answer;
}

-- `handleSubmit` of `LineDialog`; an error is not caught, and the dialog stays open
pub submit_line : Codes → Option EditLine → Answer → LineForm → Submitted LineForm
unfolding send_line
submit_line site_id line answer f =
    if is_empty f.name
    then nothing f
    else send_line site_id line answer f (parse_int f.display_order)

pub record EditMachine : Type 0 where
  pub id : Codes
  pub name : Codes
  pub model : Option Codes

pub record MachineForm : Type 0 where
  pub name : Codes
  pub model : Codes
  pub error : Codes

-- the effect of `MachineDialog`
pub fill_machine : Bool → Option EditMachine → MachineForm → MachineForm
fill_machine false machine f = f
fill_machine true none f = record { name = []; model = []; error = [] }
fill_machine true (some m) f = record { name = m.name; model = or_empty m.model; error = [] }

pub machine_action : Codes → Option EditMachine → MachineForm → Action ℤ
machine_action line_id (some m) f =
    update_machine m.id (field "name" (Json.text f.name) (last_field "model" f.model))
machine_action line_id none f =
    create_machine line_id (field "name" (Json.text f.name) (last_field "model" f.model))

pub settle_machine : Answer → MachineForm → Submitted MachineForm → Submitted MachineForm
settle_machine done f r = record r { form = record f { error = [] }; closed = true }
settle_machine (refused m) f r = record r { form = record f { error = message_of m } }

-- `handleSubmit` of `MachineDialog`
pub submit_machine : Codes → Option EditMachine → Answer → MachineForm → Submitted MachineForm
unfolding machine_action settle_machine
submit_machine line_id machine answer f =
    if is_empty f.name
    then nothing f
    else settle_machine answer f
        (record (nothing f) { sent = some (machine_action line_id machine f) })
