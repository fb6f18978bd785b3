-- ===== src/Sites/Panel.antt =====
-- The state of frontend/src/components/admin/SiteDetail.tsx, with the forms of its dialogs. The detail is
-- the answer that the component renders; the effect of a dialog runs within the step that opens it.
pub mod Sent
use industry_dashboard.Base.{Bool, true, false, List, [], ◌∷◌, Option, none, some, Codes, codes, ℤ}
use industry_dashboard.Hooks.{shown}
use industry_dashboard.Hooks.Mutations.{Action, delete_site, delete_line, delete_machine}
use industry_dashboard.Sites.{Answer, done, refused, Machine, Line, Detail}
use industry_dashboard.Sites.Forms.{
  SiteForm, SiteInput, EditLine, LineForm, EditMachine, MachineForm, Submitted, new_site_form,
  fill_site, type_site, submit_site, fill_line, submit_line, fill_machine, submit_machine,
}

pub data Kind : Type 0 where
  site line machine : Kind

pub record DeleteTarget : Type 0 where
  pub kind : Kind
  pub id : Option Codes
  pub name : Option Codes

pub record State : Type 0 where
  pub site_dialog_open : Bool
  pub line_dialog_open : Bool
  pub machine_dialog_open : Bool
  pub delete_target : Option DeleteTarget
  pub edit_line : Option EditLine
  pub edit_machine : Option EditMachine
  pub active_line : Codes
  pub site_form : SiteForm
  pub line_form : LineForm
  pub machine_form : MachineForm

abbrev pub initial : State
initial = record {
  site_dialog_open = false;
  line_dialog_open = false;
  machine_dialog_open = false;
  delete_target = none;
  edit_line = none;
  edit_machine = none;
  active_line = [];
  site_form = new_site_form;
  line_form = record { name = []; display_order = codes "1" };
  machine_form = record { name = []; model = []; error = [] };
}

pub data Event : Type 0 where
  -- the buttons of the page
  press_edit_site press_delete_site press_add_line : Event
  press_edit_line press_delete_line press_add_machine : Line → Event
  press_edit_machine : Line → Machine → Event
  press_delete_machine : Machine → Event
  -- the dialogs
  close_site close_line close_machine cancel_delete : Event
  confirm_delete : Answer → Event
  type_in_site : SiteInput → Event
  type_line_name type_line_order type_machine_name type_machine_model : Codes → Event
  save_site save_line save_machine : Answer → Event
  -- the detail is another object than before
  detail_changed : Event

-- what a step does: the state, the mutation that it sends, and whether `onSiteDeleted` is called
pub record Step : Type 0 where
  pub state : State
  pub sent : Option (Action ℤ)
  pub site_deleted : Bool

abbrev quiet : State → Step
quiet s = record { state = s; sent = none; site_deleted = false }

-- the mutation of `handleConfirmDelete`
pub delete_action : DeleteTarget → Action ℤ
delete_action t = elim t.kind [
  | site ↦ delete_site (shown t.id)
  | line ↦ delete_line (shown t.id)
  | machine ↦ delete_machine (shown t.id)
]

abbrev is_site : Kind → Bool
is_site site = true
is_site line = false
is_site machine = false

pub settle_delete : DeleteTarget → Answer → State → Step
unfolding delete_action
settle_delete t done s = record {
  state = record s { delete_target = none };
  sent = some (delete_action t);
  site_deleted = is_site t.kind;
}
settle_delete t (refused m) s = record (quiet s) { sent = some (delete_action t) }

-- `handleConfirmDelete`
pub confirm : Answer → Option DeleteTarget → State → Step
unfolding settle_delete
confirm answer none s = quiet s
confirm answer (some t) s = settle_delete t answer s

-- `onClose` of the three forms
abbrev pub shut_site : Bool → State → State
shut_site false s = s
shut_site true s = record s { site_dialog_open = false }

abbrev pub shut_line : Bool → State → State
shut_line false s = s
shut_line true s = record s { line_dialog_open = false; edit_line = none }

abbrev pub shut_machine : Bool → State → State
shut_machine false s = s
shut_machine true s = record s { machine_dialog_open = false; edit_machine = none }

pub after_site : Submitted SiteForm → State → Step
after_site r s = record (quiet (shut_site r.closed (record s { site_form = r.form }))) {
  sent = r.sent;
}

pub after_line : Submitted LineForm → State → Step
after_line r s = record (quiet (shut_line r.closed (record s { line_form = r.form }))) {
  sent = r.sent;
}

pub after_machine : Submitted MachineForm → State → Step
after_machine r s = record (quiet (shut_machine r.closed (record s { machine_form = r.form }))) {
  sent = r.sent;
}

abbrev target : Kind → Option Codes → Option Codes → Option DeleteTarget
target kind id name = some (record { kind = kind; id = id; name = name })

abbrev open_line : Option EditLine → State → State
open_line l s = record s {
  edit_line = l;
  line_dialog_open = true;
  line_form = fill_line true l s.line_form;
}

abbrev open_machine : Codes → Option EditMachine → State → State
open_machine line_id m s = record s {
  active_line = line_id;
  edit_machine = m;
  machine_dialog_open = true;
  machine_form = fill_machine true m s.machine_form;
}

abbrev edited_line : Line → EditLine
edited_line l = record { id = l.id; name = l.name; display_order = l.display_order }

abbrev edited_machine : Machine → EditMachine
edited_machine m = record { id = m.id; name = m.name; model = m.model }

module _ (upper : Codes → Codes) (site_id : Codes) (detail : Detail) where
  unfoldable pub step : Event → State → Step
  unfolding after_site after_line after_machine confirm
  step press_edit_site s =
      quiet
        (record s { site_dialog_open = true; site_form = fill_site true (some detail) s.site_form })
  step press_delete_site s = quiet (record s { delete_target = target site detail.id detail.name })
  step press_add_line s = quiet (open_line none s)
  step (press_edit_line l) s = quiet (open_line (some (edited_line l)) s)
  step (press_delete_line l) s =
      quiet (record s { delete_target = target line (some l.id) (some l.name) })
  step (press_add_machine l) s = quiet (open_machine l.id none s)
  step (press_edit_machine l m) s = quiet (open_machine l.id (some (edited_machine m)) s)
  step (press_delete_machine m) s =
      quiet (record s { delete_target = target machine (some m.id) (some m.name) })
  step close_site s = quiet (shut_site true s)
  step close_line s = quiet (shut_line true s)
  step close_machine s = quiet (shut_machine true s)
  step cancel_delete s = quiet (record s { delete_target = none })
  step (confirm_delete answer) s = confirm answer s.delete_target s
  step (type_in_site v) s =
      quiet (record s { site_form = type_site upper (some detail) v s.site_form })
  step (type_line_name v) s = quiet (record s { line_form = record s.line_form { name = v } })
  step (type_line_order v) s =
      quiet (record s { line_form = record s.line_form { display_order = v } })
  step (type_machine_name v) s =
      quiet (record s { machine_form = record s.machine_form { name = v } })
  step (type_machine_model v) s =
      quiet (record s { machine_form = record s.machine_form { model = v } })
  step (save_site answer) s = after_site (submit_site (some detail) answer s.site_form) s
  step (save_line answer) s = after_line (submit_line site_id s.edit_line answer s.line_form) s
  step (save_machine answer) s =
      after_machine (submit_machine s.active_line s.edit_machine answer s.machine_form) s
  step detail_changed s =
      quiet (record s { site_form = fill_site s.site_dialog_open (some detail) s.site_form })

  -- the state after a run of events, and what was sent, in order
  unfoldable pub run : List Event → State → State × List (Option (Action ℤ))
  unfolding step
  run [] s = (s, [])
  run (e ∷ es) s = let r = step e s in let (s', sent) = run es r.state in (s', r.sent ∷ sent)
