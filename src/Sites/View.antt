-- ===== src/Sites/View.antt =====
-- What frontend/src/components/admin shows of the sites: SiteDetail.tsx and its dialog for deletions,
-- DeleteDialog.tsx, and SiteList.tsx. A message is its key; `undefined` in the markup shows nothing.
use industry_dashboard.Base.{
  ℕ, Bool, true, false, List, [], ◌∷◌, ◌++◌, map, Option, none, some, String, Codes, codes,
  is_empty, ◌==◌, codes_eq, ℤ, if◌then◌else◌,
}
use industry_dashboard.Sites.{Machine, Line, Detail}
use industry_dashboard.Sites.Forms.{or_empty}
use industry_dashboard.Sites.Panel.{Kind, DeleteTarget}
use industry_dashboard.Sites.Panel

-- `statusDotClass`; a status that is missing is no case of the switch
status_dot_class : Option Codes → String
status_dot_class none = "bg-slate-400"
status_dot_class (some s) =
    if s == codes "running"
    then "bg-green-500"
    else if s == codes "error"
    then "bg-red-500"
    else "bg-slate-400"

-- `x ?? '—'`
or_dash : Option Codes → Codes
or_dash none = codes "—"
or_dash (some s) = s

-- `x ?? t(key)`
or_message : String → Option Codes → Codes
or_message key none = codes key
or_message key (some s) = s

-- a row of the table of machines
pub record MachineRow : Type 0 where
  pub key : Codes
  pub dot : String
  pub name : Codes
  pub model : Codes
  pub status : Codes
  pub worker : Codes

machine_row : Machine → MachineRow
unfolding status_dot_class or_dash or_message
machine_row m = record {
  key = m.id;
  dot = status_dot_class m.status;
  name = m.name;
  model = or_dash m.model;
  status = or_dash m.status;
  worker = or_message "admin.noWorkerAssigned" m.worker_name;
}

-- the card of a line; no rows stand for the message that there are no machines
pub record LineCard : Type 0 where
  pub key : Codes
  pub name : Codes
  pub display_order : ℤ
  pub rows : List MachineRow

or_nothing {ℓ} : {A : Type ℓ} → Option (List A) → List A
or_nothing none = []
or_nothing (some xs) = xs

line_card : Line → LineCard
unfolding machine_row or_nothing
line_card l = record {
  key = l.id;
  name = l.name;
  display_order = l.display_order;
  rows = map machine_row (or_nothing l.machines);
}

-- `{detail.address && ...}`
address_part : Option Codes → Codes
address_part none = []
address_part (some a) = if is_empty a then [] else codes " · " ++ a

subtitle : Detail → Codes
unfolding address_part
subtitle d = or_empty d.code ++ (codes " · " ++ (or_empty d.timezone ++ address_part d.address))

-- What `SiteDetail` returns: the message of a load, nothing, or the panel; no cards stand for the message
-- that there are no lines.
pub data Shown : Type 0 where
  loading nothing : Shown
  panel : (title subtitle : Codes) → List LineCard → Shown

unfoldable pub render : Bool → Option Detail → Shown
unfolding subtitle line_card or_nothing
render true detail = loading
render false none = nothing
render false (some d) = panel (or_empty d.name) (subtitle d) (map line_card (or_nothing d.lines))

-- `deleteConfirmLabel`
delete_confirm_label : Option DeleteTarget → String
delete_confirm_label none = "admin.deleteMachine"
delete_confirm_label (some t) = elim t.kind [
  | Panel.site ↦ "admin.deleteSite"
  | Panel.line ↦ "admin.deleteLine"
  | Panel.machine ↦ "admin.deleteMachine"
]

-- `deleteWarning`
delete_warning : Option DeleteTarget → Option String
delete_warning none = none
delete_warning (some t) = elim t.kind [
  | Panel.site ↦ some "admin.deleteSiteWarning"
  | Panel.line ↦ some "admin.deleteLineWarning"
  | Panel.machine ↦ none
]

-- `DeleteDialog`, as `SiteDetail` opens it
pub record DeleteDialog : Type 0 where
  pub opened : Bool
  pub name : Codes
  pub warnings : List String
  pub confirm_label : String
  pub disabled : Bool

warnings_of : Option String → List String
warnings_of none = "admin.deleteWarning" ∷ []
warnings_of (some w) = w ∷ "admin.deleteWarning" ∷ []

name_of : Option DeleteTarget → Codes
name_of none = []
name_of (some t) = or_empty t.name

is_open : Option DeleteTarget → Bool
is_open none = false
is_open (some t) = true

pub delete_dialog : Option DeleteTarget → (is_deleting : Bool) → DeleteDialog
unfolding warnings_of name_of is_open delete_warning delete_confirm_label
delete_dialog t is_deleting = record {
  opened = is_open t;
  name = name_of t;
  warnings = warnings_of (delete_warning t);
  confirm_label = delete_confirm_label t;
  disabled = is_deleting;
}

-- a site in the list of sites, with its counts
pub record ListedSite : Type 0 where
  pub id : Codes
  pub name : Codes
  pub code : Codes
  pub timezone : Codes
  pub line_count : Option ℕ
  pub machine_count : Option ℕ

pub record SiteButton : Type 0 where
  pub key : Codes
  pub is_selected : Bool
  pub title : Codes
  pub location : Codes
  pub lines : ℕ
  pub machines : ℕ

or_zero : Option ℕ → ℕ
or_zero none = 0
or_zero (some n) = n

is_chosen : Codes → Option Codes → Bool
is_chosen id none = false
is_chosen id (some s) = id == s

site_button : Option Codes → ListedSite → SiteButton
unfolding or_zero is_chosen
site_button selected s = record {
  key = s.id;
  is_selected = is_chosen s.id selected;
  title = s.name;
  location = s.code ++ (codes " · " ++ s.timezone);
  lines = or_zero s.line_count;
  machines = or_zero s.machine_count;
}

-- `SiteList`; no buttons stand for the message that there are no sites
pub site_list : Option Codes → List ListedSite → List SiteButton
unfolding site_button
site_list selected sites = map (site_button selected) sites

-- `useEffect` of `SitesPage`: the first site is selected where none is
pub select_first : Option (List ListedSite) → Option Codes → Option Codes
select_first none selected = selected
select_first (some []) selected = selected
select_first (some (s ∷ ss)) none = some s.id
select_first (some (s ∷ ss)) (some id) = if is_empty id then some s.id else some id
