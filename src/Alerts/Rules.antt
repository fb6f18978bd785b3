-- ===== src/Alerts/Rules.antt =====
-- The state and the handlers of frontend/src/pages/AlertRulesPage.tsx. A `Set` of ids is the list of
-- its members in the order of insertion. A handler returns the state and the mutation it sends; the
-- answer of an awaited mutation, `true` if it is resolved, is an argument.
pub mod Selection
pub mod Confirmation
use industry_dashboard.Base.{
  Bool, true, false, not, ◌&&◌, ◌||◌, ◌≡◌, String, List, [], ◌∷◌, ◌++◌, map, filter, all, length,
  includes, toggle, Option, none, some, ◌==◌, string_eq, if◌then◌else◌,
}
use industry_dashboard.Alerts.Rule.{AlertRule}

pub data Action : Type 0 where
  enable disable delete : Action

pub record DeleteTarget : Type 0 where
  pub ids : List String
  pub bulk : Bool

-- the mutations of `useBulkAlertAction` and `useDeleteAlert`
pub data Command : Type 0 where
  bulk_action : (site_id : String) → List String → Action → Command
  delete_alert : (site_id : String) → Option String → Command

module _ (N : Type 0) where
  pub record Page : Type 0 where
    pub selected_ids : List String
    pub filter_machine : String
    pub filter_severity : String
    pub filter_active : String
    pub dialog_open : Bool
    pub edit_rule : Option (AlertRule N)
    pub delete_target : Option DeleteTarget

  abbrev pub initial : Page
  initial = record {
    selected_ids = [];
    filter_machine = "";
    filter_severity = "";
    filter_active = "";
    dialog_open = false;
    edit_rule = none;
    delete_target = none;
  }

  -- what the user does on the page
  pub data Event : Type 0 where
    pick_machine pick_severity pick_active : String → Event
    select : String → Event
    select_all : Option (List (AlertRule N)) → Event
    clear_selection : Event
    bulk : Action → (answer : Bool) → Event
    ask_delete : String → Event
    cancel_delete : Event
    confirm_delete : (answer : Bool) → Event
    edit : AlertRule N → Event
    create : Event
    close_dialog : Event

abbrev pub first : List String → Option String
first [] = none
first (i ∷ is) = some i

delete_of : String → DeleteTarget → Command
delete_of site_id t =
    if t.bulk then bulk_action site_id t.ids delete else delete_alert site_id (first t.ids)

-- `new Set(ids)`
pub to_set : List String → List String → List String
to_set seen [] = seen
to_set seen (i ∷ is) = to_set (if includes i seen then seen else seen ++ i ∷ []) is

module _ {N : Type 0} where
  -- the callback of `filtered`
  is_shown : Page N → AlertRule N → Bool
  is_shown p r =
      if not (p.filter_machine == "") && not (r.machine_id == p.filter_machine)
      then false
      else if not (p.filter_severity == "") && not (r.severity == p.filter_severity)
      then false
      else if p.filter_active == "active" && not r.is_active
      then false
      else if p.filter_active == "inactive" && r.is_active
      then false
      else true

  -- `filtered`; the rules are `none` before they are loaded
  unfoldable pub filtered : Page N → Option (List (AlertRule N)) → List (AlertRule N)
  unfolding is_shown
  filtered p none = []
  filtered p (some rules) = filter (is_shown p) rules

  abbrev pub ids : List (AlertRule N) → List String
  ids rules = map (λ r. r.id) rules

  -- `allSelected`, for the rules that are shown
  unfoldable pub all_selected : Page N → List (AlertRule N) → Bool
  all_selected p [] = false
  all_selected p (r ∷ rs) = all (λ i. includes i p.selected_ids) (ids (r ∷ rs))

  pub toggle_select : String → Page N → Page N
  unfolding toggle
  toggle_select id p = record p { selected_ids = toggle id p.selected_ids }

  pub toggle_all : List (AlertRule N) → Page N → Page N
  unfolding all_selected to_set
  toggle_all shown p = record p {
    selected_ids = if all_selected p shown then [] else to_set [] (ids shown);
  }

  -- `handleBulk`
  handle_bulk : String → Action → Bool → Page N → Page N × Option Command
  handle_bulk site_id delete answer p =
      (record p { delete_target = some (record { ids = p.selected_ids; bulk = true }) }, none)
  handle_bulk site_id action answer p = (
    if answer then record p { selected_ids = [] } else p,
    some (bulk_action site_id p.selected_ids action),
  )

  -- `handleDelete`
  pub handle_delete : String → Bool → Page N → Page N × Option Command
  unfolding delete_of
  handle_delete site_id answer p = elim p.delete_target [
    | none ↦ (p, none)
    | some t ↦ (
      if not answer then p else record p {
        selected_ids = if t.bulk then [] else p.selected_ids;
        delete_target = none;
      },
      some (delete_of site_id t),
    )
  ]

  unfoldable pub step : String → Event N → Page N → Page N × Option Command
  unfolding toggle_select toggle_all handle_bulk handle_delete
  step site_id (pick_machine v) p = (record p { filter_machine = v }, none)
  step site_id (pick_severity v) p = (record p { filter_severity = v }, none)
  step site_id (pick_active v) p = (record p { filter_active = v }, none)
  step site_id (select id) p = (toggle_select id p, none)
  step site_id (select_all rules) p = (toggle_all (filtered p rules) p, none)
  step site_id clear_selection p = (record p { selected_ids = [] }, none)
  step site_id (bulk action answer) p = handle_bulk site_id action answer p
  step site_id (ask_delete id) p =
      (record p { delete_target = some (record { ids = id ∷ []; bulk = false }) }, none)
  step site_id cancel_delete p = (record p { delete_target = none }, none)
  step site_id (confirm_delete answer) p = handle_delete site_id answer p
  step site_id (edit rule) p = (record p { edit_rule = some rule; dialog_open = true }, none)
  step site_id create p = (record p { edit_rule = none; dialog_open = true }, none)
  step site_id close_dialog p = (record p { dialog_open = false; edit_rule = none }, none)

  -- a run of events, with the mutations that it sends
  unfoldable pub run : String → List (Event N) → Page N → Page N × List (Option Command)
  unfolding step
  run site_id [] p = (p, [])
  run site_id (e ∷ es) p =
      let (q, c) = step site_id e p in let (r, cs) = run site_id es q in (r, c ∷ cs)
