-- ===== src/Alerts/Dialog.antt =====
-- The form of frontend/src/components/alerts/AlertRuleDialog.tsx: its effects, its handlers and the
-- mutation that it sends. `coil_value` is `true` for 1.
pub mod Submit
use industry_dashboard.Base.{
  Bool, true, false, not, ◌&&◌, ◌||◌, String, List, [], ◌∷◌, find?, Option, none, some, Eq, ◌==◌,
  string_eq, if◌then◌else◌,
}
use industry_dashboard.Alerts.Rule.{AlertRule}

pub record Metric : Type 0 where
  pub name : String
  pub type : String
  pub register_type : String

module _ (N : Type 0) where
  pub record Form : Type 0 where
    pub name : String
    pub machine_id : String
    pub metric_name : String
    pub condition : String
    pub threshold : N
    pub severity : String
    pub coil_value : Bool
    pub error : String

  pub record Update : Type 0 where
    pub id : String
    pub site_id : String
    pub name : String
    pub metric_name : String
    pub condition : String
    pub threshold : N
    pub severity : String
    pub is_active : Bool

  pub record Create : Type 0 where
    pub site_id : String
    pub name : String
    pub machine_id : String
    pub metric_name : String
    pub condition : String
    pub threshold : N
    pub severity : String

  -- what `useUpdateAlert` and `useCreateAlert` are called with
  pub data Command : Type 0 where
    update : Update → Command
    create : Create → Command

-- `metrics?.find((m) => m.name === metricName)?.type === 'coil'`
unfoldable pub is_coil : Option (List Metric) → String → Bool
is_coil none metric_name = false
is_coil (some ms) metric_name = elim (find? (λ m. m.name == metric_name) ms) [
  | none ↦ false
  | some m ↦ m.type == "coil"
]

-- `e.message || 'Failed to save alert rule'`
abbrev pub or_failed : String → String
or_failed message = if message == "" then "Failed to save alert rule" else message

module _ {N : Type 0} ⦃e : Eq N⦄ (zero one : N) where
  -- the effect that fills the form when the dialog opens
  fill : Option (AlertRule N) → Form N → Form N
  fill (some r) f = record {
    name = r.name;
    machine_id = r.machine_id;
    metric_name = r.metric_name;
    condition = r.condition;
    threshold = r.threshold;
    severity = r.severity;
    coil_value = r.threshold == one;
    error = "";
  }
  fill none f = record {
    name = "";
    machine_id = "";
    metric_name = "";
    condition = ">";
    threshold = zero;
    severity = "warning";
    coil_value = true;
    error = "";
  }

  -- the effect that follows a change of the machine, in create mode only
  reset_metric : Option (AlertRule N) → Form N → Form N
  reset_metric (some r) f = f
  reset_metric none f = record f { metric_name = "" }

  -- the effects of opening the dialog, in their order
  pub open_dialog : Option (AlertRule N) → Form N → Form N
  unfolding fill reset_metric
  open_dialog edit_rule f = reset_metric edit_rule (fill edit_rule f)

  -- the choice of another machine
  unfoldable pub pick_machine : Option (AlertRule N) → String → Form N → Form N
  unfolding reset_metric
  pick_machine edit_rule v f = reset_metric edit_rule (record f { machine_id = v })

  final_condition : Bool → Form N → String
  final_condition coil f = if coil then "==" else f.condition

  final_threshold : Bool → Form N → N
  final_threshold coil f = if coil then if f.coil_value then one else zero else f.threshold

  -- the mutation of `handleSubmit`
  pub command : String → Option (AlertRule N) → Option (List Metric) → Form N → Command N
  unfolding final_condition final_threshold
  command site_id (some r) metrics f =
      let coil = is_coil metrics f.metric_name in
      update (record {
        id = r.id;
        site_id = site_id;
        name = f.name;
        metric_name = f.metric_name;
        condition = final_condition coil f;
        threshold = final_threshold coil f;
        severity = f.severity;
        is_active = r.is_active;
      })
  command site_id none metrics f =
      let coil = is_coil metrics f.metric_name in
      create (record {
        site_id = site_id;
        name = f.name;
        machine_id = f.machine_id;
        metric_name = f.metric_name;
        condition = final_condition coil f;
        threshold = final_threshold coil f;
        severity = f.severity;
      })

  -- `isValid`
  pub is_valid : Option (List Metric) → Form N → Bool
  is_valid metrics f =
      not (f.name == "")
      && (not (f.machine_id == "")
          && (not (f.metric_name == "")
              && (is_coil metrics f.metric_name || not (f.condition == ""))))

  -- What is left of a press of the button: the form, whether the dialog was closed, and the mutation. The
  -- answer is `none` if the mutation is resolved, or the message of its error.
  pub record Pressed : Type 0 where
    pub form : Form N
    pub closed : Bool
    pub sent : Option (Command N)

  -- `handleSubmit` behind `disabled={!isValid || isPending}`
  unfoldable pub press :
      String → Option (AlertRule N) → Option (List Metric) → Bool → Option String → Form N → Pressed
  unfolding command is_valid
  press site_id edit_rule metrics pending answer f =
      if is_valid metrics f && not pending
      then record {
        form = record f { error = elim answer [ none ↦ "" | some m ↦ or_failed m ] };
        closed = elim answer [ none ↦ true | some m ↦ false ];
        sent = some (command site_id edit_rule metrics f);
      }
      else record { form = f; closed = false; sent = none }
