-- ===== src/Alerts/Dialog/Submit.antt =====
-- What the form sends.
use industry_dashboard.Base.{
  ◌≡◌, ◌≢◌, ◌↔◌, ◌⊎◌, inl, inr, refl, Bool, true, false, not, ◌&&◌, String, List, Option, none,
  some, Eq, ==_refl, ==_iff, string_eq, if◌then◌else◌, arith, Bool-cases,
}
use industry_dashboard.Alerts.Rule.{AlertRule, render_condition, on_off}
use industry_dashboard.Alerts.Dialog.{
  Metric, Form, Command, update, create, is_coil, or_failed, open_dialog, command, is_valid,
  Pressed, press,
}

or_failed-ne : (m : String) → or_failed m ≢ ""
or_failed-ne m = ground (arith, ==_iff m "", ==_iff {K = String} "Failed to save alert rule" "")

module _ {N : Type 0} ⦃e : Eq N⦄ (zero one : N) where
  -- The rule as the server keeps it: after an update of a rule of some machine, which stays, and after a
  -- creation under a new id.
  abbrev pub stored : String → String → Command N → AlertRule N
  stored id machine_id (update u) = record {
    id = u.id;
    name = u.name;
    machine_id = machine_id;
    metric_name = u.metric_name;
    condition = u.condition;
    threshold = u.threshold;
    severity = u.severity;
    is_active = u.is_active;
  }
  stored id machine_id (create c) = record {
    id = id;
    name = c.name;
    machine_id = c.machine_id;
    metric_name = c.metric_name;
    condition = c.condition;
    threshold = c.threshold;
    severity = c.severity;
    is_active = true;
  }

  -- Opening the dialog on a rule and pressing the button with nothing changed sends the rule as it is,
  -- where a rule on a coil has the condition == with the threshold 0 or 1, as the form makes it.
  pub command-open_dialog :
      (site_id : String) (r : AlertRule N) (metrics : Option (List Metric)) (f : Form N)
      → (is_coil metrics r.metric_name ≡ true
          → (r.condition ≡ "==") × ((r.threshold ≡ zero) ⊎ (r.threshold ≡ one)))
      → command zero one site_id (some r) metrics (open_dialog zero one (some r) f)
        ≡ update (record {
          id = r.id;
          site_id = site_id;
          name = r.name;
          metric_name = r.metric_name;
          condition = r.condition;
          threshold = r.threshold;
          severity = r.severity;
          is_active = r.is_active;
        })
  unfolding command open_dialog
  command-open_dialog site_id r metrics f coherent = ground (arith, ==_iff r.threshold one)

  -- On a coil the table shows the stored rule as ON or OFF, by the button that was chosen, whatever
  -- condition and threshold the form held.
  pub render_condition-command :
      (id machine_id site_id : String) (edit_rule : Option (AlertRule N))
      (metrics : Option (List Metric)) (f : Form N)
      → zero ≢ one
      → is_coil metrics f.metric_name ≡ true
      → render_condition zero one
          (stored id machine_id (command zero one site_id edit_rule metrics f))
        ≡ on_off f.metric_name (if f.coil_value then "ON" else "OFF")
  unfolding render_condition command
  render_condition-command id machine_id site_id none metrics f differ coil =
      rw coil (ground (arith, ==_iff zero one, ==_refl zero, ==_refl one))
  render_condition-command id machine_id site_id (some r) metrics f differ coil =
      rw coil (ground (arith, ==_iff zero one, ==_refl zero, ==_refl one))

  -- The fields that a mutation must carry.
  abbrev IsFilled : Command N → Type 0
  IsFilled (update u) = (u.name ≢ "") × (u.metric_name ≢ "") × (u.condition ≢ "")
  IsFilled (create c) =
      (c.name ≢ "") × (c.machine_id ≢ "") × (c.metric_name ≢ "") × (c.condition ≢ "")

  -- A press of the button, whatever the form holds: if a mutation is sent, its fields are filled in,
  -- and the dialog is closed exactly if it was resolved, while a rejection leaves a message; if none is
  -- sent, nothing changes.
  abbrev pub IsPressed : Option String → Form N → Pressed zero one → Type 0
  IsPressed answer f q = elim q.sent [
    | none ↦ (q.form ≡ f) × (q.closed ≡ false)
    | some c ↦
        IsFilled c
        × ((q.closed ≡ true) ↔ (answer ≡ none))
        × ((q.closed ≡ false) ↔ (q.form.error ≢ ""))
  ]

  command-IsFilled :
      (site_id : String) (edit_rule : Option (AlertRule N)) (metrics : Option (List Metric))
      (f : Form N)
      → is_valid zero one metrics f ≡ true
      → IsFilled (command zero one site_id edit_rule metrics f)
  unfolding command is_valid
  command-IsFilled site_id none metrics f h = ground (
    arith,
    ==_iff f.name "",
    ==_iff f.metric_name "",
    ==_iff f.machine_id "",
    ==_iff f.condition "",
    ==_iff {K = String} "==" "",
  )
  command-IsFilled site_id (some r) metrics f h = ground (
    arith,
    ==_iff f.name "",
    ==_iff f.metric_name "",
    ==_iff f.machine_id "",
    ==_iff f.condition "",
    ==_iff {K = String} "==" "",
  )

  -- A press of the button, whatever the form holds. If it sends a mutation, then the name, the metric and
  -- the condition are filled in, for a new rule the machine too; the dialog is closed exactly if the
  -- mutation is resolved, and stays open with a message otherwise. If it sends none, nothing changes.
  pub press-IsPressed :
      (site_id : String) (edit_rule : Option (AlertRule N)) (metrics : Option (List Metric))
      (pending : Bool) (answer : Option String) (f : Form N)
      → IsPressed answer f (press zero one site_id edit_rule metrics pending answer f)
  unfolding press
  press-IsPressed site_id edit_rule metrics pending none f =
      elim (Bool-cases (is_valid zero one metrics f && not pending)) [
        | inr held ↦ rw held (refl, refl)
        | inl free ↦
            let valid : is_valid zero one metrics f ≡ true = ground arith in
            rw free (
              command-IsFilled site_id edit_rule metrics f valid,
              (λ _. refl, λ _. refl),
              (λ c. cc, λ n. absurd (n refl)),
            )
      ]
  press-IsPressed site_id edit_rule metrics pending (some m) f =
      elim (Bool-cases (is_valid zero one metrics f && not pending)) [
        | inr held ↦ rw held (refl, refl)
        | inl free ↦
            let valid : is_valid zero one metrics f ≡ true = ground arith in
            rw free (
              command-IsFilled site_id edit_rule metrics f valid,
              (λ c. cc, λ c. cc),
              (λ c. or_failed-ne m, λ n. refl),
            )
      ]
