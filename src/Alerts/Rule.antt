-- ===== src/Alerts/Rule.antt =====
-- `AlertRule`, and what the table of rules shows of one. Thresholds are JavaScript numbers that are
-- not NaN; their type is a parameter with `===`.
use industry_dashboard.Base.{
  Bool, ◌&&◌, ◌||◌, String, List, find?, none, some, Eq, ◌==◌, string_eq, if◌then◌else◌,
}

pub record AlertRule (N : Type 0) : Type 0 where
  pub id : String
  pub name : String
  pub machine_id : String
  pub metric_name : String
  pub condition : String
  pub threshold : N
  pub severity : String
  pub is_active : Bool

-- `renderCondition`, before the parts are joined by spaces
pub data Condition (N : Type 0) : Type 0 where
  on_off : String → String → Condition N
  comparison : String → String → N → Condition N

module _ {N : Type 0} ⦃e : Eq N⦄ (zero one : N) where
  unfoldable pub render_condition : AlertRule N → Condition N
  render_condition r =
      if r.condition == "==" && (r.threshold == zero || r.threshold == one)
      then on_off r.metric_name (if r.threshold == one then "ON" else "OFF")
      else comparison r.metric_name r.condition r.threshold

pub data Variant : Type 0 where
  destructive outline secondary : Variant

unfoldable severity_variant : String → Variant
severity_variant s =
    if s == "critical" then destructive else if s == "warning" then outline else secondary

pub record Machine : Type 0 where
  pub id : String
  pub name : String
  pub line_id : String

-- `getMachineName`
unfoldable get_machine_name : List Machine → String → String
get_machine_name machines machine_id = elim (find? (λ m. m.id == machine_id) machines) [
  | none ↦ machine_id
  | some m ↦ m.name
]
