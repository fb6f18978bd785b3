-- ===== src/Indicators.antt =====
-- The indicator of a dashboard: frontend/src/components/widgets/IndicatorWidget.tsx (`Matching`) and its
-- configuration frontend/src/components/widget-config/IndicatorConfig.tsx (`Sheet`). JavaScript's numbers are
-- a parameter: a type with `String`, `Number`, `<` and `<=`.
pub mod Ranges
pub mod Matching
pub mod Sheet
mod Tests
use industry_dashboard.Base.{Bool, Option, none, some, Codes}

pub data Animation : Type 0 where
  no_animation blink marquee warning : Animation

pub record ValueMapping : Type 0 where
  pub id : Codes
  pub value : Codes
  pub text : Codes
  pub color : Codes
  pub animation : Animation

pub record Source : Type 0 where
  pub machine_id : Codes
  pub metric : Codes

-- `String(x)`, `Number(s)` with `none` for NaN, and the comparisons
pub record Numbers (N : Type 0) : Type 0 where
  pub show : N → Codes
  pub read : Codes → Option N
  pub less : N → N → Bool
  pub at_most : N → N → Bool
