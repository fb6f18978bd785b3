-- ===== src/Charts.antt =====
-- The charts of frontend/src/components/widgets.
pub mod LineChart
mod Tests
