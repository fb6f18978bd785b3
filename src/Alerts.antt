-- ===== src/Alerts.antt =====
-- Alert rules and alert events: frontend/src/pages/AlertRulesPage.tsx,
-- components/alerts/AlertRuleDialog.tsx and pages/AlertsPage.tsx.
pub mod Rule
pub mod Rules
pub mod Dialog
pub mod Events
mod Tests
