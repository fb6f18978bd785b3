-- ===== src/WorkerConfig.antt =====
-- The worker configuration wizard, frontend/src/pages/admin/WorkerConfigEditPage.tsx: its validation
-- helpers in `Pattern` and `Validation`, its state in `State` and its handlers in `Wizard`.
pub mod Pattern
pub mod Validation
pub mod State
pub mod Wizard
mod Tests
