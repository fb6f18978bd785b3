-- ===== src/Dashboards.antt =====
-- The dashboards: the editor of frontend/src/pages/dashboards/DashboardEditorPage.tsx (`Editor`), the data sources
-- of a widget, frontend/src/components/widget-config (`DataSources`), and the dialog of ShareDialog.tsx (`Share`).
pub mod Editor
pub mod DataSources
pub mod Share
pub mod Listing
mod Tests
