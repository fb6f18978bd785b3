-- ===== src/Admin.antt =====
-- The administration pages frontend/src/pages/admin/AuditLogPage.tsx, RolesPage.tsx, ApiKeysPage.tsx and UsersPage.tsx.
pub mod AuditLog
pub mod Roles
pub mod ApiKeys
pub mod Users
mod Tests
