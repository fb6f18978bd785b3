-- ===== src/Auth.antt =====
-- The account forms: frontend/src/lib/auth-errors.ts, pages/RegisterPage.tsx and pages/LoginPage.tsx,
-- and the provider and route guard of lib/auth.tsx and App.tsx.
pub mod Errors
pub mod Credentials
pub mod Register
pub mod Login
pub mod Provider
mod Tests
