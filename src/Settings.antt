-- ===== src/Settings.antt =====
-- What the client keeps in the browser: frontend/src/lib/refresh-interval.tsx (`RefreshInterval`, with
-- the decimal numerals of `Decimal`) and frontend/src/lib/site-context.tsx (`Sites`).
pub mod Decimal
pub mod RefreshInterval
pub mod Sites
mod Tests
