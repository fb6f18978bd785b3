-- ===== src/Workers.antt =====
-- The monitoring of workers: frontend/src/components/admin/WorkerTable.tsx with CommandConfirmDialog.tsx
-- (`Table`), and WorkerDetail.tsx (`Config`). An instant is a number of milliseconds.
pub mod Table
pub mod Commands
pub mod Config
mod Tests
use industry_dashboard.Base.{ℕ, Option, none, some, Codes, codes}

-- a worker as the server lists it
pub record Worker : Type 0 where
  pub id : Codes
  pub name : Codes
  pub status : Codes
  pub hostname : Codes
  pub ip_address : Codes
  pub machine_count : Option ℕ
  pub heartbeat_at : Option ℕ

-- `x ?? 0`
abbrev pub or_zero : Option ℕ → ℕ
or_zero none = 0
or_zero (some n) = n

-- `x ?? '—'`
abbrev pub or_dash : Option Codes → Codes
or_dash none = codes "—"
or_dash (some s) = s
