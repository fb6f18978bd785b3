-- ===== src/Sites.antt =====
-- The administration of sites: frontend/src/pages/admin/SitesPage.tsx and, in frontend/src/components/admin,
-- SiteDetail.tsx with its dialogs SiteDialog.tsx, LineDialog.tsx, MachineDialog.tsx and DeleteDialog.tsx.
-- A field that may be missing is `none`. The awaited answer of a mutation is an argument of its handler.
pub mod Forms
pub mod Panel
pub mod View
mod Tests
use industry_dashboard.Base.{Option, none, some, List, Codes, ℤ}

-- what a mutation is answered with: a success, or an error with its message
pub data Answer : Type 0 where
  done : Answer
  refused : Codes → Answer

pub record Machine : Type 0 where
  pub id : Codes
  pub name : Codes
  pub model : Option Codes
  pub status : Option Codes
  pub worker_name : Option Codes

pub record Line : Type 0 where
  pub id : Codes
  pub name : Codes
  pub display_order : ℤ
  pub machines : Option (List Machine)

-- `detail`: the fields that the page reads of the answer to `/sites/${siteId}/detail`
pub record Detail : Type 0 where
  pub id : Option Codes
  pub name : Option Codes
  pub code : Option Codes
  pub timezone : Option Codes
  pub address : Option Codes
  pub lines : Option (List Line)

-- a site with its fields
pub record Site : Type 0 where
  pub id : Codes
  pub name : Codes
  pub code : Codes
  pub timezone : Codes
  pub address : Codes

-- What the page reads of the answer that `GetSiteDetail` of internal/site/store.go makes: it has the
-- fields `site` and `lines`, and the page reads the fields of the site of the answer itself.
unfoldable pub read_answer : Site → List Line → Detail
read_answer site lines = record {
  id = none;
  name = none;
  code = none;
  timezone = none;
  address = none;
  lines = some lines;
}
