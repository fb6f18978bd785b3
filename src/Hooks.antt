-- ===== src/Hooks.antt =====
-- The hooks of frontend/src/lib/hooks.ts: a query is the object that the hook passes to `useQuery`, a
-- mutation is the request that its function sends, how it reads the answer and the keys that `onSuccess`
-- invalidates. Ids and parameters are texts; `none` is `undefined`.
pub mod SearchParams
pub mod Json
pub mod Plant
pub mod Accounts
pub mod Workers
pub mod Widgets
pub mod Actions
pub mod Sent
pub mod Mutations
pub mod Download
pub mod Answers
pub mod Facts
pub mod Pages
pub mod Staleness
pub mod Queries
pub mod Keys
pub mod Forms
mod Tests
use industry_dashboard.Base.{
  ℕ, Bool, true, false, not, List, [], ◌∷◌, ◌++◌, String, Option, none, some, Codes, codes,
  is_empty,
}
use industry_dashboard.Api.{RequestInit, no_options}
use industry_dashboard.Hooks.SearchParams.{Params}

-- One element of a query key. Of an object it has the fields in the order in which the program writes them;
-- React Query takes objects for equal whatever that order is, and each hook writes one order.
pub data Part : Type 0 where
  text : Codes → Part
  fields : Params → Part
  undefined : Part

-- What the query function resolves to, as it is read off the function by hand: an array, an object, a page of an array with its total, numbers
-- by name, texts, or the points or the value of a data source beside that source.
pub data Result : Type 0 where
  rows object page_of_rows values texts series source_value : Result

pub record Query : Type 0 where
  pub query_key : List Part
  pub path : Codes
  pub enabled : Bool
  pub refetch_interval : Option ℕ
  pub result : Result

-- `!!id`
abbrev pub is_given : Option Codes → Bool
is_given none = false
is_given (some s) = not (is_empty s)

-- `${id}`
abbrev pub shown : Option Codes → Codes
shown none = codes "undefined"
shown (some s) = s

abbrev pub id_part : Option Codes → Part
id_part none = undefined
id_part (some s) = text s

abbrev pub params_part : Option Params → Part
params_part none = undefined
params_part (some ps) = fields ps

abbrev pub key_named : String → Part
key_named name = text (codes name)

-- How the function of a mutation reads the answer: by `mutateJSON`; not at all, it resolves to the response;
-- by `res.json()` whatever the status is; or by `res.json()` after an error of its own where `res.ok` is
-- false, which has a fixed message or the text of the answer.
pub data Reader : Type 0 where
  mutate_json any_response any_json text_error : Reader
  fixed_error : String → Reader

pub record Mutation : Type 0 where
  pub path : Codes
  pub options : RequestInit
  pub reader : Reader
  pub invalidated : List (List Part)

-- `{ method }`
abbrev pub bare : String → RequestInit
bare method = record no_options { method = method }

-- `{ method, body }`
abbrev pub with_body : String → Codes → RequestInit
with_body method body = record no_options { method = method; body = some body }

-- `{ method, headers: { 'Content-Type': type }, body }`
abbrev pub with_typed_body : String → String → Codes → RequestInit
with_typed_body method type body = record no_options {
  method = method;
  headers = ("Content-Type", type) ∷ [];
  body = some body;
}
