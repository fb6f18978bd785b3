-- ===== src/Api.antt =====
-- frontend/src/lib/api.ts, with `fetchJSON` and `mutateJSON` of frontend/src/lib/hooks.ts in the
-- child `Json`. The network is the section's parameter: a function from a request and the server's
-- state to an answer and the new state. The log lists the requests in the order they are sent.
pub mod Shape
pub mod Recovery
pub mod Json
pub mod Results
mod Tests
use industry_dashboard.Base.{
  ℕ, ◌+◌, ◌≡◌, ◌⊎◌, inl, inr, refl, Bool, true, false, not, ◌&&◌, ◌||◌, List, [], ◌∷◌, ◌++◌, String,
  Option, none, some, Codes, codes, starts_with, any, leb, ◌==◌, nat_eq, if◌then◌else◌,
}

-- `RequestInit`, as far as the program fills it in
pub record RequestInit : Type 0 where
  pub method : String
  pub headers : List (String × String)
  pub body : Option Codes
  pub credentials : String

pub record Request : Type 0 where
  pub url : Codes
  pub options : RequestInit

pub record Response : Type 0 where
  pub status : ℕ
  pub text : Codes

-- A `fetch` that is rejected had no answer at all: the network failed.
pub data Fetched : Type 0 where
  response : Response → Fetched
  rejected : Fetched

pub Fetched-cases : (f : Fetched) → (f ≡ rejected) ⊎ ((q : Response) × (f ≡ response q))
Fetched-cases rejected = inl refl
Fetched-cases (response q) = inr (q, refl)

-- `res.ok`
abbrev pub is_ok : Response → Bool
is_ok r = leb 200 r.status && leb r.status 299

abbrev pub no_options : RequestInit
no_options = record { method = "GET"; headers = []; body = none; credentials = "same-origin" }

abbrev api_base : Codes
api_base = codes "/api"

abbrev auth_no_refresh_paths : List Codes
auth_no_refresh_paths = codes "/auth/login/local" ∷ codes "/auth/register" ∷ []

-- `skipRefresh`
unfoldable pub skips_refresh : Codes → Bool
skips_refresh path = any (λ p. starts_with path p) auth_no_refresh_paths

-- the request that `apiFetch` sends, and sends again after a refresh
pub api_request : Codes → RequestInit → Request
api_request path options = record {
  url = api_base ++ path;
  options = record options { credentials = "include" };
}

abbrev pub refresh_request : Request
refresh_request = record {
  url = api_base ++ codes "/auth/refresh";
  options = record no_options { method = "POST"; credentials = "include" };
}

pub record World (S : Type 0) : Type 0 where
  pub server : S
  pub log : List Request

module _ {S : Type 0} (fetch : Request → S → Fetched × S) where
  -- one call of `fetch`
  pub send : Request → World S → Fetched × World S
  send r w =
      let (answer, s) = fetch r w.server in (answer, record { server = s; log = w.log ++ r ∷ [] })

  -- the answer to the refresh decides whether the request is sent again
  after_refresh : Request → Response → Fetched × World S → Fetched × World S
  unfolding send
  after_refresh r first (rejected, w) = (rejected, w)
  after_refresh r first (response refreshed, w) =
      if is_ok refreshed then send r w else (response first, w)

  -- what follows the first answer
  after_first : Request → Bool → Fetched × World S → Fetched × World S
  unfolding after_refresh send
  after_first r skip (rejected, w) = (rejected, w)
  after_first r skip (response first, w) =
      if first.status == 401 && not skip
      then after_refresh r first (send refresh_request w)
      else (response first, w)

  unfoldable pub api_fetch : Codes → RequestInit → World S → Fetched × World S
  unfolding after_first send api_request
  api_fetch path options w =
      let r = api_request path options in after_first r (skips_refresh path) (send r w)
