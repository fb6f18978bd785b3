-- ===== src/Auth/Login.antt =====
-- The state and the submit handler of frontend/src/pages/LoginPage.tsx.
pub mod Outcome
use industry_dashboard.Base.{
  Bool, true, false, String, Option, none, some, Codes, codes, if◌then◌else◌,
}
use industry_dashboard.Api.{Request, Response, Fetched, response, rejected, World, is_ok, api_fetch}
use industry_dashboard.Auth.Errors.{ErrorBody, Refusal, refusal_message}
use industry_dashboard.Auth.Credentials.{credentials_init}

pub record Page : Type 0 where
  pub email : Codes
  pub password : Codes
  pub error : Option String
  pub loading : Bool
  pub location : Option String

-- the message of a refusal, or that of the `catch`
message_of : Option (ErrorBody × String) → String
message_of none = "auth.errorNetworkError"
message_of (some (b, message)) = message

module _ (read_error : Codes → Refusal) where
  settle : Fetched → Page → Page
  unfolding message_of
  settle rejected p = record p { error = some "auth.errorNetworkError" }
  settle (response r) p =
      if is_ok r
      then record p { location = some "/" }
      else record p { error = some (message_of (refusal_message (read_error r.text) r.status)) }

  -- `handleLogin`
  module _ {S : Type 0} (fetch : Request → S → Fetched × S) where
    pub handle_login : Page → World S → Page × World S
    unfolding settle credentials_init
    handle_login p w =
        let (f, w') =
          api_fetch fetch (codes "/auth/login/local") (credentials_init p.email p.password) w in
        let q = settle f (record p { error = none; loading = true }) in
        (record q { loading = false }, w')
