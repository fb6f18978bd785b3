-- ===== src/Auth/Credentials.antt =====
-- The request options that the two forms share.
use industry_dashboard.Base.{[], ◌∷◌, Codes, some, stringify_object}
use industry_dashboard.Api.{RequestInit, no_options}

-- `{ method: 'POST', headers: …, body: JSON.stringify({ email, password }) }`
unfoldable pub credentials_init : Codes → Codes → RequestInit
unfolding stringify_object
credentials_init email password = record no_options {
  method = "POST";
  headers = ("Content-Type", "application/json") ∷ [];
  body = some (stringify_object (("email", email) ∷ ("password", password) ∷ []));
}
