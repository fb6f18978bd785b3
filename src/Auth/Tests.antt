-- ===== src/Auth/Tests.antt =====
-- Runs of the account forms, and the theorems at concrete pages.
use industry_dashboard.Base.{
  ℕ, suc, ◌≡◌, ◌≢◌, ◌⊎◌, refl, true, false, [], ◌∷◌, none, some, Codes, codes, if◌then◌else◌,
}
use industry_dashboard.Api.{
  Request, Fetched, response, World, api_request, api_fetch, skips_refresh,
}
use industry_dashboard.Auth.Errors.{Refusal, null_body, body, refusal_message}
use industry_dashboard.Auth.Credentials.{credentials_init}
use industry_dashboard.Auth.Register
use industry_dashboard.Auth.Register.{handle_register}
use industry_dashboard.Auth.Register.Outcome.{
  is_complete, IsEntered, IsRefused, handle_register-outcome, handle_register-log,
}
use industry_dashboard.Auth.Login
use industry_dashboard.Auth.Login.{handle_login}
use industry_dashboard.Auth.Login.Outcome.{IsSettled, handle_login-outcome}
use industry_dashboard.Auth.Provider.{
  initial, User, refused, signed_in, logout, refresh_user, mounted, step, run, protected_route,
  children, run-logout,
}

-- Every address is taken.
abbrev taken : Codes → Refusal
taken text = body (record { code = some "auth.email_taken"; message = some (codes "use SSO") })

abbrev conflict : Request → ℕ → Fetched × ℕ
conflict r n = (response (record { status = 409; text = [] }), suc n)

abbrev quiet : World ℕ
quiet = record { server = 0; log = [] }

abbrev filled : Register.Page
filled = record {
  email = codes "a@b";
  password = codes "secret";
  confirm_password = codes "secret";
  field_error = none;
  form_error = none;
  loading = false;
  location = none;
}

taken_test :
    (handle_register taken conflict filled quiet).0.field_error
    ≡ some (record { field = "email"; message = "auth.errorEmailTakenSso" })
unfolding handle_register api_fetch skips_refresh refusal_message
taken_test = refl

-- a field of `null` cannot be read
null_test :
    (handle_register (λ text. null_body) conflict filled quiet).0.form_error
    ≡ some "auth.errorNetworkError"
unfolding handle_register api_fetch skips_refresh refusal_message
null_test = refl

mismatch_test :
    (handle_register taken conflict (record filled { confirm_password = [] }) quiet).0.field_error
    ≡ some (record { field = "confirmPassword"; message = "auth.errorPasswordMismatch" })
unfolding handle_register
mismatch_test = refl

handle_register-outcome_example :
    let q = (handle_register taken conflict filled quiet).0 in
    (q.loading ≡ false) × (IsEntered q ⊎ IsRefused q)
handle_register-outcome_example = handle_register-outcome taken conflict filled quiet refl refl

handle_register-log_example : (handle_register taken conflict filled quiet).1.log ≡ (
    if is_complete filled
    then api_request (codes "/auth/register") (credentials_init filled.email filled.password) ∷ []
    else [])
handle_register-log_example = handle_register-log taken conflict filled quiet

abbrev login_page : Login.Page
login_page = record {
  email = codes "a@b";
  password = codes "secret";
  error = none;
  loading = false;
  location = none;
}

handle_login-outcome_example :
    let (q, w') = handle_login taken conflict login_page quiet in
    (w'.log
      ≡ api_request
          (codes "/auth/login/local")
          (credentials_init login_page.email login_page.password)
        ∷ [])
    × (q.loading ≡ false)
    × IsSettled q
handle_login-outcome_example = handle_login-outcome taken conflict login_page quiet refl

abbrev ann : User
ann = record {
  id = "1";
  email = "a@b";
  name = "Ann";
  locale = some "th";
  has_microsoft = false;
  registered_via = "local";
  microsoft_email = none;
}

signed_in_test : (run (initial "en" "/") (mounted (signed_in (some ann)) ∷ [])).language ≡ "th"
unfolding run
signed_in_test = refl

run-logout_example :
    protected_route (
      run
        (step (initial "en" "/") (mounted (signed_in (some ann))))
        (logout true ∷ refresh_user refused ∷ []))
    ≢ children
run-logout_example =
    run-logout (step (initial "en" "/") (mounted (signed_in (some ann))))
      (refresh_user refused ∷ []) refl
