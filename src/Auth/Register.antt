-- ===== src/Auth/Register.antt =====
-- The state and the submit handler of frontend/src/pages/RegisterPage.tsx. `readError` is
-- `res.json()` on a refusal.
pub mod Outcome
use industry_dashboard.Base.{
  ℕ, Bool, true, false, ◌||◌, not, String, List, [], ◌∷◌, Option, none, some, Codes, codes,
  is_empty, ◌==◌, nat_eq, string_eq, codes_eq, if◌then◌else◌,
}
use industry_dashboard.Api.{Request, Response, Fetched, response, rejected, World, api_fetch}
use industry_dashboard.Auth.Errors.{ErrorBody, Refusal, is_code, refusal_message}
use industry_dashboard.Auth.Credentials.{credentials_init}

pub record FieldError : Type 0 where
  pub field : String
  pub message : String

pub record Page : Type 0 where
  pub email : Codes
  pub password : Codes
  pub confirm_password : Codes
  pub field_error : Option FieldError
  pub form_error : Option String
  pub loading : Bool
  -- where `navigate` went
  pub location : Option String

-- `fieldError?.field === field`
abbrev is_at : Option FieldError → String → Bool
is_at none field = false
is_at (some e) field = e.field == field

-- `clearErrors`; without a field every error goes
unfoldable clear_errors : Option String → Page → Page
clear_errors none p = record p { field_error = none; form_error = none }
clear_errors (some field) p = record p {
  field_error = if field == "" || is_at p.field_error field then none else p.field_error;
  form_error = none;
}

abbrev field_error_at : String → String → Page → Page
field_error_at field message p = record p {
  field_error = some (record { field = field; message = message });
}

-- A refusal: the message of a taken address is shown at its field, any other
-- above the form; where its answer cannot be read so, the `catch` shows an error
show_refusal : Option (ErrorBody × String) → Page → Page
show_refusal none p = record p { form_error = some "auth.errorNetworkError" }
show_refusal (some (b, message)) p =
    if is_code b.code "auth.email_taken"
    then field_error_at "email" message p
    else record p { form_error = some message }

module _ (read_error : Codes → Refusal) where
  -- the `try` block behind the answer, and its `catch`
  settle : Fetched → Page → Page
  unfolding show_refusal
  settle rejected p = record p { form_error = some "auth.errorNetworkError" }
  settle (response r) p =
      if r.status == 201
      then record p { location = some "/" }
      else show_refusal (refusal_message (read_error r.text) r.status) p

  module _ {S : Type 0} (fetch : Request → S → Fetched × S) where
    -- the `try` statement
    submit : Page → World S → Page × World S
    unfolding settle credentials_init
    submit p w =
        let (f, w') =
          api_fetch fetch (codes "/auth/register") (credentials_init p.email p.password) w in
        let q = settle f (record p { loading = true }) in (record q { loading = false }, w')

    -- `handleRegister`
    unfoldable pub handle_register : Page → World S → Page × World S
    unfolding submit
    handle_register p w =
        let q = record p { field_error = none; form_error = none } in
        if is_empty p.email
        then (field_error_at "email" "auth.errorEmailRequired" q, w)
        else if is_empty p.password
        then (field_error_at "password" "auth.errorPasswordRequired" q, w)
        else if not (p.password == p.confirm_password)
        then (field_error_at "confirmPassword" "auth.errorPasswordMismatch" q, w)
        else submit q w
