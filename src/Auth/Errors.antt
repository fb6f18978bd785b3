-- ===== src/Auth/Errors.antt =====
-- frontend/src/lib/auth-errors.ts. `t` looks a key up in the translations, so a message is its key.
use industry_dashboard.Base.{
  ℕ, Bool, false, String, [], Option, none, some, Codes, codes, contains, ◌==◌, nat_eq, string_eq,
  if◌then◌else◌,
}

-- the body of a refusal; a field that is missing or no text is `none`
pub record ErrorBody : Type 0 where
  pub code : Option String
  pub message : Option Codes

-- what `res.json()` gives on a refusal: it throws, or it is `null`, or it has fields
pub data Refusal : Type 0 where
  unreadable null_body : Refusal
  body : ErrorBody → Refusal

-- what `.catch(() => ({ code: '', message: '' }))` gives
abbrev no_body : ErrorBody
no_body = record { code = some ""; message = some [] }

-- `code === text`
abbrev pub is_code : Option String → String → Bool
is_code none text = false
is_code (some code) text = code == text

-- `message.includes('SSO')` decides; without a message it throws
taken_error : Option Codes → Option String
taken_error none = none
taken_error (some message) =
    some
      (if contains message (codes "SSO") then "auth.errorEmailTakenSso" else "auth.errorEmailTaken")

-- `mapAuthError`: the key of the translated message, `none` where it throws
unfoldable pub map_auth_error : ErrorBody → ℕ → Option String
unfolding taken_error
map_auth_error b status =
    if status == 429
    then some "auth.errorRateLimited"
    else if is_code b.code "auth.invalid_credentials"
    then some "auth.errorInvalidCredentials"
    else if is_code b.code "auth.email_taken"
    then taken_error b.message
    else if is_code b.code "auth.password_too_long"
    then some "auth.errorPasswordTooLong"
    else if is_code b.code "auth.invalid_input"
    then some "auth.errorInvalidInput"
    else if is_code b.code "auth.account_disabled"
    then some "auth.errorAccountDisabled"
    else if is_code b.code "sso.already_linked"
    then some "account.errorAlreadyLinked"
    else if is_code b.code "auth.sso_not_configured"
    then some "account.errorSsoNotConfigured"
    else some "auth.errorUnexpected"

-- the body and the message of a refusal; `none` where a field of `null` is read or `mapAuthError` throws
refused_with : ErrorBody → Option String → Option (ErrorBody × String)
refused_with b none = none
refused_with b (some message) = some (b, message)

unfoldable pub refusal_message : Refusal → ℕ → Option (ErrorBody × String)
unfolding map_auth_error refused_with
refusal_message unreadable status = refused_with no_body (map_auth_error no_body status)
refusal_message null_body status = none
refusal_message (body b) status = refused_with b (map_auth_error b status)
