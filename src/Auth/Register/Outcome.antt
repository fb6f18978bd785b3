-- ===== src/Auth/Register/Outcome.antt =====
-- What the submit handler of the registration form shows and sends.
use industry_dashboard.Base.{
  ◌≡◌, ◌≢◌, ◌⊎◌, inl, inr, refl, String, Bool-cases, Bool, true, false, ◌&&◌, not, [], ◌∷◌, ◌++◌,
  Option, none, some, Codes, codes, is_empty, ◌==◌, nat_eq, string_eq, codes_eq, if◌then◌else◌,
  arith,
}
use industry_dashboard.Api.{
  Request, Fetched, response, rejected, World, api_request, api_fetch, skips_refresh,
}
use industry_dashboard.Api.Shape.{api_fetch_alone}
use industry_dashboard.Auth.Errors.{ErrorBody, Refusal, refusal_message}
use industry_dashboard.Auth.Credentials.{credentials_init}
use industry_dashboard.Auth.Register.{Page, show_refusal, settle, handle_register}

-- The three checks that the form makes before it sends anything.
abbrev pub is_complete : Page → Bool
is_complete p =
    not (is_empty p.email) && (not (is_empty p.password) && p.password == p.confirm_password)

-- The user is on the way to the dashboard, and no error is shown.
abbrev pub IsEntered : Page → Type 0
IsEntered p = (p.location ≡ some "/") × (p.field_error ≡ none) × (p.form_error ≡ none)

-- The user stays, and exactly one error is shown.
abbrev pub IsRefused : Page → Type 0
IsRefused p =
    (p.location ≡ none)
    × (((p.field_error ≢ none) × (p.form_error ≡ none))
        ⊎ ((p.field_error ≡ none) × (p.form_error ≢ none)))

show_refusal-IsRefused :
    (o : Option (ErrorBody × String)) (p : Page)
    → p.location ≡ none
    → p.field_error ≡ none
    → p.form_error ≡ none
    → IsRefused (show_refusal o p)
unfolding show_refusal
show_refusal-IsRefused none p l e g = ground arith
show_refusal-IsRefused (some (b, message)) p l e g = ground arith

module _ (read_error : Codes → Refusal) where
  settle-cases :
      (f : Fetched) (p : Page)
      → p.location ≡ none
      → p.field_error ≡ none
      → p.form_error ≡ none
      → IsEntered (settle read_error f p) ⊎ IsRefused (settle read_error f p)
  unfolding settle
  settle-cases rejected p l e g = ground arith
  settle-cases (response r) p l e g = elim (Bool-cases (r.status == 201)) [
    | inl entered ↦ rw entered (inl (refl, e, g))
    | inr refused ↦
        rw refused
          (inr (show_refusal-IsRefused (refusal_message (read_error r.text) r.status) p l e g))
  ]

  module _ {S : Type 0} (fetch : Request → S → Fetched × S) (p : Page) (w : World S) where
    -- Whatever the form holds and the server answers, the user either is sent to the dashboard with no
    -- error on the page, or stays with exactly one error, at a field or above the form, and the button
    -- is ready again.
    pub handle_register-outcome :
        p.location ≡ none
        → p.loading ≡ false
        → let q = (handle_register read_error fetch p w).0 in
          (q.loading ≡ false) × (IsEntered q ⊎ IsRefused q)
    unfolding handle_register
    handle_register-outcome l b =
        let q = record p { field_error = none; form_error = none } in
        let f =
          (api_fetch fetch (codes "/auth/register") (credentials_init p.email p.password) w).0 in
        ground (arith, settle-cases f (record q { loading = true }))

    -- An incomplete form sends nothing. A complete one sends one request, the registration, and never
    -- asks for a refresh.
    pub handle_register-log : (handle_register read_error fetch p w).1.log ≡ (
        if is_complete p
        then w.log
          ++ api_request (codes "/auth/register") (credentials_init p.email p.password) ∷ []
        else w.log)
    unfolding handle_register skips_refresh
    handle_register-log = ground (
      arith,
      api_fetch_alone fetch (codes "/auth/register") (credentials_init p.email p.password) w refl,
    )
