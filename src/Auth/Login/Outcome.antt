-- ===== src/Auth/Login/Outcome.antt =====
-- What the submit handler of the login form shows and sends.
use industry_dashboard.Base.{
  ◌≡◌, ◌≢◌, ◌⊎◌, refl, true, false, [], ◌∷◌, ◌++◌, none, some, Codes, codes, arith,
}
use industry_dashboard.Api.{
  Request, Fetched, response, rejected, World, api_request, api_fetch, skips_refresh,
}
use industry_dashboard.Api.Shape.{api_fetch_alone}
use industry_dashboard.Auth.Errors.{Refusal}
use industry_dashboard.Auth.Credentials.{credentials_init}
use industry_dashboard.Auth.Login.{Page, settle, handle_login}

-- The page of a user who is let in, and of one who is not.
abbrev pub IsSettled : Page → Type 0
IsSettled p =
    ((p.location ≡ some "/") × (p.error ≡ none)) ⊎ ((p.location ≡ none) × (p.error ≢ none))

module _ (read_error : Codes → Refusal) where
  settle-IsSettled :
      (f : Fetched) (p : Page)
      → p.location ≡ none
      → p.error ≡ none
      → IsSettled (settle read_error f p)
  unfolding settle
  settle-IsSettled rejected p l e = ground arith
  settle-IsSettled (response r) p l e = ground arith

  module _ {S : Type 0} (fetch : Request → S → Fetched × S) (p : Page) (w : World S) where
    -- One request is sent, the login itself and no refresh, even if it is answered by a 401. Then the
    -- user is sent to the dashboard with no error on the page, or stays and sees an error; the button is
    -- ready again.
    pub handle_login-outcome :
        p.location ≡ none
        → let (q, w') = handle_login read_error fetch p w in
          (w'.log
            ≡ w.log
              ++ api_request (codes "/auth/login/local") (credentials_init p.email p.password) ∷ [])
          × (q.loading ≡ false)
          × IsSettled q
    unfolding handle_login skips_refresh
    handle_login-outcome l =
        let sent = credentials_init p.email p.password in
        let f = (api_fetch fetch (codes "/auth/login/local") sent w).0 in
        (
          api_fetch_alone fetch (codes "/auth/login/local") sent w refl,
          refl,
          ground (arith, settle-IsSettled f (record p { error = none; loading = true })),
        )
