-- ===== src/Auth/Provider.antt =====
-- `AuthProvider` of frontend/src/lib/auth.tsx and `ProtectedRoute` of frontend/src/App.tsx.
use industry_dashboard.Base.{
  Bool, true, false, ◌≡◌, ◌≢◌, ◌↔◌, inl, inr, refl, String, List, [], ◌∷◌, any, Option-cases,
  Option, none, some, arith, if◌then◌else◌, ◌==◌, string_eq,
}

pub record User : Type 0 where
  pub id : String
  pub email : String
  pub name : String
  pub locale : Option String
  pub has_microsoft : Bool
  pub registered_via : String
  pub microsoft_email : Option String

-- the provider's state, with the language that i18n was set to and the address of the window
pub record AuthState : Type 0 where
  pub user : Option User
  pub loading : Bool
  pub language : String
  pub location : String

-- the answers of `/auth/me`, as `apiFetch` and `res.json()` give them
pub data MeAnswer : Type 0 where
  -- a response with `ok`; its body may be `null`
  signed_in : Option User → MeAnswer
  -- a response without `ok`
  refused : MeAnswer
  -- the request or the parse failed
  failed : MeAnswer

pub data AuthEvent : Type 0 where
  -- the effect that runs once, on mount
  mounted : MeAnswer → AuthEvent
  refresh_user : MeAnswer → AuthEvent
  -- `true` if the request was answered
  logout : Bool → AuthEvent

abbrev pub initial : String → String → AuthState
initial language location = record {
  user = none;
  loading = true;
  language = language;
  location = location;
}

-- `if (data?.locale) i18n.changeLanguage(data.locale)`
abbrev change_language : Option User → String → String
change_language none language = language
change_language (some u) language = elim u.locale [
  | none ↦ language
  | some l ↦ if l == "" then language else l
]

-- the second `then`
set_user : Option User → AuthState → AuthState
set_user u s = record s { user = u; language = change_language u s.language }

-- the two `then`s; a rejection skips both
on_me : MeAnswer → AuthState → AuthState
unfolding set_user
on_me (signed_in u) s = set_user u s
on_me refused s = set_user none s
on_me failed s = s

unfoldable pub step : AuthState → AuthEvent → AuthState
unfolding on_me
step s (mounted a) = record (on_me a s) { loading = false }
step s (refresh_user a) = on_me a s
step s (logout true) = record s { user = none; location = "/login" }
step s (logout false) = s

pub data Guarded : Type 0 where
  spinner : Guarded
  to_login : Guarded
  children : Guarded

-- `ProtectedRoute`
pub protected_route : AuthState → Guarded
protected_route s =
    if s.loading then spinner else elim s.user [ none ↦ to_login | some u ↦ children ]

-- A protected page is on the screen exactly if the first answer has come and there is a user.
protected_route-children_iff :
    (s : AuthState)
    → (protected_route s ≡ children) ↔ ((s.loading ≡ false) × ((u : User) × (s.user ≡ some u)))
unfolding protected_route
protected_route-children_iff s = elim (Option-cases s.user) [
  | inl nobody ↦ (λ e. absurd (ground arith), λ (l, found). absurd (ground arith))
  | inr (u, found) ↦ (λ e. (ground arith, (u, found)), λ (l, _). ground arith)
]

unfoldable pub run : AuthState → List AuthEvent → AuthState
unfolding step
run s [] = s
run s (e ∷ es) = run (step s e) es

-- A user who logs out, with the request answered, sees no protected page again until an answer of
-- `/auth/me` names a user.
abbrev names_user : AuthEvent → Bool
names_user (mounted (signed_in (some u))) = true
names_user (refresh_user (signed_in (some u))) = true
names_user _ = false

step-none :
    (s : AuthState) (e : AuthEvent) → names_user e ≡ false → s.user ≡ none → (step s e).user ≡ none
unfolding step
step-none s (mounted (signed_in none)) h n = refl
step-none s (mounted (signed_in (some u))) h n = cc
step-none s (mounted refused) h n = refl
step-none s (mounted failed) h n = n
step-none s (refresh_user (signed_in none)) h n = refl
step-none s (refresh_user (signed_in (some u))) h n = cc
step-none s (refresh_user refused) h n = refl
step-none s (refresh_user failed) h n = n
step-none s (logout true) h n = refl
step-none s (logout false) h n = n

run-none :
    (s : AuthState) (es : List AuthEvent)
    → any names_user es ≡ false
    → s.user ≡ none
    → (run s es).user ≡ none
unfolding run
run-none s [] h n = n
run-none s (e ∷ es) h n = run-none (step s e) es (ground arith) (step-none s e (ground arith) n)

-- After an answered log-out, whatever events follow, no protected page is shown until an answer of
-- `/auth/me` names a user.
pub run-logout :
    (s : AuthState) (es : List AuthEvent)
    → any names_user es ≡ false
    → protected_route (run s (logout true ∷ es)) ≢ children
unfolding run
run-logout s es h shown =
    let (_, (u, found)) = (protected_route-children_iff (run (step s (logout true)) es)).0 shown in
    let nobody = run-none (step s (logout true)) es h refl in ground arith
