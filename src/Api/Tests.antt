-- ===== src/Api/Tests.antt =====
-- A small server, runs of `apiFetch` on it, and the theorems at these runs.
use industry_dashboard.Base.{
  ℕ, ◌-◌, ◌≡◌, ◌↔◌, ◌≤◌, refl, Bool, true, false, List, [], ◌∷◌, ◌++◌, Option, none, some, Codes,
  codes, arith, ◌==◌, nat_eq, codes_eq, trim, is_empty, if◌then◌else◌,
}
use industry_dashboard.Api.{
  Request, Response, Fetched, response, World, is_ok, no_options, skips_refresh, api_request,
  refresh_request, api_fetch,
}
use industry_dashboard.Api.Shape.{IsTraffic, api_fetch-IsTraffic}
use industry_dashboard.Api.Recovery.{Session, api_fetch-ne-401}
use industry_dashboard.Api.Json.{value, thrown, server_text, json_headers, fetch_json, mutate_json}
use industry_dashboard.Api.Results.{fetch_json-value_iff, mutate_json-server_text}

-- The state says whether the access token is live; the refresh token always is.
abbrev toy : Request → Bool → Fetched × Bool
toy r live =
    if r.url == codes "/api/auth/refresh"
    then (response (record { status = 200; text = [] }), true)
    else if live
    then (response (record { status = 200; text = codes "7" }), true)
    else (response (record { status = 401; text = [] }), false)

abbrev expired : World Bool
expired = record { server = false; log = [] }

abbrev sites_request : Request
sites_request = record {
  url = codes "/api/sites";
  options = record no_options { credentials = "include" };
}

expired_test :
    (api_fetch toy (codes "/sites") no_options expired).1.log
    ≡ sites_request ∷ refresh_request ∷ sites_request ∷ []
unfolding api_fetch skips_refresh
expired_test = refl

login_test :
    (api_fetch toy (codes "/auth/login/local") no_options expired).0
    ≡ response (record { status = 401; text = [] })
unfolding api_fetch skips_refresh
login_test = refl

api_fetch-IsTraffic_example :
    let r = api_request (codes "/sites") no_options in
    let first = toy r false in
    let refreshed = toy refresh_request first.1 in
    (sent : List Request) × ((api_fetch toy (codes "/sites") no_options expired).1.log ≡ [] ++ sent)
    × IsTraffic r
        (skips_refresh (codes "/sites"))
        first.0
        refreshed.0
        (toy r refreshed.1).0
        (api_fetch toy (codes "/sites") no_options expired).0
        sent
api_fetch-IsTraffic_example = api_fetch-IsTraffic toy (codes "/sites") no_options expired

toy-live :
    (r : Request) (s : Bool) (q : Response)
    → s ≡ true
    → (toy r s).0 ≡ response q
    → (q.status == 401) ≡ false
toy-live r s q live e = ground arith

toy-refresh :
    (s : Bool) (q : Response)
    → (toy refresh_request s).0 ≡ response q
    → (is_ok q ≡ true) × ((toy refresh_request s).1 ≡ true)
toy-refresh s q e = ground arith

toy_session : Session toy
toy_session = record {
  live = λ s. s;
  renewable = λ s. true;
  live_lem = λ path options s q open_path live e. toy-live (api_request path options) s q live e;
  refused_lem = λ path options s q e h. refl;
  refresh_lem = λ s q good e. toy-refresh s q e;
}

abbrev seven : Response
seven = record { status = 200; text = codes "7" }

expired_answer : (api_fetch toy (codes "/sites") no_options expired).0 ≡ response seven
unfolding api_fetch skips_refresh
expired_answer = refl

sites_refreshes : skips_refresh (codes "/sites") ≡ false
unfolding skips_refresh
sites_refreshes = refl

sites_renewable : toy_session.renewable false ≡ true
unfolding toy_session
sites_renewable = refl

api_fetch-ne-401_example : (seven.status == 401) ≡ false
api_fetch-ne-401_example =
    api_fetch-ne-401 toy toy_session (codes "/sites") no_options expired seven sites_refreshes
      sites_renewable expired_answer

-- A parser of one-digit numbers.
abbrev digit : Codes → Option ℕ
digit [] = none
digit (c ∷ s) = if s == [] then some (c - b'0') else none

fetch_json-value_iff_example : ((fetch_json digit toy (codes "/sites") expired).0 ≡ value 7) ↔ (
    (r : Response) × ((api_fetch toy (codes "/sites") no_options expired).0 ≡ response r)
    × (200 ≤ r.status)
    × (r.status ≤ 299)
    × (digit r.text ≡ some 7))
fetch_json-value_iff_example = fetch_json-value_iff digit toy (codes "/sites") expired 7

-- A server that refuses every request with a message, or without one.
abbrev stern : ℕ → Codes → Request → Bool → Fetched × Bool
stern status text r s = (response (record { status = status; text = text }), s)

refused_message :
    (mutate_json digit (stern 400 (codes " in use\n")) (codes "/alerts") no_options expired).0
    ≡ thrown (server_text (codes "in use"))
unfolding mutate_json api_fetch skips_refresh trim
refused_message = refl

mutate_json-server_text_example :
    (is_empty (codes "in use") ≡ false)
    × (trim (codes "in use") ≡ codes "in use")
    × ((r : Response) × ((api_fetch
            (stern 400 (codes " in use\n"))
            (codes "/alerts")
            (record no_options { headers = json_headers [] })
            expired).0
          ≡ response r)
        × (is_ok r ≡ false)
        × (trim r.text ≡ codes "in use"))
mutate_json-server_text_example =
    mutate_json-server_text digit (stern 400 (codes " in use\n")) (codes "/alerts") no_options
      expired (codes "in use") refused_message
