-- ===== src/Api/Recovery.antt =====
-- `apiFetch` against a server that keeps a session: an access token that runs out and a refresh token
-- that renews it.
use industry_dashboard.Base.{
  ◌≡◌, inl, inr, ◌∙◌, Bool, true, false, Codes, arith, ◌==◌, nat_eq, Bool-cases,
}
use industry_dashboard.Api.{
  RequestInit, Request, Response, Fetched, Fetched-cases, response, World, is_ok, skips_refresh,
  api_request, refresh_request, send, after_refresh, api_fetch,
}

-- What the server's cookies promise.
pub record Session {S : Type 0} (fetch : Request → S → Fetched × S) : Type 0 where
  pub live : S → Bool
  pub renewable : S → Bool
  -- While the access token is live no path that may be refreshed is answered by a 401.
  pub live_lem :
      (path : Codes) (options : RequestInit) (s : S) (q : Response)
      → skips_refresh path ≡ false
      → live s ≡ true
      → (fetch (api_request path options) s).0 ≡ response q
      → (q.status == 401) ≡ false
  -- A request that is answered by a 401 leaves the refresh token as it is.
  pub refused_lem :
      (path : Codes) (options : RequestInit) (s : S) (q : Response)
      → (fetch (api_request path options) s).0 ≡ response q
      → (q.status == 401) ≡ true
      → renewable (fetch (api_request path options) s).1 ≡ renewable s
  -- A refresh with a good refresh token succeeds, if it is answered, and gives a live access token.
  pub refresh_lem :
      (s : S) (q : Response)
      → renewable s ≡ true
      → (fetch refresh_request s).0 ≡ response q
      → (is_ok q ≡ true) × (live (fetch refresh_request s).1 ≡ true)

module _ {S : Type 0} (fetch : Request → S → Fetched × S) (v : Session fetch) where
  after_refresh-ne-401 :
      (path : Codes) (options : RequestInit) (first : Response) (w : World S) (q : Response)
      → skips_refresh path ≡ false
      → v.renewable w.server ≡ true
      → (after_refresh fetch (api_request path options) first (send fetch refresh_request w)).0
        ≡ response q
      → (q.status == 401) ≡ false
  unfolding after_refresh
  after_refresh-ne-401 path options first w q open_path good e =
      elim (Fetched-cases (fetch refresh_request w.server).0) [
        | inl failed ↦ ground arith
        | inr (q', refreshed) ↦
            let (ok_q, live) = v.refresh_lem w.server q' good refreshed in
            v.live_lem path options (fetch refresh_request w.server).1 q open_path live
              (ground arith)
      ]

  -- With a good refresh token no call of a path that may be refreshed ends in a 401, whether or not
  -- the access token was live.
  pub api_fetch-ne-401 :
      (path : Codes) (options : RequestInit) (w : World S) (q : Response)
      → skips_refresh path ≡ false
      → v.renewable w.server ≡ true
      → (api_fetch fetch path options w).0 ≡ response q
      → (q.status == 401) ≡ false
  unfolding api_fetch
  api_fetch-ne-401 path options w q open_path good e =
      elim (Fetched-cases (fetch (api_request path options) w.server).0) [
        | inl failed ↦ ground arith
        | inr (first, answered) ↦ elim (Bool-cases (first.status == 401)) [
          | inr other ↦ ground arith
          | inl unauthorized ↦
              let asked = send fetch (api_request path options) w in
              after_refresh-ne-401 path options first asked.1 q open_path
                (v.refused_lem path options w.server first answered unauthorized ∙ good)
                (ground arith)
        ]
      ]
