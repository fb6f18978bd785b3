-- ===== src/Api/Shape.antt =====
-- Which requests one call of `apiFetch` sends.
use industry_dashboard.Base.{
  ◌≡◌, refl, sym, ◌⊎◌, inl, inr, ◌∙◌, Bool, true, false, List, [], ◌∷◌, ◌++◌, Codes, append_assoc,
  append-nil, arith, ◌==◌, nat_eq, Bool-cases,
}
use industry_dashboard.Api.{
  RequestInit, Request, Response, Fetched, Fetched-cases, response, rejected, World, is_ok,
  skips_refresh, api_request, refresh_request, send, after_refresh, after_first, api_fetch,
}

abbrev is_401 : Fetched → Bool
is_401 (response q) = q.status == 401
is_401 rejected = false

abbrev is_good : Fetched → Bool
is_good (response q) = is_ok q
is_good rejected = false

-- the refresh that is not good: the call ends in its failure, or in the first answer
abbrev refused_or : Fetched → Fetched → Fetched
refused_or rejected first = rejected
refused_or (response q) first = first

-- A call that ends in `last`, by the answers to its first request, to the refresh and to the request once more, each
-- in the state that the one before leaves: the request alone, if its answer is no 401 or may not be refreshed; with
-- a refresh, if that is not good; with a refresh that is good and the request once more.
abbrev pub IsTraffic :
    Request → Bool → Fetched → Fetched → Fetched → Fetched → List Request → Type 0
IsTraffic r skip first refreshed again last sent =
    ((sent ≡ r ∷ []) × (last ≡ first) × ((skip ≡ true) ⊎ (is_401 first ≡ false)))
    ⊎ ((sent ≡ r ∷ refresh_request ∷ [])
        × (last ≡ refused_or refreshed first)
        × (skip ≡ false)
        × (is_401 first ≡ true)
        × (is_good refreshed ≡ false))
    ⊎ ((sent ≡ r ∷ refresh_request ∷ r ∷ [])
        × (last ≡ again)
        × (skip ≡ false)
        × (is_401 first ≡ true)
        × (is_good refreshed ≡ true))

module _ {S : Type 0} (fetch : Request → S → Fetched × S) where
  after_refresh-log :
      (r : Request) (first : Response) (a : Fetched) (w : World S)
      → let end = after_refresh fetch r first (a, w) in
        ((end.1.log ≡ w.log) × (end.0 ≡ refused_or a (response first)) × (is_good a ≡ false))
        ⊎ ((end.1.log ≡ w.log ++ r ∷ []) × (end.0 ≡ (fetch r w.server).0) × (is_good a ≡ true))
  unfolding after_refresh send
  after_refresh-log r first rejected w = inl (refl, refl, refl)
  after_refresh-log r first (response q) w = elim (Bool-cases (is_ok q)) [
    | inl good ↦ rw good (inr (refl, refl, refl))
    | inr bad ↦ rw bad (inl (refl, refl, refl))
  ]

  after_first-IsTraffic :
      (r : Request) (skip : Bool) (first : Fetched) (w : World S)
      → let refreshed = fetch refresh_request w.server in
        let end = after_first fetch r skip (first, w) in
        (sent : List Request) × (end.1.log ≡ w.log ++ sent)
        × IsTraffic r skip first refreshed.0 (fetch r refreshed.1).0 end.0 (r ∷ sent)
  unfolding after_first send
  after_first-IsTraffic r skip rejected w = ([], sym (append-nil w.log), inl (refl, refl, inr refl))
  after_first-IsTraffic r true (response q) w = elim (Bool-cases (q.status == 401)) [
    | inl unauthorized ↦
        ([], rw unauthorized (sym (append-nil w.log)), rw unauthorized (inl (refl, refl, inl refl)))
    | inr other ↦ ([], rw other (sym (append-nil w.log)), rw other (inl (refl, refl, inl refl)))
  ]
  after_first-IsTraffic r false (response q) w = elim (Bool-cases (q.status == 401)) [
    | inr other ↦ ([], rw other (sym (append-nil w.log)), rw other (inl (refl, refl, inr refl)))
    | inl unauthorized ↦
        let asked = send fetch refresh_request w in
        elim (after_refresh-log r q asked.0 asked.1) [
          | inl (log, last, bad) ↦ (
            refresh_request ∷ [],
            rw unauthorized log,
            rw unauthorized (inr (inl (refl, last, refl, refl, bad))),
          )
          | inr (log, last, good) ↦ (
            refresh_request ∷ r ∷ [],
            rw unauthorized (log ∙ append_assoc w.log (refresh_request ∷ []) (r ∷ [])),
            rw unauthorized (inr (inr (refl, last, refl, refl, good))),
          )
        ]
  ]

  -- A call adds one of three traffics to the log, by the answers of the server: the request alone, and its
  -- answer is that of the call, if it is no 401 or the path is a credential endpoint; the request and a refresh,
  -- if the answer is a 401, the path is no credential endpoint and the refresh fails or its status is not from
  -- 200 to 299, and the call ends in that failure or in the 401; the request, a refresh and the request once
  -- more, if the status of the refresh is from 200 to 299, and the call ends in the answer to the last.
  pub api_fetch-IsTraffic :
      (path : Codes) (options : RequestInit) (w : World S)
      → let r = api_request path options in
        let first = fetch r w.server in
        let refreshed = fetch refresh_request first.1 in
        (sent : List Request) × ((api_fetch fetch path options w).1.log ≡ w.log ++ sent)
        × IsTraffic r
            (skips_refresh path)
            first.0
            refreshed.0
            (fetch r refreshed.1).0
            (api_fetch fetch path options w).0
            sent
  unfolding api_fetch after_first send
  api_fetch-IsTraffic path options w =
      let r = api_request path options in
      let asked = send fetch r w in
      let (sent, e, c) = after_first-IsTraffic r (skips_refresh path) asked.0 asked.1 in
      (r ∷ sent, e ∙ append_assoc w.log (r ∷ []) sent, c)

  -- A credential endpoint's call is one request.
  pub api_fetch_alone :
      (path : Codes) (options : RequestInit) (w : World S)
      → skips_refresh path ≡ true
      → (api_fetch fetch path options w).1.log ≡ w.log ++ api_request path options ∷ []
  unfolding api_fetch
  api_fetch_alone path options w skip =
      elim (Fetched-cases (fetch (api_request path options) w.server).0) [
        | inl failed ↦ ground arith
        | inr (q, answered) ↦ ground arith
      ]
