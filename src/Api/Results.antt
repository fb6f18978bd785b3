-- ===== src/Api/Results.antt =====
-- What the callers of `fetchJSON` and `mutateJSON` can rely on.
use industry_dashboard.Base.{
  ◌≤◌, ◌≡◌, ◌↔◌, inl, inr, refl, true, false, Option, none, some, Codes, arith, nat_eq, Bool-cases,
  trim, trim_idem, is_empty,
}
use industry_dashboard.Api.{
  RequestInit, Request, Response, Fetched, response, rejected, World, is_ok, no_options, api_fetch,
}
use industry_dashboard.Api.Json.{
  server_text, value, thrown, json_headers, read_fetched, read_mutated, fetch_json, mutate_json,
}

module _ {J : Type 0} (parse : Codes → Option J) where
  read_fetched-value :
      (f : Fetched) (j : J)
      → read_fetched parse f ≡ value j
      → (r : Response) × (f ≡ response r) × (is_ok r ≡ true) × (parse r.text ≡ some j)
  unfolding read_fetched
  read_fetched-value rejected j e = cc
  read_fetched-value (response r) j e = (r, refl, ground arith, ground arith)

  read_fetched_of_ok :
      (r : Response) (j : J)
      → is_ok r ≡ true
      → parse r.text ≡ some j
      → read_fetched parse (response r) ≡ value j
  unfolding read_fetched
  read_fetched_of_ok r j h p = ground arith

  read_mutated-server_text :
      (f : Fetched) (t : Codes)
      → read_mutated parse f ≡ thrown (server_text t)
      → (is_empty t ≡ false)
        × (trim t ≡ t)
        × ((r : Response) × (f ≡ response r) × (is_ok r ≡ false) × (trim r.text ≡ t))
  unfolding read_mutated
  read_mutated-server_text rejected t e = cc
  read_mutated-server_text (response r) t e = elim (Bool-cases (is_ok r)) [
    | inl good ↦ ground arith
    | inr bad ↦
        let same : trim r.text ≡ t = ground arith in
        (ground arith, rw same at (trim_idem r.text), (r, refl, bad, same))
  ]

  read_mutated-none_iff :
      (f : Fetched)
      → (read_mutated parse f ≡ value none) ↔ ((r : Response) × (f ≡ response r) × (r.status ≡ 204))
  unfolding read_mutated
  read_mutated-none_iff rejected = (λ e. cc, λ (r, f, s). cc)
  read_mutated-none_iff (response r) = (λ e. (r, refl, ground arith), λ (q, f, s). ground arith)

  module _ {S : Type 0} (fetch : Request → S → Fetched × S) where
    -- `fetchJSON` returns a value exactly if the call ends in a response with a status from 200 to 299
    -- whose body parses to that value.
    pub fetch_json-value_iff :
        (path : Codes) (w : World S) (j : J)
        → ((fetch_json parse fetch path w).0 ≡ value j) ↔ (
            (r : Response) × ((api_fetch fetch path no_options w).0 ≡ response r)
            × (200 ≤ r.status)
            × (r.status ≤ 299)
            × (parse r.text ≡ some j))
    unfolding fetch_json
    fetch_json-value_iff path w j = (
      λ e.
          let (r, f, good, p) = read_fetched-value (api_fetch fetch path no_options w).0 j e in
          (r, f, ground arith, ground arith, p),
      λ (r, f, lo, hi, p). rw f (read_fetched_of_ok r j (ground arith) p),
    )

    -- An error of `mutateJSON` that quotes the server is a text that is not empty and has no white space
    -- at its ends, the trimmed body of a response with a failing status.
    pub mutate_json-server_text :
        (path : Codes) (options : RequestInit) (w : World S) (t : Codes)
        → (mutate_json parse fetch path options w).0 ≡ thrown (server_text t)
        → (is_empty t ≡ false)
          × (trim t ≡ t)
          × ((r : Response) × ((api_fetch fetch path
                  (record options { headers = json_headers options.headers })
                  w).0
                ≡ response r)
              × (is_ok r ≡ false)
              × (trim r.text ≡ t))
    unfolding mutate_json
    mutate_json-server_text path options w t e = read_mutated-server_text _ t e

    -- `mutateJSON` returns `undefined` exactly if the call ends in a 204.
    pub mutate_json-none_iff :
        (path : Codes) (options : RequestInit) (w : World S)
        → ((mutate_json parse fetch path options w).0 ≡ value none) ↔ (
            (r : Response) × ((api_fetch fetch path
                (record options { headers = json_headers options.headers })
                w).0
              ≡ response r)
            × (r.status ≡ 204))
    unfolding mutate_json
    mutate_json-none_iff path options w = read_mutated-none_iff _
