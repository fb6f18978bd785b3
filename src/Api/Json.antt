-- ===== src/Api/Json.antt =====
-- `fetchJSON` and `mutateJSON` of frontend/src/lib/hooks.ts. `JSON.parse` is the parameter `parse`.
use industry_dashboard.Base.{
  ℕ, Bool, not, List, ◌∷◌, String, Option, none, some, Codes, ◌==◌, nat_eq, string_eq, trim,
  is_empty, any, if◌then◌else◌,
}
use industry_dashboard.Api.{
  RequestInit, Request, Fetched, response, rejected, World, is_ok, no_options, api_fetch,
}

-- What an `Error` of this layer says.
pub data Error : Type 0 where
  -- the network failed
  network : Error
  -- `API error: ${res.status}`
  api_error : ℕ → Error
  -- `Request failed: ${res.status}`
  request_failed : ℕ → Error
  -- the text that the server sent
  server_text : Codes → Error
  -- the body is no JSON
  bad_json : Error

pub data Outcome {ℓ} (A : Type ℓ) : Type ℓ where
  value : A → Outcome A
  thrown : Error → Outcome A

abbrev has_key : String → List (String × String) → Bool
has_key k hs = any (λ h. h.0 == k) hs

-- `{ 'Content-Type': 'application/json', ...options.headers }`
pub json_headers : List (String × String) → List (String × String)
json_headers hs =
    if has_key "Content-Type" hs then hs else ("Content-Type", "application/json") ∷ hs

module _ {J : Type 0} (parse : Codes → Option J) where
  -- `res.json()`
  pub json : Codes → Outcome J
  json text = elim (parse text) [ none ↦ thrown bad_json | some j ↦ value j ]

  unfoldable pub read_fetched : Fetched → Outcome J
  unfolding json
  read_fetched rejected = thrown network
  read_fetched (response r) = if is_ok r then json r.text else thrown (api_error r.status)

  -- `none` is `undefined`
  unfoldable pub read_mutated : Fetched → Outcome (Option J)
  read_mutated rejected = thrown network
  read_mutated (response r) =
      let text = trim r.text in
      if not (is_ok r)
      then thrown (if is_empty text then request_failed r.status else server_text text)
      else if r.status == 204
      then value none
      else elim (parse r.text) [ none ↦ thrown bad_json | some j ↦ value (some j) ]

  module _ {S : Type 0} (fetch : Request → S → Fetched × S) where
    unfoldable pub fetch_json : Codes → World S → Outcome J × World S
    unfolding read_fetched
    fetch_json path w = let (f, w') = api_fetch fetch path no_options w in (read_fetched f, w')

    unfoldable pub mutate_json : Codes → RequestInit → World S → Outcome (Option J) × World S
    unfolding read_mutated json_headers
    mutate_json path options w =
        let (f, w') =
          api_fetch fetch path (record options { headers = json_headers options.headers }) w in
        (read_mutated f, w')
