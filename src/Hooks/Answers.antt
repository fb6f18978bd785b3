-- ===== src/Hooks/Answers.antt =====
-- How the functions of the mutations of frontend/src/lib/hooks.ts read the answer, and when their
-- `onSuccess` runs. `JSON.parse` is the parameter `parse`.
pub mod Checks
use industry_dashboard.Base.{
  ◌≤◌, ◌≡◌, ◌⊎◌, inl, inr, refl, Bool, true, false, List, [], String, Option, none, some, Codes,
  codes, arith, if◌then◌else◌, Bool-cases,
}
use industry_dashboard.Api.{
  RequestInit, Request, Response, Fetched, Fetched-cases, response, rejected, World, is_ok,
  api_fetch,
}
use industry_dashboard.Api.Json
use industry_dashboard.Api.Json.{
  Outcome, Error, value, thrown, network, json, json_headers, read_mutated,
}
use industry_dashboard.Hooks.{
  Mutation, Part, Reader, mutate_json, any_response, any_json, fixed_error, text_error,
}
use industry_dashboard.Hooks.Mutations.{Action, mutation_of}

-- What a mutation ends in: a value (`none` is `undefined`), the response itself, an error of the layer
-- below, or an error with the message of the hook.
pub data Settled (J : Type 0) : Type 0 where
  json_value : Option J → Settled J
  response_value : Response → Settled J
  failed : Error → Settled J
  failed_with : Codes → Settled J

module _ {J : Type 0} where
  abbrev pub is_success : Settled J → Bool
  is_success (json_value v) = true
  is_success (response_value r) = true
  is_success (failed e) = false
  is_success (failed_with t) = false

  of_outcome : Outcome (Option J) → Settled J
  of_outcome (value v) = json_value v
  of_outcome (thrown e) = failed e

  of_json : Outcome J → Settled J
  of_json (value v) = json_value (some v)
  of_json (thrown e) = failed e

  -- `onSuccess` runs only where the function of the mutation resolves.
  pub settled_keys : Mutation → Settled J → List (List Part)
  settled_keys m s = if is_success s then m.invalidated else []

-- the readers that look at the status of the answer
abbrev pub checks_status : Reader → Bool
checks_status mutate_json = true
checks_status any_response = false
checks_status any_json = false
checks_status (fixed_error message) = true
checks_status text_error = true

-- what the function of the mutation passes to `apiFetch`
pub sent_options : Mutation → RequestInit
sent_options m = elim m.reader [
  | mutate_json ↦ record m.options { headers = json_headers m.options.headers }
  | _ ↦ m.options
]

module _ {J : Type 0} (parse : Codes → Option J) where
  pub settle : Reader → Fetched → Settled J
  unfolding of_outcome of_json
  settle reader rejected = failed network
  settle mutate_json (response r) = of_outcome (read_mutated parse (response r))
  settle any_response (response r) = response_value r
  settle any_json (response r) = of_json (json parse r.text)
  settle (fixed_error message) (response r) =
      if is_ok r then of_json (json parse r.text) else failed_with (codes message)
  settle text_error (response r) =
      if is_ok r then of_json (json parse r.text) else failed_with r.text

  module _ {S : Type 0} (fetch : Request → S → Fetched × S) where
    -- the result, the world after it and the keys that are invalidated
    unfoldable pub run_mutation : Mutation → World S → Settled J × World S × List (List Part)
    unfolding settle settled_keys sent_options
    run_mutation m w =
        let (f, w') = api_fetch fetch m.path (sent_options m) w in
        let s = settle m.reader f in (s, w', settled_keys m s)

  pub settle-checked :
      (reader : Reader) (f : Fetched)
      → checks_status reader ≡ true
      → is_success (settle reader f) ≡ true
      → (r : Response) × (f ≡ response r) × (is_ok r ≡ true)
  unfolding settle of_outcome read_mutated
  settle-checked reader rejected c h = cc
  settle-checked mutate_json (response r) c h = elim (Bool-cases (is_ok r)) [
    | inl good ↦ (r, refl, good)
    | inr bad ↦ ground arith
  ]
  settle-checked any_response (response r) c h = cc
  settle-checked any_json (response r) c h = cc
  settle-checked (fixed_error message) (response r) c h = (r, refl, ground arith)
  settle-checked text_error (response r) c h = (r, refl, ground arith)
