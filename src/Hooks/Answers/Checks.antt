-- ===== src/Hooks/Answers/Checks.antt =====
-- Which answers a mutation of frontend/src/lib/hooks.ts takes for a success.
use industry_dashboard.Base.{
  ◌≤◌, ◌≡◌, ◌⊎◌, inl, inr, true, false, [], Option, Codes, arith, Bool-cases,
}
use industry_dashboard.Api.{Request, Response, Fetched, response, World, api_fetch}
use industry_dashboard.Hooks.Mutations.{Action, mutation_of}
use industry_dashboard.Hooks.Answers.{
  is_success, checks_status, sent_options, settle, settle-checked, settled_keys, run_mutation,
}

module _ {J S : Type 0} (parse : Codes → Option J) (fetch : Request → S → Fetched × S) where
  module _ {N : Type 0} (print : N → Codes) where
    -- An action whose hook looks at the status either ends in a success, and then invalidates the keys of the
    -- hook after a response with a status from 200 to 299, or ends in an error and invalidates nothing.
    pub run_mutation-checked :
        (a : Action N) (w : World S)
        → let m = mutation_of print a in
          let (s, _, keys) = run_mutation parse fetch m w in
          checks_status m.reader ≡ true
          → ((is_success s ≡ true)
              × (keys ≡ m.invalidated)
              × ((r : Response) × ((api_fetch fetch m.path (sent_options m) w).0 ≡ response r)
                  × (200 ≤ r.status)
                  × (r.status ≤ 299)))
            ⊎ ((is_success s ≡ false) × (keys ≡ []))
    unfolding run_mutation settled_keys
    run_mutation-checked a w c =
        let m = mutation_of print a in
        let f = (api_fetch fetch m.path (sent_options m) w).0 in
        elim (Bool-cases (is_success (settle parse m.reader f))) [
          | inr bad ↦ inr (bad, ground arith)
          | inl good ↦
              let (r, answered, ok) = settle-checked parse m.reader f c good in
              inl (good, ground arith, (r, answered, ground arith, ground arith))
        ]
