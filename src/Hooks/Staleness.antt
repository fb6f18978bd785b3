-- ===== src/Hooks/Staleness.antt =====
-- Which queries are marked as stale after a mutation.
pub mod Plant
pub mod Accounts
pub mod Marks
use industry_dashboard.Base.{
  ℕ, ◌≡◌, refl, inl, inr, Bool, true, false, not, ◌==◌, codes_eq, List, [], ◌∷◌, ◌++◌, Option, none,
  some, Codes, codes, any, Bool-cases,
}
use industry_dashboard.Hooks.{Part, Query, Mutation, text, key_named, params_part}
use industry_dashboard.Hooks.Queries
use industry_dashboard.Hooks.Queries.{Hook, query_of}
use industry_dashboard.Hooks.Mutations
use industry_dashboard.Hooks.Mutations.{Action, mutation_of}
use industry_dashboard.Hooks.Pages
use industry_dashboard.Hooks.Pages.{Page, Shown, Offered}
use industry_dashboard.Hooks.Facts.{reads, writes, touches}

-- What `invalidateQueries` of React Query promises of the keys that it marks: a query is marked if the given
-- key is a prefix of its own, and is not if their names differ.
pub record QueryClient : Type 0 where
  pub matches : List Part → List Part → Bool
  pub prefix_lem : (f rest : List Part) → matches f (f ++ rest) ≡ true
  pub name_lem :
      (a b : Codes) (f k : List Part) → (a == b) ≡ false → matches (text a ∷ f) (text b ∷ k) ≡ false

-- the pairs of a mutation and a query that the code leaves out
abbrev pub is_left : {N : Type 0} → Action N → Hook → Bool
is_left (Mutations.create_line _ _) Queries.admin_sites = true
is_left (Mutations.create_machine _ _) Queries.admin_sites = true
is_left (Mutations.delete_site _) (Queries.site_detail _) = true
is_left (Mutations.delete_site _) (Queries.dashboards _) = true
is_left (Mutations.delete_dashboard _) (Queries.dashboard_access _) = true
is_left (Mutations.assign_role _) (Queries.dashboards _) = true
is_left (Mutations.remove_role_assignment _) (Queries.dashboards _) = true
is_left (Mutations.set_machine_registers _ _) (Queries.worker_config _) = true
is_left (Mutations.set_dashboard_access _ _) (Queries.dashboards _) = true
is_left (Mutations.set_dashboard_access _ _) (Queries.dashboard _) = true
is_left _ _ = false

module _ (client : QueryClient) where
  -- one of the invalidated keys matches
  pub is_stale : Mutation → Query → Bool
  is_stale m q = any (λ k. client.matches k q.query_key) m.invalidated

  pub stale_first :
      (m : Mutation) (q : Query) (rest : List Part) {f : List Part} {more : List (List Part)}
      → m.invalidated ≡ f ∷ more
      → q.query_key ≡ f ++ rest
      → is_stale m q ≡ true
  unfolding is_stale
  stale_first m q rest {f} {more} e k = rw (e, k, client.prefix_lem f rest) refl

  pub stale_second :
      (m : Mutation) (q : Query) (rest : List Part) {g f : List Part} {more : List (List Part)}
      → m.invalidated ≡ g ∷ f ∷ more
      → q.query_key ≡ f ++ rest
      → is_stale m q ≡ true
  unfolding is_stale
  stale_second m q rest {g} {f} {more} e k = elim (Bool-cases (client.matches g (f ++ rest))) [
    | inl hit ↦ rw (e, k, hit) refl
    | inr other ↦ rw (e, k, other, client.prefix_lem f rest) refl
  ]

  pub not_stale :
      (m : Mutation) (q : Query) {a b : Codes} {f k : List Part}
      → m.invalidated ≡ (text a ∷ f) ∷ []
      → q.query_key ≡ text b ∷ k
      → (a == b) ≡ false
      → is_stale m q ≡ false
  unfolding is_stale
  not_stale m q {a} {b} {f} {k} e e' d = rw (e, e', client.name_lem a b f k d) refl
