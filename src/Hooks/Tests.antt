-- ===== src/Hooks/Tests.antt =====
-- Runs of the hooks on small inputs.
use industry_dashboard.Base.{
  ◌≤◌, ◌≡◌, ◌⊎◌, refl, Bool, true, false, ◌&&◌, List, [], ◌∷◌, ◌++◌, Option, some, Codes, codes,
  ◌==◌, codes_eq, nat_eq, ==_refl,
}
use industry_dashboard.Api.{Request, Response, Fetched, response, World, api_fetch}
use industry_dashboard.Hooks.{Query, Part, text, fields, undefined, key_named}
use industry_dashboard.Hooks.Json.{no_fields}
use industry_dashboard.Hooks.Queries
use industry_dashboard.Hooks.Queries.{query_of}
use industry_dashboard.Hooks.Forms.{first_part, query_of_same_key}
use industry_dashboard.Hooks.Mutations
use industry_dashboard.Hooks.Mutations.{Action, mutation_of}
use industry_dashboard.Hooks.Answers.{is_success, sent_options, run_mutation}
use industry_dashboard.Hooks.Answers.Checks.{run_mutation-checked}
use industry_dashboard.Hooks.Plant.{use_latest_values}
use industry_dashboard.Hooks.Widgets.{indicator_latest_query}
use industry_dashboard.Hooks.Sent.{use_delete_machine}
use industry_dashboard.Hooks.Facts.{touches}
use industry_dashboard.Hooks.Pages
use industry_dashboard.Hooks.Staleness.{QueryClient, is_stale}
use industry_dashboard.Hooks.Staleness.Marks.{is_stale-touches}
use industry_dashboard.Hooks.Download.{
  download, saved, disposition, export_name, download-disposition,
}

abbrev digits : Codes → Codes
digits s = s

abbrev answers : Response → Request → Bool → Fetched × Bool
answers r q s = (response r, s)

abbrev world : World Bool
world = record { server = true; log = [] }

abbrev parsed : Codes → Option Codes
parsed s = some s

abbrev refused : Response
refused = record { status = 403; text = codes "forbidden" }

abbrev fine : Response
fine = record { status = 200; text = codes "[]" }

same_part : Part → Part → Bool
same_part (text a) (text b) = a == b
same_part (fields a) (fields b) = true
same_part undefined undefined = true
same_part _ _ = false

matches_prefix : List Part → List Part → Bool
unfolding same_part
matches_prefix [] k = true
matches_prefix (p ∷ f) [] = false
matches_prefix (p ∷ f) (q ∷ k) = same_part p q && matches_prefix f k

matches_prefix-append : (f rest : List Part) → matches_prefix f (f ++ rest) ≡ true
unfolding matches_prefix same_part
matches_prefix-append [] rest = refl
matches_prefix-append (text a ∷ f) rest = rw (==_refl a, matches_prefix-append f rest) refl
matches_prefix-append (fields a ∷ f) rest = matches_prefix-append f rest
matches_prefix-append (undefined ∷ f) rest = matches_prefix-append f rest

-- a client that compares the parts of the keys one by one
abbrev client : QueryClient
unfolding matches_prefix same_part
client = record {
  matches = matches_prefix;
  prefix_lem = matches_prefix-append;
  name_lem = λ a b f k e. rw e refl;
}

abbrev values_query : Query
values_query = query_of 5000 (Queries.latest_values (some (codes "m")))

abbrev gauge_query : Query
gauge_query = query_of 5000 (Queries.indicator_latest (some (codes "m")))

query_of_same_key_example :
    (values_query.path ≡ gauge_query.path)
    × ((values_query.result ≡ gauge_query.result)
        ⊎ (first_part values_query.query_key ≡ some (key_named "datapoints")))
unfolding query_of use_latest_values indicator_latest_query
query_of_same_key_example =
    query_of_same_key 5000 (Queries.latest_values (some (codes "m")))
      (Queries.indicator_latest (some (codes "m"))) refl

abbrev removal : Action Codes
removal = Mutations.delete_machine (codes "m")

run_mutation-checked_example :
    let m = mutation_of digits removal in
    let (s, _, keys) = run_mutation parsed (answers refused) m world in
    ((is_success s ≡ true)
      × (keys ≡ m.invalidated)
      × ((r : Response) × ((api_fetch (answers refused) m.path (sent_options m) world).0
            ≡ response r)
          × (200 ≤ r.status)
          × (r.status ≤ 299)))
    ⊎ ((is_success s ≡ false) × (keys ≡ []))
unfolding mutation_of use_delete_machine
run_mutation-checked_example =
    run_mutation-checked parsed (answers refused) digits removal world refl

is_stale-touches_example :
    is_stale client
      (mutation_of digits (Mutations.create_line (codes "s") no_fields))
      (query_of 5000 Queries.admin_sites)
    ≡ false
unfolding touches
is_stale-touches_example =
    is_stale-touches client digits 5000 (Pages.sites_page (codes "s")) Queries.admin_sites
      (Mutations.create_line (codes "s") no_fields) Pages.sites_admin_sites Pages.sites_create_line
      refl

download-disposition_example :
    download (response fine) (some (disposition (codes "line 1")))
    ≡ saved (export_name (codes "line 1")) (codes "[]")
download-disposition_example = download-disposition (codes "line 1") fine
