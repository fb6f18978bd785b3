-- ===== src/Charts/Tests.antt =====
-- Line charts at concrete sources, and the theorems at them. Values are numbers; the cache of the second
-- chart has one entry, which the first of two sources with its key made.
use industry_dashboard.Base.{
  ℕ, ◌≡◌, ◌≢◌, ◌⊎◌, inl, inr, refl, String, List, [], ◌∷◌, Option, none, some, codes, ◌==◌,
  codes_eq, string_eq, ◌&&◌, ==_iff, arith, if◌then◌else◌, Bool-cases, ℤ, pos,
}
use industry_dashboard.Charts.LineChart.{
  DataSource, Key, Point, Result, resolve_data_sources, merge, value_at,
}
use industry_dashboard.Charts.LineChart.Merge.{points_of, last_at}
use industry_dashboard.Charts.LineChart.Ordered.{chart_data, value_at-chart_data}
use industry_dashboard.Base.Sorting.{IsSorted}
use industry_dashboard.Charts.LineChart.Shared.{IsCache, IsEmptyLine, merge-shared}

abbrev temp : String → DataSource
temp id = record { id = codes id; machine_id = "m1"; metric = "temp"; color = ""; label = "" }

abbrev point : String → ℕ → Point ℕ
point t v = record { time = t; value = v }

abbrev results : List (Result ℕ)
results = (temp "a", point "10:00" 1 ∷ point "10:05" 2 ∷ []) ∷ (temp "b", point "10:05" 7 ∷ []) ∷ []

merge_test :
    merge results []
    ≡ ("10:00", (codes "a", 1) ∷ []) ∷ ("10:05", (codes "a", 2) ∷ (codes "b", 7) ∷ []) ∷ []
unfolding merge
merge_test = refl

legacy_test :
    resolve_data_sources (record {
      data_sources = none;
      machine_id = some "m1";
      metrics = some ("temp" ∷ []);
      metric_styles = none;
    })
    ≡ record {
      id = codes "legacy-0";
      machine_id = "m1";
      metric = "temp";
      color = "#3b82f6";
      label = "temp";
    }
      ∷ []
unfolding resolve_data_sources
legacy_test = refl

-- the times of the points, in minutes
abbrev minutes : String → ℤ
minutes t = if t == "10:05" then pos 605 else pos 600

value_at-chart_data_example :
    IsSorted (λ row. minutes row.0) (chart_data minutes results)
    × (value_at "10:05" (codes "b") (chart_data minutes results)
        ≡ last_at "10:05" (points_of (codes "b") results) none)
value_at-chart_data_example = value_at-chart_data minutes "10:05" (codes "b") results

abbrev sources : List DataSource
sources = temp "a" ∷ temp "b" ∷ []

abbrev entry : Key → Option (Result ℕ)
entry (machine, metric) =
    if machine == "m1" && metric == "temp" then some (temp "a", point "10:00" 1 ∷ []) else none

entry-IsCache : IsCache entry sources
entry-IsCache (machine, metric) owner points e =
    elim (Bool-cases (machine == "m1" && metric == "temp")) [
      | inl hit ↦
          let shown : ◌≡◌ {A = Option (Result ℕ)} (some (temp "a", point "10:00" 1 ∷ []))
              (some (owner, points)) =
            rw hit at e in
          let owner_a : owner ≡ temp "a" = cc in
          let machine≡ : machine ≡ "m1" = ground (arith, hit, ==_iff machine "m1") in
          let metric≡ : metric ≡ "temp" = ground (arith, hit, ==_iff metric "temp") in
          (inl owner_a, rw (owner_a, machine≡, metric≡) refl)
      | inr miss ↦
          let nothing : ◌≡◌ {A = Option (Result ℕ)} none (some (owner, points)) = rw miss at e in
          absurd cc
    ]

a_ne_b : codes "a" ≢ codes "b"
a_ne_b = λ e. ground (arith, e, ==_iff (codes "a") (codes "b"))

merge-shared_example : IsEmptyLine entry sources (temp "a") ⊎ IsEmptyLine entry sources (temp "b")
merge-shared_example =
    merge-shared entry sources (temp "a") (temp "b") entry-IsCache (refl, (refl, tt)) (inl refl)
      (inr (inl refl)) refl a_ne_b
