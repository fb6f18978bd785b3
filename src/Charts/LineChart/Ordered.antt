-- ===== src/Charts/LineChart/Ordered.antt =====
-- `chartData` of frontend/src/components/widgets/LineChartWidget.tsx: the merged rows in the order of their times.
-- `new Date(t).getTime()` is a parameter, a number for every text.
use industry_dashboard.Base.{
  ◌≡◌, refl, ◌∙◌, subst, inl, inr, false, ◌||◌, List, [], ◌∷◌, map, String, Option, none, Codes,
  ◌==◌, ==_iff, codes_eq, string_eq, arith, Bool-cases, if◌then◌else◌, All, includes, Distinct, ℤ,
}
use industry_dashboard.Base.Sorting.{sort_by, IsSorted, sort_by-IsSorted, IsCommuting, sort_by-fold}
use industry_dashboard.Charts.LineChart
use industry_dashboard.Charts.LineChart.{Result, Row, put, put_all, merge, value_at, get}
use industry_dashboard.Charts.LineChart.Merge.{last_at, points_of, value_at-merge}

module _ {V : Type 0} where
  unfoldable pub chart_data : (String → ℤ) → List (Result V) → List (String × Row V)
  unfolding merge
  chart_data time_of results = sort_by (λ row. time_of row.0) (merge results [])

  abbrev times : List (String × Row V) → List String
  times rows = map (λ row. row.0) rows

  includes-put :
      (u : String) (id : Codes) (p : LineChart.Point V) (rows : List (String × Row V))
      → includes u (times (put id p rows)) ≡ (p.time == u || includes u (times rows))
  unfolding put
  includes-put u id p [] = refl
  includes-put u id p ((t, row) ∷ rows) =
      ground (arith, includes-put u id p rows, ==_iff t p.time, ==_iff t u, ==_iff p.time u)

  put-Distinct :
      (id : Codes) (p : LineChart.Point V) (rows : List (String × Row V))
      → Distinct (times rows)
      → Distinct (times (put id p rows))
  unfolding put
  put-Distinct id p [] d = (refl, tt)
  put-Distinct id p ((t, row) ∷ rows) (n, d) = elim (Bool-cases (t == p.time)) [
    | inl e ↦ rw e (n, d)
    | inr e ↦ rw e (
      ground (arith, includes-put t id p rows, n, e, ==_iff t p.time, ==_iff p.time t),
      put-Distinct id p rows d,
    )
  ]

  put_all-Distinct :
      (id : Codes) (ps : List (LineChart.Point V)) (rows : List (String × Row V))
      → Distinct (times rows)
      → Distinct (times (put_all id ps rows))
  unfolding put_all
  put_all-Distinct id [] rows d = d
  put_all-Distinct id (p ∷ ps) rows d =
      put_all-Distinct id ps (put id p rows) (put-Distinct id p rows d)

  merge-Distinct :
      (results : List (Result V)) (rows : List (String × Row V))
      → Distinct (times rows)
      → Distinct (times (merge results rows))
  unfolding merge
  merge-Distinct [] rows d = d
  merge-Distinct ((ds, points) ∷ rest) rows d =
      merge-Distinct rest (put_all ds.id points rows) (put_all-Distinct ds.id points rows d)

  -- what a row says of a line at a time, or what the rows behind it say
  look : String → Codes → String × Row V → Option V → Option V
  unfolding get
  look t id (u, row) rest = if u == t then get id row else rest

  value_at_cons :
      (t : String) (id : Codes) (row : String × Row V) (rows : List (String × Row V))
      → value_at t id (row ∷ rows) ≡ look t id row (value_at t id rows)
  unfolding value_at look
  value_at_cons t id (u, row) rows = refl

  look_comm :
      (t : String) (id : Codes) (x y : String × Row V)
      → (y.0 == x.0) ≡ false
      → (b : Option V) → look t id x (look t id y b) ≡ look t id y (look t id x b)
  unfolding look
  look_comm t id (u, r) (v, s) h b = elim (Bool-cases (u == t)) [
    | inl e ↦
        let other : (v == t) ≡ false = subst (λ w. (v == w) ≡ false) ((==_iff u t).0 e) h in
        rw (e, other) refl
    | inr e ↦ rw e refl
  ]

  All-look_comm :
      (t : String) (id : Codes) (x : String × Row V) (rows : List (String × Row V))
      → includes x.0 (times rows) ≡ false
      → All (λ y. (b : Option V) → look t id x (look t id y b) ≡ look t id y (look t id x b)) rows
  All-look_comm t id x [] h = tt
  All-look_comm t id x (y ∷ rows) h = elim (Bool-cases (y.0 == x.0)) [
    | inl e ↦ absurd (ground (arith, h, e))
    | inr e ↦ (look_comm t id x y e, All-look_comm t id x rows (ground (arith, h, e)))
  ]

  look-IsCommuting :
      (order : String × Row V → ℤ) (t : String) (id : Codes) (rows : List (String × Row V))
      → Distinct (times rows)
      → IsCommuting order (look t id) rows
  look-IsCommuting order t id [] d = tt
  look-IsCommuting order t id (x ∷ rows) (n, d) =
      (All-look_comm t id x rows n, look-IsCommuting order t id rows d)

  -- The rows of the chart stand in the order of their times, and the chart shows, for the
  -- line of an id at a time, the value of the last point at that time among the points of the results with that
  -- id, in the order of the results, and nothing if there is none.
  pub value_at-chart_data :
      (time_of : String → ℤ) (t : String) (id : Codes) (results : List (Result V))
      → IsSorted (λ row. time_of row.0) (chart_data time_of results)
        × (value_at t id (chart_data time_of results) ≡ last_at t (points_of id results) none)
  unfolding chart_data
  value_at-chart_data time_of t id results = (
    sort_by-IsSorted (λ row. time_of row.0) (merge results []),
    sort_by-fold (λ row. time_of row.0) (value_at t id) (look t id) (merge results [])
          (value_at_cons t id)
          (look-IsCommuting (λ row. time_of row.0) t id (merge results [])
            (merge-Distinct results [] tt))
        ∙ value_at-merge t id results,
  )
